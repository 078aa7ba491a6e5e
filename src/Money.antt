-- ===== src/Money.antt =====
-- Amounts and currencies: app/domain/value_objects/money.py, with what it uses of Python's Decimal: the
-- constructor on ASCII texts, and `normalize` in the default context, which rounds to 28 digits, half to
-- even, and has exponents up to 999,999 either way.
pub mod Parse
pub mod Places
use Prim.Native.Char
use yomochi.Base.{
  ℕ, zero, suc, ◌+◌, ◌-◌, ◌*◌, ◌/◌, ◌%◌, ◌^◌, String, Bool, true, false, not, ◌&&◌, ◌||◌, Option,
  none, some, List, [], ◌∷◌, ltb, leb, ◌==◌, if◌then◌else◌, max,
}
use yomochi.Base.Result.{Result, ok, err, ◌>>=◌}
use yomochi.Text.{Text, codes, text_eq, is_empty, strip, upper, lower, starts_with}

pub data ℤ : Type 0 where
  pos : ℕ → ℤ
  negsuc : ℕ → ℤ

-- A finite number is (-1) ^ sign * coefficient * 10 ^ exponent.
pub data Decimal : Type 0 where
  finite : Bool → ℕ → ℤ → Decimal
  infinity nan : Decimal

pub data MoneyError : Type 0 where
  invalid_money invalid_currency overflow : MoneyError

pub record Currency : Type 0 where
  pub code : Text
  pub minor_unit_digits : ℕ

pub record Money : Type 0 where
  pub amount : Decimal
  pub currency : Currency

abbrev pub iso_4217 : List (String × ℕ)
iso_4217 =
    ("JPY", 0)
    ∷ ("KRW", 0)
    ∷ ("VND", 0)
    ∷ ("IDR", 0)
    ∷ ("CLP", 0)
    ∷ ("ISK", 0)
    ∷ ("UGX", 0)
    ∷ ("RWF", 0)
    ∷ ("GNF", 0)
    ∷ ("PYG", 0)
    ∷ ("USD", 2)
    ∷ ("EUR", 2)
    ∷ ("GBP", 2)
    ∷ ("CHF", 2)
    ∷ ("CAD", 2)
    ∷ ("AUD", 2)
    ∷ ("NZD", 2)
    ∷ ("CNY", 2)
    ∷ ("HKD", 2)
    ∷ ("TWD", 2)
    ∷ ("SGD", 2)
    ∷ ("MYR", 2)
    ∷ ("PHP", 2)
    ∷ ("THB", 2)
    ∷ ("INR", 2)
    ∷ ("PKR", 2)
    ∷ ("BDT", 2)
    ∷ ("LKR", 2)
    ∷ ("NPR", 2)
    ∷ ("SEK", 2)
    ∷ ("NOK", 2)
    ∷ ("DKK", 2)
    ∷ ("PLN", 2)
    ∷ ("CZK", 2)
    ∷ ("HUF", 2)
    ∷ ("RON", 2)
    ∷ ("BGN", 2)
    ∷ ("HRK", 2)
    ∷ ("RSD", 2)
    ∷ ("UAH", 2)
    ∷ ("RUB", 2)
    ∷ ("TRY", 2)
    ∷ ("MXN", 2)
    ∷ ("BRL", 2)
    ∷ ("ARS", 2)
    ∷ ("COP", 2)
    ∷ ("PEN", 2)
    ∷ ("VEF", 2)
    ∷ ("ZAR", 2)
    ∷ ("EGP", 2)
    ∷ ("NGN", 2)
    ∷ ("KES", 2)
    ∷ ("GHS", 2)
    ∷ ("MAD", 2)
    ∷ ("SAR", 2)
    ∷ ("AED", 2)
    ∷ ("QAR", 2)
    ∷ ("ILS", 2)
    ∷ ("GEL", 2)
    ∷ ("AMD", 2)
    ∷ ("AZN", 2)
    ∷ ("KZT", 2)
    ∷ ("UZS", 2)
    ∷ ("MNT", 2)
    ∷ ("KWD", 3)
    ∷ ("BHD", 3)
    ∷ ("OMR", 3)
    ∷ ("JOD", 3)
    ∷ ("IQD", 3)
    ∷ ("TND", 3)
    ∷ ("LYD", 3)
    ∷ []

unfoldable pub digits_of : List (String × ℕ) → Text → Option ℕ
unfolding text_eq
digits_of [] t = none
digits_of ((s, n) ∷ rest) t =
    let later = digits_of rest t in if text_eq (codes s) t then some n else later

-- `Currency(code)`.
unfoldable pub new_currency : Text → Result MoneyError Currency
unfolding strip upper digits_of
new_currency code =
    let normalized = upper (strip code) in
    elim (digits_of iso_4217 normalized) [
      | none ↦ err invalid_currency
      | some n ↦ ok (record { code = normalized; minor_unit_digits = n })
    ]

-- The exponent raised by a number of places.
unfoldable pub raise_by : ℕ → ℤ → ℤ
raise_by k (pos n) = pos (n + k)
raise_by k (negsuc n) = if ltb n k then pos (k - (n + 1)) else negsuc (n - k)

abbrev pub precision_bound : ℕ
precision_bound = 10 ^ 28

-- The digits of a coefficient past the 28th.
unfoldable pub excess : ℕ → ℕ → ℕ
excess zero c = 0
excess (suc n) c = elim (ltb c precision_bound) [ true ↦ 0 | false ↦ suc (excess n (c / 10)) ]

-- `c / m` rounded half to even.
unfoldable pub round_half_even : ℕ → ℕ → ℕ
round_half_even c m =
    let q = c / m in
    let r = (c % m) * 2 in if ltb m r then q + 1 else if r == m then q + q % 2 else q

-- The coefficient without its last zeros, and the exponent that goes with it.
unfoldable pub strip_zeros : ℕ → ℕ → ℤ → ℕ × ℤ
unfolding raise_by
strip_zeros zero c e = (c, e)
strip_zeros (suc n) c e = elim (c % 10 == 0) [
  | true ↦ strip_zeros n (c / 10) (raise_by 1 e)
  | false ↦ (c, e)
]

unfoldable pub reduce : ℕ → ℤ → ℕ × ℤ
unfolding strip_zeros
reduce c e = elim (c == 0) [ true ↦ (0, pos 0) | false ↦ strip_zeros c c e ]

abbrev pub max_exponent : ℕ
max_exponent = 999999

-- The digits of an exponent below the least one, which is 27 below -999,999.
unfoldable pub shortfall : ℤ → ℕ
shortfall (pos n) = 0
shortfall (negsuc n) = n + 1 - (max_exponent + 27)

-- A number of up to 29 digits, the first of them past the greatest exponent.
unfoldable pub overflows : ℕ → ℤ → Bool
overflows c (pos n) = elim (ltb (n + 28) (max_exponent + 1)) [
  | true ↦ false
  | false ↦ not (c == 0) && leb (10 ^ (max_exponent + 1 - n)) c
]
overflows c (negsuc n) = false

-- `normalize` on a finite number, without its sign: `none` is `decimal.Overflow`. What is too small
-- loses digits, down to zero.
unfoldable pub normalize : ℕ → ℤ → Option (ℕ × ℤ)
unfolding excess shortfall round_half_even raise_by overflows reduce
normalize c e =
    let k = max (excess c c) (shortfall e) in
    let rounded = round_half_even c (10 ^ k) in
    if overflows rounded (raise_by k e) then none else some (reduce rounded (raise_by k e))

-- `-exponent if exponent < 0 else 0`.
unfoldable pub places : ℤ → ℕ
places (pos n) = 0
places (negsuc n) = n + 1

-- The test of the places. `decimal.Overflow` is raised as it is.
unfoldable pub accept_places : Decimal → Currency → Option (ℕ × ℤ) → Result MoneyError Money
unfolding places
accept_places amount currency none = err overflow
accept_places amount currency (some normalized) =
    let actual_places = places normalized.1 in
    if ltb currency.minor_unit_digits actual_places
    then err invalid_money
    else ok (record { amount = amount; currency = currency })

-- `Money(amount, currency)`.
unfoldable pub new_money : Decimal → Currency → Result MoneyError Money
unfolding normalize accept_places
new_money infinity currency = err invalid_money
new_money nan currency = err invalid_money
new_money (finite sign c e) currency =
    if sign && not (c == 0)
    then err invalid_money
    else accept_places (finite sign c e) currency (normalize c e)
