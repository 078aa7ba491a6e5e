-- ===== src/Money/Parse.antt =====
-- `Money.from_string` of app/domain/value_objects/money.py, with Python's grammar for the text of a
-- Decimal: a sign, digits with at most one point, an exponent, or a word for infinity or no number.
use yomochi.Base.{
  ℕ, ◌+◌, ◌-◌, ◌*◌, Bool, true, false, ◌&&◌, ◌||◌, Option, none, some, [], ◌∷◌, leb, ◌==◌,
  if◌then◌else◌, select, not,
}
use yomochi.Base.Result.{Result, err}
use yomochi.Text.{Text, codes, text_eq, strip, lower, starts_with}
use yomochi.Money.{ℤ, pos, negsuc, Decimal, MoneyError, Currency, Money, new_money}

-- The exponent lowered by a number of places.
unfoldable pub lower_by : ℕ → ℤ → ℤ
lower_by k (pos n) = if leb k n then pos (n - k) else negsuc (k - n - 1)
lower_by k (negsuc n) = negsuc (n + k)

abbrev is_digit : ℕ → Bool
is_digit c = leb b'0' c && leb c b'9'

-- A minus sign before the rest.
unfoldable pub read_sign : Text → Bool × Text
read_sign [] = (false, [])
read_sign (c ∷ s) =
    if c == b'-' then (true, s) else if c == b'+' then (false, s) else (false, c ∷ s)

-- The digits at the front, after a value and a number of digits already read.
unfoldable pub read_digits : ℕ → ℕ → Text → ℕ × (ℕ × Text)
read_digits v n [] = (v, (n, []))
read_digits v n (c ∷ s) =
    let rest = read_digits (v * 10 + (c - b'0')) (n + 1) s in
    if is_digit c then rest else (v, (n, c ∷ s))

-- The exponent's sign and value, where the text is one.
unfoldable pub read_exponent : Text → Option ℤ
unfolding read_sign read_digits lower_by
read_exponent [] = some (pos 0)
read_exponent (c ∷ s) =
    let signed = read_sign s in
    let digits = read_digits 0 0 signed.1 in
    let done = text_eq digits.1.1 [] && not (digits.1.0 == 0) in
    if c == b'e' && done
    then some (if signed.0 then lower_by digits.0 (pos 0) else pos digits.0)
    else none

-- The digits after the point, if there is one.
unfoldable pub read_fraction : ℕ → Text → ℕ × (ℕ × Text)
unfolding read_digits
read_fraction v [] = (v, (0, []))
read_fraction v (c ∷ s) = if c == b'.' then read_digits v 0 s else (v, (0, c ∷ s))

unfoldable pub read_number : Bool → Text → Option Decimal
unfolding read_digits read_fraction read_exponent lower_by
read_number sign s =
    let whole = read_digits 0 0 s in
    let fraction = read_fraction whole.0 whole.1.1 in
    if whole.1.0 + fraction.1.0 == 0 then none else elim (read_exponent fraction.1.1) [
      | none ↦ none
      | some e ↦ some (Decimal.finite sign fraction.0 (lower_by fraction.1.0 e))
    ]

-- `nan` and `snan`, with a number or none.
unfoldable pub is_nan : Text → Bool
unfolding starts_with text_eq
is_nan (c ∷ s) =
    let t = if c == b's' then s else c ∷ s in
    starts_with t (codes "nan") && text_eq (select (λ d. not (is_digit d)) t) (codes "nan")
is_nan [] = false

-- `Decimal(text)`.
unfoldable pub parse_decimal : Text → Option Decimal
unfolding strip lower text_eq read_sign read_number is_nan
parse_decimal raw =
    let signed = read_sign (lower (select (λ c. not (c == b'_')) (strip raw))) in
    let s = signed.1 in
    if text_eq s (codes "inf") || text_eq s (codes "infinity")
    then some Decimal.infinity
    else if is_nan s
    then some Decimal.nan
    else read_number signed.0 s

unfoldable pub from_string : Text → Currency → Result MoneyError Money
unfolding parse_decimal new_money
from_string raw_amount currency = elim (parse_decimal raw_amount) [
  | none ↦ err MoneyError.invalid_money
  | some amount ↦ new_money amount currency
]
