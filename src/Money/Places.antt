-- ===== src/Money/Places.antt =====
-- Which amounts are accepted: app/domain/value_objects/money.py.
use native.Mathlib.Omega.{pow_step}
use yomochi.Base.{
  ℕ, zero, suc, ◌+◌, ◌-◌, ◌*◌, ◌/◌, ◌%◌, ◌^◌, ◌≤◌, ◌<◌, ◌≡◌, ◌↔◌, ◌⊎◌, inl, inr, refl, Bool, false,
  arith, ◌==◌, ==_iff, Bool-cases, lt→ltb, ℕ-cases, ◌≢◌, ap, ◌∙◌, some, true, ltb,
}
use yomochi.Base.Result.{ok}
use yomochi.Money.{
  ℤ, pos, negsuc, Decimal, Currency, raise_by, excess, round_half_even, strip_zeros, reduce,
  normalize, places, new_money, precision_bound, shortfall, overflows, accept_places, max_exponent,
}

places-raise_by : (e : ℤ) → places (raise_by 1 e) ≡ places e - 1
unfolding places raise_by
places-raise_by (pos n) = omega arith
places-raise_by (negsuc n) = ground arith

-- The number has no digit other than zero past a number of places.
unfoldable pub HasPlaces : ℕ → ℕ → ℤ → Type 0
HasPlaces d c e = (q : ℕ) × (c ≡ q * 10 ^ (places e - d))

HasPlaces-few : (d c : ℕ) (e : ℤ) → places e ≤ d → HasPlaces d c e
unfolding HasPlaces
HasPlaces-few d c e h =
    let none_left : places e - d ≡ 0 = omega arith in (c, rw none_left (omega arith))

-- Where the last digit counts, the next power of ten divides.
power_step : (p d : ℕ) → d < p → 10 ^ (p - d) ≡ 10 * 10 ^ (p - 1 - d)
power_step p d h =
    let one_more : p - d ≡ suc (p - 1 - d) = omega arith in rw one_more (pow_step 10 (p - 1 - d))

ten_out : (q m : ℕ) → q * (10 * m) ≡ 10 * (q * m)
ten_out q m = omega arith

HasPlaces-strip :
    (d c : ℕ) (e : ℤ) → c % 10 ≡ 0 → HasPlaces d (c / 10) (raise_by 1 e) ↔ HasPlaces d c e
unfolding HasPlaces
HasPlaces-strip d c e h = elim (ℕ-cases (places e) d) [
  | inl few ↦ (
    λ _. HasPlaces-few d c e few,
    λ _. HasPlaces-few d (c / 10) (raise_by 1 e) (rw (places-raise_by e) (omega arith)),
  )
  | inr many ↦
      rw (places-raise_by e, power_step (places e) d many)
        (
          λ (q, cq). (q, omega (arith, cq, ten_out q (10 ^ (places e - 1 - d)))),
          λ (q, cq). (q, omega (arith, cq, ten_out q (10 ^ (places e - 1 - d)))),
        )
]

HasPlaces-last : (d c : ℕ) (e : ℤ) → c % 10 ≢ 0 → HasPlaces d c e → places e ≤ d
unfolding HasPlaces
HasPlaces-last d c e h (q, cq) = elim (ℕ-cases (places e) d) [
  | inl few ↦ few
  | inr many ↦
      let below = power_step (places e) d many in
      absurd (h (omega (arith, cq ∙ ap (λ m. q * m) below, ten_out q (10 ^ (places e - 1 - d)))))
]

strip_zeros-places :
    (d n c : ℕ) (e : ℤ) → 0 < c → c ≤ n → (places (strip_zeros n c e).1 ≤ d) ↔ HasPlaces d c e
unfolding strip_zeros
strip_zeros-places d zero c e h bound = absurd (omega arith)
strip_zeros-places d (suc n) c e h bound = elim (Bool-cases (c % 10 == 0)) [
  | inl last ↦
      rw (last, strip_zeros)
        (let divides = (==_iff (c % 10) 0).0 last in
          let (down, up) = HasPlaces-strip d c e divides in
          let (sound, complete) =
            strip_zeros-places d n (c / 10) (raise_by 1 e) (omega (arith, divides)) (omega arith) in
          (λ h. down (sound h), λ h. complete (up h)))
  | inr last ↦
      rw (last, strip_zeros) (HasPlaces-few d c e, HasPlaces-last d c e (λ z. ground (arith)))
]

excess_short : (n c : ℕ) → c < precision_bound → excess n c ≡ 0
unfolding excess
excess_short zero c short = refl
excess_short (suc n) c short = let kept = lt→ltb c precision_bound short in rw (kept, excess) refl

round_half_even_one : (c : ℕ) → round_half_even c 1 ≡ c
unfolding round_half_even
round_half_even_one c = ground arith

raise_by_zero : (e : ℤ) → raise_by 0 e ≡ e
unfolding raise_by
raise_by_zero (pos n) = ap pos (omega arith)
raise_by_zero (negsuc n) = ground arith

reduce_nonzero : (c : ℕ) (e : ℤ) → (c == 0) ≡ false → reduce c e ≡ strip_zeros c c e
unfolding reduce
reduce_nonzero c e h = rw (h, reduce) refl

-- An exponent that stays within the context's range under a coefficient of 28 digits at most.
abbrev pub InContext : ℤ → Type 0
InContext (pos n) = n + 28 ≤ max_exponent
InContext (negsuc n) = n + 1 ≤ max_exponent

InContext-shortfall : (e : ℤ) → InContext e → shortfall e ≡ 0
unfolding shortfall
InContext-shortfall (pos n) h = refl
InContext-shortfall (negsuc n) h = omega (arith, h)

InContext-overflows : (c : ℕ) (e : ℤ) → InContext e → overflows c e ≡ false
unfolding overflows
InContext-overflows c (pos n) h =
    let fits : ltb (n + 28) (max_exponent + 1) ≡ true = lt→ltb _ _ (omega (arith, h)) in
    rw (fits, overflows) refl
InContext-overflows c (negsuc n) h = refl

-- Of a coefficient of 28 digits at most, the context rounds nothing away.
normalize_short :
    (c : ℕ) (e : ℤ)
    → 0 < c
    → c < precision_bound
    → InContext e
    → normalize c e ≡ some (strip_zeros c c e)
unfolding normalize
normalize_short c e h short fits =
    let counts : (c == 0) ≡ false = ground arith in
    rw
      (
        excess_short c c short,
        InContext-shortfall e fits,
        round_half_even_one c,
        raise_by_zero e,
        InContext-overflows c e fits,
      )
      (ap some (reduce_nonzero c e counts))

normalize_zero : (e : ℤ) → InContext e → normalize 0 e ≡ some (0, pos 0)
unfolding normalize excess round_half_even reduce
normalize_zero e fits =
    rw (InContext-shortfall e fits, raise_by_zero e, InContext-overflows 0 e fits) refl

-- What is normalized, and its places.
normalize-places :
    (d c : ℕ) (e : ℤ)
    → c < precision_bound
    → InContext e
    → (r : ℕ × ℤ) × (normalize c e ≡ some r) × ((places r.1 ≤ d) ↔ HasPlaces d c e)
unfolding HasPlaces places
normalize-places d zero e short fits =
    ((0, pos 0), normalize_zero e fits, (λ _. (0, omega arith), λ _. omega arith))
normalize-places d (suc n) e short fits = (
  strip_zeros (suc n) (suc n) e,
  normalize_short (suc n) e (omega arith) short fits,
  strip_zeros-places d (suc n) (suc n) e (omega arith) (omega arith),
)

-- For a coefficient of at most 28 digits and an exponent from -999,999 to 999,971, an amount is
-- accepted, as it is, exactly when it is not negative and has no digit other than zero past the decimal
-- places of its currency.
pub new_money_accepts :
    (sign : Bool) (c : ℕ) (e : ℤ) (currency : Currency)
    → c < precision_bound
    → InContext e
    → (new_money (Decimal.finite sign c e) currency
        ≡ ok (record { amount = Decimal.finite sign c e; currency = currency }))
      ↔ (((sign ≡ false) ⊎ (c ≡ 0)) × HasPlaces currency.minor_unit_digits c e)
unfolding new_money accept_places
new_money_accepts sign c e currency short fits =
    let (r, made, within) = normalize-places currency.minor_unit_digits c e short fits in
    rw made (ground (arith, within))
