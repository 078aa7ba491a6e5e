-- ===== src/Calendar/Weekday.antt =====
-- Day numbers and days of the week under `next_day` and `plus_days`.
use yomochi.Base.{
  ℕ, zero, suc, ◌+◌, ◌%◌, ◌≤◌, ◌<◌, ◌≡◌, refl, arith, ◌≢◌, ap, inl, inr, Bool-cases, ltb,
}
use yomochi.Base.Result.{ok, >>=-ok}
use yomochi.Calendar.{
  Date, date, IsValid, days_in_month, next_day, plus_days, days_before_year, days_before_month,
  to_ordinal, weekday,
}
use yomochi.Calendar.Order.{rank, next_day_lem, next_day-least, rank_inj}

days_before_month-suc :
    (y m : ℕ) → 1 ≤ m → days_before_month y (m + 1) ≡ days_before_month y m + days_in_month y m
unfolding days_before_month
days_before_month-suc y zero h = absurd (omega arith)
days_before_month-suc y (suc m) h = ground arith

year_length :
    (y : ℕ)
    → 1 ≤ y
    → days_before_year (y + 1) ≡ days_before_year y + (days_before_month y 12 + days_in_month y 12)
unfolding days_before_year days_before_month days_in_month
year_length y h = ground arith

-- The day after has the next day number.
pub to_ordinal-next_day :
    (t u : Date) → IsValid t → next_day t ≡ ok u → to_ordinal u ≡ to_ordinal t + 1
unfolding next_day to_ordinal
to_ordinal-next_day t u v e =
    ground (arith, days_before_month-suc t.year t.month v.month_pos, year_length t.year v.year_pos)

pub weekday-next_day :
    (t u : Date) → IsValid t → next_day t ≡ ok u → weekday u ≡ (weekday t + 1) % 7
unfolding weekday
weekday-next_day t u v e = omega (arith, to_ordinal-next_day t u v e)

-- A sum with `timedelta` is valid, and as many days later.
pub plus_days_lem :
    (n : ℕ) (t u : Date)
    → IsValid t
    → plus_days t n ≡ ok u
    → IsValid u × (rank t + n ≤ rank u) × (to_ordinal u ≡ to_ordinal t + n)
unfolding plus_days
plus_days_lem zero t u v e = ground arith
plus_days_lem (suc n) t u v e =
    let (w, rest, step) = >>=-ok (λ w. plus_days w n) (next_day t) e in
    let after = next_day_lem t w v step in
    omega (arith, plus_days_lem n w u after.0 rest, to_ordinal-next_day t w v step)

-- Seven years before the last one a sum of at most seven days does not overflow.
next_day-ok : (t : Date) → t.year < 9999 → (u : Date) × (next_day t ≡ ok u) × (u.year ≤ t.year + 1)
unfolding next_day
next_day-ok t h = elim (Bool-cases (ltb t.day (days_in_month t.year t.month))) [
  | inl e ↦ (date t.year t.month (t.day + 1), ground arith, omega arith)
  | inr e ↦ elim (Bool-cases (ltb t.month 12)) [
    | inl f ↦ (date t.year (t.month + 1) 1, ground arith, omega arith)
    | inr f ↦ (date (t.year + 1) 1 1, ground arith, omega arith)
  ]
]

pub plus_days-ok : (n : ℕ) (t : Date) → t.year + n ≤ 9999 → (u : Date) × (plus_days t n ≡ ok u)
unfolding plus_days
plus_days-ok zero t h = (t, refl)
plus_days-ok (suc n) t h =
    let (w, step, later) = next_day-ok t (omega arith) in
    let (u, rest) = plus_days-ok n w (omega arith) in (u, rw step rest)

pub weekday-plus_days :
    (n : ℕ) (t u : Date) → IsValid t → plus_days t n ≡ ok u → weekday u ≡ (weekday t + n) % 7
unfolding weekday
weekday-plus_days n t u v e = omega (arith, plus_days_lem n t u v e)

-- Within a week, the sum reaches the first day of its weekday: no such day is passed over.
pub plus_days-least :
    (n : ℕ) (t u s : Date)
    → IsValid t
    → IsValid s
    → n < 7
    → weekday s ≡ (weekday t + n) % 7
    → rank t ≤ rank s
    → plus_days t n ≡ ok u
    → rank u ≤ rank s
unfolding plus_days
plus_days-least zero t u s v w lt d le e = ground arith
plus_days-least (suc n) t u s v w lt d le e =
    let (x, rest, step) = >>=-ok (λ x. plus_days x n) (next_day t) e in
    let days = weekday-next_day t x v step in
    let apart : rank t ≢ rank s = λ same. omega (arith, ap weekday (rank_inj t s v w same)) in
    plus_days-least n x u s (next_day_lem t x v step).0 w (omega arith) (omega arith)
      (next_day-least t x s v w step (omega arith)) rest

pub weekday-lt : (t : Date) → weekday t < 7
unfolding weekday
weekday-lt t = omega arith

-- A week on is the first later day of the same weekday.
pub plus_days-least_after :
    (n : ℕ) (t u s : Date)
    → IsValid t
    → IsValid s
    → n < 7
    → weekday s ≡ (weekday t + suc n) % 7
    → rank t < rank s
    → plus_days t (suc n) ≡ ok u
    → rank u ≤ rank s
unfolding plus_days
plus_days-least_after n t u s v w lt d after e =
    let (x, rest, step) = >>=-ok (λ x. plus_days x n) (next_day t) e in
    plus_days-least n x u s (next_day_lem t x v step).0 w lt
      (omega (arith, weekday-next_day t x v step)) (next_day-least t x s v w step after) rest
