-- ===== src/Calendar/Order.antt =====
-- The order of dates, as an order of numbers, and the day after.
use yomochi.Base.{ℕ, ◌+◌, ◌*◌, ◌≤◌, ◌<◌, ◌≡◌, ◌↔◌, true, arith}
use yomochi.Base.Result.{ok}
use yomochi.Calendar.{Date, date, IsValid, days_in_month, month_range, new_date, date_ltb, next_day}

-- Room for 31 days and 12 months: the lexicographic order is the order of ranks.
abbrev pub rank : Date → ℕ
rank t = (t.year * 13 + t.month) * 32 + t.day

pub days_in_month_bounds : (y m : ℕ) → (28 ≤ days_in_month y m) × (days_in_month y m ≤ 31)
unfolding days_in_month
days_in_month_bounds y m = ground arith

pub date_ltb_iff : (a b : Date) → IsValid a → IsValid b → (date_ltb a b ≡ true) ↔ (rank a < rank b)
unfolding date_ltb
date_ltb_iff a b va vb =
    ground (arith, days_in_month_bounds a.year a.month, days_in_month_bounds b.year b.month)

pub rank_inj : (a b : Date) → IsValid a → IsValid b → rank a ≡ rank b → a ≡ b
rank_inj a b va vb e =
    ground (arith, days_in_month_bounds a.year a.month, days_in_month_bounds b.year b.month)

pub new_date-IsValid : (y m d : ℕ) {t : Date} → new_date y m d ≡ ok t → IsValid t × (t ≡ date y m d)
unfolding new_date
new_date-IsValid y m d e = ground arith

pub new_date-ok : (y m d : ℕ) → IsValid (date y m d) → new_date y m d ≡ ok (date y m d)
unfolding new_date
new_date-ok y m d v =
    ground (arith, v.year_pos, v.year_max, v.month_pos, v.month_max, v.day_pos, v.day_max)

pub month_range-ok : (y m : ℕ) → 1 ≤ m → m ≤ 12 → month_range y m ≡ ok (days_in_month y m)
unfolding month_range
month_range-ok y m lo hi = ground arith

-- The next day is valid and later, and no valid date lies between.
pub next_day_lem : (t u : Date) → IsValid t → next_day t ≡ ok u → IsValid u × (rank t < rank u)
unfolding next_day
next_day_lem t u v e = ground (
  arith,
  days_in_month_bounds t.year t.month,
  days_in_month_bounds t.year (t.month + 1),
  days_in_month_bounds (t.year + 1) 1,
)

pub next_day-least :
    (t u s : Date) → IsValid t → IsValid s → next_day t ≡ ok u → rank t < rank s → rank u ≤ rank s
unfolding next_day
next_day-least t u s v w e lt =
    ground (arith, days_in_month_bounds t.year t.month, days_in_month_bounds s.year s.month)
