-- ===== src/Recurring/Schedule/Months.antt =====
-- Scheduled dates by their months and years.
use yomochi.Base.{ℕ, ◌+◌, ◌*◌, ◌≤◌, ◌<◌, min, ◌≡◌, true, false, arith}
use yomochi.Base.Result.{ok}
use yomochi.Calendar.{Date, date, IsValid, days_in_month, date_ltb}
use yomochi.Calendar.Order.{rank, date_ltb_iff, days_in_month_bounds, new_date-ok, month_range-ok}
use yomochi.Recurring.{clamped_date, next_month}

-- `clamped_date` in a month that there is returns a valid date of that month.
pub clamped_date_lem :
    (y m dom : ℕ)
    → 1 ≤ y
    → y ≤ 9999
    → 1 ≤ m
    → m ≤ 12
    → 1 ≤ dom
    → let u = date y m (min dom (days_in_month y m)) in (clamped_date y m dom ≡ ok u) × IsValid u
unfolding clamped_date
clamped_date_lem y m dom y1 y2 m1 m2 d1 = (rw (month_range-ok y m m1 m2) (new_date-ok y m _ v), v)
  where
    v : IsValid (date y m (min dom (days_in_month y m)))
    v = ground (arith, days_in_month_bounds y m)

-- The day that a month has for a schedule, and the place of a month in the calendar.
abbrev pub clamp : ℕ → ℕ → ℕ → ℕ
clamp y m dom = min dom (days_in_month y m)

abbrev pub month_index : ℕ → ℕ → ℕ
month_index y m = y * 12 + m

-- A scheduled date in no earlier month is not before the month's own scheduled date.
pub month_least :
    (y m dom : ℕ) (s : Date)
    → IsValid (date y m (clamp y m dom))
    → IsValid s
    → s.day ≡ clamp s.year s.month dom
    → month_index y m ≤ month_index s.year s.month
    → date_ltb s (date y m (clamp y m dom)) ≡ false
unfolding date_ltb
month_least y m dom s v w d le = ground (arith, w.month_pos, w.month_max, v.month_pos, v.month_max)

-- One that is not before a date which the month's own scheduled date precedes is in a later month.
pub later_month :
    (y m dom : ℕ) (t s : Date)
    → IsValid s
    → IsValid t
    → s.day ≡ clamp s.year s.month dom
    → t.year ≡ y
    → t.month ≡ m
    → date_ltb (date y m (clamp y m dom)) t ≡ true
    → date_ltb s t ≡ false
    → month_index y m + 1 ≤ month_index s.year s.month
unfolding date_ltb
later_month y m dom t s v w d ey em c h =
    ground (arith, v.month_pos, v.month_max, w.month_pos, w.month_max)

pub next_month_lem :
    (y m : ℕ)
    → 1 ≤ m
    → m ≤ 12
    → let (y', m') = next_month y m in
      (month_index y' m' ≡ month_index y m + 1) × (1 ≤ m') × (m' ≤ 12) × (y ≤ y') × (y' ≤ y + 1)
unfolding next_month
next_month_lem y m lo hi = ground arith

-- Dates by their months.
pub month-le :
    (t s : Date)
    → IsValid s
    → IsValid t
    → date_ltb s t ≡ false
    → month_index t.year t.month ≤ month_index s.year s.month
unfolding date_ltb
month-le t s v w h = ground (arith, v.month_pos, v.month_max, w.month_pos, w.month_max)

pub month-not_before :
    (t s : Date)
    → IsValid s
    → IsValid t
    → month_index t.year t.month < month_index s.year s.month
    → date_ltb s t ≡ false
unfolding date_ltb
month-not_before t s v w h = ground (arith, v.month_pos, v.month_max, w.month_pos, w.month_max)

pub month-after :
    (t s : Date)
    → IsValid s
    → IsValid t
    → month_index t.year t.month < month_index s.year s.month
    → date_ltb t s ≡ true
unfolding date_ltb
month-after t s v w h = ground (arith, v.month_pos, v.month_max, w.month_pos, w.month_max)

-- One that is not before a date which this year's scheduled date precedes is in a later year.
pub later_year :
    (y m dom : ℕ) (t s : Date)
    → s.month ≡ m
    → s.day ≡ clamp s.year s.month dom
    → t.year ≡ y
    → date_ltb (date y m (clamp y m dom)) t ≡ true
    → date_ltb s t ≡ false
    → y + 1 ≤ s.year
unfolding date_ltb
later_year y m dom t s em d ey c h = ground arith

pub year-le : (t s : Date) → date_ltb s t ≡ false → t.year ≤ s.year
unfolding date_ltb
year-le t s h = ground arith

pub year-not_before : (t s : Date) → t.year < s.year → date_ltb s t ≡ false
unfolding date_ltb
year-not_before t s h = ground arith

pub year-after : (t s : Date) → t.year < s.year → date_ltb t s ≡ true
unfolding date_ltb
year-after t s h = ground arith

pub not_before→le : (t s : Date) → IsValid t → IsValid s → date_ltb s t ≡ false → rank t ≤ rank s
not_before→le t s v w h = ground (arith, date_ltb_iff s t w v)

pub le→not_before : (t s : Date) → IsValid t → IsValid s → rank t ≤ rank s → date_ltb s t ≡ false
le→not_before t s v w h = ground (arith, date_ltb_iff s t w v)

-- A scheduled date after the scheduled date of a month is in a later month.
pub month-lt :
    (t s : Date) (dom : ℕ)
    → IsValid t
    → IsValid s
    → t.day ≡ clamp t.year t.month dom
    → s.day ≡ clamp s.year s.month dom
    → date_ltb t s ≡ true
    → month_index t.year t.month + 1 ≤ month_index s.year s.month
unfolding date_ltb
month-lt t s dom v w d e h = ground (arith, v.month_pos, v.month_max, w.month_pos, w.month_max)
