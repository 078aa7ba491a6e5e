-- ===== src/Recurring/Schedule.antt =====
-- What a schedule means: its dates, and the first of them.
pub mod Months
pub mod First
pub mod Advance
use yomochi.Base.{
  ℕ, zero, suc, ◌+◌, ◌*◌, ◌-◌, ◌%◌, ◌≤◌, ◌<◌, min, ◌≡◌, refl, sym, ap, inl, inr, Bool, true, false,
  Option, none, some, arith, ltb, ltb→lt, Bool-cases, if◌then◌else◌,
}
use yomochi.Base.Result.{Result, ok, err, ◌>>=◌}
use yomochi.Calendar.{Date, date, DateError, IsValid, days_in_month, date_ltb, plus_days, weekday}
use yomochi.Calendar.Order.{
  rank, date_ltb_iff, days_in_month_bounds, new_date-IsValid, new_date-ok, month_range-ok,
  next_day_lem,
}
use yomochi.Calendar.Weekday.{
  plus_days_lem, plus_days-ok, plus_days-least, weekday-plus_days, weekday-lt,
}
use yomochi.Recurring.{
  Recurrence, clamped_date, next_month, first_monthly, first_yearly, days_ahead,
  compute_first_fire_date, advance_next_fire_date, validate_schedule, check,
}

-- The dates that a schedule names: a weekday, or a day of each month or of one month, which in a
-- shorter month is its last day.
abbrev pub Matches : Recurrence → Option ℕ → Option ℕ → Option ℕ → Date → Type 0
Matches Recurrence.weekly dom (some dow) mo t = weekday t ≡ dow
Matches Recurrence.monthly (some dom) dow mo t = t.day ≡ min dom (days_in_month t.year t.month)
Matches Recurrence.yearly (some dom) dow (some mo) t =
    (t.month ≡ mo) × (t.day ≡ min dom (days_in_month t.year t.month))
Matches _ _ _ _ t = ⊥

-- A schedule in its ranges. What `validate_schedule` accepts is one.
abbrev pub InRange : Recurrence → Option ℕ → Option ℕ → Option ℕ → Type 0
InRange Recurrence.weekly dom (some dow) mo = dow ≤ 6
InRange Recurrence.monthly (some dom) dow mo = 1 ≤ dom
InRange Recurrence.yearly (some dom) dow (some mo) = (1 ≤ dom) × (1 ≤ mo) × (mo ≤ 12)
InRange _ _ _ _ = ⊥

-- `u` is the first valid date that satisfies `P` and `From`.
pub record IsFirst (P From : Date → Type 0) (u : Date) : Type 0 where
  pub valid : IsValid u
  pub matches : P u
  pub reached : From u
  pub least : (s : Date) → IsValid s → P s → From s → date_ltb s u ≡ false

-- Not before, and after.
abbrev pub NotBefore : Date → Date → Type 0
NotBefore t s = date_ltb s t ≡ false

abbrev pub After : Date → Date → Type 0
After t s = date_ltb t s ≡ true

-- A validated schedule is in its ranges.
pub validate_schedule-InRange :
    (r : Recurrence) (dom dow mo : Option ℕ)
    → validate_schedule r dom dow mo ≡ ok tt
    → InRange r dom dow mo
unfolding validate_schedule
validate_schedule-InRange Recurrence.weekly dom (some dow) mo h = ground arith
validate_schedule-InRange Recurrence.monthly (some dom) dow mo h = ground arith
validate_schedule-InRange Recurrence.yearly (some dom) dow (some mo) h = ground arith
validate_schedule-InRange r dom dow mo h = ground arith
