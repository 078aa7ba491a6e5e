-- ===== src/Recurring.antt =====
-- The schedule of recurring rules: app/application/recurring/next_fire_date.py, `_validate_schedule`
-- of app/application/recurring/use_cases/create_recurring_rule.py, and the enums they read.
pub mod Schedule
pub mod Firing
pub mod Rules
use yomochi.Base.{
  ℕ, suc, ◌+◌, ◌-◌, ◌%◌, min, Bool, ◌&&◌, Option, none, some, ltb, leb, ◌==◌, if◌then◌else◌,
}
use yomochi.Base.Result.{Result, ok, err, ◌>>=◌}
use yomochi.Calendar.{
  Date, date, DateError, value_error, month_range, new_date, date_ltb, plus_days, weekday,
}

pub data Recurrence : Type 0 where
  no_recurrence weekly monthly yearly : Recurrence

-- `date(y, m, min(day_of_month, calendar.monthrange(y, m)[1]))`.
pub clamped_date : ℕ → ℕ → ℕ → Result DateError Date
clamped_date y m day_of_month = do
  max_day ← month_range y m
  new_date y m (min day_of_month max_day)

-- `m + 1` and `y`, with a month 13 turned into January of the next year.
pub next_month : ℕ → ℕ → ℕ × ℕ
next_month y m = if ltb 12 (m + 1) then (y + 1, 1) else (y, m + 1)

first_monthly : Date → ℕ → Result DateError Date
unfolding next_month
first_monthly start_date day_of_month = do
  candidate ← clamped_date start_date.year start_date.month day_of_month
  if date_ltb candidate start_date
      then (let (y, m) = next_month start_date.year start_date.month in
          clamped_date y m day_of_month)
      else ok candidate

first_yearly : Date → ℕ → ℕ → Result DateError Date
first_yearly start_date day_of_month month = do
  candidate ← clamped_date start_date.year month day_of_month
  if date_ltb candidate start_date
      then clamped_date (start_date.year + 1) month day_of_month
      else ok candidate

-- `(day_of_week - start_date.weekday()) % 7` is never negative in Python.
pub days_ahead : ℕ → ℕ → ℕ
days_ahead day_of_week start = (day_of_week + 7 - start) % 7

unfoldable pub compute_first_fire_date :
    Date → Recurrence → Option ℕ → Option ℕ → Option ℕ → Result DateError Date
unfolding first_monthly first_yearly days_ahead
compute_first_fire_date start_date Recurrence.weekly day_of_month (some day_of_week) month =
    plus_days start_date (days_ahead day_of_week (weekday start_date))
compute_first_fire_date start_date Recurrence.monthly (some day_of_month) day_of_week month =
    first_monthly start_date day_of_month
compute_first_fire_date start_date Recurrence.yearly (some day_of_month) day_of_week (some month) =
    first_yearly start_date day_of_month month
compute_first_fire_date _ _ _ _ _ = err value_error

unfoldable pub advance_next_fire_date :
    Date → Recurrence → Option ℕ → Option ℕ → Option ℕ → Result DateError Date
unfolding next_month
advance_next_fire_date current Recurrence.weekly day_of_month day_of_week month =
    plus_days current 7
advance_next_fire_date current Recurrence.monthly (some day_of_month) day_of_week month =
    let (y, m) = next_month current.year current.month in clamped_date y m day_of_month
advance_next_fire_date current Recurrence.yearly (some day_of_month) day_of_week (some month) =
    clamped_date (current.year + 1) month day_of_month
advance_next_fire_date _ _ _ _ _ = err value_error

pub data ScheduleError : Type 0 where
  invalid_recurrence_schedule : ScheduleError

abbrev check : Bool → Result ScheduleError (Unit {0})
check b = if b then ok tt else err invalid_recurrence_schedule

unfoldable pub validate_schedule :
    Recurrence → Option ℕ → Option ℕ → Option ℕ → Result ScheduleError (Unit {0})
validate_schedule Recurrence.weekly day_of_month (some day_of_week) month =
    check (leb day_of_week 6)
validate_schedule Recurrence.monthly (some day_of_month) day_of_week month =
    check (leb 1 day_of_month && leb day_of_month 28)
validate_schedule Recurrence.yearly (some day_of_month) day_of_week (some month) =
    check ((leb 1 day_of_month && leb day_of_month 28) && (leb 1 month && leb month 12))
validate_schedule _ _ _ _ = err invalid_recurrence_schedule
