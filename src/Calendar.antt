-- ===== src/Calendar.antt =====
-- Python's `datetime.date` and `calendar.monthrange`, as far as the recurring rules use them.
-- Dates run from 0001-01-01 to 9999-12-31; a date past the end raises, as in Python.
pub mod Order
pub mod Weekday
use yomochi.Base.{
  ℕ, zero, suc, ◌+◌, ◌-◌, ◌*◌, ◌/◌, ◌%◌, ◌≤◌, Bool, not, ◌&&◌, ◌||◌, ltb, leb, ◌==◌, if◌then◌else◌,
}
use yomochi.Base.Result.{Result, ok, err, ◌>>=◌}

pub record Date : Type 0 where
  pub year : ℕ
  pub month : ℕ
  pub day : ℕ

-- The exceptions of the recurring rules: `ValueError`, and `OverflowError` of `date + timedelta`.
pub data DateError : Type 0 where
  value_error overflow_error : DateError

pub is_leap : ℕ → Bool
is_leap y = y % 4 == 0 && (not (y % 100 == 0) || y % 400 == 0)

-- The length of a month from 1 to 12.
unfoldable pub days_in_month : ℕ → ℕ → ℕ
unfolding is_leap
days_in_month y m =
    if (m == 4 || m == 6) || (m == 9 || m == 11)
    then 30
    else if m == 2
    then (if is_leap y then 29 else 28)
    else 31

abbrev pub date : ℕ → ℕ → ℕ → Date
date y m d = record { year = y; month = m; day = d }

-- `calendar.monthrange(y, m)[1]`, which refuses a month that there is not.
pub month_range : ℕ → ℕ → Result DateError ℕ
month_range y m = if leb 1 m && leb m 12 then ok (days_in_month y m) else err DateError.value_error

-- `date(y, m, d)`.
pub new_date : ℕ → ℕ → ℕ → Result DateError Date
new_date y m d =
    if ((leb 1 y && leb y 9999) && (leb 1 m && leb m 12)) && (leb 1 d && leb d (days_in_month y m))
    then ok (date y m d)
    else err DateError.value_error

pub record IsValid (t : Date) : Type 0 where
  pub year_pos : 1 ≤ t.year
  pub year_max : t.year ≤ 9999
  pub month_pos : 1 ≤ t.month
  pub month_max : t.month ≤ 12
  pub day_pos : 1 ≤ t.day
  pub day_max : t.day ≤ days_in_month t.year t.month

-- `a < b`.
unfoldable pub date_ltb : Date → Date → Bool
date_ltb a b =
    ltb a.year b.year
    || (a.year == b.year && (ltb a.month b.month || (a.month == b.month && ltb a.day b.day)))

-- `t + timedelta(days=1)`.
pub next_day : Date → Result DateError Date
next_day t =
    if ltb t.day (days_in_month t.year t.month)
    then ok (date t.year t.month (t.day + 1))
    else if ltb t.month 12
    then ok (date t.year (t.month + 1) 1)
    else if ltb t.year 9999
    then ok (date (t.year + 1) 1 1)
    else err DateError.overflow_error

-- `t + timedelta(days=n)`.
pub plus_days : Date → ℕ → Result DateError Date
plus_days t zero = ok t
plus_days t (suc n) = next_day t >>= λ u. plus_days u n

days_before_year : ℕ → ℕ
days_before_year y = ((y - 1) * 365 + (y - 1) / 4 + (y - 1) / 400) - (y - 1) / 100

days_before_month : ℕ → ℕ → ℕ
days_before_month y zero = 0
days_before_month y (suc m) =
    let before = days_before_month y m in if m == 0 then 0 else before + days_in_month y m

-- `t.toordinal()`.
pub to_ordinal : Date → ℕ
unfolding days_before_year days_before_month
to_ordinal t = days_before_year t.year + days_before_month t.year t.month + t.day

-- `t.weekday()`: Monday is 0.
pub weekday : Date → ℕ
unfolding to_ordinal
weekday t = (to_ordinal t + 6) % 7
