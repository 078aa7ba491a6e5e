-- ===== src/Recurring/Schedule/Advance.antt =====
-- `advance_next_fire_date` goes to the very next date of the schedule.
use yomochi.Base.{ℕ, ◌+◌, ◌≤◌, ◌≡◌, refl, Option, some, arith}
use yomochi.Base.Result.{ok}
use yomochi.Calendar.{Date, date, IsValid, plus_days, weekday}
use yomochi.Calendar.Order.{date_ltb_iff}
use yomochi.Calendar.Weekday.{
  plus_days_lem, plus_days-ok, plus_days-least_after, weekday-plus_days, weekday-lt,
}
use yomochi.Recurring.{Recurrence, clamped_date, next_month, advance_next_fire_date}
use yomochi.Recurring.Schedule.{Matches, InRange, IsFirst, After}
use yomochi.Recurring.Schedule.Months.{
  clamp, clamped_date_lem, month-lt, month_least, next_month_lem, month-after, year-after,
  le→not_before,
}

advance_weekly-IsFirst :
    (t : Date) (dow : ℕ)
    → IsValid t
    → t.year ≤ 9990
    → weekday t ≡ dow
    → (u : Date) × (plus_days t 7 ≡ ok u) × IsFirst (λ s. weekday s ≡ dow) (After t) u
advance_weekly-IsFirst t dow v y e =
    let (u, made) = plus_days-ok 7 t (omega arith) in
    let moved = plus_days_lem 7 t u v made in
    (
      u,
      made,
      record {
        valid = moved.0;
        matches = omega (arith, weekday-plus_days 7 t u v made, weekday-lt t);
        reached = (date_ltb_iff t u v moved.0).1 (omega arith);
        least = λ s w d h. le→not_before u s moved.0 w (
            plus_days-least_after 6 t u s v w (omega arith) (omega (arith, weekday-lt t))
              ((date_ltb_iff t s v w).0 h) made);
      },
    )

advance_monthly-IsFirst :
    (t : Date) (dom : ℕ)
    → IsValid t
    → t.year ≤ 9990
    → 1 ≤ dom
    → t.day ≡ clamp t.year t.month dom
    → let (y, m) = next_month t.year t.month in
      (u : Date) × (clamped_date y m dom ≡ ok u)
      × IsFirst (λ s. s.day ≡ clamp s.year s.month dom) (After t) u
advance_monthly-IsFirst t dom v y d e =
    let (y', m') = next_month t.year t.month in
    let next = next_month_lem t.year t.month v.month_pos v.month_max in
    let (made, w) = clamped_date_lem y' m' dom (omega arith) (omega arith) next.1 next.2 d in
    (
      date y' m' (clamp y' m' dom),
      made,
      record {
        valid = w;
        matches = refl;
        reached = month-after t _ w v (omega arith);
        least =
            λ s x f h. month_least y' m' dom s w x f (omega (arith, month-lt t s dom v x e f h));
      },
    )

advance_yearly-IsFirst :
    (t : Date) (dom mo : ℕ)
    → IsValid t
    → t.year ≤ 9990
    → 1 ≤ dom
    → 1 ≤ mo
    → mo ≤ 12
    → t.month ≡ mo
    → t.day ≡ clamp t.year t.month dom
    → (u : Date) × (clamped_date (t.year + 1) mo dom ≡ ok u)
      × IsFirst (λ s. (s.month ≡ mo) × (s.day ≡ clamp s.year s.month dom)) (After t) u
advance_yearly-IsFirst t dom mo v y d lo hi em e =
    let (made, w) = clamped_date_lem (t.year + 1) mo dom (omega arith) (omega arith) lo hi d in
    (
      date (t.year + 1) mo (clamp (t.year + 1) mo dom),
      made,
      record {
        valid = w;
        matches = (refl, refl);
        reached = year-after t _ (omega arith);
        least = λ s x f h.
            month_least (t.year + 1) mo dom s w x f.1
              (omega (arith, f.0, em, month-lt t s dom v x e f.1 h));
      },
    )

-- For a schedule in its ranges and a valid date of it up to the year 9990, the advance succeeds.
-- It ends at a later date of the schedule, and passes over no date of the schedule.
pub advance_next_fire_date-IsFirst :
    (t : Date) (r : Recurrence) (dom dow mo : Option ℕ)
    → IsValid t
    → t.year ≤ 9990
    → InRange r dom dow mo
    → Matches r dom dow mo t
    → (u : Date) × (advance_next_fire_date t r dom dow mo ≡ ok u)
      × IsFirst (Matches r dom dow mo) (After t) u
unfolding advance_next_fire_date
advance_next_fire_date-IsFirst t Recurrence.weekly dom (some dow) mo v y h m =
    advance_weekly-IsFirst t dow v y m
advance_next_fire_date-IsFirst t Recurrence.monthly (some dom) dow mo v y h m =
    advance_monthly-IsFirst t dom v y h m
advance_next_fire_date-IsFirst t Recurrence.yearly (some dom) dow (some mo) v y h m =
    advance_yearly-IsFirst t dom mo v y h.0 h.1 h.2 m.0 m.1
advance_next_fire_date-IsFirst t _ _ _ _ v y h m = absurd h
