-- ===== src/Recurring/Schedule/First.antt =====
-- `compute_first_fire_date` returns the first date of the schedule from the start on.
use yomochi.Base.{ℕ, ◌+◌, ◌-◌, ◌%◌, ◌≤◌, ◌≡◌, refl, inl, inr, Option, some, arith, Bool-cases}
use yomochi.Base.Result.{ok}
use yomochi.Calendar.{Date, date, IsValid, date_ltb, plus_days, weekday}
use yomochi.Calendar.Weekday.{
  plus_days_lem, plus_days-ok, plus_days-least, weekday-plus_days, weekday-lt,
}
use yomochi.Recurring.{
  Recurrence, next_month, first_monthly, first_yearly, days_ahead, compute_first_fire_date,
  validate_schedule,
}
use yomochi.Recurring.Schedule.{Matches, InRange, IsFirst, NotBefore, validate_schedule-InRange}
use yomochi.Recurring.Schedule.Months.{
  clamp, clamped_date_lem, month_least, later_month, next_month_lem, month-le, month-not_before,
  later_year, year-le, year-not_before, not_before→le, le→not_before,
}

-- The `monthly` branch of `compute_first_fire_date`.
first_monthly-IsFirst :
    (t : Date) (dom : ℕ)
    → IsValid t
    → t.year ≤ 9990
    → 1 ≤ dom
    → (u : Date) × (first_monthly t dom ≡ ok u)
      × IsFirst (λ s. s.day ≡ clamp s.year s.month dom) (NotBefore t) u
unfolding first_monthly
first_monthly-IsFirst t dom v y d =
    let (made, w) =
      clamped_date_lem t.year t.month dom v.year_pos v.year_max v.month_pos v.month_max d in
    let c = date t.year t.month (clamp t.year t.month dom) in
    elim (Bool-cases (date_ltb c t)) [
      | inl early ↦
          let (y', m') = next_month t.year t.month in
          let next = next_month_lem t.year t.month v.month_pos v.month_max in
          let (made', w') =
            clamped_date_lem y' m' dom (omega arith) (omega arith) next.1 next.2 d in
          (
            date y' m' (clamp y' m' dom),
            rw made (rw early made'),
            record {
              valid = w';
              matches = refl;
              reached = month-not_before t _ w' v (omega arith);
              least = λ s x e h.
                  month_least y' m' dom s w' x e
                    (omega (arith, later_month t.year t.month dom t s x v e refl refl early h));
            },
          )
      | inr late ↦ (
        c,
        rw made (rw late refl),
        record {
          valid = w;
          matches = refl;
          reached = late;
          least = λ s x e h. month_least t.year t.month dom s w x e (month-le t s x v h);
        },
      )
    ]

-- The `yearly` branch of `compute_first_fire_date`.
first_yearly-IsFirst :
    (t : Date) (dom mo : ℕ)
    → IsValid t
    → t.year ≤ 9990
    → 1 ≤ dom
    → 1 ≤ mo
    → mo ≤ 12
    → (u : Date) × (first_yearly t dom mo ≡ ok u)
      × IsFirst (λ s. (s.month ≡ mo) × (s.day ≡ clamp s.year s.month dom)) (NotBefore t) u
unfolding first_yearly
first_yearly-IsFirst t dom mo v y d lo hi =
    let (made, w) = clamped_date_lem t.year mo dom v.year_pos v.year_max lo hi d in
    let (made', w') = clamped_date_lem (t.year + 1) mo dom (omega arith) (omega arith) lo hi d in
    let c = date t.year mo (clamp t.year mo dom) in
    elim (Bool-cases (date_ltb c t)) [
      | inl early ↦ (
        date (t.year + 1) mo (clamp (t.year + 1) mo dom),
        rw made (rw early made'),
        record {
          valid = w';
          matches = (refl, refl);
          reached = year-not_before t _ (omega arith);
          least = λ s x e h.
              month_least (t.year + 1) mo dom s w' x e.1
                (omega (arith, e.0, later_year t.year mo dom t s e.0 e.1 refl early h));
        },
      )
      | inr late ↦ (
        c,
        rw made (rw late refl),
        record {
          valid = w;
          matches = (refl, refl);
          reached = late;
          least =
              λ s x e h. month_least t.year mo dom s w x e.1 (omega (arith, e.0, year-le t s h));
        },
      )
    ]

-- The `weekly` branch of `compute_first_fire_date`.
first_weekly-IsFirst :
    (t : Date) (dow : ℕ)
    → IsValid t
    → t.year ≤ 9990
    → dow ≤ 6
    → (u : Date) × (plus_days t (days_ahead dow (weekday t)) ≡ ok u)
      × IsFirst (λ s. weekday s ≡ dow) (NotBefore t) u
unfolding days_ahead
first_weekly-IsFirst t dow v y d =
    let n = (dow + 7 - weekday t) % 7 in
    let (u, made) = plus_days-ok n t (omega arith) in
    let moved = plus_days_lem n t u v made in
    (
      u,
      made,
      record {
        valid = moved.0;
        matches = omega (arith, weekday-plus_days n t u v made, weekday-lt t);
        reached = le→not_before t u v moved.0 (omega arith);
        least = λ s w e h. le→not_before u s moved.0 w (
            plus_days-least n t u s v w (omega arith) (omega (arith, weekday-lt t))
              (not_before→le t s v w h) made);
      },
    )

first :
    (t : Date) (r : Recurrence) (dom dow mo : Option ℕ)
    → IsValid t
    → t.year ≤ 9990
    → InRange r dom dow mo
    → (u : Date) × (compute_first_fire_date t r dom dow mo ≡ ok u)
      × IsFirst (Matches r dom dow mo) (NotBefore t) u
unfolding compute_first_fire_date
first t Recurrence.weekly dom (some dow) mo v y h = first_weekly-IsFirst t dow v y h
first t Recurrence.monthly (some dom) dow mo v y h = first_monthly-IsFirst t dom v y h
first t Recurrence.yearly (some dom) dow (some mo) v y h =
    first_yearly-IsFirst t dom mo v y h.0 h.1 h.2
first t _ _ _ _ v y h = absurd h

-- For a validated schedule and a valid start up to the year 9990, the first fire date exists. It
-- is a date of the schedule, is not before the start, and no date of the schedule from the start
-- on precedes it.
pub compute_first_fire_date-IsFirst :
    (t : Date) (r : Recurrence) (dom dow mo : Option ℕ)
    → IsValid t
    → t.year ≤ 9990
    → validate_schedule r dom dow mo ≡ ok tt
    → (u : Date) × (compute_first_fire_date t r dom dow mo ≡ ok u)
      × IsFirst (Matches r dom dow mo) (NotBefore t) u
compute_first_fire_date-IsFirst t r dom dow mo v y h =
    first t r dom dow mo v y (validate_schedule-InRange r dom dow mo h)
