-- ===== src/Recurring/Firing/CatchUp.antt =====
-- Where a rule stands after it has fired.
use yomochi.Base.{
  ℕ, zero, suc, ◌+◌, ◌≤◌, ◌≡◌, refl, inl, inr, true, false, arith, Bool-cases, ℕ-cases,
}
use yomochi.Base.Result.{ok}
use yomochi.Calendar.{Date, IsValid, date_ltb}
use yomochi.Calendar.Order.{rank, date_ltb_iff}
use yomochi.Recurring.Schedule.{Matches, InRange, IsFirst, After}
use yomochi.Recurring.Schedule.Advance.{advance_next_fire_date-IsFirst}
use yomochi.Recurring.Firing.{RecurringRule, advance, catch_up, next_after, enough_rounds}

-- The dates of a rule's schedule.
abbrev pub OnSchedule : RecurringRule → Date → Type 0
OnSchedule r = Matches r.recurrence r.day_of_month r.day_of_week r.month

abbrev pub HasSchedule : RecurringRule → Type 0
HasSchedule r = InRange r.recurrence r.day_of_month r.day_of_week r.month

rank-le : (a b : Date) → IsValid a → IsValid b → date_ltb a b ≡ false → rank b ≤ rank a
rank-le a b va vb h = elim (ℕ-cases (rank b) (rank a)) [
  | inl le ↦ le
  | inr gt ↦ cc (h, (date_ltb_iff a b va vb).1 gt)
]

module _ (today : Date) (r : RecurringRule) (v : IsValid today) (near : today.year ≤ 9990)
    (ranged : HasSchedule r) where
  year-le : (c : Date) → IsValid c → date_ltb today c ≡ false → c.year ≤ 9990
  unfolding date_ltb
  year-le c w h = ground (arith, near, h)

  advance-IsFirst :
      (c : Date)
      → IsValid c
      → OnSchedule r c
      → date_ltb today c ≡ false
      → (d : Date) × (advance r c ≡ ok d) × IsFirst (OnSchedule r) (After c) d
  unfolding advance
  advance-IsFirst c w on h =
      let (d, made, first) =
        advance_next_fire_date-IsFirst c r.recurrence r.day_of_month r.day_of_week r.month w
          (year-le c w h) ranged on in
      (d, rw (made, advance) refl, first)

  -- The first date after one that is not after today is the first after today, once it is after it.
  first-After :
      (p c : Date)
      → IsValid p
      → date_ltb today p ≡ false
      → IsFirst (OnSchedule r) (After p) c
      → date_ltb today c ≡ true
      → IsFirst (OnSchedule r) (After today) c
  first-After p c vp le first after = record {
    valid = first.valid;
    matches = first.matches;
    reached = after;
    least = λ s vs on later. first.least s vs on (
        (date_ltb_iff p s vp vs).1
          (omega (arith, rank-le today p v vp le, (date_ltb_iff today s v vs).0 later)));
  }

  catch_up-IsFirst :
      (n : ℕ) (p c : Date)
      → IsValid p
      → date_ltb today p ≡ false
      → IsFirst (OnSchedule r) (After p) c
      → rank today + 1 ≤ rank c + n
      → (u : Date) × (catch_up today r n c ≡ ok u) × IsFirst (OnSchedule r) (After today) u
  unfolding catch_up
  catch_up-IsFirst zero p c vp le first enough =
      let after : date_ltb today c ≡ true =
        (date_ltb_iff today c v first.valid).1 (omega (arith, enough)) in
      (c, rw after refl, first-After p c vp le first after)
  catch_up-IsFirst (suc n) p c vp le first enough = elim (Bool-cases (date_ltb today c)) [
    | inl after ↦ (c, rw after refl, first-After p c vp le first after)
    | inr before ↦
        let (d, made, next) = advance-IsFirst c first.valid first.matches before in
        let (u, ends, final) =
          catch_up-IsFirst n c d first.valid before next
            (omega (arith, enough, (date_ltb_iff c d first.valid next.valid).0 next.reached)) in
        (u, rw (before, made) ends, final)
  ]

  -- On a valid day up to the year 9990, a rule that is due, with a schedule in its ranges that its
  -- date is on, moves to the first date of its schedule after today, and passes over the dates
  -- that it has missed. The loop ends.
  pub next_after-IsFirst :
      IsValid r.next_fire_date
      → OnSchedule r r.next_fire_date
      → date_ltb today r.next_fire_date ≡ false
      → (u : Date) × (next_after today r ≡ ok u) × IsFirst (OnSchedule r) (After today) u
  unfolding next_after
  next_after-IsFirst w on due =
      let (d, made, next) = advance-IsFirst r.next_fire_date w on due in
      let (u, ends, final) =
        catch_up-IsFirst (enough_rounds today) r.next_fire_date d w due next (omega arith) in
      (u, rw made ends, final)
