-- ===== src/Recurring/Rules/Sound.antt =====
-- Rules are created and changed with dates that are on their schedules.
use mathlib.Core.Path.{subst}
use yomochi.Base.{
  ℕ, ◌≤◌, ◌≡◌, refl, inl, inr, ◌⊎◌, String, Option, some, List, [], ◌∷◌, All, arith, Bool-cases,
  Option-cases, some_inj, ◌==◌,
}
use yomochi.Base.Result.{Result, ok, err, Result-cases}
use yomochi.Calendar.{Date, IsValid}
use yomochi.Recurring.{Recurrence, validate_schedule}
use yomochi.Recurring.Schedule.{Matches, InRange, IsFirst, NotBefore, validate_schedule-InRange}
use yomochi.Recurring.Schedule.First.{compute_first_fire_date-IsFirst}
use yomochi.Recurring.Firing.{RecurringRule, save}
use yomochi.Recurring.Firing.CatchUp.{OnSchedule, HasSchedule}
use yomochi.Recurring.Firing.Batches.{RuleSound, All-save}
use yomochi.Recurring.Rules.{
  RuleError, CreateRecurringRuleCommand, UpdateRecurringRuleCommand, first_fire, new_rule,
  create_recurring_rule, get_rule, change_status, change_schedule, updated_rule, is_changed,
  update_recurring_rule,
}

ok_inj : {A E : Type 0} (a b : A) → Path (Result E A) (ok a) (ok b) → a ≡ b
ok_inj a b e = cc

first_fire-IsFirst :
    (t : Date) (r : Recurrence) (dom dow mo : Option ℕ) (d : Date)
    → IsValid t
    → t.year ≤ 9990
    → first_fire t r dom dow mo ≡ ok d
    → InRange r dom dow mo × IsFirst (Matches r dom dow mo) (NotBefore t) d
unfolding first_fire
first_fire-IsFirst t r dom dow mo d v near e =
    elim (Result-cases (validate_schedule r dom dow mo)) [
      | inr (x, refused) ↦ cc (rw (refused, first_fire) at e)
      | inl (u, valid) ↦
          let (c, made, first) = compute_first_fire_date-IsFirst t r dom dow mo v near valid in
          (
            validate_schedule-InRange r dom dow mo valid,
            subst (λ x. IsFirst (Matches r dom dow mo) (NotBefore t) x)
                (ok_inj c d (rw (valid, made, first_fire) at e)) first,
          )
    ]

module _ (money : String → String → Result RuleError (String × String))
    (uuid : String → Result RuleError ℕ) where
  new_rule-first_fire :
      (id now : ℕ) (cmd : CreateRecurringRuleCommand) (r : RecurringRule)
      → new_rule money uuid id now cmd ≡ ok r
      → (first_fire cmd.start_date r.recurrence r.day_of_month r.day_of_week r.month
          ≡ ok r.next_fire_date)
        × (r.id_ ≡ id)
  unfolding new_rule
  new_rule-first_fire id now cmd r e = ground arith

  -- From rules that have schedules in their ranges and valid dates on them, a command with a valid
  -- start date up to the year 9990 either raises and leaves the rules as they were, or saves a
  -- rule with such a schedule whose date is the first one of it that is not before the start. All
  -- rules have such schedules and dates afterwards.
  pub create_recurring_rule-RuleSound :
      (id now : ℕ) (cmd : CreateRecurringRuleCommand) (rules : List RecurringRule)
      → IsValid cmd.start_date
      → cmd.start_date.year ≤ 9990
      → All RuleSound rules
      → let (reply, rules') = create_recurring_rule money uuid id now cmd rules in
        All RuleSound rules'
        × (((e : RuleError) × (reply ≡ err e) × (rules' ≡ rules))
            ⊎ ((r : RecurringRule) × (reply ≡ ok id)
                × (r.id_ ≡ id)
                × (rules' ≡ save r rules)
                × HasSchedule r
                × IsFirst (OnSchedule r) (NotBefore cmd.start_date) r.next_fire_date))
  unfolding create_recurring_rule
  create_recurring_rule-RuleSound id now cmd rules v near all =
      elim (Result-cases (new_rule money uuid id now cmd)) [
        | inr (e, raises) ↦ rw (raises, create_recurring_rule) (all, inl (e, refl, refl))
        | inl (r, made) ↦
            let (fires, named) = new_rule-first_fire id now cmd r made in
            let (ranged, first) =
              first_fire-IsFirst cmd.start_date r.recurrence r.day_of_month r.day_of_week r.month
                r.next_fire_date v near fires in
            rw (made, create_recurring_rule)
              (
                All-save RuleSound r rules (ranged, first.valid, first.matches) all,
                inr (r, refl, named, refl, ranged, first),
              )
      ]

get_rule-RuleSound :
    (id user : ℕ) (rules : List RecurringRule) {r : RecurringRule}
    → All RuleSound rules
    → get_rule id user rules ≡ some r
    → RuleSound r
unfolding get_rule
get_rule-RuleSound id user [] h e = cc
get_rule-RuleSound id user (x ∷ xs) {r} (h, hs) e = elim (Bool-cases (x.id_ == id)) [
  | inr other ↦ get_rule-RuleSound id user xs hs (rw other at e)
  | inl same ↦ elim (Bool-cases (x.user_id == user)) [
    | inr other ↦ get_rule-RuleSound id user xs hs (rw (same, other) at e)
    | inl own ↦ subst RuleSound (some_inj x r (rw (same, own) at e)) h
  ]
]

-- What an update makes of a rule: its schedule is kept with its date, or the date is computed from
-- today.
updated_rule-either :
    (today : Date) (cmd : UpdateRecurringRuleCommand) (r r' : RecurringRule)
    → updated_rule today cmd r ≡ ok r'
    → (r'.recurrence ≡ r.recurrence)
      × (((r'.next_fire_date ≡ r.next_fire_date)
            × (r'.day_of_month ≡ r.day_of_month)
            × (r'.day_of_week ≡ r.day_of_week)
            × (r'.month ≡ r.month))
          ⊎ (first_fire today r'.recurrence r'.day_of_month r'.day_of_week r'.month
              ≡ ok r'.next_fire_date))
unfolding updated_rule change_status change_schedule
updated_rule-either today cmd r r' e = ground arith

updated_rule-RuleSound :
    (today : Date) (cmd : UpdateRecurringRuleCommand) (r r' : RecurringRule)
    → IsValid today
    → today.year ≤ 9990
    → updated_rule today cmd r ≡ ok r'
    → RuleSound r
    → RuleSound r'
updated_rule-RuleSound today cmd r r' v near e h =
    let (rec, either) = updated_rule-either today cmd r r' e in
    elim either [
      | inl (next, dom, dow, mo) ↦ rw (rec, next, dom, dow, mo) h
      | inr fires ↦
          let (ranged, first) =
            first_fire-IsFirst today r'.recurrence r'.day_of_month r'.day_of_week r'.month
              r'.next_fire_date v near fires in
          (ranged, first.valid, first.matches)
    ]

-- Whatever an update changes, on a valid day up to the year 9990, rules that have schedules in
-- their ranges and valid dates on them still have them, and when the update raises the rules are
-- as they were.
pub update_recurring_rule-RuleSound :
    (today : Date) (now : ℕ) (cmd : UpdateRecurringRuleCommand) (rules : List RecurringRule)
    → IsValid today
    → today.year ≤ 9990
    → All RuleSound rules
    → let (reply, rules') = update_recurring_rule today now cmd rules in
      All RuleSound rules'
      × ((reply ≡ ok tt) ⊎ ((e : RuleError) × (reply ≡ err e) × (rules' ≡ rules)))
unfolding update_recurring_rule
update_recurring_rule-RuleSound today now cmd rules v near all =
    elim (Option-cases (get_rule cmd.rule_id cmd.user_id rules)) [
      | inl missing ↦ rw (missing, update_recurring_rule) (all, inl refl)
      | inr (r, found) ↦ elim (Result-cases (updated_rule today cmd r)) [
        | inr (e, raises) ↦ rw (found, raises, update_recurring_rule) (all, inr (e, refl, refl))
        | inl (r', made) ↦
            let sound =
              updated_rule-RuleSound today cmd r r' v near made
                (get_rule-RuleSound cmd.rule_id cmd.user_id rules all found) in
            elim (Bool-cases (is_changed cmd r r')) [
              | inl changed ↦
                  rw (found, made, changed, update_recurring_rule)
                    (
                      All-save RuleSound (record r' { updated_at = some now }) rules sound all,
                      inl refl,
                    )
              | inr same ↦ rw (found, made, same, update_recurring_rule) (all, inl refl)
            ]
      ]
    ]
