-- ===== src/Recurring/Firing/Batches.antt =====
-- The whole job over its batches.
use yomochi.Base.{
  ℕ, ◌≡◌, refl, ap, ◌∙◌, inl, inr, ==_refl, true, false, not, List, [], ◌∷◌, select, map, All,
  arith, Bool-cases, Option-cases, ◌==◌,
}
use yomochi.Base.Result.{Result, ok, err}
use yomochi.Calendar.{Date, IsValid, date_ltb}
use yomochi.Recurring.Firing.{
  RecurringRule, CreateTransactionCommand, Ledger, command_of, save, pause, set_next, is_failed,
  in_session, commit, is_nil, fetch_due_for_update, batch_limit, max_batches, after_create, fire,
  fire_all, run_batches, fire_due_rules,
}
use yomochi.Recurring.Firing.CatchUp.{OnSchedule, HasSchedule}

-- A rule with a validated schedule whose date is on it.
abbrev pub RuleSound : RecurringRule → Type 0
RuleSound r = HasSchedule r × IsValid r.next_fire_date × OnSchedule r r.next_fire_date

pub All-save :
    (P : RecurringRule → Type 0) (r : RecurringRule) (xs : List RecurringRule)
    → P r
    → All P xs
    → All P (save r xs)
unfolding save
All-save P r [] h hs = (h, tt)
All-save P r (x ∷ xs) h (g, gs) = elim (Bool-cases (x.id_ == r.id_)) [
  | inl e ↦ rw e (h, gs)
  | inr e ↦ rw e (g, All-save P r xs h gs)
]

pub set_next-RuleSound :
    (now : ℕ) (u : Date) (r : RecurringRule)
    → HasSchedule r
    → IsValid u
    → OnSchedule r u
    → RuleSound (set_next now u r)
unfolding set_next pause
set_next-RuleSound now u r h v on = elim (Option-cases r.end_date) [
  | inl e ↦ rw e (h, v, on)
  | inr (end, e) ↦ elim (Bool-cases (date_ltb end u)) [
    | inl past ↦ rw (e, past) (h, v, on)
    | inr fine ↦ rw (e, fine) (h, v, on)
  ]
]

module _ {E S : Type 0} (create : CreateTransactionCommand → S → Result E S) (today : Date)
    (now : ℕ) where
  -- A batch of rules none of whose transactions can be created.
  abbrev pub Refused : List RecurringRule → Type 0
  Refused rs = All (λ r. (s : S) → (e : E) × (create (command_of r) s ≡ err e)) rs

  fire-Refused :
      (r : RecurringRule) (l : Ledger S)
      → ((s : S) → (e : E) × (create (command_of r) s ≡ err e))
      → fire create today now r l ≡ ok (false, l)
  unfolding fire after_create
  fire-Refused r l h = let (e, refuses) = h l.state in rw (refuses, fire) refl

  is_failed-more :
      (x id : ℕ) (failed : List ℕ) → is_failed failed id ≡ true → is_failed (x ∷ failed) id ≡ true
  unfolding is_failed
  is_failed-more x id failed h = ground (arith, h)

  fire_all-Refused :
      (rs : List RecurringRule) (failed : List ℕ) (l : Ledger S)
      → Refused rs
      → (failed' : List ℕ) × (fire_all create today now rs failed l ≡ ok (failed', l))
        × All (λ r. is_failed failed' r.id_ ≡ true) rs
        × ((id : ℕ) → is_failed failed id ≡ true → is_failed failed' id ≡ true)
  unfolding fire_all is_failed
  fire_all-Refused [] failed l h = (failed, refl, tt, λ id e. e)
  fire_all-Refused (r ∷ rs) failed l (h, hs) =
      let (failed', fires, all, keeps) = fire_all-Refused rs (r.id_ ∷ failed) l hs in
      (
        failed',
        rw (fire-Refused r l h, fire_all) fires,
        (keeps r.id_ (ground (arith, ==_refl r.id_)), all),
        λ id e. keeps id (is_failed-more r.id_ id failed e),
      )

  select-fresh : (rs : List RecurringRule) → select (λ r. not (is_failed [] r.id_)) rs ≡ rs
  unfolding is_failed
  select-fresh [] = refl
  select-fresh (r ∷ rs) = ap (λ t. r ∷ t) (select-fresh rs)

  select-failed :
      (failed : List ℕ) (rs : List RecurringRule)
      → All (λ r. is_failed failed r.id_ ≡ true) rs
      → select (λ r. not (is_failed failed r.id_)) rs ≡ []
  select-failed failed [] h = refl
  select-failed failed (r ∷ rs) (h, hs) = rw h (select-failed failed rs hs)

  map-untouched : (rs : List RecurringRule) → map (in_session []) rs ≡ rs
  unfolding in_session
  map-untouched [] = refl
  map-untouched (r ∷ rs) = ap (λ t. r ∷ t) (map-untouched rs)

  run_batches-Refused :
      (rules : List RecurringRule) (l : Ledger S)
      → l.rules ≡ []
      → Refused (fetch_due_for_update today batch_limit rules)
      → run_batches create today now rules max_batches [] l ≡ ok l
  unfolding run_batches
  run_batches-Refused rules l untouched h =
      let due = fetch_due_for_update today batch_limit rules in
      let (failed', fires, all, _) = fire_all-Refused due [] l h in
      let same = ap (λ changed. map (in_session changed) due) untouched ∙ map-untouched due in
      rw (same, select-fresh due, fires, same, select-failed failed' due all)
        (elim (Bool-cases (is_nil due)) [
          | inl nothing ↦ rw nothing (refl {a = ok l})
          | inr some_due ↦ rw some_due (refl {a = ok l})
        ])

  -- When no transaction of the first 50 due rules can be created, the job ends after them and changes
  -- nothing, whatever other rules are due.
  pub fire_due_rules_starves :
      (l : Ledger S)
      → Refused (fetch_due_for_update today batch_limit l.rules)
      → fire_due_rules create today now l ≡ ok l
  unfolding fire_due_rules commit
  fire_due_rules_starves l h =
      rw (run_batches-Refused l.rules (record { rules = []; state = l.state }) refl h) refl
