-- ===== src/Recurring/Firing.antt =====
-- The firing of due rules: app/application/recurring/use_cases/fire_due_rules.py, the entity
-- app/domain/entities/recurring_rule.py and `fetch_due_for_update` and `save` of
-- app/outbound/adapters/sqla/recurring/recurring_rule_repository.py. `CreateTransactionUseCase` is a
-- parameter, which changes a state of its own or raises. An amount is its text.
pub mod CatchUp
pub mod Batches
use yomochi.Base.{
  ℕ, zero, suc, ◌+◌, String, Bool, true, false, not, ◌&&◌, ◌||◌, Option, none, some, List, [], ◌∷◌,
  select, take, map, ◌==◌, if◌then◌else◌,
}
use yomochi.Base.Result.{Result, ok, err, ◌>>=◌}
use yomochi.Calendar.{Date, DateError, date_ltb}
use yomochi.Calendar.Order.{rank}
use yomochi.Recurring.{Recurrence, advance_next_fire_date}

pub data RecurringRuleStatus : Type 0 where
  active paused : RecurringRuleStatus

pub record RecurringRule : Type 0 where
  pub id_ : ℕ
  pub user_id : ℕ
  pub amount : String
  pub currency : String
  pub type_ : String
  pub merchant : Option String
  pub notes : Option String
  pub category_id : Option ℕ
  pub recurrence : Recurrence
  pub day_of_month : Option ℕ
  pub day_of_week : Option ℕ
  pub month : Option ℕ
  pub start_date : Date
  pub end_date : Option Date
  pub status : RecurringRuleStatus
  pub next_fire_date : Date
  pub created_at : ℕ
  pub updated_at : Option ℕ

pub record CreateTransactionCommand : Type 0 where
  pub user_id : ℕ
  pub raw_amount : String
  pub currency : String
  pub date_ : Date
  pub type_ : String
  pub merchant : Option String
  pub notes : Option String
  pub raw_category_id : Option ℕ
  pub recurring_rule_id : ℕ

-- A loop of the model that runs out of rounds is `out_of_fuel`.
pub data FireError : Type 0 where
  date_error : DateError → FireError
  out_of_fuel : FireError

unfoldable pub pause : ℕ → RecurringRule → RecurringRule
pause now r = record r { status = RecurringRuleStatus.paused; updated_at = some now }

unfoldable pub resume : ℕ → RecurringRule → RecurringRule
resume now r = record r { status = RecurringRuleStatus.active; updated_at = some now }

unfoldable pub command_of : RecurringRule → CreateTransactionCommand
command_of r = record {
  user_id = r.user_id;
  raw_amount = r.amount;
  currency = r.currency;
  date_ = r.next_fire_date;
  type_ = r.type_;
  merchant = r.merchant;
  notes = r.notes;
  raw_category_id = r.category_id;
  recurring_rule_id = r.id_;
}

-- The advance with the schedule of a rule.
unfoldable pub advance : RecurringRule → Date → Result FireError Date
advance r t = elim (advance_next_fire_date t r.recurrence r.day_of_month r.day_of_week r.month) [
  | ok u ↦ ok u
  | err e ↦ err (date_error e)
]

-- `while new_next <= today`, with a number of rounds.
unfoldable pub catch_up : Date → RecurringRule → ℕ → Date → Result FireError Date
unfolding advance
catch_up today r zero new_next = if date_ltb today new_next then ok new_next else err out_of_fuel
catch_up today r (suc n) new_next =
    let more = advance r new_next >>= catch_up today r n in
    if date_ltb today new_next then ok new_next else more

-- More rounds than there are dates up to today.
abbrev pub enough_rounds : Date → ℕ
enough_rounds today = rank today + 1

unfoldable pub next_after : Date → RecurringRule → Result FireError Date
unfolding advance catch_up
next_after today r = advance r r.next_fire_date >>= catch_up today r (enough_rounds today)

-- The rule with its new date, paused when that is past its end.
unfoldable pub set_next : ℕ → Date → RecurringRule → RecurringRule
unfolding pause
set_next now next r = elim r.end_date [
  | none ↦ record r { next_fire_date = next }
  | some end ↦
      if date_ltb end next
      then pause now (record r { next_fire_date = next })
      else record r { next_fire_date = next }
]

-- `repo.save`: the row with this key.
unfoldable pub save : RecurringRule → List RecurringRule → List RecurringRule
save r [] = r ∷ []
save r (x ∷ xs) = if x.id_ == r.id_ then r ∷ xs else x ∷ save r xs

unfoldable pub is_active : RecurringRuleStatus → Bool
is_active RecurringRuleStatus.active = true
is_active RecurringRuleStatus.paused = false

-- `fetch_due_for_update`. The order of the rows is the table's, since the query asks for none.
unfoldable pub is_due : Date → RecurringRule → Bool
unfolding is_active
is_due as_of r = not (date_ltb as_of r.next_fire_date) && is_active r.status

unfoldable pub fetch_due_for_update : Date → ℕ → List RecurringRule → List RecurringRule
unfolding is_due
fetch_due_for_update as_of limit rules = take limit (select (is_due as_of) rules)

-- The row of a query as an object: the session's own where it has changed it, with the changes.
unfoldable pub in_session : List RecurringRule → RecurringRule → RecurringRule
in_session [] r = r
in_session (x ∷ xs) r = if x.id_ == r.id_ then x else in_session xs r

-- What the session has changed goes to the table.
unfoldable pub commit : List RecurringRule → List RecurringRule → List RecurringRule
unfolding save
commit [] rules = rules
commit (r ∷ rs) rules = commit rs (save r rules)

-- Rules, in the table or as the session has changed them, and the state of the transactions.
pub record Ledger (S : Type 0) : Type 0 where
  pub rules : List RecurringRule
  pub state : S

unfoldable pub is_failed : List ℕ → ℕ → Bool
is_failed [] id = false
is_failed (x ∷ xs) id = x == id || is_failed xs id

abbrev pub batch_limit : ℕ
batch_limit = 50

abbrev pub max_batches : ℕ
max_batches = 100

abbrev pub is_nil : List RecurringRule → Bool
is_nil [] = true
is_nil (_ ∷ _) = false

module _ {E S : Type 0} (create : CreateTransactionCommand → S → Result E S) (today : Date)
    (now : ℕ) where
  -- `_fire` once the transaction has been tried.
  unfoldable pub after_create :
      RecurringRule → List RecurringRule → Result E S → S → Result FireError (Bool × Ledger S)
  unfolding next_after set_next save
  after_create r rules (err e) before = ok (false, record { rules = rules; state = before })
  after_create r rules (ok s) before = elim (next_after today r) [
    | err e ↦ err e
    | ok next ↦ ok (true, record { rules = save (set_next now next r) rules; state = s })
  ]

  unfoldable pub fire : RecurringRule → Ledger S → Result FireError (Bool × Ledger S)
  unfolding after_create command_of
  fire r l = after_create r l.rules (create (command_of r) l.state) l.state

  -- The inner loop: the rules of a batch, with the failed ones.
  unfoldable pub fire_all :
      List RecurringRule → List ℕ → Ledger S → Result FireError (List ℕ × Ledger S)
  unfolding fire
  fire_all [] failed l = ok (failed, l)
  fire_all (r ∷ rs) failed l = do
    (fired, l') ← fire r l
    fire_all rs (if fired then failed else r.id_ ∷ failed) l'

  -- The batches that are left. The session does not flush before the commit at the end of the job, so
  -- each query reads the stored rules as they were, while the rules of the ledger are those that the
  -- session has changed.
  unfoldable pub run_batches :
      List RecurringRule → ℕ → List ℕ → Ledger S → Result FireError (Ledger S)
  unfolding fire_all fetch_due_for_update in_session is_failed
  run_batches stored zero failed l = ok l
  run_batches stored (suc n) failed l =
      let rules = map (in_session l.rules) (fetch_due_for_update today batch_limit stored) in
      let pending = select (λ r. not (is_failed failed r.id_)) rules in
      let more = fire_all pending failed l >>= λ p. run_batches stored n p.0 p.1 in
      if is_nil pending then ok l else more

  unfoldable pub fire_due_rules : Ledger S → Result FireError (Ledger S)
  unfolding run_batches commit
  fire_due_rules l = do
    l' ← run_batches l.rules max_batches [] (record { rules = []; state = l.state })
    ok (record { rules = commit l'.rules l.rules; state = l'.state })
