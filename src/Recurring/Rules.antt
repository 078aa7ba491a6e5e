-- ===== src/Recurring/Rules.antt =====
-- Creating and changing a rule: app/application/recurring/use_cases/create_recurring_rule.py and
-- update_recurring_rule.py. `Money.from_string` gives an amount and a currency, and an identifier is
-- read from its text: both are parameters. A use case that raises leaves the table as it was.
pub mod Sound
use yomochi.Base.{
  ℕ, String, Bool, true, false, ◌||◌, Option, none, some, List, [], ◌∷◌, ◌==◌, ◌==ₛ◌, if◌then◌else◌,
}
use yomochi.Base.Result.{Result, ok, err, ◌>>=◌}
use yomochi.Calendar.{Date, DateError}
use yomochi.Recurring.{Recurrence, ScheduleError, compute_first_fire_date, validate_schedule}
use yomochi.Recurring.Firing.{RecurringRule, RecurringRuleStatus, save}

pub data RuleError : Type 0 where
  value_error invalid_money invalid_schedule : RuleError
  no_date : DateError → RuleError

pub record CreateRecurringRuleCommand : Type 0 where
  pub user_id : ℕ
  pub raw_amount : String
  pub currency : String
  pub type_ : String
  pub recurrence : String
  pub start_date : Date
  pub day_of_month : Option ℕ
  pub day_of_week : Option ℕ
  pub month : Option ℕ
  pub merchant : Option String
  pub notes : Option String
  pub raw_category_id : Option String
  pub end_date : Option Date

pub record UpdateRecurringRuleCommand : Type 0 where
  pub rule_id : ℕ
  pub user_id : ℕ
  pub status : Option String
  pub day_of_month : Option ℕ
  pub day_of_week : Option ℕ
  pub month : Option ℕ
  pub merchant : Option String
  pub notes : Option String

-- The enums by their values.
unfoldable pub read_recurrence : String → Result RuleError Recurrence
read_recurrence s =
    if s ==ₛ "none"
    then ok Recurrence.no_recurrence
    else if s ==ₛ "weekly"
    then ok Recurrence.weekly
    else if s ==ₛ "monthly"
    then ok Recurrence.monthly
    else if s ==ₛ "yearly"
    then ok Recurrence.yearly
    else err value_error

unfoldable pub read_type : String → Result RuleError String
read_type s = if s ==ₛ "income" then ok s else if s ==ₛ "expense" then ok s else err value_error

unfoldable pub read_status : String → Result RuleError RecurringRuleStatus
read_status s =
    if s ==ₛ "active"
    then ok RecurringRuleStatus.active
    else if s ==ₛ "paused"
    then ok RecurringRuleStatus.paused
    else err value_error

-- `_validate_schedule`, and then the first date from a day on.
unfoldable pub first_fire :
    Date → Recurrence → Option ℕ → Option ℕ → Option ℕ → Result RuleError Date
first_fire from recurrence dom dow mo = elim (validate_schedule recurrence dom dow mo) [
  | err e ↦ err invalid_schedule
  | ok u ↦ elim (compute_first_fire_date from recurrence dom dow mo) [
    | err e ↦ err (no_date e)
    | ok d ↦ ok d
  ]
]

module _ (money : String → String → Result RuleError (String × String))
    (uuid : String → Result RuleError ℕ) where
  unfoldable pub read_category : Option String → Result RuleError (Option ℕ)
  read_category none = ok none
  read_category (some s) = if s ==ₛ "" then ok none else (uuid s >>= λ id. ok (some id))

  -- The new rule, with its identifier and the time given.
  unfoldable pub new_rule : ℕ → ℕ → CreateRecurringRuleCommand → Result RuleError RecurringRule
  unfolding read_recurrence first_fire read_category read_type
  new_rule id now cmd = do
    amount ← money cmd.raw_amount cmd.currency
    recurrence ← read_recurrence cmd.recurrence
    first ← first_fire cmd.start_date recurrence cmd.day_of_month cmd.day_of_week cmd.month
    category_id ← read_category cmd.raw_category_id
    type_ ← read_type cmd.type_
    ok (record {
      id_ = id;
      user_id = cmd.user_id;
      amount = amount.0;
      currency = amount.1;
      type_ = type_;
      merchant = cmd.merchant;
      notes = cmd.notes;
      category_id = category_id;
      recurrence = recurrence;
      day_of_month = cmd.day_of_month;
      day_of_week = cmd.day_of_week;
      month = cmd.month;
      start_date = cmd.start_date;
      end_date = cmd.end_date;
      status = RecurringRuleStatus.active;
      next_fire_date = first;
      created_at = now;
      updated_at = none;
    })

  unfoldable pub create_recurring_rule :
      ℕ
      → ℕ
      → CreateRecurringRuleCommand
      → List RecurringRule
      → Result RuleError ℕ × List RecurringRule
  unfolding new_rule save
  create_recurring_rule id now cmd rules = elim (new_rule id now cmd) [
    | err e ↦ (err e, rules)
    | ok r ↦ (ok id, save r rules)
  ]

-- `repo.get`.
unfoldable pub get_rule : ℕ → ℕ → List RecurringRule → Option RecurringRule
get_rule id user [] = none
get_rule id user (r ∷ rs) =
    let rest = get_rule id user rs in
    if r.id_ == id then (if r.user_id == user then some r else rest) else rest

abbrev pub is_given {ℓ} : {A : Type ℓ} → Option A → Bool
is_given none = false
is_given (some _) = true

-- The field of the command, or else the rule's own.
abbrev pub given_or {ℓ} : {A : Type ℓ} → Option A → Option A → Option A
given_or none old = old
given_or (some x) old = some x

unfoldable pub change_status : Option String → RecurringRule → Result RuleError RecurringRule
unfolding read_status
change_status none r = ok r
change_status (some s) r = read_status s >>= λ status. ok (record r { status = status })

abbrev pub changes_schedule : UpdateRecurringRuleCommand → Bool
changes_schedule cmd = is_given cmd.day_of_month || (is_given cmd.day_of_week || is_given cmd.month)

unfoldable pub change_schedule :
    Date → UpdateRecurringRuleCommand → RecurringRule → Result RuleError RecurringRule
unfolding first_fire
change_schedule today cmd r =
    let dom = given_or cmd.day_of_month r.day_of_month in
    let dow = given_or cmd.day_of_week r.day_of_week in
    let mo = given_or cmd.month r.month in
    let changed = first_fire today r.recurrence dom dow mo >>= λ d.
    ok (record r { day_of_month = dom; day_of_week = dow; month = mo; next_fire_date = d }) in
    if changes_schedule cmd then changed else ok r

-- `!=` on the enum.
unfoldable pub status_differs : RecurringRuleStatus → RecurringRuleStatus → Bool
status_differs RecurringRuleStatus.active RecurringRuleStatus.active = false
status_differs RecurringRuleStatus.paused RecurringRuleStatus.paused = false
status_differs _ _ = true

-- The rule after the command, from the one before.
unfoldable pub updated_rule :
    Date → UpdateRecurringRuleCommand → RecurringRule → Result RuleError RecurringRule
unfolding change_status change_schedule
updated_rule today cmd r = do
  r1 ← change_status cmd.status r
  change_schedule today cmd (record r1 {
    merchant = given_or cmd.merchant r1.merchant;
    notes = given_or cmd.notes r1.notes;
  })

unfoldable pub is_changed : UpdateRecurringRuleCommand → RecurringRule → RecurringRule → Bool
unfolding status_differs
is_changed cmd r r' =
    (status_differs r'.status r.status || changes_schedule cmd)
    || (is_given cmd.merchant || is_given cmd.notes)

unfoldable pub update_recurring_rule :
    Date
    → ℕ
    → UpdateRecurringRuleCommand
    → List RecurringRule
    → Result RuleError (Unit {0}) × List RecurringRule
unfolding get_rule updated_rule is_changed save
update_recurring_rule today now cmd rules = elim (get_rule cmd.rule_id cmd.user_id rules) [
  | none ↦ (ok tt, rules)
  | some r ↦ elim (updated_rule today cmd r) [
    | err e ↦ (err e, rules)
    | ok r' ↦ (
      ok tt,
      if is_changed cmd r r' then save (record r' { updated_at = some now }) rules else rules,
    )
  ]
]
