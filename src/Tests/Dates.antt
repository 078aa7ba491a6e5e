-- ===== src/Tests/Dates.antt =====
-- Recurring schedules and budget snapshots.
use yomochi.Base.{
  String, Option, ◌↔◌, ◌⊎◌, ℕ, All, ◌≡◌, refl, true, false, none, some, List, [], ◌∷◌, arith,
}
use yomochi.Base.Result.{err, Result, ok}
use yomochi.Text.{Text}
use yomochi.Calendar.{date_ltb, Date, date, IsValid, days_in_month}
use yomochi.Recurring.{
  Recurrence, compute_first_fire_date, advance_next_fire_date, validate_schedule,
}
use yomochi.Recurring.Schedule.{Matches, IsFirst, NotBefore, After}
use yomochi.Recurring.Schedule.First.{compute_first_fire_date-IsFirst}
use yomochi.Recurring.Schedule.Advance.{advance_next_fire_date-IsFirst}
use yomochi.Recurring.Firing.{
  RecurringRule, RecurringRuleStatus, CreateTransactionCommand, Ledger, save, next_after,
  fire_due_rules, fetch_due_for_update, is_due, is_active,
}
use yomochi.Recurring.Firing.CatchUp.{HasSchedule, OnSchedule, next_after-IsFirst}
use yomochi.Recurring.Firing.Batches.{RuleSound, fire_due_rules_starves}
use yomochi.Recurring.Rules.{
  RuleError, CreateRecurringRuleCommand, UpdateRecurringRuleCommand, create_recurring_rule,
}
use yomochi.Recurring.Rules.Sound.{create_recurring_rule-RuleSound}
use yomochi.Budget.{BudgetRow, BudgetSummarySnapshot, aggregate_rows}
use yomochi.Budget.Totals.{totals_of, expected}
use yomochi.Budget.Column.{process_bind_param, process_result_value}
use yomochi.Budget.Column.Stored.{process_result_value-totals_of}

abbrev jan_31 : Date
jan_31 = date 2028 1 31

jan_31-IsValid : IsValid jan_31
unfolding days_in_month
jan_31-IsValid = record {
  year_pos = omega arith;
  year_max = omega arith;
  month_pos = omega arith;
  month_max = omega arith;
  day_pos = omega arith;
  day_max = omega arith;
}

advance_next_fire_date-IsFirst_example :
    (u : Date) × (advance_next_fire_date jan_31 Recurrence.monthly (some 31) none none ≡ ok u)
    × IsFirst (Matches Recurrence.monthly (some 31) none none) (After jan_31) u
unfolding days_in_month
advance_next_fire_date-IsFirst_example =
    advance_next_fire_date-IsFirst jan_31 Recurrence.monthly (some 31) none none jan_31-IsValid
      (omega arith) (omega arith) refl

compute_first_fire_date-IsFirst_example :
    (u : Date) × (compute_first_fire_date jan_31 Recurrence.yearly (some 28) none (some 2) ≡ ok u)
    × IsFirst (Matches Recurrence.yearly (some 28) none (some 2)) (NotBefore jan_31) u
unfolding validate_schedule
compute_first_fire_date-IsFirst_example =
    compute_first_fire_date-IsFirst jan_31 Recurrence.yearly (some 28) none (some 2) jan_31-IsValid
      (omega arith) refl

-- Due since January, on the last day of each month, and it ends in June.
abbrev rule : RecurringRule
rule = record {
  id_ = 1;
  user_id = 7;
  amount = "9.99";
  currency = "EUR";
  type_ = "expense";
  merchant = none;
  notes = none;
  category_id = none;
  recurrence = Recurrence.monthly;
  day_of_month = some 31;
  day_of_week = none;
  month = none;
  start_date = jan_31;
  end_date = some (date 2028 6 1);
  status = RecurringRuleStatus.active;
  next_fire_date = jan_31;
  created_at = 5;
  updated_at = none;
}

abbrev today : Date
today = date 2028 4 15

today-IsValid : IsValid today
unfolding days_in_month
today-IsValid = record {
  year_pos = omega arith;
  year_max = omega arith;
  month_pos = omega arith;
  month_max = omega arith;
  day_pos = omega arith;
  day_max = omega arith;
}

next_after-IsFirst_example :
    (u : Date) × (next_after today rule ≡ ok u) × IsFirst (OnSchedule rule) (After today) u
unfolding days_in_month date_ltb
next_after-IsFirst_example =
    next_after-IsFirst today rule today-IsValid (omega arith) (omega arith) jan_31-IsValid refl refl

-- No transaction can be created.
abbrev refuse : CreateTransactionCommand → ℕ → Result ℕ ℕ
refuse c s = err s

abbrev ledger : Ledger ℕ
ledger = record { rules = rule ∷ []; state = 3 }

fire_due_rules_starves_example : fire_due_rules refuse today 10 ledger ≡ ok ledger
unfolding fetch_due_for_update is_due is_active date_ltb
fire_due_rules_starves_example = fire_due_rules_starves refuse today 10 ledger (λ s. (s, refl), tt)

-- Amounts and identifiers as they come.
abbrev any_money : String → String → Result RuleError (String × String)
any_money amount currency = ok (amount, currency)

abbrev any_uuid : String → Result RuleError ℕ
any_uuid s = ok 3

abbrev rent : CreateRecurringRuleCommand
rent = record {
  user_id = 7;
  raw_amount = "900";
  currency = "EUR";
  type_ = "expense";
  recurrence = "monthly";
  start_date = jan_31;
  day_of_month = some 5;
  day_of_week = none;
  month = none;
  merchant = none;
  notes = none;
  raw_category_id = none;
  end_date = none;
}

create_recurring_rule-RuleSound_example :
    let (reply, rules') = create_recurring_rule any_money any_uuid 2 10 rent (rule ∷ []) in
    All RuleSound rules'
    × (((e : RuleError) × (reply ≡ err e) × (rules' ≡ rule ∷ []))
        ⊎ ((r : RecurringRule) × (reply ≡ ok 2)
            × (r.id_ ≡ 2)
            × (rules' ≡ save r (rule ∷ []))
            × HasSchedule r
            × IsFirst (OnSchedule r) (NotBefore jan_31) r.next_fire_date))
unfolding days_in_month
create_recurring_rule-RuleSound_example =
    create_recurring_rule-RuleSound any_money any_uuid 2 10 rent (rule ∷ []) jan_31-IsValid
      (omega arith) ((omega arith, jan_31-IsValid, refl), tt)

abbrev move_day : UpdateRecurringRuleCommand
move_day = record {
  rule_id = 1;
  user_id = 7;
  status = some "paused";
  day_of_month = some 20;
  day_of_week = none;
  month = none;
  merchant = none;
  notes = none;
}

abbrev march : List BudgetRow
march =
    (record { amount = 150000; currency = "EUR"; is_income = false })
    ∷ (record { amount = 20000; currency = "USD"; is_income = true })
    ∷ (record { amount = 50000; currency = "EUR"; is_income = true })
    ∷ []

-- The text of a number, and its reading.
abbrev str : ℕ → Text
str n = n ∷ []

abbrev decimal : Text → Result ℕ ℕ
decimal (n ∷ []) = ok n
decimal _ = err 1

process_result_value-totals_of_example :
    (s : Option BudgetSummarySnapshot) × (process_result_value decimal
        (process_bind_param str (aggregate_rows march))
      ≡ ok s)
    × ((s ≡ none) ↔ (march ≡ []))
    × ((ccy : String)
        → elim s [ none ↦ none | some snapshot ↦ totals_of ccy snapshot.per_currency ]
          ≡ expected ccy march)
process_result_value-totals_of_example =
    process_result_value-totals_of str decimal (λ n. refl) march
