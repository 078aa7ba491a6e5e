-- ===== src/Budget/Column.antt =====
-- The snapshot in its column: `to_json` and `from_json` of
-- app/domain/value_objects/budget_summary_snapshot.py, and BudgetSummarySnapshotType of
-- app/outbound/persistence_sqla/mappings/_types.py. The text of a decimal and its reading are parameters.
pub mod Stored
use yomochi.Base.{ℕ, String, Option, none, some, List, [], ◌∷◌}
use yomochi.Base.Result.{Result, ok, err, ◌>>=◌}
use yomochi.Text.{Text}
use yomochi.Budget.{CurrencyTotals, BudgetSummarySnapshot}

pub record JsonTotals : Type 0 where
  pub currency : String
  pub income : Text
  pub expense : Text
  pub count : ℕ

module _ (str : ℕ → Text) where
  abbrev pub to_item : CurrencyTotals → JsonTotals
  to_item t = record {
    currency = t.currency;
    income = str t.income;
    expense = str t.expense;
    count = t.count;
  }

  unfoldable pub to_json : List CurrencyTotals → List JsonTotals
  to_json [] = []
  to_json (t ∷ ts) = to_item t ∷ to_json ts

  unfoldable pub process_bind_param : Option BudgetSummarySnapshot → Option (List JsonTotals)
  unfolding to_json
  process_bind_param none = none
  process_bind_param (some s) = some (to_json s.per_currency)

module _ {E : Type 0} (decimal : Text → Result E ℕ) where
  unfoldable pub from_items : List JsonTotals → Result E (List CurrencyTotals)
  from_items [] = ok []
  from_items (i ∷ is) = do
    income ← decimal i.income
    expense ← decimal i.expense
    rest ← from_items is
    ok (
        (record { currency = i.currency; income = income; expense = expense; count = i.count })
        ∷ rest)

  -- A missing and an empty list are both no snapshot.
  unfoldable pub from_json : Option (List JsonTotals) → Result E (Option BudgetSummarySnapshot)
  unfolding from_items
  from_json none = ok none
  from_json (some []) = ok none
  from_json (some (i ∷ is)) = from_items (i ∷ is) >>= λ ts. ok (some (record { per_currency = ts }))

  unfoldable pub process_result_value :
      Option (List JsonTotals) → Result E (Option BudgetSummarySnapshot)
  unfolding from_json
  process_result_value none = ok none
  process_result_value (some raw) = from_json (some raw)
