-- ===== src/Budget.antt =====
-- app/domain/value_objects/budget_summary_snapshot.py. Amounts are whole ten-thousandths, the scale of
-- the column that they are read from, and are not negative. The three dictionaries of
-- `aggregate_rows` are keyed by the same currencies, and are one dictionary of totals here.
pub mod Totals
pub mod Column
use text.Mathlib.Text.{is_le}
use Prim.Native.String.{compare}
use yomochi.Base.{
  ℕ, ◌+◌, String, Bool, true, false, Option, none, some, List, [], ◌∷◌, ◌==ₛ◌, if◌then◌else◌,
}

-- A row of the period: amount, currency, and whether `type_` is "income".
pub record BudgetRow : Type 0 where
  pub amount : ℕ
  pub currency : String
  pub is_income : Bool

pub record CurrencyTotals : Type 0 where
  pub currency : String
  pub income : ℕ
  pub expense : ℕ
  pub count : ℕ

pub record BudgetSummarySnapshot : Type 0 where
  pub per_currency : List CurrencyTotals

-- The totals with one more row of their currency.
unfoldable pub bump : CurrencyTotals → BudgetRow → CurrencyTotals
bump t r =
    if r.is_income
    then record t { income = t.income + r.amount; count = t.count + 1 }
    else record t { expense = t.expense + r.amount; count = t.count + 1 }

abbrev pub zero_totals : String → CurrencyTotals
zero_totals ccy = record { currency = ccy; income = 0; expense = 0; count = 0 }

-- The body of the loop over the rows.
unfoldable pub add_row : List CurrencyTotals → BudgetRow → List CurrencyTotals
unfolding bump
add_row [] r = bump (zero_totals r.currency) r ∷ []
add_row (t ∷ ts) r = if t.currency ==ₛ r.currency then bump t r ∷ ts else t ∷ add_row ts r

unfoldable pub add_rows : List CurrencyTotals → List BudgetRow → List CurrencyTotals
unfolding add_row
add_rows ts [] = ts
add_rows ts (r ∷ rs) = add_rows (add_row ts r) rs

-- `sorted` by the currency, which compares code points.
unfoldable pub insert_sorted : CurrencyTotals → List CurrencyTotals → List CurrencyTotals
insert_sorted t [] = t ∷ []
insert_sorted t (u ∷ us) =
    if is_le (compare t.currency u.currency) then t ∷ u ∷ us else u ∷ insert_sorted t us

unfoldable pub sorted : List CurrencyTotals → List CurrencyTotals
unfolding insert_sorted
sorted [] = []
sorted (t ∷ ts) = insert_sorted t (sorted ts)

unfoldable pub aggregate_rows : List BudgetRow → Option BudgetSummarySnapshot
unfolding add_rows sorted
aggregate_rows [] = none
aggregate_rows rows = some (record { per_currency = sorted (add_rows [] rows) })
