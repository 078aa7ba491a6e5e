-- ===== src/Budget/Column/Stored.antt =====
-- What is read back of a snapshot that was stored.
use text.Mathlib.Text.{is_le}
use Prim.Native.String.{compare}
use yomochi.Base.{
  ◌↔◌, Bool, true, false, ℕ, ◌≡◌, refl, String, Option, none, some, List, [], ◌∷◌, ◌==ₛ◌,
  if◌then◌else◌,
}
use yomochi.Base.Result.{Result, ok}
use yomochi.Text.{Text}
use yomochi.Budget.{
  BudgetRow, CurrencyTotals, BudgetSummarySnapshot, add_row, add_rows, insert_sorted, sorted,
  aggregate_rows,
}
use yomochi.Budget.Totals.{totals_of, expected, aggregate_rows-totals_of}
use yomochi.Budget.Column.{to_json, process_bind_param, from_items, from_json, process_result_value}

module _ {E : Type 0} (str : ℕ → Text) (decimal : Text → Result E ℕ) where
  from_items-to_json :
      ((n : ℕ) → decimal (str n) ≡ ok n)
      → (ts : List CurrencyTotals) → from_items decimal (to_json str ts) ≡ ok ts
  unfolding to_json from_items
  from_items-to_json back [] = refl
  from_items-to_json back (t ∷ ts) =
      rw (back t.income, back t.expense, from_items-to_json back ts) refl

aggregate_rows-none : (rows : List BudgetRow) → (aggregate_rows rows ≡ none) ↔ (rows ≡ [])
unfolding aggregate_rows
aggregate_rows-none [] = (λ e. refl, λ e. refl)
aggregate_rows-none (r ∷ rs) = (λ e. cc, λ e. cc)

abbrev IsCons : List CurrencyTotals → Type 0
IsCons ts = (t : CurrencyTotals) × (us : List CurrencyTotals) × (ts ≡ t ∷ us)

if-IsCons :
    (b : Bool) (t u : CurrencyTotals) (ts us : List CurrencyTotals)
    → IsCons (if b then t ∷ ts else u ∷ us)
if-IsCons true t u ts us = (t, ts, refl)
if-IsCons false t u ts us = (u, us, refl)

add_row-IsCons : (ts : List CurrencyTotals) (r : BudgetRow) → IsCons (add_row ts r)
unfolding add_row
add_row-IsCons [] r = (_, _, refl)
add_row-IsCons (t ∷ ts) r = if-IsCons (t.currency ==ₛ r.currency) _ _ _ _

add_rows-IsCons :
    (ts : List CurrencyTotals) (rs : List BudgetRow) → IsCons ts → IsCons (add_rows ts rs)
unfolding add_rows
add_rows-IsCons ts [] h = h
add_rows-IsCons ts (r ∷ rs) h = add_rows-IsCons (add_row ts r) rs (add_row-IsCons ts r)

insert_sorted-IsCons : (t : CurrencyTotals) (ts : List CurrencyTotals) → IsCons (insert_sorted t ts)
unfolding insert_sorted
insert_sorted-IsCons t [] = (_, _, refl)
insert_sorted-IsCons t (u ∷ us) = if-IsCons (is_le (compare t.currency u.currency)) _ _ _ _

sorted-IsCons : (ts : List CurrencyTotals) → IsCons ts → IsCons (sorted ts)
unfolding sorted
sorted-IsCons [] (t, us, e) = cc
sorted-IsCons (x ∷ xs) h = insert_sorted-IsCons x (sorted xs)

module _ {E : Type 0} (str : ℕ → Text) (decimal : Text → Result E ℕ) where
  from_json-to_json :
      ((n : ℕ) → decimal (str n) ≡ ok n)
      → (ts : List CurrencyTotals) → IsCons ts
      → from_json decimal (some (to_json str ts)) ≡ ok (some (record { per_currency = ts }))
  unfolding from_json to_json
  from_json-to_json back [] (t, us, e) = cc
  from_json-to_json back (x ∷ xs) h = rw (from_items-to_json str decimal back (x ∷ xs)) refl

  read_back :
      ((n : ℕ) → decimal (str n) ≡ ok n)
      → (rows : List BudgetRow)
      → process_result_value decimal (process_bind_param str (aggregate_rows rows))
        ≡ ok (aggregate_rows rows)
  unfolding process_result_value process_bind_param aggregate_rows
  read_back back [] = refl
  read_back back (r ∷ rs) = from_json-to_json back (sorted (add_rows [] (r ∷ rs))) (
      sorted-IsCons (add_rows [] (r ∷ rs))
        (add_rows-IsCons (add_row [] r) rs (add_row-IsCons [] r)))

  -- Where a decimal is read back from its text: what is read from the column after the snapshot of a period
  -- was stored in it holds, for every currency, the sum of its incomes, the sum of its expenses and the
  -- number of its rows, and nothing for a currency that has no row; and it is no snapshot exactly as
  -- for a period without rows.
  pub process_result_value-totals_of :
      ((n : ℕ) → decimal (str n) ≡ ok n)
      → (rows : List BudgetRow)
      → (s : Option BudgetSummarySnapshot) × (process_result_value decimal
            (process_bind_param str (aggregate_rows rows))
          ≡ ok s)
        × ((s ≡ none) ↔ (rows ≡ []))
        × ((ccy : String)
            → elim s [ none ↦ none | some snapshot ↦ totals_of ccy snapshot.per_currency ]
              ≡ expected ccy rows)
  unfolding aggregate_rows
  process_result_value-totals_of back rows = (
    aggregate_rows rows,
    read_back back rows,
    aggregate_rows-none rows,
    aggregate_rows-totals_of rows,
  )
