-- ===== src/Budget/Totals.antt =====
-- The snapshot holds, for each currency of the period, the sums over its rows, and nothing else.
use text.Mathlib.Text.{is_le, is_eq}
use text.Mathlib.TextPositions.{eq_refl}
use Prim.Native.String.{compare}
use Prim.Native.Nat.{Ordering}
use yomochi.Base.{
  ℕ, ◌+◌, ◌≡◌, ◌≢◌, refl, ap, ◌∙◌, inl, inr, String, true, false, Option, none, some, List, [], ◌∷◌,
  ◌==ₛ◌, eq_iff, arith, Bool-cases, if◌then◌else◌, select, length, not, ◌==◌,
}
use yomochi.Budget.{
  BudgetRow, CurrencyTotals, bump, zero_totals, add_row, add_rows, insert_sorted, sorted,
  aggregate_rows,
}

-- The totals of a currency.
abbrev pub totals_of : String → List CurrencyTotals → Option CurrencyTotals
totals_of ccy [] = none
totals_of ccy (t ∷ ts) = if t.currency ==ₛ ccy then some t else totals_of ccy ts

-- Sums over the rows, said without the loop.
abbrev pub sum_amounts : List BudgetRow → ℕ
sum_amounts [] = 0
sum_amounts (r ∷ rs) = r.amount + sum_amounts rs

abbrev pub rows_in : String → List BudgetRow → List BudgetRow
rows_in ccy = select (λ r. r.currency ==ₛ ccy)

abbrev pub incomes : List BudgetRow → List BudgetRow
incomes = select (λ r. r.is_income)

abbrev pub expenses : List BudgetRow → List BudgetRow
expenses = select (λ r. not r.is_income)

-- What the snapshot should hold of a currency: nothing if it has no row.
abbrev pub expected : String → List BudgetRow → Option CurrencyTotals
expected ccy rows =
    if length (rows_in ccy rows) == 0
    then none
    else some (record {
      currency = ccy;
      income = sum_amounts (incomes (rows_in ccy rows));
      expense = sum_amounts (expenses (rows_in ccy rows));
      count = length (rows_in ccy rows);
    })

currency-bump : (t : CurrencyTotals) (r : BudgetRow) → (bump t r).currency ≡ t.currency
unfolding bump
currency-bump t r = ground arith

totals_of-add_row :
    (ccy : String) (ts : List CurrencyTotals) (r : BudgetRow)
    → totals_of ccy (add_row ts r) ≡ (
        if r.currency ==ₛ ccy
        then elim (totals_of ccy ts) [
          | none ↦ some (bump (zero_totals r.currency) r)
          | some t ↦ some (bump t r)
        ]
        else totals_of ccy ts)
unfolding add_row
totals_of-add_row ccy [] r = rw currency-bump (ground arith)
totals_of-add_row ccy (t ∷ ts) r = ground (
  arith,
  currency-bump t r,
  eq_iff t.currency r.currency,
  eq_iff t.currency ccy,
  eq_iff r.currency ccy,
  totals_of-add_row ccy ts r,
)

-- From given totals on.
abbrev from : String → Option CurrencyTotals → List BudgetRow → Option CurrencyTotals
from ccy acc [] = acc
from ccy none (r ∷ rs) = from ccy (some (bump (zero_totals ccy) r)) rs
from ccy (some t) (r ∷ rs) = from ccy (some (bump t r)) rs

from_step :
    (ccy : String) (r : BudgetRow) (o : Option CurrencyTotals) (rows : List BudgetRow)
    → from ccy
        (if r.currency ==ₛ ccy
          then elim o [ none ↦ some (bump (zero_totals r.currency) r) | some t ↦ some (bump t r) ]
          else o)
        rows
      ≡ from ccy o (if r.currency ==ₛ ccy then r ∷ rows else rows)
from_step ccy r o rows = elim (Bool-cases (r.currency ==ₛ ccy)) [
  | inl same ↦ rw same (agree o r.currency ((eq_iff r.currency ccy).0 same))
  | inr other ↦ rw other
]
  where
    agree :
        (o : Option CurrencyTotals) (c : String)
        → c ≡ ccy
        → from ccy (elim o [ none ↦ some (bump (zero_totals c) r) | some t ↦ some (bump t r) ]) rows
          ≡ from ccy o (r ∷ rows)
    agree none c p = ap (λ k. from ccy (some (bump (zero_totals k) r)) rows) p
    agree (some t) c p = refl

totals_of-add_rows :
    (ccy : String) (ts : List CurrencyTotals) (rs : List BudgetRow)
    → totals_of ccy (add_rows ts rs) ≡ from ccy (totals_of ccy ts) (rows_in ccy rs)
unfolding add_rows
totals_of-add_rows ccy ts [] = refl
totals_of-add_rows ccy ts (r ∷ rs) =
    totals_of-add_rows ccy (add_row ts r) rs
    ∙ (rw (totals_of-add_row ccy ts r) (from_step ccy r (totals_of ccy ts) (rows_in ccy rs)))

from_sums :
    (ccy : String) (rs : List BudgetRow) (t : CurrencyTotals)
    → from ccy (some t) rs
      ≡ some (record {
        currency = t.currency;
        income = t.income + sum_amounts (incomes rs);
        expense = t.expense + sum_amounts (expenses rs);
        count = t.count + length rs;
      })
unfolding bump
from_sums ccy [] t = ground arith
from_sums ccy (r ∷ rs) t = ground (arith, from_sums ccy rs (bump t r))

le_of_same : (o : Ordering) → is_eq o ≡ true → is_le o ≡ true
le_of_same Ordering.lt e = cc
le_of_same Ordering.eq e = refl
le_of_same Ordering.gt e = cc

apart : (s t : String) → is_le (compare s t) ≡ false → s ≢ t
apart s t gt same =
    cc (gt, ap (λ k. is_le (compare k t)) same, le_of_same (compare t t) (eq_refl t))

totals_of-insert_sorted :
    (ccy : String) (t : CurrencyTotals) (us : List CurrencyTotals)
    → totals_of ccy (insert_sorted t us) ≡ (if t.currency ==ₛ ccy then some t else totals_of ccy us)
unfolding insert_sorted
totals_of-insert_sorted ccy t [] = refl
totals_of-insert_sorted ccy t (u ∷ us) = elim (Bool-cases (is_le (compare t.currency u.currency))) [
  | inl le ↦ rw le
  | inr gt ↦ rw gt (
      ground (
        arith,
        totals_of-insert_sorted ccy t us,
        eq_iff t.currency ccy,
        eq_iff u.currency ccy,
        apart t.currency u.currency gt,
      ))
]

totals_of-sorted :
    (ccy : String) (ts : List CurrencyTotals) → totals_of ccy (sorted ts) ≡ totals_of ccy ts
unfolding sorted
totals_of-sorted ccy [] = refl
totals_of-sorted ccy (t ∷ ts) =
    totals_of-insert_sorted ccy t (sorted ts) ∙ (rw (totals_of-sorted ccy ts))

from_none :
    (ccy : String) (rs : List BudgetRow)
    → from ccy none rs ≡ (
        if length rs == 0
        then none
        else some (record {
          currency = ccy;
          income = sum_amounts (incomes rs);
          expense = sum_amounts (expenses rs);
          count = length rs;
        }))
unfolding bump
from_none ccy [] = refl
from_none ccy (r ∷ rs) = from_sums ccy rs (bump (zero_totals ccy) r) ∙ ground arith

-- The snapshot of a period that has rows holds, for every currency, the sum of its incomes, the sum
-- of its expenses and the number of its rows, and nothing for a currency that has no row.
pub aggregate_rows-totals_of :
    (rows : List BudgetRow) (ccy : String)
    → elim (aggregate_rows rows) [ none ↦ none | some s ↦ totals_of ccy s.per_currency ]
      ≡ expected ccy rows
unfolding aggregate_rows
aggregate_rows-totals_of [] ccy = refl
aggregate_rows-totals_of (r ∷ rs) ccy =
    totals_of-sorted ccy (add_rows [] (r ∷ rs))
    ∙ totals_of-add_rows ccy [] (r ∷ rs)
    ∙ from_none ccy (rows_in ccy (r ∷ rs))
