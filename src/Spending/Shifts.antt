-- ===== src/Spending/Shifts.antt =====
-- The shifts of behaviour: `detect` of app/domain/services/behavioral_shift_detector.py, and
-- app/domain/services/alert_threshold.py. Means, deltas and comparisons of floats and decimals are
-- parameters.
pub mod Count
use yomochi.Base.{
  ℕ, suc, ◌+◌, Bool, true, false, not, ◌&&◌, ◌||◌, Option, none, some, List, [], ◌∷◌, ◌++◌, map,
  length, leb, ltb, if◌then◌else◌,
}
use yomochi.Text.{Text, codes, text_eq, is_empty}
use yomochi.Spending.{MonthlyAggregation, TopCategory}

pub data ShiftType : Type 0 where
  income_drop expense_spike savings_collapse savings_decline category_spike : ShiftType

pub data Severity : Type 0 where
  high medium : Severity

pub record DetectedShift (F D : Type 0) : Type 0 where
  pub type_ : ShiftType
  pub severity : Severity
  pub delta_pct : F
  pub category : Option Text
  pub currency : Text
  pub abs_change : D

pub record ShiftThresholds (F : Type 0) : Type 0 where
  pub income_drop_high : F
  pub income_drop_medium : F
  pub expense_spike_high : F
  pub expense_spike_medium : F
  pub savings_rate_collapse : F
  pub savings_rate_decline : F
  pub category_spike_high : F
  pub category_spike_medium : F

-- Floats `F` and decimals `D`: `mean_amount` is `Decimal(str(mean(float(…))))`, `ratio` the quotient of a
-- total and a count, `delta` is `float((a - b) / b)`, `change` is `abs(a - b)`, `scaled` is
-- `Decimal(str(abs(f))) * d`.
pub record Floats (F D : Type 0) : Type 0 where
  pub mean_amount : List ℕ → D
  pub mean_rate : List F → F
  pub ratio : ℕ → ℕ → D
  pub is_pos : D → Bool
  pub is_zero : D → Bool
  pub delta : ℕ → D → F
  pub change : ℕ → D → D
  pub scaled : F → D → D
  pub minus : F → F → F
  pub neg : F → F
  pub less : F → F → Bool
  pub at_least : D → ℕ → Bool

-- A label with its total and the months it is in.
pub record CategoryTotal : Type 0 where
  pub label : Text
  pub total : ℕ
  pub count : ℕ

unfoldable pub add_category : Text → ℕ → List CategoryTotal → List CategoryTotal
unfolding text_eq
add_category l n [] = record { label = l; total = n; count = 1 } ∷ []
add_category l n (c ∷ cs) =
    let rest = add_category l n cs in
    if text_eq c.label l
    then record c { total = c.total + n; count = c.count + 1 } ∷ cs
    else c ∷ rest

unfoldable pub add_categories :
    {F : Type 0} → List CategoryTotal → List (TopCategory F) → List CategoryTotal
unfolding add_category
add_categories cs [] = cs
add_categories cs (t ∷ ts) = add_categories (add_category t.label t.amount cs) ts

unfoldable pub category_totals_of :
    {F D : Type 0} → List CategoryTotal → List (MonthlyAggregation F D) → List CategoryTotal
unfolding add_categories
category_totals_of cs [] = cs
category_totals_of cs (h ∷ hs) = category_totals_of (add_categories cs h.top_categories) hs

unfoldable pub find_category : Text → List CategoryTotal → Option CategoryTotal
unfolding text_eq
find_category l [] = none
find_category l (c ∷ cs) = if text_eq c.label l then some c else find_category l cs

module _ {F D : Type 0} (f : Floats F D) (t : ShiftThresholds F) where
  -- `_avg_categories` at a label.
  unfoldable pub avg_category : List (MonthlyAggregation F D) → Text → Option D
  unfolding category_totals_of find_category
  avg_category history l = elim (find_category l (category_totals_of [] history)) [
    | none ↦ none
    | some c ↦ some (f.ratio c.total c.count)
  ]

  -- A shift that is high, medium or none, by two tests.
  unfoldable pub graded : Bool → Bool → (Severity → DetectedShift F D) → List (DetectedShift F D)
  graded is_high is_medium shift =
      if is_high
      then shift Severity.high ∷ []
      else if is_medium
      then shift Severity.medium ∷ []
      else []

  unfoldable pub income_shift : MonthlyAggregation F D → D → List (DetectedShift F D)
  unfolding graded
  income_shift current avg =
      let d = f.delta current.total_income avg in
      let found =
        graded (f.less d (f.neg t.income_drop_high)) (f.less d (f.neg t.income_drop_medium)) (λ s.
          record {
            type_ = ShiftType.income_drop;
            severity = s;
            delta_pct = d;
            category = none;
            currency = current.currency;
            abs_change = f.change current.total_income avg;
          }) in
      if f.is_pos avg then found else []

  unfoldable pub expense_shift : MonthlyAggregation F D → D → List (DetectedShift F D)
  unfolding graded
  expense_shift current avg =
      let d = f.delta current.total_expenses avg in
      let found = graded (f.less t.expense_spike_high d) (f.less t.expense_spike_medium d) (λ s.
        record {
          type_ = ShiftType.expense_spike;
          severity = s;
          delta_pct = d;
          category = none;
          currency = current.currency;
          abs_change = f.change current.total_expenses avg;
        }) in
      if f.is_pos avg then found else []

  abbrev pub savings_type : Severity → ShiftType
  savings_type high = ShiftType.savings_collapse
  savings_type medium = ShiftType.savings_decline

  unfoldable pub savings_shift : MonthlyAggregation F D → F → D → List (DetectedShift F D)
  unfolding graded
  savings_shift current avg_rate avg_expenses =
      let d = f.minus avg_rate current.savings_rate in
      graded (f.less t.savings_rate_collapse d) (f.less t.savings_rate_decline d) (λ s. record {
        type_ = savings_type s;
        severity = s;
        delta_pct = f.neg d;
        category = none;
        currency = current.currency;
        abs_change = f.scaled d avg_expenses;
      })

  -- A category of the month against its average, if it has one above zero.
  unfoldable pub category_shift :
      MonthlyAggregation F D → Option D → TopCategory F → List (DetectedShift F D)
  unfolding graded
  category_shift current none c = []
  category_shift current (some avg) c =
      let d = f.delta c.amount avg in
      let found = graded (f.less t.category_spike_high d) (f.less t.category_spike_medium d) (λ s.
        record {
          type_ = ShiftType.category_spike;
          severity = s;
          delta_pct = d;
          category = some c.label;
          currency = current.currency;
          abs_change = f.change c.amount avg;
        }) in
      if f.is_pos avg then found else []

  unfoldable pub category_shifts :
      MonthlyAggregation F D
      → List (MonthlyAggregation F D)
      → List (TopCategory F)
      → List (DetectedShift F D)
  unfolding category_shift avg_category
  category_shifts current history [] = []
  category_shifts current history (c ∷ cs) =
      category_shift current (avg_category history c.label) c ++ category_shifts current history cs

  unfoldable pub detect :
      MonthlyAggregation F D → List (MonthlyAggregation F D) → List (DetectedShift F D)
  unfolding income_shift expense_shift savings_shift category_shifts
  detect current history =
      let avg_income = f.mean_amount (map (λ h. h.total_income) history) in
      let avg_expenses = f.mean_amount (map (λ h. h.total_expenses) history) in
      let avg_rate = f.mean_rate (map (λ h. h.savings_rate) history) in
      let shifts =
        income_shift current avg_income
        ++ (expense_shift current avg_expenses
            ++ (savings_shift current avg_rate avg_expenses
                ++ category_shifts current history current.top_categories)) in
      if leb 2 (length history) then shifts else []

-- The least change of a currency, in ten-thousandths.
unfoldable pub min_amount : Text → ℕ
unfolding text_eq
min_amount c =
    if text_eq c (codes "JPY")
    then 30000000
    else if text_eq c (codes "USD") || text_eq c (codes "EUR")
    then 200000
    else if text_eq c (codes "GBP")
    then 150000
    else if text_eq c (codes "CNY")
    then 1500000
    else if text_eq c (codes "KRW")
    then 300000000
    else if text_eq c (codes "SGD")
    then 250000
    else if text_eq c (codes "AUD")
    then 300000
    else 200000

abbrev pub is_high : Severity → Bool
is_high high = true
is_high medium = false

unfoldable pub is_alertworthy : {F D : Type 0} → Floats F D → DetectedShift F D → Bool
unfolding min_amount is_empty
is_alertworthy f s =
    is_high s.severity
    && ((is_empty s.currency || f.is_zero s.abs_change)
        || f.at_least s.abs_change (min_amount s.currency))
