-- ===== src/Spending/Shifts/Count.antt =====
-- How many shifts a month can have: `detect` of app/domain/services/behavioral_shift_detector.py on what
-- app/domain/services/monthly_aggregator.py gives.
use yomochi.Base.{
  ℕ, zero, suc, ap, ◌+◌, ◌≤◌, ◌≡◌, refl, Bool, true, false, Option, none, some, List, [], ◌∷◌, ◌++◌,
  map, select, take, length, length-append, All, leb, if◌then◌else◌, arith,
}
use yomochi.Text.{Text}
use yomochi.Spending.{
  TransactionRow, TopCategory, MonthlyAggregation, Quotients, by_amount, category_totals,
  top_categories, sort_groups, group_rows, aggregate_currency, aggregate,
}
use yomochi.Spending.Shifts.{
  Severity, DetectedShift, ShiftThresholds, Floats, avg_category, graded, income_shift,
  expense_shift, savings_shift, category_shift, category_shifts, detect,
}

length-take : {A : Type 0} (n : ℕ) (xs : List A) → length (take n xs) ≤ n
length-take zero xs = omega arith
length-take (suc n) [] = omega arith
length-take (suc n) (x ∷ xs) = omega (arith, length-take n xs)

length-map : {A B : Type 0} (g : A → B) (xs : List A) → length (map g xs) ≡ length xs
length-map g [] = refl
length-map g (x ∷ xs) = ap suc (length-map g xs)

-- At most five categories.
abbrev pub IsShort : {F D : Type 0} → MonthlyAggregation F D → Type 0
IsShort a = length a.top_categories ≤ 5

module _ {F D : Type 0} (q : Quotients F D) where
  aggregate_currency-IsShort :
      (y m : ℕ) (g : Text × List TransactionRow) → IsShort (aggregate_currency q y m g)
  unfolding aggregate_currency top_categories
  aggregate_currency-IsShort y m (c, txs) =
      rw (length-map _ (take 5 (by_amount (category_totals [] (select _ txs))))) (length-take 5 _)

  map-IsShort :
      (y m : ℕ) (gs : List (Text × List TransactionRow))
      → All IsShort (map (aggregate_currency q y m) gs)
  map-IsShort y m [] = tt
  map-IsShort y m (g ∷ gs) = (aggregate_currency-IsShort y m g, map-IsShort y m gs)

  pub aggregate-IsShort :
      (y m : ℕ) (rows : List TransactionRow) → All IsShort (aggregate q y m rows)
  unfolding aggregate
  aggregate-IsShort y m rows = map-IsShort y m (sort_groups (group_rows [] rows))

module _ {F D : Type 0} (f : Floats F D) (t : ShiftThresholds F) where
  length-graded :
      (b c : Bool) (shift : Severity → DetectedShift F D) → length (graded f t b c shift) ≤ 1
  unfolding graded
  length-graded true c shift = omega arith
  length-graded false true shift = omega arith
  length-graded false false shift = omega arith

  length-if : (b : Bool) (xs : List (DetectedShift F D)) → length (if b then xs else []) ≤ length xs
  length-if true xs = omega arith
  length-if false xs = omega arith

  length-category_shift :
      (current : MonthlyAggregation F D) (avg : Option D) (c : TopCategory F)
      → length (category_shift f t current avg c) ≤ 1
  unfolding category_shift
  length-category_shift current none c = omega arith
  length-category_shift current (some avg) c =
      omega (arith, length-if (f.is_pos avg) _, length-graded _ _ _)

  length-category_shifts :
      (current : MonthlyAggregation F D) (history : List (MonthlyAggregation F D))
      (cs : List (TopCategory F))
      → length (category_shifts f t current history cs) ≤ length cs
  unfolding category_shifts
  length-category_shifts current history [] = omega arith
  length-category_shifts current history (c ∷ cs) = omega (
    arith,
    length-append (category_shift f t current (avg_category f t history c.label) c)
        (category_shifts f t current history cs),
    length-category_shift current (avg_category f t history c.label) c,
    length-category_shifts current history cs,
  )

  length-income_shift :
      (current : MonthlyAggregation F D) (avg : D) → length (income_shift f t current avg) ≤ 1
  unfolding income_shift
  length-income_shift current avg = omega (arith, length-if (f.is_pos avg) _, length-graded _ _ _)

  length-expense_shift :
      (current : MonthlyAggregation F D) (avg : D) → length (expense_shift f t current avg) ≤ 1
  unfolding expense_shift
  length-expense_shift current avg = omega (arith, length-if (f.is_pos avg) _, length-graded _ _ _)

  length-savings_shift :
      (current : MonthlyAggregation F D) (rate : F) (avg : D)
      → length (savings_shift f t current rate avg) ≤ 1
  unfolding savings_shift
  length-savings_shift current rate avg = omega (arith, length-graded _ _ _)

  length-guarded :
      (b : Bool) (xs : List (DetectedShift F D)) (n : ℕ)
      → length xs ≤ n
      → length (if b then xs else []) ≤ n
  length-guarded b xs n h = omega (arith, length-if b xs)

  length-append_le :
      (xs ys : List (DetectedShift F D)) (n m : ℕ)
      → length xs ≤ n
      → length ys ≤ m
      → length (xs ++ ys) ≤ n + m
  length-append_le xs ys n m h k = omega (arith, length-append xs ys)

  -- One of the income, one of the expenses, one of the savings and one of each category.
  pub length-detect :
      (current : MonthlyAggregation F D) (history : List (MonthlyAggregation F D))
      → IsShort current
      → length (detect f t current history) ≤ 8
  unfolding detect
  length-detect current history short =
      let categories : length (category_shifts f t current history current.top_categories) ≤ 5 =
        omega (arith, length-category_shifts current history current.top_categories, short) in
      length-guarded (leb 2 (length history)) _ 8 (
        length-append_le _ _ 1 7 (length-income_shift current _) (
          length-append_le _ _ 1 6 (length-expense_shift current _)
            (length-append_le _ _ 1 5 (length-savings_shift current _ _) categories)))
