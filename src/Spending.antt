-- ===== src/Spending.antt =====
-- The aggregation of a month: app/domain/services/monthly_aggregator.py, without the hash and the texts.
-- Amounts are whole ten-thousandths. The quotients and the deviation, which are decimals and floats, are
-- parameters.
pub mod Shifts
use yomochi.Base.{
  ℕ, suc, ◌+◌, ◌-◌, ◌≤◌, Bool, true, false, not, ◌&&◌, Option, none, some, List, [], ◌∷◌, ◌++◌, map,
  select, take, length, ltb, leb, ◌==◌, max, if◌then◌else◌,
}
use yomochi.Text.{Text, text_eq, is_empty}
use yomochi.Money.{ℤ, pos, negsuc}
use yomochi.Ledger.{TransactionType, income, expense}
use yomochi.Keyset.Lex.{lex_ltb}

pub record TransactionRow : Type 0 where
  pub amount : ℕ
  pub currency : Text
  pub type_ : TransactionType
  pub category_label : Option Text
  pub day_of_month : ℕ

-- A label, its amount and its share of the expenses.
pub record TopCategory (F : Type 0) : Type 0 where
  pub label : Text
  pub amount : ℕ
  pub share : F

pub record MonthlyAggregation (F D : Type 0) : Type 0 where
  pub year : ℕ
  pub month : ℕ
  pub currency : Text
  pub total_income : ℕ
  pub total_expenses : ℕ
  pub net_savings : ℤ
  pub savings_rate : F
  pub expense_volatility : F
  pub top_categories : List (TopCategory F)
  pub transaction_count : ℕ
  pub avg_transaction_amount : D
  pub income_sources_count : ℕ
  pub largest_single_expense : ℕ

-- Floats `F` and decimals `D`: the quotients of the code, and `pstdev(values) / mean(values)`.
pub record Quotients (F D : Type 0) : Type 0 where
  pub zero_float : F
  pub zero_decimal : D
  pub rate : ℤ → ℕ → F
  pub share : ℕ → ℕ → F
  pub deviation : List ℕ → F
  pub average : ℕ → ℕ → D

abbrev pub sum : List ℕ → ℕ
sum [] = 0
sum (n ∷ ns) = n + sum ns

abbrev pub largest : List ℕ → ℕ
largest [] = 0
largest (n ∷ ns) = max n (largest ns)

abbrev pub sub : ℕ → ℕ → ℤ
sub a b = if leb b a then pos (a - b) else negsuc (b - a - 1)

-- `by_currency.setdefault(currency, []).append(row)`.
unfoldable pub add_to_group :
    TransactionRow → List (Text × List TransactionRow) → List (Text × List TransactionRow)
unfolding text_eq
add_to_group r [] = (r.currency, r ∷ []) ∷ []
add_to_group r ((c, rs) ∷ groups) =
    let rest = add_to_group r groups in
    if text_eq c r.currency then (c, rs ++ (r ∷ [])) ∷ groups else (c, rs) ∷ rest

unfoldable pub group_rows :
    List (Text × List TransactionRow) → List TransactionRow → List (Text × List TransactionRow)
unfolding add_to_group
group_rows groups [] = groups
group_rows groups (r ∷ rs) = group_rows (add_to_group r groups) rs

-- `sorted(by_currency.items())`: the currencies differ, so they alone decide.
unfoldable pub insert_group :
    Text × List TransactionRow
    → List (Text × List TransactionRow)
    → List (Text × List TransactionRow)
unfolding lex_ltb
insert_group g [] = g ∷ []
insert_group g (h ∷ hs) =
    let rest = insert_group g hs in if lex_ltb h.0 g.0 then h ∷ rest else g ∷ h ∷ hs

unfoldable pub sort_groups : List (Text × List TransactionRow) → List (Text × List TransactionRow)
unfolding insert_group
sort_groups [] = []
sort_groups (g ∷ gs) = insert_group g (sort_groups gs)

abbrev pub is_income : TransactionType → Bool
is_income income = true
is_income expense = false

abbrev pub is_expense : TransactionType → Bool
is_expense income = false
is_expense expense = true

abbrev pub amounts : List TransactionRow → List ℕ
amounts = map (λ t. t.amount)

-- The dictionaries of totals, in the order of their first keys.
unfoldable pub add_total : Text → ℕ → List (Text × ℕ) → List (Text × ℕ)
unfolding text_eq
add_total label n [] = (label, n) ∷ []
add_total label n ((l, m) ∷ ts) =
    let rest = add_total label n ts in if text_eq l label then (l, m + n) ∷ ts else (l, m) ∷ rest

unfoldable pub add_day : ℕ → ℕ → List (ℕ × ℕ) → List (ℕ × ℕ)
add_day day n [] = (day, n) ∷ []
add_day day n ((d, m) ∷ ts) =
    let rest = add_day day n ts in if d == day then (d, m + n) ∷ ts else (d, m) ∷ rest

-- `if t.category_label`.
unfoldable pub label_of : TransactionRow → Option Text
unfolding is_empty
label_of t = elim t.category_label [ none ↦ none | some l ↦ if is_empty l then none else some l ]

unfoldable pub category_totals : List (Text × ℕ) → List TransactionRow → List (Text × ℕ)
unfolding label_of add_total
category_totals totals [] = totals
category_totals totals (t ∷ ts) = elim (label_of t) [
  | none ↦ category_totals totals ts
  | some l ↦ category_totals (add_total l t.amount totals) ts
]

unfoldable pub daily_totals : List (ℕ × ℕ) → List TransactionRow → List (ℕ × ℕ)
unfolding add_day
daily_totals totals [] = totals
daily_totals totals (t ∷ ts) = daily_totals (add_day t.day_of_month t.amount totals) ts

-- `sorted(…, key=amount, reverse=True)`, which keeps the order of equal amounts.
unfoldable pub insert_amount : Text × ℕ → List (Text × ℕ) → List (Text × ℕ)
insert_amount x [] = x ∷ []
insert_amount x (y ∷ ys) =
    let rest = insert_amount x ys in if leb y.1 x.1 then x ∷ y ∷ ys else y ∷ rest

unfoldable pub by_amount : List (Text × ℕ) → List (Text × ℕ)
unfolding insert_amount
by_amount [] = []
by_amount (x ∷ xs) = insert_amount x (by_amount xs)

-- The number of labels in a set of them.
unfoldable pub has_label : Text → List Text → Bool
unfolding text_eq
has_label l [] = false
has_label l (m ∷ ms) = if text_eq m l then true else has_label l ms

unfoldable pub labels : List Text → List TransactionRow → List Text
unfolding label_of has_label
labels seen [] = seen
labels seen (t ∷ ts) = elim (label_of t) [
  | none ↦ labels seen ts
  | some l ↦ labels (if has_label l seen then seen else l ∷ seen) ts
]

module _ {F D : Type 0} (q : Quotients F D) where
  unfoldable pub volatility : List ℕ → F
  volatility values =
      if leb 2 (length values) && ltb 0 (sum values) then q.deviation values else q.zero_float

  unfoldable pub top_categories : List TransactionRow → ℕ → List (TopCategory F)
  unfolding category_totals by_amount
  top_categories expenses total =
      map
        (λ (label, amount). record {
          label = label;
          amount = amount;
          share = if ltb 0 total then q.share amount total else q.zero_float;
        })
        (take 5 (by_amount (category_totals [] expenses)))

  unfoldable pub aggregate_currency : ℕ → ℕ → Text × List TransactionRow → MonthlyAggregation F D
  unfolding volatility top_categories daily_totals labels
  aggregate_currency year month (currency, txs) =
      let incomes = select (λ t. is_income t.type_) txs in
      let expenses = select (λ t. is_expense t.type_) txs in
      let total_income = sum (amounts incomes) in
      let total_expenses = sum (amounts expenses) in
      let net_savings = sub total_income total_expenses in
      record {
        year = year;
        month = month;
        currency = currency;
        total_income = total_income;
        total_expenses = total_expenses;
        net_savings = net_savings;
        savings_rate = if ltb 0 total_income then q.rate net_savings total_income else q.zero_float;
        expense_volatility = volatility (map (λ (d, n). n) (daily_totals [] expenses));
        top_categories = top_categories expenses total_expenses;
        transaction_count = length txs;
        avg_transaction_amount =
            if leb 1 (length txs)
            then q.average (total_income + total_expenses) (length txs)
            else q.zero_decimal;
        income_sources_count = length (labels [] incomes);
        largest_single_expense = largest (amounts expenses);
      }

  unfoldable pub aggregate : ℕ → ℕ → List TransactionRow → List (MonthlyAggregation F D)
  unfolding group_rows sort_groups aggregate_currency
  aggregate year month rows = map (aggregate_currency year month) (sort_groups (group_rows [] rows))
