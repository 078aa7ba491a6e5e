-- ===== src/Tests/Spendings.antt =====
-- The theorems on alerts at two months of history and a month that spends three times as much.
use yomochi.Base.{
  ℕ, ◌+◌, ◌-◌, ◌*◌, ◌/◌, ◌≡◌, refl, some, List, [], ◌∷◌, length, leb, ltb, ◌==◌, if◌then◌else◌,
}
use yomochi.Text.{codes}
use yomochi.Ledger.{expense}
use yomochi.Insight.Context.{insert_month}
use yomochi.Spending.{TransactionRow, Quotients, sum, aggregate}
use yomochi.Spending.Shifts.{DetectedShift, ShiftThresholds, Floats, detect}
use yomochi.Alerts.{Defaults, BudgetReader, clear_all, mark_read, detect_shift_alerts, unread_count}
use yomochi.Alerts.Keys.{Call, detected, read, cleared, purged, calls, Distinct, calls-Distinct}
use yomochi.Alerts.Growth.{Grown}
use yomochi.Alerts.Once.{keeps, detect_shift_alerts_once}

abbrev over : ℕ → ℕ → ℕ
over a b = if b == 0 then 0 else a / b

-- Whole percentages and ten-thousandths; a fall is 0.
abbrev quotients : Quotients ℕ ℕ
quotients = record {
  zero_float = 0;
  zero_decimal = 0;
  rate = λ s n. 0;
  share = λ a b. over (100 * a) b;
  deviation = λ ns. 0;
  average = over;
}

abbrev floats : Floats ℕ ℕ
floats = record {
  mean_amount = λ ns. over (sum ns) (length ns);
  mean_rate = λ ns. over (sum ns) (length ns);
  ratio = over;
  is_pos = λ n. ltb 0 n;
  is_zero = λ n. n == 0;
  delta = λ a b. over (100 * (a - b)) b;
  change = λ a b. (a - b) + (b - a);
  scaled = λ p n. over (p * n) 100;
  minus = λ a b. a - b;
  neg = λ p. 0;
  less = ltb;
  at_least = λ a b. leb b a;
}

abbrev thresholds : ShiftThresholds ℕ
thresholds = record {
  income_drop_high = 20;
  income_drop_medium = 10;
  expense_spike_high = 30;
  expense_spike_medium = 15;
  savings_rate_collapse = 15;
  savings_rate_decline = 8;
  category_spike_high = 40;
  category_spike_medium = 20;
}

abbrev spent : ℕ → ℕ → TransactionRow
spent day dollars = record {
  amount = 10000 * dollars;
  currency = codes "USD";
  type_ = expense;
  category_label = some (codes "Food");
  day_of_month = day;
}

abbrev reader : BudgetReader
reader = record {
  read_month = λ user y m. spent 3 100 ∷ spent 9 200 ∷ [];
  read_history_months = λ user y m n.
      record { year = 2026; month = 2; rows = spent 5 100 ∷ [] }
      ∷ record { year = 2026; month = 1; rows = spent 6 100 ∷ [] }
      ∷ [];
}

abbrev alert_texts : DetectedShift ℕ ℕ → ℕ
alert_texts s = s.delta_pct

abbrev first_run : Defaults
first_run = record { first_id = 1; now = 500 }

abbrev second_run : Defaults
second_run = record { first_id = 9; now = 900 }

abbrev between : List Call
between = read 1 7 ∷ cleared 8 ∷ detected second_run reader 8 2026 3 ∷ []

abbrev history : List Call
history =
    detected first_run reader 7 2026 3
    ∷ read 1 7
    ∷ detected second_run reader 7 2026 3
    ∷ purged 100
    ∷ cleared 7
    ∷ detected second_run reader 7 2026 3
    ∷ []

-- The total and the category have risen.
two_alerts :
    length
      (detect_shift_alerts quotients floats thresholds alert_texts reader first_run 7 2026 3 [])
    ≡ 2
unfolding detect_shift_alerts aggregate insert_month detect
two_alerts = refl

one_unread :
    unread_count 7 (
      calls quotients floats thresholds alert_texts between
        (detect_shift_alerts quotients floats thresholds alert_texts reader first_run 7 2026 3 []))
    ≡ 1
unfolding unread_count calls detect_shift_alerts aggregate insert_month detect clear_all mark_read
one_unread = refl

detect_shift_alerts_once_example :
    Grown floats alert_texts 7 2026 3 8 []
      (detect_shift_alerts quotients floats thresholds alert_texts reader first_run 7 2026 3 [])
    × (detect_shift_alerts quotients floats thresholds alert_texts reader second_run 7 2026 3 (
          calls quotients floats thresholds alert_texts between (
            detect_shift_alerts quotients floats thresholds alert_texts reader first_run 7 2026 3
              []))
        ≡ calls quotients floats thresholds alert_texts between (
            detect_shift_alerts quotients floats thresholds alert_texts reader first_run 7 2026 3
              []))
unfolding keeps
detect_shift_alerts_once_example =
    detect_shift_alerts_once quotients floats thresholds alert_texts reader 7 2026 3 first_run
      second_run between [] (refl, (refl, (refl, tt)))

calls-Distinct_example : Distinct (calls quotients floats thresholds alert_texts history [])
calls-Distinct_example = calls-Distinct quotients floats thresholds alert_texts history [] tt
