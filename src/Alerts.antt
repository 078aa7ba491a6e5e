-- ===== src/Alerts.antt =====
-- The alerts of a user: the table of app/outbound/adapters/sqla/alerts/alert_writer.py and
-- alert_repository.py, and the use case that fills it,
-- app/application/insights/use_cases/detect_shift_alerts.py. Titles, texts and metadata are a function of
-- the shift.
pub mod Keys
pub mod Rows
pub mod Known
pub mod Growth
pub mod Once
pub mod History
use yomochi.Base.{
  ℕ, suc, ◌+◌, ◌-◌, Bool, true, false, not, ◌&&◌, ◌||◌, Option, none, some, List, [], ◌∷◌, ◌++◌,
  map, select, length, leb, ltb, ◌==◌, if◌then◌else◌,
}
use yomochi.Base.Result.{Result, ok, err}
use yomochi.Text.{Text, codes, text_eq, is_empty}
use yomochi.Insight.Context.{HistoryMonth, sort_months, is_nil}
use yomochi.Spending.{TransactionRow, MonthlyAggregation, Quotients, aggregate}
use yomochi.Spending.Shifts.{
  ShiftType, Severity, DetectedShift, ShiftThresholds, Floats, detect, is_alertworthy,
}

pub data AlertType : Type 0 where
  spending_spike income_drop savings_collapse : AlertType

pub record Alert (X : Type 0) : Type 0 where
  pub id_ : ℕ
  pub user_id : ℕ
  pub alert_type : AlertType
  pub subtype : Text
  pub content : X
  pub period_year : ℕ
  pub period_month : ℕ
  pub is_read : Bool
  pub created_at : ℕ

unfoldable pub alert_type_of : ShiftType → Option AlertType
alert_type_of ShiftType.expense_spike = some spending_spike
alert_type_of ShiftType.category_spike = some spending_spike
alert_type_of ShiftType.income_drop = some AlertType.income_drop
alert_type_of ShiftType.savings_collapse = some AlertType.savings_collapse
alert_type_of ShiftType.savings_decline = none

unfoldable pub shift_value : ShiftType → Text
shift_value ShiftType.income_drop = codes "income_drop"
shift_value ShiftType.expense_spike = codes "expense_spike"
shift_value ShiftType.savings_collapse = codes "savings_collapse"
shift_value ShiftType.savings_decline = codes "savings_decline"
shift_value ShiftType.category_spike = codes "category_spike"

-- `_subtype`.
unfoldable pub subtype_of : {F D : Type 0} → DetectedShift F D → Text
unfolding shift_value is_empty
subtype_of s = elim s.category [
  | none ↦ shift_value s.type_
  | some c ↦ if is_empty c then shift_value s.type_ else shift_value s.type_ ++ (codes ":" ++ c)
]

module _ {X : Type 0} where
  -- The columns of the unique constraint.
  unfoldable pub has_key : ℕ → Text → ℕ → ℕ → Alert X → Bool
  unfolding text_eq
  has_key user subtype y m a =
      (a.user_id == user && text_eq a.subtype subtype)
      && (a.period_year == y && a.period_month == m)

  -- `ON CONFLICT … DO NOTHING`.
  unfoldable pub insert_alert : Alert X → List (Alert X) → List (Alert X)
  unfolding has_key
  insert_alert new [] = new ∷ []
  insert_alert new (a ∷ table) =
      let rest = insert_alert new table in
      if has_key new.user_id new.subtype new.period_year new.period_month a
      then a ∷ table
      else a ∷ rest

  -- `mark_read`: whether a row was updated, and the table.
  unfoldable pub is_alert_of : ℕ → ℕ → Alert X → Bool
  is_alert_of id user a = a.id_ == id && a.user_id == user

  unfoldable pub mark_read : ℕ → ℕ → List (Alert X) → Bool × List (Alert X)
  unfolding is_alert_of
  mark_read id user table = (
    not (is_nil (select (is_alert_of id user) table)),
    map (λ a. if is_alert_of id user a then record a { is_read = true } else a) table,
  )

  unfoldable pub unread_count : ℕ → List (Alert X) → ℕ
  unread_count user table = length (select (λ a. a.user_id == user && not a.is_read) table)

  unfoldable pub clear_all : ℕ → List (Alert X) → List (Alert X)
  clear_all user = select (λ a. not (a.user_id == user))

  -- The rows that are not older than a time.
  unfoldable pub purge_before : ℕ → List (Alert X) → List (Alert X)
  purge_before limit = select (λ a. leb limit a.created_at)

-- The identifier and the time of a row are defaults of the table.
pub record Defaults : Type 0 where
  pub first_id : ℕ
  pub now : ℕ

module _ {F D X : Type 0} (f : Floats F D) (content_of : DetectedShift F D → X)
    (user year month : ℕ) where
  -- A row for a shift, where its type has an alert.
  unfoldable pub alert_of : Defaults → DetectedShift F D → Option (Alert X)
  unfolding alert_type_of subtype_of
  alert_of d s = elim (alert_type_of s.type_) [
    | none ↦ none
    | some kind ↦ some (record {
      id_ = d.first_id;
      user_id = user;
      alert_type = kind;
      subtype = subtype_of s;
      content = content_of s;
      period_year = year;
      period_month = month;
      is_read = false;
      created_at = d.now;
    })
  ]

  abbrev insert_some : Option (Alert X) → List (Alert X) → List (Alert X)
  insert_some none table = table
  insert_some (some a) table = insert_alert a table

  unfoldable pub write_alerts :
      Defaults → List (DetectedShift F D) → List (Alert X) → List (Alert X)
  unfolding alert_of insert_alert is_alertworthy
  write_alerts d [] table = table
  write_alerts d (s ∷ shifts) table =
      write_alerts (record d { first_id = suc d.first_id }) shifts
        (if is_alertworthy f s then insert_some (alert_of d s) table else table)

-- What the reader gives for a month and for those before it.
pub record BudgetReader : Type 0 where
  pub read_month : ℕ → ℕ → ℕ → List TransactionRow
  pub read_history_months : ℕ → ℕ → ℕ → ℕ → List (HistoryMonth TransactionRow)

module _ {F D X : Type 0} (q : Quotients F D) (f : Floats F D) (t : ShiftThresholds F)
    (content_of : DetectedShift F D → X) (reader : BudgetReader) where
  unfoldable pub history_aggregations :
      List (HistoryMonth TransactionRow) → List (MonthlyAggregation F D)
  history_aggregations [] = []
  history_aggregations (h ∷ hs) =
      (if is_nil h.rows then [] else aggregate q h.year h.month h.rows) ++ history_aggregations hs

  -- The shifts of the first currency, against its own history.
  unfoldable pub shifts_of :
      List (MonthlyAggregation F D) → List (MonthlyAggregation F D) → List (DetectedShift F D)
  unfolding text_eq
  shifts_of [] history = []
  shifts_of (primary ∷ aggs) history =
      let shifts = detect f t primary (select (λ h. text_eq h.currency primary.currency) history) in
      if ltb (length history) 2 then [] else shifts

  unfoldable pub month_shifts : ℕ → ℕ → ℕ → List (DetectedShift F D)
  unfolding history_aggregations shifts_of sort_months
  month_shifts user year month =
      let rows = reader.read_month user year month in
      let history =
        history_aggregations (sort_months (reader.read_history_months user year month 3)) in
      let shifts = shifts_of (aggregate q year month rows) history in
      if is_nil rows then [] else shifts

  unfoldable pub detect_shift_alerts : Defaults → ℕ → ℕ → ℕ → List (Alert X) → List (Alert X)
  unfolding month_shifts write_alerts
  detect_shift_alerts d user year month table =
      write_alerts f content_of user year month d (month_shifts user year month) table
