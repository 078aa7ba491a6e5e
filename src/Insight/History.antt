-- ===== src/Insight/History.antt =====
-- The list of a user's insights, a page at a time: app/application/insights/use_cases/list_insights.py and
-- `list_by_user` of app/outbound/adapters/sqla/insights/insight_repository.py; and get_insight.py beside
-- it. The text of a cursor is a parameter.
pub mod Pages
use yomochi.Base.{ℕ, Bool, true, false, ◌&&◌, Option, none, some, List, ◌==◌}
use yomochi.Base.Result.{Result, ok, err, ◌>>=◌}
use yomochi.Text.{Text}
use yomochi.Keyset.{cursor_or_raise, read_cursor}
use yomochi.Keyset.Recent.{recent}
use yomochi.Insight.{Insight, Period, weekly, monthly, InsightError, insight_not_found}
use yomochi.Insight.Repository.{Table, get_by_id}

pub record ListInsightsQuery : Type 0 where
  pub user_id : ℕ
  pub limit : ℕ
  pub cursor : Option Text
  pub period : Option Period
  pub period_year : Option ℕ
  pub period_month : Option ℕ

abbrev pub period_eq : Period → Period → Bool
period_eq weekly weekly = true
period_eq monthly monthly = true
period_eq _ _ = false

abbrev pub period_passes : Option Period → Period → Bool
period_passes none p = true
period_passes (some f) p = period_eq p f

abbrev pub number_passes : Option ℕ → ℕ → Bool
number_passes none n = true
number_passes (some f) n = n == f

-- The conditions of the query but for the cursor's.
unfoldable pub is_listed : ListInsightsQuery → Insight → Bool
is_listed q i =
    i.user_id == q.user_id
    && (period_passes q.period i.period
        && (number_passes q.period_year i.period_year
            && number_passes q.period_month i.period_month))

abbrev pub key_of : Insight → ℕ × ℕ
key_of i = (i.created_at, i.id_)

unfoldable pub list_by_user : ListInsightsQuery → Option (ℕ × ℕ) → Table → List Insight
unfolding is_listed recent
list_by_user q cursor table =
    recent (λ i. i.created_at) (λ i. i.id_) (is_listed q) q.limit cursor table

-- `insights[-1]` raises where a limit of 0 gives an empty page.
module _ {E : Type 0} (index_error : E) (encode : ℕ × ℕ → Text)
    (decode : Text → Result E (ℕ × ℕ)) where
  unfoldable pub list_insights : ListInsightsQuery → Table → Result E (List Insight × Option Text)
  unfolding list_by_user read_cursor cursor_or_raise
  list_insights q table = do
    cursor ← read_cursor decode q.cursor
    next ←
        cursor_or_raise index_error (λ i. encode (key_of i)) q.limit (list_by_user q cursor table)
    ok (list_by_user q cursor table, next)

unfoldable pub get_insight : ℕ → ℕ → Table → Result InsightError Insight
unfolding get_by_id
get_insight insight_id user_id table = elim (get_by_id insight_id user_id table) [
  | none ↦ err insight_not_found
  | some i ↦ ok i
]
