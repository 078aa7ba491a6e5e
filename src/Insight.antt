-- ===== src/Insight.antt =====
-- Insights: the entity of app/domain/entities/insight.py and its enums of
-- app/domain/value_objects/enums.py. Identifiers are numbers, and so are moments, in microseconds.
pub mod Repository
pub mod Lifecycle
pub mod Context
pub mod Process
pub mod Consumer
pub mod Stream
pub mod Request
pub mod History
use yomochi.Base.{
  ℕ, String, Bool, true, false, not, ◌&&◌, Option, none, some, leb, ◌==◌, if◌then◌else◌,
}
use yomochi.Base.Result.{Result, ok, err}
use yomochi.Budget.{BudgetSummarySnapshot}

pub data InsightStatus : Type 0 where
  pending queued processing completed failed : InsightStatus

pub data ContextQuality : Type 0 where
  full partial no_context : ContextQuality

pub data Period : Type 0 where
  weekly monthly : Period

-- The failures of the AI client, app/application/common/ai_errors.py.
pub data AiError : Type 0 where
  rate_limited timeout unavailable invalid_request call_error : AiError

-- The exceptions of the insight use cases. `other_error` is one that no gateway raises.
pub data InsightError : Type 0 where
  value_error : InsightError
  insight_not_found : InsightError
  already_terminal : InsightStatus → InsightError
  ai_error : AiError → InsightError
  other_error : InsightError

pub record Insight : Type 0 where
  pub id_ : ℕ
  pub user_id : ℕ
  pub period : Period
  pub period_year : ℕ
  pub period_month : ℕ
  pub status : InsightStatus
  pub context_quality : Option ContextQuality
  pub title : Option String
  pub description : Option String
  pub impact_score : Option ℕ
  pub generated_at : Option ℕ
  pub error_message : Option String
  pub created_at : ℕ
  pub updated_at : Option ℕ
  pub budget_summary : Option BudgetSummarySnapshot
  pub processing_deadline : Option ℕ
  pub retry_count : ℕ

unfoldable pub status_eq : InsightStatus → InsightStatus → Bool
status_eq InsightStatus.pending InsightStatus.pending = true
status_eq InsightStatus.queued InsightStatus.queued = true
status_eq InsightStatus.processing InsightStatus.processing = true
status_eq InsightStatus.completed InsightStatus.completed = true
status_eq InsightStatus.failed InsightStatus.failed = true
status_eq _ _ = false

unfoldable pub mark_queued : Insight → Result InsightError Insight
unfolding status_eq
mark_queued i =
    if not (status_eq i.status InsightStatus.pending)
    then err value_error
    else ok (record i { status = InsightStatus.queued })

unfoldable pub mark_processing : Option ℕ → Insight → Result InsightError Insight
unfolding status_eq
mark_processing deadline i =
    if not (status_eq i.status InsightStatus.queued)
    then err value_error
    else ok (elim deadline [
      | none ↦ record i { status = InsightStatus.processing }
      | some d ↦ record i { status = InsightStatus.processing; processing_deadline = some d }
    ])

-- What the AI client returns, less its token counts.
pub record InsightResponse : Type 0 where
  pub title : String
  pub description : String
  pub impact_score : ℕ

unfoldable pub mark_completed :
    InsightResponse
    → ContextQuality
    → (generated_at : ℕ) → Option BudgetSummarySnapshot
    → Insight
    → Result InsightError Insight
unfolding status_eq
mark_completed r quality generated_at budget_summary i =
    if not (status_eq i.status InsightStatus.processing)
    then err value_error
    else if not (leb 1 r.impact_score && leb r.impact_score 10)
    then err value_error
    else ok (record i {
      status = InsightStatus.completed;
      title = some r.title;
      description = some r.description;
      impact_score = some r.impact_score;
      context_quality = some quality;
      generated_at = some generated_at;
      budget_summary = budget_summary;
    })

unfoldable pub mark_failed : String → Insight → Result InsightError Insight
unfolding status_eq
mark_failed error i =
    if not (status_eq i.status InsightStatus.processing)
    then err value_error
    else ok (record i { status = InsightStatus.failed; error_message = some error })
