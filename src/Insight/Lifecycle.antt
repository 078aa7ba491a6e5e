-- ===== src/Insight/Lifecycle.antt =====
-- Any number of workers and the reaper, as interleavings of their transactions: what can become of
-- the row of an insight. A request is `RequestInsightUseCase`, whose new row is marked as queued.
pub mod Outcome
pub mod Safety
use yomochi.Base.{ℕ, ◌≤◌, ◌≡◌, String, none, some, List}
use yomochi.Budget.{BudgetRow}
use yomochi.Insight.{Insight, InsightStatus, ContextQuality, InsightResponse}
use yomochi.Insight.Repository.{
  Table, find_row, save, claim_insight, complete_insight, record_failure, reap_expired_processing,
}

-- A transaction of some process, at some time. A request adds a queued row under a new key, whose
-- deadline and retries are the defaults of the table. A completion and a failure write to the table what
-- they make of a row that they have read before: any earlier table is allowed here.
pub data Step (max_retries : ℕ) (t : Table) : Table → Type 0 where
  request :
      (i : Insight)
      → find_row i.id_ t ≡ none
      → i.status ≡ InsightStatus.queued
      → i.processing_deadline ≡ none
      → i.retry_count ≡ 0
      → Step max_retries t (save i t)
  claim : (id user : ℕ) → Step max_retries t (claim_insight id user t).1
  complete :
      (earlier : Table) (id user : ℕ) (r : InsightResponse) (q : ContextQuality) (now : ℕ)
      (rows : List BudgetRow)
      → Step max_retries t (complete_insight id user r q now rows (λ _. t) earlier).1
  fail :
      (earlier : Table) (id user : ℕ) (error : String)
      → Step max_retries t (record_failure id user error (λ _. t) earlier)
  reap : (now : ℕ) → Step max_retries t (reap_expired_processing now max_retries t).1

pub data Reach (max_retries : ℕ) (t : Table) : Table → Type 0 where
  here : Reach max_retries t t
  next : {u v : Table} → Reach max_retries t u → Step max_retries u v → Reach max_retries t v

-- What a stored row has in each status.
abbrev pub Has : InsightStatus → Insight → Type 0
Has InsightStatus.pending i = ⊥
Has InsightStatus.queued i = Unit
Has InsightStatus.processing i = Unit
Has InsightStatus.completed i =
    (title : String) × (description : String) × (quality : ContextQuality) × (score : ℕ) × (at : ℕ)
    × (i.title ≡ some title)
    × (i.description ≡ some description)
    × (i.context_quality ≡ some quality)
    × (i.impact_score ≡ some score)
    × (1 ≤ score)
    × (score ≤ 10)
    × (i.generated_at ≡ some at)
Has InsightStatus.failed i = (error : String) × (i.error_message ≡ some error)

abbrev pub IsSound : Insight → Type 0
IsSound i = (i.processing_deadline ≡ none) × (i.retry_count ≡ 0) × Has i.status i
