-- ===== src/Insight/Lifecycle/Outcome.antt =====
-- The row that each transaction on an insight leaves.
use yomochi.Base.{ℕ, ◌≤◌, ◌≡◌, refl, ap, ◌∙◌, String, false, none, some, List, arith}
use yomochi.Base.Result.{ok}
use yomochi.Budget.{BudgetRow, aggregate_rows}
use yomochi.Insight.{
  Insight, InsightStatus, ContextQuality, InsightResponse, status_eq, mark_processing,
  mark_completed, mark_failed,
}
use yomochi.Insight.Repository.{
  claim_row, complete_row, fail_row, requeue_row, requeues, exhaust_row, exhausts, is_expired,
}

-- What each transaction makes of its row.
pub claim_row-ok :
    (i j : Insight)
    → claim_row (some i) ≡ ok j
    → (i.status ≡ InsightStatus.queued) × (j ≡ record i { status = InsightStatus.processing })
unfolding claim_row mark_processing status_eq
claim_row-ok i j e = ground arith

abbrev pub completed_row : InsightResponse → ContextQuality → ℕ → List BudgetRow → Insight → Insight
completed_row r q now rows i = record i {
  status = InsightStatus.completed;
  title = some r.title;
  description = some r.description;
  impact_score = some r.impact_score;
  context_quality = some q;
  generated_at = some now;
  budget_summary = aggregate_rows rows;
}

pub complete_row-ok :
    (r : InsightResponse) (q : ContextQuality) (now : ℕ) (rows : List BudgetRow) (i j : Insight)
    → complete_row r q now rows (some i) ≡ ok j
    → (i.status ≡ InsightStatus.processing)
      × (1 ≤ r.impact_score)
      × (r.impact_score ≤ 10)
      × (j ≡ completed_row r q now rows i)
unfolding complete_row mark_completed status_eq
complete_row-ok r q now rows i j e = ground arith

pub fail_row-ok :
    (error : String) (i j : Insight)
    → fail_row error (some i) ≡ ok j
    → (i.status ≡ InsightStatus.processing)
      × (j ≡ record i { status = InsightStatus.failed; error_message = some error })
unfolding fail_row mark_failed status_eq
fail_row-ok error i j e = ground arith

-- The reaper leaves a row without a deadline as it is.
module _ (now max_retries : ℕ) (i : Insight) (e : i.processing_deadline ≡ none) where
  not-requeues : requeues now max_retries i ≡ false
  unfolding requeues is_expired
  not-requeues = ground arith

  not-exhausts : exhausts now max_retries i ≡ false
  unfolding exhausts is_expired
  not-exhausts = ground arith

  requeue_row_none : requeue_row now max_retries i ≡ i
  unfolding requeue_row
  requeue_row_none = rw not-requeues refl

  exhaust_row_none : exhaust_row now max_retries i ≡ i
  unfolding exhaust_row
  exhaust_row_none = rw not-exhausts refl

  pub reap_row_none : exhaust_row now max_retries (requeue_row now max_retries i) ≡ i
  reap_row_none = ap (exhaust_row now max_retries) requeue_row_none ∙ exhaust_row_none
