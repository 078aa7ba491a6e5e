-- ===== src/Insight/Repository.antt =====
-- app/outbound/adapters/sqla/insights/insight_repository.py over the table of insights, and the
-- transactions of app/application/insights/use_cases/_process_insight_steps.py.
-- A claim locks its row and is one step. A completion and a failure read without a lock and write by key
-- when they commit, so that other transactions can commit in between: `later` is what they do. A row is
-- found by its primary key. The columns `processing_deadline` and `retry_count` are not in the mapping of
-- insights, so that no object that is saved writes them. That the database fails is not modelled.
pub mod Rows
use yomochi.Base.{
  ℕ, ◌+◌, String, Bool, true, false, ◌&&◌, Option, none, some, List, [], ◌∷◌, map, select, length,
  ltb, leb, ◌==◌, if◌then◌else◌,
}
use yomochi.Base.Result.{Result, ok, err, ◌>>=◌}
use yomochi.Budget.{BudgetSummarySnapshot, BudgetRow, aggregate_rows}
use yomochi.Insight.{
  Insight, InsightStatus, InsightError, value_error, other_error, insight_not_found,
  already_terminal, ContextQuality, Period, InsightResponse, status_eq, mark_processing,
  mark_completed, mark_failed,
}

abbrev pub Table : Type 0
Table = List Insight

unfoldable pub find_row : ℕ → Table → Option Insight
find_row id [] = none
find_row id (i ∷ t) = if i.id_ == id then some i else find_row id t

-- `session.merge`: the row with this key is replaced, or a new one is added.
unfoldable pub save : Insight → Table → Table
save i [] = i ∷ []
save i (j ∷ t) = if j.id_ == i.id_ then i ∷ t else j ∷ save i t

unfoldable pub get_by_id : ℕ → ℕ → Table → Option Insight
unfolding find_row
get_by_id insight_id user_id t = elim (find_row insight_id t) [
  | none ↦ none
  | some i ↦ if i.user_id == user_id then some i else none
]

-- A transaction that returns a value with the new table, or raises and is rolled back.
abbrev pub commit {ℓ} :
    {A : Type ℓ} → Table → Result InsightError (A × Table) → Result InsightError A × Table
commit t (ok (a, t')) = (ok a, t')
commit t (err e) = (err e, t)

-- `claim_for_processing`: its deadline is set on the object only, and does not reach the row.
unfoldable pub claim_row : Option Insight → Result InsightError Insight
unfolding status_eq mark_processing
claim_row none = err insight_not_found
claim_row (some i) =
    if status_eq i.status InsightStatus.queued
    then mark_processing none i
    else err (already_terminal i.status)

unfoldable pub claim_insight : ℕ → ℕ → Table → Result InsightError Insight × Table
unfolding get_by_id claim_row save
claim_insight insight_id user_id t =
    commit t (claim_row (get_by_id insight_id user_id t) >>= λ i. ok (i, save i t))

-- The UPDATE by key of the columns that the session has changed. It raises where the row is gone.
unfoldable pub update_row : (Insight → Insight) → ℕ → Table → Result InsightError (Unit {0} × Table)
unfolding find_row save
update_row f id t = elim (find_row id t) [ none ↦ err other_error | some i ↦ ok (tt, save (f i) t) ]

unfoldable pub complete_row :
    InsightResponse
    → ContextQuality
    → ℕ
    → List BudgetRow
    → Option Insight
    → Result InsightError Insight
unfolding mark_completed
complete_row response quality now period_rows none = err insight_not_found
complete_row response quality now period_rows (some fresh) =
    mark_completed response quality now (aggregate_rows period_rows) fresh

unfoldable pub completed_columns : Insight → Insight → Insight
completed_columns fresh i = record i {
  status = fresh.status;
  title = fresh.title;
  description = fresh.description;
  impact_score = fresh.impact_score;
  context_quality = fresh.context_quality;
  generated_at = fresh.generated_at;
  budget_summary = fresh.budget_summary;
}

unfoldable pub complete_insight :
    ℕ
    → ℕ
    → InsightResponse
    → ContextQuality
    → ℕ
    → List BudgetRow
    → (later : Table → Table) → Table
    → Result InsightError (Unit {0}) × Table
unfolding get_by_id complete_row update_row completed_columns
complete_insight insight_id user_id response quality now period_rows later t = commit (later t) (
    complete_row response quality now period_rows (get_by_id insight_id user_id t) >>= λ fresh.
    update_row (completed_columns fresh) insight_id (later t))

-- `record_failure`: a missing row and an exception of its own leave the table as it was.
unfoldable pub fail_row : String → Option Insight → Result InsightError Insight
unfolding mark_failed
fail_row error none = err insight_not_found
fail_row error (some fresh) = mark_failed error fresh

unfoldable pub failed_columns : Insight → Insight → Insight
failed_columns fresh i = record i { status = fresh.status; error_message = fresh.error_message }

unfoldable pub record_failure : ℕ → ℕ → String → (later : Table → Table) → Table → Table
unfolding get_by_id fail_row update_row failed_columns
record_failure insight_id user_id error later t =
    (commit (later t) (
      fail_row error (get_by_id insight_id user_id t) >>= λ fresh.
      update_row (failed_columns fresh) insight_id (later t))).1

-- `processing_deadline < now()`, which is not true of NULL.
unfoldable pub is_expired : ℕ → Option ℕ → Bool
is_expired now none = false
is_expired now (some d) = ltb d now

unfoldable pub requeues : ℕ → ℕ → Insight → Bool
unfolding is_expired status_eq
requeues now max_retries i =
    (status_eq i.status InsightStatus.processing && is_expired now i.processing_deadline)
    && ltb i.retry_count max_retries

unfoldable pub requeue_row : ℕ → ℕ → Insight → Insight
unfolding requeues
requeue_row now max_retries i =
    if requeues now max_retries i
    then record i {
      status = InsightStatus.queued;
      retry_count = i.retry_count + 1;
      processing_deadline = none;
      updated_at = some now;
    }
    else i

unfoldable pub exhausts : ℕ → ℕ → Insight → Bool
unfolding is_expired status_eq
exhausts now max_retries i =
    (status_eq i.status InsightStatus.processing && is_expired now i.processing_deadline)
    && leb max_retries i.retry_count

abbrev pub max_retries_exceeded_error : String
max_retries_exceeded_error = "max retries exceeded"

unfoldable pub exhaust_row : ℕ → ℕ → Insight → Insight
unfolding exhausts
exhaust_row now max_retries i =
    if exhausts now max_retries i
    then record i {
      status = InsightStatus.failed;
      error_message = some max_retries_exceeded_error;
      updated_at = some now;
    }
    else i

-- The rows that are requeued (`RETURNING`), as they stand after the first UPDATE, and the number that
-- the second UPDATE fails.
pub record ReapResult : Type 0 where
  pub requeued : List Insight
  pub exhausted_count : ℕ

unfoldable pub reap_expired_processing : ℕ → ℕ → Table → Result InsightError ReapResult × Table
unfolding requeue_row exhaust_row requeues exhausts
reap_expired_processing now max_retries t =
    if ltb max_retries 1
    then (err value_error, t)
    else (let t' = map (requeue_row now max_retries) t in
        (
          ok (record {
            requeued = map (requeue_row now max_retries) (select (requeues now max_retries) t);
            exhausted_count = length (select (exhausts now max_retries) t');
          }),
          map (exhaust_row now max_retries) t',
        ))
