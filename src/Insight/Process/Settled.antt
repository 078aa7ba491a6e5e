-- ===== src/Insight/Process/Settled.antt =====
-- What a run leaves of a queued insight.
use yomochi.Base.{ℕ, ◌≡◌, ◌≢◌, refl, ap, ◌∙◌, ==_refl, String, false, some, List, arith}
use yomochi.Base.Result.{Result, ok, err, ◌>>=◌}
use yomochi.Insight.{
  Insight, InsightStatus, InsightError, ContextQuality, InsightResponse, status_eq, mark_failed,
  mark_processing,
}
use yomochi.Insight.Repository.{
  Table, find_row, save, get_by_id, commit, update_row, completed_columns, failed_columns,
  claim_row, claim_insight, complete_row, complete_insight, fail_row, record_failure,
}
use yomochi.Insight.Repository.Rows.{find_row-save, find_row-id, get_by_id-find_row}
use yomochi.Insight.Lifecycle.Outcome.{complete_row-ok}
use yomochi.Insight.Context.{Analysis, InsightContextChunk, build_insight_context}
use yomochi.Insight.Process.{
  Run, ProcessInsightResult, Outcome, no_data_error, finish, store_response, generate_insight,
  after_claim, process_claimed,
}

-- A row of this key that this user owns and some worker processes.
pub record Held (id user : ℕ) (t : Table) (i : Insight) : Type 0 where
  found : find_row id t ≡ some i
  key : i.id_ ≡ id
  owner : i.user_id ≡ user
  in_processing : i.status ≡ InsightStatus.processing

Held-get_by_id :
    (id user : ℕ) (t : Table) (i : Insight) → Held id user t i → get_by_id id user t ≡ some i
unfolding get_by_id
Held-get_by_id id user t i h = rw (h.found, h.owner, ==_refl user, get_by_id)

get_by_id-owner :
    (id user : ℕ) (t : Table) (i : Insight) → get_by_id id user t ≡ some i → i.user_id ≡ user
unfolding get_by_id
get_by_id-owner id user t i e = ground arith

find_row-save-key :
    (id : ℕ) (j : Insight) (t : Table) → j.id_ ≡ id → find_row id (save j t) ≡ some j
find_row-save-key id j t e = rw (find_row-save j id t, e, ==_refl id)

abbrev failed_with : String → Insight → Insight
failed_with error i = record i { status = InsightStatus.failed; error_message = some error }

record_failure-Held :
    (id user : ℕ) (error : String) (later : Table → Table) (t : Table) (i : Insight)
    → find_row id (later t) ≡ find_row id t
    → Held id user t i
    → record_failure id user error later t ≡ save (failed_with error i) (later t)
unfolding record_failure fail_row mark_failed status_eq update_row failed_columns
record_failure-Held id user error later t i alone h =
    rw
      (
        Held-get_by_id id user t i h,
        h.in_processing,
        alone ∙ h.found,
        record_failure,
        fail_row,
        mark_failed,
      )
      refl

-- How a run ends: its result and the row that it leaves.
pub data Ending {R : Type 0} (run : Run R)
    : Result InsightError ProcessInsightResult → Insight → Type 0 where
  completed :
      {j : Insight} {q : ContextQuality}
      → j.status ≡ InsightStatus.completed
      → j.context_quality ≡ some q
      → q ≢ ContextQuality.no_context
      → Ending run (ok (record { context_quality = q; terminal_skip = false })) j
  without_data :
      {j : Insight}
      → j.status ≡ InsightStatus.failed
      → j.error_message ≡ some no_data_error
      → Ending run
          (ok (record { context_quality = ContextQuality.no_context; terminal_skip = false }))
          j
  raised :
      {j : Insight} {e : InsightError}
      → j.status ≡ InsightStatus.failed
      → j.error_message ≡ some (run.str e)
      → Ending run (err e) j

abbrev pub Ends : {R : Type 0} → Run R → ℕ → Outcome → Type 0
Ends run id o = (j : Insight) × (find_row id o.1 ≡ some j) × Ending run o.0 j

-- Other processes leave the row of this insight alone.
abbrev pub Undisturbed : ℕ → (Table → Table) → Type 0
Undisturbed id f = (t : Table) → find_row id (f t) ≡ find_row id t

module _ {R : Type 0} (run : Run R) (id user : ℕ) where
  record_failure-Ends :
      Undisturbed id run.failing
      → (e : InsightError) (t : Table) (i : Insight) → Held id user t i
      → Ends run id (err e, record_failure id user (run.str e) run.failing t)
  record_failure-Ends apart e t i h = (
    failed_with (run.str e) i,
    ap (find_row id) (record_failure-Held id user (run.str e) run.failing t i (apart t) h)
        ∙ find_row-save-key id (failed_with (run.str e) i) (run.failing t) h.key,
    raised refl refl,
  )

  module _ (apart : Undisturbed id run.failing) (whole : Undisturbed id run.completing)
      (alone : Undisturbed id run.afterwards) where
    Held-alone :
        (f : Table → Table)
        → Undisturbed id f
        → (t : Table) (i : Insight) → Held id user t i
        → Held id user (f t) i
    Held-alone f still t i h = record {
      found = still t ∙ h.found;
      key = h.key;
      owner = h.owner;
      in_processing = h.in_processing;
    }

    finish-Ends :
        (q : ContextQuality)
        → q ≢ ContextQuality.no_context
        → (r : InsightResponse) (t : Table) (i : Insight) → Held id user t i
        → (c : Result InsightError Insight) → complete_row r q run.now run.period_rows (some i) ≡ c
        → Ends run id (
            finish run id user q (
              commit
                (run.completing t)
                (c >>= λ j. update_row (completed_columns j) id (run.completing t))))
    unfolding finish update_row completed_columns
    finish-Ends q nq r t i h (err x) e =
        record_failure-Ends apart x (run.afterwards (run.completing t)) i (
          Held-alone run.afterwards alone (run.completing t) i
            (Held-alone run.completing whole t i h))
    finish-Ends q nq r t i h (ok j) e =
        let (_, _, _, made) = complete_row-ok r q run.now run.period_rows i j e in
        rw (whole t ∙ h.found, update_row, finish)
          (
            completed_columns j i,
            find_row-save-key id (completed_columns j i) (run.completing t) h.key,
            completed (ap (λ (x : Insight). x.status) made)
                (ap (λ (x : Insight). x.context_quality) made) nq,
          )

    store_response-Ends :
        (q : ContextQuality)
        → q ≢ ContextQuality.no_context
        → (r : Result InsightError InsightResponse) (t : Table) (i : Insight) → Held id user t i
        → Ends run id (store_response run id user q r t)
    unfolding store_response complete_insight
    store_response-Ends q nq (err e) t i h = record_failure-Ends apart e t i h
    store_response-Ends q nq (ok r) t i h =
        rw (Held-get_by_id id user t i h)
          (finish-Ends q nq r t i h (complete_row r q run.now run.period_rows (some i)) refl)

    generate_insight-Ends :
        (claimed : Insight) (q : ContextQuality) (chunks : List InsightContextChunk) (t : Table)
        (i : Insight)
        → Held id user t i
        → Ends run id (generate_insight run id user claimed q chunks t)
    unfolding generate_insight
    generate_insight-Ends claimed ContextQuality.no_context chunks t i h = (
      failed_with no_data_error i,
      ap (find_row id) (record_failure-Held id user no_data_error run.failing t i (apart t) h)
          ∙ find_row-save-key id (failed_with no_data_error i) (run.failing t) h.key,
      without_data refl refl,
    )
    generate_insight-Ends claimed ContextQuality.full chunks t i h =
        store_response-Ends ContextQuality.full (λ e. cc) _ t i h
    generate_insight-Ends claimed ContextQuality.partial chunks t i h =
        store_response-Ends ContextQuality.partial (λ e. cc) _ t i h

  claim_insight-Held :
      (t : Table) (i : Insight)
      → get_by_id id user t ≡ some i
      → i.status ≡ InsightStatus.queued
      → (j : Insight) × (claim_insight id user t ≡ (ok j, save j t)) × Held id user (save j t) j
  unfolding claim_insight claim_row mark_processing status_eq
  claim_insight-Held t i e q =
      let j = record i { status = InsightStatus.processing } in
      let key = find_row-id id t (get_by_id-find_row id user t e) in
      (
        j,
        rw (e, q, claim_insight, claim_row, mark_processing, status_eq) refl,
        record {
          found = find_row-save-key id j t key;
          key = key;
          owner = get_by_id-owner id user t i e;
          in_processing = refl;
        },
      )

  -- A run on a queued insight of the user returns or raises, and leaves its row completed, with
  -- the quality of the context that it returns, or failed, with the text of why: no data in the
  -- period, or the exception that it raises. Other processes may commit what they like in between,
  -- between its transactions and within them, to other rows.
  pub process_claimed-Ends :
      {A S : Type 0} (an : Analysis R A S) (t : Table) (i : Insight)
      → Undisturbed id run.meanwhile
      → Undisturbed id run.completing
      → Undisturbed id run.afterwards
      → Undisturbed id run.failing
      → get_by_id id user t ≡ some i
      → i.status ≡ InsightStatus.queued
      → Ends run id (process_claimed run id user an t)
  unfolding process_claimed after_claim
  process_claimed-Ends an t i between whole alone apart e q =
      let (j, claims, h) = claim_insight-Held t i e q in
      let ctx = build_insight_context an j.period_year j.period_month run.rows run.history in
      rw claims (
        generate_insight-Ends apart whole alone j ctx.quality ctx.chunks (run.meanwhile (save j t))
          j (Held-alone apart whole alone run.meanwhile between (save j t) j h))
