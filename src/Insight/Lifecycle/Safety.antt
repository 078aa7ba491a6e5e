-- ===== src/Insight/Lifecycle/Safety.antt =====
-- What holds of every row, however the workers and the reaper interleave.
use mathlib.Core.Path.{subst}
use yomochi.Base.{
  ℕ, ◌≡◌, refl, sym, ap, ◌∙◌, String, inl, inr, Option, none, some, [], List, map, Bool-cases,
  Option-cases, ◌==◌, some_inj, ltb,
}
use yomochi.Base.Result.{ok, ◌>>=◌, Result-cases}
use yomochi.Budget.{BudgetRow}
use yomochi.Insight.{Insight, InsightStatus, ContextQuality, InsightResponse}
use yomochi.Insight.Repository.{
  Table, find_row, save, get_by_id, commit, update_row, completed_columns, failed_columns,
  claim_row, claim_insight, complete_row, complete_insight, fail_row, record_failure, requeue_row,
  exhaust_row, reap_expired_processing,
}
use yomochi.Insight.Repository.Rows.{
  updated, find_row-save, find_row-map, get_by_id-find_row, id_-requeue_row, id_-exhaust_row,
}
use yomochi.Insight.Lifecycle.{
  Step, request, claim, complete, fail, reap, Reach, here, next, IsSound,
}
use yomochi.Insight.Lifecycle.Outcome.{
  claim_row-ok, completed_row, complete_row-ok, fail_row-ok, reap_row_none,
}

-- Every row of the table is sound.
abbrev pub AllSound : Table → Type 0
AllSound t = (k : ℕ) (i : Insight) → find_row k t ≡ some i → IsSound i

save-AllSound : (j : Insight) (t : Table) → IsSound j → AllSound t → AllSound (save j t)
save-AllSound j t s h k i e = elim (Bool-cases (j.id_ == k)) [
  | inl this ↦ subst IsSound (some_inj j i (rw this at (sym (find_row-save j k t) ∙ e))) s
  | inr other ↦ h k i (rw other at (sym (find_row-save j k t) ∙ e))
]

update_row-AllSound :
    (f : Insight → Insight) (id : ℕ) (t : Table)
    → ((i : Insight) → IsSound i → IsSound (f i))
    → AllSound t
    → AllSound (commit t (update_row f id t)).1
unfolding update_row
update_row-AllSound f id t keeps h = elim (Option-cases (find_row id t)) [
  | inl gone ↦ rw (gone, update_row, commit) h
  | inr (i, found) ↦
      rw (found, update_row, commit) (save-AllSound (f i) t (keeps i (h id i found)) h)
]

claim-AllSound :
    (id user : ℕ) (t : Table) (o : Option Insight)
    → get_by_id id user t ≡ o
    → AllSound t
    → AllSound (commit t (claim_row o >>= λ i. ok (i, save i t))).1
unfolding claim_row
claim-AllSound id user t none e h = h
claim-AllSound id user t (some i) e h = elim (Result-cases (claim_row (some i))) [
  | inr (x, refused) ↦ rw (refused, commit) h
  | inl (j, claimed) ↦
      let (_, j_is) = claim_row-ok i j claimed in
      let (free, fresh, _) = h id i (get_by_id-find_row id user t e) in
      rw (claimed, commit) (save-AllSound j t (subst IsSound (sym j_is) (free, fresh, tt)) h)
]

complete-AllSound :
    (r : InsightResponse) (q : ContextQuality) (now : ℕ) (rows : List BudgetRow) (id : ℕ)
    (t : Table) (read : Option Insight)
    → AllSound t
    → AllSound
        (commit t (complete_row r q now rows read >>= λ j. update_row (completed_columns j) id t)).1
unfolding completed_columns complete_row
complete-AllSound r q now rows id t none h = h
complete-AllSound r q now rows id t (some i) h =
    elim (Result-cases (complete_row r q now rows (some i))) [
      | inr (x, refused) ↦ rw (refused, commit) h
      | inl (j, done) ↦
          let (_, lo, hi, j_is) = complete_row-ok r q now rows i j done in
          rw (done, j_is)
            (update_row-AllSound (completed_columns (completed_row r q now rows i)) id t
              (λ x (free, fresh, _). (
                free,
                fresh,
                (
                  r.title, r.description, q, r.impact_score, now, refl, refl, refl, refl, lo, hi,
                  refl,
                ),
              ))
              h)
    ]

fail-AllSound :
    (error : String) (id : ℕ) (t : Table) (read : Option Insight)
    → AllSound t
    → AllSound (commit t (fail_row error read >>= λ j. update_row (failed_columns j) id t)).1
unfolding failed_columns fail_row
fail-AllSound error id t none h = h
fail-AllSound error id t (some i) h = elim (Result-cases (fail_row error (some i))) [
  | inr (x, refused) ↦ rw (refused, commit) h
  | inl (j, done) ↦
      let (_, j_is) = fail_row-ok error i j done in
      rw (done, j_is)
        (update_row-AllSound
          (failed_columns (record i { status = InsightStatus.failed; error_message = some error }))
          id t (λ x (free, fresh, _). (free, fresh, (error, refl))) h)
]

reap-AllSound :
    (now max_retries : ℕ) (t : Table)
    → AllSound t
    → AllSound (reap_expired_processing now max_retries t).1
unfolding reap_expired_processing
reap-AllSound now m t h = elim (Bool-cases (ltb m 1)) [
  | inl bad ↦ rw bad h
  | inr good ↦ rw good (λ k j e.
      let rows =
        find_row-map (exhaust_row now m) (id_-exhaust_row now m) k (map (requeue_row now m) t)
        ∙ ap (updated (exhaust_row now m))
            (find_row-map (requeue_row now m) (id_-requeue_row now m) k t) in
      elim (Option-cases (find_row k t)) [
        | inl gone ↦ cc (sym rows ∙ e, gone)
        | inr (i, was) ↦
            let s = h k i was in
            let kept = reap_row_none now m i s.0 in
            let found =
              rows ∙ ap (λ o. updated (exhaust_row now m) (updated (requeue_row now m) o)) was in
            subst IsSound (sym kept ∙ some_inj _ j (sym found ∙ e)) s
      ])
]

Step-AllSound : (m : ℕ) (t u : Table) → Step m t u → AllSound t → AllSound u
unfolding claim_insight complete_insight record_failure
Step-AllSound m t u (request i fresh q free z) h = save-AllSound i t (free, z, rw q tt) h
Step-AllSound m t u (claim id user) h = claim-AllSound id user t (get_by_id id user t) refl h
Step-AllSound m t u (complete earlier id user r q now rows) h =
    complete-AllSound r q now rows id t (get_by_id id user earlier) h
Step-AllSound m t u (fail earlier id user error) h =
    fail-AllSound error id t (get_by_id id user earlier) h
Step-AllSound m t u (reap now) h = reap-AllSound now m t h

-- However requests, workers and the reaper interleave from an empty table, where a completion and a
-- failure may write over what others have committed since they read: no row is stored as pending, a
-- completed one has its title, description, quality, time and a score from 1 to 10, and a failed one its
-- error. No row ever has a deadline or is retried, so that the reaper changes none.
pub reachable_sound : (max_retries : ℕ) (t : Table) → Reach max_retries [] t → AllSound t
unfolding find_row
reachable_sound m t here k i e = cc
reachable_sound m t (next {u = v} r s) k i e = Step-AllSound m v t s (reachable_sound m v r) k i e
