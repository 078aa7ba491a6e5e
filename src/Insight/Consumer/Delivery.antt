-- ===== src/Insight/Consumer/Delivery.antt =====
-- How often a message is delivered, and what is parked.
use yomochi.Base.{
  ℕ, zero, suc, ◌+◌, ◌≤◌, ◌<◌, ◌≡◌, refl, sym, ap, ◌∙◌, inl, inr, ◌⊎◌, String, true, false, some,
  ◌∷◌, length, arith, leb, Bool-cases, ◌==◌, eq_iff,
}
use yomochi.Base.Result.{Result, ok, err}
use yomochi.Insight.{Insight, InsightStatus, InsightError, status_eq}
use yomochi.Insight.Repository.{Table, find_row, get_by_id, claim_row, claim_insight}
use yomochi.Insight.Context.{Analysis}
use yomochi.Insight.Process.{
  Run, ProcessInsightResult, after_claim, process_claimed, process_with, process_insight,
}
use yomochi.Insight.Process.Settled.{
  Undisturbed, Ending, process_claimed-Ends, completed, without_data, raised,
}
use yomochi.Insight.Consumer.{
  Body, World, Process, nonempty, resolve_event_id, is_processed, mark_processed, failure_count,
  increment_failures, insight_requested, swallow, run_process, dispatch, after_failure, conclude,
  handle_insight_event, deliver,
}

is_processed-mark : (e : String) (w : World) → is_processed e (mark_processed e w).processed ≡ true
unfolding is_processed mark_processed
is_processed-mark e w = rw ((eq_iff e e).1 refl) refl

failure_count-increment :
    (e : String) (w : World)
    → failure_count e (increment_failures e w).failures ≡ failure_count e w.failures + 1
unfolding failure_count increment_failures
failure_count-increment e w = rw ((eq_iff e e).1 refl) refl

-- The result and the world after a message that is acknowledged.
abbrev pub Acknowledged : String → World → Result InsightError (Unit {0}) × World → Type 0
Acknowledged e w (r, w') =
    (r ≡ ok tt) × (is_processed e w'.processed ≡ true) × (length w'.dlq ≤ length w.dlq + 1)

-- The same after one that will be delivered again.
abbrev Refused : ℕ → String → World → Result InsightError (Unit {0}) × World → Type 0
Refused m e w (r, w') =
    (x : InsightError) × (r ≡ err x)
    × (failure_count e w'.failures ≡ failure_count e w.failures + 1)
    × (failure_count e w'.failures < m)
    × (w'.dlq ≡ w.dlq)

leb-false→lt : (a b : ℕ) → leb a b ≡ false → b < a
leb-false→lt a b h = ground arith

module _ (process : Process) (digest : Body → String) (m : ℕ) where
  conclude-either :
      (b : Body) (e : String) (w : World) (r : Result InsightError (Unit {0}) × Table)
      → Acknowledged e w (conclude m b e w r) ⊎ Refused m e w (conclude m b e w r)
  unfolding conclude
  conclude-either b e w (ok u, t) =
      inl (refl, is_processed-mark e (record w { insights = t }), omega arith)
  conclude-either b e w (err x, t) =
      let v = increment_failures e (record w { insights = t }) in
      elim (Bool-cases (leb m (failure_count e v.failures))) [
        | inl h ↦ inl (
            rw (h, after_failure)
              (
                refl,
                is_processed-mark e (record v { dlq = record { body = b; x_error = x } ∷ w.dlq }),
                omega arith,
              ))
        | inr h ↦ inr (
            rw (h, after_failure)
              (
                x,
                refl,
                failure_count-increment e (record w { insights = t }),
                leb-false→lt m _ h,
                refl,
              ))
      ]

  handle-either :
      (b : Body) (w : World)
      → Acknowledged (resolve_event_id digest b) w (handle_insight_event process digest m b w)
        ⊎ Refused m (resolve_event_id digest b) w (handle_insight_event process digest m b w)
  unfolding handle_insight_event
  handle-either b w = elim (Bool-cases (is_processed (resolve_event_id digest b) w.processed)) [
    | inl h ↦ inl (rw h (refl, h, omega arith))
    | inr h ↦ rw h (conclude-either b (resolve_event_id digest b) w (dispatch process b w.insights))
  ]

  -- However the processing of a message fails, one of its deliveries acknowledges it, when these
  -- and its earlier failures are together at least the limit. It is then marked as processed, and
  -- has been parked once at most.
  pub deliver-Acknowledged :
      (n : ℕ) (b : Body) (w : World)
      → m ≤ failure_count (resolve_event_id digest b) w.failures + suc n
      → Acknowledged (resolve_event_id digest b) w (deliver process digest m n b w)
  unfolding deliver
  deliver-Acknowledged zero b w h = elim (handle-either b w) [
    | inl a ↦ a
    | inr (x, _, counted, below, _) ↦ ground (arith, h, counted, below)
  ]
  deliver-Acknowledged (suc n) b w h = elim (handle-either b w) [
    | inl (done, marked, parked) ↦ rw (done, deliver) (refl, marked, parked)
    | inr (x, raises, counted, below, still) ↦
        let w' = (handle_insight_event process digest m b w).1 in
        let again = deliver-Acknowledged n b w' (omega (arith, h, counted)) in
        rw (raises, deliver) (again.0, again.1, omega (arith, again.2, ap length still))
  ]

swallow-skip :
    {R A S : Type 0} (an : Analysis R A S) (run : Run R) (id user : ℕ) (t : Table) (j : Insight)
    → find_row id t ≡ some j
    → j.status ≡ InsightStatus.failed
    → (swallow (process_claimed run id user an t).0 ≡ ok tt)
      × ((process_claimed run id user an t).1 ≡ t)
unfolding swallow process_claimed claim_insight get_by_id claim_row after_claim status_eq
swallow-skip an run id user t j e failed = elim (Bool-cases (j.user_id == user)) [
  | inl h ↦ rw (e, h, failed, get_by_id) (refl, refl)
  | inr h ↦ rw (e, h, get_by_id) (refl, refl)
]

Ending-failed :
    {R : Type 0} (run : Run R) {o : Result InsightError ProcessInsightResult} {j : Insight}
    {e : InsightError}
    → Ending run o j
    → swallow o ≡ err e
    → j.status ≡ InsightStatus.failed
unfolding swallow
Ending-failed run (completed done quality _) h = cc
Ending-failed run (without_data status _) h = status
Ending-failed run (raised status _) h = status

dispatch-process_insight :
    {R A S : Type 0} (an : Analysis R A S) (run : Run R) (b : Body) (insight_id user_id : String)
    (id user : ℕ) (t : Table)
    → b.event_type ≡ some insight_requested
    → nonempty b.insight_id ≡ some insight_id
    → nonempty b.user_id ≡ some user_id
    → (run.uuid insight_id ≡ ok id) × (run.uuid user_id ≡ ok user)
    → dispatch (process_insight an run) b t
      ≡ (swallow (process_claimed run id user an t).0, (process_claimed run id user an t).1)
unfolding dispatch run_process process_insight process_with
dispatch-process_insight an run b insight_id user_id id user t ty is us (ui, uu) =
    rw (ty, is, us, ui, uu, dispatch) refl

module _ (process : Process) (digest : Body → String) (m : ℕ) (b : Body) where
  conclude-raises :
      (e : String) (w : World) (r : Result InsightError (Unit {0}) × Table) (x : InsightError)
      → (conclude m b e w r).0 ≡ err x
      → let w' = (conclude m b e w r).1 in
        (r.0 ≡ err x) × (w'.insights ≡ r.1) × (w'.dlq ≡ w.dlq) × (w'.processed ≡ w.processed)
  unfolding conclude
  conclude-raises e w (ok u, t) x h = cc
  conclude-raises e w (err y, t) x h =
      let v = increment_failures e (record w { insights = t }) in
      elim (Bool-cases (leb m (failure_count e v.failures))) [
        | inl parked ↦ cc (rw (parked, after_failure) at h)
        | inr more ↦ rw (more, after_failure) (rw (more, after_failure) at h, refl, refl, refl)
      ]

  handle-raises :
      (w : World) (x : InsightError)
      → (handle_insight_event process digest m b w).0 ≡ err x
      → let w' = (handle_insight_event process digest m b w).1 in
        let d = dispatch process b w.insights in
        (d.0 ≡ err x)
        × (w'.insights ≡ d.1)
        × (w'.dlq ≡ w.dlq)
        × (is_processed (resolve_event_id digest b) w'.processed ≡ false)
  unfolding handle_insight_event
  handle-raises w x h = elim (Bool-cases (is_processed (resolve_event_id digest b) w.processed)) [
    | inl seen ↦ cc (rw seen at h)
    | inr new ↦
        let (a, c, d, e) =
          conclude-raises (resolve_event_id digest b) w (dispatch process b w.insights) x
            (rw new at h) in
        rw new (a, c, d, ap (is_processed (resolve_event_id digest b)) e ∙ new)
  ]

  handle-acknowledges :
      (w : World) (t : Table)
      → is_processed (resolve_event_id digest b) w.processed ≡ false
      → dispatch process b w.insights ≡ (ok tt, t)
      → let (r, w') = handle_insight_event process digest m b w in (r ≡ ok tt) × (w'.dlq ≡ w.dlq)
  unfolding handle_insight_event conclude
  handle-acknowledges w t new d = rw (new, d) (refl, refl)

-- When the first delivery of a request for a queued insight raises, as when the AI client fails,
-- and other processes leave its row alone, the second delivery is acknowledged and no message has
-- been parked.
pub raised-not-parked :
    {R A S : Type 0} (an : Analysis R A S) (first second : Run R) (digest : Body → String) (m : ℕ)
    (b : Body) (w : World) (insight_id user_id : String) (id user : ℕ) (i : Insight)
    (e : InsightError)
    → b.event_type ≡ some insight_requested
    → nonempty b.insight_id ≡ some insight_id
    → nonempty b.user_id ≡ some user_id
    → (first.uuid insight_id ≡ ok id) × (first.uuid user_id ≡ ok user)
    → (second.uuid insight_id ≡ ok id) × (second.uuid user_id ≡ ok user)
    → Undisturbed id first.meanwhile
    → Undisturbed id first.completing
    → Undisturbed id first.afterwards
    → Undisturbed id first.failing
    → get_by_id id user w.insights ≡ some i
    → i.status ≡ InsightStatus.queued
    → (handle_insight_event (process_insight an first) digest m b w).0 ≡ err e
    → let w' = (handle_insight_event (process_insight an first) digest m b w).1 in
      let (r, w'') = handle_insight_event (process_insight an second) digest m b w' in
      (r ≡ ok tt) × (w''.dlq ≡ w.dlq)
raised-not-parked an first second digest m b w insight_id user_id id user i e ty is us u1 u2 alone1
      alone2 alone3 alone4 row q err1 =
    let (x, kept, parks, new) = handle-raises (process_insight an first) digest m b w e err1 in
    let runs =
      dispatch-process_insight an first b insight_id user_id id user w.insights ty is us u1 in
    let (j, found, ending) =
      process_claimed-Ends first id user an w.insights i alone1 alone2 alone3 alone4 row q in
    let w' = (handle_insight_event (process_insight an first) digest m b w).1 in
    let at_w' = ap (find_row id) (kept ∙ ap (λ p. p.1) runs) ∙ found in
    let failed = Ending-failed first ending (sym (ap (λ p. p.0) runs) ∙ x) in
    let (swallowed, same) = swallow-skip an second id user w'.insights j at_w' failed in
    let (r, parked) =
      handle-acknowledges (process_insight an second) digest m b w' w'.insights new (
        dispatch-process_insight an second b insight_id user_id id user w'.insights ty is us u2
        ∙ ap (λ p. (p, (process_claimed second id user an w'.insights).1)) swallowed
        ∙ ap (λ p. (ok tt, p)) same) in
    (r, parked ∙ parks)
