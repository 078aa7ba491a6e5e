-- ===== src/Tests/Insights.antt =====
-- Insights, their worker, its consumer and the stream.
use yomochi.Base.{ℕ, ◌≡◌, refl, String, none, some, [], ◌∷◌, map, arith}
use yomochi.Base.Result.{ok, err}
use yomochi.Insight.{Insight, InsightStatus, other_error, Period, status_eq}
use yomochi.Insight.Repository.{
  Table, find_row, save, get_by_id, claim_insight, reap_expired_processing,
}
use yomochi.Insight.Lifecycle.{request, claim, reap, here, next}
use yomochi.Insight.Lifecycle.Safety.{reachable_sound, AllSound}
use yomochi.Insight.Context.{Analysis}
use yomochi.Insight.Process.{Run, process_claimed, process_insight}
use yomochi.Insight.Process.Settled.{Ends, process_claimed-Ends}
use yomochi.Insight.Consumer.{
  Body, World, Process, nonempty, handle_insight_event, deliver, resolve_event_id, failure_count,
}
use yomochi.Insight.Consumer.Delivery.{Acknowledged, deliver-Acknowledged, raised-not-parked}
use yomochi.Insight.Stream.{stream_insight, last, is_terminal, stream_insight-last}

abbrev with_status : InsightStatus → Insight
with_status s = record {
  id_ = 1;
  user_id = 7;
  period = Period.monthly;
  period_year = 2026;
  period_month = 3;
  status = s;
  context_quality = none;
  title = none;
  description = none;
  impact_score = none;
  generated_at = none;
  error_message = none;
  created_at = 5;
  updated_at = none;
  budget_summary = none;
  processing_deadline = none;
  retry_count = 0;
}

abbrev queued : Insight
queued = with_status InsightStatus.queued

abbrev done : Insight
done = with_status InsightStatus.completed

-- What is claimed at the first time stands in processing, and the reaper leaves it, at any later time.
abbrev claimed_and_reaped : Table
claimed_and_reaped = (reap_expired_processing 60 3 (claim_insight 1 7 (save queued [])).1).1

reachable_sound_example : AllSound claimed_and_reaped
unfolding find_row
reachable_sound_example =
    reachable_sound 3 claimed_and_reaped
      (next (next (next here (request queued refl refl refl refl)) (claim 1 7)) (reap 60))

stuck : find_row 1 claimed_and_reaped ≡ some (with_status InsightStatus.processing)
unfolding find_row save claim_insight reap_expired_processing
stuck = refl

-- Rows are numbers, and there is no shift to detect.
abbrev analysis : Analysis ℕ ℕ ℕ
analysis = record {
  aggregate = λ y m rows. rows;
  currency = λ a. "EUR";
  detect = λ a history. history;
  format_monthly_summary = λ aggs. "summary";
  format_shift_text = λ a shifts. "shifts";
}

-- An AI client that fails.
abbrev run : Run ℕ
run = record {
  uuid = λ s. ok 1;
  str = λ e. "error";
  rows = 3 ∷ [];
  history = [];
  generate = λ r. err other_error;
  now = 20;
  period_rows = [];
  meanwhile = λ t. t;
  completing = λ t. t;
  afterwards = λ t. t;
  failing = λ t. t;
}

abbrev own : Insight
own = record queued { user_id = 1 }

process_claimed-Ends_example : Ends run 1 (process_claimed run 1 1 analysis (own ∷ []))
unfolding get_by_id find_row
process_claimed-Ends_example =
    process_claimed-Ends run 1 1 analysis (own ∷ []) own (λ t. refl) (λ t. refl) (λ t. refl)
      (λ t. refl) refl refl

abbrev body : Body
body = record {
  event_id = some "e";
  event_type = some "InsightRequested";
  insight_id = some "i";
  user_id = some "u";
}

abbrev world : World
world = record { processed = []; failures = []; dlq = []; insights = own ∷ [] }

abbrev no_digest : Body → String
no_digest b = "digest"

raised-not-parked_example :
    let w' = (handle_insight_event (process_insight analysis run) no_digest 3 body world).1 in
    let (r, w'') = handle_insight_event (process_insight analysis run) no_digest 3 body w' in
    (r ≡ ok tt) × (w''.dlq ≡ [])
unfolding handle_insight_event nonempty get_by_id find_row process_insight
raised-not-parked_example =
    raised-not-parked analysis run run no_digest 3 body world "i" "u" 1 1 own other_error refl refl
      refl (refl, refl) (refl, refl) (λ t. refl) (λ t. refl) (λ t. refl) (λ t. refl) refl refl refl

-- A use case that always raises.
abbrev broken : Process
broken i u t = (err other_error, t)

deliver-Acknowledged_example : Acknowledged "e" world (deliver broken no_digest 3 2 body world)
unfolding resolve_event_id nonempty failure_count
deliver-Acknowledged_example = deliver-Acknowledged broken no_digest 3 2 body world (omega arith)

stream_insight-last_example :
    let (ys, r) = stream_insight 5 (map some (queued ∷ queued ∷ done ∷ [])) in
    (last ys ≡ some done) × (r ≡ ok tt)
unfolding is_terminal status_eq
stream_insight-last_example =
    stream_insight-last 5 queued (queued ∷ done ∷ []) done refl (omega arith)
