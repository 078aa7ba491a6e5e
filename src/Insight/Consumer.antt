-- ===== src/Insight/Consumer.antt =====
-- app/inbound/messaging/insight_consumer.py with the store of
-- app/outbound/adapters/redis/consumer_idempotency_store.py. A key of the store lives longer than a
-- redelivery takes, so expiry is left out; so are Redis and Kafka failures, metrics and logs. The event
-- id is what `resolve_event_id` returns, whose content hash is a parameter.
pub mod Delivery
use yomochi.Base.{
  ℕ, zero, suc, ◌+◌, String, Bool, true, false, ◌||◌, Option, none, some, List, [], ◌∷◌, leb, ◌==ₛ◌,
  if◌then◌else◌,
}
use yomochi.Base.Result.{Result, ok, err}
use yomochi.Insight.{InsightError, value_error, insight_not_found, already_terminal}
use yomochi.Insight.Repository.{Table}
use yomochi.Insight.Process.{ProcessInsightResult, Outcome}

-- The body of a message, a missing field being `none`.
pub record Body : Type 0 where
  pub event_id : Option String
  pub event_type : Option String
  pub insight_id : Option String
  pub user_id : Option String

-- A message that is parked, with its error.
pub record Parked : Type 0 where
  pub body : Body
  pub x_error : InsightError

pub record World : Type 0 where
  pub processed : List String
  pub failures : List (String × ℕ)
  pub dlq : List Parked
  pub insights : Table

-- A string that is present and not empty.
unfoldable pub nonempty : Option String → Option String
nonempty none = none
nonempty (some s) = if s ==ₛ "" then none else some s

unfoldable pub resolve_event_id : (Body → String) → Body → String
unfolding nonempty
resolve_event_id digest b = elim (nonempty b.event_id) [ none ↦ digest b | some e ↦ e ]

unfoldable pub is_processed : String → List String → Bool
is_processed e [] = false
is_processed e (x ∷ xs) = if x ==ₛ e then true else is_processed e xs

unfoldable pub mark_processed : String → World → World
mark_processed e w = record w { processed = e ∷ w.processed }

unfoldable pub failure_count : String → List (String × ℕ) → ℕ
failure_count e [] = 0
failure_count e ((x, n) ∷ xs) = if x ==ₛ e then n else failure_count e xs

-- `INCR`.
unfoldable pub increment_failures : String → World → World
unfolding failure_count
increment_failures e w = record w { failures = (e, failure_count e w.failures + 1) ∷ w.failures }

abbrev pub insight_requested : String
insight_requested = "InsightRequested"

-- The exceptions that count as success.
unfoldable pub swallow : Result InsightError ProcessInsightResult → Result InsightError (Unit {0})
swallow (ok r) = ok tt
swallow (err (already_terminal s)) = ok tt
swallow (err insight_not_found) = ok tt
swallow (err e) = err e

-- `ProcessInsightUseCase` as the handler calls it, by the two identifiers.
abbrev pub Process : Type 0
Process = String → String → Table → Outcome

unfoldable pub run_process :
    Process → Option String → Option String → Table → Result InsightError (Unit {0}) × Table
unfolding swallow
run_process process (some i) (some u) t = (swallow (process i u t).0, (process i u t).1)
run_process process _ _ t = (err value_error, t)

unfoldable pub dispatch : Process → Body → Table → Result InsightError (Unit {0}) × Table
unfolding nonempty run_process
dispatch process b t = elim b.event_type [
  | none ↦ (ok tt, t)
  | some ty ↦
      if ty ==ₛ insight_requested
      then run_process process (nonempty b.insight_id) (nonempty b.user_id) t
      else (ok tt, t)
]

-- The `except` of the handler, after the failures have been counted.
unfoldable pub after_failure :
    ℕ → Body → InsightError → String → World → Result InsightError (Unit {0}) × World
unfolding mark_processed failure_count
after_failure max_retries b e event_id w =
    if leb max_retries (failure_count event_id w.failures)
    then (
      ok tt,
      mark_processed event_id (record w { dlq = record { body = b; x_error = e } ∷ w.dlq }),
    )
    else (err e, w)

unfoldable pub conclude :
    ℕ
    → Body
    → String
    → World
    → Result InsightError (Unit {0}) × Table
    → Result InsightError (Unit {0}) × World
unfolding mark_processed increment_failures after_failure
conclude max_retries b event_id w (ok u, t) =
    (ok tt, mark_processed event_id (record w { insights = t }))
conclude max_retries b event_id w (err e, t) =
    after_failure max_retries b e event_id (increment_failures event_id (record w { insights = t }))

module _ (process : Process) (digest : Body → String) (max_retries : ℕ) where
  unfoldable pub handle_insight_event : Body → World → Result InsightError (Unit {0}) × World
  unfolding resolve_event_id is_processed dispatch conclude
  handle_insight_event b w =
      let event_id = resolve_event_id digest b in
      if is_processed event_id w.processed
      then (ok tt, w)
      else conclude max_retries b event_id w (dispatch process b w.insights)

  -- Kafka delivers a message until the handler returns.
  unfoldable pub deliver : ℕ → Body → World → Result InsightError (Unit {0}) × World
  unfolding handle_insight_event
  deliver zero b w = handle_insight_event b w
  deliver (suc n) b w =
      let (r, w') = handle_insight_event b w in
      let rest = deliver n b w' in elim r [ ok u ↦ (ok u, w') | err e ↦ rest ]
