-- ===== src/Tests/Relay.antt =====
-- The outbox.
use yomochi.Base.{Bool, ℕ, false, none, some, [], ◌∷◌, arith}
use yomochi.Text.{codes}
use yomochi.Outbox.{OutboxRow, OutboxStatus, OutboxEvent, Outbox, Poller, Batch, append, run_once}
use yomochi.Outbox.Delivery.{start, appended, polled, IsSound, reachable-IsSound}
use yomochi.Outbox.Requeue.{RequeueFilter}

abbrev poller : Poller
poller = record {
  topic_map = (codes "InsightRequested", codes "yomochi.insights.v1") ∷ [];
  batch_size = 100;
  max_retries = 2;
}

abbrev event : OutboxEvent
event = record {
  event_type = codes "InsightRequested";
  aggregate_id = codes "a";
  payload = codes "{}";
  occurred_at = 5;
  user_id = some 7;
}

abbrev empty_outbox : Outbox
empty_outbox = record { rows = []; published = [] }

-- A broker that is down.
abbrev down : Batch
down = record {
  now = 10;
  locked = λ id. false;
  publish = λ m. some (codes "down");
  commit = λ id. none;
}

-- A broker that is up.
abbrev up : Batch
up = record { now = 20; locked = λ id. false; publish = λ m. none; commit = λ id. none }

abbrev relayed : Outbox
relayed = (run_once poller up (run_once poller down (append 1 6 event empty_outbox)).1).1

reachable-IsSound_example : IsSound 2 relayed
reachable-IsSound_example =
    reachable-IsSound poller relayed (omega arith)
      (polled (polled (appended start 1 6 event) down) up)

abbrev replay : RequeueFilter
replay = record {
  ids = none;
  event_type = none;
  failed_before = some 30;
  limit = some 1;
  dry_run = false;
}

abbrev row : OutboxRow
row = record {
  id_ = 1;
  event_type = codes "InsightRequested";
  aggregate_id = codes "a";
  payload = codes "{}";
  status = OutboxStatus.pending;
  occurred_at = 5;
  created_at = 6;
  user_id = some 7;
  retry_count = 0;
  last_error = none;
  failed_at = none;
}

abbrev outbox : Outbox
outbox = record { rows = row ∷ []; published = [] }

abbrev broken : Outbox
broken = record {
  rows = (record row { status = OutboxStatus.failed; failed_at = some 9 }) ∷ [];
  published = [];
}

abbrev nobody : ℕ → Bool
nobody id = false
