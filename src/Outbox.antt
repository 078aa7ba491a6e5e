-- ===== src/Outbox.antt =====
-- The transactional outbox: app/outbound/outbox/poller.py and
-- app/outbound/adapters/sqla/common/outbox_repository.py. Each row is handled in its own transaction,
-- which commits or is undone; that the recording of a failure fails itself is not modelled, nor are
-- metrics, logs and trace contexts. Rows are found by their primary key.
pub mod Rows
pub mod Requeue
pub mod Delivery
pub mod Targets
pub mod Quarantine
use yomochi.Base.{
  ℕ, ◌+◌, String, Bool, true, false, not, ◌&&◌, Option, none, some, List, [], ◌∷◌, ◌++◌, map,
  select, take, leb, ltb, ◌==◌, if◌then◌else◌,
}
use yomochi.Text.{Text, codes, text_eq}

pub data OutboxStatus : Type 0 where
  pending sent failed : OutboxStatus

pub record OutboxRow : Type 0 where
  pub id_ : ℕ
  pub event_type : Text
  pub aggregate_id : Text
  pub payload : Text
  pub status : OutboxStatus
  pub occurred_at : ℕ
  pub created_at : ℕ
  pub user_id : Option ℕ
  pub retry_count : ℕ
  pub last_error : Option Text
  pub failed_at : Option ℕ

-- What `append` is given.
pub record OutboxEvent : Type 0 where
  pub event_type : Text
  pub aggregate_id : Text
  pub payload : Text
  pub occurred_at : ℕ
  pub user_id : Option ℕ

pub record Message : Type 0 where
  pub event_id : ℕ
  pub event_type : Text
  pub aggregate_id : Text
  pub user_id : Option ℕ
  pub payload : Text
  pub occurred_at : ℕ

-- A message on a topic, with its key.
pub record Publication : Type 0 where
  pub topic : Text
  pub key : Option ℕ
  pub message : Message

-- The table, and what the broker has accepted, latest first.
pub record Outbox : Type 0 where
  pub rows : List OutboxRow
  pub published : List Publication

-- What one batch meets: the time, the rows that another transaction has locked, and the exceptions
-- that the broker and the commit after it raise, by their texts.
pub record Batch : Type 0 where
  pub now : ℕ
  pub locked : ℕ → Bool
  pub publish : Publication → Option Text
  pub commit : ℕ → Option Text

pub record Poller : Type 0 where
  pub topic_map : List (Text × Text)
  pub batch_size : ℕ
  pub max_retries : ℕ

unfoldable pub status_eq : OutboxStatus → OutboxStatus → Bool
status_eq OutboxStatus.pending OutboxStatus.pending = true
status_eq OutboxStatus.sent OutboxStatus.sent = true
status_eq OutboxStatus.failed OutboxStatus.failed = true
status_eq _ _ = false

-- `append`: a new identifier and the time of the database are given.
unfoldable pub append : ℕ → ℕ → OutboxEvent → Outbox → Outbox
append new_id now e o = record o {
  rows =
      o.rows
      ++ (record {
        id_ = new_id;
        event_type = e.event_type;
        aggregate_id = e.aggregate_id;
        payload = e.payload;
        status = OutboxStatus.pending;
        occurred_at = e.occurred_at;
        created_at = now;
        user_id = e.user_id;
        retry_count = 0;
        last_error = none;
        failed_at = none;
      })
        ∷ [];
}

unfoldable pub build_message : OutboxRow → Message
build_message r = record {
  event_id = r.id_;
  event_type = r.event_type;
  aggregate_id = r.aggregate_id;
  user_id = r.user_id;
  payload = r.payload;
  occurred_at = r.occurred_at;
}

abbrev pub publication : Text → OutboxRow → Publication
publication topic r = record { topic = topic; key = r.user_id; message = build_message r }

unfoldable pub topic_of : Text → List (Text × Text) → Option Text
topic_of e [] = none
topic_of e ((ty, topic) ∷ m) = if text_eq ty e then some topic else topic_of e m

unfoldable pub find_row : ℕ → List OutboxRow → Option OutboxRow
find_row id [] = none
find_row id (r ∷ rs) = if r.id_ == id then some r else find_row id rs

-- `UPDATE … WHERE id = row_id`.
unfoldable pub update : ℕ → (OutboxRow → OutboxRow) → List OutboxRow → List OutboxRow
update id f [] = []
update id f (r ∷ rs) = if r.id_ == id then f r ∷ rs else r ∷ update id f rs

-- `ORDER BY created_at`.
unfoldable pub insert_by_creation : OutboxRow → List OutboxRow → List OutboxRow
insert_by_creation r [] = r ∷ []
insert_by_creation r (x ∷ xs) =
    let rest = insert_by_creation r xs in
    if leb r.created_at x.created_at then r ∷ x ∷ xs else x ∷ rest

unfoldable pub by_creation : List OutboxRow → List OutboxRow
unfolding insert_by_creation
by_creation [] = []
by_creation (r ∷ rs) = insert_by_creation r (by_creation rs)

unfoldable pub snapshot_pending_ids : ℕ → List OutboxRow → List ℕ
unfolding by_creation status_eq
snapshot_pending_ids batch_size rows =
    map (λ r. r.id_)
      (take batch_size (by_creation (select (λ r. status_eq r.status OutboxStatus.pending) rows)))

-- `_lock_row`: SKIP LOCKED finds no row where another transaction holds it.
unfoldable pub lock_row : Batch → ℕ → List OutboxRow → Option OutboxRow
unfolding find_row status_eq
lock_row b id rows = elim (find_row id rows) [
  | none ↦ none
  | some r ↦ if status_eq r.status OutboxStatus.pending && not (b.locked id) then some r else none
]

abbrev pub error_limit : ℕ
error_limit = 1000

unfoldable pub failed_row : ℕ → Text → Option ℕ → OutboxRow → OutboxRow
failed_row now error count r = record r {
  status = OutboxStatus.failed;
  last_error = some (take error_limit error);
  failed_at = some now;
  retry_count = elim count [ none ↦ r.retry_count | some n ↦ n ];
}

-- What `_record_failure` makes of a row.
unfoldable pub retried_row : ℕ → ℕ → Text → OutboxRow → OutboxRow
unfolding failed_row
retried_row now max_retries error r =
    let new_count = r.retry_count + 1 in
    if leb max_retries new_count
    then failed_row now error (some new_count) r
    else record r { retry_count = new_count; last_error = some (take error_limit error) }

unfoldable pub sent_row : OutboxRow → OutboxRow
sent_row r = record r { status = OutboxStatus.sent }

abbrev pub no_topic : Text → Text
no_topic event_type = codes "no topic for " ++ event_type

module _ (p : Poller) (b : Batch) where
  unfoldable pub record_failure : ℕ → Text → Outbox → Outbox
  unfolding retried_row update
  record_failure id error o = record o {
    rows = update id (retried_row b.now p.max_retries error) o.rows;
  }

  -- The commit of the transaction in which the message was published.
  unfoldable pub after_publish : ℕ → Option Text → Outbox → Bool × Outbox
  unfolding record_failure sent_row
  after_publish id none o = (true, record o { rows = update id sent_row o.rows })
  after_publish id (some error) o = (false, record_failure id error o)

  unfoldable pub relay : ℕ → Publication → Option Text → Outbox → Bool × Outbox
  unfolding after_publish record_failure
  relay id m none o = after_publish id (b.commit id) (record o { published = m ∷ o.published })
  relay id m (some error) o = (false, record_failure id error o)

  unfoldable pub process_row : OutboxRow → Option Text → Outbox → Bool × Outbox
  unfolding relay failed_row build_message
  process_row r none o = (
    false,
    record o { rows = update r.id_ (failed_row b.now (no_topic r.event_type) none) o.rows },
  )
  process_row r (some topic) o =
      relay r.id_ (publication topic r) (b.publish (publication topic r)) o

  unfoldable pub process_one : ℕ → Outbox → Bool × Outbox
  unfolding lock_row process_row topic_of
  process_one id o = elim (lock_row b id o.rows) [
    | none ↦ (false, o)
    | some r ↦ process_row r (topic_of r.event_type p.topic_map) o
  ]

  unfoldable pub process_all : List ℕ → Outbox → ℕ × Outbox
  unfolding process_one
  process_all [] o = (0, o)
  process_all (id ∷ ids) o =
      let (was_sent, o') = process_one id o in
      let (n, o'') = process_all ids o' in (if was_sent then n + 1 else n, o'')

  unfoldable pub run_once : Outbox → ℕ × Outbox
  unfolding process_all snapshot_pending_ids
  run_once o = process_all (snapshot_pending_ids p.batch_size o.rows) o
