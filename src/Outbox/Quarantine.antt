-- ===== src/Outbox/Quarantine.antt =====
-- A row that the broker never takes: how often it is tried.
use yomochi.Base.{
  ℕ, ◌+◌, ◌<◌, ◌≡◌, refl, ap, ◌∙◌, false, some, List, [], ◌∷◌, arith, length, All, lt→leb-false,
  le→leb,
}
use yomochi.Text.{Text}
use yomochi.Outbox.{
  OutboxRow, OutboxStatus, Outbox, Publication, publication, Poller, Batch, find_row, failed_row,
  retried_row, record_failure, relay, process_row, process_one, lock_row, topic_of, status_eq,
}
use yomochi.Outbox.Rows.{find_row-update, find_row-id}
use yomochi.Outbox.Delivery.{keeps_id-retried}

-- A row that is tried in each of some batches, one after the other.
unfoldable pub attempts : Poller → ℕ → List Batch → Outbox → Outbox
unfolding process_one
attempts p id [] o = o
attempts p id (b ∷ bs) o = attempts p id bs (process_one p b id o).1

-- Batches in which the row is not locked and every message is refused.
abbrev pub Refuses : ℕ → Batch → Type 0
Refuses id b = (b.locked id ≡ false) × ((m : Publication) → (e : Text) × (b.publish m ≡ some e))

-- A pending row of the outbox on a topic of the poller.
pub record Queued (p : Poller) (id : ℕ) (o : Outbox) (r : OutboxRow) : Type 0 where
  pub found : find_row id o.rows ≡ some r
  pub waits : r.status ≡ OutboxStatus.pending
  pub topic : Text
  pub routed : topic_of r.event_type p.topic_map ≡ some topic

module _ (p : Poller) (id : ℕ) where
  process_one-refuses :
      (b : Batch) (o : Outbox) (r : OutboxRow) (q : Queued p id o r)
      → b.locked id ≡ false
      → {e : Text} → b.publish (publication q.topic r) ≡ some e
      → process_one p b id o ≡ (false, record_failure p b id e o)
  unfolding process_one lock_row status_eq process_row relay
  process_one-refuses b o r q free says =
      rw
        (
          q.found,
          q.waits,
          free,
          q.routed,
          says,
          find_row-id id o.rows q.found,
          process_one,
          lock_row,
        )
        refl

  process_one-refused :
      (b : Batch) (o : Outbox) (r : OutboxRow)
      → Queued p id o r
      → Refuses id b
      → (e : Text) × (find_row id (process_one p b id o).1.rows
          ≡ some (retried_row b.now p.max_retries e r))
  unfolding record_failure
  process_one-refused b o r q (free, refuses) =
      let (e, says) = refuses (publication q.topic r) in
      (
        e,
        ap (λ x. find_row id x.1.rows) (process_one-refuses b o r q free says)
            ∙ find_row-update id (retried_row b.now p.max_retries e) o.rows
                (keeps_id-retried b.now p.max_retries e) q.found,
      )

  retried_row-pending :
      (now : ℕ) (e : Text) (r : OutboxRow)
      → r.status ≡ OutboxStatus.pending
      → r.retry_count + 1 < p.max_retries
      → let r' = retried_row now p.max_retries e r in
        (r'.status ≡ OutboxStatus.pending)
        × (r'.retry_count ≡ r.retry_count + 1)
        × (r'.event_type ≡ r.event_type)
  unfolding retried_row
  retried_row-pending now e r q h =
      rw (lt→leb-false p.max_retries (r.retry_count + 1) h) (q, refl, refl)

  retried_row-failed :
      (now : ℕ) (e : Text) (r : OutboxRow)
      → r.retry_count + 1 ≡ p.max_retries
      → let r' = retried_row now p.max_retries e r in
        (r'.status ≡ OutboxStatus.failed) × (r'.retry_count ≡ p.max_retries)
  unfolding retried_row failed_row
  retried_row-failed now e r h =
      rw (le→leb p.max_retries (r.retry_count + 1) (omega (arith, h))) (refl, h)

  Queued-retried :
      (b : Batch) (o : Outbox) (r : OutboxRow)
      → Queued p id o r
      → Refuses id b
      → r.retry_count + 1 < p.max_retries
      → (r' : OutboxRow) × Queued p id (process_one p b id o).1 r'
        × (r'.retry_count ≡ r.retry_count + 1)
  Queued-retried b o r q refuses h =
      let (e, found) = process_one-refused b o r q refuses in
      let (waits, count, ty) = retried_row-pending b.now e r q.waits h in
      (
        _,
        record {
          found = found;
          waits = waits;
          topic = q.topic;
          routed = ap (λ x. topic_of x p.topic_map) ty ∙ q.routed;
        },
        count,
      )

  -- A pending row with a topic whose message is refused in each of some batches stays pending, with a
  -- count of all its refusals, as long as these are fewer than the limit.
  pub attempts-Queued :
      (bs : List Batch) (o : Outbox) (r : OutboxRow)
      → Queued p id o r
      → All (Refuses id) bs
      → r.retry_count + length bs < p.max_retries
      → (r' : OutboxRow) × Queued p id (attempts p id bs o) r'
        × (r'.retry_count ≡ r.retry_count + length bs)
  unfolding attempts
  attempts-Queued [] o r q refuse h = (r, q, omega arith)
  attempts-Queued (b ∷ bs) o r q (refuses, refuse) h =
      let (x, q', count) = Queued-retried b o r q refuses (omega (arith, h)) in
      let (r', final, total) =
        attempts-Queued bs (process_one p b id o).1 x q' refuse (omega (arith, h, count)) in
      (r', final, omega (arith, total, count))

  -- A pending row with a topic whose message is refused in each of some batches that bring its
  -- count exactly to the limit is marked as failed by the last of them, with that count.
  pub attempts-failed :
      (b : Batch) (bs : List Batch) (o : Outbox) (r : OutboxRow)
      → Queued p id o r
      → Refuses id b
      → All (Refuses id) bs
      → r.retry_count + length (b ∷ bs) ≡ p.max_retries
      → (r' : OutboxRow) × (find_row id (attempts p id (b ∷ bs) o).rows ≡ some r')
        × (r'.status ≡ OutboxStatus.failed)
        × (r'.retry_count ≡ p.max_retries)
  unfolding attempts
  attempts-failed b [] o r q refuses refuse h =
      let (e, found) = process_one-refused b o r q refuses in
      let (fails, count) = retried_row-failed b.now e r (omega (arith, h)) in
      (_, found, fails, count)
  attempts-failed b (c ∷ bs) o r q refuses (next, refuse) h =
      let (x, q', count) = Queued-retried b o r q refuses (omega (arith, h)) in
      attempts-failed c bs (process_one p b id o).1 x q' next refuse (omega (arith, h, count))
