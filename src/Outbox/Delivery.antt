-- ===== src/Outbox/Delivery.antt =====
-- What holds of every row of the outbox, whatever the broker and the commits do.
use mathlib.Core.Path.{subst}
use yomochi.Base.{
  map, Bool, ℕ, ◌+◌, ◌≤◌, ◌<◌, ◌≡◌, refl, sym, ◌∙◌, inl, inr, ◌⊎◌, ==_iff, Option, none, some,
  some_inj, List, [], ◌∷◌, arith, leb, ◌==◌, Bool-cases, Option-cases,
}
use yomochi.Text.{Text}
use yomochi.Outbox.{
  OutboxRow, OutboxStatus, OutboxEvent, Outbox, Publication, build_message, publication, Poller,
  Batch, append, find_row, update, failed_row, retried_row, sent_row, record_failure, after_publish,
  relay, process_row, process_one, process_all, run_once, lock_row, topic_of, no_topic,
  snapshot_pending_ids,
}
use yomochi.Outbox.Requeue.{
  RequeueFilter, requeue_failed, target_ids, has_id, reset_row, reset_if, find_row-reset,
}
use yomochi.Outbox.Rows.{
  find_row-update, find_row-update_other, find_row-id, find_row-append, lock_row-pending,
}

abbrev pub Has : {A : Type 0} → A → List A → Type 0
Has x [] = ⊥
Has x (y ∷ ys) = (x ≡ y) ⊎ Has x ys

-- A sent row has been published, a pending one has retries left, and a failed one tells why and when.
abbrev pub StatusSound : ℕ → List Publication → OutboxStatus → OutboxRow → Type 0
StatusSound m published OutboxStatus.sent r = (topic : Text) × Has (publication topic r) published
StatusSound m published OutboxStatus.pending r = r.retry_count < m
StatusSound m published OutboxStatus.failed r =
    (error : Text) × (at : ℕ) × (r.last_error ≡ some error) × (r.failed_at ≡ some at)

abbrev pub RowSound : ℕ → List Publication → OutboxRow → Type 0
RowSound m published r = StatusSound m published r.status r

abbrev pub IsSound : ℕ → Outbox → Type 0
IsSound m o = (k : ℕ) (r : OutboxRow) → find_row k o.rows ≡ some r → RowSound m o.published r

-- One more publication takes nothing away.
StatusSound-more :
    (m : ℕ) (p : Publication) (ps : List Publication) (s : OutboxStatus) (r : OutboxRow)
    → StatusSound m ps s r
    → StatusSound m (p ∷ ps) s r
StatusSound-more m p ps OutboxStatus.sent r (topic, h) = (topic, inr h)
StatusSound-more m p ps OutboxStatus.pending r h = h
StatusSound-more m p ps OutboxStatus.failed r h = h

publish-IsSound :
    (m : ℕ) (p : Publication) (o : Outbox)
    → IsSound m o
    → IsSound m (record o { published = p ∷ o.published })
publish-IsSound m p o h k r e = StatusSound-more m p o.published r.status r (h k r e)

-- An update of one row keeps all sound when it makes that row sound.
update-IsSound :
    (m id : ℕ) (f : OutboxRow → OutboxRow) (o : Outbox) (x : OutboxRow)
    → ((y : OutboxRow) → (f y).id_ ≡ y.id_)
    → find_row id o.rows ≡ some x
    → RowSound m o.published (f x)
    → IsSound m o
    → IsSound m (record o { rows = update id f o.rows })
update-IsSound m id f o x keeps found sound h k r e = elim (Bool-cases (id == k)) [
  | inl same ↦
      let e' =
        subst (λ n. find_row n (update id f o.rows) ≡ some r) (sym ((==_iff id k).0 same)) e in
      subst (λ y. RowSound m o.published y)
        (some_inj (f x) r (sym (find_row-update id f o.rows keeps found) ∙ e')) sound
  | inr other ↦ h k r (sym (find_row-update_other id k f o.rows keeps other) ∙ e)
]

pub keeps_id-retried : (now m : ℕ) (e : Text) (r : OutboxRow) → (retried_row now m e r).id_ ≡ r.id_
unfolding retried_row failed_row
keeps_id-retried now m e r = elim (Bool-cases (leb m (r.retry_count + 1))) [
  | inl h ↦ rw h refl
  | inr h ↦ rw h refl
]

retried_row-RowSound :
    (now m : ℕ) (e : Text) (ps : List Publication) (r : OutboxRow)
    → r.status ≡ OutboxStatus.pending
    → RowSound m ps (retried_row now m e r)
unfolding retried_row failed_row
retried_row-RowSound now m e ps r q = elim (Bool-cases (leb m (r.retry_count + 1))) [
  | inl h ↦ rw h (_, _, refl, refl)
  | inr h ↦ rw (h, q) (ground (arith, h))
]

module _ (p : Poller) (b : Batch) where
  record_failure-IsSound :
      (id : ℕ) (e : Text) (o : Outbox) (r : OutboxRow)
      → find_row id o.rows ≡ some r
      → r.status ≡ OutboxStatus.pending
      → IsSound p.max_retries o
      → IsSound p.max_retries (record_failure p b id e o)
  unfolding record_failure
  record_failure-IsSound id e o r found q h =
      update-IsSound p.max_retries id (retried_row b.now p.max_retries e) o r
        (keeps_id-retried b.now p.max_retries e) found
        (retried_row-RowSound b.now p.max_retries e o.published r q) h

  relay-IsSound :
      (id : ℕ) (topic : Text) (raised : Option Text) (o : Outbox) (r : OutboxRow)
      → find_row id o.rows ≡ some r
      → r.status ≡ OutboxStatus.pending
      → IsSound p.max_retries o
      → IsSound p.max_retries (relay p b id (publication topic r) raised o).1
  unfolding relay after_publish sent_row build_message
  relay-IsSound id topic (some e) o r found q h = record_failure-IsSound id e o r found q h
  relay-IsSound id topic none o r found q h =
      let o' = record o { published = publication topic r ∷ o.published } in
      let h' = publish-IsSound p.max_retries (publication topic r) o h in
      elim (Option-cases (b.commit id)) [
        | inl commits ↦
            rw commits
              (update-IsSound p.max_retries id sent_row o' r (λ y. refl) found (topic, inl refl) h')
        | inr (e, raises) ↦ rw raises (record_failure-IsSound id e o' r found q h')
      ]

  process_one-IsSound :
      (id : ℕ) (o : Outbox)
      → IsSound p.max_retries o
      → IsSound p.max_retries (process_one p b id o).1
  unfolding process_one process_row failed_row
  process_one-IsSound id o h = elim (Option-cases (lock_row b id o.rows)) [
    | inl skips ↦ rw (skips, process_one) h
    | inr (r, locks) ↦
        let (found, q) = lock_row-pending b id o.rows locks in
        let here =
          subst (λ n. find_row n o.rows ≡ some r) (sym (find_row-id id o.rows found)) found in
        elim (Option-cases (topic_of r.event_type p.topic_map)) [
          | inl unknown ↦
              rw (locks, unknown, process_one)
                (update-IsSound p.max_retries r.id_ (failed_row b.now (no_topic r.event_type) none)
                  o r (λ y. refl) here (_, _, refl, refl) h)
          | inr (topic, known) ↦
              rw (locks, known, process_one)
                (relay-IsSound r.id_ topic (b.publish (publication topic r)) o r here q h)
        ]
  ]

  process_all-IsSound :
      (ids : List ℕ) (o : Outbox)
      → IsSound p.max_retries o
      → IsSound p.max_retries (process_all p b ids o).1
  unfolding process_all
  process_all-IsSound [] o h = h
  process_all-IsSound (id ∷ ids) o h =
      process_all-IsSound ids (process_one p b id o).1 (process_one-IsSound id o h)

reset_if-RowSound :
    (m : ℕ) (ps : List Publication) (ids : List ℕ) (r : OutboxRow)
    → 1 ≤ m
    → RowSound m ps r
    → RowSound m ps (reset_if ids r)
unfolding reset_if reset_row
reset_if-RowSound m ps ids r pos h = elim (Bool-cases (has_id r.id_ ids)) [
  | inl e ↦ rw e pos
  | inr e ↦ rw e h
]

reset-IsSound :
    (m : ℕ) (ids : List ℕ) (o : Outbox)
    → 1 ≤ m
    → IsSound m o
    → IsSound m (record o { rows = map (reset_if ids) o.rows })
reset-IsSound m ids o pos h k r e = elim (Option-cases (find_row k o.rows)) [
  | inl gone ↦ cc (sym (find_row-reset ids k o.rows) ∙ e, gone)
  | inr (x, was) ↦
      let found = find_row-reset ids k o.rows in
      let same = some_inj (reset_if ids x) r (sym (rw was at found) ∙ e) in
      subst (λ y. RowSound m o.published y) same
        (reset_if-RowSound m o.published ids x pos (h k x was))
]

requeue_failed-IsSound :
    (m : ℕ) (f : RequeueFilter) (locked : ℕ → Bool) (o : Outbox)
    → 1 ≤ m
    → IsSound m o
    → IsSound m (requeue_failed f locked o).1
unfolding requeue_failed
requeue_failed-IsSound m f locked o pos h k r e = elim (Bool-cases f.dry_run) [
  | inl dry ↦ rw dry (h k r (rw (dry, requeue_failed) at e))
  | inr wet ↦
      rw (wet, requeue_failed)
        (reset-IsSound m (target_ids f locked o.rows) o pos h k r (rw (wet, requeue_failed) at e))
]

-- A request that adds an event, a batch of some poller with one configuration, or an administrator
-- that requeues failed rows.
pub data Reach (p : Poller) : Outbox → Type 0 where
  start : Reach p (record { rows = []; published = [] })
  appended : {o : Outbox} → Reach p o → (id now : ℕ) (e : OutboxEvent) → Reach p (append id now e o)
  requeued :
      {o : Outbox}
      → Reach p o
      → (f : RequeueFilter) (locked : ℕ → Bool) → Reach p (requeue_failed f locked o).1
  polled : {o : Outbox} → Reach p o → (b : Batch) → Reach p (run_once p b o).1

-- With a limit of at least 1, whatever the broker, the locks, the commits and the administrator do
-- from an empty outbox on, each row that is found in it and marked as sent has been published with
-- its own message and key, each pending one has failed fewer times than the limit, and each failed
-- one has an error and a time.
pub reachable-IsSound :
    (p : Poller) (o : Outbox) → 1 ≤ p.max_retries → Reach p o → IsSound p.max_retries o
unfolding append find_row run_once
reachable-IsSound p o some_retry start k r e = cc
reachable-IsSound p o some_retry (appended {o = o'} h id now ev) k r e =
    elim (find_row-append k o'.rows
      (record {
        id_ = id;
        event_type = ev.event_type;
        aggregate_id = ev.aggregate_id;
        payload = ev.payload;
        status = OutboxStatus.pending;
        occurred_at = ev.occurred_at;
        created_at = now;
        user_id = ev.user_id;
        retry_count = 0;
        last_error = none;
        failed_at = none;
      })
      e) [
        | inl old ↦ reachable-IsSound p o' some_retry h k r old
        | inr new ↦ subst (λ y. RowSound p.max_retries o'.published y) (sym new) some_retry
      ]
reachable-IsSound p o some_retry (requeued {o = o'} h f locked) k r e =
    requeue_failed-IsSound p.max_retries f locked o' some_retry
      (reachable-IsSound p o' some_retry h) k r e
reachable-IsSound p o some_retry (polled {o = o'} h b) k r e =
    process_all-IsSound p b (snapshot_pending_ids p.batch_size o'.rows) o'
      (reachable-IsSound p o' some_retry h) k r e
