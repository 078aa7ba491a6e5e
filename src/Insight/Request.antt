-- ===== src/Insight/Request.antt =====
-- How an insight and its message come about: app/application/insights/use_cases/request_insight.py, and
-- `_reaper_tick` of app/main/scheduler/main.py. Each is one transaction on both tables. The quota, the
-- count of transactions, new identifiers and the texts of an identifier and of a payload are given.
use yomochi.Base.{
  ℕ, ◌+◌, ◌≡◌, refl, ap, ◌∙◌, inl, inr, ◌⊎◌, Bool, false, none, some, List, [], ◌∷◌, ◌++◌, map, ltb,
  select, Bool-cases, ==_refl, if◌then◌else◌, ◌==◌,
}
use yomochi.Base.Result.{Result, ok, err}
use yomochi.Text.{Text, codes}
use yomochi.Insight.{Insight, InsightStatus, InsightError, Period, mark_queued, status_eq}
use yomochi.Insight.Repository.{
  Table, find_row, save, ReapResult, reap_expired_processing, requeues, requeue_row,
}
use yomochi.Insight.Repository.Rows.{find_row-save, id_-requeue_row}
use yomochi.Outbox.{Outbox, OutboxRow, OutboxStatus, OutboxEvent, append}

pub record RequestInsightCommand : Type 0 where
  pub user_id : ℕ
  pub period : Period
  pub period_year : ℕ
  pub period_month : ℕ

pub data RequestError : Type 0 where
  quota_exceeded insufficient_transactions not_pending : RequestError

-- What a request meets: whether the quota admits it, the transactions of the period and the least
-- number of them, the time, and the identifiers of the insight and of the outbox row.
pub record Conditions : Type 0 where
  pub quota_ok : Bool
  pub count : ℕ
  pub min_tx : ℕ
  pub now : ℕ
  pub insight_id : ℕ
  pub row_id : ℕ

unfoldable pub new_insight : Conditions → RequestInsightCommand → Insight
new_insight c cmd = record {
  id_ = c.insight_id;
  user_id = cmd.user_id;
  period = cmd.period;
  period_year = cmd.period_year;
  period_month = cmd.period_month;
  status = InsightStatus.pending;
  context_quality = none;
  title = none;
  description = none;
  impact_score = none;
  generated_at = none;
  error_message = none;
  created_at = c.now;
  updated_at = none;
  budget_summary = none;
  processing_deadline = none;
  retry_count = 0;
}

module _ (text_of_id : ℕ → Text) (payload_of : Insight → Text) where
  unfoldable pub requested_event : ℕ → Insight → OutboxEvent
  requested_event now i = record {
    event_type = codes "InsightRequested";
    aggregate_id = text_of_id i.id_;
    payload = payload_of i;
    occurred_at = now;
    user_id = some i.user_id;
  }

  unfoldable pub store_request :
      Conditions
      → Result InsightError Insight
      → Table
      → Outbox
      → Result RequestError ℕ × Table × Outbox
  unfolding requested_event save append
  store_request c (err e) t o = (err not_pending, t, o)
  store_request c (ok i) t o =
      (ok i.id_, save i t, append c.row_id c.now (requested_event c.now i) o)

  unfoldable pub request_insight :
      Conditions → RequestInsightCommand → Table → Outbox → Result RequestError ℕ × Table × Outbox
  unfolding store_request new_insight mark_queued
  request_insight c cmd t o =
      if c.quota_ok
      then (if ltb c.count c.min_tx
          then (err insufficient_transactions, t, o)
          else store_request c (mark_queued (new_insight c cmd)) t o)
      else (err quota_exceeded, t, o)

  -- The loop over the requeued insights; the identifiers of the new rows are counted up.
  unfoldable pub announce_all : ℕ → ℕ → List Insight → Outbox → Outbox
  unfolding requested_event append
  announce_all row_id now [] o = o
  announce_all row_id now (i ∷ is) o =
      announce_all (row_id + 1) now is (append row_id now (requested_event now i) o)

  unfoldable pub announce : ℕ → ℕ → Result InsightError ReapResult → Outbox → Outbox
  unfolding announce_all
  announce row_id now (err e) o = o
  announce row_id now (ok result) o = announce_all row_id now result.requeued o

  unfoldable pub reaper_tick : ℕ → ℕ → ℕ → Table → Outbox → Table × Outbox
  unfolding reap_expired_processing announce
  reaper_tick row_id now max_retries t o =
      let (reply, t') = reap_expired_processing now max_retries t in
      (t', announce row_id now reply o)

  -- A request either raises and changes neither table, or stores a queued insight of the caller under
  -- the new identifier and adds one pending row for it to the outbox.
  pub request_insight-announces :
      (c : Conditions) (cmd : RequestInsightCommand) (t : Table) (o : Outbox)
      → ((e : RequestError) × (request_insight c cmd t o ≡ (err e, t, o)))
        ⊎ ((i : Insight) × (r : OutboxRow) × ((request_insight c cmd t o).0 ≡ ok c.insight_id)
            × (find_row c.insight_id (request_insight c cmd t o).1 ≡ some i)
            × (i.status ≡ InsightStatus.queued)
            × (i.user_id ≡ cmd.user_id)
            × ((request_insight c cmd t o).2.rows ≡ o.rows ++ r ∷ [])
            × (r.status ≡ OutboxStatus.pending)
            × (r.aggregate_id ≡ text_of_id c.insight_id))
  unfolding request_insight store_request new_insight mark_queued status_eq append requested_event
  request_insight-announces c cmd t o = elim (Bool-cases c.quota_ok) [
    | inr full ↦ rw full (inl (quota_exceeded, refl))
    | inl room ↦ elim (Bool-cases (ltb c.count c.min_tx)) [
      | inl few ↦ rw (room, few) (inl (insufficient_transactions, refl))
      | inr enough ↦
          let queued = record (new_insight c cmd) { status = InsightStatus.queued } in
          let found : (if c.insight_id == c.insight_id
                then some queued
                else find_row c.insight_id t)
              ≡ some queued =
            rw (==_refl c.insight_id) refl in
          rw (room, enough)
            (inr (
              queued,
              _,
              refl,
              find_row-save queued c.insight_id t ∙ found,
              refl,
              refl,
              refl,
              refl,
              refl,
            ))
    ]
  ]

map-snoc :
    {A B : Type 0} (f : A → B) (xs : List A) (x : A) (ys : List B)
    → map f (xs ++ x ∷ []) ++ ys ≡ map f xs ++ f x ∷ ys
map-snoc f [] x ys = refl
map-snoc f (z ∷ zs) x ys = ap (λ t. f z ∷ t) (map-snoc f zs x ys)

append-nil : {B : Type 0} (xs : List B) → xs ≡ xs ++ []
append-nil [] = refl
append-nil (x ∷ xs) = ap (λ t. x ∷ t) (append-nil xs)

module _ (text_of_id : ℕ → Text) (payload_of : Insight → Text) where
  abbrev text_of : Insight → Text
  text_of i = text_of_id i.id_

  announce_all-aggregates :
      (row_id now : ℕ) (is : List Insight) (o : Outbox)
      → map (λ r. r.aggregate_id) (announce_all text_of_id payload_of row_id now is o).rows
        ≡ map (λ r. r.aggregate_id) o.rows ++ map text_of is
  unfolding announce_all append requested_event
  announce_all-aggregates row_id now [] o = append-nil (map (λ r. r.aggregate_id) o.rows)
  announce_all-aggregates row_id now (i ∷ is) o =
      announce_all-aggregates (row_id + 1) now is
        (append row_id now (requested_event text_of_id payload_of now i) o)
      ∙ map-snoc (λ r. r.aggregate_id) o.rows _ (map text_of is)

  text_of-requeue_row :
      (now m : ℕ) (is : List Insight) → map text_of (map (requeue_row now m) is) ≡ map text_of is
  text_of-requeue_row now m [] = refl
  text_of-requeue_row now m (i ∷ is) =
      rw (id_-requeue_row now m i, text_of-requeue_row now m is) refl

  -- With a limit of at least 1, a tick of the reaper adds to the outbox one row for each insight of the
  -- table that it requeues, in order, and no other.
  pub reaper_tick-announces :
      (row_id now m : ℕ) (t : Table) (o : Outbox)
      → ltb m 1 ≡ false
      → map (λ r. r.aggregate_id) (reaper_tick text_of_id payload_of row_id now m t o).1.rows
        ≡ map (λ r. r.aggregate_id) o.rows
          ++ map (λ i. text_of_id i.id_) (select (requeues now m) t)
  unfolding reaper_tick reap_expired_processing announce
  reaper_tick-announces row_id now m t o pos =
      let rows = select (requeues now m) t in
      rw pos (
        announce_all-aggregates row_id now (map (requeue_row now m) rows) o
        ∙ ap (λ t. map (λ r. r.aggregate_id) o.rows ++ t) (text_of-requeue_row now m rows))
