-- ===== src/Outbox/Targets.antt =====
-- Which rows are requeued, and what becomes of each row.
use yomochi.Base.{
  ℕ, zero, suc, ◌≡◌, refl, inl, inr, Bool, true, false, not, ◌&&◌, Option, none, some, List, [],
  ◌∷◌, map, select, All, arith, Bool-cases,
}
use yomochi.Outbox.{OutboxRow, OutboxStatus, Outbox, status_eq}
use yomochi.Outbox.Requeue.{
  RequeueFilter, passes, fails_first, insert_by_failure, by_failure, limited, target_ids,
  requeue_failed,
}
use yomochi.Outbox.Delivery.{Has}

insert_by_failure-All :
    (P : OutboxRow → Type 0) (r : OutboxRow) (rs : List OutboxRow)
    → P r
    → All P rs
    → All P (insert_by_failure r rs)
unfolding insert_by_failure
insert_by_failure-All P r [] h hs = (h, tt)
insert_by_failure-All P r (x ∷ xs) h (g, gs) =
    elim (Bool-cases (fails_first r.failed_at x.failed_at)) [
      | inl e ↦ rw e (h, (g, gs))
      | inr e ↦ rw e (g, insert_by_failure-All P r xs h gs)
    ]

by_failure-All : (P : OutboxRow → Type 0) (rs : List OutboxRow) → All P rs → All P (by_failure rs)
unfolding by_failure
by_failure-All P [] h = tt
by_failure-All P (r ∷ rs) (h, hs) =
    insert_by_failure-All P r (by_failure rs) h (by_failure-All P rs hs)

limited-All :
    (P : OutboxRow → Type 0) (n : Option ℕ) (rs : List OutboxRow) → All P rs → All P (limited n rs)
unfolding limited
limited-All P none rs h = h
limited-All P (some zero) rs h = tt
limited-All P (some (suc n)) [] h = tt
limited-All P (some (suc n)) (r ∷ rs) (h, hs) = (h, limited-All P (some n) rs hs)

All-map :
    {P Q : OutboxRow → Type 0} (f : (r : OutboxRow) → P r → Q r) (rs : List OutboxRow)
    → All P rs
    → All Q rs
All-map f [] h = tt
All-map f (r ∷ rs) (h, hs) = (f r h, All-map f rs hs)

-- A row of a list that passes a test.
abbrev pub Selected : (OutboxRow → Bool) → List OutboxRow → OutboxRow → Type 0
Selected p rows r = (p r ≡ true) × Has r rows

select-Selected :
    (p : OutboxRow → Bool) (rows : List OutboxRow) → All (Selected p rows) (select p rows)
select-Selected p [] = tt
select-Selected p (x ∷ xs) =
    let others =
      All-map {P = Selected p xs} {Q = Selected p (x ∷ xs)} (λ r s. (s.0, inr s.1)) (select p xs)
        (select-Selected p xs) in
    elim (Bool-cases (p x)) [ inl e ↦ rw e ((e, inl refl), others) | inr e ↦ rw e others ]

passes-failed :
    (f : RequeueFilter) (locked : ℕ → Bool) (r : OutboxRow)
    → (passes f r && not (locked r.id_)) ≡ true
    → (r.status ≡ OutboxStatus.failed) × (locked r.id_ ≡ false)
unfolding passes status_eq
passes-failed f locked r e = ground arith

-- The identifiers that a requeue returns are those of failed rows of the table that no other
-- transaction has locked, whatever its filter, and all rows are left as they are in a dry run.
pub requeue_failed-Selected :
    (f : RequeueFilter) (locked : ℕ → Bool) (o : Outbox)
    → (rows : List OutboxRow) × ((requeue_failed f locked o).0 ≡ map (λ r. r.id_) rows)
      × All (λ r. (r.status ≡ OutboxStatus.failed) × (locked r.id_ ≡ false) × Has r o.rows) rows
      × (f.dry_run ≡ true → (requeue_failed f locked o).1 ≡ o)
unfolding requeue_failed target_ids
requeue_failed-Selected f locked o =
    let p = λ (r : OutboxRow). passes f r && not (locked r.id_) in
    let selected = select-Selected p o.rows in
    let rows = limited f.limit (by_failure (select p o.rows)) in
    (
      rows,
      refl,
      All-map (λ r s. let (failed, free) = passes-failed f locked r s.0 in (failed, free, s.1)) rows
          (limited-All (Selected p o.rows) f.limit (by_failure (select p o.rows))
            (by_failure-All (Selected p o.rows) (select p o.rows) selected)),
      λ dry. rw dry refl,
    )
