-- ===== src/Outbox/Rows.antt =====
-- The rows by their keys, under the updates of the poller.
use yomochi.Base.{
  ℕ, ◌≡◌, refl, sym, ap, ◌∙◌, inl, inr, ◌⊎◌, ==_iff, false, none, some, some_inj, List, [], ◌∷◌,
  ◌++◌, arith, ◌==◌, Bool-cases,
}
use yomochi.Outbox.{OutboxRow, find_row, update, lock_row, Batch, OutboxStatus, status_eq}

pub find_row-update :
    (id : ℕ) (f : OutboxRow → OutboxRow) (rs : List OutboxRow) {r : OutboxRow}
    → ((x : OutboxRow) → (f x).id_ ≡ x.id_)
    → find_row id rs ≡ some r
    → find_row id (update id f rs) ≡ some (f r)
unfolding find_row update
find_row-update id f [] keeps e = cc
find_row-update id f (x ∷ rs) {r} keeps e = elim (Bool-cases (x.id_ == id)) [
  | inl h ↦
      rw (h, ap (λ n. n == id) (keeps x) ∙ h)
        (ap (λ o. elim o [ none ↦ none | some y ↦ some (f y) ]) (rw h at e))
  | inr h ↦ rw (h, h) (find_row-update id f rs keeps (rw h at e))
]

pub find_row-update_other :
    (id k : ℕ) (f : OutboxRow → OutboxRow) (rs : List OutboxRow)
    → ((x : OutboxRow) → (f x).id_ ≡ x.id_)
    → (id == k) ≡ false
    → find_row k (update id f rs) ≡ find_row k rs
unfolding find_row update
find_row-update_other id k f [] keeps ne = refl
find_row-update_other id k f (x ∷ rs) keeps ne = elim (Bool-cases (x.id_ == id)) [
  | inl h ↦
      let other = ap (λ n. n == k) ((==_iff x.id_ id).0 h) ∙ ne in
      rw (h, ap (λ n. n == k) (keeps x) ∙ other, other) refl
  | inr h ↦ rw h (elim (Bool-cases (x.id_ == k)) [
    | inl g ↦ rw g refl
    | inr g ↦ rw g (find_row-update_other id k f rs keeps ne)
  ])
]

pub find_row-id : (k : ℕ) (rs : List OutboxRow) {r : OutboxRow} → find_row k rs ≡ some r → r.id_ ≡ k
unfolding find_row
find_row-id k [] e = cc
find_row-id k (x ∷ rs) {r} e = elim (Bool-cases (x.id_ == k)) [
  | inl h ↦ ap (λ y. y.id_) (some_inj r x (sym (rw h at e))) ∙ (==_iff x.id_ k).0 h
  | inr h ↦ find_row-id k rs (rw h at e)
]

pub find_row-append :
    (k : ℕ) (rs : List OutboxRow) (x : OutboxRow) {r : OutboxRow}
    → find_row k (rs ++ x ∷ []) ≡ some r
    → (find_row k rs ≡ some r) ⊎ (r ≡ x)
unfolding find_row
find_row-append k [] x {r} e = elim (Bool-cases (x.id_ == k)) [
  | inl h ↦ inr (some_inj r x (sym (rw h at e)))
  | inr h ↦ cc (rw h at e)
]
find_row-append k (y ∷ rs) x e = elim (Bool-cases (y.id_ == k)) [
  | inl h ↦ inl (rw h (rw h at e))
  | inr h ↦ rw h (find_row-append k rs x (rw h at e))
]

pub lock_row-pending :
    (b : Batch) (k : ℕ) (rs : List OutboxRow) {r : OutboxRow}
    → lock_row b k rs ≡ some r
    → (find_row k rs ≡ some r) × (r.status ≡ OutboxStatus.pending)
unfolding lock_row status_eq
lock_row-pending b k rs e = ground arith
