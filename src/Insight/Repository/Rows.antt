-- ===== src/Insight/Repository/Rows.antt =====
-- The table by its keys: what `save` and the updates of the reaper do to the row of a key.
use yomochi.Base.{
  ℕ, ◌≡◌, refl, sym, ap, ◌∙◌, ==_iff, inl, inr, Option, none, some, [], ◌∷◌, map, arith, ◌==◌,
  Bool-cases, if◌then◌else◌,
}
use yomochi.Insight.{Insight}
use yomochi.Insight.Repository.{
  Table, find_row, save, get_by_id, requeue_row, exhaust_row, requeues, exhausts,
}

pub find_row-save :
    (i : Insight) (k : ℕ) (t : Table)
    → find_row k (save i t) ≡ (if i.id_ == k then some i else find_row k t)
unfolding find_row save
find_row-save i k [] = refl
find_row-save i k (j ∷ t) = ground (arith, find_row-save i k t)

abbrev id_or : ℕ → Option Insight → ℕ
id_or k none = k
id_or k (some i) = i.id_

-- The row of a key under an update that keeps keys.
abbrev pub updated : (Insight → Insight) → Option Insight → Option Insight
updated f none = none
updated f (some i) = some (f i)

pub find_row-map :
    (f : Insight → Insight) (keeps : (i : Insight) → (f i).id_ ≡ i.id_) (k : ℕ) (t : Table)
    → find_row k (map f t) ≡ updated f (find_row k t)
unfolding find_row
find_row-map f keeps k [] = refl
find_row-map f keeps k (i ∷ t) =
    let same = ap (λ (n : ℕ). n == k) (keeps i) in
    elim (Bool-cases (i.id_ == k)) [
      | inl e ↦ rw (same ∙ e, e)
      | inr e ↦ rw (same ∙ e, e) (find_row-map f keeps k t)
    ]

-- A row that is found has the key, and the user's row is the row of the key.
pub find_row-id : (k : ℕ) (t : Table) {i : Insight} → find_row k t ≡ some i → i.id_ ≡ k
unfolding find_row
find_row-id k [] e = cc
find_row-id k (j ∷ t) {i} e = elim (Bool-cases (j.id_ == k)) [
  | inl h ↦ ap (λ o. id_or k o) (sym (rw h at e)) ∙ (==_iff j.id_ k).0 h
  | inr h ↦ find_row-id k t (rw h at e)
]

pub get_by_id-find_row :
    (k user : ℕ) (t : Table) {i : Insight} → get_by_id k user t ≡ some i → find_row k t ≡ some i
unfolding get_by_id
get_by_id-find_row k user t e = ground arith

pub id_-requeue_row :
    (now max_retries : ℕ) (i : Insight) → (requeue_row now max_retries i).id_ ≡ i.id_
unfolding requeue_row
id_-requeue_row now max_retries i = elim (Bool-cases (requeues now max_retries i)) [
  | inl e ↦ rw e
  | inr e ↦ rw e
]

pub id_-exhaust_row :
    (now max_retries : ℕ) (i : Insight) → (exhaust_row now max_retries i).id_ ≡ i.id_
unfolding exhaust_row
id_-exhaust_row now max_retries i = elim (Bool-cases (exhausts now max_retries i)) [
  | inl e ↦ rw e
  | inr e ↦ rw e
]
