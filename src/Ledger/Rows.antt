-- ===== src/Ledger/Rows.antt =====
-- The table of transactions under `merge` and `get_by_id` of
-- app/outbound/adapters/sqla/transactions/transaction_repository.py.
use yomochi.Base.{
  ℕ, ◌+◌, ◌≤◌, ◌≡◌, ◌≢◌, refl, sym, ◌∙◌, inl, inr, Bool, true, false, some, List, [], ◌∷◌, All,
  All-mono, All-find, All-select, select, find, length, ◌==◌, arith, Bool-cases, ==_iff, some_inj,
  if◌then◌else◌,
}
use yomochi.Ledger.{Transaction, merge, get_transaction, is_own}

-- No key stands in two rows.
abbrev pub Unique : List Transaction → Type 0
Unique [] = Unit
Unique (x ∷ xs) = All (λ y. y.id_ ≢ x.id_) xs × Unique xs

abbrev pub Fresh : ℕ → List Transaction → Type 0
Fresh id = All (λ x. x.id_ ≢ id)

pub Fresh-merge :
    (id : ℕ) (t : Transaction) (ts : List Transaction)
    → t.id_ ≢ id
    → Fresh id ts
    → Fresh id (merge t ts)
unfolding merge
Fresh-merge id t [] h f = (h, tt)
Fresh-merge id t (x ∷ xs) h (f, fs) = elim (Bool-cases (x.id_ == t.id_)) [
  | inl e ↦ rw e (h, fs)
  | inr e ↦ rw e (f, Fresh-merge id t xs h fs)
]

pub Unique-merge : (t : Transaction) (ts : List Transaction) → Unique ts → Unique (merge t ts)
unfolding merge
Unique-merge t [] u = (tt, tt)
Unique-merge t (x ∷ xs) (u, us) = elim (Bool-cases (x.id_ == t.id_)) [
  | inl e ↦
      let same = (==_iff x.id_ t.id_).0 e in rw e (All-mono (λ y n. λ k. n (k ∙ sym same)) xs u, us)
  | inr e ↦ rw e (Fresh-merge x.id_ t xs (λ k. ground arith) u, Unique-merge t xs us)
]

pub Unique-select :
    (p : Transaction → Bool) (ts : List Transaction) → Unique ts → Unique (select p ts)
Unique-select p [] u = tt
Unique-select p (x ∷ xs) (u, us) = elim (Bool-cases (p x)) [
  | inl e ↦ rw e (All-select _ p xs u, Unique-select p xs us)
  | inr e ↦ rw e (Unique-select p xs us)
]

is_own_fields :
    (id user : ℕ) (x : Transaction) → is_own id user x ≡ true → (x.id_ ≡ id) × (x.user_id ≡ user)
is_own_fields id user x e = ground arith

-- The row that is found is the only one with its key.
pub get_transaction_only :
    (id user : ℕ) (t : Transaction) (ts : List Transaction)
    → Unique ts
    → get_transaction id user ts ≡ some t
    → (t.id_ ≡ id) × ((t.user_id ≡ user) × All (λ x. x.id_ ≡ id → x ≡ t) ts)
unfolding get_transaction
get_transaction_only id user t [] u found = cc
get_transaction_only id user t (x ∷ xs) (u, us) found = elim (Bool-cases (is_own id user x)) [
  | inl e ↦
      let same : x ≡ t = some_inj x t (sym (rw (e, find) refl) ∙ found) in
      let (key, owner) = is_own_fields id user x e in
      rw (sym same)
        (key, (owner, (λ _. refl, All-mono (λ y n. λ k. absurd (n (k ∙ sym key))) xs u)))
  | inr e ↦
      let later : get_transaction id user xs ≡ some t = sym (rw (e, find) refl) ∙ found in
      let (key, (owner, only)) = get_transaction_only id user t xs us later in
      (
        key,
        (
          owner,
          (
            (λ k.
                absurd (All-find (λ y. y.id_ ≢ x.id_) (is_own id user) t xs u later (key ∙ sym k))),
            only,
          ),
        ),
      )
]

-- A row whose key is not the tables' or stands for the same by a test leaves the rows that pass it.
pub select-merge :
    (p : Transaction → Bool) (t : Transaction) (ts : List Transaction)
    → p t ≡ false
    → All (λ x. x.id_ ≡ t.id_ → p x ≡ false) ts
    → select p (merge t ts) ≡ select p ts
unfolding merge
select-merge p t [] out h = rw out refl
select-merge p t (x ∷ xs) out (h, hs) = elim (Bool-cases (x.id_ == t.id_)) [
  | inl e ↦ rw (e, h ((==_iff x.id_ t.id_).0 e), out) refl
  | inr e ↦ rw (e, select-merge p t xs out hs) refl
]

pub length-select-merge_new :
    (p : Transaction → Bool) (t : Transaction) (ts : List Transaction)
    → Fresh t.id_ ts
    → length (select p (merge t ts)) ≤ length (select p ts) + length (select p (t ∷ []))
unfolding merge
length-select-merge_new p t [] f = omega arith
length-select-merge_new p t (x ∷ xs) (f, fs) =
    let rest = length-select-merge_new p t xs fs in
    let other : (x.id_ == t.id_) ≡ false = ground arith in
    elim (Bool-cases (p x)) [
      | inl e ↦ rw (other, e) (omega (arith, rest))
      | inr e ↦ rw (other, e) rest
    ]

length_if {ℓ} :
    {A : Type ℓ} (b : Bool) (x y : A) (xs ys : List A)
    → length xs ≡ length ys
    → length (if b then x ∷ xs else xs) ≡ length (if b then y ∷ ys else ys)
length_if true x y xs ys h = omega (arith, h)
length_if false x y xs ys h = h

pub length-select-merge_old :
    (p : Transaction → Bool) (t old : Transaction) (ts : List Transaction)
    → p t ≡ p old
    → get_transaction t.id_ t.user_id ts ≡ some old
    → All (λ x. x.id_ ≡ t.id_ → x ≡ old) ts
    → length (select p (merge t ts)) ≡ length (select p ts)
unfolding merge get_transaction
length-select-merge_old p t old [] same found only = cc
length-select-merge_old p t old (x ∷ xs) same found (o, os) = elim (Bool-cases (x.id_ == t.id_)) [
  | inl e ↦
      rw (e, same, o ((==_iff x.id_ t.id_).0 e))
        (length_if (p old) t old (select p xs) (select p xs) refl)
  | inr e ↦
      let out : is_own t.id_ t.user_id x ≡ false = rw e refl in
      let later = sym (rw out refl) ∙ found in
      rw e (
        length_if (p x) x x (select p (merge t xs)) (select p xs)
          (length-select-merge_old p t old xs same later os))
]

pub length-select_both :
    (p q : Transaction → Bool) (ts : List Transaction)
    → length (select p (select q ts)) ≤ length (select p ts)
length-select_both p q [] = omega arith
length-select_both p q (x ∷ xs) =
    let rest = length-select_both p q xs in
    elim (Bool-cases (p x)) [
      | inl e ↦ elim (Bool-cases (q x)) [
        | inl e' ↦ rw (e, e', e) (omega arith)
        | inr e' ↦ rw (e, e') (omega arith)
      ]
      | inr e ↦ elim (Bool-cases (q x)) [
        | inl e' ↦ rw (e, e', e) (omega arith)
        | inr e' ↦ rw (e, e') (omega arith)
      ]
    ]
