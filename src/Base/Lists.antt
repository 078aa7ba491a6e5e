-- ===== src/Base/Lists.antt =====
-- Lists measured by native numbers, and the list operations of the program's queries.
use Prim.Native.Nat.{ℕ, zero, suc, ◌+◌}
use mathlib.Core.Path.{◌≡◌, refl, sym, ap, ◌∙◌, subst}
use mathlib.Core.Logic.{◌⊎◌, inl, inr}
use mathlib.Core.Bool.{Bool, true, false}
use mathlib.Core.Option.{Option, none, some}
use mathlib.Core.List.{List, [], ◌∷◌, ◌++◌}
use native.Mathlib.Omega.{arith}
use yomochi.Base.Tests.{if◌then◌else◌, Bool-cases, some_inj}

-- A predicate of every element.
abbrev pub All {ℓ κ} : {A : Type ℓ} → (A → Type κ) → List A → Type κ
All P [] = Unit
All P (x ∷ xs) = P x × All P xs

module _ {ℓ} {A : Type ℓ} where
  abbrev pub length : List A → ℕ
  length [] = 0
  length (x ∷ xs) = suc (length xs)

  abbrev pub take : ℕ → List A → List A
  take zero xs = []
  take (suc n) [] = []
  take (suc n) (x ∷ xs) = x ∷ take n xs

  -- The rows that pass a test, in order: a WHERE clause or a comprehension.
  abbrev pub select : (A → Bool) → List A → List A
  select p [] = []
  select p (x ∷ xs) = let rest = select p xs in if p x then x ∷ rest else rest

  -- The first row that passes a test.
  abbrev pub find : (A → Bool) → List A → Option A
  find p [] = none
  find p (x ∷ xs) = if p x then some x else find p xs

  pub length-append : (xs ys : List A) → length (xs ++ ys) ≡ length xs + length ys
  length-append [] ys = omega arith
  length-append (x ∷ xs) ys = omega (arith, length-append xs ys)

pub All-append {ℓ κ} :
    {A : Type ℓ} (P : A → Type κ) (xs ys : List A) → All P xs → All P ys → All P (xs ++ ys)
All-append P [] ys h k = k
All-append P (x ∷ xs) ys (h, hs) k = (h, All-append P xs ys hs k)

pub All-mono {ℓ κ μ} :
    {A : Type ℓ} {P : A → Type κ} {Q : A → Type μ}
    → ((x : A) → P x → Q x)
    → (xs : List A) → All P xs
    → All Q xs
All-mono f [] h = tt
All-mono f (x ∷ xs) (h, hs) = (f x h, All-mono f xs hs)

pub All-select {ℓ κ} :
    {A : Type ℓ} (P : A → Type κ) (p : A → Bool) (xs : List A) → All P xs → All P (select p xs)
All-select P p [] h = tt
All-select P p (x ∷ xs) (h, hs) = elim (Bool-cases (p x)) [
  | inl e ↦ rw e (h, All-select P p xs hs)
  | inr e ↦ rw e (All-select P p xs hs)
]

-- What holds of every element holds of the one that is found.
pub All-find {ℓ κ} :
    {A : Type ℓ} (P : A → Type κ) (p : A → Bool) (a : A) (xs : List A)
    → All P xs
    → find p xs ≡ some a
    → P a
All-find P p a [] h found = cc
All-find P p a (x ∷ xs) (h, hs) found = elim (Bool-cases (p x)) [
  | inl e ↦ subst P (some_inj x a (sym (rw e refl) ∙ found)) h
  | inr e ↦ All-find P p a xs hs (sym (rw e refl) ∙ found)
]

pub find_passes {ℓ} :
    {A : Type ℓ} (p : A → Bool) (a : A) (xs : List A) → find p xs ≡ some a → p a ≡ true
find_passes p a [] found = cc
find_passes p a (x ∷ xs) found = elim (Bool-cases (p x)) [
  | inl e ↦ ap p (sym (some_inj x a (sym (rw e refl) ∙ found))) ∙ e
  | inr e ↦ find_passes p a xs (sym (rw e refl) ∙ found)
]

pub find-none {ℓ} :
    {A : Type ℓ} (p : A → Bool) (xs : List A) → All (λ x. p x ≡ false) xs → find p xs ≡ none
find-none p [] h = refl
find-none p (x ∷ xs) (h, hs) = rw h (find-none p xs hs)

pub List-cases {ℓ} :
    {A : Type ℓ} (xs : List A) → (xs ≡ []) ⊎ ((x : A) × (r : List A) × (xs ≡ x ∷ r))
List-cases [] = inl refl
List-cases (x ∷ r) = inr (x, r, refl)
