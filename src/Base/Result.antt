-- ===== src/Base/Result.antt =====
-- A value or an exception, and computations that change a state and may raise. What was written
-- before a raise stays written, so the state comes back beside the error too.
use mathlib.Core.Path.{◌≡◌, refl}
use mathlib.Core.Logic.{◌⊎◌, inl, inr}

pub data Result {ℓ κ} (E : Type ℓ) (A : Type κ) : Type (ℓ ⊔ κ) where
  ok : A → Result E A
  err : E → Result E A

module _ {ℓ} {E : Type ℓ} where
  infixl 5 ◌>>=◌
  abbrev pub ◌>>=◌ {κ μ} : {A : Type κ} {B : Type μ} → Result E A → (A → Result E B) → Result E B
  ok a >>= f = f a
  err e >>= f = err e

  -- Where a bind has succeeded: the value of its first part, with which the second succeeds.
  pub >>=-ok {κ μ} :
      {A : Type κ} {B : Type μ} {b : B} (f : A → Result E B) (r : Result E A)
      → (r >>= f) ≡ ok b
      → (x : A) × (f x ≡ ok b) × (r ≡ ok x)
  >>=-ok f (err e) raised = cc
  >>=-ok f (ok x) done = (x, done, refl)

pub Result-cases {ℓ κ} :
    {E : Type ℓ} {A : Type κ} (r : Result E A) → ((a : A) × (r ≡ ok a)) ⊎ ((e : E) × (r ≡ err e))
Result-cases (ok a) = inl (a, refl)
Result-cases (err e) = inr (e, refl)

pub ok_inj {ℓ κ} : {E : Type ℓ} {A : Type κ} {a b : A} → Path (Result E A) (ok a) (ok b) → a ≡ b
ok_inj e = cc

-- Binds of one computation whose rests agree where it succeeds.
pub >>=_same {ℓ κ μ} :
    {E : Type ℓ} {A : Type κ} {B : Type μ} (m : Result E A) {f g : A → Result E B}
    → ((a : A) → m ≡ ok a → f a ≡ g a)
    → (m >>= f) ≡ (m >>= g)
>>=_same (ok a) h = h a refl
>>=_same (err e) h = refl
