-- ===== src/Keyset/Suffix.antt =====
-- The rows that a page of an ordered list leaves, and the row whose cursor stands for them.
use mathlib.Core.Path.{subst}
use yomochi.Base.{
  ℕ, suc, zero, ◌+◌, ◌≤◌, ◌≡◌, ◌≢◌, refl, sym, ap, ◌∙◌, inl, inr, Bool, true, false, some, List, [],
  ◌∷◌, ◌++◌, All, All-mono, select, take, length, arith, Bool-cases, Option-cases, some_inj,
}
use yomochi.Keyset.{IsStrict, Desc, last}
use yomochi.Keyset.Order.{older_asym}

module _ {A : Type 0} where
  -- The list without its first rows.
  unfoldable pub drop : ℕ → List A → List A
  drop zero ts = ts
  drop (suc n) [] = []
  drop (suc n) (t ∷ ts) = drop n ts

  select_every : (p : A → Bool) (ts : List A) → All (λ x. p x ≡ true) ts → select p ts ≡ ts
  select_every p [] h = refl
  select_every p (t ∷ ts) (h, hs) = rw (h, select_every p ts hs) refl

  pub select-true : (ts : List A) → select (λ x. true) ts ≡ ts
  select-true [] = refl
  select-true (t ∷ ts) = ap (λ xs. t ∷ xs) (select-true ts)

  pub select_passes : (p : A → Bool) (ts : List A) → All (λ x. p x ≡ true) (select p ts)
  select_passes p [] = tt
  select_passes p (t ∷ ts) = elim (Bool-cases (p t)) [
    | inl e ↦ rw e (e, select_passes p ts)
    | inr e ↦ rw e (select_passes p ts)
  ]

  pub select-select :
      (p q : A → Bool) (ts : List A)
      → ((x : A) → p x ≡ true → q x ≡ true)
      → select p (select q ts) ≡ select p ts
  select-select p q [] h = refl
  select-select p q (t ∷ ts) h =
      let rest = select-select p q ts h in
      elim (Bool-cases (p t)) [
        | inl e ↦ rw (h t e, e, rest) refl
        | inr e ↦ elim (Bool-cases (q t)) [ inl k ↦ rw (k, e) rest | inr k ↦ rw (k, e) rest ]
      ]

  pub last-All :
      (P : A → Type 0) (n : ℕ) (t : A) (ts : List A) → All P ts → last (take n ts) ≡ some t → P t
  unfolding last
  last-All P zero t ts h e = cc
  last-All P (suc n) t [] h e = cc
  last-All P (suc n) t (x ∷ xs) (h, hs) e = elim (Option-cases (last (take n xs))) [
    | inl empty ↦ subst P (some_inj x t (sym (rw (empty, last) refl) ∙ e)) h
    | inr (u, later) ↦ last-All P n t xs hs (later ∙ sym (rw (later, last) refl) ∙ e)
  ]

  pub last_full : (n : ℕ) (ts : List A) → length ts ≡ suc n → (t : A) × (last ts ≡ some t)
  unfolding last
  last_full n [] full = absurd (omega (arith, full))
  last_full n (x ∷ xs) full = elim (Option-cases (last xs)) [
    | inl empty ↦ (x, rw (empty, last) refl)
    | inr (u, later) ↦ (u, rw (later, last) refl)
  ]

  last_later :
      (n : ℕ) (x t : A) (xs : List A)
      → length (take (suc n) xs) ≡ suc n
      → last (x ∷ take (suc n) xs) ≡ some t
      → last (take (suc n) xs) ≡ some t
  unfolding last
  last_later n x t xs full e =
      let (u, later) = last_full n (take (suc n) xs) full in later ∙ sym (rw (later, last) refl) ∙ e

  pub take-drop : (n : ℕ) (ts : List A) → take n ts ++ drop n ts ≡ ts
  unfolding drop
  take-drop zero ts = refl
  take-drop (suc n) [] = refl
  take-drop (suc n) (t ∷ ts) = ap (λ xs. t ∷ xs) (take-drop n ts)

  pub length-drop :
      (n : ℕ) (ts : List A) → length (take n ts) ≡ n → length (drop n ts) + n ≡ length ts
  unfolding drop
  length-drop zero ts full = omega arith
  length-drop (suc n) [] full = omega (arith, full)
  length-drop (suc n) (t ∷ ts) full = omega (arith, length-drop n ts (omega (arith, full)))

  pub take_short : (n : ℕ) (ts : List A) → length (take n ts) ≢ n → take n ts ≡ ts
  take_short zero ts short = absurd (short refl)
  take_short (suc n) [] short = refl
  take_short (suc n) (t ∷ ts) short =
      ap (λ xs. t ∷ xs) (take_short n ts (λ e. short (omega (arith, e))))

module _ {A : Type 0} (older : A → A → Bool) (strict : IsStrict older) where
  pub Desc-drop : (n : ℕ) (ts : List A) → Desc older ts → Desc older (drop n ts)
  unfolding drop
  Desc-drop zero ts d = d
  Desc-drop (suc n) [] d = tt
  Desc-drop (suc n) (t ∷ ts) (d, ds) = Desc-drop n ts ds

  -- After the last row of a page come the rows that the page leaves.
  select-last :
      (n : ℕ) (t : A) (ts : List A)
      → Desc older ts
      → last (take (suc n) ts) ≡ some t
      → length (take (suc n) ts) ≡ suc n
      → select (λ x. older x t) ts ≡ drop (suc n) ts
  unfolding drop
  select-last n t [] d e full = absurd (omega (arith, full))
  select-last zero t (x ∷ xs) (d, ds) e full =
      let same = last-All (λ y. y ≡ x) 1 t (x ∷ []) (refl, tt) e in
      let out : older x t ≡ false = rw same (strict.irrefl x) in
      rw out (select_every _ xs (All-mono (λ y k. rw same k) xs d))
  select-last (suc n) t (x ∷ xs) (d, ds) e full =
      let full' : length (take (suc n) xs) ≡ suc n = omega (arith, full) in
      let later = last_later n x t xs full' e in
      let before = last-All (λ y. older y x ≡ true) (suc n) t xs d later in
      rw (older_asym older strict t x before) (select-last n t xs ds later full')

  -- A full page has a last row, after which come the rows that it leaves.
  pub full_page :
      (m : ℕ) (ts : List A)
      → 1 ≤ m
      → Desc older ts
      → length (take m ts) ≡ m
      → (t : A) × (last (take m ts) ≡ some t) × (select (λ x. older x t) ts ≡ drop m ts)
  full_page zero ts pos d full = absurd (omega arith)
  full_page (suc n) ts pos d full =
      let (t, e) = last_full n (take (suc n) ts) full in (t, e, select-last n t ts d e full)
