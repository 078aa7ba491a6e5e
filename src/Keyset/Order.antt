-- ===== src/Keyset/Order.antt =====
-- The order of a list that is read newest first, and the rows before and after a key in it.
use yomochi.Base.{
  ◌≡◌, ◌≢◌, refl, sym, ◌∙◌, inl, inr, Bool, true, false, ◌&&◌, List, [], ◌∷◌, All, All-mono,
  All-select, select, Bool-cases, if◌then◌else◌,
}
use yomochi.Keyset.{insert_desc, order_desc, IsStrict, Apart, Distinct, Desc}

true-false : true ≢ false
true-false e = cc

module _ {A : Type 0} (older : A → A → Bool) (strict : IsStrict older) where
  pub older_asym : (a b : A) → older a b ≡ true → older b a ≡ false
  older_asym a b h = elim (Bool-cases (older b a)) [
    | inl e ↦ absurd (true-false (sym (strict.trans a b a h e) ∙ strict.irrefl a))
    | inr e ↦ e
  ]

  All-insert_desc :
      (P : A → Type 0) (t : A) (ts : List A) → P t → All P ts → All P (insert_desc older t ts)
  unfolding insert_desc
  All-insert_desc P t [] h hs = (h, tt)
  All-insert_desc P t (x ∷ xs) h (k, ks) = elim (Bool-cases (older t x)) [
    | inl e ↦ rw e (k, All-insert_desc P t xs h ks)
    | inr e ↦ rw e (h, (k, ks))
  ]

  insert_desc-Desc :
      (t : A) (ts : List A) → Apart older t ts → Desc older ts → Desc older (insert_desc older t ts)
  unfolding insert_desc
  insert_desc-Desc t [] f d = (tt, tt)
  insert_desc-Desc t (x ∷ xs) (f, fs) (d, ds) = elim (Bool-cases (older t x)) [
    | inl e ↦ rw e (All-insert_desc _ t xs e d, insert_desc-Desc t xs fs ds)
    | inr e ↦ rw e ((f e, All-mono (λ y k. strict.trans y x t k (f e)) xs d), (d, ds))
  ]

  All-order_desc : (P : A → Type 0) (ts : List A) → All P ts → All P (order_desc older ts)
  unfolding order_desc
  All-order_desc P [] h = tt
  All-order_desc P (t ∷ ts) (h, hs) =
      All-insert_desc P t (order_desc older ts) h (All-order_desc P ts hs)

  pub order_desc-Desc : (ts : List A) → Distinct older ts → Desc older (order_desc older ts)
  unfolding order_desc
  order_desc-Desc [] u = tt
  order_desc-Desc (t ∷ ts) (u, us) =
      insert_desc-Desc t (order_desc older ts) (All-order_desc _ ts u) (order_desc-Desc ts us)

  insert_front :
      (t : A) (ts : List A) → All (λ x. older t x ≡ false) ts → insert_desc older t ts ≡ t ∷ ts
  unfolding insert_desc
  insert_front t [] h = refl
  insert_front t (x ∷ xs) (h, hs) = rw h refl

  not_before : (a b c : A) → older a c ≡ false → older b c ≡ true → older a b ≡ false
  not_before a b c e k = elim (Bool-cases (older a b)) [
    | inl h ↦ absurd (true-false (sym (strict.trans a b c h k) ∙ e))
    | inr h ↦ h
  ]

  push_in :
      (p : A → Bool) (t x : A) (xs : List A)
      → older t x ≡ true
      → (if p x
          then x ∷ (if p t then insert_desc older t (select p xs) else select p xs)
          else (if p t then insert_desc older t (select p xs) else select p xs))
        ≡ (if p t then insert_desc older t (select p (x ∷ xs)) else select p (x ∷ xs))
  unfolding insert_desc
  push_in p t x xs e = elim (Bool-cases (p x)) [
    | inl h ↦ elim (Bool-cases (p t)) [ inl k ↦ rw (h, k, e) refl | inr k ↦ rw (h, k) refl ]
    | inr h ↦ elim (Bool-cases (p t)) [ inl k ↦ rw (h, k) refl | inr k ↦ rw (h, k) refl ]
  ]

  insert_first :
      (p : A → Bool) (t x : A) (xs : List A)
      → older t x ≡ false
      → All (λ y. older y x ≡ true) xs
      → insert_desc older t (select p (x ∷ xs)) ≡ t ∷ select p (x ∷ xs)
  insert_first p t x xs e d =
      insert_front t (select p (x ∷ xs))
        (All-select _ p (x ∷ xs) (e, All-mono (λ y k. not_before t y x e k) xs d))

  select-insert_desc :
      (p : A → Bool) (t : A) (ts : List A)
      → Desc older ts
      → select p (insert_desc older t ts)
        ≡ (if p t then insert_desc older t (select p ts) else select p ts)
  unfolding insert_desc
  select-insert_desc p t [] d = refl
  select-insert_desc p t (x ∷ xs) (d, ds) = elim (Bool-cases (older t x)) [
    | inl e ↦ rw (e, select-insert_desc p t xs ds) (push_in p t x xs e)
    | inr e ↦ rw (e, insert_first p t x xs e d) refl
  ]

  -- A query that filters an ordered list gives the filtered list in order.
  pub select-order_desc :
      (p : A → Bool) (ts : List A)
      → Distinct older ts
      → order_desc older (select p ts) ≡ select p (order_desc older ts)
  unfolding order_desc
  select-order_desc p [] u = refl
  select-order_desc p (t ∷ ts) (u, us) =
      let rest = select-order_desc p ts us in
      let d = order_desc-Desc ts us in
      elim (Bool-cases (p t)) [
        | inl e ↦ rw (select-insert_desc p t (order_desc older ts) d, e, order_desc, rest) refl
        | inr e ↦ rw (select-insert_desc p t (order_desc older ts) d, e, rest) refl
      ]

pub select_both :
    {A : Type 0} (p q : A → Bool) (ts : List A)
    → select (λ t. p t && q t) ts ≡ select q (select p ts)
select_both p q [] = refl
select_both p q (t ∷ ts) =
    let rest = select_both p q ts in
    elim (Bool-cases (p t)) [
      | inl e ↦ elim (Bool-cases (q t)) [
        | inl k ↦ rw (e, k, rest) refl
        | inr k ↦ rw (e, k, rest) refl
      ]
      | inr e ↦ rw (e, rest) refl
    ]

pub select-Distinct :
    {A : Type 0} (older : A → A → Bool) (p : A → Bool) (ts : List A)
    → Distinct older ts
    → Distinct older (select p ts)
select-Distinct older p [] u = tt
select-Distinct older p (x ∷ xs) (u, us) = elim (Bool-cases (p x)) [
  | inl e ↦ rw e (All-select _ p xs u, select-Distinct older p xs us)
  | inr e ↦ rw e (select-Distinct older p xs us)
]
