-- ===== src/Keyset/Lex.antt =====
-- Keys that are compared column by column.
use yomochi.Base.{
  ℕ, ◌≡◌, ◌≢◌, refl, Bool, true, false, ◌&&◌, ◌||◌, List, [], ◌∷◌, All, All-mono, ltb, ◌==◌, arith,
}
use yomochi.Keyset.{IsStrict, Apart}

-- `<` on tuples.
unfoldable pub lex_ltb : List ℕ → List ℕ → Bool
lex_ltb [] [] = false
lex_ltb [] (b ∷ s) = true
lex_ltb (a ∷ r) [] = false
lex_ltb (a ∷ r) (b ∷ s) = ltb a b || (a == b && lex_ltb r s)

lex_ltb_irrefl : (a : List ℕ) → lex_ltb a a ≡ false
unfolding lex_ltb
lex_ltb_irrefl [] = refl
lex_ltb_irrefl (a ∷ r) = ground (arith, lex_ltb_irrefl r)

lex_ltb_trans : (a b c : List ℕ) → lex_ltb a b ≡ true → lex_ltb b c ≡ true → lex_ltb a c ≡ true
unfolding lex_ltb
lex_ltb_trans [] [] c h k = cc
lex_ltb_trans [] (b ∷ s) [] h k = cc
lex_ltb_trans [] (b ∷ s) (c ∷ u) h k = refl
lex_ltb_trans (a ∷ r) [] c h k = cc
lex_ltb_trans (a ∷ r) (b ∷ s) [] h k = cc
lex_ltb_trans (a ∷ r) (b ∷ s) (c ∷ u) h k = ground (arith, lex_ltb_trans r s u)

pub lex_ltb_total : (a b : List ℕ) → lex_ltb a b ≡ false → lex_ltb b a ≡ false → a ≡ b
unfolding lex_ltb
lex_ltb_total [] [] h k = refl
lex_ltb_total [] (b ∷ s) h k = cc
lex_ltb_total (a ∷ r) [] h k = cc
lex_ltb_total (a ∷ r) (b ∷ s) h k = ground (arith, lex_ltb_total r s)

module _ {A : Type 0} where
  -- By the columns of a row.
  abbrev pub by_columns : (A → List ℕ) → A → A → Bool
  by_columns key s t = lex_ltb (key s) (key t)

  pub by_columns-IsStrict : (key : A → List ℕ) → IsStrict (by_columns key)
  by_columns-IsStrict key = record {
    irrefl = λ a. lex_ltb_irrefl (key a);
    trans = λ a b c. lex_ltb_trans (key a) (key b) (key c);
  }

  -- By a time, and by an identifier where the times are the same.
  abbrev pub by_time : (A → ℕ) → (A → ℕ) → A → A → Bool
  by_time time id s t = ltb (time s) (time t) || (time s == time t && ltb (id s) (id t))

  pub by_time-IsStrict : (time id : A → ℕ) → IsStrict (by_time time id)
  by_time-IsStrict time id = record {
    irrefl = λ a. ground arith;
    trans = λ a b c h k. ground arith;
  }

  pub by_time-Apart :
      (time id : A → ℕ) (t : A) (ts : List A)
      → All (λ x. id x ≢ id t) ts
      → Apart (by_time time id) t ts
  by_time-Apart time id t ts = All-mono (λ x n h. ground arith) ts
