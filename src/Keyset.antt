-- ===== src/Keyset.antt =====
-- Lists that are read a page at a time, newest first, by the key of the last row that was read: what the
-- queries behind the program's cursors share. `older s t` says that the key of `s` is the smaller one.
pub mod Lex
pub mod Order
pub mod Suffix
pub mod Pages
pub mod Recent
use yomochi.Base.{
  ℕ, zero, suc, ◌≡◌, Bool, true, false, Option, none, some, List, [], ◌∷◌, ◌++◌, All, select, take,
  length, ◌==◌, if◌then◌else◌,
}
use yomochi.Base.Result.{Result, ok, err, ◌>>=◌}
use yomochi.Text.{Text, is_empty}

-- `ORDER BY … DESC`.
module _ {A : Type 0} (older : A → A → Bool) where
  unfoldable pub insert_desc : A → List A → List A
  insert_desc t [] = t ∷ []
  insert_desc t (x ∷ xs) = let rest = insert_desc t xs in if older t x then x ∷ rest else t ∷ x ∷ xs

  unfoldable pub order_desc : List A → List A
  unfolding insert_desc
  order_desc [] = []
  order_desc (t ∷ ts) = insert_desc t (order_desc ts)

  pub record IsStrict : Type 0 where
    pub irrefl : (a : A) → older a a ≡ false
    pub trans : (a b c : A) → older a b ≡ true → older b c ≡ true → older a c ≡ true

  -- A row that is older or newer than each other one.
  abbrev pub Apart : A → List A → Type 0
  Apart t = All (λ x. older t x ≡ false → older x t ≡ true)

  abbrev pub Distinct : List A → Type 0
  Distinct [] = Unit
  Distinct (t ∷ ts) = Apart t ts × Distinct ts

  -- Every row is older than the ones before it.
  abbrev pub Desc : List A → Type 0
  Desc [] = Unit
  Desc (t ∷ ts) = All (λ x. older x t ≡ true) ts × Desc ts

-- `rows[-1]`, where there is one.
unfoldable pub last : {A : Type 0} → List A → Option A
last [] = none
last (t ∷ ts) = elim (last ts) [ none ↦ some t | some u ↦ some u ]

-- A page, and the cursor after a full one.
unfoldable pub cursor_after : {A : Type 0} → (A → Text) → ℕ → List A → Option Text
unfolding last
cursor_after encode limit page =
    let full : Option Text = elim (last page) [ none ↦ none | some t ↦ some (encode t) ] in
    if length page == limit then full else none

-- The same where `rows[-1]` raises on an empty list.
module _ {A E : Type 0} (index_error : E) (encode : A → Text) where
  unfoldable pub cursor_or_raise : ℕ → List A → Result E (Option Text)
  unfolding last
  cursor_or_raise limit page =
      let full : Result E (Option Text) = elim (last page) [
        | none ↦ err index_error
        | some t ↦ ok (some (encode t))
      ] in
      if length page == limit then full else ok none

-- `decode(cursor) if cursor else None`.
unfoldable pub read_cursor :
    {C E : Type 0} → (Text → Result E C) → Option Text → Result E (Option C)
unfolding is_empty
read_cursor decode none = ok none
read_cursor decode (some s) =
    let decoded = decode s >>= λ c. ok (some c) in if is_empty s then ok none else decoded

abbrev pub page_of : {A : Type 0} → (A → Text) → ℕ → List A → List A × Option Text
page_of encode limit rows = (take limit rows, cursor_after encode limit (take limit rows))

module _ {A E : Type 0} (list : Option Text → Result E (List A × Option Text)) where
  -- A client that follows the cursors: the pages one after another, with a number of requests.
  unfoldable pub follow_pages : ℕ → Option Text → Result E (Option (List A))
  follow_pages zero cursor = ok none
  follow_pages (suc n) cursor = list cursor >>= λ (page, next). elim next [
    | none ↦ ok (some page)
    | some c ↦
        (follow_pages n (some c) >>= λ rest.
        ok (elim rest [ none ↦ none | some later ↦ some (page ++ later) ]))
  ]

  -- The list answers with the pages of a whole list.
  pub record IsPaged (older : A → A → Bool) (encode : A → Text) (limit : ℕ) (whole : List A)
      : Type 0 where
    pub first : list none ≡ ok (page_of encode limit whole)
    pub later :
        (t : A) → list (some (encode t)) ≡ ok (page_of encode limit (select (λ x. older x t) whole))
