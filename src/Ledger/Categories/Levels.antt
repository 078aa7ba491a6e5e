-- ===== src/Ledger/Categories/Levels.antt =====
-- The categories stay two levels deep, and a user's names differ:
-- app/application/categories/use_cases/create_category.py.
use yomochi.Base.{
  ℕ, ◌≡◌, ◌≢◌, refl, sym, ap, ◌∙◌, ◌⊎◌, inl, inr, Bool, true, false, ◌&&◌, Option, none, some, List,
  [], ◌∷◌, ◌++◌, All, All-append, All-mono, find, ◌==◌, arith, Bool-cases, Option-cases,
  if◌then◌else◌,
}
use yomochi.Base.Result.{ok, err, ◌>>=◌, >>=-ok}
use yomochi.Text.{Text, text_eq, text_eq_iff}
use yomochi.Ledger.{DateTime, CategoryType, Category, LedgerError, opt_eq, is_group}
use yomochi.Ledger.Categories.{
  CreateCategoryCommand, get_category, is_named, get_user_category_by_name, save_category,
  validate_can_be_parent, type_eq, check_parent, check_name, new_category, create_category,
}

-- A group, or a leaf below a group of its type.
abbrev pub IsPlaced : List Category → Category → Type 0
IsPlaced cs c =
    (c.parent_id ≡ none)
    ⊎ ((p : ℕ) × (parent : Category) × (c.parent_id ≡ some p)
        × (get_category p cs ≡ some parent)
        × (parent.parent_id ≡ none)
        × (parent.type ≡ c.type))

-- No user has a name twice.
abbrev pub Named : List Category → Type 0
Named [] = Unit
Named (c ∷ cs) =
    ((u : ℕ) → c.user_id ≡ some u → All (λ d. is_named u c.name d ≡ false) cs) × Named cs

-- The categories are two levels deep, and a user's names differ.
pub record IsWellFormed (cs : List Category) : Type 0 where
  pub placed : All (IsPlaced cs) cs
  pub named : Named cs

save_category-append :
    (c : Category) (cs : List Category)
    → All (λ d. d.id_ ≢ c.id_) cs
    → save_category c cs ≡ cs ++ (c ∷ [])
unfolding save_category
save_category-append c [] f = refl
save_category-append c (x ∷ xs) (f, fs) =
    let other : (x.id_ == c.id_) ≡ false = ground arith in
    rw other (ap (λ r. x ∷ r) (save_category-append c xs fs))

find-append :
    (p : Category → Bool) (d : Category) (cs ds : List Category)
    → find p cs ≡ some d
    → find p (cs ++ ds) ≡ some d
find-append p d [] ds e = cc
find-append p d (x ∷ xs) ds e = elim (Bool-cases (p x)) [
  | inl h ↦ rw h (sym (rw h refl) ∙ e)
  | inr h ↦ rw h (find-append p d xs ds (sym (rw h refl) ∙ e))
]

some-none : {d : Category} → some d ≢ none
some-none e = cc

raised : {e : LedgerError} {x : Unit {0}} → err e ≢ ok x
raised h = cc

find-none :
    (p : Category → Bool) (cs : List Category) → find p cs ≡ none → All (λ d. p d ≡ false) cs
find-none p [] e = tt
find-none p (x ∷ xs) e = elim (Bool-cases (p x)) [
  | inl h ↦ absurd (some-none {d = x} (sym (rw h refl) ∙ e))
  | inr h ↦ (h, find-none p xs (sym (rw h refl) ∙ e))
]

IsPlaced-append :
    (c d : Category) (cs : List Category) → IsPlaced cs c → IsPlaced (cs ++ (d ∷ [])) c
unfolding get_category
IsPlaced-append c d cs (inl group) = inl group
IsPlaced-append c d cs (inr (p, parent, below, there, group, same)) =
    inr (p, parent, below, find-append _ parent cs (d ∷ []) there, group, same)

-- A new name is none of the user's, and then no other category of the user has it.
is_named_sym :
    (user u : ℕ) (c d : Category)
    → c.user_id ≡ some user
    → d.user_id ≡ some u
    → is_named user c.name d ≡ false
    → is_named u d.name c ≡ false
unfolding opt_eq
is_named_sym user u c d own own' e = rw own (elim (Bool-cases (text_eq c.name d.name)) [
  | inl h ↦
      let back : text_eq d.name c.name ≡ true =
        (text_eq_iff d.name c.name).1 (sym ((text_eq_iff c.name d.name).0 h)) in
      let apart : (u == user && true) ≡ false = sym (rw (own', back) refl) ∙ e in
      rw h (ground arith)
  | inr h ↦ rw h (ground arith)
])

Named-append :
    (user : ℕ) (c : Category) (cs : List Category)
    → c.user_id ≡ some user
    → All (λ d. is_named user c.name d ≡ false) cs
    → Named cs
    → Named (cs ++ (c ∷ []))
Named-append user c [] own h n = (λ u e. tt, tt)
Named-append user c (x ∷ xs) own (h, hs) (n, ns) = (
  λ u e. All-append _ xs (c ∷ []) (n u e) (is_named_sym user u c x own e h, tt),
  Named-append user c xs own hs ns,
)

type_eq_eq : (a b : CategoryType) → type_eq a b ≡ true → a ≡ b
unfolding type_eq
type_eq_eq CategoryType.income_category CategoryType.income_category e = refl
type_eq_eq CategoryType.income_category CategoryType.expense_category e = cc
type_eq_eq CategoryType.expense_category CategoryType.income_category e = cc
type_eq_eq CategoryType.expense_category CategoryType.expense_category e = refl

is_group-none : (c : Category) → is_group c ≡ true → c.parent_id ≡ none
is_group-none c e = ground arith

parent_fits :
    (parent : Category) (type : CategoryType) {x : Unit {0}}
    → (validate_can_be_parent parent >>= λ _.
        if type_eq parent.type type then ok tt else err LedgerError.category_type_mismatch)
      ≡ ok x
    → (is_group parent ≡ true) × (type_eq parent.type type ≡ true)
unfolding validate_can_be_parent
parent_fits parent type e = ground arith

check_parent-IsPlaced :
    (p : Option ℕ) (c : Category) (cs : List Category) {x : Unit {0}}
    → c.parent_id ≡ p
    → check_parent p c.type cs ≡ ok x
    → IsPlaced cs c
unfolding check_parent
check_parent-IsPlaced none c cs at e = inl at
check_parent-IsPlaced (some p) c cs at e = elim (Option-cases (get_category p cs)) [
  | inl missing ↦ absurd (
      raised {e = LedgerError.category_parent_not_found}
        (sym (rw (missing, check_parent) refl) ∙ e))
  | inr (parent, there) ↦
      let (group, same) = parent_fits parent c.type (sym (rw (there, check_parent) refl) ∙ e) in
      inr (p, parent, at, there, is_group-none parent group, type_eq_eq parent.type c.type same)
]

check_name-none :
    (user : ℕ) (name : Text) (cs : List Category) {x : Unit {0}}
    → check_name user name cs ≡ ok x
    → All (λ d. is_named user name d ≡ false) cs
unfolding check_name get_user_category_by_name
check_name-none user name cs e = elim (Option-cases (get_user_category_by_name user name cs)) [
  | inl missing ↦ find-none _ cs missing
  | inr (d, there) ↦ absurd (
      raised {e = LedgerError.category_name_already_exists} (sym (rw (there, check_name) refl) ∙ e))
]

-- A creation that succeeds, with an identifier that is not in use, gives well-formed categories where
-- they were: two levels, a leaf below a group of its type, and no name twice for a user.
pub create_category-IsWellFormed :
    (id : ℕ) (now : DateTime) (command : CreateCategoryCommand) (cs ds : List Category)
    → All (λ c. c.id_ ≢ id) cs
    → IsWellFormed cs
    → create_category id now command cs ≡ ok ds
    → IsWellFormed ds
unfolding create_category
create_category-IsWellFormed id now command cs ds f w done =
    let c = new_category id now command in
    let (_, named, parent) = >>=-ok _ (check_parent command.parent_id command.type cs) done in
    let (_, saved, name) = >>=-ok _ (check_name command.user_id command.name cs) named in
    let same : save_category c cs ≡ ds = cc in
    rw (sym same, save_category-append c cs f)
      (record {
        placed =
            All-append _ cs (c ∷ []) (All-mono (λ d h. IsPlaced-append d c cs h) cs w.placed) (
              IsPlaced-append c c cs (check_parent-IsPlaced command.parent_id c cs refl parent),
              tt,
            );
        named =
            Named-append command.user_id c cs refl
              (check_name-none command.user_id command.name cs name) w.named;
      })
