-- ===== src/Ledger/Categories.antt =====
-- The creation of a category: app/application/categories/use_cases/create_category.py, with
-- app/outbound/adapters/sqla/categories/category_repository.py and app/domain/entities/category.py.
pub mod Levels
use yomochi.Base.{
  ℕ, ◌≡◌, ◌≢◌, refl, sym, ap, ◌∙◌, ◌⊎◌, inl, inr, Bool, true, false, not, ◌&&◌, ◌||◌, Option, none,
  some, List, [], ◌∷◌, All, All-mono, find, ◌==◌, arith, Bool-cases, Option-cases, ==_refl,
  if◌then◌else◌,
}
use yomochi.Base.Result.{Result, ok, err, ◌>>=◌, >>=-ok, Result-cases}
use yomochi.Text.{Text, text_eq}
use yomochi.Ledger.{DateTime, CategoryType, Category, LedgerError, opt_eq, is_group}

pub record CreateCategoryCommand : Type 0 where
  pub user_id : ℕ
  pub name : Text
  pub type : CategoryType
  pub parent_id : Option ℕ
  pub icon : Option Text
  pub color : Option Text

unfoldable pub get_category : ℕ → List Category → Option Category
get_category id = find (λ c. c.id_ == id)

abbrev pub is_named : ℕ → Text → Category → Bool
is_named user name c = opt_eq c.user_id user && text_eq c.name name

unfoldable pub get_user_category_by_name : ℕ → Text → List Category → Option Category
unfolding opt_eq text_eq
get_user_category_by_name user name = find (is_named user name)

-- `merge`, of a category that is new.
unfoldable pub save_category : Category → List Category → List Category
save_category c [] = c ∷ []
save_category c (x ∷ xs) = if x.id_ == c.id_ then c ∷ xs else x ∷ save_category c xs

unfoldable pub validate_can_be_parent : Category → Result LedgerError (Unit {0})
validate_can_be_parent c = if is_group c then ok tt else err LedgerError.category_parent_is_leaf

unfoldable pub type_eq : CategoryType → CategoryType → Bool
type_eq CategoryType.income_category CategoryType.income_category = true
type_eq CategoryType.expense_category CategoryType.expense_category = true
type_eq _ _ = false

unfoldable pub check_parent :
    Option ℕ → CategoryType → List Category → Result LedgerError (Unit {0})
unfolding get_category validate_can_be_parent type_eq
check_parent none type cs = ok tt
check_parent (some p) type cs = elim (get_category p cs) [
  | none ↦ err LedgerError.category_parent_not_found
  | some parent ↦
      (validate_can_be_parent parent >>= λ _.
      if type_eq parent.type type then ok tt else err LedgerError.category_type_mismatch)
]

unfoldable pub check_name : ℕ → Text → List Category → Result LedgerError (Unit {0})
unfolding get_user_category_by_name
check_name user name cs = elim (get_user_category_by_name user name cs) [
  | none ↦ ok tt
  | some c ↦ err LedgerError.category_name_already_exists
]

abbrev pub new_category : ℕ → DateTime → CreateCategoryCommand → Category
new_category id now command = record {
  id_ = id;
  name = command.name;
  icon = command.icon;
  color = command.color;
  is_system = false;
  user_id = some command.user_id;
  parent_id = command.parent_id;
  type = command.type;
  created_at = now;
}

unfoldable pub create_category :
    ℕ → DateTime → CreateCategoryCommand → List Category → Result LedgerError (List Category)
unfolding check_parent check_name save_category
create_category id now command cs = do
  parent ← check_parent command.parent_id command.type cs
  name ← check_name command.user_id command.name cs
  ok (save_category (new_category id now command) cs)
