-- ===== src/Ledger.antt =====
-- Transactions and categories, the rows and their tables: app/domain/entities/transaction.py and
-- category.py, app/outbound/adapters/sqla/transactions/transaction_repository.py and
-- category_list_reader.py, app/outbound/adapters/sqla/categories/category_repository.py and
-- app/outbound/adapters/sqla/common/quota_check.py with app/outbound/adapters/sqla/users/
-- user_plan_lookup.py. A text of the program is a list of its characters, an identifier a number.
pub mod Rows
pub mod Change
pub mod Categories
pub mod Quota
pub mod History
pub mod Isolation
pub mod Paging
use yomochi.Base.{
  ℕ, Bool, true, false, not, ◌&&◌, ◌||◌, Option, none, some, List, [], ◌∷◌, select, find, length,
  ltb, ◌+◌, ◌==◌, if◌then◌else◌,
}
use yomochi.Base.Result.{Result, ok, err, ◌>>=◌}
use yomochi.Text.{Text, codes, text_eq}
use yomochi.Calendar.{Date, date}
use yomochi.Money.{Money, MoneyError}

-- A time in UTC: the day, and the microseconds of it.
pub record DateTime : Type 0 where
  pub day_ : Date
  pub time : ℕ

pub data TransactionType : Type 0 where
  income expense : TransactionType

pub data Plan : Type 0 where
  free demo : Plan

pub data LedgerError : Type 0 where
  quota_exceeded : ℕ → ℕ → LedgerError
  money_error : MoneyError → LedgerError
  value_error category_is_group transaction_not_found invalid_cursor index_error : LedgerError
  category_parent_not_found category_parent_is_leaf category_type_mismatch : LedgerError
  category_name_already_exists : LedgerError

pub record Transaction : Type 0 where
  pub id_ : ℕ
  pub user_id : ℕ
  pub amount : Money
  pub date_ : Date
  pub type_ : TransactionType
  pub merchant : Option Text
  pub notes : Option Text
  pub category_id : Option ℕ
  pub created_at : DateTime
  pub updated_at : Option DateTime
  pub recurring_rule_id : Option ℕ

pub data CategoryType : Type 0 where
  income_category expense_category : CategoryType

pub record Category : Type 0 where
  pub id_ : ℕ
  pub name : Text
  pub icon : Option Text
  pub color : Option Text
  pub is_system : Bool
  pub user_id : Option ℕ
  pub parent_id : Option ℕ
  pub type : CategoryType
  pub created_at : DateTime

-- A field that a change leaves alone, or sets.
pub data Field {ℓ} (A : Type ℓ) : Type ℓ where
  unset : Field A
  set_to : A → Field A

abbrev pub set_or {ℓ} : {A : Type ℓ} → Field A → A → A
set_or unset old = old
set_or (set_to x) old = x

abbrev pub is_set {ℓ} : {A : Type ℓ} → Field A → Bool
is_set unset = false
is_set (set_to x) = true

-- The arguments of `apply_update`.
pub record Update : Type 0 where
  pub amount : Field Money
  pub date_ : Field Date
  pub type_ : Field TransactionType
  pub merchant : Field (Option Text)
  pub notes : Field (Option Text)
  pub category_id : Field (Option ℕ)

unfoldable pub changes : Update → Bool
changes u =
    (is_set u.amount || (is_set u.date_ || is_set u.type_))
    || (is_set u.merchant || (is_set u.notes || is_set u.category_id))

unfoldable pub apply_update : DateTime → Update → Transaction → Transaction
unfolding changes
apply_update now u t = record t {
  amount = set_or u.amount t.amount;
  date_ = set_or u.date_ t.date_;
  type_ = set_or u.type_ t.type_;
  merchant = set_or u.merchant t.merchant;
  notes = set_or u.notes t.notes;
  category_id = set_or u.category_id t.category_id;
  updated_at = if changes u then some now else t.updated_at;
}

pub data AuditEventType : Type 0 where
  transaction_created transaction_updated transaction_deleted : AuditEventType

pub record AuditEvent : Type 0 where
  pub event_type : AuditEventType
  pub user_id : ℕ
  pub occurred_at : DateTime

-- The tables: transactions, categories, the plans of the users, and the audit log, the last event first.
pub record Db : Type 0 where
  pub transactions : List Transaction
  pub categories : List Category
  pub plans : List (ℕ × Plan)
  pub audit : List AuditEvent

-- `session.merge`: the row with this key is replaced, or the row is new.
unfoldable pub merge : Transaction → List Transaction → List Transaction
merge t [] = t ∷ []
merge t (x ∷ xs) = let rest = merge t xs in if x.id_ == t.id_ then t ∷ xs else x ∷ rest

-- The row with a key, where it is the user's.
abbrev pub is_own : ℕ → ℕ → Transaction → Bool
is_own id user t = t.id_ == id && t.user_id == user

unfoldable pub get_transaction : ℕ → ℕ → List Transaction → Option Transaction
get_transaction id user = find (is_own id user)

unfoldable pub delete : ℕ → ℕ → List Transaction → List Transaction
delete id user = select (λ t. not (is_own id user t))

unfoldable pub opt_eq : Option ℕ → ℕ → Bool
opt_eq none n = false
opt_eq (some m) n = m == n

-- A category that the user sees: the system's, or their own.
unfoldable pub is_visible : ℕ → Category → Bool
unfolding opt_eq
is_visible user c = c.is_system || opt_eq c.user_id user

-- `get_by_id_for_user`.
unfoldable pub get_category_for_user : ℕ → ℕ → List Category → Option Category
unfolding is_visible
get_category_for_user id user = find (λ c. c.id_ == id && is_visible user c)

abbrev pub is_group : Category → Bool
is_group c = elim c.parent_id [ none ↦ true | some p ↦ false ]

unfoldable pub validate_assignable : Category → Result LedgerError (Unit {0})
validate_assignable c = if is_group c then err category_is_group else ok tt

-- `get_plan`, of a stored plan that is one.
unfoldable pub get_plan : ℕ → List (ℕ × Plan) → Plan
get_plan user [] = Plan.free
get_plan user ((u, p) ∷ rest) = let later = get_plan user rest in if u == user then p else later

-- The quota of transactions in a month.
unfoldable pub plan_limit : Plan → ℕ
plan_limit Plan.free = 500
plan_limit Plan.demo = 5000

unfoldable pub time_ltb : DateTime → DateTime → Bool
time_ltb a b =
    ltb a.day_.year b.day_.year
    || (a.day_.year == b.day_.year
        && (ltb a.day_.month b.day_.month
            || (a.day_.month == b.day_.month
                && (ltb a.day_.day b.day_.day || (a.day_.day == b.day_.day && ltb a.time b.time)))))

abbrev pub month_start : ℕ → ℕ → DateTime
month_start y m = record { day_ = date y m 1; time = 0 }

unfoldable pub in_month : ℕ → ℕ → DateTime → Bool
unfolding time_ltb
in_month y m t =
    let next_month_start = if m == 12 then month_start (1 + y) 1 else month_start y (1 + m) in
    not (time_ltb t (month_start y m)) && time_ltb t next_month_start

-- A row that the quota of a month counts.
abbrev pub is_counted : ℕ → ℕ → ℕ → Transaction → Bool
is_counted user y m t = t.user_id == user && in_month y m t.created_at

unfoldable pub month_count : ℕ → ℕ → ℕ → List Transaction → ℕ
unfolding in_month
month_count user y m ts = length (select (is_counted user y m) ts)

-- `check_and_increment` for transactions, at a time.
unfoldable pub check_quota : ℕ → Plan → DateTime → List Transaction → Result LedgerError (Unit {0})
unfolding plan_limit month_count
check_quota user plan now ts =
    let limit = plan_limit plan in
    let count = month_count user now.day_.year now.day_.month ts in
    if ltb count limit then ok tt else err (quota_exceeded (1 + count) limit)
