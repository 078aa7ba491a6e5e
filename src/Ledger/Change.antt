-- ===== src/Ledger/Change.antt =====
-- The use cases that change transactions: create_transaction.py, update_transaction.py and
-- delete_transaction.py of app/application/transactions/use_cases. The reading of an identifier is a
-- parameter; those that `raise` leave the tables as they were. The creation is the one of a user's
-- request: the scheduler's has a quota check that does nothing.
use yomochi.Base.{ℕ, Bool, false, ◌||◌, Option, none, some, List, [], ◌∷◌, if◌then◌else◌}
use yomochi.Base.Result.{Result, ok, err, ◌>>=◌}
use yomochi.Text.{Text, codes, text_eq, is_empty}
use yomochi.Calendar.{Date}
use yomochi.Money.{Money, MoneyError, Currency, new_currency, new_money}
use yomochi.Money.Parse.{from_string}
use yomochi.Ledger.{
  DateTime, TransactionType, LedgerError, Transaction, Field, unset, set_to, Update, apply_update,
  AuditEventType, Db, merge, get_transaction, delete, get_category_for_user, validate_assignable,
  get_plan, check_quota,
}

pub record CreateTransactionCommand : Type 0 where
  pub user_id : ℕ
  pub raw_amount : Text
  pub currency : Text
  pub date_ : Date
  pub type_ : Text
  pub merchant : Option Text
  pub notes : Option Text
  pub raw_category_id : Option Text
  pub recurring_rule_id : Option ℕ

pub record UpdateTransactionCommand : Type 0 where
  pub user_id : ℕ
  pub transaction_id : Text
  pub fields_to_update : List Text
  pub raw_amount : Option Text
  pub currency : Option Text
  pub date_ : Option Date
  pub type_ : Option Text
  pub merchant : Option Text
  pub notes : Option Text
  pub raw_category_id : Option Text

unfoldable pub read_type : Text → Result LedgerError TransactionType
unfolding text_eq
read_type s =
    if text_eq s (codes "income")
    then ok TransactionType.income
    else if text_eq s (codes "expense")
    then ok TransactionType.expense
    else err LedgerError.value_error

abbrev pub from_money {ℓ} : {A : Type ℓ} → Result MoneyError A → Result LedgerError A
from_money (ok x) = ok x
from_money (err e) = err (LedgerError.money_error e)

unfoldable pub read_money : Text → Text → Result LedgerError Money
unfolding new_currency from_string
read_money raw cur = do c ← from_money (new_currency cur); from_money (from_string raw c)

-- A category that is not the user's passes: only one that is found is looked at.
unfoldable pub check_category : Option ℕ → ℕ → Db → Result LedgerError (Unit {0})
unfolding get_category_for_user validate_assignable
check_category none user db = ok tt
check_category (some id) user db = elim (get_category_for_user id user db.categories) [
  | none ↦ ok tt
  | some c ↦ validate_assignable c
]

abbrev pub record_event : AuditEventType → ℕ → DateTime → Db → Db
record_event type user now db = record db {
  audit = record { event_type = type; user_id = user; occurred_at = now } ∷ db.audit;
}

unfoldable pub save_transaction : Transaction → Db → Db
unfolding merge
save_transaction t db = record db { transactions = merge t db.transactions }

-- The last part of a use case that saves: the row, the audit event, and the reply.
unfoldable pub store {ℓ} :
    {A : Type ℓ}
    → AuditEventType
    → (Transaction → A)
    → DateTime
    → Db
    → Result LedgerError Transaction
    → Result LedgerError A × Db
unfolding save_transaction
store type reply now db (err e) = (err e, db)
store type reply now db (ok t) =
    (ok (reply t), record_event type t.user_id now (save_transaction t db))

unfoldable pub has_field : Text → List Text → Bool
unfolding text_eq
has_field f [] = false
has_field f (g ∷ gs) = text_eq f g || has_field f gs

abbrev pub found : Option Transaction → Result LedgerError Transaction
found none = err LedgerError.transaction_not_found
found (some t) = ok t

-- `if not fields: return`.
abbrev pub when_any {ℓ} : {A : Type ℓ} → List Text → A → A → A
when_any [] x y = y
when_any (f ∷ fs) x y = x

-- The text of an optional field that Python takes as true.
unfoldable pub given : Option Text → Option Text
unfolding is_empty
given none = none
given (some s) = if is_empty s then none else some s

module _ (uuid : Text → Result LedgerError ℕ) where
  unfoldable pub read_category : Option Text → Result LedgerError (Option ℕ)
  unfolding given
  read_category raw = elim (given raw) [ none ↦ ok none | some s ↦ (uuid s >>= λ id. ok (some id)) ]

  -- The new transaction, with the identifier and the time given.
  unfoldable pub new_transaction :
      ℕ → DateTime → CreateTransactionCommand → Db → Result LedgerError Transaction
  unfolding read_money read_type read_category check_category get_plan check_quota
  new_transaction id now command db = do
    checked ← check_quota command.user_id (get_plan command.user_id db.plans) now db.transactions
    money ← read_money command.raw_amount command.currency
    type_ ← read_type command.type_
    category_id ← read_category command.raw_category_id
    assignable ← check_category category_id command.user_id db
    ok (record {
      id_ = id;
      user_id = command.user_id;
      amount = money;
      date_ = command.date_;
      type_ = type_;
      merchant = command.merchant;
      notes = command.notes;
      category_id = category_id;
      created_at = now;
      updated_at = none;
      recurring_rule_id = command.recurring_rule_id;
    })

  unfoldable pub create_transaction :
      ℕ → DateTime → CreateTransactionCommand → Db → Result LedgerError ℕ × Db
  unfolding new_transaction store
  create_transaction id now command db =
      store AuditEventType.transaction_created (λ t. t.id_) now db
        (new_transaction id now command db)

  -- The check of the category that is to be set.
  unfoldable pub check_new_category : UpdateTransactionCommand → Db → Result LedgerError (Unit {0})
  unfolding has_field check_category
  check_new_category command db =
      let checked : Result LedgerError (Unit {0}) = elim command.raw_category_id [
        | none ↦ ok tt
        | some s ↦ (uuid s >>= λ id. check_category (some id) command.user_id db)
      ] in
      if has_field (codes "category_id") command.fields_to_update then checked else ok tt

  unfoldable pub new_amount : UpdateTransactionCommand → Money → Result LedgerError (Field Money)
  unfolding has_field given new_currency new_money from_string
  new_amount command old =
      let fields = command.fields_to_update in
      let currency : Result LedgerError Currency = elim (given command.currency) [
        | none ↦ ok old.currency
        | some c ↦ from_money (new_currency c)
      ] in
      let in_currency : Currency → Result LedgerError (Field Money) = λ cur.
        elim (given command.raw_amount) [
          | none ↦ (from_money (new_money old.amount cur) >>= λ m. ok (set_to m))
          | some raw ↦ (from_money (from_string raw cur) >>= λ m. ok (set_to m))
        ] in
      let changed = currency >>= in_currency in
      if has_field (codes "amount") fields || has_field (codes "currency") fields
      then changed
      else ok unset

  -- The update that the command asks for.
  unfoldable pub read_update : UpdateTransactionCommand → Money → Result LedgerError Update
  unfolding has_field given read_type read_category new_amount
  read_update command old =
      let fields = command.fields_to_update in
      let read : Result LedgerError (Field TransactionType) = elim (given command.type_) [
        | none ↦ ok unset
        | some s ↦ (read_type s >>= λ t. ok (set_to t))
      ] in
      let category = read_category command.raw_category_id >>= λ c. ok (set_to c) in
      do
        amount ← new_amount command old
        type_ ← if has_field (codes "type") fields then read else ok unset
        category_id ← if has_field (codes "category_id") fields then category else ok unset
        ok (record {
          amount = amount;
          date_ =
              if has_field (codes "date") fields
              then elim command.date_ [ none ↦ unset | some d ↦ set_to d ]
              else unset;
          type_ = type_;
          merchant = if has_field (codes "merchant") fields then set_to command.merchant else unset;
          notes = if has_field (codes "notes") fields then set_to command.notes else unset;
          category_id = category_id;
        })

  -- The transaction after the command, from the tables.
  unfoldable pub updated_transaction :
      DateTime → UpdateTransactionCommand → Db → Result LedgerError Transaction
  unfolding get_transaction check_new_category read_update apply_update
  updated_transaction now command db = do
    tx_id ← uuid command.transaction_id
    t ← found (get_transaction tx_id command.user_id db.transactions)
    checked ← check_new_category command db
    u ← read_update command t.amount
    ok (apply_update now u t)

  unfoldable pub update_transaction :
      DateTime → UpdateTransactionCommand → Db → Result LedgerError (Unit {0}) × Db
  unfolding updated_transaction store
  update_transaction now command db =
      let done =
        store AuditEventType.transaction_updated (λ t. tt) now db
          (updated_transaction now command db) in
      when_any command.fields_to_update done (ok tt, db)

unfoldable pub delete_transaction : DateTime → ℕ → ℕ → Db → Result LedgerError (Unit {0}) × Db
unfolding get_transaction delete
delete_transaction now id user db = elim (get_transaction id user db.transactions) [
  | none ↦ (err LedgerError.transaction_not_found, db)
  | some t ↦ (
    ok tt,
    record_event AuditEventType.transaction_deleted user now
        (record db { transactions = delete id user db.transactions }),
  )
]
