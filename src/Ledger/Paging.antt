-- ===== src/Ledger/Paging.antt =====
-- The list of a user's transactions, a page at a time: app/application/transactions/use_cases/
-- list_transactions.py and `list_by_user` of
-- app/outbound/adapters/sqla/transactions/transaction_repository.py. The text of a cursor (base64 of
-- JSON, app/application/common/cursor.py) and the reading of an identifier are parameters.
pub mod Pages
use yomochi.Base.{
  ℕ, zero, suc, Bool, true, false, ◌&&◌, ◌||◌, Option, none, some, List, [], ◌∷◌, select, take,
  length, ltb, ◌==◌, if◌then◌else◌,
}
use yomochi.Base.Result.{Result, ok, err, ◌>>=◌}
use yomochi.Text.{Text, codes, text_eq, is_empty}
use yomochi.Calendar.{Date}
use yomochi.Keyset.{order_desc, read_cursor, cursor_or_raise}
use yomochi.Keyset.Lex.{lex_ltb}
use yomochi.Ledger.{DateTime, TransactionType, LedgerError, Transaction, opt_eq}

pub record Cursor : Type 0 where
  pub date_ : Date
  pub created_at : DateTime
  pub id_ : ℕ

pub record ListTransactionsQuery : Type 0 where
  pub user_id : ℕ
  pub limit : ℕ
  pub cursor : Option Text
  pub type_filter : Option Text
  pub currency_filter : Option Text
  pub category_id_filter : Option Text

-- The columns that the list is ordered by.
abbrev pub columns : Date → DateTime → ℕ → List ℕ
columns d c id =
    d.year ∷ d.month ∷ d.day ∷ c.day_.year ∷ c.day_.month ∷ c.day_.day ∷ c.time ∷ id ∷ []

unfoldable pub key : Transaction → List ℕ
key t = columns t.date_ t.created_at t.id_

unfoldable pub cursor_key : Cursor → List ℕ
cursor_key c = columns c.date_ c.created_at c.id_

-- The order of the list, the last key first.
abbrev pub is_older : Transaction → Transaction → Bool
is_older s t = lex_ltb (key s) (key t)

abbrev pub type_value : TransactionType → Text
type_value TransactionType.income = codes "income"
type_value TransactionType.expense = codes "expense"

abbrev pub text_passes : Option Text → Text → Bool
text_passes none s = true
text_passes (some f) s = text_eq s f

abbrev pub category_passes : Option ℕ → Option ℕ → Bool
category_passes none c = true
category_passes (some f) c = opt_eq c f

unfoldable pub passes_filters : ListTransactionsQuery → Option ℕ → Transaction → Bool
unfolding text_eq opt_eq
passes_filters q category t =
    t.user_id == q.user_id
    && (text_passes q.type_filter (type_value t.type_)
        && (text_passes q.currency_filter t.amount.currency.code
            && category_passes category t.category_id))

unfoldable pub is_after : Option Cursor → Transaction → Bool
unfolding lex_ltb key cursor_key
is_after none t = true
is_after (some c) t = lex_ltb (key t) (cursor_key c)

-- The query, with the filter's category read.
unfoldable pub rows_after :
    ListTransactionsQuery → Option ℕ → Option Cursor → List Transaction → List Transaction
unfolding order_desc passes_filters is_after
rows_after q category cursor ts =
    take q.limit
      (order_desc is_older (select (λ t. passes_filters q category t && is_after cursor t) ts))

abbrev pub cursor_of : Transaction → Cursor
cursor_of t = record { date_ = t.date_; created_at = t.created_at; id_ = t.id_ }

module _ (encode : Cursor → Text) (decode : Text → Result LedgerError Cursor)
    (uuid : Text → Result LedgerError ℕ) where
  abbrev pub read_filter : Option Text → Result LedgerError (Option ℕ)
  read_filter none = ok none
  read_filter (some s) = uuid s >>= λ id. ok (some id)

  unfoldable pub list_transactions :
      ListTransactionsQuery → List Transaction → Result LedgerError (List Transaction × Option Text)
  unfolding read_cursor rows_after cursor_or_raise
  list_transactions q ts = do
    cursor ← read_cursor decode q.cursor
    category ← read_filter q.category_id_filter
    next ←
        cursor_or_raise LedgerError.index_error (λ t. encode (cursor_of t)) q.limit
          (rows_after q category cursor ts)
    ok (rows_after q category cursor ts, next)
