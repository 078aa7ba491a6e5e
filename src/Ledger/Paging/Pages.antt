-- ===== src/Ledger/Paging/Pages.antt =====
-- The pages of the list one after another: app/application/transactions/use_cases/list_transactions.py.
use yomochi.Base.{
  ℕ, ◌≤◌, ◌<◌, ◌≡◌, refl, ap, ◌∙◌, Option, none, some, List, [], ◌∷◌, All-mono, select, take,
  length, Bool-cases, inl, inr,
}
use yomochi.Base.Result.{Result, ok}
use yomochi.Text.{Text}
use yomochi.Keyset.{Distinct, Desc, order_desc, page_of, follow_pages, IsPaged, read_cursor}
use yomochi.Keyset.Lex.{lex_ltb_total, by_columns-IsStrict}
use yomochi.Keyset.Suffix.{select-true}
use yomochi.Keyset.Pages.{
  Codec, read_cursor-encode, cursor_or_raise-ok, take-select, order_desc-select-Desc,
  follow_pages-IsPaged,
}
use yomochi.Ledger.{LedgerError, Transaction}
use yomochi.Ledger.Rows.{Unique}
use yomochi.Ledger.Paging.{
  Cursor, ListTransactionsQuery, key, cursor_key, is_older, passes_filters, is_after, rows_after,
  cursor_of, read_filter, list_transactions,
}

-- Every transaction that passes the filters, in the order of the list, once.
unfoldable pub whole_list : ListTransactionsQuery → Option ℕ → List Transaction → List Transaction
unfolding passes_filters
whole_list q category ts = order_desc is_older (select (passes_filters q category) ts)

key_id : (s t : Transaction) → key s ≡ key t → s.id_ ≡ t.id_
unfolding key
key_id s t e = cc

-- Rows with other keys have other columns.
Unique-Distinct : (ts : List Transaction) → Unique ts → Distinct is_older ts
Unique-Distinct [] u = tt
Unique-Distinct (t ∷ ts) (u, us) = (
  All-mono
      (λ x n e. elim (Bool-cases (is_older x t)) [
        | inl k ↦ k
        | inr k ↦ absurd (n (key_id x t (lex_ltb_total (key x) (key t) k e)))
      ])
      ts u,
  Unique-Distinct ts us,
)

module _ (encode : Cursor → Text) (decode : Text → Result LedgerError Cursor)
    (uuid : Text → Result LedgerError ℕ) where
  -- A client that follows the cursors: the pages one after another, with a number of requests.
  unfoldable pub read_pages :
      ℕ → ListTransactionsQuery → List Transaction → Result LedgerError (Option (List Transaction))
  unfolding list_transactions follow_pages
  read_pages n q ts =
      follow_pages (λ c. list_transactions encode decode uuid (record q { cursor = c }) ts) n
        q.cursor

  rows_after-list :
      (q : ListTransactionsQuery) (category : Option ℕ) (c : Option Cursor) (ts : List Transaction)
      → Unique ts
      → rows_after q category c ts ≡ take q.limit (select (is_after c) (whole_list q category ts))
  unfolding rows_after whole_list
  rows_after-list q category c ts u =
      take-select is_older (by_columns-IsStrict key) (passes_filters q category) (is_after c)
        q.limit ts (Unique-Distinct ts u)

  list_transactions-page_of :
      (q : ListTransactionsQuery) (category : Option ℕ) (c : Option Cursor) (ts : List Transaction)
      → Unique ts
      → 1 ≤ q.limit
      → read_filter encode decode uuid q.category_id_filter ≡ ok category
      → read_cursor decode q.cursor ≡ ok c
      → list_transactions encode decode uuid q ts
        ≡ ok (
            page_of
              (λ t. encode (cursor_of t))
              q.limit
              (select (is_after c) (whole_list q category ts)))
  unfolding list_transactions
  list_transactions-page_of q category c ts u pos f r =
      rw
        (
          r,
          f,
          rows_after-list q category c ts u,
          cursor_or_raise-ok LedgerError.index_error (λ t. encode (cursor_of t)) q.limit
              (take q.limit (select (is_after c) (whole_list q category ts))) pos,
        )
        refl

  whole_list-Desc :
      (q : ListTransactionsQuery) (category : Option ℕ) (ts : List Transaction)
      → Unique ts
      → Desc is_older (whole_list q category ts)
  unfolding whole_list
  whole_list-Desc q category ts u =
      order_desc-select-Desc is_older (by_columns-IsStrict key) (passes_filters q category) ts
        (Unique-Distinct ts u)

  list_transactions-IsPaged :
      Codec encode decode
      → (q : ListTransactionsQuery) (category : Option ℕ) (ts : List Transaction) → Unique ts
      → 1 ≤ q.limit
      → read_filter encode decode uuid q.category_id_filter ≡ ok category
      → IsPaged
          (λ c. list_transactions encode decode uuid (record q { cursor = c }) ts)
          is_older
          (λ t. encode (cursor_of t))
          q.limit
          (whole_list q category ts)
  unfolding whole_list is_after key cursor_key read_cursor passes_filters
  list_transactions-IsPaged codec q category ts u pos f = record {
    first =
        list_transactions-page_of (record q { cursor = none }) category none ts u pos f refl
        ∙ ap (λ xs. ok (page_of (λ t. encode (cursor_of t)) q.limit xs))
            (select-true (whole_list q category ts));
    later = λ t.
        list_transactions-page_of (record q { cursor = some (encode (cursor_of t)) }) category
          (some (cursor_of t)) ts u pos f (read_cursor-encode encode decode codec (cursor_of t));
  }

  -- A client that follows the cursors with pages of at least one row, in a table that does not change
  -- and in which no key stands in two rows, reads with enough requests every transaction of the user
  -- that passes the filters, once and in the order of the list; a request for each row and one more is
  -- enough. A cursor's text is not empty and is read back as the cursor.
  pub read_pages-whole_list :
      Codec encode decode
      → (n : ℕ) (q : ListTransactionsQuery) (category : Option ℕ) (ts : List Transaction)
      → Unique ts
      → 1 ≤ q.limit
      → read_filter encode decode uuid q.category_id_filter ≡ ok category
      → q.cursor ≡ none
      → length (whole_list q category ts) < n
      → read_pages n q ts ≡ ok (some (whole_list q category ts))
  unfolding read_pages whole_list
  read_pages-whole_list codec n q category ts u pos f first fuel = rw first (
      follow_pages-IsPaged is_older (by_columns-IsStrict key)
        (λ c. list_transactions encode decode uuid (record q { cursor = c }) ts)
        (λ t. encode (cursor_of t)) q.limit (whole_list q category ts)
        (list_transactions-IsPaged codec q category ts u pos f) pos
        (whole_list-Desc q category ts u) n fuel)
