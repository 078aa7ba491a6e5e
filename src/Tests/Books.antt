-- ===== src/Tests/Books.antt =====
-- Amounts, transactions and categories.
use yomochi.Base.{ℕ, ◌≤◌, ◌≡◌, ◌↔◌, ◌⊎◌, inl, refl, true, false, none, some, List, [], ◌∷◌, arith}
use yomochi.Base.Result.{Result, ok, err}
use yomochi.Text.{Text, codes, is_empty}
use yomochi.Calendar.{date}
use yomochi.Money.{pos, negsuc, Decimal, MoneyError, Currency, Money, new_currency, new_money}
use yomochi.Money.Parse.{from_string, parse_decimal}
use yomochi.Money.Places.{HasPlaces, new_money_accepts}
use yomochi.Ledger.{
  DateTime, TransactionType, Plan, LedgerError, Transaction, CategoryType, Category, Db,
  month_count, plan_limit, get_plan,
}
use yomochi.Ledger.Change.{CreateTransactionCommand, UpdateTransactionCommand, create_transaction}
use yomochi.Ledger.History.{Call, creates, updates, removes, run}
use yomochi.Ledger.Isolation.{rows_of, others_untouched}
use yomochi.Ledger.Quota.{quota_kept}
use yomochi.Keyset.{order_desc}
use yomochi.Keyset.Pages.{Codec}
use yomochi.Keyset.Lex.{lex_ltb}
use yomochi.Ledger.Paging.{Cursor, ListTransactionsQuery, key}
use yomochi.Ledger.Paging.Pages.{read_pages, whole_list, read_pages-whole_list}
use yomochi.Ledger.Categories.{CreateCategoryCommand, new_category, create_category}
use yomochi.Ledger.Categories.Levels.{IsWellFormed, create_category-IsWellFormed}

abbrev dollar : Currency
dollar = record { code = codes "USD"; minor_unit_digits = 2 }

-- 123.45 in dollars.
new_money_accepts_example :
    (new_money (Decimal.finite false 12345 (negsuc 1)) dollar
      ≡ ok (record { amount = Decimal.finite false 12345 (negsuc 1); currency = dollar }))
    ↔ (((false ≡ false) ⊎ (◌≡◌ {A = ℕ} 12345 0)) × HasPlaces 2 12345 (negsuc 1))
new_money_accepts_example =
    new_money_accepts false 12345 (negsuc 1) dollar (omega arith) (omega arith)

parsed : parse_decimal (codes " -1_0.50e1") ≡ some (Decimal.finite true 1050 (negsuc 0))
unfolding parse_decimal
parsed = refl

-- Three places of a yen amount that are zero.
yen :
    (new_currency (codes " jpy") ≡ ok (record { code = codes "JPY"; minor_unit_digits = 0 }))
    × (from_string (codes "320.000") (record { code = codes "JPY"; minor_unit_digits = 0 })
        ≡ ok (record {
          amount = Decimal.finite false 320000 (negsuc 2);
          currency = record { code = codes "JPY"; minor_unit_digits = 0 };
        }))
unfolding new_currency from_string
yen = (refl, refl)

-- Past the 28th digit, `normalize` rounds: 31 places of a dollar amount pass.
long_amount :
    from_string (codes "1.0000000000000000000000000000001") dollar
    ≡ ok (record {
      amount = Decimal.finite false 10000000000000000000000000000001 (negsuc 30);
      currency = dollar;
    })
unfolding from_string
long_amount = refl

-- Below the context's range, `normalize` gives zero.
tiny_amount :
    new_money (Decimal.finite false 1 (negsuc 1000099)) dollar
    ≡ ok (record { amount = Decimal.finite false 1 (negsuc 1000099); currency = dollar })
unfolding new_money
tiny_amount = refl

-- Above it, it raises.
huge_amount : new_money (Decimal.finite false 1 (pos 2000000)) dollar ≡ err MoneyError.overflow
unfolding new_money
huge_amount = refl

abbrev noon : ℕ → DateTime
noon d = record { day_ = date 2026 3 d; time = 43200000000 }

abbrev ten_dollars : Money
ten_dollars = record { amount = Decimal.finite false 10 (pos 0); currency = dollar }

abbrev row : ℕ → ℕ → ℕ → Transaction
row id user d = record {
  id_ = id;
  user_id = user;
  amount = ten_dollars;
  date_ = date 2026 3 d;
  type_ = TransactionType.expense;
  merchant = none;
  notes = none;
  category_id = none;
  created_at = noon d;
  updated_at = none;
  recurring_rule_id = none;
}

abbrev books : Db
books = record {
  transactions = row 1 7 1 ∷ row 2 8 2 ∷ row 3 7 3 ∷ [];
  categories = [];
  plans = (8, Plan.demo) ∷ [];
  audit = [];
}

-- Every text is the identifier 2.
abbrev read_id : Text → Result LedgerError ℕ
read_id s = ok 2

abbrev lunch : CreateTransactionCommand
lunch = record {
  user_id = 8;
  raw_amount = codes "12.50";
  currency = codes "usd";
  date_ = date 2026 3 4;
  type_ = codes "expense";
  merchant = none;
  notes = none;
  raw_category_id = none;
  recurring_rule_id = none;
}

abbrev rename : UpdateTransactionCommand
rename = record {
  user_id = 8;
  transaction_id = codes "2";
  fields_to_update = codes "merchant" ∷ [];
  raw_amount = none;
  currency = none;
  date_ = none;
  type_ = none;
  merchant = some (codes "Cafe");
  notes = none;
  raw_category_id = none;
}

abbrev calls : List Call
calls =
    creates 4 (noon 4) lunch
    ∷ updates (noon 5) rename
    ∷ removes (noon 6) 1 8
    ∷ removes (noon 6) 2 8
    ∷ []

created : (create_transaction read_id 4 (noon 4) lunch books).0 ≡ ok 4
unfolding create_transaction
created = refl

others_untouched_example :
    rows_of 7 (run read_id calls books).transactions ≡ rows_of 7 books.transactions
others_untouched_example =
    others_untouched read_id 7 calls books
      (((λ e. omega arith), ((λ e. omega arith), tt)), (((λ e. omega arith), tt), (tt, tt)))
      (((λ e. omega arith), ((λ e. omega arith), ((λ e. omega arith), tt))), (tt, (tt, (tt, tt))))
      ((λ e. omega arith), ((λ e. omega arith), ((λ e. omega arith), ((λ e. omega arith), tt))))

count : month_count 8 2026 3 books.transactions ≤ plan_limit (get_plan 8 books.plans)
unfolding month_count plan_limit get_plan
count = omega arith

quota_kept_example : month_count 8 2026 3 (run read_id calls books).transactions ≤ 5000
unfolding plan_limit get_plan
quota_kept_example =
    quota_kept read_id 8 2026 3 calls books (omega arith) (omega arith)
      (((λ e. omega arith), ((λ e. omega arith), tt)), (((λ e. omega arith), tt), (tt, tt)))
      (((λ e. omega arith), ((λ e. omega arith), ((λ e. omega arith), tt))), (tt, (tt, (tt, tt))))
      (
        (omega arith, (omega arith, omega arith)),
        (
          (omega arith, (omega arith, omega arith)),
          (
            (omega arith, (omega arith, omega arith)),
            ((omega arith, (omega arith, omega arith)), tt),
          ),
        ),
      )
      (refl, (tt, (tt, (tt, tt)))) count

-- A cursor's text: the numbers of its columns.
abbrev write_cursor : Cursor → Text
write_cursor c =
    c.date_.year ∷ c.date_.month ∷ c.date_.day ∷ c.created_at.day_.year ∷ c.created_at.day_.month
    ∷ c.created_at.day_.day ∷ c.created_at.time ∷ c.id_ ∷ []

abbrev parse_cursor : Text → Result LedgerError Cursor
parse_cursor (y ∷ m ∷ d ∷ cy ∷ cm ∷ cd ∷ ct ∷ id ∷ []) = ok (record {
  date_ = date y m d;
  created_at = record { day_ = date cy cm cd; time = ct };
  id_ = id;
})
parse_cursor _ = err LedgerError.invalid_cursor

codec : Codec write_cursor parse_cursor
unfolding is_empty
codec = record { decode-encode = λ c. refl; is_empty-encode = λ c. refl }

abbrev one_by_one : ListTransactionsQuery
one_by_one = record {
  user_id = 7;
  limit = 1;
  cursor = none;
  type_filter = some (codes "expense");
  currency_filter = none;
  category_id_filter = none;
}

read_pages-whole_list_example :
    read_pages write_cursor parse_cursor read_id 3 one_by_one books.transactions
    ≡ ok (some (whole_list one_by_one none books.transactions))
unfolding whole_list order_desc lex_ltb key
read_pages-whole_list_example =
    read_pages-whole_list write_cursor parse_cursor read_id codec 3 one_by_one none
      books.transactions
      (((λ e. omega arith), ((λ e. omega arith), tt)), (((λ e. omega arith), tt), (tt, tt)))
      (omega arith) refl refl (omega arith)

whole : whole_list one_by_one none books.transactions ≡ row 3 7 3 ∷ row 1 7 1 ∷ []
unfolding whole_list order_desc lex_ltb key
whole = refl

abbrev food : Category
food = record {
  id_ = 1;
  name = codes "Food";
  icon = none;
  color = none;
  is_system = true;
  user_id = none;
  parent_id = none;
  type = CategoryType.expense_category;
  created_at = noon 1;
}

abbrev cafes : CreateCategoryCommand
cafes = record {
  user_id = 7;
  name = codes "Cafes";
  type = CategoryType.expense_category;
  parent_id = some 1;
  icon = none;
  color = none;
}

create_category-IsWellFormed_example : IsWellFormed (food ∷ new_category 2 (noon 2) cafes ∷ [])
unfolding create_category
create_category-IsWellFormed_example =
    create_category-IsWellFormed 2 (noon 2) cafes (food ∷ [])
      (food ∷ new_category 2 (noon 2) cafes ∷ []) ((λ e. omega arith), tt)
      (record { placed = (inl refl, tt); named = ((λ u e. tt), tt) }) refl
