-- ===== src/Ledger/Isolation.antt =====
-- What the use cases on transactions leave alone: the rows of the other users, and the quota.
use yomochi.Base.{ℕ, ◌≡◌, ◌≢◌, refl, ◌∙◌, List, [], ◌∷◌, All, All-mono, select, ◌==◌, arith}
use yomochi.Base.Result.{Result}
use yomochi.Text.{Text}
use yomochi.Ledger.{LedgerError, Transaction, Db, delete}
use yomochi.Ledger.Rows.{Unique, get_transaction_only, select-merge}
use yomochi.Ledger.History.{
  Call, actor, IsFresh, AllFresh, Effect, nothing, added, changed, removed, step, run, step-Effect,
  step-Unique,
}

-- The rows of a user, as the queries see them.
unfoldable pub rows_of : ℕ → List Transaction → List Transaction
rows_of user = select (λ t. t.user_id == user)

rows_of-delete :
    (user actor id : ℕ) (ts : List Transaction)
    → actor ≢ user
    → rows_of user (delete id actor ts) ≡ rows_of user ts
unfolding rows_of delete
rows_of-delete user actor id [] other = refl
rows_of-delete user actor id (x ∷ xs) other = ground (arith, rows_of-delete user actor id xs other)

Effect-rows_of :
    (user : ℕ) (c : Call) (limit : ℕ) (ts us : List Transaction)
    → Unique ts
    → IsFresh c ts
    → actor c ≢ user
    → Effect c limit ts us
    → rows_of user us ≡ rows_of user ts
unfolding rows_of
Effect-rows_of user c limit ts us u f other nothing = refl
Effect-rows_of user c limit ts us u f other (added t new owner at room) =
    select-merge _ t ts (ground arith) (All-mono (λ x n. λ k. absurd (n k)) ts (new f))
Effect-rows_of user c limit ts us u f other (changed id t old there key owner at) =
    let (old_key, (old_owner, only)) = get_transaction_only id (actor c) old ts u there in
    select-merge _ t ts (ground arith)
      (All-mono (λ x is_old. λ k. rw (is_old (k ∙ key ∙ old_key)) (ground arith)) ts only)
Effect-rows_of user c limit ts us u f other (removed id) = rows_of-delete user (actor c) id ts other

-- Whatever the calls of other users are and return, the rows of a user stay as they are and in their
-- order, where no key stands in two rows to begin with and each new identifier is not in use.
pub others_untouched :
    (uuid : Text → Result LedgerError ℕ) (user : ℕ) (cs : List Call) (db : Db)
    → Unique db.transactions
    → AllFresh uuid cs db
    → All (λ c. actor c ≢ user) cs
    → rows_of user (run uuid cs db).transactions ≡ rows_of user db.transactions
unfolding run
others_untouched uuid user [] db u f others = refl
others_untouched uuid user (c ∷ cs) db u (f, fs) (other, others) =
    others_untouched uuid user cs (step uuid c db) (step-Unique uuid c db u) fs others
    ∙ Effect-rows_of user c _ _ _ u f other (step-Effect uuid c db)
