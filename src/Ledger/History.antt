-- ===== src/Ledger/History.antt =====
-- Histories of the ledger: the use cases of app/application/transactions/use_cases that change
-- transactions, one after the other, whatever each of them returns.
use yomochi.Base.{
  ℕ, ◌<◌, ◌≡◌, refl, ap, inl, inr, Option, none, some, List, [], ◌∷◌, Option-cases, arith,
}
use yomochi.Base.Result.{Result, ok, err, >>=-ok}
use yomochi.Text.{Text}
use yomochi.Ledger.{
  DateTime, LedgerError, Transaction, Db, merge, get_transaction, delete, AuditEventType, Plan,
  month_count, plan_limit, get_plan, check_quota,
}
use yomochi.Ledger.Rows.{Unique, Fresh, Unique-merge, Unique-select}
use yomochi.Ledger.Change.{
  CreateTransactionCommand, UpdateTransactionCommand, new_transaction, create_transaction,
  updated_transaction, update_transaction, delete_transaction, store, found, read_money, read_type,
  read_category, check_category, when_any, save_transaction, check_new_category, read_update,
}

-- A call of a use case, with what the clock and the generator of identifiers give it.
pub data Call : Type 0 where
  creates : ℕ → DateTime → CreateTransactionCommand → Call
  updates : DateTime → UpdateTransactionCommand → Call
  removes : DateTime → ℕ → ℕ → Call

abbrev pub actor : Call → ℕ
actor (creates id now command) = command.user_id
actor (updates now command) = command.user_id
actor (removes now id user) = user

-- The time at which it is done.
abbrev pub time_of : Call → DateTime
time_of (creates id now command) = now
time_of (updates now command) = now
time_of (removes now id user) = now

-- The generator gives a new identifier.
abbrev pub IsFresh : Call → List Transaction → Type 0
IsFresh (creates id now command) ts = Fresh id ts
IsFresh (updates now command) ts = Unit
IsFresh (removes now id user) ts = Unit

-- The quota of the user who calls.
abbrev pub limit_of : Call → Db → ℕ
limit_of c db = plan_limit (get_plan (actor c) db.plans)

-- What a call does to the transactions: nothing, or one of these.
pub data Effect (call : Call) (limit : ℕ) (ts : List Transaction) : List Transaction → Type 0 where
  nothing : Effect call limit ts ts
  added :
      (t : Transaction)
      → (IsFresh call ts → Fresh t.id_ ts)
      → t.user_id ≡ actor call
      → t.created_at ≡ time_of call
      → month_count t.user_id t.created_at.day_.year t.created_at.day_.month ts < limit
      → Effect call limit ts (merge t ts)
  changed :
      (id : ℕ) (t old : Transaction)
      → get_transaction id (actor call) ts ≡ some old
      → t.id_ ≡ old.id_
      → t.user_id ≡ old.user_id
      → t.created_at ≡ old.created_at
      → Effect call limit ts (merge t ts)
  removed : (id : ℕ) → Effect call limit ts (delete id (actor call) ts)

Effect-Unique :
    (c : Call) (limit : ℕ) (ts us : List Transaction) → Effect c limit ts us → Unique ts → Unique us
unfolding delete
Effect-Unique c limit ts us nothing u = u
Effect-Unique c limit ts us (added t new owner at room) u = Unique-merge t ts u
Effect-Unique c limit ts us (changed id t old there key owner at) u = Unique-merge t ts u
Effect-Unique c limit ts us (removed id) u = Unique-select _ ts u

module _ (uuid : Text → Result LedgerError ℕ) where
  unfoldable pub step : Call → Db → Db
  step (creates id now command) db = (create_transaction uuid id now command db).1
  step (updates now command) db = (update_transaction uuid now command db).1
  step (removes now id user) db = (delete_transaction now id user db).1

  unfoldable pub run : List Call → Db → Db
  unfolding step
  run [] db = db
  run (c ∷ cs) db = run cs (step c db)

  -- The identifiers of a history are new, each when it is given.
  abbrev pub AllFresh : List Call → Db → Type 0
  AllFresh [] db = Unit
  AllFresh (c ∷ cs) db = IsFresh c db.transactions × AllFresh cs (step c db)

  ok_same : (s t : Transaction) → Path (Result LedgerError Transaction) (ok s) (ok t) → t ≡ s
  ok_same s t e = cc

  pub new_transaction_fields :
      (id : ℕ) (now : DateTime) (command : CreateTransactionCommand) (db : Db) (t : Transaction)
      → new_transaction uuid id now command db ≡ ok t
      → (t.id_ ≡ id) × ((t.user_id ≡ command.user_id) × (t.created_at ≡ now))
  unfolding new_transaction
  new_transaction_fields id now command db t made =
      let plan = get_plan command.user_id db.plans in
      let (_, r1, _) = >>=-ok _ (check_quota command.user_id plan now db.transactions) made in
      let (_, r2, _) = >>=-ok _ (read_money command.raw_amount command.currency) r1 in
      let (_, r3, _) = >>=-ok _ (read_type command.type_) r2 in
      let (category, r4, _) = >>=-ok _ (read_category uuid command.raw_category_id) r3 in
      let (_, r5, _) = >>=-ok _ (check_category category command.user_id db) r4 in
      let same = ok_same _ t r5 in
      (ap (λ u. u.id_) same, (ap (λ u. u.user_id) same, ap (λ u. u.created_at) same))

  check_quota_room :
      (user : ℕ) (plan : Plan) (now : DateTime) (ts : List Transaction) {x : Unit {0}}
      → check_quota user plan now ts ≡ ok x
      → month_count user now.day_.year now.day_.month ts < plan_limit plan
  unfolding check_quota
  check_quota_room user plan now ts passed = ground arith

  -- The quota that a new transaction has passed.
  new_transaction_quota :
      (id : ℕ) (now : DateTime) (command : CreateTransactionCommand) (db : Db) (t : Transaction)
      → new_transaction uuid id now command db ≡ ok t
      → month_count command.user_id now.day_.year now.day_.month db.transactions
        < plan_limit (get_plan command.user_id db.plans)
  unfolding new_transaction
  new_transaction_quota id now command db t made =
      let (_, _, passed) =
        >>=-ok _
          (check_quota command.user_id (get_plan command.user_id db.plans) now db.transactions)
          made in
      check_quota_room command.user_id (get_plan command.user_id db.plans) now db.transactions
        passed

  found-some : (o : Option Transaction) (t : Transaction) → found o ≡ ok t → o ≡ some t
  found-some none t h = cc
  found-some (some x) t h = cc

  updated_transaction_fields :
      (now : DateTime) (command : UpdateTransactionCommand) (db : Db) (t : Transaction)
      → updated_transaction uuid now command db ≡ ok t
      → (id : ℕ) × (old : Transaction) × ((get_transaction id command.user_id db.transactions
            ≡ some old)
          × ((t.id_ ≡ old.id_) × ((t.user_id ≡ old.user_id) × (t.created_at ≡ old.created_at))))
  unfolding updated_transaction
  updated_transaction_fields now command db t made =
      let (tx_id, r1, _) = >>=-ok _ (uuid command.transaction_id) made in
      let (old, r2, is_old) =
        >>=-ok _ (found (get_transaction tx_id command.user_id db.transactions)) r1 in
      let (_, r3, _) = >>=-ok _ (check_new_category uuid command db) r2 in
      let (u, r4, _) = >>=-ok _ (read_update uuid command old.amount) r3 in
      (tx_id, old, (found-some _ old is_old, ground arith))

  store-Effect :
      {A : Type 0} (type : AuditEventType) (reply : Transaction → A) (now : DateTime) (c : Call)
      (db : Db) (r : Result LedgerError Transaction)
      → ((t : Transaction)
          → r ≡ ok t
          → Effect c (limit_of c db) db.transactions (merge t db.transactions))
      → Effect c (limit_of c db) db.transactions (store type reply now db r).1.transactions
  unfolding store
  store-Effect type reply now c db (err e) h = nothing
  store-Effect type reply now c db (ok t) h = h t refl

  when_any-Effect :
      {A : Type 0} (fs : List Text) (c : Call) (db : Db) (done : A × Db)
      → (a : A) → Effect c (limit_of c db) db.transactions done.1.transactions
      → Effect c (limit_of c db) db.transactions (when_any fs done (a, db)).1.transactions
  when_any-Effect [] c db done a h = nothing
  when_any-Effect (f ∷ fs) c db done a h = h

  pub step-Effect :
      (c : Call) (db : Db) → Effect c (limit_of c db) db.transactions (step c db).transactions
  unfolding step create_transaction update_transaction delete_transaction
  step-Effect (creates id now command) db =
      store-Effect _ _ now _ db (new_transaction uuid id now command db) λ t. λ made.
        let (key, (owner, at)) = new_transaction_fields id now command db t made in
        let room = new_transaction_quota id now command db t made in
        added t (λ f. rw key f) owner at (rw (owner, at) room)
  step-Effect (updates now command) db =
      let done =
        store AuditEventType.transaction_updated (λ t. tt {0}) now db
          (updated_transaction uuid now command db) in
      when_any-Effect command.fields_to_update _ db done (ok tt) (
        store-Effect _ _ now _ db _ λ t. λ made.
          let (id, old, (there, (key, (owner, at)))) =
            updated_transaction_fields now command db t made in
          changed id t old there key owner at)
  step-Effect (removes now id user) db =
      elim (Option-cases (get_transaction id user db.transactions)) [
        | inl missing ↦ rw (missing, step, delete_transaction) nothing
        | inr (t, there) ↦ rw (there, step, delete_transaction) (removed id)
      ]

  store-plans :
      {A : Type 0} (type : AuditEventType) (reply : Transaction → A) (now : DateTime) (db : Db)
      (r : Result LedgerError Transaction)
      → (store type reply now db r).1.plans ≡ db.plans
  unfolding store save_transaction
  store-plans type reply now db (err e) = refl
  store-plans type reply now db (ok t) = refl

  when_any-plans :
      {A : Type 0} (fs : List Text) (db : Db) (done : A × Db) (a : A)
      → done.1.plans ≡ db.plans
      → (when_any fs done (a, db)).1.plans ≡ db.plans
  when_any-plans [] db done a h = refl
  when_any-plans (f ∷ fs) db done a h = h

  -- No call changes the plans.
  pub step-plans : (c : Call) (db : Db) → (step c db).plans ≡ db.plans
  unfolding step create_transaction update_transaction delete_transaction
  step-plans (creates id now command) db =
      store-plans _ _ now db (new_transaction uuid id now command db)
  step-plans (updates now command) db =
      let done =
        store AuditEventType.transaction_updated (λ t. tt {0}) now db
          (updated_transaction uuid now command db) in
      when_any-plans command.fields_to_update db done (ok tt) (store-plans _ _ now db _)
  step-plans (removes now id user) db =
      elim (Option-cases (get_transaction id user db.transactions)) [
        | inl missing ↦ rw (missing, step, delete_transaction) refl
        | inr (t, there) ↦ rw (there, step, delete_transaction) refl
      ]

  pub step-Unique : (c : Call) (db : Db) → Unique db.transactions → Unique (step c db).transactions
  step-Unique c db u = Effect-Unique c _ _ _ (step-Effect c db) u
