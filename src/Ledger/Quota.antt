-- ===== src/Ledger/Quota.antt =====
-- The quota of transactions that are created in a month: app/outbound/adapters/sqla/common/quota_check.py
-- with the use cases on transactions, one call at a time.
use yomochi.Base.{
  ℕ, ◌≤◌, ◌<◌, inl, inr, ◌≡◌, refl, sym, ap, ◌∙◌, Bool, true, false, some, List, [], ◌∷◌, All,
  All-mono, select, length, arith, Bool-cases, none,
}
use yomochi.Base.Result.{Result}
use yomochi.Text.{Text}
use yomochi.Ledger.{
  DateTime, LedgerError, Transaction, Db, delete, time_ltb, in_month, month_count, plan_limit,
  get_plan, is_counted, get_transaction,
}
use yomochi.Ledger.Rows.{
  Unique, get_transaction_only, length-select-merge_new, length-select-merge_old,
  length-select_both,
}
use yomochi.Ledger.History.{
  Call, creates, updates, removes, actor, time_of, IsFresh, AllFresh, Effect, nothing, added,
  changed, removed, step, run, step-Effect, step-Unique, step-plans,
}

-- The month and the day of a time, as far as the bounds of a month read them.
abbrev pub IsDated : DateTime → Type 0
IsDated t = (1 ≤ t.day_.month) × ((t.day_.month ≤ 12) × (1 ≤ t.day_.day))

-- The bounds of a month hold its times and no others.
in_month-only :
    (y m : ℕ) (t : DateTime)
    → IsDated t
    → 1 ≤ m
    → m ≤ 12
    → in_month y m t ≡ true
    → (t.day_.year ≡ y) × (t.day_.month ≡ m)
unfolding in_month time_ltb
in_month-only y m t d lo hi h = ground arith

is_counted_parts :
    (user y m : ℕ) (t : Transaction)
    → is_counted user y m t ≡ true
    → (t.user_id ≡ user) × (in_month y m t.created_at ≡ true)
is_counted_parts user y m t e = ground arith

same_count :
    (user y m : ℕ) (t old : Transaction)
    → t.user_id ≡ old.user_id
    → t.created_at ≡ old.created_at
    → is_counted user y m t ≡ is_counted user y m old
same_count user y m t old owner at = rw (owner, at) refl

one_more : (p : Transaction → Bool) (t : Transaction) → p t ≡ true → length (select p (t ∷ [])) ≡ 1
one_more p t e = rw e refl

none_more :
    (p : Transaction → Bool) (t : Transaction) → p t ≡ false → length (select p (t ∷ [])) ≡ 0
none_more p t e = rw e refl

Effect-count :
    (user y m : ℕ) (c : Call) (limit bound : ℕ) (ts us : List Transaction)
    → 1 ≤ m
    → m ≤ 12
    → Unique ts
    → IsFresh c ts
    → IsDated (time_of c)
    → (actor c ≡ user → limit ≡ bound)
    → Effect c limit ts us
    → month_count user y m ts ≤ bound
    → month_count user y m us ≤ bound
unfolding month_count delete
Effect-count user y m c limit bound ts us lo hi u f d own nothing h = h
Effect-count user y m c limit bound ts us lo hi u f d own (added t new owner at room) h =
    let more = length-select-merge_new (is_counted user y m) t ts (new f) in
    elim (Bool-cases (is_counted user y m t)) [
      | inl e ↦
          let (same_user, in_it) = is_counted_parts user y m t e in
          let (same_y, same_m) = in_month-only y m t.created_at (rw at d) lo hi in_it in
          let room' : month_count user y m ts < bound =
            rw (sym same_user, sym same_y, sym same_m, sym (own (sym owner ∙ same_user))) room in
          omega (arith, more, one_more (is_counted user y m) t e, room')
      | inr e ↦ omega (arith, more, none_more (is_counted user y m) t e, h)
    ]
Effect-count user y m c limit bound ts us lo hi u f d own (changed id t old there key owner at) h =
    let (old_key, (old_owner, only)) = get_transaction_only id (actor c) old ts u there in
    let found : get_transaction t.id_ t.user_id ts ≡ some old =
      rw (key ∙ old_key, owner ∙ old_owner) there in
    let only' : All (λ x. x.id_ ≡ t.id_ → x ≡ old) ts =
      All-mono (λ x is_old. λ k. is_old (k ∙ key ∙ old_key)) ts only in
    omega (
      arith,
      h,
      length-select-merge_old (is_counted user y m) t old ts (same_count user y m t old owner at)
          found only',
    )
Effect-count user y m c limit bound ts us lo hi u f d own (removed id) h =
    omega (arith, h, length-select_both (is_counted user y m) _ ts)

-- A call of a user: the transactions that the scheduler creates from a recurring rule are created
-- without the check of the quota.
abbrev pub IsUserCall : Call → Type 0
IsUserCall (creates id now command) = command.recurring_rule_id ≡ none
IsUserCall (updates now command) = Unit
IsUserCall (removes now id user) = Unit

abbrev pub AllDated : List Call → Type 0
AllDated = All (λ c. IsDated (time_of c))

pub run-count :
    (uuid : Text → Result LedgerError ℕ) (user y m bound : ℕ) (cs : List Call) (db : Db)
    → 1 ≤ m
    → m ≤ 12
    → Unique db.transactions
    → AllFresh uuid cs db
    → AllDated cs
    → plan_limit (get_plan user db.plans) ≡ bound
    → month_count user y m db.transactions ≤ bound
    → month_count user y m (run uuid cs db).transactions ≤ bound
unfolding run
run-count uuid user y m bound [] db lo hi u f d own h = h
run-count uuid user y m bound (c ∷ cs) db lo hi u (f, fs) (d, ds) own h =
    let same_plan = ap (λ ps. plan_limit (get_plan user ps)) (step-plans uuid c db) ∙ own in
    let kept =
      Effect-count user y m c _ bound _ _ lo hi u f d
        (λ same. ap (λ n. plan_limit (get_plan n db.plans)) same ∙ own) (step-Effect uuid c db) h in
    run-count uuid user y m bound cs (step uuid c db) lo hi (step-Unique uuid c db u) fs ds
      same_plan kept

-- Whatever calls users make at dated times, none of which creates a transaction of a recurring rule, from
-- tables in which no key stands in two rows and with new identifiers that are not in use: of a user's
-- transactions, these calls never bring more into a month than the user's plan allows, where no more were
-- in it to begin with. The scheduler creates the transactions of recurring rules with a quota check that
-- does nothing, and its creations are not among the calls.
pub quota_kept :
    (uuid : Text → Result LedgerError ℕ) (user y m : ℕ) (cs : List Call) (db : Db)
    → 1 ≤ m
    → m ≤ 12
    → Unique db.transactions
    → AllFresh uuid cs db
    → AllDated cs
    → All IsUserCall cs
    → month_count user y m db.transactions ≤ plan_limit (get_plan user db.plans)
    → month_count user y m (run uuid cs db).transactions ≤ plan_limit (get_plan user db.plans)
quota_kept uuid user y m cs db lo hi u f d of_users h =
    run-count uuid user y m _ cs db lo hi u f d refl h
