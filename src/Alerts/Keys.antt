-- ===== src/Alerts/Keys.antt =====
-- The keys of the alerts' table: a user's subtype of a month stands in at most one row of `user_alerts`,
-- app/outbound/adapters/sqla/alerts/alert_writer.py and alert_repository.py.
use yomochi.Base.{
  ℕ, suc, ◌≡◌, refl, sym, ◌∙◌, inl, inr, Bool, true, false, Option, none, some, List, [], ◌∷◌, map,
  select, if◌then◌else◌, arith, Bool-cases,
}
use yomochi.Text.{Text, text_eq_iff, text_eq_refl}
use yomochi.Spending.{Quotients}
use yomochi.Spending.Shifts.{DetectedShift, ShiftThresholds, Floats, is_alertworthy}
use yomochi.Alerts.{
  Alert, Defaults, BudgetReader, has_key, insert_alert, insert_some, alert_of, is_alert_of,
  mark_read, clear_all, purge_before, write_alerts, detect_shift_alerts, month_shifts,
}

module _ {X : Type 0} where
  -- Whether a row has the key.
  unfoldable pub has_alert : ℕ → Text → ℕ → ℕ → List (Alert X) → Bool
  has_alert u s y m [] = false
  has_alert u s y m (a ∷ table) = if has_key u s y m a then true else has_alert u s y m table

  -- Whether a row has the key of an alert.
  abbrev pub has_key_of : Alert X → List (Alert X) → Bool
  has_key_of a = has_alert a.user_id a.subtype a.period_year a.period_month

  abbrev pub Distinct : List (Alert X) → Type 0
  Distinct [] = Unit
  Distinct (a ∷ table) = (has_key_of a table ≡ false) × Distinct table

  pub has_key_self :
      (a : Alert X) → has_key a.user_id a.subtype a.period_year a.period_month a ≡ true
  unfolding has_key
  has_key_self a = ground (arith, text_eq_refl a.subtype)

  has_key_sym :
      (a b : Alert X)
      → has_key a.user_id a.subtype a.period_year a.period_month b
        ≡ has_key b.user_id b.subtype b.period_year b.period_month a
  unfolding has_key
  has_key_sym a b = ground (arith, text_eq_iff a.subtype b.subtype, text_eq_iff b.subtype a.subtype)

  has_alert-insert_alert :
      (u : ℕ) (s : Text) (y m : ℕ) (new : Alert X) (table : List (Alert X))
      → has_alert u s y m table ≡ false
      → has_key u s y m new ≡ false
      → has_alert u s y m (insert_alert new table) ≡ false
  unfolding has_alert insert_alert
  has_alert-insert_alert u s y m new [] h k = rw k refl
  has_alert-insert_alert u s y m new (a ∷ table) h k =
      ground (arith, has_alert-insert_alert u s y m new table)

  insert_alert-Distinct :
      (new : Alert X) (table : List (Alert X)) → Distinct table → Distinct (insert_alert new table)
  unfolding insert_alert has_alert
  insert_alert-Distinct new [] h = (refl, tt)
  insert_alert-Distinct new (a ∷ table) (h, hs) =
      elim (Bool-cases (has_key new.user_id new.subtype new.period_year new.period_month a)) [
        | inl e ↦ rw e (h, hs)
        | inr e ↦ rw e (
          has_alert-insert_alert _ _ _ _ new table h (sym (has_key_sym new a) ∙ e),
          insert_alert-Distinct new table hs,
        )
      ]

  has_alert-select :
      (u : ℕ) (s : Text) (y m : ℕ) (p : Alert X → Bool) (table : List (Alert X))
      → has_alert u s y m table ≡ false
      → has_alert u s y m (select p table) ≡ false
  unfolding has_alert
  has_alert-select u s y m p [] h = refl
  has_alert-select u s y m p (a ∷ table) h = ground (arith, has_alert-select u s y m p table)

  select-Distinct :
      (p : Alert X → Bool) (table : List (Alert X)) → Distinct table → Distinct (select p table)
  select-Distinct p [] h = tt
  select-Distinct p (a ∷ table) (h, hs) = elim (Bool-cases (p a)) [
    | inl e ↦ rw e (has_alert-select _ _ _ _ p table h, select-Distinct p table hs)
    | inr e ↦ rw e (select-Distinct p table hs)
  ]

  -- The row as it is read.
  abbrev pub opened : ℕ → ℕ → Alert X → Alert X
  opened id user a = if is_alert_of id user a then record a { is_read = true } else a

  has_key-opened :
      (u : ℕ) (s : Text) (y m id user : ℕ) (a : Alert X)
      → has_key u s y m (opened id user a) ≡ has_key u s y m a
  unfolding has_key
  has_key-opened u s y m id user a = elim (Bool-cases (is_alert_of id user a)) [
    | inl e ↦ rw e refl
    | inr e ↦ rw e refl
  ]

  pub has_alert-opened :
      (u : ℕ) (s : Text) (y m id user : ℕ) (table : List (Alert X))
      → has_alert u s y m (map (opened id user) table) ≡ has_alert u s y m table
  unfolding has_alert
  has_alert-opened u s y m id user [] = refl
  has_alert-opened u s y m id user (a ∷ table) =
      rw (has_key-opened u s y m id user a, has_alert-opened u s y m id user table) refl

  has_key_of-opened :
      (id user : ℕ) (a : Alert X) (table : List (Alert X))
      → has_key_of (opened id user a) table ≡ has_key_of a table
  has_key_of-opened id user a table = elim (Bool-cases (is_alert_of id user a)) [
    | inl e ↦ rw e refl
    | inr e ↦ rw e refl
  ]

  opened-Distinct :
      (id user : ℕ) (table : List (Alert X))
      → Distinct table
      → Distinct (map (opened id user) table)
  opened-Distinct id user [] h = tt
  opened-Distinct id user (a ∷ table) (h, hs) = (
    has_key_of-opened id user a (map (opened id user) table)
        ∙ has_alert-opened _ _ _ _ id user table
        ∙ h,
    opened-Distinct id user table hs,
  )

module _ {F D X : Type 0} (f : Floats F D) (content_of : DetectedShift F D → X)
    (user year month : ℕ) where
  insert_some-Distinct :
      (b : Bool) (new : Option (Alert X)) (table : List (Alert X))
      → Distinct table
      → Distinct (if b then insert_some f content_of user year month new table else table)
  insert_some-Distinct false new table h = h
  insert_some-Distinct true none table h = h
  insert_some-Distinct true (some new) table h = insert_alert-Distinct new table h

  write_alerts-Distinct :
      (d : Defaults) (shifts : List (DetectedShift F D)) (table : List (Alert X))
      → Distinct table
      → Distinct (write_alerts f content_of user year month d shifts table)
  unfolding write_alerts
  write_alerts-Distinct d [] table h = h
  write_alerts-Distinct d (s ∷ shifts) table h =
      write_alerts-Distinct (record d { first_id = suc d.first_id }) shifts _
        (insert_some-Distinct (is_alertworthy f s) (alert_of f content_of user year month d s) table
          h)

-- The calls that change the table, each with the rows that it reads.
pub data Call : Type 0 where
  detected : Defaults → BudgetReader → ℕ → ℕ → ℕ → Call
  read : ℕ → ℕ → Call
  cleared : ℕ → Call
  purged : ℕ → Call

module _ {F D X : Type 0} (q : Quotients F D) (f : Floats F D) (t : ShiftThresholds F)
    (content_of : DetectedShift F D → X) where
  unfoldable pub call : Call → List (Alert X) → List (Alert X)
  call (detected d reader user y m) table =
      detect_shift_alerts q f t content_of reader d user y m table
  call (read id user) table = (mark_read id user table).1
  call (cleared user) table = clear_all user table
  call (purged limit) table = purge_before limit table

  unfoldable pub calls : List Call → List (Alert X) → List (Alert X)
  unfolding call
  calls [] table = table
  calls (c ∷ cs) table = calls cs (call c table)

  call-Distinct : (c : Call) (table : List (Alert X)) → Distinct table → Distinct (call c table)
  unfolding call detect_shift_alerts mark_read clear_all purge_before
  call-Distinct (detected d reader user y m) table h =
      write_alerts-Distinct f content_of user y m d (month_shifts q f t content_of reader user y m)
        table h
  call-Distinct (read id user) table h = opened-Distinct id user table h
  call-Distinct (cleared user) table h = select-Distinct _ table h
  call-Distinct (purged limit) table h = select-Distinct _ table h

  -- After any calls that detect, read, clear and purge alerts, whatever transactions the detections read,
  -- no two rows of the table have the same user, subtype, year and month, if none had before.
  pub calls-Distinct :
      (cs : List Call) (table : List (Alert X)) → Distinct table → Distinct (calls cs table)
  unfolding calls
  calls-Distinct [] table h = h
  calls-Distinct (c ∷ cs) table h = calls-Distinct cs (call c table) (call-Distinct c table h)
