-- ===== src/Alerts/Known.antt =====
-- The shifts whose row is in the table: `write_shift_alerts` of
-- app/outbound/adapters/sqla/alerts/alert_writer.py.
use yomochi.Base.{
  ℕ, suc, ◌≡◌, refl, ap, ◌∙◌, inl, inr, Bool, true, false, Option, none, some, List, [], ◌∷◌, All,
  if◌then◌else◌, Option-cases,
}
use yomochi.Text.{Text}
use yomochi.Spending.Shifts.{DetectedShift, Floats, is_alertworthy}
use yomochi.Alerts.{
  Alert, AlertType, subtype_of, Defaults, insert_some, alert_type_of, alert_of, write_alerts,
}
use yomochi.Alerts.Keys.{has_alert, has_key_of}
use yomochi.Alerts.Rows.{kept-insert_alert, has_key_of-insert_alert, insert_alert_known}

-- A shift that makes a row at most finds one with its key.
abbrev pub IsKnown : {X : Type 0} → Bool → Option (Alert X) → List (Alert X) → Type 0
IsKnown false new table = Unit
IsKnown true none table = Unit
IsKnown true (some new) table = has_key_of new table ≡ true

module _ {F D X : Type 0} (f : Floats F D) (content_of : DetectedShift F D → X)
    (user year month : ℕ) where
  abbrev pub next : Bool → Option (Alert X) → List (Alert X) → List (Alert X)
  next b new table = if b then insert_some f content_of user year month new table else table

  has_alert-next :
      (u : ℕ) (s : Text) (y m : ℕ) (b : Bool) (new : Option (Alert X)) (table : List (Alert X))
      → has_alert u s y m table ≡ true
      → has_alert u s y m (next b new table) ≡ true
  has_alert-next u s y m false new table h = h
  has_alert-next u s y m true none table h = h
  has_alert-next u s y m true (some new) table h = kept-insert_alert u s y m new table h

  next-IsKnown :
      (b : Bool) (new : Option (Alert X)) (table : List (Alert X))
      → IsKnown b new (next b new table)
  next-IsKnown false new table = tt
  next-IsKnown true none table = tt
  next-IsKnown true (some new) table = has_key_of-insert_alert new table

  next_known :
      (b : Bool) (new : Option (Alert X)) (table : List (Alert X))
      → IsKnown b new table
      → next b new table ≡ table
  next_known false new table h = refl
  next_known true none table h = refl
  next_known true (some new) table h = insert_alert_known new table h

  abbrev pub row : Defaults → DetectedShift F D → AlertType → Alert X
  row d s kind = record {
    id_ = d.first_id;
    user_id = user;
    alert_type = kind;
    subtype = subtype_of s;
    content = content_of s;
    period_year = year;
    period_month = month;
    is_read = false;
    created_at = d.now;
  }

  pub alert_of-none :
      (d : Defaults) (s : DetectedShift F D)
      → alert_type_of s.type_ ≡ none
      → alert_of f content_of user year month d s ≡ none
  unfolding alert_of
  alert_of-none d s k = rw (k, alert_of) refl

  pub alert_of-some :
      (d : Defaults) (s : DetectedShift F D) (kind : AlertType)
      → alert_type_of s.type_ ≡ some kind
      → alert_of f content_of user year month d s ≡ some (row d s kind)
  unfolding alert_of
  alert_of-some d s kind k = rw (k, alert_of) refl

  -- The default columns are no part of the key.
  IsKnown-Defaults :
      (b : Bool) (d e : Defaults) (s : DetectedShift F D) (table : List (Alert X))
      → IsKnown b (alert_of f content_of user year month d s) table
      → IsKnown b (alert_of f content_of user year month e s) table
  IsKnown-Defaults false d e s table = λ h. tt
  IsKnown-Defaults true d e s table = elim (Option-cases (alert_type_of s.type_)) [
    | inl k ↦ rw (alert_of-none e s k) (λ _. tt)
    | inr (kind, k) ↦ rw (alert_of-some d s kind k, alert_of-some e s kind k) (λ h. h)
  ]

  next_shift : Defaults → DetectedShift F D → List (Alert X) → List (Alert X)
  next_shift d s table = next (is_alertworthy f s) (alert_of f content_of user year month d s) table

  abbrev pub Stands : DetectedShift F D → List (Alert X) → Type 0
  Stands s table =
      IsKnown (is_alertworthy f s)
        (alert_of f content_of user year month (record { first_id = 0; now = 0 }) s) table

  pub has_alert-write_alerts :
      (u : ℕ) (s : Text) (y m : ℕ) (d : Defaults) (shifts : List (DetectedShift F D))
      (table : List (Alert X))
      → has_alert u s y m table ≡ true
      → has_alert u s y m (write_alerts f content_of user year month d shifts table) ≡ true
  unfolding write_alerts
  has_alert-write_alerts u s y m d [] table h = h
  has_alert-write_alerts u s y m d (x ∷ shifts) table h =
      has_alert-write_alerts u s y m (record d { first_id = suc d.first_id }) shifts
        (next (is_alertworthy f x) (alert_of f content_of user year month d x) table)
        (has_alert-next u s y m (is_alertworthy f x) _ table h)

  -- Where the keys of one table are in another.
  pub IsKnown-mono :
      (b : Bool) (d : Defaults) (s : DetectedShift F D) (table other : List (Alert X))
      → ((sub : Text)
          → has_alert user sub year month table ≡ true
          → has_alert user sub year month other ≡ true)
      → IsKnown b (alert_of f content_of user year month d s) table
      → IsKnown b (alert_of f content_of user year month d s) other
  IsKnown-mono false d s table other keep = λ h. tt
  IsKnown-mono true d s table other keep = elim (Option-cases (alert_type_of s.type_)) [
    | inl k ↦ rw (alert_of-none d s k) (λ _. tt)
    | inr (kind, k) ↦ rw (alert_of-some d s kind k) (λ h. keep _ h)
  ]

  -- After the rows are written, each of them is known.
  pub write_alerts-Stands :
      (d : Defaults) (shifts : List (DetectedShift F D)) (table : List (Alert X))
      → All (λ s. Stands s (write_alerts f content_of user year month d shifts table)) shifts
  unfolding write_alerts
  write_alerts-Stands d [] table = tt
  write_alerts-Stands d (s ∷ shifts) table =
      let after = next (is_alertworthy f s) (alert_of f content_of user year month d s) table in
      (
        IsKnown-mono _ (record { first_id = 0; now = 0 }) s after _
            (λ sub h.
              has_alert-write_alerts user sub year month (record d { first_id = suc d.first_id })
                shifts after h)
            (IsKnown-Defaults _ d (record { first_id = 0; now = 0 }) s after
              (next-IsKnown (is_alertworthy f s) _ table)),
        write_alerts-Stands (record d { first_id = suc d.first_id }) shifts after,
      )

  -- Shifts that are known change nothing.
  pub write_alerts_idle :
      (d : Defaults) (shifts : List (DetectedShift F D)) (table : List (Alert X))
      → All (λ s. Stands s table) shifts
      → write_alerts f content_of user year month d shifts table ≡ table
  unfolding write_alerts
  write_alerts_idle d [] table h = refl
  write_alerts_idle d (s ∷ shifts) table (h, hs) =
      ap (write_alerts f content_of user year month (record d { first_id = suc d.first_id }) shifts)
        (next_known (is_alertworthy f s) _ table
          (IsKnown-Defaults _ (record { first_id = 0; now = 0 }) d s table h))
      ∙ write_alerts_idle (record d { first_id = suc d.first_id }) shifts table hs
