-- ===== src/Alerts/Rows.antt =====
-- One row in the table of alerts: `ON CONFLICT … DO NOTHING` of
-- app/outbound/adapters/sqla/alerts/alert_writer.py, and the rows that stay.
use yomochi.Base.{
  ℕ, ◌≡◌, refl, sym, ap, ◌∙◌, ◌⊎◌, inl, inr, true, false, not, List, [], ◌∷◌, ◌++◌, append-nil,
  ◌==◌, arith, Bool-cases,
}
use yomochi.Text.{Text}
use yomochi.Alerts.{Alert, has_key, insert_alert, clear_all}
use yomochi.Alerts.Keys.{has_alert, has_key_of, has_key_self}

module _ {X : Type 0} where
  pub kept-insert_alert :
      (u : ℕ) (s : Text) (y m : ℕ) (new : Alert X) (table : List (Alert X))
      → has_alert u s y m table ≡ true
      → has_alert u s y m (insert_alert new table) ≡ true
  unfolding has_alert insert_alert
  kept-insert_alert u s y m new [] h = cc
  kept-insert_alert u s y m new (a ∷ table) h = ground (arith, kept-insert_alert u s y m new table)

  has_alert-here :
      (u : ℕ) (s : Text) (y m : ℕ) (a : Alert X) (table : List (Alert X))
      → has_key u s y m a ≡ true
      → has_alert u s y m (a ∷ table) ≡ true
  unfolding has_alert
  has_alert-here u s y m a table e = rw e refl

  has_alert-later :
      (u : ℕ) (s : Text) (y m : ℕ) (a : Alert X) (table : List (Alert X))
      → has_key u s y m a ≡ false
      → has_alert u s y m (a ∷ table) ≡ has_alert u s y m table
  unfolding has_alert
  has_alert-later u s y m a table e = rw e refl

  pub has_key_of-insert_alert :
      (new : Alert X) (table : List (Alert X)) → has_key_of new (insert_alert new table) ≡ true
  unfolding insert_alert
  has_key_of-insert_alert new [] = has_alert-here _ _ _ _ new [] (has_key_self new)
  has_key_of-insert_alert new (a ∷ table) =
      elim (Bool-cases (has_key new.user_id new.subtype new.period_year new.period_month a)) [
        | inl e ↦ rw e (has_alert-here _ _ _ _ a table e)
        | inr e ↦ rw e (
            has_alert-later _ _ _ _ a (insert_alert new table) e
            ∙ has_key_of-insert_alert new table)
      ]

  pub insert_alert_known :
      (new : Alert X) (table : List (Alert X))
      → has_key_of new table ≡ true
      → insert_alert new table ≡ table
  unfolding has_alert insert_alert
  insert_alert_known new [] h = cc
  insert_alert_known new (a ∷ table) h =
      elim (Bool-cases (has_key new.user_id new.subtype new.period_year new.period_month a)) [
        | inl e ↦ rw e refl
        | inr e ↦ rw e (
            ap (λ r. a ∷ r)
              (insert_alert_known new table (sym (has_alert-later _ _ _ _ a table e) ∙ h)))
      ]

  -- The table is followed by the row, or as it was.
  pub insert_alert-append :
      (new : Alert X) (table : List (Alert X))
      → (insert_alert new table ≡ table ++ []) ⊎ (insert_alert new table ≡ table ++ (new ∷ []))
  unfolding insert_alert
  insert_alert-append new [] = inr refl
  insert_alert-append new (a ∷ table) =
      elim (Bool-cases (has_key new.user_id new.subtype new.period_year new.period_month a)) [
        | inl e ↦ inl (rw e (ap (λ r. a ∷ r) (sym (append-nil table))))
        | inr e ↦ elim (insert_alert-append new table) [
          | inl k ↦ inl (rw e (ap (λ r. a ∷ r) k))
          | inr k ↦ inr (rw e (ap (λ r. a ∷ r) k))
        ]
      ]

  pub kept-clear_all :
      (u : ℕ) (s : Text) (y m other : ℕ) (table : List (Alert X))
      → not (other == u) ≡ true
      → has_alert u s y m table ≡ true
      → has_alert u s y m (clear_all other table) ≡ true
  unfolding has_alert has_key clear_all
  kept-clear_all u s y m other [] apart h = cc
  kept-clear_all u s y m other (a ∷ table) apart h =
      ground (arith, kept-clear_all u s y m other table)
