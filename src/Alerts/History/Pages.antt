-- ===== src/Alerts/History/Pages.antt =====
-- The pages of the alerts, and the count that each of them carries.
use yomochi.Base.{
  ℕ, suc, ◌≤◌, ◌<◌, ◌≡◌, refl, sym, ap, ◌∙◌, inl, inr, Bool, not, Option, some, none, List, [], ◌∷◌,
  select, length, ◌==◌, Bool-cases,
}
use yomochi.Base.Result.{Result, ok, ◌>>=◌, >>=-ok, ok_inj}
use yomochi.Text.{Text}
use yomochi.Keyset.{follow_pages, insert_desc, order_desc, read_cursor}
use yomochi.Keyset.Lex.{by_time, by_time-IsStrict}
use yomochi.Keyset.Order.{select-order_desc, select_both, select-Distinct}
use yomochi.Keyset.Pages.{Codec}
use yomochi.Keyset.Recent.{UniqueIds, UniqueIds-Distinct, whole, follow_pages-whole}
use yomochi.Alerts.{Alert, unread_count}
use yomochi.Alerts.History.{ListAlertsResult, list_for_user, list_alerts}

module _ {X : Type 0} where
  -- The user's alerts, newest first.
  abbrev pub alerts_of : ℕ → List (Alert X) → List (Alert X)
  alerts_of user table = whole (λ a. a.created_at) (λ a. a.id_) (λ a. a.user_id == user) table

  length-insert_desc :
      (older : Alert X → Alert X → Bool) (a : Alert X) (ts : List (Alert X))
      → length (insert_desc older a ts) ≡ suc (length ts)
  unfolding insert_desc
  length-insert_desc older a [] = refl
  length-insert_desc older a (x ∷ xs) = elim (Bool-cases (older a x)) [
    | inl e ↦ rw e (ap suc (length-insert_desc older a xs))
    | inr e ↦ rw e refl
  ]

  length-order_desc :
      (older : Alert X → Alert X → Bool) (ts : List (Alert X))
      → length (order_desc older ts) ≡ length ts
  unfolding order_desc
  length-order_desc older [] = refl
  length-order_desc older (t ∷ ts) =
      length-insert_desc older t (order_desc older ts) ∙ ap suc (length-order_desc older ts)

  unread_count-alerts_of :
      (user : ℕ) (table : List (Alert X))
      → UniqueIds (λ a. a.created_at) (λ a. a.id_) table
      → unread_count user table ≡ length (select (λ a. not a.is_read) (alerts_of user table))
  unfolding unread_count
  unread_count-alerts_of user table u =
      let older = by_time {A = Alert X} (λ a. a.created_at) (λ a. a.id_) in
      let own = λ (a : Alert X). a.user_id == user in
      let unread = λ (a : Alert X). not a.is_read in
      ap length (select_both own unread table)
      ∙ sym (length-order_desc older (select unread (select own table)))
      ∙ ap length (
          select-order_desc older (by_time-IsStrict (λ a. a.created_at) (λ a. a.id_)) unread
            (select own table)
            (select-Distinct older own table
              (UniqueIds-Distinct (λ a. a.created_at) (λ a. a.id_) table u)))

  module _ {E : Type 0} (encode : ℕ × ℕ → Text) (decode : Text → Result E (ℕ × ℕ)) where
    -- What a client keeps of an answer.
    unfoldable pub pages_of :
        ℕ → ℕ → List (Alert X) → Option Text → Result E (List (Alert X) × Option Text)
    unfolding list_alerts
    pages_of user limit table c =
        list_alerts encode decode (record { user_id = user; limit = limit; cursor = c }) table
        >>= λ r. ok (r.alerts, r.next_cursor)

    -- A client that follows the cursors of the list of alerts, with pages of at least one alert, in a table
    -- that does not change and has each identifier once, reads all alerts of the user, newest first, with
    -- one request more than there are of them; and every answer on the way says how many of all of these
    -- are unread, not of its page only. A cursor's text is not empty and is read back as the cursor.
    pub list_alerts-alerts_of :
        Codec encode decode
        → (user limit n : ℕ) (table : List (Alert X))
        → UniqueIds (λ a. a.created_at) (λ a. a.id_) table
        → 1 ≤ limit
        → length (alerts_of user table) < n
        → (follow_pages (pages_of user limit table) n none ≡ ok (some (alerts_of user table)))
          × ((c : Option Text) (r : ListAlertsResult X)
              → list_alerts encode decode
                  (record { user_id = user; limit = limit; cursor = c })
                  table
                ≡ ok r
              → r.unread_count ≡ length (select (λ a. not a.is_read) (alerts_of user table)))
    unfolding pages_of list_alerts list_for_user
    list_alerts-alerts_of codec user limit n table u pos fuel = (
      follow_pages-whole (λ a. a.created_at) (λ a. a.id_) encode decode _ (λ a. a.user_id == user)
          limit table (λ c key e. rw e refl) codec u pos n fuel,
      λ c r e.
          let (k, answer, read) = >>=-ok _ (read_cursor decode c) e in
          sym (ap (λ (x : ListAlertsResult X). x.unread_count) (ok_inj answer))
          ∙ unread_count-alerts_of user table u,
    )
