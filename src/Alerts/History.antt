-- ===== src/Alerts/History.antt =====
-- The list of a user's alerts, a page at a time: app/application/alerts/use_cases/list_alerts.py and
-- `list_for_user` of app/outbound/adapters/sqla/alerts/alert_repository.py. The text of a cursor is a
-- parameter. The condition compares the texts of identifiers, which are in the order of the identifiers.
pub mod Pages
use yomochi.Base.{ℕ, Option, List, ◌==◌, if◌then◌else◌}
use yomochi.Base.Result.{Result, ok, err, ◌>>=◌}
use yomochi.Text.{Text}
use yomochi.Keyset.{cursor_after, read_cursor}
use yomochi.Keyset.Recent.{recent}
use yomochi.Alerts.{Alert, mark_read, unread_count}

pub record ListAlertsQuery : Type 0 where
  pub user_id : ℕ
  pub limit : ℕ
  pub cursor : Option Text

pub record ListAlertsResult (X : Type 0) : Type 0 where
  pub alerts : List (Alert X)
  pub next_cursor : Option Text
  pub unread_count : ℕ

module _ {X : Type 0} where
  abbrev pub key_of : Alert X → ℕ × ℕ
  key_of a = (a.created_at, a.id_)

  unfoldable pub list_for_user : ℕ → ℕ → Option (ℕ × ℕ) → List (Alert X) → List (Alert X)
  unfolding recent
  list_for_user user limit cursor table =
      recent (λ a. a.created_at) (λ a. a.id_) (λ a. a.user_id == user) limit cursor table

  module _ {E : Type 0} (encode : ℕ × ℕ → Text) (decode : Text → Result E (ℕ × ℕ)) where
    -- An empty page has no last row, so that `limit > 0` makes no difference.
    unfoldable pub list_alerts : ListAlertsQuery → List (Alert X) → Result E (ListAlertsResult X)
    unfolding list_for_user read_cursor cursor_after yomochi.Alerts.unread_count
    list_alerts q table = do
      cursor ← read_cursor decode q.cursor
      let alerts = list_for_user q.user_id q.limit cursor table
      ok (record {
        alerts = alerts;
        next_cursor = cursor_after (λ a. encode (key_of a)) q.limit alerts;
        unread_count = unread_count q.user_id table;
      })
