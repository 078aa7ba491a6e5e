-- ===== src/Chat/History.antt =====
-- The list of a user's turns, a page at a time: app/application/chat/use_cases/list_chat_history.py and
-- `list_for_user` of app/outbound/adapters/sqla/chat/chat_history_store.py. The text of a cursor is a
-- parameter.
pub mod Pages
use yomochi.Base.{ℕ, Option, List, ◌==◌}
use yomochi.Base.Result.{Result, ok, ◌>>=◌}
use yomochi.Text.{Text}
use yomochi.Keyset.{cursor_after, read_cursor}
use yomochi.Keyset.Recent.{recent}
use yomochi.Chat.{ChatTurn}

pub record ListChatHistoryQuery : Type 0 where
  pub user_id : ℕ
  pub limit : ℕ
  pub cursor : Option Text

abbrev pub key_of : ChatTurn → ℕ × ℕ
key_of t = (t.created_at, t.id)

unfoldable pub list_for_user : ℕ → ℕ → Option (ℕ × ℕ) → List ChatTurn → List ChatTurn
unfolding recent
list_for_user user limit cursor table =
    recent (λ t. t.created_at) (λ t. t.id) (λ t. t.user_id == user) limit cursor table

module _ {E : Type 0} (encode : ℕ × ℕ → Text) (decode : Text → Result E (ℕ × ℕ)) where
  unfoldable pub list_chat_history :
      ListChatHistoryQuery → List ChatTurn → Result E (List ChatTurn × Option Text)
  unfolding list_for_user read_cursor cursor_after
  list_chat_history q table = do
    cursor ← read_cursor decode q.cursor
    let turns = list_for_user q.user_id q.limit cursor table
    ok (turns, cursor_after (λ t. encode (key_of t)) q.limit turns)
