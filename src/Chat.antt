-- ===== src/Chat.antt =====
-- The chat with a user's data: the turns of app/application/chat/ports/chat_history_store.py, their
-- table (app/outbound/adapters/sqla/chat/chat_history_store.py) and the daily budget of tokens
-- (app/outbound/adapters/redis/chat_token_budget.py). A time is a number. The counter of a day outlives
-- the day, so its expiry does not show.
pub mod Tools
pub mod Messages
pub mod Service
pub mod Client
pub mod Turns
pub mod Memory
pub mod History
use yomochi.Base.{
  ℕ, zero, suc, ◌+◌, Bool, true, false, ◌&&◌, ◌||◌, Option, none, some, List, [], ◌∷◌, ◌++◌, select,
  take, ltb, leb, ◌==◌, if◌then◌else◌,
}
use mathlib.Core.List.{reverse}
use yomochi.Base.Result.{Result, ok, err}
use yomochi.Text.{Text}
use yomochi.Calendar.{Date}
use yomochi.Keyset.{order_desc}

-- The tools of a turn are its `chunks_used`, by their names.
pub record ChatTurn : Type 0 where
  pub id : ℕ
  pub user_id : ℕ
  pub role : Text
  pub content : Text
  pub chunks_used : List Text
  pub created_at : ℕ

-- The order by time, then by identifier.
unfoldable pub is_older : ChatTurn → ChatTurn → Bool
is_older s t = ltb s.created_at t.created_at || (s.created_at == t.created_at && ltb s.id t.id)

-- `ORDER BY created_at DESC, id DESC`.
unfoldable pub newest_first : List ChatTurn → List ChatTurn
unfolding is_older order_desc
newest_first = order_desc is_older

abbrev pub turns_of : ℕ → List ChatTurn → List ChatTurn
turns_of user = select (λ t. t.user_id == user)

unfoldable pub last_n : ℕ → ℕ → List ChatTurn → List ChatTurn
unfolding newest_first
last_n user n table = reverse (take n (newest_first (turns_of user table)))

-- `save_turns`: one row after the other. The owner that is written is the argument.
unfoldable pub save_turns : ℕ → List ChatTurn → List ChatTurn → List ChatTurn
save_turns user [] table = table
save_turns user (t ∷ ts) table = save_turns user ts (table ++ (record t { user_id = user } ∷ []))

unfoldable pub append_turn_pair : ℕ → ChatTurn → ChatTurn → List ChatTurn → List ChatTurn
unfolding save_turns
append_turn_pair user user_turn assistant_turn table =
    save_turns user (user_turn ∷ assistant_turn ∷ []) table

unfoldable pub clear_all : ℕ → List ChatTurn → List ChatTurn
clear_all user = select (λ t. if t.user_id == user then false else true)

-- The key of a user's counter of a day, and its value.
pub record Count : Type 0 where
  pub user_id : ℕ
  pub day : Date
  pub tokens : ℕ

unfoldable pub is_count_of : ℕ → Date → Count → Bool
is_count_of user today c =
    c.user_id == user
    && (c.day.year == today.year && (c.day.month == today.month && c.day.day == today.day))

-- `int(raw) if raw else 0`.
unfoldable pub current : ℕ → Date → List Count → ℕ
unfolding is_count_of
current user today [] = 0
current user today (c ∷ cs) = if is_count_of user today c then c.tokens else current user today cs

-- `incrby`.
unfoldable pub incrby : ℕ → Date → ℕ → List Count → List Count
unfolding is_count_of
incrby user today n [] = record { user_id = user; day = today; tokens = n } ∷ []
incrby user today n (c ∷ cs) =
    let rest = incrby user today n cs in
    if is_count_of user today c then record c { tokens = c.tokens + n } ∷ cs else c ∷ rest

-- What a request raises: over the budget, or what the client or the storage raises.
pub data ChatError (E : Type 0) : Type 0 where
  budget_exceeded : ℕ → ℕ → ChatError E
  raised : E → ChatError E

unfoldable pub check : {E : Type 0} → ℕ → ℕ → Date → List Count → Result (ChatError E) (Unit {0})
unfolding current
check limit user today counts =
    let n = current user today counts in
    if leb limit n then err (budget_exceeded n limit) else ok tt

unfoldable pub record_tokens : ℕ → Date → ℕ → List Count → List Count
unfolding incrby
record_tokens user today zero counts = counts
record_tokens user today (suc n) counts = incrby user today (suc n) counts
