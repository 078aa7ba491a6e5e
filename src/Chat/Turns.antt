-- ===== src/Chat/Turns.antt =====
-- A question and its answer: app/application/chat/use_cases/chat_query.py and chat_stream.py. Times, days
-- and identifiers are given, and what other requests change during the calls of the model is a function.
-- A stream may be closed or cancelled after any number of the items that the client yields.
pub mod Bill
pub mod Own
pub mod Settled
pub mod Agree
use yomochi.Base.{
  ℕ, ◌+◌, ◌/◌, Bool, true, false, ◌&&◌, ◌||◌, not, Option, none, some, List, [], ◌∷◌, ◌++◌, take,
  length, ◌==◌, if◌then◌else◌,
}
use yomochi.Base.Result.{Result, ok, err}
use yomochi.Text.{Text, codes, is_empty}
use yomochi.Calendar.{Date}
use yomochi.Chat.{
  ChatTurn, Count, ChatError, raised, last_n, append_turn_pair, check, record_tokens,
}
use yomochi.Chat.Messages.{Json, ChatToolsRequest}
use yomochi.Chat.Service.{Service, ChatResponse, StreamUsage, Item, token, usage, Generated}
use yomochi.Chat.Client.{chat_with_tools, stream_with_tools}

-- The table of turns and the counters of tokens.
pub record ChatState : Type 0 where
  pub turns : List ChatTurn
  pub counts : List Count

pub record ChatQueryCommand : Type 0 where
  pub user_id : ℕ
  pub message : Text

-- What the clocks and the generator of identifiers give. The budget reads the day again when it counts.
pub record Moment : Type 0 where
  pub user_turn_id : ℕ
  pub assistant_id : ℕ
  pub started_at : ℕ
  pub answered_at : ℕ
  pub checked_on : Date
  pub counted_on : Date
  pub today : Text

pub record ChatQueryResult : Type 0 where
  pub turn_id : ℕ
  pub answer : Text
  pub created_at : ℕ

abbrev pub history_turns : ℕ
history_turns = 5

abbrev pub user_turn_of : ChatQueryCommand → Moment → ChatTurn
user_turn_of command m = record {
  id = m.user_turn_id;
  user_id = command.user_id;
  role = codes "user";
  content = command.message;
  chunks_used = [];
  created_at = m.started_at;
}

abbrev pub assistant_turn_of : ChatQueryCommand → Moment → Text → List Text → ChatTurn
assistant_turn_of command m answer tools_used = record {
  id = m.assistant_id;
  user_id = command.user_id;
  role = codes "assistant";
  content = answer;
  chunks_used = tools_used;
  created_at = m.answered_at;
}

-- The loop over the items: the texts, and the latest usage.
unfoldable pub full_answer : List Item → Text
full_answer [] = []
full_answer (token s ∷ items) = s ++ full_answer items
full_answer (usage u ∷ items) = full_answer items

unfoldable pub yielded : List Item → List Text
yielded [] = []
yielded (token s ∷ items) = s ∷ yielded items
yielded (usage u ∷ items) = yielded items

unfoldable pub usage_tokens : ℕ → List Item → ℕ
usage_tokens n [] = n
usage_tokens n (token s ∷ items) = usage_tokens n items
usage_tokens n (usage u ∷ items) = usage_tokens (u.prompt_tokens + u.completion_tokens) items

unfoldable pub tools_used_in : List Text → List Item → List Text
tools_used_in used [] = used
tools_used_in used (token s ∷ items) = tools_used_in used items
tools_used_in used (usage u ∷ items) = tools_used_in u.tools_used items

abbrev pub chars_in : List ChatTurn → ℕ
chars_in [] = 0
chars_in (t ∷ ts) = length t.content + chars_in ts

unfoldable pub estimate_tokens_from_text : Text → List ChatTurn → Text → ℕ
estimate_tokens_from_text message history answer =
    (length message + chars_in history + length answer) / 4 + 1

-- What is counted: an estimate where there is an answer and no usage.
unfoldable pub tokens_to_record : Text → List ChatTurn → List Item → ℕ
unfolding full_answer usage_tokens estimate_tokens_from_text is_empty
tokens_to_record message history items =
    let n = usage_tokens 0 items in
    let answer = full_answer items in
    if n == 0 && not (is_empty answer) then estimate_tokens_from_text message history answer else n

-- How a stream ends for its reader.
pub data StreamEnd (E : Type 0) : Type 0 where
  done : ℕ → ℕ → StreamEnd E
  failed : E → StreamEnd E
  closed : StreamEnd E
  refused : ChatError E → StreamEnd E

-- Which of the writes after the answer raise, and where the stream is cut, if it is.
pub record Weather : Type 0 where
  pub count_fails : Bool
  pub save_fails : Bool
  pub cut : Option ℕ

unfoldable pub received : {E : Type 0} → Option ℕ → Generated E → List Item
received none g = g.items
received (some n) g = take n g.items

-- The `finally`: the state after it, whatever ended the stream.
unfoldable pub settle :
    ChatQueryCommand → Moment → Weather → List ChatTurn → List Item → ChatState → ChatState
unfolding full_answer tools_used_in tokens_to_record is_empty
settle command m w history items s = record {
  turns =
      if is_empty (full_answer items) || w.save_fails
      then s.turns
      else append_turn_pair command.user_id (user_turn_of command m)
          (assistant_turn_of command m (full_answer items) (tools_used_in [] items)) s.turns;
  counts =
      if w.count_fails
      then s.counts
      else record_tokens command.user_id m.counted_on
          (tokens_to_record command.message history items) s.counts;
}

-- Where the pair was not saved, the time is the one of the question.
unfoldable pub created_at : Moment → Weather → List Item → ℕ
unfolding full_answer is_empty
created_at m w items =
    if is_empty (full_answer items) || w.save_fails then m.started_at else m.answered_at

unfoldable pub end_of : {E : Type 0} → Moment → Weather → Generated E → StreamEnd E
unfolding created_at
end_of m w g = elim w.cut [
  | some n ↦ closed
  | none ↦ elim g.raises [ none ↦ done m.assistant_id (created_at m w g.items) | some e ↦ failed e ]
]

-- The request to the model, from the state at the start.
abbrev pub request_of :
    {E A R : Type 0}
    → (ℕ → Text → A → Result E R)
    → ChatQueryCommand
    → Moment
    → ChatState
    → ChatToolsRequest E A R
request_of executor_of command m s = record {
  message = command.message;
  history = last_n command.user_id history_turns s.turns;
  tool_executor = executor_of command.user_id;
  today = some m.today;
}

abbrev pub answer_query :
    {E : Type 0}
    → ChatQueryCommand
    → Moment
    → ChatState
    → Result E ChatResponse
    → Result (ChatError E) ChatQueryResult × ChatState
answer_query command m s (err e) = (err (raised e), s)
answer_query command m s (ok r) = (
  ok (record { turn_id = m.assistant_id; answer = r.answer; created_at = m.answered_at }),
  record {
    turns =
        append_turn_pair command.user_id (user_turn_of command m)
          (assistant_turn_of command m r.answer r.tools_used) s.turns;
    counts =
        record_tokens command.user_id m.counted_on (r.prompt_tokens + r.completion_tokens) s.counts;
  },
)

module _ {E A R : Type 0} (json : Json A R) (service : Service E) (max_tool_iterations limit : ℕ)
    (executor_of : ℕ → Text → A → Result E R) (meanwhile : ChatState → ChatState) where
  unfoldable pub chat_query :
      ChatQueryCommand → Moment → ChatState → Result (ChatError E) ChatQueryResult × ChatState
  chat_query command m s = elim (check {E = E} limit command.user_id m.checked_on s.counts) [
    | err e ↦ (err e, s)
    | ok _ ↦
        answer_query command m (meanwhile s)
          (chat_with_tools json service max_tool_iterations (request_of executor_of command m s))
  ]

  -- The texts that the reader gets, the end, and the state after it.
  unfoldable pub chat_stream :
      ChatQueryCommand → Moment → Weather → ChatState → List Text × StreamEnd E × ChatState
  unfolding received
  chat_stream command m w s = elim (check {E = E} limit command.user_id m.checked_on s.counts) [
    | err e ↦ ([], refused e, s)
    | ok _ ↦
        let g =
          stream_with_tools json service max_tool_iterations (request_of executor_of command m s) in
        let items = received w.cut g in
        let history = last_n command.user_id history_turns s.turns in
        (yielded items, end_of m w g, settle command m w history items (meanwhile s))
  ]
