-- ===== src/Chat/Turns/Settled.antt =====
-- What a streamed answer leaves behind: app/application/chat/use_cases/chat_stream.py.
use yomochi.Base.{
  ℕ, zero, suc, ◌+◌, ◌≤◌, ◌<◌, ◌≡◌, ◌≢◌, refl, sym, ap, inl, inr, false, List, [], ◌∷◌, ◌++◌, arith,
  Bool-cases, lt→leb-false,
}
use yomochi.Base.Result.{Result, ok}
use yomochi.Text.{Text, is_empty}
use yomochi.Calendar.{Date}
use yomochi.Chat.{
  ChatTurn, Count, is_count_of, current, incrby, check, record_tokens, last_n, append_turn_pair,
}
use yomochi.Chat.Messages.{Json}
use yomochi.Chat.Service.{Service, Item, token, usage}
use yomochi.Chat.Client.{stream_with_tools}
use yomochi.Chat.Turns.{
  ChatState, ChatQueryCommand, Moment, Weather, user_turn_of, assistant_turn_of, full_answer,
  yielded, tokens_to_record, estimate_tokens_from_text, tools_used_in, received, request_of,
  history_turns, settle, chat_stream,
}

-- The texts that a reader gets, put together.
abbrev pub joined : List Text → Text
joined [] = []
joined (s ∷ ss) = s ++ joined ss

pub full_answer-joined : (items : List Item) → full_answer items ≡ joined (yielded items)
unfolding full_answer yielded
full_answer-joined [] = refl
full_answer-joined (token s ∷ items) = ap (λ t. s ++ t) (full_answer-joined items)
full_answer-joined (usage u ∷ items) = full_answer-joined items

current-incrby :
    (user : ℕ) (day : Date) (n : ℕ) (counts : List Count)
    → current user day (incrby user day n counts) ≡ current user day counts + n
unfolding current incrby is_count_of
current-incrby user day n [] = ground arith
current-incrby user day n (c ∷ cs) = elim (Bool-cases (is_count_of user day c)) [
  | inl e ↦ rw (e, e) refl
  | inr e ↦ rw (e, e) (current-incrby user day n cs)
]

pub current-record_tokens :
    (user : ℕ) (day : Date) (n : ℕ) (counts : List Count)
    → current user day (record_tokens user day n counts) ≡ current user day counts + n
unfolding record_tokens
current-record_tokens user day zero counts = omega arith
current-record_tokens user day (suc n) counts = current-incrby user day (suc n) counts

pub check-ok :
    {E : Type 0} (limit user : ℕ) (day : Date) (counts : List Count)
    → current user day counts < limit
    → check {E = E} limit user day counts ≡ ok tt
unfolding check
check-ok limit user day counts h = rw (lt→leb-false limit (current user day counts) h) refl

pub is_empty-false : (s : Text) → s ≢ [] → is_empty s ≡ false
unfolding is_empty
is_empty-false [] h = absurd (h refl)
is_empty-false (c ∷ s) h = refl

counted :
    (message : Text) (history : List ChatTurn) (items : List Item)
    → full_answer items ≢ []
    → 1 ≤ tokens_to_record message history items
unfolding tokens_to_record estimate_tokens_from_text
counted message history items h =
    let e = is_empty-false (full_answer items) h in rw e (ground arith)

-- What a settled answer is, by the items that were received.
abbrev pub IsSettled : ChatQueryCommand → Moment → Text → ChatState → ChatState → Type 0
IsSettled command m text base after =
    (text ≡ [] → after.turns ≡ base.turns)
    × (text ≢ []
        → (tools : List Text) × (after.turns
            ≡ append_turn_pair command.user_id (user_turn_of command m)
                (assistant_turn_of command m text tools) base.turns)
          × (current command.user_id m.counted_on base.counts + 1
              ≤ current command.user_id m.counted_on after.counts))

settle-IsSettled :
    (command : ChatQueryCommand) (m : Moment) (w : Weather) (history : List ChatTurn)
    (items : List Item) (base : ChatState)
    → w.count_fails ≡ false
    → w.save_fails ≡ false
    → IsSettled command m (full_answer items) base (settle command m w history items base)
unfolding settle is_empty
settle-IsSettled command m w history items base counts_ok saves_ok = (
  λ e. rw (e, is_empty) refl,
  λ some_text.
      let e = is_empty-false (full_answer items) some_text in
      let n = tokens_to_record command.message history items in
      (
        tools_used_in [] items,
        rw (e, saves_ok) refl,
        rw counts_ok (
            omega (
              arith,
              counted command.message history items some_text,
              current-record_tokens command.user_id m.counted_on n base.counts,
            )),
      ),
)

module _ {E A R : Type 0} (json : Json A R) (service : Service E) (iterations limit : ℕ)
    (executor_of : ℕ → Text → A → Result E R) (meanwhile : ChatState → ChatState) where
  -- A question within the budget whose writes do not raise, wherever its stream is cut and whether the
  -- service fails or not: when no text has reached the reader, no turn is kept. When some has, the
  -- question and exactly the text that has reached the reader are kept as the pair of turns, and at least
  -- one token is counted.
  pub chat_stream_settles :
      (command : ChatQueryCommand) (m : Moment) (w : Weather) (s : ChatState)
      → current command.user_id m.checked_on s.counts < limit
      → w.count_fails ≡ false
      → w.save_fails ≡ false
      → let out = chat_stream json service iterations limit executor_of meanwhile command m w s in
        IsSettled command m (joined out.0) (meanwhile s) out.2
  unfolding chat_stream
  chat_stream_settles command m w s within counts_ok saves_ok =
      let passes = check-ok {E = E} limit command.user_id m.checked_on s.counts within in
      let items =
        received w.cut
          (stream_with_tools json service iterations (request_of executor_of command m s)) in
      rw (passes, chat_stream, sym (full_answer-joined items))
        (settle-IsSettled command m w (last_n command.user_id history_turns s.turns) items
          (meanwhile s) counts_ok saves_ok)
