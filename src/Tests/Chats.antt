-- ===== src/Tests/Chats.antt =====
-- The theorems on the chat at one conversation.
use yomochi.Base.{
  ℕ, All, ◌<◌, ◌≤◌, ◌≡◌, ◌≢◌, refl, Bool, true, false, some, List, [], ◌∷◌, ◌++◌, arith,
  if◌then◌else◌,
}
use yomochi.Base.Result.{ok, err}
use yomochi.Text.{Text, codes}
use yomochi.Calendar.{date}
use yomochi.Chat.{
  ChatTurn, turns_of, last_n, append_turn_pair, check, is_older, current, record_tokens,
}
use yomochi.Chat.Tools.{Payload, execute}
use yomochi.Chat.Messages.{
  build_tools_messages, Message, plain, calls, answered, ChatToolsRequest, execute_tool_round,
}
use yomochi.Chat.Service.{ChatResponse, Service, tool_events, stream_call, assembled}
use yomochi.Chat.Client.{
  round_tool_calls, prompt_in, completion_in, tokens_in, after_answer, chat_with_tools,
  stream_with_tools,
}
use yomochi.Chat.Client.Paired.{Paired, requests-Paired}
use yomochi.Chat.Memory.{last_n-append_turn_pair}
use yomochi.Chat.Turns.Settled.{joined, IsSettled, chat_stream_settles}
use yomochi.Chat.Turns.Own.{own_data_only}
use yomochi.Chat.Turns.Agree.{SameAnswer, StreamsAlike, text_before_calls}
use yomochi.Chat.Turns.Agree.UseCases.{early_text, chat_stream-chat_query}
use yomochi.Chat.Turns.{answer_query, full_answer, Weather, chat_query, chat_stream, done}
use yomochi.Tests.Conversation.{
  json, values, tools, other_tools, asks, whole, parts, service, question, moment, nothing, fair,
  of_tools, reply, remembered,
}

asked :
    chat_query json service 3 1000 of_tools (λ s. s) question moment nothing
    ≡ (ok reply, remembered)
unfolding chat_query check chat_with_tools last_n after_answer execute_tool_round assembled execute
    append_turn_pair record_tokens
asked = refl

parts_alike : (b : Bool) → SameAnswer (whole b) (parts b) (tool_events (parts b))
unfolding tool_events full_answer round_tool_calls tokens_in prompt_in completion_in
parts_alike true = record {
  response = _;
  is_whole = refl;
  completes = refl;
  same_text = refl;
  same_calls = refl;
  same_prompt = refl;
  same_completion = refl;
}
parts_alike false = record {
  response = _;
  is_whole = refl;
  completes = refl;
  same_text = refl;
  same_calls = refl;
  same_prompt = refl;
  same_completion = refl;
}

last_part_alike : SameAnswer (whole false) (parts false) (stream_call (parts false))
unfolding stream_call full_answer round_tool_calls tokens_in prompt_in completion_in
last_part_alike = record {
  response = _;
  is_whole = refl;
  completes = refl;
  same_text = refl;
  same_calls = refl;
  same_prompt = refl;
  same_completion = refl;
}

parts_paid : (b : Bool) → 1 ≤ prompt_in (tool_events (parts b))
unfolding tool_events prompt_in
parts_paid true = omega arith
parts_paid false = omega arith

service_alike : StreamsAlike service
service_alike = record {
  rounds_alike = λ ms. parts_alike (asks ms);
  paid = λ ms. parts_paid (asks ms);
  last_alike = λ ms. last_part_alike;
}

chat_stream-chat_query_example :
    let out = chat_stream json service 3 1000 of_tools (λ s. s) question moment fair nothing in
    let early =
      early_text json service service_alike 3 1000 of_tools (λ s. s) question moment nothing in
    (joined out.0 ≡ early ++ codes "Food")
    × (out.1 ≡ done 32 105)
    × (r : ChatResponse) × (answer_query {E = ℕ} question moment nothing (ok r)
        ≡ (ok reply, remembered))
    × (out.2
        ≡ (answer_query {E = ℕ} question moment nothing
            (ok (record r { answer = early ++ r.answer }))).1)
chat_stream-chat_query_example =
    chat_stream-chat_query json service service_alike 3 1000 of_tools (λ s. s) question moment
      nothing remembered reply asked (λ e. cc)

-- The text that the reader gets before the tool is called.
waits :
    early_text json service service_alike 3 1000 of_tools (λ s. s) question moment nothing
    ≡ codes "Wait: "
unfolding text_before_calls assembled execute_tool_round execute build_tools_messages last_n
waits = refl

-- Cut after the text and the usage of the tool round and one text.
abbrev left_early : Weather
left_early = record { count_fails = false; save_fails = false; cut = some 3 }

none_yet : current 7 (date 2026 3 4) [] < 1000
unfolding current
none_yet = omega arith

chat_stream_settles_example :
    let out =
      chat_stream json service 3 1000 of_tools (λ s. s) question moment left_early nothing in
    IsSettled question moment (joined out.0) nothing out.2
chat_stream_settles_example =
    chat_stream_settles json service 3 1000 of_tools (λ s. s) question moment left_early nothing
      none_yet refl refl

abbrev request : ChatToolsRequest ℕ Text (Payload ℕ)
request = record {
  message = codes "What do I buy?";
  history = [];
  tool_executor = of_tools 7;
  today = some (codes "2026-03-04");
}

-- It fails on messages that begin with the answer of a tool.
abbrev begins_answered : List Message → Bool
begins_answered [] = false
begins_answered (plain role s ∷ ms) = false
begins_answered (calls ss ∷ ms) = false
begins_answered (answered id s ∷ ms) = true

abbrev strict_service : Service ℕ
strict_service = record service {
  create = λ offered ms. if begins_answered ms then err 400 else service.create offered ms;
}

alike_on_pairs :
    (offered : Bool) (ms : List Message)
    → Paired [] ms
    → service.create offered ms ≡ strict_service.create offered ms
alike_on_pairs offered [] h = refl
alike_on_pairs offered (plain role s ∷ ms) h = refl
alike_on_pairs offered (calls ss ∷ ms) h = refl
alike_on_pairs offered (answered id s ∷ ms) h = absurd h

requests-Paired_example :
    (chat_with_tools json service 3 request ≡ chat_with_tools json strict_service 3 request)
    × (stream_with_tools json service 3 request ≡ stream_with_tools json strict_service 3 request)
requests-Paired_example =
    requests-Paired json service strict_service
      (record { create_same = alike_on_pairs; stream_same = λ offered ms h. refl }) 3 request

own_data_only_example :
    (chat_query json service 3 1000
        (λ uid. execute values tools uid)
        (λ s. s)
        question
        moment
        nothing
      ≡ chat_query json service 3 1000
          (λ uid. execute values other_tools uid)
          (λ s. s)
          question
          moment
          nothing)
    × (chat_stream json service 3 1000
          (λ uid. execute values tools uid)
          (λ s. s)
          question
          moment
          fair
          nothing
        ≡ chat_stream json service 3 1000
            (λ uid. execute values other_tools uid)
            (λ s. s)
            question
            moment
            fair
            nothing)
own_data_only_example =
    own_data_only json service 3 1000 values tools other_tools (λ s. s) question moment fair nothing
      (record {
        same_summary = λ y m. refl;
        same_trend = λ c n. refl;
        same_window = λ s e. refl;
        same_profile = refl;
        same_matches = λ t n. refl;
        same_categories = refl;
      })

abbrev turn : ℕ → ℕ → ChatTurn
turn id at = record {
  id = id;
  user_id = 7;
  role = codes "user";
  content = codes "Thanks";
  chunks_used = [];
  created_at = at;
}

newer : is_older (turn 33 200) (turn 34 201) ≡ true
unfolding is_older
newer = refl

older_turns : All (λ t. is_older t (turn 33 200) ≡ true) (turns_of 7 remembered.turns)
unfolding is_older
older_turns = (refl, (refl, tt))

last_n-append_turn_pair_example :
    (last_n 7 3 (append_turn_pair 7 (turn 33 200) (turn 34 201) remembered.turns)
      ≡ last_n 7 1 remembered.turns ++ (turn 33 200 ∷ turn 34 201 ∷ []))
    × ((other k : ℕ)
        → other ≢ 7
        → last_n other k (append_turn_pair 7 (turn 33 200) (turn 34 201) remembered.turns)
          ≡ last_n other k remembered.turns)
last_n-append_turn_pair_example =
    last_n-append_turn_pair 7 1 (turn 33 200) (turn 34 201) remembered.turns newer older_turns
