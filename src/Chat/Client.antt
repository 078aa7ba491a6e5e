-- ===== src/Chat/Client.antt =====
-- The client of the model: app/outbound/adapters/openai/chat_client.py, at once and streamed, over what
-- Chat/Service says of the service. Metrics, the check of an answer that only logs, and the settings
-- that go to the service are left out.
pub mod Cases
pub mod Paired
use yomochi.Base.{
  ℕ, zero, suc, ◌+◌, max, Bool, true, false, Option, none, some, List, [], ◌∷◌, ◌++◌,
}
use yomochi.Base.Result.{Result, ok, err, ◌>>=◌}
use yomochi.Text.{Text}
use yomochi.Gateway.{
  Slot, Usage, Choice, Chunk, Event, content_delta, tool_calls_delta, usage_info, Fragments,
  content_events, chunk_fragments, chunk_events, chunk_usage, stream_call_with_tools,
}
use yomochi.Chat.Messages.{
  Message, Json, ChatToolsRequest, build_tools_messages, execute_tool_round,
}
use yomochi.Chat.Service.{
  Answer, ChatResponse, Generated, Item, Response, Service, StreamUsage, Streamed, ToolCall,
  assembled, content_of, custom_call, function_call, plain_from, sent_from, stream_call,
  text_events, text_or_empty, token, tool_calls_of, tool_events, usage, usage_or_zero,
}

pub record ToolRounds : Type 0 where
  pub messages : List Message
  pub prompt_tokens : ℕ
  pub completion_tokens : ℕ
  pub tools_used : List Text
  pub final_answer : Option Text

-- What the loop over the events of a round keeps.
unfoldable pub tokens_in : List Event → List Item
tokens_in [] = []
tokens_in (content_delta s ∷ es) = token s ∷ tokens_in es
tokens_in (tool_calls_delta cs ∷ es) = tokens_in es
tokens_in (usage_info u ∷ es) = tokens_in es

unfoldable pub round_tool_calls : List Slot → List Event → List Slot
round_tool_calls before [] = before
round_tool_calls before (content_delta s ∷ es) = round_tool_calls before es
round_tool_calls before (tool_calls_delta cs ∷ es) = round_tool_calls cs es
round_tool_calls before (usage_info u ∷ es) = round_tool_calls before es

unfoldable pub prompt_in : List Event → ℕ
prompt_in [] = 0
prompt_in (content_delta s ∷ es) = prompt_in es
prompt_in (tool_calls_delta cs ∷ es) = prompt_in es
prompt_in (usage_info u ∷ es) = u.prompt_tokens + prompt_in es

unfoldable pub completion_in : List Event → ℕ
completion_in [] = 0
completion_in (content_delta s ∷ es) = completion_in es
completion_in (tool_calls_delta cs ∷ es) = completion_in es
completion_in (usage_info u ∷ es) = u.completion_tokens + completion_in es

abbrev pub usage_item : ℕ → ℕ → List Text → Item
usage_item p c used = usage (record { prompt_tokens = p; completion_tokens = c; tools_used = used })

-- The items of the last answer, after rounds that cost this much.
unfoldable pub forced_items : ℕ → ℕ → List Text → List Event → List Item
forced_items p c used [] = []
forced_items p c used (content_delta s ∷ es) = token s ∷ forced_items p c used es
forced_items p c used (tool_calls_delta cs ∷ es) = forced_items p c used es
forced_items p c used (usage_info u ∷ es) =
    usage_item (p + u.prompt_tokens) (c + u.completion_tokens) used ∷ forced_items p c used es

abbrev pub before : {E : Type 0} → List Item → Generated E → Generated E
before xs g = record g { items = xs ++ g.items }

-- Where the model still asks for tools, a last call without them.
unfoldable pub last_answer : {E : Type 0} → Service E → ToolRounds → Result E ChatResponse
last_answer service rounds = elim rounds.final_answer [
  | some answer ↦ ok (record {
    answer = answer;
    prompt_tokens = rounds.prompt_tokens;
    completion_tokens = rounds.completion_tokens;
    tools_used = rounds.tools_used;
  })
  | none ↦ service.create false rounds.messages >>= λ response.
      let u = usage_or_zero response.usage in
      ok (record {
        answer = content_of response.answer;
        prompt_tokens = rounds.prompt_tokens + u.prompt_tokens;
        completion_tokens = rounds.completion_tokens + u.completion_tokens;
        tools_used = rounds.tools_used;
      })
]

module _ {E A R : Type 0} (json : Json A R) (tool_executor : Text → A → Result E R) where
  -- The body of the loop: the final answer, or a round and the next ones.
  unfoldable pub after_answer :
      Response
      → List Message
      → ℕ
      → ℕ
      → List Text
      → (List Message → ℕ → ℕ → List Text → Result E ToolRounds)
      → Result E ToolRounds
  after_answer response messages p c used next =
      let u = usage_or_zero response.usage in
      elim (tool_calls_of response.answer) [
        | [] ↦ ok (record {
          messages = messages;
          prompt_tokens = p + u.prompt_tokens;
          completion_tokens = c + u.completion_tokens;
          tools_used = used;
          final_answer = some (content_of response.answer);
        })
        | call ∷ more ↦
            execute_tool_round json tool_executor messages (assembled (call ∷ more))
            >>= λ (messages', names).
                next messages' (p + u.prompt_tokens) (c + u.completion_tokens) (used ++ names)
      ]

  -- The body of the streamed loop: what a round yields, and what the next one does after it.
  unfoldable pub after_round :
      List Event
      → Option E
      → List Message
      → ℕ
      → ℕ
      → List Text
      → (List Message → ℕ → ℕ → List Text → Generated E)
      → Generated E
  after_round events failure messages p c used next =
      let p' = p + prompt_in events in
      let c' = c + completion_in events in
      elim failure [
        | some e ↦ record { items = tokens_in events; raises = some e }
        | none ↦ elim (round_tool_calls [] events) [
          | [] ↦ record { items = tokens_in events ++ (usage_item p' c' used ∷ []); raises = none }
          | call ∷ more ↦ elim (execute_tool_round json tool_executor messages (call ∷ more)) [
            | err e ↦ record { items = tokens_in events; raises = some e }
            | ok (messages', names) ↦
                before (tokens_in events ++ (usage_item p' c' (used ++ names) ∷ []))
                  (next messages' p' c' (used ++ names))
          ]
        ]
      ]

module _ {E A R : Type 0} (json : Json A R) (service : Service E)
    (tool_executor : Text → A → Result E R) where
  -- The rounds that are left, and what they have added up.
  unfoldable pub resolve_tool_rounds : ℕ → List Message → ℕ → ℕ → List Text → Result E ToolRounds
  resolve_tool_rounds zero messages p c used = ok (record {
    messages = messages;
    prompt_tokens = p;
    completion_tokens = c;
    tools_used = used;
    final_answer = none;
  })
  resolve_tool_rounds (suc n) messages p c used = service.create true messages >>= λ response.
      after_answer json tool_executor response messages p c used (resolve_tool_rounds n)

  unfoldable pub stream_rounds : ℕ → List Message → ℕ → ℕ → List Text → Generated E
  stream_rounds zero messages p c used =
      let s = service.stream false messages in
      record { items = forced_items p c used (stream_call s); raises = s.failure }
  stream_rounds (suc n) messages p c used =
      let s = service.stream true messages in
      after_round json tool_executor (tool_events s) s.failure messages p c used (stream_rounds n)

-- `max(1, max_tool_iterations)` rounds.
abbrev pub rounds_of : ℕ → ℕ
rounds_of max_tool_iterations = max 1 max_tool_iterations

module _ {E A R : Type 0} (json : Json A R) (service : Service E) (max_tool_iterations : ℕ) where
  unfoldable pub chat_with_tools : ChatToolsRequest E A R → Result E ChatResponse
  unfolding resolve_tool_rounds last_answer build_tools_messages
  chat_with_tools request =
      resolve_tool_rounds json service request.tool_executor (rounds_of max_tool_iterations)
        (build_tools_messages request) 0 0 []
      >>= last_answer service

  unfoldable pub stream_with_tools : ChatToolsRequest E A R → Generated E
  unfolding stream_rounds build_tools_messages
  stream_with_tools request =
      stream_rounds json service request.tool_executor (rounds_of max_tool_iterations)
        (build_tools_messages request) 0 0 []
