-- ===== src/Chat/Client/Cases.antt =====
-- The ends of a round of a stream: `stream_with_tools` of
-- app/outbound/adapters/openai/chat_client.py.
use yomochi.Base.{
  ℕ, ◌+◌, ◌≡◌, refl, inl, inr, Option, none, some, List, [], ◌∷◌, ◌++◌, List-cases, Option-cases,
}
use yomochi.Base.Result.{Result, ok, err, ◌>>=◌, Result-cases}
use yomochi.Text.{Text}
use yomochi.Gateway.{Slot, Event}
use yomochi.Chat.Messages.{Message, Json, execute_tool_round}
use yomochi.Chat.Service.{
  ToolCall, Response, usage_or_zero, tool_calls_of, content_of, assembled, Generated,
}
use yomochi.Chat.Client.{
  ToolRounds, after_answer, tokens_in, round_tool_calls, prompt_in, completion_in, usage_item,
  before, after_round,
}

module _ {E A R : Type 0} (json : Json A R) (tool_executor : Text → A → Result E R) where
  pub answered_lem :
      (a : Response) (ms : List Message) (p c : ℕ) (used : List Text)
      (next : List Message → ℕ → ℕ → List Text → Result E ToolRounds)
      → tool_calls_of a.answer ≡ []
      → after_answer json tool_executor a ms p c used next
        ≡ ok (record {
          messages = ms;
          prompt_tokens = p + (usage_or_zero a.usage).prompt_tokens;
          completion_tokens = c + (usage_or_zero a.usage).completion_tokens;
          tools_used = used;
          final_answer = some (content_of a.answer);
        })
  unfolding after_answer
  answered_lem a ms p c used next e = rw (after_answer, e) refl

  pub called_lem :
      (a : Response) (ms : List Message) (p c : ℕ) (used : List Text)
      (next : List Message → ℕ → ℕ → List Text → Result E ToolRounds) (call : ToolCall)
      (more : List ToolCall)
      → tool_calls_of a.answer ≡ call ∷ more
      → after_answer json tool_executor a ms p c used next ≡ (
          execute_tool_round json tool_executor ms (assembled (call ∷ more)) >>= λ (ms', names).
          next ms'
            (p + (usage_or_zero a.usage).prompt_tokens)
            (c + (usage_or_zero a.usage).completion_tokens)
            (used ++ names))
  unfolding after_answer
  called_lem a ms p c used next call more e = rw (after_answer, e) refl

  -- A property of what a round and the rounds after it yield, by the four ends of the round.
  pub after_round_cases :
      (P : Generated E → Type 0) (events : List Event) (failure : Option E) (ms : List Message)
      (p c : ℕ) (used : List Text) (next : List Message → ℕ → ℕ → List Text → Generated E)
      → ((e : E) → failure ≡ some e → P (record { items = tokens_in events; raises = some e }))
      → (failure ≡ none
          → round_tool_calls [] events ≡ []
          → P (record {
            items =
                tokens_in events
                ++ (usage_item (p + prompt_in events) (c + completion_in events) used ∷ []);
            raises = none;
          }))
      → ((call : Slot) (more : List Slot) (e : E)
          → failure ≡ none
          → round_tool_calls [] events ≡ call ∷ more
          → execute_tool_round json tool_executor ms (call ∷ more) ≡ err e
          → P (record { items = tokens_in events; raises = some e }))
      → ((call : Slot) (more : List Slot) (ms' : List Message) (names : List Text)
          → failure ≡ none
          → round_tool_calls [] events ≡ call ∷ more
          → execute_tool_round json tool_executor ms (call ∷ more) ≡ ok (ms', names)
          → P (
              before
                (tokens_in events
                  ++ (usage_item (p + prompt_in events) (c + completion_in events) (used ++ names)
                      ∷ []))
                (next ms' (p + prompt_in events) (c + completion_in events) (used ++ names))))
      → P (after_round json tool_executor events failure ms p c used next)
  unfolding after_round
  after_round_cases P events failure ms p c used next fails ends stops goes =
      elim (Option-cases failure) [
        | inl e ↦ elim (List-cases (round_tool_calls [] events)) [
          | inl k ↦ rw (after_round, e, k) (ends e k)
          | inr (call, more, k) ↦
              elim (Result-cases (execute_tool_round json tool_executor ms (call ∷ more))) [
                | inl ((ms', names), made) ↦
                    rw (after_round, e, k, made) (goes call more ms' names e k made)
                | inr (x, made) ↦ rw (after_round, e, k, made) (stops call more x e k made)
              ]
        ]
        | inr (x, e) ↦ rw (after_round, e) (fails x e)
      ]
