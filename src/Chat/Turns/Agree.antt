-- ===== src/Chat/Turns/Agree.antt =====
-- The streamed answer and the one at once: app/outbound/adapters/openai/chat_client.py.
pub mod Rounds
pub mod UseCases
use yomochi.Base.{
  ℕ, zero, suc, ◌+◌, ◌-◌, ◌*◌, ◌≤◌, ◌≡◌, refl, sym, ap, ◌∙◌, inl, inr, Bool, true, false, Option,
  none, some, List, [], ◌∷◌, ◌++◌, map, max, arith, append-nil, append_assoc, Option-cases,
  List-cases,
}
use yomochi.Base.Result.{Result, ok, err, ◌>>=◌, >>=-ok}
use yomochi.Text.{Text}
use yomochi.Gateway.{
  Slot, Usage, Choice, Chunk, Event, content_delta, tool_calls_delta, usage_info, chunk_usage,
}
use yomochi.Chat.Messages.{
  Message, Json, ChatToolsRequest, build_tools_messages, execute_tool_round,
}
use yomochi.Chat.Service.{
  ToolCall, function_call, Answer, Response, Streamed, Service, ChatResponse, Item, token, usage,
  Generated, usage_or_zero, tool_calls_of, content_of, assembled, tool_events, plain_from,
  stream_call,
}
use yomochi.Chat.Client.{
  ToolRounds, tokens_in, round_tool_calls, prompt_in, completion_in, usage_item, forced_items,
  before, resolve_tool_rounds, last_answer, stream_rounds, chat_with_tools, stream_with_tools,
}
use yomochi.Chat.Client.Cases.{after_round_cases}
use yomochi.Chat.Turns.{full_answer, usage_tokens, tools_used_in}
use yomochi.Chat.Turns.Bill.{text_events-cases}

-- The texts of the answers that call tools, in the rounds of a request: a stream yields them, and the
-- answer at once leaves them out.
module _ {E A R : Type 0} (json : Json A R) (service : Service E)
    (tool_executor : Text → A → Result E R) where
  abbrev pub after_tools : Result E (List Message × List Text) → (List Message → Text) → Text
  after_tools (err e) next = []
  after_tools (ok (ms, names)) next = next ms

  abbrev pub before_calls : Result E Response → List Message → (List Message → Text) → Text
  before_calls (err e) ms next = []
  before_calls (ok a) ms next = elim (tool_calls_of a.answer) [
    | [] ↦ []
    | call ∷ more ↦
        content_of a.answer
        ++ after_tools (execute_tool_round json tool_executor ms (assembled (call ∷ more))) next
  ]

  unfoldable pub text_before_calls : ℕ → List Message → Text
  text_before_calls zero ms = []
  text_before_calls (suc n) ms = before_calls (service.create true ms) ms (text_before_calls n)

-- A whole answer, and a stream of the same answer with the same usage.
pub record SameAnswer {E : Type 0} (whole : Result E Response) (st : Streamed E)
    (events : List Event) : Type 0 where
  pub response : Response
  pub is_whole : whole ≡ ok response
  pub completes : st.failure ≡ none
  pub same_text : full_answer (tokens_in events) ≡ content_of response.answer
  pub same_calls : tool_calls_of response.answer ≡ map function_call (round_tool_calls [] events)
  pub same_prompt : prompt_in events ≡ (usage_or_zero response.usage).prompt_tokens
  pub same_completion : completion_in events ≡ (usage_or_zero response.usage).completion_tokens

-- A service that streams the answers that it gives at once, and counts tokens for each.
pub record StreamsAlike {E : Type 0} (service : Service E) : Type 0 where
  pub rounds_alike :
      (ms : List Message)
      → SameAnswer
          (service.create true ms)
          (service.stream true ms)
          (tool_events (service.stream true ms))
  pub paid : (ms : List Message) → 1 ≤ prompt_in (tool_events (service.stream true ms))
  pub last_alike :
      (ms : List Message)
      → SameAnswer
          (service.create false ms)
          (service.stream false ms)
          (stream_call (service.stream false ms))

full_answer-append : (xs ys : List Item) → full_answer (xs ++ ys) ≡ full_answer xs ++ full_answer ys
unfolding full_answer
full_answer-append [] ys = refl
full_answer-append (token s ∷ xs) ys =
    rw (full_answer-append xs ys) (sym (append_assoc s (full_answer xs) (full_answer ys)))
full_answer-append (usage u ∷ xs) ys = full_answer-append xs ys

usage_tokens-append :
    (k : ℕ) (xs ys : List Item) → usage_tokens k (xs ++ ys) ≡ usage_tokens (usage_tokens k xs) ys
unfolding usage_tokens
usage_tokens-append k [] ys = refl
usage_tokens-append k (token s ∷ xs) ys = usage_tokens-append k xs ys
usage_tokens-append k (usage u ∷ xs) ys =
    usage_tokens-append (u.prompt_tokens + u.completion_tokens) xs ys

tools_used_in-append :
    (k : List Text) (xs ys : List Item)
    → tools_used_in k (xs ++ ys) ≡ tools_used_in (tools_used_in k xs) ys
unfolding tools_used_in
tools_used_in-append k [] ys = refl
tools_used_in-append k (token s ∷ xs) ys = tools_used_in-append k xs ys
tools_used_in-append k (usage u ∷ xs) ys = tools_used_in-append u.tools_used xs ys

-- The items of a stream give an earlier text and then the text, and the tokens and the tools, of a
-- response, which cost this at least.
pub record Agrees {E : Type 0} (lo : ℕ) (early : Text) (g : Generated E) (r : ChatResponse)
    : Type 0 where
  pub completes : g.raises ≡ none
  pub same_answer : full_answer g.items ≡ early ++ r.answer
  pub same_tokens : (k : ℕ) → usage_tokens k g.items ≡ r.prompt_tokens + r.completion_tokens
  pub same_tools : (used : List Text) → tools_used_in used g.items ≡ r.tools_used
  pub costs : lo ≤ r.prompt_tokens + r.completion_tokens

-- A stream that ends with its usage item.
ended :
    {E : Type 0} (xs : List Item) (lo p c : ℕ) (used : List Text) (answer : Text)
    → full_answer xs ≡ answer
    → lo ≤ p + c
    → Agrees {E = E} lo []
        (record { items = xs ++ (usage_item p c used ∷ []); raises = none })
        (record { answer = answer; prompt_tokens = p; completion_tokens = c; tools_used = used })
unfolding full_answer usage_tokens tools_used_in
ended xs lo p c used answer e h = record {
  completes = refl;
  same_answer = full_answer-append xs _ ∙ append-nil (full_answer xs) ∙ e;
  same_tokens = λ k. usage_tokens-append k xs _;
  same_tools = λ used'. tools_used_in-append used' xs _;
  costs = h;
}

-- More items before a stream, with a text in them.
continued :
    {E : Type 0} (xs : List Item) (lo lo' : ℕ) (t early : Text) (g : Generated E) (r : ChatResponse)
    → full_answer xs ≡ t
    → lo ≤ lo'
    → Agrees lo' early g r
    → Agrees lo (t ++ early) (before xs g) r
unfolding full_answer
continued xs lo lo' t early g r e h a = record {
  completes = a.completes;
  same_answer =
      full_answer-append xs g.items ∙ rw (e, a.same_answer) (sym (append_assoc t early r.answer));
  same_tokens = λ k. usage_tokens-append k xs g.items ∙ a.same_tokens _;
  same_tools = λ used. tools_used_in-append used xs g.items ∙ a.same_tools _;
  costs = let more = a.costs in omega arith;
}

-- The items of the last answer end with its usage.
forced-ended :
    (cs : List Chunk) (u : Usage) (p c : ℕ) (used : List Text)
    → (let es = plain_from true u cs in
        forced_items p c used es
        ≡ tokens_in es ++ (usage_item (p + prompt_in es) (c + completion_in es) used ∷ []))
unfolding plain_from forced_items tokens_in prompt_in completion_in
forced-ended [] u p c used = ground arith
forced-ended (k ∷ ks) u p c used = elim (text_events-cases k.choice) [
  | inl e ↦ rw e (forced-ended ks (chunk_usage k u) p c used)
  | inr (s, e) ↦ rw e (ap (λ is. token s ∷ is) (forced-ended ks (chunk_usage k u) p c used))
]

stream_call_complete :
    {E : Type 0} (st : Streamed E)
    → st.failure ≡ none
    → stream_call st ≡ plain_from true (usage_or_zero none) st.chunks
unfolding stream_call
stream_call_complete st e = rw (stream_call, e) refl

assembled-map : (ss : List Slot) → assembled (map function_call ss) ≡ ss
unfolding assembled
assembled-map [] = refl
assembled-map (s ∷ ss) = ap (λ r. s ∷ r) (assembled-map ss)

plain_no_calls : (cs : List Chunk) (u : Usage) → round_tool_calls [] (plain_from true u cs) ≡ []
unfolding round_tool_calls plain_from
plain_no_calls [] u = refl
plain_no_calls (k ∷ ks) u = elim (text_events-cases k.choice) [
  | inl e ↦ rw e (plain_no_calls ks (chunk_usage k u))
  | inr (s, e) ↦ rw e (plain_no_calls ks (chunk_usage k u))
]
