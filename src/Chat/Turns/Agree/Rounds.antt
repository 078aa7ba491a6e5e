-- ===== src/Chat/Turns/Agree/Rounds.antt =====
-- The rounds of tools, streamed and at once: app/outbound/adapters/openai/chat_client.py.
use yomochi.Base.{
  ℕ, zero, suc, ◌+◌, ◌-◌, ◌≡◌, refl, sym, ap, ◌∙◌, true, false, none, some, List, [], ◌∷◌, ◌++◌,
  map, max, arith, append-nil,
}
use yomochi.Base.Result.{Result, ok, err, ◌>>=◌, ok_inj}
use yomochi.Text.{Text}
use yomochi.Gateway.{Slot}
use yomochi.Chat.Messages.{
  Message, Json, ChatToolsRequest, build_tools_messages, execute_tool_round,
}
use yomochi.Chat.Service.{
  function_call, Response, Service, ChatResponse, usage_or_zero, tool_calls_of, content_of,
  assembled, tool_events, plain_from,
}
use yomochi.Chat.Client.{
  ToolRounds, tokens_in, prompt_in, completion_in, usage_item, resolve_tool_rounds, last_answer,
  stream_rounds, rounds_of, chat_with_tools, stream_with_tools,
}
use yomochi.Chat.Client.Cases.{answered_lem, called_lem, after_round_cases}
use yomochi.Chat.Turns.{full_answer}
use yomochi.Chat.Turns.Agree.{
  StreamsAlike, Agrees, before_calls, text_before_calls, ended, continued, forced-ended,
  stream_call_complete, assembled-map, full_answer-append,
}

pub err_ok : {E A : Type 0} {x : A} {e : E} → Path (Result E A) (err e) (ok x) → ⊥
err_ok h = cc

add-zero : (n : ℕ) → n + 0 ≡ n
add-zero n = omega arith

some-none : {A : Type 0} (x : A) → some x ≡ none → ⊥
some-none x e = cc

-- One round at least costs something.
abbrev least : ℕ → ℕ
least zero = 0
least (suc n) = 1

module _ {E A R : Type 0} (json : Json A R) (service : Service E)
    (tool_executor : Text → A → Result E R) where
  -- A round of the answers at once, by what the service gives.
  resolve-answered :
      (n : ℕ) (ms : List Message) (p c : ℕ) (used : List Text) (a : Response) (pt ct : ℕ)
      → service.create true ms ≡ ok a
      → pt ≡ (usage_or_zero a.usage).prompt_tokens
      → ct ≡ (usage_or_zero a.usage).completion_tokens
      → tool_calls_of a.answer ≡ []
      → resolve_tool_rounds json service tool_executor (suc n) ms p c used
        ≡ ok (record {
          messages = ms;
          prompt_tokens = p + pt;
          completion_tokens = c + ct;
          tools_used = used;
          final_answer = some (content_of a.answer);
        })
  unfolding resolve_tool_rounds
  resolve-answered n ms p c used a pt ct given ep ec no_calls =
      rw (ep, ec, given) (answered_lem json tool_executor a ms p c used _ no_calls)

  resolve-called :
      (n : ℕ) (ms : List Message) (p c : ℕ) (used : List Text) (a : Response) (pt ct : ℕ)
      (call : Slot) (more : List Slot)
      → service.create true ms ≡ ok a
      → pt ≡ (usage_or_zero a.usage).prompt_tokens
      → ct ≡ (usage_or_zero a.usage).completion_tokens
      → tool_calls_of a.answer ≡ map function_call (call ∷ more)
      → resolve_tool_rounds json service tool_executor (suc n) ms p c used ≡ (
          execute_tool_round json tool_executor ms (call ∷ more) >>= λ (ms', names).
          resolve_tool_rounds json service tool_executor n ms' (p + pt) (c + ct) (used ++ names))
  unfolding resolve_tool_rounds assembled
  resolve-called n ms p c used a pt ct call more given ep ec calls =
      rw (ep, ec, given)
        (called_lem json tool_executor a ms p c used _ _ _ calls ∙ rw (assembled-map more) refl)

  early_end : (ms : List Message) → text_before_calls json service tool_executor zero ms ≡ []
  unfolding text_before_calls
  early_end ms = refl

  early-answered :
      (n : ℕ) (ms : List Message) (a : Response)
      → service.create true ms ≡ ok a
      → tool_calls_of a.answer ≡ []
      → text_before_calls json service tool_executor (suc n) ms ≡ []
  unfolding text_before_calls
  early-answered n ms a given no_calls = rw (given, before_calls, no_calls) refl

  early-called :
      (n : ℕ) (ms ms' : List Message) (names : List Text) (a : Response) (call : Slot)
      (more : List Slot)
      → service.create true ms ≡ ok a
      → tool_calls_of a.answer ≡ map function_call (call ∷ more)
      → execute_tool_round json tool_executor ms (call ∷ more) ≡ ok (ms', names)
      → text_before_calls json service tool_executor (suc n) ms
        ≡ content_of a.answer ++ text_before_calls json service tool_executor n ms'
  unfolding text_before_calls assembled
  early-called n ms ms' names a call more given calls made =
      rw (given, before_calls, calls) (rw (assembled-map more, made) refl)

  last_form :
      (rounds : ToolRounds) (a : Response) (pt ct : ℕ)
      → rounds.final_answer ≡ none
      → service.create false rounds.messages ≡ ok a
      → pt ≡ (usage_or_zero a.usage).prompt_tokens
      → ct ≡ (usage_or_zero a.usage).completion_tokens
      → last_answer service rounds
        ≡ ok (record {
          answer = content_of a.answer;
          prompt_tokens = rounds.prompt_tokens + pt;
          completion_tokens = rounds.completion_tokens + ct;
          tools_used = rounds.tools_used;
        })
  unfolding last_answer
  last_form rounds a pt ct none_yet given ep ec = rw (ep, ec, last_answer, none_yet) (rw given refl)

  module _ (alike : StreamsAlike service) where
    last-Agrees :
        (ms : List Message) (p c : ℕ) (used : List Text) (r : ChatResponse)
        → (resolve_tool_rounds json service tool_executor zero ms p c used >>= last_answer service)
          ≡ ok r
        → Agrees (p + c) [] (stream_rounds json service tool_executor zero ms p c used) r
    unfolding resolve_tool_rounds stream_rounds
    last-Agrees ms p c used r done =
        let same = alike.last_alike ms in
        let a = same.response in
        let st = service.stream false ms in
        let complete = stream_call_complete st same.completes in
        let es = plain_from true (usage_or_zero none) st.chunks in
        let pt = prompt_in es in
        let ct = completion_in es in
        let is_it : (◌≡◌ {A = Result E ChatResponse}
            (ok (record {
              answer = content_of a.answer;
              prompt_tokens = p + pt;
              completion_tokens = c + ct;
              tools_used = used;
            }))
            (ok r)) =
          sym (
            last_form _ a pt ct refl same.is_whole (ap prompt_in (sym complete) ∙ same.same_prompt)
              (ap completion_in (sym complete) ∙ same.same_completion))
          ∙ done in
        let is_r = ok_inj is_it in
        let text = ap (λ xs. full_answer (tokens_in xs)) (sym complete) ∙ same.same_text in
        rw
          (complete, forced-ended st.chunks (usage_or_zero none) p c used, same.completes, sym is_r)
          (ended (tokens_in es) (p + c) (p + pt) (c + ct) used (content_of a.answer) text
            (omega arith))

    rounds_agree :
        (n : ℕ) (ms : List Message) (p c : ℕ) (used : List Text) (r : ChatResponse)
        → (resolve_tool_rounds json service tool_executor n ms p c used >>= last_answer service)
          ≡ ok r
        → Agrees
            (p + c + least n)
            (text_before_calls json service tool_executor n ms)
            (stream_rounds json service tool_executor n ms p c used)
            r
    unfolding stream_rounds full_answer last_answer
    rounds_agree zero ms p c used r done =
        rw (add-zero (p + c), early_end ms) (last-Agrees ms p c used r done)
    rounds_agree (suc n) ms p c used r done =
        let same = alike.rounds_alike ms in
        let es = tool_events (service.stream true ms) in
        let a = same.response in
        after_round_cases json tool_executor
          (λ g. Agrees (p + c + 1) (text_before_calls json service tool_executor (suc n) ms) g r) es
          (service.stream true ms).failure ms p c used (stream_rounds json service tool_executor n)
          (λ x e. absurd (some-none x (sym e ∙ same.completes)))
          (λ e k.
            let called =
              resolve-answered n ms p c used a (prompt_in es) (completion_in es) same.is_whole
                same.same_prompt same.same_completion
                (same.same_calls ∙ ap (map function_call) k) in
            let is_it = sym (ap (λ x. x >>= last_answer service) called) ∙ done in
            rw
              (
                early-answered n ms a same.is_whole (same.same_calls ∙ ap (map function_call) k),
                sym (ok_inj is_it),
              )
              (ended (tokens_in es) (p + c + 1) (p + prompt_in es) (c + completion_in es) used
                (content_of a.answer) same.same_text (let paid = alike.paid ms in omega arith)))
          (λ call more x e k made.
            let called =
              resolve-called n ms p c used a (prompt_in es) (completion_in es) call more
                same.is_whole same.same_prompt same.same_completion
                (same.same_calls ∙ ap (map function_call) k) in
            let is_it = sym (ap (λ x. x >>= last_answer service) called) ∙ done in
            absurd (err_ok (rw made at is_it)))
          (λ call more ms' names e k made.
            let called =
              resolve-called n ms p c used a (prompt_in es) (completion_in es) call more
                same.is_whole same.same_prompt same.same_completion
                (same.same_calls ∙ ap (map function_call) k) in
            let is_it = rw made at (sym (ap (λ x. x >>= last_answer service) called) ∙ done) in
            let p' = p + prompt_in es in
            let c' = c + completion_in es in
            rw
              (early-called n ms ms' names a call more same.is_whole
                (same.same_calls ∙ ap (map function_call) k) made)
              (continued (tokens_in es ++ (usage_item p' c' (used ++ names) ∷ [])) (p + c + 1)
                (p' + c' + least n) (content_of a.answer)
                (text_before_calls json service tool_executor n ms')
                (stream_rounds json service tool_executor n ms' p' c' (used ++ names)) r
                (full_answer-append (tokens_in es) _
                  ∙ rw same.same_text (append-nil (content_of a.answer)))
                (let paid = alike.paid ms in omega arith)
                (rounds_agree n ms' p' c' (used ++ names) r is_it)))

-- The whole request.
pub streams_agree :
    {E A R : Type 0} (json : Json A R) (service : Service E)
    → StreamsAlike service
    → (iterations : ℕ) (request : ChatToolsRequest E A R) (r : ChatResponse)
    → chat_with_tools json service iterations request ≡ ok r
    → Agrees 1
        (text_before_calls json service request.tool_executor
          (rounds_of iterations)
          (build_tools_messages request))
        (stream_with_tools json service iterations request)
        r
unfolding chat_with_tools stream_with_tools
streams_agree json service alike iterations request r done =
    let n = max 1 iterations - 1 in
    let some_round : max 1 iterations ≡ suc n = omega arith in
    rw some_round (
      rounds_agree json service request.tool_executor alike (suc n) (build_tools_messages request) 0
        0 [] r (rw some_round at done))
