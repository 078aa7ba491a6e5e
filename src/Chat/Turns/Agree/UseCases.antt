-- ===== src/Chat/Turns/Agree/UseCases.antt =====
-- A question that is answered at once, and the same question with its answer streamed:
-- app/application/chat/use_cases/chat_query.py and chat_stream.py.
use yomochi.Base.{
  ℕ, ◌+◌, ◌++◌, ◌∷◌, ◌≡◌, ◌≢◌, refl, sym, ap, ◌∙◌, inl, inr, false, none, List, [], ◌==◌, arith,
}
use yomochi.Base.Result.{Result, ok, err, Result-cases, ok_inj}
use yomochi.Text.{Text, is_empty}
use yomochi.Chat.{ChatTurn, ChatError, check, last_n}
use yomochi.Chat.Messages.{Json, build_tools_messages}
use yomochi.Chat.Service.{Service, ChatResponse, Generated}
use yomochi.Chat.Client.{rounds_of, chat_with_tools, stream_with_tools}
use yomochi.Chat.Turns.{
  ChatState, ChatQueryCommand, ChatQueryResult, Moment, Weather, done, yielded, history_turns,
  tokens_to_record, settle, end_of, created_at, request_of, answer_query, chat_query, chat_stream,
}
use yomochi.Chat.Turns.Settled.{joined, is_empty-false, full_answer-joined}
use yomochi.Chat.Turns.Agree.{StreamsAlike, Agrees, text_before_calls}
use yomochi.Chat.Turns.Agree.Rounds.{err_ok, streams_agree}

-- No write raises, and the reader stays to the end.
abbrev pub fair : Weather
fair = record { count_fails = false; save_fails = false; cut = none }

module _ {E : Type 0} (command : ChatQueryCommand) (m : Moment) (history : List ChatTurn)
    (base : ChatState) (g : Generated E) (r : ChatResponse) (early : Text)
    (same : Agrees 1 early g r) (spoken : is_empty (early ++ r.answer) ≡ false) where
  settle_agrees :
      settle command m fair history g.items base
      ≡ (answer_query {E = E} command m base (ok (record r { answer = early ++ r.answer }))).1
  unfolding settle tokens_to_record
  settle_agrees =
      let n = same.same_tokens 0 in
      let some_tokens : (r.prompt_tokens + r.completion_tokens == 0) ≡ false =
        let h = same.costs in ground arith in
      rw (same.same_answer, spoken, same.same_tools [], tokens_to_record, n, some_tokens) refl

  end_agrees : end_of m fair g ≡ done m.assistant_id m.answered_at
  unfolding end_of created_at
  end_agrees = rw (end_of, same.completes, created_at, same.same_answer, spoken) refl

is_empty-append : (early t : Text) → is_empty t ≡ false → is_empty (early ++ t) ≡ false
unfolding is_empty
is_empty-append [] t e = e
is_empty-append (x ∷ early) t e = refl

ok_pair :
    {E A S : Type 0} {a b : A} {s t : S}
    → Path (Result E A × S) (ok a, s) (ok b, t)
    → (a ≡ b) × (s ≡ t)
ok_pair h = (ok_inj (ap (λ p. p.0) h), ap (λ p. p.1) h)

err_pair :
    {E A S : Type 0} {e : E} {b : A} {s t : S} → Path (Result E A × S) (err e, s) (ok b, t) → ⊥
err_pair h = err_ok (ap (λ p. p.0) h)

module _ {E A R : Type 0} (json : Json A R) (service : Service E) (iterations limit : ℕ)
    (executor_of : ℕ → Text → A → Result E R) (meanwhile : ChatState → ChatState)
    (command : ChatQueryCommand) (m : Moment) (s : ChatState) where
  query-refused :
      (e : ChatError E)
      → (check {E = E} limit command.user_id m.checked_on s.counts) ≡ err e
      → chat_query json service iterations limit executor_of meanwhile command m s ≡ (err e, s)
  unfolding chat_query
  query-refused e h = rw (chat_query, h) refl

  query-passed :
      (t : Unit {0})
      → (check {E = E} limit command.user_id m.checked_on s.counts) ≡ ok t
      → chat_query json service iterations limit executor_of meanwhile command m s
        ≡ answer_query command m
            (meanwhile s)
            (chat_with_tools json service iterations (request_of executor_of command m s))
  unfolding chat_query
  query-passed t h = rw (chat_query, h) refl

  stream-passed :
      (t : Unit {0})
      → (check {E = E} limit command.user_id m.checked_on s.counts) ≡ ok t
      → let g = stream_with_tools json service iterations (request_of executor_of command m s) in
        chat_stream json service iterations limit executor_of meanwhile command m fair s ≡ (
          yielded g.items,
          end_of m fair g,
          settle command m fair
              (last_n command.user_id history_turns s.turns)
              g.items
              (meanwhile s),
        )
  unfolding chat_stream
  stream-passed t h = rw (chat_stream, h) refl

  query-answered :
      (q : ChatQueryResult) (s' : ChatState)
      → chat_query json service iterations limit executor_of meanwhile command m s ≡ (ok q, s')
      → ((check {E = E} limit command.user_id m.checked_on s.counts) ≡ ok tt)
        × (r : ChatResponse) × (chat_with_tools json service iterations
              (request_of executor_of command m s)
            ≡ ok r)
        × (answer_query {E = E} command m (meanwhile s) (ok r) ≡ (ok q, s'))
  query-answered q s' asked =
      elim (Result-cases (check {E = E} limit command.user_id m.checked_on s.counts)) [
        | inr (e, fails) ↦ absurd (err_pair (sym (query-refused e fails) ∙ asked))
        | inl (t, passes) ↦
            let answer = sym (query-passed t passes) ∙ asked in
            elim (Result-cases
              (chat_with_tools json service iterations (request_of executor_of command m s))) [
                | inr (e, fails) ↦
                    absurd
                      (err_pair (sym (ap (answer_query command m (meanwhile s)) fails) ∙ answer))
                | inl (r, answers) ↦ (
                  passes,
                  r,
                  answers,
                  sym (ap (answer_query command m (meanwhile s)) answers) ∙ answer,
                )
              ]
      ]

module _ {E A R : Type 0} (json : Json A R) (service : Service E) (alike : StreamsAlike service)
    (iterations limit : ℕ) (executor_of : ℕ → Text → A → Result E R)
    (meanwhile : ChatState → ChatState) where
  -- The texts that the service gives with calls of tools in the rounds of a question.
  abbrev pub early_text : ChatQueryCommand → Moment → ChatState → Text
  early_text command m s =
      let request = request_of executor_of command m s in
      text_before_calls json service request.tool_executor (rounds_of iterations)
        (build_tools_messages request)

  -- Where the service streams the answers that it gives at once, and counts tokens for each round: a
  -- question that is answered with some text at once gets the same text streamed, after the texts that
  -- the service gives with calls of tools, which the answer at once leaves out. At the end are the
  -- identifier and the time of the same turn. The stream leaves the turns and the counters that the
  -- response would leave at once with those texts before its own, and so the same counters, and the same
  -- turns where there are none. The writes do not raise and the reader stays to the end.
  pub chat_stream-chat_query :
      (command : ChatQueryCommand) (m : Moment) (s s' : ChatState) (q : ChatQueryResult)
      → chat_query json service iterations limit executor_of meanwhile command m s ≡ (ok q, s')
      → q.answer ≢ []
      → let out =
          chat_stream json service iterations limit executor_of meanwhile command m fair s in
        let early = early_text command m s in
        (joined out.0 ≡ early ++ q.answer)
        × (out.1 ≡ done q.turn_id q.created_at)
        × (r : ChatResponse) × (answer_query {E = E} command m (meanwhile s) (ok r) ≡ (ok q, s'))
        × (out.2
            ≡ (answer_query {E = E} command m
                (meanwhile s)
                (ok (record r { answer = early ++ r.answer }))).1)
  chat_stream-chat_query command m s s' q asked spoken =
      let (passes, r, answers, is) =
        query-answered json service iterations limit executor_of meanwhile command m s q s' asked in
      let early = early_text command m s in
      let same =
        streams_agree json service alike iterations (request_of executor_of command m s) r
          answers in
      let (is_q, is_s) = ok_pair is in
      let text : is_empty r.answer ≡ false = is_empty-false r.answer (rw (sym is_q) at spoken) in
      let more = is_empty-append early r.answer text in
      let history = last_n command.user_id history_turns s.turns in
      let g = stream_with_tools json service iterations (request_of executor_of command m s) in
      rw (stream-passed json service iterations limit executor_of meanwhile command m s tt passes) (
        sym (full_answer-joined g.items)
            ∙ same.same_answer
            ∙ ap (λ (x : ChatQueryResult). early ++ x.answer) is_q,
        end_agrees command m history (meanwhile s) g r early same more
            ∙ ap (λ (x : ChatQueryResult). done x.turn_id x.created_at) is_q,
        r,
        is,
        settle_agrees command m history (meanwhile s) g r early same more,
      )
