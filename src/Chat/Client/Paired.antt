-- ===== src/Chat/Client/Paired.antt =====
-- The form of the messages that the service is sent: app/outbound/adapters/openai/chat_client.py.
use yomochi.Base.{
  ℕ, zero, suc, ◌≡◌, refl, sym, ap, ◌∙◌, inl, inr, Bool, true, false, Option, List, [], ◌∷◌, ◌++◌,
  map, List-cases, Option-cases,
}
use yomochi.Base.Result.{Result, ok, ◌>>=◌, >>=-ok, >>=_same}
use yomochi.Text.{Text}
use yomochi.Gateway.{Slot, Event}
use yomochi.Chat.{ChatTurn}
use yomochi.Chat.Messages.{
  Message, plain, calls, answered, Json, ChatToolsRequest, history_messages, build_tools_messages,
  gather, answers, execute_tool_round,
}
use yomochi.Chat.Client.Cases.{answered_lem, called_lem, after_round_cases}
use yomochi.Chat.Service.{Service, Generated, tool_calls_of, assembled, tool_events}
use yomochi.Chat.Client.{
  ToolRounds, resolve_tool_rounds, last_answer, after_round, stream_rounds, chat_with_tools,
  stream_with_tools,
}

-- Right after tool calls stand their answers, one for each call, in order; no other answers stand. The
-- first argument is the calls that have no answer yet.
abbrev pub Paired : List Text → List Message → Type 0
Paired [] [] = Unit
Paired [] (plain role s ∷ ms) = Paired [] ms
Paired [] (calls ss ∷ ms) = Paired (map (λ s. s.id) ss) ms
Paired [] (answered id s ∷ ms) = ⊥
Paired (i ∷ is) [] = ⊥
Paired (i ∷ is) (plain role s ∷ ms) = ⊥
Paired (i ∷ is) (calls ss ∷ ms) = ⊥
Paired (i ∷ is) (answered id s ∷ ms) = (id ≡ i) × Paired is ms

Paired-append :
    (is : List Text) (ms ms' : List Message) → Paired is ms → Paired [] ms' → Paired is (ms ++ ms')
Paired-append [] [] ms' h h' = h'
Paired-append [] (plain role s ∷ ms) ms' h h' = Paired-append [] ms ms' h h'
Paired-append [] (calls ss ∷ ms) ms' h h' = Paired-append (map (λ s. s.id) ss) ms ms' h h'
Paired-append [] (answered id s ∷ ms) ms' h h' = absurd h
Paired-append (i ∷ is) [] ms' h h' = absurd h
Paired-append (i ∷ is) (plain role s ∷ ms) ms' h h' = absurd h
Paired-append (i ∷ is) (calls ss ∷ ms) ms' h h' = absurd h
Paired-append (i ∷ is) (answered id s ∷ ms) ms' (e, h) h' = (e, Paired-append is ms ms' h h')

history-Paired : (ts : List ChatTurn) → Paired [] (history_messages ts)
unfolding history_messages
history-Paired [] = tt
history-Paired (t ∷ ts) = history-Paired ts

build-Paired :
    {E A R : Type 0} (request : ChatToolsRequest E A R) → Paired [] (build_tools_messages request)
unfolding build_tools_messages
build-Paired request =
    Paired-append [] (history_messages request.history) _ (history-Paired request.history) tt

module _ {E A R : Type 0} (json : Json A R) (tool_executor : Text → A → Result E R) where
  answers-Paired :
      (ss : List Slot) (rs : List R)
      → gather json tool_executor ss ≡ ok rs
      → Paired (map (λ s. s.id) ss) (answers json tool_executor ss rs)
  unfolding gather answers
  answers-Paired [] rs done = tt
  answers-Paired (s ∷ ss) rs done =
      let (r, rest, _) = >>=-ok _ (tool_executor s.name _) done in
      let (rs', e, more) = >>=-ok _ (gather json tool_executor ss) rest in
      let same : r ∷ rs' ≡ rs = cc in rw (sym same) (refl, answers-Paired ss rs' more)

  round-Paired :
      (ms ms' : List Message) (ss : List Slot) (names : List Text)
      → execute_tool_round json tool_executor ms ss ≡ ok (ms', names)
      → Paired [] ms
      → Paired [] ms'
  unfolding execute_tool_round
  round-Paired ms ms' ss names done h =
      let (rs, e, gathered) = >>=-ok _ (gather json tool_executor ss) done in
      let same : ms ++ (calls ss ∷ answers json tool_executor ss rs) ≡ ms' = cc in
      rw (sym same) (Paired-append [] ms _ h (answers-Paired ss rs gathered))

  -- The rounds after a round may differ on other lists of messages.
  after_round_same :
      (events : List Event) (failure : Option E) (ms : List Message) (p c : ℕ) (used : List Text)
      (next next' : List Message → ℕ → ℕ → List Text → Generated E)
      → ((ms' : List Message) (p' c' : ℕ) (used' : List Text)
          → Paired [] ms'
          → next ms' p' c' used' ≡ next' ms' p' c' used')
      → Paired [] ms
      → after_round json tool_executor events failure ms p c used next
        ≡ after_round json tool_executor events failure ms p c used next'
  unfolding after_round
  after_round_same events failure ms p c used next next' h w =
      after_round_cases json tool_executor
        (λ g. g ≡ after_round json tool_executor events failure ms p c used next') events failure ms
        p c used next (λ x e. rw (after_round, e) refl) (λ e k. rw (after_round, e, k) refl)
        (λ call more x e k made. rw (after_round, e, k, made) refl)
        (λ call more ms' names e k made.
          rw (after_round, e, k, made, h ms' _ _ _ (round-Paired ms ms' (call ∷ more) names made w))
            refl)

-- Two services that answer alike to all lists of messages of this form.
pub record SameOnPaired {E : Type 0} (s s' : Service E) : Type 0 where
  pub create_same :
      (offered : Bool) (ms : List Message)
      → Paired [] ms
      → s.create offered ms ≡ s'.create offered ms
  pub stream_same :
      (offered : Bool) (ms : List Message)
      → Paired [] ms
      → s.stream offered ms ≡ s'.stream offered ms

module _ {E A R : Type 0} (json : Json A R) (s s' : Service E) (h : SameOnPaired s s') where
  module _ (tool_executor : Text → A → Result E R) where
    resolve-Paired :
        (n : ℕ) (ms : List Message) (p c : ℕ) (used : List Text) (rounds : ToolRounds)
        → resolve_tool_rounds json s tool_executor n ms p c used ≡ ok rounds
        → Paired [] ms
        → Paired [] rounds.messages
    unfolding resolve_tool_rounds
    resolve-Paired zero ms p c used rounds done w =
        let same : ms ≡ rounds.messages = cc in rw (sym same) w
    resolve-Paired (suc n) ms p c used rounds done w =
        let (response, rest, _) = >>=-ok _ (s.create true ms) done in
        elim (List-cases (tool_calls_of response.answer)) [
          | inl e ↦
              let answer = sym (answered_lem json tool_executor response ms p c used _ e) ∙ rest in
              let same : ms ≡ rounds.messages = cc in rw (sym same) w
          | inr (call, more, e) ↦
              let ((ms', names), later, made) =
                >>=-ok _ (execute_tool_round json tool_executor ms (assembled (call ∷ more)))
                  (sym (called_lem json tool_executor response ms p c used _ call more e) ∙ rest) in
              resolve-Paired n ms' _ _ _ rounds later
                (round-Paired json tool_executor ms ms' (assembled (call ∷ more)) names made w)
        ]

    resolve_same :
        (n : ℕ) (ms : List Message) (p c : ℕ) (used : List Text)
        → Paired [] ms
        → resolve_tool_rounds json s tool_executor n ms p c used
          ≡ resolve_tool_rounds json s' tool_executor n ms p c used
    unfolding resolve_tool_rounds
    resolve_same zero ms p c used w = refl
    resolve_same (suc n) ms p c used w = rw (sym (h.create_same true ms w)) (
        >>=_same (s.create true ms) λ response _.
          elim (List-cases (tool_calls_of response.answer)) [
            | inl e ↦
                answered_lem json tool_executor response ms p c used _ e
                ∙ sym (answered_lem json tool_executor response ms p c used _ e)
            | inr (call, more, e) ↦
                called_lem json tool_executor response ms p c used _ call more e
                ∙ >>=_same (execute_tool_round json tool_executor ms (assembled (call ∷ more)))
                    (λ (ms', names) made. resolve_same n ms' _ _ _ (
                      round-Paired json tool_executor ms ms' (assembled (call ∷ more)) names made
                        w))
                ∙ sym (called_lem json tool_executor response ms p c used _ call more e)
          ])

    last_same :
        (rounds : ToolRounds)
        → Paired [] rounds.messages
        → last_answer s rounds ≡ last_answer s' rounds
    unfolding last_answer
    last_same rounds w = elim (Option-cases rounds.final_answer) [
      | inl e ↦ rw (e, sym (h.create_same false rounds.messages w)) refl
      | inr (a, e) ↦ rw e refl
    ]

    rounds_same :
        (n : ℕ) (ms : List Message) (p c : ℕ) (used : List Text)
        → Paired [] ms
        → stream_rounds json s tool_executor n ms p c used
          ≡ stream_rounds json s' tool_executor n ms p c used
    unfolding stream_rounds
    rounds_same zero ms p c used w = rw (sym (h.stream_same false ms w)) refl
    rounds_same (suc n) ms p c used w =
        let next = stream_rounds json s' tool_executor n in
        rw (sym (h.stream_same true ms w)) (
          after_round_same json tool_executor (tool_events (s.stream true ms))
            (s.stream true ms).failure ms p c used (stream_rounds json s tool_executor n) next
            (λ ms' p' c' used' w'. rounds_same n ms' p' c' used' w') w)

  -- Every list of messages that a request sends to the service, in whichever round, has the answers of
  -- tools right after the calls, one for each, in order and with its identifier, and none elsewhere: two
  -- services that agree on such lists, and only on them, give the same response, at once and streamed,
  -- or the same exception.
  pub requests-Paired :
      (iterations : ℕ) (request : ChatToolsRequest E A R)
      → (chat_with_tools json s iterations request ≡ chat_with_tools json s' iterations request)
        × (stream_with_tools json s iterations request
            ≡ stream_with_tools json s' iterations request)
  unfolding chat_with_tools stream_with_tools
  requests-Paired iterations request =
      let w = build-Paired request in
      let execute = request.tool_executor in
      (
        ap (λ r. r >>= last_answer s) (resolve_same execute _ _ 0 0 [] w)
            ∙ >>=_same (resolve_tool_rounds json s' execute _ (build_tools_messages request) 0 0 [])
                (λ rounds done. last_same execute rounds (
                  resolve-Paired execute _ _ 0 0 [] rounds
                    (resolve_same execute _ _ 0 0 [] w ∙ done) w)),
        rounds_same execute _ _ 0 0 [] w,
      )
