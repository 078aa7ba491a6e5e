-- ===== src/Chat/Turns/Bill.antt =====
-- What a stream bills, wherever it is cut: `stream_with_tools` of
-- app/outbound/adapters/openai/chat_client.py, as app/application/chat/use_cases/chat_stream.py counts it.
use yomochi.Base.{
  ℕ, ◌+◌, ◌≤◌, ◌≡◌, refl, ◌⊎◌, inl, inr, Bool, true, false, Option, none, some, List, [], ◌∷◌,
  Bool-cases, Option-cases,
}
use yomochi.Base.Result.{Result}
use yomochi.Text.{Text, is_empty}
use yomochi.Gateway.{Choice, content_delta, content_events}
use yomochi.Chat.Messages.{Message}
use yomochi.Chat.Service.{
  Service, Streamed, Item, token, usage, tool_events, text_events, plain_from, stream_call,
  usage_or_zero,
}
use yomochi.Chat.Client.{prompt_in, completion_in}

-- The totals of the usage items rise from a lower bound and stay within an upper one.
abbrev pub Climbs : ℕ → List Item → ℕ → Type 0
Climbs lo [] hi = lo ≤ hi
Climbs lo (token s ∷ is) hi = Climbs lo is hi
Climbs lo (usage u ∷ is) hi =
    (lo ≤ u.prompt_tokens + u.completion_tokens)
    × Climbs (u.prompt_tokens + u.completion_tokens) is hi

pub text_events-cases :
    (o : Option Choice)
    → (text_events o ≡ []) ⊎ ((s : Text) × (text_events o ≡ content_delta s ∷ []))
unfolding content_events
text_events-cases none = inl refl
text_events-cases (some choice) = content-cases choice.content
  where
    content-cases :
        (o : Option Text)
        → (content_events o ≡ []) ⊎ ((s : Text) × (content_events o ≡ content_delta s ∷ []))
    content-cases none = inl refl
    content-cases (some s) = elim (Bool-cases (is_empty s)) [
      | inl e ↦ inl (rw e refl)
      | inr e ↦ inr (s, rw e refl)
    ]

-- No answer of the service costs more than this.
pub record Cheap {E : Type 0} (service : Service E) (b : ℕ) : Type 0 where
  pub rounds_cheap :
      (ms : List Message)
      → prompt_in (tool_events (service.stream true ms))
          + completion_in (tool_events (service.stream true ms))
        ≤ b
  pub last_cheap :
      (ms : List Message)
      → prompt_in (stream_call (service.stream false ms))
          + completion_in (stream_call (service.stream false ms))
        ≤ b

pub stream_call_form :
    {E : Type 0} (st : Streamed E)
    → (ends : Bool) × (stream_call st ≡ plain_from ends (usage_or_zero none) st.chunks)
unfolding stream_call
stream_call_form st = elim (Option-cases st.failure) [
  | inl e ↦ (true, rw (stream_call, e) refl)
  | inr (x, e) ↦ (false, rw (stream_call, e) refl)
]
