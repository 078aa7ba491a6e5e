-- ===== src/Chat/Service.antt =====
-- What the chat's client gets from the model: the answers and streams that
-- app/outbound/adapters/openai/chat_client.py and app/outbound/adapters/openai/_gateway/gateway.py read.
-- What the service answers to a list of messages is a parameter.
use yomochi.Base.{ℕ, Bool, true, false, Option, none, some, List, [], ◌∷◌, ◌++◌}
use yomochi.Base.Result.{Result}
use yomochi.Text.{Text}
use yomochi.Gateway.{
  Slot, Usage, Choice, Chunk, Event, usage_info, Fragments, content_events, chunk_fragments,
  chunk_events, chunk_usage, stream_call_with_tools,
}
use yomochi.Chat.Messages.{Message}

-- A tool call of a whole answer, of a function or of the other kind.
pub data ToolCall : Type 0 where
  function_call : Slot → ToolCall
  custom_call : ToolCall

pub record Answer : Type 0 where
  pub content : Option Text
  pub tool_calls : List ToolCall

-- Whether there is a choice, and whether the usage is given.
pub record Response : Type 0 where
  pub answer : Option Answer
  pub usage : Option Usage

-- A stream of chunks, which may end in an exception.
pub record Streamed (E : Type 0) : Type 0 where
  pub chunks : List Chunk
  pub failure : Option E

-- What the service answers, with the tools offered or not.
pub record Service (E : Type 0) : Type 0 where
  pub create : Bool → List Message → Result E Response
  pub stream : Bool → List Message → Streamed E

pub record ChatResponse : Type 0 where
  pub answer : Text
  pub prompt_tokens : ℕ
  pub completion_tokens : ℕ
  pub tools_used : List Text

pub record StreamUsage : Type 0 where
  pub prompt_tokens : ℕ
  pub completion_tokens : ℕ
  pub tools_used : List Text

pub data Item : Type 0 where
  token : Text → Item
  usage : StreamUsage → Item

-- What a generator yields, and the exception that ends it.
pub record Generated (E : Type 0) : Type 0 where
  pub items : List Item
  pub raises : Option E

abbrev pub usage_or_zero : Option Usage → Usage
usage_or_zero none = record { prompt_tokens = 0; completion_tokens = 0 }
usage_or_zero (some u) = u

abbrev pub tool_calls_of : Option Answer → List ToolCall
tool_calls_of none = []
tool_calls_of (some a) = a.tool_calls

abbrev pub text_or_empty : Option Text → Text
text_or_empty none = []
text_or_empty (some s) = s

abbrev pub content_of : Option Answer → Text
content_of none = []
content_of (some a) = text_or_empty a.content

unfoldable pub assembled : List ToolCall → List Slot
assembled [] = []
assembled (function_call s ∷ cs) = s ∷ assembled cs
assembled (custom_call ∷ cs) = assembled cs

-- The events of a stream with tools, of which the last is missing where it fails.
unfoldable pub sent_from : Fragments → List Chunk → List Event
unfolding chunk_fragments chunk_events
sent_from fs [] = []
sent_from fs (c ∷ cs) =
    let fs' = chunk_fragments c.choice fs in chunk_events c.choice fs' ++ sent_from fs' cs

unfoldable pub tool_events : {E : Type 0} → Streamed E → List Event
unfolding sent_from stream_call_with_tools
tool_events s = elim s.failure [
  | none ↦ stream_call_with_tools s.chunks
  | some e ↦ sent_from [] s.chunks
]

-- `stream_call`: texts, and the usage last.
abbrev pub text_events : Option Choice → List Event
text_events none = []
text_events (some choice) = content_events choice.content

unfoldable pub plain_from : Bool → Usage → List Chunk → List Event
unfolding content_events chunk_usage
plain_from true u [] = usage_info u ∷ []
plain_from false u [] = []
plain_from ends u (c ∷ cs) = text_events c.choice ++ plain_from ends (chunk_usage c u) cs

unfoldable pub stream_call : {E : Type 0} → Streamed E → List Event
unfolding plain_from
stream_call s =
    let begin = usage_or_zero none in
    elim s.failure [
      | none ↦ plain_from true begin s.chunks
      | some e ↦ plain_from false begin s.chunks
    ]
