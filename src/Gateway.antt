-- ===== src/Gateway.antt =====
-- The stream of a chat completion with tools: `stream_call_with_tools` of
-- app/outbound/adapters/openai/_gateway/gateway.py on the chunks that the client gives it, without its
-- limiter, breaker and metrics. A field that Python takes as false when empty is none or empty here.
pub mod Slots
pub mod Sorted
pub mod Calls
pub mod Stream
use yomochi.Base.{
  ℕ, Bool, true, false, Option, none, some, List, [], ◌∷◌, ◌++◌, ltb, ◌==◌, if◌then◌else◌,
}
use yomochi.Text.{Text, is_empty}

-- A `ChoiceDeltaToolCall`, and its `function`.
pub record Function : Type 0 where
  pub name : Option Text
  pub arguments : Option Text

pub record Fragment : Type 0 where
  pub index : ℕ
  pub id : Option Text
  pub function : Option Function

-- A slot of the fragments, and the call that it becomes.
pub record Slot : Type 0 where
  pub id : Text
  pub name : Text
  pub arguments : Text

pub record Usage : Type 0 where
  pub prompt_tokens : ℕ
  pub completion_tokens : ℕ

pub record Choice : Type 0 where
  pub content : Option Text
  pub tool_calls : List Fragment
  pub finished_tool_calls : Bool

pub record Chunk : Type 0 where
  pub choice : Option Choice
  pub usage : Option Usage

pub data Event : Type 0 where
  content_delta : Text → Event
  tool_calls_delta : List Slot → Event
  usage_info : Usage → Event

abbrev pub Fragments : Type 0
Fragments = List (ℕ × Slot)

abbrev pub empty_slot : Slot
empty_slot = record { id = []; name = []; arguments = [] }

-- A text that is set, or else what was there.
unfoldable pub set_text : Option Text → Text → Text
unfolding is_empty
set_text none old = old
set_text (some s) old = if is_empty s then old else s

unfoldable pub add_text : Option Text → Text → Text
unfolding is_empty
add_text none old = old
add_text (some s) old = if is_empty s then old else old ++ s

unfoldable pub merge_function : Option Function → Slot → Slot
unfolding set_text add_text
merge_function none s = s
merge_function (some fn) s = record s {
  name = set_text fn.name s.name;
  arguments = add_text fn.arguments s.arguments;
}

unfoldable pub merge_fragment : Fragment → Slot → Slot
unfolding set_text merge_function
merge_fragment tc s = merge_function tc.function (record s { id = set_text tc.id s.id })

-- `fragments.setdefault(index, …)` and the change of the slot.
unfoldable pub accumulate_one : Fragment → Fragments → Fragments
unfolding merge_fragment
accumulate_one tc [] = (tc.index, merge_fragment tc empty_slot) ∷ []
accumulate_one tc ((i, s) ∷ rest) =
    let later = accumulate_one tc rest in
    if i == tc.index then (i, merge_fragment tc s) ∷ rest else (i, s) ∷ later

unfoldable pub accumulate_tool_calls : List Fragment → Fragments → Fragments
unfolding accumulate_one
accumulate_tool_calls [] fs = fs
accumulate_tool_calls (tc ∷ tcs) fs = accumulate_tool_calls tcs (accumulate_one tc fs)

-- `sorted`, by the keys, which differ.
unfoldable pub insert_fragment : ℕ × Slot → Fragments → Fragments
insert_fragment p [] = p ∷ []
insert_fragment p (q ∷ rest) =
    let later = insert_fragment p rest in if ltb q.0 p.0 then q ∷ later else p ∷ q ∷ rest

unfoldable pub sort_fragments : Fragments → Fragments
unfolding insert_fragment
sort_fragments [] = []
sort_fragments (p ∷ rest) = insert_fragment p (sort_fragments rest)

unfoldable pub slots_of : Fragments → List Slot
slots_of [] = []
slots_of ((i, s) ∷ rest) = s ∷ slots_of rest

unfoldable pub assemble_tool_calls : Fragments → List Slot
unfolding sort_fragments slots_of
assemble_tool_calls fs = slots_of (sort_fragments fs)

unfoldable pub content_events : Option Text → List Event
unfolding is_empty
content_events none = []
content_events (some s) = if is_empty s then [] else content_delta s ∷ []

-- What a chunk gives, with the fragments after it.
unfoldable pub chunk_fragments : Option Choice → Fragments → Fragments
unfolding accumulate_tool_calls
chunk_fragments none fs = fs
chunk_fragments (some choice) fs = accumulate_tool_calls choice.tool_calls fs

unfoldable pub chunk_events : Option Choice → Fragments → List Event
unfolding content_events assemble_tool_calls
chunk_events none fs = []
chunk_events (some choice) fs =
    content_events choice.content
    ++ (if choice.finished_tool_calls then tool_calls_delta (assemble_tool_calls fs) ∷ [] else [])

unfoldable pub chunk_usage : Chunk → Usage → Usage
chunk_usage c u = elim c.usage [ none ↦ u | some u' ↦ u' ]

-- The events of a stream that ends, from the fragments and the usage so far.
unfoldable pub stream_from : Fragments → Usage → List Chunk → List Event
unfolding chunk_fragments chunk_events chunk_usage
stream_from fs u [] = usage_info u ∷ []
stream_from fs u (c ∷ cs) =
    let fs' = chunk_fragments c.choice fs in
    chunk_events c.choice fs' ++ stream_from fs' (chunk_usage c u) cs

unfoldable pub stream_call_with_tools : List Chunk → List Event
unfolding stream_from
stream_call_with_tools = stream_from [] (record { prompt_tokens = 0; completion_tokens = 0 })
