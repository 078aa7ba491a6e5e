-- ===== src/Gateway/Stream.antt =====
-- The events of a stream with tool calls: `stream_call_with_tools` of
-- app/outbound/adapters/openai/_gateway/gateway.py.
use yomochi.Base.{
  ◌≡◌, refl, sym, ap, ◌∙◌, true, false, Option, none, some, List, [], ◌∷◌, ◌++◌, map, append-nil,
  append_assoc, All,
}
use yomochi.Gateway.{
  Fragment, Usage, Choice, Chunk, Event, tool_calls_delta, usage_info, Fragments,
  accumulate_tool_calls, assemble_tool_calls, content_events, chunk_fragments, chunk_events,
  chunk_usage, stream_from, stream_call_with_tools,
}
use yomochi.Gateway.Calls.{Sent, call_of, IsStreamOf, assemble_tool_calls_sent}

-- The fragments and the text of a choice.
abbrev pub choice_calls : Option Choice → List Fragment
choice_calls none = []
choice_calls (some choice) = choice.tool_calls

abbrev pub choice_text : Option Choice → List Event
choice_text none = []
choice_text (some choice) = content_events choice.content

abbrev pub IsUnfinished : Option Choice → Type 0
IsUnfinished none = Unit
IsUnfinished (some choice) = choice.finished_tool_calls ≡ false

abbrev pub fragments_in : List Chunk → List Fragment
fragments_in [] = []
fragments_in (c ∷ cs) = choice_calls c.choice ++ fragments_in cs

abbrev pub contents_in : List Chunk → List Event
contents_in [] = []
contents_in (c ∷ cs) = choice_text c.choice ++ contents_in cs

abbrev pub usage_in : List Chunk → Usage → Usage
usage_in [] u = u
usage_in (c ∷ cs) u = usage_in cs (chunk_usage c u)

abbrev pub no_usage : Usage
no_usage = record { prompt_tokens = 0; completion_tokens = 0 }

accumulate_tool_calls-append :
    (xs ys : List Fragment) (fs : Fragments)
    → accumulate_tool_calls (xs ++ ys) fs ≡ accumulate_tool_calls ys (accumulate_tool_calls xs fs)
unfolding accumulate_tool_calls
accumulate_tool_calls-append [] ys fs = refl
accumulate_tool_calls-append (x ∷ xs) ys fs = accumulate_tool_calls-append xs ys _

chunk_fragments_calls :
    (o : Option Choice) (fs : Fragments)
    → chunk_fragments o fs ≡ accumulate_tool_calls (choice_calls o) fs
unfolding chunk_fragments accumulate_tool_calls
chunk_fragments_calls none fs = refl
chunk_fragments_calls (some choice) fs = refl

chunk_events_unfinished :
    (o : Option Choice) (fs : Fragments) → IsUnfinished o → chunk_events o fs ≡ choice_text o
unfolding chunk_events
chunk_events_unfinished none fs h = refl
chunk_events_unfinished (some choice) fs h = rw h (append-nil (content_events choice.content))

stream_from_unfinished :
    (cs rest : List Chunk) (fs : Fragments) (u : Usage)
    → All (λ c. IsUnfinished c.choice) cs
    → stream_from fs u (cs ++ rest)
      ≡ contents_in cs
        ++ stream_from (accumulate_tool_calls (fragments_in cs) fs) (usage_in cs u) rest
unfolding stream_from accumulate_tool_calls
stream_from_unfinished [] rest fs u h = refl
stream_from_unfinished (c ∷ cs) rest fs u (h, hs) =
    rw
      (
        chunk_events_unfinished c.choice (chunk_fragments c.choice fs) h,
        stream_from_unfinished cs rest (chunk_fragments c.choice fs) (chunk_usage c u) hs,
        chunk_fragments_calls c.choice fs,
        sym (accumulate_tool_calls-append (choice_calls c.choice) (fragments_in cs) fs),
      )
      (sym (append_assoc (choice_text c.choice) (contents_in cs) _))

stream_from_after :
    (cs : List Chunk) (fs : Fragments) (u : Usage)
    → All (λ c. c.choice ≡ none) cs
    → stream_from fs u cs ≡ usage_info (usage_in cs u) ∷ []
unfolding stream_from chunk_events chunk_fragments
stream_from_after [] fs u h = refl
stream_from_after (c ∷ cs) fs u (h, hs) =
    rw (h, chunk_events) (stream_from_after cs _ (chunk_usage c u) hs)

stream_from_last :
    (last : Chunk) (after : List Chunk) (choice : Choice) (fs : Fragments) (u : Usage)
    → last.choice ≡ some choice
    → choice.finished_tool_calls ≡ true
    → All (λ c. c.choice ≡ none) after
    → stream_from fs u (last ∷ after)
      ≡ content_events choice.content
        ++ (tool_calls_delta (assemble_tool_calls (accumulate_tool_calls choice.tool_calls fs))
            ∷ usage_info (usage_in (last ∷ after) u)
            ∷ [])
unfolding stream_from chunk_events chunk_fragments
stream_from_last last after choice fs u is_last finished no_more =
    rw
      (
        is_last,
        chunk_events,
        chunk_fragments,
        finished,
        stream_from_after after (accumulate_tool_calls choice.tool_calls fs) (chunk_usage last u)
            no_more,
      )
      (append_assoc (content_events choice.content) _ _)

usage_in-append :
    (xs ys : List Chunk) (u : Usage) → usage_in (xs ++ ys) u ≡ usage_in ys (usage_in xs u)
usage_in-append [] ys u = refl
usage_in-append (x ∷ xs) ys u = usage_in-append xs ys (chunk_usage x u)

-- A stream that sends the fragments of its calls in any mixture, finishes with `tool_calls` in one chunk
-- and has only chunks without a choice after it: the events are the texts that are not empty, in order,
-- then all the calls as they were sent, with their arguments put together, and last the usage.
pub stream_call_with_tools_sent :
    (calls : List Sent) (cs after : List Chunk) (last : Chunk) (choice : Choice)
    → All (λ c. IsUnfinished c.choice) cs
    → last.choice ≡ some choice
    → choice.finished_tool_calls ≡ true
    → All (λ c. c.choice ≡ none) after
    → IsStreamOf calls (fragments_in cs ++ choice.tool_calls)
    → stream_call_with_tools (cs ++ (last ∷ after))
      ≡ contents_in cs
        ++ (content_events choice.content
            ++ (tool_calls_delta (map call_of calls)
                ∷ usage_info (usage_in (cs ++ (last ∷ after)) no_usage)
                ∷ []))
unfolding stream_call_with_tools
stream_call_with_tools_sent calls cs after last choice h is_last finished no_more stream =
    let fs = accumulate_tool_calls (fragments_in cs) [] in
    let assembled : assemble_tool_calls (accumulate_tool_calls choice.tool_calls fs)
        ≡ map call_of calls =
      ap assemble_tool_calls
        (sym (accumulate_tool_calls-append (fragments_in cs) choice.tool_calls []))
      ∙ assemble_tool_calls_sent calls (fragments_in cs ++ choice.tool_calls) stream in
    stream_from_unfinished cs (last ∷ after) [] no_usage h
    ∙ ap (λ events. contents_in cs ++ events)
        (stream_from_last last after choice fs (usage_in cs no_usage) is_last finished no_more
          ∙ rw (assembled, usage_in-append cs (last ∷ after) no_usage) refl)
