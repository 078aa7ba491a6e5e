-- ===== src/Gateway/Calls.antt =====
-- The tool calls of a stream: `stream_call_with_tools` of
-- app/outbound/adapters/openai/_gateway/gateway.py, on a stream that sends calls in pieces.
use yomochi.Base.{
  ℕ, ◌+◌, ◌<◌, ◌≡◌, refl, sym, ap, ◌∙◌, inl, inr, Option, none, some, List, [], ◌∷◌, ◌++◌, map,
  append-nil, append_assoc, All, select, ◌==◌, arith, Bool-cases, if◌then◌else◌,
}
use yomochi.Text.{Text, is_empty}
use yomochi.Gateway.{
  Fragment, Slot, Fragments, set_text, add_text, merge_function, merge_fragment,
  accumulate_tool_calls, sort_fragments, slots_of, assemble_tool_calls,
}
use yomochi.Gateway.Slots.{lookup, spell, Asc, lookup-accumulate_tool_calls, Asc-same}
use yomochi.Gateway.Sorted.{Asc-sort_fragments, lookup-sort_fragments, Keys-accumulate_tool_calls}

-- A tool call that is sent: its arguments are what the first fragment carries, if it does, and pieces.
pub record Sent : Type 0 where
  pub id : Text
  pub name : Text
  pub opening : Option Text
  pub pieces : List Text

abbrev pub join : List Text → Text
join [] = []
join (p ∷ ps) = p ++ join ps

abbrev pub opened : Option Text → Text
opened none = []
opened (some p) = p

abbrev pub call_of : Sent → Slot
call_of c = record { id = c.id; name = c.name; arguments = opened c.opening ++ join c.pieces }

abbrev pub piece : ℕ → Text → Fragment
piece i p = record {
  index = i;
  id = none;
  function = some (record { name = none; arguments = some p });
}

-- The fragments of a call: the identifier and the name come first, with the opening of the arguments or
-- without arguments, and then the pieces.
abbrev pub fragments_of : ℕ → Sent → List Fragment
fragments_of i c =
    record {
      index = i;
      id = some c.id;
      function = some (record { name = some c.name; arguments = c.opening });
    }
    ∷ map (piece i) c.pieces

-- The call of an index, from the first index on.
abbrev pub nth_from : ℕ → ℕ → List Sent → Option Sent
nth_from k i [] = none
nth_from k i (c ∷ cs) = let later = nth_from (k + 1) i cs in if k == i then some c else later

abbrev pub sent_at : ℕ → Option Sent → List Fragment
sent_at i none = []
sent_at i (some c) = fragments_of i c

-- The fragments of each call are in the stream in their order; those of different calls may mix.
abbrev pub IsStreamOf : List Sent → List Fragment → Type 0
IsStreamOf calls tcs = (i : ℕ) → select (λ tc. tc.index == i) tcs ≡ sent_at i (nth_from 0 i calls)

add_text-append : (p old : Text) → add_text (some p) old ≡ old ++ p
unfolding add_text is_empty
add_text-append [] old = sym (append-nil old)
add_text-append (c ∷ p) old = refl

set_text_nil : (t : Text) → set_text (some t) [] ≡ t
unfolding set_text is_empty
set_text_nil [] = refl
set_text_nil (c ∷ t) = refl

spell_pieces :
    (i : ℕ) (s : Slot) (ps : List Text)
    → spell (some s) (map (piece i) ps) ≡ some (record s { arguments = s.arguments ++ join ps })
unfolding spell merge_fragment merge_function set_text
spell_pieces i s [] = rw (append-nil s.arguments) refl
spell_pieces i s (p ∷ ps) =
    spell_pieces i (record s { arguments = add_text (some p) s.arguments }) ps
    ∙ rw (add_text-append p s.arguments, append_assoc s.arguments p (join ps)) refl

add_text_nil : (o : Option Text) → add_text o [] ≡ opened o
unfolding add_text is_empty
add_text_nil none = refl
add_text_nil (some []) = refl
add_text_nil (some (c ∷ p)) = refl

spell-fragments_of : (i : ℕ) (c : Sent) → spell none (fragments_of i c) ≡ some (call_of c)
unfolding spell merge_fragment merge_function
spell-fragments_of i c =
    spell_pieces i _ c.pieces
    ∙ rw (set_text_nil c.id, set_text_nil c.name, add_text_nil c.opening) refl

abbrev numbered : ℕ → List Sent → Fragments
numbered k [] = []
numbered k (c ∷ cs) = (k, call_of c) ∷ numbered (k + 1) cs

numbered_above : (j k : ℕ) (cs : List Sent) → j < k → All (λ q. j < q.0) (numbered k cs)
numbered_above j k [] h = tt
numbered_above j k (c ∷ cs) h = (h, numbered_above j (k + 1) cs (omega arith))

numbered-Asc : (k : ℕ) (cs : List Sent) → Asc (numbered k cs)
numbered-Asc k [] = tt
numbered-Asc k (c ∷ cs) = (numbered_above k (k + 1) cs (omega arith), numbered-Asc (k + 1) cs)

lookup-numbered :
    (k i : ℕ) (cs : List Sent) → lookup i (numbered k cs) ≡ spell none (sent_at i (nth_from k i cs))
unfolding lookup spell
lookup-numbered k i [] = refl
lookup-numbered k i (c ∷ cs) = elim (Bool-cases (k == i)) [
  | inl e ↦ rw e (sym (spell-fragments_of i c))
  | inr e ↦ rw e (lookup-numbered (k + 1) i cs)
]

slots_of-numbered : (k : ℕ) (cs : List Sent) → slots_of (numbered k cs) ≡ map call_of cs
unfolding slots_of
slots_of-numbered k [] = refl
slots_of-numbered k (c ∷ cs) = ap (λ r. call_of c ∷ r) (slots_of-numbered (k + 1) cs)

-- The calls that are assembled are the calls that were sent, in their order.
pub assemble_tool_calls_sent :
    (calls : List Sent) (tcs : List Fragment)
    → IsStreamOf calls tcs
    → assemble_tool_calls (accumulate_tool_calls tcs []) ≡ map call_of calls
unfolding assemble_tool_calls lookup
assemble_tool_calls_sent calls tcs stream =
    let fs = accumulate_tool_calls tcs [] in
    let keys = Keys-accumulate_tool_calls tcs [] tt in
    let sorted : sort_fragments fs ≡ numbered 0 calls =
      Asc-same (sort_fragments fs) (numbered 0 calls) (Asc-sort_fragments fs keys)
        (numbered-Asc 0 calls)
        (λ i.
          lookup-sort_fragments i fs keys
          ∙ lookup-accumulate_tool_calls i tcs []
          ∙ ap (spell none) (stream i)
          ∙ sym (lookup-numbered 0 i calls)) in
    ap slots_of sorted ∙ slots_of-numbered 0 calls
