-- ===== src/Gateway/Slots.antt =====
-- The slots that fragments fill: `_accumulate_tool_calls` and `_assemble_tool_calls` of
-- app/outbound/adapters/openai/_gateway/gateway.py.
use yomochi.Base.{
  ℕ, ◌≤◌, ◌<◌, ◌≡◌, ◌≢◌, refl, sym, ap, ◌∙◌, inl, inr, Option, none, some, List, [], ◌∷◌, All,
  All-mono, select, ◌==◌, arith, Bool-cases, ==_iff, ==_refl, if◌then◌else◌, some_inj, ℕ-cases,
}
use yomochi.Gateway.{
  Fragment, Slot, Fragments, empty_slot, merge_fragment, accumulate_one, accumulate_tool_calls,
}

unfoldable pub lookup : ℕ → Fragments → Option Slot
lookup i [] = none
lookup i ((j, s) ∷ rest) = let later = lookup i rest in if j == i then some s else later

abbrev pub or_empty : Option Slot → Slot
or_empty none = empty_slot
or_empty (some s) = s

-- A slot after the fragments of its index.
unfoldable pub spell : Option Slot → List Fragment → Option Slot
unfolding merge_fragment
spell o [] = o
spell o (tc ∷ tcs) = spell (some (merge_fragment tc (or_empty o))) tcs

lookup-accumulate_one :
    (i : ℕ) (tc : Fragment) (fs : Fragments)
    → lookup i (accumulate_one tc fs)
      ≡ (if tc.index == i then some (merge_fragment tc (or_empty (lookup i fs))) else lookup i fs)
unfolding lookup accumulate_one
lookup-accumulate_one i tc [] = refl
lookup-accumulate_one i tc ((j, s) ∷ rest) = ground (arith, lookup-accumulate_one i tc rest)

-- Fragments of other indices do not touch a slot.
pub lookup-accumulate_tool_calls :
    (i : ℕ) (tcs : List Fragment) (fs : Fragments)
    → lookup i (accumulate_tool_calls tcs fs)
      ≡ spell (lookup i fs) (select (λ tc. tc.index == i) tcs)
unfolding accumulate_tool_calls spell
lookup-accumulate_tool_calls i [] fs = refl
lookup-accumulate_tool_calls i (tc ∷ tcs) fs = elim (Bool-cases (tc.index == i)) [
  | inl e ↦
      rw (e, spell)
        (lookup-accumulate_tool_calls i tcs (accumulate_one tc fs)
          ∙ ap (λ o. spell o (select (λ t. t.index == i) tcs))
              (lookup-accumulate_one i tc fs ∙ rw e refl))
  | inr e ↦ rw e (
      lookup-accumulate_tool_calls i tcs (accumulate_one tc fs)
      ∙ ap (λ o. spell o (select (λ t. t.index == i) tcs))
          (lookup-accumulate_one i tc fs ∙ rw e refl))
]

-- The keys grow.
abbrev pub Asc : Fragments → Type 0
Asc [] = Unit
Asc (p ∷ rest) = All (λ q. p.0 < q.0) rest × Asc rest

abbrev pub Keys : Fragments → Type 0
Keys [] = Unit
Keys (p ∷ rest) = All (λ q. q.0 ≢ p.0) rest × Keys rest

lookup_above : (i : ℕ) (fs : Fragments) → All (λ q. i < q.0) fs → lookup i fs ≡ none
unfolding lookup
lookup_above i [] h = refl
lookup_above i ((j, s) ∷ rest) (h, hs) = ground (arith, lookup_above i rest hs)

lookup_here : (i : ℕ) (s : Slot) (fs : Fragments) → lookup i ((i, s) ∷ fs) ≡ some s
unfolding lookup
lookup_here i s fs = rw (==_refl i) refl

lookup_away : (i j : ℕ) (s : Slot) (fs : Fragments) → j ≢ i → lookup i ((j, s) ∷ fs) ≡ lookup i fs
unfolding lookup
lookup_away i j s fs h = ground arith

some-none : {s : Slot} → some s ≢ none
some-none e = cc

-- The first keys of two sorted lists that hold the same are the same.
first_key :
    (i j : ℕ) (s t : Slot) (fs gs : Fragments)
    → All (λ q. j < q.0) gs
    → lookup i ((i, s) ∷ fs) ≡ lookup i ((j, t) ∷ gs)
    → j ≤ i
first_key i j s t fs gs b h = elim (ℕ-cases j i) [
  | inl le ↦ le
  | inr lt ↦
      let above : All (λ q. i < q.0) ((j, t) ∷ gs) = (lt, All-mono (λ q k. omega arith) gs b) in
      absurd (some-none {s = s} (sym (lookup_here i s fs) ∙ h ∙ lookup_above i ((j, t) ∷ gs) above))
]

rest_same :
    (i : ℕ) (s t : Slot) (fs gs : Fragments) (k : ℕ)
    → All (λ q. i < q.0) fs
    → All (λ q. i < q.0) gs
    → lookup k ((i, s) ∷ fs) ≡ lookup k ((i, t) ∷ gs)
    → lookup k fs ≡ lookup k gs
rest_same i s t fs gs k a b h = elim (Bool-cases (i == k)) [
  | inl e ↦
      let same = (==_iff i k).0 e in
      lookup_above k fs (rw (sym same) a) ∙ sym (lookup_above k gs (rw (sym same) b))
  | inr e ↦
      let away : i ≢ k = λ same. ground arith in
      sym (lookup_away k i s fs away) ∙ h ∙ lookup_away k i t gs away
]

cons_same :
    (i j : ℕ) (s t : Slot) (fs gs : Fragments)
    → j ≡ i
    → s ≡ t
    → fs ≡ gs
    → Path Fragments ((i, s) ∷ fs) ((j, t) ∷ gs)
cons_same i j s t fs gs e h k = rw (e, h, k) refl

-- Two sorted lists that hold the same are the same.
pub Asc-same :
    (fs gs : Fragments) → Asc fs → Asc gs → ((i : ℕ) → lookup i fs ≡ lookup i gs) → fs ≡ gs
Asc-same [] [] a b h = refl
Asc-same [] ((j, t) ∷ gs) a b h =
    absurd (some-none {s = t} (sym (lookup_here j t gs) ∙ sym (h j) ∙ lookup_above j [] tt))
Asc-same ((i, s) ∷ fs) [] a b h =
    absurd (some-none {s = s} (sym (lookup_here i s fs) ∙ h i ∙ lookup_above i [] tt))
Asc-same ((i, s) ∷ fs) ((j, t) ∷ gs) (a, fa) (b, gb) h =
    let ji = first_key i j s t fs gs b (h i) in
    let ij = first_key j i t s gs fs a (sym (h j)) in
    let same : j ≡ i = omega (arith, ji, ij) in
    cons_same i j s t fs gs same
      (some_inj s t (sym (lookup_here i s fs) ∙ h i ∙ rw same (lookup_here i t gs)))
      (Asc-same fs gs fa gb (λ k. rest_same i s t fs gs k a (rw (sym same) b) (h k ∙ rw same refl)))
