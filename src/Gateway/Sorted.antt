-- ===== src/Gateway/Sorted.antt =====
-- The sorting of the slots: `_accumulate_tool_calls` and `_assemble_tool_calls` of
-- app/outbound/adapters/openai/_gateway/gateway.py.
use yomochi.Base.{
  ℕ, ◌<◌, ◌≡◌, ◌≢◌, refl, ap, ◌∙◌, inl, inr, some, List, [], ◌∷◌, All, All-mono, ltb, ◌==◌, arith,
  Bool-cases, if◌then◌else◌, ltb→lt,
}
use yomochi.Gateway.{
  Fragment, Slot, Fragments, accumulate_one, accumulate_tool_calls, insert_fragment, sort_fragments,
}
use yomochi.Gateway.Slots.{lookup, Asc, Keys}

-- Sorting changes no slot.
lookup-insert_fragment :
    (i : ℕ) (p : ℕ × Slot) (fs : Fragments)
    → All (λ q. q.0 ≢ p.0) fs
    → lookup i (insert_fragment p fs) ≡ lookup i (p ∷ fs)
unfolding lookup insert_fragment
lookup-insert_fragment i (j, s) [] f = refl
lookup-insert_fragment i (j, s) ((k, t) ∷ rest) (f, fs) =
    ground (arith, lookup-insert_fragment i (j, s) rest fs)

All-insert_fragment :
    (P : ℕ × Slot → Type 0) (p : ℕ × Slot) (fs : Fragments)
    → P p
    → All P fs
    → All P (insert_fragment p fs)
unfolding insert_fragment
All-insert_fragment P p [] h hs = (h, tt)
All-insert_fragment P p (q ∷ rest) h (k, ks) = elim (Bool-cases (ltb q.0 p.0)) [
  | inl e ↦ rw e (k, All-insert_fragment P p rest h ks)
  | inr e ↦ rw e (h, (k, ks))
]

Asc-insert_fragment :
    (p : ℕ × Slot) (fs : Fragments) → All (λ q. q.0 ≢ p.0) fs → Asc fs → Asc (insert_fragment p fs)
unfolding insert_fragment
Asc-insert_fragment p [] f a = (tt, tt)
Asc-insert_fragment p (q ∷ rest) (f, fs) (a, r) = elim (Bool-cases (ltb q.0 p.0)) [
  | inl e ↦
      rw e (All-insert_fragment _ p rest (ltb→lt q.0 p.0 e) a, Asc-insert_fragment p rest fs r)
  | inr e ↦
      let below : p.0 < q.0 = ground arith in
      rw e ((below, All-mono (λ r k. omega arith) rest a), (a, r))
]

All-sort_fragments : (P : ℕ × Slot → Type 0) (fs : Fragments) → All P fs → All P (sort_fragments fs)
unfolding sort_fragments
All-sort_fragments P [] h = tt
All-sort_fragments P (p ∷ rest) (h, hs) = All-insert_fragment P p _ h (All-sort_fragments P rest hs)

pub Asc-sort_fragments : (fs : Fragments) → Keys fs → Asc (sort_fragments fs)
unfolding sort_fragments
Asc-sort_fragments [] k = tt
Asc-sort_fragments (p ∷ rest) (k, ks) =
    Asc-insert_fragment p _ (All-sort_fragments _ rest k) (Asc-sort_fragments rest ks)

pub lookup-sort_fragments :
    (i : ℕ) (fs : Fragments) → Keys fs → lookup i (sort_fragments fs) ≡ lookup i fs
unfolding sort_fragments lookup
lookup-sort_fragments i [] k = refl
lookup-sort_fragments i ((j, s) ∷ rest) (k, ks) =
    lookup-insert_fragment i (j, s) _ (All-sort_fragments _ rest k)
    ∙ ap (λ o. if j == i then some s else o) (lookup-sort_fragments i rest ks)

All-accumulate_one :
    (k : ℕ) (tc : Fragment) (fs : Fragments)
    → tc.index ≢ k
    → All (λ q. q.0 ≢ k) fs
    → All (λ q. q.0 ≢ k) (accumulate_one tc fs)
unfolding accumulate_one
All-accumulate_one k tc [] h a = (h, tt)
All-accumulate_one k tc ((i, s) ∷ rest) h (a, b) = elim (Bool-cases (i == tc.index)) [
  | inl e ↦ rw e (a, b)
  | inr e ↦ rw e (a, All-accumulate_one k tc rest h b)
]

Keys-accumulate_one : (tc : Fragment) (fs : Fragments) → Keys fs → Keys (accumulate_one tc fs)
unfolding accumulate_one
Keys-accumulate_one tc [] k = (tt, tt)
Keys-accumulate_one tc ((i, s) ∷ rest) (k, ks) = elim (Bool-cases (i == tc.index)) [
  | inl e ↦ rw e (k, ks)
  | inr e ↦
      rw e (All-accumulate_one i tc rest (λ same. ground arith) k, Keys-accumulate_one tc rest ks)
]

pub Keys-accumulate_tool_calls :
    (tcs : List Fragment) (fs : Fragments) → Keys fs → Keys (accumulate_tool_calls tcs fs)
unfolding accumulate_tool_calls
Keys-accumulate_tool_calls [] fs k = k
Keys-accumulate_tool_calls (tc ∷ tcs) fs k =
    Keys-accumulate_tool_calls tcs (accumulate_one tc fs) (Keys-accumulate_one tc fs k)
