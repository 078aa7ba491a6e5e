-- ===== src/Insight/Stream.antt =====
-- app/application/insights/use_cases/stream_insight.py: what the stream of an insight yields, from the
-- answers of its reads in order. The pause between two polls is left out.
use yomochi.Base.{
  ℕ, zero, suc, ◌≤◌, length, ◌≡◌, ◌≢◌, refl, sym, ap, ◌∙◌, inl, inr, Bool, true, false, not, ◌||◌,
  Option, none, some, List, [], ◌∷◌, map, take, find, arith, Bool-cases, if◌then◌else◌,
}
use yomochi.Base.Result.{Result, ok, err}
use yomochi.Insight.{Insight, InsightStatus, InsightError, insight_not_found, status_eq}

unfoldable pub is_terminal : InsightStatus → Bool
unfolding status_eq
is_terminal s = status_eq s InsightStatus.completed || status_eq s InsightStatus.failed

-- What is yielded, and whether the stream returns or raises.
abbrev pub Yields : Type 0
Yields = List Insight × Result InsightError (Unit {0})

abbrev pub yield_then : Insight → Yields → Yields
yield_then i (ys, r) = (i ∷ ys, r)

-- The loop over the polls, after a yield with status `last`.
unfoldable pub poll : InsightStatus → List (Option Insight) → Yields
unfolding is_terminal status_eq
poll last_status [] = ([], ok tt)
poll last_status (none ∷ reads) = ([], err insight_not_found)
poll last_status (some i ∷ reads) =
    let unchanged = poll last_status reads in
    let changed = poll i.status reads in
    if not (status_eq i.status last_status)
    then yield_then i (if is_terminal i.status then ([], ok tt) else changed)
    else unchanged

unfoldable pub stream_insight : ℕ → List (Option Insight) → Yields
unfolding poll is_terminal
stream_insight max_polls [] = ([], err insight_not_found)
stream_insight max_polls (none ∷ reads) = ([], err insight_not_found)
stream_insight max_polls (some i ∷ reads) =
    yield_then i
      (if is_terminal i.status then ([], ok tt) else poll i.status (take max_polls reads))

abbrev pub last : List Insight → Option Insight
last [] = none
last (i ∷ []) = some i
last (i ∷ j ∷ is) = last (j ∷ is)

-- Each insight has another status than the one before it, and only the last is terminal.
abbrev pub Changes : InsightStatus → List Insight → Type 0
Changes s [] = Unit
Changes s (i ∷ is) = (i.status ≢ s) × (is_terminal s ≡ false) × Changes i.status is

status_eq_refl : (s : InsightStatus) → status_eq s s ≡ true
unfolding status_eq
status_eq_refl InsightStatus.pending = refl
status_eq_refl InsightStatus.queued = refl
status_eq_refl InsightStatus.processing = refl
status_eq_refl InsightStatus.completed = refl
status_eq_refl InsightStatus.failed = refl

status_eq-false : (s t : InsightStatus) → status_eq s t ≡ false → s ≢ t
status_eq-false s t h e = cc (h, ap (λ x. status_eq s x) (sym e), status_eq_refl s)

status_eq-true : (s t : InsightStatus) → status_eq s t ≡ true → s ≡ t
unfolding status_eq
status_eq-true s t h = ground arith

poll-Changes :
    (s : InsightStatus) (reads : List (Option Insight))
    → is_terminal s ≡ false
    → Changes s (poll s reads).0
unfolding poll
poll-Changes s [] h = tt
poll-Changes s (none ∷ reads) h = tt
poll-Changes s (some i ∷ reads) h = elim (Bool-cases (status_eq i.status s)) [
  | inl e ↦ rw e (poll-Changes s reads h)
  | inr e ↦ elim (Bool-cases (is_terminal i.status)) [
    | inl t ↦ rw (e, t) (status_eq-false i.status s e, h, tt)
    | inr t ↦ rw (e, t) (status_eq-false i.status s e, h, poll-Changes i.status reads t)
  ]
]

-- A stream yields the row as it is first read, and from then on only rows whose status differs from
-- the one yielded before, none of them after a completed or failed one.
pub stream_insight-Changes :
    (max_polls : ℕ) (i : Insight) (reads : List (Option Insight))
    → (rest : List Insight) × ((stream_insight max_polls (some i ∷ reads)).0 ≡ i ∷ rest)
      × Changes i.status rest
unfolding stream_insight
stream_insight-Changes n i reads = elim (Bool-cases (is_terminal i.status)) [
  | inl t ↦ rw t ([], refl, tt)
  | inr t ↦ rw t (_, refl, poll-Changes i.status (take n reads) t)
]

abbrev pub reads_terminal : Insight → Bool
reads_terminal i = is_terminal i.status

take-all : {A : Type 0} (n : ℕ) (xs : List A) → length xs ≤ n → take n xs ≡ xs
take-all zero [] h = refl
take-all zero (x ∷ xs) h = ground (arith, h)
take-all (suc n) [] h = refl
take-all (suc n) (x ∷ xs) h = ap (λ t. x ∷ t) (take-all n xs (omega (arith, h)))

length-map : (xs : List Insight) → length (map some xs) ≡ length xs
length-map [] = refl
length-map (x ∷ xs) = ap suc (length-map xs)

last-cons :
    (i : Insight) (is : List Insight) {j : Insight} → last is ≡ some j → last (i ∷ is) ≡ some j
last-cons i [] e = cc
last-cons i (x ∷ is) e = e

poll-last :
    (s : InsightStatus) (xs : List Insight) (j : Insight)
    → is_terminal s ≡ false
    → find reads_terminal xs ≡ some j
    → let (ys, r) = poll s (map some xs) in (last ys ≡ some j) × (r ≡ ok tt)
unfolding poll
poll-last s [] j h e = cc
poll-last s (i ∷ xs) j h e = elim (Bool-cases (status_eq i.status s)) [
  | inl same ↦
      let live = ap is_terminal (status_eq-true i.status s same) ∙ h in
      rw same (poll-last s xs j h (rw live at e))
  | inr new ↦ elim (Bool-cases (is_terminal i.status)) [
    | inl t ↦ rw (new, t) (rw t at e, refl)
    | inr t ↦
        let (final, returns) = poll-last i.status xs j t (rw t at e) in
        rw (new, t) (last-cons i (poll i.status (map some xs)).0 final, returns)
  ]
]

-- When each poll, of no more than the cap, finds the row and one of them, or the first read, finds
-- it completed or failed, the stream returns and the last insight that it yields is the first
-- completed or failed one.
pub stream_insight-last :
    (max_polls : ℕ) (i : Insight) (polls : List Insight) (j : Insight)
    → find reads_terminal (i ∷ polls) ≡ some j
    → (length polls ≤ max_polls)
    → let (ys, r) = stream_insight max_polls (some i ∷ map some polls) in
      (last ys ≡ some j) × (r ≡ ok tt)
unfolding stream_insight
stream_insight-last n i polls j e enough = elim (Bool-cases (is_terminal i.status)) [
  | inl t ↦ rw t (rw t at e, refl)
  | inr t ↦
      let (final, returns) = poll-last i.status polls j t (rw t at e) in
      rw (t, take-all n (map some polls) (omega (arith, length-map polls, enough)))
        (last-cons i (poll i.status (map some polls)).0 final, returns)
]
