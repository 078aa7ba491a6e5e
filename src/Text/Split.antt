-- ===== src/Text/Split.antt =====
-- `s.split(sep)` for one character, and `s.split(sep, 1)` where the character is there.
use yomochi.Base.{ℕ, List, [], ◌∷◌, ◌++◌, Option, none, some, ◌≡◌, arith, ◌==◌, if◌then◌else◌}
use yomochi.Text.{Text}

-- Python's `split` never returns an empty list: `head` is the piece that is being read.
unfoldable pub split_from : ℕ → Text → Text → List Text
split_from sep head [] = head ∷ []
split_from sep head (c ∷ s) =
    if c == sep then head ∷ split_from sep [] s else split_from sep (head ++ (c ∷ [])) s

unfoldable pub split : ℕ → Text → List Text
unfolding split_from
split sep s = split_from sep [] s

-- The texts before and after the first separator, if there is one.
unfoldable pub split_once : ℕ → Text → Option (Text × Text)
split_once sep [] = none
split_once sep (c ∷ s) =
    if c == sep
    then some ([], s)
    else elim (split_once sep s) [ none ↦ none | some (k, v) ↦ some (c ∷ k, v) ]

split_from-append :
    (sep : ℕ) (head s t : Text)
    → split_from sep head (s ++ (sep ∷ t)) ≡ split_from sep head s ++ split sep t
unfolding split split_from
split_from-append sep head [] t = ground arith
split_from-append sep head (c ∷ s) t =
    ground (arith, split_from-append sep [] s t, split_from-append sep (head ++ (c ∷ [])) s t)

-- Joining two texts by the separator joins the lists of their pieces.
pub split-append : (sep : ℕ) (s t : Text) → split sep (s ++ (sep ∷ t)) ≡ split sep s ++ split sep t
unfolding split
split-append sep s t = split_from-append sep [] s t
