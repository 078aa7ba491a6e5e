-- ===== src/RateLimit/Policy/Burst.antt =====
-- Every policy lets a burst through, and what the burst is.
use native.Mathlib.Nat.{mul-div_cancel}
use yomochi.Base.{
  ℕ, ◌+◌, ◌-◌, ◌/◌, ◌≤◌, ◌<◌, min, ◌≡◌, ap, ◌∙◌, inl, inr, List, [], ◌∷◌, none, arith, All,
  Bool-cases,
}
use yomochi.Text.{Text}
use yomochi.RateLimit.Gcra.{serve, passed}
use yomochi.RateLimit.Gcra.Level.{level}
use yomochi.RateLimit.Gcra.Retry.{at_once, at_once_lem}
use yomochi.RateLimit.Policy.{
  Policy, PolicyEntry, policies, default_policy, matches_entry, resolve_from, resolve_policy,
  emission_interval_ms, burst_capacity_ms,
}

-- A policy whose rate is a divisor of a minute's milliseconds or less, and that has a burst.
abbrev pub IsUsable : Policy → Type 0
IsUsable q = (1 ≤ q.burst) × (1 ≤ q.rate_per_minute) × (q.rate_per_minute ≤ 60000)

resolve_from-IsUsable :
    (es : List PolicyEntry) (path method : Text)
    → All (λ e. IsUsable e.2) es
    → IsUsable (resolve_from es path method)
unfolding resolve_from default_policy
resolve_from-IsUsable [] path method h = omega arith
resolve_from-IsUsable (e ∷ es) path method h = elim (Bool-cases (matches_entry path method e)) [
  | inl hit ↦ rw hit h.0
  | inr miss ↦ rw miss (resolve_from-IsUsable es path method h.1)
]

pub resolve_policy-IsUsable : (path method : Text) → IsUsable (resolve_policy path method)
unfolding resolve_policy policies
resolve_policy-IsUsable path method = resolve_from-IsUsable policies path method (omega arith)

interval_pos : (q : Policy) → IsUsable q → 0 < emission_interval_ms q
unfolding emission_interval_ms
interval_pos q h = grind arith

pub interval-le-capacity : (q : Policy) → IsUsable q → emission_interval_ms q ≤ burst_capacity_ms q
unfolding burst_capacity_ms
interval-le-capacity q h = grind arith

capacity_div : (q : Policy) → IsUsable q → burst_capacity_ms q / emission_interval_ms q ≡ q.burst
unfolding burst_capacity_ms
capacity_div q h = mul-div_cancel q.burst (interval_pos q h)

-- Whatever the endpoint, of any number of requests at one time by a caller with no key, exactly
-- `burst` pass. (So the burst is the whole allowance, and not requests beyond a first one.)
pub resolve_policy_burst :
    (path method : Text) (now n : ℕ)
    → let q = resolve_policy path method in
      passed (serve (emission_interval_ms q) (burst_capacity_ms q) (at_once now n) none)
      ≡ min n q.burst
unfolding level
resolve_policy_burst path method now n =
    let q = resolve_policy path method in
    let u = resolve_policy-IsUsable path method in
    at_once_lem (emission_interval_ms q) (burst_capacity_ms q) now n none (interval_pos q u) tt
    ∙ ap (λ k. min n k)
        (ap (λ k. k / emission_interval_ms q) (room now (burst_capacity_ms q)) ∙ capacity_div q u)
  where
    room : (a b : ℕ) → a + b - a ≡ b
    room a b = omega arith
