-- ===== src/RateLimit/Policy.antt =====
-- app/inbound/http/middleware/rate_limit_policy.py.
pub mod Burst
use yomochi.Base.{
  ℕ, ◌+◌, ◌*◌, ◌/◌, max, Bool, true, false, ◌&&◌, ◌||◌, List, [], ◌∷◌, ltb, if◌then◌else◌,
}
use yomochi.Text.{Text, codes, text_eq, is_empty, upper, starts_with}

pub data PolicyScope : Type 0 where
  user ip : PolicyScope

pub record Policy : Type 0 where
  pub rate_per_minute : ℕ
  pub burst : ℕ
  pub scope : PolicyScope

abbrev policy : ℕ → ℕ → PolicyScope → Policy
policy r b s = record { rate_per_minute = r; burst = b; scope = s }

-- The method, the prefix of the path, and the policy.
abbrev pub PolicyEntry : Type 0
PolicyEntry = Text × Text × Policy

abbrev entry : Text → Text → Policy → PolicyEntry
entry m p q = (m, p, q)

unfoldable pub policies : List PolicyEntry
policies =
    entry (codes "") (codes "/api/v1/auth/login") (policy 5 2 PolicyScope.ip)
    ∷ entry (codes "") (codes "/api/v1/auth/register") (policy 3 1 PolicyScope.ip)
    ∷ entry (codes "") (codes "/api/v1/auth/password-reset/") (policy 3 1 PolicyScope.ip)
    ∷ entry (codes "POST") (codes "/api/v1/chat/stream") (policy 20 5 PolicyScope.user)
    ∷ entry (codes "POST") (codes "/api/v1/chat") (policy 20 5 PolicyScope.user)
    ∷ entry (codes "") (codes "/api/v1/insights/requests") (policy 10 3 PolicyScope.user)
    ∷ entry (codes "POST") (codes "/api/v1/ingestion/parse-receipt") (policy 10 2 PolicyScope.user)
    ∷ []

unfoldable pub default_policy : Policy
default_policy = policy 120 30 PolicyScope.user

unfoldable pub skip : List Text
skip =
    codes "/health"
    ∷ codes "/ready"
    ∷ codes "/metrics"
    ∷ codes "/docs"
    ∷ codes "/redoc"
    ∷ codes "/openapi.json"
    ∷ []

-- `path in SKIP`.
unfoldable pub is_member : Text → List Text → Bool
is_member path [] = false
is_member path (t ∷ ts) = text_eq path t || is_member path ts

unfoldable pub matches_entry : Text → Text → PolicyEntry → Bool
unfolding starts_with is_empty text_eq upper
matches_entry path method (m, prefix, q) =
    starts_with path prefix && (is_empty m || text_eq m (upper method))

-- The loop of `resolve_policy` over the entries that are left.
unfoldable pub resolve_from : List PolicyEntry → Text → Text → Policy
unfolding matches_entry default_policy
resolve_from [] path method = default_policy
resolve_from (e ∷ es) path method =
    if matches_entry path method e then e.2 else resolve_from es path method

unfoldable pub resolve_policy : Text → Text → Policy
unfolding resolve_from policies
resolve_policy path method = resolve_from policies path method

-- `emission_interval_ms` and `burst_capacity_ms` of the middleware's `__call__`.
unfoldable pub emission_interval_ms : Policy → ℕ
emission_interval_ms q = 60000 / max q.rate_per_minute 1

unfoldable pub burst_capacity_ms : Policy → ℕ
unfolding emission_interval_ms
burst_capacity_ms q = q.burst * emission_interval_ms q
