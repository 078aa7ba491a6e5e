-- ===== src/RateLimit/Middleware.antt =====
-- `RateLimitMiddleware.__call__` and `_send_429` of app/inbound/http/middleware/rate_limit.py. The
-- bodies of responses are not modelled, and `math.ceil(ms / 1000)` is the rounded-up quotient.
pub mod Promise
use yomochi.Base.{
  ℕ, ◌+◌, ◌/◌, max, Bool, true, false, ◌&&◌, ◌==◌, Option, none, some, List, if◌then◌else◌,
}
use yomochi.Text.{Text, text_eq}
use yomochi.RateLimit.Gcra.{Store, Reply, gcra}
use yomochi.RateLimit.Policy.{
  Policy, skip, is_member, resolve_policy, emission_interval_ms, burst_capacity_ms,
}
use yomochi.RateLimit.Client.{HttpScope, RateKey, by_user, by_ip, key_for}

-- What the middleware does with a request: call the application, call it and add the
-- `X-RateLimit` headers, or send a 429 with its `Retry-After` and `X-RateLimit` headers.
pub data Action : Type 0 where
  call_app : Action
  call_with_headers : (limit remaining reset_s : ℕ) → Action
  send_429 : (retry_after_s limit reset_s : ℕ) → Action

-- The keys of Redis.
abbrev pub Keys : Type 0
Keys = RateKey → Store

unfoldable pub key_eq : RateKey → RateKey → Bool
unfolding text_eq
key_eq (by_user a (r, b)) (by_user c (s, d)) = text_eq a c && (r == s && b == d)
key_eq (by_ip a (r, b)) (by_ip c (s, d)) = text_eq a c && (r == s && b == d)
key_eq _ _ = false

unfoldable pub set_key : Keys → RateKey → Store → Keys
unfolding key_eq
set_key keys k store j = if key_eq k j then store else keys j

unfoldable pub ceil_seconds : ℕ → ℕ
ceil_seconds ms = max 1 ((ms + 999) / 1000)

unfoldable pub answer : Policy → Reply → Action
unfolding ceil_seconds
answer q r =
    if r.allowed
    then call_with_headers q.rate_per_minute r.remaining (ceil_seconds r.reset_ms)
    else send_429 (ceil_seconds r.retry_after_ms) q.rate_per_minute (ceil_seconds r.reset_ms)

-- The `try` around the script: a Redis that is down lets the request through.
unfoldable pub limit_key : Bool → ℕ → Policy → Option RateKey → Keys → Action × Keys
unfolding answer set_key ceil_seconds
limit_key redis_up now_ms q none keys =
    (send_429 (ceil_seconds 60000) q.rate_per_minute (ceil_seconds 60000), keys)
limit_key false now_ms q (some key) keys = (call_app, keys)
limit_key true now_ms q (some key) keys =
    let (reply, store) = gcra (emission_interval_ms q) (burst_capacity_ms q) now_ms (keys key) in
    (answer q reply, set_key keys key store)

module _ {Network : Type 0} (in_networks : List Network → Text → Bool) (digest : Text → Text)
    (trusted : List Network) (cookie_name : Text) where
  unfoldable pub handle : Bool → Bool → ℕ → HttpScope → Keys → Action × Keys
  unfolding limit_key is_member
  handle is_http redis_up now_ms scope keys =
      if is_http
      then (if is_member scope.path skip
          then (call_app, keys)
          else (let q = resolve_policy scope.path scope.method in
              limit_key redis_up now_ms q (key_for in_networks digest scope q trusted cookie_name)
                keys))
      else (call_app, keys)
