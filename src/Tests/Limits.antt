-- ===== src/Tests/Limits.antt =====
-- The rate limiter.
use yomochi.Base.{
  ◌+◌, ◌*◌, ◌-◌, ◌≤◌, ◌≡◌, refl, Bool, true, none, some, List, [], ◌∷◌, arith, if◌then◌else◌,
}
use yomochi.Text.{
  Text, codes, text_eq, is_empty, strip, lstrip, rstrip, is_space, upper, starts_with,
}
use yomochi.Text.Split.{split, split_from}
use yomochi.RateLimit.Gcra.{Store, gcra, serve, passed, decide, get_tat}
use yomochi.RateLimit.Gcra.Window.{serve_window}
use yomochi.RateLimit.Gcra.Expiry.{limit, serve-limit}
use yomochi.RateLimit.Policy.{
  resolve_policy, resolve_from, policies, default_policy, emission_interval_ms, burst_capacity_ms,
  skip, is_member, matches_entry,
}
use yomochi.RateLimit.Client.{
  HttpScope, RateKey, by_ip, client_ip, key_for, forwarded_for, hops, scope_key, ip_key,
  policy_marker, peer_or_forwarded,
}
use yomochi.RateLimit.Client.Spoofing.{client_ip_unforgeable}
use yomochi.RateLimit.Middleware.{handle, Keys, limit_key, answer, ceil_seconds}
use yomochi.RateLimit.Middleware.Promise.{retry_after_honored, Calls}

abbrev used_up : Store
used_up = some (record { tat = 25000; expires_at = 36000 })

serve_window_example :
    passed (serve 12000 24000 (1000 ∷ 1500 ∷ 13500 ∷ []) used_up) * 12000 ≤ (20000 - 1000) + 24000
serve_window_example =
    serve_window 12000 24000 1000 20000 (1000 ∷ 1500 ∷ 13500 ∷ []) used_up (omega arith)
      (omega arith) (omega arith)

serve-limit_example :
    serve 12000 24000 (0 ∷ 0 ∷ 1 ∷ 60000 ∷ []) none ≡ limit 12000 24000 (0 ∷ 0 ∷ 1 ∷ 60000 ∷ []) 0
serve-limit_example = serve-limit 12000 24000 60000 (0 ∷ 0 ∷ 1 ∷ 60000 ∷ []) (omega arith)

abbrev login_path : Text
login_path = codes "/api/v1/auth/login"

-- One proxy, by its address.
in_networks : List Text → Text → Bool
in_networks networks a = is_member a networks

abbrev proxy : Text
proxy = codes "10.0.0.1"

abbrev caller : Text
caller = codes "9.9.9.9"

abbrev login : HttpScope
login = record {
  path = login_path;
  method = codes "POST";
  headers = (codes "x-forwarded-for", codes "8.8.8.8,9.9.9.9") ∷ [];
  client = some proxy;
}

client_ip_unforgeable_example :
    client_ip in_networks login (proxy ∷ [])
    ≡ some (if in_networks (proxy ∷ []) proxy then caller else proxy)
unfolding is_empty forwarded_for text_eq hops split split_from strip lstrip rstrip is_space
    is_member in_networks
client_ip_unforgeable_example =
    client_ip_unforgeable in_networks login proxy [] proxy (codes "8.8.8.8") caller caller refl refl
      refl refl

abbrev direct : HttpScope
direct = record { path = login_path; method = codes "POST"; headers = []; client = some caller }

abbrev digest : Text → Text
digest t = t

abbrev caller_key : RateKey
caller_key = by_ip caller (5, 2)

abbrev keys : Keys
keys k = used_up

retry_after_honored_example :
    Calls
      (handle in_networks digest []
        (codes "sid")
        true
        true
        13000
        direct
        (handle in_networks digest [] (codes "sid") true true 1000 direct keys).1).0
unfolding key_for scope_key ip_key policy_marker is_empty client_ip peer_or_forwarded resolve_policy
    resolve_from policies matches_entry starts_with text_eq upper handle limit_key is_member skip
    gcra decide get_tat answer ceil_seconds emission_interval_ms burst_capacity_ms default_policy
retry_after_honored_example =
    retry_after_honored in_networks digest [] (codes "sid") direct keys caller_key 1000 13000 12 5
      24 refl (omega arith) refl (omega arith)
