-- ===== src/RateLimit/Client.antt =====
-- Who is calling: `_read_cookie`, `_client_ip` and `_key_for` of
-- app/inbound/http/middleware/rate_limit.py. Header values are their Latin-1 code points, which
-- always decode. Whether an address is in a network, and SHA-256, are parameters: `in_networks` is
-- false on a text that is no address, and `digest` is the first 32 digits.
pub mod Spoofing
use yomochi.Base.{
  ℕ, Bool, true, false, not, Option, none, some, List, [], ◌∷◌, ◌++◌, map, select, find,
  if◌then◌else◌,
}
use mathlib.Core.List.{reverse}
use yomochi.Text.{Text, codes, text_eq, is_empty, strip}
use yomochi.Text.Split.{split, split_once}
use yomochi.RateLimit.Policy.{Policy, PolicyScope}

pub record HttpScope : Type 0 where
  pub path : Text
  pub method : Text
  pub headers : List (Text × Text)
  pub client : Option Text

-- The value of the cookie among the pairs of one header.
read_pairs : Text → List Text → Option Text
read_pairs name [] = none
read_pairs name (pair ∷ pairs) =
    let rest = read_pairs name pairs in
    elim (split_once b'=' pair) [
      | none ↦ rest
      | some (k, v) ↦ if text_eq (strip k) name then some (strip v) else rest
    ]

unfoldable pub read_cookie : Text → List (Text × Text) → Option Text
unfolding read_pairs
read_cookie cookie_name [] = none
read_cookie cookie_name ((name, value) ∷ headers) =
    let rest = read_cookie cookie_name headers in
    if text_eq name (codes "cookie")
    then elim (read_pairs cookie_name (split b';' value)) [ none ↦ rest | some v ↦ some v ]
    else rest

-- The first `x-forwarded-for` header.
unfoldable pub forwarded_for : List (Text × Text) → Option Text
forwarded_for [] = none
forwarded_for ((name, value) ∷ headers) =
    if text_eq name (codes "x-forwarded-for") then some value else forwarded_for headers

-- `[p.strip() for p in decoded.split(",") if p.strip()]`.
unfoldable pub hops : Text → List Text
hops value = select (λ p. not (is_empty p)) (map strip (split b',' value))

-- The walk from the right: the first hop that is not trusted, or else the leftmost.
unfoldable pub walk_hops : (Text → Bool) → Text → List Text → Text
walk_hops is_trusted peer_ip [] = peer_ip
walk_hops is_trusted peer_ip (leftmost ∷ rest) =
    elim (find (λ p. not (is_trusted p)) (reverse (leftmost ∷ rest))) [
      | none ↦ leftmost
      | some candidate ↦ candidate
    ]

-- The branches of `_client_ip` from the header on.
unfoldable pub forwarded_ip : (Text → Bool) → Text → Option Text → Text
unfolding hops walk_hops
forwarded_ip is_trusted peer_ip none = peer_ip
forwarded_ip is_trusted peer_ip (some header) = walk_hops is_trusted peer_ip (hops header)

module _ {Network : Type 0} (in_networks : List Network → Text → Bool) where
  unfoldable pub peer_or_forwarded : List Network → List (Text × Text) → Text → Text
  unfolding forwarded_ip forwarded_for
  peer_or_forwarded [] headers peer_ip = peer_ip
  peer_or_forwarded trusted headers peer_ip =
      if in_networks trusted peer_ip
      then forwarded_ip (in_networks trusted) peer_ip (forwarded_for headers)
      else peer_ip

  unfoldable pub client_ip : HttpScope → List Network → Option Text
  unfolding peer_or_forwarded is_empty
  client_ip scope trusted = elim scope.client [
    | none ↦ none
    | some peer_ip ↦
        if is_empty peer_ip then none else some (peer_or_forwarded trusted scope.headers peer_ip)
  ]

-- The Redis key: a digest of the session or an address, and the marker of the policy, its rate and
-- its burst. (The source writes them into one text.)
pub data RateKey : Type 0 where
  by_user : Text → ℕ × ℕ → RateKey
  by_ip : Text → ℕ × ℕ → RateKey

unfoldable pub policy_marker : Policy → ℕ × ℕ
policy_marker q = (q.rate_per_minute, q.burst)

unfoldable pub ip_key : Policy → Option Text → Option RateKey
unfolding policy_marker is_empty
ip_key q none = none
ip_key q (some ip) = if is_empty ip then none else some (by_ip ip (policy_marker q))

unfoldable pub user_key : (Text → Text) → Policy → Option Text → Option RateKey → Option RateKey
unfolding policy_marker is_empty
user_key digest q none fallback = fallback
user_key digest q (some cookie) fallback =
    if is_empty cookie then fallback else some (by_user (digest cookie) (policy_marker q))

unfoldable pub scope_key :
    (Text → Text) → Policy → PolicyScope → Option Text → Option Text → Option RateKey
unfolding ip_key user_key
scope_key digest q PolicyScope.user cookie ip = user_key digest q cookie (ip_key q ip)
scope_key digest q PolicyScope.ip cookie ip = ip_key q ip

unfoldable pub key_for :
    {Network : Type 0}
    → (List Network → Text → Bool)
    → (Text → Text)
    → HttpScope
    → Policy
    → List Network
    → Text
    → Option RateKey
unfolding scope_key client_ip
key_for in_networks digest scope q trusted cookie_name =
    scope_key digest q q.scope (read_cookie cookie_name scope.headers)
      (client_ip in_networks scope trusted)
