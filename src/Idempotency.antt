-- ===== src/Idempotency.antt =====
-- app/inbound/http/middleware/idempotency.py. The application behind the middleware is a parameter that
-- answers a request, or raises, and changes a state of its own. SHA-256 and UTF-8 are parameters. A body is
-- bytes. A response of Starlette's `call_next` has no media type: its Content-Type is a header. Keys of Redis do not expire here: a cached response is kept for a day.
pub mod Replay
use yomochi.Base.{
  ℕ, String, Bool, true, false, not, ◌&&◌, ◌||◌, Option, none, some, List, [], ◌∷◌, take, ltb, leb,
  ◌==ₛ◌, if◌then◌else◌,
}

pub record Request : Type 0 where
  pub method : String
  pub idempotency_key : Option String
  pub session_cookie : Option String

pub record Response : Type 0 where
  pub status_code : ℕ
  pub body : List ℕ
  pub media_type : Option String
  pub headers : List (String × String)

-- `decode("utf-8", errors="replace")` and `encode()`.
pub record Utf8 : Type 0 where
  pub decode : List ℕ → String
  pub encode : String → List ℕ

-- The JSON of a cached response.
pub record Cached : Type 0 where
  pub body : String
  pub status : ℕ
  pub media_type : Option String

-- The scope of the session and the digest of the key.
abbrev pub CacheKey : Type 0
CacheKey = String × String

pub record Keys : Type 0 where
  pub cache : CacheKey → Option Cached
  pub lock : CacheKey → Bool

-- What one request meets: whether Redis answers at its start, when it stores and when it releases the
-- lock, what its polls read (`none` is an error of Redis), and what other requests do to Redis while
-- the application runs.
pub record Weather : Type 0 where
  pub redis_up : Bool
  pub polls : List (Option (Option Cached))
  pub store_up : Bool
  pub release_up : Bool
  pub during : Keys → Keys

abbrev pub lock_max_polls : ℕ
lock_max_polls = 50

unfoldable pub is_guarded : String → Bool
is_guarded method = method ==ₛ "POST" || (method ==ₛ "PUT" || method ==ₛ "PATCH")

unfoldable pub key_eq : CacheKey → CacheKey → Bool
key_eq (a, b) (c, d) = a ==ₛ c && b ==ₛ d

unfoldable pub set_lock : Bool → CacheKey → Keys → Keys
unfolding key_eq
set_lock held k keys = record keys { lock = λ j. if key_eq k j then held else keys.lock j }

unfoldable pub set_cache : Cached → CacheKey → Keys → Keys
unfolding key_eq
set_cache c k keys = record keys { cache = λ j. if key_eq k j then some c else keys.cache j }

unfoldable pub encode_response : Utf8 → Response → Cached
encode_response utf8 r = record {
  body = utf8.decode r.body;
  status = r.status_code;
  media_type = r.media_type;
}

unfoldable pub decode_cached : Utf8 → Cached → Response
decode_cached utf8 c = record {
  status_code = c.status;
  body = if c.body ==ₛ "" then [] else utf8.encode c.body;
  media_type = c.media_type;
  headers = [];
}

unfoldable pub is_success : ℕ → Bool
is_success status = leb 200 status && ltb status 300

-- The cached result among the polls: an error of Redis ends them.
unfoldable pub poll_cached : List (Option (Option Cached)) → Option Cached
poll_cached [] = none
poll_cached (none ∷ reads) = none
poll_cached (some none ∷ reads) = poll_cached reads
poll_cached (some (some c) ∷ reads) = some c

unfoldable pub session_scope : (String → String) → Option String → String
session_scope sha256 none = "anon"
session_scope sha256 (some cookie) = if cookie ==ₛ "" then "anon" else sha256 cookie

-- The keys of a request that the middleware guards.
unfoldable pub cache_key : (String → String) → Request → Option CacheKey
unfolding is_guarded session_scope
cache_key sha256 q = elim q.idempotency_key [
  | none ↦ none
  | some key ↦
      if is_guarded q.method then some (session_scope sha256 q.session_cookie, sha256 key) else none
]

module _ {S : Type 0} (utf8 : Utf8) (call_next : S → Option Response × S) where
  -- The response or an exception, Redis, and the application's state.
  abbrev pub Reply : Type 0
  Reply = Option Response × Keys × S

  abbrev pub pass_on : Keys → S → Reply
  pass_on keys s = let (r, s') = call_next s in (r, keys, s')

  -- A success is cached, when Redis answers.
  unfoldable pub store_response : Weather → CacheKey → Option Response → Keys → Keys
  unfolding is_success set_cache encode_response
  store_response w k none keys = keys
  store_response w k (some r) keys =
      if is_success r.status_code && w.store_up
      then set_cache (encode_response utf8 r) k keys
      else keys

  unfoldable pub release : Weather → CacheKey → Keys → Keys
  unfolding set_lock
  release w k keys = if w.release_up then set_lock false k keys else keys

  -- The request that has taken the lock.
  unfoldable pub hold : Weather → CacheKey → Keys → S → Reply
  unfolding store_response release set_lock
  hold w k keys s =
      let (r, s') = call_next s in
      (r, release w k (store_response w k r (w.during (set_lock true k keys))), s')

  unfoldable pub wait : Weather → Keys → S → Reply
  unfolding poll_cached decode_cached
  wait w keys s = elim (poll_cached (take lock_max_polls w.polls)) [
    | none ↦ pass_on keys s
    | some c ↦ (some (decode_cached utf8 c), keys, s)
  ]

  unfoldable pub guarded : Weather → CacheKey → Keys → S → Reply
  unfolding hold wait decode_cached
  guarded w k keys s = elim (keys.cache k) [
    | some c ↦ (some (decode_cached utf8 c), keys, s)
    | none ↦ if keys.lock k then wait w keys s else hold w k keys s
  ]

  unfoldable pub dispatch : (String → String) → Weather → Request → Keys → S → Reply
  unfolding cache_key guarded
  dispatch sha256 w q keys s = elim (cache_key sha256 q) [
    | none ↦ pass_on keys s
    | some k ↦ if w.redis_up then guarded w k keys s else pass_on keys s
  ]

  -- The same request, sent again and again.
  unfoldable pub resend :
      (String → String) → List Weather → Request → Keys → S → List (Option Response) × Keys × S
  unfolding dispatch
  resend sha256 [] q keys s = ([], keys, s)
  resend sha256 (w ∷ ws) q keys s =
      let (r, keys', s') = dispatch sha256 w q keys s in
      let (rs, keys'', s'') = resend sha256 ws q keys' s' in (r ∷ rs, keys'', s'')
