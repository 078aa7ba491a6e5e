-- ===== src/Idempotency/Replay.antt =====
-- What a repeated request gets, and what it makes of the application's state.
use yomochi.Base.{
  ◌≡◌, refl, sym, ap, ◌∙◌, ◌==ₛ◌, inl, inr, String, Bool, true, false, Option, none, some, List, [],
  ◌∷◌, map, All, eq_iff, Bool-cases,
}
use yomochi.Idempotency.{
  Request, Response, Utf8, Cached, CacheKey, Keys, Weather, key_eq, set_lock, set_cache,
  encode_response, decode_cached, is_success, cache_key, store_response, release, hold, guarded,
  dispatch, resend,
}

key_eq_refl : (k : CacheKey) → key_eq k k ≡ true
unfolding key_eq
key_eq_refl (a, b) = rw ((eq_iff a a).1 refl, (eq_iff b b).1 refl) refl

cache-release :
    {S : Type 0} (utf8 : Utf8) (call_next : S → Option Response × S) (w : Weather) (k : CacheKey)
    (keys : Keys)
    → (release utf8 call_next w k keys).cache ≡ keys.cache
unfolding release set_lock
cache-release utf8 call_next w k keys = elim (Bool-cases w.release_up) [
  | inl e ↦ rw e refl
  | inr e ↦ rw e refl
]

-- The answer of the application is a success.
abbrev pub succeeds : Option Response → Bool
succeeds none = false
succeeds (some r) = is_success r.status_code

store_response-failure :
    {S : Type 0} (utf8 : Utf8) (call_next : S → Option Response × S) (w : Weather) (k : CacheKey)
    (r : Option Response) (keys : Keys)
    → succeeds r ≡ false
    → store_response utf8 call_next w k r keys ≡ keys
unfolding store_response
store_response-failure utf8 call_next w k none keys e = refl
store_response-failure utf8 call_next w k (some r) keys e = rw (e, store_response) refl

-- Redis answers a request at its start.
abbrev pub IsUp : Weather → Type 0
IsUp w = w.redis_up ≡ true

module _ {S : Type 0} (utf8 : Utf8) (call_next : S → Option Response × S) (sha256 : String → String)
    (q : Request) (k : CacheKey) (key : cache_key sha256 q ≡ some k) where
  hold-cached :
      (w : Weather) (keys : Keys) (s s' : S) (r : Response)
      → call_next s ≡ (some r, s')
      → is_success r.status_code ≡ true
      → w.store_up ≡ true
      → (hold utf8 call_next w k keys s).1.cache k ≡ some (encode_response utf8 r)
  unfolding hold store_response set_cache
  hold-cached w keys s s' r runs ok stored =
      rw (runs, ok, stored)
        (elim (Bool-cases w.release_up) [
          | inl e ↦ rw (e, set_cache, key_eq_refl k) refl
          | inr e ↦ rw (e, set_cache, key_eq_refl k) refl
        ])

  dispatch-cached :
      (w : Weather) (keys : Keys) (s : S) (c : Cached)
      → IsUp w
      → keys.cache k ≡ some c
      → dispatch utf8 call_next sha256 w q keys s ≡ (some (decode_cached utf8 c), keys, s)
  unfolding dispatch guarded
  dispatch-cached w keys s c up e = rw (key, up, e, dispatch, guarded) refl

  dispatch-hold :
      (w : Weather) (keys : Keys) (s : S)
      → IsUp w
      → keys.cache k ≡ none
      → keys.lock k ≡ false
      → dispatch utf8 call_next sha256 w q keys s ≡ hold utf8 call_next w k keys s
  unfolding dispatch guarded
  dispatch-hold w keys s up e free = rw (key, up, e, free, dispatch, guarded) refl

  resend-cached :
      (ws : List Weather) (keys : Keys) (s : S) (c : Cached)
      → All IsUp ws
      → keys.cache k ≡ some c
      → resend utf8 call_next sha256 ws q keys s
        ≡ (map (λ w. some (decode_cached utf8 c)) ws, keys, s)
  unfolding resend
  resend-cached [] keys s c ups e = refl
  resend-cached (w ∷ ws) keys s c (up, ups) e =
      rw (dispatch-cached w keys s c up e, resend-cached ws keys s c ups e, resend) refl

  -- What is decoded from what was encoded.
  decode_cached-encode_response :
      (r : Response)
      → utf8.encode "" ≡ []
      → utf8.encode (utf8.decode r.body) ≡ r.body
      → decode_cached utf8 (encode_response utf8 r) ≡ record r { headers = [] }
  unfolding decode_cached encode_response
  decode_cached-encode_response r nothing readable = elim (Bool-cases (utf8.decode r.body ==ₛ "")) [
    | inl e ↦
        let empty = sym nothing ∙ ap utf8.encode (sym ((eq_iff _ "").0 e)) ∙ readable in
        rw e (ap (λ b. record r { body = b; headers = [] }) empty)
    | inr e ↦ rw e (ap (λ b. record r { body = b; headers = [] }) readable)
  ]

  -- A guarded request that is not cached or locked, and that the application answers with a
  -- success whose body is UTF-8, which Redis stores, runs it once however often it is sent again,
  -- one after the other, while Redis answers: the state is the one that the first run has left, and
  -- each later reply has the status, the bytes of the body and the media type of the first response,
  -- and none of its headers, among which a response of `call_next` has its Content-Type.
  pub resend_once :
      (w : Weather) (ws : List Weather) (keys : Keys) (s s' : S) (r : Response)
      → keys.cache k ≡ none
      → keys.lock k ≡ false
      → call_next s ≡ (some r, s')
      → is_success r.status_code ≡ true
      → utf8.encode "" ≡ []
      → utf8.encode (utf8.decode r.body) ≡ r.body
      → IsUp w
      → w.store_up ≡ true
      → All IsUp ws
      → let (replies, keys', t) = resend utf8 call_next sha256 (w ∷ ws) q keys s in
        (t ≡ s') × (replies ≡ some r ∷ map (λ w. some (record r { headers = [] })) ws)
  unfolding resend hold
  resend_once w ws keys s s' r absent free runs ok nothing readable up stored ups =
      let cached = hold-cached w keys s s' r runs ok stored in
      let replay = λ (v : Weather). some (record r { headers = [] }) in
      let (reply, keys', t) = hold utf8 call_next w k keys s in
      rw
        (
          dispatch-hold w keys s up absent free,
          resend-cached ws keys' t (encode_response utf8 r) ups cached,
          decode_cached-encode_response r nothing readable,
        )
        (ap (λ p. p.1) runs, ap (λ p. p.0 ∷ map replay ws) runs)

  -- A guarded request that is not cached or locked, and that the application fails, by an
  -- exception or by another status than a success, gets the application's answer, stores nothing
  -- and gives the lock back, while Redis answers.
  pub dispatch-failure :
      (w : Weather) (keys : Keys) (s s' : S) (r : Option Response)
      → keys.cache k ≡ none
      → keys.lock k ≡ false
      → call_next s ≡ (r, s')
      → succeeds r ≡ false
      → IsUp w
      → w.release_up ≡ true
      → let (reply, keys', t) = dispatch utf8 call_next sha256 w q keys s in
        (reply ≡ r)
        × (t ≡ s')
        × (keys'.lock k ≡ false)
        × (keys'.cache ≡ (w.during (set_lock true k keys)).cache)
  unfolding hold release set_lock
  dispatch-failure w keys s s' r absent free runs fails up released =
      let lost =
        store_response-failure utf8 call_next w k r (w.during (set_lock true k keys)) fails in
      rw (dispatch-hold w keys s up absent free, runs, lost, released, key_eq_refl k)
        (refl, refl, refl, refl)
