-- ===== src/Tests/Requests.antt =====
-- The idempotency of requests.
use yomochi.Base.{
  ℕ, ◌+◌, ◌≡◌, refl, String, true, false, Option, none, some, [], ◌∷◌, map, if◌then◌else◌,
}
use yomochi.Text.{codes, text_eq}
use yomochi.Idempotency.{
  Request, Response, Utf8, Keys, Weather, set_lock, cache_key, is_guarded, session_scope,
  is_success, dispatch, resend,
}
use yomochi.Idempotency.Replay.{resend_once, dispatch-failure}

abbrev transfer : Request
transfer = record { method = "POST"; idempotency_key = some "k"; session_cookie = some "s" }

abbrev created : Response
created = record {
  status_code = 201;
  body = codes "{}";
  media_type = none;
  headers = ("content-type", "application/json") ∷ [];
}

abbrev broken : Response
broken = record { status_code = 500; body = []; media_type = none; headers = [] }

-- Applications that count their runs.
abbrev create : ℕ → Option Response × ℕ
create n = (some created, n + 1)

abbrev break : ℕ → Option Response × ℕ
break n = (some broken, n + 1)

abbrev no_digest : String → String
no_digest s = s

abbrev calm : Weather
calm = record {
  redis_up = true;
  polls = [];
  store_up = true;
  release_up = true;
  during = λ keys. keys;
}

abbrev no_keys : Keys
no_keys = record { cache = λ k. none; lock = λ k. false }

-- UTF-8 on the two bodies that occur.
abbrev utf8 : Utf8
utf8 = record { decode = λ b. if text_eq b (codes "{}") then "{}" else ""; encode = λ s. codes s }

resend_once_example :
    let (replies, keys', t) = resend utf8 create no_digest (calm ∷ calm ∷ []) transfer no_keys 4 in
    (t ≡ 5)
    × (replies ≡ some created ∷ map (λ w. some (record created { headers = [] })) (calm ∷ []))
unfolding cache_key is_guarded session_scope is_success text_eq
resend_once_example =
    resend_once utf8 create no_digest transfer ("s", "k") refl calm (calm ∷ []) no_keys 4 5 created
      refl refl refl refl refl refl refl refl (refl, tt)

dispatch-failure_example :
    let (reply, keys', t) = dispatch utf8 break no_digest calm transfer no_keys 4 in
    (reply ≡ some broken)
    × (t ≡ 5)
    × (keys'.lock ("s", "k") ≡ false)
    × (keys'.cache ≡ (set_lock true ("s", "k") no_keys).cache)
unfolding cache_key is_guarded session_scope is_success
dispatch-failure_example =
    dispatch-failure utf8 break no_digest transfer ("s", "k") refl calm no_keys 4 5 (some broken)
      refl refl refl refl refl refl
