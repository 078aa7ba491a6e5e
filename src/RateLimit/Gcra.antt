-- ===== src/RateLimit/Gcra.antt =====
-- The Lua script `_GCRA_LUA` of app/inbound/http/middleware/rate_limit.py, and the Redis key that it
-- reads and writes. Times are in milliseconds. Redis runs the script at the time `now` that it is
-- given, and drops a key from the moment on at which its time to live has passed.
-- Lua's numbers are signed. `allow_at` stops at 0 here: it is only compared with `now`, which is not
-- negative, and the other differences are taken where they are not negative.
pub mod Level
pub mod Window
pub mod Retry
pub mod Expiry
use yomochi.Base.{
  ℕ, ◌+◌, ◌-◌, ◌/◌, Bool, true, false, Option, none, some, List, [], ◌∷◌, ltb, leb, if◌then◌else◌,
}

pub record Entry : Type 0 where
  pub tat : ℕ
  pub expires_at : ℕ

-- The key is missing or has an entry.
abbrev pub Store : Type 0
Store = Option Entry

-- `tonumber(redis.call('GET', KEYS[1]) or ARGV[1])`.
unfoldable pub get_tat : Store → ℕ → ℕ
get_tat none now = now
get_tat (some e) now = if leb e.expires_at now then now else e.tat

pub record Reply : Type 0 where
  pub allowed : Bool
  pub remaining : ℕ
  pub reset_ms : ℕ
  pub retry_after_ms : ℕ

-- The two branches, once the stored time has been raised to `now`.
unfoldable pub decide : ℕ → ℕ → ℕ → ℕ → Store → Reply × Store
decide interval burst now tat store =
    let new_tat = tat + interval in
    let allow_at = new_tat - burst in
    if leb allow_at now
    then (
      record {
        allowed = true;
        remaining = (burst - (new_tat - now)) / interval;
        reset_ms = new_tat - now;
        retry_after_ms = 0;
      },
      some (record { tat = new_tat; expires_at = now + (burst + interval) }),
    )
    else (
      record {
        allowed = false;
        remaining = 0;
        reset_ms = tat - now;
        retry_after_ms = allow_at - now;
      },
      store,
    )

unfoldable pub gcra : ℕ → ℕ → ℕ → Store → Reply × Store
unfolding get_tat decide
gcra interval burst now store =
    let tat = get_tat store now in
    decide interval burst now (if ltb tat now then now else tat) store

-- The replies to requests at the given times, in order.
unfoldable pub serve : ℕ → ℕ → List ℕ → Store → List Reply
unfolding gcra
serve interval burst [] store = []
serve interval burst (now ∷ times) store =
    let (reply, store') = gcra interval burst now store in reply ∷ serve interval burst times store'

-- How many of the replies let their request pass.
unfoldable pub passed : List Reply → ℕ
passed [] = 0
passed (r ∷ rs) = (if r.allowed then 1 else 0) + passed rs
