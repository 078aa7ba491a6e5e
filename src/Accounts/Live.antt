-- ===== src/Accounts/Live.antt =====
-- Which sessions live: app/outbound/adapters/redis/session_store.py.
use yomochi.Base.{
  ℕ, ◌≤◌, ◌<◌, ◌≡◌, ◌≢◌, refl, ◌⊎◌, Bool, true, false, not, ◌&&◌, ◌||◌, List, [], ◌∷◌, select, leb,
  ◌==◌, arith,
}
use yomochi.Accounts.Sessions.{
  Session, Stored, Member, SessionStore, is_entry, zrem, insert_member, zremrangebyscore, save,
  revoke, revoke_all,
}

-- The members hold an identifier for a user at least until a time.
unfoldable pub covers : ℕ → ℕ → ℕ → List Member → Bool
covers uid sid until [] = false
covers uid sid until (m ∷ ms) = (is_entry uid sid m && leb until m.score) || covers uid sid until ms

-- Each key that is not gone is its user's member until it is.
abbrev pub IsIndexed : ℕ → List Member → Stored → Type 0
IsIndexed now ms k =
    (k.sid ≡ k.session.id_)
    × ((k.gone_at ≤ now) ⊎ (covers k.session.user_id k.sid k.gone_at ms ≡ true))

-- The operations of the store, as time goes on.
pub data Reach : ℕ → SessionStore → Type 0 where
  start : Reach 0 (record { keys = []; members = [] })
  later : {now : ℕ} {r : SessionStore} (t : ℕ) → now ≤ t → Reach now r → Reach t r
  saved : {now : ℕ} {r : SessionStore} (s : Session) → Reach now r → Reach now (save now s r)
  revoked : {now : ℕ} {r : SessionStore} (sid uid : ℕ) → Reach now r → Reach now (revoke sid uid r)
  revoked_all : {now : ℕ} {r : SessionStore} (uid : ℕ) → Reach now r → Reach now (revoke_all uid r)

pub covers-insert_member :
    (uid sid until : ℕ) (m : Member) (ms : List Member)
    → covers uid sid until (insert_member m ms) ≡ covers uid sid until (m ∷ ms)
unfolding covers insert_member
covers-insert_member uid sid until m [] = refl
covers-insert_member uid sid until m (x ∷ xs) =
    ground (arith, covers-insert_member uid sid until m xs)

pub covers-zrem :
    (uid sid until u s : ℕ) (ms : List Member)
    → ((u ≡ uid) → s ≢ sid)
    → covers u s until (zrem uid sid ms) ≡ covers u s until ms
unfolding covers zrem
covers-zrem uid sid until u s [] other = refl
covers-zrem uid sid until u s (m ∷ ms) other =
    ground (arith, covers-zrem uid sid until u s ms other)

pub covers-zremrangebyscore :
    (uid max until u s : ℕ) (ms : List Member)
    → max < until
    → covers u s until (zremrangebyscore uid max ms) ≡ covers u s until ms
unfolding covers zremrangebyscore
covers-zremrangebyscore uid max until u s [] h = refl
covers-zremrangebyscore uid max until u s (m ∷ ms) h =
    ground (arith, covers-zremrangebyscore uid max until u s ms h)

pub covers_others :
    (uid until u s : ℕ) (ms : List Member)
    → u ≢ uid
    → covers u s until (select (λ m. not (m.uid == uid)) ms) ≡ covers u s until ms
unfolding covers
covers_others uid until u s [] h = refl
covers_others uid until u s (m ∷ ms) h = ground (arith, covers_others uid until u s ms h)
