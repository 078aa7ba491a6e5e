-- ===== src/Accounts/Sessions.antt =====
-- The sessions in Redis: app/outbound/adapters/redis/session_store.py. A session has a key of its own
-- that expires, and the identifier of the session is in the sorted set of its user.
use yomochi.Base.{
  ℕ, ◌+◌, ◌-◌, ◌*◌, ◌/◌, Bool, not, ◌&&◌, ◌||◌, Option, none, some, List, [], ◌∷◌, select, ltb, leb,
  ◌==◌, if◌then◌else◌,
}
use yomochi.Text.{Text}

pub record Session : Type 0 where
  pub id_ : ℕ
  pub user_id : ℕ
  pub expires_at : ℕ
  pub user_agent : Text
  pub ip : Text

-- The value of a session's key, and the time from which the key is gone.
pub record Stored : Type 0 where
  pub sid : ℕ
  pub session : Session
  pub gone_at : ℕ

-- A member of a user's sorted set.
pub record Member : Type 0 where
  pub uid : ℕ
  pub sid : ℕ
  pub score : ℕ

pub record SessionStore : Type 0 where
  pub keys : List Stored
  pub members : List Member

abbrev pub second : ℕ
second = 1000000

unfoldable pub del_key : ℕ → List Stored → List Stored
del_key sid = select (λ k. not (k.sid == sid))

abbrev pub is_entry : ℕ → ℕ → Member → Bool
is_entry uid sid m = m.uid == uid && m.sid == sid

unfoldable pub zrem : ℕ → ℕ → List Member → List Member
zrem uid sid = select (λ m. not (is_entry uid sid m))

-- Below the members with smaller scores.
unfoldable pub insert_member : Member → List Member → List Member
insert_member m [] = m ∷ []
insert_member m (x ∷ xs) =
    let rest = insert_member m xs in
    if ltb m.score x.score || (m.score == x.score && ltb m.sid x.sid) then m ∷ x ∷ xs else x ∷ rest

unfoldable pub zadd : ℕ → ℕ → ℕ → List Member → List Member
unfolding zrem insert_member
zadd uid sid score ms =
    insert_member (record { uid = uid; sid = sid; score = score }) (zrem uid sid ms)

-- `zremrangebyscore` from 0.
unfoldable pub zremrangebyscore : ℕ → ℕ → List Member → List Member
zremrangebyscore uid max = select (λ m. not (m.uid == uid && leb m.score max))

unfoldable pub save : ℕ → Session → SessionStore → SessionStore
unfolding del_key zadd zremrangebyscore
save now s r =
    let ttl = (s.expires_at - now) / second in
    if ttl == 0 then r else record {
      keys =
          record { sid = s.id_; session = s; gone_at = now + ttl * second } ∷ del_key s.id_ r.keys;
      members = zremrangebyscore s.user_id now (zadd s.user_id s.id_ s.expires_at r.members);
    }

-- The value of a key that is not gone.
unfoldable pub get_key : ℕ → ℕ → List Stored → Option Session
get_key now sid [] = none
get_key now sid (k ∷ ks) =
    let rest = get_key now sid ks in
    if k.sid == sid && ltb now k.gone_at then some k.session else rest

unfoldable pub get : ℕ → ℕ → ℕ → SessionStore → Option Session
unfolding get_key
get now sid uid r = elim (get_key now sid r.keys) [
  | none ↦ none
  | some s ↦ if not (s.user_id == uid) then none else if leb s.expires_at now then none else some s
]

unfoldable pub revoke : ℕ → ℕ → SessionStore → SessionStore
unfolding del_key zrem
revoke sid uid r = record { keys = del_key sid r.keys; members = zrem uid sid r.members }

unfoldable pub read_all : ℕ → List Member → List Stored → List Session
unfolding get_key
read_all now [] ks = []
read_all now (m ∷ ms) ks =
    let rest = read_all now ms ks in elim (get_key now m.sid ks) [ none ↦ rest | some s ↦ s ∷ rest ]

unfoldable pub list_active : ℕ → ℕ → SessionStore → List Session
unfolding read_all
list_active now uid r =
    read_all now (select (λ m. m.uid == uid && leb now m.score) r.members) r.keys

-- The keys of the members of a set are deleted.
unfoldable pub del_keys : List Member → List Stored → List Stored
unfolding del_key
del_keys [] ks = ks
del_keys (m ∷ ms) ks = del_keys ms (del_key m.sid ks)

unfoldable pub revoke_all : ℕ → SessionStore → SessionStore
unfolding del_keys
revoke_all uid r = record {
  keys = del_keys (select (λ m. m.uid == uid) r.members) r.keys;
  members = select (λ m. not (m.uid == uid)) r.members;
}
