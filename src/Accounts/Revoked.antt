-- ===== src/Accounts/Revoked.antt =====
-- A user without sessions, after `revoke_all` of app/outbound/adapters/redis/session_store.py leaves of a user's sessions.
use yomochi.Base.{
  ℕ, ◌-◌, ◌/◌, ◌≤◌, ◌≡◌, ◌≢◌, refl, ◌⊎◌, inl, inr, false, not, ◌&&◌, ◌||◌, none, some, List, [],
  ◌∷◌, All, All-mono, All-select, select, ltb, ◌==◌, arith, Bool-cases, Option-cases,
}
use yomochi.Accounts.Sessions.{
  Session, Stored, Member, SessionStore, second, del_key, zrem, insert_member, zadd,
  zremrangebyscore, save, get_key, get, revoke, del_keys, revoke_all,
}
use yomochi.Accounts.Live.{Reach}
use yomochi.Accounts.Revocation.{All-del_keys, Reach-IsIndexed, user_key_gone}

-- No session of the user is in the store at a time or later, and none is the user's member.
pub record IsRevoked (uid now : ℕ) (r : SessionStore) : Type 0 where
  pub no_key : All (λ k. (k.session.user_id ≢ uid) ⊎ (k.gone_at ≤ now)) r.keys
  pub no_member : All (λ m. m.uid ≢ uid) r.members

-- The store some time after, when no session has been saved for the user.
pub data After (uid from : ℕ) (r0 : SessionStore) : ℕ → SessionStore → Type 0 where
  at_once : After uid from r0 from r0
  waits :
      {now : ℕ} {r : SessionStore} (t : ℕ)
      → now ≤ t
      → After uid from r0 now r
      → After uid from r0 t r
  saves :
      {now : ℕ} {r : SessionStore} (s : Session)
      → s.user_id ≢ uid
      → After uid from r0 now r
      → After uid from r0 now (save now s r)
  revokes :
      {now : ℕ} {r : SessionStore} (sid u : ℕ)
      → After uid from r0 now r
      → After uid from r0 now (revoke sid u r)
  revokes_all :
      {now : ℕ} {r : SessionStore} (u : ℕ)
      → After uid from r0 now r
      → After uid from r0 now (revoke_all u r)

All-kept :
    (P : Stored → Type 0) (ms : List Member) (ks : List Stored) → All P ks → All P (del_keys ms ks)
unfolding del_keys del_key
All-kept P [] ks h = h
All-kept P (m ∷ ms) ks h = All-kept P ms (del_key m.sid ks) (All-select P _ ks h)

All-insert_member :
    (P : Member → Type 0) (m : Member) (ms : List Member)
    → P m
    → All P ms
    → All P (insert_member m ms)
unfolding insert_member
All-insert_member P m [] h hs = (h, tt)
All-insert_member P m (x ∷ xs) h (k, ks) =
    elim (Bool-cases (ltb m.score x.score || (m.score == x.score && ltb m.sid x.sid))) [
      | inl e ↦ rw e (h, (k, ks))
      | inr e ↦ rw e (k, All-insert_member P m xs h ks)
    ]

none_of_user :
    (uid : ℕ) (ms : List Member) → All (λ m. m.uid ≢ uid) (select (λ m. not (m.uid == uid)) ms)
none_of_user uid [] = tt
none_of_user uid (m ∷ ms) = elim (Bool-cases (m.uid == uid)) [
  | inl e ↦ rw e (none_of_user uid ms)
  | inr e ↦ rw e ((λ same. ground arith), none_of_user uid ms)
]

pub revoke_all-IsRevoked :
    (uid now : ℕ) (r : SessionStore) → Reach now r → IsRevoked uid now (revoke_all uid r)
unfolding revoke_all
revoke_all-IsRevoked uid now r reach = record {
  no_key =
      All-mono {Q = λ k. (k.session.user_id ≢ uid) ⊎ (k.gone_at ≤ now)}
        (λ k i. user_key_gone now uid r k i.0.1 i.1)
        (del_keys (select (λ m. m.uid == uid) r.members) r.keys)
        (All-del_keys _ (select (λ m. m.uid == uid) r.members) r.keys
          (Reach-IsIndexed now r reach));
  no_member = none_of_user uid r.members;
}

save-IsRevoked :
    (uid now : ℕ) (s : Session) (r : SessionStore)
    → s.user_id ≢ uid
    → IsRevoked uid now r
    → IsRevoked uid now (save now s r)
unfolding save zadd zremrangebyscore del_key zrem
save-IsRevoked uid now s r other h = elim (Bool-cases ((s.expires_at - now) / second == 0)) [
  | inl gone ↦ rw gone h
  | inr live ↦ rw live (record {
    no_key = (inl other, All-select _ _ r.keys h.no_key);
    no_member =
        All-select _ _ _
          (All-insert_member (λ m. m.uid ≢ uid) _ _ other (All-select _ _ r.members h.no_member));
  })
]

pub After-IsRevoked :
    (uid from : ℕ) (r0 : SessionStore) (t : ℕ) (r : SessionStore)
    → IsRevoked uid from r0
    → After uid from r0 t r
    → IsRevoked uid t r
unfolding revoke revoke_all del_key zrem
After-IsRevoked uid from r0 t r h at_once = h
After-IsRevoked uid from r0 t r h (waits {now = before} t' le after) =
    let i = After-IsRevoked uid from r0 before r h after in
    record {
      no_key =
          All-mono (λ k d. elim d [ inl other ↦ inl other | inr gone ↦ inr (omega arith) ]) r.keys
            i.no_key;
      no_member = i.no_member;
    }
After-IsRevoked uid from r0 t r h (saves {r = q} s other after) =
    save-IsRevoked uid t s q other (After-IsRevoked uid from r0 t q h after)
After-IsRevoked uid from r0 t r h (revokes {r = q} sid u after) =
    let i = After-IsRevoked uid from r0 t q h after in
    record {
      no_key = All-select _ _ q.keys i.no_key;
      no_member = All-select _ _ q.members i.no_member;
    }
After-IsRevoked uid from r0 t r h (revokes_all {r = q} u after) =
    let i = After-IsRevoked uid from r0 t q h after in
    record {
      no_key = All-kept _ (select (λ m. m.uid == u) q.members) q.keys i.no_key;
      no_member = All-select _ _ q.members i.no_member;
    }

get_key-IsRevoked :
    (uid now sid : ℕ) (ks : List Stored) (s : Session)
    → All (λ k. (k.session.user_id ≢ uid) ⊎ (k.gone_at ≤ now)) ks
    → get_key now sid ks ≡ some s
    → s.user_id ≢ uid
unfolding get_key
get_key-IsRevoked uid now sid [] s h e = cc
get_key-IsRevoked uid now sid (k ∷ ks) s (h, hs) e =
    ground (arith, get_key-IsRevoked uid now sid ks s hs)

not_eq : (a b : ℕ) → a ≢ b → (a == b) ≡ false
not_eq a b h = ground arith

-- Of a store in which the user's sessions are revoked, none is read for the user.
pub get-IsRevoked :
    (uid now sid : ℕ) (r : SessionStore) → IsRevoked uid now r → get now sid uid r ≡ none
unfolding get
get-IsRevoked uid now sid r h = elim (Option-cases (get_key now sid r.keys)) [
  | inl missing ↦ rw (missing, get) refl
  | inr (s, there) ↦
      let other : (s.user_id == uid) ≡ false =
        not_eq s.user_id uid (get_key-IsRevoked uid now sid r.keys s h.no_key there) in
      rw (there, get, other) refl
]
