-- ===== src/Accounts/Revocation.antt =====
-- What `revoke_all` of app/outbound/adapters/redis/session_store.py leaves of a user's sessions.
use yomochi.Base.{
  ℕ, ◌+◌, ◌-◌, ◌*◌, ◌/◌, ◌≤◌, ◌<◌, ◌≡◌, ◌≢◌, refl, sym, ap, ◌∙◌, ◌⊎◌, inl, inr, Bool, true, false,
  not, List, [], ◌∷◌, All, All-mono, select, ◌==◌, arith, Bool-cases, ==_iff, ℕ-cases,
}
use yomochi.Accounts.Sessions.{
  Session, Stored, Member, SessionStore, second, del_key, zrem, zadd, zremrangebyscore, save,
  revoke, del_keys, revoke_all,
}
use yomochi.Accounts.Live.{
  covers, IsIndexed, Reach, start, later, saved, revoked, revoked_all, covers-insert_member,
  covers-zrem, covers-zremrangebyscore, covers_others,
}

true-false : true ≢ false
true-false e = cc

All-del_key {κ} :
    (P : Stored → Type κ) (sid : ℕ) (ks : List Stored)
    → All P ks
    → All (λ k. P k × (k.sid ≢ sid)) (del_key sid ks)
unfolding del_key
All-del_key P sid [] h = tt
All-del_key P sid (k ∷ ks) (h, hs) = elim (Bool-cases (k.sid == sid)) [
  | inl e ↦ rw e (All-del_key P sid ks hs)
  | inr e ↦ rw e ((h, λ same. ground arith), All-del_key P sid ks hs)
]

pub All-del_keys {κ} :
    (P : Stored → Type κ) (ms : List Member) (ks : List Stored)
    → All P ks
    → All (λ k. P k × All (λ m. m.sid ≢ k.sid) ms) (del_keys ms ks)
unfolding del_keys
All-del_keys P [] ks h = All-mono (λ k p. (p, tt)) ks h
All-del_keys P (m ∷ ms) ks h =
    All-mono (λ k q. (q.0.0, ((λ e. q.0.1 (sym e)), q.1))) (del_keys ms (del_key m.sid ks))
      (All-del_keys _ ms (del_key m.sid ks) (All-del_key P m.sid ks h))

All-select-inv {ℓ κ} :
    {A : Type ℓ} (P : A → Type κ) (p : A → Bool) (xs : List A)
    → All P (select p xs)
    → All (λ x. p x ≡ true → P x) xs
All-select-inv P p [] h = tt
All-select-inv P p (x ∷ xs) h = elim (Bool-cases (p x)) [
  | inl e ↦ let (k, ks) = rw e at h in ((λ _. k), All-select-inv P p xs ks)
  | inr e ↦
      let ks = rw e at h in ((λ e'. absurd (true-false (sym e' ∙ e))), All-select-inv P p xs ks)
]

covers_absent :
    (uid sid until : ℕ) (ms : List Member)
    → All (λ m. (m.uid == uid) ≡ true → m.sid ≢ sid) ms
    → covers uid sid until ms ≡ false
unfolding covers
covers_absent uid sid until [] h = refl
covers_absent uid sid until (m ∷ ms) (h, hs) = ground (arith, covers_absent uid sid until ms hs)

covers-cons :
    (uid sid until : ℕ) (m : Member) (ms : List Member)
    → covers uid sid until ms ≡ true
    → covers uid sid until (m ∷ ms) ≡ true
unfolding covers
covers-cons uid sid until m ms h = ground arith

covers-head :
    (uid sid until score : ℕ) (ms : List Member)
    → until ≤ score
    → covers uid sid until (record { uid = uid; sid = sid; score = score } ∷ ms) ≡ true
unfolding covers
covers-head uid sid until score ms h = ground arith

save_kept :
    (now : ℕ) (s : Session) (r : SessionStore) (k : Stored)
    → IsIndexed now r.members k
    → k.sid ≢ s.id_
    → IsIndexed now (zremrangebyscore s.user_id now (zadd s.user_id s.id_ s.expires_at r.members)) k
unfolding zadd
save_kept now s r k (key, inl gone) other = (key, inl gone)
save_kept now s r k (key, inr there) other = elim (ℕ-cases k.gone_at now) [
  | inl gone ↦ (key, inl gone)
  | inr live ↦ (
    key,
    inr (
        covers-zremrangebyscore s.user_id now k.gone_at k.session.user_id k.sid _ live
        ∙ covers-insert_member k.session.user_id k.sid k.gone_at _ _
        ∙ covers-cons k.session.user_id k.sid k.gone_at _ (zrem s.user_id s.id_ r.members) (
            covers-zrem s.user_id s.id_ k.gone_at k.session.user_id k.sid r.members (λ _. other)
            ∙ there)),
  )
]

save_new :
    (now ttl : ℕ) (s : Session) (r : SessionStore)
    → 0 < ttl
    → now + ttl * second ≤ s.expires_at
    → covers s.user_id s.id_
        (now + ttl * second)
        (zremrangebyscore s.user_id now (zadd s.user_id s.id_ s.expires_at r.members))
      ≡ true
unfolding zadd
save_new now ttl s r pos h =
    covers-zremrangebyscore s.user_id now (now + ttl * second) s.user_id s.id_ _ (omega arith)
    ∙ covers-insert_member s.user_id s.id_ (now + ttl * second) _ _
    ∙ covers-head s.user_id s.id_ (now + ttl * second) s.expires_at (zrem s.user_id s.id_ r.members)
        h

save-IsIndexed :
    (now : ℕ) (s : Session) (r : SessionStore)
    → All (IsIndexed now r.members) r.keys
    → All (IsIndexed now (save now s r).members) (save now s r).keys
unfolding save
save-IsIndexed now s r h =
    let ttl = (s.expires_at - now) / second in
    elim (Bool-cases (ttl == 0)) [
      | inl gone ↦ rw gone h
      | inr live ↦
          let pos : 0 < ttl = ground arith in
          rw live (
            (refl, inr (save_new now ttl s r pos (omega (arith, pos)))),
            All-mono (λ k i. save_kept now s r k i.0 i.1) (del_key s.id_ r.keys)
                (All-del_key _ s.id_ r.keys h),
          )
    ]

-- A user's key that stays when all of the user's are revoked is gone already.
pub user_key_gone :
    (now uid : ℕ) (r : SessionStore) (k : Stored)
    → (k.gone_at ≤ now) ⊎ (covers k.session.user_id k.sid k.gone_at r.members ≡ true)
    → All (λ m. m.sid ≢ k.sid) (select (λ m. m.uid == uid) r.members)
    → (k.session.user_id ≢ uid) ⊎ (k.gone_at ≤ now)
user_key_gone now uid r k (inl gone) absent = inr gone
user_key_gone now uid r k (inr there) absent = elim (Bool-cases (k.session.user_id == uid)) [
  | inl e ↦
      let none_left =
        covers_absent uid k.sid k.gone_at r.members (All-select-inv _ _ r.members absent) in
      let same = (==_iff k.session.user_id uid).0 e in
      absurd
        (true-false (sym there ∙ ap (λ u. covers u k.sid k.gone_at r.members) same ∙ none_left))
  | inr e ↦ inl (λ same. ground arith)
]

covers-revoke_others :
    (now uid : ℕ) (r : SessionStore) (k : Stored)
    → (k.gone_at ≤ now) ⊎ (covers k.session.user_id k.sid k.gone_at r.members ≡ true)
    → All (λ m. m.sid ≢ k.sid) (select (λ m. m.uid == uid) r.members)
    → (k.gone_at ≤ now)
      ⊎ (covers k.session.user_id k.sid k.gone_at (select (λ m. not (m.uid == uid)) r.members)
          ≡ true)
covers-revoke_others now uid r k (inl gone) absent = inl gone
covers-revoke_others now uid r k (inr there) absent =
    elim (user_key_gone now uid r k (inr there) absent) [
      | inl other ↦
          inr (covers_others uid k.gone_at k.session.user_id k.sid r.members other ∙ there)
      | inr gone ↦ inl gone
    ]

pub Reach-IsIndexed :
    (now : ℕ) (r : SessionStore) → Reach now r → All (IsIndexed now r.members) r.keys
unfolding save revoke revoke_all
Reach-IsIndexed now r start = tt
Reach-IsIndexed now r (later {now = before} t h reach) =
    All-mono (λ k i. (i.0, elim i.1 [ inl gone ↦ inl (omega arith) | inr there ↦ inr there ]))
      r.keys (Reach-IsIndexed before r reach)
Reach-IsIndexed now r (saved {r = q} s reach) = save-IsIndexed now s q (Reach-IsIndexed now q reach)
Reach-IsIndexed now r (revoked {r = q} sid uid reach) =
    All-mono
      (λ k i. (
        i.0.0,
        elim i.0.1 [
          | inl gone ↦ inl gone
          | inr there ↦
              inr
                (covers-zrem uid sid k.gone_at k.session.user_id k.sid q.members (λ _. i.1) ∙ there)
        ],
      ))
      (del_key sid q.keys) (All-del_key _ sid q.keys (Reach-IsIndexed now q reach))
Reach-IsIndexed now r (revoked_all {r = q} uid reach) =
    All-mono {Q = IsIndexed now (revoke_all uid q).members}
      (λ k i. (i.0.0, covers-revoke_others now uid q k i.0.1 i.1))
      (del_keys (select (λ m. m.uid == uid) q.members) q.keys)
      (All-del_keys _ (select (λ m. m.uid == uid) q.members) q.keys (Reach-IsIndexed now q reach))
