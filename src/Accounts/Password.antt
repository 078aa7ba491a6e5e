-- ===== src/Accounts/Password.antt =====
-- The parts of a change and of a reset of a password: change_password.py and confirm_password_reset.py of
-- app/application/users/use_cases.
use yomochi.Base.{
  ℕ, ◌≡◌, ◌≢◌, refl, sym, ◌∙◌, inl, inr, Bool, true, false, ◌&&◌, Option, none, some, List, [], ◌∷◌,
  All, All-mono, All-select, All-find, find-none, find_passes, find, ltb, ◌==◌, arith, Bool-cases,
  ==_refl, some_inj,
}
use yomochi.Base.Result.{Result, ok, err}
use yomochi.Text.{Text, text_eq, text_eq_iff}
use yomochi.Accounts.{
  AccountError, User, PasswordResetToken, new_password, get_user, save_user, get_valid, invalidate,
}
use yomochi.Accounts.Sessions.{SessionStore, revoke_all}
use yomochi.Accounts.Revoked.{IsRevoked, get-IsRevoked}
use yomochi.Accounts.Change.{
  Accounts, AuditEventType, or_raise, raise_unless, record_event, resolve_identity, set_password,
  end_sessions, drop_token,
}

pub get_user-save_user : (u : User) (us : List User) → get_user u.id_ (save_user u us) ≡ some u
unfolding get_user save_user
get_user-save_user u [] = rw (==_refl u.id_) refl
get_user-save_user u (x ∷ xs) = elim (Bool-cases (x.id_ == u.id_)) [
  | inl e ↦ rw (e, ==_refl u.id_) refl
  | inr e ↦ rw (e, e) (get_user-save_user u xs)
]

pub get_user_key : (id : ℕ) (u : User) (us : List User) → get_user id us ≡ some u → u.id_ ≡ id
unfolding get_user
get_user_key id u [] e = cc
get_user_key id u (x ∷ xs) e = ground (arith, get_user_key id u xs)

pub new_password_same : (v p : Text) → new_password v ≡ ok p → p ≡ v
unfolding new_password
new_password_same v p e = ground arith

pub or_raise-some :
    {A : Type 0} (e : AccountError) (o : Option A) (x : A) → or_raise e o ≡ ok x → o ≡ some x
or_raise-some e none x h = cc
or_raise-some e (some y) x h = cc

pub raise_unless-true :
    (b : Bool) (e : AccountError) {x : Unit {0}} → raise_unless b e ≡ ok x → b ≡ true
raise_unless-true true e h = refl
raise_unless-true false e h = cc

pub ok_snd :
    (a b : Accounts)
    → Path (Result AccountError (Unit {0} × Accounts)) (ok (tt, a)) (ok (tt, b))
    → a ≡ b
ok_snd a b e = cc

-- No hash stands in two rows: the column is unique.
abbrev pub UniqueHashes : List PasswordResetToken → Type 0
UniqueHashes [] = Unit
UniqueHashes (t ∷ ts) = All (λ s. s.token_hash ≢ t.token_hash) ts × UniqueHashes ts

abbrev pub has_hash : ℕ → Text → PasswordResetToken → Bool
has_hash now h t = text_eq t.token_hash h && ltb now t.expires_at

pub has_hash_hash :
    (now : ℕ) (h : Text) (t : PasswordResetToken) → has_hash now h t ≡ true → t.token_hash ≡ h
has_hash_hash now h t e = ground (arith, text_eq_iff t.token_hash h)

pub other_hash :
    (now : ℕ) (h : Text) (t : PasswordResetToken) → t.token_hash ≢ h → has_hash now h t ≡ false
other_hash now h t e = ground (arith, text_eq_iff t.token_hash h)

-- The token that is found is removed, and no other has its hash.
pub invalidated :
    (now later : ℕ) (h : Text) (t : PasswordResetToken) (ts : List PasswordResetToken)
    → UniqueHashes ts
    → get_valid now h ts ≡ some t
    → All (λ s. has_hash later h s ≡ false) (invalidate t.id_ ts)
unfolding get_valid invalidate
invalidated now later h t [] u e = tt
invalidated now later h t (x ∷ xs) (u, us) e = elim (Bool-cases (has_hash now h x)) [
  | inl found ↦
      let same : x ≡ t = some_inj x t (sym (rw (found, find) refl) ∙ e) in
      let here = has_hash_hash now h x found in
      let gone : (x.id_ == t.id_) ≡ true = rw same (==_refl t.id_) in
      rw gone
        (All-select _ _ xs (All-mono (λ s n. other_hash later h s (λ k. n (k ∙ sym here))) xs u))
  | inr missed ↦
      let there : get_valid now h xs ≡ some t = sym (rw (missed, find) refl) ∙ e in
      let rest = invalidated now later h t xs us there in
      let other = All-find _ (has_hash now h) t xs u there in
      let found = find_passes (has_hash now h) t xs there in
      let out = other_hash later h x (λ k. other (has_hash_hash now h t found ∙ sym k)) in
      elim (Bool-cases (x.id_ == t.id_)) [
        | inl gone ↦ rw gone rest
        | inr kept ↦ rw kept (out, rest)
      ]
]

-- A change of the password, with the audit event and the end of the sessions.
pub changed_user :
    (type : AuditEventType) (user_id : ℕ) (u : User) (new_hash : Text) (a b : Accounts) (now : ℕ)
    → u.id_ ≡ user_id
    → b ≡ record_event type user_id now (end_sessions user_id (set_password new_hash u a))
    → get_user user_id b.users ≡ some (record u { password_hash = new_hash })
unfolding record_event end_sessions set_password
changed_user type user_id u new_hash a b now key same =
    rw (same, sym key) (get_user-save_user (record u { password_hash = new_hash }) a.users)

pub changed-IsRevoked :
    (type : AuditEventType) (now user_id : ℕ) (c a b : Accounts)
    → IsRevoked user_id now (revoke_all user_id a.sessions)
    → b ≡ record_event type user_id now (end_sessions user_id (record c { sessions = a.sessions }))
    → IsRevoked user_id now b.sessions
unfolding record_event end_sessions
changed-IsRevoked type now user_id c a b h same = rw same h

pub dropped :
    (type : AuditEventType) (id user_id : ℕ) (c a b : Accounts) (now later : ℕ) (h : Text)
    → b
      ≡ record_event type user_id now
          (end_sessions user_id (drop_token id (record c { tokens = a.tokens })))
    → All (λ s. has_hash later h s ≡ false) (invalidate id a.tokens)
    → get_valid later h b.tokens ≡ none
unfolding record_event end_sessions drop_token get_valid
dropped type id user_id c a b now later h same out = rw same (find-none _ _ out)

pub refused :
    (decode : Text → Option (ℕ × ℕ)) (cookie : Text) (user_id sid t : ℕ) (r : SessionStore)
    → decode cookie ≡ some (user_id, sid)
    → IsRevoked user_id t r
    → resolve_identity decode t (some cookie) r ≡ err AccountError.unauthenticated
unfolding resolve_identity
refused decode cookie user_id sid t r read h = rw (read, get-IsRevoked user_id t sid r h) refl
