-- ===== src/Accounts/Reset.antt =====
-- What a change and a reset of a password do: change_password.py and confirm_password_reset.py of
-- app/application/users/use_cases.
use yomochi.Base.{ℕ, ◌≡◌, sym, ap, ◌∙◌, Bool, true, Option, some}
use yomochi.Base.Result.{ok, err, >>=-ok}
use yomochi.Text.{Text}
use yomochi.Accounts.{AccountError, User, new_password, get_user}
use yomochi.Accounts.Sessions.{SessionStore}
use yomochi.Accounts.Live.{Reach}
use yomochi.Accounts.Revoked.{After, revoke_all-IsRevoked, After-IsRevoked}
use yomochi.Accounts.Change.{
  Accounts, AuditEventType, or_raise, raise_unless, record_event, resolve_identity, set_password,
  end_sessions, change_password,
}
use yomochi.Accounts.Password.{
  get_user_key, new_password_same, or_raise-some, raise_unless-true, ok_snd, changed_user,
  changed-IsRevoked, refused,
}

module _ (hash : ℕ → Text → Text) (verify : Text → Text → Bool) (token_hash : Text → Text) where
  change_password_parts :
      (now salt user_id : ℕ) (current new_raw : Text) (a b : Accounts)
      → change_password hash verify token_hash now salt user_id current new_raw a ≡ ok (tt, b)
      → (u : User) × (get_user user_id a.users ≡ some u)
        × (verify current u.password_hash ≡ true)
        × (b
            ≡ record_event AuditEventType.password_changed user_id now
                (end_sessions user_id (set_password (hash salt new_raw) u a)))
  unfolding change_password
  change_password_parts now salt user_id current new_raw a b done =
      let (u, r1, there) =
        >>=-ok _ (or_raise AccountError.user_not_found (get_user user_id a.users)) done in
      let (old, r2, same_old) = >>=-ok _ (new_password current) r1 in
      let (_, r3, right) = >>=-ok _ (raise_unless (verify old u.password_hash) _) r2 in
      let (new, r4, same_new) = >>=-ok _ (new_password new_raw) r3 in
      (
        u,
        or_raise-some _ _ u there,
        ap (λ p. verify p u.password_hash) (sym (new_password_same current old same_old))
            ∙ raise_unless-true _ _ right,
        sym (ok_snd _ b r4)
            ∙ ap
                (λ p.
                  record_event AuditEventType.password_changed user_id now
                    (end_sessions user_id (set_password (hash salt p) u a)))
                (new_password_same new_raw new same_new),
      )

  -- After a change of the password that succeeds: the current password was the user's, the hash is that
  -- of the new one, and every cookie that names the user is refused from then on, whatever else is done
  -- to the sessions, until a session is saved for the user.
  pub change_password_refuses :
      (now salt user_id : ℕ) (current new_raw : Text) (a b : Accounts)
      (decode : Text → Option (ℕ × ℕ)) (cookie : Text) (sid t : ℕ) (r : SessionStore)
      → Reach now a.sessions
      → change_password hash verify token_hash now salt user_id current new_raw a ≡ ok (tt, b)
      → After user_id now b.sessions t r
      → decode cookie ≡ some (user_id, sid)
      → (u : User) × (get_user user_id a.users ≡ some u)
        × (verify current u.password_hash ≡ true)
        × (get_user user_id b.users ≡ some (record u { password_hash = hash salt new_raw }))
        × (resolve_identity decode t (some cookie) r ≡ err AccountError.unauthenticated)
  unfolding resolve_identity set_password end_sessions record_event
  change_password_refuses now salt user_id current new_raw a b decode cookie sid t r reach done
        after read =
      let (u, is_user, right, same) =
        change_password_parts now salt user_id current new_raw a b done in
      let key = get_user_key user_id u a.users is_user in
      (
        u,
        is_user,
        right,
        changed_user _ user_id u (hash salt new_raw) a b now key same,
        refused decode cookie user_id sid t r read (
            After-IsRevoked user_id now b.sessions t r
              (changed-IsRevoked _ now user_id (set_password (hash salt new_raw) u a) a b
                (revoke_all-IsRevoked user_id now a.sessions reach) same)
              after),
      )
