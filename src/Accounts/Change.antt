-- ===== src/Accounts/Change.antt =====
-- The use cases on accounts: create_user.py, login.py, logout.py, change_password.py,
-- start_password_reset.py and confirm_password_reset.py of app/application/users/use_cases, and
-- app/inbound/http/auth/identity.py. The hash of a password with its salt, its check, the hash of a
-- token and the decoder of a cookie's token are parameters; the mailer and the verification against a
-- fixed hash, which only take time, are left out. One that raises leaves the accounts as they were.
use yomochi.Base.{ℕ, ◌+◌, ◌*◌, Bool, true, false, Option, none, some, List, ◌∷◌}
use yomochi.Base.Result.{Result, ok, err, ◌>>=◌}
use yomochi.Text.{Text}
use yomochi.Accounts.{
  AccountError, User, PasswordResetToken, new_email, new_password, get_user, get_by_email,
  save_user, get_valid, invalidate,
}
use yomochi.Accounts.Sessions.{Session, SessionStore, second, save, get, revoke, revoke_all}

pub data AuditEventType : Type 0 where
  user_registered user_login user_logout password_changed : AuditEventType
  password_reset_requested password_reset_confirmed : AuditEventType

pub record AuditEvent : Type 0 where
  pub event_type : AuditEventType
  pub user_id : ℕ
  pub occurred_at : ℕ

-- The tables, the sessions in Redis, and the audit log, the last event first.
pub record Accounts : Type 0 where
  pub users : List User
  pub tokens : List PasswordResetToken
  pub sessions : SessionStore
  pub audit : List AuditEvent

unfoldable pub record_event : AuditEventType → ℕ → ℕ → Accounts → Accounts
record_event type user now a = record a {
  audit = record { event_type = type; user_id = user; occurred_at = now } ∷ a.audit;
}

abbrev pub or_raise {ℓ} : {A : Type ℓ} → AccountError → Option A → Result AccountError A
or_raise e none = err e
or_raise e (some x) = ok x

abbrev pub raise_if {ℓ} : {A : Type ℓ} → AccountError → Option A → Result AccountError (Unit {0})
raise_if e none = ok tt
raise_if e (some x) = err e

abbrev pub raise_unless : Bool → AccountError → Result AccountError (Unit {0})
raise_unless true e = ok tt
raise_unless false e = err e

abbrev pub token_ttl : ℕ
token_ttl = 3600 * second

unfoldable pub logout : ℕ → ℕ → ℕ → Accounts → Accounts
unfolding revoke record_event
logout now sid user a =
    record_event AuditEventType.user_logout user now
      (record a { sessions = revoke sid user a.sessions })

-- `resolve_identity`.
unfoldable pub resolve_identity :
    (Text → Option (ℕ × ℕ)) → ℕ → Option Text → SessionStore → Result AccountError (ℕ × ℕ)
unfolding get
resolve_identity decode now cookie store = do
  token ← or_raise AccountError.unauthenticated cookie
  ids ← or_raise AccountError.unauthenticated (decode token)
  session ← or_raise AccountError.unauthenticated (get now ids.1 ids.0 store)
  ok ids

-- `user.change_password` and the save.
unfoldable pub set_password : Text → User → Accounts → Accounts
unfolding save_user
set_password new_hash u a = record a {
  users = save_user (record u { password_hash = new_hash }) a.users;
}

unfoldable pub end_sessions : ℕ → Accounts → Accounts
unfolding revoke_all
end_sessions user a = record a { sessions = revoke_all user a.sessions }

unfoldable pub drop_token : ℕ → Accounts → Accounts
unfolding invalidate
drop_token id a = record a { tokens = invalidate id a.tokens }

abbrev pub new_session : ℕ → ℕ → ℕ → Text → Text → Session
new_session id user expires_at user_agent ip = record {
  id_ = id;
  user_id = user;
  expires_at = expires_at;
  user_agent = user_agent;
  ip = ip;
}

module _ (hash : ℕ → Text → Text) (verify : Text → Text → Bool) (token_hash : Text → Text) where
  unfoldable pub create_user :
      ℕ → ℕ → ℕ → Text → Text → Accounts → Result AccountError (ℕ × Accounts)
  unfolding new_email new_password get_by_email save_user record_event
  create_user id now salt raw_email raw_password a = do
    email ← new_email raw_email
    password ← new_password raw_password
    free ← raise_if AccountError.user_already_exists (get_by_email email a.users)
    ok (
      id,
      record_event AuditEventType.user_registered id now (record a {
        users =
            save_user
              (record {
                id_ = id;
                email = email;
                password_hash = hash salt password;
                created_at = now;
              })
              a.users;
      }),
    )

  -- With the lifetime of a session.
  unfoldable pub login :
      ℕ → ℕ → ℕ → Text → Text → Text → Text → Accounts → Result AccountError (Session × Accounts)
  unfolding new_email new_password get_by_email save record_event
  login id now ttl raw_email raw_password user_agent ip a = do
    email ← new_email raw_email
    password ← new_password raw_password
    user ← or_raise AccountError.invalid_credentials (get_by_email email a.users)
    correct ← raise_unless (verify password user.password_hash) AccountError.invalid_credentials
    ok (
      new_session id user.id_ (now + ttl) user_agent ip,
      record_event AuditEventType.user_login user.id_ now (record a {
        sessions = save now (new_session id user.id_ (now + ttl) user_agent ip) a.sessions;
      }),
    )

  unfoldable pub change_password :
      ℕ → ℕ → ℕ → Text → Text → Accounts → Result AccountError ((Unit {0}) × Accounts)
  unfolding new_password get_user set_password end_sessions record_event
  change_password now salt user_id current_password new_raw a = do
    user ← or_raise AccountError.user_not_found (get_user user_id a.users)
    current ← new_password current_password
    correct ← raise_unless (verify current user.password_hash) AccountError.invalid_current_password
    password ← new_password new_raw
    ok (
      tt,
      record_event AuditEventType.password_changed user_id now
          (end_sessions user_id (set_password (hash salt password) user a)),
    )

  -- With the token that is drawn, which the mail takes.
  unfoldable pub start_password_reset :
      ℕ → ℕ → Text → Text → Accounts → Result AccountError ((Option Text) × Accounts)
  unfolding new_email get_by_email record_event
  start_password_reset id now raw_token raw_email a =
      (new_email raw_email >>= λ email. elim (get_by_email email a.users) [
        | none ↦ ok (none, a)
        | some user ↦ ok (
          some raw_token,
          record_event AuditEventType.password_reset_requested user.id_ now (record a {
            tokens =
                record {
                  id_ = id;
                  user_id = user.id_;
                  token_hash = token_hash raw_token;
                  expires_at = now + token_ttl;
                }
                ∷ a.tokens;
          }),
        )
      ])

  unfoldable pub confirm_password_reset :
      ℕ → ℕ → Text → Text → Accounts → Result AccountError ((Unit {0}) × Accounts)
  unfolding get_valid get_user new_password set_password drop_token end_sessions record_event
  confirm_password_reset now salt raw_token new_raw a = do
    token ←
        or_raise AccountError.invalid_reset_token (get_valid now (token_hash raw_token) a.tokens)
    user ← or_raise AccountError.invalid_reset_token (get_user token.user_id a.users)
    password ← new_password new_raw
    ok (
      tt,
      record_event AuditEventType.password_reset_confirmed user.id_ now
          (end_sessions user.id_ (drop_token token.id_ (set_password (hash salt password) user a))),
    )
