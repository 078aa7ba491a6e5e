-- ===== src/Accounts.antt =====
-- Users, their sessions and password resets: app/application/users, app/domain/entities/user.py, the
-- values email.py and password.py of app/domain/value_objects, and the stores of
-- app/outbound/adapters. Times are microseconds.
pub mod Sessions
pub mod Live
pub mod Revocation
pub mod Revoked
pub mod Change
pub mod Password
pub mod Reset
use Prim.Native.Char
use yomochi.Base.{
  ℕ, zero, suc, Bool, true, false, not, ◌&&◌, ◌||◌, Option, none, some, List, [], ◌∷◌, find, select,
  length, ltb, leb, ◌==◌, if◌then◌else◌,
}
use yomochi.Base.Result.{Result, ok, err}
use yomochi.Text.{Text, text_eq, strip, lower, is_empty, is_space}
use yomochi.Text.Split.{split_once}

pub data AccountError : Type 0 where
  invalid_email weak_password user_already_exists user_not_found : AccountError
  invalid_current_password invalid_credentials invalid_reset_token unauthenticated : AccountError

pub record User : Type 0 where
  pub id_ : ℕ
  pub email : Text
  pub password_hash : Text
  pub created_at : ℕ

pub record PasswordResetToken : Type 0 where
  pub id_ : ℕ
  pub user_id : ℕ
  pub token_hash : Text
  pub expires_at : ℕ

-- A text after a character that holds neither `@` nor white space, and has a point with something on
-- both sides of it: the end of the pattern `[^@\s]+\.[^@\s]+$`.
unfoldable pub is_plain : ℕ → Bool
unfolding is_space
is_plain c = not (c == b'@' || is_space c)

unfoldable pub all_plain : Text → Bool
unfolding is_plain
all_plain [] = true
all_plain (c ∷ s) = is_plain c && all_plain s

-- A point that is neither first nor last.
unfoldable pub has_inner_dot : Text → Bool
unfolding is_empty
has_inner_dot [] = false
has_inner_dot (a ∷ []) = false
has_inner_dot (a ∷ b ∷ s) = (b == b'.' && not (is_empty s)) || has_inner_dot (b ∷ s)

-- `_EMAIL_RE.match`.
unfoldable pub is_email : Text → Bool
unfolding split_once all_plain has_inner_dot is_empty
is_email s = elim (split_once b'@' s) [
  | none ↦ false
  | some (local, domain) ↦
      (not (is_empty local) && all_plain local) && (all_plain domain && has_inner_dot domain)
]

unfoldable pub new_email : Text → Result AccountError Text
unfolding strip lower is_email
new_email value =
    let normalized = lower (strip value) in
    if is_email normalized then ok normalized else err AccountError.invalid_email

-- `RawPassword`: from 8 to 72 characters.
unfoldable pub new_password : Text → Result AccountError Text
new_password value =
    let n = length value in if ltb n 8 || ltb 72 n then err AccountError.weak_password else ok value

unfoldable pub get_user : ℕ → List User → Option User
get_user id = find (λ u. u.id_ == id)

unfoldable pub get_by_email : Text → List User → Option User
unfolding text_eq
get_by_email email = find (λ u. text_eq u.email email)

-- `merge`, by the key.
unfoldable pub save_user : User → List User → List User
save_user u [] = u ∷ []
save_user u (x ∷ xs) = let rest = save_user u xs in if x.id_ == u.id_ then u ∷ xs else x ∷ rest

unfoldable pub get_valid : ℕ → Text → List PasswordResetToken → Option PasswordResetToken
unfolding text_eq
get_valid now hash = find (λ t. text_eq t.token_hash hash && ltb now t.expires_at)

unfoldable pub invalidate : ℕ → List PasswordResetToken → List PasswordResetToken
invalidate id = select (λ t. not (t.id_ == id))
