-- ===== src/Tests/Members.antt =====
-- Sessions and passwords, and the tool calls of a stream.
use yomochi.Base.{
  ℕ, zero, suc, ◌*◌, ◌≡◌, refl, Bool, true, false, Option, none, some, List, [], ◌∷◌, ◌++◌, ◌==◌,
  arith,
}
use yomochi.Base.Result.{ok, err}
use yomochi.Text.{Text, codes, text_eq}
use yomochi.Accounts.{AccountError, User, PasswordResetToken, new_email, get_user}
use yomochi.Accounts.Sessions.{Session, SessionStore, second, save}
use yomochi.Accounts.Live.{start, saved}
use yomochi.Accounts.Revoked.{at_once, waits}
use yomochi.Accounts.Change.{
  Accounts, AuditEventType, resolve_identity, record_event, end_sessions, set_password, drop_token,
  change_password,
}
use yomochi.Accounts.Reset.{change_password_refuses}
use yomochi.Gateway.{
  Fragment, Choice, Chunk, content_delta, tool_calls_delta, usage_info, stream_call_with_tools,
}
use yomochi.Gateway.Calls.{Sent, call_of, piece, IsStreamOf}
use yomochi.Gateway.Stream.{stream_call_with_tools_sent}

emails :
    (new_email (codes " Ana@Mail.example ") ≡ ok (codes "ana@mail.example"))
    × (new_email (codes "ana@mail") ≡ err AccountError.invalid_email)
unfolding new_email
emails = (refl, refl)

-- A hash that is the password itself.
abbrev plain : ℕ → Text → Text
plain salt p = p

abbrev same_text : Text → Text → Bool
same_text = text_eq

abbrev own_hash : Text → Text
own_hash t = t

abbrev ana : User
ana = record {
  id_ = 7;
  email = codes "ana@mail.example";
  password_hash = codes "old password";
  created_at = 0;
}

abbrev phone : Session
phone = record {
  id_ = 1;
  user_id = 7;
  expires_at = 3600 * second;
  user_agent = codes "phone";
  ip = codes "10.0.0.1";
}

abbrev token : PasswordResetToken
token = record { id_ = 5; user_id = 7; token_hash = codes "secret"; expires_at = 60 * second }

abbrev no_sessions : SessionStore
no_sessions = record { keys = []; members = [] }

abbrev before : Accounts
before = record {
  users = ana ∷ [];
  tokens = token ∷ [];
  sessions = save 0 phone no_sessions;
  audit = [];
}

abbrev after_change : Accounts
after_change =
    record_event AuditEventType.password_changed 7 0
      (end_sessions 7 (set_password (codes "new password") ana before))

abbrev after_reset : Accounts
after_reset =
    record_event AuditEventType.password_reset_confirmed 7 0
      (end_sessions 7 (drop_token 5 (set_password (codes "new password") ana before)))

-- A cookie is the identifier of the user, and that of the session.
abbrev decode : Text → Option (ℕ × ℕ)
decode (u ∷ s ∷ []) = some (u, s)
decode _ = none

-- Before the change, the session is there.
signed_in : resolve_identity decode 9 (some (7 ∷ 1 ∷ [])) before.sessions ≡ ok (7, 1)
unfolding resolve_identity save
signed_in = refl

change_password_refuses_example :
    (u : User) × (get_user 7 (ana ∷ []) ≡ some u)
    × (text_eq (codes "old password") u.password_hash ≡ true)
    × (get_user 7 after_change.users ≡ some (record u { password_hash = codes "new password" }))
    × (resolve_identity decode 9 (some (7 ∷ 1 ∷ [])) after_change.sessions
        ≡ err AccountError.unauthenticated)
unfolding change_password record_event end_sessions set_password text_eq
change_password_refuses_example =
    change_password_refuses plain same_text own_hash 0 3 7 (codes "old password")
      (codes "new password") before after_change decode (7 ∷ 1 ∷ []) 1 9 after_change.sessions
      (saved phone start) refl (waits 9 (omega arith) at_once) refl

abbrev search : Sent
search = record {
  id = codes "a";
  name = codes "search";
  opening = some (codes "{");
  pieces = codes "\"q\":" ∷ codes "1}" ∷ [];
}

abbrev trend : Sent
trend = record { id = codes "b"; name = codes "trend"; opening = none; pieces = codes "{}" ∷ [] }

abbrev mixed : List Fragment
mixed =
    record {
      index = 1;
      id = some (codes "b");
      function = some (record { name = some (codes "trend"); arguments = none });
    }
    ∷ record {
      index = 0;
      id = some (codes "a");
      function = some (record { name = some (codes "search"); arguments = some (codes "{") });
    }
    ∷ piece 0 (codes "\"q\":")
    ∷ piece 1 (codes "{}")
    ∷ []

abbrev first_chunk : Chunk
first_chunk = record {
  choice = some (record {
    content = some (codes "Let me see");
    tool_calls = mixed;
    finished_tool_calls = false;
  });
  usage = none;
}

abbrev last_choice : Choice
last_choice = record {
  content = none;
  tool_calls = piece 0 (codes "1}") ∷ [];
  finished_tool_calls = true;
}

abbrev usage_chunk : Chunk
usage_chunk = record {
  choice = none;
  usage = some (record { prompt_tokens = 20; completion_tokens = 5 });
}

mixed-IsStreamOf : IsStreamOf (search ∷ trend ∷ []) (mixed ++ (piece 0 (codes "1}") ∷ []))
mixed-IsStreamOf zero = refl
mixed-IsStreamOf (suc zero) = refl
mixed-IsStreamOf (suc (suc i)) =
    let other : (1 == suc (suc i)) ≡ false = ground arith in
    let first : (0 == suc (suc i)) ≡ false = ground arith in rw (other, first) refl

stream_call_with_tools_sent_example :
    stream_call_with_tools
      (first_chunk ∷ record { choice = some last_choice; usage = none } ∷ usage_chunk ∷ [])
    ≡ content_delta (codes "Let me see")
      ∷ tool_calls_delta (call_of search ∷ call_of trend ∷ [])
      ∷ usage_info (record { prompt_tokens = 20; completion_tokens = 5 })
      ∷ []
unfolding stream_call_with_tools
stream_call_with_tools_sent_example =
    stream_call_with_tools_sent (search ∷ trend ∷ []) (first_chunk ∷ []) (usage_chunk ∷ [])
      (record { choice = some last_choice; usage = none }) last_choice (refl, tt) refl refl
      (refl, tt) mixed-IsStreamOf
