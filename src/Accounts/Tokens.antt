-- ===== src/Accounts/Tokens.antt =====
-- Users, sign-in sessions and password resets of account_store.py. `digest` is `token_digest`;
-- fresh tokens and ids are arguments.
pub mod Laws
use auto_correlation.Prelude.{
  ℕ, suc, ◌+◌, ◌≤◌, String, ◌≡◌, Bool, true, false, not, ◌&&◌, ◌||◌, Option, none, some, List, [],
  ◌∷◌, ◌++◌, ltb, leb, if◌then◌else◌, str_eq, select, length,
}
use auto_correlation.Errors.{Result, ok, err, other}
use auto_correlation.Accounts.Model.{User, Session, PasswordReset, AccountStore}

-- `INSERT` refused by the primary key or by the unique email.
unfoldable pub is_taken : String → String → List User → Bool
is_taken id email [] = false
is_taken id email (u ∷ r) = (str_eq u.id id || str_eq u.email email) || is_taken id email r

-- `create_user` raises `EmailTaken`; `email` is in lower case already.
unfoldable pub create_user : User → AccountStore → Result User × AccountStore
unfolding is_taken
create_user user s =
    if is_taken user.id user.email s.users
    then (err other, s)
    else (ok user, record s { users = s.users ++ user ∷ [] })

unfoldable pub find_user : String → List User → Option User
find_user user_id [] = none
find_user user_id (u ∷ r) = if str_eq u.id user_id then some u else find_user user_id r

unfoldable pub get_user : String → AccountStore → Option User
unfolding find_user
get_user user_id s = find_user user_id s.users

find_email : String → List User → Option User
find_email email [] = none
find_email email (u ∷ r) = if str_eq u.email email then some u else find_email email r

unfoldable pub get_user_by_email : String → AccountStore → Option User
unfolding find_email
get_user_by_email email s = find_email email s.users

with_password : String → String → List User → List User
with_password user_id hash [] = []
with_password user_id hash (u ∷ r) =
    (if str_eq u.id user_id then record u { password_hash = hash } else u)
    ∷ with_password user_id hash r

unfoldable pub set_password : String → String → AccountStore → AccountStore
unfolding with_password
set_password user_id hash s = record s { users = with_password user_id hash s.users }

module _ (digest : String → String) where
  unfoldable pub create_session : String → String → ℕ → ℕ → AccountStore → AccountStore
  create_session token user_id now ttl_seconds s = record s {
    sessions =
        s.sessions
        ++ record {
          token_hash = digest token;
          user_id = user_id;
          created_at = now;
          expires_at = now + ttl_seconds;
        }
          ∷ [];
  }

  -- The join on `users`: the first session row that matches and whose user is there.
  abbrev joined : Option User → Option User → Option User
  joined (some u) rest = some u
  joined none rest = rest

  session_row : String → ℕ → List Session → List User → Option User
  session_row hash now [] us = none
  session_row hash now (r ∷ rest) us =
      let later = session_row hash now rest us in
      if str_eq r.token_hash hash && ltb now r.expires_at
      then joined (find_user r.user_id us) later
      else later

  unfoldable pub session_user : String → ℕ → AccountStore → Option User
  unfolding session_row
  session_user token now s = session_row (digest token) now s.sessions s.users

  unfoldable pub delete_session : String → AccountStore → AccountStore
  delete_session token s = record s {
    sessions = select (λ r. not (str_eq r.token_hash (digest token))) s.sessions;
  }

  unfoldable pub delete_user_sessions : String → AccountStore → AccountStore
  delete_user_sessions user_id s = record s {
    sessions = select (λ r. not (str_eq r.user_id user_id)) s.sessions;
  }

  unfoldable pub create_password_reset : String → String → ℕ → ℕ → AccountStore → AccountStore
  create_password_reset token user_id now ttl_seconds s = record s {
    password_resets =
        select (λ r. not (str_eq r.user_id user_id)) s.password_resets
        ++ record { token_hash = digest token; user_id = user_id; expires_at = now + ttl_seconds }
          ∷ [];
  }

  unfoldable pub find_reset : String → List PasswordReset → Option PasswordReset
  find_reset hash [] = none
  find_reset hash (r ∷ rest) = if str_eq r.token_hash hash then some r else find_reset hash rest

  abbrev valid_reset : ℕ → Option PasswordReset → Option String
  valid_reset now none = none
  valid_reset now (some r) = if leb r.expires_at now then none else some r.user_id

  unfoldable pub consume_password_reset : String → ℕ → AccountStore → Option String × AccountStore
  consume_password_reset token now s = (
    valid_reset now (find_reset (digest token) s.password_resets),
    record s {
      password_resets = select (λ r. not (str_eq r.token_hash (digest token))) s.password_resets;
    },
  )

-- The two row counts are those of the rows that pass the `WHERE`.
unfoldable pub purge_expired_tokens : ℕ → AccountStore → ℕ × AccountStore
purge_expired_tokens now s = (
  length (select (λ r. leb r.expires_at now) s.sessions)
      + length (select (λ r. leb r.expires_at now) s.password_resets),
  record s {
    sessions = select (λ r. not (leb r.expires_at now)) s.sessions;
    password_resets = select (λ r. not (leb r.expires_at now)) s.password_resets;
  },
)
