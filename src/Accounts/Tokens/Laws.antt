-- ===== src/Accounts/Tokens/Laws.antt =====
-- Sessions last as long as they say, and a password reset works once and only while it is the
-- user's newest.
use auto_correlation.Prelude.{
  ℕ, ◌+◌, ◌≤◌, String, ◌≡◌, ◌≢◌, refl, false, not, Option, none, some, List, [], ◌∷◌, ◌++◌, All,
  ltb, leb, if◌then◌else◌, str_eq, eq_iff, eq_refl, select, arith, Bool-cases, inl, inr,
}
use auto_correlation.Accounts.Model.{User, Session, PasswordReset, AccountStore}
use auto_correlation.Accounts.Tokens.{
  get_user, create_session, session_row, session_user, delete_session, create_password_reset,
  find_reset, valid_reset, consume_password_reset, purge_expired_tokens,
}

-- No session row has the hash.
abbrev pub IsUnused : String → List Session → Type 0
IsUnused hash l = All (λ (r : Session). str_eq r.token_hash hash ≡ false) l

module _ (digest : String → String) where
  row_appended :
      (hash : String) (at_time : ℕ) (l : List Session) (r : Session) (us : List User)
      → IsUnused hash l
      → session_row digest hash at_time (l ++ r ∷ []) us
        ≡ session_row digest hash at_time (r ∷ []) us
  unfolding session_row
  row_appended hash at_time [] r us h = refl
  row_appended hash at_time (x ∷ l) r us h = ground (arith, row_appended hash at_time l r us h.1)

  row_unused :
      (hash : String) (at_time : ℕ) (l : List Session) (us : List User)
      → session_row digest hash at_time (select (λ r. not (str_eq r.token_hash hash)) l) us ≡ none
  unfolding session_row
  row_unused hash at_time [] us = refl
  row_unused hash at_time (x ∷ l) us = ground (arith, row_unused hash at_time l us)

  row_kept :
      (hash dead : String) (at_time : ℕ) (l : List Session) (us : List User)
      → str_eq hash dead ≡ false
      → session_row digest hash at_time (select (λ r. not (str_eq r.token_hash dead)) l) us
        ≡ session_row digest hash at_time l us
  unfolding session_row
  row_kept hash dead at_time [] us h = refl
  row_kept hash dead at_time (x ∷ l) us h = ground (
    arith,
    row_kept hash dead at_time l us,
    eq_iff x.token_hash hash,
    eq_iff x.token_hash dead,
    eq_iff hash dead,
  )

  row_purged :
      (hash : String) (now at_time : ℕ) (l : List Session) (us : List User)
      → now ≤ at_time
      → session_row digest hash at_time (select (λ r. not (leb r.expires_at now)) l) us
        ≡ session_row digest hash at_time l us
  unfolding session_row
  row_purged hash now at_time [] us h = refl
  row_purged hash now at_time (x ∷ l) us h = ground (arith, row_purged hash now at_time l us)

  -- A session signs its user in until it expires, and nobody from then on, where its token's
  -- hash is new.
  pub session_user-create_session :
      (token user_id : String) (now ttl_seconds at_time : ℕ) (s : AccountStore)
      → IsUnused (digest token) s.sessions
      → session_user digest token at_time (create_session digest token user_id now ttl_seconds s)
        ≡ (if ltb at_time (now + ttl_seconds) then get_user user_id s else none)
  unfolding session_user create_session get_user session_row
  session_user-create_session token user_id now ttl_seconds at_time s h = ground (
    arith,
    row_appended (digest token) at_time s.sessions
        (record {
          token_hash = digest token;
          user_id = user_id;
          created_at = now;
          expires_at = now + ttl_seconds;
        })
        s.users h,
    eq_refl (digest token),
  )

  -- Signing out ends the token's session and leaves every token with another hash as it was.
  pub session_user-delete_session :
      (token other : String) (at_time : ℕ) (s : AccountStore)
      → session_user digest other at_time (delete_session digest token s) ≡ (
          if str_eq (digest other) (digest token)
          then none
          else session_user digest other at_time s)
  unfolding session_user delete_session
  session_user-delete_session token other at_time s = ground (
    arith,
    eq_iff (digest other) (digest token),
    row_unused (digest token) at_time s.sessions s.users,
    row_kept (digest other) (digest token) at_time s.sessions s.users,
  )

  -- The purge of expired tokens changes no later sign-in.
  pub session_user-purge :
      (token : String) (now at_time : ℕ) (s : AccountStore)
      → now ≤ at_time
      → session_user digest token at_time (purge_expired_tokens now s).1
        ≡ session_user digest token at_time s
  unfolding session_user purge_expired_tokens
  session_user-purge token now at_time s h =
      row_purged (digest token) now at_time s.sessions s.users h

  reset_gone :
      (hash : String) (l : List PasswordReset)
      → find_reset digest hash (select (λ r. not (str_eq r.token_hash hash)) l) ≡ none
  unfolding find_reset
  reset_gone hash [] = refl
  reset_gone hash (x ∷ l) = ground (arith, reset_gone hash l)

  -- A reset token works at most once.
  pub consume_once :
      (token : String) (now later : ℕ) (s : AccountStore)
      → (consume_password_reset digest token later (consume_password_reset digest token now s).1).0
        ≡ none
  unfolding consume_password_reset
  consume_once token now later s = rw (reset_gone (digest token) s.password_resets) refl

  -- The user of a reset row that the search finds.
  abbrev ResetUser : Option PasswordReset → String → Type 0
  ResetUser none user_id = Unit
  ResetUser (some r) user_id = str_eq r.user_id user_id ≡ false

  reset_replaced :
      (hash user_id : String) (l : List PasswordReset) (r : PasswordReset)
      → str_eq r.token_hash hash ≡ false
      → ResetUser
          (find_reset digest hash (select (λ r. not (str_eq r.user_id user_id)) l ++ r ∷ []))
          user_id
  unfolding find_reset
  reset_replaced hash user_id [] r h = rw h tt
  reset_replaced hash user_id (x ∷ l) r h = elim (Bool-cases (str_eq x.user_id user_id)) [
    | inl e ↦ rw e (reset_replaced hash user_id l r h)
    | inr e ↦ rw e (elim (Bool-cases (str_eq x.token_hash hash)) [
      | inl q ↦ rw q e
      | inr q ↦ rw q (reset_replaced hash user_id l r h)
    ])
  ]

  -- A new reset link leaves no older one of the same user valid: a token with another hash no
  -- longer resets that user's password.
  pub create_password_reset_newest :
      (token old user_id : String) (now ttl_seconds at_time : ℕ) (s : AccountStore)
      → str_eq (digest token) (digest old) ≡ false
      → (consume_password_reset digest old at_time
          (create_password_reset digest token user_id now ttl_seconds s)).0
        ≢ some user_id
  unfolding consume_password_reset create_password_reset
  create_password_reset_newest token old user_id now ttl_seconds at_time s h =
      by_found _ (reset_replaced (digest old) user_id s.password_resets _ h)
    where
      by_found :
          (o : Option PasswordReset)
          → ResetUser o user_id
          → valid_reset digest at_time o ≢ some user_id
      by_found none p e = cc
      by_found (some r) p e = ground (arith, eq_iff r.user_id user_id)
