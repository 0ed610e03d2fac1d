-- ===== src/Identity/Repository.antt =====
-- internal/postgres/account_repository.go. An `Attempt` says what the server, the network and other
-- clients do in one call; a call is not repeated.
pub mod Tokens
pub mod Calls
use be_better.Prelude.{
  ℕ, ◌+◌, String, ◌=ˢ◌, Bool, true, false, not, Option, none, some, List, [], ◌∷◌, ◌++◌,
  if◌then◌else◌, find_first,
}
use be_better.Model.{
  Uuid, Time, zero_time, RawMessage, OutboxDraft, Error, postgres, not_found, conflict, Result, ok,
  err,
}
use be_better.Exec.{Tx, pure, fail, fail_if, ◌>>=◌, ◌>>◌}
use be_better.Database.Transaction.{Attempt, finish}
use be_better.Command.Writers.{outbox_row}
use be_better.Identity.Store.{
  Account, AccountToken, UserRow, Session, NewSession, Purpose, verify_email, reset_password,
  same_purpose, Dimension, ThrottleRow, IdentityDb, undeleted, is_user, has_email, create_user,
  create_user_settings, select_user, update_user, get_user, activate_user, set_password_hash,
  renamed, set_email,
}
use be_better.Identity.Store.Tokens.{
  lookup_account_token, mark_consumed, invalidate_account_tokens, create_account_token,
}
use be_better.Identity.Store.Sessions.{
  insert_session, authenticates, touch_session, get_session, mark_revoked, revoke_all_sessions,
  throttle_status, record_failure, clear_throttle,
}

-- `mapDatabaseError`, with pgx.ErrNoRows as `not_found`
unfoldable pub map_database_error : Error → Error
map_database_error (postgres code) =
    if code =ˢ "23505" then conflict else if code =ˢ "23503" then not_found else postgres code
map_database_error e = e

module _ {S A : Type 0} where
  abbrev pub mapped_result : Result A × S → Result A × S
  mapped_result (err e, s) = (err (map_database_error e), s)
  mapped_result (ok a, s) = (ok a, s)

  -- `if err != nil { return mapDatabaseError(..., err) }` after a statement
  unfoldable pub mapped : Tx S A → Tx S A
  mapped statement s = mapped_result (statement s)

  -- A server's error in some statement goes through `mapDatabaseError` too.
  abbrev pub faulted : Option Error → Tx S A → Tx S A
  faulted (some e) operation s = (err (map_database_error e), s)
  faulted none operation s = operation s

  abbrev pub in_context : Option Error → Tx S A → Tx S A
  in_context (some e) operation s = (err e, s)
  in_context none operation s = operation s

  -- `inUserTransaction`: BEGIN, SetUserContext, the operation, COMMIT or the deferred ROLLBACK.
  unfoldable pub in_user_transaction : Attempt S → Tx S A → Tx S A
  in_user_transaction t operation s =
      let before = t.others s in
      in_context t.begin
        (in_context t.set_context λ s1. finish t.commit s1 (faulted t.fault operation s1)) before

  -- A statement that is its own transaction.
  unfoldable pub run_statement : Attempt S → Tx S A → Tx S A
  run_statement t statement s =
      let before = t.others s in finish t.commit before (faulted t.fault (mapped statement) before)

pub record AuthenticatedSession : Type 0 where
  pub session : Session
  pub account : Account

-- The statements of `CreateRegistration`.
unfoldable pub registration_tx : Account → String → NewSession → Tx IdentityDb (Account × Session)
registration_tx account password_hash new_session = do
  user ← mapped (create_user account password_hash)
  mapped (create_user_settings account.id)
  session ← mapped (insert_session new_session)
  pure (user, session)

-- The columns that the query reads of the user.
abbrev pub joined_account : UserRow → Account
joined_account row = record row.account {
  normalized_email = row.account.email;
  created_at = zero_time;
  updated_at = zero_time;
}

abbrev pub with_user_of : Session → Option UserRow → Result AuthenticatedSession
with_user_of session none = err not_found
with_user_of session (some row) = ok (record { session = session; account = joined_account row })

abbrev pub joined : List UserRow → Option NewSession → Result AuthenticatedSession
joined users none = err not_found
joined users (some row) = with_user_of row.session (find_first (is_user row.session.user_id) users)

-- The query `AuthenticateSession`, with its join.
unfoldable pub select_authenticated : List ℕ → Tx IdentityDb AuthenticatedSession
select_authenticated hash s =
    (joined s.users (find_first (authenticates hash s.clock s.users) s.sessions), s)

-- The statements of `AuthenticateSession`.
unfoldable pub authenticate_tx : List ℕ → ℕ → Tx IdentityDb AuthenticatedSession
authenticate_tx hash interval = do
  found ← mapped (select_authenticated hash)
  mapped (touch_session found.account.id found.session.id interval)
  session ← mapped (get_session found.account.id found.session.id)
  pure (record { session = session; account = found.account })

-- The statements of `RotatePasswordSession`.
unfoldable pub rotate_tx : Uuid → String → NewSession → Tx IdentityDb Session
rotate_tx user password_hash session = do
  mapped (set_password_hash user password_hash)
  mapped (revoke_all_sessions user)
  mapped (insert_session session)

module _ (t : Attempt IdentityDb) where
  -- `CreateRegistration`
  unfoldable pub create_registration :
      Account → String → NewSession → Tx IdentityDb (Account × Session)
  create_registration account password_hash new_session =
      in_user_transaction t (registration_tx account password_hash new_session)

  -- `LookupLoginAccount`; `sql_lower` is `lower(btrim(...))` of the server.
  unfoldable pub lookup_login_account : (String → String) → String → Tx IdentityDb UserRow
  lookup_login_account sql_lower email = run_statement t (select_user (has_email (sql_lower email)))

  -- `UpdateDisplayName`
  unfoldable pub update_display_name : Uuid → String → Tx IdentityDb Account
  update_display_name user name =
      in_user_transaction t (mapped λ s. update_user (is_user user) (renamed name s.clock) s)

  -- `UpdateEmail`
  unfoldable pub update_email : Uuid → String → Tx IdentityDb Account
  update_email user email = in_user_transaction t (mapped (set_email user email))

  -- `CreateSession`
  unfoldable pub create_session : NewSession → Tx IdentityDb Session
  create_session session = in_user_transaction t (mapped (insert_session session))

  -- `AuthenticateSession`; the context of the user is set inside the transaction.
  unfoldable pub authenticate_session : List ℕ → ℕ → Tx IdentityDb AuthenticatedSession
  authenticate_session hash interval = in_user_transaction t (authenticate_tx hash interval)

  -- `RevokeSession`
  unfoldable pub revoke_session : Uuid → Uuid → Tx IdentityDb (Unit {0})
  revoke_session user id = in_user_transaction t (mapped (mark_revoked user id))

  -- `RotatePasswordSession`
  unfoldable pub rotate_password_session : Uuid → String → NewSession → Tx IdentityDb Session
  rotate_password_session user password_hash session =
      in_user_transaction t (rotate_tx user password_hash session)

  -- `UpdatePasswordHash`
  unfoldable pub update_password_hash : Uuid → String → Tx IdentityDb (Unit {0})
  update_password_hash user hash = in_user_transaction t (mapped (set_password_hash user hash))

  -- `PasswordHashByUserID`
  unfoldable pub password_hash_by_user_id : Uuid → Tx IdentityDb UserRow
  password_hash_by_user_id user = in_user_transaction t (mapped (select_user (is_user user)))

  -- `LoginThrottleStatus`
  unfoldable pub login_throttle_status : Dimension → Tx IdentityDb ThrottleRow
  login_throttle_status d = run_statement t (throttle_status d)

  -- `RecordLoginFailure`
  unfoldable pub record_login_failure : Dimension → Tx IdentityDb (Unit {0})
  record_login_failure d = run_statement t (record_failure d)

  -- `ClearLoginThrottle`
  unfoldable pub clear_login_throttle : Dimension → Tx IdentityDb (Unit {0})
  clear_login_throttle d = run_statement t (clear_throttle d)
