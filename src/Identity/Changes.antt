-- ===== src/Identity/Changes.antt =====
-- The methods of internal/service/session.go on a session that exists: Authenticate, Logout,
-- VerifyPassword and ChangePassword.
use be_better.Prelude.{String, ◌=ˢ◌, Bool, true, not, trim_space}
use be_better.Model.{
  Uuid, Result, ok, err, not_found, invalid_credentials, account_not_active, invalid_session, Error,
}
use be_better.Exec.{Tx, pure, fail_if, lift, ◌>>=◌, ◌>>◌}
use be_better.Database.Transaction.{Attempt}
use be_better.Identity.Store.{Account, is_active, IdentityDb}
use be_better.Identity.Password.{hash_password, verify_password, hash_token}
use be_better.Identity.Repository.{
  AuthenticatedSession, authenticate_session, revoke_session, rotate_password_session,
  password_hash_by_user_id,
}
use be_better.Identity.Validation.{IdentityService, validate_password}
use be_better.Identity.Sessions.{SessionResult, session_touch_rate, new_session, Env}

pub record ChangePasswordInput : Type 0 where
  pub account : Account
  pub current_password : String
  pub new_password : String
  pub user_agent : String

abbrev pub not_found_as : Error → Error → Error
not_found_as missing not_found = missing
not_found_as missing e = e

-- `if errors.Is(err, model.ErrNotFound) { return ..., missing }`
abbrev pub or_missing {ℓ} : {S : Type 0} {A : Type ℓ} → Error → Result A × S → Result A × S
or_missing missing (err e, s) = (err (not_found_as missing e), s)
or_missing missing (ok a, s) = (ok a, s)

module _ (service : IdentityService) where
  open service use {crypto, random_salt}

  -- `Authenticate`
  unfoldable pub authenticate : Attempt IdentityDb → String → Tx IdentityDb AuthenticatedSession
  authenticate t token = do
    fail_if (trim_space token =ˢ "") invalid_session
    found ← λ s.
        or_missing invalid_session
          (authenticate_session t (hash_token crypto token) session_touch_rate s)
    fail_if (not (is_active found.account.status)) account_not_active
    pure found

  -- `Logout`
  unfoldable pub logout : Attempt IdentityDb → AuthenticatedSession → Tx IdentityDb (Unit {0})
  logout t found = revoke_session t found.account.id found.session.id

  abbrev refused_password : Result Bool → Bool
  refused_password (ok valid) = not valid
  refused_password (err e) = true

  -- `VerifyPassword`
  unfoldable pub verify_current_password :
      Attempt IdentityDb → Uuid → String → Tx IdentityDb (Unit {0})
  verify_current_password t user password = do
    row ← password_hash_by_user_id t user
    fail_if (refused_password (verify_password crypto row.password_hash password))
        invalid_credentials

  -- `ChangePassword`
  unfoldable pub change_password : Env → ChangePasswordInput → Tx IdentityDb SessionResult
  change_password env input = do
    lift (validate_password input.new_password)
    verify_current_password (env 0) input.account.id input.current_password
    hash ← lift (hash_password crypto random_salt input.new_password)
    made ← lift (new_session service input.account.id input.user_agent)
    session ← rotate_password_session (env 1) input.account.id hash made.0
    pure (record { account = input.account; session = session; token = made.1 })
