-- ===== src/Identity/Accounts.antt =====
-- The methods of internal/service/account.go.
use be_better.Prelude.{ℕ, ◌+◌, ◌*◌, String, ◌=ˢ◌, Bool, not, none, List, if◌then◌else◌, trim_space}
use be_better.Model.{
  Uuid, hour, Result, ok, err, not_found, conflict, email_in_use, invalid_token, Error, text,
  object, end, field, document, OutboxDraft,
}
use be_better.Exec.{Tx, pure, fail_if, lift, ◌>>=◌, ◌>>◌}
use be_better.Database.Transaction.{Attempt}
use be_better.Identity.Store.{
  Account, AccountStatus, AccountToken, Purpose, verify_email, reset_password, active, is_active,
  is_pending, UserRow, NewSession, IdentityDb,
}
use be_better.Identity.Password.{hash_password, hash_token, new_token}
use be_better.Identity.Repository.{
  lookup_login_account, create_registration, update_display_name, update_email,
}
use be_better.Identity.Repository.Tokens.{
  create_account_token_delivery, consume_account_token, reset_password_with_token,
}
use be_better.Identity.Validation.{
  IdentityService, normalize_email, validate_display_name, validate_password,
}
use be_better.Identity.Sessions.{SessionResult, session_duration, Env}
use be_better.Identity.Changes.{or_missing}

pub record RegisterInput : Type 0 where
  pub email : String
  pub display_name : String
  pub password : String
  pub user_agent : String

-- What distinguishes `ResendVerification` and `RequestPasswordReset`.
pub record TokenRequest : Type 0 where
  pub purpose : Purpose
  pub event_type : String
  pub duration : ℕ
  pub required : AccountStatus → Bool

abbrev pub verification_request : TokenRequest
verification_request = record {
  purpose = verify_email;
  event_type = "email.verification.requested";
  duration = 24 * hour;
  required = is_pending;
}

abbrev pub reset_request : TokenRequest
reset_request = record {
  purpose = reset_password;
  event_type = "email.password_reset.requested";
  duration = hour;
  required = is_active;
}

abbrev pub conflict_in_use : Error → Error
conflict_in_use conflict = email_in_use
conflict_in_use e = e

-- `if errors.Is(err, model.ErrConflict) { return ..., ErrEmailInUse }`
abbrev pub or_in_use {ℓ} : {S : Type 0} {A : Type ℓ} → Result A × S → Result A × S
or_in_use (err e, s) = (err (conflict_in_use e), s)
or_in_use (ok a, s) = (ok a, s)

module _ (service : IdentityService) where
  open service use {to_lower, sql_lower, crypto, now, new_uuid, random_salt, random_token}

  -- The account that `Register` makes of its input.
  abbrev pub registered_account : Uuid → String → String → Account
  registered_account id email name = record {
    id = id;
    email = email;
    normalized_email = email;
    display_name = name;
    status = active;
    email_verified_at = none;
    created_at = now;
    updated_at = now;
  }

  abbrev registration_session : Uuid → Uuid → List ℕ → String → NewSession
  registration_session user id hash user_agent = record {
    session = record {
      id = id;
      user_id = user;
      user_agent = user_agent;
      created_at = now;
      last_seen_at = now;
      expires_at = now + session_duration;
      revoked_at = none;
    };
    token_hash = hash;
  }

  -- `Register`
  unfoldable pub register : Attempt IdentityDb → RegisterInput → Tx IdentityDb SessionResult
  register t input = do
    email ← lift (normalize_email to_lower input.email)
    name ← lift (validate_display_name input.display_name)
    lift (validate_password input.password)
    hash ← lift (hash_password crypto random_salt input.password)
    user ← lift (new_uuid 0)
    id ← lift (new_uuid 1)
    token ← lift (new_token crypto random_token)
    made ← λ s. or_in_use (
        create_registration t (registered_account user email name) hash
          (registration_session user id token.1 input.user_agent) s)
    pure (record { account = made.0; session = made.1; token = token.0 })

  -- `VerifyEmail`
  unfoldable pub verify_email_address : Env → String → Tx IdentityDb Account
  verify_email_address env token = do
    fail_if (trim_space token =ˢ "") invalid_token
    λ s.
        or_missing invalid_token
          (consume_account_token (env 0) (env 1) (hash_token crypto token) verify_email s)

  -- `ResetPassword`
  unfoldable pub reset_account_password : Env → String → String → Tx IdentityDb Account
  reset_account_password env token password = do
    fail_if (trim_space token =ˢ "") invalid_token
    lift (validate_password password)
    hash ← lift (hash_password crypto random_salt password)
    λ s.
        or_missing invalid_token
          (reset_password_with_token (env 0) (env 1) (hash_token crypto token) hash s)

  -- `UpdateDisplayName`
  unfoldable pub change_display_name : Attempt IdentityDb → Uuid → String → Tx IdentityDb Account
  change_display_name t user name = lift (validate_display_name name) >>= update_display_name t user

  -- `UpdateEmail`
  unfoldable pub change_email_address :
      Attempt IdentityDb → Account → String → Tx IdentityDb Account
  change_email_address t current email = do
    normalized ← lift (normalize_email to_lower email)
    λ s. or_in_use (update_email t current.id normalized s)

  -- `newTokenDelivery`
  unfoldable pub new_token_delivery : TokenRequest → Account → Result (AccountToken × OutboxDraft)
  new_token_delivery request account = elim (new_uuid 0) [
    | err e ↦ err e
    | ok token_id ↦ elim (new_uuid 1) [
      | err e ↦ err e
      | ok outbox_id ↦ elim (new_token crypto random_token) [
        | err e ↦ err e
        | ok token ↦ ok (
          record {
            id = token_id;
            user_id = account.id;
            purpose = request.purpose;
            token_hash = token.1;
            expires_at = now + request.duration;
            created_at = now;
          },
          record {
            id = outbox_id;
            event_type = request.event_type;
            aggregate_type = "user";
            aggregate_id = account.id;
            payload = document (
                object (
                  field "displayName" (text account.display_name)
                    (field "email" (text account.email) (field "token" (text token.0) end))));
            available_at = now;
          },
        )
      ]
    ]
  ]

  -- `requestAccountToken` after the lookup.
  unfoldable pub deliver_token :
      Attempt IdentityDb → TokenRequest → Result UserRow → Tx IdentityDb (Unit {0})
  deliver_token t request (err not_found) s = (ok tt, s)
  deliver_token t request (err e) s = (err e, s)
  deliver_token t request (ok row) s =
      if not (request.required row.account.status)
      then (ok tt, s)
      else elim (new_token_delivery request row.account) [
        | err e ↦ (err e, s)
        | ok made ↦ create_account_token_delivery t row.account made.0 made.1 s
      ]

  -- `requestAccountToken`
  unfoldable pub request_account_token : Env → TokenRequest → String → Tx IdentityDb (Unit {0})
  request_account_token env request raw s = elim (normalize_email to_lower raw) [
    | err e ↦ (ok tt, s)
    | ok email ↦
        let (found, s1) = lookup_login_account (env 0) sql_lower email s in
        deliver_token (env 1) request found s1
  ]
