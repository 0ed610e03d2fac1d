-- ===== src/Identity/Sessions.antt =====
-- internal/service/session.go. The calls of the stores are numbered in the order in which the code
-- makes them: `env n` is what the environment does in the call with number n.
use be_better.Prelude.{
  ℕ, suc, ◌+◌, ◌*◌, String, Bool, true, false, not, ◌&&◌, Option, none, some, List, [], ◌∷◌, ◌++◌,
  ltb, if◌then◌else◌, bytes_of, trim_space,
}
use be_better.Model.{
  Uuid, Time, zero_time, is_zero_time, minute, hour, Result, ok, err, not_found, rate_limited,
  invalid_credentials, account_not_active,
}
use be_better.Exec.{Tx, pure, fail, fail_if, lift, continue, ◌>>=◌, ◌>>◌}
use be_better.Database.Transaction.{Attempt}
use be_better.Identity.Store.{
  Account, is_active, UserRow, Session, NewSession, Dimension, ThrottleRow, IdentityDb,
}
use be_better.Identity.Password.{
  hash_password, verify_password, password_hash_needs_upgrade, new_token,
}
use be_better.Identity.Repository.{
  lookup_login_account, create_session, update_password_hash, login_throttle_status,
  record_login_failure, clear_login_throttle,
}
use be_better.Identity.Validation.{IdentityService, normalize_email}

abbrev pub session_duration : ℕ
session_duration = 30 * 24 * hour

abbrev pub session_touch_rate : ℕ
session_touch_rate = 5 * minute

pub record LoginInput : Type 0 where
  pub email : String
  pub password : String
  pub ip : String
  pub user_agent : String

pub record SessionResult : Type 0 where
  pub account : Account
  pub session : Session
  pub token : String

-- The later of the time found so far and that of a status, where it lies after `now`.
unfoldable pub later_block : Time → Time → Option Time → Time
later_block now retry_at none = retry_at
later_block now retry_at (some t) = if ltb now t && ltb retry_at t then t else retry_at

abbrev pub Env : Type 0
Env = ℕ → Attempt IdentityDb

-- An answer of `LoginThrottleStatus`, or the error that it ends with; ErrNotFound is no block.
abbrev pub status_block : Time → Time → Result ThrottleRow → Result Time
status_block now retry_at (ok row) = ok (later_block now retry_at row.blocked_until)
status_block now retry_at (err not_found) = ok retry_at
status_block now retry_at (err e) = err e

-- The first loop of `Login`.
unfoldable pub read_throttles : Env → ℕ → Time → Time → List Dimension → Tx IdentityDb Time
read_throttles env n now retry_at [] s = (ok retry_at, s)
read_throttles env n now retry_at (d ∷ ds) s =
    let (r, s1) = login_throttle_status (env n) d s in
    continue (status_block now retry_at r, s1) λ later. read_throttles env (suc n) now later ds

-- The loop over `RecordLoginFailure`.
unfoldable pub record_failures : Env → ℕ → List Dimension → Tx IdentityDb (Unit {0})
record_failures env n [] = pure tt
record_failures env n (d ∷ ds) =
    record_login_failure (env n) d >>= λ _. record_failures env (suc n) ds

-- The loop over `ClearLoginThrottle`.
unfoldable pub clear_throttles : Env → ℕ → List Dimension → Tx IdentityDb (Unit {0})
clear_throttles env n [] = pure tt
clear_throttles env n (d ∷ ds) =
    clear_login_throttle (env n) d >>= λ _. clear_throttles env (suc n) ds

module _ (service : IdentityService) where
  open service use {
    to_lower, sql_lower, parse_ip, mac, crypto, dummy_hash, now, new_uuid, random_salt,
    random_token,
  }

  -- `canonicalIP`
  unfoldable pub canonical_ip : String → String
  canonical_ip value = elim (parse_ip (trim_space value)) [ none ↦ "unknown" | some ip ↦ ip ]

  -- `dimensionHash`
  abbrev pub dimension : String → String → Dimension
  dimension name value = record { name = name; hash = mac (bytes_of name ++ 0 ∷ bytes_of value) }

  -- `normalizedEmail` in `Login`: the fallback is used for the throttle and the lookup too.
  unfoldable pub login_email : String → String
  login_email raw = elim (normalize_email to_lower raw) [
    | ok email ↦ email
    | err e ↦ to_lower (trim_space raw)
  ]

  abbrev pub dimensions : LoginInput → List Dimension
  dimensions input =
      dimension "email" (login_email input.email) ∷ dimension "ip" (canonical_ip input.ip) ∷ []

  -- `newSession`
  unfoldable pub new_session : Uuid → String → Result (NewSession × String)
  new_session user user_agent = elim (new_uuid 0) [
    | err e ↦ err e
    | ok id ↦ elim (new_token crypto random_token) [
      | err e ↦ err e
      | ok token ↦ ok (
        record {
          session = record {
            id = id;
            user_id = user;
            user_agent = user_agent;
            created_at = now;
            last_seen_at = now;
            expires_at = now + session_duration;
            revoked_at = none;
          };
          token_hash = token.1;
        },
        token.0,
      )
    ]
  ]

  -- `createSession`
  unfoldable pub open_session : Attempt IdentityDb → Account → String → Tx IdentityDb SessionResult
  open_session t account user_agent = do
    made ← lift (new_session account.id user_agent)
    session ← create_session t made.0
    pure (record { account = account; session = session; token = made.1 })

  abbrev is_ok : {A : Type 0} → Result A → Bool
  is_ok (ok a) = true
  is_ok (err e) = false

  abbrev password_valid : String → String → Bool
  password_valid hash password = elim (verify_password crypto hash password) [
    | ok valid ↦ valid
    | err e ↦ false
  ]

  -- The account whose credentials were given, from the answer of the lookup. The comparison with
  -- `dummy_hash` only spends time.
  unfoldable pub checked_account : LoginInput → Result UserRow → Option UserRow
  checked_account input (err e) = none
  checked_account input (ok row) =
      if is_ok (normalize_email to_lower input.email)
        && password_valid row.password_hash input.password
      then some row
      else none

  -- `if auth.PasswordHashNeedsUpgrade(...)`; a password that cannot be hashed is left as it is.
  unfoldable pub upgrade_hash : Attempt IdentityDb → UserRow → String → Tx IdentityDb (Unit {0})
  upgrade_hash t row password = elim (password_hash_needs_upgrade crypto row.password_hash) [
    | false ↦ pure tt
    | true ↦ elim (hash_password crypto random_salt password) [
      | err e ↦ pure tt
      | ok upgraded ↦ update_password_hash t row.account.id upgraded
    ]
  ]

  -- `Login` after the credentials were found right.
  unfoldable pub admit : Env → LoginInput → UserRow → Tx IdentityDb SessionResult
  admit env input row = do
    fail_if (not (is_active row.account.status)) account_not_active
    clear_throttles env 3 (dimensions input)
    upgrade_hash (env 5) row input.password
    open_session (env 6) row.account input.user_agent

  unfoldable pub refuse : Env → LoginInput → Tx IdentityDb SessionResult
  refuse env input = record_failures env 3 (dimensions input) >> fail invalid_credentials

  abbrev pub decide : Env → LoginInput → Option UserRow → Tx IdentityDb SessionResult
  decide env input none = refuse env input
  decide env input (some row) = admit env input row

  -- `Login` after the throttles.
  unfoldable pub check_credentials : Env → LoginInput → Tx IdentityDb SessionResult
  check_credentials env input s =
      let (found, s1) = lookup_login_account (env 2) sql_lower (login_email input.email) s in
      decide env input (checked_account input found) s1

  -- `Login`
  unfoldable pub login : Env → LoginInput → Tx IdentityDb SessionResult
  login env input = do
    retry_at ← read_throttles env 0 now zero_time (dimensions input)
    fail_if (not (is_zero_time retry_at)) (rate_limited retry_at)
    check_credentials env input
