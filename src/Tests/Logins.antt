-- ===== src/Tests/Logins.antt =====
-- Logins and their throttles at concrete inputs.
use be_better.Prelude.{refl, inr, true, none, some, [], ◌∷◌, arith, find_first, ◌++◌, ◌≡◌}
use be_better.Prelude.Text.{trim_space, bytes_of}
use be_better.Exec.{◌>>=◌}
use be_better.Model.{ok, err, rate_limited}
use be_better.Identity.Store.{
  is_active, Session, UserRow, ThrottleRow, IdentityDb, has_email, select_user,
}
use be_better.Identity.Store.Sessions.{throttle_status, clear_throttle, insert_session, same_key}
use be_better.Identity.Password.{
  verify_password, split_dollar, password_hash_needs_upgrade, new_token,
}
use be_better.Identity.Validation.{normalize_email, email_pattern_matches}
use be_better.Identity.Repository.{
  run_statement, mapped, map_database_error, in_user_transaction, login_throttle_status,
  lookup_login_account, clear_login_throttle, create_session,
}
use be_better.Identity.Repository.Calls.{calm}
use be_better.Identity.Sessions.{
  LoginInput, SessionResult, login, read_throttles, check_credentials, checked_account, admit,
  clear_throttles, upgrade_hash, open_session, new_session, canonical_ip, login_email, later_block,
}
use be_better.Identity.Admission.{Opened, at_lookup, login-admits}
use be_better.Identity.Guard.{BlocksUntil, BlocksNoLater, email_key, ip_key, login-blocked}
use be_better.Tests.Identities.{service, state, account}

abbrev input : LoginInput
input = record { email = "a@b.c"; password = "correct horse"; ip = "9"; user_agent = "cli" }

abbrev opened : Session
opened = record {
  id = 20;
  user_id = 1;
  user_agent = "cli";
  created_at = 40_000_000_000_000_000;
  last_seen_at = 40_000_000_000_000_000;
  expires_at = 42_592_000_000_000_000;
  revoked_at = none;
}

abbrev result : SessionResult
result = record { account = account; session = opened; token = "aab" }

abbrev after_login : IdentityDb
after_login = record state {
  sessions = record { session = opened; token_hash = 97 ∷ 97 ∷ 98 ∷ [] } ∷ [];
}

logs_in : login service calm input state ≡ (ok result, after_login)
unfolding login read_throttles login_throttle_status run_statement mapped throttle_status
    map_database_error check_credentials lookup_login_account select_user checked_account
    normalize_email email_pattern_matches admit clear_throttles clear_login_throttle clear_throttle
    upgrade_hash password_hash_needs_upgrade open_session new_session new_token create_session
    in_user_transaction insert_session verify_password split_dollar ◌>>=◌ trim_space canonical_ip
    login_email later_block bytes_of
logs_in = refl

login-admits_example :
    (row : UserRow) × (normalize_email service.to_lower input.email
      ≡ ok (login_email service input.email))
    × (find_first
          (has_email (service.sql_lower (login_email service input.email)))
          (at_lookup calm state).users
        ≡ some row)
    × (verify_password service.crypto row.password_hash input.password ≡ ok true)
    × (is_active row.account.status ≡ true)
    × (result.account ≡ row.account)
    × Opened service result after_login
login-admits_example = login-admits service calm input state logs_in

-- A wrong password.
abbrev mistyped : LoginInput
mistyped = record input { password = "battery staple" }

-- A row that blocks the IP "9" for a while.
abbrev blocked : IdentityDb
blocked = record state {
  throttles =
      record {
        key = record { name = "ip"; hash = bytes_of "ip" ++ 0 ∷ bytes_of "9" };
        window_started_at = 39_999_000_000_000_000;
        failures = 5;
        blocked_until = some 40_000_600_000_000_000;
        updated_at = 39_999_700_000_000_000;
      }
      ∷ [];
}

ip_blocks :
    BlocksUntil service.now
      (find_first (same_key (ip_key service input)) blocked.throttles)
      40_000_600_000_000_000
unfolding canonical_ip bytes_of trim_space
ip_blocks = (ip_row, refl, refl, omega arith)
  where
    ip_row : ThrottleRow
    ip_row = record {
      key = record { name = "ip"; hash = bytes_of "ip" ++ 0 ∷ bytes_of "9" };
      window_started_at = 39_999_000_000_000_000;
      failures = 5;
      blocked_until = some 40_000_600_000_000_000;
      updated_at = 39_999_700_000_000_000;
    }

ip_no_later :
    BlocksNoLater service.now
      (find_first (same_key (ip_key service input)) blocked.throttles)
      40_000_600_000_000_000
unfolding canonical_ip bytes_of trim_space
ip_no_later row t found blocks after = ground (arith, found, blocks)

email_no_later :
    BlocksNoLater service.now
      (find_first (same_key (email_key service input)) blocked.throttles)
      40_000_600_000_000_000
unfolding login_email normalize_email email_pattern_matches trim_space bytes_of
email_no_later row t found blocks after = absurd (cc found)

login-blocked_example :
    login service calm input blocked ≡ (err (rate_limited 40_000_600_000_000_000), blocked)
login-blocked_example =
    login-blocked service input blocked 40_000_600_000_000_000 (omega arith) (inr ip_blocks)
      email_no_later ip_no_later
