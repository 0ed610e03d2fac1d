-- ===== src/Tests/Resets.antt =====
-- Password changes and resets at concrete inputs, with sessions of two accounts.
use be_better.Prelude.{refl, none, [], ◌∷◌, ◌≡◌, ◌≢◌, ◌≤◌, true, false}
use be_better.Prelude.Text.{trim_space, bytes_of}
use be_better.Exec.{◌>>=◌}
use be_better.Model.{Time, ok, zero_time}
use be_better.Identity.Store.{
  Account, AccountToken, Session, IdentityDb, reset_password, select_user, set_password_hash,
  get_user,
}
use be_better.Identity.Store.Tokens.{lookup_account_token, mark_consumed}
use be_better.Identity.Store.Sessions.{insert_session, revoke_all_sessions}
use be_better.Identity.Password.{
  verify_password, split_dollar, new_token, hash_token, hash_password,
}
use be_better.Identity.Validation.{validate_password}
use be_better.Identity.Repository.{
  AuthenticatedSession, run_statement, mapped, map_database_error, in_user_transaction,
  select_authenticated, password_hash_by_user_id, rotate_tx, rotate_password_session,
}
use be_better.Identity.Repository.Tokens.{purposed_token, reset_tx, reset_password_with_token}
use be_better.Identity.Repository.Calls.{calm}
use be_better.Identity.Sessions.{new_session}
use be_better.Identity.Changes.{ChangePasswordInput, change_password, verify_current_password}
use be_better.Identity.Accounts.{reset_account_password}
use be_better.Identity.Revoked.{change_password-revokes}
use be_better.Identity.Reset.{reset_account_password-revokes}
use be_better.Identity.Reset.Used.{open_at, reset_account_password-single_use}
use be_better.Tests.Identities.{service, state, account}

abbrev session : Session
session = record {
  id = 4;
  user_id = 1;
  user_agent = "old";
  created_at = 5;
  last_seen_at = 39_999_999_000_000_000;
  expires_at = 50_000_000_000_000_000;
  revoked_at = none;
}

abbrev other : Account
other = record account { id = 2; email = "o@b.c"; normalized_email = "o@b.c" }

abbrev used : IdentityDb
used = record state {
  users =
      record { account = account; password_hash = service.dummy_hash; deleted_at = none }
      ∷ record { account = other; password_hash = service.dummy_hash; deleted_at = none }
      ∷ [];
  sessions =
      record { session = session; token_hash = 7 ∷ [] }
      ∷ record { session = record session { id = 5; user_id = 2 }; token_hash = 8 ∷ [] }
      ∷ [];
  tokens =
      record {
        token = record {
          id = 6;
          user_id = 1;
          purpose = reset_password;
          token_hash = bytes_of "tok";
          expires_at = 40_001_000_000_000_000;
          created_at = 5;
        };
        consumed_at = none;
      }
      ∷ [];
}

abbrev change : ChangePasswordInput
change = record {
  account = account;
  current_password = "correct horse";
  new_password = "battery staple";
  user_agent = "new";
}

abbrev opened : Session
opened = record {
  id = 20;
  user_id = 1;
  user_agent = "new";
  created_at = 40_000_000_000_000_000;
  last_seen_at = 40_000_000_000_000_000;
  expires_at = 42_592_000_000_000_000;
  revoked_at = none;
}

abbrev changed : IdentityDb
changed = (change_password service calm change used).1

changes :
    change_password service calm change used
    ≡ (ok (record { account = account; session = opened; token = "aab" }), changed)
unfolding change_password validate_password verify_current_password password_hash_by_user_id
    select_user mapped map_database_error in_user_transaction verify_password split_dollar
    hash_password new_session new_token rotate_password_session rotate_tx set_password_hash
    revoke_all_sessions insert_session ◌>>=◌ bytes_of
changes = refl

-- The session that the change opened still authenticates.
abbrev found : AuthenticatedSession
found = record {
  session = opened;
  account = record account { created_at = zero_time; updated_at = zero_time };
}

authenticates_new :
    select_authenticated (97 ∷ 97 ∷ 98 ∷ []) (record changed { clock = 40_000_000_000_000_001 })
    ≡ (ok found, record changed { clock = 40_000_000_000_000_001 })
unfolding change_password validate_password verify_current_password password_hash_by_user_id
    select_user mapped map_database_error in_user_transaction verify_password split_dollar
    hash_password new_session new_token rotate_password_session rotate_tx set_password_hash
    revoke_all_sessions insert_session ◌>>=◌ bytes_of select_authenticated
authenticates_new = refl

change_password-revokes_example : found.session ≡ opened
change_password-revokes_example =
    change_password-revokes service calm change used changes (97 ∷ 97 ∷ 98 ∷ [])
      40_000_000_000_000_001 authenticates_new refl

abbrev after_reset : IdentityDb
after_reset = (reset_account_password service calm "tok" "battery staple" used).1

resets :
    reset_account_password service calm "tok" "battery staple" used
    ≡ (ok (record account { updated_at = 40_000_000_000_000_000 }), after_reset)
unfolding reset_account_password validate_password hash_password reset_password_with_token
    purposed_token run_statement lookup_account_token mapped map_database_error in_user_transaction
    reset_tx mark_consumed set_password_hash revoke_all_sessions get_user hash_token ◌>>=◌
    trim_space bytes_of
resets = refl

-- The other account's session still authenticates.
abbrev others : AuthenticatedSession
others = record {
  session = record session { id = 5; user_id = 2 };
  account = record other { created_at = zero_time; updated_at = zero_time };
}

authenticates_other :
    select_authenticated (8 ∷ []) (record after_reset { clock = 40_000_000_000_000_001 })
    ≡ (ok others, record after_reset { clock = 40_000_000_000_000_001 })
unfolding reset_account_password validate_password hash_password reset_password_with_token
    purposed_token run_statement lookup_account_token mapped map_database_error in_user_transaction
    reset_tx mark_consumed set_password_hash revoke_all_sessions get_user hash_token ◌>>=◌
    trim_space bytes_of select_authenticated
authenticates_other = refl

reset_account_password-revokes_example : others.account.id ≢ account.id
reset_account_password-revokes_example =
    reset_account_password-revokes service calm "tok" "battery staple" used resets (8 ∷ [])
      40_000_000_000_000_001 authenticates_other

reset_account_password-single_use_example :
    (k : AccountToken) × (s1 : IdentityDb) × (lookup_account_token
        (hash_token service.crypto "tok")
        ((calm 0).others used)
      ≡ (ok k, s1))
    × (open_at k ((calm 1).others s1).clock ((calm 1).others s1) ≡ true)
    × ((later : Time) → after_reset.clock ≤ later → open_at k later after_reset ≡ false)
reset_account_password-single_use_example =
    reset_account_password-single_use service calm "tok" "battery staple" used resets
