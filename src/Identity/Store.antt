-- ===== src/Identity/Store.antt =====
-- The tables of internal/db/query/identity.sql and the functions of migrations/000004 and 000005 that
-- internal/postgres/account_repository.go calls, with the records of internal/model/account.go.
-- now() and statement_timestamp() are both `clock`.
pub mod Tokens
pub mod Sessions
use be_better.Prelude.{
  ℕ, ◌+◌, ◌-◌, ◌*◌, String, ◌=ˢ◌, Bool, true, false, not, ◌&&◌, ◌||◌, Option, none, some, List, [],
  ◌∷◌, ◌++◌, ltb, leb, ◌==◌, if◌then◌else◌, bytes_equal, is_some, find_first, any_row, update_rows,
  select_rows,
}
use be_better.Model.{Uuid, Time, minute, RawMessage, postgres, not_found, Result, ok, err}
use be_better.Exec.{Tx}
use be_better.Store.{OutboxRow}

pub data AccountStatus : Type 0 where
  pending_verification active disabled deletion_pending : AccountStatus

abbrev pub is_active : AccountStatus → Bool
is_active active = true
is_active s = false

abbrev pub is_pending : AccountStatus → Bool
is_pending pending_verification = true
is_pending s = false

pub data Purpose : Type 0 where
  verify_email reset_password change_email : Purpose

abbrev pub same_purpose : Purpose → Purpose → Bool
same_purpose verify_email verify_email = true
same_purpose reset_password reset_password = true
same_purpose change_email change_email = true
same_purpose p q = false

pub record Account : Type 0 where
  pub id : Uuid
  pub email : String
  pub normalized_email : String
  pub display_name : String
  pub status : AccountStatus
  pub email_verified_at : Option Time
  pub created_at : Time
  pub updated_at : Time

-- `LoginAccount` too: an account with its password hash.
pub record UserRow : Type 0 where
  pub account : Account
  pub password_hash : String
  pub deleted_at : Option Time

pub record Session : Type 0 where
  pub id : Uuid
  pub user_id : Uuid
  pub user_agent : String
  pub created_at : Time
  pub last_seen_at : Time
  pub expires_at : Time
  pub revoked_at : Option Time

-- `NewSession`, and a row of the table
pub record NewSession : Type 0 where
  pub session : Session
  pub token_hash : List ℕ

pub record AccountToken : Type 0 where
  pub id : Uuid
  pub user_id : Uuid
  pub purpose : Purpose
  pub token_hash : List ℕ
  pub expires_at : Time
  pub created_at : Time

pub record TokenRow : Type 0 where
  pub token : AccountToken
  pub consumed_at : Option Time

-- `throttleDimension`
pub record Dimension : Type 0 where
  pub name : String
  pub hash : List ℕ

pub record ThrottleRow : Type 0 where
  pub key : Dimension
  pub window_started_at : Time
  pub failures : ℕ
  pub blocked_until : Option Time
  pub updated_at : Time

pub record IdentityDb : Type 0 where
  pub users : List UserRow
  pub settings : List Uuid
  pub sessions : List NewSession
  pub tokens : List TokenRow
  pub throttles : List ThrottleRow
  pub outbox : List OutboxRow
  pub clock : Time

-- the SQLSTATE of a violated UNIQUE or PRIMARY KEY constraint
abbrev pub unique_violation : String
unique_violation = "23505"

-- `deleted_at IS NULL`
abbrev pub undeleted : UserRow → Bool
undeleted row = not (is_some row.deleted_at)

abbrev pub is_user : Uuid → UserRow → Bool
is_user id row = row.account.id == id && undeleted row

-- `lookup_login_account`, on the address that `lower(btrim(...))` gives
abbrev pub has_email : String → UserRow → Bool
has_email email row = row.account.normalized_email =ˢ email && undeleted row

-- `users_pkey` and `users_normalized_email_active_uidx`
abbrev pub clashes : Account → UserRow → Bool
clashes account row = row.account.id == account.id || has_email account.normalized_email row

-- `CreateUser`
unfoldable pub create_user : Account → String → Tx IdentityDb Account
create_user account password_hash s =
    if any_row (clashes account) s.users
    then (err (postgres unique_violation), s)
    else let stored = record account { created_at = s.clock; updated_at = s.clock } in
      (
        ok stored,
        record s {
          users =
              record { account = stored; password_hash = password_hash; deleted_at = none }
              ∷ s.users;
        },
      )

-- `CreateUserSettings`
unfoldable pub create_user_settings : Uuid → Tx IdentityDb (Unit {0})
create_user_settings user s =
    if any_row (λ u. u == user) s.settings
    then (err (postgres unique_violation), s)
    else (ok tt, record s { settings = user ∷ s.settings })

-- A SELECT of one user, with pgx.ErrNoRows as `not_found`.
unfoldable pub select_user : (UserRow → Bool) → Tx IdentityDb UserRow
select_user p s = elim (find_first p s.users) [ none ↦ (err not_found, s) | some row ↦ (ok row, s) ]

-- An UPDATE of one user with RETURNING.
unfoldable pub update_user : (UserRow → Bool) → (UserRow → UserRow) → Tx IdentityDb Account
update_user p f s = elim (find_first p s.users) [
  | none ↦ (err not_found, s)
  | some row ↦ (ok ((f row).account), record s { users = update_rows p f s.users })
]

-- `GetUser`
unfoldable pub get_user : Uuid → Tx IdentityDb Account
get_user id s = elim (find_first (is_user id) s.users) [
  | none ↦ (err not_found, s)
  | some row ↦ (ok row.account, s)
]

abbrev pub activated : Time → UserRow → UserRow
activated now row = record row {
  account = record row.account {
    status = active;
    email_verified_at = elim row.account.email_verified_at [ none ↦ some now | some t ↦ some t ];
    updated_at = now;
  };
}

-- `ActivateUser`
unfoldable pub activate_user : Uuid → Tx IdentityDb Account
activate_user id s =
    update_user (λ row. is_user id row && is_pending row.account.status) (activated s.clock) s

abbrev pub with_hash : String → Time → UserRow → UserRow
with_hash hash now row = record row {
  password_hash = hash;
  account = record row.account { updated_at = now };
}

-- `UpdatePasswordHash`, and the check that it affected one row
unfoldable pub set_password_hash : Uuid → String → Tx IdentityDb (Unit {0})
set_password_hash id hash s =
    if any_row (is_user id) s.users
    then (ok tt, record s { users = update_rows (is_user id) (with_hash hash s.clock) s.users })
    else (err not_found, s)

abbrev pub renamed : String → Time → UserRow → UserRow
renamed name now row = record row {
  account = record row.account { display_name = name; updated_at = now };
}

abbrev pub readdressed : String → Time → UserRow → UserRow
readdressed email now row = record row {
  account = record row.account {
    email = email;
    normalized_email = email;
    email_verified_at = none;
    updated_at = now;
  };
}

-- `UpdateEmail`
unfoldable pub set_email : Uuid → String → Tx IdentityDb Account
set_email id email s =
    if any_row (λ row. has_email email row && not (row.account.id == id)) s.users
      && any_row (λ row. is_user id row && is_active row.account.status) s.users
    then (err (postgres unique_violation), s)
    else update_user (λ row. is_user id row && is_active row.account.status)
        (readdressed email s.clock) s
