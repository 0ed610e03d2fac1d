-- ===== src/Identity/Store/Sessions.antt =====
-- dayorder.sessions and dayorder.login_throttles of internal/db/query/identity.sql, with
-- `authenticate_session`, `login_throttle_status`, `record_login_failure` and `clear_login_throttle`
-- of migrations/000005.
use be_better.Prelude.{
  ℕ, ◌+◌, ◌*◌, ◌/◌, ◌=ˢ◌, Bool, not, ◌&&◌, ◌||◌, Option, none, some, List, [], ◌∷◌, ltb, leb, ◌==◌,
  if◌then◌else◌, bytes_equal, is_some, find_first, any_row, update_rows, select_rows, one_of,
}
use be_better.Model.{Uuid, Time, minute, postgres, not_found, ok, err}
use be_better.Exec.{Tx}
use be_better.Identity.Store.{
  Session, NewSession, UserRow, Dimension, ThrottleRow, IdentityDb, unique_violation, is_user,
}

-- `CreateSession`, whose times of creation are left to their defaults; the column keeps the expiry to
-- the microsecond
abbrev pub inserted_session : Time → NewSession → NewSession
inserted_session now row = record row {
  session = record row.session {
    created_at = now;
    last_seen_at = now;
    expires_at = row.session.expires_at / 1000 * 1000;
    revoked_at = none;
  };
}

unfoldable pub insert_session : NewSession → Tx IdentityDb Session
insert_session row s =
    if any_row (λ r. r.session.id == row.session.id || bytes_equal r.token_hash row.token_hash)
      s.sessions
    then (err (postgres unique_violation), s)
    else (
      ok ((inserted_session s.clock row).session),
      record s { sessions = inserted_session s.clock row ∷ s.sessions },
    )

abbrev pub is_session : Uuid → Uuid → NewSession → Bool
is_session user id row = row.session.user_id == user && row.session.id == id

abbrev pub is_live_session : List ℕ → Time → NewSession → Bool
is_live_session hash now row =
    bytes_equal row.token_hash hash
    && not (is_some row.session.revoked_at)
    && ltb now row.session.expires_at

-- `authenticate_session`: the join keeps a session whose user is not deleted
abbrev pub authenticates : List ℕ → Time → List UserRow → NewSession → Bool
authenticates hash now users row =
    is_live_session hash now row && any_row (is_user row.session.user_id) users

abbrev pub revoked : Time → NewSession → NewSession
revoked now row = record row { session = record row.session { revoked_at = some now } }

abbrev pub touched : Time → NewSession → NewSession
touched now row = record row { session = record row.session { last_seen_at = now } }

-- `last_seen_at < now() - touch_interval`
abbrev pub is_stale : Uuid → Uuid → Time → ℕ → NewSession → Bool
is_stale user id now interval row =
    is_session user id row
    && not (is_some row.session.revoked_at)
    && ltb (row.session.last_seen_at + interval) now

-- `TouchSession`
unfoldable pub touch_session : Uuid → Uuid → ℕ → Tx IdentityDb (Unit {0})
touch_session user id interval s = (
  ok tt,
  record s {
    sessions = update_rows (is_stale user id s.clock interval) (touched s.clock) s.sessions;
  },
)

-- `GetSession`
unfoldable pub get_session : Uuid → Uuid → Tx IdentityDb Session
get_session user id s = elim (find_first (is_session user id) s.sessions) [
  | none ↦ (err not_found, s)
  | some row ↦ (ok row.session, s)
]

abbrev pub is_unrevoked : Uuid → Uuid → NewSession → Bool
is_unrevoked user id row = is_session user id row && not (is_some row.session.revoked_at)

-- `RevokeSession`, and the check that it affected one row
unfoldable pub mark_revoked : Uuid → Uuid → Tx IdentityDb (Unit {0})
mark_revoked user id s =
    if any_row (is_unrevoked user id) s.sessions
    then (
      ok tt,
      record s { sessions = update_rows (is_unrevoked user id) (revoked s.clock) s.sessions },
    )
    else (err not_found, s)

abbrev pub is_open_session : Uuid → NewSession → Bool
is_open_session user row = row.session.user_id == user && not (is_some row.session.revoked_at)

-- `RevokeAllUserSessions`
unfoldable pub revoke_all_sessions : Uuid → Tx IdentityDb (Unit {0})
revoke_all_sessions user s =
    (ok tt, record s { sessions = update_rows (is_open_session user) (revoked s.clock) s.sessions })

-- The defaults of `record_login_failure`.
abbrev pub throttle_window : ℕ
throttle_window = 15 * minute

abbrev pub max_failures : ℕ
max_failures = 5

abbrev pub block_duration : ℕ
block_duration = 15 * minute

abbrev pub same_key : Dimension → ThrottleRow → Bool
same_key d row = row.key.name =ˢ d.name && bytes_equal row.key.hash d.hash

-- `throttle.blocked_until > statement_timestamp()`
abbrev pub still_blocked : Option Time → Time → Option Time
still_blocked none now = none
still_blocked (some t) now = if ltb now t then some t else none

-- The row that the upsert of `record_login_failure` writes over an old one; the comparison of the
-- start of the window is moved to the other side.
unfoldable pub failed_again : Time → ThrottleRow → ThrottleRow
failed_again now row =
    let expired = leb (row.window_started_at + throttle_window) now in
    let failures = if expired then 1 else row.failures + 1 in
    record row {
      window_started_at = if expired then now else row.window_started_at;
      failures = failures;
      blocked_until =
          if leb max_failures failures
          then some (now + block_duration)
          else still_blocked row.blocked_until now;
      updated_at = now;
    }

-- The row that it inserts.
abbrev pub first_failure : Dimension → Time → ThrottleRow
first_failure d now = record {
  key = d;
  window_started_at = now;
  failures = 1;
  blocked_until = none;
  updated_at = now;
}

abbrev pub next_failure : Dimension → Time → Option ThrottleRow → ThrottleRow
next_failure d now none = first_failure d now
next_failure d now (some row) = failed_again now row

-- `LoginThrottleStatus`
unfoldable pub throttle_status : Dimension → Tx IdentityDb ThrottleRow
throttle_status d s = elim (find_first (same_key d) s.throttles) [
  | none ↦ (err not_found, s)
  | some row ↦ (ok row, s)
]

-- `RecordLoginFailure`; the window, maximum and duration are in the ranges that the function checks.
unfoldable pub record_failure : Dimension → Tx IdentityDb (Unit {0})
record_failure d s =
    if not (one_of ("email" ∷ "ip" ∷ []) d.name) then (err (postgres "22023"), s) else (
      ok tt,
      record s {
        throttles =
            next_failure d s.clock (find_first (same_key d) s.throttles)
            ∷ select_rows (λ row. not (same_key d row)) s.throttles;
      },
    )

-- `ClearLoginThrottle`
unfoldable pub clear_throttle : Dimension → Tx IdentityDb (Unit {0})
clear_throttle d s =
    (ok tt, record s { throttles = select_rows (λ row. not (same_key d row)) s.throttles })
