-- ===== src/Identity/Guard/Refused.antt =====
-- What `Login` of internal/service/session.go does with wrong credentials, where the server answers
-- without an error and no other transaction intervenes.
use be_better.Prelude.{
  ◌+◌, ◌*◌, ◌≤◌, ◌<◌, ◌≡◌, not, Option, none, some, List, ◌∷◌, find_first, select_rows,
}
use be_better.Model.{Time, minute, not_found, Result, ok, err}
use be_better.Identity.Store.{Dimension, ThrottleRow, UserRow, IdentityDb, has_email}
use be_better.Identity.Store.Sessions.{same_key, next_failure}
use be_better.Identity.Validation.{IdentityService}
use be_better.Identity.Sessions.{LoginInput, login_email}
use be_better.Identity.Guard.{email_key, ip_key}

-- The rows after one failure.
abbrev pub failed_once : Dimension → Time → List ThrottleRow → List ThrottleRow
failed_once d now rows =
    next_failure d now (find_first (same_key d) rows)
    ∷ select_rows (λ row. not (same_key d row)) rows

abbrev pub found_user : Option UserRow → Result UserRow
found_user none = err not_found
found_user (some row) = ok row

module _ (service : IdentityService) (input : LoginInput) (s : IdentityDb) where
  -- What `Login` finds for the address.
  abbrev pub looked_up : Result UserRow
  looked_up =
      found_user
        (find_first (has_email (service.sql_lower (login_email service input.email))) s.users)

  -- The rows after a login was refused.
  abbrev pub both_failed : List ThrottleRow
  both_failed =
      failed_once (ip_key service input) s.clock
        (failed_once (email_key service input) s.clock s.throttles)

-- The row that a failure leaves in place of the one before: it counts one more where the window of 15
-- minutes still lasts and starts a new window with one failure where not, and from five failures on
-- it blocks for 15 minutes.
pub data Counted (now : Time) : Option ThrottleRow → ThrottleRow → Type 0 where
  first :
      {row : ThrottleRow}
      → row.failures ≡ 1
      → row.window_started_at ≡ now
      → row.blocked_until ≡ none
      → Counted now none row
  again :
      {old row : ThrottleRow}
      → now < old.window_started_at + 15 * minute
      → row.failures ≡ old.failures + 1
      → row.window_started_at ≡ old.window_started_at
      → (5 ≤ row.failures → row.blocked_until ≡ some (now + 15 * minute))
      → Counted now (some old) row
  renewed :
      {old row : ThrottleRow}
      → old.window_started_at + 15 * minute ≤ now
      → row.failures ≡ 1
      → row.window_started_at ≡ now
      → Counted now (some old) row
