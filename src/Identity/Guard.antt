-- ===== src/Identity/Guard.antt =====
-- What `Login` of internal/service/session.go does while it is throttled and with wrong credentials,
-- where the server answers without an error and no other transaction intervenes.
pub mod Refused
use be_better.Prelude.{
  ℕ, suc, ◌+◌, ◌≤◌, ◌<◌, ltb, ◌≡◌, ◌≢◌, refl, sym, ap, subst, ◌∙◌, ◌⊎◌, inl, inr, String, ◌=ˢ◌,
  Bool, true, false, not, ◌&&◌, ◌||◌, Option, none, some, List, [], ◌∷◌, arith, if◌then◌else◌, ◌==◌,
  find_first, select_rows, Option-cases, Bool-cases, bytes_equal, bytes_equal_refl, one_of, eq_iff,
  find_first-holds, find_first-select_rows,
}
use be_better.Model.{
  Time, zero_time, is_zero_time, rate_limited, invalid_credentials, not_found, Result, ok, err,
}
use be_better.Exec.{Tx, pure, fail, fail_if, ◌>>=◌, ◌>>◌}
use be_better.Identity.Store.{Dimension, ThrottleRow, UserRow, IdentityDb, select_user, has_email}
use be_better.Identity.Store.Sessions.{
  same_key, throttle_status, record_failure, next_failure, first_failure, failed_again,
}
use be_better.Identity.Repository.{
  map_database_error, mapped, run_statement, login_throttle_status, record_login_failure,
  lookup_login_account,
}
use be_better.Identity.Repository.Calls.{calm}
use be_better.Identity.Validation.{IdentityService}
use be_better.Identity.Sessions.{
  LoginInput, SessionResult, later_block, read_throttles, record_failures, dimension, dimensions,
  login_email, canonical_ip, checked_account, decide, refuse, check_credentials, login,
}

abbrev pub later_row : Time → Time → Option ThrottleRow → Time
later_row now retry_at none = retry_at
later_row now retry_at (some row) = later_block now retry_at row.blocked_until

read_throttles-calm :
    (n : ℕ) (now retry_at : Time) (d : Dimension) (ds : List Dimension) (s : IdentityDb)
    → read_throttles calm n now retry_at (d ∷ ds) s
      ≡ read_throttles calm
          (suc n)
          now
          (later_row now retry_at (find_first (same_key d) s.throttles))
          ds
          s
unfolding read_throttles login_throttle_status run_statement mapped throttle_status
    map_database_error
read_throttles-calm n now retry_at d ds s =
    elim (Option-cases (find_first (same_key d) s.throttles)) [
      | inl e ↦ rw e refl
      | inr (row, e) ↦ rw e refl
    ]

module _ (service : IdentityService) (input : LoginInput) where
  abbrev pub email_key : Dimension
  email_key = dimension service "email" (login_email service input.email)

  abbrev pub ip_key : Dimension
  ip_key = dimension service "ip" (canonical_ip service input.ip)

  -- The time that `Login` finds in the two throttles.
  abbrev pub retry_time : IdentityDb → Time
  retry_time s =
      later_row service.now
        (later_row service.now zero_time (find_first (same_key email_key) s.throttles))
        (find_first (same_key ip_key) s.throttles)

  read_throttles-both :
      (s : IdentityDb)
      → read_throttles calm 0 service.now zero_time (dimensions service input) s
        ≡ (ok (retry_time s), s)
  unfolding read_throttles
  read_throttles-both s =
      read_throttles-calm 0 service.now zero_time email_key (ip_key ∷ []) s
      ∙ read_throttles-calm 1 service.now
          (later_row service.now zero_time (find_first (same_key email_key) s.throttles)) ip_key []
          s

  pub login-calm :
      (s : IdentityDb)
      → login service calm input s
        ≡ (fail_if (not (is_zero_time (retry_time s))) (rate_limited (retry_time s))
              >> check_credentials service calm input)
            s
  unfolding login ◌>>=◌
  login-calm s = rw (login, read_throttles-both s) refl

-- A throttle blocks until a time that lies after `now`.
abbrev pub BlocksUntil : Time → Option ThrottleRow → Time → Type 0
BlocksUntil now throttle until =
    (row : ThrottleRow) × (throttle ≡ some row) × (row.blocked_until ≡ some until) × (now < until)

-- A throttle does not block, or until the given time at most.
abbrev pub BlocksNoLater : Time → Option ThrottleRow → Time → Type 0
BlocksNoLater now throttle until =
    (row : ThrottleRow) (t : Time)
    → throttle ≡ some row
    → row.blocked_until ≡ some t
    → now < t
    → t ≤ until

later_row_le :
    (now retry_at : Time) (throttle : Option ThrottleRow)
    → retry_at ≤ later_row now retry_at throttle
unfolding later_block
later_row_le now retry_at none = omega arith
later_row_le now retry_at (some row) = elim (Option-cases row.blocked_until) [
  | inl e ↦ rw e (omega arith)
  | inr (t, e) ↦ rw e (ground arith)
]

later_row-BlocksUntil :
    (now retry_at until : Time) (throttle : Option ThrottleRow)
    → BlocksUntil now throttle until
    → until ≤ later_row now retry_at throttle
unfolding later_block
later_row-BlocksUntil now retry_at until throttle (row, e, b, after) =
    rw (e, b) (ground (arith, after))

later_row-BlocksNoLater :
    (now retry_at until : Time) (throttle : Option ThrottleRow)
    → BlocksNoLater now throttle until
    → retry_at ≤ until
    → later_row now retry_at throttle ≤ until
unfolding later_block
later_row-BlocksNoLater now retry_at until none h le = le
later_row-BlocksNoLater now retry_at until (some row) h le = elim (Option-cases row.blocked_until) [
  | inl e ↦ rw e le
  | inr (t, e) ↦ elim (Bool-cases (ltb now t)) [
    | inl after ↦
        let bound = h row t refl e (ground (arith, after)) in rw e (ground (arith, bound, le))
    | inr past ↦ rw e (ground (arith, past, le))
  ]
]

-- Where no call fails and no other transaction intervenes: if the throttle of the address or that of
-- the IP blocks until a time after now, and the other not or until that time at most, the login
-- is refused with that time, and nothing changes: no failure is counted and no password is read.
pub login-blocked :
    (service : IdentityService) (input : LoginInput) (s : IdentityDb) (until : Time)
    → zero_time < until
    → BlocksUntil service.now (find_first (same_key (email_key service input)) s.throttles) until
      ⊎ BlocksUntil service.now (find_first (same_key (ip_key service input)) s.throttles) until
    → BlocksNoLater service.now (find_first (same_key (email_key service input)) s.throttles) until
    → BlocksNoLater service.now (find_first (same_key (ip_key service input)) s.throttles) until
    → login service calm input s ≡ (err (rate_limited until), s)
unfolding ◌>>=◌
login-blocked service input s until after blocks email ip =
    let now = service.now in
    let e = find_first (same_key (email_key service input)) s.throttles in
    let i = find_first (same_key (ip_key service input)) s.throttles in
    let first = later_row now zero_time e in
    let first_le = later_row-BlocksNoLater now zero_time until e email (omega (arith, after)) in
    let upper = later_row-BlocksNoLater now first until i ip first_le in
    let lower : until ≤ retry_time service input s = elim blocks [
      | inl b ↦
          omega (arith, later_row-BlocksUntil now zero_time until e b, later_row_le now first i)
      | inr b ↦ later_row-BlocksUntil now first until i b
    ] in
    let same : retry_time service input s ≡ until = omega (arith, upper, lower) in
    let set : is_zero_time (retry_time service input s) ≡ false = ground (arith, lower, after) in
    login-calm service input s ∙ rw set (ap (λ t. (err (rate_limited t), s)) same)
