-- ===== src/Identity/Admission.antt =====
-- Whom `Login` of internal/service/session.go lets in, whatever the environment does.
use be_better.Identity.Reads.{read_throttles-same}
use be_better.Prelude.{
  ◌+◌, ◌*◌, ◌/◌, ◌≡◌, ◌≢◌, refl, sym, ap, subst, inl, inr, String, Bool, true, false, not, some,
  List, ◌∷◌, arith, find_first, Option-cases,
}
use be_better.Model.{
  Uuid, zero_time, is_zero_time, rate_limited, account_not_active, Error, Result, ok, err,
}
use be_better.Exec.{Tx, pure, fail, fail_if, ◌>>=◌, >>=-eq-ok, fail_if-then, lift-then}
use be_better.Exec.Ensures.{Holds}
use be_better.Database.Transaction.{Attempt}
use be_better.Identity.Store.{
  Account, is_active, Session, NewSession, UserRow, IdentityDb, select_user, has_email,
}
use be_better.Identity.Store.Sessions.{insert_session, inserted_session}
use be_better.Identity.Password.{verify_password, hash_token, new_token}
use be_better.Identity.Repository.{lookup_login_account, create_session}
use be_better.Identity.Repository.Calls.{run_statement-ok, mapped-ok, in_user_transaction-ok}
use be_better.Identity.Validation.{IdentityService, normalize_email}
use be_better.Identity.Sessions.{
  Env, LoginInput, SessionResult, session_duration, read_throttles, record_failures,
  clear_throttles, upgrade_hash, dimensions, login_email, new_session, open_session,
  checked_account, admit, decide, refuse, check_credentials, login,
}

-- The session that a token was made for, first of the table.
pub record Opened (service : IdentityService) (r : SessionResult) (t : IdentityDb) : Type 0 where
  pub made : NewSession
  pub rest : List NewSession
  pub stored : t.sessions ≡ made ∷ rest
  pub returned : made.session ≡ r.session
  pub hashed : made.token_hash ≡ hash_token service.crypto r.token
  pub owner : made.session.user_id ≡ r.account.id
  pub expiry : made.session.expires_at ≡ (service.now + session_duration) / 1000 * 1000

module _ (service : IdentityService) where
  new_session-ok :
      (user : Uuid) (agent : String) {made : NewSession × String}
      → new_session service user agent ≡ ok made
      → (made.0.session.user_id ≡ user)
        × (made.0.token_hash ≡ hash_token service.crypto made.1)
        × (made.0.session.expires_at ≡ service.now + session_duration)
  unfolding new_session new_token hash_token
  new_session-ok user agent h = (ground (arith, h), ground (arith, h), ground (arith, h))

  insert_session-ok :
      (n : NewSession) (s : IdentityDb) {r : Session} {t : IdentityDb}
      → insert_session n s ≡ (ok r, t)
      → (r ≡ (inserted_session s.clock n).session)
        × (t.sessions ≡ inserted_session s.clock n ∷ s.sessions)
  unfolding insert_session
  insert_session-ok n s h = (ground (arith, h), ground (arith, h))

  open_session-Opened :
      (e : Attempt IdentityDb) (account : Account) (agent : String) (s : IdentityDb)
      {r : SessionResult} {t : IdentityDb}
      → open_session service e account agent s ≡ (ok r, t)
      → (r.account ≡ account) × Opened service r t
  unfolding open_session create_session pure
  open_session-Opened e account agent s h =
      let (made, m, rest) = lift-then (new_session service account.id agent) _ s h in
      let (session, s1, stored, done) = >>=-eq-ok (create_session e made.0) _ s rest in
      let (same, rows) =
        insert_session-ok made.0 (e.others s)
          (mapped-ok _ _ (in_user_transaction-ok e _ s stored)) in
      let (owner, hashed, expiry) = new_session-ok account.id agent m in
      subst
        (λ (q : Result SessionResult × IdentityDb).
          Holds (λ r t. (r.account ≡ account) × Opened service r t) q)
        done
        (
          refl,
          record {
            made = inserted_session (e.others s).clock made.0;
            rest = (e.others s).sessions;
            stored = rows;
            returned = sym same;
            hashed = hashed;
            owner = owner;
            expiry = ap (λ x. x / 1000 * 1000) expiry;
          },
        )

  guard_passed :
      {A : Type 0} (b : Bool) (e : Error) (f : Unit {0} → Tx IdentityDb A) (s : IdentityDb) {a : A}
      {t : IdentityDb}
      → (fail_if (not b) e >>= f) s ≡ (ok a, t)
      → b ≡ true
  unfolding ◌>>=◌
  guard_passed true e f s h = refl
  guard_passed false e f s h = absurd (cc (ap (λ q. q.0) h))

  -- The credentials were found right.
  checked_account-ok :
      (input : LoginInput) (found : Result UserRow) {row : UserRow}
      → checked_account service input found ≡ some row
      → (found ≡ ok row)
        × (verify_password service.crypto row.password_hash input.password ≡ ok true)
        × (normalize_email service.to_lower input.email ≡ ok (login_email service input.email))
  unfolding checked_account login_email
  checked_account-ok input (err e) h = absurd (cc h)
  checked_account-ok input (ok x) h = (ground (arith, h), ground (arith, h), ground (arith, h))

  admit-ok :
      (env : Env) (input : LoginInput) (row : UserRow) (s : IdentityDb) {r : SessionResult}
      {t : IdentityDb}
      → admit service env input row s ≡ (ok r, t)
      → (is_active row.account.status ≡ true) × (r.account ≡ row.account) × Opened service r t
  unfolding admit
  admit-ok env input row s h =
      let entered = fail_if-then (not (is_active row.account.status)) account_not_active _ s h in
      let (u, s1, cleared, rest) =
        >>=-eq-ok (clear_throttles env 3 (dimensions service input)) _ s entered in
      let (v, s2, upgraded, done) =
        >>=-eq-ok (upgrade_hash service (env 5) row input.password) _ s1 rest in
      let opened = open_session-Opened (env 6) row.account input.user_agent s2 done in
      (guard_passed (is_active row.account.status) account_not_active _ s h, opened.0, opened.1)

  refuse-fails :
      (env : Env) (input : LoginInput) (s : IdentityDb) {r : SessionResult} {t : IdentityDb}
      → refuse service env input s ≢ (ok r, t)
  unfolding refuse fail
  refuse-fails env input s h =
      let (u, s1, recorded, rest) =
        >>=-eq-ok (record_failures env 3 (dimensions service input)) _ s h in
      cc (ap (λ q. q.0) rest)

  decide-ok :
      (env : Env) (input : LoginInput) (found : Result UserRow) (s : IdentityDb) {r : SessionResult}
      {t : IdentityDb}
      → decide service env input (checked_account service input found) s ≡ (ok r, t)
      → (row : UserRow) × (found ≡ ok row)
        × (verify_password service.crypto row.password_hash input.password ≡ ok true)
        × (normalize_email service.to_lower input.email ≡ ok (login_email service input.email))
        × (is_active row.account.status ≡ true)
        × (r.account ≡ row.account)
        × Opened service r t
  decide-ok env input found s {r = r} {t = t} h =
      elim (Option-cases (checked_account service input found)) [
        | inl e ↦
            absurd
              (refuse-fails env input s (subst (λ o. decide service env input o s ≡ (ok r, t)) e h))
        | inr (row, e) ↦
            let (it, verified, normal) = checked_account-ok input found e in
            let (status, account, opened) =
              admit-ok env input row s
                (subst (λ o. decide service env input o s ≡ (ok r, t)) e h) in
            (row, it, verified, normal, status, account, opened)
      ]

pair_ok : {A : Type 0} (q : Result A × IdentityDb) {a : A} → q.0 ≡ ok a → q ≡ (ok a, q.1)
pair_ok (r, s) h = ap (λ x. (x, s)) h

select_user-ok :
    (p : UserRow → Bool) (s : IdentityDb) {row : UserRow} {t : IdentityDb}
    → select_user p s ≡ (ok row, t)
    → find_first p s.users ≡ some row
unfolding select_user
select_user-ok p s h = elim (Option-cases (find_first p s.users)) [
  | inl e ↦ absurd (ground (arith, h, e))
  | inr (row, e) ↦ ground (arith, h, e)
]

-- The state that the lookup of a login sees: only other transactions came before it.
abbrev pub at_lookup : Env → IdentityDb → IdentityDb
at_lookup env s = (env 2).others ((env 1).others ((env 0).others s))

-- A login that succeeded, whatever the environment did meanwhile: at the lookup the normalized address
-- had an undeleted account, the password verified against its hash, and it was active; this account is
-- returned, and a session of it for the returned token is stored that expires 30 days from now, cut
-- to the microsecond.
pub login-admits :
    (service : IdentityService) (env : Env) (input : LoginInput) (s : IdentityDb)
    {r : SessionResult} {t : IdentityDb}
    → login service env input s ≡ (ok r, t)
    → (row : UserRow) × (normalize_email service.to_lower input.email
        ≡ ok (login_email service input.email))
      × (find_first
            (has_email (service.sql_lower (login_email service input.email)))
            (at_lookup env s).users
          ≡ some row)
      × (verify_password service.crypto row.password_hash input.password ≡ ok true)
      × (is_active row.account.status ≡ true)
      × (r.account ≡ row.account)
      × Opened service r t
unfolding login check_credentials lookup_login_account
login-admits service env input s h =
    let (retry, s1, read, rest) =
      >>=-eq-ok (read_throttles env 0 service.now zero_time (dimensions service input)) _ s h in
    let checked = fail_if-then (not (is_zero_time retry)) (rate_limited retry) _ s1 rest in
    let found =
      lookup_login_account (env 2) service.sql_lower (login_email service input.email) s1 in
    let (row, it, verified, normal, status, account, opened) =
      decide-ok service env input found.0 found.1 checked in
    let found_row =
      select_user-ok (has_email (service.sql_lower (login_email service input.email)))
        ((env 2).others s1) (run_statement-ok (env 2) _ s1 (pair_ok found it)) in
    (
      row,
      normal,
      subst
          (λ u.
            find_first (has_email (service.sql_lower (login_email service input.email)))
              (((env 2).others u).users)
            ≡ some row)
          (read_throttles-same env 0 service.now zero_time _ _ s read) found_row,
      verified,
      status,
      account,
      opened,
    )
