-- ===== src/Identity/Revoked.antt =====
-- Which sessions authenticate after `ChangePassword` of internal/service/session.go, and what a
-- rotation writes.
use be_better.Prelude.{
  ℕ, ◌≡◌, refl, sym, ap, ◌∙◌, ◌⊎◌, inl, inr, String, true, Option, none, some, List, [], ◌∷◌, arith,
  All, find_first, update_rows, is_some, find_first-holds, find_first-All, All-update_rows,
  Option-cases,
}
use be_better.Model.{Uuid, Time, ok}
use be_better.Exec.{◌>>=◌}
use be_better.Exec.Ensures.{Ensures, Ensures-bind, Ensures-after, Ensures-pure}
use be_better.Identity.Store.{UserRow, Session, NewSession, IdentityDb, is_user, set_password_hash}
use be_better.Identity.Store.Sessions.{
  authenticates, is_open_session, revoked, revoke_all_sessions, insert_session, inserted_session,
}
use be_better.Identity.Repository.{
  AuthenticatedSession, select_authenticated, joined_account, with_user_of, joined, rotate_tx,
  rotate_password_session, mapped,
}
use be_better.Identity.Repository.Calls.{in_user_transaction-ok}
use be_better.Identity.Validation.{IdentityService}
use be_better.Identity.Sessions.{Env, SessionResult}
use be_better.Identity.Changes.{ChangePasswordInput, change_password}

with_user_of-ok :
    (session : Session) (users : List UserRow) {a : AuthenticatedSession}
    → with_user_of session (find_first (is_user session.user_id) users) ≡ ok a
    → (a.session ≡ session) × (a.account.id ≡ session.user_id)
with_user_of-ok session users {a = a} h =
    elim (Option-cases (find_first (is_user session.user_id) users)) [
      | inl e ↦ absurd (cc (ap (with_user_of session) e, h))
      | inr (row, e) ↦
          let made : ok (record { session = session; account = joined_account row }) ≡ ok a =
            sym (ap (with_user_of session) e) ∙ h in
          let holds = find_first-holds (is_user session.user_id) users row e in
          (ground (arith, made), ground (arith, made, holds))
    ]

joined-ok :
    (users : List UserRow) (o : Option NewSession) {a : AuthenticatedSession}
    → joined users o ≡ ok a
    → (row : NewSession) × (o ≡ some row)
      × (a.session ≡ row.session)
      × (a.account.id ≡ row.session.user_id)
joined-ok users none h = absurd (cc h)
joined-ok users (some row) h =
    let read = with_user_of-ok row.session users h in (row, refl, read.0, read.1)

-- The row that authenticated, and its user.
pub select_authenticated-ok :
    (hash : List ℕ) (s : IdentityDb) {a : AuthenticatedSession} {t : IdentityDb}
    → select_authenticated hash s ≡ (ok a, t)
    → (row : NewSession) × (find_first (authenticates hash s.clock s.users) s.sessions ≡ some row)
      × (a.session ≡ row.session)
      × (a.account.id ≡ row.session.user_id)
unfolding select_authenticated
select_authenticated-ok hash s h = joined-ok s.users _ (ap (λ r. r.0) h)

-- What every session of a user is like after `RevokeAllUserSessions` and one `CreateSession`.
pub every_session_revoked :
    (user : Uuid) (now : Time) (rows : List NewSession)
    → All
        (λ row. (row.session.user_id ≡ user) → is_some row.session.revoked_at ≡ true)
        (update_rows (is_open_session user) (revoked now) rows)
every_session_revoked user now rows =
    All-update_rows _ (is_open_session user) (revoked now) rows λ x. ground arith

-- What `RotatePasswordSession` leaves of the sessions.
rotate_tx-ok :
    (user : Uuid) (hash : String) (n : NewSession) (s : IdentityDb) {r : Session} {t : IdentityDb}
    → rotate_tx user hash n s ≡ (ok r, t)
    → (r ≡ (inserted_session s.clock n).session)
      × (t.sessions
          ≡ inserted_session s.clock n
            ∷ update_rows (is_open_session user) (revoked s.clock) s.sessions)
unfolding rotate_tx ◌>>=◌ mapped set_password_hash revoke_all_sessions insert_session
rotate_tx-ok user hash n s h = (ground (arith, h), ground (arith, h))

-- Every session of the user is the given one or revoked.
abbrev pub OnlySession : Uuid → Session → IdentityDb → Type 0
OnlySession user session s =
    All
      (λ row.
        row.session.user_id ≡ user
        → (row.session ≡ session) ⊎ (is_some row.session.revoked_at ≡ true))
      s.sessions

OnlySession-weaken :
    (user : Uuid) (session : Session) (rows : List NewSession)
    → All (λ row. (row.session.user_id ≡ user) → is_some row.session.revoked_at ≡ true) rows
    → All
        (λ row.
          row.session.user_id ≡ user
          → (row.session ≡ session) ⊎ (is_some row.session.revoked_at ≡ true))
        rows
OnlySession-weaken user session [] h = tt
OnlySession-weaken user session (x ∷ xs) h =
    (λ e. inr (h.0 e), OnlySession-weaken user session xs h.1)

rotate_tx-OnlySession :
    (user : Uuid) (hash : String) (n : NewSession) (s : IdentityDb) {r : Session} {t : IdentityDb}
    → rotate_tx user hash n s ≡ (ok r, t)
    → OnlySession user r t
rotate_tx-OnlySession user hash n s {r = r} h =
    let (same, rows) = rotate_tx-ok user hash n s h in
    rw rows (
      λ e. inl (sym same),
      OnlySession-weaken user r _ (every_session_revoked user s.clock s.sessions),
    )

-- A session that authenticates is not revoked, so it is the only one.
select_authenticated-OnlySession :
    (user : Uuid) (session : Session) (hash : List ℕ) (s : IdentityDb) {a : AuthenticatedSession}
    {t : IdentityDb}
    → OnlySession user session s
    → select_authenticated hash s ≡ (ok a, t)
    → a.account.id ≡ user
    → a.session ≡ session
select_authenticated-OnlySession user session hash s only h e =
    let (row, found, same, owner) = select_authenticated-ok hash s h in
    let holds = find_first-holds (authenticates hash s.clock s.users) s.sessions row found in
    elim (find_first-All _ (authenticates hash s.clock s.users) s.sessions row only found
      (sym owner ∙ e)) [ inl it ↦ same ∙ it | inr gone ↦ absurd (ground (arith, holds, gone)) ]

change_password-OnlySession :
    (service : IdentityService) (env : Env) (input : ChangePasswordInput)
    → Ensures
        (λ s. Unit {0})
        (change_password service env input)
        (λ r t. OnlySession input.account.id r.session t)
unfolding change_password rotate_password_session
change_password-OnlySession service env input = Ensures-after _ _ λ _. Ensures-after _ _ λ _.
    Ensures-after _ _ λ hash. Ensures-after _ _ λ made.
      Ensures-bind (λ session t. OnlySession input.account.id session t) _ _
        (record {
          at = λ s p session t e.
              rotate_tx-OnlySession input.account.id hash made.0 ((env 1).others s)
                (in_user_transaction-ok (env 1) _ s e);
        })
        λ session. Ensures-pure _ λ s p. p

-- After ChangePassword, whatever the environment did meanwhile, no other session of the account
-- authenticates any more, at any time and with any token: a token that does belongs to the session
-- that was returned.
pub change_password-revokes :
    (service : IdentityService) (env : Env) (input : ChangePasswordInput) (s : IdentityDb)
    {r : SessionResult} {t : IdentityDb}
    → change_password service env input s ≡ (ok r, t)
    → (hash : List ℕ) (later : Time) {a : AuthenticatedSession} {t' : IdentityDb}
    → select_authenticated hash (record t { clock = later }) ≡ (ok a, t')
    → a.account.id ≡ input.account.id
    → a.session ≡ r.session
change_password-revokes service env input s {r = r} {t = t} h hash later =
    select_authenticated-OnlySession input.account.id r.session hash (record t { clock = later })
      ((change_password-OnlySession service env input).at s tt r t h)
