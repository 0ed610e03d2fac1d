-- ===== src/Identity/Reset.antt =====
-- What `ResetPassword` of internal/service/account.go leaves of the sessions and the tokens.
pub mod Used
use be_better.Prelude.{
  ℕ, ◌≡◌, ◌≢◌, refl, sym, ap, subst, ◌∙◌, ◌⊎◌, inl, inr, String, Bool, true, false, not, ◌&&◌,
  Option, none, some, List, [], ◌∷◌, arith, if◌then◌else◌, ◌==◌, All, find_first, update_rows,
  is_some, find_first-holds, find_first-All, taken, bytes_equal, bytes_equal_sound, any_row,
  Option-cases, Bool-cases, bytes_equal_refl, trim_space, ◌=ˢ◌,
}
use be_better.Model.{Uuid, Time, Result, ok, err, not_found, invalid_token, Error}
use be_better.Exec.{Tx, pure, lift, fail_if, ◌>>=◌, >>=-eq-ok, fail_if-then, lift-then}
use be_better.Exec.Ensures.{Ensures, Ensures-bind, Ensures-after, Ensures-pure}
use be_better.Database.Transaction.{Attempt}
use be_better.Identity.Store.{
  Account, AccountToken, Purpose, same_purpose, reset_password, TokenRow, UserRow, Session,
  NewSession, IdentityDb, is_user, set_password_hash, get_user,
}
use be_better.Identity.Store.Tokens.{
  usable_token, consumed, lookup_account_token, is_open_token, mark_consumed,
}
use be_better.Identity.Store.Sessions.{authenticates, is_open_session, revoked, revoke_all_sessions}
use be_better.Identity.Repository.{
  AuthenticatedSession, select_authenticated, mapped, run_statement,
}
use be_better.Identity.Repository.Tokens.{purposed_token, reset_tx, reset_password_with_token}
use be_better.Identity.Repository.Calls.{mapped-ok, run_statement-ok, in_user_transaction-ok}
use be_better.Identity.Password.{hash_password, hash_token}
use be_better.Identity.Validation.{IdentityService, validate_password}
use be_better.Identity.Sessions.{Env}
use be_better.Identity.Changes.{or_missing}
use be_better.Identity.Accounts.{reset_account_password}
use be_better.Identity.Revoked.{every_session_revoked, select_authenticated-ok}

-- What the transaction of `ResetPasswordWithToken` writes, and whom it returns.
pub reset_tx-ok :
    (hash : String) (token : AccountToken) (s : IdentityDb) {a : Account} {t : IdentityDb}
    → reset_tx hash token s ≡ (ok a, t)
    → (t.sessions ≡ update_rows (is_open_session token.user_id) (revoked s.clock) s.sessions)
      × (t.tokens
          ≡ update_rows (is_open_token token.user_id token.id s.clock) (consumed s.clock) s.tokens)
      × (get_user token.user_id t ≡ (ok a, t))
unfolding reset_tx ◌>>=◌ mapped mark_consumed set_password_hash revoke_all_sessions get_user
reset_tx-ok hash token s h = (ground (arith, h), ground (arith, h), ground (arith, h))

get_user-id :
    (user : Uuid) (s : IdentityDb) {a : Account} {t : IdentityDb}
    → get_user user s ≡ (ok a, t)
    → a.id ≡ user
unfolding get_user
get_user-id user s h = elim (Option-cases (find_first (is_user user) s.users)) [
  | inl e ↦ ground (arith, h, e)
  | inr (row, e) ↦
      let holds = find_first-holds (is_user user) s.users row e in ground (arith, h, e, holds)
]

purposed_token-ok :
    (e : Attempt IdentityDb) (hash : List ℕ) (p : Purpose) (s : IdentityDb) {k : AccountToken}
    {t : IdentityDb}
    → purposed_token e hash p s ≡ (ok k, t)
    → lookup_account_token hash (e.others s) ≡ (ok k, t)
unfolding purposed_token pure
purposed_token-ok e hash p s h =
    let (found, s1, read, rest) = >>=-eq-ok (run_statement e (lookup_account_token hash)) _ s h in
    run_statement-ok e (lookup_account_token hash) s read
    ∙ fail_if-then (not (same_purpose found.purpose p)) not_found (λ _. pure found) s1 rest

pub reset_password_with_token-ok :
    (e0 e1 : Attempt IdentityDb) (hash : List ℕ) (password : String) (s : IdentityDb) {a : Account}
    {t : IdentityDb}
    → reset_password_with_token e0 e1 hash password s ≡ (ok a, t)
    → (k : AccountToken) × (s1 : IdentityDb) × (lookup_account_token hash (e0.others s)
        ≡ (ok k, s1))
      × (reset_tx password k (e1.others s1) ≡ (ok a, t))
unfolding reset_password_with_token
reset_password_with_token-ok e0 e1 hash password s h =
    let (k, s1, read, rest) = >>=-eq-ok (purposed_token e0 hash reset_password) _ s h in
    (k, s1, purposed_token-ok e0 hash reset_password s read, in_user_transaction-ok e1 _ s1 rest)

or_missing-ok :
    {S A : Type 0} (missing : Error) (r : Result A × S) {a : A} {t : S}
    → or_missing missing r ≡ (ok a, t)
    → r ≡ (ok a, t)
or_missing-ok missing (ok a, s) h = h
or_missing-ok missing (err e, s) h = absurd (cc (ap (λ q. q.0) h))

-- A reset that succeeded: its query found a token of the hash, and its transaction ran.
pub reset_account_password-ok :
    (service : IdentityService) (env : Env) (token password : String) (s : IdentityDb) {a : Account}
    {t : IdentityDb}
    → reset_account_password service env token password s ≡ (ok a, t)
    → (hash : String) × (k : AccountToken) × (s1 : IdentityDb) × (lookup_account_token
          (hash_token service.crypto token)
          ((env 0).others s)
        ≡ (ok k, s1))
      × (reset_tx hash k ((env 1).others s1) ≡ (ok a, t))
unfolding reset_account_password
reset_account_password-ok service env token password s h =
    let checked = fail_if-then (trim_space token =ˢ "") invalid_token _ s h in
    let (valid, v, long) = lift-then (validate_password password) _ s checked in
    let (hash, e, hashed) =
      lift-then (hash_password service.crypto service.random_salt password) _ s long in
    let done =
      or_missing-ok invalid_token
        (reset_password_with_token (env 0) (env 1) (hash_token service.crypto token) hash s)
        hashed in
    let (k, s1, read, ran) =
      reset_password_with_token-ok (env 0) (env 1) (hash_token service.crypto token) hash s done in
    (hash, k, s1, read, ran)

-- After ResetPassword, whatever the environment did meanwhile, no session of the account
-- authenticates any more, at any time and with any token.
pub reset_account_password-revokes :
    (service : IdentityService) (env : Env) (token password : String) (s : IdentityDb) {a : Account}
    {t : IdentityDb}
    → reset_account_password service env token password s ≡ (ok a, t)
    → (hash : List ℕ) (later : Time) {found : AuthenticatedSession} {t' : IdentityDb}
    → select_authenticated hash (record t { clock = later }) ≡ (ok found, t')
    → found.account.id ≢ a.id
reset_account_password-revokes service env token password s {t = t} h hash later f e =
    let (pw, k, s1, read, ran) = reset_account_password-ok service env token password s h in
    let (sessions, tokens, user) = reset_tx-ok pw k ((env 1).others s1) ran in
    let owner = get_user-id k.user_id t user in
    let (row, found_row, same, of) = select_authenticated-ok hash (record t { clock = later }) f in
    let all =
      subst (All (λ row. (row.session.user_id ≡ k.user_id) → is_some row.session.revoked_at ≡ true))
        (sym sessions)
        (every_session_revoked k.user_id ((env 1).others s1).clock ((env 1).others s1).sessions) in
    let gone =
      find_first-All _ (authenticates hash later t.users) t.sessions row all found_row
        (sym of ∙ e ∙ owner) in
    let holds = find_first-holds (authenticates hash later t.users) t.sessions row found_row in
    ground (arith, gone, holds)
