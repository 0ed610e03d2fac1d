-- ===== src/Identity/Reset/Used.antt =====
-- The token that `ResetPassword` of internal/service/account.go uses up.
use be_better.Prelude.{
  ◌≤◌, ◌≡◌, refl, ap, ◌∙◌, String, Bool, true, false, List, [], ◌∷◌, arith, if◌then◌else◌,
  update_rows, any_row,
}
use be_better.Model.{Uuid, Time, ok}
use be_better.Exec.{◌>>=◌}
use be_better.Identity.Store.{
  Account, AccountToken, TokenRow, IdentityDb, set_password_hash, get_user,
}
use be_better.Identity.Store.Tokens.{consumed, lookup_account_token, is_open_token, mark_consumed}
use be_better.Identity.Store.Sessions.{revoke_all_sessions}
use be_better.Identity.Repository.{mapped}
use be_better.Identity.Repository.Tokens.{reset_tx}
use be_better.Identity.Validation.{IdentityService}
use be_better.Identity.Password.{hash_token}
use be_better.Identity.Sessions.{Env}
use be_better.Identity.Accounts.{reset_account_password}
use be_better.Identity.Reset.{reset_tx-ok, reset_account_password-ok}

-- A row of the token is open: neither consumed nor expired.
abbrev pub open_at : AccountToken → Time → IdentityDb → Bool
open_at token now s = any_row (is_open_token token.user_id token.id now) s.tokens

-- The transaction ran only on tables where the token was open.
reset_tx-open :
    (hash : String) (token : AccountToken) (s : IdentityDb) {a : Account} {t : IdentityDb}
    → reset_tx hash token s ≡ (ok a, t)
    → (open_at token s.clock s ≡ true) × (t.clock ≡ s.clock)
unfolding reset_tx ◌>>=◌ mapped mark_consumed set_password_hash revoke_all_sessions get_user
reset_tx-open hash token s h = (ground (arith, h), ground (arith, h))

closed_row :
    (user id : Uuid) (now later : Time) (row : TokenRow)
    → now ≤ later
    → is_open_token user id later (if is_open_token user id now row then consumed now row else row)
      ≡ false
closed_row user id now later row h = ground (arith, h)

none_open :
    (user id : Uuid) (now later : Time) (rows : List TokenRow)
    → now ≤ later
    → any_row
        (is_open_token user id later)
        (update_rows (is_open_token user id now) (consumed now) rows)
      ≡ false
none_open user id now later [] h = refl
none_open user id now later (row ∷ rows) h =
    rw (closed_row user id now later row h, none_open user id now later rows h) refl

-- A reset that succeeded, whatever the environment did meanwhile: its lookup found a token of the
-- given text, this token was open, neither consumed nor expired, in the tables on which the
-- transaction of the reset ran, which other transactions may have changed after the lookup, and in
-- the tables that it left the token is open at no later time.
pub reset_account_password-single_use :
    (service : IdentityService) (env : Env) (token password : String) (s : IdentityDb) {a : Account}
    {t : IdentityDb}
    → reset_account_password service env token password s ≡ (ok a, t)
    → (k : AccountToken) × (s1 : IdentityDb) × (lookup_account_token
          (hash_token service.crypto token)
          ((env 0).others s)
        ≡ (ok k, s1))
      × (open_at k ((env 1).others s1).clock ((env 1).others s1) ≡ true)
      × ((later : Time) → t.clock ≤ later → open_at k later t ≡ false)
reset_account_password-single_use service env token password s {t = t} h =
    let (pw, k, s1, read, ran) = reset_account_password-ok service env token password s h in
    let before = (env 1).others s1 in
    let (sessions, tokens, user) = reset_tx-ok pw k before ran in
    let (was_open, same_clock) = reset_tx-open pw k before ran in
    (
      k,
      s1,
      read,
      was_open,
      λ later le.
          ap (any_row (is_open_token k.user_id k.id later)) tokens
          ∙ none_open k.user_id k.id before.clock later before.tokens
              (omega (arith, same_clock, le)),
    )
