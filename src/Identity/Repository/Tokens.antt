-- ===== src/Identity/Repository/Tokens.antt =====
-- The account tokens of internal/postgres/account_repository.go.
use be_better.Prelude.{ℕ, String, not, List, [], ◌∷◌, ◌++◌, if◌then◌else◌}
use be_better.Model.{not_found, OutboxDraft, ok}
use be_better.Exec.{Tx, pure, fail_if, ◌>>=◌, ◌>>◌}
use be_better.Database.Transaction.{Attempt}
use be_better.Command.Writers.{outbox_row}
use be_better.Identity.Store.{
  Account, AccountToken, Purpose, verify_email, reset_password, same_purpose, IdentityDb, get_user,
  activate_user, set_password_hash,
}
use be_better.Identity.Store.Tokens.{
  lookup_account_token, mark_consumed, invalidate_account_tokens, create_account_token,
}
use be_better.Identity.Store.Sessions.{revoke_all_sessions}
use be_better.Identity.Repository.{mapped, in_user_transaction, run_statement}

-- The transaction of `ConsumeAccountToken`.
unfoldable pub consume_tx : Purpose → AccountToken → Tx IdentityDb Account
consume_tx purpose token = do
  mapped (mark_consumed token.user_id token.id)
  mapped (
      if same_purpose purpose verify_email
      then activate_user token.user_id
      else get_user token.user_id)

-- The transaction of `ResetPasswordWithToken`.
unfoldable pub reset_tx : String → AccountToken → Tx IdentityDb Account
reset_tx password_hash token = do
  mapped (mark_consumed token.user_id token.id)
  mapped (set_password_hash token.user_id password_hash)
  mapped (revoke_all_sessions token.user_id)
  mapped (get_user token.user_id)

-- The statements of `CreateAccountTokenDelivery`.
unfoldable pub delivery_tx : Account → AccountToken → OutboxDraft → Tx IdentityDb (Unit {0})
delivery_tx account token event = do
  mapped (invalidate_account_tokens account.id token.purpose)
  mapped (create_account_token token)
  λ s. (ok tt, record s { outbox = s.outbox ++ outbox_row account.id event ∷ [] })

-- `CreateAccountTokenDelivery`
unfoldable pub create_account_token_delivery :
    Attempt IdentityDb → Account → AccountToken → OutboxDraft → Tx IdentityDb (Unit {0})
create_account_token_delivery t account token event =
    in_user_transaction t (delivery_tx account token event)

-- The query before the transactions below, and the check of the purpose.
unfoldable pub purposed_token : Attempt IdentityDb → List ℕ → Purpose → Tx IdentityDb AccountToken
purposed_token t hash purpose = do
  token ← run_statement t (lookup_account_token hash)
  fail_if (not (same_purpose token.purpose purpose)) not_found
  pure token

-- `ConsumeAccountToken`: `t0` is the attempt of the query, `t` that of the transaction.
unfoldable pub consume_account_token :
    Attempt IdentityDb → Attempt IdentityDb → List ℕ → Purpose → Tx IdentityDb Account
consume_account_token t0 t hash purpose = do
  token ← purposed_token t0 hash purpose
  in_user_transaction t (consume_tx purpose token)

-- `ResetPasswordWithToken`
unfoldable pub reset_password_with_token :
    Attempt IdentityDb → Attempt IdentityDb → List ℕ → String → Tx IdentityDb Account
reset_password_with_token t0 t hash password_hash = do
  token ← purposed_token t0 hash reset_password
  in_user_transaction t (reset_tx password_hash token)
