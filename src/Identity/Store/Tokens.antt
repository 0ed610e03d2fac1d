-- ===== src/Identity/Store/Tokens.antt =====
-- dayorder.account_tokens of internal/db/query/identity.sql, and `lookup_account_token` of
-- migrations/000004.
use be_better.Prelude.{
  ℕ, Bool, not, ◌&&◌, ◌||◌, none, some, List, ◌∷◌, ltb, ◌==◌, if◌then◌else◌, bytes_equal, is_some,
  find_first, any_row, update_rows,
}
use be_better.Model.{Uuid, Time, postgres, not_found, ok, err}
use be_better.Exec.{Tx}
use be_better.Identity.Store.{
  Purpose, same_purpose, AccountToken, TokenRow, IdentityDb, unique_violation, is_user,
}

-- `lookup_account_token`, without its join
abbrev pub usable_token : List ℕ → Time → TokenRow → Bool
usable_token hash now row =
    bytes_equal row.token.token_hash hash
    && not (is_some row.consumed_at)
    && ltb now row.token.expires_at

abbrev pub consumed : Time → TokenRow → TokenRow
consumed now row = record row { consumed_at = some now }

-- `LookupAccountToken`: the join keeps a token whose user is not deleted
unfoldable pub lookup_account_token : List ℕ → Tx IdentityDb AccountToken
lookup_account_token hash s =
    elim (find_first
      (λ row. usable_token hash s.clock row && any_row (is_user row.token.user_id) s.users)
      s.tokens) [ none ↦ (err not_found, s) | some row ↦ (ok row.token, s) ]

abbrev pub is_open_token : Uuid → Uuid → Time → TokenRow → Bool
is_open_token user id now row =
    row.token.user_id == user
    && row.token.id == id
    && not (is_some row.consumed_at)
    && ltb now row.token.expires_at

-- `ConsumeAccountToken`, and the check that it affected one row
unfoldable pub mark_consumed : Uuid → Uuid → Tx IdentityDb (Unit {0})
mark_consumed user id s =
    if any_row (is_open_token user id s.clock) s.tokens
    then (
      ok tt,
      record s { tokens = update_rows (is_open_token user id s.clock) (consumed s.clock) s.tokens },
    )
    else (err not_found, s)

abbrev pub is_unconsumed : Uuid → Purpose → TokenRow → Bool
is_unconsumed user purpose row =
    row.token.user_id == user
    && same_purpose row.token.purpose purpose
    && not (is_some row.consumed_at)

-- `InvalidateAccountTokens`
unfoldable pub invalidate_account_tokens : Uuid → Purpose → Tx IdentityDb (Unit {0})
invalidate_account_tokens user purpose s = (
  ok tt,
  record s { tokens = update_rows (is_unconsumed user purpose) (consumed s.clock) s.tokens },
)

-- `CreateAccountToken`
unfoldable pub create_account_token : AccountToken → Tx IdentityDb (Unit {0})
create_account_token token s =
    if any_row
      (λ row. row.token.id == token.id || bytes_equal row.token.token_hash token.token_hash)
      s.tokens
    then (err (postgres unique_violation), s)
    else (
      ok tt,
      record s {
        tokens =
            record { token = record token { created_at = s.clock }; consumed_at = none } ∷ s.tokens;
      },
    )
