-- ===== src/Model/Errors.antt =====
-- Go's errors, by the class that `errors.Is` and `errors.As` see through `fmt.Errorf("...: %w")`;
-- the text of a wrapped message is dropped.
use be_better.Prelude.{ℕ, String, ◌≡◌, refl, ◌⊎◌, inl, inr}

pub data Error : Type 0 where
  validation not_found conflict device_not_active : Error
  idempotency_conflict idempotency_incomplete : Error
  invalid_cursor invalid_sync_cursor sync_reset_required : Error
  email_in_use invalid_token invalid_credentials account_not_active invalid_session : Error
  -- `*service.RateLimitError`, with its RetryAt
  rate_limited : ℕ → Error
  -- `*pgconn.PgError`, with its SQLSTATE
  postgres : String → Error
  -- any other error value
  failure : Error

-- A Go function that returns `(T, error)`.
pub data Result {ℓ} (A : Type ℓ) : Type ℓ where
  ok : A → Result A
  err : Error → Result A

infixl 5 ◌>>=ᴿ◌
-- `if err != nil { return ..., err }` on a function without state.
abbrev pub ◌>>=ᴿ◌ {ℓ κ} : {A : Type ℓ} {B : Type κ} → Result A → (A → Result B) → Result B
ok a >>=ᴿ f = f a
err e >>=ᴿ f = err e

pub Result-cases {ℓ} :
    {A : Type ℓ} (r : Result A) → ((a : A) × (r ≡ ok a)) ⊎ ((e : Error) × (r ≡ err e))
Result-cases (ok a) = inl (a, refl)
Result-cases (err e) = inr (e, refl)
