-- ===== src/Idempotency.antt =====
-- internal/service/idempotency.go: a client mutation is claimed before its command runs and
-- completed with the response. `hash` is SHA-256, which the code only calls.
use be_better.Prelude.{
  ℕ, ◌+◌, ◌*◌, ℤ, pos, ltb_ℤ, Bool, true, false, not, ◌||◌, Option, none, some, List, bytes_equal,
  if◌then◌else◌,
}
use be_better.Model.{
  Uuid, is_nil, Time, hour, Json, array, object, RawMessage, empty, blank, malformed, document,
  ClientMutation, validation, idempotency_conflict, idempotency_incomplete, Result, ok, err,
}
use be_better.Exec.{Tx, pure, fail, lift, fail_if, ◌>>=◌, ◌>>◌}
use be_better.Store.{Db}
use be_better.Store.Mutations.{claim, complete}

-- `defaultMutationRetention`
abbrev pub default_mutation_retention : ℕ
default_mutation_retention = 30 * 24 * hour

pub record MutationKey : Type 0 where
  pub user_id : Uuid
  pub device_id : Uuid
  pub mutation_id : Uuid

pub record IdempotencyDecision : Type 0 where
  pub mutation : ClientMutation
  pub replay : Bool

-- What the service draws from outside: SHA-256, and the clock and a fresh UUID, by the round of the
-- transaction that asks.
pub record IdempotencyService : Type 0 where
  pub hash : List ℕ → List ℕ
  pub now : ℕ → Time
  pub new_uuid : ℕ → Uuid
  pub ttl : ℕ

-- Go's nil and blank bodies, objects and arrays pass; compacting changes no value.
unfoldable pub idempotency_response_body : RawMessage → Result (Option Json)
idempotency_response_body empty = ok none
idempotency_response_body blank = ok none
idempotency_response_body malformed = err validation
idempotency_response_body (document (array xs)) = ok (some (array xs))
idempotency_response_body (document (object fs)) = ok (some (object fs))
idempotency_response_body (document _) = err validation

module _ {R : Type 0} where
  -- What `Begin` makes of a mutation that was claimed before.
  abbrev replay_of : List ℕ → ClientMutation → Tx (Db R) IdempotencyDecision
  replay_of request_hash m =
      if not (bytes_equal m.request_hash request_hash)
      then fail idempotency_conflict
      else elim m.response_status [
        | none ↦ fail idempotency_incomplete
        | some _ ↦ pure (record { mutation = m; replay = true })
      ]

  abbrev decide_claim : List ℕ → ClientMutation × Bool → Tx (Db R) IdempotencyDecision
  decide_claim request_hash (m, true) = pure (record { mutation = m; replay = false })
  decide_claim request_hash (m, false) = replay_of request_hash m

  -- `IdempotencyService.Begin`
  unfoldable pub begin :
      IdempotencyService → ℕ → MutationKey → List ℕ → Tx (Db R) IdempotencyDecision
  begin service round key request_body = do
    fail_if (is_nil key.user_id || is_nil key.device_id || is_nil key.mutation_id) validation
    let request_hash = service.hash request_body
    claimed ← claim (record {
      id = service.new_uuid round;
      user_id = key.user_id;
      device_id = key.device_id;
      mutation_id = key.mutation_id;
      request_hash = request_hash;
      expires_at = service.now round + service.ttl;
    })
    decide_claim request_hash claimed

  -- `IdempotencyService.Complete`
  unfoldable pub complete_mutation : ClientMutation → ℤ → RawMessage → Tx (Db R) ClientMutation
  complete_mutation mutation status body = do
    fail_if (is_nil mutation.id || is_nil mutation.user_id) validation
    fail_if (ltb_ℤ status (pos 100) || ltb_ℤ (pos 599) status) validation
    validated ← lift (idempotency_response_body body)
    complete mutation.user_id mutation.id status validated
