-- ===== src/Command/Once.antt =====
-- A command takes effect once for each mutation, however often it is sent.
use be_better.Prelude.{ℕ, ◌+◌, ◌<◌, ◌≡◌, refl, true, false, ◌||◌, some, List, ap, ◌∙◌, arith}
use be_better.Model.{Uuid, is_nil, Time, ClientMutation, UserDevice, ok}
use be_better.Exec.{Tx, >>=-eq-ok, ◌>>=◌, lift}
use be_better.Store.{Db, active_device}
use be_better.Store.Mutations.{find_key, claimed_row}
use be_better.Idempotency.{MutationKey, IdempotencyDecision}
use be_better.Command.{
  CommandRequest, CommandResult, CommandResponse, CommandService, request_fingerprint, run_decision,
  command_tx, run_claimed, response_of,
}
use be_better.Command.Replay.{
  LawfulWriters, Applied, Recorded, completed, draft_of, begin-fresh, begin-replay, find_key-head,
  run_claimed-Ensures,
}

abbrev key_of : CommandRequest → MutationKey
key_of request = record {
  user_id = request.user_id;
  device_id = request.device_id;
  mutation_id = request.mutation_id;
}

response-duplicate :
    {R : Type 0} (m : ClientMutation) (r : CommandResponse) (u : Db R)
    → m.response_status ≡ some r.status
    → m.response_body ≡ r.body
    → lift (response_of true m) u ≡ (ok (record r { duplicate = true }), u)
unfolding lift
response-duplicate m r u p q = ground arith

module _ {R : Type 0} (service : CommandService R) (lawful : LawfulWriters service.writers) where
  run_decision-fresh :
      (round : ℕ) (request : CommandRequest) (operation : Tx R CommandResult)
      (d : IdempotencyDecision) (s : Db R) (r : CommandResponse) (t : Db R)
      → run_decision service round request operation d s ≡ (ok r, t)
      → r.duplicate ≡ false
      → (d.replay ≡ false) × (run_claimed service round request d.mutation operation s ≡ (ok r, t))
  unfolding lift
  run_decision-fresh round request operation d s r t h e = ground arith

  Recorded-Applied :
      (round : ℕ) (request : CommandRequest) (m : ClientMutation) (kept : List ClientMutation)
      (now : Time) (r : CommandResponse) (t : Db R)
      → m
        ≡ claimed_row
            (draft_of service.idempotency round
              (key_of request)
              (request_fingerprint request.command_name request.request_body))
            now
      → Recorded m kept r t
      → Applied service round request r t
  Recorded-Applied round request m kept now r t e (d, k) = record {
    row = completed m r.status r.body;
    found = rw k (
        find_key-head request.user_id request.device_id request.mutation_id
          (completed m r.status r.body) kept (ap (λ x. x.user_id) e) (ap (λ x. x.device_id) e)
          (ap (λ x. x.mutation_id) e));
    hash = ap (λ x. x.request_hash) e;
    expiry = ap (λ x. x.expires_at) e;
    status = refl;
    body = refl;
  }

  -- A first application leaves the completed row of its mutation.
  pub command_tx-Applied :
      (round : ℕ) (request : CommandRequest) (operation : Tx R CommandResult) (s : Db R)
      (r : CommandResponse) (t : Db R)
      → command_tx service request operation round s ≡ (ok r, t)
      → r.duplicate ≡ false
      → Applied service round request r t
  unfolding command_tx
  command_tx-Applied round request operation s r t h e =
      let (d, s1, g, k) = >>=-eq-ok _ _ s h in
      let (fresh, run) = run_decision-fresh round request operation d s1 r t k e in
      let (row, table) = begin-fresh service.idempotency round (key_of request) _ s d s1 g fresh in
      Recorded-Applied round request d.mutation _ s.clock r t row (
        (run_claimed-Ensures service lawful round request d.mutation _ operation
            (ap (λ x. x.response_status) row)).at
          s1 table r t run)

  -- Against a table that still holds that row, unexpired, and a device that is still active, the
  -- same request gets the same response, marked as a duplicate, and nothing is written: neither
  -- the clock and the identifiers of the round nor the operation matter.
  pub command_tx-resent :
      (round again : ℕ) (request : CommandRequest) (request_id : Uuid)
      (operation : Tx R CommandResult) (r : CommandResponse) (t u : Db R) (device : UserDevice)
      → is_nil request.user_id || is_nil request.device_id || is_nil request.mutation_id ≡ false
      → Applied service round request r t
      → find_key request.user_id request.device_id request.mutation_id u.mutations
        ≡ find_key request.user_id request.device_id request.mutation_id t.mutations
      → active_device request.user_id request.device_id u.devices ≡ some device
      → u.clock < service.idempotency.now round + service.idempotency.ttl
      → command_tx service (record request { request_id = request_id }) operation again u
        ≡ (ok (record r { duplicate = true }), u)
  unfolding command_tx ◌>>=◌
  command_tx-resent round again request request_id operation r t u device ids first same active
        live =
      rw
        (begin-replay service.idempotency again (key_of request) _ u device first.row r.status ids
          active (same ∙ first.found) (omega (arith, first.expiry)) first.hash first.status)
        (response-duplicate first.row r u first.status first.body)
