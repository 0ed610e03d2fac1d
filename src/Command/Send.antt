-- ===== src/Command/Send.antt =====
-- What a client observes of `Execute`: sending a command, losing the reply, sending it again.
use be_better.Prelude.{
  ℕ, ◌+◌, ◌<◌, ◌≡◌, ap, sym, subst, if◌then◌else◌, ◌∙◌, true, false, ◌||◌, Option, some, arith,
}
use be_better.Model.{Uuid, is_nil, Time, ClientMutation, UserDevice, Result, ok}
use be_better.Exec.{Tx}
use be_better.Database.Transaction.{Attempt, with_user, default_attempts}
use be_better.Database.Transaction.Atomicity.{
  Waits, Outcome, applied, unchanged, unacknowledged, with_user-Outcome,
}
use be_better.Store.{Db, active_device}
use be_better.Store.Mutations.{find_key}
use be_better.Command.{
  CommandRequest, CommandResult, CommandResponse, CommandService, check_request, command_tx,
  execute,
}
use be_better.Command.Replay.{LawfulWriters}
use be_better.Command.Once.{command_tx-Applied, command_tx-resent}

-- Nothing but transactions of others moves the state from `s` to the result's state, and a value
-- that is returned is `r`.
abbrev pub Harmless :
    {R : Type 0}
    → (ℕ → Attempt (Db R))
    → Db R
    → CommandResponse
    → Result CommandResponse × Db R
    → Type 0
Harmless env s r (res, t) = Waits env s t × ((a : CommandResponse) → res ≡ ok a → a ≡ r)

-- Where every round would return `r` and write nothing, so does the whole transaction.
Outcome-Harmless :
    {R : Type 0} (env : ℕ → Attempt (Db R)) (operation : ℕ → Tx (Db R) CommandResponse) (s : Db R)
    (r : CommandResponse)
    → ((n : ℕ) (b : Db R) → Waits env s b → operation n b ≡ (ok r, b))
    → {res : Result CommandResponse} {t : Db R} → Outcome env operation s res t
    → Harmless env s r (res, t)
Outcome-Harmless env operation s r same (applied {b = b} n w e) =
    let run = sym (same n b w) ∙ e in
    (subst (Waits env s) (ap (λ q. q.1) run) w, λ a h. cc (ap (λ q. q.0) run))
Outcome-Harmless env operation s r same (unchanged w) = (w, λ a h. cc)
Outcome-Harmless env operation s r same (unacknowledged {b = b} n w e) =
    let run = sym (same n b w) ∙ e in (subst (Waits env s) (ap (λ q. q.1) run) w, λ a h. cc)

-- The row of the request is there and live in a state, and so is its device.
pub record Remembers {R : Type 0} (request : CommandRequest) (row : Option ClientMutation)
    (expiry : Time) (b : Db R) : Type 0 where
  pub found : find_key request.user_id request.device_id request.mutation_id b.mutations ≡ row
  pub device : UserDevice
  pub active : active_device request.user_id request.device_id b.devices ≡ some device
  pub live : b.clock < expiry

-- The guards see the identifiers, the name and the body, not the request ID.
check_request-ok :
    {R : Type 0} (service : CommandService R) (request checked : CommandRequest)
    → check_request service request ≡ ok checked
    → (is_nil checked.user_id || is_nil checked.device_id || is_nil checked.mutation_id ≡ false)
      × ((id : Uuid)
          → (id' : Uuid) × (check_request service (record request { request_id = id })
              ≡ ok (record checked { request_id = id' })))
unfolding check_request
check_request-ok service request checked h =
    (ground arith, λ id. (if is_nil id then service.new_request_id else id, ground arith))

module _ {R : Type 0} (service : CommandService R) (lawful : LawfulWriters service.writers) where
  -- A command that took effect is not applied again. Once some round has committed the request's
  -- transaction with response `r`, whether or not its reply arrived, sending the request again,
  -- under any request ID, with any operation and in any environment, while the row of its mutation
  -- is unexpired and its device active, changes nothing; a response that comes back is `r`, marked
  -- as a duplicate.
  pub execute-resent :
      (request checked : CommandRequest) (operation again : Tx R CommandResult) (round : ℕ)
      (s t : Db R) (r : CommandResponse) (request_id : Uuid) (env : ℕ → Attempt (Db R)) (u : Db R)
      → check_request service request ≡ ok checked
      → command_tx service checked operation round s ≡ (ok r, t)
      → r.duplicate ≡ false
      → ((b : Db R)
          → Waits env u b
          → Remembers checked
              (find_key checked.user_id checked.device_id checked.mutation_id t.mutations)
              (service.idempotency.now round + service.idempotency.ttl)
              b)
      → Harmless env u
          (record r { duplicate = true })
          (execute service env (record request { request_id = request_id }) again u)
  unfolding execute with_user
  execute-resent request checked operation again round s t r request_id env u good first fresh
        kept =
      let (ids, resend) = check_request-ok service request checked good in
      let (id, good') = resend request_id in
      rw (good', execute)
        (Outcome-Harmless env (command_tx service (record checked { request_id = id }) again) u
          (record r { duplicate = true })
          (λ n b w.
            let m = kept b w in
            command_tx-resent service lawful round n checked id again r t b m.device ids
              (command_tx-Applied service lawful round checked operation s r t first fresh) m.found
              m.active m.live)
          (with_user-Outcome env (command_tx service (record checked { request_id = id }) again) u
            default_attempts checked.user_id))
