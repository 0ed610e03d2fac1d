-- ===== src/Command.antt =====
-- internal/service/command.go: a resource command claims its mutation, runs its operation, and
-- writes the sync changes, the audits, the outbox and the response in the same transaction.
pub mod Outbox
pub mod Replay
pub mod Once
pub mod Send
pub mod Writers
use be_better.Prelude.{
  ℕ, ℤ, pos, String, Bool, true, false, ◌||◌, Option, none, some, List, [], ◌∷◌, ◌++◌, ltb, length,
  rune_count, trim_space, bytes_of, if◌then◌else◌,
}
use be_better.Model.{
  Uuid, is_nil, Time, Json, RawMessage, ClientMutation, SyncChangeDraft, AuditDraft, OutboxDraft,
  validation, failure, Result, ok, err,
}
use be_better.Exec.{Tx, pure, fail, lift, fail_if, continue, ◌>>=◌, ◌>>◌}
use be_better.Database.Transaction.{Attempt, with_user, default_attempts}
use be_better.Store.{Db}
use be_better.Idempotency.{
  IdempotencyService, MutationKey, IdempotencyDecision, begin, complete_mutation,
}
use be_better.Command.Outbox.{OutboxClock, prepare_outbox}

pub record CommandRequest : Type 0 where
  pub user_id : Uuid
  pub device_id : Uuid
  pub mutation_id : Uuid
  pub request_id : Uuid
  pub command_name : String
  pub request_body : List ℕ

pub record CommandResult : Type 0 where
  pub status : ℤ
  pub body : RawMessage
  pub changes : List SyncChangeDraft
  pub audits : List AuditDraft
  pub outbox : List OutboxDraft

pub record CommandResponse : Type 0 where
  pub status : ℤ
  pub body : Option Json
  pub duplicate : Bool

-- `CommandSyncWriter`, `CommandAuditWriter`, `CommandOutboxWriter`
pub record CommandWriters (R : Type 0) : Type 0 where
  pub record_changes : Uuid → List SyncChangeDraft → Tx (Db R) (Unit {0})
  pub record_audits : Uuid → List AuditDraft → Tx (Db R) (Unit {0})
  pub record_outbox : Uuid → List OutboxDraft → Tx (Db R) (Unit {0})

pub record CommandService (R : Type 0) : Type 0 where
  pub idempotency : IdempotencyService
  pub writers : CommandWriters R
  pub clock : OutboxClock
  pub new_request_id : Uuid

-- The operation of a resource service reads and writes the resource tables alone.
unfoldable pub on_resources : {R A : Type 0} → Tx R A → Tx (Db R) A
on_resources operation s = let (r, t) = operation s.resources in (r, record s { resources = t })

-- `for index := range result.Audits`: an audit without a request ID takes the request's.
unfoldable pub with_request_id : Uuid → List AuditDraft → List AuditDraft
with_request_id request_id [] = []
with_request_id request_id (a ∷ as') =
    (if is_nil a.request_id then record a { request_id = request_id } else a)
    ∷ with_request_id request_id as'

-- The name, a zero byte and the body: what the request hash covers.
unfoldable pub request_fingerprint : String → List ℕ → List ℕ
request_fingerprint name body = bytes_of name ++ (0 ∷ body)

abbrev pub is_empty {ℓ} : {A : Type ℓ} → List A → Bool
is_empty [] = true
is_empty (x ∷ xs) = false

-- `*completed.ResponseStatus`; a nil pointer panics, which is no response.
abbrev pub response_of : Bool → ClientMutation → Result CommandResponse
response_of duplicate m = elim m.response_status [
  | none ↦ err failure
  | some status ↦ ok (record { status = status; body = m.response_body; duplicate = duplicate })
]

module _ {R : Type 0} (service : CommandService R) where
  open service use {idempotency, writers, clock}

  -- The part of the transaction after a fresh claim.
  unfoldable pub run_claimed :
      ℕ → CommandRequest → ClientMutation → Tx R CommandResult → Tx (Db R) CommandResponse
  run_claimed round request mutation operation = do
    result ← on_resources operation
    fail_if (is_empty result.changes || is_empty result.audits) validation
    outbox ← lift (prepare_outbox clock round 0 result.outbox)
    writers.record_changes request.user_id result.changes
    writers.record_audits request.user_id (with_request_id request.request_id result.audits)
    writers.record_outbox request.user_id outbox
    completed ← complete_mutation mutation result.status result.body
    lift (response_of false completed)

  abbrev run_decision :
      ℕ → CommandRequest → Tx R CommandResult → IdempotencyDecision → Tx (Db R) CommandResponse
  run_decision round request operation decision =
      if decision.replay
      then lift (response_of true decision.mutation)
      else run_claimed round request decision.mutation operation

  -- The closure that `Execute` hands to the transactor.
  unfoldable pub command_tx : CommandRequest → Tx R CommandResult → ℕ → Tx (Db R) CommandResponse
  command_tx request operation round = do
    decision ←
        begin idempotency round
          (record {
            user_id = request.user_id;
            device_id = request.device_id;
            mutation_id = request.mutation_id;
          })
          (request_fingerprint request.command_name request.request_body)
    run_decision round request operation decision

  -- The guards of `Execute`, and the request with its trimmed name and its request ID.
  unfoldable pub check_request : CommandRequest → Result CommandRequest
  check_request request =
      let name = trim_space request.command_name in
      if is_nil request.user_id || is_nil request.device_id || is_nil request.mutation_id
      then err validation
      else if ltb (rune_count name) 1 || ltb 120 (rune_count name)
      then err validation
      else ok (record request {
        command_name = name;
        request_id =
            if is_nil request.request_id then service.new_request_id else request.request_id;
      })

  -- `CommandService.Execute`
  unfoldable pub execute :
      (ℕ → Attempt (Db R)) → CommandRequest → Tx R CommandResult → Tx (Db R) CommandResponse
  execute env request operation s = elim (check_request request) [
    | err e ↦ (err e, s)
    | ok checked ↦ with_user default_attempts env checked.user_id (command_tx checked operation) s
  ]
