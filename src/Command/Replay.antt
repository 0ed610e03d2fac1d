-- ===== src/Command/Replay.antt =====
-- What a claim, a completion and a replay do to the table of client mutations.
use be_better.Prelude.{
  ℕ, ◌+◌, ◌<◌, ◌≡◌, ap, subst, ℤ, true, false, ◌||◌, Option, none, some, List, ◌∷◌, arith,
  bytes_equal_refl,
}
use be_better.Model.{
  Uuid, is_nil, RawMessage, Json, ClientMutation, ClientMutationDraft, UserDevice, SyncChangeDraft,
  AuditDraft, OutboxDraft, ok,
}
use be_better.Exec.{Tx, lift, ◌>>=◌}
use be_better.Exec.Ensures.{
  Ensures, Keeps, Ensures-bind, Ensures-bind_keeps, Keeps-fail_if, Keeps-lift,
}
use be_better.Store.{Db, active_device}
use be_better.Store.Mutations.{find_key, remove_key, claimed_row, claim, complete, complete_row}
use be_better.Idempotency.{
  begin, complete_mutation, IdempotencyService, IdempotencyDecision, MutationKey,
}
use be_better.Command.{
  CommandRequest, CommandResult, CommandResponse, CommandService, CommandWriters,
  request_fingerprint, run_claimed, on_resources, response_of,
}

abbrev pub KeepsMutations : {R A : Type 0} → Tx (Db R) A → Type 0
KeepsMutations m = (ms : List ClientMutation) → Keeps (λ s. s.mutations ≡ ms) m

-- The writers leave the table of client mutations alone.
pub record LawfulWriters {R : Type 0} (w : CommandWriters R) : Type 0 where
  pub changes_keep :
      (user : Uuid) (cs : List SyncChangeDraft) → KeepsMutations (w.record_changes user cs)
  pub audits_keep :
      (user : Uuid) (as' : List AuditDraft) → KeepsMutations (w.record_audits user as')
  pub outbox_keep : (user : Uuid) (os : List OutboxDraft) → KeepsMutations (w.record_outbox user os)

-- The row of a completed mutation.
abbrev pub completed : ClientMutation → ℤ → Option Json → ClientMutation
completed m status body = record m { response_status = some status; response_body = body }

complete_row-head :
    (m : ClientMutation) (kept : List ClientMutation) (status : ℤ) (body : Option Json)
    → m.response_status ≡ none
    → complete_row m.user_id m.id status body (m ∷ kept)
      ≡ some (completed m status body, completed m status body ∷ kept)
unfolding complete_row
complete_row-head m kept status body n = ground arith

complete-head :
    {R : Type 0} (m : ClientMutation) (kept : List ClientMutation) (status : ℤ) (body : Option Json)
    (s : Db R)
    → s.mutations ≡ m ∷ kept
    → m.response_status ≡ none
    → complete m.user_id m.id status body s
      ≡ (ok (completed m status body), record s { mutations = completed m status body ∷ kept })
unfolding complete
complete-head m kept status body s e n = ground (arith, complete_row-head m kept status body n)

complete_mutation-Ensures :
    {R : Type 0} (m : ClientMutation) (kept : List ClientMutation) (status : ℤ) (body : RawMessage)
    → m.response_status ≡ none
    → Ensures {S = Db R}
        (λ s. s.mutations ≡ m ∷ kept)
        (complete_mutation m status body)
        (λ done t. (b : Option Json) × (done ≡ completed m status b) × (t.mutations ≡ done ∷ kept))
unfolding complete_mutation
complete_mutation-Ensures m kept status body n = Ensures-bind_keeps _ _ (Keeps-fail_if _ _) λ _.
    Ensures-bind_keeps _ _ (Keeps-fail_if _ _) λ _. Ensures-bind_keeps _ _ (Keeps-lift _) λ b.
      record {
        at = λ s e done t h.
            let g = complete-head m kept status b s e n in
            (b, ground (arith, g), ground (arith, g));
      }

-- The completed row, as the response shows it.
abbrev pub Recorded :
    {R : Type 0} → ClientMutation → List ClientMutation → CommandResponse → Db R → Type 0
Recorded m kept r t = (r.duplicate ≡ false) × (t.mutations ≡ completed m r.status r.body ∷ kept)

on_resources-KeepsMutations :
    {R A : Type 0} (operation : Tx R A) → KeepsMutations (on_resources operation)
unfolding on_resources
on_resources-KeepsMutations operation ms = record {
  at = λ s p a t h. subst (λ (d : Db _). d.mutations ≡ ms) (ap (λ r. r.1) h) p;
}

response-Recorded :
    {R : Type 0} (m : ClientMutation) (kept : List ClientMutation) (status : ℤ) (b : Option Json)
    (s : Db R) (done : ClientMutation) (r : CommandResponse) (t : Db R)
    → done ≡ completed m status b
    → s.mutations ≡ done ∷ kept
    → lift (response_of false done) s ≡ (ok r, t)
    → Recorded m kept r t
unfolding lift
response-Recorded m kept status b s done r t e k h = ground arith

module _ {R : Type 0} (service : CommandService R) (lawful : LawfulWriters service.writers) where
  open service use {writers}

  -- A fresh claim that succeeds leaves its row completed with the response.
  pub run_claimed-Ensures :
      (round : ℕ) (request : CommandRequest) (m : ClientMutation) (kept : List ClientMutation)
      (operation : Tx R CommandResult)
      → m.response_status ≡ none
      → Ensures
          (λ s. s.mutations ≡ m ∷ kept)
          (run_claimed service round request m operation)
          (Recorded m kept)
  unfolding run_claimed
  run_claimed-Ensures round request m kept operation n =
      Ensures-bind_keeps _ _ (on_resources-KeepsMutations operation _) λ result.
        Ensures-bind_keeps _ _ (Keeps-fail_if _ _) λ _. Ensures-bind_keeps _ _ (Keeps-lift _) λ out.
          Ensures-bind_keeps _ _ (lawful.changes_keep _ _ _) λ _.
            Ensures-bind_keeps _ _ (lawful.audits_keep _ _ _) λ _.
              Ensures-bind_keeps _ _ (lawful.outbox_keep _ _ _) λ _.
                Ensures-bind _ _ _ (complete_mutation-Ensures m kept result.status result.body n)
                  λ done. record {
                    at = λ s (b, e, k) r t h.
                        response-Recorded m kept result.status b s done r t e k h;
                  }

-- The claim of a request.
abbrev pub draft_of : IdempotencyService → ℕ → MutationKey → List ℕ → ClientMutationDraft
draft_of service round key body = record {
  id = service.new_uuid round;
  user_id = key.user_id;
  device_id = key.device_id;
  mutation_id = key.mutation_id;
  request_hash = service.hash body;
  expires_at = service.now round + service.ttl;
}

pub begin-fresh :
    {R : Type 0} (service : IdempotencyService) (round : ℕ) (key : MutationKey) (body : List ℕ)
    (s : Db R) (d : IdempotencyDecision) (t : Db R)
    → begin service round key body s ≡ (ok d, t)
    → d.replay ≡ false
    → (d.mutation ≡ claimed_row (draft_of service round key body) s.clock)
      × (t.mutations
          ≡ d.mutation ∷ remove_key key.user_id key.device_id key.mutation_id s.mutations)
unfolding begin claim ◌>>=◌
begin-fresh service round key body s d t h e = ground arith

pub begin-replay :
    {R : Type 0} (service : IdempotencyService) (round : ℕ) (key : MutationKey) (body : List ℕ)
    (s : Db R) (d : UserDevice) (m : ClientMutation) (status : ℤ)
    → is_nil key.user_id || is_nil key.device_id || is_nil key.mutation_id ≡ false
    → active_device key.user_id key.device_id s.devices ≡ some d
    → find_key key.user_id key.device_id key.mutation_id s.mutations ≡ some m
    → s.clock < m.expires_at
    → m.request_hash ≡ service.hash body
    → m.response_status ≡ some status
    → begin service round key body s ≡ (ok (record { mutation = m; replay = true }), s)
unfolding begin claim ◌>>=◌
begin-replay service round key body s d m status ids active found live same done =
    ground (arith, bytes_equal_refl (service.hash body))

pub find_key-head :
    (user device mutation : Uuid) (m : ClientMutation) (kept : List ClientMutation)
    → m.user_id ≡ user
    → m.device_id ≡ device
    → m.mutation_id ≡ mutation
    → find_key user device mutation (m ∷ kept) ≡ some m
find_key-head user device mutation m kept p q r = ground arith

-- What a first application leaves in the table: the completed row of its mutation.
pub record Applied {R : Type 0} (service : CommandService R) (round : ℕ) (request : CommandRequest)
    (r : CommandResponse) (t : Db R) : Type 0 where
  pub row : ClientMutation
  pub found : find_key request.user_id request.device_id request.mutation_id t.mutations ≡ some row
  pub hash :
      row.request_hash
      ≡ service.idempotency.hash (request_fingerprint request.command_name request.request_body)
  pub expiry : row.expires_at ≡ service.idempotency.now round + service.idempotency.ttl
  pub status : row.response_status ≡ some r.status
  pub body : row.response_body ≡ r.body
