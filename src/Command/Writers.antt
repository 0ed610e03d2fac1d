-- ===== src/Command/Writers.antt =====
-- The writers that internal/bootstrap gives the command service: `SyncService.Record`,
-- `AuditService.Record` and `OutboxWriter.Record` of internal/postgres/outbox_writer.go.
use be_better.Prelude.{◌≡◌, ap, subst, none, List, [], ◌∷◌, ◌++◌}
use be_better.Model.{Uuid, ok, SyncChangeDraft, AuditDraft, OutboxDraft}
use be_better.Exec.{Tx, pure, ◌>>=◌}
use be_better.Exec.Ensures.{Keeps, Ensures-bind_keeps, Keeps-fail_if, Keeps-lift}
use be_better.Store.{Db, OutboxRow}
use be_better.Store.Changes.{append as append_change}
use be_better.Sync.Page.{record_changes, append_all as append_changes}
use be_better.Audit.{
  AuditService, record_audits, append as append_audit, append_all as append_audits,
}
use be_better.Command.{CommandWriters}
use be_better.Command.Replay.{LawfulWriters, KeepsMutations}

-- The row that `CreateOutboxEvent` inserts.
abbrev pub outbox_row : Uuid → OutboxDraft → OutboxRow
outbox_row user event = record {
  id = event.id;
  user_id = user;
  event_type = event.event_type;
  aggregate_type = event.aggregate_type;
  aggregate_id = event.aggregate_id;
  payload = event.payload;
  available_at = event.available_at;
  attempts = 0;
  status = "pending";
  lock_token = none;
}

module _ {R : Type 0} where
  unfoldable pub create_outbox_event : Uuid → OutboxDraft → Tx (Db R) (Unit {0})
  create_outbox_event user event s =
      (ok tt, record s { outbox = s.outbox ++ outbox_row user event ∷ [] })

  -- `OutboxWriter.Record`
  unfoldable pub record_outbox : Uuid → List OutboxDraft → Tx (Db R) (Unit {0})
  record_outbox user [] = pure tt
  record_outbox user (e ∷ es) = create_outbox_event user e >>= λ _. record_outbox user es

unfoldable pub command_writers : {R : Type 0} → AuditService → CommandWriters R
command_writers audits = record {
  record_changes = record_changes;
  record_audits = record_audits audits;
  record_outbox = record_outbox;
}

Keeps-pure : {S A : Type 0} {P : S → Type 0} (a : A) → Keeps P (pure a)
unfolding pure
Keeps-pure {P = P} a = record { at = λ s p a' t h. subst P (ap (λ r. r.1) h) p }

module _ {R : Type 0} where
  append_change-KeepsMutations :
      (user : Uuid) (c : SyncChangeDraft) → KeepsMutations {R = R} (append_change user c)
  unfolding append_change
  append_change-KeepsMutations user c ms = record {
    at = λ s p a t h. subst (λ (d : Db R). d.mutations ≡ ms) (ap (λ r. r.1) h) p;
  }

  append_audit-KeepsMutations :
      (user : Uuid) (a : AuditDraft) → KeepsMutations {R = R} (append_audit user a)
  unfolding append_audit
  append_audit-KeepsMutations user a ms = record {
    at = λ s p a' t h. subst (λ (d : Db R). d.mutations ≡ ms) (ap (λ r. r.1) h) p;
  }

  create_outbox_event-KeepsMutations :
      (user : Uuid) (e : OutboxDraft) → KeepsMutations {R = R} (create_outbox_event user e)
  unfolding create_outbox_event
  create_outbox_event-KeepsMutations user e ms = record {
    at = λ s p a t h. subst (λ (d : Db R). d.mutations ≡ ms) (ap (λ r. r.1) h) p;
  }

module _ {R : Type 0} where
  append_changes-KeepsMutations :
      (user : Uuid) (cs : List SyncChangeDraft) → KeepsMutations {R = R} (append_changes user cs)
  unfolding append_changes
  append_changes-KeepsMutations user [] ms = Keeps-pure tt
  append_changes-KeepsMutations user (c ∷ cs) ms =
      Ensures-bind_keeps _ _ (append_change-KeepsMutations user c ms)
        λ _. append_changes-KeepsMutations user cs ms

  append_audits-KeepsMutations :
      (user : Uuid) (as' : List AuditDraft) → KeepsMutations {R = R} (append_audits user as')
  unfolding append_audits
  append_audits-KeepsMutations user [] ms = Keeps-pure tt
  append_audits-KeepsMutations user (a ∷ as') ms =
      Ensures-bind_keeps _ _ (append_audit-KeepsMutations user a ms)
        λ _. append_audits-KeepsMutations user as' ms

  record_outbox-KeepsMutations :
      (user : Uuid) (es : List OutboxDraft) → KeepsMutations {R = R} (record_outbox user es)
  unfolding record_outbox
  record_outbox-KeepsMutations user [] ms = Keeps-pure tt
  record_outbox-KeepsMutations user (e ∷ es) ms =
      Ensures-bind_keeps _ _ (create_outbox_event-KeepsMutations user e ms)
        λ _. record_outbox-KeepsMutations user es ms

-- The writers of the application satisfy what the command service asks of its writers.
pub command_writers-LawfulWriters :
    {R : Type 0} (audits : AuditService) → LawfulWriters {R = R} (command_writers audits)
unfolding command_writers record_changes record_audits
command_writers-LawfulWriters audits = record {
  changes_keep = λ user cs ms.
      Ensures-bind_keeps _ _ (Keeps-fail_if _ _)
        λ _. Ensures-bind_keeps _ _ (Keeps-lift _) λ _. append_changes-KeepsMutations user cs ms;
  audits_keep = λ user as' ms.
      Ensures-bind_keeps _ _ (Keeps-fail_if _ _)
        λ _. Ensures-bind_keeps _ _ (Keeps-lift _) λ out. append_audits-KeepsMutations user out ms;
  outbox_keep = record_outbox-KeepsMutations;
}
