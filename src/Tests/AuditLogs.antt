-- ===== src/Tests/AuditLogs.antt =====
-- The audit of a change of the agent to one task.
use be_better.Prelude.{◌≡◌, ◌=ˢ◌, ◌&&◌, not, refl, pos, some, [], ◌∷◌, true, false}
use be_better.Model.{empty, document, null}
use be_better.AuditLog.{
  AuditEvent, AuditReader, audit_undoable, audit_undo_target, is_empty_message, positive_version,
}
use be_better.AuditLog.Undoable.{is_ok, audit_undoable-target}

abbrev reader : AuditReader
reader = record { before = λ a b. false; version_in = λ raw. some (pos 3) }

abbrev applied : AuditEvent
applied = record {
  id = 9;
  actor_type = "agent";
  actor_id = some 4;
  action = "agent.change.apply";
  request_id = 5;
  before_data = empty;
  after_data = document null;
  metadata = empty;
  entities =
      record { entity_type = "agent_run"; entity_id = 4 }
      ∷ record { entity_type = "task"; entity_id = 10 }
      ∷ [];
  created_at = 100;
  undoable = false;
}

is_undoable : audit_undoable reader applied ≡ true
unfolding audit_undoable
is_undoable = refl

audit_undoable-target_example : audit_undoable reader applied ≡ (
    applied.action =ˢ "agent.change.apply"
    && not (is_empty_message applied.after_data)
    && is_ok (audit_undo_target applied.entities)
    && positive_version (reader.version_in applied.after_data))
audit_undoable-target_example = audit_undoable-target reader applied
