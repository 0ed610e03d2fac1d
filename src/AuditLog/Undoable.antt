-- ===== src/AuditLog/Undoable.antt =====
-- The flag of internal/service/audit_query.go against the undo of internal/postgres/audit_repository.go.
use be_better.Prelude.{
  ℕ, suc, ◌=ˢ◌, Bool, true, false, not, ◌&&◌, ◌≡◌, refl, Option, none, some, List, [], ◌∷◌, arith,
  ◌==◌, Bool-cases, inl, inr,
}
use be_better.Model.{AuditEntity, Error, conflict, Result, ok, err}
use be_better.AuditLog.{
  AuditEvent, AuditReader, is_target, is_empty_message, count_targets, is_one, positive_version,
  audit_undoable, find_target, only_target, audit_undo_target,
}

-- What the two loops have in common: the count, and the last target where one was counted.
pub data SameCount : Option ℕ → Result (Option AuditEntity × ℕ) → Type 0 where
  unknown : (e : Error) → SameCount none (err e)
  nothing : SameCount (some 0) (ok (none, 0))
  counted : (n : ℕ) (target : AuditEntity) → SameCount (some (suc n)) (ok (some target, suc n))

counted-SameCount :
    (n : ℕ) (target : AuditEntity) (es : List AuditEntity)
    → SameCount (count_targets (suc n) es) (find_target (some target) (suc n) es)
counted-SameCount n target [] = counted n target
counted-SameCount n target (e ∷ es) = elim (Bool-cases (e.entity_type =ˢ "agent_run")) [
  | inl k ↦ rw k (counted-SameCount n target es)
  | inr k ↦ elim (Bool-cases (is_target e)) [
    | inl m ↦ rw (k, m) (counted-SameCount (suc n) e es)
    | inr m ↦ rw (k, m) (unknown conflict)
  ]
]

all-SameCount : (es : List AuditEntity) → SameCount (count_targets 0 es) (find_target none 0 es)
all-SameCount [] = nothing
all-SameCount (e ∷ es) = elim (Bool-cases (e.entity_type =ˢ "agent_run")) [
  | inl k ↦ rw k (all-SameCount es)
  | inr k ↦ elim (Bool-cases (is_target e)) [
    | inl m ↦ rw (k, m) (counted-SameCount 0 e es)
    | inr m ↦ rw (k, m) (unknown conflict)
  ]
]

abbrev pub is_ok : {A : Type 0} → Result A → Bool
is_ok (ok a) = true
is_ok (err e) = false

SameCount-is_one :
    {count : Option ℕ} {target : Result (Option AuditEntity × ℕ)}
    → SameCount count target
    → is_one count ≡ is_ok (only_target target)
SameCount-is_one (unknown e) = refl
SameCount-is_one nothing = refl
SameCount-is_one (counted n target) = elim (Bool-cases (suc n == 1)) [
  | inl k ↦ rw k refl
  | inr k ↦ rw k refl
]

-- The flag that clients see is set exactly where the audit is of an applied change of the agent, has
-- data after the change with a positive version, and names exactly one entity that `auditUndoTarget` finds.
pub audit_undoable-target :
    (reader : AuditReader) (event : AuditEvent)
    → audit_undoable reader event ≡ (
        event.action =ˢ "agent.change.apply"
        && not (is_empty_message event.after_data)
        && is_ok (audit_undo_target event.entities)
        && positive_version (reader.version_in event.after_data))
unfolding audit_undoable audit_undo_target
audit_undoable-target reader event = ground (arith, SameCount-is_one (all-SameCount event.entities))
