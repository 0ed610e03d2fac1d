-- ===== src/Tests/Audits.antt =====
-- An audit whose snapshot holds a password, and its record.
use be_better.Prelude.{ℕ, ◌+◌, ◌≡◌, refl, true, none, List, [], ◌∷◌, ◌++◌, All}
use be_better.Prelude.Text.{trim_space}
use be_better.Model.{text, object, end, field, RawMessage, empty, document, AuditDraft, ok}
use be_better.Exec.{◌>>=◌}
use be_better.Store.{Db}
use be_better.Audit.{
  AuditService, keep_entities, prepare_audit_entities, sanitize_audit_object, prepare, prepare_all,
  append, append_all, record_audits,
}
use be_better.Audit.Filter.{filter_fields, drops, contains_any, contains, keep_words, code_points}
use be_better.Audit.Recorded.{Redacted, rows_of, record_audits-Redacted}

abbrev audits : AuditService
audits = record {
  unicode = record { is_word = λ c. true; to_lower = λ c. c };
  encoded_size = λ j. 9;
  new_id = λ i. 500 + i;
  new_request_id = λ i. 600 + i;
}

abbrev snapshot : RawMessage
snapshot = document (
    object
      (field "title" (text "run") (field "nested" (object (field "password" (text "p") end)) end)))

abbrev draft : AuditDraft
draft = record {
  id = 0;
  actor_type = "";
  actor_id = none;
  action = "task.update";
  request_id = 0;
  before_data = snapshot;
  after_data = empty;
  metadata = empty;
  entities = record { entity_type = "task"; entity_id = 10 } ∷ [];
}

abbrev store : Db ℕ
store = record {
  resources = 0;
  devices = [];
  mutations = [];
  changes = [];
  next_sequence = 1;
  audits = [];
  outbox = [];
  clock = 1000;
}

abbrev logged : Db ℕ
logged = (record_audits audits 1 (draft ∷ []) store).1

records : record_audits audits 1 (draft ∷ []) store ≡ (ok tt, logged)
unfolding record_audits prepare_all prepare prepare_audit_entities keep_entities
    sanitize_audit_object filter_fields drops contains_any contains keep_words code_points append
    append_all trim_space ◌>>=◌
records = refl

record_audits-Redacted_example :
    (stored : List AuditDraft) × (logged
      ≡ record store { audits = store.audits ++ rows_of 1 stored })
    × All (Redacted audits) stored
record_audits-Redacted_example = record_audits-Redacted audits 1 (draft ∷ []) store records
