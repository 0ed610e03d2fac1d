-- ===== src/Tests/Commands.antt =====
-- One command, sent twice, and its transaction.
use be_better.Prelude.{
  ℕ, zero, suc, ◌+◌, ◌≡◌, refl, sym, subst, pos, true, false, none, some, [], ◌∷◌, arith,
}
use be_better.Prelude.Text.{trim_space}
use be_better.Model.{object, end, empty, document, UserDevice, postgres, ok}
use be_better.Exec.{Tx, ◌>>=◌}
use be_better.Database.Transaction.{Attempt, committed, aborted, with_user}
use be_better.Database.Transaction.Atomicity.{Waits, start, wait, Outcome, with_user-Outcome}
use be_better.Store.{Db}
use be_better.Store.Mutations.{find_key, claim, complete, complete_row}
use be_better.Store.Changes.{append as append_change}
use be_better.Idempotency.{
  default_mutation_retention, begin, complete_mutation, idempotency_response_body,
}
use be_better.Audit.{
  AuditService, prepare_audit_entities, keep_entities, sanitize_audit_object, prepare, prepare_all,
  record_audits, append as append_audit, append_all as append_audits,
}
use be_better.Sync.Page.{
  validate_sync_change, validate_changes, record_changes, append_all as append_changes,
}
use be_better.Command.{
  CommandRequest, CommandResult, CommandResponse, CommandService, with_request_id, on_resources,
  request_fingerprint, run_claimed, command_tx, check_request, execute,
}
use be_better.Command.Outbox.{prepare_outbox}
use be_better.Command.Writers.{command_writers, command_writers-LawfulWriters, record_outbox}
use be_better.Command.Replay.{Applied}
use be_better.Command.Once.{command_tx-Applied}
use be_better.Command.Send.{Harmless, Remembers, execute-resent}

abbrev audits : AuditService
audits = record {
  unicode = record { is_word = λ c. true; to_lower = λ c. c };
  encoded_size = λ j. 2;
  new_id = λ i. 500 + i;
  new_request_id = λ i. 600 + i;
}

abbrev service : CommandService ℕ
service = record {
  idempotency = record {
    hash = λ bs. bs;
    now = λ n. 2000;
    new_uuid = λ n. 70 + n;
    ttl = default_mutation_retention;
  };
  writers = command_writers audits;
  clock = record { now = λ n i. 2000; new_uuid = λ n i. 80 };
  new_request_id = 9;
}

abbrev request : CommandRequest
request = record {
  user_id = 1;
  device_id = 2;
  mutation_id = 3;
  request_id = 4;
  command_name = "task.create";
  request_body = 123 ∷ 125 ∷ [];
}

abbrev creation : CommandResult
creation = record {
  status = pos 201;
  body = document (object end);
  changes =
      record { entity_type = "task"; entity_id = 10; operation = "create"; entity_version = pos 1 }
      ∷ [];
  audits =
      record {
        id = 0;
        actor_type = "";
        actor_id = none;
        action = "task.create";
        request_id = 0;
        before_data = empty;
        after_data = document (object end);
        metadata = empty;
        entities = record { entity_type = "task"; entity_id = 10 } ∷ [];
      }
      ∷ [];
  outbox = [];
}

-- The resource table counts the tasks.
abbrev create_task : Tx ℕ CommandResult
create_task n = (ok creation, n + 1)

abbrev phone : UserDevice
phone = record {
  id = 2;
  user_id = 1;
  device_name = "phone";
  platform = "ios";
  last_seen_at = 900;
  last_sync_cursor = 0;
  created_at = 800;
  revoked_at = none;
}

abbrev before : Db ℕ
before = record {
  resources = 0;
  devices = phone ∷ [];
  mutations = [];
  changes = [];
  next_sequence = 1;
  audits = [];
  outbox = [];
  clock = 1000;
}

abbrev created : CommandResponse
created = record { status = pos 201; body = some (object end); duplicate = false }

abbrev after : Db ℕ
after = (command_tx service request create_task 0 before).1

-- Every round begins with no other writer; the first loses a serialization conflict.
abbrev quiet : ℕ → Attempt (Db ℕ)
quiet zero = record {
  others = λ s. s;
  begin = none;
  set_context = none;
  fault = none;
  commit = aborted (postgres "40001");
  sleep = none;
}
quiet (suc n) = record {
  others = λ s. s;
  begin = none;
  set_context = none;
  fault = none;
  commit = committed;
  sleep = none;
}

quiet-Waits : {s t : Db ℕ} → Waits quiet s t → t ≡ s
quiet-Waits start = refl
quiet-Waits (wait zero w) = quiet-Waits w
quiet-Waits (wait (suc n) w) = quiet-Waits w

request-checked : check_request service request ≡ ok request
unfolding check_request trim_space
request-checked = refl

first_run : command_tx service request create_task 0 before ≡ (ok created, after)
unfolding command_tx trim_space begin claim ◌>>=◌ complete_mutation complete complete_row
    idempotency_response_body run_claimed on_resources with_request_id request_fingerprint
    prepare_outbox command_writers record_changes record_audits record_outbox validate_changes
    validate_sync_change append_changes append_change append_audits append_audit prepare_all prepare
    prepare_audit_entities keep_entities sanitize_audit_object
first_run = refl

after-Remembers :
    Remembers request (find_key 1 2 3 after.mutations) (2000 + default_mutation_retention) after
unfolding command_tx trim_space begin claim ◌>>=◌ complete_mutation complete complete_row
    idempotency_response_body run_claimed on_resources with_request_id request_fingerprint
    prepare_outbox command_writers record_changes record_audits record_outbox validate_changes
    validate_sync_change append_changes append_change append_audits append_audit prepare_all prepare
    prepare_audit_entities keep_entities sanitize_audit_object
after-Remembers = record { found = refl; device = phone; active = refl; live = omega arith }

remembered :
    (b : Db ℕ)
    → Waits quiet after b
    → Remembers request (find_key 1 2 3 after.mutations) (2000 + default_mutation_retention) b
remembered b w =
    subst (Remembers request (find_key 1 2 3 after.mutations) (2000 + default_mutation_retention))
      (sym (quiet-Waits w)) after-Remembers

execute-resent_example :
    Harmless quiet after
      (record created { duplicate = true })
      (execute service quiet (record request { request_id = 8 }) create_task after)
execute-resent_example =
    execute-resent service (command_writers-LawfulWriters audits) request request create_task
      create_task 0 before after created 8 quiet after request-checked first_run refl remembered

command_tx-Applied_example : Applied service 0 request created after
command_tx-Applied_example =
    command_tx-Applied service (command_writers-LawfulWriters audits) 0 request create_task before
      created after first_run refl

with_user-Outcome_example :
    Outcome quiet
      (command_tx service request create_task)
      before
      (with_user 3 quiet 1 (command_tx service request create_task) before).0
      (with_user 3 quiet 1 (command_tx service request create_task) before).1
with_user-Outcome_example =
    with_user-Outcome quiet (command_tx service request create_task) before 3 1
