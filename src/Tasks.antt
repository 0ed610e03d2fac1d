-- ===== src/Tasks.antt =====
-- internal/service/task.go. `TaskFormat` is what encoding/json makes of the structs and back.
pub mod Store
pub mod Service
pub mod Sound
use be_better.Prelude.{
  ℕ, suc, ◌+◌, ℤ, pos, ltb_ℤ, String, ◌=ˢ◌, rune_count, trim_space, one_of, Bool, true, false, not,
  ◌&&◌, ◌||◌, Option, none, some, List, [], ◌∷◌, ltb, if◌then◌else◌, take, length, is_some,
}
use be_better.Model.{
  Uuid, is_nil, Time, Json, RawMessage, empty, document, ResourcePosition, SyncChangeDraft,
  AuditDraft, validation, Error, Result, ok, err,
}
use be_better.Exec.{Tx, pure, ◌>>=◌}
use be_better.Database.Transaction.{Attempt, with_user, default_attempts}
use be_better.Store.{Db}
use be_better.Command.{
  CommandRequest, CommandResult, CommandResponse, CommandService, execute, on_resources,
}
use be_better.Pagination.{ResourceCursorCodec, encode_position, decode_position}
use be_better.Tasks.Store.{
  Task, TaskTable, create_task, get_task, update_task, delete_task, list_tasks,
}

pub record TaskInput : Type 0 where
  pub id : Option Uuid
  pub title : String
  pub status : String
  pub priority : String
  pub estimate_minutes : ℤ
  pub due_at : Option Time
  pub scheduled_start : Option Time
  pub scheduled_end : Option Time
  pub goal_id : Option Uuid
  pub source_record_id : Option Uuid

pub record TaskFormat : Type 0 where
  pub task_json : Task → Json
  pub deletion_json : Uuid → ℕ → Json
  pub read_task : Option Json → Result Task
  pub create_payload : TaskInput → List ℕ
  pub update_payload : Uuid → ℕ → TaskInput → List ℕ
  pub delete_payload : Uuid → ℕ → List ℕ

pub record MutationContext : Type 0 where
  pub user_id : Uuid
  pub device_id : Uuid
  pub mutation_id : Uuid
  pub request_id : Uuid

pub record TaskService : Type 0 where
  pub format : TaskFormat
  pub commands : CommandService TaskTable
  pub cursors : ResourceCursorCodec
  pub new_uuid : Uuid
  pub now : Time

pub record TaskPage : Type 0 where
  pub tasks : List Task
  pub next_cursor : Option (List ℕ)
  pub has_more : Bool

abbrev pub valid_task_status : String → Bool
valid_task_status status = one_of ("todo" ∷ "doing" ∷ "done" ∷ "archived" ∷ []) status

abbrev pub or_else : String → String → String
or_else s d = if s =ˢ "" then d else s

-- `applyTaskInput` on a `model.Task{ID: id}`.
unfoldable pub apply_task_input : Time → Uuid → TaskInput → Task
apply_task_input now id input = record {
  id = id;
  title = trim_space input.title;
  status = or_else input.status "todo";
  priority = or_else input.priority "normal";
  estimate_minutes = input.estimate_minutes;
  due_at = input.due_at;
  scheduled_start = input.scheduled_start;
  scheduled_end = input.scheduled_end;
  goal_id = input.goal_id;
  source_record_id = input.source_record_id;
  completed_at = if or_else input.status "todo" =ˢ "done" then some now else none;
  version = 0;
  created_at = 31_622_400_000_000_000;
  updated_at = 31_622_400_000_000_000;
  deleted_at = none;
}

-- `task.ScheduledEnd != nil && (task.ScheduledStart == nil || task.ScheduledEnd.Before(...))`
abbrev pub bad_schedule : Option Time → Option Time → Bool
bad_schedule start none = false
bad_schedule none (some end') = true
bad_schedule (some start) (some end') = ltb end' start

abbrev pub is_nil_id : Option Uuid → Bool
is_nil_id none = false
is_nil_id (some id) = is_nil id

-- `validateTask`
unfoldable pub validate_task : Task → Result (Unit {0})
validate_task task =
    if ltb (rune_count task.title) 1
      || ltb 240 (rune_count task.title)
      || not (valid_task_status task.status)
      || not (one_of ("normal" ∷ "important" ∷ []) task.priority)
      || ltb_ℤ task.estimate_minutes (pos 0)
    then err validation
    else if bad_schedule task.scheduled_start task.scheduled_end
    then err validation
    else if task.status =ˢ "done" && not (is_some task.completed_at)
    then err validation
    else if is_nil_id task.goal_id || is_nil_id task.source_record_id
    then err validation
    else ok tt

-- A task that stays done keeps the time at which it was completed.
abbrev pub kept_completion : Task → Task → Task
kept_completion candidate before =
    if candidate.status =ˢ "done" && before.status =ˢ "done"
    then record candidate { completed_at = before.completed_at }
    else candidate

module _ (format : TaskFormat) where
  -- The change and the audit of a command on a task.
  abbrev pub task_result :
      ℤ → Json → String → String → RawMessage → RawMessage → Task → CommandResult
  task_result status body operation action before_data after_data task = record {
    status = status;
    body = document body;
    changes =
        record {
          entity_type = "task";
          entity_id = task.id;
          operation = operation;
          entity_version = pos task.version;
        }
        ∷ [];
    audits =
        record {
          id = 0;
          actor_type = "";
          actor_id = none;
          action = action;
          request_id = 0;
          before_data = before_data;
          after_data = after_data;
          metadata = empty;
          entities = record { entity_type = "task"; entity_id = task.id } ∷ [];
        }
        ∷ [];
    outbox = [];
  }

  -- The operation of `Create`.
  unfoldable pub create_operation : Uuid → Task → Tx TaskTable CommandResult
  create_operation user task = do
    created ← create_task user task
    pure (
        task_result (pos 201) (format.task_json created) "create" "task.create" empty
          (document (format.task_json created)) created)

  -- The operation of `Update`.
  unfoldable pub update_operation : Uuid → Task → ℕ → Tx TaskTable CommandResult
  update_operation user candidate expected = do
    before ← get_task user candidate.id
    updated ← update_task user (kept_completion candidate before) expected
    pure (
        task_result (pos 200) (format.task_json updated) "update" "task.update"
          (document (format.task_json before)) (document (format.task_json updated)) updated)

  -- The operation of `Delete`.
  unfoldable pub delete_operation : Uuid → Uuid → ℕ → Tx TaskTable CommandResult
  delete_operation user id expected = do
    before ← get_task user id
    deleted ← delete_task user id expected
    pure (
        task_result (pos 200) (format.deletion_json deleted.id deleted.version) "delete"
          "task.delete" (document (format.task_json before)) (document (format.task_json deleted))
          deleted)
