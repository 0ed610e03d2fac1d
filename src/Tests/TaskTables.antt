-- ===== src/Tests/TaskTables.antt =====
-- One task that is done, updated and deleted.
use be_better.Prelude.{◌≡◌, refl, pos, none, some, [], ◌∷◌}
use be_better.Prelude.Text.{trim_space}
use be_better.Model.{null, ok, err, failure}
use be_better.Tasks.{
  TaskInput, TaskFormat, apply_task_input, validate_task, create_operation, update_operation,
  delete_operation,
}
use be_better.Tasks.Store.{Task, TaskTable}
use be_better.Tasks.Sound.{AllSound, operations-AllSound}

abbrev format : TaskFormat
format = record {
  task_json = λ t. null;
  deletion_json = λ id version. null;
  read_task = λ body. err failure;
  create_payload = λ input. [];
  update_payload = λ id version input. [];
  delete_payload = λ id version. [];
}

abbrev input : TaskInput
input = record {
  id = none;
  title = "run";
  status = "done";
  priority = "";
  estimate_minutes = pos 30;
  due_at = none;
  scheduled_start = some 100;
  scheduled_end = some 200;
  goal_id = none;
  source_record_id = some 4;
}

abbrev stored : Task
stored = record {
  id = 10;
  title = "walk";
  status = "done";
  priority = "normal";
  estimate_minutes = pos 5;
  due_at = none;
  scheduled_start = none;
  scheduled_end = none;
  goal_id = none;
  source_record_id = none;
  completed_at = some 300;
  version = 2;
  created_at = 50;
  updated_at = 300;
  deleted_at = none;
}

abbrev table : TaskTable
table = record { rows = record { user_id = 1; task = stored } ∷ []; clock = 1000 }

table-AllSound : AllSound table
unfolding validate_task
table-AllSound = (record { valid = refl; completed = refl }, tt)

input-valid : validate_task (apply_task_input 900 10 input) ≡ ok tt
unfolding validate_task apply_task_input trim_space
input-valid = refl

operations-AllSound_example :
    AllSound (create_operation format 1 (apply_task_input 900 10 input) table).1
    × AllSound (update_operation format 1 (apply_task_input 900 10 input) 2 table).1
    × AllSound (delete_operation format 1 10 2 table).1
operations-AllSound_example =
    operations-AllSound 1 format 900 10 input 2 table input-valid table-AllSound
