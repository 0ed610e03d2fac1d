-- ===== src/Tests/GoalTables.antt =====
-- A goal with a milestone and a task, and its deletion.
use be_better.Prelude.{ℕ, pos, none, some, [], ◌∷◌, ◌≡◌, false, true, refl, any_row, ltb}
use be_better.Model.{null, empty, ok, err, failure}
use be_better.Command.{CommandResult}
use be_better.Tasks.Store.{Task}
use be_better.Resources.Rows.{get_row, write_row, returned_rows, attached}
use be_better.Exec.{◌>>=◌}
use be_better.Goals.Store.{
  Goal, GoalMilestone, PlanDb, get_goal, delete_goal, milestone_of, task_of, milestone_versioned,
  task_versioned,
}
use be_better.Goals.{GoalFormat, delete_goal_operation}
use be_better.Goals.Reported.{Reported}
use be_better.Goals.Operations.{deletes_goal, GoalOperation-Reported}
use be_better.Goals.Cascade.{delete_goal_operation-none_attached}

-- Quantities without a fraction, and no body.
abbrev whole : GoalFormat ℕ
whole = record {
  parse_date = λ s. some 1;
  is_positive = ltb 0;
  is_nonnegative = λ n. true;
  numbers = record { target_column = ok; current_column = ok };
  goal_json = λ goal. null;
  milestone_json = λ milestone. null;
  deletion_json = λ id version. null;
  read_goal = λ body. err failure;
  read_milestone = λ body. err failure;
  create_payload = λ input. [];
  update_payload = λ id version input. [];
  delete_payload = λ id version. [];
  create_milestone_payload = λ id input. [];
  update_milestone_payload = λ id version input. [];
}

abbrev goal : Goal ℕ
goal = record {
  id = 7;
  title = "run";
  why = "";
  area = "health";
  metric_type = "habit";
  target_value = 10;
  current_value = 2;
  unit = "";
  start_date = "2026-01-01";
  due_date = none;
  status = "active";
  health = "normal";
  version = 3;
  created_at = 100;
  updated_at = 200;
  deleted_at = none;
}

abbrev milestone : GoalMilestone
milestone = record {
  id = 8;
  goal_id = 7;
  title = "first run";
  due_at = none;
  completed_at = none;
  sort_order = pos 0;
  version = 1;
  created_at = 100;
  updated_at = 100;
  deleted_at = none;
}

abbrev task : Task
task = record {
  id = 10;
  title = "walk";
  status = "open";
  priority = "normal";
  estimate_minutes = pos 5;
  due_at = none;
  scheduled_start = none;
  scheduled_end = none;
  goal_id = some 7;
  source_record_id = none;
  completed_at = none;
  version = 2;
  created_at = 50;
  updated_at = 300;
  deleted_at = none;
}

abbrev plan : PlanDb ℕ
plan = record {
  goals = record { user_id = 1; value = goal } ∷ [];
  milestones = record { user_id = 1; value = milestone } ∷ [];
  tasks = record { user_id = 1; value = task } ∷ [];
  clock = 1000;
}

abbrev deleted_plan : PlanDb ℕ
deleted_plan = (delete_goal 1 7 3 plan).1

abbrev deletion : CommandResult
deletion = elim (delete_goal_operation whole 1 7 3 plan).0 [
  | ok r ↦ r
  | err e ↦ record { status = pos 0; body = empty; changes = []; audits = []; outbox = [] }
]

deletes : delete_goal_operation whole 1 7 3 plan ≡ (ok deletion, deleted_plan)
unfolding delete_goal_operation get_goal get_row delete_goal write_row returned_rows ◌>>=◌
deletes = refl

-- The goal, its milestone and its task are named with their new versions.
changes_of_deletion :
    deletion.changes
    ≡ record { entity_type = "goal"; entity_id = 7; operation = "delete"; entity_version = pos 4 }
      ∷ record {
        entity_type = "milestone";
        entity_id = 8;
        operation = "delete";
        entity_version = pos 2;
      }
      ∷ record {
        entity_type = "task";
        entity_id = 10;
        operation = "update";
        entity_version = pos 3;
      }
      ∷ []
unfolding delete_goal_operation get_goal get_row delete_goal write_row returned_rows ◌>>=◌
changes_of_deletion = refl

GoalOperation-Reported_example : Reported deletion.changes plan deleted_plan
GoalOperation-Reported_example =
    GoalOperation-Reported {format = whole} (deletes_goal 1 7 3) plan deletes

none_attached_example :
    (any_row (attached 1 (milestone_of 7)) deleted_plan.milestones ≡ false)
    × (any_row (attached 1 (task_of 7)) deleted_plan.tasks ≡ false)
none_attached_example = delete_goal_operation-none_attached whole 1 7 3 plan deletes
