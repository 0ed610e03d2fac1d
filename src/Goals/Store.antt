-- ===== src/Goals/Store.antt =====
-- internal/postgres/goal_repository.go over dayorder.goals, dayorder.goal_milestones and the tasks of
-- a goal, with the structs of internal/model/goal.go. `F` is float64; `Numbers` says what the
-- columns NUMERIC(20, 4) with their constraints keep of it. A date is its text: `time.DateOnly` has
-- one text for each day.
use be_better.Prelude.{
  ℕ, ◌+◌, ℤ, pos, wrapped, int32_half, if◌then◌else◌, ltb_ℤ, eqb_ℤ, String, Bool, true, false, ◌&&◌,
  ◌||◌, Option, none, some, List, ltb, ◌==◌,
}
use be_better.Model.{Uuid, Time, ResourcePosition, postgres, Result, ok, err, ◌>>=ᴿ◌}
use be_better.Exec.{Tx}
use be_better.Tasks.Store.{Task}
use be_better.Resources.Rows.{
  Versioned, Row, get_row, insert_row, write_row, written_rows, returned_rows, select_ordered,
}

pub record Goal (F : Type 0) : Type 0 where
  pub id : Uuid
  pub title : String
  pub why : String
  pub area : String
  pub metric_type : String
  pub target_value : F
  pub current_value : F
  pub unit : String
  pub start_date : String
  pub due_date : Option String
  pub status : String
  pub health : String
  pub version : ℕ
  pub created_at : Time
  pub updated_at : Time
  pub deleted_at : Option Time

pub record GoalMilestone : Type 0 where
  pub id : Uuid
  pub goal_id : Uuid
  pub title : String
  pub due_at : Option Time
  pub completed_at : Option Time
  pub sort_order : ℤ
  pub version : ℕ
  pub created_at : Time
  pub updated_at : Time
  pub deleted_at : Option Time

instance abbrev pub goal_versioned : {F : Type 0} → Versioned (Goal F)
goal_versioned = record {
  id_of = λ goal. goal.id;
  version_of = λ goal. goal.version;
  deleted_of = λ goal. goal.deleted_at;
}

instance abbrev pub milestone_versioned : Versioned GoalMilestone
milestone_versioned = record {
  id_of = λ milestone. milestone.id;
  version_of = λ milestone. milestone.version;
  deleted_of = λ milestone. milestone.deleted_at;
}

instance abbrev pub task_versioned : Versioned Task
task_versioned = record {
  id_of = λ task. task.id;
  version_of = λ task. task.version;
  deleted_of = λ task. task.deleted_at;
}

-- The tables, and now() of the transaction.
pub record PlanDb (F : Type 0) : Type 0 where
  pub goals : List (Row (Goal F))
  pub milestones : List (Row GoalMilestone)
  pub tasks : List (Row Task)
  pub clock : Time

-- `pgNumeric`, the column and its checks: an error of the server, or what is read back.
pub record Numbers (F : Type 0) : Type 0 where
  pub target_column : F → Result F
  pub current_column : F → Result F

module _ {F : Type 0} where
  abbrev pub on_goals :
      {A : Type 0} → PlanDb F → Result A × List (Row (Goal F)) → Result A × PlanDb F
  on_goals s (r, rows) = (r, record s { goals = rows })

  abbrev pub on_milestones :
      {A : Type 0} → PlanDb F → Result A × List (Row GoalMilestone) → Result A × PlanDb F
  on_milestones s (r, rows) = (r, record s { milestones = rows })

  abbrev kept_target : Goal F → Result F → Result (Goal F)
  kept_target goal (err e) = err e
  kept_target goal (ok target) = ok (record goal { target_value = target })

  abbrev kept_current : Goal F → Result F → Result (Goal F)
  kept_current goal (err e) = err e
  kept_current goal (ok current) = ok (record goal { current_value = current })

  -- The goal as its columns keep it.
  abbrev pub stored_goal : Numbers F → Goal F → Result (Goal F)
  stored_goal numbers goal = kept_target goal (numbers.target_column goal.target_value) >>=ᴿ λ g.
      kept_current g (numbers.current_column goal.current_value)

  -- The columns that `CreateGoal` leaves to their defaults.
  abbrev pub inserted_goal : Time → Goal F → Goal F
  inserted_goal now goal = record goal {
    version = 1;
    created_at = now;
    updated_at = now;
    deleted_at = none;
  }

  -- `UpdateGoal`
  abbrev pub rewritten_goal : Goal F → Time → Goal F → Goal F
  rewritten_goal goal now old = record old {
    title = goal.title;
    why = goal.why;
    area = goal.area;
    metric_type = goal.metric_type;
    target_value = goal.target_value;
    current_value = goal.current_value;
    unit = goal.unit;
    start_date = goal.start_date;
    due_date = goal.due_date;
    status = goal.status;
    health = goal.health;
    version = old.version + 1;
    updated_at = now;
  }

  -- `SoftDeleteGoal`
  abbrev pub deleted_goal : Time → Goal F → Goal F
  deleted_goal now old = record old {
    deleted_at = some now;
    version = old.version + 1;
    updated_at = now;
  }

  -- `GoalRepository.CreateGoal`
  unfoldable pub create_goal : Numbers F → Uuid → Goal F → Tx (PlanDb F) (Goal F)
  create_goal numbers user goal s = elim (stored_goal numbers goal) [
    | err e ↦ (err e, s)
    | ok stored ↦ on_goals s (insert_row user (inserted_goal s.clock stored) s.goals)
  ]

  -- `GoalRepository.GetGoal`
  unfoldable pub get_goal : Uuid → Uuid → Tx (PlanDb F) (Goal F)
  get_goal user id s = (get_row user id s.goals, s)

  -- `GoalRepository.UpdateGoal`
  unfoldable pub update_goal : Numbers F → Uuid → Goal F → ℕ → Tx (PlanDb F) (Goal F)
  update_goal numbers user goal expected s = elim (stored_goal numbers goal) [
    | err e ↦ (err e, s)
    | ok stored ↦
        on_goals s (write_row user goal.id expected (rewritten_goal stored s.clock) s.goals)
  ]

  -- `ORDER BY updated_at DESC, id DESC`
  abbrev pub older_goal : Goal F → Goal F → Bool
  older_goal a b = ltb a.updated_at b.updated_at || a.updated_at == b.updated_at && ltb a.id b.id

  abbrev pub past_goal : Option ResourcePosition → Goal F → Bool
  past_goal none goal = true
  past_goal (some p) goal =
      ltb goal.updated_at p.updated_at || goal.updated_at == p.updated_at && ltb goal.id p.id

  -- `GoalRepository.ListGoals`, before its LIMIT
  unfoldable pub listed_goals : Uuid → Option ResourcePosition → PlanDb F → List (Goal F)
  listed_goals user after s = select_ordered older_goal (past_goal after) user s.goals

-- The columns of `CreateGoalMilestone`, `int32(milestone.SortOrder)` among them, and the defaults of
-- the others.
abbrev pub inserted_milestone : Time → GoalMilestone → GoalMilestone
inserted_milestone now milestone = record milestone {
  sort_order = wrapped int32_half milestone.sort_order;
  version = 1;
  created_at = now;
  updated_at = now;
  deleted_at = none;
}

-- `UpdateGoalMilestone`, with `int32(milestone.SortOrder)`
abbrev pub rewritten_milestone : GoalMilestone → Time → GoalMilestone → GoalMilestone
rewritten_milestone milestone now old = record old {
  title = milestone.title;
  due_at = milestone.due_at;
  completed_at = milestone.completed_at;
  sort_order = wrapped int32_half milestone.sort_order;
  version = old.version + 1;
  updated_at = now;
}

-- `SoftDeleteGoalMilestone`, and `SoftDeleteGoalMilestones`
abbrev pub deleted_milestone : Time → GoalMilestone → GoalMilestone
deleted_milestone now old = record old {
  deleted_at = some now;
  version = old.version + 1;
  updated_at = now;
}

abbrev pub milestone_of : Uuid → GoalMilestone → Bool
milestone_of goal milestone = milestone.goal_id == goal

abbrev pub task_of : Uuid → Task → Bool
task_of goal task = elim task.goal_id [ none ↦ false | some id ↦ id == goal ]

-- `DetachGoalTasks`
abbrev pub detached_task : Time → Task → Task
detached_task now old = record old { goal_id = none; version = old.version + 1; updated_at = now }

-- `ORDER BY sort_order, created_at, id`
abbrev pub later_milestone : GoalMilestone → GoalMilestone → Bool
later_milestone a b =
    ltb_ℤ b.sort_order a.sort_order
    || eqb_ℤ b.sort_order a.sort_order
      && (ltb b.created_at a.created_at || b.created_at == a.created_at && ltb b.id a.id)

module _ {F : Type 0} where
  -- What `GoalRepository.DeleteGoal` does once the goal is deleted.
  abbrev pub with_attached :
      Uuid
      → Uuid
      → PlanDb F
      → Result (Goal F) × List (Row (Goal F))
      → Result (Goal F × List GoalMilestone × List Task) × PlanDb F
  with_attached user id s (err e, rows) = (err e, s)
  with_attached user id s (ok goal, rows) = (
    ok (
      goal,
      returned_rows user (milestone_of id) (deleted_milestone s.clock) s.milestones,
      returned_rows user (task_of id) (detached_task s.clock) s.tasks,
    ),
    record s {
      goals = rows;
      milestones = written_rows user (milestone_of id) (deleted_milestone s.clock) s.milestones;
      tasks = written_rows user (task_of id) (detached_task s.clock) s.tasks;
    },
  )

  -- `GoalRepository.DeleteGoal`
  unfoldable pub delete_goal :
      Uuid → Uuid → ℕ → Tx (PlanDb F) (Goal F × List GoalMilestone × List Task)
  delete_goal user id expected s =
      with_attached user id s (write_row user id expected (deleted_goal s.clock) s.goals)

  -- A row that goal_milestones_sort_order_check refuses.
  abbrev pub unless_negative :
      ℤ
      → PlanDb F
      → Result GoalMilestone × List (Row GoalMilestone)
      → Result GoalMilestone × List (Row GoalMilestone)
  unless_negative order s written =
      if ltb_ℤ order (pos 0) then (err (postgres "23514"), s.milestones) else written

  -- `GoalRepository.CreateMilestone`
  unfoldable pub create_milestone : Uuid → GoalMilestone → Tx (PlanDb F) GoalMilestone
  create_milestone user milestone s = on_milestones s (
      unless_negative (wrapped int32_half milestone.sort_order) s
        (insert_row user (inserted_milestone s.clock milestone) s.milestones))

  -- `GoalRepository.GetMilestone`
  unfoldable pub get_milestone : Uuid → Uuid → Tx (PlanDb F) GoalMilestone
  get_milestone user id s = (get_row user id s.milestones, s)

  -- `GoalRepository.ListMilestones`
  unfoldable pub list_milestones : Uuid → Uuid → Tx (PlanDb F) (List GoalMilestone)
  list_milestones user goal s =
      (ok (select_ordered later_milestone (milestone_of goal) user s.milestones), s)

  -- An UPDATE whose row is refused by the check, where it finds one.
  abbrev pub checked_update :
      ℤ
      → PlanDb F
      → Result GoalMilestone × List (Row GoalMilestone)
      → Result GoalMilestone × List (Row GoalMilestone)
  checked_update order s (err e, rows) = (err e, rows)
  checked_update order s (ok milestone, rows) = unless_negative order s (ok milestone, rows)

  -- `GoalRepository.UpdateMilestone`
  unfoldable pub update_milestone : Uuid → GoalMilestone → ℕ → Tx (PlanDb F) GoalMilestone
  update_milestone user milestone expected s = on_milestones s (
      checked_update (wrapped int32_half milestone.sort_order) s
        (write_row user milestone.id expected (rewritten_milestone milestone s.clock) s.milestones))

  -- `GoalRepository.DeleteMilestone`
  unfoldable pub delete_milestone : Uuid → Uuid → ℕ → Tx (PlanDb F) GoalMilestone
  delete_milestone user id expected s =
      on_milestones s (write_row user id expected (deleted_milestone s.clock) s.milestones)
