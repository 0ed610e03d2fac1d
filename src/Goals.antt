-- ===== src/Goals.antt =====
-- internal/service/goal.go: its inputs, their validation and the operations of its commands.
-- `GoalFormat` is what encoding/json makes of the structs and back, and what package time and float64
-- say of a goal's fields.
pub mod Store
pub mod Service
pub mod Reported
pub mod Operations
pub mod Cascade
use be_better.Prelude.{
  ℕ, ◌+◌, ℤ, pos, ltb_ℤ, String, ◌=ˢ◌, rune_count, trim_space, one_of, bytes_of, Bool, true, false,
  not, ◌&&◌, ◌||◌, Option, none, some, List, [], ◌∷◌, ◌++◌, map, ltb, if◌then◌else◌, length,
}
use be_better.Model.{
  Uuid, is_nil, Time, zero_time, Json, RawMessage, empty, document, SyncChangeDraft, AuditEntity,
  validation, Result, ok, err,
}
use be_better.Exec.{Tx, pure, ◌>>=◌}
use be_better.Command.{CommandResult}
use be_better.Tasks.Store.{Task}
use be_better.Resources.Tracked.{change_of}
use be_better.Resources.Service.{audit_of, entity}
use be_better.Goals.Store.{
  Goal, GoalMilestone, PlanDb, Numbers, goal_versioned, milestone_versioned, task_versioned,
  create_goal, get_goal, update_goal, delete_goal, create_milestone, get_milestone,
  update_milestone, delete_milestone,
}

-- `CreateGoalInput` and `UpdateGoalInput`
pub record GoalInput (F : Type 0) : Type 0 where
  pub id : Option Uuid
  pub title : String
  pub why : String
  pub area : String
  pub metric_type : String
  pub target_value : F
  pub current_value : F
  pub unit : String
  pub start_date : String
  pub due_date : Option String
  pub status : String
  pub health : String

-- `CreateMilestoneInput`; `UpdateMilestoneInput` has no id.
pub record MilestoneInput : Type 0 where
  pub id : Option Uuid
  pub title : String
  pub due_at : Option Time
  pub completed_at : Option Time
  pub sort_order : ℤ

pub record GoalFormat (F : Type 0) : Type 0 where
  -- `time.Parse(time.DateOnly, ...)`, as the number of the day
  pub parse_date : String → Option ℕ
  -- finite and above zero, and finite and not below zero
  pub is_positive : F → Bool
  pub is_nonnegative : F → Bool
  pub numbers : Numbers F
  pub goal_json : Goal F → Json
  pub milestone_json : GoalMilestone → Json
  pub deletion_json : Uuid → ℕ → Json
  pub read_goal : Option Json → Result (Goal F)
  pub read_milestone : Option Json → Result GoalMilestone
  pub create_payload : GoalInput F → List ℕ
  pub update_payload : Uuid → ℕ → GoalInput F → List ℕ
  pub delete_payload : Uuid → ℕ → List ℕ
  pub create_milestone_payload : Uuid → MilestoneInput → List ℕ
  pub update_milestone_payload : Uuid → ℕ → MilestoneInput → List ℕ

abbrev or_else : String → String → String
or_else s d = if s =ˢ "" then d else s

-- `utf8.RuneCountInString(s) < 1 || utf8.RuneCountInString(s) > limit`
abbrev pub bad_length : ℕ → String → Bool
bad_length limit s = ltb (rune_count s) 1 || ltb limit (rune_count s)

abbrev bad_due : (String → Option ℕ) → ℕ → Option String → Bool
bad_due parse start none = false
bad_due parse start (some due) = elim (parse due) [ none ↦ true | some d ↦ ltb d start ]

module _ {F : Type 0} where
  -- `applyGoalInput` on a `model.Goal{ID: id}`
  unfoldable pub apply_goal_input : Uuid → GoalInput F → Goal F
  apply_goal_input id input = record {
    id = id;
    title = trim_space input.title;
    why = trim_space input.why;
    area = trim_space input.area;
    metric_type = input.metric_type;
    target_value = input.target_value;
    current_value = input.current_value;
    unit = trim_space input.unit;
    start_date = input.start_date;
    due_date = input.due_date;
    status = or_else input.status "active";
    health = or_else input.health "normal";
    version = 0;
    created_at = zero_time;
    updated_at = zero_time;
    deleted_at = none;
  }

  abbrev bad_dates : (String → Option ℕ) → Goal F → Bool
  bad_dates parse goal = elim (parse goal.start_date) [
    | none ↦ true
    | some start ↦ bad_due parse start goal.due_date
  ]

  -- `validateGoal`
  unfoldable pub validate_goal : GoalFormat F → Goal F → Result (Unit {0})
  validate_goal format goal =
      if bad_length 240 goal.title || bad_length 40 goal.area
      then err validation
      else if not (one_of ("milestone" ∷ "numeric" ∷ "habit" ∷ "project" ∷ []) goal.metric_type)
      then err validation
      else if not (format.is_positive goal.target_value)
          || not (format.is_nonnegative goal.current_value)
      then err validation
      else if ltb 32 (rune_count goal.unit) || ltb 20000 (length (bytes_of goal.why))
      then err validation
      else if bad_dates format.parse_date goal
      then err validation
      else if not (one_of ("active" ∷ "paused" ∷ "completed" ∷ "abandoned" ∷ []) goal.status)
          || not (one_of ("normal" ∷ "attention" ∷ "stalled" ∷ []) goal.health)
      then err validation
      else ok tt

-- The milestone that a request makes.
abbrev pub milestone_of_input : Uuid → Uuid → MilestoneInput → GoalMilestone
milestone_of_input id goal input = record {
  id = id;
  goal_id = goal;
  title = trim_space input.title;
  due_at = input.due_at;
  completed_at = input.completed_at;
  sort_order = input.sort_order;
  version = 0;
  created_at = zero_time;
  updated_at = zero_time;
  deleted_at = none;
}

-- `validateMilestone`
unfoldable pub validate_milestone : GoalMilestone → Result (Unit {0})
validate_milestone milestone =
    if is_nil milestone.id || bad_length 240 milestone.title || ltb_ℤ milestone.sort_order (pos 0)
    then err validation
    else ok tt

-- The result of a command, with one audit.
abbrev pub result_of :
    ℤ
    → Json
    → List SyncChangeDraft
    → String
    → RawMessage
    → RawMessage
    → List AuditEntity
    → CommandResult
result_of status body changes action before_data after_data entities = record {
  status = status;
  body = document body;
  changes = changes;
  audits = audit_of action before_data after_data entities ∷ [];
  outbox = [];
}

abbrev pub goal_entity : Uuid → AuditEntity
goal_entity = entity "goal"

abbrev pub milestone_entity : Uuid → AuditEntity
milestone_entity = entity "milestone"

module _ {F : Type 0} (format : GoalFormat F) where
  open format use {numbers, goal_json, milestone_json, deletion_json}

  -- The operation of `Create`.
  unfoldable pub create_goal_operation : Uuid → Goal F → Tx (PlanDb F) CommandResult
  create_goal_operation user goal = do
    created ← create_goal numbers user goal
    pure (
        result_of (pos 201) (goal_json created) (change_of "goal" "create" created ∷ [])
          "goal.create" empty (document (goal_json created)) (goal_entity created.id ∷ []))

  -- The operation of `Update`.
  unfoldable pub update_goal_operation : Uuid → Goal F → ℕ → Tx (PlanDb F) CommandResult
  update_goal_operation user candidate expected = do
    before ← get_goal user candidate.id
    updated ← update_goal numbers user candidate expected
    pure (
        result_of (pos 200) (goal_json updated) (change_of "goal" "update" updated ∷ [])
          "goal.update" (document (goal_json before)) (document (goal_json updated))
          (goal_entity updated.id ∷ []))

  -- The changes that the loops of `Delete` collect.
  abbrev pub deletion_changes : Goal F → List GoalMilestone → List Task → List SyncChangeDraft
  deletion_changes goal milestones tasks =
      change_of "goal" "delete" goal
      ∷ (map (change_of "milestone" "delete") milestones ++ map (change_of "task" "update") tasks)

  abbrev pub deletion_entities : Goal F → List GoalMilestone → List Task → List AuditEntity
  deletion_entities goal milestones tasks =
      goal_entity goal.id
      ∷ (map (λ m. milestone_entity m.id) milestones ++ map (λ t. entity "task" t.id) tasks)

  -- The operation of `Delete`.
  unfoldable pub delete_goal_operation : Uuid → Uuid → ℕ → Tx (PlanDb F) CommandResult
  delete_goal_operation user id expected = do
    before ← get_goal user id
    gone ← delete_goal user id expected
    pure (
        result_of (pos 200) (deletion_json gone.0.id gone.0.version)
          (deletion_changes gone.0 gone.1 gone.2) "goal.delete" (document (goal_json before))
          (document (goal_json gone.0)) (deletion_entities gone.0 gone.1 gone.2))

  -- The operation of `CreateMilestone`.
  unfoldable pub create_milestone_operation : Uuid → GoalMilestone → Tx (PlanDb F) CommandResult
  create_milestone_operation user milestone = do
    goal ← get_goal user milestone.goal_id
    created ← create_milestone user milestone
    pure (
        result_of (pos 201) (milestone_json created) (change_of "milestone" "create" created ∷ [])
          "milestone.create" empty (document (milestone_json created))
          (milestone_entity created.id ∷ goal_entity milestone.goal_id ∷ []))

  -- The operation of `UpdateMilestone`.
  unfoldable pub update_milestone_operation : Uuid → GoalMilestone → ℕ → Tx (PlanDb F) CommandResult
  update_milestone_operation user candidate expected = do
    before ← get_milestone user candidate.id
    updated ← update_milestone user (record candidate { goal_id = before.goal_id }) expected
    pure (
        result_of (pos 200) (milestone_json updated) (change_of "milestone" "update" updated ∷ [])
          "milestone.update" (document (milestone_json before)) (document (milestone_json updated))
          (milestone_entity updated.id ∷ []))

  -- The operation of `DeleteMilestone`.
  unfoldable pub delete_milestone_operation : Uuid → Uuid → ℕ → Tx (PlanDb F) CommandResult
  delete_milestone_operation user id expected = do
    before ← get_milestone user id
    gone ← delete_milestone user id expected
    pure (
        result_of (pos 200) (deletion_json gone.id gone.version)
          (change_of "milestone" "delete" gone ∷ []) "milestone.delete"
          (document (milestone_json before)) (document (milestone_json gone))
          (milestone_entity gone.id ∷ []))
