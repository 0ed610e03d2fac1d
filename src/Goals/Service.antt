-- ===== src/Goals/Service.antt =====
-- The methods of `GoalService` in internal/service/goal.go. Each round of a transaction starts from
-- the candidate of the request.
use be_better.Prelude.{ℕ, suc, ◌||◌, List, ltb, if◌then◌else◌, take}
use be_better.Model.{Uuid, is_nil, ResourcePosition, validation, ok, err}
use be_better.Exec.{Tx, ◌>>=◌}
use be_better.Database.Transaction.{Attempt, with_user, default_attempts}
use be_better.Store.{Db}
use be_better.Command.{CommandService, execute, on_resources}
use be_better.Pagination.{ResourceCursorCodec}
use be_better.Tasks.{MutationContext}
use be_better.Tasks.Service.{resource_command, or_new}
use be_better.Resources.Service.{
  Page, after_cursor, page_of, bad_page_size, decoded, no_value, on_result,
}
use be_better.Goals.Store.{
  Goal, GoalMilestone, PlanDb, get_goal, listed_goals, get_milestone, list_milestones,
}
use be_better.Goals.{
  GoalInput, MilestoneInput, GoalFormat, apply_goal_input, validate_goal, milestone_of_input,
  validate_milestone, create_goal_operation, update_goal_operation, delete_goal_operation,
  create_milestone_operation, update_milestone_operation, delete_milestone_operation,
}

pub record GoalService (F : Type 0) : Type 0 where
  pub format : GoalFormat F
  pub commands : CommandService (PlanDb F)
  pub cursors : ResourceCursorCodec
  pub new_uuid : Uuid

abbrev pub position_of_goal : {F : Type 0} → Goal F → ResourcePosition
position_of_goal goal = record { updated_at = goal.updated_at; id = goal.id }

module _ {F : Type 0} (service : GoalService F) (env : ℕ → Attempt (Db (PlanDb F))) where
  open service use {format, commands, cursors, new_uuid}

  -- `GoalService.Create`
  unfoldable pub create : MutationContext → GoalInput F → Tx (Db (PlanDb F)) (Goal F)
  create mutation input s =
      let goal = apply_goal_input (or_new new_uuid input.id) input in
      elim (validate_goal format goal) [
        | err e ↦ (err e, s)
        | ok _ ↦ on_result (decoded format.read_goal) (
            execute commands env
              (resource_command mutation "goal.create" (format.create_payload input))
              (create_goal_operation format mutation.user_id goal) s)
      ]

  -- `GoalService.Get`
  unfoldable pub get : Uuid → Uuid → Tx (Db (PlanDb F)) (Goal F)
  get user id = with_user default_attempts env user (λ round. on_resources (get_goal user id))

  -- `GoalService.List`
  unfoldable pub list : Uuid → List ℕ → ℕ → Tx (Db (PlanDb F)) (Page (Goal F))
  list user cursor size s =
      if bad_page_size size
      then (err validation, s)
      else elim (after_cursor cursors user "goals" cursor) [
        | err e ↦ (err e, s)
        | ok after ↦ on_result (page_of cursors position_of_goal user "goals" size) (
            with_user default_attempts env user
              (λ round. on_resources λ t. (ok (take (suc size) (listed_goals user after t)), t)) s)
      ]

  -- `GoalService.Update`
  unfoldable pub update : MutationContext → Uuid → ℕ → GoalInput F → Tx (Db (PlanDb F)) (Goal F)
  update mutation id expected input s =
      let candidate = apply_goal_input id input in
      if is_nil id || ltb expected 1
      then (err validation, s)
      else elim (validate_goal format candidate) [
        | err e ↦ (err e, s)
        | ok _ ↦ on_result (decoded format.read_goal) (
            execute commands env
              (resource_command mutation "goal.update" (format.update_payload id expected input))
              (update_goal_operation format mutation.user_id candidate expected) s)
      ]

  -- `GoalService.Delete`
  unfoldable pub delete : MutationContext → Uuid → ℕ → Tx (Db (PlanDb F)) (Unit {0})
  delete mutation id expected s =
      if is_nil id || ltb expected 1
      then (err validation, s)
      else on_result no_value (
          execute commands env
            (resource_command mutation "goal.delete" (format.delete_payload id expected))
            (delete_goal_operation format mutation.user_id id expected) s)

  -- `GoalService.CreateMilestone`
  unfoldable pub add_milestone :
      MutationContext → Uuid → MilestoneInput → Tx (Db (PlanDb F)) GoalMilestone
  add_milestone mutation goal input s =
      let milestone = milestone_of_input (or_new new_uuid input.id) goal input in
      if is_nil goal then (err validation, s) else elim (validate_milestone milestone) [
        | err e ↦ (err e, s)
        | ok _ ↦ on_result (decoded format.read_milestone) (
            execute commands env
              (resource_command mutation "milestone.create"
                (format.create_milestone_payload goal input))
              (create_milestone_operation format mutation.user_id milestone) s)
      ]

  -- `GoalService.ListMilestones`
  unfoldable pub milestones : Uuid → Uuid → Tx (Db (PlanDb F)) (List GoalMilestone)
  milestones user goal =
      with_user default_attempts env user
        (λ round. on_resources (get_goal user goal >>= λ _. list_milestones user goal))

  -- `GoalService.GetMilestone`
  unfoldable pub milestone : Uuid → Uuid → Tx (Db (PlanDb F)) GoalMilestone
  milestone user id s =
      if is_nil user || is_nil id
      then (err validation, s)
      else with_user default_attempts env user (λ round. on_resources (get_milestone user id)) s

  -- `GoalService.UpdateMilestone`; the candidate has no goal until the operation reads it.
  unfoldable pub change_milestone :
      MutationContext → Uuid → ℕ → MilestoneInput → Tx (Db (PlanDb F)) GoalMilestone
  change_milestone mutation id expected input s =
      let candidate = milestone_of_input id 0 input in
      if ltb expected 1 then (err validation, s) else elim (validate_milestone candidate) [
        | err e ↦ (err e, s)
        | ok _ ↦ on_result (decoded format.read_milestone) (
            execute commands env
              (resource_command mutation "milestone.update"
                (format.update_milestone_payload id expected input))
              (update_milestone_operation format mutation.user_id candidate expected) s)
      ]

  -- `GoalService.DeleteMilestone`
  unfoldable pub remove_milestone : MutationContext → Uuid → ℕ → Tx (Db (PlanDb F)) (Unit {0})
  remove_milestone mutation id expected s =
      if is_nil id || ltb expected 1
      then (err validation, s)
      else on_result no_value (
          execute commands env
            (resource_command mutation "milestone.delete" (format.delete_payload id expected))
            (delete_milestone_operation format mutation.user_id id expected) s)
