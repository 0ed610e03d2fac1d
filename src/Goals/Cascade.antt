-- ===== src/Goals/Cascade.antt =====
-- What `GoalService.Delete` of internal/service/goal.go leaves of a goal's milestones and tasks.
use be_better.Prelude.{ℕ, false, ◌≡◌, arith, any_row}
use be_better.Model.{Uuid, ok}
use be_better.Command.{CommandResult}
use be_better.Resources.Swept.{any_row-written_rows}
use be_better.Resources.Rows.{attached}
use be_better.Goals.Store.{
  PlanDb, milestone_of, task_of, milestone_versioned, task_versioned, deleted_milestone,
  detached_task,
}
use be_better.Goals.{GoalFormat, delete_goal_operation}
use be_better.Goals.Reported.{delete_goal-ok}
use be_better.Goals.Operations.{delete_goal_operation-ok}

-- After the operation that deletes a goal, none of the user's live milestones is of the goal, and
-- none of the user's live tasks is.
pub delete_goal_operation-none_attached :
    {F : Type 0} (format : GoalFormat F) (user id : Uuid) (expected : ℕ) (s : PlanDb F)
    {r : CommandResult} {t : PlanDb F}
    → delete_goal_operation format user id expected s ≡ (ok r, t)
    → (any_row (attached user (milestone_of id)) t.milestones ≡ false)
      × (any_row (attached user (task_of id)) t.tasks ≡ false)
delete_goal_operation-none_attached format user id expected s h =
    let (gone, done, made) = delete_goal_operation-ok format user id expected s h in
    let (goal, ms_eq, ts_eq, milestones, tasks) =
      delete_goal-ok user id expected s {g = gone.0} {ms = gone.1} {ts = gone.2} done in
    (
      rw milestones (
          any_row-written_rows user (milestone_of id) (deleted_milestone s.clock) s.milestones
            (λ row. ground arith)),
      rw tasks (
          any_row-written_rows user (task_of id) (detached_task s.clock) s.tasks
            (λ row. ground arith)),
    )
