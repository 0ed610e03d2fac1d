-- ===== src/Goals/Operations.antt =====
-- The operations that internal/service/goal.go hands to executeResourceCommand.
use be_better.Prelude.{ℕ, ◌≡◌, refl, sym, subst, ap, List}
use be_better.Model.{Uuid, ok}
use be_better.Exec.{Tx, shaped-ok, reads-ok}
use be_better.Command.{CommandResult}
use be_better.Tasks.Store.{Task}
use be_better.Resources.Rows.{get_row}
use be_better.Goals.Store.{
  Goal, GoalMilestone, PlanDb, goal_versioned, milestone_versioned, task_versioned,
  deleted_milestone, create_goal, get_goal, update_goal, delete_goal, create_milestone,
  get_milestone, update_milestone, delete_milestone,
}
use be_better.Goals.{
  GoalFormat, deletion_changes, create_goal_operation, update_goal_operation, delete_goal_operation,
  create_milestone_operation, update_milestone_operation, delete_milestone_operation,
}
use be_better.Goals.Reported.{
  Reported, delete_goal-Reported, create_goal-Reported, update_goal-Reported,
  create_milestone-Reported, update_milestone-Reported, write_milestone-Reported,
}

module _ {F : Type 0} where
  -- The operations that `GoalService` hands to `executeResourceCommand`.
  pub data GoalOperation (format : GoalFormat F) : Tx (PlanDb F) CommandResult → Type 0 where
    creates_goal :
        (user : Uuid) (goal : Goal F)
        → GoalOperation format (create_goal_operation format user goal)
    updates_goal :
        (user : Uuid) (goal : Goal F) (expected : ℕ)
        → GoalOperation format (update_goal_operation format user goal expected)
    deletes_goal :
        (user id : Uuid) (expected : ℕ)
        → GoalOperation format (delete_goal_operation format user id expected)
    creates_milestone :
        (user : Uuid) (milestone : GoalMilestone)
        → GoalOperation format (create_milestone_operation format user milestone)
    updates_milestone :
        (user : Uuid) (milestone : GoalMilestone) (expected : ℕ)
        → GoalOperation format (update_milestone_operation format user milestone expected)
    deletes_milestone :
        (user id : Uuid) (expected : ℕ)
        → GoalOperation format (delete_milestone_operation format user id expected)

  pub delete_goal_operation-ok :
      (format : GoalFormat F) (user id : Uuid) (expected : ℕ) (s : PlanDb F) {r : CommandResult}
      {t : PlanDb F}
      → delete_goal_operation format user id expected s ≡ (ok r, t)
      → (gone : Goal F × List GoalMilestone × List Task) × (delete_goal user id expected s
          ≡ (ok gone, t))
        × (r.changes ≡ deletion_changes format gone.0 gone.1 gone.2)
  unfolding delete_goal_operation get_goal
  delete_goal_operation-ok format user id expected s h =
      let (before, e, rest) = reads-ok (λ u. get_row user id u.goals) _ s h in
      let (gone, done, made) = shaped-ok (delete_goal user id expected) _ s rest in
      (gone, done, ap (λ r. r.changes) made)

  -- An operation of the goal service that succeeds tells the sync feed of every row that it wrote
  -- or added in the tables of goals, milestones and tasks: each has a change with its type, its id
  -- and its new version.
  pub GoalOperation-Reported :
      {format : GoalFormat F} {operation : Tx (PlanDb F) CommandResult}
      → GoalOperation format operation
      → (s : PlanDb F) {r : CommandResult} {t : PlanDb F} → operation s ≡ (ok r, t)
      → Reported r.changes s t
  unfolding create_goal_operation update_goal_operation get_goal create_milestone_operation
      update_milestone_operation delete_milestone_operation get_milestone delete_milestone
  GoalOperation-Reported {format = format} (creates_goal user goal) s {t = t} h =
      let (g, done, made) = shaped-ok (create_goal format.numbers user goal) _ s h in
      subst (λ cs. Reported cs s t) (sym (ap (λ r. r.changes) made))
        (create_goal-Reported format.numbers user goal s done)
  GoalOperation-Reported {format = format} (updates_goal user goal expected) s {t = t} h =
      let (before, e, rest) = reads-ok (λ u. get_row user goal.id u.goals) _ s h in
      let (g, done, made) = shaped-ok (update_goal format.numbers user goal expected) _ s rest in
      subst (λ cs. Reported cs s t) (sym (ap (λ r. r.changes) made))
        (update_goal-Reported format.numbers user goal expected s done)
  GoalOperation-Reported {format = format} (deletes_goal user id expected) s {t = t} h =
      let (gone, done, made) = delete_goal_operation-ok format user id expected s h in
      subst (λ cs. Reported cs s t) (sym made)
        (delete_goal-Reported user id expected s gone.0 gone.1 gone.2 t done)
  GoalOperation-Reported (creates_milestone user milestone) s {t = t} h =
      let (goal, e, rest) = reads-ok (λ u. get_row user milestone.goal_id u.goals) _ s h in
      let (m, done, made) = shaped-ok (create_milestone user milestone) _ s rest in
      subst (λ cs. Reported cs s t) (sym (ap (λ r. r.changes) made))
        (create_milestone-Reported user milestone s done)
  GoalOperation-Reported (updates_milestone user milestone expected) s {t = t} h =
      let (before, e, rest) = reads-ok (λ u. get_row user milestone.id u.milestones) _ s h in
      let candidate = record milestone { goal_id = before.goal_id } in
      let (m, done, made) = shaped-ok (update_milestone user candidate expected) _ s rest in
      subst (λ cs. Reported cs s t) (sym (ap (λ r. r.changes) made))
        (update_milestone-Reported user candidate expected s done)
  GoalOperation-Reported (deletes_milestone user id expected) s {t = t} h =
      let (before, e, rest) = reads-ok (λ u. get_row user id u.milestones) _ s h in
      let (m, done, made) = shaped-ok (delete_milestone user id expected) _ s rest in
      subst (λ cs. Reported cs s t) (sym (ap (λ r. r.changes) made))
        (write_milestone-Reported "delete" user id expected (deleted_milestone s.clock) s
          (λ b. (refl, refl)) done)
