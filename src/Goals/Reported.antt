-- ===== src/Goals/Reported.antt =====
-- The commands of internal/service/goal.go tell the sync feed of every row that they write.
use be_better.Prelude.{
  ℕ, ℤ, pos, ltb_ℤ, wrapped, int32_half, Bool-cases, inl, inr, String, ◌+◌, ◌≡◌, refl, subst, List,
  [], ◌∷◌, ◌++◌, map, All, arith,
}
use be_better.Model.{Uuid, SyncChangeDraft, Result, ok, err}
use be_better.Tasks.Store.{Task}
use be_better.Resources.Rows.{Row, insert_row, write_row, written_rows, returned_rows}
use be_better.Resources.Tracked.{
  Tracked, Tracked-refl, Tracked-write_row, Tracked-insert_row, Tracked-written_rows, Named,
  Named-cons, Named-append_left, Named-append_right, change_of, change_of-Named, All-Named-weaken,
  map-change_of-Named,
}
use be_better.Goals.Store.{
  Goal, GoalMilestone, PlanDb, Numbers, goal_versioned, milestone_versioned, task_versioned,
  on_goals, on_milestones, inserted_goal, rewritten_goal, deleted_goal, deleted_milestone,
  detached_task, milestone_of, task_of, with_attached, stored_goal, create_goal, update_goal,
  delete_goal, create_milestone, inserted_milestone, update_milestone, rewritten_milestone,
  unless_negative, checked_update,
}

-- Every row of the three tables that differs is named by the changes with its new version.
pub record Reported {F : Type 0} (changes : List SyncChangeDraft) (s t : PlanDb F) : Type 0 where
  pub goals : Tracked "goal" changes s.goals t.goals
  pub milestones : Tracked "milestone" changes s.milestones t.milestones
  pub tasks : Tracked "task" changes s.tasks t.tasks

module _ {F : Type 0} where
  on_goals-ok :
      {A : Type 0} (s : PlanDb F) (q : Result A × List (Row (Goal F))) {a : A} {t : PlanDb F}
      → on_goals s q ≡ (ok a, t)
      → (q ≡ (ok a, t.goals)) × (t.milestones ≡ s.milestones) × (t.tasks ≡ s.tasks)
  on_goals-ok s (r, rows) h = (ground arith, ground arith, ground arith)

  on_milestones-ok :
      {A : Type 0} (s : PlanDb F) (q : Result A × List (Row GoalMilestone)) {a : A} {t : PlanDb F}
      → on_milestones s q ≡ (ok a, t)
      → (q ≡ (ok a, t.milestones)) × (t.goals ≡ s.goals) × (t.tasks ≡ s.tasks)
  on_milestones-ok s (r, rows) h = (ground arith, ground arith, ground arith)

  pub delete_goal-ok :
      (user id : Uuid) (expected : ℕ) (s : PlanDb F) {g : Goal F} {ms : List GoalMilestone}
      {ts : List Task} {t : PlanDb F}
      → delete_goal user id expected s ≡ (ok (g, ms, ts), t)
      → (write_row user id expected (deleted_goal s.clock) s.goals ≡ (ok g, t.goals))
        × (ms ≡ returned_rows user (milestone_of id) (deleted_milestone s.clock) s.milestones)
        × (ts ≡ returned_rows user (task_of id) (detached_task s.clock) s.tasks)
        × (t.milestones
            ≡ written_rows user (milestone_of id) (deleted_milestone s.clock) s.milestones)
        × (t.tasks ≡ written_rows user (task_of id) (detached_task s.clock) s.tasks)
  unfolding delete_goal
  delete_goal-ok user id expected s {g = g} {ms = ms} {ts = ts} {t = t} h =
      attached_ok (write_row user id expected (deleted_goal s.clock) s.goals) h
    where
      attached_ok :
          (q : Result (Goal F) × List (Row (Goal F)))
          → with_attached user id s q ≡ (ok (g, ms, ts), t)
          → (q ≡ (ok g, t.goals))
            × (ms ≡ returned_rows user (milestone_of id) (deleted_milestone s.clock) s.milestones)
            × (ts ≡ returned_rows user (task_of id) (detached_task s.clock) s.tasks)
            × (t.milestones
                ≡ written_rows user (milestone_of id) (deleted_milestone s.clock) s.milestones)
            × (t.tasks ≡ written_rows user (task_of id) (detached_task s.clock) s.tasks)
      attached_ok (err e, rows) k = absurd (ground (arith, k))
      attached_ok (ok g', rows) k = (
        ground (arith, k),
        ground (arith, k),
        ground (arith, k),
        ground (arith, k),
        ground (arith, k),
      )

  pub delete_goal-Reported :
      (user id : Uuid) (expected : ℕ) (s : PlanDb F) (g : Goal F) (ms : List GoalMilestone)
      (ts : List Task) (t : PlanDb F)
      → delete_goal user id expected s ≡ (ok (g, ms, ts), t)
      → Reported
          (change_of "goal" "delete" g
            ∷ (map (change_of "milestone" "delete") ms ++ map (change_of "task" "update") ts))
          s
          t
  delete_goal-Reported user id expected s g ms ts t h =
      let (goal, ms_eq, ts_eq, milestones, tasks) = delete_goal-ok user id expected s h in
      let mcs : List SyncChangeDraft = map (change_of "milestone" "delete") ms in
      let tcs : List SyncChangeDraft = map (change_of "task" "update") ts in
      let gone : SyncChangeDraft = change_of "goal" "delete" g in
      record {
        goals =
            Tracked-write_row "goal" (gone ∷ (mcs ++ tcs)) user id expected (deleted_goal s.clock)
              s.goals (λ b. (refl, refl)) goal (change_of-Named "goal" "delete" g (mcs ++ tcs));
        milestones = rw milestones (
            Tracked-written_rows "milestone" (gone ∷ (mcs ++ tcs)) user (milestone_of id)
              (deleted_milestone s.clock) s.milestones
              (subst (All (Named "milestone" (gone ∷ (mcs ++ tcs)))) ms_eq (
                All-Named-weaken "milestone" mcs (gone ∷ (mcs ++ tcs)) ms
                  (λ a n.
                    Named-cons "milestone" gone (mcs ++ tcs) a
                      (Named-append_left "milestone" mcs tcs a n))
                  (map-change_of-Named "milestone" "delete" ms))));
        tasks = rw tasks (
            Tracked-written_rows "task" (gone ∷ (mcs ++ tcs)) user (task_of id)
              (detached_task s.clock) s.tasks
              (subst (All (Named "task" (gone ∷ (mcs ++ tcs)))) ts_eq (
                All-Named-weaken "task" tcs (gone ∷ (mcs ++ tcs)) ts
                  (λ a n.
                    Named-cons "task" gone (mcs ++ tcs) a (Named-append_right "task" mcs tcs a n))
                  (map-change_of-Named "task" "update" ts))));
      }

  -- A statement on the goals, and one on the milestones.
  on_goals-Reported :
      (changes : List SyncChangeDraft) (s : PlanDb F) (q : Result (Goal F) × List (Row (Goal F)))
      {g : Goal F} {t : PlanDb F}
      → on_goals s q ≡ (ok g, t)
      → (q ≡ (ok g, t.goals) → Tracked "goal" changes s.goals t.goals)
      → Reported changes s t
  on_goals-Reported changes s q h tracked =
      let (done, milestones, tasks) = on_goals-ok s q h in
      record {
        goals = tracked done;
        milestones = rw milestones (Tracked-refl "milestone" changes s.milestones);
        tasks = rw tasks (Tracked-refl "task" changes s.tasks);
      }

  on_milestones-Reported :
      (changes : List SyncChangeDraft) (s : PlanDb F)
      (q : Result GoalMilestone × List (Row GoalMilestone)) {m : GoalMilestone} {t : PlanDb F}
      → on_milestones s q ≡ (ok m, t)
      → (q ≡ (ok m, t.milestones) → Tracked "milestone" changes s.milestones t.milestones)
      → Reported changes s t
  on_milestones-Reported changes s q h tracked =
      let (done, goals, tasks) = on_milestones-ok s q h in
      record {
        goals = rw goals (Tracked-refl "goal" changes s.goals);
        milestones = tracked done;
        tasks = rw tasks (Tracked-refl "task" changes s.tasks);
      }

  pub create_goal-Reported :
      (numbers : Numbers F) (user : Uuid) (goal : Goal F) (s : PlanDb F) {g : Goal F} {t : PlanDb F}
      → create_goal numbers user goal s ≡ (ok g, t)
      → Reported (change_of "goal" "create" g ∷ []) s t
  unfolding create_goal
  create_goal-Reported numbers user goal s {g = g} {t = t} h = stored (stored_goal numbers goal) h
    where
      stored :
          (r : Result (Goal F))
          → elim r [
            | err e ↦ (err e, s)
            | ok a ↦ on_goals s (insert_row user (inserted_goal s.clock a) s.goals)
          ]
            ≡ (ok g, t)
          → Reported (change_of "goal" "create" g ∷ []) s t
      stored (err e) k = absurd (ground (arith, k))
      stored (ok a) k =
          on_goals-Reported (change_of "goal" "create" g ∷ []) s
            (insert_row user (inserted_goal s.clock a) s.goals) k
            λ done.
              Tracked-insert_row "goal" (change_of "goal" "create" g ∷ []) user
                (inserted_goal s.clock a) s.goals done (change_of-Named "goal" "create" g [])

  pub update_goal-Reported :
      (numbers : Numbers F) (user : Uuid) (goal : Goal F) (expected : ℕ) (s : PlanDb F) {g : Goal F}
      {t : PlanDb F}
      → update_goal numbers user goal expected s ≡ (ok g, t)
      → Reported (change_of "goal" "update" g ∷ []) s t
  unfolding update_goal
  update_goal-Reported numbers user goal expected s {g = g} {t = t} h =
      stored (stored_goal numbers goal) h
    where
      stored :
          (r : Result (Goal F))
          → elim r [
            | err e ↦ (err e, s)
            | ok a ↦ on_goals s (write_row user goal.id expected (rewritten_goal a s.clock) s.goals)
          ]
            ≡ (ok g, t)
          → Reported (change_of "goal" "update" g ∷ []) s t
      stored (err e) k = absurd (ground (arith, k))
      stored (ok a) k =
          on_goals-Reported (change_of "goal" "update" g ∷ []) s
            (write_row user goal.id expected (rewritten_goal a s.clock) s.goals) k
            λ done.
              Tracked-write_row "goal" (change_of "goal" "update" g ∷ []) user goal.id expected
                (rewritten_goal a s.clock) s.goals (λ b. (refl, refl)) done
                (change_of-Named "goal" "update" g [])

  unless_negative-ok :
      (order : ℤ) (s : PlanDb F) (q : Result GoalMilestone × List (Row GoalMilestone))
      {m : GoalMilestone} {rows : List (Row GoalMilestone)}
      → unless_negative order s q ≡ (ok m, rows)
      → q ≡ (ok m, rows)
  unless_negative-ok order s q h = elim (Bool-cases (ltb_ℤ order (pos 0))) [
    | inl e ↦ absurd (ground (arith, e, h))
    | inr e ↦ ground (arith, e, h)
  ]

  checked_update-ok :
      (order : ℤ) (s : PlanDb F) (q : Result GoalMilestone × List (Row GoalMilestone))
      {m : GoalMilestone} {rows : List (Row GoalMilestone)}
      → checked_update order s q ≡ (ok m, rows)
      → q ≡ (ok m, rows)
  checked_update-ok order s (err e, rows) h = absurd (ground (arith, h))
  checked_update-ok order s (ok a, rows) h = unless_negative-ok order s (ok a, rows) h

  pub create_milestone-Reported :
      (user : Uuid) (milestone : GoalMilestone) (s : PlanDb F) {m : GoalMilestone} {t : PlanDb F}
      → create_milestone user milestone s ≡ (ok m, t)
      → Reported (change_of "milestone" "create" m ∷ []) s t
  unfolding create_milestone
  create_milestone-Reported user milestone s {m = m} h =
      on_milestones-Reported (change_of "milestone" "create" m ∷ []) s
        (unless_negative (wrapped int32_half milestone.sort_order) s
          (insert_row user (inserted_milestone s.clock milestone) s.milestones))
        h
        λ done.
          Tracked-insert_row "milestone" (change_of "milestone" "create" m ∷ []) user
            (inserted_milestone s.clock milestone) s.milestones
            (unless_negative-ok (wrapped int32_half milestone.sort_order) s _ done)
            (change_of-Named "milestone" "create" m [])

  -- A versioned write of a milestone, whatever it writes.
  pub write_milestone-Reported :
      (operation : String) (user id : Uuid) (expected : ℕ) (f : GoalMilestone → GoalMilestone)
      (s : PlanDb F) {m : GoalMilestone} {t : PlanDb F}
      → ((b : GoalMilestone) → ((f b).id ≡ b.id) × ((f b).version ≡ b.version + 1))
      → on_milestones s (write_row user id expected f s.milestones) ≡ (ok m, t)
      → Reported (change_of "milestone" operation m ∷ []) s t
  write_milestone-Reported operation user id expected f s {m = m} keeps h =
      on_milestones-Reported (change_of "milestone" operation m ∷ []) s
        (write_row user id expected f s.milestones) h
        λ done.
          Tracked-write_row "milestone" (change_of "milestone" operation m ∷ []) user id expected f
            s.milestones keeps done (change_of-Named "milestone" operation m [])

  pub update_milestone-Reported :
      (user : Uuid) (milestone : GoalMilestone) (expected : ℕ) (s : PlanDb F) {m : GoalMilestone}
      {t : PlanDb F}
      → update_milestone user milestone expected s ≡ (ok m, t)
      → Reported (change_of "milestone" "update" m ∷ []) s t
  unfolding update_milestone
  update_milestone-Reported user milestone expected s {m = m} h =
      let order = wrapped int32_half milestone.sort_order in
      on_milestones-Reported (change_of "milestone" "update" m ∷ []) s
        (checked_update order s (
          write_row user milestone.id expected (rewritten_milestone milestone s.clock)
            s.milestones))
        h
        λ done.
          Tracked-write_row "milestone" (change_of "milestone" "update" m ∷ []) user milestone.id
            expected (rewritten_milestone milestone s.clock) s.milestones (λ b. (refl, refl))
            (checked_update-ok order s _ done) (change_of-Named "milestone" "update" m [])
