-- ===== src/Tasks/Sound.antt =====
-- What stays true of the tasks that internal/service/task.go stores.
use be_better.Prelude.{
  ℕ, ℤ, pos, ltb_ℤ, wrapped, int32_half, ◌≡◌, refl, ap, ◌∙◌, subst, false, ◌&&◌, ◌=ˢ◌, true, Option,
  none, some, List, [], ◌∷◌, All, arith, ◌==◌, Option-cases, Bool-cases, sym, inl, inr, is_some,
  found_here,
}
use be_better.Model.{Uuid, Time, Result, ok, err}
use be_better.Exec.{Tx, pure, continue, ◌>>=◌}
use be_better.Tasks.{
  TaskInput, TaskFormat, apply_task_input, validate_task, kept_completion, create_operation,
  update_operation, delete_operation,
}
use be_better.Tasks.Store.{
  Task, TaskRow, TaskTable, is_live, id_taken, find_live, rewrite, inserted, rewritten, deleted,
  fails_check, create_task, get_task, update_task, delete_task, write_task,
}

-- A task passes `validateTask`, and has a completion time exactly if it is done.
pub record Sound (task : Task) : Type 0 where
  pub valid : validate_task task ≡ ok tt
  pub completed : is_some task.completed_at ≡ (task.status =ˢ "done")

abbrev pub AllSound : TaskTable → Type 0
AllSound s = All (λ row. Sound row.task) s.rows

-- What the service accepts is sound.
apply_task_input-Sound :
    (now : Time) (id : Uuid) (input : TaskInput)
    → validate_task (apply_task_input now id input) ≡ ok tt
    → Sound (apply_task_input now id input)
unfolding apply_task_input
apply_task_input-Sound now id input h = record { valid = h; completed = ground arith }

find_live-Sound :
    (user id : Uuid) (rows : List TaskRow) (task : Task)
    → All (λ row. Sound row.task) rows
    → find_live user id rows ≡ some task
    → Sound task
find_live-Sound user id [] task h e = absurd (cc e)
find_live-Sound user id (r ∷ rs) task h e =
    elim (found_here (is_live user id r) r.task (find_live user id rs) e) [
      | inl here ↦ subst Sound here h.0
      | inr later ↦ find_live-Sound user id rs task h.1 later
    ]

rewrite-Sound :
    (user id : Uuid) (expected : ℕ) (f : Task → Task) (rows : List TaskRow)
    → ((task : Task) → find_live user id rows ≡ some task → Sound (f task))
    → All (λ row. Sound row.task) rows
    → All (λ row. Sound row.task) (rewrite user id expected f rows)
rewrite-Sound user id expected f [] hf h = tt
rewrite-Sound user id expected f (r ∷ rs) hf h = elim (Bool-cases (is_live user id r)) [
  | inl k ↦ rw k (elim (Bool-cases (r.task.version == expected)) [
    | inl v ↦ rw v (hf r.task (rw k refl), h.1)
    | inr v ↦ rw v h
  ])
  | inr k ↦ rw k (h.0, rewrite-Sound user id expected f rs (λ t e. hf t (rw k e)) h.1)
]

Sound-estimate :
    (task : Task) (estimate : ℤ)
    → Sound task
    → ltb_ℤ estimate (pos 0) ≡ false
    → Sound (record task { estimate_minutes = estimate })
unfolding validate_task
Sound-estimate task estimate h nonneg = record {
  valid = ground (arith, h.valid, nonneg);
  completed = h.completed;
}

inserted-Sound :
    (now : Time) (task : Task)
    → Sound task
    → fails_check (inserted now task) ≡ false
    → Sound (inserted now task)
unfolding validate_task
inserted-Sound now task h passes =
    let cut = Sound-estimate task (wrapped int32_half task.estimate_minutes) h passes in
    record { valid = cut.valid; completed = cut.completed }

deleted-Sound : (now : Time) (task : Task) → Sound task → Sound (deleted now task)
unfolding validate_task
deleted-Sound now task h = record { valid = h.valid; completed = h.completed }

rewritten-Sound :
    (now : Time) (task old : Task)
    → Sound task
    → fails_check (rewritten task now old) ≡ false
    → Sound (rewritten task now old)
unfolding validate_task
rewritten-Sound now task old h passes =
    let cut = Sound-estimate task (wrapped int32_half task.estimate_minutes) h passes in
    record { valid = cut.valid; completed = cut.completed }

completed_again :
    (task : Task) (at : Option Time)
    → Sound task
    → is_some at ≡ true
    → (task.status =ˢ "done") ≡ true
    → Sound (record task { completed_at = at })
unfolding validate_task
completed_again task none h hs hd = absurd (cc hs)
completed_again task (some t) h hs hd = record {
  valid = ground (arith, h.valid, h.completed);
  completed = ground (arith, hd);
}

kept_completion-Sound :
    (candidate before : Task)
    → Sound candidate
    → Sound before
    → Sound (kept_completion candidate before)
unfolding validate_task
kept_completion-Sound candidate before hc hb =
    elim (Bool-cases (candidate.status =ˢ "done" && before.status =ˢ "done")) [
      | inl k ↦ rw k (
          completed_again candidate before.completed_at hc (ground (arith, k, hb.completed))
            (ground (arith, k)))
      | inr k ↦ rw k hc
    ]

-- A last step that only shapes the result leaves the state.
state-shaped :
    {S A B : Type 0} (m : Tx S A) (g : A → B) (s : S) → ((m >>= λ a. pure (g a)) s).1 ≡ (m s).1
unfolding ◌>>=◌
state-shaped {S = S} {A = A} m g s = shaped (m s)
  where
    shaped : (r : Result A × S) → (continue r (λ a s'. (ok (g a), s'))).1 ≡ r.1
    shaped (ok a, s1) = refl
    shaped (err e, s1) = refl

module _ (user : Uuid) where
  write_task-AllSound :
      (id : Uuid) (expected : ℕ) (f : Time → Task → Task) (s : TaskTable)
      → ((now : Time) (task : Task)
          → Sound task
          → fails_check (f now task) ≡ false
          → Sound (f now task))
      → AllSound s
      → AllSound (write_task user id expected f s).1
  unfolding write_task
  write_task-AllSound id expected f s hf h = elim (Option-cases (find_live user id s.rows)) [
    | inl e ↦ rw (e, write_task) h
    | inr (task, e) ↦
        rw (e, write_task)
          (elim (Bool-cases (task.version == expected)) [
            | inl v ↦ elim (Bool-cases (fails_check (f s.clock task))) [
              | inl bad ↦ simp (v, bad) h
              | inr good ↦
                  simp (v, good)
                    (rewrite-Sound user id expected (f s.clock) s.rows
                      (λ t k.
                        let same : t ≡ task = cc (k, e) in
                        hf s.clock t (find_live-Sound user id s.rows t h k)
                          (ap (λ a. fails_check (f s.clock a)) same ∙ good))
                      h)
            ]
            | inr v ↦ rw v h
          ])
  ]

  get_task-AllSound :
      {B : Type 0} (id : Uuid) (m : Task → Tx TaskTable B) (s : TaskTable)
      → AllSound s
      → ((task : Task) → Sound task → AllSound (m task s).1)
      → AllSound ((get_task user id >>= m) s).1
  unfolding get_task ◌>>=◌
  get_task-AllSound id m s h hm = elim (Option-cases (find_live user id s.rows)) [
    | inl e ↦ rw (e, get_task) h
    | inr (task, e) ↦ rw (e, get_task) (hm task (find_live-Sound user id s.rows task h e))
  ]

  module _ (format : TaskFormat) where
    create_operation-AllSound :
        (task : Task) (s : TaskTable)
        → Sound task
        → AllSound s
        → AllSound (create_operation format user task s).1
    unfolding create_operation create_task
    create_operation-AllSound task s ht h =
        subst AllSound (sym (state-shaped (create_task user task) _ s))
          (elim (Bool-cases (id_taken task.id s.rows)) [
            | inl e ↦ elim (Bool-cases (fails_check (inserted s.clock task))) [
              | inl bad ↦ simp (e, bad) h
              | inr good ↦ simp (e, good) h
            ]
            | inr e ↦ elim (Bool-cases (fails_check (inserted s.clock task))) [
              | inl bad ↦ simp (e, bad) h
              | inr good ↦ simp (e, good) (inserted-Sound s.clock task ht good, h)
            ]
          ])

    update_operation-AllSound :
        (candidate : Task) (expected : ℕ) (s : TaskTable)
        → Sound candidate
        → AllSound s
        → AllSound (update_operation format user candidate expected s).1
    unfolding update_operation update_task
    update_operation-AllSound candidate expected s ht h =
        get_task-AllSound candidate.id _ s h λ before hb.
          subst AllSound
            (sym (state-shaped (update_task user (kept_completion candidate before) expected) _ s))
            (write_task-AllSound (kept_completion candidate before).id expected
              (rewritten (kept_completion candidate before)) s
              (λ now old ho passes.
                rewritten-Sound now (kept_completion candidate before) old
                  (kept_completion-Sound candidate before ht hb) passes)
              h)

    delete_operation-AllSound :
        (id : Uuid) (expected : ℕ) (s : TaskTable)
        → AllSound s
        → AllSound (delete_operation format user id expected s).1
    unfolding delete_operation delete_task
    delete_operation-AllSound id expected s h = get_task-AllSound id _ s h λ before hb.
        subst AllSound (sym (state-shaped (delete_task user id expected) _ s)) (
          write_task-AllSound id expected deleted s (λ now old ho passes. deleted-Sound now old ho)
            h)

    -- The three commands keep every stored task valid, and completed exactly if it is done: with an
    -- input that passes the service's checks, whether they succeed or not, and whatever the cut of
    -- the estimate to 32 bits makes of it; a task that was done and stays done keeps a completion
    -- time.
    pub operations-AllSound :
        (now : Time) (id : Uuid) (input : TaskInput) (expected : ℕ) (s : TaskTable)
        → validate_task (apply_task_input now id input) ≡ ok tt
        → AllSound s
        → AllSound (create_operation format user (apply_task_input now id input) s).1
          × AllSound (update_operation format user (apply_task_input now id input) expected s).1
          × AllSound (delete_operation format user id expected s).1
    operations-AllSound now id input expected s ok_input h =
        let candidate = apply_task_input-Sound now id input ok_input in
        (
          create_operation-AllSound (apply_task_input now id input) s candidate h,
          update_operation-AllSound (apply_task_input now id input) expected s candidate h,
          delete_operation-AllSound id expected s h,
        )
