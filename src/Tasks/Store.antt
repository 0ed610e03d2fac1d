-- ===== src/Tasks/Store.antt =====
-- internal/postgres/task_repository.go over dayorder.tasks, with the task of internal/model/task.go.
-- Foreign keys to goals and records are not modelled.
use be_better.Prelude.{
  ℕ, ◌+◌, ℤ, pos, ltb_ℤ, wrapped, int32_half, String, ◌=ˢ◌, Bool, true, false, not, ◌&&◌, ◌||◌,
  Option, none, some, List, [], ◌∷◌, ltb, ◌==◌, if◌then◌else◌, take, is_some,
}
use be_better.Model.{Uuid, Time, ResourcePosition, not_found, conflict, postgres, ok, err}
use be_better.Exec.{Tx}

pub record Task : Type 0 where
  pub id : Uuid
  pub title : String
  pub status : String
  pub priority : String
  pub estimate_minutes : ℤ
  pub due_at : Option Time
  pub scheduled_start : Option Time
  pub scheduled_end : Option Time
  pub goal_id : Option Uuid
  pub source_record_id : Option Uuid
  pub completed_at : Option Time
  pub version : ℕ
  pub created_at : Time
  pub updated_at : Time
  pub deleted_at : Option Time

pub record TaskRow : Type 0 where
  pub user_id : Uuid
  pub task : Task

-- The table, and now() of the transaction.
pub record TaskTable : Type 0 where
  pub rows : List TaskRow
  pub clock : Time

abbrev pub id_taken : Uuid → List TaskRow → Bool
id_taken id [] = false
id_taken id (r ∷ rs) = r.task.id == id || id_taken id rs

-- `user_id = ... AND id = ... AND deleted_at IS NULL`
abbrev pub is_live : Uuid → Uuid → TaskRow → Bool
is_live user id row = row.user_id == user && row.task.id == id && not (is_some row.task.deleted_at)

abbrev pub find_live : Uuid → Uuid → List TaskRow → Option Task
find_live user id [] = none
find_live user id (r ∷ rs) =
    let rest = find_live user id rs in if is_live user id r then some r.task else rest

-- The first live row that has the version, rewritten.
abbrev pub rewrite : Uuid → Uuid → ℕ → (Task → Task) → List TaskRow → List TaskRow
rewrite user id expected f [] = []
rewrite user id expected f (r ∷ rs) =
    let rest = rewrite user id expected f rs in
    if is_live user id r
    then (if r.task.version == expected then record r { task = f r.task } ∷ rs else r ∷ rs)
    else r ∷ rest

-- The columns of `CreateTask`, `int32(task.EstimateMinutes)` among them, and the defaults of the
-- others.
abbrev pub inserted : Time → Task → Task
inserted now task = record task {
  estimate_minutes = wrapped int32_half task.estimate_minutes;
  version = 1;
  created_at = now;
  updated_at = now;
  deleted_at = none;
}

-- `UpdateTask`, with `int32(task.EstimateMinutes)`
abbrev pub rewritten : Task → Time → Task → Task
rewritten task now old = record old {
  title = task.title;
  status = task.status;
  priority = task.priority;
  estimate_minutes = wrapped int32_half task.estimate_minutes;
  due_at = task.due_at;
  scheduled_start = task.scheduled_start;
  scheduled_end = task.scheduled_end;
  goal_id = task.goal_id;
  source_record_id = task.source_record_id;
  completed_at = task.completed_at;
  version = old.version + 1;
  updated_at = now;
}

-- `SoftDeleteTask`
abbrev pub deleted : Time → Task → Task
deleted now old = record old { deleted_at = some now; version = old.version + 1; updated_at = now }

-- A row that tasks_estimate_minutes_check refuses; the service's validation gives the other checks.
abbrev pub fails_check : Task → Bool
fails_check task = ltb_ℤ task.estimate_minutes (pos 0)

-- `TaskRepository.CreateTask`
unfoldable pub create_task : Uuid → Task → Tx TaskTable Task
create_task user task s =
    let row = inserted s.clock task in
    if fails_check row
    then (err (postgres "23514"), s)
    else if id_taken task.id s.rows
    then (err conflict, s)
    else (ok row, record s { rows = record { user_id = user; task = row } ∷ s.rows })

-- `TaskRepository.GetTask`
unfoldable pub get_task : Uuid → Uuid → Tx TaskTable Task
get_task user id s = elim (find_live user id s.rows) [
  | none ↦ (err not_found, s)
  | some task ↦ (ok task, s)
]

-- A versioned write, with `taskWriteError` where no row has the version.
unfoldable pub write_task : Uuid → Uuid → ℕ → (Time → Task → Task) → Tx TaskTable Task
write_task user id expected f s = elim (find_live user id s.rows) [
  | none ↦ (err not_found, s)
  | some task ↦
      if not (task.version == expected)
      then (err conflict, s)
      else if fails_check (f s.clock task)
      then (err (postgres "23514"), s)
      else (ok (f s.clock task), record s { rows = rewrite user id expected (f s.clock) s.rows })
]

-- `TaskRepository.UpdateTask`
unfoldable pub update_task : Uuid → Task → ℕ → Tx TaskTable Task
update_task user task expected = write_task user task.id expected (rewritten task)

-- `TaskRepository.DeleteTask`
unfoldable pub delete_task : Uuid → Uuid → ℕ → Tx TaskTable Task
delete_task user id expected = write_task user id expected deleted

-- `ORDER BY updated_at DESC, id DESC`
abbrev pub newer : Task → Task → Bool
newer a b = ltb b.updated_at a.updated_at || a.updated_at == b.updated_at && ltb b.id a.id

abbrev pub insert_task : Task → List Task → List Task
insert_task t [] = t ∷ []
insert_task t (u ∷ us) = let rest = insert_task t us in if newer u t then u ∷ rest else t ∷ u ∷ us

abbrev pub passes : Option String → Option ResourcePosition → Task → Bool
passes status after t = elim status [ none ↦ true | some s ↦ t.status =ˢ s ] && elim after [
  | none ↦ true
  | some p ↦ ltb t.updated_at p.updated_at || t.updated_at == p.updated_at && ltb t.id p.id
]

abbrev pub selected : Uuid → Option String → Option ResourcePosition → List TaskRow → List Task
selected user status after [] = []
selected user status after (r ∷ rs) =
    let rest = selected user status after rs in
    if r.user_id == user && not (is_some r.task.deleted_at) && passes status after r.task
    then insert_task r.task rest
    else rest

-- `TaskRepository.ListTasks`
unfoldable pub list_tasks :
    Uuid → Option String → Option ResourcePosition → ℕ → Tx TaskTable (List Task)
list_tasks user status after limit s = (ok (take limit (selected user status after s.rows)), s)
