-- ===== src/Tasks/Service.antt =====
-- The methods of `TaskService` in internal/service/task.go. Each round of a transaction starts from
-- the candidate of the request. The closure of `Update` keeps, for a later round, the completion time
-- that it took over in an earlier one. This is left out: a later round writes only at the expected
-- version, and where the earlier round read that version too, it takes the same time over again.
use be_better.Prelude.{
  ℕ, suc, String, ◌=ˢ◌, true, false, not, ◌&&◌, ◌||◌, Option, none, some, List, [], ◌∷◌, ltb,
  if◌then◌else◌, take, length,
}
use be_better.Model.{Uuid, is_nil, ResourcePosition, validation, Result, ok, err}
use be_better.Exec.{Tx}
use be_better.Database.Transaction.{Attempt, with_user, default_attempts}
use be_better.Store.{Db}
use be_better.Command.{CommandRequest, CommandResponse, execute, on_resources}
use be_better.Pagination.{encode_position, decode_position}
use be_better.Tasks.{
  TaskInput, TaskFormat, MutationContext, TaskService, TaskPage, valid_task_status,
  apply_task_input, validate_task, create_operation, update_operation, delete_operation,
}
use be_better.Tasks.Store.{Task, TaskTable, get_task, list_tasks}

-- `maxResourcePageSize`
abbrev pub max_resource_page_size : ℕ
max_resource_page_size = 100

-- `resourceCommand`
abbrev pub resource_command : MutationContext → String → List ℕ → CommandRequest
resource_command mutation name payload = record {
  user_id = mutation.user_id;
  device_id = mutation.device_id;
  mutation_id = mutation.mutation_id;
  request_id = mutation.request_id;
  command_name = name;
  request_body = payload;
}

-- `decodeTaskResponse`
abbrev pub decode_task_response : TaskFormat → Result CommandResponse → Result Task
decode_task_response format (err e) = err e
decode_task_response format (ok response) = format.read_task response.body

abbrev pub on_result : {S A B : Type 0} → (Result A → Result B) → Result A × S → Result B × S
on_result f (r, s) = (f r, s)

abbrev pub or_new : Uuid → Option Uuid → Uuid
or_new fresh none = fresh
or_new fresh (some id) = id

abbrev pub status_filter : String → Option String
status_filter status = if status =ˢ "" then none else some status

module _ (service : TaskService) where
  open service use {format, commands, cursors, new_uuid, now}

  -- `TaskService.Create`
  unfoldable pub create :
      (ℕ → Attempt (Db TaskTable)) → MutationContext → TaskInput → Tx (Db TaskTable) Task
  create env mutation input s =
      let task = apply_task_input now (or_new new_uuid input.id) input in
      elim (validate_task task) [
        | err e ↦ (err e, s)
        | ok _ ↦ on_result (decode_task_response format) (
            execute commands env
              (resource_command mutation "task.create" (format.create_payload input))
              (create_operation format mutation.user_id task) s)
      ]

  -- `TaskService.Update`
  unfoldable pub update :
      (ℕ → Attempt (Db TaskTable)) → MutationContext → Uuid → ℕ → TaskInput → Tx (Db TaskTable) Task
  update env mutation id expected input s =
      let candidate = apply_task_input now id input in
      if is_nil id || ltb expected 1 then (err validation, s) else elim (validate_task candidate) [
        | err e ↦ (err e, s)
        | ok _ ↦ on_result (decode_task_response format) (
            execute commands env
              (resource_command mutation "task.update" (format.update_payload id expected input))
              (update_operation format mutation.user_id candidate expected) s)
      ]

  abbrev no_value : {A : Type 0} → Result A → Result (Unit {0})
  no_value (err e) = err e
  no_value (ok a) = ok tt

  -- `TaskService.Delete`
  unfoldable pub delete :
      (ℕ → Attempt (Db TaskTable)) → MutationContext → Uuid → ℕ → Tx (Db TaskTable) (Unit {0})
  delete env mutation id expected s =
      if is_nil id || ltb expected 1
      then (err validation, s)
      else on_result no_value (
          execute commands env
            (resource_command mutation "task.delete" (format.delete_payload id expected))
            (delete_operation format mutation.user_id id expected) s)

  -- `TaskService.Get`
  unfoldable pub get : (ℕ → Attempt (Db TaskTable)) → Uuid → Uuid → Tx (Db TaskTable) Task
  get env user id s =
      with_user default_attempts env user (λ round. on_resources (get_task user id)) s

  abbrev position_of : Task → ResourcePosition
  position_of task = record { updated_at = task.updated_at; id = task.id }

  abbrev last_task : Task → List Task → Task
  last_task d [] = d
  last_task d (t ∷ ts) = last_task t ts

  abbrev next_page : Uuid → String → List Task → Result (Option (List ℕ))
  next_page user scope [] = ok none
  next_page user scope (t ∷ ts) =
      elim (encode_position cursors user scope (position_of (last_task t ts))) [
        | err e ↦ err e
        | ok cursor ↦ ok (some cursor)
      ]

  abbrev page_of : Uuid → String → ℕ → Result (List Task) → Result TaskPage
  page_of user scope page_size (err e) = err e
  page_of user scope page_size (ok tasks) =
      if ltb page_size (length tasks)
      then elim (next_page user scope (take page_size tasks)) [
        | err e ↦ err e
        | ok next ↦
            ok (record { tasks = take page_size tasks; next_cursor = next; has_more = true })
      ]
      else ok (record { tasks = tasks; next_cursor = none; has_more = false })

  abbrev after_cursor : Uuid → String → List ℕ → Result (Option ResourcePosition)
  after_cursor user scope [] = ok none
  after_cursor user scope (b ∷ bs) = elim (decode_position cursors user scope (b ∷ bs)) [
    | err e ↦ err e
    | ok position ↦ ok (some position)
  ]

  -- `TaskService.List`, where `scope` is `"tasks:" + status`.
  unfoldable pub list :
      (ℕ → Attempt (Db TaskTable))
      → Uuid
      → String
      → String
      → List ℕ
      → ℕ
      → Tx (Db TaskTable) TaskPage
  list env user status scope cursor page_size s =
      if ltb page_size 1 || ltb max_resource_page_size page_size
      then (err validation, s)
      else if not (status =ˢ "") && not (valid_task_status status)
      then (err validation, s)
      else elim (after_cursor user scope cursor) [
        | err e ↦ (err e, s)
        | ok after ↦ on_result (page_of user scope page_size) (
            with_user default_attempts env user
              (λ round. on_resources (list_tasks user (status_filter status) after (suc page_size)))
              s)
      ]
