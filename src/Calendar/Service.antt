-- ===== src/Calendar/Service.antt =====
-- The methods of `CalendarService` in internal/service/calendar.go. `fresh` is what `newUUID` returns
-- for each reminder of the request, and `visit` the order in which Go visits a map.
use Prim.Native.String.{◌++◌}
use be_better.Prelude.{
  ℕ, suc, String, Bool, false, ◌||◌, Option, none, some, List, ltb, if◌then◌else◌, take,
}
use be_better.Model.{Uuid, Time, is_nil, ResourcePosition, validation, ok, err}
use be_better.Exec.{Tx, pure, ◌>>=◌}
use be_better.Database.Transaction.{Attempt, with_user, default_attempts}
use be_better.Store.{Db}
use be_better.Command.{CommandService, execute, on_resources}
use be_better.Pagination.{ResourceCursorCodec}
use be_better.Tasks.{MutationContext}
use be_better.Tasks.Service.{resource_command, or_new}
use be_better.Resources.Service.{
  Page, after_cursor, page_of, bad_page_size, decoded, no_value, on_result,
}
use be_better.Calendar.Store.{CalendarEvent, CalendarReminder, CalendarDb, get_event, listed_events}
use be_better.Calendar.Reminders.{list_reminders}
use be_better.Calendar.{
  CalendarEventInput, CalendarEventResult, CalendarFormat, event_from_input, validate_event,
  validate_reminder_inputs,
}
use be_better.Calendar.Operations.{
  create_event_operation, update_event_operation, delete_event_operation,
}

pub record CalendarService : Type 0 where
  pub format : CalendarFormat
  pub commands : CommandService CalendarDb
  pub cursors : ResourceCursorCodec
  pub new_uuid : Uuid
  pub fresh : ℕ → Uuid
  pub visit : List CalendarReminder → List CalendarReminder

abbrev pub position_of_event : CalendarEvent → ResourcePosition
position_of_event event = record { updated_at = event.start_at; id = event.id }

-- `start != nil && end != nil && end.Before(*start)`
abbrev pub bad_window : Option Time → Option Time → Bool
bad_window none end = false
bad_window (some start) none = false
bad_window (some start) (some end) = ltb end start

module _ (service : CalendarService) (env : ℕ → Attempt (Db CalendarDb)) where
  open service use {format, commands, cursors, new_uuid, fresh, visit}

  -- `CalendarService.Create`, which checks its reminders twice.
  unfoldable pub create :
      MutationContext → CalendarEventInput → Tx (Db CalendarDb) CalendarEventResult
  create mutation input s =
      let event = event_from_input (or_new new_uuid input.id) input in
      elim (validate_event format event) [
        | err e ↦ (err e, s)
        | ok _ ↦ elim (validate_reminder_inputs input.reminders) [
          | err e ↦ (err e, s)
          | ok _ ↦ on_result (decoded format.read_result) (
              execute commands env
                (resource_command mutation "calendar_event.create" (format.create_payload input))
                (create_event_operation format fresh mutation.user_id event input.reminders) s)
        ]
      ]

  abbrev event_with_reminders : Uuid → Uuid → Tx CalendarDb CalendarEventResult
  event_with_reminders user id = do
    event ← get_event user id
    reminders ← list_reminders format.before user id
    pure (record { event = event; reminders = reminders })

  -- `CalendarService.Get`
  unfoldable pub get : Uuid → Uuid → Tx (Db CalendarDb) CalendarEventResult
  get user id =
      with_user default_attempts env user (λ round. on_resources (event_with_reminders user id))

  -- `"calendar-events:" + optionalTimeScope(start) + ":" + optionalTimeScope(end)`
  abbrev list_scope : Option Time → Option Time → String
  list_scope start end =
      "calendar-events:" ++ (format.time_scope start ++ (":" ++ format.time_scope end))

  -- `CalendarService.List`
  unfoldable pub list :
      Uuid → Option Time → Option Time → List ℕ → ℕ → Tx (Db CalendarDb) (Page CalendarEvent)
  list user start end cursor limit s =
      if bad_page_size limit || bad_window start end
      then (err validation, s)
      else elim (after_cursor cursors user (list_scope start end) cursor) [
        | err e ↦ (err e, s)
        | ok after ↦
            on_result (page_of cursors position_of_event user (list_scope start end) limit) (
              with_user default_attempts env user
                (λ round.
                  on_resources
                    λ t. (ok (take (suc limit) (listed_events user start end after t)), t))
                s)
      ]

  -- `CalendarService.Update`
  unfoldable pub update :
      MutationContext → Uuid → ℕ → CalendarEventInput → Tx (Db CalendarDb) CalendarEventResult
  update mutation id expected input s =
      let event = event_from_input id input in
      if is_nil id || ltb expected 1
      then (err validation, s)
      else elim (validate_event format event) [
        | err e ↦ (err e, s)
        | ok _ ↦ on_result (decoded format.read_result) (
            execute commands env
              (resource_command mutation "calendar_event.update"
                (format.update_payload id expected input))
              (update_event_operation format fresh visit mutation.user_id event expected
                input.reminders)
              s)
      ]

  -- `CalendarService.Delete`
  unfoldable pub delete : MutationContext → Uuid → ℕ → Tx (Db CalendarDb) (Unit {0})
  delete mutation id expected s =
      if is_nil id || ltb expected 1
      then (err validation, s)
      else on_result no_value (
          execute commands env
            (resource_command mutation "calendar_event.delete" (format.delete_payload id expected))
            (delete_event_operation format mutation.user_id id expected) s)
