-- ===== src/Calendar/Operations.antt =====
-- The operations that internal/service/calendar.go hands to executeResourceCommand.
use be_better.Prelude.{
  ℕ, suc, pos, String, Bool, not, none, some, List, [], ◌∷◌, ◌++◌, map, find_first, select_rows,
}
use be_better.Model.{Uuid, RawMessage, empty, document, SyncChangeDraft, OutboxDraft}
use be_better.Exec.{Tx, pure, ◌>>=◌}
use be_better.Command.{CommandResult}
use be_better.Resources.Tracked.{change_of}
use be_better.Resources.Service.{audit_of, entity}
use be_better.Calendar.Store.{
  CalendarEvent, CalendarReminder, CalendarDb, event_versioned, reminder_versioned, create_event,
  get_event, update_event, delete_event,
}
use be_better.Calendar.Reminders.{create_reminder, list_reminders, delete_reminder}
use be_better.Calendar.{ReminderInput, CalendarFormat, same_key, key_of, reminder_from_input}

-- The loop of `Create`; `fresh i` is what `newUUID` returns for the input i.
unfoldable pub create_reminders :
    (ℕ → Uuid)
    → ℕ
    → Uuid
    → CalendarEvent
    → List ReminderInput
    → Tx CalendarDb (List CalendarReminder)
create_reminders fresh i user event [] = pure []
create_reminders fresh i user event (input ∷ inputs) = do
  stored ← create_reminder user (reminder_from_input (fresh i) event input)
  rest ← create_reminders fresh (suc i) user event inputs
  pure (stored ∷ rest)

-- `remaining[reminderKey(...)] = reminder`
abbrev pub put : CalendarReminder → List CalendarReminder → List CalendarReminder
put reminder remaining =
    reminder ∷ select_rows (λ r. not (same_key (key_of reminder) (key_of r))) remaining

abbrev pub remaining_of : List CalendarReminder → List CalendarReminder → List CalendarReminder
remaining_of remaining [] = remaining
remaining_of remaining (r ∷ rs) = remaining_of (put r remaining) rs

abbrev pub has_key : ReminderInput → CalendarReminder → Bool
has_key input reminder = same_key input (key_of reminder)

-- `delete(remaining, key)`
abbrev pub without : ReminderInput → List CalendarReminder → List CalendarReminder
without input remaining = select_rows (λ r. not (has_key input r)) remaining

-- A reminder with the operation of its change.
pub record Reconciled : Type 0 where
  pub operation : String
  pub reminder : CalendarReminder

abbrev pub first :
    Reconciled → List Reconciled × List CalendarReminder → List Reconciled × List CalendarReminder
first r (rs, remaining) = (r ∷ rs, remaining)

-- The first loop of `Update`: the reminders of the inputs, and those that remain.
unfoldable pub reconcile :
    (ℕ → Uuid)
    → ℕ
    → Uuid
    → CalendarEvent
    → List ReminderInput
    → List CalendarReminder
    → Tx CalendarDb (List Reconciled × List CalendarReminder)
reconcile fresh i user event [] remaining = pure ([], remaining)
reconcile fresh i user event (input ∷ inputs) remaining =
    elim (find_first (has_key input) remaining) [
      | some reminder ↦ do
        rest ← reconcile fresh (suc i) user event inputs (without input remaining)
        pure (first (record { operation = "update"; reminder = reminder }) rest)
      | none ↦ do
        stored ← create_reminder user (reminder_from_input (fresh i) event input)
        rest ← reconcile fresh (suc i) user event inputs remaining
        pure (first (record { operation = "create"; reminder = stored }) rest)
    ]

-- The second loop of `Update`.
unfoldable pub delete_reminders :
    Uuid → CalendarEvent → List CalendarReminder → Tx CalendarDb (List CalendarReminder)
delete_reminders user event [] = pure []
delete_reminders user event (r ∷ rs) = do
  deleted ← delete_reminder user event.id r.id
  rest ← delete_reminders user event rs
  pure (deleted ∷ rest)

-- `reminderOutbox`
abbrev pub reminder_outbox : CalendarFormat → CalendarReminder → OutboxDraft
reminder_outbox format reminder = record {
  id = 0;
  event_type = "reminder.delivery.requested";
  aggregate_type = "reminder";
  aggregate_id = reminder.id;
  payload = document (format.delivery_json reminder);
  available_at = reminder.scheduled_at;
}

abbrev pub reconciled_change : Reconciled → SyncChangeDraft
reconciled_change r = change_of "reminder" r.operation r.reminder

module _ (format : CalendarFormat) where
  open format use {event_json, result_json, deletion_json, before}

  abbrev event_and : CalendarEvent → List CalendarReminder → RawMessage
  event_and event reminders =
      document (result_json (record { event = event; reminders = reminders }))

  abbrev pub event_result :
      ℕ
      → RawMessage
      → List SyncChangeDraft
      → List OutboxDraft
      → String
      → RawMessage
      → RawMessage
      → Uuid
      → CommandResult
  event_result status body changes outbox action before_data after_data id = record {
    status = pos status;
    body = body;
    changes = changes;
    audits = audit_of action before_data after_data (entity "calendar_event" id ∷ []) ∷ [];
    outbox = outbox;
  }

  -- The operation of `Create`.
  unfoldable pub create_event_operation :
      (ℕ → Uuid) → Uuid → CalendarEvent → List ReminderInput → Tx CalendarDb CommandResult
  create_event_operation fresh user event inputs = do
    created ← create_event user event
    reminders ← create_reminders fresh 0 user created inputs
    pure (
        event_result 201 (event_and created reminders)
          (change_of "calendar_event" "create" created
            ∷ map (change_of "reminder" "create") reminders)
          (map (reminder_outbox format) reminders) "calendar_event.create" empty
          (document (event_json created)) created.id)

  -- The operation of `Update`; `visit` is the order in which Go visits the map.
  unfoldable pub update_event_operation :
      (ℕ → Uuid)
      → (List CalendarReminder → List CalendarReminder)
      → Uuid
      → CalendarEvent
      → ℕ
      → List ReminderInput
      → Tx CalendarDb CommandResult
  update_event_operation fresh visit user event expected inputs = do
    old ← get_event user event.id
    old_reminders ← list_reminders before user event.id
    updated ← update_event user event expected
    done ← reconcile fresh 0 user updated.0 inputs (remaining_of [] updated.1)
    deleted ← delete_reminders user updated.0 (visit done.1)
    let reminders = map (λ r. r.reminder) done.0
    pure (
        event_result 200 (event_and updated.0 reminders)
          (change_of "calendar_event" "update" updated.0
            ∷ (map reconciled_change done.0 ++ map (change_of "reminder" "delete") deleted))
          (map (reminder_outbox format) reminders) "calendar_event.update"
          (event_and old old_reminders) (event_and updated.0 reminders) updated.0.id)

  -- The operation of `Delete`.
  unfoldable pub delete_event_operation : Uuid → Uuid → ℕ → Tx CalendarDb CommandResult
  delete_event_operation user id expected = do
    old ← get_event user id
    gone ← delete_event user id expected
    pure (
        event_result 200 (document (deletion_json gone.0.id gone.0.version))
          (change_of "calendar_event" "delete" gone.0 ∷ map (change_of "reminder" "delete") gone.1)
          [] "calendar_event.delete" (document (event_json old)) (document (event_json gone.0))
          gone.0.id)
