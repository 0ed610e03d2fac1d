-- ===== src/Tests/Calendars.antt =====
-- An event with two reminders, whose reminders change before it is deleted.
use be_better.Prelude.{
  All, ℕ, ◌+◌, ◌*◌, pos, none, [], ◌∷◌, List, ◌≡◌, false, true, refl, any_row, map,
}
use be_better.Model.{Uuid, null, empty, ok, err, failure, hour}
use be_better.Command.{CommandResult}
use be_better.Exec.{◌>>=◌, pure}
use be_better.Resources.Rows.{get_row, write_row, insert_row, returned_rows, attached}
use be_better.Calendar.Store.{
  CalendarEvent, CalendarReminder, CalendarDb, create_event, get_event, delete_event,
  reminder_of_event, reminder_versioned,
}
use be_better.Calendar.Reminders.{create_reminder}
use be_better.Calendar.{CalendarFormat, ReminderInput, validate_reminder_inputs}
use be_better.Calendar.Operations.{
  Reconciled, create_reminders, reconcile, create_event_operation, delete_event_operation,
}
use be_better.Calendar.Reported.{Reported, create_event_operation-Reported}
use be_better.Calendar.Deleted.{delete_event_operation-Reported}
use be_better.Calendar.Scheduled.{Exact, validate_reminder_inputs-Exact}
use be_better.Calendar.Matched.{Matched}

abbrev plain : CalendarFormat
plain = record {
  is_timezone = λ s. true;
  event_json = λ event. null;
  result_json = λ result. null;
  deletion_json = λ id version. null;
  delivery_json = λ reminder. null;
  read_result = λ body. err failure;
  create_payload = λ input. [];
  update_payload = λ id version input. [];
  delete_payload = λ id version. [];
  time_scope = λ t. "";
  before = λ a b. false;
}

abbrev meeting : CalendarEvent
meeting = record {
  id = 5;
  title = "meeting";
  start_at = 50 * hour;
  end_at = 51 * hour;
  timezone = "UTC";
  location = none;
  kind = "fixed";
  source_calendar = none;
  goal_id = none;
  version = 0;
  created_at = 0;
  updated_at = 0;
  deleted_at = none;
}

abbrev in_app : ℕ → ReminderInput
in_app n = record { offset_minutes = pos n; channel = "in_app" }

abbrev nothing : CommandResult
nothing = record { status = pos 0; body = empty; changes = []; audits = []; outbox = [] }

abbrev calendar : CalendarDb
calendar = record { events = []; reminders = []; clock = 1000 }

-- The id of the reminder for the input i.
abbrev ids : ℕ → Uuid
ids i = 100 + i

abbrev filled : CalendarDb
filled = (create_event_operation plain ids 1 meeting (in_app 10 ∷ in_app 30 ∷ []) calendar).1

abbrev creation : CommandResult
creation =
    elim (create_event_operation plain ids 1 meeting (in_app 10 ∷ in_app 30 ∷ []) calendar).0 [
      | ok r ↦ r
      | err e ↦ nothing
    ]

creates :
    create_event_operation plain ids 1 meeting (in_app 10 ∷ in_app 30 ∷ []) calendar
    ≡ (ok creation, filled)
unfolding create_event_operation create_event create_reminders create_reminder insert_row ◌>>=◌ pure
creates = refl

create_event_operation-Reported_example : Reported creation.changes calendar filled
create_event_operation-Reported_example =
    create_event_operation-Reported plain ids 1 meeting (in_app 10 ∷ in_app 30 ∷ []) calendar
      creates

abbrev emptied : CalendarDb
emptied = (delete_event_operation plain 1 5 1 filled).1

abbrev deletion : CommandResult
deletion = elim (delete_event_operation plain 1 5 1 filled).0 [ ok r ↦ r | err e ↦ nothing ]

deletes : delete_event_operation plain 1 5 1 filled ≡ (ok deletion, emptied)
unfolding delete_event_operation get_event get_row delete_event write_row returned_rows
    create_event_operation create_event create_reminders create_reminder insert_row ◌>>=◌ pure
deletes = refl

delete_event_operation-Reported_example :
    Reported deletion.changes filled emptied
    × (any_row (attached 1 (reminder_of_event 5)) emptied.reminders ≡ false)
delete_event_operation-Reported_example = delete_event_operation-Reported plain 1 5 1 filled deletes

-- The reminder of ten minutes stays, and one of an hour comes.
abbrev kept_reminders : List CalendarReminder
kept_reminders = map (λ row. row.value) filled.reminders

abbrev outcome : List Reconciled × List CalendarReminder
outcome = elim (reconcile ids 2 1 meeting (in_app 60 ∷ in_app 10 ∷ []) kept_reminders filled).0 [
  | ok r ↦ r
  | err e ↦ ([], [])
]

abbrev reconciled : CalendarDb
reconciled = (reconcile ids 2 1 meeting (in_app 60 ∷ in_app 10 ∷ []) kept_reminders filled).1

operations_of_outcome : map (λ r. r.operation) outcome.0 ≡ "create" ∷ "update" ∷ []
unfolding reconcile create_event_operation create_event create_reminders create_reminder insert_row
    ◌>>=◌ pure
operations_of_outcome = refl

requested-valid : validate_reminder_inputs (in_app 60 ∷ in_app 10 ∷ []) ≡ ok tt
unfolding validate_reminder_inputs
requested-valid = refl

validate_reminder_inputs-Exact_example : All Exact (in_app 60 ∷ in_app 10 ∷ [])
validate_reminder_inputs-Exact_example =
    validate_reminder_inputs-Exact (in_app 60 ∷ in_app 10 ∷ []) requested-valid
