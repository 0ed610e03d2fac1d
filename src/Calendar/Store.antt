-- ===== src/Calendar/Store.antt =====
-- internal/postgres/calendar_repository.go over dayorder.calendar_events and
-- dayorder.calendar_event_reminders, with the structs of internal/model/calendar.go. The key of
-- an event to its goal is not modelled.
use be_better.Prelude.{
  ℕ, ◌+◌, ◌*◌, ◌-◌, ℤ, pos, negsuc, String, Bool, true, ◌&&◌, ◌||◌, Option, none, some, List, ltb,
  leb, ◌==◌,
}
use be_better.Model.{Uuid, Time, minute, ResourcePosition, Result, ok, err}
use be_better.Exec.{Tx}
use be_better.Resources.Rows.{
  Versioned, Row, get_row, insert_row, write_row, written_rows, returned_rows, select_ordered,
}

pub record CalendarEvent : Type 0 where
  pub id : Uuid
  pub title : String
  pub start_at : Time
  pub end_at : Time
  pub timezone : String
  pub location : Option String
  pub kind : String
  pub source_calendar : Option String
  pub goal_id : Option Uuid
  pub version : ℕ
  pub created_at : Time
  pub updated_at : Time
  pub deleted_at : Option Time

pub record CalendarReminder : Type 0 where
  pub id : Uuid
  pub event_id : Uuid
  pub offset_minutes : ℤ
  pub channel : String
  pub scheduled_at : Time
  pub status : String
  pub delivered_at : Option Time
  pub attempts : ℕ
  pub version : ℕ
  pub created_at : Time
  pub updated_at : Time
  pub deleted_at : Option Time

instance abbrev pub event_versioned : Versioned CalendarEvent
event_versioned = record {
  id_of = λ event. event.id;
  version_of = λ event. event.version;
  deleted_of = λ event. event.deleted_at;
}

instance abbrev pub reminder_versioned : Versioned CalendarReminder
reminder_versioned = record {
  id_of = λ reminder. reminder.id;
  version_of = λ reminder. reminder.version;
  deleted_of = λ reminder. reminder.deleted_at;
}

-- The tables, and now() of the transaction.
pub record CalendarDb : Type 0 where
  pub events : List (Row CalendarEvent)
  pub reminders : List (Row CalendarReminder)
  pub clock : Time

abbrev pub on_events :
    {A : Type 0} → CalendarDb → Result A × List (Row CalendarEvent) → Result A × CalendarDb
on_events s (r, rows) = (r, record s { events = rows })

abbrev pub on_reminders :
    {A : Type 0} → CalendarDb → Result A × List (Row CalendarReminder) → Result A × CalendarDb
on_reminders s (r, rows) = (r, record s { reminders = rows })

-- The columns that `CreateCalendarEvent` leaves to their defaults.
abbrev pub inserted_event : Time → CalendarEvent → CalendarEvent
inserted_event now event = record event {
  version = 1;
  created_at = now;
  updated_at = now;
  deleted_at = none;
}

-- `UpdateCalendarEvent`
abbrev pub rewritten_event : CalendarEvent → Time → CalendarEvent → CalendarEvent
rewritten_event event now old = record old {
  title = event.title;
  start_at = event.start_at;
  end_at = event.end_at;
  timezone = event.timezone;
  location = event.location;
  kind = event.kind;
  source_calendar = event.source_calendar;
  goal_id = event.goal_id;
  version = old.version + 1;
  updated_at = now;
}

-- `SoftDeleteCalendarEvent`
abbrev pub deleted_event : Time → CalendarEvent → CalendarEvent
deleted_event now old = record old {
  deleted_at = some now;
  version = old.version + 1;
  updated_at = now;
}

abbrev pub reminder_of_event : Uuid → CalendarReminder → Bool
reminder_of_event event reminder = reminder.event_id == event

-- `start_at - (offset_minutes * interval '1 minute')`
abbrev pub minutes_before : Time → ℤ → Time
minutes_before start (pos n) = start - n * minute
minutes_before start (negsuc n) = start + (n + 1) * minute

-- `RescheduleCalendarReminders`
abbrev pub rescheduled : Time → Time → CalendarReminder → CalendarReminder
rescheduled start now old = record old {
  scheduled_at = minutes_before start old.offset_minutes;
  status = "pending";
  delivered_at = none;
  attempts = 0;
  version = old.version + 1;
  updated_at = now;
}

-- `SoftDeleteCalendarReminder`, and `SoftDeleteCalendarReminders`
abbrev pub cancelled : Time → CalendarReminder → CalendarReminder
cancelled now old = record old {
  deleted_at = some now;
  status = "cancelled";
  version = old.version + 1;
  updated_at = now;
}

-- `CalendarRepository.CreateEvent`
unfoldable pub create_event : Uuid → CalendarEvent → Tx CalendarDb CalendarEvent
create_event user event s = on_events s (insert_row user (inserted_event s.clock event) s.events)

-- `CalendarRepository.GetEvent`
unfoldable pub get_event : Uuid → Uuid → Tx CalendarDb CalendarEvent
get_event user id s = (get_row user id s.events, s)

abbrev pub in_window : Option Time → Option Time → CalendarEvent → Bool
in_window start end event =
    elim start [ none ↦ true | some t ↦ leb t event.end_at ]
    && elim end [ none ↦ true | some t ↦ leb event.start_at t ]

abbrev pub after_event : Option ResourcePosition → CalendarEvent → Bool
after_event none event = true
after_event (some p) event =
    ltb p.updated_at event.start_at || event.start_at == p.updated_at && ltb p.id event.id

-- `ORDER BY start_at, id`
abbrev pub later_event : CalendarEvent → CalendarEvent → Bool
later_event a b = ltb b.start_at a.start_at || a.start_at == b.start_at && ltb b.id a.id

-- `CalendarRepository.ListEvents`, before its LIMIT
unfoldable pub listed_events :
    Uuid → Option Time → Option Time → Option ResourcePosition → CalendarDb → List CalendarEvent
listed_events user start end after s =
    select_ordered later_event (λ event. in_window start end event && after_event after event) user
      s.events

-- What the repository does with the reminders once the statement on the event has succeeded.
abbrev pub with_reminders :
    Uuid
    → Uuid
    → (CalendarReminder → CalendarReminder)
    → CalendarDb
    → Result CalendarEvent × List (Row CalendarEvent)
    → Result (CalendarEvent × List CalendarReminder) × CalendarDb
with_reminders user id f s (err e, rows) = (err e, s)
with_reminders user id f s (ok event, rows) = (
  ok (event, returned_rows user (reminder_of_event id) f s.reminders),
  record s { events = rows; reminders = written_rows user (reminder_of_event id) f s.reminders },
)

-- `CalendarRepository.UpdateEvent`
unfoldable pub update_event :
    Uuid → CalendarEvent → ℕ → Tx CalendarDb (CalendarEvent × List CalendarReminder)
update_event user event expected s =
    with_reminders user event.id (rescheduled event.start_at s.clock) s
      (write_row user event.id expected (rewritten_event event s.clock) s.events)

-- `CalendarRepository.DeleteEvent`
unfoldable pub delete_event :
    Uuid → Uuid → ℕ → Tx CalendarDb (CalendarEvent × List CalendarReminder)
delete_event user id expected s =
    with_reminders user id (cancelled s.clock) s
      (write_row user id expected (deleted_event s.clock) s.events)
