-- ===== src/Calendar/Reminders.antt =====
-- The reminders of internal/postgres/calendar_repository.go, with the constraints of
-- dayorder.calendar_event_reminders in migrations/000002_domain.up.sql.
use be_better.Prelude.{
  pos, ltb_ℤ, eqb_ℤ, wrapped, int32_half, String, ◌=ˢ◌, Bool, not, ◌&&◌, ◌||◌, none, some, List, [],
  ◌∷◌, ltb, ◌==◌, if◌then◌else◌, any_row, find_first, update_rows, one_of,
}
use be_better.Model.{Uuid, Time, postgres, conflict, not_found, Result, ok, err}
use be_better.Exec.{Tx}
use be_better.Resources.Rows.{Row, on_value, of_user, is_live, insert_row, select_ordered}
use be_better.Calendar.Store.{
  CalendarReminder, CalendarDb, reminder_versioned, event_versioned, on_reminders,
  reminder_of_event, cancelled,
}

-- The columns of `CreateCalendarReminder`, `int32(reminder.OffsetMinutes)` among them, and the
-- defaults of the others.
abbrev pub inserted_reminder : Time → CalendarReminder → CalendarReminder
inserted_reminder now reminder = record reminder {
  offset_minutes = wrapped int32_half reminder.offset_minutes;
  status = "pending";
  delivered_at = none;
  attempts = 0;
  version = 1;
  created_at = now;
  updated_at = now;
  deleted_at = none;
}

-- The checks on the offset and the channel.
abbrev pub passes_checks : CalendarReminder → Bool
passes_checks reminder =
    not (ltb_ℤ reminder.offset_minutes (pos 0)) && one_of ("in_app" ∷ "email" ∷ []) reminder.channel

-- calendar_event_reminders_event_offset_channel_unique
abbrev pub same_slot : Uuid → CalendarReminder → Row CalendarReminder → Bool
same_slot user reminder row =
    of_user user row
    && row.value.event_id == reminder.event_id
    && eqb_ℤ row.value.offset_minutes reminder.offset_minutes
    && row.value.channel =ˢ reminder.channel

-- The INSERT of a row, with the checks, the unique index and the key to the event.
abbrev pub insert_reminder :
    Uuid → CalendarReminder → CalendarDb → Result CalendarReminder × List (Row CalendarReminder)
insert_reminder user reminder s =
    if not (passes_checks reminder)
    then (err (postgres "23514"), s.reminders)
    else if any_row (same_slot user reminder) s.reminders
    then (err conflict, s.reminders)
    else if not (any_row (λ r. r.user_id == user && r.value.id == reminder.event_id) s.events)
    then (err not_found, s.reminders)
    else insert_row user reminder s.reminders

-- `CalendarRepository.CreateReminder`
unfoldable pub create_reminder : Uuid → CalendarReminder → Tx CalendarDb CalendarReminder
create_reminder user reminder s =
    on_reminders s (insert_reminder user (inserted_reminder s.clock reminder) s)

-- `ORDER BY offset_minutes DESC, channel, id`, with `before` for the collation of the channel
abbrev pub later_reminder : (String → String → Bool) → CalendarReminder → CalendarReminder → Bool
later_reminder before a b =
    ltb_ℤ a.offset_minutes b.offset_minutes
    || eqb_ℤ a.offset_minutes b.offset_minutes
      && (before b.channel a.channel || b.channel =ˢ a.channel && ltb b.id a.id)

-- `CalendarRepository.ListReminders`
unfoldable pub list_reminders :
    (String → String → Bool) → Uuid → Uuid → Tx CalendarDb (List CalendarReminder)
list_reminders before user event s =
    (ok (select_ordered (later_reminder before) (reminder_of_event event) user s.reminders), s)

abbrev pub live_reminder : Uuid → Uuid → Uuid → Row CalendarReminder → Bool
live_reminder user event id row = is_live user id row && reminder_of_event event row.value

-- `CalendarRepository.DeleteReminder`
unfoldable pub delete_reminder : Uuid → Uuid → Uuid → Tx CalendarDb CalendarReminder
delete_reminder user event id s = elim (find_first (live_reminder user event id) s.reminders) [
  | none ↦ (err not_found, s)
  | some row ↦ on_reminders s (
    ok (cancelled s.clock row.value),
    update_rows (live_reminder user event id) (on_value (cancelled s.clock)) s.reminders,
  )
]
