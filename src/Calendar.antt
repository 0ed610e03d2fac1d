-- ===== src/Calendar.antt =====
-- internal/service/calendar.go: its inputs, their validation and the operations of its commands.
-- `CalendarFormat` is what encoding/json makes of the structs and back, and what package time says of
-- the name of a timezone.
pub mod Store
pub mod Reminders
pub mod Operations
pub mod Service
pub mod Reported
pub mod Deleted
pub mod Matched
pub mod Scheduled
use be_better.Prelude.{
  ℕ, zero, suc, ◌+◌, ◌*◌, ◌-◌, ℤ, pos, negsuc, ltb_ℤ, eqb_ℤ, wrapped, int64_half, String, ◌=ˢ◌,
  rune_count, trim_space, one_of, Bool, true, false, not, ◌&&◌, ◌||◌, Option, none, some, List, [],
  ◌∷◌, ◌++◌, map, ltb, if◌then◌else◌, find_first, select_rows, is_some,
}
use be_better.Model.{
  Uuid, Time, zero_time, is_zero_time, minute, Json, RawMessage, empty, document, SyncChangeDraft,
  AuditEntity, OutboxDraft, validation, Result, ok, err,
}
use be_better.Exec.{Tx, pure, ◌>>=◌}
use be_better.Command.{CommandResult}
use be_better.Resources.Tracked.{change_of}
use be_better.Resources.Service.{audit_of, entity}
use be_better.Calendar.Store.{
  CalendarEvent, CalendarReminder, CalendarDb, event_versioned, reminder_versioned, create_event,
  get_event, update_event, delete_event,
}
use be_better.Calendar.Reminders.{create_reminder, list_reminders, delete_reminder}

pub record ReminderInput : Type 0 where
  pub offset_minutes : ℤ
  pub channel : String

pub record CalendarEventInput : Type 0 where
  pub id : Option Uuid
  pub title : String
  pub start_at : Time
  pub end_at : Time
  pub timezone : String
  pub location : Option String
  pub kind : String
  pub source_calendar : Option String
  pub goal_id : Option Uuid
  pub reminders : List ReminderInput

pub record CalendarEventResult : Type 0 where
  pub event : CalendarEvent
  pub reminders : List CalendarReminder

pub record CalendarFormat : Type 0 where
  -- `time.LoadLocation(...)` without an error
  pub is_timezone : String → Bool
  pub event_json : CalendarEvent → Json
  pub result_json : CalendarEventResult → Json
  pub deletion_json : Uuid → ℕ → Json
  -- the payload of `reminderOutbox`
  pub delivery_json : CalendarReminder → Json
  pub read_result : Option Json → Result CalendarEventResult
  pub create_payload : CalendarEventInput → List ℕ
  pub update_payload : Uuid → ℕ → CalendarEventInput → List ℕ
  pub delete_payload : Uuid → ℕ → List ℕ
  -- `optionalTimeScope`
  pub time_scope : Option Time → String
  -- the collation of the server, for the order of channels
  pub before : String → String → Bool

-- `trimmedOptional`
unfoldable pub trimmed_optional : Option String → Option String
trimmed_optional none = none
trimmed_optional (some s) = if trim_space s =ˢ "" then none else some (trim_space s)

-- `eventFromInput`
unfoldable pub event_from_input : Uuid → CalendarEventInput → CalendarEvent
event_from_input id input = record {
  id = id;
  title = trim_space input.title;
  start_at = input.start_at;
  end_at = input.end_at;
  timezone = trim_space input.timezone;
  location = trimmed_optional input.location;
  kind = input.kind;
  source_calendar = trimmed_optional input.source_calendar;
  goal_id = input.goal_id;
  version = 0;
  created_at = zero_time;
  updated_at = zero_time;
  deleted_at = none;
}

abbrev too_long : ℕ → Option String → Bool
too_long limit none = false
too_long limit (some s) = ltb limit (rune_count s)

-- `validateCalendarEvent`
unfoldable pub validate_event : CalendarFormat → CalendarEvent → Result (Unit {0})
validate_event format event =
    if ltb (rune_count event.title) 1
      || ltb 240 (rune_count event.title)
      || is_zero_time event.start_at
      || ltb event.end_at event.start_at
    then err validation
    else if not (format.is_timezone event.timezone)
    then err validation
    else if not (one_of ("fixed" ∷ "focus" ∷ "health" ∷ "personal" ∷ []) event.kind)
    then err validation
    else if too_long 240 event.location || too_long 120 event.source_calendar
    then err validation
    else ok tt

-- `reminderKey(a.OffsetMinutes, a.Channel) == reminderKey(b.OffsetMinutes, b.Channel)`: the
-- decimal digits of an offset have no colon.
abbrev pub same_key : ReminderInput → ReminderInput → Bool
same_key a b = eqb_ℤ a.offset_minutes b.offset_minutes && a.channel =ˢ b.channel

abbrev pub key_of : CalendarReminder → ReminderInput
key_of reminder = record { offset_minutes = reminder.offset_minutes; channel = reminder.channel }

abbrev pub is_seen : ReminderInput → List ReminderInput → Bool
is_seen input [] = false
is_seen input (k ∷ ks) = same_key k input || is_seen input ks

abbrev pub bad_reminder : ReminderInput → Bool
bad_reminder input =
    ltb_ℤ input.offset_minutes (pos 0)
    || ltb_ℤ (pos 525600) input.offset_minutes
    || not (input.channel =ˢ "in_app") && not (input.channel =ˢ "email")

-- The loop of `validateReminderInputs`, with the keys that it has seen.
abbrev pub check_reminders : List ReminderInput → List ReminderInput → Result (Unit {0})
check_reminders seen [] = ok tt
check_reminders seen (input ∷ inputs) =
    let rest = check_reminders (input ∷ seen) inputs in
    if bad_reminder input
    then err validation
    else if is_seen input seen
    then err validation
    else rest

-- `validateReminderInputs`
unfoldable pub validate_reminder_inputs : List ReminderInput → Result (Unit {0})
validate_reminder_inputs inputs = check_reminders [] inputs

-- `-time.Duration(offset) * time.Minute`
abbrev pub duration_before : ℤ → ℤ
duration_before (pos zero) = pos 0
duration_before (pos (suc n)) = wrapped int64_half (negsuc (suc n * minute - 1))
duration_before (negsuc n) = wrapped int64_half (pos (suc n * minute))

-- `time.Time.Add`
abbrev pub add_duration : Time → ℤ → Time
add_duration t (pos n) = t + n
add_duration t (negsuc n) = t - suc n

-- The reminder that `CreateReminder` is called with.
abbrev pub reminder_from_input : Uuid → CalendarEvent → ReminderInput → CalendarReminder
reminder_from_input id event input = record {
  id = id;
  event_id = event.id;
  offset_minutes = input.offset_minutes;
  channel = input.channel;
  scheduled_at = add_duration event.start_at (duration_before input.offset_minutes);
  status = "";
  delivered_at = none;
  attempts = 0;
  version = 0;
  created_at = zero_time;
  updated_at = zero_time;
  deleted_at = none;
}
