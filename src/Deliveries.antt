-- ===== src/Deliveries.antt =====
-- The deliveries of reminders: the types of internal/worker/reminder.go, and
-- internal/postgres/reminder_delivery_repository.go over the tables of the calendar and the columns
-- of dayorder.users that its statements read.
pub mod Handler
pub mod Once
pub mod Current
use be_better.Prelude.{
  ℕ, ◌+◌, String, ◌=ˢ◌, trim_space, rune_count, one_of, Bool, true, false, not, ◌&&◌, ◌||◌, Option,
  none, some, List, [], ◌∷◌, ltb, ◌==◌, if◌then◌else◌, is_some, find_first, update_rows, pos,
}
use be_better.Model.{
  Uuid, is_nil, Time, is_zero_time, RawMessage, failure, not_found, SyncChangeDraft, AuditDraft,
  Result, ok, err,
}
use be_better.Exec.{Tx, pure, lift, ◌>>=◌}
use be_better.Database.Transaction.{Attempt, with_user, default_attempts}
use be_better.Store.{Db}
use be_better.Store.Changes.{append}
use be_better.Audit
use be_better.Resources.Rows.{Row, on_value}
use be_better.Resources.Service.{entity}
use be_better.Calendar.Store.{CalendarEvent, CalendarReminder, CalendarDb}

-- The columns of dayorder.users.
pub record DeliveryAccount : Type 0 where
  pub id : Uuid
  pub status : String
  pub email : String
  pub display_name : String
  pub deleted_at : Option Time

pub record DeliveryDb : Type 0 where
  pub calendar : CalendarDb
  pub accounts : List DeliveryAccount

pub record ReminderDelivery : Type 0 where
  pub user_id : Uuid
  pub reminder_id : Uuid
  pub event_id : Uuid
  pub channel : String
  pub scheduled_at : Time
  pub status : String
  pub version : ℕ
  pub deleted_at : Option Time
  pub account_status : String
  pub account_deleted_at : Option Time
  pub email : String
  pub display_name : String
  pub event_title : String
  pub event_start_at : Time
  pub timezone : String
  pub event_deleted_at : Option Time

pub record ReminderDeliveryResult : Type 0 where
  pub user_id : Uuid
  pub reminder_id : Uuid
  pub event_id : Uuid
  pub outbox_event_id : Uuid
  pub channel : String
  pub scheduled_at : Time
  pub outcome : String
  pub failure_reason : String

-- What encoding/json makes of an audit's data, and `uuid.New`.
pub record DeliveryFormat : Type 0 where
  pub before_json : ReminderDelivery → RawMessage
  pub after_json : CalendarReminder → RawMessage
  pub metadata_json : String → String → RawMessage
  pub new_id : Uuid

abbrev pub is_pair : {A : Type 0} → (A → Uuid) → Uuid → Uuid → Row A → Bool
is_pair id_of user id row = row.user_id == user && id_of row.value == id

abbrev pub is_reminder : Uuid → Uuid → Row CalendarReminder → Bool
is_reminder user id row = is_pair (λ reminder. reminder.id) user id row

-- One row of the join.
abbrev pub delivery_of :
    Row CalendarReminder → Row CalendarEvent → DeliveryAccount → ReminderDelivery
delivery_of reminder event account = record {
  user_id = reminder.user_id;
  reminder_id = reminder.value.id;
  event_id = reminder.value.event_id;
  channel = reminder.value.channel;
  scheduled_at = reminder.value.scheduled_at;
  status = reminder.value.status;
  version = reminder.value.version;
  deleted_at = reminder.value.deleted_at;
  account_status = account.status;
  account_deleted_at = account.deleted_at;
  email = account.email;
  display_name = account.display_name;
  event_title = event.value.title;
  event_start_at = event.value.start_at;
  timezone = event.value.timezone;
  event_deleted_at = event.value.deleted_at;
}

abbrev pub joined : Row CalendarReminder → DeliveryDb → Option ReminderDelivery
joined reminder s =
    elim (find_first (is_pair (λ event. event.id) reminder.user_id reminder.value.event_id)
      s.calendar.events) [
        | none ↦ none
        | some event ↦ elim (find_first (λ account. account.id == reminder.user_id) s.accounts) [
          | none ↦ none
          | some account ↦ some (delivery_of reminder event account)
        ]
      ]

-- `GetReminderDelivery`, and `GetReminderDeliveryForUpdate`
unfoldable pub get_delivery : Uuid → Uuid → DeliveryDb → Option ReminderDelivery
get_delivery user id s = elim (find_first (is_reminder user id) s.calendar.reminders) [
  | none ↦ none
  | some reminder ↦ joined reminder s
]

abbrev pub is_open : String → Bool
is_open status = one_of ("pending" ∷ "processing" ∷ "failed" ∷ []) status

-- `reminderResultMatches`
unfoldable pub result_matches : ReminderDelivery → ReminderDeliveryResult → Bool
result_matches delivery result =
    delivery.user_id == result.user_id
    && delivery.reminder_id == result.reminder_id
    && delivery.event_id == result.event_id
    && delivery.channel =ˢ result.channel
    && delivery.scheduled_at == result.scheduled_at
    && not (is_some delivery.deleted_at)
    && is_open delivery.status

-- `validateReminderDeliveryResult`
unfoldable pub validate_result : ReminderDeliveryResult → Result (Unit {0})
validate_result result =
    if is_nil result.user_id
      || is_nil result.reminder_id
      || is_nil result.event_id
      || is_nil result.outbox_event_id
      || is_zero_time result.scheduled_at
      || not (one_of ("email" ∷ "in_app" ∷ []) result.channel)
      || not (one_of ("delivered" ∷ "failed" ∷ []) result.outcome)
    then err failure
    else if result.outcome =ˢ "failed"
        && (result.failure_reason =ˢ "" || ltb 240 (rune_count result.failure_reason))
    then err failure
    else ok tt

-- The WHERE of `RecordReminderDeliveryResult`.
abbrev pub is_recorded : ReminderDeliveryResult → ℕ → Row CalendarReminder → Bool
is_recorded result expected row =
    is_reminder result.user_id result.reminder_id row
    && row.value.event_id == result.event_id
    && row.value.channel =ˢ result.channel
    && row.value.scheduled_at == result.scheduled_at
    && row.value.version == expected
    && not (is_some row.value.deleted_at)
    && is_open row.value.status

-- Its SET.
abbrev pub recorded : String → Time → CalendarReminder → CalendarReminder
recorded outcome now old = record old {
  status = outcome;
  delivered_at = if outcome =ˢ "delivered" then some now else none;
  attempts = old.attempts + 1;
  version = old.version + 1;
  updated_at = now;
}

abbrev pub with_reminder_rows : List (Row CalendarReminder) → Db DeliveryDb → Db DeliveryDb
with_reminder_rows rows s = record s {
  resources = record s.resources { calendar = record s.resources.calendar { reminders = rows } };
}

-- `RecordReminderDeliveryResult`, and the row that it returns.
abbrev pub record_row :
    ReminderDeliveryResult → ℕ → Db DeliveryDb → Option CalendarReminder × Db DeliveryDb
record_row result expected s =
    elim (find_first (is_recorded result expected) s.resources.calendar.reminders) [
      | none ↦ (none, s)
      | some row ↦ (
        some (recorded result.outcome s.clock row.value),
        with_reminder_rows
            (update_rows (is_recorded result expected) (on_value (recorded result.outcome s.clock))
              s.resources.calendar.reminders)
            s,
      )
    ]

abbrev pub delivery_audit :
    DeliveryFormat → ReminderDeliveryResult → ReminderDelivery → CalendarReminder → AuditDraft
delivery_audit format result before updated = record {
  id = format.new_id;
  actor_type = "system";
  actor_id = none;
  action = if result.outcome =ˢ "failed" then "reminder.delivery_failed" else "reminder.delivered";
  request_id = result.outbox_event_id;
  before_data = format.before_json before;
  after_data = format.after_json updated;
  metadata = format.metadata_json result.channel result.failure_reason;
  entities = entity "reminder" result.reminder_id ∷ [];
}

-- The rest of the transaction once the row is written.
abbrev pub report :
    DeliveryFormat
    → ReminderDeliveryResult
    → ReminderDelivery
    → Option CalendarReminder × Db DeliveryDb
    → Result (Unit {0}) × Db DeliveryDb
report format result before (none, s) = (ok tt, s)
report format result before (some updated, s) =
    (append result.user_id (record {
      entity_type = "reminder";
      entity_id = result.reminder_id;
      operation = "update";
      entity_version = pos updated.version;
    })
        >>= λ _. Audit.append result.user_id (delivery_audit format result before updated))
      s

-- The closure of `RecordResult`.
unfoldable pub record_tx : DeliveryFormat → ReminderDeliveryResult → Tx (Db DeliveryDb) (Unit {0})
record_tx format result s = elim (get_delivery result.user_id result.reminder_id s.resources) [
  | none ↦ (ok tt, s)
  | some before ↦
      if not (result_matches before result)
      then (ok tt, s)
      else report format result before (record_row result before.version s)
]

abbrev pub read_delivery : Option ReminderDelivery → Result ReminderDelivery
read_delivery none = err not_found
read_delivery (some delivery) = ok delivery

-- The closure of `Load`.
abbrev pub load_tx : Uuid → Uuid → Tx (Db DeliveryDb) ReminderDelivery
load_tx user id s = (read_delivery (get_delivery user id s.resources), s)

module _ (env : ℕ → Attempt (Db DeliveryDb)) where
  -- `ReminderDeliveryRepository.RecordResult`
  unfoldable pub record_result :
      DeliveryFormat → ReminderDeliveryResult → Tx (Db DeliveryDb) (Unit {0})
  record_result format result s =
      let trimmed = record result { failure_reason = trim_space result.failure_reason } in
      elim (validate_result trimmed) [
        | err e ↦ (err e, s)
        | ok _ ↦ with_user default_attempts env result.user_id (λ round. record_tx format trimmed) s
      ]

  -- `ReminderDeliveryRepository.Load`
  unfoldable pub load : Uuid → Uuid → Tx (Db DeliveryDb) ReminderDelivery
  load user id s =
      if is_nil user || is_nil id
      then (err not_found, s)
      else with_user default_attempts env user (λ round. load_tx user id) s
