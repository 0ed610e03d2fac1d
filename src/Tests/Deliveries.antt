-- ===== src/Tests/Deliveries.antt =====
-- The delivery of one reminder by mail.
use be_better.Prelude.{ℕ, ◌*◌, pos, none, some, [], ◌∷◌, ◌≡◌, true, refl, map}
use be_better.Prelude.Text.{bytes_of, trim_space}
use be_better.Model.{empty, ok, hour}
use be_better.Exec.{◌>>=◌}
use be_better.Database.Transaction.{Attempt, committed, with_user, attempts_from, run_attempt}
use be_better.Store.{Db}
use be_better.Store.Changes.{append}
use be_better.Audit
use be_better.Calendar.Store.{CalendarEvent, CalendarReminder}
use be_better.Worker.Queue.{OutboxEvent}
use be_better.Deliveries.{
  DeliveryDb, DeliveryFormat, ReminderDeliveryResult, get_delivery, result_matches, record_tx,
  record_result, load,
}
use be_better.Deliveries.Handler.{
  DeliveryLibrary, World, parse_payload, is_current, reminder_message, handle,
}
use be_better.Deliveries.Once.{record_tx-record_tx}
use be_better.Deliveries.Current.{Sending, handle-Sending}

abbrev format : DeliveryFormat
format = record {
  before_json = λ d. empty;
  after_json = λ r. empty;
  metadata_json = λ channel reason. empty;
  new_id = 900;
}

abbrev library : DeliveryLibrary
library = record {
  format = format;
  decode = λ raw.
      some (record { reminder_id = 6; event_id = 5; channel = "email"; scheduled_at = 40 * hour });
  address_in = λ s. some s;
  local_time = λ zone t. some "noon";
  escape_html = λ s. s;
  takes = λ message. true;
}

abbrev meeting : CalendarEvent
meeting = record {
  id = 5;
  title = "meeting";
  start_at = 41 * hour;
  end_at = 42 * hour;
  timezone = "UTC";
  location = none;
  kind = "fixed";
  source_calendar = none;
  goal_id = none;
  version = 1;
  created_at = 100;
  updated_at = 100;
  deleted_at = none;
}

abbrev reminder : CalendarReminder
reminder = record {
  id = 6;
  event_id = 5;
  offset_minutes = pos 60;
  channel = "email";
  scheduled_at = 40 * hour;
  status = "pending";
  delivered_at = none;
  attempts = 0;
  version = 1;
  created_at = 100;
  updated_at = 100;
  deleted_at = none;
}

abbrev tables : Db DeliveryDb
tables = record {
  resources = record {
    calendar = record {
      events = record { user_id = 1; value = meeting } ∷ [];
      reminders = record { user_id = 1; value = reminder } ∷ [];
      clock = 1000;
    };
    accounts =
        record {
          id = 1;
          status = "active";
          email = "a@b.c";
          display_name = "Ada";
          deleted_at = none;
        }
        ∷ [];
  };
  devices = [];
  mutations = [];
  changes = [];
  next_sequence = 1;
  audits = [];
  outbox = [];
  clock = 1000;
}

abbrev delivered : ReminderDeliveryResult
delivered = record {
  user_id = 1;
  reminder_id = 6;
  event_id = 5;
  outbox_event_id = 70;
  channel = "email";
  scheduled_at = 40 * hour;
  outcome = "delivered";
  failure_reason = "";
}

record_tx-record_tx_example :
    record_tx format delivered (record_tx format delivered tables).1
    ≡ (ok tt, (record_tx format delivered tables).1)
record_tx-record_tx_example = record_tx-record_tx format delivered tables refl

statuses_after :
    map (λ row. row.value.status) (record_tx format delivered tables).1.resources.calendar.reminders
    ≡ "delivered" ∷ []
unfolding record_tx get_delivery result_matches append Audit.append ◌>>=◌
statuses_after = refl

abbrev undisturbed : ℕ → Attempt (Db DeliveryDb)
undisturbed round = record {
  others = λ s. s;
  begin = none;
  set_context = none;
  fault = none;
  commit = committed;
  sleep = none;
}

abbrev due : OutboxEvent
due = record {
  id = 70;
  user_id = 1;
  event_type = "reminder.delivery.requested";
  aggregate_type = "reminder";
  aggregate_id = 6;
  payload = empty;
  attempts = 1;
  lock_token = 3;
}

abbrev world : World
world = record { db = tables; sent = [] }

handle-Sending_example :
    Sending library undisturbed due world (handle library undisturbed undisturbed due world).1.sent
handle-Sending_example = handle-Sending library undisturbed undisturbed due world

-- The one message goes to the account's address.
recipients :
    map (λ m. m.to) (handle library undisturbed undisturbed due world).1.sent ≡ "a@b.c" ∷ []
unfolding handle parse_payload load with_user attempts_from run_attempt get_delivery is_current
    reminder_message record_result bytes_of trim_space
recipients = refl
