-- ===== src/Deliveries/Handler.antt =====
-- internal/worker/reminder.go: what it does with an event of the outbox. `World` keeps the messages
-- that were handed to the sender, whether or not it took them.
use Prim.Native.String.{◌++◌}
use be_better.Prelude.{
  ℕ, String, ◌=ˢ◌, trim_space, one_of, Bool, not, ◌&&◌, ◌||◌, Option, none, some, List, [], ◌∷◌,
  ◌==◌, if◌then◌else◌, is_some,
}
use be_better.Model.{
  Uuid, is_nil, Time, is_zero_time, RawMessage, Error, failure, not_found, Result, ok, err,
}
use be_better.Exec.{Tx}
use be_better.Database.Transaction.{Attempt}
use be_better.Store.{Db}
use be_better.Worker.Queue.{OutboxEvent}
use be_better.Deliveries.{
  DeliveryDb, ReminderDelivery, ReminderDeliveryResult, DeliveryFormat, is_open, load,
  record_result,
}

pub record ReminderPayload : Type 0 where
  pub reminder_id : Uuid
  pub event_id : Uuid
  pub channel : String
  pub scheduled_at : Time

pub record Message : Type 0 where
  pub to : String
  pub subject : String
  pub text : String
  pub html : String

-- What the packages of Go's library and the sender do.
pub record DeliveryLibrary : Type 0 where
  pub format : DeliveryFormat
  -- `json.Unmarshal` into a `reminderPayload`
  pub decode : RawMessage → Option ReminderPayload
  -- the address that `mail.ParseAddress` finds
  pub address_in : String → Option String
  -- a time in the location of a name, as "2006-01-02 15:04"
  pub local_time : String → Time → Option String
  pub escape_html : String → String
  -- `Sender.Send` without an error
  pub takes : Message → Bool

-- `parseReminderPayload`
unfoldable pub parse_payload : DeliveryLibrary → OutboxEvent → Option ReminderPayload
parse_payload library event =
    if is_nil event.user_id
      || is_nil event.id
      || not (event.aggregate_type =ˢ "reminder")
      || is_nil event.aggregate_id
    then none
    else elim (library.decode event.payload) [
      | none ↦ none
      | some decoded ↦
          let payload = record decoded { channel = trim_space decoded.channel } in
          if is_nil payload.reminder_id
            || is_nil payload.event_id
            || not (payload.reminder_id == event.aggregate_id)
            || not (one_of ("email" ∷ "in_app" ∷ []) payload.channel)
            || is_zero_time payload.scheduled_at
          then none
          else some payload
    ]

-- `currentReminderDelivery`
unfoldable pub is_current : ReminderDelivery → ReminderPayload → Bool
is_current delivery payload =
    not (is_nil delivery.user_id)
    && delivery.reminder_id == payload.reminder_id
    && delivery.event_id == payload.event_id
    && delivery.channel =ˢ payload.channel
    && delivery.scheduled_at == payload.scheduled_at
    && not (is_some delivery.deleted_at)
    && not (is_some delivery.event_deleted_at)
    && not (is_some delivery.account_deleted_at)
    && delivery.account_status =ˢ "active"
    && is_open delivery.status

abbrev named : String → String
named name = if name =ˢ "" then "日序用户" else name

abbrev message_of : DeliveryLibrary → ReminderDelivery → String → Message
message_of library delivery start =
    let name = named (trim_space delivery.display_name) in
    let title = trim_space delivery.event_title in
    let escape = library.escape_html in
    record {
      to = trim_space delivery.email;
      subject = "提醒：" ++ title;
      text =
          name
          ++ ("，你好：\n\n你的日程“"
              ++ (title ++ ("”将在 " ++ (start ++ ("（" ++ (delivery.timezone ++ "）开始。\n"))))));
      html =
          "<p>"
          ++ (escape name
              ++ ("，你好：</p><p>你的日程“"
                  ++ (escape title
                      ++ ("”将在 <strong>"
                          ++ (escape start
                              ++ ("</strong>（" ++ (escape delivery.timezone ++ "）开始。</p>")))))));
    }

-- `reminderMessage`
unfoldable pub reminder_message : DeliveryLibrary → ReminderDelivery → Option Message
reminder_message library delivery =
    let email = trim_space delivery.email in
    elim (library.address_in email) [
      | none ↦ none
      | some address ↦
          if not (address =ˢ email)
          then none
          else elim (library.local_time (trim_space delivery.timezone) delivery.event_start_at) [
            | none ↦ none
            | some start ↦
                if trim_space delivery.event_title =ˢ ""
                then none
                else some (message_of library delivery start)
          ]
    ]

pub record World : Type 0 where
  pub db : Db DeliveryDb
  pub sent : List Message

abbrev pub on_db : {A : Type 0} → World → Result A × Db DeliveryDb → Result A × World
on_db w (r, db) = (r, record w { db = db })

abbrev pub delivered_result : OutboxEvent → ReminderDelivery → ReminderDeliveryResult
delivered_result event delivery = record {
  user_id = event.user_id;
  reminder_id = delivery.reminder_id;
  event_id = delivery.event_id;
  outbox_event_id = event.id;
  channel = delivery.channel;
  scheduled_at = delivery.scheduled_at;
  outcome = "delivered";
  failure_reason = "";
}

abbrev pub failed_result : OutboxEvent → ReminderDelivery → ReminderDeliveryResult
failed_result event delivery = record (delivered_result event delivery) {
  outcome = "failed";
  failure_reason = "email delivery failed";
}

-- The errors of a failed send, with that of its record joined.
abbrev pub failed_send : {A : Type 0} → Result A × World → Result A × World
failed_send (r, w) = (err failure, w)

-- `if errors.Is(err, model.ErrNotFound) { return nil }`
abbrev pub unloaded : Error → Result (Unit {0})
unloaded not_found = ok tt
unloaded e = err e

module _ (library : DeliveryLibrary) (env_load env_record : ℕ → Attempt (Db DeliveryDb)) where
  open library use {format, takes}

  abbrev pub send_and_record : OutboxEvent → ReminderDelivery → Option Message → Tx World (Unit {0})
  send_and_record event delivery none w = (err failure, w)
  send_and_record event delivery (some message) w =
      let sent = record w { sent = message ∷ w.sent } in
      if takes message
      then on_db sent (record_result env_record format (delivered_result event delivery) w.db)
      else failed_send
          (on_db sent (record_result env_record format (failed_result event delivery) w.db))

  -- `Handle` once the delivery is current.
  abbrev pub deliver : OutboxEvent → ReminderDelivery → Tx World (Unit {0})
  deliver event delivery w =
      if delivery.channel =ˢ "email"
      then send_and_record event delivery (reminder_message library delivery) w
      else on_db w (record_result env_record format (delivered_result event delivery) w.db)

  abbrev pub after_load :
      OutboxEvent
      → ReminderPayload
      → List Message
      → Result ReminderDelivery × Db DeliveryDb
      → Result (Unit {0}) × World
  after_load event payload sent (err e, db) = (unloaded e, record { db = db; sent = sent })
  after_load event payload sent (ok delivery, db) =
      let w : World = record { db = db; sent = sent } in
      if is_current delivery payload then deliver event delivery w else (ok tt, w)

  -- `ReminderHandler.Handle`
  unfoldable pub handle : OutboxEvent → Tx World (Unit {0})
  handle event w = elim (parse_payload library event) [
    | none ↦ (err failure, w)
    | some payload ↦
        after_load event payload w.sent (load env_load event.user_id payload.reminder_id w.db)
  ]
