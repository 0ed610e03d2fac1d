-- ===== src/Deliveries/Current.antt =====
-- When internal/worker/reminder.go hands a message to the sender.
use be_better.Prelude.{
  ℕ, ◌=ˢ◌, true, ◌||◌, ◌≡◌, refl, ap, ◌∙◌, Option, none, some, List, ◌∷◌, arith, Bool-cases, inl,
  inr,
}
use be_better.Model.{Uuid, is_nil, failure, Result, ok, err}
use be_better.Store.{Db}
use be_better.Database.Transaction.{Attempt, default_attempts}
use be_better.Database.Transaction.Atomicity.{
  Waits, Outcome, applied, unchanged, unacknowledged, with_user-Outcome,
}
use be_better.Worker.Queue.{OutboxEvent}
use be_better.Deliveries.{DeliveryDb, ReminderDelivery, get_delivery, read_delivery, load_tx, load}
use be_better.Deliveries.Handler.{
  ReminderPayload, Message, DeliveryLibrary, World, parse_payload, is_current, reminder_message,
  after_load, send_and_record, deliver, handle,
}

-- The tables, as some round of the load saw them, have the reminder with this delivery.
pub record Seen (env : ℕ → Attempt (Db DeliveryDb)) (user id : Uuid) (s : Db DeliveryDb)
    (d : ReminderDelivery) : Type 0 where
  pub tables : Db DeliveryDb
  pub waits : Waits env s tables
  pub delivery : get_delivery user id tables.resources ≡ some d

delivery_read :
    (o : Option ReminderDelivery) {p : Option ReminderDelivery} {d : ReminderDelivery}
    → p ≡ o
    → read_delivery o ≡ ok d
    → p ≡ some d
delivery_read none same h = absurd (cc h)
delivery_read (some d) same h = same ∙ cc h

load-Seen :
    (env : ℕ → Attempt (Db DeliveryDb)) (user id : Uuid) (s : Db DeliveryDb) {d : ReminderDelivery}
    → (load env user id s).0 ≡ ok d
    → Seen env user id s d
unfolding load
load-Seen env user id s {d = d} h = elim (Bool-cases (is_nil user || is_nil id)) [
  | inl e ↦ absurd (ground (arith, h, e))
  | inr e ↦
      ended (with_user-Outcome env (λ round. load_tx user id) s default_attempts user)
        (rw (e, load) at h)
]
  where
    ended :
        {r : Result ReminderDelivery} {s' : Db DeliveryDb}
        → Outcome env (λ round. load_tx user id) s r s'
        → r ≡ ok d
        → Seen env user id s d
    ended (applied {b = b} {a = a} n waits done) e = record {
      tables = b;
      waits = waits;
      delivery =
          delivery_read (get_delivery user id b.resources) refl
            (ap (λ (q : Result ReminderDelivery × Db DeliveryDb). q.0) done ∙ e);
    }
    ended (unchanged waits) e = absurd (cc e)
    ended (unacknowledged n waits done) e = absurd (cc e)

-- What a run does with the sender: nothing, or one message, of a delivery that some round of the load
-- saw and that is current for the payload.
pub data Sending (library : DeliveryLibrary) (env : ℕ → Attempt (Db DeliveryDb))
    (event : OutboxEvent) (w : World) : List Message → Type 0 where
  silent : Sending library env event w w.sent
  sends :
      (payload : ReminderPayload) (d : ReminderDelivery) (message : Message)
      → parse_payload library event ≡ some payload
      → Seen env event.user_id payload.reminder_id w.db d
      → is_current d payload ≡ true
      → reminder_message library d ≡ some message
      → Sending library env event w (message ∷ w.sent)

module _ (library : DeliveryLibrary) (env_load env_record : ℕ → Attempt (Db DeliveryDb))
    (event : OutboxEvent) (w : World) where
  abbrev Ends : Result (Unit {0}) × World → Type 0
  Ends q = Sending library env_load event w q.1.sent

  module _ (payload : ReminderPayload) (parsed : parse_payload library event ≡ some payload) where
    send_and_record-Ends :
        (d : ReminderDelivery) (db : Db DeliveryDb)
        → Seen env_load event.user_id payload.reminder_id w.db d
        → is_current d payload ≡ true
        → (m : Option Message) → reminder_message library d ≡ m
        → Ends (
            send_and_record library env_load env_record event d m
              (record { db = db; sent = w.sent }))
    send_and_record-Ends d db seen current none e = silent
    send_and_record-Ends d db seen current (some m) e = elim (Bool-cases (library.takes m)) [
      | inl k ↦ rw k (sends payload d m parsed seen current e)
      | inr k ↦ rw k (sends payload d m parsed seen current e)
    ]

    deliver-Ends :
        (d : ReminderDelivery) (db : Db DeliveryDb)
        → Seen env_load event.user_id payload.reminder_id w.db d
        → is_current d payload ≡ true
        → Ends (deliver library env_load env_record event d (record { db = db; sent = w.sent }))
    deliver-Ends d db seen current = elim (Bool-cases (d.channel =ˢ "email")) [
      | inl k ↦ rw k (send_and_record-Ends d db seen current (reminder_message library d) refl)
      | inr k ↦ rw k silent
    ]

    after_load-Ends :
        (q : Result ReminderDelivery × Db DeliveryDb)
        → ((d : ReminderDelivery)
            → q.0 ≡ ok d
            → Seen env_load event.user_id payload.reminder_id w.db d)
        → Ends (after_load library env_load env_record event payload w.sent q)
    after_load-Ends (err e, db) seen = silent
    after_load-Ends (ok d, db) seen = elim (Bool-cases (is_current d payload)) [
      | inl k ↦ rw k (deliver-Ends d db (seen d refl) k)
      | inr k ↦ rw k silent
    ]

  -- Whatever other clients, the server and the sender do: a run of the handler hands the sender at most
  -- one message, and only where some round of its load saw the reminder with a delivery that is current
  -- for the event's payload, whose message it is.
  pub handle-Sending :
      Sending library env_load event w (handle library env_load env_record event w).1.sent
  unfolding handle
  handle-Sending = parsed (parse_payload library event) refl
    where
      parsed :
          (o : Option ReminderPayload)
          → parse_payload library event ≡ o
          → Ends (elim o [
            | none ↦ (err failure, w)
            | some payload ↦
                after_load library env_load env_record event payload w.sent
                  (load env_load event.user_id payload.reminder_id w.db)
          ])
      parsed none e = silent
      parsed (some payload) e =
          after_load-Ends payload e (load env_load event.user_id payload.reminder_id w.db)
            (λ d h. load-Seen env_load event.user_id payload.reminder_id w.db h)
