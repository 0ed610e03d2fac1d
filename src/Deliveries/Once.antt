-- ===== src/Deliveries/Once.antt =====
-- A delivery that internal/postgres/reminder_delivery_repository.go has recorded is recorded once.
use be_better.Prelude.{
  Bool, true, false, ◌≡◌, refl, sym, subst, ap, none, some, List, [], ◌∷◌, arith, ◌==◌, find_first,
  find_first-holds, find_first-update_rows, taken, ◌∙◌, update_rows, Bool-cases, Option-cases, inl,
  inr,
}
use be_better.Model.{Uuid, ok}
use be_better.Exec.{◌>>=◌}
use be_better.Store.Changes.{append}
use be_better.Audit
use be_better.Store.{Db}
use be_better.Resources.Rows.{Row, on_value}
use be_better.Calendar.Store.{CalendarReminder, CalendarEvent}
use be_better.Deliveries.{
  is_open, DeliveryDb, DeliveryAccount, ReminderDelivery, ReminderDeliveryResult, DeliveryFormat,
  is_reminder, is_pair, delivery_of, joined, get_delivery, result_matches, is_recorded, recorded,
  with_reminder_rows, record_row, record_tx,
}

-- Where a delivery that was found comes from.
get_delivery-some :
    (user id : Uuid) (s : DeliveryDb) {d : ReminderDelivery}
    → get_delivery user id s ≡ some d
    → (r : Row CalendarReminder) × (find_first (is_reminder user id) s.calendar.reminders ≡ some r)
      × (joined r s ≡ some d)
unfolding get_delivery
get_delivery-some user id s h =
    elim (Option-cases (find_first (is_reminder user id) s.calendar.reminders)) [
      | inl e ↦ absurd (ground (arith, h, e))
      | inr (r, e) ↦ (r, e, rw (e, get_delivery) at h)
    ]

joined-some :
    (r : Row CalendarReminder) (s : DeliveryDb) {d : ReminderDelivery}
    → joined r s ≡ some d
    → (event : Row CalendarEvent) × (account : DeliveryAccount) × (find_first
          (is_pair (λ e. e.id) r.user_id r.value.event_id)
          s.calendar.events
        ≡ some event)
      × (find_first (λ a. a.id == r.user_id) s.accounts ≡ some account)
      × (delivery_of r event account ≡ d)
joined-some r s h =
    elim (Option-cases
      (find_first (is_pair (λ e. e.id) r.user_id r.value.event_id) s.calendar.events)) [
        | inl e ↦ absurd (ground (arith, h, e))
        | inr (event, e) ↦ elim (Option-cases (find_first (λ a. a.id == r.user_id) s.accounts)) [
          | inl k ↦ absurd (ground (arith, h, e, k))
          | inr (account, k) ↦ (event, account, e, k, ground (arith, h, e, k))
        ]
      ]

joined-of :
    (r : Row CalendarReminder) (s : DeliveryDb) (event : Row CalendarEvent)
    (account : DeliveryAccount)
    → find_first (is_pair (λ e. e.id) r.user_id r.value.event_id) s.calendar.events ≡ some event
    → find_first (λ a. a.id == r.user_id) s.accounts ≡ some account
    → joined r s ≡ some (delivery_of r event account)
joined-of r s event account e k = rw (e, joined, k) refl

-- The row behind a delivery that matches is one that the statement writes.
matches-is_recorded :
    (result : ReminderDeliveryResult) (r : Row CalendarReminder) (event : Row CalendarEvent)
    (account : DeliveryAccount)
    → is_reminder result.user_id result.reminder_id r ≡ true
    → result_matches (delivery_of r event account) result ≡ true
    → is_recorded result r.value.version r ≡ true
unfolding result_matches
matches-is_recorded result r event account found matches = ground (arith, found, matches)

-- A reminder that was delivered matches no result.
delivered-result_matches :
    (result : ReminderDeliveryResult) (d : ReminderDelivery)
    → d.status ≡ "delivered"
    → result_matches d result ≡ false
unfolding result_matches
delivered-result_matches result d h =
    let closed : is_open d.status ≡ false = subst (λ status. is_open status ≡ false) (sym h) refl in
    ground (arith, closed)

-- The transaction where no row is to be written.
record_tx-nothing :
    (format : DeliveryFormat) (result : ReminderDeliveryResult) (s : Db DeliveryDb)
    (d : ReminderDelivery)
    → get_delivery result.user_id result.reminder_id s.resources ≡ some d
    → result_matches d result ≡ false
    → record_tx format result s ≡ (ok tt, s)
unfolding record_tx
record_tx-nothing format result s d h k = rw (h, k, record_tx) refl

record_tx-missing :
    (format : DeliveryFormat) (result : ReminderDeliveryResult) (s : Db DeliveryDb)
    → get_delivery result.user_id result.reminder_id s.resources ≡ none
    → record_tx format result s ≡ (ok tt, s)
unfolding record_tx
record_tx-missing format result s h = rw (h, record_tx) refl

-- The delivery of a row that was written, in the tables that were left.
get_delivery-written :
    (result : ReminderDeliveryResult) (s : Db DeliveryDb) (f : CalendarReminder → CalendarReminder)
    (p : Row CalendarReminder → Bool) (r : Row CalendarReminder) (event : Row CalendarEvent)
    (account : DeliveryAccount)
    → ((b : CalendarReminder) → ((f b).id ≡ b.id) × ((f b).event_id ≡ b.event_id))
    → find_first (is_reminder result.user_id result.reminder_id) s.resources.calendar.reminders
      ≡ some r
    → p r ≡ true
    → find_first (is_pair (λ e. e.id) r.user_id r.value.event_id) s.resources.calendar.events
      ≡ some event
    → find_first (λ a. a.id == r.user_id) s.resources.accounts ≡ some account
    → get_delivery result.user_id result.reminder_id
        (with_reminder_rows (update_rows p (on_value f) s.resources.calendar.reminders) s).resources
      ≡ some (delivery_of (on_value f r) event account)
unfolding get_delivery
get_delivery-written result s f p r event account keeps found holds an_event an_account =
    let key : (x : Row CalendarReminder)
        → is_reminder result.user_id result.reminder_id (on_value f x)
          ≡ is_reminder result.user_id result.reminder_id x =
      λ x. rw ((keeps x.value).0) refl in
    let here =
      find_first-update_rows (is_reminder result.user_id result.reminder_id) p (on_value f)
        s.resources.calendar.reminders key in
    let now = rw (found, holds) at here in
    rw (now, get_delivery)
      (joined-of (on_value f r)
        (with_reminder_rows (update_rows p (on_value f) s.resources.calendar.reminders) s).resources
        event account (rw (keeps r.value).1 an_event) an_account)

-- A row that is found passes another test, which therefore finds some row.
find_first-some :
    {A : Type 0} (p q : A → Bool) (rows : List A) {r : A}
    → find_first q rows ≡ some r
    → p r ≡ true
    → (x : A) × (find_first p rows ≡ some x)
find_first-some p q [] h k = absurd (cc h)
find_first-some p q (y ∷ ys) h k = elim (Bool-cases (p y)) [
  | inl e ↦ (y, rw e refl)
  | inr e ↦ elim (taken (q y) y (find_first q ys) h) [
    | inl here ↦ absurd (ground (arith, here.1, e, k))
    | inr later ↦ let (x, found) = find_first-some p q ys later k in (x, rw e found)
  ]
]

-- The transaction where a row is written.
record_tx-written :
    (format : DeliveryFormat) (result : ReminderDeliveryResult) (s : Db DeliveryDb)
    (d : ReminderDelivery) (x : Row CalendarReminder)
    → get_delivery result.user_id result.reminder_id s.resources ≡ some d
    → result_matches d result ≡ true
    → find_first (is_recorded result d.version) s.resources.calendar.reminders ≡ some x
    → (record_tx format result s).1.resources
      ≡ (with_reminder_rows
          (update_rows
            (is_recorded result d.version)
            (on_value (recorded result.outcome s.clock))
            s.resources.calendar.reminders)
          s).resources
unfolding record_tx append Audit.append ◌>>=◌
record_tx-written format result s d x h matches found =
    rw (h, record_tx, matches, record_row, found) refl

-- A transaction that recorded a delivery leaves the reminder delivered.
written-delivered :
    (format : DeliveryFormat) (result : ReminderDeliveryResult) (s : Db DeliveryDb)
    (d : ReminderDelivery)
    → result.outcome ≡ "delivered"
    → get_delivery result.user_id result.reminder_id s.resources ≡ some d
    → result_matches d result ≡ true
    → (e : ReminderDelivery) × (get_delivery result.user_id result.reminder_id
          (record_tx format result s).1.resources
        ≡ some e)
      × (e.status ≡ "delivered")
written-delivered format result s d outcome h matches =
    let (r, found, join) = get_delivery-some result.user_id result.reminder_id s.resources h in
    let (event, account, an_event, an_account, same) = joined-some r s.resources join in
    let is_found =
      find_first-holds (is_reminder result.user_id result.reminder_id)
        s.resources.calendar.reminders r found in
    let holds : is_recorded result d.version r ≡ true =
      subst (λ x. is_recorded result x.version r ≡ true) same
        (matches-is_recorded result r event account is_found
          (subst (λ x. result_matches x result ≡ true) (sym same) matches)) in
    let written =
      get_delivery-written result s (recorded result.outcome s.clock) (is_recorded result d.version)
        r event account (λ b. (refl, refl)) found holds an_event an_account in
    let (x, some_row) =
      find_first-some (is_recorded result d.version) (is_reminder result.user_id result.reminder_id)
        s.resources.calendar.reminders found holds in
    let after = record_tx-written format result s d x h matches some_row in
    (
      delivery_of (on_value (recorded result.outcome s.clock) r) event account,
      ap (get_delivery result.user_id result.reminder_id) after ∙ written,
      outcome,
    )

-- The closure of `RecordResult`, for a reminder that was delivered: run once more on the tables that
-- it left, it succeeds and changes nothing, whether or not the first run wrote anything.
pub record_tx-record_tx :
    (format : DeliveryFormat) (result : ReminderDeliveryResult) (s : Db DeliveryDb)
    → result.outcome ≡ "delivered"
    → record_tx format result (record_tx format result s).1 ≡ (ok tt, (record_tx format result s).1)
record_tx-record_tx format result s outcome =
    elim (Option-cases (get_delivery result.user_id result.reminder_id s.resources)) [
      | inl e ↦ let same = record_tx-missing format result s e in rw (same, same) refl
      | inr (d, e) ↦ elim (Bool-cases (result_matches d result)) [
        | inl k ↦
            let (d', here, status) = written-delivered format result s d outcome e k in
            record_tx-nothing format result (record_tx format result s).1 d' here
              (delivered-result_matches result d' status)
        | inr k ↦ let same = record_tx-nothing format result s d e k in rw (same, same) refl
      ]
    ]
