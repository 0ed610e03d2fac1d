-- ===== src/Calendar/Reported.antt =====
-- The commands of internal/service/calendar.go that create and delete an event, against the changes
-- that they hand to the sync feed.
use be_better.Prelude.{
  ℕ, suc, ◌≡◌, sym, subst, ap, List, [], ◌∷◌, map, All, arith, Bool, true, false, not, ◌&&◌, ◌==◌,
  if◌then◌else◌, any_row,
}
use be_better.Model.{Uuid, SyncChangeDraft, Error, postgres, conflict, not_found, Result, ok, err}
use be_better.Exec.{pure, >>=-eq-ok, shaped-ok}
use be_better.Command.{CommandResult}
use be_better.Resources.Rows.{Row, insert_row}
use be_better.Resources.Tracked.{
  Tracked, Tracked-refl, Tracked-insert_row, Named, Named-cons, change_of, change_of-Named,
  All-Named-weaken, map-change_of-Named,
}
use be_better.Resources.Chain.{Tracked-trans}
use be_better.Calendar.Store.{
  CalendarEvent, CalendarReminder, CalendarDb, event_versioned, reminder_versioned, on_events,
  on_reminders, inserted_event, create_event,
}
use be_better.Calendar.Reminders.{
  inserted_reminder, passes_checks, same_slot, insert_reminder, create_reminder,
}
use be_better.Calendar.{ReminderInput, CalendarFormat, reminder_from_input}
use be_better.Calendar.Operations.{create_reminders, create_event_operation}

-- Every event and every reminder that differs is named by the changes with its new version.
pub record Reported (changes : List SyncChangeDraft) (s t : CalendarDb) : Type 0 where
  pub events : Tracked "calendar_event" changes s.events t.events
  pub reminders : Tracked "reminder" changes s.reminders t.reminders

on_events-ok :
    {A : Type 0} (s : CalendarDb) (q : Result A × List (Row CalendarEvent)) {a : A} {t : CalendarDb}
    → on_events s q ≡ (ok a, t)
    → (q ≡ (ok a, t.events)) × (t.reminders ≡ s.reminders)
on_events-ok s (r, rows) h = (ground arith, ground arith)

pub on_reminders-ok :
    {A : Type 0} (s : CalendarDb) (q : Result A × List (Row CalendarReminder)) {a : A}
    {t : CalendarDb}
    → on_reminders s q ≡ (ok a, t)
    → (q ≡ (ok a, t.reminders)) × (t.events ≡ s.events)
on_reminders-ok s (r, rows) h = (ground arith, ground arith)

-- A row that the constraints let in.
pub passed :
    {A B : Type 0} (b : Bool) (e : Error) (rows : B) {q : Result A × B} {a : A} {rows' : B}
    → (if b then (err e, rows) else q) ≡ (ok a, rows')
    → q ≡ (ok a, rows')
passed true e rows h = absurd (ground (arith, h))
passed false e rows h = h

pub insert_reminder-ok :
    (user : Uuid) (reminder : CalendarReminder) (s : CalendarDb) {r : CalendarReminder}
    {rows : List (Row CalendarReminder)}
    → insert_reminder user reminder s ≡ (ok r, rows)
    → insert_row user reminder s.reminders ≡ (ok r, rows)
insert_reminder-ok user reminder s h =
    passed (not (any_row (λ r. r.user_id == user && r.value.id == reminder.event_id) s.events))
      not_found s.reminders
      (passed (any_row (same_slot user reminder) s.reminders) conflict s.reminders
        (passed (not (passes_checks reminder)) (postgres "23514") s.reminders h))

pub create_reminder-Tracked :
    (changes : List SyncChangeDraft) (user : Uuid) (reminder : CalendarReminder) (s : CalendarDb)
    {r : CalendarReminder} {t : CalendarDb}
    → create_reminder user reminder s ≡ (ok r, t)
    → Named "reminder" changes r
    → Tracked "reminder" changes s.reminders t.reminders × (t.events ≡ s.events)
unfolding create_reminder
create_reminder-Tracked changes user reminder s h named =
    let (done, events) =
      on_reminders-ok s (insert_reminder user (inserted_reminder s.clock reminder) s) h in
    (
      Tracked-insert_row "reminder" changes user (inserted_reminder s.clock reminder) s.reminders
          (insert_reminder-ok user (inserted_reminder s.clock reminder) s done) named,
      events,
    )

create_reminders-Tracked :
    (changes : List SyncChangeDraft) (fresh : ℕ → Uuid) (i : ℕ) (user : Uuid)
    (event : CalendarEvent) (inputs : List ReminderInput) (s : CalendarDb)
    {rs : List CalendarReminder} {t : CalendarDb}
    → create_reminders fresh i user event inputs s ≡ (ok rs, t)
    → All (Named "reminder" changes) rs
    → Tracked "reminder" changes s.reminders t.reminders × (t.events ≡ s.events)
unfolding create_reminders pure
create_reminders-Tracked changes fresh i user event [] s {t = t} h named =
    let same : s ≡ t = ap (λ (q : Result (List CalendarReminder) × CalendarDb). q.1) h in
    (
      subst (λ u. Tracked "reminder" changes s.reminders u.reminders) same
          (Tracked-refl "reminder" changes s.reminders),
      ap (λ u. u.events) (sym same),
    )
create_reminders-Tracked changes fresh i user event (input ∷ inputs) s {rs = rs} h named =
    let (r, s1, e, k) =
      >>=-eq-ok (create_reminder user (reminder_from_input (fresh i) event input)) _ s h in
    let (rest, later, made) = shaped-ok (create_reminders fresh (suc i) user event inputs) _ s1 k in
    let all = subst (All (Named "reminder" changes)) made named in
    let (first, first_events) =
      create_reminder-Tracked changes user (reminder_from_input (fresh i) event input) s e all.0 in
    let (more, more_events) =
      create_reminders-Tracked changes fresh (suc i) user event inputs s1 later all.1 in
    (Tracked-trans first more, rw more_events first_events)

create_event-ok :
    (user : Uuid) (event : CalendarEvent) (s : CalendarDb) {e : CalendarEvent} {t : CalendarDb}
    → create_event user event s ≡ (ok e, t)
    → (insert_row user (inserted_event s.clock event) s.events ≡ (ok e, t.events))
      × (t.reminders ≡ s.reminders)
unfolding create_event
create_event-ok user event s h =
    on_events-ok s (insert_row user (inserted_event s.clock event) s.events) h

create_event-Reported :
    (user : Uuid) (event : CalendarEvent) (fresh : ℕ → Uuid) (inputs : List ReminderInput)
    (s s1 t : CalendarDb) (e : CalendarEvent) (rs : List CalendarReminder)
    → create_event user event s ≡ (ok e, s1)
    → create_reminders fresh 0 user e inputs s1 ≡ (ok rs, t)
    → Reported (change_of "calendar_event" "create" e ∷ map (change_of "reminder" "create") rs) s t
create_event-Reported user event fresh inputs s s1 t e rs h k =
    let rest : List SyncChangeDraft = map (change_of "reminder" "create") rs in
    let change : SyncChangeDraft = change_of "calendar_event" "create" e in
    let (inserted, same) = create_event-ok user event s h in
    let named : All (Named "reminder" (change ∷ rest)) rs =
      All-Named-weaken "reminder" rest (change ∷ rest) rs (Named-cons "reminder" change rest)
        (map-change_of-Named "reminder" "create" rs) in
    let (tracked, events) =
      create_reminders-Tracked (change ∷ rest) fresh 0 user e inputs s1 k named in
    record {
      events = rw events (
          Tracked-insert_row "calendar_event" (change ∷ rest) user (inserted_event s.clock event)
            s.events inserted (change_of-Named "calendar_event" "create" e rest));
      reminders = subst (λ rows. Tracked "reminder" (change ∷ rest) rows t.reminders) same tracked;
    }

-- The operation of `Create` that succeeds tells the sync feed of the event and of each reminder that
-- it adds: each has a change with its type, its id and its version.
pub create_event_operation-Reported :
    (format : CalendarFormat) (fresh : ℕ → Uuid) (user : Uuid) (event : CalendarEvent)
    (inputs : List ReminderInput) (s : CalendarDb) {r : CommandResult} {t : CalendarDb}
    → create_event_operation format fresh user event inputs s ≡ (ok r, t)
    → Reported r.changes s t
unfolding create_event_operation
create_event_operation-Reported format fresh user event inputs s {t = t} h =
    let (e, s1, created, k) = >>=-eq-ok (create_event user event) _ s h in
    let (rs, added, made) = shaped-ok (create_reminders fresh 0 user e inputs) _ s1 k in
    subst (λ cs. Reported cs s t) (sym (ap (λ r. r.changes) made))
      (create_event-Reported user event fresh inputs s s1 t e rs created added)
