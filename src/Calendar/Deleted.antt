-- ===== src/Calendar/Deleted.antt =====
-- `Delete` of internal/service/calendar.go: the event, its reminders and its changes.
use be_better.Prelude.{ℕ, false, ◌≡◌, refl, sym, subst, ap, List, ◌∷◌, map, All, arith, any_row}
use be_better.Model.{Uuid, SyncChangeDraft, Result, ok, err}
use be_better.Exec.{shaped-ok, reads-ok}
use be_better.Command.{CommandResult}
use be_better.Resources.Rows.{Row, get_row, write_row, attached, written_rows, returned_rows}
use be_better.Resources.Tracked.{
  Tracked-write_row, Tracked-written_rows, Named, Named-cons, change_of, change_of-Named,
  All-Named-weaken, map-change_of-Named,
}
use be_better.Resources.Swept.{any_row-written_rows}
use be_better.Calendar.Store.{
  CalendarEvent, CalendarReminder, CalendarDb, event_versioned, reminder_versioned, deleted_event,
  cancelled, reminder_of_event, with_reminders, get_event, delete_event,
}
use be_better.Calendar.{CalendarFormat}
use be_better.Calendar.Operations.{delete_event_operation}
use be_better.Calendar.Reported.{Reported}

with_reminders-ok :
    (user id : Uuid) (f : CalendarReminder → CalendarReminder) (s : CalendarDb)
    (q : Result CalendarEvent × List (Row CalendarEvent)) {e : CalendarEvent}
    {rs : List CalendarReminder} {t : CalendarDb}
    → with_reminders user id f s q ≡ (ok (e, rs), t)
    → (q ≡ (ok e, t.events))
      × (rs ≡ returned_rows user (reminder_of_event id) f s.reminders)
      × (t.reminders ≡ written_rows user (reminder_of_event id) f s.reminders)
with_reminders-ok user id f s (err x, rows) h = absurd (ground (arith, h))
with_reminders-ok user id f s (ok e', rows) h =
    (ground (arith, h), ground (arith, h), ground (arith, h))

delete_event-ok :
    (user id : Uuid) (expected : ℕ) (s : CalendarDb) (e : CalendarEvent)
    (rs : List CalendarReminder) (t : CalendarDb)
    → delete_event user id expected s ≡ (ok (e, rs), t)
    → (write_row user id expected (deleted_event s.clock) s.events ≡ (ok e, t.events))
      × (rs ≡ returned_rows user (reminder_of_event id) (cancelled s.clock) s.reminders)
      × (t.reminders ≡ written_rows user (reminder_of_event id) (cancelled s.clock) s.reminders)
unfolding delete_event
delete_event-ok user id expected s e rs t h =
    with_reminders-ok user id (cancelled s.clock) s
      (write_row user id expected (deleted_event s.clock) s.events) h

delete_event-Reported :
    (user id : Uuid) (expected : ℕ) (s : CalendarDb) (e : CalendarEvent)
    (rs : List CalendarReminder) (t : CalendarDb)
    → delete_event user id expected s ≡ (ok (e, rs), t)
    → Reported (change_of "calendar_event" "delete" e ∷ map (change_of "reminder" "delete") rs) s t
delete_event-Reported user id expected s e rs t h =
    let rest : List SyncChangeDraft = map (change_of "reminder" "delete") rs in
    let change : SyncChangeDraft = change_of "calendar_event" "delete" e in
    let (event, rs_eq, reminders) = delete_event-ok user id expected s e rs t h in
    record {
      events =
          Tracked-write_row "calendar_event" (change ∷ rest) user id expected
            (deleted_event s.clock) s.events (λ b. (refl, refl)) event
            (change_of-Named "calendar_event" "delete" e rest);
      reminders = rw reminders (
          Tracked-written_rows "reminder" (change ∷ rest) user (reminder_of_event id)
            (cancelled s.clock) s.reminders
            (subst (All (Named "reminder" (change ∷ rest))) rs_eq (
              All-Named-weaken "reminder" rest (change ∷ rest) rs
                (Named-cons "reminder" change rest) (map-change_of-Named "reminder" "delete" rs))));
    }

-- The operation of `Delete` that succeeds tells the sync feed of the event and of every reminder
-- that it writes, each with its new version, and leaves the user no live reminder of the event.
pub delete_event_operation-Reported :
    (format : CalendarFormat) (user id : Uuid) (expected : ℕ) (s : CalendarDb) {r : CommandResult}
    {t : CalendarDb}
    → delete_event_operation format user id expected s ≡ (ok r, t)
    → Reported r.changes s t × (any_row (attached user (reminder_of_event id)) t.reminders ≡ false)
unfolding delete_event_operation get_event
delete_event_operation-Reported format user id expected s {t = t} h =
    let (old, e, k) = reads-ok (λ u. get_row user id u.events) _ s h in
    let (gone, done, made) = shaped-ok (delete_event user id expected) _ s k in
    let (event, rs_eq, reminders) = delete_event-ok user id expected s gone.0 gone.1 t done in
    (
      subst (λ cs. Reported cs s t) (sym (ap (λ r. r.changes) made))
          (delete_event-Reported user id expected s gone.0 gone.1 t done),
      rw reminders (
          any_row-written_rows user (reminder_of_event id) (cancelled s.clock) s.reminders
            (λ row. ground arith)),
    )
