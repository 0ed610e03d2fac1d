-- ===== src/Calendar/Matched.antt =====
-- The reminders that `Update` of internal/service/calendar.go keeps and creates.
use be_better.Prelude.{All, some, false, ◌≡◌, List, [], ◌∷◌, true, wrapped, int32_half, find_first}
use be_better.Calendar.Store.{CalendarReminder, reminder_versioned}
use be_better.Calendar.{ReminderInput}
use be_better.Calendar.Operations.{Reconciled, has_key}

-- Of a list of reminders, those that have the key of an input are gone and the others stay.
pub data Removed (input : ReminderInput)
    : List CalendarReminder → List CalendarReminder → Type 0 where
  ended : Removed input [] []
  gone :
      {rs kept : List CalendarReminder} (r : CalendarReminder)
      → has_key input r ≡ true
      → Removed input rs kept
      → Removed input (r ∷ rs) kept
  stays :
      {rs kept : List CalendarReminder} (r : CalendarReminder)
      → has_key input r ≡ false
      → Removed input rs kept
      → Removed input (r ∷ rs) (r ∷ kept)

-- What the inputs make of the reminders that there are: in the order of the inputs one reminder with
-- the key of each, and the reminders that no input kept. An input whose key there is keeps the first
-- reminder that has it and takes it off; for one whose key there is not, a reminder is created.
pub data Matched
    : List ReminderInput
      → List CalendarReminder
      → List Reconciled
      → List CalendarReminder
      → Type 0 where
  none_left : {remaining : List CalendarReminder} → Matched [] remaining [] remaining
  kept :
      {inputs : List ReminderInput} {remaining shorter left : List CalendarReminder}
      {rs : List Reconciled} (input : ReminderInput) (r : Reconciled)
      → r.operation ≡ "update"
      → find_first (has_key input) remaining ≡ some r.reminder
      → has_key input r.reminder ≡ true
      → Removed input remaining shorter
      → Matched inputs shorter rs left
      → Matched (input ∷ inputs) remaining (r ∷ rs) left
  created :
      {inputs : List ReminderInput} {remaining left : List CalendarReminder} {rs : List Reconciled}
      (input : ReminderInput) (r : Reconciled)
      → r.operation ≡ "create"
      → All (λ other. has_key input other ≡ false) remaining
      → has_key input r.reminder ≡ true
      → Matched inputs remaining rs left
      → Matched (input ∷ inputs) remaining (r ∷ rs) left

-- The offset fits the column.
abbrev pub Fits : ReminderInput → Type 0
Fits input = wrapped int32_half input.offset_minutes ≡ input.offset_minutes
