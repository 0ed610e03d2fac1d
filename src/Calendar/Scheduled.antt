-- ===== src/Calendar/Scheduled.antt =====
-- The reminders that `validateReminderInputs` of internal/service/calendar.go lets through, against
-- the widths of the integers that they go through.
use be_better.Prelude.{
  ℕ, zero, suc, ◌+◌, ◌*◌, ◌-◌, ◌%◌, ◌≤◌, ◌<◌, ℤ, pos, negsuc, ltb_ℤ, wrapped, int32_half,
  int64_half, false, ◌≡◌, refl, List, [], ◌∷◌, All, arith, Bool-cases, inl, inr,
}
use be_better.Model.{Time, minute, ok}
use be_better.Calendar.Store.{minutes_before}
use be_better.Calendar.{
  ReminderInput, bad_reminder, is_seen, check_reminders, validate_reminder_inputs, duration_before,
  add_duration,
}

-- A negative number that 64 bits have.
negative-wrapped : (x : ℕ) → x < int64_half → wrapped int64_half (negsuc x) ≡ negsuc x
negative-wrapped x h =
    let low : x % (int64_half + int64_half) ≡ x = omega arith in ground (arith, low)

-- What the validation says of an offset that is not zero or more.
offset-cases :
    (z : ℤ)
    → ltb_ℤ z (pos 0) ≡ false
    → ltb_ℤ (pos 525600) z ≡ false
    → (n : ℕ) × (z ≡ pos n) × (n ≤ 525600)
offset-cases (pos n) low high = (n, refl, ground (arith, high))
offset-cases (negsuc n) low high = absurd (ground (arith, low))

pos-exact :
    (start : Time) (n : ℕ)
    → n ≤ 525600
    → add_duration start (duration_before (pos n)) ≡ minutes_before start (pos n)
pos-exact start zero h = omega arith
pos-exact start (suc n) h =
    let same = negative-wrapped (suc n * minute - 1) (omega arith) in rw same (omega arith)

-- An offset that goes through its integers unchanged: the column keeps it, and the time that the
-- service computes for it is the one that `RescheduleCalendarReminders` would set.
pub record Exact (input : ReminderInput) : Type 0 where
  pub fits : wrapped int32_half input.offset_minutes ≡ input.offset_minutes
  pub scheduled :
      (start : Time)
      → add_duration start (duration_before input.offset_minutes)
        ≡ minutes_before start input.offset_minutes

good-Exact : (input : ReminderInput) → bad_reminder input ≡ false → Exact input
good-Exact input h =
    let (n, same, bound) =
      offset-cases input.offset_minutes (ground (arith, h)) (ground (arith, h)) in
    record {
      fits = rw same (ground (arith, bound));
      scheduled = λ start. rw same (pos-exact start n bound);
    }

check_reminders-Exact :
    (seen inputs : List ReminderInput) → check_reminders seen inputs ≡ ok tt → All Exact inputs
check_reminders-Exact seen [] h = tt
check_reminders-Exact seen (input ∷ inputs) h = elim (Bool-cases (bad_reminder input)) [
  | inl e ↦ absurd (ground (arith, h, e))
  | inr e ↦ elim (Bool-cases (is_seen input seen)) [
    | inl k ↦ absurd (ground (arith, h, e, k))
    | inr k ↦
        (good-Exact input e, check_reminders-Exact (input ∷ seen) inputs (ground (arith, h, e, k)))
  ]
]

-- Every reminder input that `validateReminderInputs` lets through goes unchanged through the 32 bits
-- of its column, and the 64 bits of the duration that the service subtracts do not overflow: from any
-- start, the time that it computes is the one that `RescheduleCalendarReminders` would set.
pub validate_reminder_inputs-Exact :
    (inputs : List ReminderInput) → validate_reminder_inputs inputs ≡ ok tt → All Exact inputs
unfolding validate_reminder_inputs
validate_reminder_inputs-Exact inputs h = check_reminders-Exact [] inputs h
