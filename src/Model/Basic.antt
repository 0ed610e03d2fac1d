-- ===== src/Model/Basic.antt =====
-- Identifiers and instants. A `uuid.UUID` is its 128-bit number. A `time.Time` is the number of
-- nanoseconds since 0000-01-01T00:00:00Z, the first instant that RFC 3339 can write, so that both
-- the zero `time.Time` (year 1) and the Unix epoch are positive; earlier instants are not modelled.
use be_better.Prelude.{ℕ, ◌+◌, ◌*◌, ◌/◌, ◌%◌, ◌-◌, Bool, ◌==◌}

abbrev pub Uuid : Type 0
Uuid = ℕ

-- `uuid.Nil`
abbrev pub nil_uuid : Uuid
nil_uuid = 0

abbrev pub is_nil : Uuid → Bool
is_nil id = id == nil_uuid

abbrev pub Time : Type 0
Time = ℕ

-- Durations are nanoseconds too.
abbrev pub second : ℕ
second = 1_000_000_000

abbrev pub minute : ℕ
minute = 60_000_000_000

abbrev pub hour : ℕ
hour = 3_600_000_000_000

-- `time.Time{}`: 366 days after the origin.
abbrev pub zero_time : Time
zero_time = 31_622_400_000_000_000

abbrev pub is_zero_time : Time → Bool
is_zero_time t = t == zero_time

-- `time.Unix(0, 0)` in seconds after the origin: 719528 days.
abbrev pub epoch_seconds : ℕ
epoch_seconds = 62_167_219_200

-- `uint64(t.Unix())`: seconds before 1970 wrap around.
abbrev pub unix_seconds : Time → ℕ
unix_seconds t =
    (t / 1_000_000_000 + (18_446_744_073_709_551_616 - epoch_seconds)) % 18_446_744_073_709_551_616

-- `time.Unix(int64(n), 0)` for an `n` that fits an int64.
abbrev pub from_unix_seconds : ℕ → Time
from_unix_seconds n = (n + epoch_seconds) * 1_000_000_000

-- `math.MaxInt64`
abbrev pub max_int64 : ℕ
max_int64 = 9_223_372_036_854_775_807
