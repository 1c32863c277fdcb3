-- ===== src/Backend.antt =====
-- What the backends share (crates/core/src/backend/mod.rs): the clamp of a length, and the milliseconds of a
-- wait. A `Duration` is its nanoseconds.
mod Length
mod Tests
use cadeloop.Prelude.{ℕ, ◌+◌, ◌-◌, ◌*◌, ◌/◌, ◌%◌, ◌^◌, Bool, min, max, ltb, if◌then◌else◌, ◌==◌}

abbrev pub max_send_bytes : ℕ
max_send_bytes = 2 ^ 30

-- The cast to `u32` keeps every number up to the clamp.
unfoldable pub io_len : ℕ → ℕ
io_len len = min len max_send_bytes % 2 ^ 32

-- A wait that is not zero is at least a millisecond.
pub wait_millis : ℕ → ℕ
wait_millis t = if t == 0 then 0 else max (t / 1000000) 1

-- By whether the platform is Windows.
unfoldable pub is_cancelled_error : Bool → ℕ → Bool
is_cancelled_error windows code = if windows then code == 995 else code == 125
