-- ===== src/Backend/Tests.antt =====
-- Runs of crates/core/src/backend/mod.rs at concrete inputs.
use cadeloop.Prelude.{◌≡◌, refl, ◌^◌, true, false}
use cadeloop.Backend.{io_len, max_send_bytes, is_cancelled_error}

long_clamped : io_len (2 ^ 32) ≡ max_send_bytes
unfolding io_len
long_clamped = refl

cancelled_windows : is_cancelled_error true 995 ≡ true
unfolding is_cancelled_error
cancelled_windows = refl

cancelled_elsewhere : is_cancelled_error false 995 ≡ false
unfolding is_cancelled_error
cancelled_elsewhere = refl
