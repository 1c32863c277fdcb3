-- ===== src/Backend/Length.antt =====
-- The clamp `io_len` of crates/core/src/backend/mod.rs.
use cadeloop.Prelude.{ℕ, ◌≤◌, ◌<◌, arith}
use cadeloop.Backend.{io_len, max_send_bytes}

-- The length of a write that is not empty is never wrapped to zero: it is positive, at most the length asked
-- for, and at most MAX_SEND_BYTES, so that a write in parts goes on until the end.
pub io_len_correct :
    (len : ℕ) → 0 < len → (0 < io_len len) × (io_len len ≤ len) × (io_len len ≤ max_send_bytes)
unfolding io_len
io_len_correct len p = (ground arith, ground arith, ground arith)
