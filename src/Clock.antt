-- ===== src/Clock.antt =====
-- The loop's clock (crates/core/src/time.rs). A reading of the platform's clock, `raw`, is an argument of
-- the operations that take one.
use cadeloop.Prelude.{ℕ, ◌+◌, ◌-◌, ◌^◌, Bool, true, false, min, if◌then◌else◌}

-- An `i64`, by its sign.
pub data Offset : Type 0 where
  ahead behind : ℕ → Offset

pub record Clock : Type 0 where
  pub offset : Offset
  pub cached : ℕ
  pub stale : Bool

-- `saturating_add_signed`
pub shifted : ℕ → Offset → ℕ
shifted raw (ahead n) = min (raw + n) (2 ^ 64 - 1)
shifted raw (behind n) = raw - n

unfoldable pub now : Clock → ℕ → ℕ
now c raw = shifted raw c.offset

unfoldable pub refresh : Clock → ℕ → Clock × ℕ
refresh c raw = (record c { cached = now c raw; stale = false }, now c raw)

pub with_offset : Offset → ℕ → Clock
with_offset offset raw = (refresh (record { offset = offset; cached = 0; stale = true }) raw).0

unfoldable pub invalidate : Clock → Clock
invalidate c = record c { stale = true }

unfoldable pub cached_time : Clock → ℕ → Clock × ℕ
cached_time c raw = if c.stale then refresh c raw else (c, c.cached)
