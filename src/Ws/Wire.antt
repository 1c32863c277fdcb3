-- ===== src/Ws/Wire.antt =====
-- The frames that crates/core/src/ws.rs writes.
pub mod Codec
pub mod Truncate
use cadeloop.Prelude.{
  ℕ, zero, suc, ◌+◌, ◌-◌, ◌*◌, ◌/◌, ◌%◌, Bool, true, false, not, List, [], ◌∷◌, ◌++◌, length, take,
  ltb, leb, ◌==◌, if◌then◌else◌,
}
use cadeloop.Ws.{op_close}
use cadeloop.Ws.Utf8.{is_char_boundary}

-- `to_be_bytes` of an integer of `n` bytes, which takes the low ones.
unfoldable pub to_be_bytes : ℕ → ℕ → List ℕ
to_be_bytes zero x = []
to_be_bytes (suc n) x = to_be_bytes n (x / 256) ++ x % 256 ∷ []

unfoldable pub be_from : ℕ → List ℕ → ℕ
be_from acc [] = acc
be_from acc (b ∷ l) = be_from (acc * 256 + b) l

unfoldable pub from_be_bytes : List ℕ → ℕ
from_be_bytes l = be_from 0 l

unfoldable pub frame : ℕ → List ℕ → List ℕ
frame opcode payload =
    let n = length payload in
    let size =
      if ltb n 126
      then n ∷ []
      else if leb n 0xFFFF
      then 126 ∷ to_be_bytes 2 n
      else 127 ∷ to_be_bytes 8 n in
    (0x80 + opcode % 16) ∷ (size ++ payload)

-- `while end > 0 && !s.is_char_boundary(end)`
unfoldable pub boundary_below : List ℕ → ℕ → ℕ
boundary_below s zero = zero
boundary_below s (suc i) =
    let rest = boundary_below s i in if not (is_char_boundary s (suc i)) then rest else suc i

unfoldable pub truncate_on_char_boundary : List ℕ → ℕ → List ℕ
truncate_on_char_boundary s max = if leb (length s) max then s else take (boundary_below s max) s

unfoldable pub close_frame : ℕ → List ℕ → List ℕ
close_frame code reason =
    let kept = truncate_on_char_boundary reason 123 in frame op_close (to_be_bytes 2 code ++ kept)
