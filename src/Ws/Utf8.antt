-- ===== src/Ws/Utf8.antt =====
-- `String::from_utf8` and `str::is_char_boundary`, of which crates/core/src/ws.rs makes use: the table of
-- well-formed byte sequences of the Unicode standard, read from left to right.
use cadeloop.Prelude.{
  ℕ, zero, suc, Bool, true, false, ◌&&◌, Option, none, some, List, [], ◌∷◌, leb, ltb, ◌==◌,
  if◌then◌else◌, length, get_elem?, ◌||◌,
}

-- What a first byte asks for: how many bytes follow, and the range of the next one.
unfoldable pub lead : ℕ → Option (ℕ × (ℕ × ℕ))
lead b =
    if ltb b 0x80
    then some (0, (0x80, 0xBF))
    else if ltb b 0xC2
    then none
    else if ltb b 0xE0
    then some (1, (0x80, 0xBF))
    else if b == 0xE0
    then some (2, (0xA0, 0xBF))
    else if b == 0xED
    then some (2, (0x80, 0x9F))
    else if ltb b 0xF0
    then some (2, (0x80, 0xBF))
    else if b == 0xF0
    then some (3, (0x90, 0xBF))
    else if ltb b 0xF4
    then some (3, (0x80, 0xBF))
    else if b == 0xF4
    then some (3, (0x80, 0x8F))
    else none

-- What follows the first byte, judged by `rest`.
unfoldable pub enter : Option (ℕ × (ℕ × ℕ)) → (ℕ → ℕ → ℕ → Bool) → Bool
enter none rest = false
enter (some (n, (lo, hi))) rest = rest n lo hi

-- `n` bytes are still owed, the next one in the range from `lo` to `hi`.
unfoldable pub follow : ℕ → ℕ → ℕ → List ℕ → Bool
follow zero lo hi [] = true
follow (suc n) lo hi [] = false
follow zero lo hi (b ∷ l) = enter (lead b) (λ n lo' hi'. follow n lo' hi' l)
follow (suc n) lo hi (b ∷ l) = leb lo b && leb b hi && follow n 0x80 0xBF l

unfoldable pub is_utf8 : List ℕ → Bool
is_utf8 l = follow zero 0x80 0xBF l

unfoldable pub from_utf8 : List ℕ → Option (List ℕ)
from_utf8 l = if is_utf8 l then some l else none

-- The byte at `i` is not a continuation byte, or `i` is the length.
unfoldable pub is_char_boundary : List ℕ → ℕ → Bool
is_char_boundary s i = elim (get_elem? s i) [
  | none ↦ i == length s
  | some b ↦ i == 0 || (ltb b 0x80 || leb 0xC0 b)
]
