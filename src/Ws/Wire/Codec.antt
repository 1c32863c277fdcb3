-- ===== src/Ws/Wire/Codec.antt =====
-- Integers in network order, in crates/core/src/ws.rs: what is written is what is read.
use cadeloop.Prelude.{
  ℕ, zero, suc, ◌+◌, ◌*◌, ◌/◌, ◌%◌, ◌^◌, ◌≤◌, ◌<◌, ◌≡◌, refl, List, [], ◌∷◌, ◌++◌, arith, length,
  length-append,
}
use cadeloop.Ws.{byte}
use cadeloop.Ws.Wire.{to_be_bytes, be_from, from_be_bytes}

-- 256 ^ n.
pub bytes_bound : ℕ → ℕ
bytes_bound zero = 1
bytes_bound (suc n) = bytes_bound n * 256

be_from-append :
    (acc : ℕ) (l : List ℕ) (b : ℕ) → be_from acc (l ++ b ∷ []) ≡ be_from acc l * 256 + b
unfolding be_from
be_from-append acc [] b = refl
be_from-append acc (x ∷ l) b = be_from-append (acc * 256 + x) l b

from_be_bytes-to_be_bytes : (n x : ℕ) → x < bytes_bound n → from_be_bytes (to_be_bytes n x) ≡ x
unfolding from_be_bytes to_be_bytes bytes_bound be_from
from_be_bytes-to_be_bytes zero x h = omega arith
from_be_bytes-to_be_bytes (suc n) x h = omega (
  arith,
  be_from-append 0 (to_be_bytes n (x / 256)) (x % 256),
  from_be_bytes-to_be_bytes n (x / 256) (omega arith),
)

pub length-to_be_bytes : (n x : ℕ) → length (to_be_bytes n x) ≡ n
unfolding to_be_bytes
length-to_be_bytes zero x = refl
length-to_be_bytes (suc n) x =
    omega (
      arith,
      length-append (to_be_bytes n (x / 256)) (x % 256 ∷ []),
      length-to_be_bytes n (x / 256),
    )

pub from_be_bytes_16 : (x : ℕ) → x ≤ 65535 → from_be_bytes (to_be_bytes 2 x) ≡ x
unfolding bytes_bound
from_be_bytes_16 x h = from_be_bytes-to_be_bytes 2 x (omega arith)

pub from_be_bytes_64 : (x : ℕ) → x < 2 ^ 63 → from_be_bytes (to_be_bytes 8 x) ≡ x
unfolding bytes_bound
from_be_bytes_64 x h = from_be_bytes-to_be_bytes 8 x (omega arith)

-- The highest byte of a length below 2^63 has its highest bit clear.
pub top_bit_clear : (x : ℕ) (r : List ℕ) → x < 2 ^ 63 → byte (to_be_bytes 8 x ++ r) 0 / 128 % 2 ≡ 0
unfolding to_be_bytes
top_bit_clear x r h = omega arith
