-- ===== src/Ws/Handshake.antt =====
-- The handshake of crates/core/src/ws.rs: SHA-1, base64 and Sec-WebSocket-Accept. A `u32` is a number below 2 ^ 32; an
-- `|` of numbers without common digits is written as a sum.
mod Tests
pub mod Base64
pub mod Accept
use Prim.Native.Nat.{bit_and, bit_or, bit_xor}
use cadeloop.Prelude.{
  ℕ, zero, suc, ◌+◌, ◌-◌, ◌*◌, ◌/◌, ◌%◌, ◌^◌, Bool, true, false, List, [], ◌∷◌, ◌++◌, length,
  get_or, take, drop, ltb, leb, ◌==◌, if◌then◌else◌,
}
use cadeloop.Ws.Wire.{to_be_bytes, from_be_bytes}

abbrev pub ws_guid : List ℕ
ws_guid =
    50 ∷ 53 ∷ 56 ∷ 69 ∷ 65 ∷ 70 ∷ 65 ∷ 53 ∷ 45 ∷ 69 ∷ 57 ∷ 49 ∷ 52 ∷ 45 ∷ 52 ∷ 55 ∷ 68 ∷ 65 ∷ 45
    ∷ 57 ∷ 53 ∷ 67 ∷ 65 ∷ 45 ∷ 67 ∷ 53 ∷ 65 ∷ 66 ∷ 48 ∷ 68 ∷ 67 ∷ 56 ∷ 53 ∷ 66 ∷ 49 ∷ 49 ∷ []

unfoldable pub rotate_left : ℕ → ℕ → ℕ
rotate_left x n = x * 2 ^ n % 2 ^ 32 + x / 2 ^ (32 - n)

abbrev pub wrapping_add : ℕ → ℕ → ℕ
wrapping_add a b = (a + b) % 2 ^ 32

-- `!b`
abbrev pub inverted : ℕ → ℕ
inverted b = 2 ^ 32 - 1 - b

-- The zeros of the padding: `while msg.len() % 64 != 56`, `k` rounds at most.
unfoldable pub pad_loop : ℕ → List ℕ → List ℕ
pad_loop zero msg = msg
pad_loop (suc k) msg =
    let rest = pad_loop k (msg ++ 0 ∷ []) in if length msg % 64 == 56 then msg else rest

unfoldable pub message : List ℕ → List ℕ
message bytes =
    pad_loop 64 (bytes ++ 0x80 ∷ []) ++ to_be_bytes 8 (length bytes % 2 ^ 64 * 8 % 2 ^ 64)

-- `as_chunks::<64>`, of which there are `k`.
unfoldable pub chunks : ℕ → List ℕ → List (List ℕ)
chunks zero msg = []
chunks (suc k) msg = take 64 msg ∷ chunks k (drop 64 msg)

unfoldable pub first_words : List ℕ → List ℕ
first_words (a ∷ b ∷ c ∷ d ∷ l) = from_be_bytes (a ∷ b ∷ c ∷ d ∷ []) ∷ first_words l
first_words _ = []

-- The words from `i` on, `k` of them.
unfoldable pub more_words : ℕ → ℕ → List ℕ → List ℕ
more_words zero i w = w
more_words (suc k) i w =
    let x =
      bit_xor (bit_xor (bit_xor (get_or w (i - 3) 0) (get_or w (i - 8) 0)) (get_or w (i - 14) 0))
        (get_or w (i - 16) 0) in
    more_words k (suc i) (w ++ rotate_left x 1 ∷ [])

pub record Registers : Type 0 where
  pub a : ℕ
  pub b : ℕ
  pub c : ℕ
  pub d : ℕ
  pub e : ℕ

unfoldable pub mix : ℕ → Registers → ℕ
mix i r =
    if ltb i 20
    then bit_or (bit_and r.b r.c) (bit_and (inverted r.b) r.d)
    else if ltb i 40
    then bit_xor (bit_xor r.b r.c) r.d
    else if ltb i 60
    then bit_or (bit_or (bit_and r.b r.c) (bit_and r.b r.d)) (bit_and r.c r.d)
    else bit_xor (bit_xor r.b r.c) r.d

abbrev pub constant : ℕ → ℕ
constant i =
    if ltb i 20
    then 0x5A827999
    else if ltb i 40
    then 0x6ED9EBA1
    else if ltb i 60
    then 0x8F1BBCDC
    else 0xCA62C1D6

unfoldable pub round : ℕ → ℕ → Registers → Registers
round i w r =
    let f = wrapping_add (rotate_left r.a 5) (mix i r) in
    record {
      a = wrapping_add (wrapping_add (wrapping_add f r.e) (constant i)) w;
      b = r.a;
      c = rotate_left r.b 30;
      d = r.c;
      e = r.d;
    }

unfoldable pub rounds : ℕ → List ℕ → Registers → Registers
rounds i [] r = r
rounds i (w ∷ l) r = rounds (suc i) l (round i w r)

unfoldable pub compress : Registers → List ℕ → Registers
compress h chunk =
    let r = rounds 0 (more_words 64 16 (first_words chunk)) h in
    record {
      a = wrapping_add h.a r.a;
      b = wrapping_add h.b r.b;
      c = wrapping_add h.c r.c;
      d = wrapping_add h.d r.d;
      e = wrapping_add h.e r.e;
    }

unfoldable pub compress_all : Registers → List (List ℕ) → Registers
compress_all h [] = h
compress_all h (chunk ∷ l) = compress_all (compress h chunk) l

abbrev pub initial : Registers
initial = record { a = 0x67452301; b = 0xEFCDAB89; c = 0x98BADCFE; d = 0x10325476; e = 0xC3D2E1F0 }

abbrev pub register_bytes : Registers → List ℕ
register_bytes h =
    to_be_bytes 4 h.a
    ++ (to_be_bytes 4 h.b ++ (to_be_bytes 4 h.c ++ (to_be_bytes 4 h.d ++ to_be_bytes 4 h.e)))

unfoldable pub sha1 : List ℕ → List ℕ
sha1 bytes =
    let msg = message bytes in register_bytes (compress_all initial (chunks (length msg / 64) msg))

-- The table `T`.
abbrev pub alphabet : List ℕ
alphabet =
    65 ∷ 66 ∷ 67 ∷ 68 ∷ 69 ∷ 70 ∷ 71 ∷ 72 ∷ 73 ∷ 74 ∷ 75 ∷ 76 ∷ 77 ∷ 78 ∷ 79 ∷ 80 ∷ 81 ∷ 82 ∷ 83
    ∷ 84 ∷ 85 ∷ 86 ∷ 87 ∷ 88 ∷ 89 ∷ 90 ∷ 97 ∷ 98 ∷ 99 ∷ 100 ∷ 101 ∷ 102 ∷ 103 ∷ 104 ∷ 105 ∷ 106
    ∷ 107 ∷ 108 ∷ 109 ∷ 110 ∷ 111 ∷ 112 ∷ 113 ∷ 114 ∷ 115 ∷ 116 ∷ 117 ∷ 118 ∷ 119 ∷ 120 ∷ 121 ∷ 122
    ∷ 48 ∷ 49 ∷ 50 ∷ 51 ∷ 52 ∷ 53 ∷ 54 ∷ 55 ∷ 56 ∷ 57 ∷ 43 ∷ 47 ∷ []

-- `T[n & 63]`
unfoldable pub letter : ℕ → ℕ
letter n = get_or alphabet (n % 64) 0

abbrev pub group : ℕ → ℕ → ℕ → ℕ
group a b c = a * 2 ^ 16 + b * 2 ^ 8 + c

unfoldable pub base64 : List ℕ → List ℕ
base64 [] = []
base64 (a ∷ []) = letter (group a 0 0 / 2 ^ 18) ∷ letter (group a 0 0 / 2 ^ 12) ∷ 61 ∷ 61 ∷ []
base64 (a ∷ b ∷ []) =
    letter (group a b 0 / 2 ^ 18)
    ∷ letter (group a b 0 / 2 ^ 12)
    ∷ letter (group a b 0 / 2 ^ 6)
    ∷ 61
    ∷ []
base64 (a ∷ b ∷ c ∷ l) =
    letter (group a b c / 2 ^ 18)
    ∷ letter (group a b c / 2 ^ 12)
    ∷ letter (group a b c / 2 ^ 6)
    ∷ letter (group a b c)
    ∷ base64 l

unfoldable pub accept_key : List ℕ → List ℕ
accept_key client_key = base64 (sha1 (client_key ++ ws_guid))
