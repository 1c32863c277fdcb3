-- ===== src/Ws/Handshake/Accept.antt =====
-- What Sec-WebSocket-Accept of crates/core/src/ws.rs is, and the padding of its SHA-1.
use cadeloop.Prelude.{
  ℕ, zero, suc, ◌+◌, ◌-◌, ◌*◌, ◌/◌, ◌%◌, ◌^◌, ◌<◌, ◌≤◌, ◌≡◌, ◌≢◌, refl, sym, ap, ◌∙◌, Bool-cases,
  List, [], ◌∷◌, ◌++◌, append_assoc, append-nil, length, length-append, arith, ◌==◌, inl, inr,
}
use cadeloop.Ws.Wire.{to_be_bytes}
use cadeloop.Ws.Wire.Codec.{length-to_be_bytes}
use cadeloop.Ws.Handshake.{ws_guid, pad_loop, message, Registers, register_bytes, sha1, accept_key}
use cadeloop.Ws.Handshake.Base64.{AllBytes, decoded, decoded-base64, length-base64}

abbrev pub zeros : ℕ → List ℕ
zeros zero = []
zeros (suc n) = 0 ∷ zeros n

-- How many zeros bring a length to 56 modulo 64.
abbrev pub missing : ℕ → ℕ
missing n = (120 - n % 64) % 64

length-zeros : (n : ℕ) → length (zeros n) ≡ n
length-zeros zero = refl
length-zeros (suc n) = omega (arith, length-zeros n)

missing_none : (n : ℕ) → n % 64 ≡ 56 → missing n ≡ 0
missing_none n h = omega arith

missing_next : (n : ℕ) → n % 64 ≢ 56 → missing n ≡ suc (missing (n + 1))
missing_next n h = omega arith

zeros_are : (n m : ℕ) (msg : List ℕ) → n ≡ m → msg ++ zeros n ≡ msg ++ zeros m
zeros_are n m msg e = ap (λ k. msg ++ zeros k) e

pad_loop_lem :
    (k : ℕ) (msg : List ℕ)
    → missing (length msg) ≤ k
    → pad_loop k msg ≡ msg ++ zeros (missing (length msg))
unfolding pad_loop
pad_loop_lem zero msg h =
    sym (append-nil msg) ∙ zeros_are 0 (missing (length msg)) msg (omega arith)
pad_loop_lem (suc k) msg h = elim (Bool-cases (length msg % 64 == 56)) [
  | inl e ↦ rw e (
      sym (append-nil msg)
      ∙ zeros_are 0 (missing (length msg)) msg (sym (missing_none (length msg) (ground arith))))
  | inr e ↦
      let n = missing_next (length msg) (ground arith) in
      let l = length-append msg (0 ∷ []) in
      rw e (
        pad_loop_lem k (msg ++ 0 ∷ []) (omega arith)
        ∙ append_assoc msg (0 ∷ []) (zeros (missing (length (msg ++ 0 ∷ []))))
        ∙ zeros_are (suc (missing (length (msg ++ 0 ∷ [])))) (missing (length msg)) msg
            (omega arith))
]

-- The loop that pads a SHA-1 message ends: the message is the bytes, 0x80, fewer than 64 zeros and the length in bits,
-- and it is whole 64-byte blocks, so that `as_chunks` leaves nothing over.
pub message_padded :
    (bytes : List ℕ)
    → (message bytes
        ≡ ((bytes ++ 0x80 ∷ []) ++ zeros (missing (length bytes + 1)))
          ++ to_be_bytes 8 (length bytes % 2 ^ 64 * 8 % 2 ^ 64))
      × (missing (length bytes + 1) < 64)
      × (length (message bytes) % 64 ≡ 0)
unfolding message
message_padded bytes =
    let n = length-append bytes (0x80 ∷ []) in
    let p = pad_loop_lem 64 (bytes ++ 0x80 ∷ []) (omega arith) in
    let z =
      zeros_are (missing (length (bytes ++ 0x80 ∷ []))) (missing (length bytes + 1))
        (bytes ++ 0x80 ∷ []) (omega arith) in
    let tail = to_be_bytes 8 (length bytes % 2 ^ 64 * 8 % 2 ^ 64) in
    let e : pad_loop 64 (bytes ++ 0x80 ∷ [])
        ≡ (bytes ++ 0x80 ∷ []) ++ zeros (missing (length bytes + 1)) =
      p ∙ z in
    (
      ap (λ k. k ++ tail) e,
      omega arith,
      ap (λ k. length (k ++ tail) % 64) e
          ∙ omega (
            arith,
            length-append ((bytes ++ 0x80 ∷ []) ++ zeros (missing (length bytes + 1))) tail,
            length-append (bytes ++ 0x80 ∷ []) (zeros (missing (length bytes + 1))),
            length-zeros (missing (length bytes + 1)),
            length-to_be_bytes 8 (length bytes % 2 ^ 64 * 8 % 2 ^ 64),
            n,
          ),
    )

append-AllBytes : (xs ys : List ℕ) → AllBytes xs → AllBytes ys → AllBytes (xs ++ ys)
append-AllBytes [] ys a b = b
append-AllBytes (x ∷ l) ys (h, t) b = (h, append-AllBytes l ys t b)

to_be_bytes-AllBytes : (n x : ℕ) → AllBytes (to_be_bytes n x)
unfolding to_be_bytes
to_be_bytes-AllBytes zero x = tt
to_be_bytes-AllBytes (suc n) x =
    append-AllBytes (to_be_bytes n (x / 256)) (x % 256 ∷ []) (to_be_bytes-AllBytes n (x / 256))
      (omega arith, tt)

word-AllBytes : (x : ℕ) (l : List ℕ) → AllBytes l → AllBytes (to_be_bytes 4 x ++ l)
word-AllBytes x l h = append-AllBytes (to_be_bytes 4 x) l (to_be_bytes-AllBytes 4 x) h

length-word : (x : ℕ) (l : List ℕ) → length (to_be_bytes 4 x ++ l) ≡ 4 + length l
length-word x l = omega (arith, length-append (to_be_bytes 4 x) l, length-to_be_bytes 4 x)

register_bytes-AllBytes : (h : Registers) → AllBytes (register_bytes h)
register_bytes-AllBytes h =
    word-AllBytes h.a _
      (word-AllBytes h.b _ (word-AllBytes h.c _ (word-AllBytes h.d _ (to_be_bytes-AllBytes 4 h.e))))

length-register_bytes : (h : Registers) → length (register_bytes h) ≡ 20
length-register_bytes h = omega (
  arith,
  length-word h.a
      (to_be_bytes 4 h.b ++ (to_be_bytes 4 h.c ++ (to_be_bytes 4 h.d ++ to_be_bytes 4 h.e))),
  length-word h.b (to_be_bytes 4 h.c ++ (to_be_bytes 4 h.d ++ to_be_bytes 4 h.e)),
  length-word h.c (to_be_bytes 4 h.d ++ to_be_bytes 4 h.e),
  length-word h.d (to_be_bytes 4 h.e),
  length-to_be_bytes 4 h.e,
)

-- Sec-WebSocket-Accept has 28 letters for every key, and decodes to the SHA-1 of the key and the GUID.
pub accept_key-decoded :
    (client_key : List ℕ)
    → (length (accept_key client_key) ≡ 28)
      × (decoded (accept_key client_key) ≡ sha1 (client_key ++ ws_guid))
unfolding accept_key sha1
accept_key-decoded client_key = (
  omega (arith, length-base64 (sha1 (client_key ++ ws_guid)), length-register_bytes _),
  decoded-base64 (sha1 (client_key ++ ws_guid)) (register_bytes-AllBytes _),
)
