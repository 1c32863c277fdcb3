-- ===== src/Ws/Rx/RoundTrip.antt =====
-- Client frames through `parse_one` of crates/core/src/ws.rs: what the client framed is what is dispatched.
use cadeloop.Prelude.{
  ℕ, suc, ◌+◌, ◌/◌, ◌%◌, ◌^◌, ◌≤◌, ◌<◌, ◌≡◌, refl, ap, ◌∙◌, ◌⊎◌, inl, inr, Bool, true, false, ◌&&◌,
  ◌||◌, not, List, [], ◌∷◌, ◌++◌, arith, length, length-append, length-drop, drop, ltb, leb, ◌==◌,
  if◌then◌else◌, Bool-cases, append_assoc, drop-drop, take-front, drop-front,
}
use Prim.Native.Nat.{bit_xor}
use cadeloop.Prelude.Bits.{bit_xor_twice}
use cadeloop.Ws.{ParseOne, byte, op_close}
use cadeloop.Ws.Wire.{to_be_bytes}
use cadeloop.Ws.Wire.Codec.{length-to_be_bytes, from_be_bytes_16, from_be_bytes_64, top_bit_clear}
use cadeloop.Ws.Rx.Frames.{length-unmask}
use cadeloop.Ws.Rx.{
  WsRx, client_frame, masked, unmask, parse_one, parse_rest, parse_sized, parse_length, size,
  dispatch,
}

unmask_twice : (mask : List ℕ) (i : ℕ) (l : List ℕ) → unmask mask i (unmask mask i l) ≡ l
unfolding unmask
unmask_twice mask i [] = refl
unmask_twice mask i (b ∷ l) =
    rw (bit_xor_twice b (byte mask (i % 4)), unmask_twice mask (suc i) l) refl

masked-unmask : (mask : List ℕ) (i : ℕ) (l : List ℕ) → masked mask i l ≡ unmask mask i l
unfolding masked unmask
masked-unmask mask i [] = refl
masked-unmask mask i (b ∷ l) =
    ap (λ k. bit_xor b (byte mask (i % 4)) ∷ k) (masked-unmask mask (suc i) l)

-- What a client may frame: a data frame, or a control frame that is short and whole.
abbrev pub Framed : ℕ → List ℕ → Bool → Type 0
Framed opcode payload fin = (opcode < 16) × ((opcode < 8) ⊎ ((length payload ≤ 125) × (fin ≡ true)))

module _ (rx : WsRx) (mask payload rest : List ℕ) (opcode : ℕ) (fin : Bool) (four : length mask ≡ 4)
    (framed : Framed opcode payload fin) (fits : length payload ≤ rx.max_message)
    (small : length payload < 2 ^ 63) where
  -- The first byte of a frame.
  abbrev first : ℕ
  first = (if fin then 0x80 else 0x00) + opcode

  first_rsv : first / 16 % 8 ≡ 0
  first_rsv = ground arith

  first_opcode : first % 16 ≡ opcode
  first_opcode = ground arith

  first_fin : (first / 128 % 2 == 1) ≡ fin
  first_fin = ground arith

  abbrev body : List ℕ
  body = mask ++ (unmask mask 0 payload ++ rest)

  abbrev dispatched : ℕ → WsRx × ParseOne
  dispatched off = dispatch (record rx { consumed = off + 4 + length payload }) fin opcode payload

  parse_sized-body :
      (b : List ℕ) (off : ℕ)
      → byte b 0 ≡ first
      → off ≤ length b
      → drop off b ≡ body
      → parse_sized rx b (length payload) off ≡ dispatched off
  unfolding parse_sized
  parse_sized-body b off head le at =
      let n = length payload in
      let masked = unmask mask 0 payload in
      let exact = length-unmask mask 0 payload in
      let room : off + 4 + n ≤ length b = omega (
        arith,
        length-drop off b,
        ap length at,
        length-append mask (masked ++ rest),
        length-append masked rest,
      ) in
      let whole : (leb op_close opcode && (ltb 125 n || not fin)) ≡ false = ground arith in
      let allowed : ltb rx.max_message n ≡ false = ground arith in
      let mask_there : ltb (length b) (off + 4) ≡ false = ground arith in
      let all_there : ltb (length b) (off + 4 + n) ≡ false = ground arith in
      rw
        (
          head,
          first_opcode,
          first_fin,
          drop-drop off 4 b,
          at,
          take-front mask (masked ++ rest) 4 four,
          drop-front mask (masked ++ rest) 4 four,
          take-front masked rest n exact,
          unmask_twice mask 0 payload,
          whole,
          allowed,
          mask_there,
          all_there,
        )
        refl

  parse_one-header :
      (second : ℕ) (ext : List ℕ)
      → second / 128 % 2 ≡ 1
      → parse_length (first ∷ second ∷ (ext ++ body)) ≡ size (length payload) (2 + length ext)
      → parse_one rx (first ∷ second ∷ (ext ++ body)) ≡ dispatched (2 + length ext)
  unfolding parse_one parse_rest
  parse_one-header second ext masked_bit field =
      let b = first ∷ second ∷ (ext ++ body) in
      let enough : ltb (length b) 2 ≡ false = ground arith in
      let no_rsv : not (first / 16 % 8 == 0) ≡ false = ground (arith, first_rsv) in
      let is_masked : not (second / 128 % 2 == 1) ≡ false = ground arith in
      rw (enough, no_rsv, is_masked, field)
        (parse_sized-body b (2 + length ext) refl (omega (arith, length-append ext body))
          (drop-drop 2 (length ext) b ∙ drop-front ext body (length ext) refl))

  abbrev framed_body : List ℕ
  framed_body = mask ++ unmask mask 0 payload

  parse_one-shape :
      (frame : List ℕ) (second : ℕ) (ext : List ℕ)
      → frame ≡ first ∷ second ∷ (ext ++ framed_body)
      → second / 128 % 2 ≡ 1
      → parse_length (first ∷ second ∷ (ext ++ body)) ≡ size (length payload) (2 + length ext)
      → parse_one rx (frame ++ rest)
        ≡ dispatch (record rx { consumed = length frame }) fin opcode payload
  parse_one-shape frame second ext shape masked_bit field =
      let masked = unmask mask 0 payload in
      let joined : (ext ++ framed_body) ++ rest ≡ ext ++ body =
        append_assoc ext framed_body rest ∙ ap (λ l. ext ++ l) (append_assoc mask masked rest) in
      let whole : frame ++ rest ≡ first ∷ second ∷ (ext ++ body) =
        ap (λ l. l ++ rest) shape ∙ ap (λ l. first ∷ second ∷ l) joined in
      let consumed : 2 + length ext + 4 + length payload ≡ length frame = omega (
        arith,
        ap length shape,
        length-append ext framed_body,
        length-append mask masked,
        length-unmask mask 0 payload,
      ) in
      ap (parse_one rx) whole
      ∙ parse_one-header second ext masked_bit field
      ∙ ap (λ k. dispatch (record rx { consumed = k }) fin opcode payload) consumed

  -- The three forms of the length field.
  length_7 :
      length payload < 126
      → parse_length (first ∷ (0x80 + length payload) ∷ ([] ++ body)) ≡ size (length payload) 2
  unfolding parse_length
  length_7 h =
      let n = length payload in
      let low : (0x80 + n) % 128 ≡ n = omega arith in
      let not_126 : (n == 126) ≡ false = ground arith in
      let not_127 : (n == 127) ≡ false = ground arith in rw (low, not_126, not_127) refl

  length_16 :
      126 ≤ length payload
      → length payload ≤ 65535
      → parse_length (first ∷ 254 ∷ (to_be_bytes 2 (length payload) ++ body))
        ≡ size (length payload) 4
  unfolding parse_length
  length_16 lo hi =
      let n = length payload in
      let two = length-to_be_bytes 2 n in
      let long : ltb (length (first ∷ 254 ∷ (to_be_bytes 2 n ++ body))) 4 ≡ false =
        ground (arith, length-append (to_be_bytes 2 n) body) in
      let minimal : ltb n 126 ≡ false = ground arith in
      rw (long, take-front (to_be_bytes 2 n) body 2 two, from_be_bytes_16 n hi, minimal) refl

  length_64 :
      65535 < length payload
      → parse_length (first ∷ 255 ∷ (to_be_bytes 8 (length payload) ++ body))
        ≡ size (length payload) 10
  unfolding parse_length
  length_64 lo =
      let n = length payload in
      let eight = length-to_be_bytes 8 n in
      let long : ltb (length (first ∷ 255 ∷ (to_be_bytes 8 n ++ body))) 10 ≡ false =
        ground (arith, length-append (to_be_bytes 8 n) body) in
      let clear : (byte (first ∷ 255 ∷ (to_be_bytes 8 n ++ body)) 2 / 128 % 2 == 1) ≡ false =
        ground (arith, top_bit_clear n body small) in
      let minimal : leb n 65535 ≡ false = ground arith in
      rw (long, clear, take-front (to_be_bytes 8 n) body 8 eight, from_be_bytes_64 n small, minimal)
        refl

  -- A frame that a client makes, whatever follows it: `parse_one` consumes exactly the frame, and
  -- dispatches its opcode, its FIN bit and its payload. The mask has four bytes, a control frame is short
  -- and whole, and the payload keeps to the message limit and to the 63 bits of the length field.
  pub parse_one-client_frame :
      parse_one rx (client_frame mask opcode payload fin ++ rest)
      ≡ dispatch
          (record rx { consumed = length (client_frame mask opcode payload fin) })
          fin
          opcode
          payload
  unfolding client_frame
  parse_one-client_frame =
      let n = length payload in
      let frame = client_frame mask opcode payload fin in
      let at = masked-unmask mask 0 payload in
      elim (Bool-cases (ltb n 126)) [
        | inl t ↦
            parse_one-shape frame (0x80 + n) [] (rw (t, at) refl) (ground arith)
              (length_7 (ground arith))
        | inr t ↦ elim (Bool-cases (leb n 0xFFFF)) [
          | inl u ↦ parse_one-shape frame 254 (to_be_bytes 2 n) (rw (t, u, at) refl) (omega arith) (
              length_16 (ground arith) (ground arith)
              ∙ ap (size n) (omega (arith, length-to_be_bytes 2 n)))
          | inr u ↦
              parse_one-shape frame 255 (to_be_bytes 8 n) (rw (t, u, at) refl) (omega arith)
                (length_64 (ground arith) ∙ ap (size n) (omega (arith, length-to_be_bytes 8 n)))
        ]
      ]
