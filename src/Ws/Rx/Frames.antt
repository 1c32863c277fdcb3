-- ===== src/Ws/Rx/Frames.antt =====
-- What one frame does to the state of crates/core/src/ws.rs, and the bounds that hold of what it delivers.
use cadeloop.Prelude.{
  ℕ, suc, ◌+◌, ◌/◌, ◌%◌, ◌≤◌, ◌<◌, ◌≡◌, refl, ap, ◌∙◌, ◌⊎◌, inl, inr, Bool, true, false, ◌&&◌, ◌||◌,
  not, Option, none, some, List, [], ◌∷◌, ◌++◌, arith, length, length-append, length-take,
  length-drop, take, drop, ltb, leb, ◌==◌, if◌then◌else◌, Bool-cases,
}
use cadeloop.Ws.{
  op_cont, op_text, op_binary, op_close, op_ping, op_pong, ParseOne, need_more, continue, event,
  byte, WsEvent, text, binary, ping, pong, close, fail, Reason, valid_close_code,
}
use cadeloop.Ws.Utf8.{from_utf8, is_utf8, follow}
use cadeloop.Ws.Wire.{from_be_bytes}
use cadeloop.Ws.Rx.{
  WsRx, LengthField, cut_short, bad, size, parse_length, parse_sized, parse_rest, parse_one,
  dispatch, unmask, data_frame, cont_frame, close_event, finish_message,
}

-- An event that keeps to the limits: assembled messages to `max`, and the payload of a control frame to
-- 125 bytes, of which a close code takes two. A text is UTF-8, and a close code is one that may be sent.
abbrev pub Fits : ℕ → WsEvent → Type 0
Fits max (text s) = (length s ≤ max) × (is_utf8 s ≡ true)
Fits max (binary s) = length s ≤ max
Fits max (ping s) = length s ≤ 125
Fits max pong = Unit
Fits max (close code r) =
    (length r ≤ 123) × (is_utf8 r ≡ true) × ((code ≡ 1005) ⊎ (valid_close_code code ≡ true))
Fits max (fail code why) = Unit

-- What no frame changes, and the bound on the fragments that every frame keeps.
pub record Keeps (rx rx' : WsRx) : Type 0 where
  pub buf : rx'.buf ≡ rx.buf
  pub ended : rx'.ended ≡ rx.ended
  pub max_message : rx'.max_message ≡ rx.max_message
  pub bounded : length rx.frag ≤ rx.max_message → length rx'.frag ≤ rx.max_message

-- The outcomes of `parse_one`.
pub data Parsed (rx : WsRx) (b : List ℕ) : WsRx × ParseOne → Type 0 where
  waits : length b < 14 + rx.max_message → Parsed rx b (rx, need_more)
  rejects : (code : ℕ) (why : Reason) → Parsed rx b (rx, event (fail code why))
  gives :
      (rx' : WsRx) (ev : WsEvent)
      → Keeps rx rx'
      → 0 < rx'.consumed
      → rx'.consumed ≤ length b
      → Fits rx.max_message ev
      → Parsed rx b (rx', event ev)
  grows :
      (rx' : WsRx)
      → Keeps rx rx'
      → 0 < rx'.consumed
      → rx'.consumed ≤ length b
      → Parsed rx b (rx', continue)

Keeps-refl : (rx : WsRx) → Keeps rx rx
Keeps-refl rx = record { buf = refl; ended = refl; max_message = refl; bounded = λ h. h }

pub Keeps-trans : {x y z : WsRx} → Keeps x y → Keeps y z → Keeps x z
Keeps-trans k l = record {
  buf = l.buf ∙ k.buf;
  ended = l.ended ∙ k.ended;
  max_message = l.max_message ∙ k.max_message;
  bounded = λ h.
      omega
        (arith, k.bounded h, l.bounded (omega (arith, k.bounded h, k.max_message)), k.max_message);
}

pub Parsed-Keeps : {rx : WsRx} {b : List ℕ} {r : WsRx × ParseOne} → Parsed rx b r → Keeps rx r.0
Parsed-Keeps {rx} (waits lt) = Keeps-refl rx
Parsed-Keeps {rx} (rejects code why) = Keeps-refl rx
Parsed-Keeps (gives rx' ev k pos le fits) = k
Parsed-Keeps (grows rx' k pos le) = k

Parsed-if :
    {rx : WsRx} {b : List ℕ} {x y : WsRx × ParseOne} (t : Bool)
    → (t ≡ true → Parsed rx b x)
    → (t ≡ false → Parsed rx b y)
    → Parsed rx b (if t then x else y)
Parsed-if true p q = p refl
Parsed-if false p q = q refl

pub length-unmask : (mask : List ℕ) (i : ℕ) (l : List ℕ) → length (unmask mask i l) ≡ length l
unfolding unmask
length-unmask mask i [] = refl
length-unmask mask i (b ∷ l) = ap suc (length-unmask mask (suc i) l)

-- The frame of `n` bytes at the front of `b`.
module _ (rx : WsRx) (b : List ℕ) (n : ℕ) (pos : 0 < n) (le : n ≤ length b) where
  abbrev counted : WsRx
  counted = record rx { consumed = n }

  Keeps-counted : Keeps rx counted
  Keeps-counted = record { buf = refl; ended = refl; max_message = refl; bounded = λ h. h }

  give : (ev : WsEvent) → Fits rx.max_message ev → Parsed rx b (counted, event ev)
  give ev fits = gives counted ev Keeps-counted pos le fits

  finish_message-Parsed :
      (rx' : WsRx) (opcode : ℕ) (payload : List ℕ)
      → Keeps rx rx'
      → rx'.consumed ≡ n
      → length payload ≤ rx.max_message
      → Parsed rx b (rx', finish_message opcode payload)
  unfolding finish_message from_utf8
  finish_message-Parsed rx' opcode payload k c fits = elim (Bool-cases (opcode == op_text)) [
    | inl t ↦ elim (Bool-cases (is_utf8 payload)) [
      | inl u ↦ rw (t, u) (gives rx' _ k (omega arith) (omega arith) (fits, u))
      | inr u ↦ rw (t, u) (gives rx' _ k (omega arith) (omega arith) tt)
    ]
    | inr t ↦ rw t (gives rx' _ k (omega arith) (omega arith) fits)
  ]

  data_frame-Parsed :
      (fin : Bool) (opcode : ℕ) (payload : List ℕ) (op : Option ℕ)
      → length payload ≤ rx.max_message
      → Parsed rx b (data_frame counted fin opcode payload op)
  unfolding data_frame
  data_frame-Parsed fin opcode payload (some op) fits = give _ tt
  data_frame-Parsed fin opcode payload none fits =
      Parsed-if fin (λ t. finish_message-Parsed counted opcode payload Keeps-counted refl fits)
        (λ t.
          grows _ (record { buf = refl; ended = refl; max_message = refl; bounded = λ h. fits }) pos
            le)

  cont_frame-Parsed :
      (fin : Bool) (payload : List ℕ) (op : Option ℕ)
      → Parsed rx b (cont_frame counted fin payload op)
  unfolding cont_frame
  cont_frame-Parsed fin payload none = give _ tt
  cont_frame-Parsed fin payload (some op) =
      let joined = length-append rx.frag payload in
      Parsed-if (ltb rx.max_message (length rx.frag + length payload)) (λ t. give _ tt)
        (λ t.
          Parsed-if fin
            (λ f.
              finish_message-Parsed _ op (rx.frag ++ payload)
                (record {
                  buf = refl;
                  ended = refl;
                  max_message = refl;
                  bounded = λ h. omega arith;
                })
                refl (ground arith))
            (λ f.
              grows _
                (record {
                  buf = refl;
                  ended = refl;
                  max_message = refl;
                  bounded = λ h. ground arith;
                })
                pos le))

  close_event-Parsed :
      (payload : List ℕ) → length payload ≤ 125 → Parsed rx b (counted, close_event payload)
  unfolding close_event from_utf8 is_utf8 follow
  close_event-Parsed payload fits =
      let code = from_be_bytes (take 2 payload) in
      let short = length-drop 2 payload in
      elim (Bool-cases (length payload == 1)) [
        | inl t ↦ rw t (give _ tt)
        | inr t ↦ elim (Bool-cases (leb 2 (length payload))) [
          | inr u ↦ rw (t, u) (give _ (omega arith, refl, inl refl))
          | inl u ↦ elim (Bool-cases (valid_close_code code)) [
            | inr v ↦ rw (t, u, v) (give _ tt)
            | inl v ↦ elim (Bool-cases (is_utf8 (drop 2 payload))) [
              | inl w ↦ rw (t, u, v, w) (give _ (omega arith, w, inr v))
              | inr w ↦ rw (t, u, v, w) (give _ tt)
            ]
          ]
        ]
      ]

  dispatch-Parsed :
      (fin : Bool) (opcode : ℕ) (payload : List ℕ)
      → length payload ≤ rx.max_message
      → (8 ≤ opcode → length payload ≤ 125)
      → Parsed rx b (dispatch counted fin opcode payload)
  unfolding dispatch
  dispatch-Parsed fin opcode payload fits control =
      Parsed-if (opcode == op_ping) (λ t. give _ (control (ground arith)))
        (λ t.
          Parsed-if (opcode == op_pong) (λ t. give _ tt)
            (λ t.
              Parsed-if (opcode == op_close)
                (λ t. close_event-Parsed payload (control (ground arith)))
                (λ t.
                  Parsed-if (opcode == op_text || opcode == op_binary)
                    (λ t. data_frame-Parsed fin opcode payload rx.frag_op fits)
                    (λ t.
                      Parsed-if (opcode == op_cont) (λ t. cont_frame-Parsed fin payload rx.frag_op)
                        (λ t. give _ tt)))))

-- A length field that is cut short is, with what stands before it, shorter than ten bytes, and one that is
-- read ends by then.
data Read (b : List ℕ) : LengthField → Type 0 where
  short : length b < 10 → Read b cut_short
  wrong : (why : Reason) → Read b (bad why)
  sized : (len off : ℕ) → off ≤ 10 → Read b (size len off)

Read-if :
    {b : List ℕ} {x y : LengthField} (t : Bool)
    → (t ≡ true → Read b x)
    → (t ≡ false → Read b y)
    → Read b (if t then x else y)
Read-if true p q = p refl
Read-if false p q = q refl

parse_length-Read : (b : List ℕ) → Read b (parse_length b)
unfolding parse_length
parse_length-Read b =
    let len16 = from_be_bytes (take 2 (drop 2 b)) in
    let len64 = from_be_bytes (take 8 (drop 2 b)) in
    Read-if (byte b 1 % 128 == 126)
      (λ t.
        Read-if (ltb (length b) 4) (λ u. short (ground arith))
          (λ u. Read-if (ltb len16 126) (λ v. wrong _) (λ v. sized _ _ (omega arith))))
      (λ t.
        Read-if (byte b 1 % 128 == 127)
          (λ s.
            Read-if (ltb (length b) 10) (λ u. short (ground arith))
              (λ u.
                Read-if (byte b 2 / 128 % 2 == 1) (λ v. wrong _)
                  (λ v. Read-if (leb len64 65535) (λ w. wrong _) (λ w. sized _ _ (omega arith)))))
          (λ s. sized _ _ (omega arith)))

parse_sized-Parsed :
    (rx : WsRx) (b : List ℕ) (len off : ℕ) → off ≤ 10 → Parsed rx b (parse_sized rx b len off)
unfolding parse_sized
parse_sized-Parsed rx b len off early =
    Parsed-if (leb op_close (byte b 0 % 16) && (ltb 125 len || not (byte b 0 / 128 % 2 == 1)))
      (λ t. rejects _ _)
      (λ t0.
        Parsed-if (ltb rx.max_message len) (λ t. rejects _ _)
          (λ t1.
            Parsed-if (ltb (length b) (off + 4)) (λ t. waits (ground arith))
              (λ t2.
                Parsed-if (ltb (length b) (off + 4 + len)) (λ t. waits (ground arith))
                  (λ t3.
                    let mask = take 4 (drop off b) in
                    let body = take len (drop (off + 4) b) in
                    let exact : length (unmask mask 0 body) ≡ len = ground (
                      arith,
                      length-unmask mask 0 body,
                      length-take len (drop (off + 4) b),
                      length-drop (off + 4) b,
                    ) in
                    dispatch-Parsed rx b (off + 4 + len) (omega arith) (ground arith) _
                      (byte b 0 % 16) _ (ground arith) (λ h. ground arith)))))

parse_rest-Parsed :
    (rx : WsRx) (b : List ℕ) (f : LengthField) → Read b f → Parsed rx b (parse_rest rx b f)
unfolding parse_rest
parse_rest-Parsed rx b cut_short (short lt) = waits (omega arith)
parse_rest-Parsed rx b (bad why) h = rejects _ _
parse_rest-Parsed rx b (size len off) (sized _ _ le) = parse_sized-Parsed rx b len off le

pub parse_one-Parsed : (rx : WsRx) (b : List ℕ) → Parsed rx b (parse_one rx b)
unfolding parse_one
parse_one-Parsed rx b =
    Parsed-if (ltb (length b) 2) (λ t. waits (ground arith))
      (λ t.
        Parsed-if (not (byte b 0 / 16 % 8 == 0)) (λ t. rejects _ _)
          (λ t.
            Parsed-if (not (byte b 1 / 128 % 2 == 1)) (λ t. rejects _ _)
              (λ t. parse_rest-Parsed rx b (parse_length b) (parse_length-Read b))))
