-- ===== src/Ws/Rx.antt =====
-- `WsRx` of crates/core/src/ws.rs: frames from raw bytes, and messages from frames.
pub mod Stable
pub mod Frames
pub mod Stream
pub mod Delivery
pub mod RoundTrip
pub mod Message
use Prim.Native.Nat.{bit_xor}
use cadeloop.Prelude.{
  ℕ, zero, suc, ◌+◌, ◌-◌, ◌*◌, ◌/◌, ◌%◌, Bool, true, false, ◌&&◌, ◌||◌, not, Option, none, some,
  List, [], ◌∷◌, ◌++◌, length, take, drop, ltb, leb, ◌==◌, if◌then◌else◌,
}
use cadeloop.Prelude.Partial.{◌>>=◌}
use cadeloop.Ws.{
  op_cont, op_text, op_binary, op_close, op_ping, op_pong, Reason, reserved_bits_set,
  client_frame_not_masked, non_minimal_payload_length, invalid_payload_length,
  malformed_control_frame, message_too_big, malformed_close_payload, invalid_close_code,
  close_reason_not_utf8, new_message_inside_fragmented_message, continuation_without_a_message,
  unknown_opcode, text_message_not_utf8, WsEvent, text, binary, ping, pong, close, fail, ParseOne,
  need_more, continue, event, byte, valid_close_code,
}
use cadeloop.Ws.Utf8.{from_utf8}
use cadeloop.Ws.Wire.{from_be_bytes, to_be_bytes}

pub record WsRx : Type 0 where
  pub buf : List ℕ
  pub consumed : ℕ
  pub frag_op : Option ℕ
  pub frag : List ℕ
  pub max_message : ℕ
  pub ended : Bool

pub new : ℕ → WsRx
new max_message = record {
  buf = [];
  consumed = 0;
  frag_op = none;
  frag = [];
  max_message = max_message;
  ended = false;
}

-- The payload with the mask taken off, from position `i` on.
pub unmask : List ℕ → ℕ → List ℕ → List ℕ
unmask mask i [] = []
unmask mask i (b ∷ l) = bit_xor b (byte mask (i % 4)) ∷ unmask mask (suc i) l

-- `payload.iter().enumerate().map(|(i, b)| b ^ mask[i & 3])`
pub masked : List ℕ → ℕ → List ℕ → List ℕ
masked mask i [] = []
masked mask i (b ∷ l) = bit_xor b (byte mask (i % 4)) ∷ masked mask (suc i) l

-- The client's side, from the tests: the mask, fixed there, is an argument. `opcode` is below 16.
pub client_frame : List ℕ → ℕ → List ℕ → Bool → List ℕ
client_frame mask opcode payload fin =
    let n = length payload in
    let size =
      if ltb n 126
      then (0x80 + n) ∷ []
      else if leb n 0xFFFF
      then (0x80 + 126) ∷ to_be_bytes 2 n
      else (0x80 + 127) ∷ to_be_bytes 8 n in
    ((if fin then 0x80 else 0x00) + opcode) ∷ (size ++ (mask ++ masked mask 0 payload))

-- What the length field says: the length, and where the mask starts.
pub data LengthField : Type 0 where
  cut_short : LengthField
  bad : Reason → LengthField
  size : ℕ → ℕ → LengthField

pub parse_length : List ℕ → LengthField
parse_length b =
    let len = byte b 1 % 128 in
    let len16 = from_be_bytes (take 2 (drop 2 b)) in
    let len64 = from_be_bytes (take 8 (drop 2 b)) in
    if len == 126
    then (if ltb (length b) 4
        then cut_short
        else if ltb len16 126
        then bad non_minimal_payload_length
        else size len16 4)
    else if len == 127
    then (if ltb (length b) 10
        then cut_short
        else if byte b 2 / 128 % 2 == 1
        then bad invalid_payload_length
        else if leb len64 65535
        then bad non_minimal_payload_length
        else size len64 10)
    else size len 2

pub finish_message : ℕ → List ℕ → ParseOne
finish_message opcode payload =
    let as_text : ParseOne = elim (from_utf8 payload) [
      | none ↦ event (fail 1007 text_message_not_utf8)
      | some s ↦ event (text s)
    ] in
    if opcode == op_text then as_text else event (binary payload)

pub close_event : List ℕ → ParseOne
close_event payload =
    let code = from_be_bytes (take 2 payload) in
    let reason : ParseOne = elim (from_utf8 (drop 2 payload)) [
      | none ↦ event (fail 1007 close_reason_not_utf8)
      | some r ↦ event (close code r)
    ] in
    if length payload == 1
    then event (fail 1002 malformed_close_payload)
    else if leb 2 (length payload)
    then (if not (valid_close_code code) then event (fail 1002 invalid_close_code) else reason)
    else event (close 1005 [])

-- OP_TEXT and OP_BINARY; the last argument is `self.frag_op`.
pub data_frame : WsRx → Bool → ℕ → List ℕ → Option ℕ → WsRx × ParseOne
data_frame rx fin opcode payload (some op) =
    (rx, event (fail 1002 new_message_inside_fragmented_message))
data_frame rx fin opcode payload none =
    if fin
    then (rx, finish_message opcode payload)
    else (record rx { frag_op = some opcode; frag = payload }, continue)

-- OP_CONT, likewise.
pub cont_frame : WsRx → Bool → List ℕ → Option ℕ → WsRx × ParseOne
cont_frame rx fin payload none = (rx, event (fail 1002 continuation_without_a_message))
cont_frame rx fin payload (some op) =
    if ltb rx.max_message (length rx.frag + length payload)
    then (rx, event (fail 1009 message_too_big))
    else if fin
    then (record rx { frag_op = none; frag = [] }, finish_message op (rx.frag ++ payload))
    else (record rx { frag = rx.frag ++ payload }, continue)

-- The frame's opcode decides.
pub dispatch : WsRx → Bool → ℕ → List ℕ → WsRx × ParseOne
dispatch rx fin opcode payload =
    if opcode == op_ping
    then (rx, event (ping payload))
    else if opcode == op_pong
    then (rx, event pong)
    else if opcode == op_close
    then (rx, close_event payload)
    else if opcode == op_text || opcode == op_binary
    then data_frame rx fin opcode payload rx.frag_op
    else if opcode == op_cont
    then cont_frame rx fin payload rx.frag_op
    else (rx, event (fail 1002 unknown_opcode))

-- A frame whose length field was read.
pub parse_sized : WsRx → List ℕ → ℕ → ℕ → WsRx × ParseOne
parse_sized rx b len off =
    let fin = byte b 0 / 128 % 2 == 1 in
    let opcode = byte b 0 % 16 in
    let payload = unmask (take 4 (drop off b)) 0 (take len (drop (off + 4) b)) in
    if leb op_close opcode && (ltb 125 len || not fin)
    then (rx, event (fail 1002 malformed_control_frame))
    else if ltb rx.max_message len
    then (rx, event (fail 1009 message_too_big))
    else if ltb (length b) (off + 4)
    then (rx, need_more)
    else if ltb (length b) (off + 4 + len)
    then (rx, need_more)
    else dispatch (record rx { consumed = off + 4 + len }) fin opcode payload

-- What the length field leaves to do.
pub parse_rest : WsRx → List ℕ → LengthField → WsRx × ParseOne
parse_rest rx b cut_short = (rx, need_more)
parse_rest rx b (bad why) = (rx, event (fail 1002 why))
parse_rest rx b (size len off) = parse_sized rx b len off

pub parse_one : WsRx → List ℕ → WsRx × ParseOne
parse_one rx b =
    if ltb (length b) 2
    then (rx, need_more)
    else if not (byte b 0 / 16 % 8 == 0)
    then (rx, event (fail 1002 reserved_bits_set))
    else if not (byte b 1 / 128 % 2 == 1)
    then (rx, event (fail 1002 client_frame_not_masked))
    else parse_rest rx b (parse_length b)

-- `WsEvent::Fail(..) | WsEvent::Close(..)`
abbrev pub is_last : WsEvent → Bool
is_last (fail _ _) = true
is_last (close _ _) = true
is_last _ = false

-- The loop of `parse_all` from `pos` on.
pub parse_loop : ℕ → WsRx → List ℕ → ℕ → List WsEvent → Option ((WsRx × List WsEvent) × ℕ)
parse_loop zero rx b pos out = none
parse_loop (suc fuel) rx b pos out =
    let (rx', r) = parse_one rx (drop pos b) in
    let more = λ (out' : List WsEvent). parse_loop fuel rx' b (pos + rx'.consumed) out' in
    elim r [
      | need_more ↦ some ((rx', out), pos)
      | continue ↦ more out
      | event ev ↦
          if is_last ev
          then some ((record rx' { ended = true; buf = [] }, out ++ ev ∷ []), pos + rx'.consumed)
          else more (out ++ ev ∷ [])
    ]

-- Every round but the last consumes bytes.
pub parse_all : WsRx → List ℕ → List WsEvent → Option ((WsRx × List WsEvent) × ℕ)
parse_all rx b out = parse_loop (length b + 1) rx b 0 out

-- Nothing was carried over: the bytes are parsed where they are, and the tail is kept.
pub push_fresh : WsRx → List ℕ → List WsEvent → Option (WsRx × List WsEvent)
push_fresh rx d out = do
  ((rx', out'), used) ← parse_all rx d out
  let kept = record rx' { buf = rx'.buf ++ drop used d }
  some (if not rx'.ended && ltb used (length d) then kept else rx', out')

-- Behind the tail `b` that was carried over.
pub push_behind : List ℕ → WsRx → List ℕ → List WsEvent → Option (WsRx × List WsEvent)
push_behind b rx d out = do
  ((rx', out'), used) ← parse_all (record rx { buf = [] }) (b ++ d) out
  some (if not rx'.ended then record rx' { buf = drop used (b ++ d) } else rx', out')

-- The first two arguments are `self.ended` and `self.buf`.
pub push_from : Bool → List ℕ → WsRx → List ℕ → List WsEvent → Option (WsRx × List WsEvent)
push_from true buf rx d out = some (rx, out)
push_from false [] rx d out = push_fresh rx d out
push_from false (x ∷ l) rx d out = push_behind (x ∷ l) rx d out

pub push : WsRx → List ℕ → List WsEvent → Option (WsRx × List WsEvent)
push rx d out = push_from rx.ended rx.buf rx d out
