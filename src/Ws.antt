-- ===== src/Ws.antt =====
-- The WebSocket codec (crates/core/src/ws.rs), server side. A byte is a number below 256, a `Vec<u8>` a
-- list of them, and a `String` the list of its UTF-8 bytes.
pub mod Utf8
pub mod Wire
pub mod Handshake
pub mod Rx
mod Tests
use cadeloop.Prelude.{
  ℕ, zero, suc, Bool, true, false, ◌&&◌, ◌||◌, not, Option, none, some, List, get_or, ◌/◌, ◌%◌, ltb,
  leb, ◌==◌,
}

abbrev pub op_cont : ℕ
op_cont = 0x0

abbrev pub op_text : ℕ
op_text = 0x1

abbrev pub op_binary : ℕ
op_binary = 0x2

abbrev pub op_close : ℕ
op_close = 0x8

abbrev pub op_ping : ℕ
op_ping = 0x9

abbrev pub op_pong : ℕ
op_pong = 0xA

-- The messages of a failure.
pub data Reason : Type 0 where
  reserved_bits_set client_frame_not_masked non_minimal_payload_length invalid_payload_length :
      Reason
  malformed_control_frame message_too_big malformed_close_payload invalid_close_code : Reason
  close_reason_not_utf8 new_message_inside_fragmented_message continuation_without_a_message :
      Reason
  unknown_opcode text_message_not_utf8 : Reason

pub data WsEvent : Type 0 where
  text binary ping : List ℕ → WsEvent
  pong : WsEvent
  close : ℕ → List ℕ → WsEvent
  fail : ℕ → Reason → WsEvent

pub data ParseOne : Type 0 where
  need_more continue : ParseOne
  event : WsEvent → ParseOne

-- `b[i]`; every use of it stands behind a test of the length.
abbrev pub byte : List ℕ → ℕ → ℕ
byte b i = get_or b i 0

-- `matches!(code, 1000..=1014 | 3000..=4999) && !matches!(code, 1004..=1006 | 1015)`
unfoldable pub valid_close_code : ℕ → Bool
valid_close_code code =
    ((leb 1000 code && leb code 1014) || (leb 3000 code && leb code 4999))
    && not ((leb 1004 code && leb code 1006) || code == 1015)
