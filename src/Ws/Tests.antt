-- ===== src/Ws/Tests.antt =====
-- Runs of crates/core/src/ws.rs at concrete inputs.
use cadeloop.Prelude.{
  ℕ, ◌+◌, ◌/◌, ◌%◌, ◌≤◌, ◌≡◌, refl, inl, inr, true, false, none, some, List, [], ◌∷◌, ◌++◌, arith,
  length,
}
use cadeloop.Prelude.Partial.{◌>>=◌, Yields}
use cadeloop.Ws.{op_text, op_ping, WsEvent}
use cadeloop.Ws.Utf8.{lead, enter, follow, is_utf8}
use cadeloop.Ws.Wire.{close_frame}
use cadeloop.Ws.Wire.Truncate.{Truncated, close_frame_correct}
use cadeloop.Ws.Rx.{WsRx, client_frame, parse_one, dispatch, push}
use cadeloop.Ws.Rx.Stream.{push_split}
use cadeloop.Ws.Rx.Delivery.{IsBounded, Delivered, push_delivers}
use cadeloop.Ws.Rx.RoundTrip.{parse_one-client_frame}
use cadeloop.Ws.Rx.Message.{concat, fragments, delivered, IsIdle, push_message}

-- A limit of 1024 bytes.
abbrev receiver : WsRx
receiver = record {
  buf = [];
  consumed = 0;
  frag_op = none;
  frag = [];
  max_message = 1024;
  ended = false;
}

abbrev key : List ℕ
key = 0x11 ∷ 0x22 ∷ 0x33 ∷ 0x44 ∷ []

-- "é!", in two parts that split the first character.
abbrev part_one : List ℕ
part_one = 0xC3 ∷ []

abbrev part_two : List ℕ
part_two = 0xA9 ∷ 0x21 ∷ []

receiver-IsIdle : IsIdle receiver
receiver-IsIdle = record { buf = refl; frag_op = refl; frag = refl; ended = refl }

receiver-IsBounded : IsBounded receiver
receiver-IsBounded = record { frag = omega arith; buf = omega arith }

greeting-is_utf8 : is_utf8 (0xC3 ∷ 0xA9 ∷ 0x21 ∷ []) ≡ true
unfolding is_utf8 follow enter lead
greeting-is_utf8 = refl

push_split_example :
    (r : WsRx × List WsEvent) × (push receiver (part_one ++ part_two) [] ≡ some r)
    × ((push receiver part_one [] >>= λ (rx', out'). push rx' part_two out') ≡ some r)
push_split_example = push_split receiver part_one part_two []

push_delivers_example : Yields (Delivered receiver []) (push receiver (0x81 ∷ 0x01 ∷ 0x41 ∷ []) [])
push_delivers_example = push_delivers receiver (0x81 ∷ 0x01 ∷ 0x41 ∷ []) [] receiver-IsBounded

parse_one-client_frame_example :
    parse_one receiver (client_frame key op_ping part_two true ++ part_one)
    ≡ dispatch
        (record receiver { consumed = length (client_frame key op_ping part_two true) })
        true
        op_ping
        part_two
parse_one-client_frame_example =
    parse_one-client_frame receiver key part_two part_one op_ping true refl
      (omega arith, inr (omega arith, refl)) (omega arith) (omega arith)

push_message_example :
    Yields
      (λ r. IsIdle r.0 × (r.1 ≡ [] ++ delivered op_text (part_one ++ concat (part_two ∷ [])) ∷ []))
      (push receiver (fragments key op_text part_one (part_two ∷ [])) [])
unfolding concat
push_message_example =
    push_message receiver key op_text part_one (part_two ∷ []) [] receiver-IsIdle refl
      (inl (refl, greeting-is_utf8)) (omega arith) (omega arith)

close_frame_correct_example :
    (kept : List ℕ) × Truncated (0xC3 ∷ 0xA9 ∷ 0x21 ∷ []) 123 kept
    × (close_frame 1000 (0xC3 ∷ 0xA9 ∷ 0x21 ∷ [])
        ≡ 0x88 ∷ (2 + length kept) ∷ (1000 / 256 % 256) ∷ (1000 % 256) ∷ kept)
    × (length (close_frame 1000 (0xC3 ∷ 0xA9 ∷ 0x21 ∷ [])) ≤ 127)
close_frame_correct_example = close_frame_correct 1000 (0xC3 ∷ 0xA9 ∷ 0x21 ∷ []) greeting-is_utf8
