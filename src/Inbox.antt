-- ===== src/Inbox.antt =====
-- The read side of a stream transport with a Python protocol (crates/pyshim/src/net.rs). What the backend answers
-- to `post_recv`, and the completions, are arguments. The buffers that the receives use are left out, and an
-- entry that teardown has taken out of the map is one with `conn_lost`.
mod Bytes
pub mod Order
pub mod Dispatch
pub mod Arrivals
pub mod Runs
pub mod Repause
mod Tests
use cadeloop.Prelude.{
  ℕ, Bool, true, false, ◌&&◌, ◌||◌, not, Option, none, some, List, [], ◌∷◌, ◌++◌, map, ◌==◌,
  if◌then◌else◌,
}
use cadeloop.Backend.{is_cancelled_error}
use cadeloop.Outbox.{Answer, posted_as, refused, is_some, is_op, wsaeconnaborted}

-- What a peer sends, and what a protocol is told.
pub data Signal : Type 0 where
  byte : ℕ → Signal
  ended : Signal

-- The inbound events, with the bytes of `BufData` in place of the slot that holds them.
pub data InboundEvent : Type 0 where
  plain_data held_data buf_data : List ℕ → InboundEvent
  eof : InboundEvent
  recv_failed : ℕ → InboundEvent

-- The fields of the entry, its events in the order in which they will be dispatched, the error that it was torn
-- down with, and what the kernel has received and the protocol was told, in order.
pub record ReadSide : Type 0 where
  pub recv_op : Option ℕ
  pub reading_paused : Bool
  pub closing : Bool
  pub conn_lost : Bool
  pub paused_recv : Option (List ℕ)
  pub paused_eof : Bool
  pub events : List InboundEvent
  pub lost_with : Option ℕ
  pub received : List Signal
  pub told : List Signal

abbrev pub push_event : ReadSide → InboundEvent → ReadSide
push_event r event = record r { events = r.events ++ event ∷ [] }

abbrev pub teardown_with : ReadSide → ℕ → ReadSide
teardown_with r code =
    if r.conn_lost then r else record r { conn_lost = true; lost_with = some code }

abbrev pub recv_posted : ReadSide → Answer → ReadSide
recv_posted r (posted_as op) = record r { recv_op = some op }
recv_posted r (refused code) = push_event r (recv_failed code)

pub post_recv : ReadSide → Answer → ReadSide
post_recv r answer =
    if is_some r.recv_op || r.reading_paused || r.closing || r.conn_lost
    then r
    else recv_posted r answer

abbrev pub held_bytes : Option (List ℕ) → List ℕ
held_bytes none = []
held_bytes (some held) = held

abbrev pub hold : ReadSide → List ℕ → ReadSide
hold r bytes = record r { paused_recv = some (held_bytes r.paused_recv ++ bytes) }

-- A completion with its bytes, whether the protocol is a plain one, and the answer to the next receive.
pub record RecvDone : Type 0 where
  pub op : ℕ
  pub bytes : List ℕ
  pub os_error : ℕ
  pub plain : Bool
  pub next : Answer

-- A receive of no bytes is the peer's EOF.
abbrev pub signals : List ℕ → List Signal
signals [] = ended ∷ []
signals (b ∷ l) = map byte (b ∷ l)

abbrev pub arrived : ReadSide → RecvDone → ReadSide
arrived r c = record r {
  recv_op = if is_op r.recv_op c.op then none else r.recv_op;
  received = if c.os_error == 0 then r.received ++ signals c.bytes else r.received;
}

abbrev pub inbound : RecvDone → InboundEvent
inbound c = if c.plain then plain_data c.bytes else buf_data c.bytes

-- The peer's EOF, and bytes, on an open transport.
abbrev pub take_eof : ReadSide → ReadSide
take_eof r = if r.reading_paused then record r { paused_eof = true } else push_event r eof

abbrev pub take_bytes : ReadSide → RecvDone → ReadSide
take_bytes r c =
    if r.reading_paused then hold r c.bytes else post_recv (push_event r (inbound c)) c.next

abbrev pub is_empty : List ℕ → Bool
is_empty [] = true
is_empty (_ ∷ _) = false

pub on_recv_done : Bool → ReadSide → RecvDone → ReadSide
on_recv_done windows r c =
    let code =
      if is_cancelled_error windows c.os_error then wsaeconnaborted windows else c.os_error in
    if r.conn_lost || r.closing
    then arrived r c
    else if not (c.os_error == 0)
    then teardown_with (arrived r c) code
    else if is_empty c.bytes
    then take_eof (arrived r c)
    else take_bytes (arrived r c) c

-- The events of what was held, bytes first.
abbrev pub held_events : Option (List ℕ) → Bool → List InboundEvent
held_events none false = []
held_events none true = eof ∷ []
held_events (some held) false = held_data held ∷ []
held_events (some held) true = held_data held ∷ eof ∷ []

pub flush_paused_recv : ReadSide → ReadSide × Bool
flush_paused_recv r =
    let cleared = record r { paused_recv = none; paused_eof = false } in
    if r.conn_lost || r.closing then (cleared, false) else (
      record cleared { events = r.events ++ held_events r.paused_recv r.paused_eof },
      r.paused_eof,
    )

pub pause_reading : ReadSide → ReadSide
pause_reading r = if r.closing || r.conn_lost then r else record r { reading_paused = true }

-- Once the events are out: the next receive, unless the EOF was among them.
abbrev pub go_on : ReadSide × Bool → Answer → ReadSide
go_on (r, true) next = r
go_on (r, false) next = if is_some r.recv_op then r else post_recv r next

pub resume_reading : ReadSide → Answer → ReadSide
resume_reading r next =
    if r.closing || r.conn_lost || not r.reading_paused
    then r
    else go_on (flush_paused_recv (record r { reading_paused = false })) next

pub close : ReadSide → ReadSide
close r = if r.closing || r.conn_lost then r else record r { closing = true; recv_op = none }

-- Where bytes go when their event is dispatched: dropped, held, or to the protocol.
pub route_inbound : ReadSide → List ℕ → ReadSide
route_inbound r bytes =
    if r.conn_lost || r.closing
    then r
    else if r.reading_paused
    then hold r bytes
    else record r { told = r.told ++ map byte bytes }

pub route_eof : ReadSide → ReadSide
route_eof r =
    if r.conn_lost || r.closing
    then r
    else if r.reading_paused
    then record r { paused_eof = true }
    else record r { told = r.told ++ ended ∷ [] }

abbrev pub dispatch_one : ReadSide → InboundEvent → ReadSide
dispatch_one r (plain_data bytes) = route_inbound r bytes
dispatch_one r (held_data bytes) = route_inbound r bytes
dispatch_one r (buf_data bytes) = route_inbound r bytes
dispatch_one r eof = route_eof r
dispatch_one r (recv_failed code) = teardown_with r code

-- The first event that waits, if there is one.
abbrev pub dispatch_from : ReadSide → List InboundEvent → ReadSide
dispatch_from r [] = r
dispatch_from r (event ∷ later) = dispatch_one (record r { events = later }) event

abbrev pub dispatch_next : ReadSide → ReadSide
dispatch_next r = dispatch_from r r.events
