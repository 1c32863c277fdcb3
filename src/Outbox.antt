-- ===== src/Outbox.antt =====
-- The write side of a stream transport with a Python protocol (crates/pyshim/src/net.rs). What the backend
-- answers to `post_send`, and the completions that it holds, are arguments; `conn_lost` also stands for an entry
-- that teardown has taken out of the map. TLS, lingering closes and HTTP producers are left out, and so is
-- whether connection_lost is called at once.
pub mod Ops
pub mod Buffers
pub mod Gather
pub mod Invariant
pub mod Calls
pub mod Writes
pub mod Runs
mod Tests
use cadeloop.Prelude.{
  ℕ, zero, suc, ◌+◌, ◌-◌, ◌*◌, ◌^◌, Bool, true, false, ◌&&◌, ◌||◌, not, Option, none, some, List,
  [], ◌∷◌, ◌++◌, map, length, take, drop, min, ◌==◌, ltb, leb, if◌then◌else◌,
}
use cadeloop.Backend.{io_len, max_send_bytes, is_cancelled_error}

abbrev pub coalesce_max : ℕ
coalesce_max = 4096

abbrev pub cork_flush_bytes : ℕ
cork_flush_bytes = 64 * 1024

abbrev pub max_gather : ℕ
max_gather = 16

-- By whether the platform is Windows.
abbrev pub wsaeconnaborted : Bool → ℕ
wsaeconnaborted windows = if windows then 10053 else 103

-- A buffer with the offset of what is left of it: a `bytes` object that is kept, or a copy.
pub data WriteBuf : Type 0 where
  retained owned : List ℕ → ℕ → WriteBuf

abbrev pub remaining : WriteBuf → ℕ
remaining (retained bytes off) = length bytes - off
remaining (owned bytes off) = length bytes - off

-- The bytes behind the pointer and the length of the slice.
abbrev pub slice : WriteBuf → List ℕ
slice (retained bytes off) = take (io_len (length bytes - off)) (drop off bytes)
slice (owned bytes off) = take (io_len (length bytes - off)) (drop off bytes)

abbrev pub advance : WriteBuf → ℕ → WriteBuf
advance (retained bytes off) n = retained bytes (off + n)
advance (owned bytes off) n = owned bytes (off + n)

pub record TransportEntry : Type 0 where
  pub send_op : Option ℕ
  pub inflight : ℕ
  pub wq : List WriteBuf
  pub queued_bytes : ℕ
  pub high_water : ℕ
  pub low_water : ℕ
  pub proto_paused : Bool
  pub closing : Bool
  pub conn_lost : Bool
  pub eof_wanted : Bool
  pub eof_sent : Bool
  pub flush_scheduled : Bool

-- What waits to be dispatched: `NetEvent::ResumeWriting` and `NetEvent::ConnLost`.
pub data NetEvent : Type 0 where
  resume_writing : NetEvent
  lost : Option ℕ → NetEvent

-- Calls of the protocol and of the socket.
pub data Call : Type 0 where
  pauses_writing resumes_writing shuts_down : Call
  loses : Option ℕ → Call

-- The transport with its events that wait and what is outside: the calls made, the slices that the kernel was
-- handed, what it has taken of them, and what was written, all in order.
pub record Net : Type 0 where
  pub entry : TransportEntry
  pub events : List NetEvent
  pub calls : List Call
  pub posted : List (List ℕ)
  pub delivered : List ℕ
  pub written : List ℕ

abbrev pub flatten : List (List ℕ) → List ℕ
flatten [] = []
flatten (x ∷ l) = x ++ flatten l

abbrev pub is_some : Option ℕ → Bool
is_some none = false
is_some (some _) = true

abbrev pub is_empty : List WriteBuf → Bool
is_empty [] = true
is_empty (_ ∷ _) = false

abbrev pub behind : WriteBuf → Option (List WriteBuf) → Option (List WriteBuf)
behind b none = none
behind b (some l) = some (b ∷ l)

-- `wq.back_mut()`, extended where it is a copy with room; `none` where it is not.
pub extend_last : List WriteBuf → List ℕ → Option (List WriteBuf)
extend_last [] bytes = none
extend_last (retained b off ∷ []) bytes = none
extend_last (owned b off ∷ []) bytes =
    if leb (length b - off + length bytes) cork_flush_bytes
    then some (owned (b ++ bytes) off ∷ [])
    else none
extend_last (b ∷ c ∷ l) bytes = behind b (extend_last (c ∷ l) bytes)

pub coalesce_tail : TransportEntry → List ℕ → Option (List WriteBuf)
coalesce_tail e bytes =
    if ltb coalesce_max (length bytes) || leb (length e.wq) e.inflight
    then none
    else extend_last e.wq bytes

-- Whether a write is a `bytes` object too long to be copied.
pub data Queued : Type 0 where
  copied kept : List ℕ → Queued

abbrev pub bytes_of : Queued → List ℕ
bytes_of (copied bytes) = bytes
bytes_of (kept bytes) = bytes

-- Of a `bytes` object (true) or of another exporter.
abbrev pub queued_of : Bool → List ℕ → Queued
queued_of is_bytes bytes =
    if is_bytes && ltb coalesce_max (length bytes) then kept bytes else copied bytes

abbrev pub merged_wq : TransportEntry → List ℕ → Option (List WriteBuf) → TransportEntry
merged_wq e bytes none = record e { wq = e.wq ++ owned bytes 0 ∷ [] }
merged_wq e bytes (some wq) = record e { wq = wq }

pub enqueue : TransportEntry → Queued → TransportEntry
enqueue e (copied bytes) =
    let e' = record e { queued_bytes = e.queued_bytes + length bytes } in
    merged_wq e' bytes (coalesce_tail e' bytes)
enqueue e (kept bytes) = record e {
  queued_bytes = e.queued_bytes + length bytes;
  wq = e.wq ++ retained bytes 0 ∷ [];
}

abbrev pub call_out : Net → Call → Net
call_out net made = record net { calls = net.calls ++ made ∷ [] }

abbrev pub queue_event : Net → NetEvent → Net
queue_event net event = record net { events = net.events ++ event ∷ [] }

pub teardown_with : Net → Option ℕ → Net
teardown_with net code =
    queue_event (record net { entry = record net.entry { conn_lost = true } }) (lost code)

pub finish_eof : Net → Net
finish_eof net =
    if net.entry.eof_wanted && not net.entry.eof_sent
    then call_out (record net { entry = record net.entry { eof_sent = true } }) shuts_down
    else net

pub maybe_finish_shutdown : Net → Net
maybe_finish_shutdown net =
    let e = net.entry in
    let net' = finish_eof net in
    if is_some e.send_op || not (is_empty e.wq) || e.conn_lost
    then net
    else if net'.entry.closing
    then teardown_with net' none
    else net'

-- What `post_send` answers: the operation, or the error that refuses it.
pub data Answer : Type 0 where
  posted_as refused : ℕ → Answer

-- The slices of a send: `k` more at most, with `n` taken so far and their bytes.
pub gather : ℕ → ℕ → ℕ → List WriteBuf → List (List ℕ)
gather zero n total l = []
gather (suc k) n total [] = []
gather (suc k) n total (b ∷ l) =
    let more = slice b ∷ gather k (suc n) (total + length (slice b)) l in
    if ltb 0 n && ltb max_send_bytes (total + length (slice b)) then [] else more

pub post_send : Net → List (List ℕ) → Answer → Net
post_send net slices (posted_as op) = record net {
  entry = record net.entry { send_op = some op; inflight = length slices };
  posted = slices;
}
post_send net slices (refused code) = teardown_with net (some code)

pub flush_pending : Net → Answer → Net
flush_pending net answer =
    let e = record net.entry { flush_scheduled = false } in
    let net' = record net { entry = e } in
    if e.conn_lost
    then net'
    else if is_some e.send_op
    then net'
    else if is_empty e.wq
    then maybe_finish_shutdown net'
    else post_send net' (gather max_gather 0 0 e.wq) answer

-- A completion, with the answer to the send that it may bring about.
pub record SendDone : Type 0 where
  pub op : ℕ
  pub bytes : ℕ
  pub os_error : ℕ
  pub next : Answer

abbrev pub is_op : Option ℕ → ℕ → Bool
is_op none op = false
is_op (some o) op = o == op

pub consume : ℕ → List WriteBuf → List WriteBuf
consume n [] = []
consume n (b ∷ l) =
    let rest = consume (n - remaining b) l in
    if n == 0 then b ∷ l else if leb (remaining b) n then rest else advance b n ∷ l

-- The queue once a completion is counted.
abbrev pub take_sent : Net → SendDone → Net
take_sent net c =
    let e = net.entry in
    record net {
      entry = record e {
        queued_bytes = e.queued_bytes - min c.bytes e.queued_bytes;
        wq = consume c.bytes e.wq;
      };
      delivered = net.delivered ++ take c.bytes (flatten net.posted);
    }

abbrev pub without_op : TransportEntry → ℕ → TransportEntry
without_op e op = if is_op e.send_op op then record e { send_op = none; inflight = 0 } else e

-- `on_send_done` from `resuming` on.
pub resume_or_go_on : Net → Answer → Net
resume_or_go_on net next =
    let e = net.entry in
    let resuming = e.proto_paused && leb e.queued_bytes e.low_water in
    let resumed =
      queue_event (record net { entry = record e { proto_paused = false } }) resume_writing in
    let net' = if resuming then resumed else net in
    if not (is_empty e.wq)
    then flush_pending net' next
    else if resuming
    then net'
    else maybe_finish_shutdown net'

pub on_send_done : Bool → Net → SendDone → Net
on_send_done windows net c =
    let net' = record net { entry = without_op net.entry c.op } in
    let code =
      if is_cancelled_error windows c.os_error then wsaeconnaborted windows else c.os_error in
    if net.entry.conn_lost
    then net'
    else if not (c.os_error == 0)
    then teardown_with net' (some code)
    else resume_or_go_on (take_sent net' c) c.next
