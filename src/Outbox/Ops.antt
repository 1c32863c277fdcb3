-- ===== src/Outbox/Ops.antt =====
-- The calls of a transport that write, flush and close (crates/pyshim/src/net.rs).
use cadeloop.Prelude.{
  ℕ, zero, suc, ◌*◌, ◌/◌, Bool, true, ◌&&◌, ◌||◌, not, Option, none, some, List, [], ◌∷◌, ◌++◌,
  length, ◌==◌, leb, if◌then◌else◌,
}
use cadeloop.Outbox.{
  TransportEntry, Net, Queued, bytes_of, queued_of, enqueue, Answer, SendDone, flush_pending,
  on_send_done, maybe_finish_shutdown, call_out, NetEvent, resume_writing, lost, resumes_writing,
  loses, pauses_writing, is_some, is_empty, cork_flush_bytes,
}

-- The completions that the backend holds when it is asked, round by round, and its answers.
pub record Inline : Type 0 where
  pub early : Answer
  pub flush : Answer
  pub rounds : List (List SendDone)

unfoldable pub translate : Bool → Net → List SendDone → Net
translate windows net [] = net
translate windows net (c ∷ l) = translate windows (on_send_done windows net c) l

-- At most as many rounds as the first argument says; an empty round is the last.
unfoldable pub settle_loop : ℕ → Bool → Net → List (List SendDone) → Net
settle_loop zero windows net rounds = net
settle_loop (suc k) windows net [] = net
settle_loop (suc k) windows net ([] ∷ l) = net
settle_loop (suc k) windows net ((c ∷ cs) ∷ l) =
    settle_loop k windows (translate windows net (c ∷ cs)) l

unfoldable pub settle_inline : Bool → Net → List (List SendDone) → Net
unfolding settle_loop
settle_inline windows net rounds = settle_loop 8 windows net rounds

-- Nothing to pause: paused already, not over the mark, or gone.
abbrev pub within_mark : TransportEntry → Bool
within_mark e = e.conn_lost || e.proto_paused || leb e.queued_bytes e.high_water

unfoldable pub maybe_pause : Bool → Net → Inline → Net
maybe_pause windows net inline =
    let flushed = if is_some net.entry.send_op then net else flush_pending net inline.flush in
    let settled = settle_inline windows flushed inline.rounds in
    let paused =
      call_out (record settled { entry = record settled.entry { proto_paused = true } })
        pauses_writing in
    if within_mark net.entry then net else if within_mark settled.entry then settled else paused

-- Corking: a big queue is sent at once, another at the end of the tick.
unfoldable pub cork : Net → Answer → Net
cork net early =
    let e = net.entry in
    if is_some e.send_op
    then net
    else if leb cork_flush_bytes e.queued_bytes
    then flush_pending net early
    else record net { entry = record e { flush_scheduled = true } }

-- The rest of `write`, once what it queues is decided.
unfoldable pub write_queued : Bool → Bool → Net → Queued → Inline → Option Net
write_queued windows eof net queued inline =
    let bytes = bytes_of queued in
    let net' = record net { entry = enqueue net.entry queued; written = net.written ++ bytes } in
    if eof
    then none
    else if length bytes == 0 || net.entry.conn_lost
    then some net
    else some (maybe_pause windows (cork net' inline.early) inline)

-- `write` once the type of the data is checked, after a write_eof (`eof`) or not; an empty write is dropped, and
-- so is one on a connection that is lost. `none` is the RuntimeError.
unfoldable pub write : Bool → Bool → Net → Bool → List ℕ → Inline → Option Net
unfolding write_queued
write windows eof net is_bytes bytes inline =
    write_queued windows eof net (queued_of is_bytes bytes) inline

-- `write_eof`, with the new value of `eof`.
unfoldable pub write_eof : Net → Bool → Net × Bool
write_eof net eof =
    let e = net.entry in
    if e.closing || e.conn_lost
    then (net, eof)
    else (maybe_finish_shutdown (record net { entry = record e { eof_wanted = true } }), true)

abbrev pub value_or : Option ℕ → ℕ → ℕ
value_or (some n) other = n
value_or none other = other

abbrev pub times_four : Option ℕ → Option ℕ
times_four none = none
times_four (some n) = some (n * 4)

-- The limits asked for, by what is given of them; `none` is the ValueError.
unfoldable pub write_limits : Option ℕ → Option ℕ → Option (ℕ × ℕ)
write_limits high low =
    let h = value_or high (value_or (times_four low) 65536) in
    let l = value_or low (h / 4) in if leb l h then some (h, l) else none

unfoldable pub set_write_buffer_limits : Bool → Net → ℕ × ℕ → Inline → Net
set_write_buffer_limits windows net (high, low) inline =
    let limited = record net { entry = record net.entry { high_water = high; low_water = low } } in
    if net.entry.conn_lost then net else maybe_pause windows limited inline

-- Whether there is corked output to send: `send_corked`.
abbrev pub corked : TransportEntry → Bool
corked e = not (e.conn_lost || is_some e.send_op || is_empty e.wq)

unfoldable pub close : Bool → Net → Inline → Net
close windows net inline =
    let closing = record net { entry = record net.entry { closing = true } } in
    let sent = settle_inline windows (flush_pending closing inline.flush) inline.rounds in
    if net.entry.closing || net.entry.conn_lost
    then net
    else maybe_finish_shutdown (if corked net.entry then sent else closing)

-- The first event that waits: resume_writing is called unless the connection is lost.
abbrev pub dispatch_first : Net → List NetEvent → Net
dispatch_first net [] = net
dispatch_first net (resume_writing ∷ later) =
    let net' = record net { events = later } in
    if net.entry.conn_lost then net' else call_out net' resumes_writing
dispatch_first net (lost code ∷ later) = call_out (record net { events = later }) (loses code)

abbrev pub dispatch_next : Net → Net
dispatch_next net = dispatch_first net net.events

-- What comes behind a resume_writing that was dispatched, and what the protocol did in it.
unfoldable pub finish_after_resume : Net → Net
finish_after_resume net =
    let e = net.entry in
    if not e.conn_lost && is_empty e.wq && not (is_some e.send_op)
    then maybe_finish_shutdown net
    else net
