-- ===== src/Outbox/Runs.antt =====
-- Runs of the calls on a transport's write side (crates/pyshim/src/net.rs).
use cadeloop.Prelude.{
  List, ℕ, ◌<◌, ◌≡◌, refl, ap, ◌++◌, ◌∷◌, subst, Bool, true, false, ◌||◌, ◌&&◌, not, none, some, [],
  arith, length, ◌==◌, Bool-cases, inl, inr,
}
use cadeloop.Outbox.{
  NetEvent, resume_writing, lost, Call, resumes_writing, loses, Net, is_some, is_empty, Answer,
  flush_pending, SendDone, on_send_done, Queued, bytes_of, queued_of,
}
use cadeloop.Outbox.Ops.{
  Inline, cork, write, write_queued, write_eof, set_write_buffer_limits, corked, close,
  finish_after_resume, dispatch_first, dispatch_next,
}
use cadeloop.Outbox.Invariant.{
  idle, Sending-as, IsSound, IsBalanced, owed, pauses-append, resumes-append, either-IsSound,
  maybe_finish_shutdown-IsSound, flush_pending-IsSound,
}
use cadeloop.Outbox.Gather.{prefix}
use cadeloop.Outbox.Calls.{Obeys, on_send_done-IsSound}
use cadeloop.Outbox.Writes.{
  RoundsObey, flushed, queued, maybe_pause-IsSound, cork-IsSound, settle_inline-IsSound,
  queued-IsWhole, queued-HasOutput,
}

-- The net of a write that is queued and corked.
abbrev pub corked_write : Net → Queued → Inline → Net
corked_write net q inline = cork (queued net q) inline.early

some_eq : {a b : Net} → some a ≡ some b → a ≡ b
some_eq h = cc

write_queued-IsSound :
    (windows eof : Bool) (net net' : Net) (q : Queued) (inline : Inline)
    → write_queued windows eof net q inline ≡ some net'
    → IsSound net
    → RoundsObey 8 windows (flushed (corked_write net q inline) inline) inline.rounds
    → IsSound net'
unfolding write_queued
write_queued-IsSound windows true net net' q inline e v o = cc
write_queued-IsSound windows false net net' q inline e v o =
    elim (Bool-cases (length (bytes_of q) == 0 || net.entry.conn_lost)) [
      | inl d ↦ subst IsSound (some_eq (rw d at e)) v
      | inr d ↦
          let l : net.entry.conn_lost ≡ false = ground arith in
          let n : 0 < length (bytes_of q) = ground arith in
          subst IsSound (some_eq (rw d at e)) (
            maybe_pause-IsSound windows (corked_write net q inline) inline
              (cork-IsSound (queued net q) inline.early (queued-IsWhole net q l v n)
                (queued-HasOutput net q l v n))
              o)
    ]

write-IsSound :
    (windows eof is_bytes : Bool) (net net' : Net) (bytes : List ℕ) (inline : Inline)
    → write windows eof net is_bytes bytes inline ≡ some net'
    → IsSound net
    → RoundsObey 8 windows
        (flushed (corked_write net (queued_of is_bytes bytes) inline) inline)
        inline.rounds
    → IsSound net'
unfolding write
write-IsSound windows eof is_bytes net net' bytes inline e v o =
    write_queued-IsSound windows eof net net' (queued_of is_bytes bytes) inline e v o

-- A change of flags that the invariant does not read.
flags-IsSound :
    (net : Net) (closing eof_wanted : Bool)
    → IsSound net
    → IsSound
        (record net { entry = record net.entry { closing = closing; eof_wanted = eof_wanted } })
flags-IsSound net closing eof_wanted v = record {
  whole = record {
    balanced = v.whole.balanced;
    front = v.whole.front;
    alive = λ k.
        let a = v.whole.alive k in
        record {
          ready = a.ready;
          counted = a.counted;
          whole = a.whole;
          sending = Sending-as a.sending refl refl refl;
        };
  };
  has_output = v.has_output;
  on_its_way = v.on_its_way;
}

limits-IsSound :
    (net : Net) (high low : ℕ)
    → IsSound net
    → IsSound (record net { entry = record net.entry { high_water = high; low_water = low } })
limits-IsSound net high low v = record {
  whole = record {
    balanced = v.whole.balanced;
    front = v.whole.front;
    alive = λ k.
        let a = v.whole.alive k in
        record {
          ready = a.ready;
          counted = a.counted;
          whole = a.whole;
          sending = Sending-as a.sending refl refl refl;
        };
  };
  has_output = v.has_output;
  on_its_way = v.on_its_way;
}

abbrev pub with_limits : Net → ℕ → ℕ → Net
with_limits net high low = record net {
  entry = record net.entry { high_water = high; low_water = low };
}

abbrev pub now_closing : Net → Net
now_closing net = record net { entry = record net.entry { closing = true } }

-- One call, with what the kernel answers and completes meanwhile.
pub data Step (windows : Bool) (net : Net) : Net → Type 0 where
  writes :
      {net' : Net} (eof is_bytes : Bool) (bytes : List ℕ) (inline : Inline)
      → RoundsObey 8 windows
          (flushed (corked_write net (queued_of is_bytes bytes) inline) inline)
          inline.rounds
      → write windows eof net is_bytes bytes inline ≡ some net'
      → Step windows net net'
  flushes : (answer : Answer) → Step windows net (flush_pending net answer)
  completes : (c : SendDone) → Obeys net c → Step windows net (on_send_done windows net c)
  ends : (eof : Bool) → Step windows net (write_eof net eof).0
  limits :
      (high low : ℕ) (inline : Inline)
      → RoundsObey 8 windows (flushed (with_limits net high low) inline) inline.rounds
      → Step windows net (set_write_buffer_limits windows net (high, low) inline)
  closes :
      (inline : Inline)
      → RoundsObey 8 windows (flush_pending (now_closing net) inline.flush) inline.rounds
      → Step windows net (close windows net inline)
  dispatches : Step windows net (dispatch_next net)
  resumed : Step windows net (finish_after_resume net)

write_eof-IsSound : (net : Net) (eof : Bool) → IsSound net → IsSound (write_eof net eof).0
unfolding write_eof
write_eof-IsSound net eof v = elim (Bool-cases (net.entry.closing || net.entry.conn_lost)) [
  | inl e ↦ rw e v
  | inr e ↦ rw e (maybe_finish_shutdown-IsSound _ (flags-IsSound net net.entry.closing true v))
]

-- A call and what waits behind it, which the rest of the invariant does not read.
dispatched-IsSound :
    (net : Net) (later : List NetEvent) (made : List Call)
    → IsSound net
    → (net.entry.conn_lost ≡ false → IsBalanced (record net { events = later; calls = made }))
    → IsSound (record net { events = later; calls = made })
dispatched-IsSound net later made v b = record {
  whole = record {
    balanced = b;
    front = v.whole.front;
    alive = λ k.
        let a = v.whole.alive k in
        record {
          ready = a.ready;
          counted = a.counted;
          whole = a.whole;
          sending = Sending-as a.sending refl refl refl;
        };
  };
  has_output = v.has_output;
  on_its_way = v.on_its_way;
}

dispatch_first-IsSound :
    (net : Net) (l : List NetEvent) → net.events ≡ l → IsSound net → IsSound (dispatch_first net l)
dispatch_first-IsSound net [] e v = v
dispatch_first-IsSound net (resume_writing ∷ l) e v =
    let o = ap owed e in
    either-IsSound net.entry.conn_lost
      (λ t. dispatched-IsSound net l net.calls v (λ f. absurd (ground arith)))
      (λ t. dispatched-IsSound net l (net.calls ++ resumes_writing ∷ []) v (λ f. omega (
        arith,
        v.whole.balanced f,
        o,
        pauses-append net.calls resumes_writing,
        resumes-append net.calls resumes_writing,
      )))
dispatch_first-IsSound net (lost code ∷ l) e v =
    let o = ap owed e in
    dispatched-IsSound net l (net.calls ++ loses code ∷ []) v (λ f. omega (
      arith,
      v.whole.balanced f,
      o,
      pauses-append net.calls (loses code),
      resumes-append net.calls (loses code),
    ))

pub Step-IsSound :
    {windows : Bool} {net net' : Net} → Step windows net net' → IsSound net → IsSound net'
unfolding set_write_buffer_limits close finish_after_resume
Step-IsSound {windows} {net} {net'} (writes eof is_bytes bytes inline o e) v =
    write-IsSound windows eof is_bytes net net' bytes inline e v o
Step-IsSound {windows} {net} (flushes answer) v =
    flush_pending-IsSound net answer v.whole v.has_output
Step-IsSound {windows} {net} (completes c o) v = on_send_done-IsSound windows net c v o
Step-IsSound {windows} {net} (ends eof) v = write_eof-IsSound net eof v
Step-IsSound {windows} {net} (limits high low inline o) v =
    either-IsSound net.entry.conn_lost (λ l. v)
      (λ l.
        maybe_pause-IsSound windows (with_limits net high low) inline
          (limits-IsSound net high low v) o)
Step-IsSound {windows} {net} (closes inline o) v =
    let c = flags-IsSound net true net.entry.eof_wanted v in
    either-IsSound (net.entry.closing || net.entry.conn_lost) (λ e. v)
      (λ e. maybe_finish_shutdown-IsSound _ (
        either-IsSound (corked net.entry)
          (λ k.
            settle_inline-IsSound windows (flush_pending (now_closing net) inline.flush)
              inline.rounds
              (flush_pending-IsSound (now_closing net) inline.flush c.whole c.has_output) o)
          (λ k. c)))
Step-IsSound {windows} {net} dispatches v = dispatch_first-IsSound net net.events refl v
Step-IsSound {windows} {net} resumed v =
    either-IsSound
      (not net.entry.conn_lost && is_empty net.entry.wq && not (is_some net.entry.send_op))
      (λ e. maybe_finish_shutdown-IsSound net v) (λ e. v)

pub data Reachable (windows : Bool) (start : Net) : Net → Type 0 where
  here : Reachable windows start start
  step :
      {net net' : Net}
      → Reachable windows start net
      → Step windows net net'
      → Reachable windows start net'

-- A transport that was just connected.
abbrev pub connected : ℕ → ℕ → Net
connected high low = record {
  entry = record {
    send_op = none;
    inflight = 0;
    wq = [];
    queued_bytes = 0;
    high_water = high;
    low_water = low;
    proto_paused = false;
    closing = false;
    conn_lost = false;
    eof_wanted = false;
    eof_sent = false;
    flush_scheduled = false;
  };
  events = [];
  calls = [];
  posted = [];
  delivered = [];
  written = [];
}

connected-IsSound : (high low : ℕ) → IsSound (connected high low)
connected-IsSound high low = record {
  whole = record {
    balanced = λ l. refl;
    front = prefix [] refl;
    alive = λ h. record { ready = tt; counted = refl; whole = refl; sending = idle refl refl };
  };
  has_output = λ h p. cc;
  on_its_way = λ h. refl;
}

-- Whatever calls are made on a connected transport, with any limits, and whatever the kernel answers, takes and
-- completes, in calls or between them: what it has taken is the front of what was written, byte for byte, and
-- until the connection is lost what is queued is the rest, counted by `queued_bytes`; the buffers of a send in
-- flight still hold the bytes that the kernel was handed, at most sixteen slices and MAX_SEND_BYTES of them and
-- never none; queued output is in flight or scheduled for the end of the tick; until the connection is
-- lost, pause_writing has been called as often as resume_writing has been called or waits to be dispatched, and
-- once more while the protocol counts as paused, and then output is queued, so that a completion will come.
pub Reachable-IsSound_write :
    {windows : Bool} {high low : ℕ} {net : Net}
    → Reachable windows (connected high low) net
    → IsSound net
Reachable-IsSound_write {high = high} {low = low} here = connected-IsSound high low
Reachable-IsSound_write (step r s) = Step-IsSound s (Reachable-IsSound_write r)
