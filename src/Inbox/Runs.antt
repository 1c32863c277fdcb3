-- ===== src/Inbox/Runs.antt =====
-- Runs of the read side of a transport (crates/pyshim/src/net.rs).
use cadeloop.Prelude.{
  ℕ, ◌≡◌, refl, sym, ◌∙◌, ap, subst, Bool, true, false, ◌||◌, not, none, some, [], ◌++◌, ◌⊎◌, arith,
  if_false,
}
use cadeloop.Outbox.{Answer, is_some}
use cadeloop.Inbox.{
  ReadSide, RecvDone, on_recv_done, held_events, flush_paused_recv, pause_reading, go_on,
  resume_reading, close, dispatch_next,
}
use cadeloop.Inbox.Bytes.{
  waiting, has_ended, held_signals, same-has_ended, waiting-append, waiting-held_events,
}
use cadeloop.Inbox.Order.{
  Agrees-as, pending, IsWhole, IsFree, IsOrdered, either-IsOrdered, whole-IsOrdered,
  post_recv-IsOrdered, held-has_ended, swap_empty, shut-IsOrdered,
}
use cadeloop.Inbox.Dispatch.{dispatch_from-IsOrdered}
use cadeloop.Inbox.Arrivals.{IsTimely, on_recv_done-IsOrdered}

go_on-IsOrdered :
    (r : ReadSide) (b : Bool) (next : Answer)
    → IsWhole r
    → IsFree r
    → (b ≡ true → has_ended r.received ≡ true)
    → IsOrdered (go_on (r, b) next)
go_on-IsOrdered r true next w f h =
    whole-IsOrdered r w f (λ c l p n. absurd (ground (arith, h refl)))
go_on-IsOrdered r false next w f h =
    either-IsOrdered (is_some r.recv_op) (λ e. whole-IsOrdered r w f (λ c l p n. ground arith))
      (λ e. post_recv-IsOrdered r next w f)

-- What was held comes out behind what waits.
abbrev released : ReadSide → ReadSide
released r = record r {
  reading_paused = false;
  paused_recv = none;
  paused_eof = false;
  events = r.events ++ held_events r.paused_recv r.paused_eof;
}

-- Nothing is held, or nothing waits.
abbrev pub IsSettled : ReadSide → Type 0
IsSettled r = (held_signals r.paused_recv r.paused_eof ≡ []) ⊎ (waiting r.events ≡ [])

released-IsWhole : (r : ReadSide) → IsWhole r → IsSettled r → IsWhole (released r)
released-IsWhole r w s =
    let h = held_signals r.paused_recv r.paused_eof in
    Agrees-as
      (ap (λ k. r.told ++ k)
        (waiting-append r.events (held_events r.paused_recv r.paused_eof)
          ∙ ap (λ k. waiting r.events ++ k) (waiting-held_events r.paused_recv r.paused_eof)
          ∙ sym (swap_empty h (waiting r.events) s)))
      w

resume_reading-IsOrdered :
    (r : ReadSide) (next : Answer) → IsOrdered r → IsSettled r → IsOrdered (resume_reading r next)
unfolding resume_reading flush_paused_recv
resume_reading-IsOrdered r next v s =
    either-IsOrdered (r.closing || r.conn_lost || not r.reading_paused) (λ e. v)
      (λ e.
        let w = v.whole (ground arith) (ground arith) in
        let cleared = record r { reading_paused = false; paused_recv = none; paused_eof = false } in
        subst (λ p. IsOrdered (go_on p next))
          (sym (
            if_false (r.conn_lost || r.closing) (cleared, false) (released r, r.paused_eof)
              (ground arith)))
          (go_on-IsOrdered (released r) r.paused_eof next (released-IsWhole r w s) (λ p. refl)
            (λ b.
              sym (same-has_ended (r.told ++ pending r) r.received w.same)
              ∙ ap (λ k. has_ended (r.told ++ (held_signals r.paused_recv k ++ waiting r.events))) b
              ∙ held-has_ended r.paused_recv r.told (waiting r.events))))

pause_reading-IsOrdered : (r : ReadSide) → IsOrdered r → IsOrdered (pause_reading r)
unfolding pause_reading
pause_reading-IsOrdered r v =
    either-IsOrdered (r.closing || r.conn_lost) (λ e. v)
      (λ e.
        whole-IsOrdered (record r { reading_paused = true }) (v.whole (ground arith) (ground arith))
          (λ p. cc) (λ c l p n. cc))

close-IsOrdered : (r : ReadSide) → IsOrdered r → IsOrdered (close r)
unfolding close
close-IsOrdered r v =
    either-IsOrdered (r.closing || r.conn_lost) (λ e. v)
      (λ e. shut-IsOrdered (record r { closing = true; recv_op = none }) v.ahead v.last refl)

pub data Step (windows : Bool) (r : ReadSide) : ReadSide → Type 0 where
  completes : (c : RecvDone) → IsTimely r c → Step windows r (on_recv_done windows r c)
  dispatches : Step windows r (dispatch_next r)
  pauses : Step windows r (pause_reading r)
  resumes : (next : Answer) → IsSettled r → Step windows r (resume_reading r next)
  closes : Step windows r (close r)

Step-IsOrdered : {windows : Bool} {r r' : ReadSide} → Step windows r r' → IsOrdered r → IsOrdered r'
Step-IsOrdered {windows} {r} (completes c t) v = on_recv_done-IsOrdered windows r c v t
Step-IsOrdered {windows} {r} dispatches v = dispatch_from-IsOrdered r r.events v v
Step-IsOrdered {windows} {r} pauses v = pause_reading-IsOrdered r v
Step-IsOrdered {windows} {r} (resumes next s) v = resume_reading-IsOrdered r next v s
Step-IsOrdered {windows} {r} closes v = close-IsOrdered r v

pub data Run (windows : Bool) (start : ReadSide) : ReadSide → Type 0 where
  begin : Run windows start start
  then_step : {r r' : ReadSide} → Run windows start r → Step windows r r' → Run windows start r'

-- A transport whose first receive is posted as an operation.
abbrev pub reading_as : ℕ → ReadSide
reading_as op = record {
  recv_op = some op;
  reading_paused = false;
  closing = false;
  conn_lost = false;
  paused_recv = none;
  paused_eof = false;
  events = [];
  lost_with = none;
  received = [];
  told = [];
}

reading_as-IsOrdered : (op : ℕ) → IsOrdered (reading_as op)
reading_as-IsOrdered op =
    whole-IsOrdered (reading_as op) (record { same = refl; last = refl }) (λ p. refl)
      (λ c l p n. refl)

-- Over any run of completions, dispatches, pause_reading, resume_reading and close, in which no bytes are received
-- after an EOF (the EOF may be received again), no receive completes on an open transport that is paused while an
-- event of it waits, and resume_reading is not called while something is held and an event waits: what the
-- protocol is told is up to the first EOF a front of what was received, in order, and it is told no byte behind
-- an EOF; on an open transport, what it was told, what is held and then what waits are together, up to the first
-- EOF, all that was received; only a paused transport holds anything, and before the EOF an open transport that is
-- not paused has a receive posted, or the failure to post one waits.
pub Run-IsOrdered :
    {windows : Bool} {op : ℕ} {r : ReadSide} → Run windows (reading_as op) r → IsOrdered r
Run-IsOrdered {op = op} begin = reading_as-IsOrdered op
Run-IsOrdered (then_step s t) = Step-IsOrdered t (Run-IsOrdered s)
