-- ===== src/Inbox/Repause.antt =====
-- What becomes of the order where reading is paused again too early (crates/pyshim/src/net.rs).
use cadeloop.Prelude.{ℕ, ◌≡◌, refl, Bool, true, List, ◌∷◌, ◌++◌, map}
use cadeloop.Outbox.{posted_as}
use cadeloop.Inbox.{
  byte, ReadSide, RecvDone, on_recv_done, pause_reading, resume_reading, dispatch_next, post_recv,
  flush_paused_recv, route_inbound,
}
use cadeloop.Inbox.Runs.{reading_as}

abbrev pub bytes_come : ℕ → ℕ → List ℕ → RecvDone
bytes_come op b l = record {
  op = op;
  bytes = b ∷ l;
  os_error = 0;
  plain = true;
  next = posted_as 9;
}

-- Bytes arrive on a paused transport, which is resumed and paused again.
abbrev pub repaused : Bool → ℕ → List ℕ → ReadSide
repaused windows a k = pause_reading (
    resume_reading (on_recv_done windows (pause_reading (reading_as 7)) (bytes_come 7 a k))
      (posted_as 8))

-- More bytes arrive, the event is dispatched, and reading is resumed.
abbrev pub resumed : Bool → ReadSide → ℕ → List ℕ → ReadSide
resumed windows r b l =
    dispatch_next
      (resume_reading (dispatch_next (on_recv_done windows r (bytes_come 8 b l))) (posted_as 9))

-- On a transport that holds bytes, resume_reading and then pause_reading before the next tick: bytes that arrive
-- meanwhile are handed to the protocol ahead of the ones that were held, although they were received behind them.
pub repaused-resumed :
    (windows : Bool) (a : ℕ) (k : List ℕ) (b : ℕ) (l : List ℕ)
    → ((resumed windows (repaused windows a k) b l).told ≡ map byte ((b ∷ l) ++ a ∷ k))
      × ((resumed windows (repaused windows a k) b l).received
          ≡ map byte (a ∷ k) ++ map byte (b ∷ l))
unfolding on_recv_done pause_reading resume_reading post_recv flush_paused_recv route_inbound
repaused-resumed windows a k b l = (refl, refl)
