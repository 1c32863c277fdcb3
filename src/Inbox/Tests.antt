-- ===== src/Inbox/Tests.antt =====
-- Runs of the read side of crates/pyshim/src/net.rs at concrete inputs.
use cadeloop.Prelude.{◌≡◌, refl, inr, true, [], ◌∷◌, ◌++◌, map}
use cadeloop.Outbox.{posted_as, refused}
use cadeloop.Inbox.{
  byte, ended, ReadSide, RecvDone, on_recv_done, pause_reading, resume_reading, dispatch_next,
  post_recv, flush_paused_recv, route_inbound, route_eof, close,
}
use cadeloop.Inbox.Order.{IsOrdered}
use cadeloop.Inbox.Arrivals.{IsTimely}
use cadeloop.Inbox.Runs.{
  Run, begin, then_step, completes, dispatches, pauses, resumes, reading_as, IsSettled,
  Run-IsOrdered,
}
use cadeloop.Inbox.Repause.{resumed, repaused, repaused-resumed}

abbrev two_bytes : RecvDone
two_bytes = record { op = 7; bytes = 1 ∷ 2 ∷ []; os_error = 0; plain = true; next = posted_as 8 }

abbrev no_bytes : RecvDone
no_bytes = record { op = 8; bytes = []; os_error = 0; plain = true; next = refused 9 }

abbrev last : ReadSide
last = dispatch_next (
    dispatch_next (
      on_recv_done true
        (resume_reading (on_recv_done true (pause_reading (reading_as 7)) two_bytes) (posted_as 8))
        no_bytes))

held_then_eof : last.told ≡ byte 1 ∷ byte 2 ∷ ended ∷ []
unfolding on_recv_done pause_reading resume_reading post_recv flush_paused_recv route_inbound
    route_eof
held_then_eof = refl

-- A transport that is closing is told nothing.
closed_silent : (dispatch_next (close (on_recv_done true (reading_as 7) two_bytes))).told ≡ []
unfolding on_recv_done post_recv close route_inbound
closed_silent = refl

two-IsTimely : IsTimely (pause_reading (reading_as 7)) two_bytes
unfolding pause_reading
two-IsTimely = record { at_end = λ e n. cc; nothing_waits = λ c l p. refl }

eof-IsTimely :
    IsTimely
      (resume_reading (on_recv_done true (pause_reading (reading_as 7)) two_bytes) (posted_as 8))
      no_bytes
unfolding on_recv_done pause_reading resume_reading post_recv flush_paused_recv
eof-IsTimely = record { at_end = λ e n. cc; nothing_waits = λ c l p. cc }

held_and_resumed :
    Run true
      (reading_as 7)
      (resume_reading (on_recv_done true (pause_reading (reading_as 7)) two_bytes) (posted_as 8))
unfolding on_recv_done pause_reading
held_and_resumed =
    then_step (then_step (then_step begin pauses) (completes two_bytes two-IsTimely))
      (resumes (posted_as 8) (inr refl))

-- The peer's EOF, told to the protocol, received again on the paused transport after it.
abbrev ended_again : ReadSide
ended_again =
    on_recv_done true (pause_reading (resume_reading (pause_reading last) (posted_as 9)))
      (record no_bytes { op = 9 })

told_twice :
    (dispatch_next (resume_reading ended_again (posted_as 9))).told
    ≡ byte 1 ∷ byte 2 ∷ ended ∷ ended ∷ []
unfolding on_recv_done pause_reading resume_reading post_recv flush_paused_recv route_inbound
    route_eof
told_twice = refl

again-IsTimely :
    IsTimely
      (pause_reading (resume_reading (pause_reading last) (posted_as 9)))
      (record no_bytes { op = 9 })
unfolding on_recv_done pause_reading resume_reading post_recv flush_paused_recv route_inbound
    route_eof
again-IsTimely = record { at_end = λ e n. refl; nothing_waits = λ c l p. refl }

paused_last : IsSettled (pause_reading last)
unfolding on_recv_done pause_reading resume_reading post_recv flush_paused_recv route_inbound
    route_eof
paused_last = inr refl

Run-IsOrdered_example : IsOrdered ended_again
Run-IsOrdered_example = Run-IsOrdered {op = 7} (
    then_step
      (then_step
        (then_step
          (then_step
            (then_step
              (then_step (then_step held_and_resumed (completes no_bytes eof-IsTimely)) dispatches)
              dispatches)
            pauses)
          (resumes (posted_as 9) paused_last))
        pauses)
      (completes (record no_bytes { op = 9 }) again-IsTimely))

repaused-resumed_example :
    ((resumed true (repaused true 1 []) 2 (3 ∷ [])).told ≡ map byte ((2 ∷ 3 ∷ []) ++ 1 ∷ []))
    × ((resumed true (repaused true 1 []) 2 (3 ∷ [])).received
        ≡ map byte (1 ∷ []) ++ map byte (2 ∷ 3 ∷ []))
repaused-resumed_example = repaused-resumed true 1 [] 2 (3 ∷ [])
