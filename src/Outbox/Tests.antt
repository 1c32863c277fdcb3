-- ===== src/Outbox/Tests.antt =====
-- Runs of the write side of crates/pyshim/src/net.rs at concrete inputs.
use cadeloop.Prelude.{◌≡◌, refl, arith, true, false, Option, some, none, [], ◌∷◌}
use cadeloop.Outbox.{
  Net, posted_as, refused, SendDone, enqueue, extend_last, coalesce_tail, flush_pending, gather,
  post_send, on_send_done, resume_or_go_on, consume, owned, pauses_writing, resumes_writing,
  resume_writing, teardown_with, lost,
}
use cadeloop.Backend.{io_len, is_cancelled_error}
use cadeloop.Outbox.Ops.{
  Inline, write, cork, write_queued, maybe_pause, settle_inline, settle_loop, write_limits,
  dispatch_next,
}
use cadeloop.Outbox.Invariant.{IsSound}
use cadeloop.Outbox.Runs.{
  here, step, writes, completes, dispatches, connected, Reachable-IsSound_write,
}

abbrev no_inline : Inline
no_inline = record { early = refused 5; flush = posted_as 7; rounds = [] }

abbrev fresh : Net
fresh = connected 4 1

abbrev written_two : Net
written_two = record fresh {
  entry = record fresh.entry {
    wq = owned (1 ∷ 2 ∷ []) 0 ∷ [];
    queued_bytes = 2;
    flush_scheduled = true;
  };
  written = 1 ∷ 2 ∷ [];
}

write_two : write true false fresh true (1 ∷ 2 ∷ []) no_inline ≡ some written_two
unfolding write write_queued enqueue coalesce_tail extend_last cork maybe_pause
write_two = refl

-- A second write goes behind the first one's bytes, and passes the mark: it is flushed, and writing pauses.
abbrev written_five : Net
written_five = record {
  entry = record written_two.entry {
    send_op = some 7;
    inflight = 1;
    wq = owned (1 ∷ 2 ∷ 3 ∷ 4 ∷ 5 ∷ []) 0 ∷ [];
    queued_bytes = 5;
    proto_paused = true;
    flush_scheduled = false;
  };
  events = [];
  calls = pauses_writing ∷ [];
  posted = (1 ∷ 2 ∷ 3 ∷ 4 ∷ 5 ∷ []) ∷ [];
  delivered = [];
  written = 1 ∷ 2 ∷ 3 ∷ 4 ∷ 5 ∷ [];
}

write_three : write true false written_two true (3 ∷ 4 ∷ 5 ∷ []) no_inline ≡ some written_five
unfolding write write_queued enqueue coalesce_tail extend_last cork maybe_pause settle_inline
    settle_loop flush_pending gather post_send io_len
write_three = refl

abbrev four_sent : SendDone
four_sent = record { op = 7; bytes = 4; os_error = 0; next = posted_as 8 }

sent_four : (on_send_done true written_five four_sent).events ≡ resume_writing ∷ []
unfolding on_send_done resume_or_go_on consume flush_pending gather post_send io_len
sent_four = refl

-- What is left of the queue is posted by the completion.
rest_posted : (on_send_done true written_five four_sent).posted ≡ (5 ∷ []) ∷ []
unfolding on_send_done resume_or_go_on consume flush_pending gather post_send io_len
rest_posted = refl

-- Limits: four times low where only low is given, and none where high is below low.
limits_of_low : write_limits none (some 3) ≡ some (12, 3)
unfolding write_limits
limits_of_low = refl

limits_crossed : write_limits (some 2) (some 3) ≡ none
unfolding write_limits
limits_crossed = refl

-- An error of the send loses the connection with its code.
send_failed :
    (on_send_done true written_five (record four_sent { os_error = 995 })).events
    ≡ lost (some 10053) ∷ []
unfolding on_send_done teardown_with is_cancelled_error
send_failed = refl

-- A write over the mark before the resume_writing that waits is dispatched: pause_writing is called a second time.
abbrev written_or : Net → Option Net → Net
written_or net none = net
written_or net (some net') = net'

abbrev written_again : Net
written_again = written_or fresh (
    write true false (on_send_done true written_five four_sent) true (6 ∷ 7 ∷ 8 ∷ 9 ∷ []) no_inline)

paused_twice :
    (dispatch_next written_again).calls ≡ pauses_writing ∷ pauses_writing ∷ resumes_writing ∷ []
unfolding write write_queued enqueue coalesce_tail extend_last cork maybe_pause settle_inline
    settle_loop flush_pending gather post_send io_len on_send_done resume_or_go_on consume
paused_twice = refl

Reachable-IsSound_write_example : IsSound (dispatch_next (on_send_done true written_five four_sent))
Reachable-IsSound_write_example = Reachable-IsSound_write {high = 4} {low = 1} (
    step
      (step
        (step (step here (writes false true (1 ∷ 2 ∷ []) no_inline tt write_two))
          (writes false true (3 ∷ 4 ∷ 5 ∷ []) no_inline tt write_three))
        (completes four_sent (λ l e. (refl, omega arith))))
      dispatches)
