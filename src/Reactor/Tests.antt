-- ===== src/Reactor/Tests.antt =====
-- Runs of crates/core/src/reactor.rs at concrete inputs.
use mathlib.Core.Option.{some-injective}
use cadeloop.Prelude.{
  ℕ, zero, suc, ◌+◌, ◌≤◌, ◌≡◌, refl, ap, Bool, true, false, List, [], ◌∷◌, arith, if◌then◌else◌,
}
use cadeloop.Prelude.Partial.{Yields}
use cadeloop.SpinGate.{park, new}
use cadeloop.Clock.{ahead, cached_time}
use cadeloop.Ready.{new_ready, new_handoff}
use cadeloop.Timer.{TimerPayload, Entry}
use cadeloop.Timer.Order.{IsBelow, IsHeap, rank_of}
use cadeloop.Timer.Heap.Expire.{IsValid}
use cadeloop.Reactor.{
  Reactor, IoBackend, ok, wakeup, max_park, take_batch, poll_timeout, fire_expired_timers,
}
use cadeloop.Reactor.Batch.{pops, pops-take_batch}
use cadeloop.Reactor.Timeout.{Timeout, poll_timeout_correct}
use cadeloop.Reactor.Timers.{Fired, fire_expired_timers_correct}
use cadeloop.Reactor.Poll.{poll}
use cadeloop.Reactor.Poll.Gate.{poll_outcome, poll-park}

-- A token is a number and whether it was cancelled.
record Token : Type 0 where
  tag : ℕ
  is_cancelled : Bool

instance TokenPayload : TimerPayload Token
TokenPayload = record {
  is_cancelled = λ t. t.is_cancelled;
  mark_unscheduled = λ t. t;
  cancelled_marked = λ t. refl;
}

-- A backend that reports a wakeup at every poll, and counts them.
instance CountingBackend : IoBackend ℕ
CountingBackend = record {
  has_io_interest = λ n. true;
  precise_parks = λ n. false;
  take_staged = λ n. (n, []);
  try_poll = λ n. ok (n + 1) (wakeup ∷ []);
  poll_precise = λ n timeout bound. ok (n + 1) (wakeup ∷ []);
}

abbrev token : ℕ → Bool → Token
token n b = record { tag = n; is_cancelled = b }

abbrev two_timers : List (Entry Token)
two_timers =
    record { deadline = 10; seq = 0; payload = token 1 true }
    ∷ record { deadline = 20; seq = 1; payload = token 2 false }
    ∷ []

-- Three callbacks, two of them in the batch, and two timers, one of them cancelled.
abbrev sample : Reactor Token ℕ
sample = record {
  clock = record { offset = ahead 0; cached = 15; stale = false };
  timers = record { entries = two_timers; seq = 2; tombstones = 1; graveyard = [] };
  queued = record { queue = token 3 false ∷ token 4 false ∷ token 5 false ∷ [] };
  xthread = new_handoff;
  backend = 0;
  cancelled_timers = 0;
  completions = [];
  stats = record {
    ticks = 1;
    completions = 0;
    callbacks_dispatched = 0;
    timers_fired = 0;
    xthread_items = 0;
    spins = 0;
    spin_hits = 0;
    polls_elided = 0;
    polls = 0;
    precise_parks = 0;
  };
  cfg = record { spin_us = 20; adaptive_spin = true };
  batch_left = 2;
  last_poll_ns = 0;
  ready_snapshot = 2;
  expired = [];
  deadline_bound = false;
  spin_gate = new;
}

abbrev waiting : Reactor Token ℕ
waiting = record sample { queued = new_ready; batch_left = 0 }

two_ordered : IsHeap two_timers
unfolding rank_of
two_ordered zero p q r = absurd (omega arith)
two_ordered (suc zero) p q r = omega arith
two_ordered (suc (suc c)) p q r = absurd (omega arith)

two_issued : IsBelow 2 two_timers
two_issued zero e q = ground (arith, ap (λ (x : Entry Token). x.seq) (some-injective _ _ q))
two_issued (suc zero) e q = ground (arith, ap (λ (x : Entry Token). x.seq) (some-injective _ _ q))
two_issued (suc (suc i)) e q = cc

two-IsValid : IsValid sample.timers
two-IsValid = record { heap = two_ordered; issued = two_issued; room = omega arith }

pops-take_batch_example :
    ((pops 2 sample).1 ≡ (take_batch sample []).1)
    × ((pops 2 sample).0.queued.queue ≡ (take_batch sample []).0.queued.queue)
    × ((pops 2 sample).0.batch_left ≡ (take_batch sample []).0.batch_left)
    × ((pops 2 sample).0.stats.callbacks_dispatched
        ≡ (take_batch sample []).0.stats.callbacks_dispatched)
pops-take_batch_example = pops-take_batch sample 2 refl (omega arith)

poll_timeout_correct_example :
    Yields (λ v. Timeout waiting 15 v × (v.1 ≤ max_park)) (poll_timeout waiting 15)
poll_timeout_correct_example = poll_timeout_correct waiting 15 two-IsValid

fire_expired_timers_correct_example :
    Yields
      (λ r'.
        Fired sample.timers (cached_time sample.clock 15).1 sample.expired r'.timers r'.expired)
      (fire_expired_timers sample 15)
fire_expired_timers_correct_example = fire_expired_timers_correct sample 15 two-IsValid

poll-park_example :
    ((poll waiting 5000 ((0, false) ∷ []) 10 40).0.spin_gate
      ≡ (park waiting.spin_gate (poll_outcome waiting 5000 ((0, false) ∷ []))).0)
    × ((poll waiting 5000 ((0, false) ∷ []) 10 40).0.stats.spins
        ≡ waiting.stats.spins
          + (if (park waiting.spin_gate (poll_outcome waiting 5000 ((0, false) ∷ []))).1
              then 1
              else 0))
poll-park_example = poll-park waiting 5000 ((0, false) ∷ []) 10 40 refl (omega arith) (omega arith)
