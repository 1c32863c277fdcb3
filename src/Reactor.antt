-- ===== src/Reactor.antt =====
-- The reactor (crates/core/src/reactor.rs). The kernel backend is any type `B` with the interface
-- `IoBackend`; an `io::Result` that is an error is `err`. A `Duration` is a number of nanoseconds. The
-- readings of the platform's clock are arguments, and so are the looks that a spin has time for. `none` is
-- a panic of the timer heap. The spare buffer, which is always empty, only saves allocations: left out.
pub mod Batch
pub mod Timeout
pub mod Timers
pub mod Poll
mod Tests
use cadeloop.Prelude.{
  ℕ, zero, suc, ◌+◌, ◌-◌, ◌*◌, ◌^◌, Bool, true, false, ◌&&◌, ◌||◌, not, Option, none, some, List,
  [], ◌∷◌, ◌++◌, length, take, drop, min, ltb, leb, ◌==◌, if◌then◌else◌,
}
use cadeloop.Prelude.Partial.{◌>>=◌}
use cadeloop.SpinGate.{SpinGate, should_spin, record_spin}
use cadeloop.Clock.{Clock, cached_time, refresh, invalidate, now}
use cadeloop.Ready.{
  ReadyQueue, CrossThreadQueue, new_ready, push_front, pop_ready, swap_with, drain_into,
}
use cadeloop.OpSlab.{OpId}
use cadeloop.Timer.{TimerPayload}
use cadeloop.Timer.Heap.{
  TimerHeap, schedule, peek_deadline, pop_expired, next_deadline, note_cancelled, drain_all,
}

-- `MAX_PARK` and `POLL_SKIP_NS`, in nanoseconds.
abbrev pub max_park : ℕ
max_park = 100000000

abbrev pub poll_skip_ns : ℕ
poll_skip_ns = 250000

pub data Completion : Type 0 where
  wakeup : Completion
  io : OpId → ℕ → ℕ → Completion
  ready : ℕ → Bool → Bool → Completion

pub data IoResult {κ} (B : Type κ) : Type κ where
  ok : B → List Completion → IoResult B
  err : B → IoResult B

-- What the reactor asks of a backend. The completions that a poll reaps come behind those there are.
pub record IoBackend {κ} (B : Type κ) : Type κ where
  pub has_io_interest : B → Bool
  pub precise_parks : B → Bool
  pub take_staged : B → B × List Completion
  pub try_poll : B → IoResult B
  pub poll_precise : B → ℕ → Bool → IoResult B

pub record Stats : Type 0 where
  pub ticks : ℕ
  pub completions : ℕ
  pub callbacks_dispatched : ℕ
  pub timers_fired : ℕ
  pub xthread_items : ℕ
  pub spins : ℕ
  pub spin_hits : ℕ
  pub polls_elided : ℕ
  pub polls : ℕ
  pub precise_parks : ℕ

pub record Config : Type 0 where
  pub spin_us : ℕ
  pub adaptive_spin : Bool

pub record Reactor {ℓ κ} (T : Type ℓ) (B : Type κ) : Type (ℓ ⊔ κ) where
  pub clock : Clock
  pub timers : TimerHeap T
  pub queued : ReadyQueue T
  pub xthread : CrossThreadQueue T
  pub backend : B
  pub cancelled_timers : ℕ
  pub completions : List Completion
  pub stats : Stats
  pub cfg : Config
  pub batch_left : ℕ
  pub last_poll_ns : ℕ
  pub ready_snapshot : ℕ
  pub expired : List T
  pub deadline_bound : Bool
  pub spin_gate : SpinGate

module _ {ℓ} {T : Type ℓ} where
  -- `while out.len() > n`: the tokens behind the snapshot, from the last one on, go back to the front.
  pub return_rest : ℕ → List T → ReadyQueue T → ReadyQueue T
  return_rest n [] queued = queued
  return_rest zero (x ∷ l) queued = push_front (return_rest zero l queued) x
  return_rest (suc n) (x ∷ l) queued = return_rest n l queued

module _ {ℓ} {T : Type ℓ} ⦃p : TimerPayload T⦄ where
  -- `while let Some(token)`; every round takes an entry.
  pub fire_loop : ℕ → TimerHeap T → ℕ → List T → Option ((TimerHeap T × List T) × ℕ)
  fire_loop zero h time fired = none
  fire_loop (suc fuel) h time fired = do
    (found, h') ← pop_expired h time
    elim found [
      | none ↦ some ((h', fired), 0)
      | some token ↦ do (rest, n) ← fire_loop fuel h' time (fired ++ token ∷ []); some (rest, suc n)
    ]

module _ {ℓ κ} {T : Type ℓ} {B : Type κ} where
  pub push_token : Reactor T B → T → Reactor T B
  push_token r token = record r { queued = record { queue = r.queued.queue ++ token ∷ [] } }

  pub unpop_ready : Reactor T B → T → Reactor T B
  unpop_ready r token = record r {
    queued = push_front r.queued token;
    batch_left = r.batch_left + 1;
    stats = record r.stats { callbacks_dispatched = r.stats.callbacks_dispatched - 1 };
  }

  pub unpop_expired : Reactor T B → T → Reactor T B
  unpop_expired r token = record r { expired = token ∷ r.expired }

  pub schedule_timer : Reactor T B → ℕ → T → Option (Reactor T B)
  schedule_timer r deadline token = do
    timers ← schedule r.timers deadline token
    some (record r { timers = timers })

  unfoldable pub snapshot_batch : Reactor T B → Reactor T B
  snapshot_batch r = record r {
    ready_snapshot = length r.queued.queue;
    batch_left = length r.queued.queue;
  }

  pub absorb_into_batch : Reactor T B → Reactor T B
  absorb_into_batch r = snapshot_batch r

  pub take_expired : Reactor T B → List T → (Reactor T B × List T) × ℕ
  take_expired r out = ((record r { expired = [] }, out ++ r.expired), length r.expired)

  pub drain_completions : Reactor T B → List Completion → Reactor T B × List Completion
  drain_completions r out = (record r { completions = [] }, out ++ r.completions)

  -- `out`, which is empty, trades places with the ready queue.
  pub take_batch : Reactor T B → List T → Reactor T B × List T
  take_batch r out =
      let n = r.batch_left in
      let (emptied, all) = swap_with r.queued out in
      let batch = take n all in
      let done = record r {
        batch_left = 0;
        queued = return_rest n all emptied;
        stats = record r.stats {
          callbacks_dispatched = r.stats.callbacks_dispatched + length batch;
        };
      } in
      if n == 0 then (record r { batch_left = 0 }, out) else (done, batch)

  popped : Reactor T B → Option T × ReadyQueue T → Reactor T B × Option T
  popped r (none, queued) = (record r { batch_left = r.batch_left - 1; queued = queued }, none)
  popped r (some token, queued) = (
    record r {
      batch_left = r.batch_left - 1;
      queued = queued;
      stats = record r.stats { callbacks_dispatched = r.stats.callbacks_dispatched + 1 };
    },
    some token,
  )

  pub pop_ready_batched : Reactor T B → Reactor T B × Option T
  pop_ready_batched r = if r.batch_left == 0 then (r, none) else popped r (pop_ready r.queued)

  pub ready_len : Reactor T B → ℕ
  ready_len r = length r.queued.queue + length r.expired

module _ {ℓ κ} {T : Type ℓ} {B : Type κ} ⦃p : TimerPayload T⦄ where
  pub absorb_cancellations : Reactor T B → Option (Reactor T B)
  absorb_cancellations r =
      let noted : Option (Reactor T B) = do
        timers ← note_cancelled r.timers r.cancelled_timers
        some (record r { cancelled_timers = 0; timers = timers })
      in if r.cancelled_timers == 0 then some r else noted

  pub drain_xthread : Reactor T B → Option (Reactor T B)
  drain_xthread r = do
    (((xthread, queued), timers), n) ←
        drain_into (λ d x h. schedule h d x) r.xthread r.queued r.timers
    some (record r {
      xthread = xthread;
      queued = queued;
      timers = timers;
      stats = record r.stats { xthread_items = r.stats.xthread_items + n };
    })

  -- The clock is read only if a timer is there.
  pub fire_from : Reactor T B → ℕ → Option ℕ → Option (Reactor T B)
  fire_from r raw none = some r
  fire_from r raw (some top) =
      let (clock, time) = cached_time r.clock raw in
      let fire : Option (Reactor T B) = do
        ((timers, expired), n) ← fire_loop (length r.timers.entries + 1) r.timers time r.expired
        some (record r {
          clock = clock;
          timers = timers;
          expired = expired;
          stats = record r.stats { timers_fired = r.stats.timers_fired + n };
        })
      in if ltb time top then some (record r { clock = clock }) else fire

  pub fire_expired_timers : Reactor T B → ℕ → Option (Reactor T B)
  fire_expired_timers r raw = fire_from r raw (peek_deadline r.timers)

  pub prepare_tick : Reactor T B → ℕ → Option (Reactor T B)
  prepare_tick r raw = do
    a ← absorb_cancellations (record r {
      stats = record r.stats { ticks = r.stats.ticks + 1 };
      clock = invalidate r.clock;
    })
    d ← drain_xthread a
    f ← fire_expired_timers d raw
    some (snapshot_batch f)

  -- The park that a deadline leaves: none if it is past, and an idle one if it is far.
  pub park_until : Reactor T B → ℕ → Option ℕ → Reactor T B × ℕ
  park_until r raw none = (r, max_park)
  park_until r raw (some d) =
      let (clock, time) = cached_time r.clock raw in
      let left = d - time in
      if leb d time
      then (record r { clock = clock }, 0)
      else (record r { clock = clock; deadline_bound = leb left max_park }, min left max_park)

  pub poll_timeout : Reactor T B → ℕ → Option (Reactor T B × ℕ)
  poll_timeout r raw =
      let unbound = record r { deadline_bound = false } in
      let waits : Option (Reactor T B × ℕ) = do
        (d, timers) ← next_deadline r.timers
        some (park_until (record unbound { timers = timers }) raw d)
      in if ltb 0 (length r.queued.queue) || ltb 0 (length r.expired)
        then some (unbound, 0)
        else waits

  pub finish_poll_after : Reactor T B → ℕ → Bool → Option (Reactor T B × List Completion)
  finish_poll_after r raw parked =
      let counted = record r {
        stats = record r.stats { completions = r.stats.completions + length r.completions };
      } in
      let woken : Option (Reactor T B × List Completion) = do
        a ← absorb_cancellations (record counted { clock = invalidate r.clock })
        d ← drain_xthread a
        f ← fire_expired_timers d raw
        some (snapshot_batch f, f.completions)
      in if parked then woken else some (counted, counted.completions)

  -- Everything that is queued, in the order of the source.
  pub clear_pending : Reactor T B → Option (Reactor T B × List T)
  clear_pending r = do
    (((xthread, scratch), timers), n) ←
        drain_into (λ d x h. schedule h d x) r.xthread new_ready r.timers
    let (timers', drained) = drain_all timers
    some (
      record r { queued = new_ready; expired = []; xthread = xthread; timers = timers' },
      r.queued.queue ++ (r.expired ++ (scratch.queue ++ drained)),
    )
