-- ===== src/Reactor/Poll.antt =====
-- `Reactor::poll` of crates/core/src/reactor.rs: no poll, a poll without waiting, or a spin and a park.
pub mod Gate
use cadeloop.Prelude.{
  ℕ, ◌+◌, ◌-◌, ◌*◌, Bool, true, false, ◌&&◌, ◌||◌, not, List, [], ◌∷◌, ◌++◌, length, min, ltb, ◌==◌,
  if◌then◌else◌,
}
use cadeloop.SpinGate.{SpinGate, should_spin, record_spin}
use cadeloop.Clock.{cached_time, now}
use cadeloop.Reactor.{Reactor, Stats, IoBackend, IoResult, ok, err, Completion, poll_skip_ns}

-- How a spin ends: with work, with an error of the backend, or with its window.
pub data SpinEnd {ℓ κ} (T : Type ℓ) (B : Type κ) : Type (ℓ ⊔ κ) where
  found failed over : Reactor T B → SpinEnd T B

module _ {ℓ κ} {T : Type ℓ} {B : Type κ} ⦃b : IoBackend B⦄ where
  -- What a poll of the backend leaves, and whether it went well.
  pub reaped : Reactor T B → IoResult B → Reactor T B × Bool
  reaped r (ok backend new) =
      (record r { backend = backend; completions = r.completions ++ new }, true)
  reaped r (err backend) = (record r { backend = backend }, false)

  -- After a poll that went well, its time.
  pub timed : ℕ → Reactor T B × Bool → Reactor T B × Bool
  timed at (r, true) = (record r { last_poll_ns = at }, true)
  timed at (r, false) = (r, false)

  pub poll_now : Reactor T B → ℕ → Reactor T B × Bool
  poll_now r raw =
      let (clock, time) = cached_time r.clock raw in
      let read = record r { clock = clock } in
      let (backend, staged) = b.take_staged r.backend in
      let polled = record read { stats = record r.stats { polls = r.stats.polls + 1 } } in
      if not (b.has_io_interest r.backend)
      then (record r { stats = record r.stats { polls_elided = r.stats.polls_elided + 1 } }, true)
      else if ltb (time - r.last_poll_ns) poll_skip_ns
      then (record read { backend = backend; completions = r.completions ++ staged }, true)
      else timed time (reaped polled (b.try_poll r.backend))

  -- Work that arrived while spinning is a hit; work already there at the first look is not recorded.
  pub hit_by : Reactor T B → Bool → Reactor T B
  hit_by r first_look = if first_look then r else record r {
    stats = record r.stats { spin_hits = r.stats.spin_hits + 1 };
    spin_gate = record_spin r.spin_gate true;
  }

  -- A look at the backend and at the other threads' queue, which holds items or not.
  pub look : Reactor T B → Bool → Bool → IoResult B → SpinEnd T B
  look r first_look pending (err backend) = failed (record r { backend = backend })
  look r first_look pending (ok backend new) =
      let seen = record r { backend = backend; completions = r.completions ++ new } in
      if ltb 0 (length new) || pending then found (hit_by seen first_look) else over seen

  pub continued : SpinEnd T B → (Reactor T B → SpinEnd T B) → SpinEnd T B
  continued (found r) rest = found r
  continued (failed r) rest = failed r
  continued (over r) rest = rest r

  -- `while spin_start.elapsed() < spin_budget`, over the looks that there was time for: the time that has
  -- passed, and whether other threads have queued items.
  pub spin_loop : ℕ → Bool → List (ℕ × Bool) → Reactor T B → SpinEnd T B
  spin_loop budget first_look [] r = over r
  spin_loop budget first_look ((elapsed, pending) ∷ looks) r =
      let next =
        continued (look r first_look pending (b.try_poll r.backend))
          (spin_loop budget false looks) in
      if ltb elapsed budget then next else over r

  -- The park itself; `raw` is the clock's reading after it.
  pub park_for : Reactor T B → ℕ → ℕ → Reactor T B × Bool
  park_for r timeout raw =
      let precise = r.deadline_bound && b.precise_parks r.backend in
      let counted = record r {
        stats = record r.stats {
          precise_parks = r.stats.precise_parks + (if precise then 1 else 0);
        };
      } in
      timed (now r.clock raw) (reaped counted (b.poll_precise r.backend timeout r.deadline_bound))

  -- After a spin; `spent` is the time that it took.
  pub after_spin : ℕ → ℕ → ℕ → ℕ → SpinEnd T B → Reactor T B × Bool
  after_spin timeout budget spent raw (found r) = (r, true)
  after_spin timeout budget spent raw (failed r) = (r, false)
  after_spin timeout budget spent raw (over r) =
      let told = record r { spin_gate = record_spin r.spin_gate false } in
      park_for (if budget == r.cfg.spin_us * 1000 then told else r) (timeout - spent) raw

  -- Whether the gate lets the park spin; it is asked only if it matters.
  pub asks_gate : Reactor T B → SpinGate × Bool
  asks_gate r =
      if not (ltb 0 r.cfg.spin_us)
      then (r.spin_gate, false)
      else if not r.cfg.adaptive_spin
      then (r.spin_gate, true)
      else should_spin r.spin_gate

  -- With the gate as it is after the question, and the answer.
  pub poll_asked : Reactor T B → ℕ → List (ℕ × Bool) → ℕ → ℕ → SpinGate × Bool → Reactor T B × Bool
  poll_asked r timeout looks spent raw (gate, true) =
      let budget = min (r.cfg.spin_us * 1000) timeout in
      let spinning = record r {
        stats = record r.stats { polls = r.stats.polls + 1; spins = r.stats.spins + 1 };
        spin_gate = gate;
      } in
      after_spin timeout budget spent raw (spin_loop budget true looks spinning)
  poll_asked r timeout looks spent raw (gate, false) =
      let counted = record r {
        stats = record r.stats { polls = r.stats.polls + 1 };
        spin_gate = gate;
      } in
      park_for counted timeout raw

  pub poll_parked : Reactor T B → ℕ → List (ℕ × Bool) → ℕ → ℕ → Reactor T B × Bool
  poll_parked r timeout looks spent raw = poll_asked r timeout looks spent raw (asks_gate r)

  pub poll : Reactor T B → ℕ → List (ℕ × Bool) → ℕ → ℕ → Reactor T B × Bool
  poll r timeout looks spent raw =
      let cleared = record r { completions = [] } in
      if timeout == 0 then poll_now cleared raw else poll_parked cleared timeout looks spent raw
