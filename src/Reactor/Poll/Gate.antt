-- ===== src/Reactor/Poll/Gate.antt =====
-- What `Reactor::poll` of crates/core/src/reactor.rs tells the spin gate.
use cadeloop.Prelude.{
  ℕ, ◌+◌, ◌-◌, ◌*◌, ◌<◌, min, ◌≡◌, refl, ap, subst, leb, ◌∙◌, inl, inr, Bool, true, false, not,
  ◌||◌, List, [], ◌∷◌, arith, length, ltb, ◌==◌, if◌then◌else◌, Bool-cases, if_false,
}
use cadeloop.SpinGate.{
  SpinGate, should_spin, record_spin, Outcome, caught, missed, unrecorded, tell, park,
}
use cadeloop.Reactor.{Reactor, IoBackend, IoResult, ok, err}
use cadeloop.Reactor.Poll.{
  SpinEnd, found, failed, over, reaped, timed, hit_by, look, continued, spin_loop, park_for,
  after_spin, asks_gate, poll_asked, poll_parked, poll,
}

-- What `park` does with the gate's answer.
abbrev answered : SpinGate × Bool → Outcome → SpinGate × Bool
answered v o = if v.1 then (tell v.0 o, true) else (v.0, false)

whole_window : (window timeout : ℕ) → (min window timeout == window) ≡ leb window timeout
whole_window window timeout = ground arith

shorter :
    (window timeout : ℕ) → min window timeout ≡ (if leb window timeout then window else timeout)
shorter window timeout = ground arith

answered-spun : (v : SpinGate × Bool) (o : Outcome) → v.1 ≡ (answered v o).1
answered-spun (g, true) o = refl
answered-spun (g, false) o = refl

-- A window that was spun through: it counts as missed if it was a whole one.
abbrev pub window_over : Bool → Outcome
window_over full = if full then missed else unrecorded

module _ {ℓ} {B : Type ℓ} ⦃b : IoBackend B⦄ where
  -- What looks at a backend find, from the backend and the other threads alone: an error is not recorded, work
  -- is caught unless it was there at the first look, and the window is over when its time is.
  pub seen : Bool → Bool → IoResult B → (B → Outcome) → Outcome
  seen first_look pending (err backend) later = unrecorded
  seen first_look pending (ok backend new) later =
      if ltb 0 (length new) || pending
      then (if first_look then unrecorded else caught)
      else later backend

  pub spun : Bool → ℕ → Bool → List (ℕ × Bool) → B → Outcome
  unfolding seen
  spun full budget first_look [] backend = window_over full
  spun full budget first_look ((elapsed, pending) ∷ looks) backend =
      let next = seen first_look pending (b.try_poll backend) (spun full budget false looks) in
      if ltb elapsed budget then next else window_over full

module _ {ℓ κ} {T : Type ℓ} {B : Type κ} ⦃b : IoBackend B⦄ where
  -- The gate, the count of spins and the length of a spin, of a reactor.
  pub record Has (g : SpinGate) (n us : ℕ) (r : Reactor T B) : Type 0 where
    pub gate : r.spin_gate ≡ g
    pub spins : r.stats.spins ≡ n
    pub spin_us : r.cfg.spin_us ≡ us

  -- A spin that found work has told the gate, the other ends leave it as it was.
  pub data Ends (g : SpinGate) (n us : ℕ) (full : Bool) (o : Outcome)
      : SpinEnd T B → Type (ℓ ⊔ κ) where
    told : {r : Reactor T B} → Has (tell g o) n us r → Ends g n us full o (found r)
    untold : {r : Reactor T B} → Has g n us r → o ≡ unrecorded → Ends g n us full o (failed r)
    spun_out : {r : Reactor T B} → Has g n us r → o ≡ window_over full → Ends g n us full o (over r)

  either-Ends :
      {g : SpinGate} {n us : ℕ} {full : Bool} (t : Bool) {x y : SpinEnd T B} {o p : Outcome}
      → (t ≡ true → Ends g n us full o x)
      → (t ≡ false → Ends g n us full p y)
      → Ends g n us full (if t then o else p) (if t then x else y)
  either-Ends true f k = f refl
  either-Ends false f k = k refl

  hit-Ends :
      (g : SpinGate) (n us : ℕ) (full : Bool) (r : Reactor T B) (first_look : Bool)
      → Has g n us r
      → Ends g n us full (if first_look then unrecorded else caught) (found (hit_by r first_look))
  unfolding hit_by tell
  hit-Ends g n us full r true h =
      told (record { gate = h.gate; spins = h.spins; spin_us = h.spin_us })
  hit-Ends g n us full r false h =
      told (record {
        gate = ap (λ g. record_spin g true) h.gate;
        spins = h.spins;
        spin_us = h.spin_us;
      })

  looked-Ends :
      (g : SpinGate) (n us : ℕ) (full : Bool) (r : Reactor T B) (first_look pending : Bool)
      (v : IoResult B) (later : B → Outcome) (rest : Reactor T B → SpinEnd T B)
      → Has g n us r
      → ((r : Reactor T B) → Has g n us r → Ends g n us full (later r.backend) (rest r))
      → Ends g n us full
          (seen first_look pending v later)
          (continued (look r first_look pending v) rest)
  unfolding look continued seen
  looked-Ends g n us full r first_look pending (err backend) later rest h f =
      untold (record { gate = h.gate; spins = h.spins; spin_us = h.spin_us }) refl
  looked-Ends g n us full r first_look pending (ok backend new) later rest h f =
      elim (Bool-cases (ltb 0 (length new) || pending)) [
        | inl t ↦ rw t (
            hit-Ends g n us full _ first_look
              (record { gate = h.gate; spins = h.spins; spin_us = h.spin_us }))
        | inr t ↦ rw t (f _ (record { gate = h.gate; spins = h.spins; spin_us = h.spin_us }))
      ]

  spin_loop-Ends :
      (g : SpinGate) (n us : ℕ) (full : Bool) (budget : ℕ) (first_look : Bool)
      (looks : List (ℕ × Bool)) (r : Reactor T B)
      → Has g n us r
      → Ends g n us full
          (spun full budget first_look looks r.backend)
          (spin_loop budget first_look looks r)
  unfolding spin_loop spun
  spin_loop-Ends g n us full budget first_look [] r h = spun_out h refl
  spin_loop-Ends g n us full budget first_look ((elapsed, pending) ∷ looks) r h =
      either-Ends (ltb elapsed budget)
        (λ t.
          looked-Ends g n us full r first_look pending (b.try_poll r.backend)
            (spun full budget false looks) (spin_loop budget false looks) h
            (λ r' h'. spin_loop-Ends g n us full budget false looks r' h'))
        (λ t. spun_out h refl)

  timed-Has :
      (g : SpinGate) (n us at : ℕ) (v : Reactor T B × Bool)
      → Has g n us v.0
      → Has g n us (timed at v).0
  unfolding timed
  timed-Has g n us at (r, true) h = record { gate = h.gate; spins = h.spins; spin_us = h.spin_us }
  timed-Has g n us at (r, false) h = h

  reaped-Has :
      (g : SpinGate) (n us : ℕ) (r : Reactor T B) (v : IoResult B)
      → Has g n us r
      → Has g n us (reaped r v).0
  unfolding reaped
  reaped-Has g n us r (ok backend new) h = record {
    gate = h.gate;
    spins = h.spins;
    spin_us = h.spin_us;
  }
  reaped-Has g n us r (err backend) h = record {
    gate = h.gate;
    spins = h.spins;
    spin_us = h.spin_us;
  }

  park_for-Has :
      (g : SpinGate) (n us : ℕ) (r : Reactor T B) (timeout raw : ℕ)
      → Has g n us r
      → Has g n us (park_for r timeout raw).0
  unfolding park_for
  park_for-Has g n us r timeout raw h =
      timed-Has g n us _ (reaped _ (b.poll_precise r.backend timeout r.deadline_bound)) (
        reaped-Has g n us _ (b.poll_precise r.backend timeout r.deadline_bound)
          (record { gate = h.gate; spins = h.spins; spin_us = h.spin_us }))

  after_spin-told :
      (g : SpinGate) (n us : ℕ) (full : Bool) (o : Outcome) (timeout budget spent raw : ℕ)
      (e : SpinEnd T B)
      → (budget == us * 1000) ≡ full
      → Ends g n us full o e
      → Has (tell g o) n us (after_spin timeout budget spent raw e).0
  unfolding after_spin tell
  after_spin-told g n us full o timeout budget spent raw (found r) f (told h) = h
  after_spin-told g n us full o timeout budget spent raw (failed r) f (untold h e) = rw e h
  after_spin-told g n us true o timeout budget spent raw (over r) f (spun_out h e) =
      rw (e, ap (λ k. budget == k * 1000) h.spin_us ∙ f)
        (park_for-Has _ n us _ (timeout - spent) raw (record {
          gate = ap (λ g. record_spin g false) h.gate;
          spins = h.spins;
          spin_us = h.spin_us;
        }))
  after_spin-told g n us false o timeout budget spent raw (over r) f (spun_out h e) =
      rw (e, ap (λ k. budget == k * 1000) h.spin_us ∙ f)
        (park_for-Has g n us r (timeout - spent) raw h)

  asks_gate-should_spin :
      (r : Reactor T B)
      → r.cfg.adaptive_spin ≡ true
      → 0 < r.cfg.spin_us
      → asks_gate r ≡ should_spin r.spin_gate
  unfolding asks_gate
  asks_gate-should_spin r adaptive on =
      if_false (not (ltb 0 r.cfg.spin_us)) _ _ (ground arith)
      ∙ if_false (not r.cfg.adaptive_spin) _ _ (ground arith)

  -- What the spin of a poll would find.
  abbrev pub poll_outcome : Reactor T B → ℕ → List (ℕ × Bool) → Outcome
  poll_outcome r timeout looks =
      let window = r.cfg.spin_us * 1000 in
      spun (leb window timeout) (if leb window timeout then window else timeout) true looks
        r.backend

  poll_asked-told :
      (r : Reactor T B) (timeout : ℕ) (looks : List (ℕ × Bool)) (spent raw : ℕ)
      (v : SpinGate × Bool)
      → Has
          (answered v (poll_outcome r timeout looks)).0
          (r.stats.spins + (if v.1 then 1 else 0))
          r.cfg.spin_us
          (poll_asked r timeout looks spent raw v).0
  unfolding poll_asked
  poll_asked-told r timeout looks spent raw (gate, true) =
      let us = r.cfg.spin_us in
      let n = r.stats.spins + 1 in
      let full = leb (us * 1000) timeout in
      let spinning = record r {
        stats = record r.stats { polls = r.stats.polls + 1; spins = n };
        spin_gate = gate;
      } in
      subst
        (λ k.
          Has (tell gate (spun full k true looks r.backend)) n us
            (poll_asked r timeout looks spent raw (gate, true)).0)
        (shorter (us * 1000) timeout)
        (after_spin-told gate n us full _ timeout (min (us * 1000) timeout) spent raw _
          (whole_window (us * 1000) timeout)
          (spin_loop-Ends gate n us full (min (us * 1000) timeout) true looks spinning
            (record { gate = refl; spins = refl; spin_us = refl })))
  poll_asked-told r timeout looks spent raw (gate, false) =
      park_for-Has gate (r.stats.spins + 0) r.cfg.spin_us _ timeout raw
        (record { gate = refl; spins = omega arith; spin_us = refl })

  -- With adaptive spinning on, a poll that may wait asks the gate and, if the gate lets it spin, tells it what its
  -- looks at the backend and at the other threads' queue find, as `park` of the gate's model does: work that came
  -- after the first look was caught, a whole window without work was missed, and neither is recorded otherwise. It
  -- counts a spin exactly if the gate let it spin.
  pub poll-park :
      (r : Reactor T B) (timeout : ℕ) (looks : List (ℕ × Bool)) (spent raw : ℕ)
      → r.cfg.adaptive_spin ≡ true
      → 0 < r.cfg.spin_us
      → 0 < timeout
      → ((poll r timeout looks spent raw).0.spin_gate
          ≡ (park r.spin_gate (poll_outcome r timeout looks)).0)
        × ((poll r timeout looks spent raw).0.stats.spins
            ≡ r.stats.spins
              + (if (park r.spin_gate (poll_outcome r timeout looks)).1 then 1 else 0))
  unfolding poll poll_parked park
  poll-park r timeout looks spent raw adaptive on waits =
      let cleared = record r { completions = [] } in
      let h = poll_asked-told cleared timeout looks spent raw (should_spin r.spin_gate) in
      let asked : poll r timeout looks spent raw
          ≡ poll_asked cleared timeout looks spent raw (should_spin r.spin_gate) =
        if_false (timeout == 0) _ _ (ground arith)
        ∙ ap (poll_asked cleared timeout looks spent raw)
            (asks_gate-should_spin cleared adaptive on) in
      (
        ap (λ (v : Reactor T B × Bool). v.0.spin_gate) asked ∙ h.gate,
        ap (λ (v : Reactor T B × Bool). v.0.stats.spins) asked
            ∙ h.spins
            ∙ ap (λ t. r.stats.spins + (if t then 1 else 0))
                (answered-spun (should_spin r.spin_gate) (poll_outcome r timeout looks)),
      )
