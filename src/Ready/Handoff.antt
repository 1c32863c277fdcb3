-- ===== src/Ready/Handoff.antt =====
-- Producers on other threads and the loop's drain, step by step (crates/core/src/ready.rs): a producer
-- first enqueues and then sets the flag, and the drain clears the flag before it looks at the queues. Each
-- step is one operation on the shared memory, which the source orders by `AcqRel` exchanges.
use native.Mathlib.Nat.{le_refl}
use cadeloop.Prelude.{
  ℕ, suc, ◌+◌, ◌-◌, ◌≤◌, ◌<◌, ◌≡◌, refl, sym, ap, ◌∙◌, subst, ◌⊎◌, inl, inr, Bool, true, false,
  List, [], ◌∷◌, ◌++◌, arith, length, length-append, append_assoc, if◌then◌else◌,
}
use cadeloop.Ready.{CrossThreadQueue, new_handoff}

-- Where the drain is: between drains, after it cleared the flag, and with that many pops left to do.
pub data Phase : Type 0 where
  idle cleared : Phase
  popping timing : ℕ → Phase

-- Of that many callbacks and timers, what the drain, where it is, will not take.
unfoldable pub left_behind : Phase → ℕ → ℕ → ℕ
left_behind idle q t = q + t
left_behind cleared q t = 0
left_behind (popping n) q t = q - n
left_behind (timing n) q t = q + (t - n)

-- The pops left find their items.
pub IsCovered : Phase → ℕ → ℕ → Type 0
IsCovered idle q t = Unit
IsCovered cleared q t = Unit
IsCovered (popping n) q t = n ≤ q
IsCovered (timing n) q t = n ≤ t

IsCovered-more : (p : Phase) (q t q' t' : ℕ) → q ≤ q' → t ≤ t' → IsCovered p q t → IsCovered p q' t'
unfolding IsCovered
IsCovered-more idle q t q' t' le le' c = tt
IsCovered-more cleared q t q' t' le le' c = tt
IsCovered-more (popping n) q t q' t' le le' c = omega (arith, c)
IsCovered-more (timing n) q t q' t' le le' c = omega (arith, c)

-- In another phase of the drain, where no more is left behind.
still_noticed :
    {a b : ℕ} {w : Bool} {n : ℕ}
    → (a ≡ 0 → b ≡ 0)
    → (a ≡ 0) ⊎ ((w ≡ true) ⊎ (0 < n))
    → (b ≡ 0) ⊎ ((w ≡ true) ⊎ (0 < n))
still_noticed f (inl e) = inl (f e)
still_noticed f (inr e) = inr e

-- The queues with the producers and the loop around them: how many producers have enqueued and not yet set
-- the flag, the wakeups posted, the drains begun, and what was pushed and drained so far, in order.
pub record Handoff {ℓ} (T : Type ℓ) : Type ℓ where
  pub shared : CrossThreadQueue T
  pub announcing : ℕ
  pub phase : Phase
  pub wakeups : ℕ
  pub drains : ℕ
  pub pushed : List T
  pub drained : List T
  pub timers_pushed : List (ℕ × T)
  pub timers_drained : List (ℕ × T)

module _ {ℓ} {T : Type ℓ} where
  abbrev pub start_handoff : Handoff T
  start_handoff = record {
    shared = new_handoff;
    announcing = 0;
    phase = idle;
    wakeups = 0;
    drains = 0;
    pushed = [];
    drained = [];
    timers_pushed = [];
    timers_drained = [];
  }

  -- `wake_pending.swap(true)`, and the wakeup if it was clear.
  abbrev pub announced : Handoff T → Handoff T
  announced h = record h {
    announcing = h.announcing - 1;
    wakeups = if h.shared.wake_pending then h.wakeups else h.wakeups + 1;
    shared = record h.shared { wake_pending = true };
  }

  pub data Step (h : Handoff T) : Handoff T → Type ℓ where
    enqueue :
        (x : T)
        → Step h (record h {
          shared = record h.shared { queue = h.shared.queue ++ x ∷ [] };
          announcing = h.announcing + 1;
          pushed = h.pushed ++ x ∷ [];
        })
    enqueue_timer :
        (d : ℕ × T)
        → Step h (record h {
          shared = record h.shared { timers = h.shared.timers ++ d ∷ [] };
          announcing = h.announcing + 1;
          timers_pushed = h.timers_pushed ++ d ∷ [];
        })
    announce : 0 < h.announcing → Step h (announced h)
    begin :
        h.phase ≡ idle
        → h.shared.wake_pending ≡ true
        → Step h (record h {
          shared = record h.shared { wake_pending = false };
          phase = cleared;
          drains = h.drains + 1;
        })
    bound : h.phase ≡ cleared → Step h (record h { phase = popping (length h.shared.queue) })
    pop :
        (n : ℕ) (x : T) (l : List T)
        → h.phase ≡ popping (suc n)
        → h.shared.queue ≡ x ∷ l
        → Step h (record h {
          shared = record h.shared { queue = l };
          phase = popping n;
          drained = h.drained ++ x ∷ [];
        })
    bound_timers :
        h.phase ≡ popping 0 → Step h (record h { phase = timing (length h.shared.timers) })
    pop_timer :
        (n : ℕ) (d : ℕ × T) (l : List (ℕ × T))
        → h.phase ≡ timing (suc n)
        → h.shared.timers ≡ d ∷ l
        → Step h (record h {
          shared = record h.shared { timers = l };
          phase = timing n;
          timers_drained = h.timers_drained ++ d ∷ [];
        })
    finish : h.phase ≡ timing 0 → Step h (record h { phase = idle })

  pub data Reachable : Handoff T → Type ℓ where
    start : Reachable start_handoff
    next : {h h' : Handoff T} → Reachable h → Step h h' → Reachable h'

  pub record IsSound (h : Handoff T) : Type ℓ where
    -- Nothing is lost, doubled or reordered.
    pub fifo : h.pushed ≡ h.drained ++ h.shared.queue
    pub timers_fifo : h.timers_pushed ≡ h.timers_drained ++ h.shared.timers
    -- What the drain leaves behind is announced, or about to be.
    pub noticed :
        (left_behind h.phase (length h.shared.queue) (length h.shared.timers) ≡ 0)
        ⊎ ((h.shared.wake_pending ≡ true) ⊎ (0 < h.announcing))
    pub covered : IsCovered h.phase (length h.shared.queue) (length h.shared.timers)
    -- One wakeup for each time the flag was set.
    pub one_wakeup : h.wakeups ≡ h.drains + (if h.shared.wake_pending then 1 else 0)

  pub noticed_in :
      (h : Handoff T) (p : Phase)
      → h.phase ≡ p
      → IsSound h
      → (left_behind p (length h.shared.queue) (length h.shared.timers) ≡ 0)
        ⊎ ((h.shared.wake_pending ≡ true) ⊎ (0 < h.announcing))
  noticed_in h p at v =
      subst
        (λ p.
          (left_behind p (length h.shared.queue) (length h.shared.timers) ≡ 0)
          ⊎ ((h.shared.wake_pending ≡ true) ⊎ (0 < h.announcing)))
        at v.noticed

  IsCovered-in :
      (h : Handoff T) (p : Phase)
      → h.phase ≡ p
      → IsSound h
      → IsCovered p (length h.shared.queue) (length h.shared.timers)
  IsCovered-in h p at v =
      subst (λ p. IsCovered p (length h.shared.queue) (length h.shared.timers)) at v.covered

  Step-IsSound : {h h' : Handoff T} → Step h h' → IsSound h → IsSound h'
  unfolding left_behind IsCovered
  Step-IsSound {h} (enqueue x) v = record {
    fifo = ap (λ l. l ++ x ∷ []) v.fifo ∙ append_assoc h.drained h.shared.queue (x ∷ []);
    timers_fifo = v.timers_fifo;
    noticed = inr (inr (omega arith));
    covered =
        IsCovered-more h.phase _ _ _ _ (omega (arith, length-append h.shared.queue (x ∷ [])))
          (le_refl _) v.covered;
    one_wakeup = v.one_wakeup;
  }
  Step-IsSound {h} (enqueue_timer d) v = record {
    fifo = v.fifo;
    timers_fifo =
        ap (λ l. l ++ d ∷ []) v.timers_fifo
        ∙ append_assoc h.timers_drained h.shared.timers (d ∷ []);
    noticed = inr (inr (omega arith));
    covered =
        IsCovered-more h.phase _ _ _ _ (le_refl _)
          (omega (arith, length-append h.shared.timers (d ∷ []))) v.covered;
    one_wakeup = v.one_wakeup;
  }
  Step-IsSound {h} (announce some_waits) v = record {
    fifo = v.fifo;
    timers_fifo = v.timers_fifo;
    noticed = inr (inl refl);
    covered = v.covered;
    one_wakeup = ground (arith, v.one_wakeup);
  }
  Step-IsSound {h} (begin at set) v = record {
    fifo = v.fifo;
    timers_fifo = v.timers_fifo;
    noticed = inl refl;
    covered = tt;
    one_wakeup = ground (arith, v.one_wakeup);
  }
  Step-IsSound {h} (bound at) v = record {
    fifo = v.fifo;
    timers_fifo = v.timers_fifo;
    noticed = inl (omega arith);
    covered = omega arith;
    one_wakeup = v.one_wakeup;
  }
  Step-IsSound {h} (pop n x l at e) v = record {
    fifo = v.fifo ∙ ap (λ q. h.drained ++ q) e ∙ sym (append_assoc h.drained (x ∷ []) l);
    timers_fifo = v.timers_fifo;
    noticed = still_noticed (λ z. omega (arith, ap length e)) (noticed_in h (popping (suc n)) at v);
    covered = omega (arith, ap length e, IsCovered-in h (popping (suc n)) at v);
    one_wakeup = v.one_wakeup;
  }
  Step-IsSound {h} (bound_timers at) v = record {
    fifo = v.fifo;
    timers_fifo = v.timers_fifo;
    noticed = still_noticed (λ z. omega arith) (noticed_in h (popping 0) at v);
    covered = omega arith;
    one_wakeup = v.one_wakeup;
  }
  Step-IsSound {h} (pop_timer n d l at e) v = record {
    fifo = v.fifo;
    timers_fifo =
        v.timers_fifo
        ∙ ap (λ q. h.timers_drained ++ q) e
        ∙ sym (append_assoc h.timers_drained (d ∷ []) l);
    noticed = still_noticed (λ z. omega (arith, ap length e)) (noticed_in h (timing (suc n)) at v);
    covered = omega (arith, ap length e, IsCovered-in h (timing (suc n)) at v);
    one_wakeup = v.one_wakeup;
  }
  Step-IsSound {h} (finish at) v = record {
    fifo = v.fifo;
    timers_fifo = v.timers_fifo;
    noticed = still_noticed (λ z. omega arith) (noticed_in h (timing 0) at v);
    covered = tt;
    one_wakeup = v.one_wakeup;
  }

  -- Whatever the interleaving of producers and drains: what was pushed is what was drained and what is still
  -- queued, in that order; what the current drain leaves behind has its flag set or a producer about to set
  -- it; the drain's pops find their items; and one wakeup was posted for each time the flag was set.
  pub Reachable-IsSound : {h : Handoff T} → Reachable h → IsSound h
  unfolding left_behind IsCovered
  Reachable-IsSound start = record {
    fifo = refl;
    timers_fifo = refl;
    noticed = inl refl;
    covered = tt;
    one_wakeup = refl;
  }
  Reachable-IsSound (next r st) = Step-IsSound st (Reachable-IsSound r)
