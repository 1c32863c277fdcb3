-- ===== src/Ready/Drain.antt =====
-- `drain_into` of crates/core/src/ready.rs, once the producers are done.
use cadeloop.Prelude.{
  ℕ, suc, ◌+◌, ◌≡◌, refl, sym, ap, ◌∙◌, inl, inr, true, false, not, Option, some, List, [], ◌∷◌,
  ◌++◌, arith, length, append_assoc, length_zero, append-nil, Bool-cases,
}
use cadeloop.Prelude.Partial.{◌>>=◌, Yields-value, Yields, yields, Yields-then, Yields-if}
use cadeloop.Ready.{
  ReadyQueue, CrossThreadQueue, push_ready, drain_callbacks, drain_timers, drain_into,
}
use cadeloop.Ready.Handoff.{Handoff, idle, Reachable, Reachable-IsSound, left_behind, noticed_in}

module _ {ℓ} {T : Type ℓ} where
  drain_callbacks-all :
      (l : List T) (r : ReadyQueue T)
      → drain_callbacks (length l) l r ≡ (([], record { queue = r.queue ++ l }), length l)
  unfolding drain_callbacks push_ready
  drain_callbacks-all [] r = ap (λ q. (([], record { queue = q }), 0)) (sym (append-nil r.queue))
  drain_callbacks-all (x ∷ l) r =
      rw (drain_callbacks-all l (push_ready r x))
        (ap (λ q. (([], record { queue = q }), suc (length l))) (append_assoc r.queue (x ∷ []) l))

  -- The timers handed to `schedule` one after the other, oldest first.
  abbrev pub all_scheduled {κ} : {S : Type κ} → (ℕ → T → S → Option S) → List (ℕ × T) → S → Option S
  all_scheduled schedule [] s = some s
  all_scheduled schedule ((d, x) ∷ l) s = schedule d x s >>= λ s'. all_scheduled schedule l s'

  module _ {κ μ} {S : Type κ} (P : S → Type μ) (schedule : ℕ → T → S → Option S) where
    -- What a drain leaves that takes everything.
    pub record Drained (q : CrossThreadQueue T) (r : ReadyQueue T) (s : S)
        (v : ((CrossThreadQueue T × ReadyQueue T) × S) × ℕ) : Type (ℓ ⊔ κ ⊔ μ) where
      pub none_left : v.0.0.0.queue ≡ []
      pub no_timers : v.0.0.0.timers ≡ []
      pub clear : v.0.0.0.wake_pending ≡ false
      pub in_order : v.0.0.1.queue ≡ r.queue ++ q.queue
      pub scheduled : all_scheduled schedule q.timers s ≡ some v.0.1
      pub kept : P v.0.1
      pub counted : v.1 ≡ length q.queue + length q.timers

  module _ {κ μ} {S : Type κ} (P : S → Type μ) (schedule : ℕ → T → S → Option S)
      (keeps : (d : ℕ) (x : T) (s : S) → P s → Yields P (schedule d x s)) where
    drain_timers-all :
        (l : List (ℕ × T)) (s : S)
        → P s
        → Yields
            (λ r.
              (r.0.0 ≡ []) × (r.1 ≡ length l) × (all_scheduled schedule l s ≡ some r.0.1) × P r.0.1)
            (drain_timers schedule (length l) l s)
    unfolding drain_timers
    drain_timers-all [] s p = yields (refl, refl, refl, p)
    drain_timers-all ((d, x) ∷ l) s p =
        let (s', e, p') = Yields-value (keeps d x s p) in
        rw e (
          Yields-then (drain_timers-all l s' p')
            (λ r (late, n, to, q). yields (late, ap suc n, to, q)))

    drain_into-all :
        (q : CrossThreadQueue T) (r : ReadyQueue T) (s : S)
        → q.wake_pending ≡ true
        → P s
        → Yields (Drained P schedule q r s) (drain_into schedule q r s)
    unfolding drain_into
    drain_into-all q r s set p =
        let e = drain_callbacks-all q.queue r in
        Yields-if (not q.wake_pending) (λ t. absurd (ground arith))
          (λ t. Yields-then (drain_timers-all q.timers s p) (λ v (late, m, to, k). yields (record {
            none_left = ap (λ v. v.0.0) e;
            no_timers = late;
            clear = refl;
            in_order = ap (λ v. v.0.1.queue) e;
            scheduled = to;
            kept = k;
            counted = omega (arith, m, ap (λ v. v.1) e);
          })))

    -- Once the producers are done, after any interleaving, one drain takes everything: the callbacks go
    -- behind what was ready, in the order they were pushed, and the timers to `schedule`, which keeps `P`
    -- and does not fail on it. Nothing waits for a wakeup that was not posted.
    pub drain_into-quiescent :
        (h : Handoff T) (r : ReadyQueue T) (s : S)
        → Reachable h
        → h.phase ≡ idle
        → h.announcing ≡ 0
        → P s
        → Yields (Drained P schedule h.shared r s) (drain_into schedule h.shared r s)
    unfolding drain_into left_behind
    drain_into-quiescent h r s reach at quiet p =
        elim (noticed_in h idle at (Reachable-IsSound reach)) [
          | inl done ↦
              let no_queue = length_zero h.shared.queue (omega arith) in
              let no_timers = length_zero h.shared.timers (omega arith) in
              elim (Bool-cases h.shared.wake_pending) [
                | inl set ↦ drain_into-all h.shared r s set p
                | inr clear ↦
                    Yields-if (not h.shared.wake_pending)
                      (λ t. yields (record {
                        none_left = no_queue;
                        no_timers = no_timers;
                        clear = clear;
                        in_order = sym (ap (λ l. r.queue ++ l) no_queue ∙ append-nil r.queue);
                        scheduled = ap (λ l. all_scheduled schedule l s) no_timers;
                        kept = p;
                        counted = omega arith;
                      }))
                      (λ t. absurd (ground arith))
              ]
          | inr (inl set) ↦ drain_into-all h.shared r s set p
          | inr (inr busy) ↦ absurd (omega arith)
        ]
