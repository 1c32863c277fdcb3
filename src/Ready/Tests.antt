-- ===== src/Ready/Tests.antt =====
-- Runs of crates/core/src/ready.rs at concrete inputs.
use cadeloop.Prelude.{ℕ, refl, true, Option, some, List, [], ◌∷◌, arith}
use cadeloop.Prelude.Partial.{Yields, yields}
use cadeloop.Ready.{new_ready, drain_into}
use cadeloop.Ready.Handoff.{
  Handoff, idle, enqueue, enqueue_timer, announce, Reachable, start, next, IsSound,
  Reachable-IsSound,
}
use cadeloop.Ready.Drain.{Drained, drain_into-quiescent}

-- Two producers, whose steps cross.
abbrev crossed : Handoff ℕ
crossed = record {
  shared = record { queue = 7 ∷ []; timers = (50, 8) ∷ []; wake_pending = true };
  announcing = 0;
  phase = idle;
  wakeups = 1;
  drains = 0;
  pushed = 7 ∷ [];
  drained = [];
  timers_pushed = (50, 8) ∷ [];
  timers_drained = [];
}

crossed-Reachable : Reachable crossed
crossed-Reachable =
    next (next (next (next start (enqueue 7)) (enqueue_timer (50, 8))) (announce (omega arith)))
      (announce (omega arith))

Reachable-IsSound_example : IsSound crossed
Reachable-IsSound_example = Reachable-IsSound crossed-Reachable

-- A scheduler that keeps a list.
abbrev keep : ℕ → ℕ → List ℕ → Option (List ℕ)
keep d x s = some (x ∷ s)

abbrev Anything : List ℕ → Type 0
Anything s = Unit

drain_into-quiescent_example :
    Yields
      (Drained Anything keep crossed.shared new_ready [])
      (drain_into keep crossed.shared new_ready [])
drain_into-quiescent_example =
    drain_into-quiescent Anything keep (λ d x s p. yields tt) crossed new_ready [] crossed-Reachable
      refl refl tt
