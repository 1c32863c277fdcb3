-- ===== src/Ready.antt =====
-- The callback queues (crates/core/src/ready.rs). A `VecDeque` and a `SegQueue` are lists, front first.
pub mod Handoff
pub mod Drain
mod Tests
use cadeloop.Prelude.{
  ℕ, zero, suc, ◌+◌, Bool, true, false, not, Option, none, some, List, [], ◌∷◌, ◌++◌, length,
  if◌then◌else◌,
}
use cadeloop.Prelude.Partial.{◌>>=◌}

pub record ReadyQueue {ℓ} (T : Type ℓ) : Type ℓ where
  pub queue : List T

pub record CrossThreadQueue {ℓ} (T : Type ℓ) : Type ℓ where
  pub queue : List T
  pub timers : List (ℕ × T)
  pub wake_pending : Bool

module _ {ℓ} {T : Type ℓ} where
  abbrev pub new_ready : ReadyQueue T
  new_ready = record { queue = [] }

  unfoldable pub push_ready : ReadyQueue T → T → ReadyQueue T
  push_ready r item = record { queue = r.queue ++ item ∷ [] }

  unfoldable pub pop_of : List T → Option T × ReadyQueue T
  pop_of [] = (none, record { queue = [] })
  pop_of (x ∷ l) = (some x, record { queue = l })

  unfoldable pub pop_ready : ReadyQueue T → Option T × ReadyQueue T
  unfolding pop_of
  pop_ready r = pop_of r.queue

  unfoldable pub push_front : ReadyQueue T → T → ReadyQueue T
  push_front r item = record { queue = item ∷ r.queue }

  -- The queue, and what `other` holds.
  unfoldable pub swap_with : ReadyQueue T → List T → ReadyQueue T × List T
  swap_with r other = (record { queue = other }, r.queue)

  abbrev pub new_handoff : CrossThreadQueue T
  new_handoff = record { queue = []; timers = []; wake_pending = false }

  -- The answer tells the producer to wake the backend.
  pub push_item : CrossThreadQueue T → T → CrossThreadQueue T × Bool
  push_item q item =
      (record q { queue = q.queue ++ item ∷ []; wake_pending = true }, not q.wake_pending)

  pub push_timer : CrossThreadQueue T → ℕ → T → CrossThreadQueue T × Bool
  push_timer q deadline item = (
    record q { timers = q.timers ++ (deadline, item) ∷ []; wake_pending = true },
    not q.wake_pending,
  )

  -- `while n < bound`, with the rounds left.
  pub drain_callbacks : ℕ → List T → ReadyQueue T → (List T × ReadyQueue T) × ℕ
  unfolding push_ready
  drain_callbacks zero l ready = ((l, ready), 0)
  drain_callbacks (suc bound) [] ready = (([], ready), 0)
  drain_callbacks (suc bound) (x ∷ l) ready =
      let (rest, n) = drain_callbacks bound l (push_ready ready x) in (rest, suc n)

  module _ {κ} {S : Type κ} (schedule : ℕ → T → S → Option S) where
    -- `for _ in 0..self.timers.len()`; `schedule` may panic.
    pub drain_timers : ℕ → List (ℕ × T) → S → Option ((List (ℕ × T) × S) × ℕ)
    drain_timers zero l s = some ((l, s), 0)
    drain_timers (suc bound) [] s = some (([], s), 0)
    drain_timers (suc bound) ((deadline, x) ∷ l) s = do
      s' ← schedule deadline x s
      (rest, n) ← drain_timers bound l s'
      some (rest, suc n)

    -- The state of `schedule` comes back with the two queues and the number of items.
    pub drain_into :
        CrossThreadQueue T
        → ReadyQueue T
        → S
        → Option (((CrossThreadQueue T × ReadyQueue T) × S) × ℕ)
    unfolding drain_callbacks drain_timers
    drain_into q ready s =
        let ((left, ready'), n) = drain_callbacks (length q.queue) q.queue ready in
        let drained : Option (((CrossThreadQueue T × ReadyQueue T) × S) × ℕ) = do
          ((late, s'), m) ← drain_timers (length q.timers) q.timers s
          some (((record { queue = left; timers = late; wake_pending = false }, ready'), s'), n + m)
        in if not q.wake_pending then some (((q, ready), s), 0) else drained
