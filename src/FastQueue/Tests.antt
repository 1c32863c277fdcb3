-- ===== src/FastQueue/Tests.antt =====
-- Runs of crates/pyshim/src/fastqueue.rs at concrete inputs.
use cadeloop.Prelude.{◌≡◌, refl, [], ◌∷◌, ◌++◌}
use cadeloop.FastQueue.{
  World, wake_next, new_queue, put_now, get_from, get_now, try_put, park_getter, state_of, resolved,
  pending, cancelled, closed,
}
use cadeloop.FastQueue.Steps.{
  get_or_park, put_or_park, park_if_none, park_if_full, go_getter, get, get_again, put, IsLive,
}
use cadeloop.FastQueue.Runs.{Run, start, then_step, new_world, Run-IsLive, Run-order}

-- The wake passes over a waiter that was cancelled and one whose loop is closed.
passes_dead :
    wake_next (0 ∷ 1 ∷ 2 ∷ []) (cancelled ∷ closed ∷ pending ∷ [])
    ≡ ([], cancelled ∷ closed ∷ resolved ∷ [])
unfolding wake_next
passes_dead = refl

abbrev parked : World
parked = (get_or_park (new_world 1)).1

abbrev filled : World
filled = (put_or_park parked 5).1

abbrev served : World
served = (get_or_park (go_getter filled 0)).1

getter_woken : state_of filled.gets 0 ≡ resolved
unfolding get_or_park get_now get_from park_if_none park_getter new_queue put_or_park try_put
    put_now park_if_full wake_next
getter_woken = refl

serving : Run (new_world 1) (5 ∷ []) (5 ∷ []) served
unfolding get_or_park get_now get_from park_if_none park_getter new_queue put_or_park try_put
    put_now park_if_full wake_next
serving = then_step (then_step (then_step start get) (put 5)) (get_again 0 getter_woken)

Run-IsLive_example : IsLive served
Run-IsLive_example = Run-IsLive 1 serving

Run-order_example : (5 ∷ []) ++ served.queue.items ≡ (new_world 1).queue.items ++ 5 ∷ []
Run-order_example = Run-order serving
