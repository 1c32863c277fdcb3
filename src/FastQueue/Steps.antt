-- ===== src/FastQueue/Steps.antt =====
-- The coroutines of python/cadeloop/queues.py over crates/pyshim/src/fastqueue.rs, from one await to the next, as
-- steps that interleave.
use cadeloop.Prelude.{
  ℕ, ◌+◌, ◌≤◌, ◌<◌, ◌≡◌, ◌≢◌, ◌⊎◌, Bool, true, false, Option, none, some, List, [], ◌∷◌, ◌++◌,
  length, set,
}
use cadeloop.FastQueue.{
  FutState, pending, closed, resolved, cancelled, spent, state_of, can_wake, World, get_now,
  try_put, park_getter, park_putter, getter_recovery, putter_recovery, task_done, park_joiner,
  unjoin,
}
use cadeloop.FastQueue.Wake.{waiting, woken, is_resolved}

-- `get_or`, and the new waiter that the coroutine parks if there was no item.
unfoldable pub park_if_none : Option ℕ × World → Option ℕ × World
park_if_none (some item, w) = (some item, w)
park_if_none (none, w) =
    (none, park_getter (record w { gets = w.gets ++ pending ∷ [] }) (length w.gets))

unfoldable pub get_or_park : World → Option ℕ × World
unfolding park_if_none
get_or_park w = park_if_none (get_now w)

unfoldable pub park_if_full : Bool × World → Bool × World
park_if_full (true, w) = (true, w)
park_if_full (false, w) =
    (false, park_putter (record w { puts = w.puts ++ pending ∷ [] }) (length w.puts))

unfoldable pub put_or_park : World → ℕ → Bool × World
unfolding park_if_full
put_or_park w item = park_if_full (try_put w item)

-- The task of a woken waiter goes on.
abbrev pub go_getter : World → ℕ → World
go_getter w f = record w { gets = set w.gets f spent }

abbrev pub go_putter : World → ℕ → World
go_putter w f = record w { puts = set w.puts f spent }

-- The items that went in, and those that came out.
abbrev pub entered : Bool → ℕ → List ℕ
entered true item = item ∷ []
entered false item = []

abbrev pub left : Option ℕ → List ℕ
left none = []
left (some item) = item ∷ []

pub data Step (w : World) : List ℕ → List ℕ → World → Type 0 where
  get : Step w [] (left (get_or_park w).0) (get_or_park w).1
  get_again :
      (f : ℕ)
      → state_of w.gets f ≡ resolved
      → Step w [] (left (get_or_park (go_getter w f)).0) (get_or_park (go_getter w f)).1
  put : (x : ℕ) → Step w (entered (put_or_park w x).0 x) [] (put_or_park w x).1
  put_again :
      (f x : ℕ)
      → state_of w.puts f ≡ resolved
      → Step w (entered (put_or_park (go_putter w f) x).0 x) [] (put_or_park (go_putter w f) x).1
  -- The future of a waiter is cancelled, or its loop is closed, and nobody is told.
  lose_getter :
      (f : ℕ) (st : FutState)
      → can_wake (state_of w.gets f) ≡ true
      → (st ≡ cancelled) ⊎ (st ≡ closed)
      → Step w [] [] (record w { gets = set w.gets f st })
  lose_putter :
      (f : ℕ) (st : FutState)
      → can_wake (state_of w.puts f) ≡ true
      → (st ≡ cancelled) ⊎ (st ≡ closed)
      → Step w [] [] (record w { puts = set w.puts f st })
  -- An exception ends the await: of a waiter that was woken already, or of another.
  recover_woken_getter :
      (f : ℕ) → state_of w.gets f ≡ resolved → Step w [] [] (go_getter (getter_recovery w f) f)
  recover_getter :
      (f : ℕ) → is_resolved (state_of w.gets f) ≡ 0 → Step w [] [] (getter_recovery w f)
  recover_woken_putter :
      (f : ℕ) → state_of w.puts f ≡ resolved → Step w [] [] (go_putter (putter_recovery w f) f)
  recover_putter :
      (f : ℕ) → is_resolved (state_of w.puts f) ≡ 0 → Step w [] [] (putter_recovery w f)
  finish : {w' : World} → task_done w ≡ some w' → Step w [] [] w'
  join :
      w.queue.unfinished ≢ 0
      → Step w [] [] (park_joiner (record w { joins = w.joins ++ pending ∷ [] }) (length w.joins))
  leave_join :
      (f : ℕ) (st : FutState)
      → can_wake st ≡ false
      → Step w [] [] (unjoin (record w { joins = set w.joins f st }) f)

-- While a getter waits, there are no more items than getters that were woken for one; while a putter waits,
-- no more room than putters that were woken for it; and while a joiner waits, an item is unfinished.
pub record IsLive (w : World) : Type 0 where
  pub getters : waiting w.queue.getters w.gets ≡ true → length w.queue.items ≤ woken w.gets
  pub putters :
      waiting w.queue.putters w.puts ≡ true → w.queue.maxsize ≤ length w.queue.items + woken w.puts
  pub joiners : waiting w.queue.join_waiters w.joins ≡ true → 0 < w.queue.unfinished
