-- ===== src/Pool/Tests.antt =====
-- Runs of crates/core/src/buffers.rs at concrete inputs.
use cadeloop.Prelude.{
  ◌+◌, ◌<◌, ◌≤◌, ◌^◌, ◌≡◌, refl, true, false, Option, none, some, [], ◌∷◌, arith, length, replicate,
  range,
}
use cadeloop.Prelude.Partial.{Yields}
use cadeloop.Pool.{
  SizeClass, s4k, s16k, s64k, SlotId, Region, BufferPool, new, class_of, refcount, bytes_in_use,
  bytes_held, fitting, after_read, acquire, acquire_class, acquire_from, add_slots,
  slots_per_region, release, release_class, release_live, goes_back, freed, pageable,
}
use cadeloop.Pool.References.{
  Call, acquire_slot, release_slot, Event, acquired, released, perform, IsValid, new-IsValid,
  Performed, perform-refines,
}
use cadeloop.Pool.Runs.{
  Run, done, then_call, effects, NotHandedOut, Run-refines, Run-owner, Run-IsValid,
}
use cadeloop.Pool.Memory.{class_idle, bytes_held_correct}

small_request : fitting 4096 ≡ some s4k
unfolding fitting
small_request = refl

-- A full read grows the buffer by one class, and the tail of a message does not shrink it.
full_then_tail : after_read (after_read s16k 16384 false) 100 true ≡ s64k
unfolding after_read
full_then_tail = refl

abbrev mapping : Region
mapping = record { ptr = 0x10000; rio_buffer_id = none; large_pages = false; fresh_held = false }

abbrev state_of : Option (Event × BufferPool) → BufferPool
state_of none = new
state_of (some (e, b)) = b

abbrev first : SlotId
first = record { class = s64k; index = 0; generation = 0 }

abbrev stale : SlotId
stale = record { class = s64k; index = 0; generation = 7 }

abbrev get_first : Call
get_first = acquire_slot mapping s64k

abbrev one_taken : BufferPool
one_taken = state_of (perform new get_first)

abbrev drop_stale : Call
drop_stale = release_slot true true stale

abbrev one_refused : BufferPool
one_refused = state_of (perform one_taken drop_stale)

abbrev drop_first : Call
drop_first = release_slot true true first

abbrev all_free : BufferPool
all_free = state_of (perform one_refused drop_first)

got_first : perform new get_first ≡ some (acquired first, one_taken)
unfolding perform new acquire acquire_class acquire_from add_slots slots_per_region replicate range
got_first = refl

refused_stale : perform one_taken drop_stale ≡ some (released stale false, one_refused)
unfolding perform new acquire acquire_class acquire_from add_slots slots_per_region replicate range
    release release_class
refused_stale = refl

dropped_first : perform one_refused drop_first ≡ some (released first true, all_free)
unfolding perform new acquire acquire_class acquire_from add_slots slots_per_region replicate range
    release release_class release_live goes_back freed pageable
dropped_first = refl

room : length (class_of new s64k).refcounts < 2 ^ 32
unfolding new
room = omega arith

perform-refines_example : Yields (Performed new) (perform new get_first)
perform-refines_example = perform-refines new get_first new-IsValid room

taken_run : Run new (acquired first ∷ released stale false ∷ []) one_refused
taken_run = then_call get_first room got_first (then_call drop_stale tt refused_stale done)

Run-refines_example :
    IsValid one_refused
    × ((id : SlotId)
        → refcount one_refused id
          ≡ effects (acquired first ∷ released stale false ∷ []) (refcount new) id)
Run-refines_example = Run-refines taken_run new-IsValid

-- The freed slot is handed out under its next generation, and its old id is refused.
abbrev second : SlotId
second = record { class = s64k; index = 0; generation = 1 }

abbrev next_taken : BufferPool
next_taken = state_of (perform all_free get_first)

abbrev stale_refused : BufferPool
stale_refused = state_of (perform next_taken drop_first)

got_second : perform all_free get_first ≡ some (acquired second, next_taken)
unfolding perform new acquire acquire_class acquire_from add_slots slots_per_region replicate range
    release release_class release_live goes_back freed pageable
got_second = refl

refused_first : perform next_taken drop_first ≡ some (released first false, stale_refused)
unfolding perform new acquire acquire_class acquire_from add_slots slots_per_region replicate range
    release release_class release_live goes_back freed pageable
refused_first = refl

room_again : length (class_of all_free s64k).refcounts < 2 ^ 32
unfolding perform new acquire acquire_class acquire_from add_slots slots_per_region replicate range
    release release_class release_live goes_back freed pageable
room_again = omega arith

Run-owner_example :
    ((refcount one_refused first ≡ 1) × NotHandedOut first (released stale false ∷ []))
    × (true ≡ true)
    × ((refcount stale_refused first ≡ 0)
        × NotHandedOut first (acquired second ∷ released first false ∷ []))
Run-owner_example =
    Run-owner new one_refused all_free stale_refused first (released stale false ∷ [])
      (acquired second ∷ released first false ∷ []) true new-IsValid taken_run (refl, tt)
      (then_call drop_first tt dropped_first done)
      (then_call get_first room_again got_second (then_call drop_first tt refused_first done))
      (omega arith)

bytes_held_correct_example :
    (bytes_held one_refused
      ≡ bytes_in_use one_refused
        + (class_idle one_refused.small
            + class_idle one_refused.medium
            + class_idle one_refused.large))
    × ((c : SizeClass)
        → (class_of one_refused c).resident_free ≤ length (class_of one_refused c).freelist)
bytes_held_correct_example = bytes_held_correct one_refused (Run-IsValid taken_run)
