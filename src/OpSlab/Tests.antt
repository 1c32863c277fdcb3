-- ===== src/OpSlab/Tests.antt =====
-- Runs of crates/core/src/opslab.rs at concrete inputs.
use cadeloop.Prelude.{
  ℕ, zero, suc, ◌≡◌, ◌≢◌, ◌↔◌, refl, true, false, none, some, List, [], ◌∷◌, arith, count,
}
use cadeloop.OpSlab.{
  free, posted, completed, cancelled, recv, send, OpId, OpSlot, OpSlab, post, get, state,
  mark_cancelled, complete, release,
}
use cadeloop.OpSlab.Invariant.{IsConsistent, free_slot, free_at}
use cadeloop.OpSlab.Lifecycle.{
  Step, start, more, completed_by, cancelled_by, Step-legal, Moves, in_flight-Step, release_stale,
}
use cadeloop.OpSlab.Calls.{post-fresh, cancel_protocol}
use cadeloop.OpSlab.Pointers.{screen, Owns, screen_iff}

abbrev reading : OpSlot ℕ
reading = record { state = posted; generation = 5; kind = recv; payload = 10 }

abbrev idle : OpSlot ℕ
idle = record { state = free; generation = 7; kind = recv; payload = 20 }

abbrev done : OpSlot ℕ
done = record { state = completed; generation = 3; kind = send; payload = 30 }

-- A slab with an operation in flight, a free slot and a completed operation.
abbrev sample : OpSlab ℕ
sample = record {
  slots = reading ∷ idle ∷ done ∷ [];
  by_addr = (4096, 0) ∷ [];
  freelist = 1 ∷ [];
  in_flight = 1;
  make_default = 0;
}

abbrev read_id : OpId
read_id = record { index = 0; generation = 5 }

abbrev done_id : OpId
done_id = record { index = 2; generation = 3 }

sample_listed : (i : ℕ) → count i sample.freelist ≡ free_at sample.slots i
unfolding free_slot
sample_listed zero = refl
sample_listed (suc zero) = refl
sample_listed (suc (suc zero)) = refl
sample_listed (suc (suc (suc i))) = ground arith

sample-IsConsistent : IsConsistent sample
sample-IsConsistent = record { listed = sample_listed; counted = refl }

sample-get : get sample read_id ≡ some reading
unfolding get
sample-get = refl

done_state : state sample done_id ≡ some completed
unfolding state
done_state = refl

cancelled_once : (mark_cancelled sample read_id).1 ≡ true
unfolding mark_cancelled
cancelled_once = refl

abbrev cancel_step : Step sample (mark_cancelled sample read_id).0
cancel_step = cancelled_by read_id refl

Step-legal_example :
    IsConsistent (mark_cancelled sample read_id).0
    × Moves sample.slots (mark_cancelled sample read_id).0.slots
Step-legal_example = Step-legal cancel_step sample-IsConsistent

in_flight-Step_example :
    (u : OpSlot ℕ) × (get (mark_cancelled sample read_id).0 read_id ≡ some u)
    × (u.payload ≡ 10)
    × (u.kind ≡ recv)
in_flight-Step_example =
    in_flight-Step read_id reading sample-IsConsistent sample-get refl cancel_step

abbrev after_release : OpSlab ℕ
after_release = release sample done_id

release_stale_example :
    (state (complete after_release read_id).0 done_id ≡ none)
    × (get (complete after_release read_id).0 done_id ≡ none)
release_stale_example =
    release_stale done_id sample-IsConsistent done_state (omega arith)
      (more start (completed_by read_id refl)) (omega arith)

post-fresh_example :
    (id : OpId) × (s' : OpSlab ℕ) × (post 0 sample send ≡ some (id, s'))
    × (state s' id ≡ some posted)
    × ((t : OpSlot ℕ) → get s' id ≡ some t → t.kind ≡ send)
    × ((other : OpId) (t : OpSlot ℕ)
        → get sample other ≡ some t
        → (other.index ≢ id.index) × (get s' other ≡ some t))
post-fresh_example = post-fresh 0 sample send sample-IsConsistent (omega arith)

cancel_protocol_example :
    let c = (mark_cancelled sample read_id).0 in
    ((mark_cancelled sample read_id).1 ≡ true)
    × (state c read_id ≡ some cancelled)
    × (mark_cancelled c read_id ≡ (c, false))
    × ((complete c read_id).1 ≡ some (recv, true))
    × (state (complete c read_id).0 read_id ≡ some completed)
    × ((complete sample read_id).1 ≡ some (recv, false))
    × (state (complete sample read_id).0 read_id ≡ some completed)
cancel_protocol_example = cancel_protocol sample read_id reading sample-get refl

-- Two chunks of slots of 64 bytes, the data at offset 16.
abbrev two_chunks : List (ℕ × ℕ)
two_chunks = (4096, 1) ∷ (65536, 0) ∷ []

screen_iff_example : (screen 64 16 two_chunks 65680 ≡ true) ↔ Owns 64 16 two_chunks 65680
screen_iff_example = screen_iff 64 16 two_chunks 65680 (omega arith) ((omega arith, tt), (tt, tt))
