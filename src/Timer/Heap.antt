-- ===== src/Timer/Heap.antt =====
-- `TimerHeap` of crates/core/src/timer.rs, its operations one by one. A method returns the new heap.
pub mod Pop
pub mod Expire
pub mod Schedule
pub mod Compact
use cadeloop.Prelude.{
  ℕ, zero, suc, ◌+◌, ◌-◌, ◌*◌, ◌/◌, ◌%◌, ◌^◌, Bool, true, false, Option, none, some, List, [], ◌∷◌,
  ◌++◌, map, length, get_elem?, take, drop, min, ltb, if◌then◌else◌,
}
use cadeloop.Prelude.Partial.{◌>>=◌}
use mathlib.Core.Option
use cadeloop.Timer.{TimerPayload, Entry, arity, sift_up, sift_down}
use cadeloop.Timer.Array.{swap, swap_remove_first}

pub record TimerHeap {ℓ} (T : Type ℓ) : Type ℓ where
  pub entries : List (Entry T)
  pub seq : ℕ
  pub tombstones : ℕ
  pub graveyard : List T

module _ {ℓ} {T : Type ℓ} where
  abbrev pub new : TimerHeap T
  new = record { entries = []; seq = 0; tombstones = 0; graveyard = [] }

  pub take_graveyard : TimerHeap T → TimerHeap T × List T
  take_graveyard h = (record h { graveyard = [] }, h.graveyard)

  pub len : TimerHeap T → ℕ
  len h = length h.entries

  pub schedule : TimerHeap T → ℕ → T → Option (TimerHeap T)
  schedule h deadline payload = do
    let e : Entry T = record { deadline = deadline; seq = h.seq; payload = payload }
    a ← sift_up (h.entries ++ e ∷ []) (length (h.entries ++ e ∷ []) - 1)
    some (record h { entries = a; seq = (h.seq + 1) % 2 ^ 64 })

  unfoldable pub peek_deadline : TimerHeap T → Option ℕ
  peek_deadline h = Option.map (λ e. e.deadline) (get_elem? h.entries 0)

  pub pop_top : List (Entry T) → Option (Entry T × List (Entry T))
  pop_top a = do
    (e, rest) ← swap_remove_first a
    rest' ← if ltb 1 (length rest) then sift_down rest 0 else some rest
    some (e, rest')

  -- Floyd's construction: the parents from the last one down to the root.
  pub heapify : ℕ → List (Entry T) → Option (List (Entry T))
  heapify zero a = some a
  heapify (suc i) a = sift_down a i >>= heapify i

module _ {ℓ} {T : Type ℓ} ⦃p : TimerPayload T⦄ where
  abbrev pub marked : Entry T → T
  marked e = p.mark_unscheduled e.payload

  abbrev pub is_dead : Entry T → Bool
  is_dead e = p.is_cancelled e.payload

  -- A tombstone that left the heap, with the entries that remain.
  pub bury : TimerHeap T → Entry T → List (Entry T) → TimerHeap T
  bury h e rest = record h {
    entries = rest;
    tombstones = h.tombstones - 1;
    graveyard = h.graveyard ++ marked e ∷ [];
  }

  -- Every round removes an entry.
  pub pop_expired_loop : ℕ → TimerHeap T → ℕ → Option (Option T × TimerHeap T)
  unfolding bury
  pop_expired_loop zero h now = none
  pop_expired_loop (suc fuel) h now = elim (get_elem? h.entries 0) [
    | none ↦ some (none, h)
    | some first ↦
        let popped : Option (Option T × TimerHeap T) = do
          (e, rest) ← pop_top h.entries
          let more = pop_expired_loop fuel (bury h e rest) now
          let found : Option (Option T × TimerHeap T) =
              some (some (marked e), record h { entries = rest })
          if p.is_cancelled (marked e) then more else found
        in if ltb now first.deadline then some (none, h) else popped
  ]

  pub pop_expired : TimerHeap T → ℕ → Option (Option T × TimerHeap T)
  unfolding pop_expired_loop
  pop_expired h now = pop_expired_loop (length h.entries + 1) h now

  pub drop_cancelled_loop : ℕ → TimerHeap T → Option (TimerHeap T)
  unfolding bury
  drop_cancelled_loop zero h = none
  drop_cancelled_loop (suc fuel) h = elim (get_elem? h.entries 0) [
    | none ↦ some h
    | some first ↦
        let popped : Option (TimerHeap T) = do
          (e, rest) ← pop_top h.entries
          drop_cancelled_loop fuel (bury h e rest)
        in if is_dead first then popped else some h
  ]

  pub next_deadline : TimerHeap T → Option (Option ℕ × TimerHeap T)
  unfolding drop_cancelled_loop peek_deadline
  next_deadline h = do
    h' ← drop_cancelled_loop (length h.entries + 1) h
    some (peek_deadline h', h')

  pub drain_all : TimerHeap T → TimerHeap T × List T
  drain_all h = (
    record h { entries = []; tombstones = 0; graveyard = [] },
    map marked h.entries ++ h.graveyard,
  )

  -- `for i in 0..len`, with the rounds left: the live entries are swapped to the front.
  pub partition_loop : ℕ → ℕ → ℕ → List (Entry T) → Option (ℕ × List (Entry T))
  partition_loop zero i live a = some (live, a)
  partition_loop (suc n) i live a = do
    e ← get_elem? a i
    let skip = partition_loop n (suc i) live a
    let keep = swap a live i >>= λ b. partition_loop n (suc i) (suc live) b
    if is_dead e then skip else keep

  pub compact : TimerHeap T → Option (TimerHeap T)
  unfolding partition_loop heapify
  compact h = do
    (live, a) ← partition_loop (length h.entries) 0 0 h.entries
    let kept = take live a
    b ← if ltb 1 (length kept) then heapify ((length kept - 2) / arity + 1) kept else some kept
    some (record h {
      entries = b;
      tombstones = 0;
      graveyard = h.graveyard ++ map marked (drop live a);
    })

  pub note_cancelled : TimerHeap T → ℕ → Option (TimerHeap T)
  unfolding compact
  note_cancelled h n =
      let h' = record h { tombstones = min (h.tombstones + n) (2 ^ 64 - 1) } in
      if ltb (length h'.entries) (h'.tombstones * 2 % 2 ^ 64) then compact h' else some h'
