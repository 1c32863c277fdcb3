-- ===== src/OpSlab.antt =====
-- The slab of in-flight kernel operations (crates/core/src/opslab.rs), in the release profile: a
-- failed `debug_assert` is passed over. The boxed chunks of 256 slots are laid end to end in `slots`,
-- so that `chunks[i / CHUNK][i % CHUNK]` is position `i`; a chunk is only ever appended.
pub mod Invariant
pub mod Lifecycle
pub mod Calls
pub mod Pointers
mod Tests
use cadeloop.Prelude.{
  ℕ, zero, suc, ◌+◌, ◌-◌, ◌*◌, ◌/◌, ◌%◌, ◌^◌, Bool, true, false, ◌&&◌, not, Option, none, some,
  List, [], ◌∷◌, ◌++◌, length, get_elem?, set, replicate, range, ◌==◌, ltb, leb, if◌then◌else◌,
}

pub data OpState : Type 0 where
  free posted completed cancelled : OpState

pub data OpKind : Type 0 where
  accept recv send connect disconnect wakeup recv_from send_to pipe_read pipe_write poll : OpKind

pub record OpId : Type 0 where
  pub index : ℕ
  pub generation : ℕ

pub record OpSlot {ℓ} (D : Type ℓ) : Type ℓ where
  pub state : OpState
  pub generation : ℕ
  pub kind : OpKind
  pub payload : D

abbrev pub chunk_size : ℕ
chunk_size = 256

-- The freelist's last entry, which `pop` takes, comes first. `by_addr` holds (base, chunk) pairs.
pub record OpSlab {ℓ} (D : Type ℓ) : Type ℓ where
  pub slots : List (OpSlot D)
  pub by_addr : List (ℕ × ℕ)
  pub freelist : List ℕ
  pub in_flight : ℕ
  pub make_default : D

abbrev pub is_free : OpState → Bool
is_free free = true
is_free _ = false

abbrev pub is_completed : OpState → Bool
is_completed completed = true
is_completed _ = false

-- Posted or cancelled: the kernel may still touch the operation.
abbrev pub is_in_flight : OpState → Bool
is_in_flight posted = true
is_in_flight cancelled = true
is_in_flight _ = false

-- The index of the first entry whose base does not pass the test of `partition_point`.
pub partition_point : (ℕ → Bool) → List (ℕ × ℕ) → ℕ
partition_point test [] = 0
partition_point test ((base, chunk) ∷ l) = if test base then suc (partition_point test l) else 0

pub insert_at {ℓ} : {A : Type ℓ} → ℕ → A → List A → List A
insert_at zero a l = a ∷ l
insert_at (suc i) a [] = a ∷ []
insert_at (suc i) a (x ∷ l) = x ∷ insert_at i a l

module _ {ℓ} {D : Type ℓ} where
  pub new : D → OpSlab D
  new d = record { slots = []; by_addr = []; freelist = []; in_flight = 0; make_default = d }

  abbrev pub capacity : OpSlab D → ℕ
  capacity s = length s.slots

  abbrev pub fresh_slot : D → OpSlot D
  fresh_slot d = record { state = free; generation = 0; kind = wakeup; payload = d }

  -- `addr` is where the allocator put the new chunk.
  pub grow : ℕ → OpSlab D → OpSlab D
  unfolding partition_point insert_at replicate range
  grow addr s = record s {
    slots = s.slots ++ replicate chunk_size (fresh_slot s.make_default);
    by_addr =
        insert_at (partition_point (λ a. ltb a addr) s.by_addr) (addr, capacity s / chunk_size)
          s.by_addr;
    freelist = range (capacity s % 2 ^ 32) chunk_size ++ s.freelist;
  }

  abbrev pub slot : OpSlab D → ℕ → Option (OpSlot D)
  slot s index = get_elem? s.slots index

  -- The rest of `post` once the freelist is not empty; `none` is a panic.
  post_at : OpSlab D → OpKind → List ℕ → Option (OpId × OpSlab D)
  post_at s kind [] = none
  post_at s kind (index ∷ rest) = elim (slot s index) [
    | none ↦ none
    | some t ↦ some (
      record { index = index; generation = t.generation },
      record s {
        slots = set s.slots index (record t { state = posted; kind = kind });
        freelist = rest;
        in_flight = s.in_flight + 1;
      },
    )
  ]

  pub grown : ℕ → OpSlab D → List ℕ → OpSlab D
  unfolding grow
  grown addr s [] = grow addr s
  grown addr s (_ ∷ _) = s

  -- `addr` is used only if a chunk has to be allocated.
  pub post : ℕ → OpSlab D → OpKind → Option (OpId × OpSlab D)
  unfolding grown post_at
  post addr s kind = let s' = grown addr s s.freelist in post_at s' kind s'.freelist

  -- `get` and `get_mut`: the slot of a current id that is not free.
  pub get : OpSlab D → OpId → Option (OpSlot D)
  get s id = elim (slot s id.index) [
    | none ↦ none
    | some t ↦ if t.generation == id.generation && not (is_free t.state) then some t else none
  ]

  cancel_slot : OpSlab D → OpId → OpSlot D → OpState → OpSlab D × Bool
  cancel_slot s id t posted =
      (record s { slots = set s.slots id.index (record t { state = cancelled }) }, true)
  cancel_slot s id t _ = (s, false)

  pub mark_cancelled : OpSlab D → OpId → OpSlab D × Bool
  unfolding get cancel_slot
  mark_cancelled s id = elim (get s id) [ none ↦ (s, false) | some t ↦ cancel_slot s id t t.state ]

  reap : OpSlab D → OpId → OpSlot D → Bool → OpSlab D × Option (OpKind × Bool)
  reap s id t was_cancelled = (
    record s {
      slots = set s.slots id.index (record t { state = completed });
      in_flight = s.in_flight - 1;
    },
    some (t.kind, was_cancelled),
  )

  complete_slot : OpSlab D → OpId → OpSlot D → OpState → OpSlab D × Option (OpKind × Bool)
  unfolding reap
  complete_slot s id t posted = reap s id t false
  complete_slot s id t cancelled = reap s id t true
  complete_slot s id t _ = (s, none)

  pub complete : OpSlab D → OpId → OpSlab D × Option (OpKind × Bool)
  unfolding complete_slot
  complete s id = elim (slot s id.index) [
    | none ↦ (s, none)
    | some t ↦ if t.generation == id.generation then complete_slot s id t t.state else (s, none)
  ]

  pub release : OpSlab D → OpId → OpSlab D
  release s id = elim (slot s id.index) [
    | none ↦ s
    | some t ↦
        if t.generation == id.generation && is_completed t.state
        then record s {
          slots =
              set s.slots id.index
                (record t { state = free; generation = (t.generation + 1) % 2 ^ 32 });
          freelist = id.index ∷ s.freelist;
        }
        else s
  ]

  pub state : OpSlab D → OpId → Option OpState
  state s id = elim (slot s id.index) [
    | none ↦ none
    | some t ↦ if t.generation == id.generation then some t.state else none
  ]

  -- The walk of `in_flight_ids` over the slots from position `i` on.
  live_from : ℕ → List (OpSlot D) → List OpId
  live_from i [] = []
  live_from i (t ∷ l) =
      if is_in_flight t.state
      then record { index = i % 2 ^ 32; generation = t.generation } ∷ live_from (suc i) l
      else live_from (suc i) l

  pub in_flight_ids : OpSlab D → List OpId
  unfolding live_from
  in_flight_ids s = live_from 0 s.slots
