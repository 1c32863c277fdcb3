-- ===== src/Pool.antt =====
-- The buffer pool (crates/core/src/buffers.rs), in the release profile: freed slots are not poisoned, and a
-- failed `debug_assert` is passed over. `none` is a panic, or a count that would fall below 0. Memory itself
-- is left out: a region that the OS gave is an argument of the calls that may need one, and so is whether it
-- took a slot's pages back.
pub mod Tally
pub mod Invariant
pub mod Slots
pub mod Counts
pub mod References
pub mod SlotIds
pub mod Generations
pub mod Turns
pub mod Runs
pub mod Memory
mod Tests
use cadeloop.Prelude.{
  ℕ, zero, suc, ◌+◌, ◌-◌, ◌*◌, ◌/◌, ◌%◌, ◌^◌, Bool, true, false, ◌&&◌, ◌||◌, not, Option, none,
  some, List, [], ◌∷◌, ◌++◌, length, get_elem?, set, replicate, range, ◌==◌, ltb, leb,
  if◌then◌else◌,
}
use cadeloop.Prelude.Partial.{◌>>=◌}

abbrev pub region_size : ℕ
region_size = 2 * 1024 * 1024

pub data SizeClass : Type 0 where
  s4k s16k s64k : SizeClass

abbrev pub size : SizeClass → ℕ
size s4k = 4 * 1024
size s16k = 16 * 1024
size s64k = 64 * 1024

pub fitting : ℕ → Option SizeClass
fitting n =
    if leb n 4096
    then some s4k
    else if leb n 16384
    then some s16k
    else if leb n 65536
    then some s64k
    else none

pub slots_per_region : SizeClass → ℕ
slots_per_region c = region_size / size c

-- The class above, for a read that filled its buffer.
abbrev pub grown_class : SizeClass → SizeClass
grown_class s4k = s16k
grown_class _ = s64k

abbrev pub is_s64k : SizeClass → Bool
is_s64k s64k = true
is_s64k _ = false

pub after_read : SizeClass → ℕ → Bool → SizeClass
after_read c bytes follows_full =
    if leb (size c) bytes
    then grown_class c
    else if follows_full
    then c
    else if leb bytes 1024
    then s4k
    else if is_s64k c && leb bytes 4096
    then s16k
    else c

pub record SlotId : Type 0 where
  pub class : SizeClass
  pub index : ℕ
  pub generation : ℕ

-- `ptr` is where the region starts.
pub record Region : Type 0 where
  pub ptr : ℕ
  pub rio_buffer_id : Option ℕ
  pub large_pages : Bool
  pub fresh_held : Bool

abbrev pub is_none : Option ℕ → Bool
is_none none = true
is_none (some _) = false

abbrev pub can_page : Region → Bool
can_page r = is_none r.rio_buffer_id && not r.large_pages

abbrev pub resident_free_slots : ℕ
resident_free_slots = 256

-- The freelist's back, where slots are handed out, comes first.
pub record ClassPool : Type 0 where
  pub class : SizeClass
  pub regions : List Region
  pub freelist : List ℕ
  pub refcounts : List ℕ
  pub generations : List ℕ
  pub paged_out : List Bool
  pub resident_free : ℕ
  pub stale_rejections : ℕ
  pub in_use : ℕ
  pub commit_regions : Bool

abbrev pub new_class : SizeClass → ClassPool
new_class c = record {
  class = c;
  regions = [];
  freelist = [];
  refcounts = [];
  generations = [];
  paged_out = [];
  resident_free = 0;
  stale_rejections = 0;
  in_use = 0;
  commit_regions = false;
}

-- The region for `n` slots.
pub add_slots : ℕ → Region → ClassPool → ClassPool
add_slots n region p = record p {
  regions = p.regions ++ region ∷ [];
  refcounts = p.refcounts ++ replicate n 0;
  generations = p.generations ++ replicate n 0;
  paged_out = p.paged_out ++ replicate n (not region.fresh_held);
  resident_free = if region.fresh_held then p.resident_free + n else p.resident_free;
  freelist = range (length p.regions * n % 2 ^ 32) n ++ p.freelist;
}

abbrev pub add_region : Region → ClassPool → ClassPool
add_region region p = add_slots (slots_per_region p.class) region p

-- `live` on what stands at the slot's index.
abbrev pub live_at : Option ℕ → Option ℕ → ℕ → Bool
live_at (some rc) (some g) generation = ltb 0 rc && g == generation
live_at _ _ generation = false

abbrev pub live : ClassPool → SlotId → Bool
live p id =
    live_at (get_elem? p.refcounts id.index) (get_elem? p.generations id.index) id.generation

pub pageable : ClassPool → ℕ → Option Bool
pageable p index = get_elem? p.regions (index / slots_per_region p.class) >>= λ r. some (can_page r)

-- Where a slot starts.
pub slot_ptr : ClassPool → ℕ → Option ℕ
slot_ptr p index = get_elem? p.regions (index / slots_per_region p.class) >>= λ r.
    some (r.ptr + index % slots_per_region p.class * size p.class)

abbrev pub one_less : ℕ → Option ℕ
one_less zero = none
one_less (suc n) = some n

-- The rest of `acquire` once the freelist is not empty.
pub acquire_from : ClassPool → List ℕ → Option (SlotId × ClassPool)
acquire_from p [] = none
acquire_from p (index ∷ rest) = do
  paged ← get_elem? p.paged_out index
  resident ← (if paged then some p.resident_free else one_less p.resident_free)
  count ← get_elem? p.refcounts index
  generation ← get_elem? p.generations index
  some (
    record { class = p.class; index = index; generation = generation },
    record p {
      freelist = rest;
      paged_out = set p.paged_out index false;
      resident_free = resident;
      refcounts = set p.refcounts index 1;
      in_use = p.in_use + 1;
    },
  )

abbrev pub is_empty : List ℕ → Bool
is_empty [] = true
is_empty (_ ∷ _) = false

abbrev pub refilled : Region → ClassPool → ClassPool
refilled fresh p = if is_empty p.freelist then add_region fresh p else p

pub acquire_class : Region → ClassPool → Option (SlotId × ClassPool)
acquire_class fresh p = let p' = refilled fresh p in acquire_from p' p'.freelist

abbrev pub rejected : ClassPool → ClassPool
rejected p = record p { stale_rejections = p.stale_rejections + 1 }

pub retain_class : ClassPool → SlotId → Option ClassPool
retain_class p id =
    let kept = do
      count ← get_elem? p.refcounts id.index
      some (record p { refcounts = set p.refcounts id.index ((count + 1) % 2 ^ 32) })
    in if live p id then kept else some (rejected p)

-- Whether a released slot's pages go back to the OS: `pages_out` is PAGES_OUT, and `taken` what `page_out`
-- answers.
pub goes_back : Bool → Bool → ClassPool → ℕ → Option Bool
goes_back pages_out taken p index =
    let asked = pageable p index >>= λ b. some (b && taken) in
    if pages_out && leb resident_free_slots p.resident_free then asked else some false

-- The slot returns to the freelist.
pub freed : ClassPool → SlotId → ℕ → ℕ → Bool → ClassPool
freed p id generation in_use back =
    let p' = record p {
      refcounts = set p.refcounts id.index 0;
      generations = set p.generations id.index ((generation + 1) % 2 ^ 32);
      in_use = in_use;
    } in
    if back
    then record p' {
      paged_out = set p.paged_out id.index true;
      freelist = p.freelist ++ id.index ∷ [];
    }
    else record p' { resident_free = p.resident_free + 1; freelist = id.index ∷ p.freelist }

pub release_live : Bool → Bool → ClassPool → SlotId → Option (Bool × ClassPool)
release_live pages_out taken p id = do
  count ← get_elem? p.refcounts id.index
  less ← one_less count
  generation ← get_elem? p.generations id.index
  let last = do
    in_use ← one_less p.in_use
    back ← goes_back pages_out taken p id.index
    some (true, freed p id generation in_use back)
  if less == 0 then last else some (false, record p { refcounts = set p.refcounts id.index less })

pub release_class : Bool → Bool → ClassPool → SlotId → Option (Bool × ClassPool)
release_class pages_out taken p id =
    if live p id then release_live pages_out taken p id else some (false, rejected p)

-- `refcount` on what stands at the slot's index.
abbrev pub count_at : Option ℕ → Option ℕ → ℕ → ℕ
count_at (some rc) (some g) generation = if ltb 0 rc && g == generation then rc else 0
count_at _ _ generation = 0

abbrev pub refcount_class : ClassPool → ℕ → ℕ → ℕ
refcount_class p index generation =
    count_at (get_elem? p.refcounts index) (get_elem? p.generations index) generation

pub record BufferPool : Type 0 where
  pub small : ClassPool
  pub medium : ClassPool
  pub large : ClassPool
  pub regions_dirty : Bool

pub new : BufferPool
new = record {
  small = new_class s4k;
  medium = new_class s16k;
  large = new_class s64k;
  regions_dirty = false;
}

abbrev pub class_of : BufferPool → SizeClass → ClassPool
class_of b s4k = b.small
class_of b s16k = b.medium
class_of b s64k = b.large

abbrev pub set_class : BufferPool → SizeClass → ClassPool → BufferPool
set_class b s4k p = record b { small = p }
set_class b s16k p = record b { medium = p }
set_class b s64k p = record b { large = p }

pub acquire : Region → BufferPool → SizeClass → Option (SlotId × BufferPool)
acquire fresh b c = do
  (id, p) ← acquire_class fresh (class_of b c)
  some (
    id,
    record (set_class b c p) {
      regions_dirty = is_empty (class_of b c).freelist || b.regions_dirty;
    },
  )

pub retain : BufferPool → SlotId → Option BufferPool
retain b id = retain_class (class_of b id.class) id >>= λ p. some (set_class b id.class p)

pub release : Bool → Bool → BufferPool → SlotId → Option (Bool × BufferPool)
release pages_out taken b id = do
  (last, p) ← release_class pages_out taken (class_of b id.class) id
  some (last, set_class b id.class p)

abbrev pub refcount : BufferPool → SlotId → ℕ
refcount b id = refcount_class (class_of b id.class) id.index id.generation

pub in_use : BufferPool → ℕ
in_use b = b.small.in_use + b.medium.in_use + b.large.in_use

abbrev pub class_in_use : ClassPool → ℕ
class_in_use p = p.in_use * size p.class

pub bytes_in_use : BufferPool → ℕ
bytes_in_use b = class_in_use b.small + class_in_use b.medium + class_in_use b.large

-- The subtraction of the counts stands for itself: the invariant shows that it does not fall below 0.
abbrev pub class_held : ClassPool → ℕ
class_held p = length p.regions * region_size - (length p.freelist - p.resident_free) * size p.class

pub bytes_held : BufferPool → ℕ
bytes_held b = class_held b.small + class_held b.medium + class_held b.large

pub stale_rejections : BufferPool → ℕ
stale_rejections b = b.small.stale_rejections + b.medium.stale_rejections + b.large.stale_rejections

pub take_regions_dirty : BufferPool → Bool × BufferPool
take_regions_dirty b = (b.regions_dirty, record b { regions_dirty = false })

pub set_commit_regions : BufferPool → Bool → BufferPool
set_commit_regions b commit = record b {
  small = record b.small { commit_regions = commit };
  medium = record b.medium { commit_regions = commit };
  large = record b.large { commit_regions = commit };
}

any_large : List Region → Bool
any_large [] = false
any_large (r ∷ l) = r.large_pages || any_large l

pub any_large_pages : BufferPool → Bool
any_large_pages b =
    any_large b.small.regions || any_large b.medium.regions || any_large b.large.regions

not_registered : List Region → List Region
not_registered [] = []
not_registered (r ∷ l) = if is_none r.rio_buffer_id then r ∷ not_registered l else not_registered l

pub unregistered_regions : BufferPool → List Region
unregistered_regions b =
    not_registered b.small.regions
    ++ not_registered b.medium.regions
    ++ not_registered b.large.regions
