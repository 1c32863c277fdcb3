-- ===== src/Pool/Memory.antt =====
-- The memory that the pool of crates/core/src/buffers.rs accounts for.
use cadeloop.Prelude.{ℕ, ◌+◌, ◌-◌, ◌*◌, ◌≤◌, ◌≡◌, refl, Bool, arith, length, ◌==◌, if◌then◌else◌}
use cadeloop.Pool.{
  SizeClass, s4k, s16k, s64k, ClassPool, BufferPool, class_of, size, slots_per_region, region_size,
  class_in_use, class_held, bytes_in_use, bytes_held,
}
use cadeloop.Pool.Invariant.{IsSound, used_weight, free_weight, resident_weight}
use cadeloop.Pool.Tally.{tally, tally-split, tally-one}
use cadeloop.Pool.References.{IsValid}

-- The free slots that hold memory.
abbrev pub class_idle : ClassPool → ℕ
class_idle p = p.resident_free * size p.class

region_slots : (c : SizeClass) → slots_per_region c * size c ≡ region_size
unfolding slots_per_region
region_slots s4k = refl
region_slots s16k = refl
region_slots s64k = refl

paged_weight : ℕ → Bool → ℕ
paged_weight r b = if r == 0 then (if b then 1 else 0) else 0

whole : (n k s : ℕ) {m r : ℕ} → n * k ≡ m → k * s ≡ r → n * r ≡ m * s
whole n k s e f = rw (← e, ← f) (grind arith)

parts : (u r f s : ℕ) {m : ℕ} → m ≡ u + r + f → m * s ≡ u * s + r * s + f * s
parts u r f s e = rw e (grind arith)

held_lem : (p : ClassPool) → IsSound p → class_held p ≡ class_in_use p + class_idle p
unfolding paged_weight
held_lem p v =
    let rs = p.refcounts in
    let ps = p.paged_out in
    let all : tally (λ r b. 1) rs ps ≡ tally used_weight rs ps + tally free_weight rs ps =
      tally-split (λ r b. 1) used_weight free_weight rs ps (λ r b. ground arith) in
    let free : tally free_weight rs ps ≡ tally resident_weight rs ps + tally paged_weight rs ps =
      tally-split free_weight resident_weight paged_weight rs ps (λ r b. ground arith) in
    let total = tally-one rs ps v.same_paged in
    let slots : length p.regions * region_size ≡ length rs * size p.class =
      whole (length p.regions) (slots_per_region p.class) (size p.class) v.covered
        (region_slots p.class) in
    let rest : length rs ≡ p.in_use + p.resident_free + (length p.freelist - p.resident_free) =
      omega (arith, v.use_counted, v.free_counted, v.resident_counted) in
    let e =
      parts p.in_use p.resident_free (length p.freelist - p.resident_free) (size p.class) rest in
    omega (arith, slots, e)

resident_le : (p : ClassPool) → IsSound p → p.resident_free ≤ length p.freelist
unfolding paged_weight
resident_le p v =
    let free =
      tally-split free_weight resident_weight paged_weight p.refcounts p.paged_out
        (λ r b. ground arith) in
    omega (arith, v.free_counted, v.resident_counted)

-- On a valid pool, what `bytes_held` reports is exactly the buffers in use and the free slots that still hold
-- their memory, so never less than `bytes_in_use`; and its difference of counts does not fall below 0.
pub bytes_held_correct :
    (b : BufferPool)
    → IsValid b
    → (bytes_held b
        ≡ bytes_in_use b + (class_idle b.small + class_idle b.medium + class_idle b.large))
      × ((c : SizeClass) → (class_of b c).resident_free ≤ length (class_of b c).freelist)
unfolding bytes_held bytes_in_use
bytes_held_correct b v = (
  omega (
    arith,
    held_lem b.small (v.sound s4k),
    held_lem b.medium (v.sound s16k),
    held_lem b.large (v.sound s64k),
  ),
  λ c. resident_le (class_of b c) (v.sound c),
)
