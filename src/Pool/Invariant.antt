-- ===== src/Pool/Invariant.antt =====
-- The bookkeeping of a class of crates/core/src/buffers.rs: the freelist and every count are exact.
use cadeloop.Prelude.{
  ℕ, zero, suc, ◌+◌, ◌-◌, ◌*◌, ◌%◌, ◌<◌, ◌^◌, ◌≡◌, ◌≢◌, refl, sym, ◌∙◌, ap, Bool, true, false, not,
  Option, none, some, List, [], ◌∷◌, ◌++◌, arith, length, get_elem?, set, replicate, range, count,
  count-append, count-range, length-append, length-replicate, length-set, get_elem?-set_lt,
  get_elem?-append, get_elem?-replicate, get_elem?-lt, get_elem?-none, ◌==◌, if◌then◌else◌,
}
use cadeloop.Pool.{Region, ClassPool, new_class, add_slots, add_region, slots_per_region, freed}
use cadeloop.Pool.Tally.{tally, tally-set, tally-grow}

abbrev pub used_weight : ℕ → Bool → ℕ
used_weight r b = if r == 0 then 0 else 1

abbrev pub free_weight : ℕ → Bool → ℕ
free_weight r b = if r == 0 then 1 else 0

abbrev pub resident_weight : ℕ → Bool → ℕ
resident_weight r b = if r == 0 then (if b then 0 else 1) else 0

abbrev pub stray_weight : ℕ → Bool → ℕ
stray_weight r b = if r == 0 then 0 else (if b then 1 else 0)

abbrev pub free_slot : Option ℕ → ℕ
free_slot none = 0
free_slot (some r) = if r == 0 then 1 else 0

-- Each free slot stands on the freelist once and no other index does, no slot in use is paged out, and the
-- counts are those of the slots.
pub record IsSound (p : ClassPool) : Type 0 where
  pub same_generations : length p.generations ≡ length p.refcounts
  pub same_paged : length p.paged_out ≡ length p.refcounts
  pub covered : length p.regions * slots_per_region p.class ≡ length p.refcounts
  pub listed : (i : ℕ) → count i p.freelist ≡ free_slot (get_elem? p.refcounts i)
  pub free_counted : length p.freelist ≡ tally free_weight p.refcounts p.paged_out
  pub resident_counted : p.resident_free ≡ tally resident_weight p.refcounts p.paged_out
  pub use_counted : p.in_use ≡ tally used_weight p.refcounts p.paged_out
  pub none_stray : tally stray_weight p.refcounts p.paged_out ≡ 0

pub new_class-IsSound : (c : _) → IsSound (new_class c)
unfolding tally
new_class-IsSound c = record {
  same_generations = refl;
  same_paged = refl;
  covered = omega arith;
  listed = λ i. refl;
  free_counted = refl;
  resident_counted = refl;
  use_counted = refl;
  none_stray = refl;
}

length-range : (b n : ℕ) → length (range b n) ≡ n
unfolding range
length-range b zero = refl
length-range b (suc n) = ap suc (length-range (suc b) n)

listed-grow :
    (rs : List ℕ) (free : List ℕ) (n i : ℕ)
    → count i free ≡ free_slot (get_elem? rs i)
    → count i (range (length rs) n ++ free) ≡ free_slot (get_elem? (rs ++ replicate n 0) i)
listed-grow rs free n i h = ground (
  arith,
  h,
  count-append i (range (length rs) n) free,
  count-range i (length rs) n,
  get_elem?-append rs (replicate n 0) i,
  get_elem?-replicate {A = ℕ} n 0 (i - length rs),
  get_elem?-none rs i,
)

covered-grow :
    (regions : List Region) (region : Region) (k n : ℕ) {m : ℕ}
    → n ≡ k
    → length regions * k ≡ m
    → length (regions ++ region ∷ []) * k ≡ m + n
covered-grow regions region k n e h = rw (length-append regions (region ∷ [])) (grind arith)

grown_resident :
    (held : Bool) (m n : ℕ) → (if held then m + n else m) ≡ m + n * resident_weight 0 (not held)
grown_resident true m n = omega arith
grown_resident false m n = omega arith

add_slots-IsSound :
    (n : ℕ) (region : Region) (p : ClassPool)
    → n ≡ slots_per_region p.class
    → length p.refcounts < 2 ^ 32
    → IsSound p
    → IsSound (add_slots n region p)
unfolding add_slots
add_slots-IsSound n region p e room v =
    let base : length p.regions * n % 2 ^ 32 ≡ length p.refcounts =
      rw e (rw v.covered (omega arith)) in
    let held = region.fresh_held in
    let rs = p.refcounts ++ replicate n 0 in
    let ps = p.paged_out ++ replicate n (not held) in
    let grow =
      λ (f : ℕ → Bool → ℕ). tally-grow f p.refcounts p.paged_out n 0 (not held) v.same_paged in
    record {
      same_generations = omega (
        arith,
        v.same_generations,
        length-append p.generations (replicate n 0),
        length-append p.refcounts (replicate n 0),
      );
      same_paged = omega (
        arith,
        v.same_paged,
        length-append p.paged_out (replicate n (not held)),
        length-append p.refcounts (replicate n 0),
        length-replicate n (not held),
        length-replicate {A = ℕ} n 0,
      );
      covered =
          covered-grow p.regions region (slots_per_region p.class) n e (v.covered)
          ∙ sym (
              length-append p.refcounts (replicate n 0)
              ∙ ap (λ k. length p.refcounts + k) (length-replicate n 0));
      listed = λ i. rw base (listed-grow p.refcounts p.freelist n i (v.listed i));
      free_counted = omega (
        arith,
        v.free_counted,
        grow free_weight,
        length-append (range (length p.regions * n % 2 ^ 32) n) p.freelist,
        length-range (length p.regions * n % 2 ^ 32) n,
      );
      resident_counted =
          grown_resident held p.resident_free n
          ∙ omega (arith, v.resident_counted, grow resident_weight);
      use_counted = omega (arith, v.use_counted, grow used_weight);
      none_stray = omega (arith, v.none_stray, grow stray_weight);
    }

pub add_region-IsSound :
    (region : Region) (p : ClassPool)
    → length p.refcounts < 2 ^ 32
    → IsSound p
    → IsSound (add_region region p)
add_region-IsSound region p room v =
    add_slots-IsSound (slots_per_region p.class) region p refl room v

-- One slot rewritten, with the freelist and the counts to match.
module _ (p : ClassPool) (v : IsSound p) (i r : ℕ) (b : Bool)
    (counted : get_elem? p.refcounts i ≡ some r) (flagged : get_elem? p.paged_out i ≡ some b) where
  pub write-IsSound :
      (r' : ℕ) (b' : Bool) (generations free : List ℕ) (resident used : ℕ)
      → length generations ≡ length p.generations
      → ((j : ℕ)
          → count j free + (if i == j then free_slot (some r) else 0)
            ≡ count j p.freelist + (if i == j then free_slot (some r') else 0))
      → length free + free_weight r b ≡ length p.freelist + free_weight r' b'
      → resident + resident_weight r b ≡ p.resident_free + resident_weight r' b'
      → used + used_weight r b ≡ p.in_use + used_weight r' b'
      → stray_weight r' b' ≡ 0
      → IsSound (record p {
        refcounts = set p.refcounts i r';
        paged_out = set p.paged_out i b';
        generations = generations;
        freelist = free;
        resident_free = resident;
        in_use = used;
      })
  write-IsSound r' b' generations free resident used same listed freed kept held strays =
      let t = λ (f : ℕ → Bool → ℕ). tally-set f p.refcounts p.paged_out i r' b' counted flagged in
      let c = length-set p.refcounts i r' in
      record {
        same_generations = omega (arith, v.same_generations);
        same_paged = omega (arith, v.same_paged, length-set p.paged_out i b');
        covered = v.covered ∙ sym c;
        listed = λ j.
            rw (get_elem?-set_lt p.refcounts i j r' (get_elem?-lt p.refcounts i counted))
              (ground (arith, listed j, v.listed j, counted));
        free_counted = omega (arith, v.free_counted, t free_weight);
        resident_counted = omega (arith, v.resident_counted, t resident_weight);
        use_counted = omega (arith, v.use_counted, t used_weight);
        none_stray = omega (arith, v.none_stray, t stray_weight);
      }

  -- The counts that the slot is one of.
  pub in_use_pos : r ≢ 0 → 0 < p.in_use
  in_use_pos h =
      ground
        (arith, v.use_counted, tally-set used_weight p.refcounts p.paged_out i 0 b counted flagged)

  pub resident_pos : r ≡ 0 → b ≡ false → 0 < p.resident_free
  resident_pos h k = ground (
    arith,
    v.resident_counted,
    tally-set resident_weight p.refcounts p.paged_out i 1 b counted flagged,
  )

  pub not_stray : r ≢ 0 → b ≡ false
  not_stray h =
      ground
        (arith, v.none_stray, tally-set stray_weight p.refcounts p.paged_out i 0 b counted flagged)
