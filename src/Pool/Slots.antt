-- ===== src/Pool/Slots.antt =====
-- The calls on a class of crates/core/src/buffers.rs: each returns, keeps the bookkeeping exact, and changes
-- the references of one slot.
use cadeloop.Prelude.{
  ℕ, zero, suc, ◌+◌, ◌-◌, ◌*◌, ◌%◌, ◌<◌, ◌^◌, ◌≡◌, ◌⊎◌, refl, sym, ◌∙◌, ap, subst, Bool, true,
  false, ◌&&◌, Option, none, some, List, [], ◌∷◌, ◌++◌, arith, length, get_elem?, set, replicate,
  range, count, get_elem?-set_lt, get_elem?-append, get_elem?-replicate, get_elem?-lt,
  get_elem?-none, get_elem?-some, ltb, ◌==◌, if◌then◌else◌, Bool-cases, Option-cases, inl, inr,
}
use cadeloop.Prelude.Partial.{Yields, yields, Yields-weaken}
use cadeloop.Pool.{
  SizeClass, s4k, s16k, s64k, SlotId, Region, ClassPool, add_slots, add_region, live_at,
  slots_per_region, acquire_from, acquire_class, is_empty, one_less, refcount_class, count_at,
}
use cadeloop.Pool.Invariant.{
  IsSound, free_slot, write-IsSound, resident_pos, add_region-IsSound, resident_weight,
}

-- The references after a call, by index and generation.
abbrev pub Rewritten : ClassPool → ClassPool → ℕ → ℕ → ℕ → Type 0
Rewritten p p' index generation n =
    (j h : ℕ)
    → refcount_class p' j h ≡ (if j == index && h == generation then n else refcount_class p j h)

pub record Acquired (p : ClassPool) (v : SlotId × ClassPool) : Type 0 where
  pub sound : IsSound v.1
  pub same_class : v.1.class ≡ p.class
  pub own_class : v.0.class ≡ p.class
  pub was_free : refcount_class p v.0.index v.0.generation ≡ 0
  pub taken : Rewritten p v.1 v.0.index v.0.generation 1

-- What stands at a slot of a sound class.
pub slot_flag :
    (p : ClassPool) (i : ℕ) {r : ℕ}
    → IsSound p
    → get_elem? p.refcounts i ≡ some r
    → (b : Bool) × (get_elem? p.paged_out i ≡ some b)
slot_flag p i v e =
    get_elem?-some p.paged_out i (omega (arith, v.same_paged, get_elem?-lt p.refcounts i e))

pub slot_generation :
    (p : ClassPool) (i : ℕ) {r : ℕ}
    → IsSound p
    → get_elem? p.refcounts i ≡ some r
    → (g : ℕ) × (get_elem? p.generations i ≡ some g)
slot_generation p i v e =
    get_elem?-some p.generations i (omega (arith, v.same_generations, get_elem?-lt p.refcounts i e))

-- An index on the freelist is that of a free slot.
listed_free :
    (p : ClassPool) (i : ℕ) (rest : List ℕ)
    → IsSound p
    → p.freelist ≡ i ∷ rest
    → get_elem? p.refcounts i ≡ some 0
listed_free p i rest v e = elim (Option-cases (get_elem? p.refcounts i)) [
  | inl n ↦ absurd (ground (arith, v.listed i, ap (count i) e, ap free_slot n))
  | inr (r, q) ↦ ground (arith, v.listed i, ap (count i) e, ap free_slot q)
]

-- A write to one slot's count, and to its generation.
pub set-count_at :
    (rs gs : List ℕ) (i r r' g g' j h : ℕ)
    → get_elem? rs i ≡ some r
    → get_elem? gs i ≡ some g
    → (g' ≡ g) ⊎ (r' ≡ 0)
    → count_at (get_elem? (set rs i r') j) (get_elem? (set gs i g') j) h
      ≡ (if j == i && h == g then r' else count_at (get_elem? rs j) (get_elem? gs j) h)
set-count_at rs gs i r r' g g' j h e f c =
    rw
      (
        get_elem?-set_lt rs i j r' (get_elem?-lt rs i e),
        get_elem?-set_lt gs i j g' (get_elem?-lt gs i f),
      )
      (elim (Bool-cases (i == j)) [
        | inl q ↦
            let k : j ≡ i = ground arith in elim c [ inl d ↦ ground arith | inr d ↦ ground arith ]
        | inr q ↦ ground arith
      ])

pub set_same {ℓ} :
    {A : Type ℓ} (l : List A) (i : ℕ) (v : A) → get_elem? l i ≡ some v → set l i v ≡ l
set_same [] i v e = refl
set_same (x ∷ l) zero v e = let q : v ≡ x = cc in ap (λ y. y ∷ l) q
set_same (x ∷ l) (suc i) v e = ap (λ m. x ∷ m) (set_same l i v e)

pub live_at-parts :
    (a b : Option ℕ) (h : ℕ) → live_at a b h ≡ true → (r : ℕ) × (a ≡ some (suc r)) × (b ≡ some h)
live_at-parts none b h e = cc
live_at-parts (some r) none h e = cc
live_at-parts (some zero) (some g) h e = ground arith
live_at-parts (some (suc r)) (some g) h e = (r, refl, ground arith)

pub count_at-dead : (a b : Option ℕ) (h : ℕ) → live_at a b h ≡ false → count_at a b h ≡ 0
count_at-dead none b h e = refl
count_at-dead (some r) none h e = refl
count_at-dead (some r) (some g) h e = ground arith

acquire_from-value :
    (p : ClassPool) (i : ℕ) (rest : List ℕ) {b : Bool} {m r g : ℕ}
    → get_elem? p.paged_out i ≡ some b
    → (if b then some p.resident_free else one_less p.resident_free) ≡ some m
    → get_elem? p.refcounts i ≡ some r
    → get_elem? p.generations i ≡ some g
    → acquire_from p (i ∷ rest)
      ≡ some (
        record { class = p.class; index = i; generation = g },
        record p {
          freelist = rest;
          paged_out = set p.paged_out i false;
          resident_free = m;
          refcounts = set p.refcounts i 1;
          in_use = p.in_use + 1;
        },
      )
unfolding acquire_from
acquire_from-value p i rest e f g h = rw e (rw f (rw g (rw h refl)))

-- The count of resident free slots behind an acquired slot.
resident_left :
    (b : Bool) (m : ℕ)
    → (b ≡ false → 0 < m)
    → (k : ℕ) × ((if b then some m else one_less m) ≡ some k) × (k + resident_weight 0 b ≡ m)
resident_left true m h = (m, refl, omega arith)
resident_left false zero h = absurd (ground (arith, h refl))
resident_left false (suc m) h = (m, refl, omega arith)

acquire_from-Acquired :
    (p : ClassPool) (i : ℕ) (rest : List ℕ)
    → IsSound p
    → p.freelist ≡ i ∷ rest
    → Yields (Acquired p) (acquire_from p (i ∷ rest))
acquire_from-Acquired p i rest v e =
    let counted = listed_free p i rest v e in
    let (b, flagged) = slot_flag p i v counted in
    let (g, h) = slot_generation p i v counted in
    let (m, left, kept) =
      resident_left b p.resident_free (resident_pos p v i 0 b counted flagged refl) in
    let n = ap length e in
    subst (Yields (Acquired p)) (sym (acquire_from-value p i rest flagged left counted h)) (
      yields (record {
        sound =
            write-IsSound p v i 0 b counted flagged 1 false p.generations rest m (p.in_use + 1) refl
              (λ j. ground (arith, ap (count j) e)) (omega arith) (omega arith) (omega arith) refl;
        same_class = refl;
        own_class = refl;
        was_free = rw (counted, h) refl;
        taken = λ j k.
            ap (λ gs. count_at (get_elem? (set p.refcounts i 1) j) (get_elem? gs j) k)
              (sym (set_same p.generations i g h))
            ∙ set-count_at p.refcounts p.generations i 0 1 g g j k counted h (inl refl);
      }))

add_slots-refcount :
    (n : ℕ) (region : Region) (p : ClassPool) (j h : ℕ)
    → IsSound p
    → refcount_class (add_slots n region p) j h ≡ refcount_class p j h
unfolding add_slots
add_slots-refcount n region p j h v =
    rw
      (
        get_elem?-append p.refcounts (replicate n 0) j,
        get_elem?-append p.generations (replicate n 0) j,
        v.same_generations,
      )
      (elim (Bool-cases (ltb j (length p.refcounts))) [
        | inl q ↦ rw q refl
        | inr q ↦
            rw
              (
                q,
                get_elem?-replicate {A = ℕ} n 0 (j - length p.refcounts),
                get_elem?-none p.refcounts j (ground arith),
              )
              (ground arith)
      ])

pub region_has_slots : (c : SizeClass) → 0 < slots_per_region c
unfolding slots_per_region
region_has_slots s4k = omega arith
region_has_slots s16k = omega arith
region_has_slots s64k = omega arith

range-cons : (b n : ℕ) (l : List ℕ) → 0 < n → range b n ++ l ≡ b ∷ (range (suc b) (n - 1) ++ l)
unfolding range
range-cons b zero l h = absurd (omega arith)
range-cons b (suc n) l h = let e : suc n - 1 ≡ n = omega arith in rw e refl

Acquired-refilled :
    (fresh : Region) (p : ClassPool) (v : SlotId × ClassPool)
    → IsSound p
    → Acquired (add_region fresh p) v
    → Acquired p v
unfolding add_slots
Acquired-refilled fresh p v s a =
    let k = slots_per_region p.class in
    record {
      sound = a.sound;
      same_class = a.same_class;
      own_class = a.own_class;
      was_free = sym (add_slots-refcount k fresh p v.0.index v.0.generation s) ∙ a.was_free;
      taken = λ j h. ground (arith, a.taken j h, add_slots-refcount k fresh p j h s);
    }

first_slot :
    (fresh : Region) (p : ClassPool)
    → (add_region fresh p).freelist
      ≡ (length p.regions * slots_per_region p.class % 2 ^ 32)
        ∷ (range
              (suc (length p.regions * slots_per_region p.class % 2 ^ 32))
              (slots_per_region p.class - 1)
            ++ p.freelist)
unfolding add_slots
first_slot fresh p =
    range-cons (length p.regions * slots_per_region p.class % 2 ^ 32) (slots_per_region p.class)
      p.freelist (region_has_slots p.class)

acquire_refilled :
    (fresh : Region) (p : ClassPool) (free : List ℕ)
    → p.freelist ≡ free
    → length p.refcounts < 2 ^ 32
    → IsSound p
    → Yields (Acquired p) (
        acquire_from
          (if is_empty free then add_region fresh p else p)
          (if is_empty free then add_region fresh p else p).freelist)
acquire_refilled fresh p (i ∷ rest) e room v =
    subst (λ l. Yields (Acquired p) (acquire_from p l)) (sym e) (acquire_from-Acquired p i rest v e)
acquire_refilled fresh p [] e room v =
    let p' = add_region fresh p in
    let b = length p.regions * slots_per_region p.class % 2 ^ 32 in
    let rest = range (suc b) (slots_per_region p.class - 1) ++ p.freelist in
    let q : p'.freelist ≡ b ∷ rest = first_slot fresh p in
    Yields-weaken (λ a. Acquired-refilled fresh p a v)
      (subst (λ l. Yields (Acquired p') (acquire_from p' l)) (sym q)
        (acquire_from-Acquired p' b rest (add_region-IsSound fresh p room v) q))

pub acquire_class-Acquired :
    (fresh : Region) (p : ClassPool)
    → length p.refcounts < 2 ^ 32
    → IsSound p
    → Yields (Acquired p) (acquire_class fresh p)
unfolding acquire_class
acquire_class-Acquired fresh p room v = acquire_refilled fresh p p.freelist refl room v
