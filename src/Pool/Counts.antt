-- ===== src/Pool/Counts.antt =====
-- `retain` and `release` on a class of crates/core/src/buffers.rs: each returns, keeps the bookkeeping exact,
-- and changes the references of one slot.
use cadeloop.Prelude.{
  ℕ, zero, suc, ◌+◌, ◌-◌, ◌*◌, ◌/◌, ◌%◌, ◌<◌, ◌^◌, ◌≡◌, refl, sym, ◌∙◌, ap, subst, Bool, true,
  false, ◌&&◌, some, [], ◌∷◌, ◌++◌, arith, length, get_elem?, set, count-append, length-append,
  length-set, get_elem?-lt, get_elem?-some, leb, ◌==◌, if◌then◌else◌, Bool-cases, inl, inr,
}
use cadeloop.Prelude.Partial.{Yields, yields}
use cadeloop.Pool.{
  SlotId, ClassPool, live, slots_per_region, rejected, retain_class, goes_back, resident_free_slots,
  can_page, freed, release_live, release_class, one_less, pageable, refcount_class, count_at,
}
use cadeloop.Pool.Invariant.{IsSound, write-IsSound, in_use_pos, not_stray}
use cadeloop.Pool.Slots.{
  Rewritten, region_has_slots, slot_flag, set-count_at, set_same, live_at-parts, count_at-dead,
}

-- A call on the references of one slot: those it has after the call.
pub record Changed (p : ClassPool) (id : SlotId) (n : ℕ) (p' : ClassPool) : Type 0 where
  pub sound : IsSound p'
  pub same_class : p'.class ≡ p.class
  pub changed : Rewritten p p' id.index id.generation n

dead_at :
    (p : ClassPool) (i g j h : ℕ)
    → refcount_class p i g ≡ 0
    → refcount_class p j h ≡ (if j == i && h == g then 0 else refcount_class p j h)
dead_at p i g j h e = elim (Bool-cases (j == i)) [
  | inl q ↦ elim (Bool-cases (h == g)) [
    | inl r ↦
        let k : j ≡ i = ground arith in
        let l : h ≡ g = ground arith in rw (k, l) (ground (arith, e))
    | inr r ↦ ground arith
  ]
  | inr q ↦ ground arith
]

rejected-Changed :
    (p : ClassPool) (id : SlotId) → IsSound p → live p id ≡ false → Changed p id 0 (rejected p)
rejected-Changed p id v e = record {
  sound = record {
    same_generations = v.same_generations;
    same_paged = v.same_paged;
    covered = v.covered;
    listed = v.listed;
    free_counted = v.free_counted;
    resident_counted = v.resident_counted;
    use_counted = v.use_counted;
    none_stray = v.none_stray;
  };
  same_class = refl;
  changed = λ j h. dead_at p id.index id.generation j h (
      count_at-dead (get_elem? p.refcounts id.index) (get_elem? p.generations id.index)
        id.generation e);
}

retain_class-value :
    (p : ClassPool) (id : SlotId) {r : ℕ}
    → live p id ≡ true
    → get_elem? p.refcounts id.index ≡ some r
    → retain_class p id
      ≡ some (record p { refcounts = set p.refcounts id.index ((r + 1) % 2 ^ 32) })
unfolding retain_class
retain_class-value p id e f = rw e (rw f refl)

abbrev pub one_more : ℕ → ℕ
one_more zero = 0
one_more (suc n) = suc (suc n)

live_count :
    (p : ClassPool) (id : SlotId) {r : ℕ}
    → get_elem? p.refcounts id.index ≡ some (suc r)
    → get_elem? p.generations id.index ≡ some id.generation
    → refcount_class p id.index id.generation ≡ suc r
live_count p id e f = rw (e, f) (ground arith)

module _ (p : ClassPool) (id : SlotId) (v : IsSound p) {r : ℕ}
    (counted : get_elem? p.refcounts id.index ≡ some (suc r))
    (current : get_elem? p.generations id.index ≡ some id.generation) where
  -- The count of a slot in use is written, and is not 0.
  count-Changed :
      (n : ℕ) → 0 < n → Changed p id n (record p { refcounts = set p.refcounts id.index n })
  count-Changed n h =
      let (b, flagged) = slot_flag p id.index v counted in
      record {
        sound =
            subst
              (λ ps. IsSound (record p { refcounts = set p.refcounts id.index n; paged_out = ps }))
              (set_same p.paged_out id.index b flagged)
              (write-IsSound p v id.index (suc r) b counted flagged n b p.generations p.freelist
                p.resident_free p.in_use refl (λ j. ground arith) (ground arith) (ground arith)
                (ground arith)
                (let e =
                    not_stray p v id.index (suc r) b counted flagged (λ q. absurd (omega arith)) in
                  ground arith));
        same_class = refl;
        changed = λ j k.
            ap (λ gs. count_at (get_elem? (set p.refcounts id.index n) j) (get_elem? gs j) k)
              (sym (set_same p.generations id.index id.generation current))
            ∙ set-count_at p.refcounts p.generations id.index (suc r) n id.generation id.generation
                j k counted current (inl refl);
      }

  retain_live :
      live p id ≡ true
      → suc r + 1 < 2 ^ 32
      → Yields
          (Changed p id (one_more (refcount_class p id.index id.generation)))
          (retain_class p id)
  retain_live e room =
      let w : (suc r + 1) % 2 ^ 32 ≡ suc (suc r) = omega arith in
      rw (live_count p id counted current, retain_class-value p id e counted, w)
        (yields (count-Changed (suc (suc r)) (omega arith)))

pub retain_class-Changed :
    (p : ClassPool) (id : SlotId)
    → IsSound p
    → refcount_class p id.index id.generation + 1 < 2 ^ 32
    → Yields (Changed p id (one_more (refcount_class p id.index id.generation))) (retain_class p id)
unfolding retain_class
retain_class-Changed p id v room = elim (Bool-cases (live p id)) [
  | inl e ↦
      let (r, counted, current) =
        live_at-parts (get_elem? p.refcounts id.index) (get_elem? p.generations id.index)
          id.generation e in
      retain_live p id v counted current e (omega (arith, live_count p id counted current))
  | inr e ↦
      rw
        (
          e,
          count_at-dead (get_elem? p.refcounts id.index) (get_elem? p.generations id.index)
              id.generation e,
        )
        (yields (rejected-Changed p id v e))
]

-- What `release` hands back, and the references behind it.
pub record Released (p : ClassPool) (id : SlotId) (v : Bool × ClassPool) : Type 0 where
  pub changed : Changed p id (refcount_class p id.index id.generation - 1) v.1
  pub last : v.0 ≡ (refcount_class p id.index id.generation == 1)

region_below : (i k n : ℕ) → 0 < k → i < n * k → i / k < n
region_below i k n h l = grind arith

pageable-total :
    (p : ClassPool) (i : ℕ)
    → IsSound p
    → i < length p.refcounts
    → (b : Bool) × (pageable p i ≡ some b)
unfolding pageable
pageable-total p i v h =
    let k = slots_per_region p.class in
    let (r, e) =
      get_elem?-some p.regions (i / k) (
        region_below i k (length p.regions) (region_has_slots p.class)
          (omega (arith, v.covered))) in
    (can_page r, rw e refl)

goes_back-total :
    (pages_out taken : Bool) (p : ClassPool) (i : ℕ)
    → IsSound p
    → i < length p.refcounts
    → (b : Bool) × (goes_back pages_out taken p i ≡ some b)
unfolding goes_back
goes_back-total pages_out taken p i v h =
    let (b, e) = pageable-total p i v h in
    elim (Bool-cases (pages_out && leb resident_free_slots p.resident_free)) [
      | inl q ↦ (b && taken, rw q (rw e refl))
      | inr q ↦ (false, rw q refl)
    ]

one_less-pos : (n : ℕ) → 0 < n → one_less n ≡ some (n - 1)
one_less-pos zero h = absurd (omega arith)
one_less-pos (suc n) h = let e : suc n - 1 ≡ n = omega arith in rw e refl

release_live-last :
    (pages_out taken : Bool) (p : ClassPool) (id : SlotId) {g : ℕ} {back : Bool}
    → get_elem? p.refcounts id.index ≡ some 1
    → get_elem? p.generations id.index ≡ some g
    → 0 < p.in_use
    → goes_back pages_out taken p id.index ≡ some back
    → release_live pages_out taken p id ≡ some (true, freed p id g (p.in_use - 1) back)
unfolding release_live
release_live-last pages_out taken p id e f h b =
    rw e (rw f (rw (one_less-pos p.in_use h) (rw b refl)))

release_live-more :
    (pages_out taken : Bool) (p : ClassPool) (id : SlotId) {g r : ℕ}
    → get_elem? p.refcounts id.index ≡ some (suc (suc r))
    → get_elem? p.generations id.index ≡ some g
    → release_live pages_out taken p id
      ≡ some (false, record p { refcounts = set p.refcounts id.index (suc r) })
unfolding release_live
release_live-more pages_out taken p id {r = r} e f =
    let q : (suc r == 0) ≡ false = ground arith in rw e (rw f (rw q refl))

module _ (p : ClassPool) (id : SlotId) (v : IsSound p)
    (counted : get_elem? p.refcounts id.index ≡ some 1)
    (current : get_elem? p.generations id.index ≡ some id.generation)
    (flagged : get_elem? p.paged_out id.index ≡ some false) where
  freed-IsSound : (back : Bool) → IsSound (freed p id id.generation (p.in_use - 1) back)
  unfolding freed
  freed-IsSound true =
      let pos = in_use_pos p v id.index 1 false counted flagged (λ q. absurd (omega arith)) in
      write-IsSound p v id.index 1 false counted flagged 0 true
        (set p.generations id.index ((id.generation + 1) % 2 ^ 32)) (p.freelist ++ id.index ∷ [])
        p.resident_free (p.in_use - 1)
        (length-set p.generations id.index ((id.generation + 1) % 2 ^ 32))
        (λ j. ground (arith, count-append j p.freelist (id.index ∷ [])))
        (omega (arith, length-append p.freelist (id.index ∷ []))) (omega arith) (omega arith) refl
  freed-IsSound false =
      let pos = in_use_pos p v id.index 1 false counted flagged (λ q. absurd (omega arith)) in
      subst
        (λ ps. IsSound (record p {
          refcounts = set p.refcounts id.index 0;
          paged_out = ps;
          generations = set p.generations id.index ((id.generation + 1) % 2 ^ 32);
          freelist = id.index ∷ p.freelist;
          resident_free = p.resident_free + 1;
          in_use = p.in_use - 1;
        }))
        (set_same p.paged_out id.index false flagged)
        (write-IsSound p v id.index 1 false counted flagged 0 false
          (set p.generations id.index ((id.generation + 1) % 2 ^ 32)) (id.index ∷ p.freelist)
          (p.resident_free + 1) (p.in_use - 1)
          (length-set p.generations id.index ((id.generation + 1) % 2 ^ 32)) (λ j. ground arith)
          (omega arith) (omega arith) (omega arith) refl)

  freed-refcount :
      (j k : ℕ)
      → count_at
          (get_elem? (set p.refcounts id.index 0) j)
          (get_elem? (set p.generations id.index ((id.generation + 1) % 2 ^ 32)) j)
          k
        ≡ (if j == id.index && k == id.generation then 0 else refcount_class p j k)
  freed-refcount j k =
      set-count_at p.refcounts p.generations id.index 1 0 id.generation
        ((id.generation + 1) % 2 ^ 32) j k counted current (inr refl)

  freed-Changed : (back : Bool) → Changed p id 0 (freed p id id.generation (p.in_use - 1) back)
  unfolding freed
  freed-Changed true = record {
    sound = freed-IsSound true;
    same_class = refl;
    changed = freed-refcount;
  }
  freed-Changed false = record {
    sound = freed-IsSound false;
    same_class = refl;
    changed = freed-refcount;
  }

release_live-Released :
    (pages_out taken : Bool) (p : ClassPool) (id : SlotId) (r : ℕ)
    → IsSound p
    → get_elem? p.refcounts id.index ≡ some (suc r)
    → get_elem? p.generations id.index ≡ some id.generation
    → Yields (Released p id) (release_live pages_out taken p id)
release_live-Released pages_out taken p id (suc r) v counted current =
    let n = live_count p id counted current in
    subst (Yields (Released p id)) (sym (release_live-more pages_out taken p id counted current)) (
      yields (record {
        changed = rw n (
            subst (λ m. Changed p id m (record p { refcounts = set p.refcounts id.index (suc r) }))
              (omega arith) (count-Changed p id v counted current (suc r) (omega arith)));
        last = rw n (ground arith);
      }))
release_live-Released pages_out taken p id zero v counted current =
    let n = live_count p id counted current in
    let (b, f) = slot_flag p id.index v counted in
    let e = not_stray p v id.index 1 b counted f (λ q. absurd (omega arith)) in
    let flagged = f ∙ ap some e in
    let (back, g) =
      goes_back-total pages_out taken p id.index v (get_elem?-lt p.refcounts id.index counted) in
    subst (Yields (Released p id))
      (sym (
        release_live-last pages_out taken p id counted current
          (in_use_pos p v id.index 1 b counted f (λ q. absurd (omega arith))) g))
      (yields (record {
        changed = rw n (freed-Changed p id v counted current flagged back);
        last = rw n refl;
      }))

pub release_class-Released :
    (pages_out taken : Bool) (p : ClassPool) (id : SlotId)
    → IsSound p
    → Yields (Released p id) (release_class pages_out taken p id)
unfolding release_class
release_class-Released pages_out taken p id v = elim (Bool-cases (live p id)) [
  | inl e ↦
      let (r, counted, current) =
        live_at-parts (get_elem? p.refcounts id.index) (get_elem? p.generations id.index)
          id.generation e in
      rw e (release_live-Released pages_out taken p id r v counted current)
  | inr e ↦
      let n =
        count_at-dead (get_elem? p.refcounts id.index) (get_elem? p.generations id.index)
          id.generation e in
      rw e (yields (record { changed = rw n (rejected-Changed p id v e); last = rw n refl }))
]
