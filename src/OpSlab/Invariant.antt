-- ===== src/OpSlab/Invariant.antt =====
-- The bookkeeping of crates/core/src/opslab.rs: the freelist and the in-flight count are exact.
use cadeloop.Prelude.{
  ℕ, zero, suc, ◌+◌, ◌-◌, ◌<◌, ◌^◌, ◌≡◌, refl, sym, ◌∙◌, false, ◌&&◌, Option, none, some, List, [],
  ◌∷◌, ◌++◌, arith, length, get_elem?, set, replicate, range, count, count-append, count-range,
  get_elem?-set, get_elem?-append, get_elem?-replicate, get_elem?-lt, get_elem?-none, ◌==◌,
  if◌then◌else◌, Bool-cases, Option-cases, inl, inr, ap, List-cases,
}
use cadeloop.OpSlab.{
  OpState, OpKind, OpId, OpSlot, OpSlab, is_free, is_in_flight, is_completed, fresh_slot, capacity,
  chunk_size, grow, post, mark_cancelled, complete, release, new, get, grown, post_at,
  complete_slot, cancel_slot, free, posted, cancelled, completed,
}

module _ {ℓ} {D : Type ℓ} where
  -- 1 at the position of a free slot, and 0 elsewhere.
  unfoldable pub free_slot : Option (OpSlot D) → ℕ
  free_slot none = 0
  free_slot (some t) = if is_free t.state then 1 else 0

  abbrev pub free_at : List (OpSlot D) → ℕ → ℕ
  free_at slots i = free_slot (get_elem? slots i)

  abbrev pub count_in_flight : List (OpSlot D) → ℕ
  count_in_flight [] = 0
  count_in_flight (t ∷ l) =
      if is_in_flight t.state then suc (count_in_flight l) else count_in_flight l

  -- Each free slot stands on the freelist once, no other index does, and the count is exact.
  pub record IsConsistent (s : OpSlab D) : Type ℓ where
    pub listed : (i : ℕ) → count i s.freelist ≡ free_at s.slots i
    pub counted : s.in_flight ≡ count_in_flight s.slots

  count_in_flight-append :
      (xs ys : List (OpSlot D))
      → count_in_flight (xs ++ ys) ≡ count_in_flight xs + count_in_flight ys
  count_in_flight-append [] ys = omega arith
  count_in_flight-append (t ∷ l) ys = ground (arith, count_in_flight-append l ys)

  count_in_flight-fresh : (n : ℕ) (d : D) → count_in_flight (replicate n (fresh_slot d)) ≡ 0
  unfolding replicate
  count_in_flight-fresh zero d = refl
  count_in_flight-fresh (suc n) d = count_in_flight-fresh n d

  counted_same :
      (n : ℕ) (xs : List (OpSlot D)) (d : D)
      → count_in_flight (xs ++ replicate n (fresh_slot d)) ≡ count_in_flight xs
  counted_same n xs d =
      omega
        (arith, count_in_flight-append xs (replicate n (fresh_slot d)), count_in_flight-fresh n d)

  count_in_flight-set :
      (xs : List (OpSlot D)) (i : ℕ) (v : OpSlot D) {t : OpSlot D}
      → get_elem? xs i ≡ some t
      → count_in_flight (set xs i v) + (if is_in_flight t.state then 1 else 0)
        ≡ count_in_flight xs + (if is_in_flight v.state then 1 else 0)
  count_in_flight-set [] i v h = cc
  count_in_flight-set (x ∷ xs) zero v h = ground arith
  count_in_flight-set (x ∷ xs) (suc i) v h = ground (arith, count_in_flight-set xs i v h)

  pub new-IsConsistent : (d : D) → IsConsistent (new d)
  unfolding new free_slot
  new-IsConsistent d = record { listed = λ i. refl; counted = refl }

  free_at-grow :
      (n : ℕ) (slots : List (OpSlot D)) (d : D) (i : ℕ)
      → free_at (slots ++ replicate n (fresh_slot d)) i
        ≡ count i (range (length slots) n) + free_at slots i
  unfolding free_slot
  free_at-grow n slots d i = ground (
    arith,
    get_elem?-append slots (replicate n (fresh_slot d)) i,
    get_elem?-replicate n (fresh_slot d) (i - length slots),
    get_elem?-none slots i,
    count-range i (length slots) n,
  )

  count-grow :
      (n base : ℕ) (slots : List (OpSlot D)) (freelist : List ℕ) (d : D) (i : ℕ)
      → base ≡ length slots
      → count i freelist ≡ free_at slots i
      → count i (range base n ++ freelist) ≡ free_at (slots ++ replicate n (fresh_slot d)) i
  count-grow n base slots freelist d i e h =
      rw e
        (omega (arith, count-append i (range (length slots) n) freelist, free_at-grow n slots d i))

  pub grow-IsConsistent :
      (addr : ℕ) (s : OpSlab D) → IsConsistent s → capacity s < 2 ^ 32 → IsConsistent (grow addr s)
  unfolding grow
  grow-IsConsistent addr s v room = record {
    listed =
        λ i. count-grow chunk_size _ s.slots s.freelist s.make_default i (omega arith) (v.listed i);
    counted = v.counted ∙ sym (counted_same chunk_size s.slots s.make_default);
  }

  free_at-set :
      (slots : List (OpSlot D)) (i j : ℕ) (v : OpSlot D) {t : OpSlot D}
      → get_elem? slots i ≡ some t
      → free_at (set slots i v) j ≡ (if i == j then free_slot (some v) else free_at slots j)
  free_at-set slots i j v h = rw get_elem?-set (ground (arith, get_elem?-lt slots i h))

  -- One slot rewritten, with the freelist and the count to match.
  module _ (s : OpSlab D) (i : ℕ) (t u : OpSlot D) (at : get_elem? s.slots i ≡ some t) where
    write-IsConsistent :
        (freelist : List ℕ) (n : ℕ)
        → IsConsistent s
        → ((j : ℕ)
            → count j freelist + (if i == j then free_slot (some t) else 0)
              ≡ count j s.freelist + (if i == j then free_slot (some u) else 0))
        → n + (if is_in_flight t.state then 1 else 0)
          ≡ s.in_flight + (if is_in_flight u.state then 1 else 0)
        → IsConsistent (record s { slots = set s.slots i u; freelist = freelist; in_flight = n })
    write-IsConsistent freelist n v same flight = record {
      listed =
          λ j. ground (arith, same j, v.listed j, free_at-set s.slots i j u at, ap free_slot at);
      counted = omega (arith, v.counted, count_in_flight-set s.slots i u at);
    }

  complete_slot-IsConsistent :
      (s : OpSlab D) (id : OpId) (t : OpSlot D) (st : OpState)
      → get_elem? s.slots id.index ≡ some t
      → t.state ≡ st
      → IsConsistent s
      → IsConsistent (complete_slot s id t st).0
  unfolding complete_slot free_slot
  complete_slot-IsConsistent s id t free at e v = v
  complete_slot-IsConsistent s id t posted at e v =
      write-IsConsistent s id.index t _ at _ _ v (λ j. ground arith)
        (ground (arith, count_in_flight-set s.slots id.index (record t { state = completed }) at))
  complete_slot-IsConsistent s id t cancelled at e v =
      write-IsConsistent s id.index t _ at _ _ v (λ j. ground arith)
        (ground (arith, count_in_flight-set s.slots id.index (record t { state = completed }) at))
  complete_slot-IsConsistent s id t completed at e v = v

  pub complete-IsConsistent :
      (s : OpSlab D) (id : OpId) → IsConsistent s → IsConsistent (complete s id).0
  unfolding complete
  complete-IsConsistent s id v = elim (Option-cases (get_elem? s.slots id.index)) [
    | inl e ↦ rw (e, complete) v
    | inr (t, e) ↦ elim (Bool-cases (t.generation == id.generation)) [
      | inl q ↦ rw (e, complete, q) (complete_slot-IsConsistent s id t t.state e refl v)
      | inr q ↦ rw (e, complete, q) v
    ]
  ]

  cancel_slot-IsConsistent :
      (s : OpSlab D) (id : OpId) (t : OpSlot D) (st : OpState)
      → get_elem? s.slots id.index ≡ some t
      → t.state ≡ st
      → IsConsistent s
      → IsConsistent (cancel_slot s id t st).0
  unfolding cancel_slot free_slot
  cancel_slot-IsConsistent s id t posted at e v =
      write-IsConsistent s id.index t _ at _ _ v (λ j. ground arith) (ground arith)
  cancel_slot-IsConsistent s id t free at e v = v
  cancel_slot-IsConsistent s id t cancelled at e v = v
  cancel_slot-IsConsistent s id t completed at e v = v

  pub get_slot :
      (s : OpSlab D) (id : OpId) {t : OpSlot D}
      → get s id ≡ some t
      → (get_elem? s.slots id.index ≡ some t)
        × (t.generation ≡ id.generation)
        × (is_free t.state ≡ false)
  unfolding get
  get_slot s id h = ground arith

  pub mark_cancelled-IsConsistent :
      (s : OpSlab D) (id : OpId) → IsConsistent s → IsConsistent (mark_cancelled s id).0
  unfolding mark_cancelled
  mark_cancelled-IsConsistent s id v = elim (Option-cases (get s id)) [
    | inl e ↦ rw (e, mark_cancelled) v
    | inr (t, e) ↦
        rw (e, mark_cancelled) (cancel_slot-IsConsistent s id t t.state (get_slot s id e).0 refl v)
  ]

  pub release-IsConsistent :
      (s : OpSlab D) (id : OpId) → IsConsistent s → IsConsistent (release s id)
  unfolding release free_slot
  release-IsConsistent s id v = elim (Option-cases (get_elem? s.slots id.index)) [
    | inl e ↦ rw (e, release) v
    | inr (t, e) ↦ elim (Bool-cases (t.generation == id.generation && is_completed t.state)) [
      | inl q ↦
          rw (e, release, q)
            (write-IsConsistent s id.index t _ e _ _ v (λ j. ground arith) (ground arith))
      | inr q ↦ rw (e, release, q) v
    ]
  ]

  -- The slab that `post` takes a slot of: grown if the freelist was empty.
  abbrev pub ready_slab : ℕ → OpSlab D → OpSlab D
  ready_slab addr s = grown addr s s.freelist

  ready_slab_lem :
      (addr : ℕ) (s : OpSlab D)
      → IsConsistent s
      → capacity s < 2 ^ 32
      → IsConsistent (ready_slab addr s)
        × (i : ℕ) × (rest : List ℕ) × ((ready_slab addr s).freelist ≡ i ∷ rest)
  unfolding grown
  ready_slab_lem addr s v room = elim (List-cases s.freelist) [
    | inl e ↦ rw (e, grown) (grow-IsConsistent addr s v room, _, _, refl)
    | inr (i, rest, e) ↦ rw (e, grown) (v, i, rest, e)
  ]

  -- What a successful `post` did: it took a free slot, whose generation the id carries.
  pub record Posted (s : OpSlab D) (kind : OpKind) (id : OpId) (s' : OpSlab D) : Type ℓ where
    pub was : OpSlot D
    pub at : get_elem? s.slots id.index ≡ some was
    pub was_free : was.state ≡ free
    pub current : id.generation ≡ was.generation
    pub written : s'.slots ≡ set s.slots id.index (record was { state = posted; kind = kind })
    pub consistent : IsConsistent s'

  post_at-Posted :
      (s : OpSlab D) (kind : OpKind) (i : ℕ) (rest : List ℕ)
      → s.freelist ≡ i ∷ rest
      → IsConsistent s
      → (id : OpId) × (s' : OpSlab D) × (post_at s kind (i ∷ rest) ≡ some (id, s'))
        × Posted s kind id s'
  unfolding post_at free_slot
  post_at-Posted s kind i rest e v = elim (Option-cases (get_elem? s.slots i)) [
    | inl no_slot ↦ absurd (ground (arith, v.listed i, ap (count i) e, ap free_slot no_slot))
    | inr (t, at) ↦
        let is : t.state ≡ free = ground (arith, v.listed i, ap (count i) e, ap free_slot at) in
        (
          record { index = i; generation = t.generation },
          record s {
            slots = set s.slots i (record t { state = posted; kind = kind });
            freelist = rest;
            in_flight = s.in_flight + 1;
          },
          rw (at, post_at),
          record {
            was = t;
            at = at;
            was_free = is;
            current = refl;
            written = refl;
            consistent =
                write-IsConsistent s i t _ at _ _ v (λ j. ground (arith, ap (count j) e))
                  (ground arith);
          },
        )
  ]

  pub post-Posted :
      (addr : ℕ) (s : OpSlab D) (kind : OpKind)
      → IsConsistent s
      → capacity s < 2 ^ 32
      → (id : OpId) × (s' : OpSlab D) × (post addr s kind ≡ some (id, s'))
        × Posted (ready_slab addr s) kind id s'
  unfolding post
  post-Posted addr s kind v room =
      let (w, i, rest, e) = ready_slab_lem addr s v room in
      let (id, s', p, d) = post_at-Posted (ready_slab addr s) kind i rest e w in (id, s', rw e p, d)
