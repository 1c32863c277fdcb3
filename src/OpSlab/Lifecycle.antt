-- ===== src/OpSlab/Lifecycle.antt =====
-- The life of an operation in crates/core/src/opslab.rs: which edges a call can take a slot along,
-- that a slot is recycled only from `completed`, and that an id does not outlive its slot.
use cadeloop.Prelude.{
  ℕ, suc, ◌+◌, ◌≤◌, ◌<◌, ◌^◌, ◌%◌, ◌≡◌, refl, ap, true, false, ◌&&◌, none, some, List, arith,
  get_elem?, set, get_elem?-set, get_elem?-lt, ◌==◌, Bool-cases, Option-cases, ◌⊎◌, inl, inr,
  List-cases, subst, ◌++◌, replicate, get_elem?-append, ◌≢◌,
}
use cadeloop.OpSlab.{
  OpState, free, posted, cancelled, completed, OpKind, OpId, OpSlot, OpSlab, capacity, post, get,
  state, mark_cancelled, cancel_slot, complete, complete_slot, release, is_completed, is_free,
  grown, chunk_size, fresh_slot, is_in_flight,
}
use cadeloop.OpSlab.Invariant.{
  get_slot, ready_slab, IsConsistent, post-Posted, mark_cancelled-IsConsistent,
  complete-IsConsistent, release-IsConsistent,
}

-- What one call may do to a slot that stays where it is: nothing, or one edge of the life cycle. Only
-- the last recycles the slot, and it bumps the generation; no edge touches the payload.
pub data Edge {ℓ} {D : Type ℓ} (t u : OpSlot D) : Type ℓ where
  same : u ≡ t → Edge t u
  posts : (k : OpKind) → t.state ≡ free → u ≡ record t { state = posted; kind = k } → Edge t u
  cancels : t.state ≡ posted → u ≡ record t { state = cancelled } → Edge t u
  reaps : (t.state ≡ posted) ⊎ (t.state ≡ cancelled) → u ≡ record t { state = completed } → Edge t u
  recycles :
      t.state ≡ completed
      → u ≡ record t { state = free; generation = (t.generation + 1) % 2 ^ 32 }
      → Edge t u

module _ {ℓ} {D : Type ℓ} where
  grown_slot :
      (n : ℕ) (slots : List (OpSlot D)) (d : D) (i : ℕ) {t : OpSlot D}
      → get_elem? slots i ≡ some t
      → get_elem? (slots ++ replicate n (fresh_slot d)) i ≡ some t
  grown_slot n slots d i h =
      ground (arith, get_elem?-append slots (replicate n (fresh_slot d)) i, get_elem?-lt slots i h)

  -- Every slot of the first list is still there in the second, at most one edge on.
  abbrev pub Moves : List (OpSlot D) → List (OpSlot D) → Type ℓ
  Moves xs ys =
      (i : ℕ) (t : OpSlot D)
      → get_elem? xs i ≡ some t
      → (u : OpSlot D) × (get_elem? ys i ≡ some u) × Edge t u

  Moves-refl : (xs : List (OpSlot D)) → Moves xs xs
  Moves-refl xs i t h = (t, h, same refl)

  -- A write of one slot along an edge.
  Moves-set :
      (xs : List (OpSlot D)) (i : ℕ) (t u : OpSlot D)
      → get_elem? xs i ≡ some t
      → Edge t u
      → Moves xs (set xs i u)
  Moves-set xs i t u at edge j v h = elim (Bool-cases (i == j)) [
    | inl q ↦
        let j_is : i ≡ j = ground arith in
        let v_is : t ≡ v = ground (arith, ap (get_elem? xs) j_is) in
        (
          u,
          ground (arith, get_elem?-set xs i j u, get_elem?-lt xs i at),
          subst (λ x. Edge x u) v_is edge,
        )
    | inr q ↦ (v, ground (arith, get_elem?-set xs i j u), same refl)
  ]

  -- One call on the slab, with the address that a new chunk would get.
  pub data Step (s s' : OpSlab D) : Type ℓ where
    posted_by :
        (addr : ℕ) (k : OpKind) (id : OpId)
        → capacity s < 2 ^ 32
        → post addr s k ≡ some (id, s')
        → Step s s'
    cancelled_by : (id : OpId) → s' ≡ (mark_cancelled s id).0 → Step s s'
    completed_by : (id : OpId) → s' ≡ (complete s id).0 → Step s s'
    released_by : (id : OpId) → s' ≡ release s id → Step s s'

  cancel_slot-Moves :
      (s : OpSlab D) (id : OpId) (t : OpSlot D) (st : OpState)
      → get_elem? s.slots id.index ≡ some t
      → t.state ≡ st
      → Moves s.slots (cancel_slot s id t st).0.slots
  unfolding cancel_slot
  cancel_slot-Moves s id t posted at e = Moves-set s.slots id.index t _ at (cancels e refl)
  cancel_slot-Moves s id t free at e = Moves-refl s.slots
  cancel_slot-Moves s id t cancelled at e = Moves-refl s.slots
  cancel_slot-Moves s id t completed at e = Moves-refl s.slots

  mark_cancelled-Moves : (s : OpSlab D) (id : OpId) → Moves s.slots (mark_cancelled s id).0.slots
  unfolding mark_cancelled
  mark_cancelled-Moves s id = elim (Option-cases (get s id)) [
    | inl e ↦ rw (e, mark_cancelled) (Moves-refl s.slots)
    | inr (t, e) ↦
        rw (e, mark_cancelled) (cancel_slot-Moves s id t t.state (get_slot s id e).0 refl)
  ]

  complete_slot-Moves :
      (s : OpSlab D) (id : OpId) (t : OpSlot D) (st : OpState)
      → get_elem? s.slots id.index ≡ some t
      → t.state ≡ st
      → Moves s.slots (complete_slot s id t st).0.slots
  unfolding complete_slot
  complete_slot-Moves s id t free at e = Moves-refl s.slots
  complete_slot-Moves s id t posted at e = Moves-set s.slots id.index t _ at (reaps (inl e) refl)
  complete_slot-Moves s id t cancelled at e = Moves-set s.slots id.index t _ at (reaps (inr e) refl)
  complete_slot-Moves s id t completed at e = Moves-refl s.slots

  complete-Moves : (s : OpSlab D) (id : OpId) → Moves s.slots (complete s id).0.slots
  unfolding complete
  complete-Moves s id = elim (Option-cases (get_elem? s.slots id.index)) [
    | inl e ↦ rw (e, complete) (Moves-refl s.slots)
    | inr (t, e) ↦ elim (Bool-cases (t.generation == id.generation)) [
      | inl q ↦ rw (e, complete, q) (complete_slot-Moves s id t t.state e refl)
      | inr q ↦ rw (e, complete, q) (Moves-refl s.slots)
    ]
  ]

  release-Moves : (s : OpSlab D) (id : OpId) → Moves s.slots (release s id).slots
  unfolding release
  release-Moves s id = elim (Option-cases (get_elem? s.slots id.index)) [
    | inl e ↦ rw (e, release) (Moves-refl s.slots)
    | inr (t, e) ↦ elim (Bool-cases (t.generation == id.generation && is_completed t.state)) [
      | inl q ↦ rw (e, release, q) (Moves-set s.slots id.index t _ e (recycles (ground arith) refl))
      | inr q ↦ rw (e, release, q) (Moves-refl s.slots)
    ]
  ]

  pub grown_keeps :
      (addr : ℕ) (s : OpSlab D) (i : ℕ) {t : OpSlot D}
      → get_elem? s.slots i ≡ some t
      → get_elem? (ready_slab addr s).slots i ≡ some t
  unfolding grown
  grown_keeps addr s i h = elim (List-cases s.freelist) [
    | inl e ↦ rw (e, grown) (grown_slot chunk_size s.slots s.make_default i h)
    | inr (j, rest, e) ↦ rw (e, grown) h
  ]

  post-Moves :
      (addr : ℕ) (s : OpSlab D) (kind : OpKind) (id : OpId) (s' : OpSlab D)
      → IsConsistent s
      → capacity s < 2 ^ 32
      → post addr s kind ≡ some (id, s')
      → Moves s.slots s'.slots × IsConsistent s'
  post-Moves addr s kind id s' v room h =
      let (id', s'', p, d) = post-Posted addr s kind v room in
      let written : set (ready_slab addr s).slots id'.index
            (record d.was { state = posted; kind = kind })
          ≡ s'.slots =
        ground (arith, d.written) in
      let moved =
        Moves-set (ready_slab addr s).slots id'.index d.was _ d.at (posts kind d.was_free refl) in
      let same_slab : s'' ≡ s' = ground arith in
      (
        λ i t at.
            subst (Moves (ready_slab addr s).slots) written moved i t (grown_keeps addr s i at),
        subst IsConsistent same_slab d.consistent,
      )

  -- Every call on a consistent slab leaves it consistent, and takes each slot along one edge at most.
  pub Step-legal :
      {s s' : OpSlab D} → Step s s' → IsConsistent s → IsConsistent s' × Moves s.slots s'.slots
  Step-legal {s} {s'} (posted_by addr k id room h) v =
      let (m, w) = post-Moves addr s k id s' v room h in (w, m)
  Step-legal {s} (cancelled_by id e) v =
      rw e (mark_cancelled-IsConsistent s id v, mark_cancelled-Moves s id)
  Step-legal {s} (completed_by id e) v = rw e (complete-IsConsistent s id v, complete-Moves s id)
  Step-legal {s} (released_by id e) v = rw e (release-IsConsistent s id v, release-Moves s id)

  Edge-keeps :
      {t u : OpSlot D}
      → Edge t u
      → is_in_flight t.state ≡ true
      → (u.payload ≡ t.payload)
        × (u.kind ≡ t.kind)
        × (u.generation ≡ t.generation)
        × (is_free u.state ≡ false)
  Edge-keeps (same e) h = ground arith
  Edge-keeps (posts k p e) h = ground arith
  Edge-keeps (cancels p e) h = ground arith
  Edge-keeps (reaps p e) h = ground arith
  Edge-keeps (recycles p e) h = ground arith

  -- While the kernel may touch an operation, no call frees its slot: the id still resolves after it, to
  -- the same payload and kind.
  pub in_flight-Step :
      {s s' : OpSlab D} (id : OpId) (t : OpSlot D)
      → IsConsistent s
      → get s id ≡ some t
      → is_in_flight t.state ≡ true
      → Step s s'
      → (u : OpSlot D) × (get s' id ≡ some u) × (u.payload ≡ t.payload) × (u.kind ≡ t.kind)
  unfolding get
  in_flight-Step {s} {s'} id t v h live step =
      let (u, at, edge) = (Step-legal step v).1 id.index t (get_slot s id h).0 in
      let (p, k, g, f) = Edge-keeps edge live in (u, ground (arith, get_slot s id h), p, k)

  -- A run of `n` calls.
  pub data Run (s : OpSlab D) : ℕ → OpSlab D → Type ℓ where
    start : Run s 0 s
    more : {n : ℕ} {t u : OpSlab D} → Run s n t → Step t u → Run s (suc n) u

  pub Run-IsConsistent : {s s' : OpSlab D} {n : ℕ} → IsConsistent s → Run s n s' → IsConsistent s'
  Run-IsConsistent v start = v
  Run-IsConsistent v (more r st) = (Step-legal st (Run-IsConsistent v r)).0

  Edge-generation :
      {t u : OpSlot D}
      → Edge t u
      → (u.generation ≡ t.generation) ⊎ (u.generation ≡ (t.generation + 1) % 2 ^ 32)
  Edge-generation (same e) = ground arith
  Edge-generation (posts k p e) = ground arith
  Edge-generation (cancels p e) = ground arith
  Edge-generation (reaps p e) = ground arith
  Edge-generation (recycles p e) = ground arith

  Run-generation :
      {s s' : OpSlab D} {n : ℕ} (i : ℕ) (t : OpSlot D)
      → IsConsistent s
      → get_elem? s.slots i ≡ some t
      → t.generation < 2 ^ 32
      → Run s n s'
      → (u : OpSlot D) × (k : ℕ) × (get_elem? s'.slots i ≡ some u)
        × (k ≤ n)
        × (u.generation ≡ (t.generation + k) % 2 ^ 32)
  Run-generation i t v h g start = (t, 0, h, omega arith, omega arith)
  Run-generation i t v h g (more r st) =
      let (u, k, at, le, eq) = Run-generation i t v h g r in
      let (w, at', edge) = (Step-legal st (Run-IsConsistent v r)).1 i u at in
      elim (Edge-generation edge) [
        | inl e ↦ (w, k, at', omega arith, omega arith)
        | inr e ↦ (w, k + 1, at', omega arith, omega arith)
      ]

  release_slot :
      (s : OpSlab D) (id : OpId)
      → state s id ≡ some completed
      → (u : OpSlot D) × (get_elem? (release s id).slots id.index ≡ some u)
        × (u.generation ≡ (id.generation + 1) % 2 ^ 32)
  unfolding state release
  release_slot s id h = elim (Option-cases (get_elem? s.slots id.index)) [
    | inl e ↦ absurd (ground arith)
    | inr (t, e) ↦
        let is : t.state ≡ completed = ground arith in
        let current : t.generation ≡ id.generation = ground arith in
        let fired : (t.generation == id.generation && is_completed t.state) ≡ true = ground arith in
        rw (e, release, fired)
          (
            record t { state = free; generation = (t.generation + 1) % 2 ^ 32 },
            ground (
              arith,
              get_elem?-set s.slots id.index id.index
                  (record t { state = free; generation = (t.generation + 1) % 2 ^ 32 }),
              get_elem?-lt s.slots id.index e,
            ),
            omega arith,
          )
  ]

  other_generation :
      (s : OpSlab D) (id : OpId) (w : OpSlot D)
      → get_elem? s.slots id.index ≡ some w
      → w.generation ≢ id.generation
      → (state s id ≡ none) × (get s id ≡ none)
  unfolding state get
  other_generation s id w at ne = ground arith

  -- An id that was released from `completed` stays stale through fewer than 2^32 - 1 further calls,
  -- whatever they are: neither `state` nor `get` resolves it.
  pub release_stale :
      {s s' : OpSlab D} {n : ℕ} (id : OpId)
      → IsConsistent s
      → state s id ≡ some completed
      → id.generation < 2 ^ 32
      → Run (release s id) n s'
      → n + 1 < 2 ^ 32
      → (state s' id ≡ none) × (get s' id ≡ none)
  release_stale {s} {s'} id v h g r few =
      let (u, at, e) = release_slot s id h in
      let (w, k, at', le, e') =
        Run-generation id.index u (release-IsConsistent s id v) at (omega arith) r in
      other_generation s' id w at' (omega arith)
