-- ===== src/OpSlab/Calls.antt =====
-- What the calls of crates/core/src/opslab.rs answer: fresh ids, and the cancellation protocol.
use cadeloop.Prelude.{
  ℕ, ◌<◌, ◌^◌, ◌≡◌, refl, ap, true, false, some, arith, ◌≢◌, get_elem?, set, get_elem?-set,
  get_elem?-lt, ◌-◌,
}
use cadeloop.OpSlab.{
  posted, cancelled, completed, OpKind, OpId, OpSlot, OpSlab, capacity, post, get, state,
  mark_cancelled, complete, is_free,
}
use cadeloop.OpSlab.Invariant.{IsConsistent, ready_slab, post-Posted, Posted, get_slot}
use cadeloop.OpSlab.Lifecycle.{grown_keeps}

module _ {ℓ} {D : Type ℓ} where
  Posted-fresh :
      (r s' : OpSlab D) (k : OpKind) (id other : OpId) (t : OpSlot D)
      → Posted r k id s'
      → get_elem? r.slots other.index ≡ some t
      → t.generation ≡ other.generation
      → is_free t.state ≡ false
      → (other.index ≢ id.index) × (get s' other ≡ some t)
  unfolding get
  Posted-fresh r s' k id other t p at g live =
      let differs : other.index ≢ id.index =
        λ e. ground (arith, ap (get_elem? r.slots) e, p.at, p.was_free) in
      (
        differs,
        ground (
          arith,
          p.written,
          get_elem?-set r.slots id.index other.index (record p.was { state = posted; kind = k }),
        ),
      )

  -- `post` on a consistent slab with room for its indices in a `u32` hands out an operation that is
  -- posted with the given kind; every operation that was live keeps its slot, which is another one.
  pub post-fresh :
      (addr : ℕ) (s : OpSlab D) (k : OpKind)
      → IsConsistent s
      → capacity s < 2 ^ 32
      → (id : OpId) × (s' : OpSlab D) × (post addr s k ≡ some (id, s'))
        × (state s' id ≡ some posted)
        × ((t : OpSlot D) → get s' id ≡ some t → t.kind ≡ k)
        × ((other : OpId) (t : OpSlot D)
            → get s other ≡ some t
            → (other.index ≢ id.index) × (get s' other ≡ some t))
  unfolding state get
  post-fresh addr s k v room =
      let (id, s', e, p) = post-Posted addr s k v room in
      (
        id,
        s',
        e,
        ground (
          arith,
          p.written,
          p.current,
          get_elem?-lt (ready_slab addr s).slots id.index p.at,
          get_elem?-set (ready_slab addr s).slots id.index id.index
              (record p.was { state = posted; kind = k }),
        ),
        λ t live. ground (
          arith,
          live,
          p.written,
          p.current,
          get_elem?-lt (ready_slab addr s).slots id.index p.at,
          get_elem?-set (ready_slab addr s).slots id.index id.index
              (record p.was { state = posted; kind = k }),
        ),
        λ other t live.
            let (at, g, f) = get_slot s other live in
            Posted-fresh (ready_slab addr s) s' k id other t p (grown_keeps addr s other.index at) g
              f,
      )

  -- A slot that stands at an id and is current.
  module _ (s : OpSlab D) (id : OpId) (t : OpSlot D) (at : get_elem? s.slots id.index ≡ some t)
      (current : t.generation ≡ id.generation) where
    state_at : state s id ≡ some t.state
    unfolding state
    state_at = ground arith

    cancel_at_posted :
        t.state ≡ posted
        → mark_cancelled s id
          ≡ (record s { slots = set s.slots id.index (record t { state = cancelled }) }, true)
    unfolding mark_cancelled
    cancel_at_posted e = ground arith

    cancel_at_cancelled : t.state ≡ cancelled → mark_cancelled s id ≡ (s, false)
    unfolding mark_cancelled
    cancel_at_cancelled e = ground arith

    abbrev reaped : OpSlab D
    reaped = record s {
      slots = set s.slots id.index (record t { state = completed });
      in_flight = s.in_flight - 1;
    }

    complete_at_posted : t.state ≡ posted → complete s id ≡ (reaped, some (t.kind, false))
    unfolding complete
    complete_at_posted e = ground arith

    complete_at_cancelled : t.state ≡ cancelled → complete s id ≡ (reaped, some (t.kind, true))
    unfolding complete
    complete_at_cancelled e = ground arith

    at_set : (u : OpSlot D) → get_elem? (set s.slots id.index u) id.index ≡ some u
    at_set u =
        ground (arith, get_elem?-set s.slots id.index id.index u, get_elem?-lt s.slots id.index at)

  -- The cancellation protocol for an operation that is posted: the first `mark_cancelled` asks for
  -- CancelIoEx and keeps the slot, a second asks for nothing and changes nothing, and the completion
  -- then reports the kind and that it was cancelled; without a cancellation it reports the kind and
  -- that it was not. Either completion leaves the operation completed.
  pub cancel_protocol :
      (s : OpSlab D) (id : OpId) (t : OpSlot D)
      → get s id ≡ some t
      → t.state ≡ posted
      → let c = (mark_cancelled s id).0 in
        ((mark_cancelled s id).1 ≡ true)
        × (state c id ≡ some cancelled)
        × (mark_cancelled c id ≡ (c, false))
        × ((complete c id).1 ≡ some (t.kind, true))
        × (state (complete c id).0 id ≡ some completed)
        × ((complete s id).1 ≡ some (t.kind, false))
        × (state (complete s id).0 id ≡ some completed)
  cancel_protocol s id t h p =
      let (at, g, f) = get_slot s id h in
      let u = record t { state = cancelled } in
      let c = record s { slots = set s.slots id.index u } in
      let at' = at_set s id t at g u in
      rw
        (
          cancel_at_posted s id t at g p,
          complete_at_posted s id t at g p,
          complete_at_cancelled c id u at' g refl,
        )
        (
          refl,
          state_at c id u at' g,
          cancel_at_cancelled c id u at' g refl,
          refl,
          state_at (reaped c id u at' g) id (record u { state = completed }) (at_set c id u at' g _)
              g,
          refl,
          state_at (reaped s id t at g) id (record t { state = completed }) (at_set s id t at g _)
              g,
        )
