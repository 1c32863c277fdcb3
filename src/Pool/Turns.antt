-- ===== src/Pool/Turns.antt =====
-- The calls on the pool of crates/core/src/buffers.rs and the generations of its ids.
use cadeloop.Prelude.{
  ℕ, ◌+◌, ◌%◌, ◌<◌, ◌≤◌, ◌^◌, ◌≡◌, refl, sym, ◌∙◌, ap, subst, Bool, true, false, ◌||◌, Option, none,
  some, arith, get_elem?, ◌==◌,
}
use cadeloop.Pool.{
  count_at, refcount, SizeClass, s4k, s16k, s64k, SlotId, ClassPool, is_empty, acquire_class,
  retain_class, release_class, BufferPool, class_of, set_class, acquire, retain, release,
}
use cadeloop.Pool.References.{
  Call, acquire_slot, retain_slot, release_slot, Event, acquired, retained, released, perform,
  dirty-class_of,
}
use cadeloop.Pool.Generations.{
  IfSome, value, IfSome-value, then_some, Moves, stays, goes_up, Moved, acquire_class-Moved,
  retain_class-Moved, release_class-Bumps,
}

-- The same for the class of every id.
abbrev pub generation_at : BufferPool → SlotId → Option ℕ
generation_at b id = get_elem? (class_of b id.class).generations id.index

abbrev pub PoolMoved : BufferPool → BufferPool → Type 0
PoolMoved b b' = (id : SlotId) (x : ℕ) → generation_at b id ≡ some x → Moves x (generation_at b' id)

set_class-Moved :
    (b : BufferPool) (c : SizeClass) (p : ClassPool) (d : SizeClass)
    → Moved (class_of b c) p
    → Moved (class_of b d) (class_of (set_class b c p) d)
set_class-Moved b s4k p s4k m = m
set_class-Moved b s4k p s16k m = λ i x h. stays h
set_class-Moved b s4k p s64k m = λ i x h. stays h
set_class-Moved b s16k p s4k m = λ i x h. stays h
set_class-Moved b s16k p s16k m = m
set_class-Moved b s16k p s64k m = λ i x h. stays h
set_class-Moved b s64k p s4k m = λ i x h. stays h
set_class-Moved b s64k p s16k m = λ i x h. stays h
set_class-Moved b s64k p s64k m = m

dirty-Moved :
    (b b' : BufferPool) (dirty : Bool)
    → PoolMoved b b'
    → PoolMoved b (record b' { regions_dirty = dirty })
dirty-Moved b b' dirty m id x h =
    subst (Moves x)
      (ap (λ p. get_elem? p.generations id.index) (sym (dirty-class_of b' dirty id.class)))
      (m id x h)

-- Through any call a slot's generation stays or goes up by one; the last release of an id moves its own.
pub record Turned (b : BufferPool) (v : Event × BufferPool) : Type 0 where
  pub moved : PoolMoved b v.1
  pub bumped :
      (id : SlotId)
      → v.0 ≡ released id true
      → generation_at v.1 id ≡ some ((id.generation + 1) % 2 ^ 32)

not_released : {x y : SlotId} → acquired x ≡ released y true → ⊥
not_released h = cc

not_let_go : {x y : SlotId} → retained x ≡ released y true → ⊥
not_let_go h = cc

class_of-set_class :
    (b : BufferPool) (c : SizeClass) (p : ClassPool) → class_of (set_class b c p) c ≡ p
class_of-set_class b s4k p = refl
class_of-set_class b s16k p = refl
class_of-set_class b s64k p = refl

same_release : {x y : SlotId} {a : Bool} → released x a ≡ released y true → (x ≡ y) × (a ≡ true)
same_release h = (cc, cc)

pub perform-Turned : (b : BufferPool) (c : Call) → IfSome (Turned b) (perform b c)
unfolding perform acquire retain release
perform-Turned b (acquire_slot fresh c) = then_some (acquire fresh b c) (λ v e. value (record {
  moved =
      IfSome-value {P = λ w. PoolMoved b w.1}
        (then_some (acquire_class fresh (class_of b c)) (λ w k.
          let m = IfSome-value (acquire_class-Moved fresh (class_of b c)) k in
          value (
            dirty-Moved b (set_class b c w.1) (is_empty (class_of b c).freelist || b.regions_dirty)
              (λ id. set_class-Moved b c w.1 id.class m id.index))))
        e;
  bumped = λ id k. absurd (not_released k);
}))
perform-Turned b (retain_slot id) = then_some (retain b id) (λ b' e. value (record {
  moved =
      IfSome-value {P = PoolMoved b}
        (then_some (retain_class (class_of b id.class) id) (λ p k.
          let m = IfSome-value (retain_class-Moved (class_of b id.class) id) k in
          value (λ o. set_class-Moved b id.class p o.class m o.index)))
        e;
  bumped = λ o k. absurd (not_let_go k);
}))
perform-Turned b (release_slot pages_out taken id) =
    then_some (release pages_out taken b id) (λ v e.
      let (moved, own) =
        IfSome-value {P = Let_go}
          (then_some (release_class pages_out taken (class_of b id.class) id) (λ w k.
            let (m, n) =
              IfSome-value (release_class-Bumps pages_out taken (class_of b id.class) id) k in
            value (
              λ o. set_class-Moved b id.class w.1 o.class m o.index,
              λ t.
                  ap (λ p. get_elem? p.generations id.index) (class_of-set_class b id.class w.1)
                  ∙ n t,
            )))
          e in
      value (record {
        moved = moved;
        bumped = λ o k.
            let (i, t) = same_release k in
            subst (λ y. generation_at v.1 y ≡ some ((y.generation + 1) % 2 ^ 32)) i (own t);
      }))
  where
    Let_go : Bool × BufferPool → Type 0
    Let_go v =
        PoolMoved b v.1 × (v.0 ≡ true → generation_at v.1 id ≡ some ((id.generation + 1) % 2 ^ 32))

-- The slot of the id is `k + 1` generations on.
abbrev pub IsPast : BufferPool → SlotId → ℕ → Type 0
IsPast b id k = generation_at b id ≡ some ((id.generation + (k + 1)) % 2 ^ 32)

other_generation : (g k : ℕ) → k + 1 < 2 ^ 32 → (((g + (k + 1)) % 2 ^ 32) == g) ≡ false
other_generation g k h = ground arith

count_at-other : (o : Option ℕ) (x g : ℕ) → (x == g) ≡ false → count_at o (some x) g ≡ 0
count_at-other none x g h = refl
count_at-other (some r) x g h = ground arith

pub IsPast-dead :
    (b : BufferPool) (id : SlotId) (k : ℕ) → IsPast b id k → k + 1 < 2 ^ 32 → refcount b id ≡ 0
IsPast-dead b id k h n =
    let p = class_of b id.class in
    ap (λ o. count_at (get_elem? p.refcounts id.index) o id.generation) h
    ∙ count_at-other (get_elem? p.refcounts id.index) _ id.generation
        (other_generation id.generation k n)

next_generation : (g k : ℕ) → ((g + (k + 1)) % 2 ^ 32 + 1) % 2 ^ 32 ≡ (g + (k + 1 + 1)) % 2 ^ 32
next_generation g k = omega arith

-- A call takes the slot one generation on at most.
pub IsPast-call :
    (b : BufferPool) (v : Event × BufferPool) (id : SlotId) (k : ℕ)
    → Turned b v
    → IsPast b id k
    → (k' : ℕ) × (k' ≤ k + 1) × IsPast v.1 id k'
IsPast-call b v id k t h = moves (t.moved id _ h)
  where
    moves :
        Moves ((id.generation + (k + 1)) % 2 ^ 32) (generation_at v.1 id)
        → (k' : ℕ) × (k' ≤ k + 1) × IsPast v.1 id k'
    moves (stays e) = (k, omega arith, e)
    moves (goes_up e) = (k + 1, omega arith, e ∙ ap some (next_generation id.generation k))
