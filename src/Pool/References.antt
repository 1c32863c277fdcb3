-- ===== src/Pool/References.antt =====
-- The pool of crates/core/src/buffers.rs as its callers see it: how many references each id has.
use cadeloop.Prelude.{
  ℕ, ◌+◌, ◌-◌, ◌<◌, ◌^◌, ◌≡◌, refl, sym, subst, ◌∙◌, ap, Bool, true, false, ◌&&◌, ◌||◌, Option,
  some, length, ◌==◌, if◌then◌else◌,
}
use cadeloop.Prelude.Partial.{◌>>=◌, Yields, yields, Yields-then}
use cadeloop.Pool.{
  SizeClass, s4k, s16k, s64k, SlotId, Region, ClassPool, BufferPool, new, class_of, set_class,
  is_empty, acquire, retain, release, refcount, refcount_class,
}
use cadeloop.Pool.Invariant.{IsSound, new_class-IsSound}
use cadeloop.Pool.Slots.{Rewritten, Acquired, acquire_class-Acquired}
use cadeloop.Pool.Counts.{Changed, one_more, retain_class-Changed, release_class-Released}

abbrev pub same_class : SizeClass → SizeClass → Bool
same_class s4k s4k = true
same_class s16k s16k = true
same_class s64k s64k = true
same_class _ _ = false

abbrev pub same_slot : SlotId → SlotId → Bool
same_slot a b = same_class a.class b.class && (a.index == b.index && a.generation == b.generation)

-- The calls, with what the OS answers to them.
pub data Call : Type 0 where
  acquire_slot : Region → SizeClass → Call
  retain_slot : SlotId → Call
  release_slot : Bool → Bool → SlotId → Call

pub data Event : Type 0 where
  acquired retained : SlotId → Event
  released : SlotId → Bool → Event

unfoldable pub perform : BufferPool → Call → Option (Event × BufferPool)
perform b (acquire_slot fresh c) = do (id, b') ← acquire fresh b c; some (acquired id, b')
perform b (retain_slot id) = do b' ← retain b id; some (retained id, b')
perform b (release_slot pages_out taken id) = do
  (last, b') ← release pages_out taken b id
  some (released id last, b')

-- What an event means for the references of an id.
abbrev pub effect : Event → (SlotId → ℕ) → SlotId → ℕ
effect (acquired id) refs other = if same_slot other id then 1 else refs other
effect (retained id) refs other = if same_slot other id then one_more (refs id) else refs other
effect (released id last) refs other = if same_slot other id then refs id - 1 else refs other

-- `acquire` hands out an id that has no reference, and `release` says whether it was the last.
abbrev pub Honest : Event → (SlotId → ℕ) → Type 0
Honest (acquired id) refs = refs id ≡ 0
Honest (retained id) refs = Unit
Honest (released id last) refs = last ≡ (refs id == 1)

-- There are fewer than 2^32 slots of the class, and fewer than 2^32 - 1 references to the slot.
abbrev pub Allowed : BufferPool → Call → Type 0
Allowed b (acquire_slot fresh c) = length (class_of b c).refcounts < 2 ^ 32
Allowed b (retain_slot id) = refcount b id + 1 < 2 ^ 32
Allowed b (release_slot pages_out taken id) = Unit

pub record IsValid (b : BufferPool) : Type 0 where
  pub sound : (c : SizeClass) → IsSound (class_of b c)
  pub own : (c : SizeClass) → (class_of b c).class ≡ c

three {ℓ} : (P : SizeClass → Type ℓ) → P s4k → P s16k → P s64k → (c : SizeClass) → P c
three P x y z s4k = x
three P x y z s16k = y
three P x y z s64k = z

pub new-IsValid : IsValid new
unfolding new
new-IsValid = record {
  sound =
      three (λ c. IsSound (class_of new c)) (new_class-IsSound s4k) (new_class-IsSound s16k)
        (new_class-IsSound s64k);
  own = three (λ c. (class_of new c).class ≡ c) refl refl refl;
}

-- A class put back.
set_class-IsValid :
    (b : BufferPool) (c : SizeClass) (p : ClassPool)
    → IsValid b
    → IsSound p
    → p.class ≡ (class_of b c).class
    → IsValid (set_class b c p)
set_class-IsValid b s4k p v s e = record {
  sound = three (λ d. IsSound (class_of (set_class b s4k p) d)) s (v.sound s16k) (v.sound s64k);
  own =
      three (λ d. (class_of (set_class b s4k p) d).class ≡ d) (e ∙ v.own s4k) (v.own s16k)
        (v.own s64k);
}
set_class-IsValid b s16k p v s e = record {
  sound = three (λ d. IsSound (class_of (set_class b s16k p) d)) (v.sound s4k) s (v.sound s64k);
  own =
      three (λ d. (class_of (set_class b s16k p) d).class ≡ d) (v.own s4k) (e ∙ v.own s16k)
        (v.own s64k);
}
set_class-IsValid b s64k p v s e = record {
  sound = three (λ d. IsSound (class_of (set_class b s64k p) d)) (v.sound s4k) (v.sound s16k) s;
  own =
      three (λ d. (class_of (set_class b s64k p) d).class ≡ d) (v.own s4k) (v.own s16k)
        (e ∙ v.own s64k);
}

set_class-refcount :
    (b : BufferPool) (c : SizeClass) (p : ClassPool) (i g n : ℕ)
    → Rewritten (class_of b c) p i g n
    → (d : SizeClass) (j h : ℕ)
    → refcount_class (class_of (set_class b c p) d) j h
      ≡ (if same_class d c && (j == i && h == g) then n else refcount_class (class_of b d) j h)
set_class-refcount b s4k p i g n w s4k j h = w j h
set_class-refcount b s4k p i g n w s16k j h = refl
set_class-refcount b s4k p i g n w s64k j h = refl
set_class-refcount b s16k p i g n w s4k j h = refl
set_class-refcount b s16k p i g n w s16k j h = w j h
set_class-refcount b s16k p i g n w s64k j h = refl
set_class-refcount b s64k p i g n w s4k j h = refl
set_class-refcount b s64k p i g n w s16k j h = refl
set_class-refcount b s64k p i g n w s64k j h = w j h

-- A call that does what its event says.
pub record Performed (b : BufferPool) (v : Event × BufferPool) : Type 0 where
  pub valid : IsValid v.1
  pub refines : (other : SlotId) → refcount v.1 other ≡ effect v.0 (refcount b) other
  pub honest : Honest v.0 (refcount b)

dirty-IsValid : (b : BufferPool) (d : Bool) → IsValid b → IsValid (record b { regions_dirty = d })
dirty-IsValid b d v = record {
  sound = three (λ c. IsSound (class_of b c)) (v.sound s4k) (v.sound s16k) (v.sound s64k);
  own = three (λ c. (class_of b c).class ≡ c) (v.own s4k) (v.own s16k) (v.own s64k);
}

pub dirty-class_of :
    (b : BufferPool) (d : Bool) (c : SizeClass)
    → class_of (record b { regions_dirty = d }) c ≡ class_of b c
dirty-class_of b d c =
    three (λ c. class_of (record b { regions_dirty = d }) c ≡ class_of b c) refl refl refl c

acquired-Performed :
    (b : BufferPool) (c : SizeClass) (d : Bool) (id : SlotId) (p : ClassPool)
    → IsValid b
    → Acquired (class_of b c) (id, p)
    → Performed b (acquired id, record (set_class b c p) { regions_dirty = d })
acquired-Performed b c d id p v a =
    let own = a.own_class ∙ v.own c in
    record {
      valid = dirty-IsValid (set_class b c p) d (set_class-IsValid b c p v a.sound a.same_class);
      refines = λ o.
          ap (λ q. refcount_class q o.index o.generation)
            (dirty-class_of (set_class b c p) d o.class)
          ∙ subst
              (λ k. refcount_class (class_of (set_class b c p) o.class) o.index o.generation ≡ (
                if same_class o.class k && (o.index == id.index && o.generation == id.generation)
                then 1
                else refcount b o))
              (sym own)
              (set_class-refcount b c p id.index id.generation 1 a.taken o.class o.index
                o.generation);
      honest =
          subst (λ k. refcount_class (class_of b k) id.index id.generation ≡ 0) (sym own)
            a.was_free;
    }

perform-acquire :
    (fresh : Region) (b : BufferPool) (c : SizeClass)
    → IsValid b
    → length (class_of b c).refcounts < 2 ^ 32
    → Yields (Performed b) (perform b (acquire_slot fresh c))
unfolding perform acquire
perform-acquire fresh b c v room =
    let d = is_empty (class_of b c).freelist || b.regions_dirty in
    let taken : Yields (λ r. Performed b (acquired r.0, r.1)) (acquire fresh b c) =
      Yields-then (acquire_class-Acquired fresh (class_of b c) room (v.sound c))
        (λ r a. yields (acquired-Performed b c d r.0 r.1 v a)) in
    Yields-then taken (λ r k. yields k)

Changed-Performed :
    (b : BufferPool) (id : SlotId) (n : ℕ) (p : ClassPool)
    → IsValid b
    → Changed (class_of b id.class) id n p
    → IsValid (set_class b id.class p)
      × ((o : SlotId)
          → refcount (set_class b id.class p) o ≡ (if same_slot o id then n else refcount b o))
Changed-Performed b id n p v w = (
  set_class-IsValid b id.class p v w.sound w.same_class,
  λ o.
      set_class-refcount b id.class p id.index id.generation n w.changed o.class o.index
        o.generation,
)

perform-retain :
    (b : BufferPool) (id : SlotId)
    → IsValid b
    → refcount b id + 1 < 2 ^ 32
    → Yields (Performed b) (perform b (retain_slot id))
unfolding perform retain
perform-retain b id v room =
    let kept : Yields (λ b'. Performed b (retained id, b')) (retain b id) =
      Yields-then (retain_class-Changed (class_of b id.class) id (v.sound id.class) room) (λ p w.
        let (valid, refs) = Changed-Performed b id (one_more (refcount b id)) p v w in
        yields (record { valid = valid; refines = refs; honest = tt })) in
    Yields-then kept (λ b' k. yields k)

perform-release :
    (pages_out taken : Bool) (b : BufferPool) (id : SlotId)
    → IsValid b
    → Yields (Performed b) (perform b (release_slot pages_out taken id))
unfolding perform release
perform-release pages_out taken b id v =
    let let_go : Yields (λ r. Performed b (released id r.0, r.1)) (release pages_out taken b id) =
      Yields-then
        (release_class-Released pages_out taken (class_of b id.class) id (v.sound id.class))
        (λ r w.
          let (valid, refs) = Changed-Performed b id (refcount b id - 1) r.1 v w.changed in
          yields (record { valid = valid; refines = refs; honest = w.last })) in
    Yields-then let_go (λ r k. yields k)

-- Every call on a valid pool returns: no index is out of range and no count falls below 0. The pool stays
-- valid, the references of every id change as the event says and those of no other id do, `acquire` hands
-- out an id that had none, and `release` answers whether the reference was the last. A growing class must
-- stay below 2^32 slots, and a retained slot below 2^32 references.
pub perform-refines :
    (b : BufferPool) (c : Call) → IsValid b → Allowed b c → Yields (Performed b) (perform b c)
perform-refines b (acquire_slot fresh c) v room = perform-acquire fresh b c v room
perform-refines b (retain_slot id) v room = perform-retain b id v room
perform-refines b (release_slot pages_out taken id) v room = perform-release pages_out taken b id v
