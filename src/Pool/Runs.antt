-- ===== src/Pool/Runs.antt =====
-- Runs of calls on the pool of crates/core/src/buffers.rs, and the memory that it accounts for.
use cadeloop.Prelude.{
  ℕ, ◌+◌, ◌^◌, ◌<◌, ◌≡◌, refl, ◌∙◌, ap, subst, fun_ext, Bool, true, false, some, List, [], ◌∷◌,
  arith, length, Bool-cases, inl, inr,
}
use cadeloop.Prelude.Partial.{Yields-some}
use cadeloop.Pool.{SlotId, BufferPool, new, refcount}
use cadeloop.Pool.References.{
  Call, Event, acquired, retained, released, perform, effect, Allowed, IsValid, new-IsValid,
  Performed, perform-refines, same_slot,
}
use cadeloop.Pool.SlotIds.{same_slot_refl, slot_equal}
use cadeloop.Pool.Generations.{IfSome-value}
use cadeloop.Pool.Turns.{Turned, perform-Turned, IsPast, IsPast-dead, IsPast-call}

-- What happened to a pool, one call after the other.
pub data Run : BufferPool → List Event → BufferPool → Type 0 where
  done : {b : BufferPool} → Run b [] b
  then_call :
      {b b' b'' : BufferPool} (c : Call) {e : Event} {l : List Event}
      → Allowed b c
      → perform b c ≡ some (e, b')
      → Run b' l b''
      → Run b (e ∷ l) b''

abbrev pub named : Event → SlotId
named (acquired id) = id
named (retained id) = id
named (released id last) = id

abbrev pub effects : List Event → (SlotId → ℕ) → SlotId → ℕ
effects [] refs = refs
effects (e ∷ l) refs = effects l (effect e refs)

-- The references of every id after a run from a valid pool are those that the events say, one after the other;
-- the pool stays valid.
pub Run-refines :
    {b b' : BufferPool} {l : List Event}
    → Run b l b'
    → IsValid b
    → IsValid b' × ((id : SlotId) → refcount b' id ≡ effects l (refcount b) id)
Run-refines done v = (v, λ id. refl)
Run-refines (then_call {b} {b'} {b''} c {e} {l} room h r) v =
    let p = Yields-some (perform-refines b c v room) h in
    let (v', refs) = Run-refines r p.valid in
    (v', λ id. refs id ∙ ap (λ f. effects l f id) (fun_ext p.refines))

-- No event retains or releases the id.
abbrev pub Untouched : SlotId → List Event → Type 0
Untouched id [] = Unit
Untouched id (acquired _ ∷ l) = Untouched id l
Untouched id (retained other ∷ l) = (same_slot id other ≡ false) × Untouched id l
Untouched id (released other last ∷ l) = (same_slot id other ≡ false) × Untouched id l

-- No event hands the id out.
abbrev pub NotHandedOut : SlotId → List Event → Type 0
NotHandedOut id [] = Unit
NotHandedOut id (acquired other ∷ l) = (same_slot id other ≡ false) × NotHandedOut id l
NotHandedOut id (retained _ ∷ l) = NotHandedOut id l
NotHandedOut id (released _ _ ∷ l) = NotHandedOut id l

-- The id of a slot that is in use is not handed out.
handed-other :
    (b : BufferPool) (id other : SlotId)
    → refcount b id ≡ 1
    → refcount b other ≡ 0
    → same_slot id other ≡ false
handed-other b id other one free = elim (Bool-cases (same_slot id other)) [
  | inl e ↦ let q = ap (refcount b) (slot_equal id other e) in absurd (omega arith)
  | inr e ↦ e
]

-- A reference stays where no event retains or releases its id, and no event hands that out.
held_on :
    {b b' : BufferPool} {l : List Event} (id : SlotId)
    → Run b l b'
    → IsValid b
    → refcount b id ≡ 1
    → Untouched id l
    → (refcount b' id ≡ 1) × NotHandedOut id l
held_on id done v one u = (one, tt)
held_on id (then_call {b} {b'} {b''} c {e = acquired other} {l} room h r) v one u =
    let p = Yields-some (perform-refines b c v room) h in
    let apart = handed-other b id other one p.honest in
    let (kept, rest) = held_on id r p.valid (p.refines id ∙ rw apart one) u in (kept, (apart, rest))
held_on id (then_call {b} {b'} {b''} c {e = retained other} {l} room h r) v one u =
    let p = Yields-some (perform-refines b c v room) h in
    held_on id r p.valid (p.refines id ∙ rw (u.0) one) u.1
held_on id (then_call {b} {b'} {b''} c {e = released other last} {l} room h r) v one u =
    let p = Yields-some (perform-refines b c v room) h in
    held_on id r p.valid (p.refines id ∙ rw (u.0) one) u.1

-- An event that leaves an id without a reference did not hand it out.
left_none :
    (b b' : BufferPool) (id : SlotId) (e : Event) (l : List Event)
    → ((other : SlotId) → refcount b' other ≡ effect e (refcount b) other)
    → refcount b' id ≡ 0
    → NotHandedOut id l
    → NotHandedOut id (e ∷ l)
left_none b b' id (acquired other) l refs dead rest = (
  elim (Bool-cases (same_slot id other)) [
    | inl s ↦ let one : refcount b' id ≡ 1 = refs id ∙ rw s refl in absurd (omega arith)
    | inr s ↦ s
  ],
  rest,
)
left_none b b' id (retained other) l refs dead rest = rest
left_none b b' id (released other last) l refs dead rest = rest

-- A stale id has no reference, and is not handed out, as long as the generation has not come round.
stays_dead :
    {b b' : BufferPool} {l : List Event} (id : SlotId) (k : ℕ)
    → Run b l b'
    → IsValid b
    → IsPast b id k
    → k + length l + 1 < 2 ^ 32
    → (refcount b' id ≡ 0) × NotHandedOut id l
stays_dead id k (done {b}) v h n = (IsPast-dead b id k h (omega arith), tt)
stays_dead id k (then_call {b} {b'} {b''} c {e} {l} room eq r) v h n =
    let p = Yields-some (perform-refines b c v room) eq in
    let (k', le, past) = IsPast-call b (e, b') id k (IfSome-value (perform-Turned b c) eq) h in
    let (dead, rest) = stays_dead id k' r p.valid past (omega arith) in
    (dead, left_none b b' id e l p.refines (IsPast-dead b' id k' past (omega arith)) rest)

Run-first :
    {b b'' : BufferPool} {e : Event} {l : List Event}
    → Run b (e ∷ l) b''
    → IsValid b
    → (b' : BufferPool) × Performed b (e, b') × Turned b (e, b') × Run b' l b''
Run-first (then_call {b} {b'} c room h r) v =
    (b', Yields-some (perform-refines b c v room) h, IfSome-value (perform-Turned b c) h, r)

Run-nothing : {b b' : BufferPool} {l : List Event} → Run b l b' → l ≡ [] → b ≡ b'
Run-nothing done h = refl
Run-nothing (then_call c room h r) e = cc

-- A pool is valid from the start, so every run from there is.
pub Run-IsValid : {b : BufferPool} {l : List Event} → Run new l b → IsValid b
Run-IsValid r = (Run-refines r new-IsValid).0

-- An id that `acquire` handed out keeps its one reference, and is not handed out again, through any run of calls
-- that neither retain nor release it, those on stale ids of the same slot included. The `release` of it that
-- comes next answers true, and from there the id has no reference, and is not handed out, through any fewer than
-- 2^32 - 1 calls, those on that id included.
pub Run-owner :
    (b b' b'' end : BufferPool) (id : SlotId) (l m : List Event) (last : Bool)
    → IsValid b
    → Run b (acquired id ∷ l) b'
    → Untouched id l
    → Run b' (released id last ∷ []) b''
    → Run b'' m end
    → length m + 1 < 2 ^ 32
    → ((refcount b' id ≡ 1) × NotHandedOut id l)
      × (last ≡ true)
      × ((refcount end id ≡ 0) × NotHandedOut id m)
Run-owner b b' b'' end id l m last v r u s t n =
    let (b1, p, _, r') = Run-first r v in
    let (kept, apart) = held_on id r' p.valid (p.refines id ∙ rw (same_slot_refl id) refl) u in
    let v' = (Run-refines r v).0 in
    let (b2, q, turned, z) = Run-first s v' in
    let is_last : last ≡ true = q.honest ∙ rw kept refl in
    let past : IsPast b2 id 0 = turned.bumped id (ap (released id) is_last) in
    (
      (kept, apart),
      is_last,
      stays_dead id 0 t (Run-refines s v').0 (subst (λ x. IsPast x id 0) (Run-nothing z refl) past)
          (omega arith),
    )
