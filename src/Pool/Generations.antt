-- ===== src/Pool/Generations.antt =====
-- The generations of the slots of crates/core/src/buffers.rs: how they move through the calls.
use cadeloop.Prelude.{
  ℕ, ◌+◌, ◌%◌, ◌^◌, ◌≡◌, refl, sym, ◌∙◌, ap, subst, Bool, true, false, Option, none, some, List, [],
  ◌∷◌, arith, get_elem?, set, replicate, get_elem?-set_lt, get_elem?-append, get_elem?-lt, ◌==◌,
  if◌then◌else◌, Bool-cases, inl, inr,
}
use cadeloop.Prelude.Partial.{◌>>=◌}
use cadeloop.Pool.{
  SlotId, Region, ClassPool, add_slots, refilled, is_empty, acquire_from, acquire_class, live,
  retain_class, goes_back, freed, one_less, release_live, release_class, slots_per_region,
}
use cadeloop.Pool.Slots.{live_at-parts}

-- What holds of the value of a call, if it returns one.
pub data IfSome {ℓ} {A : Type ℓ} (P : A → Type 0) : Option A → Type ℓ where
  panics : IfSome P none
  value : {a : A} → P a → IfSome P (some a)

module _ {ℓ} {A : Type ℓ} {P : A → Type 0} where
  pub IfSome-value : {o : Option A} {a : A} → IfSome P o → o ≡ some a → P a
  IfSome-value panics h = cc
  IfSome-value {a = a} (value {a = b} p) h = let e : b ≡ a = cc in subst P e p

  pub if_some :
      {x y : Option A} (b : Bool)
      → (b ≡ true → IfSome P x)
      → (b ≡ false → IfSome P y)
      → IfSome P (if b then x else y)
  if_some true p q = p refl
  if_some false p q = q refl

  pub then_some {κ} :
      {B : Type κ} (o : Option B) {f : B → Option A}
      → ((b : B) → o ≡ some b → IfSome P (f b))
      → IfSome P (o >>= f)
  then_some none k = panics
  then_some (some b) k = k b refl

-- A generation stays, or goes up by one and wraps around.
pub data Moves (x : ℕ) (o : Option ℕ) : Type 0 where
  stays : o ≡ some x → Moves x o
  goes_up : o ≡ some ((x + 1) % 2 ^ 32) → Moves x o

abbrev pub Moved : ClassPool → ClassPool → Type 0
Moved p p' = (i x : ℕ) → get_elem? p.generations i ≡ some x → Moves x (get_elem? p'.generations i)

refilled-generation :
    (fresh : Region) (p : ClassPool) (i x : ℕ)
    → get_elem? p.generations i ≡ some x
    → get_elem? (refilled fresh p).generations i ≡ some x
unfolding add_slots
refilled-generation fresh p i x h = elim (Bool-cases (is_empty p.freelist)) [
  | inl e ↦
      let n = slots_per_region p.class in
      rw e (
        ground
          (arith, get_elem?-append p.generations (replicate n 0) i, get_elem?-lt p.generations i h))
  | inr e ↦ rw e h
]

acquire_from-generations :
    (p : ClassPool) (l : List ℕ) → IfSome (λ v. v.1.generations ≡ p.generations) (acquire_from p l)
unfolding acquire_from
acquire_from-generations p [] = panics
acquire_from-generations p (index ∷ rest) = then_some (get_elem? p.paged_out index) (λ paged e.
    then_some (if paged then some p.resident_free else one_less p.resident_free) (λ resident e.
      then_some (get_elem? p.refcounts index)
        (λ count e. then_some (get_elem? p.generations index) (λ generation e. value refl))))

pub acquire_class-Moved :
    (fresh : Region) (p : ClassPool) → IfSome (λ v. Moved p v.1) (acquire_class fresh p)
unfolding acquire_class
acquire_class-Moved fresh p =
    let p' = refilled fresh p in
    weaken (acquire_from p' p'.freelist) (acquire_from-generations p' p'.freelist)
  where
    weaken :
        (o : Option (SlotId × ClassPool))
        → IfSome (λ v. v.1.generations ≡ (refilled fresh p).generations) o
        → IfSome (λ v. Moved p v.1) o
    weaken none panics = panics
    weaken (some v) (value h) =
        value (λ i x e. stays (ap (λ l. get_elem? l i) h ∙ refilled-generation fresh p i x e))

pub retain_class-Moved : (p : ClassPool) (id : SlotId) → IfSome (Moved p) (retain_class p id)
unfolding retain_class
retain_class-Moved p id =
    if_some (live p id)
      (λ l. then_some (get_elem? p.refcounts id.index) (λ count e. value (λ i x h. stays h)))
      (λ l. value (λ i x h. stays h))

freed-generations :
    (p : ClassPool) (id : SlotId) (generation in_use : ℕ) (back : Bool)
    → (freed p id generation in_use back).generations
      ≡ set p.generations id.index ((generation + 1) % 2 ^ 32)
unfolding freed
freed-generations p id generation in_use true = refl
freed-generations p id generation in_use false = refl

-- A release moves the generations, and a last one moves that of the id on.
abbrev pub Bumps : ClassPool → SlotId → Bool × ClassPool → Type 0
Bumps p id (last, p') =
    Moved p p'
    × (last ≡ true → get_elem? p'.generations id.index ≡ some ((id.generation + 1) % 2 ^ 32))

set-Moved :
    (p : ClassPool) (id : SlotId) (l : List ℕ)
    → get_elem? p.generations id.index ≡ some id.generation
    → l ≡ set p.generations id.index ((id.generation + 1) % 2 ^ 32)
    → ((i x : ℕ) → get_elem? p.generations i ≡ some x → Moves x (get_elem? l i))
      × (get_elem? l id.index ≡ some ((id.generation + 1) % 2 ^ 32))
set-Moved p id l h e =
    let n = get_elem?-lt p.generations id.index h in
    let at = get_elem?-set_lt p.generations id.index id.index ((id.generation + 1) % 2 ^ 32) n in
    let own : get_elem? l id.index ≡ some ((id.generation + 1) % 2 ^ 32) =
      ap (λ k. get_elem? k id.index) e ∙ ground (arith, at) in
    (
      λ i x k. elim (Bool-cases (id.index == i)) [
        | inl q ↦
            let same : id.index ≡ i = ground arith in
            let g : x ≡ id.generation =
              some-x (sym k ∙ ap (get_elem? p.generations) (sym same) ∙ h) in
            goes_up (ap (get_elem? l) (sym same) ∙ own ∙ ap (λ y. some ((y + 1) % 2 ^ 32)) (sym g))
        | inr q ↦ stays (
            ap (λ k. get_elem? k i) e
            ∙ get_elem?-set_lt p.generations id.index i ((id.generation + 1) % 2 ^ 32) n
            ∙ rw q k)
      ],
      own,
    )
  where
    some-x : {a b : ℕ} → some a ≡ some b → a ≡ b
    some-x h = cc

release_live-Bumps :
    (pages_out taken : Bool) (p : ClassPool) (id : SlotId)
    → get_elem? p.generations id.index ≡ some id.generation
    → IfSome (Bumps p id) (release_live pages_out taken p id)
unfolding release_live
release_live-Bumps pages_out taken p id h = then_some (get_elem? p.refcounts id.index) (λ count e.
    then_some (one_less count) (λ less e.
      then_some (get_elem? p.generations id.index) (λ generation e.
        let current : id.generation ≡ generation = same (sym h ∙ e) in
        if_some (less == 0)
          (λ z. then_some (one_less p.in_use) (λ in_use e.
            then_some (goes_back pages_out taken p id.index) (λ back e.
              let (moved, own) = set-Moved p id (freed p id generation in_use back).generations h (
                freed-generations p id generation in_use back
                ∙ ap (λ g. set p.generations id.index ((g + 1) % 2 ^ 32)) (sym current)) in
              value (moved, λ t. own))))
          (λ z. value (λ i x k. stays k, λ t. cc)))))
  where
    same : {a b : ℕ} → some a ≡ some b → a ≡ b
    same h = cc

pub release_class-Bumps :
    (pages_out taken : Bool) (p : ClassPool) (id : SlotId)
    → IfSome (Bumps p id) (release_class pages_out taken p id)
unfolding release_class
release_class-Bumps pages_out taken p id =
    if_some (live p id)
      (λ l.
        let (r, counted, current) =
          live_at-parts (get_elem? p.refcounts id.index) (get_elem? p.generations id.index)
            id.generation l in
        release_live-Bumps pages_out taken p id current)
      (λ l. value (λ i x k. stays k, λ t. cc))
