-- ===== src/Timer/Heap/Pop.antt =====
-- Removing the top entry of the heap of crates/core/src/timer.rs.
use mathlib.Core.List.{Perm}
use mathlib.Core.List.Perm
use cadeloop.Prelude.{
  ℕ, zero, suc, ◌<◌, ◌≡◌, refl, ap, some, List, [], ◌∷◌, arith, length, get_elem?, ltb,
}
use cadeloop.Prelude.Partial.{Yields, yields, Yields-if, Yields-then}
use cadeloop.Timer.{Entry, parent}
use cadeloop.Timer.Array.{swap_remove_first, last_entry, init}
use cadeloop.Timer.Order.{rank_of, IsSmall, IsHeap, Settled-refl, IsBelow-perm}
use cadeloop.Timer.Sift.{Sinking, sift_down-Settled}
use cadeloop.Timer.Heap.{pop_top}

module _ {ℓ} {T : Type ℓ} where
  -- What `pop_top` hands back: the first entry, and a heap of the others.
  pub record Popped (a : List (Entry T)) (r : Entry T × List (Entry T)) : Type ℓ where
    pub first : get_elem? a 0 ≡ some r.0
    pub same : Perm (r.0 ∷ r.1) a
    pub size : suc (length r.1) ≡ length a
    pub heap : IsHeap r.1
    pub small : IsSmall r.1

  remainder-perm : (y : Entry T) (l : List (Entry T)) → Perm (last_entry y l ∷ init y l) (y ∷ l)
  unfolding last_entry init
  remainder-perm y [] = Perm.rfl
  remainder-perm y (z ∷ l) =
      Perm.trans (Perm.swap y (last_entry z l) _) (Perm.cons y (remainder-perm z l))

  length-init : (y : Entry T) (l : List (Entry T)) → length (init y l) ≡ length l
  unfolding init
  length-init y [] = refl
  length-init y (z ∷ l) = ap suc (length-init z l)

  get_elem?-init :
      (y : Entry T) (l : List (Entry T)) (c : ℕ)
      → c < length l
      → get_elem? (init y l) c ≡ get_elem? (y ∷ l) c
  unfolding init
  get_elem?-init y [] c h = absurd (omega arith)
  get_elem?-init y (z ∷ l) zero h = refl
  get_elem?-init y (z ∷ l) (suc c) h = get_elem?-init z l c (omega arith)

  -- The entries behind the removed one, the last of them in front.
  abbrev behind : Entry T → List (Entry T) → List (Entry T)
  behind y l = last_entry y l ∷ init y l

  behind_at :
      (x y : Entry T) (l : List (Entry T)) (c : ℕ)
      → 0 < c
      → c < length (behind y l)
      → get_elem? (behind y l) c ≡ get_elem? (x ∷ y ∷ l) c
  behind_at x y l zero h k = absurd (omega arith)
  behind_at x y l (suc c) h k = get_elem?-init y l c (omega (arith, length-init y l))

  behind-IsSmall : (x y : Entry T) (l : List (Entry T)) → IsSmall (x ∷ y ∷ l) → IsSmall (behind y l)
  behind-IsSmall x y l small = IsBelow-perm (remainder-perm y l) (λ i. small (suc i))

  behind-Sinking :
      (x y : Entry T) (l : List (Entry T))
      → IsHeap (x ∷ y ∷ l)
      → IsSmall (x ∷ y ∷ l)
      → Sinking 0 (behind y l) 0
  behind-Sinking x y l heap small =
      let at = behind_at x y l in
      let size = length-init y l in
      record {
        inside = omega arith;
        small = behind-IsSmall x y l small;
        edges = λ c p q r t. ground (
          arith,
          size,
          heap c,
          ap rank_of (at c p q),
          ap rank_of (at (parent c) (omega arith) (omega arith)),
        );
        spanned = λ c p q r t u. absurd (omega arith);
      }

  -- With an entry in a heap, `pop_top` returns the first one and restores the heap behind it.
  pub pop_top-Popped :
      (a : List (Entry T)) → IsHeap a → IsSmall a → 0 < length a → Yields (Popped a) (pop_top a)
  unfolding pop_top swap_remove_first
  pop_top-Popped [] heap small pos = absurd (omega arith)
  pop_top-Popped (x ∷ []) heap small pos = yields (record {
    first = refl;
    same = Perm.rfl;
    size = refl;
    heap = λ c p q r. absurd (omega arith);
    small = λ i e q. cc;
  })
  pop_top-Popped (x ∷ y ∷ l) heap small pos =
      let same = remainder-perm y l in
      Yields-then
        (Yields-if (ltb 1 (length (behind y l)))
          (λ many. sift_down-Settled 0 (behind y l) 0 (behind-Sinking x y l heap small))
          (λ few.
            yields
              (Settled-refl 0 _ (λ c p q r. absurd (ground arith)) (behind-IsSmall x y l small))))
        (λ b s. yields (record {
          first = refl;
          same = Perm.cons x (Perm.trans s.same same);
          size = omega (arith, s.size, length-init y l);
          heap = s.ordered;
          small = s.small;
        }))
