-- ===== src/Timer/Order.antt =====
-- The heap order of crates/core/src/timer.rs, on one number per entry: for sequence numbers below 2^64
-- the lexicographic order of (deadline, sequence number) is the order of deadline * 2^64 + sequence number.
use native.Mathlib.Bridge.{le_prop}
use mathlib.Core.Option.{some-injective}
use mathlib.Core.List.{Perm, Mem, mem-cons_self, mem-cons_of_mem, not-mem-nil, forall_mem-cons}
use mathlib.Core.List.Perm
use cadeloop.Prelude.{
  ℕ, zero, suc, ◌+◌, ◌*◌, ◌^◌, ◌≤◌, ◌<◌, ◌≡◌, refl, ap, ◌∙◌, Option, none, some, List, [], ◌∷◌,
  arith, length, get_elem?, ◌==◌, ltb, if◌then◌else◌, get_elem?-lt,
}
use cadeloop.Timer.{Entry, parent, key_lt, less}
use cadeloop.Timer.Array.{Swapped, get_elem?-some}

abbrev pub seq_bound : ℕ
seq_bound = 2 ^ 64

module _ {ℓ} {T : Type ℓ} where
  abbrev pub rank : Entry T → ℕ
  rank e = e.deadline * seq_bound + e.seq

  unfoldable pub rank_of : Option (Entry T) → ℕ
  rank_of none = 0
  rank_of (some e) = rank e

  abbrev pub rank_at : List (Entry T) → ℕ → ℕ
  rank_at a i = rank_of (get_elem? a i)

  pub rank_at-some :
      (a : List (Entry T)) (i : ℕ) {e : Entry T} → get_elem? a i ≡ some e → rank_at a i ≡ rank e
  unfolding rank_of
  rank_at-some a i h = ap rank_of h

  -- Every sequence number of the list is below `n`.
  abbrev pub IsBelow : ℕ → List (Entry T) → Type ℓ
  IsBelow n a = (i : ℕ) (e : Entry T) → get_elem? a i ≡ some e → e.seq < n

  -- The sequence numbers are `u64` values.
  abbrev pub IsSmall : List (Entry T) → Type ℓ
  IsSmall = IsBelow seq_bound

  pub mem_of_get : (a : List (Entry T)) (i : ℕ) {e : Entry T} → get_elem? a i ≡ some e → Mem e a
  mem_of_get [] i h = cc
  mem_of_get (x ∷ a) zero h = rw (some-injective _ _ h) mem-cons_self
  mem_of_get (x ∷ a) (suc i) h = mem-cons_of_mem x (mem_of_get a i h)

  pub IsBelow-mem : (n : ℕ) (a : List (Entry T)) → IsBelow n a → (e : Entry T) → Mem e a → e.seq < n
  IsBelow-mem n [] h = λ e m. absurd (not-mem-nil m)
  IsBelow-mem n (x ∷ a) h =
      (forall_mem-cons λ e. le_prop).1 (h 0 x refl, IsBelow-mem n a (λ i. h (suc i)))

  pub IsBelow-perm : {n : ℕ} {a b : List (Entry T)} → Perm b a → IsBelow n a → IsBelow n b
  IsBelow-perm {n} {a} {b} p h i e q = IsBelow-mem n a h e ((Perm.mem_iff p).0 (mem_of_get b i q))

  key_lt-rank :
      (x y : Entry T) → x.seq < seq_bound → y.seq < seq_bound → key_lt x y ≡ ltb (rank x) (rank y)
  unfolding key_lt
  key_lt-rank x y hx hy = ground arith

  pub less-some :
      (a : List (Entry T)) (i j : ℕ)
      → IsSmall a
      → i < length a
      → j < length a
      → less a i j ≡ some (ltb (rank_at a i) (rank_at a j))
  unfolding less rank_of
  less-some a i j small hi hj =
      let (x, ex) = get_elem?-some a i hi in
      let (y, ey) = get_elem?-some a j hj in
      rw (ex, ey) (ap some (key_lt-rank x y (small i x ex) (small j y ey)))

  pub Swapped-rank :
      {a b : List (Entry T)} {i j : ℕ}
      → Swapped a i j b
      → (c : ℕ)
      → rank_at b c ≡ (if j == c then rank_at a i else if i == c then rank_at a j else rank_at a c)
  Swapped-rank s c = ground (arith, ap rank_of (s.at c))

  pub Swapped-IsSmall : {a b : List (Entry T)} {i j : ℕ} → Swapped a i j b → IsSmall a → IsSmall b
  Swapped-IsSmall {a} {i} {j} s small c e h =
      ground (arith, s.at c, small i e, small j e, small c e)

  -- Every edge whose parent stands at `lo` or later is in order.
  abbrev pub IsOrderedFrom : ℕ → List (Entry T) → Type 0
  IsOrderedFrom lo a =
      (c : ℕ) → 0 < c → c < length a → lo ≤ parent c → rank_at a (parent c) ≤ rank_at a c

  abbrev pub IsHeap : List (Entry T) → Type 0
  IsHeap = IsOrderedFrom 0

  -- The entries below `i` do not precede the one above `i`.
  abbrev pub IsSpanned : ℕ → List (Entry T) → ℕ → Type 0
  IsSpanned lo a i =
      (c : ℕ)
      → 0 < c
      → c < length a
      → parent c ≡ i
      → 0 < i
      → lo ≤ parent i
      → rank_at a (parent i) ≤ rank_at a c

  -- The same entries, in order from `lo` on.
  pub record Settled (lo : ℕ) (a b : List (Entry T)) : Type ℓ where
    pub ordered : IsOrderedFrom lo b
    pub same : Perm b a
    pub size : length b ≡ length a
    pub small : IsSmall b

  pub Settled-refl : (lo : ℕ) (a : List (Entry T)) → IsOrderedFrom lo a → IsSmall a → Settled lo a a
  Settled-refl lo a h small = record { ordered = h; same = Perm.rfl; size = refl; small = small }

  pub Settled-trans :
      {lo : ℕ} {a b c : List (Entry T)}
      → Perm b a
      → length b ≡ length a
      → Settled lo b c
      → Settled lo a c
  Settled-trans p e s = record {
    ordered = s.ordered;
    same = Perm.trans s.same p;
    size = s.size ∙ e;
    small = s.small;
  }

  all_mem :
      (a : List (Entry T)) (k : ℕ)
      → ((i : ℕ) (x : Entry T) → get_elem? a i ≡ some x → k ≤ rank x)
      → (x : Entry T) → Mem x a
      → k ≤ rank x
  all_mem [] k h = λ x m. absurd (not-mem-nil m)
  all_mem (y ∷ a) k h = (forall_mem-cons λ x. le_prop).1 (h 0 y refl, all_mem a k (λ i. h (suc i)))

  root_least_fuel :
      (k : ℕ) (a : List (Entry T)) (i : ℕ)
      → IsHeap a
      → i < k
      → i < length a
      → rank_at a 0 ≤ rank_at a i
  root_least_fuel zero a i h f p = absurd (omega arith)
  root_least_fuel (suc k) a i h f p = ground (arith, h i, root_least_fuel k a (parent i) h)

  pub root_least :
      (a : List (Entry T)) (i : ℕ) → IsHeap a → i < length a → rank_at a 0 ≤ rank_at a i
  root_least a i h p = root_least_fuel (suc i) a i h (omega arith) p

  -- The first entry of a heap precedes all of them.
  pub root_first :
      (a : List (Entry T)) {e : Entry T}
      → IsHeap a
      → get_elem? a 0 ≡ some e
      → (x : Entry T) → Mem x a
      → rank e ≤ rank x
  root_first a {e} heap first = all_mem a (rank e) λ i x h.
      omega (
        arith,
        rank_at-some a i h,
        rank_at-some a 0 first,
        root_least a i heap (get_elem?-lt a i h),
      )
