-- ===== src/Timer/Sift.antt =====
-- `sift_up` and `sift_down` of crates/core/src/timer.rs restore the heap order.
use native.Mathlib.Nat.{le_refl}
use mathlib.Core.Logic.{◌≢◌}
use cadeloop.Prelude.{
  ℕ, zero, suc, ◌+◌, ◌-◌, ◌*◌, ◌≤◌, ◌<◌, ◌≡◌, List, arith, length, ltb, leb, min, ◌==◌,
  if◌then◌else◌, Bool-cases, inl, inr, ◌⊎◌, subst, some, ap, ==_iff, refl,
}
use cadeloop.Prelude.Partial.{Yields, yields, Yields-weaken, Yields-if, Yields-then}
use cadeloop.Timer.{
  Entry, arity, parent, min_scan, sift_up_loop, sift_up, sift_down_loop, sift_down,
}
use cadeloop.Timer.Array.{swap-Swapped, Swapped}
use cadeloop.Timer.Order.{
  rank_at, IsSmall, less-some, Swapped-rank, Swapped-IsSmall, IsSpanned, Settled, Settled-refl,
  Settled-trans,
}

module _ {ℓ} {T : Type ℓ} where
  -- Only the edge above `i` may be out of order.
  pub record Rising (a : List (Entry T)) (i : ℕ) : Type ℓ where
    pub inside : i < length a
    pub small : IsSmall a
    pub edges : (c : ℕ) → 0 < c → c < length a → c ≢ i → rank_at a (parent c) ≤ rank_at a c
    pub spanned : IsSpanned 0 a i

  Rising-swap :
      (a b : List (Entry T)) (i : ℕ)
      → Rising a i
      → 0 < i
      → rank_at a i < rank_at a (parent i)
      → Swapped a i (parent i) b
      → Rising b (parent i)
  Rising-swap a b i v pos lt s =
      let at = Swapped-rank s in
      record {
        inside = omega (arith, s.size, v.inside);
        small = Swapped-IsSmall s v.small;
        edges = λ c p q r. ground (arith, s.size, at c, at (parent c), v.edges c, v.spanned c);
        spanned = λ c p q r t u. ground (
          arith,
          s.size,
          at c,
          at (parent c),
          at (parent (parent i)),
          v.edges c,
          v.edges (parent i),
          v.spanned c,
        );
      }

  sift_up_loop-Settled :
      (f : ℕ) (a : List (Entry T)) (i : ℕ)
      → i < f
      → Rising a i
      → Yields (Settled 0 a) (sift_up_loop f a i)
  unfolding sift_up_loop
  sift_up_loop-Settled zero a i h v = absurd (omega arith)
  sift_up_loop-Settled (suc f) a i h v =
      let above : parent i < length a = omega (arith, v.inside) in
      let (b, e, s) = swap-Swapped a i (parent i) v.inside above in
      rw (less-some a i (parent i) v.small v.inside above, e)
        (Yields-if (ltb 0 i)
          (λ pos.
            Yields-if (ltb (rank_at a i) (rank_at a (parent i)))
              (λ lt.
                Yields-weaken (λ c. Settled-trans s.same s.size)
                  (sift_up_loop-Settled f b (parent i) (ground arith)
                    (Rising-swap a b i v (ground arith) (ground arith) s)))
              (λ stay. yields (Settled-refl 0 a (λ c p q r. ground (arith, v.edges c)) v.small)))
          (λ root. yields (Settled-refl 0 a (λ c p q r. v.edges c p q (ground arith)) v.small)))

  pub sift_up-Settled :
      (a : List (Entry T)) (i : ℕ) → Rising a i → Yields (Settled 0 a) (sift_up a i)
  unfolding sift_up
  sift_up-Settled a i v = sift_up_loop-Settled (i + 1) a i (omega arith) v

  -- Only the edges below `i` may be out of order.
  pub record Sinking (lo : ℕ) (a : List (Entry T)) (i : ℕ) : Type ℓ where
    pub inside : i < length a
    pub small : IsSmall a
    pub edges :
        (c : ℕ)
        → 0 < c
        → c < length a
        → lo ≤ parent c
        → parent c ≢ i
        → rank_at a (parent c) ≤ rank_at a c
    pub spanned : IsSpanned lo a i

  -- `m` is `i` or one of the children below `c` that were looked at, and none of these precedes it.
  record IsLeast (a : List (Entry T)) (i c m : ℕ) : Type 0 where
    inside : m < length a
    among : (m ≡ i) ⊎ ((0 < m) × (parent m ≡ i))
    below : m < c
    least : (k : ℕ) → 0 < k → k < c → parent k ≡ i → rank_at a m ≤ rank_at a k
    le_root : rank_at a m ≤ rank_at a i

  IsLeast-next :
      (a : List (Entry T)) (i c m : ℕ)
      → c < length a
      → 0 < c
      → parent c ≡ i
      → IsLeast a i c m
      → IsLeast a i (suc c) (if ltb (rank_at a c) (rank_at a m) then c else m)
  IsLeast-next a i c m lt pos child l = elim (Bool-cases (ltb (rank_at a c) (rank_at a m))) [
    | inl q ↦ rw q (record {
      inside = lt;
      among = inr (pos, child);
      below = omega arith;
      least = λ k p r e. elim (Bool-cases (k == c)) [
        | inl same ↦ ground (arith, ap (rank_at a) ((==_iff k c).0 same))
        | inr other ↦ ground (arith, l.least k)
      ];
      le_root = ground (arith, l.le_root);
    })
    | inr q ↦ rw q (record {
      inside = l.inside;
      among = l.among;
      below = omega (arith, l.below);
      least = λ k p r e. elim (Bool-cases (k == c)) [
        | inl same ↦ ground (arith, ap (rank_at a) ((==_iff k c).0 same))
        | inr other ↦ ground (arith, l.least k)
      ];
      le_root = l.le_root;
    })
  ]

  min_scan-IsLeast :
      (n : ℕ) (a : List (Entry T)) (i c m : ℕ)
      → IsSmall a
      → 0 < c
      → c + n ≤ length a
      → ((k : ℕ) → c ≤ k → k < c + n → parent k ≡ i)
      → IsLeast a i c m
      → Yields (IsLeast a i (c + n)) (min_scan a n c m)
  unfolding min_scan
  min_scan-IsLeast zero a i c m small pos le children l =
      let e : c ≡ c + 0 = omega arith in subst (λ k. Yields (IsLeast a i k) (some m)) e (yields l)
  min_scan-IsLeast (suc n) a i c m small pos le children l =
      let e : suc c + n ≡ c + suc n = omega arith in
      rw (less-some a c m small (omega arith) l.inside) (
        subst
          (λ k.
            Yields (IsLeast a i k)
              (min_scan a n (suc c) (if ltb (rank_at a c) (rank_at a m) then c else m)))
          e
          (min_scan-IsLeast n a i (suc c) (if ltb (rank_at a c) (rank_at a m) then c else m) small
            (omega arith) (omega arith) (λ k p q. children k (omega arith) (omega arith))
            (IsLeast-next a i c m (omega arith) pos (children c (omega arith) (omega arith)) l)))

  -- `m` is a child of `i`, or `i` itself, and no child of `i` precedes it, nor `i`.
  record Chosen (a : List (Entry T)) (i m : ℕ) : Type 0 where
    inside : m < length a
    among : (m ≡ i) ⊎ ((0 < m) × (parent m ≡ i))
    least : (k : ℕ) → 0 < k → k < length a → parent k ≡ i → rank_at a m ≤ rank_at a k
    le_root : rank_at a m ≤ rank_at a i

  min_scan-Chosen :
      (a : List (Entry T)) (i : ℕ)
      → IsSmall a
      → i * arity + 1 < length a
      → Yields
          (Chosen a i)
          (min_scan a (min (i * arity + 1 + arity) (length a) - (i * arity + 1)) (i * arity + 1) i)
  min_scan-Chosen a i small h =
      Yields-weaken
        (λ m l. record {
          inside = l.inside;
          among = l.among;
          least = λ k p q r. l.least k p (omega arith) r;
          le_root = l.le_root;
        })
        (min_scan-IsLeast _ a i (i * arity + 1) i small (omega arith) (omega arith)
          (λ k p q. omega arith)
          (record {
            inside = omega arith;
            among = inl refl;
            below = omega arith;
            least = λ k p q r. absurd (omega arith);
            le_root = le_refl _;
          }))

  Sinking-swap :
      (lo : ℕ) (a b : List (Entry T)) (i m : ℕ)
      → Sinking lo a i
      → Chosen a i m
      → m ≢ i
      → Swapped a i m b
      → Sinking lo b m
  Sinking-swap lo a b i m v l ne s =
      let at = Swapped-rank s in
      record {
        inside = omega (arith, s.size, l.inside);
        small = Swapped-IsSmall s v.small;
        edges = λ c p q r t. ground (
          arith,
          s.size,
          at c,
          at (parent c),
          v.edges c,
          l.least c,
          v.spanned m,
          l.among,
          l.inside,
          l.le_root,
        );
        spanned = λ c p q r t u. ground (arith, s.size, at c, at (parent m), v.edges c, l.among);
      }

  sift_down_loop-Settled :
      (f lo : ℕ) (a : List (Entry T)) (i : ℕ)
      → length a < f + i
      → Sinking lo a i
      → Yields (Settled lo a) (sift_down_loop f a i)
  unfolding sift_down_loop
  sift_down_loop-Settled zero lo a i h v = absurd (omega (arith, v.inside))
  sift_down_loop-Settled (suc f) lo a i h v =
      Yields-if (leb (length a) (i * arity + 1))
        (λ leaf. yields (Settled-refl lo a (λ c p q r. ground (arith, v.edges c)) v.small))
        (λ more. Yields-then (min_scan-Chosen a i v.small (ground arith)) (λ m l.
          Yields-if (m == i)
            (λ stay. yields (
              Settled-refl lo a
                (λ c p q r.
                  ground (arith, v.edges c, l.least c, ap (rank_at a) ((==_iff m i).0 stay)))
                v.small))
            (λ sink.
              let (b, e, s) = swap-Swapped a i m v.inside l.inside in
              rw e (
                Yields-weaken (λ c. Settled-trans s.same s.size)
                  (sift_down_loop-Settled f lo b m (ground (arith, s.size, l.among))
                    (Sinking-swap lo a b i m v l (ground arith) s))))))

  pub sift_down-Settled :
      (lo : ℕ) (a : List (Entry T)) (i : ℕ) → Sinking lo a i → Yields (Settled lo a) (sift_down a i)
  unfolding sift_down
  sift_down-Settled lo a i v = sift_down_loop-Settled (length a + 1) lo a i (omega arith) v
