-- ===== src/Timer/Heap/Compact.antt =====
-- `compact` and `note_cancelled` of crates/core/src/timer.rs.
use mathlib.Core.Bool.{Bool-set}
use native.Mathlib.Nat.{le_refl}
use mathlib.Core.Option.{some-injective}
use mathlib.Core.List.{Mem, Perm, not-mem-nil, forall_mem-cons, perm_append_comm}
use mathlib.Core.List.Perm
use cadeloop.Prelude.{
  ℕ, zero, suc, ◌+◌, ◌-◌, ◌*◌, ◌/◌, ◌%◌, ◌^◌, ◌≤◌, ◌<◌, ◌≡◌, refl, sym, ap, ◌∙◌, Bool, true, false,
  some, List, [], ◌∷◌, ◌++◌, arith, length, get_elem?, take, drop, take-append-drop, min, ltb, ◌==◌,
  if◌then◌else◌, subst, Bool-cases, inl, inr, ==_iff,
}
use cadeloop.Prelude.Partial.{Yields, yields, Yields-then, Yields-if, Yields-weaken}
use cadeloop.Timer.{TimerPayload, Entry, arity}
use cadeloop.Timer.Array.{get_elem?-some, swap-Swapped, Swapped}
use cadeloop.Timer.Order.{
  IsBelow, IsSmall, IsBelow-perm, IsOrderedFrom, Settled, Settled-refl, Settled-trans,
}
use cadeloop.Timer.Sift.{sift_down-Settled}
use cadeloop.Timer.Heap.{TimerHeap, is_dead, heapify, partition_loop, compact, note_cancelled}
use cadeloop.Timer.Heap.Expire.{IsValid, AllDead, Removed, Removed-refl}

module _ {ℓ} {T : Type ℓ} where
  -- From the last parent down to the root, each round orders one more parent.
  pub heapify-Settled :
      (i : ℕ) (a : List (Entry T))
      → i ≤ length a
      → IsOrderedFrom i a
      → IsSmall a
      → Yields (Settled 0 a) (heapify i a)
  unfolding heapify
  heapify-Settled zero a le h small = yields (Settled-refl 0 a h small)
  heapify-Settled (suc i) a le h small =
      Yields-then
        (sift_down-Settled i a i (record {
          inside = le;
          small = small;
          edges = λ c p q r t. h c p q (omega arith);
          spanned = λ c p q r t u. absurd (omega arith);
        }))
        (λ b s.
          Yields-weaken (λ c. Settled-trans s.same s.size)
            (heapify-Settled i b (omega (arith, s.size)) s.ordered s.small))

module _ {ℓ} {T : Type ℓ} ⦃p : TimerPayload T⦄ where
  abbrev pub AllLive : List (Entry T) → Type 0
  AllLive [] = Unit
  AllLive (e ∷ l) = (is_dead e ≡ false) × AllLive l

  -- The entries at the positions from `lo` up to `hi` are dead, or are not.
  abbrev Between : Bool → ℕ → ℕ → List (Entry T) → Type ℓ
  Between b lo hi a =
      (k : ℕ) (e : Entry T) → get_elem? a k ≡ some e → lo ≤ k → k < hi → is_dead e ≡ b

  record Partitioned (a : List (Entry T)) (r : ℕ × List (Entry T)) : Type ℓ where
    same : Perm r.1 a
    size : length r.1 ≡ length a
    inside : r.0 ≤ length a
    live : Between false 0 r.0 r.1
    dead : Between true r.0 (length a) r.1

  same_entry :
      (a b : List (Entry T)) (i k : ℕ) (x y : Entry T)
      → get_elem? a i ≡ some x
      → get_elem? b k ≡ some y
      → get_elem? b k ≡ get_elem? a i
      → is_dead y ≡ is_dead x
  same_entry a b i k x y ex ey e = ap is_dead (some-injective y x (sym ey ∙ e ∙ ex))

  -- A swap of the positions `live` and `i`, position by position.
  module _ (a b : List (Entry T)) (live i : ℕ) (s : Swapped a live i b) where
    swapped_at_i : get_elem? b i ≡ get_elem? a live
    swapped_at_i = let t : (i == i) ≡ true = ground arith in rw (s.at i, t) refl

    swapped_at_live : get_elem? b live ≡ get_elem? a i
    swapped_at_live = elim (Bool-cases (i == live)) [
      | inl q ↦ rw (s.at live, q) (ap (get_elem? a) (sym ((==_iff i live).0 q)))
      | inr q ↦ let t : (live == live) ≡ true = ground arith in rw (s.at live, q, t) refl
    ]

    swapped_elsewhere :
        (c : ℕ) → (i == c) ≡ false → (live == c) ≡ false → get_elem? b c ≡ get_elem? a c
    swapped_elsewhere c p q = rw (s.at c, p, q) refl

  keep-live :
      (a b : List (Entry T)) (i live : ℕ) (e : Entry T)
      → get_elem? a i ≡ some e
      → is_dead e ≡ false
      → live ≤ i
      → Swapped a live i b
      → Between false 0 live a
      → Between false 0 (suc live) b
  keep-live a b i live e at is le s l k x q r t = elim (Bool-cases (live == k)) [
    | inl h ↦
        let here = ap (get_elem? b) ((==_iff live k).0 h) in
        same_entry a b i k e x at q (sym here ∙ swapped_at_live a b live i s) ∙ is
    | inr h ↦
        let i_not : (i == k) ≡ false = ground arith in
        l k x (sym (swapped_elsewhere a b live i s k i_not h) ∙ q) r (ground arith)
  ]

  keep-dead :
      (a b : List (Entry T)) (i live : ℕ)
      → live ≤ i
      → i < length a
      → Swapped a live i b
      → Between true live i a
      → Between true (suc live) (suc i) b
  keep-dead a b i live le lt s d k x q r t = elim (Bool-cases (i == k)) [
    | inl h ↦
        let here = ap (get_elem? b) ((==_iff i k).0 h) in
        d live x (sym (swapped_at_i a b live i s) ∙ here ∙ q) (le_refl live) (ground arith)
    | inr h ↦
        let live_not : (live == k) ≡ false = ground arith in
        d k x (sym (swapped_elsewhere a b live i s k h live_not) ∙ q) (omega arith) (ground arith)
  ]

  skip-dead :
      (a : List (Entry T)) (i live : ℕ) (x : Entry T)
      → get_elem? a i ≡ some x
      → is_dead x ≡ true
      → Between true live i a
      → Between true live (suc i) a
  skip-dead a i live x at dead d k y q r t = elim (Bool-cases (k == i)) [
    | inl h ↦ same_entry a a i k x y at q (ap (get_elem? a) ((==_iff k i).0 h)) ∙ dead
    | inr h ↦ d k y q r (ground arith)
  ]

  partition_loop-Partitioned :
      (n i live : ℕ) (a : List (Entry T))
      → i + n ≡ length a
      → live ≤ i
      → Between false 0 live a
      → Between true live i a
      → Yields (Partitioned a) (partition_loop n i live a)
  unfolding partition_loop
  partition_loop-Partitioned zero i live a e le l d = yields (record {
    same = Perm.rfl;
    size = refl;
    inside = omega arith;
    live = l;
    dead = λ k x q r t. d k x q r (omega arith);
  })
  partition_loop-Partitioned (suc n) i live a e le l d =
      let (x, at) = get_elem?-some a i (omega arith) in
      let (b, eq, s) = swap-Swapped a live i (omega arith) (omega arith) in
      rw (at, eq)
        (Yields-if (is_dead x)
          (λ dead.
            partition_loop-Partitioned n (suc i) live a (omega arith) (omega arith) l
              (skip-dead a i live x at dead d))
          (λ is.
            let l' = keep-live a b i live x at is le s l in
            let d' = keep-dead a b i live le (omega arith) s d in
            Yields-weaken
              (λ r w. record {
                same = Perm.trans w.same s.same;
                size = w.size ∙ s.size;
                inside = omega (arith, w.inside, s.size);
                live = w.live;
                dead = λ k y q t u. w.dead k y q t (omega (arith, s.size));
              })
              (partition_loop-Partitioned n (suc i) (suc live) b (omega (arith, s.size))
                (omega arith) l' d')))

  AllLive-take : (n : ℕ) (a : List (Entry T)) → Between false 0 n a → AllLive (take n a)
  AllLive-take zero a h = tt
  AllLive-take (suc n) [] h = tt
  AllLive-take (suc n) (x ∷ a) h = (
    h 0 x refl (omega arith) (omega arith),
    AllLive-take n a (λ k y q r t. h (suc k) y q (omega arith) (omega arith)),
  )

  AllDead-drop : (n : ℕ) (a : List (Entry T)) → Between true n (length a) a → AllDead (drop n a)
  AllDead-drop zero [] h = tt
  AllDead-drop zero (x ∷ a) h = (
    h 0 x refl (omega arith) (omega arith),
    AllDead-drop zero a (λ k y q r t. h (suc k) y q (omega arith) (omega arith)),
  )
  AllDead-drop (suc n) [] h = tt
  AllDead-drop (suc n) (x ∷ a) h =
      AllDead-drop n a (λ k y q r t. h (suc k) y q (omega arith) (omega arith))

  AllLive-mem : (a : List (Entry T)) → AllLive a → (x : Entry T) → Mem x a → is_dead x ≡ false
  AllLive-mem [] h = λ x m. absurd (not-mem-nil m)
  AllLive-mem (y ∷ a) h = (forall_mem-cons λ x. Bool-set _ _).1 (h.0, AllLive-mem a h.1)

  get_elem?-take :
      (n : ℕ) (a : List (Entry T)) (i : ℕ) {x : Entry T}
      → get_elem? (take n a) i ≡ some x
      → get_elem? a i ≡ some x
  get_elem?-take zero a i h = cc
  get_elem?-take (suc n) [] i h = cc
  get_elem?-take (suc n) (y ∷ a) zero h = h
  get_elem?-take (suc n) (y ∷ a) (suc i) h = get_elem?-take n a i h

  -- What `compact` leaves: the live entries, in heap order.
  pub record Compacted (h h' : TimerHeap T) : Type ℓ where
    pub dead : List (Entry T)
    pub removed : Removed h h' dead []
    pub all_live : (x : Entry T) → Mem x h'.entries → is_dead x ≡ false
    pub reset : h'.tombstones ≡ 0

  kept-heap :
      (a : List (Entry T))
      → IsSmall a
      → Yields
          (Settled 0 a)
          (if ltb 1 (length a) then heapify ((length a - 2) / arity + 1) a else some a)
  kept-heap a small =
      Yields-if (ltb 1 (length a))
        (λ many.
          heapify-Settled ((length a - 2) / arity + 1) a (ground arith)
            (λ c p q r. absurd (ground arith)) small)
        (λ few. yields (Settled-refl 0 a (λ c p q r. absurd (ground arith)) small))

  -- On a valid heap `compact` returns and keeps it valid: it buries exactly the cancelled entries, and
  -- the entries left are the live ones.
  pub compact_correct : (h : TimerHeap T) → IsValid h → Yields (Compacted h) (compact h)
  unfolding compact
  compact_correct h v =
      Yields-then
        (partition_loop-Partitioned (length h.entries) 0 0 h.entries (omega arith) (omega arith)
          (λ k e q r t. absurd (omega arith)) (λ k e q r t. absurd (omega arith)))
        (λ (live, a) w.
          let issued = IsBelow-perm w.same v.issued in
          let kept_issued : IsBelow h.seq (take live a) =
            λ i x q. issued i x (get_elem?-take live a i q) in
          let parts : Perm (take live a ++ drop live a) h.entries =
            rw (take-append-drop live a) w.same in
          Yields-then (kept-heap (take live a) (λ i x q. omega (arith, kept_issued i x q, v.room)))
            (λ b s. yields (record {
              dead = drop live a;
              removed = record {
                cancelled =
                    AllDead-drop live a (subst (λ n. Between true live n a) (sym w.size) w.dead);
                buried = refl;
                conserved =
                    Perm.trans (Perm.append_left (drop live a) s.same)
                      (Perm.trans (perm_append_comm (drop live a) (take live a)) parts);
                valid = record {
                  heap = s.ordered;
                  issued = IsBelow-perm s.same kept_issued;
                  room = v.room;
                };
              };
              all_live = λ x m.
                  AllLive-mem (take live a) (AllLive-take live a w.live) x
                    ((Perm.mem_iff s.same).0 m);
              reset = refl;
            })))

  -- The tombstones that are counted do not matter to what is removed.
  Removed-recount :
      {h h' : TimerHeap T} {n : ℕ} {dead : List (Entry T)}
      → Removed (record h { tombstones = n }) h' dead []
      → Removed h h' dead []
  Removed-recount m = record {
    cancelled = m.cancelled;
    buried = m.buried;
    conserved = m.conserved;
    valid = m.valid;
  }

  -- What becomes of the count.
  pub data Recounted (h : TimerHeap T) (n : ℕ) (h' : TimerHeap T) : Type ℓ where
    counted :
        (h.tombstones + n) * 2 ≤ length h.entries
        → h' ≡ record h { tombstones = h.tombstones + n }
        → Recounted h n h'
    compacted :
        length h.entries < (h.tombstones + n) * 2
        → ((x : Entry T) → Mem x h'.entries → is_dead x ≡ false)
        → h'.tombstones ≡ 0
        → Recounted h n h'

  -- What `note_cancelled` leaves.
  pub record Noted (h : TimerHeap T) (n : ℕ) (h' : TimerHeap T) : Type ℓ where
    pub dead : List (Entry T)
    pub removed : Removed h h' dead []
    pub few_left : h'.tombstones * 2 ≤ length h'.entries
    pub answer : Recounted h n h'

  -- On a valid heap, and for counts that do not reach 2^63, `note_cancelled` returns and keeps the heap
  -- valid: if twice the tombstones with the new ones are at most the entries, they are counted and nothing else
  -- changes; otherwise exactly the cancelled entries are buried and the count starts at 0. The tombstones it
  -- still counts are at most half of the entries that are left.
  pub note_cancelled_correct :
      (h : TimerHeap T) (n : ℕ)
      → IsValid h
      → h.tombstones + n < 2 ^ 63
      → Yields (Noted h n) (note_cancelled h n)
  unfolding note_cancelled
  note_cancelled_correct h n v few =
      let h' : TimerHeap T = record h { tombstones = min (h.tombstones + n) (2 ^ 64 - 1) } in
      let v' : IsValid h' = record { heap = v.heap; issued = v.issued; room = v.room } in
      Yields-if (ltb (length h'.entries) (h'.tombstones * 2 % 2 ^ 64))
        (λ many.
          Yields-weaken
            (λ r c. record {
              dead = c.dead;
              removed = Removed-recount c.removed;
              few_left = omega (arith, c.reset);
              answer = compacted (ground arith) c.all_live c.reset;
            })
            (compact_correct h' v'))
        (λ enough. yields (record {
          dead = [];
          removed = Removed-recount (Removed-refl v');
          few_left = ground arith;
          answer = counted (ground arith) (ap (λ k. record h { tombstones = k }) (omega arith));
        }))
