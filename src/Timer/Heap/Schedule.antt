-- ===== src/Timer/Heap/Schedule.antt =====
-- `schedule` of crates/core/src/timer.rs.
use mathlib.Core.Option.{some-injective}
use mathlib.Core.List.{Mem, Perm, perm_middle}
use mathlib.Core.List.Perm
use cadeloop.Prelude.{
  ℕ, zero, suc, ◌+◌, ◌-◌, ◌≤◌, ◌<◌, ◌≡◌, refl, ap, List, [], ◌∷◌, ◌++◌, arith, append-nil, length,
  length-append, get_elem?, ◌^◌, ◌%◌, subst,
}
use cadeloop.Prelude.Partial.{Yields, yields, Yields-then}
use cadeloop.Timer.{Entry, parent}
use cadeloop.Timer.Order.{
  seq_bound, rank, rank_at, rank_of, IsBelow, IsSmall, IsBelow-mem, IsBelow-perm, IsHeap,
}
use cadeloop.Timer.Sift.{Rising, sift_up-Settled}
use cadeloop.Timer.Heap.{TimerHeap, schedule}
use cadeloop.Timer.Heap.Expire.{IsValid}

module _ {ℓ} {T : Type ℓ} where
  pushed-perm : (a : List (Entry T)) (e : Entry T) → Perm (a ++ e ∷ []) (e ∷ a)
  pushed-perm a e = subst (λ l. Perm (a ++ e ∷ []) (e ∷ l)) (append-nil a) (perm_middle a [])

  pushed-IsBelow :
      (n : ℕ) (a : List (Entry T)) (e : Entry T) → IsBelow n a → e.seq < n → IsBelow n (a ++ e ∷ [])
  pushed-IsBelow n a e h lt = IsBelow-perm (pushed-perm a e) (consed n a e h lt)
    where
      consed :
          (n : ℕ) (a : List (Entry T)) (e : Entry T) → IsBelow n a → e.seq < n → IsBelow n (e ∷ a)
      consed n a e h lt zero x q =
          ground (arith, ap (λ (x : Entry T). x.seq) (some-injective _ _ q))
      consed n a e h lt (suc i) x q = h i x q

  pushed_rank :
      (a : List (Entry T)) (e : Entry T) (c : ℕ)
      → c < length a
      → rank_at (a ++ e ∷ []) c ≡ rank_at a c
  pushed_rank a e c h = ap rank_of (before a e c h)
    where
      before :
          (a : List (Entry T)) (e : Entry T) (c : ℕ)
          → c < length a
          → get_elem? (a ++ e ∷ []) c ≡ get_elem? a c
      before [] e c h = absurd (omega arith)
      before (x ∷ a) e zero h = refl
      before (x ∷ a) e (suc c) h = before a e c (omega arith)

  pushed-Rising :
      (a : List (Entry T)) (e : Entry T)
      → IsHeap a
      → IsSmall (a ++ e ∷ [])
      → Rising (a ++ e ∷ []) (length (a ++ e ∷ []) - 1)
  pushed-Rising a e heap small =
      let size = length-append a (e ∷ []) in
      record {
        inside = omega (arith, size);
        small = small;
        edges =
            λ c p q r. ground (arith, size, heap c, pushed_rank a e c, pushed_rank a e (parent c));
        spanned = λ c p q r t u. absurd (omega (arith, size));
      }

  abbrev pub scheduled_entry : TimerHeap T → ℕ → T → Entry T
  scheduled_entry h deadline payload = record {
    deadline = deadline;
    seq = h.seq;
    payload = payload;
  }

  -- What `schedule` did: one more entry, behind every one that is due no later.
  pub record Scheduled (h : TimerHeap T) (deadline : ℕ) (payload : T) (h' : TimerHeap T)
      : Type ℓ where
    pub valid : IsValid h'
    pub added : Perm h'.entries (scheduled_entry h deadline payload ∷ h.entries)
    pub seq : h'.seq ≡ h.seq + 1
    pub graveyard : h'.graveyard ≡ h.graveyard
    pub fifo :
        (x : Entry T)
        → Mem x h.entries
        → x.deadline ≤ deadline
        → rank x < rank (scheduled_entry h deadline payload)

  -- On a valid heap with a sequence number to spare `schedule` returns and keeps it valid. It adds
  -- exactly the new entry, which comes after every entry there that is due no later, so that timers of
  -- one deadline fire in the order they were scheduled.
  pub schedule_correct :
      (h : TimerHeap T) (deadline : ℕ) (payload : T)
      → IsValid h
      → h.seq + 1 < seq_bound
      → Yields (Scheduled h deadline payload) (schedule h deadline payload)
  unfolding schedule
  schedule_correct h deadline payload v room =
      let e = scheduled_entry h deadline payload in
      let below =
        pushed-IsBelow (h.seq + 1) h.entries e (λ i x q. omega (arith, v.issued i x q))
          (omega arith) in
      Yields-then
        (sift_up-Settled _ _
          (pushed-Rising h.entries e v.heap (λ i x q. omega (arith, below i x q))))
        (λ a s.
          let next : (h.seq + 1) % 2 ^ 64 ≡ h.seq + 1 = omega arith in
          rw next (
            yields (record {
              valid = record { heap = s.ordered; issued = IsBelow-perm s.same below; room = room };
              added = Perm.trans s.same (pushed-perm h.entries e);
              seq = refl;
              graveyard = refl;
              fifo = λ x m le. omega (arith, IsBelow-mem h.seq h.entries v.issued x m);
            })))
