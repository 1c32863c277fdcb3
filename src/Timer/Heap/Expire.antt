-- ===== src/Timer/Heap/Expire.antt =====
-- What `pop_expired` of crates/core/src/timer.rs returns, and what becomes of the tombstones on its way.
use mathlib.Core.Option.{some-injective}
use mathlib.Core.List.{Mem, Perm, not-mem-nil, mem-cons_of_mem}
use mathlib.Core.List.Perm
use cadeloop.Prelude.{
  ℕ, zero, suc, ◌+◌, ◌≤◌, ◌<◌, ◌≡◌, refl, sym, ap, ◌∙◌, true, false, Option, none, some, List, [],
  ◌∷◌, ◌++◌, map, arith, length, get_elem?, get_elem?-lt, ltb, Option-cases, inl, inr, append_assoc,
  append-nil,
}
use cadeloop.Prelude.Partial.{Yields, yields, Yields-value, Yields-weaken, Yields-if, Yields-then}
use cadeloop.Timer.{TimerPayload, Entry}
use cadeloop.Timer.Order.{
  seq_bound, rank, IsHeap, IsBelow, IsSmall, IsBelow-mem, IsBelow-perm, root_first,
}
use cadeloop.Timer.Heap.{
  TimerHeap, marked, is_dead, bury, pop_expired_loop, pop_expired, peek_deadline,
  drop_cancelled_loop, next_deadline,
}
use cadeloop.Timer.Heap.Pop.{Popped, pop_top-Popped}

module _ {ℓ} {T : Type ℓ} where
  -- The heap order, and sequence numbers that were handed out.
  pub record IsValid (h : TimerHeap T) : Type ℓ where
    pub heap : IsHeap h.entries
    pub issued : IsBelow h.seq h.entries
    pub room : h.seq < seq_bound

  pub IsValid-IsSmall : {h : TimerHeap T} → IsValid h → IsSmall h.entries
  IsValid-IsSmall v i e q = omega (arith, v.issued i e q, v.room)

module _ {ℓ} {T : Type ℓ} ⦃p : TimerPayload T⦄ where
  abbrev pub AllDead : List (Entry T) → Type 0
  AllDead [] = Unit
  AllDead (e ∷ l) = (is_dead e ≡ true) × AllDead l

  -- `h'` came of `h` by burying `dead` and taking out `taken`.
  pub record Removed (h h' : TimerHeap T) (dead taken : List (Entry T)) : Type ℓ where
    pub cancelled : AllDead dead
    pub buried : h'.graveyard ≡ h.graveyard ++ map marked dead
    pub conserved : Perm (dead ++ (taken ++ h'.entries)) h.entries
    pub valid : IsValid h'

  -- A live entry was due and none before it is left, or everything that is left is due later.
  pub data Verdict (now : ℕ) (taken left : List (Entry T)) (r : Option T) : Type ℓ where
    nothing :
        taken ≡ []
        → r ≡ none
        → ((x : Entry T) → Mem x left → now < x.deadline)
        → Verdict now taken left r
    fired :
        (e : Entry T)
        → taken ≡ e ∷ []
        → r ≡ some (marked e)
        → is_dead e ≡ false
        → e.deadline ≤ now
        → ((x : Entry T) → Mem x left → rank e ≤ rank x)
        → Verdict now taken left r

  pub record Expired (h : TimerHeap T) (now : ℕ) (r : Option T × TimerHeap T) : Type ℓ where
    pub dead : List (Entry T)
    pub taken : List (Entry T)
    pub removed : Removed h r.1 dead taken
    pub verdict : Verdict now taken r.1.entries r.0

  pub Removed-refl : {h : TimerHeap T} → IsValid h → Removed h h [] []
  Removed-refl {h} v = record {
    cancelled = tt;
    buried = sym (append-nil h.graveyard);
    conserved = Perm.rfl;
    valid = v;
  }

  -- A tombstone buried first.
  pub Removed-bury :
      {h h' : TimerHeap T} {e : Entry T} {rest dead taken : List (Entry T)}
      → Perm (e ∷ rest) h.entries
      → is_dead e ≡ true
      → Removed (bury h e rest) h' dead taken
      → Removed h h' (e ∷ dead) taken
  unfolding bury
  Removed-bury {h} {e} {dead} same is m = record {
    cancelled = (is, m.cancelled);
    buried = m.buried ∙ append_assoc h.graveyard (marked e ∷ []) (map marked dead);
    conserved = Perm.trans (Perm.cons e m.conserved) same;
    valid = m.valid;
  }

  pub bury-IsValid :
      (h : TimerHeap T) {r : Entry T × List (Entry T)}
      → IsValid h
      → Popped h.entries r
      → IsValid (bury h r.0 r.1)
  unfolding bury
  bury-IsValid h {r} v d = record {
    heap = d.heap;
    issued = λ i e q. IsBelow-perm d.same v.issued (suc i) e q;
    room = v.room;
  }

  pub later_deadline :
      (now : ℕ) (a : List (Entry T)) (e : Entry T)
      → IsHeap a
      → IsSmall a
      → get_elem? a 0 ≡ some e
      → now < e.deadline
      → (x : Entry T) → Mem x a
      → now < x.deadline
  later_deadline now a e heap small first lt x m =
      omega (arith, root_first a heap first x m, IsBelow-mem seq_bound a small x m)

  pub no_first : (a : List (Entry T)) → get_elem? a 0 ≡ none → (x : Entry T) → Mem x a → ⊥
  no_first [] e x m = not-mem-nil m
  no_first (y ∷ a) e x m = cc

  Expired-bury :
      {h : TimerHeap T} {now : ℕ} {e : Entry T} {rest : List (Entry T)} (r : Option T × TimerHeap T)
      → Perm (e ∷ rest) h.entries
      → is_dead e ≡ true
      → Expired (bury h e rest) now r
      → Expired h now r
  Expired-bury {e} r same is x = record {
    dead = e ∷ x.dead;
    taken = x.taken;
    removed = Removed-bury same is x.removed;
    verdict = x.verdict;
  }

  Expired-stop :
      (h : TimerHeap T) (now : ℕ)
      → IsValid h
      → ((x : Entry T) → Mem x h.entries → now < x.deadline)
      → Expired h now (none, h)
  Expired-stop h now v later = record {
    dead = [];
    taken = [];
    removed = Removed-refl v;
    verdict = nothing refl refl later;
  }

  Expired-fire :
      (h : TimerHeap T) (now : ℕ) {r : Entry T × List (Entry T)}
      → IsValid h
      → Popped h.entries r
      → is_dead r.0 ≡ false
      → r.0.deadline ≤ now
      → Expired h now (some (marked r.0), record h { entries = r.1 })
  Expired-fire h now {r} v d live due = record {
    dead = [];
    taken = r.0 ∷ [];
    removed = record {
      cancelled = tt;
      buried = sym (append-nil h.graveyard);
      conserved = d.same;
      valid = record {
        heap = d.heap;
        issued = λ i e q. IsBelow-perm d.same v.issued (suc i) e q;
        room = v.room;
      };
    };
    verdict = fired r.0 refl refl live due (λ x m.
        root_first h.entries v.heap d.first x ((Perm.mem_iff d.same).0 (mem-cons_of_mem _ m)));
  }

  pop_expired_loop-Expired :
      (f : ℕ) (h : TimerHeap T) (now : ℕ)
      → IsValid h
      → length h.entries < f
      → Yields (Expired h now) (pop_expired_loop f h now)
  unfolding pop_expired_loop
  pop_expired_loop-Expired zero h now v lt = absurd (omega arith)
  pop_expired_loop-Expired (suc f) h now v lt = elim (Option-cases (get_elem? h.entries 0)) [
    | inl e ↦
        rw (e, pop_expired_loop)
          (yields (Expired-stop h now v (λ x m. absurd (no_first h.entries e x m))))
    | inr (first, e) ↦
        let small = IsValid-IsSmall v in
        let ((e', rest), eq, d) =
          Yields-value (pop_top-Popped h.entries v.heap small (get_elem?-lt h.entries 0 e)) in
        let is_first : e' ≡ first = some-injective _ _ (sym d.first ∙ e) in
        rw (e, pop_expired_loop, eq)
          (Yields-if (ltb now first.deadline)
            (λ early. yields (
              Expired-stop h now v
                (later_deadline now h.entries first v.heap small e (ground arith))))
            (λ due.
              Yields-if (p.is_cancelled (marked e'))
                (λ dead.
                  Yields-weaken
                    (λ r. Expired-bury r d.same (sym (p.cancelled_marked e'.payload) ∙ dead))
                    (pop_expired_loop-Expired f (bury h e' rest) now (bury-IsValid h v d)
                      (omega (arith, d.size))))
                (λ live. yields (
                  Expired-fire h now v d (sym (p.cancelled_marked e'.payload) ∙ live)
                    (ground (arith, ap (λ (x : Entry T). x.deadline) is_first))))))
  ]

  -- On a valid heap `pop_expired` returns and keeps it valid. It returns a live timer that is due and
  -- that precedes every entry left in (deadline, sequence number), or nothing when every entry left is
  -- due after `now`. Whatever else left the heap was cancelled, and stands in the graveyard, in order.
  pub pop_expired_correct :
      (h : TimerHeap T) (now : ℕ) → IsValid h → Yields (Expired h now) (pop_expired h now)
  unfolding pop_expired
  pop_expired_correct h now v =
      pop_expired_loop-Expired (length h.entries + 1) h now v (omega arith)

  -- What `next_deadline` answers: the deadline of a live entry that precedes the others, or nothing of
  -- an empty heap.
  pub data Earliest (left : List (Entry T)) : Option ℕ → Type ℓ where
    no_entry : left ≡ [] → Earliest left none
    live_entry :
        (e : Entry T)
        → get_elem? left 0 ≡ some e
        → is_dead e ≡ false
        → ((x : Entry T) → Mem x left → rank e ≤ rank x)
        → Earliest left (some e.deadline)

  pub record Dropped (h h' : TimerHeap T) : Type ℓ where
    pub dead : List (Entry T)
    pub removed : Removed h h' dead []
    pub live_top : Earliest h'.entries (peek_deadline h')

  Dropped-bury :
      {h : TimerHeap T} {e : Entry T} {rest : List (Entry T)} (h' : TimerHeap T)
      → Perm (e ∷ rest) h.entries
      → is_dead e ≡ true
      → Dropped (bury h e rest) h'
      → Dropped h h'
  Dropped-bury {e} h' same is x = record {
    dead = e ∷ x.dead;
    removed = Removed-bury same is x.removed;
    live_top = x.live_top;
  }

  Dropped-stop : (h : TimerHeap T) → IsValid h → Earliest h.entries (peek_deadline h) → Dropped h h
  Dropped-stop h v q = record { dead = []; removed = Removed-refl v; live_top = q }

  empty_of_no_first : (a : List (Entry T)) → get_elem? a 0 ≡ none → a ≡ []
  empty_of_no_first [] e = refl
  empty_of_no_first (x ∷ a) e = cc

  drop_cancelled_loop-Dropped :
      (f : ℕ) (h : TimerHeap T)
      → IsValid h
      → length h.entries < f
      → Yields (Dropped h) (drop_cancelled_loop f h)
  unfolding drop_cancelled_loop peek_deadline
  drop_cancelled_loop-Dropped zero h v lt = absurd (omega arith)
  drop_cancelled_loop-Dropped (suc f) h v lt = elim (Option-cases (get_elem? h.entries 0)) [
    | inl e ↦
        rw (e, drop_cancelled_loop)
          (yields
            (Dropped-stop h v (rw (e, peek_deadline) (no_entry (empty_of_no_first h.entries e)))))
    | inr (first, e) ↦
        let ((e', rest), eq, d) =
          Yields-value
            (pop_top-Popped h.entries v.heap (IsValid-IsSmall v) (get_elem?-lt h.entries 0 e)) in
        let is_first : first ≡ e' = some-injective _ _ (sym e ∙ d.first) in
        rw (e, drop_cancelled_loop, eq)
          (Yields-if (is_dead first)
            (λ dead.
              Yields-weaken (λ h'. Dropped-bury h' d.same (sym (ap is_dead is_first) ∙ dead))
                (drop_cancelled_loop-Dropped f (bury h e' rest) (bury-IsValid h v d)
                  (omega (arith, d.size))))
            (λ live. yields (
              Dropped-stop h v
                (rw (e, peek_deadline) (live_entry first e live (root_first h.entries v.heap e))))))
  ]

  -- On a valid heap `next_deadline` returns and keeps it valid. Its answer is the deadline of a live
  -- entry that precedes the others left, and nothing exactly when none is left; what it removed was
  -- cancelled and stands in the graveyard.
  pub next_deadline_correct :
      (h : TimerHeap T)
      → IsValid h
      → Yields (λ r. Dropped h r.1 × (r.0 ≡ peek_deadline r.1)) (next_deadline h)
  unfolding next_deadline
  next_deadline_correct h v =
      Yields-then (drop_cancelled_loop-Dropped (length h.entries + 1) h v (omega arith))
        (λ h' d. yields (d, refl))
