-- ===== src/Reactor/Timers.antt =====
-- `fire_expired_timers` of crates/core/src/reactor.rs.
use mathlib.Core.List.{
  Mem, Perm, perm_middle, perm_append_comm, mem-cons_of_mem, length as list_length,
}
use mathlib.Core.Nat as N
use mathlib.Core.Option
use mathlib.Core.List.Perm
use cadeloop.Prelude.{
  ℕ, zero, suc, ◌+◌, ◌≤◌, ◌<◌, ◌≡◌, refl, sym, ap, ◌∙◌, subst, false, Option, none, some, List, [],
  ◌∷◌, ◌++◌, map, arith, length, length-append, get_elem?, append_assoc, append-nil, ltb,
  Option-cases, inl, inr,
}
use cadeloop.Prelude.Partial.{◌>>=◌, Yields, yields, Yields-if, Yields-then}
use cadeloop.Clock.{cached_time}
use cadeloop.Timer.{TimerPayload, Entry}
use cadeloop.Timer.Order.{rank}
use cadeloop.Timer.Heap.{TimerHeap, marked, is_dead, peek_deadline}
use cadeloop.Timer.Heap.Expire.{
  IsValid, IsValid-IsSmall, AllDead, Removed, Removed-refl, Verdict, nothing, fired,
  pop_expired_correct, later_deadline, no_first,
}
use cadeloop.Timer.Heap.Compact.{AllLive}
use cadeloop.Reactor.{Reactor, fire_loop, fire_from, fire_expired_timers}

map-append {ℓ} :
    {A : Type ℓ} {C : Type ℓ} (f : A → C) (a b : List A) → map f (a ++ b) ≡ map f a ++ map f b
map-append f [] b = refl
map-append f (x ∷ a) b = ap (λ l. f x ∷ l) (map-append f a b)

mem-right {ℓ} : {A : Type ℓ} (a b : List A) {x : A} → Mem x b → Mem x (a ++ b)
mem-right [] b m = m
mem-right (y ∷ a) b m = mem-cons_of_mem y (mem-right a b m)

mem-left {ℓ} : {A : Type ℓ} (a b : List A) {x : A} → Mem x a → Mem x (a ++ b)
mem-left a b m = (Perm.mem_iff (perm_append_comm b a)).0 (mem-right b a m)

-- The library's length, over the other natural numbers, is the length.
to_native : N.ℕ → ℕ
to_native N.zero = 0
to_native (N.suc n) = suc (to_native n)

length_is {ℓ} : {A : Type ℓ} (l : List A) → length l ≡ to_native (list_length l)
unfolding to_native
length_is [] = refl
length_is (x ∷ l) = ap suc (length_is l)

length-perm {ℓ} : {A : Type ℓ} (a b : List A) → Perm a b → length a ≡ length b
length-perm a b e = length_is a ∙ ap to_native (Perm.length-eq e) ∙ sym (length_is b)

module _ {ℓ} {T : Type ℓ} ⦃p : TimerPayload T⦄ where
  -- Each entry precedes those behind it.
  abbrev pub IsSorted : List (Entry T) → Type ℓ
  IsSorted [] = Unit
  IsSorted (e ∷ l) = ((x : Entry T) → Mem x l → rank e ≤ rank x) × IsSorted l

  abbrev pub AllDue : ℕ → List (Entry T) → Type 0
  AllDue time [] = Unit
  AllDue time (e ∷ l) = (e.deadline ≤ time) × AllDue time l

  -- What firing leaves: the timers that fired, in the order of their deadlines and, for one deadline, of
  -- their scheduling; all live and due; and none left that is due.
  pub record Fired (h : TimerHeap T) (time : ℕ) (before : List T) (h' : TimerHeap T)
      (after : List T) : Type ℓ where
    pub dead : List (Entry T)
    pub taken : List (Entry T)
    pub removed : Removed h h' dead taken
    pub handed : after ≡ before ++ map marked taken
    pub sorted : IsSorted taken
    pub live : AllLive taken
    pub all_due : AllDue time taken
    pub none_due : (x : Entry T) → Mem x h'.entries → time < x.deadline

  AllDead-append : (a b : List (Entry T)) → AllDead a → AllDead b → AllDead (a ++ b)
  AllDead-append [] b p q = q
  AllDead-append (x ∷ a) b p q = (p.0, AllDead-append a b p.1 q)

  Fired-none :
      (h : TimerHeap T) (time : ℕ) (before : List T)
      → IsValid h
      → ((x : Entry T) → Mem x h.entries → time < x.deadline)
      → Fired h time before h before
  Fired-none h time before v later = record {
    dead = [];
    taken = [];
    removed = Removed-refl v;
    handed = sym (append-nil before);
    sorted = tt;
    live = tt;
    all_due = tt;
    none_due = later;
  }

  -- One round, and then the others.
  Removed-trans :
      {h h' h'' : TimerHeap T} {dead dead' taken : List (Entry T)} (e : Entry T)
      → Removed h h' dead (e ∷ [])
      → Removed h' h'' dead' taken
      → Removed h h'' (dead ++ dead') (e ∷ taken)
  Removed-trans {h} {h'} {h''} {dead} {dead'} {taken} e m n = record {
    cancelled = AllDead-append dead dead' m.cancelled n.cancelled;
    buried =
        n.buried
        ∙ ap (λ l. l ++ map marked dead') m.buried
        ∙ append_assoc h.graveyard (map marked dead) (map marked dead')
        ∙ ap (λ l. h.graveyard ++ l) (sym (map-append marked dead dead'));
    conserved =
        let rest = taken ++ h''.entries in
        let regrouped : (dead ++ dead') ++ (e ∷ rest) ≡ dead ++ (dead' ++ (e ∷ rest)) =
          append_assoc dead dead' (e ∷ rest) in
        subst (λ l. Perm l h.entries) (sym regrouped)
          (Perm.trans
            (Perm.append_left dead (Perm.trans (perm_middle dead' rest) (Perm.cons e n.conserved)))
            m.conserved);
    valid = n.valid;
  }

  -- Why `e`, which was taken first, precedes those taken later.
  first_of_all :
      {h' h'' : TimerHeap T} {dead' taken : List (Entry T)} (e : Entry T)
      → ((x : Entry T) → Mem x h'.entries → rank e ≤ rank x)
      → Removed h' h'' dead' taken
      → (x : Entry T) → Mem x taken
      → rank e ≤ rank x
  first_of_all {h''} {dead'} {taken} e f n x m = f x (
      (Perm.mem_iff n.conserved).0
        (mem-right dead' (taken ++ h''.entries) (mem-left taken h''.entries m)))

  Fired-after :
      {h h' h'' : TimerHeap T} {time : ℕ} {before after : List T} {dead : List (Entry T)}
      (e : Entry T)
      → Removed h h' dead (e ∷ [])
      → is_dead e ≡ false
      → e.deadline ≤ time
      → ((x : Entry T) → Mem x h'.entries → rank e ≤ rank x)
      → Fired h' time (before ++ marked e ∷ []) h'' after
      → Fired h time before h'' after
  Fired-after {before} {dead} e m live due first f = record {
    dead = dead ++ f.dead;
    taken = e ∷ f.taken;
    removed = Removed-trans e m f.removed;
    handed = f.handed ∙ append_assoc before (marked e ∷ []) (map marked f.taken);
    sorted = (first_of_all e first f.removed, f.sorted);
    live = (live, f.live);
    all_due = (due, f.all_due);
    none_due = f.none_due;
  }

  -- Every round takes one entry at least.
  Removed-shorter :
      {h h' : TimerHeap T} {dead : List (Entry T)} (e : Entry T)
      → Removed h h' dead (e ∷ [])
      → length h'.entries < length h.entries
  Removed-shorter {h} {h'} {dead} e m = omega (
    arith,
    length-append dead (e ∷ h'.entries),
    length-perm (dead ++ (e ∷ h'.entries)) h.entries m.conserved,
  )

  -- What a round does with what it found.
  abbrev continue_with :
      ℕ → TimerHeap T → ℕ → List T → Option T → Option ((TimerHeap T × List T) × ℕ)
  continue_with fuel h' time before found = elim found [
    | none ↦ some ((h', before), 0)
    | some token ↦ do (rest, n) ← fire_loop fuel h' time (before ++ token ∷ []); some (rest, suc n)
  ]

  abbrev AllFired : TimerHeap T → ℕ → List T → (TimerHeap T × List T) × ℕ → Type ℓ
  AllFired h time before r = Fired h time before r.0.0 r.0.1

  fire_round :
      (fuel : ℕ) (h h' : TimerHeap T) (time : ℕ) (before : List T) {dead taken : List (Entry T)}
      {found : Option T}
      → Removed h h' dead taken
      → Verdict time taken h'.entries found
      → length h.entries < suc fuel
      → ((b : List T)
          → length h'.entries < fuel
          → Yields (AllFired h' time b) (fire_loop fuel h' time b))
      → Yields (AllFired h time before) (continue_with fuel h' time before found)
  fire_round fuel h h' time before {dead} m (nothing t e later) lt more = rw e (
      yields (record {
        dead = dead;
        taken = [];
        removed = subst (Removed h h' dead) t m;
        handed = sym (append-nil before);
        sorted = tt;
        live = tt;
        all_due = tt;
        none_due = later;
      }))
  fire_round fuel h h' time before {dead} m (fired e t r live due first) lt more =
      let m' = subst (Removed h h' dead) t m in
      rw r (
        Yields-then (more (before ++ marked e ∷ []) (omega (arith, Removed-shorter e m')))
          (λ v f. yields (Fired-after e m' live due first f)))

  fire_loop-Fired :
      (fuel : ℕ) (h : TimerHeap T) (time : ℕ) (before : List T)
      → IsValid h
      → length h.entries < fuel
      → Yields (AllFired h time before) (fire_loop fuel h time before)
  unfolding fire_loop
  fire_loop-Fired zero h time before v lt = absurd (omega arith)
  fire_loop-Fired (suc fuel) h time before v lt =
      Yields-then (pop_expired_correct h time v) (λ (found, h') x.
        fire_round fuel h h' time before x.removed x.verdict lt
          (λ b lt'. fire_loop-Fired fuel h' time b x.removed.valid lt'))

module _ {ℓ κ} {T : Type ℓ} {B : Type κ} ⦃p : TimerPayload T⦄ where
  -- On a valid timer heap `fire_expired_timers` returns. Behind the timers collected before it puts every live
  -- timer that is due at the tick's time, in the order of their deadlines and, for one deadline, of their
  -- scheduling; no timer that is due is left, and what else left the heap was cancelled.
  pub fire_expired_timers_correct :
      (r : Reactor T B) (raw : ℕ)
      → IsValid r.timers
      → Yields
          (λ r'. Fired r.timers (cached_time r.clock raw).1 r.expired r'.timers r'.expired)
          (fire_expired_timers r raw)
  unfolding fire_expired_timers fire_from peek_deadline
  fire_expired_timers_correct r raw v =
      let time = (cached_time r.clock raw).1 in
      elim (Option-cases (get_elem? r.timers.entries 0)) [
        | inl e ↦ rw (ap (Option.map (λ (x : Entry T). x.deadline)) e) (
            yields (
              Fired-none r.timers time r.expired v
                (λ x m. absurd (no_first r.timers.entries e x m))))
        | inr (first, e) ↦ rw (ap (Option.map (λ (x : Entry T). x.deadline)) e) (
            Yields-if (ltb time first.deadline)
              (λ early. yields (
                Fired-none r.timers time r.expired v (
                  later_deadline time r.timers.entries first v.heap (IsValid-IsSmall v) e
                    (ground arith))))
              (λ late.
                Yields-then
                  (fire_loop-Fired (length r.timers.entries + 1) r.timers time r.expired v
                    (omega arith))
                  (λ ((timers, expired), n) f. yields f)))
      ]
