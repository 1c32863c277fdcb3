-- ===== src/FastQueue/Wake.antt =====
-- `wake_next` of crates/pyshim/src/fastqueue.rs: a wake is handed to one waiter that can take it, if there is
-- one.
use cadeloop.Prelude.{
  ℕ, zero, suc, ◌+◌, ◌≤◌, ◌<◌, ◌≡◌, refl, ap, Bool, true, false, ◌||◌, List, [], ◌∷◌, ◌++◌, arith,
  length, set, Bool-cases, inl, inr,
}
use cadeloop.FastQueue.{
  FutState, pending, closed, resolved, cancelled, spent, Futures, state_of, can_wake, wake_next,
  remove,
}

-- Some waiter of the list still waits and can be woken.
abbrev pub waiting : List ℕ → Futures → Bool
waiting [] s = false
waiting (f ∷ l) s = can_wake (state_of s f) || waiting l s

abbrev pub is_resolved : FutState → ℕ
is_resolved resolved = 1
is_resolved _ = 0

-- The waiters that were woken, and whose task has not gone on.
abbrev pub woken : Futures → ℕ
woken [] = 0
woken (st ∷ s) = is_resolved st + woken s

pub woken-set :
    (s : Futures) (f : ℕ) (st : FutState)
    → f < length s
    → woken (set s f st) + is_resolved (state_of s f) ≡ woken s + is_resolved st
woken-set [] f st h = absurd (omega arith)
woken-set (x ∷ s) zero st h = omega arith
woken-set (x ∷ s) (suc f) st h = omega (arith, woken-set s f st (omega arith))

pub set-beyond : (s : Futures) (f : ℕ) (st : FutState) → length s ≤ f → set s f st ≡ s
set-beyond [] f st h = refl
set-beyond (x ∷ s) zero st h = absurd (omega arith)
set-beyond (x ∷ s) (suc f) st h = ap (λ l. x ∷ l) (set-beyond s f st (omega arith))

pub woken-append : (s t : Futures) → woken (s ++ t) ≡ woken s + woken t
woken-append [] t = omega arith
woken-append (x ∷ s) t = omega (arith, woken-append s t)

can_wake-lt : (s : Futures) (f : ℕ) → can_wake (state_of s f) ≡ true → f < length s
can_wake-lt [] f h = cc
can_wake-lt (x ∷ s) zero h = omega arith
can_wake-lt (x ∷ s) (suc f) h = omega (arith, can_wake-lt s f h)

not_resolved : (st : FutState) → can_wake st ≡ true → is_resolved st ≡ 0
not_resolved pending h = refl
not_resolved closed h = cc
not_resolved resolved h = cc
not_resolved cancelled h = cc
not_resolved spent h = cc

state_of-set :
    (s : Futures) (f g : ℕ) (st : FutState)
    → can_wake st ≡ false
    → can_wake (state_of (set s f st) g) ≡ true
    → can_wake (state_of s g) ≡ true
state_of-set [] f g st d h = h
state_of-set (x ∷ s) zero zero st d h = cc
state_of-set (x ∷ s) zero (suc g) st d h = h
state_of-set (x ∷ s) (suc f) zero st d h = h
state_of-set (x ∷ s) (suc f) (suc g) st d h = state_of-set s f g st d h

-- A future that no longer waits makes nobody wait.
pub waiting-set :
    (l : List ℕ) (s : Futures) (f : ℕ) (st : FutState)
    → can_wake st ≡ false
    → waiting l (set s f st) ≡ true
    → waiting l s ≡ true
waiting-set [] s f st d h = h
waiting-set (x ∷ l) s f st d h = elim (Bool-cases (can_wake (state_of (set s f st) x))) [
  | inl e ↦ rw (state_of-set s f x st d e) refl
  | inr e ↦ let k = waiting-set l s f st d (rw (← h) (rw e refl)) in ground (arith, k)
]

pub waiting-remove :
    (f : ℕ) (l : List ℕ) (s : Futures) → waiting (remove f l) s ≡ true → waiting l s ≡ true
unfolding remove
waiting-remove f [] s h = h
waiting-remove f (x ∷ l) s h = ground (arith, waiting-remove f l s)

-- Somebody was woken if anybody waited.
pub wake_next-woken :
    (l : List ℕ) (s : Futures) → waiting l s ≡ true → woken (wake_next l s).1 ≡ suc (woken s)
unfolding wake_next
wake_next-woken [] s h = cc
wake_next-woken (f ∷ l) s h = elim (Bool-cases (can_wake (state_of s f))) [
  | inl e ↦
      rw e
        (omega (arith, woken-set s f resolved (can_wake-lt s f e), not_resolved (state_of s f) e))
  | inr e ↦ rw e (wake_next-woken l s (rw (← h) (rw e refl)))
]

pub wake_next-waiting :
    (l : List ℕ) (s : Futures)
    → waiting (wake_next l s).0 (wake_next l s).1 ≡ true
    → waiting l s ≡ true
unfolding wake_next
wake_next-waiting [] s h = h
wake_next-waiting (f ∷ l) s h = elim (Bool-cases (can_wake (state_of s f))) [
  | inl e ↦ rw e refl
  | inr e ↦ rw e (wake_next-waiting l s (rw e at h))
]

state_of-resolved :
    (s : Futures) (f g : ℕ) (st : FutState)
    → state_of s g ≡ resolved
    → can_wake (state_of s f) ≡ true
    → state_of (set s f st) g ≡ resolved
state_of-resolved [] f g st e h = cc
state_of-resolved (x ∷ s) zero zero st e h = cc
state_of-resolved (x ∷ s) zero (suc g) st e h = e
state_of-resolved (x ∷ s) (suc f) zero st e h = e
state_of-resolved (x ∷ s) (suc f) (suc g) st e h = state_of-resolved s f g st e h

-- A waiter that was woken before stays so.
pub wake_next-resolved :
    (l : List ℕ) (s : Futures) (g : ℕ)
    → state_of s g ≡ resolved
    → state_of (wake_next l s).1 g ≡ resolved
unfolding wake_next
wake_next-resolved [] s g e = e
wake_next-resolved (f ∷ l) s g e = elim (Bool-cases (can_wake (state_of s f))) [
  | inl q ↦ rw q (state_of-resolved s f g resolved e q)
  | inr q ↦ rw q (wake_next-resolved l s g e)
]

pub resolved-lt : (s : Futures) (f : ℕ) → state_of s f ≡ resolved → f < length s
resolved-lt [] f h = cc
resolved-lt (x ∷ s) zero h = omega arith
resolved-lt (x ∷ s) (suc f) h = omega (arith, resolved-lt s f h)

-- The task of a woken waiter goes on.
pub woken-spend :
    (s : Futures) (f : ℕ) → state_of s f ≡ resolved → suc (woken (set s f spent)) ≡ woken s
woken-spend s f e = omega (arith, woken-set s f spent (resolved-lt s f e), ap is_resolved e)

-- A write that neither wakes a waiter nor takes up a wake.
pub woken-same :
    (s : Futures) (f : ℕ) (st : FutState)
    → is_resolved (state_of s f) ≡ is_resolved st
    → woken (set s f st) ≡ woken s
woken-same [] f st e = refl
woken-same (x ∷ s) zero st e = omega arith
woken-same (x ∷ s) (suc f) st e = omega (arith, woken-same s f st e)
