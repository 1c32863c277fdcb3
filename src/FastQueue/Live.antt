-- ===== src/FastQueue/Live.antt =====
-- No step of the coroutines over crates/pyshim/src/fastqueue.rs loses a wake.
use cadeloop.Prelude.{
  ℕ, zero, suc, ◌+◌, ◌≤◌, ◌<◌, ◌≡◌, ◌≢◌, ◌⊎◌, refl, sym, subst, ◌∙◌, ap, true, false, ◌&&◌, not,
  some, List, [], ◌∷◌, arith, length, length-append, set, ◌==◌, Bool-cases, inl, inr,
}
use cadeloop.FastQueue.{
  FutState, pending, closed, resolved, cancelled, spent, Futures, state_of, can_wake, wake_next,
  FastQueue, is_full, World, put_now, get_from, get_now, try_put, park_getter, park_putter, remove,
  after_cancel, is_cancelled, is_empty, getter_recovery, dropped_putter, putter_recovery, task_done,
  done_from, park_joiner, unjoin,
}
use cadeloop.FastQueue.Wake.{
  waiting, woken, waiting-set, waiting-remove, wake_next-woken, wake_next-waiting,
  wake_next-resolved, woken-spend, woken-same, is_resolved, resolved-lt,
}
use cadeloop.FastQueue.Steps.{
  park_if_none, get_or_park, put_or_park, go_getter, go_putter, Step, get, get_again, put,
  put_again, lose_getter, lose_putter, recover_woken_getter, recover_getter, recover_woken_putter,
  recover_putter, finish, join, leave_join, IsLive,
}

put_now-IsLive :
    (w : World) (x : ℕ)
    → (waiting w.queue.getters w.gets ≡ true → length w.queue.items ≤ woken w.gets)
    → (waiting w.queue.putters w.puts ≡ true
        → w.queue.maxsize ≤ suc (length w.queue.items + woken w.puts))
    → (waiting w.queue.join_waiters w.joins ≡ true → 0 < w.queue.unfinished)
    → IsLive (put_now w x)
unfolding put_now
put_now-IsLive w x g p j =
    let n = length-append w.queue.items (x ∷ []) in
    record {
      getters = λ h.
          let k = wake_next-waiting w.queue.getters w.gets h in
          omega (arith, g k, wake_next-woken w.queue.getters w.gets k);
      putters = λ h. let k = p h in omega arith;
      joiners = λ h. omega arith;
    }

get_from-IsLive :
    (w : World) (l : List ℕ)
    → w.queue.items ≡ l
    → (waiting w.queue.getters w.gets ≡ true → length w.queue.items ≤ suc (woken w.gets))
    → (waiting w.queue.putters w.puts ≡ true
        → w.queue.maxsize ≤ length w.queue.items + woken w.puts)
    → (waiting w.queue.join_waiters w.joins ≡ true → 0 < w.queue.unfinished)
    → IsLive (park_if_none (get_from w l)).1
unfolding get_from park_if_none park_getter
get_from-IsLive w [] e g p j = record {
  getters = λ h. omega (arith, ap length e);
  putters = p;
  joiners = j;
}
get_from-IsLive w (x ∷ l) e g p j = record {
  getters = λ h. omega (arith, g h, ap length e);
  putters = λ h.
      let k = wake_next-waiting w.queue.putters w.puts h in
      omega (arith, p k, wake_next-woken w.queue.putters w.puts k, ap length e);
  joiners = j;
}

get_or_park-IsLive :
    (w : World)
    → (waiting w.queue.getters w.gets ≡ true → length w.queue.items ≤ suc (woken w.gets))
    → (waiting w.queue.putters w.puts ≡ true
        → w.queue.maxsize ≤ length w.queue.items + woken w.puts)
    → (waiting w.queue.join_waiters w.joins ≡ true → 0 < w.queue.unfinished)
    → IsLive (get_or_park w).1
unfolding get_or_park get_now
get_or_park-IsLive w g p j = get_from-IsLive w w.queue.items refl g p j

put_or_park-IsLive :
    (w : World) (x : ℕ)
    → (waiting w.queue.getters w.gets ≡ true → length w.queue.items ≤ woken w.gets)
    → (waiting w.queue.putters w.puts ≡ true
        → w.queue.maxsize ≤ suc (length w.queue.items + woken w.puts))
    → (waiting w.queue.join_waiters w.joins ≡ true → 0 < w.queue.unfinished)
    → IsLive (put_or_park w x).1
unfolding put_or_park try_put park_putter
put_or_park-IsLive w x g p j = elim (Bool-cases (is_full w.queue)) [
  | inl e ↦ rw e (record { getters = g; putters = λ h. ground arith; joiners = j })
  | inr e ↦ rw e (put_now-IsLive w x g p j)
]

state_of-set_self :
    (s : Futures) (f : ℕ) (st : FutState) → f < length s → state_of (set s f st) f ≡ st
state_of-set_self [] f st h = absurd (omega arith)
state_of-set_self (x ∷ s) zero st h = refl
state_of-set_self (x ∷ s) (suc f) st h = state_of-set_self s f st (omega arith)

cannot_wake : (st : FutState) → can_wake (after_cancel st) ≡ false
cannot_wake pending = refl
cannot_wake closed = refl
cannot_wake resolved = refl
cannot_wake cancelled = refl
cannot_wake spent = refl

cancel-is_resolved : (st : FutState) → is_resolved st ≡ is_resolved (after_cancel st)
cancel-is_resolved pending = refl
cancel-is_resolved closed = refl
cancel-is_resolved resolved = refl
cancel-is_resolved cancelled = refl
cancel-is_resolved spent = refl

-- A waiter that is dropped makes nobody wait, and takes up no wake.
dropped-waiting :
    (l : List ℕ) (s : Futures) (f : ℕ)
    → waiting (remove f l) (set s f (after_cancel (state_of s f))) ≡ true
    → waiting l s ≡ true
dropped-waiting l s f h =
    waiting-remove f l s
      (waiting-set (remove f l) s f (after_cancel (state_of s f)) (cannot_wake (state_of s f)) h)

dropped-woken : (s : Futures) (f : ℕ) → woken (set s f (after_cancel (state_of s f))) ≡ woken s
dropped-woken s f = woken-same s f (after_cancel (state_of s f)) (cancel-is_resolved (state_of s f))

recover_getter-IsLive : (w : World) (f : ℕ) → IsLive w → IsLive (getter_recovery w f)
unfolding getter_recovery
recover_getter-IsLive w f v =
    let l = remove f w.queue.getters in
    let s = set w.gets f (after_cancel (state_of w.gets f)) in
    let d = dropped-woken w.gets f in
    elim (Bool-cases (not (is_empty w.queue.items) && not (is_cancelled (state_of s f)))) [
      | inl e ↦ rw e (record {
        getters = λ h.
            let k = wake_next-waiting l s h in
            omega (
              arith,
              v.getters (dropped-waiting w.queue.getters w.gets f k),
              wake_next-woken l s k,
            );
        putters = v.putters;
        joiners = v.joiners;
      })
      | inr e ↦ rw e (record {
        getters = λ h. omega (arith, v.getters (dropped-waiting w.queue.getters w.gets f h));
        putters = v.putters;
        joiners = v.joiners;
      })
    ]

recover_putter-IsLive : (w : World) (f : ℕ) → IsLive w → IsLive (putter_recovery w f)
unfolding putter_recovery
recover_putter-IsLive w f v =
    let l = remove f w.queue.putters in
    let s = set w.puts f (after_cancel (state_of w.puts f)) in
    let d = dropped-woken w.puts f in
    elim (Bool-cases
      (not (is_full (dropped_putter w f).queue) && not (is_cancelled (state_of s f)))) [
        | inl e ↦ rw e (record {
          getters = v.getters;
          putters = λ h.
              let k = wake_next-waiting l s h in
              omega (
                arith,
                v.putters (dropped-waiting w.queue.putters w.puts f k),
                wake_next-woken l s k,
              );
          joiners = v.joiners;
        })
        | inr e ↦ rw e (record {
          getters = v.getters;
          putters = λ h. omega (arith, v.putters (dropped-waiting w.queue.putters w.puts f h));
          joiners = v.joiners;
        })
      ]

resolved_after :
    (s : Futures) (f : ℕ)
    → state_of s f ≡ resolved
    → state_of (set s f (after_cancel (state_of s f))) f ≡ resolved
resolved_after s f e =
    state_of-set_self s f (after_cancel (state_of s f)) (resolved-lt s f e) ∙ ap after_cancel e

empty_le : (l : List ℕ) (n : ℕ) → is_empty l ≡ true → length l ≤ n
empty_le [] n h = omega arith
empty_le (x ∷ l) n h = cc

-- The wake of a task that goes on with an exception is handed to another waiter.
recover_woken_getter-IsLive :
    (w : World) (f : ℕ)
    → state_of w.gets f ≡ resolved
    → IsLive w
    → IsLive (go_getter (getter_recovery w f) f)
unfolding getter_recovery
recover_woken_getter-IsLive w f r v =
    let l = remove f w.queue.getters in
    let s = set w.gets f (after_cancel (state_of w.gets f)) in
    let d = dropped-woken w.gets f in
    let still = resolved_after w.gets f r in
    elim (Bool-cases (not (is_empty w.queue.items) && not (is_cancelled (state_of s f)))) [
      | inl e ↦ rw e (record {
        getters = λ h.
            let k =
              wake_next-waiting l s
                (waiting-set (wake_next l s).0 (wake_next l s).1 f spent refl h) in
            omega (
              arith,
              v.getters (dropped-waiting w.queue.getters w.gets f k),
              wake_next-woken l s k,
              woken-spend (wake_next l s).1 f (wake_next-resolved l s f still),
            );
        putters = v.putters;
        joiners = v.joiners;
      })
      | inr e ↦ rw e (record {
        getters = λ h.
            empty_le w.queue.items (woken (set s f spent))
              (ground (arith, still, ap is_cancelled still));
        putters = v.putters;
        joiners = v.joiners;
      })
    ]

full_le : (q : FastQueue) (n : ℕ) → is_full q ≡ true → q.maxsize ≤ length q.items + n
full_le q n h = ground arith

nonzero : (n : ℕ) → n ≢ 0 → 0 < n
nonzero n h = ground arith

some_injective : {a b : World} → some a ≡ some b → a ≡ b
some_injective h = cc

recover_woken_putter-IsLive :
    (w : World) (f : ℕ)
    → state_of w.puts f ≡ resolved
    → IsLive w
    → IsLive (go_putter (putter_recovery w f) f)
unfolding putter_recovery
recover_woken_putter-IsLive w f r v =
    let l = remove f w.queue.putters in
    let s = set w.puts f (after_cancel (state_of w.puts f)) in
    let d = dropped-woken w.puts f in
    let still = resolved_after w.puts f r in
    elim (Bool-cases
      (not (is_full (dropped_putter w f).queue) && not (is_cancelled (state_of s f)))) [
        | inl e ↦ rw e (record {
          getters = v.getters;
          putters = λ h.
              let k =
                wake_next-waiting l s
                  (waiting-set (wake_next l s).0 (wake_next l s).1 f spent refl h) in
              omega (
                arith,
                v.putters (dropped-waiting w.queue.putters w.puts f k),
                wake_next-woken l s k,
                woken-spend (wake_next l s).1 f (wake_next-resolved l s f still),
              );
          joiners = v.joiners;
        })
        | inr e ↦ rw e (record {
          getters = v.getters;
          putters = λ h.
              full_le w.queue (woken (set s f spent))
                (ground (arith, still, ap is_cancelled still));
          joiners = v.joiners;
        })
      ]

lost-IsResolved :
    (s : Futures) (f : ℕ) (st : FutState)
    → can_wake (state_of s f) ≡ true
    → (st ≡ cancelled) ⊎ (st ≡ closed)
    → (woken (set s f st) ≡ woken s) × (can_wake st ≡ false)
lost-IsResolved s f st h c = (woken-same s f st (same (state_of s f) st h c), lost st c)
  where
    same :
        (a b : FutState)
        → can_wake a ≡ true
        → (b ≡ cancelled) ⊎ (b ≡ closed)
        → is_resolved a ≡ is_resolved b
    same pending b h (inl e) = ap is_resolved (sym e)
    same pending b h (inr e) = ap is_resolved (sym e)
    same closed b h c = cc
    same resolved b h c = cc
    same cancelled b h c = cc
    same spent b h c = cc

    lost : (b : FutState) → (b ≡ cancelled) ⊎ (b ≡ closed) → can_wake b ≡ false
    lost b (inl e) = ap can_wake e
    lost b (inr e) = ap can_wake e

done_from-IsLive :
    (w w' : World) (n : ℕ) → IsLive w → w.queue.unfinished ≡ n → done_from w n ≡ some w' → IsLive w'
unfolding done_from
done_from-IsLive w w' zero v e h = cc
done_from-IsLive w w' (suc zero) v e h =
    subst IsLive (some_injective h)
      (record { getters = v.getters; putters = v.putters; joiners = λ k. cc })
done_from-IsLive w w' (suc (suc n)) v e h =
    let q : (suc n == 0) ≡ false = ground arith in
    subst IsLive (some_injective (rw q at h))
      (record { getters = v.getters; putters = v.putters; joiners = λ k. omega arith })

-- No step of any task loses a wake.
pub Step-IsLive : {w w' : World} {i o : List ℕ} → Step w i o w' → IsLive w → IsLive w'
unfolding task_done park_joiner unjoin
Step-IsLive {w} get v = get_or_park-IsLive w (λ h. omega (arith, v.getters h)) v.putters v.joiners
Step-IsLive {w} (get_again f e) v =
    get_or_park-IsLive (go_getter w f)
      (λ h. omega (
        arith,
        v.getters (waiting-set w.queue.getters w.gets f spent refl h),
        woken-spend w.gets f e,
      ))
      v.putters v.joiners
Step-IsLive {w} (put x) v =
    put_or_park-IsLive w x v.getters (λ h. omega (arith, v.putters h)) v.joiners
Step-IsLive {w} (put_again f x e) v =
    put_or_park-IsLive (go_putter w f) x v.getters
      (λ h. omega (
        arith,
        v.putters (waiting-set w.queue.putters w.puts f spent refl h),
        woken-spend w.puts f e,
      ))
      v.joiners
Step-IsLive {w} (lose_getter f st h c) v =
    let (n, d) = lost-IsResolved w.gets f st h c in
    record {
      getters = λ k. omega (arith, n, v.getters (waiting-set w.queue.getters w.gets f st d k));
      putters = v.putters;
      joiners = v.joiners;
    }
Step-IsLive {w} (lose_putter f st h c) v =
    let (n, d) = lost-IsResolved w.puts f st h c in
    record {
      getters = v.getters;
      putters = λ k. omega (arith, n, v.putters (waiting-set w.queue.putters w.puts f st d k));
      joiners = v.joiners;
    }
Step-IsLive {w} (recover_woken_getter f e) v = recover_woken_getter-IsLive w f e v
Step-IsLive {w} (recover_getter f e) v = recover_getter-IsLive w f v
Step-IsLive {w} (recover_woken_putter f e) v = recover_woken_putter-IsLive w f e v
Step-IsLive {w} (recover_putter f e) v = recover_putter-IsLive w f v
Step-IsLive {w} {w' = w'} (finish e) v = done_from-IsLive w w' w.queue.unfinished v refl e
Step-IsLive {w} (join h) v = record {
  getters = v.getters;
  putters = v.putters;
  joiners = λ k. nonzero w.queue.unfinished h;
}
Step-IsLive {w} (leave_join f st d) v = record {
  getters = v.getters;
  putters = v.putters;
  joiners = λ k. v.joiners (
      waiting-set w.queue.join_waiters w.joins f st d
        (waiting-remove f w.queue.join_waiters (set w.joins f st) k));
}
