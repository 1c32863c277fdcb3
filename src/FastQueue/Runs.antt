-- ===== src/FastQueue/Runs.antt =====
-- Runs of the coroutines over crates/pyshim/src/fastqueue.rs: order, and no lost wake.
use cadeloop.Prelude.{
  ℕ, ◌≡◌, refl, sym, ◌∙◌, ap, some, List, [], ◌∷◌, ◌++◌, arith, append_assoc, append-nil,
  Bool-cases, inl, inr, not, ◌&&◌,
}
use cadeloop.FastQueue.{
  World, new_queue, put_now, get_from, get_now, try_put, park_getter, park_putter, getter_recovery,
  dropped_getter, putter_recovery, dropped_putter, task_done, done_from, park_joiner, unjoin,
  is_full, is_empty, is_cancelled, state_of,
}
use cadeloop.FastQueue.Steps.{
  park_if_none, get_or_park, park_if_full, put_or_park, go_getter, go_putter, Step, get, get_again,
  put, put_again, lose_getter, lose_putter, recover_woken_getter, recover_getter,
  recover_woken_putter, recover_putter, finish, join, leave_join, IsLive, entered, left,
}
use cadeloop.FastQueue.Live.{Step-IsLive}

-- What went in and what came out, in order, over the steps of all tasks.
pub data Run (w : World) : List ℕ → List ℕ → World → Type 0 where
  start : Run w [] [] w
  then_step :
      {w' w'' : World} {i o i' o' : List ℕ}
      → Run w i o w'
      → Step w' i' o' w''
      → Run w (i ++ i') (o ++ o') w''

abbrev pub new_world : ℕ → World
new_world maxsize = record { queue = new_queue maxsize; gets = []; puts = []; joins = [] }

new_world-IsLive : (maxsize : ℕ) → IsLive (new_world maxsize)
unfolding new_queue
new_world-IsLive maxsize = record { getters = λ h. cc; putters = λ h. cc; joiners = λ h. cc }

Run-IsLive_from : {w w' : World} {i o : List ℕ} → Run w i o w' → IsLive w → IsLive w'
Run-IsLive_from start v = v
Run-IsLive_from (then_step r s) v = Step-IsLive s (Run-IsLive_from r v)

-- In every state that the tasks of a new queue reach, with waiters that are cancelled, time out or lose their
-- loop at any moment: while a getter waits there are no more items than getters woken and about to go on, while
-- a putter waits no more room than such putters, and while a joiner waits an item is unfinished.
pub Run-IsLive : (maxsize : ℕ) {w : World} {i o : List ℕ} → Run (new_world maxsize) i o w → IsLive w
Run-IsLive maxsize r = Run-IsLive_from r (new_world-IsLive maxsize)

get_from-order :
    (w : World) (l : List ℕ)
    → w.queue.items ≡ l
    → left (park_if_none (get_from w l)).0 ++ (park_if_none (get_from w l)).1.queue.items
      ≡ w.queue.items ++ []
unfolding get_from park_if_none park_getter
get_from-order w [] e = sym (append-nil w.queue.items)
get_from-order w (x ∷ l) e = sym e ∙ sym (append-nil w.queue.items)

put_or_park-order :
    (w : World) (x : ℕ)
    → (put_or_park w x).1.queue.items ≡ w.queue.items ++ entered (put_or_park w x).0 x
unfolding put_or_park try_put park_putter put_now park_if_full
put_or_park-order w x = elim (Bool-cases (is_full w.queue)) [
  | inl e ↦ rw e (sym (append-nil w.queue.items))
  | inr e ↦ rw e refl
]

getter_recovery-items : (w : World) (f : ℕ) → (getter_recovery w f).queue.items ≡ w.queue.items
unfolding getter_recovery
getter_recovery-items w f =
    elim (Bool-cases
      (not (is_empty w.queue.items) && not (is_cancelled (state_of (dropped_getter w f).gets f)))) [
        | inl e ↦ rw e refl
        | inr e ↦ rw e refl
      ]

putter_recovery-items : (w : World) (f : ℕ) → (putter_recovery w f).queue.items ≡ w.queue.items
unfolding putter_recovery
putter_recovery-items w f =
    elim (Bool-cases (
      not (is_full (dropped_putter w f).queue)
      && not (is_cancelled (state_of (dropped_putter w f).puts f)))) [
        | inl e ↦ rw e refl
        | inr e ↦ rw e refl
      ]

done_from-items : (w w' : World) (n : ℕ) → done_from w n ≡ some w' → w'.queue.items ≡ w.queue.items
unfolding done_from
done_from-items w w' n e = ground arith

Step-order :
    {w w' : World} {i o : List ℕ} → Step w i o w' → o ++ w'.queue.items ≡ w.queue.items ++ i
unfolding get_or_park get_now task_done park_joiner unjoin
Step-order {w} get = get_from-order w w.queue.items refl
Step-order {w} (get_again f e) = get_from-order (go_getter w f) w.queue.items refl
Step-order {w} (put x) = put_or_park-order w x
Step-order {w} (put_again f x e) = put_or_park-order (go_putter w f) x
Step-order {w} (lose_getter f st h c) = sym (append-nil w.queue.items)
Step-order {w} (lose_putter f st h c) = sym (append-nil w.queue.items)
Step-order {w} (recover_woken_getter f e) =
    getter_recovery-items w f ∙ sym (append-nil w.queue.items)
Step-order {w} (recover_getter f e) = getter_recovery-items w f ∙ sym (append-nil w.queue.items)
Step-order {w} (recover_woken_putter f e) =
    putter_recovery-items w f ∙ sym (append-nil w.queue.items)
Step-order {w} (recover_putter f e) = putter_recovery-items w f ∙ sym (append-nil w.queue.items)
Step-order {w} {w' = w'} (finish e) =
    done_from-items w w' w.queue.unfinished e ∙ sym (append-nil w.queue.items)
Step-order {w} (join h) = sym (append-nil w.queue.items)
Step-order {w} (leave_join f st d) = sym (append-nil w.queue.items)

-- Over any run of the tasks, what came out and then what is left is what was there and then what went in: each
-- item comes out once, in order, whatever waiters were woken, cancelled or dropped.
pub Run-order :
    {w w' : World} {i o : List ℕ} → Run w i o w' → o ++ w'.queue.items ≡ w.queue.items ++ i
Run-order {w} start = sym (append-nil w.queue.items)
Run-order {w} {w' = w''} (then_step {w'} {i = i} {o = o} {i' = i'} {o' = o'} r s) =
    append_assoc o o' w''.queue.items
    ∙ ap (λ l. o ++ l) (Step-order s)
    ∙ sym (append_assoc o w'.queue.items i')
    ∙ ap (λ l. l ++ i') (Run-order r)
    ∙ append_assoc w.queue.items i i'
