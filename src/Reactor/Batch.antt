-- ===== src/Reactor/Batch.antt =====
-- The dispatch batch of crates/core/src/reactor.rs: a tick runs what was queued when it began.
use cadeloop.Prelude.{
  ℕ, zero, suc, ◌+◌, ◌-◌, ◌≤◌, ◌≡◌, refl, sym, ap, ◌∙◌, Option, none, some, List, [], ◌∷◌, ◌++◌,
  arith, length, length-take, take, drop, take-append-drop, append-nil, List-cases, take-front,
  drop-front, if_false, ◌==◌, Bool-cases, inl, inr,
}
use cadeloop.Ready.{ReadyQueue, push_front, pop_ready, pop_of, swap_with}
use cadeloop.Reactor.{Reactor, return_rest, take_batch, pop_ready_batched, popped}

module _ {ℓ} {T : Type ℓ} where
  return_rest-drop :
      (n : ℕ) (l : List T) (q : ReadyQueue T)
      → return_rest n l q ≡ record { queue = drop n l ++ q.queue }
  unfolding return_rest push_front
  return_rest-drop zero [] q = refl
  return_rest-drop (suc n) [] q = refl
  return_rest-drop zero (x ∷ l) q =
      ap (λ (r : ReadyQueue T). record { queue = x ∷ r.queue }) (return_rest-drop zero l q)
  return_rest-drop (suc n) (x ∷ l) q = return_rest-drop n l q

module _ {ℓ κ} {T : Type ℓ} {B : Type κ} where
  -- What a batch takes: the tokens at the front, and a place in the statistics.
  pub record Batched (r r' : Reactor T B) (batch : List T) : Type (ℓ ⊔ κ) where
    pub whole : batch ++ r'.queued.queue ≡ r.queued.queue
    pub size : length batch ≡ r.batch_left
    pub done : r'.batch_left ≡ 0
    pub counted : r'.stats.callbacks_dispatched ≡ r.stats.callbacks_dispatched + length batch

  -- `take_batch` with an empty buffer takes exactly the tokens of the snapshot, in order, and leaves those
  -- that were queued behind it for the next tick.
  take_batch_correct :
      (r : Reactor T B)
      → r.batch_left ≤ length r.queued.queue
      → Batched r (take_batch r []).0 (take_batch r []).1
  unfolding take_batch swap_with
  take_batch_correct r le =
      let n = r.batch_left in
      let rest = return_rest-drop n r.queued.queue (record { queue = [] }) in
      let size = length-take n r.queued.queue in
      elim (Bool-cases (n == 0)) [
        | inl t ↦
            rw t (record { whole = refl; size = ground arith; done = refl; counted = omega arith })
        | inr t ↦ rw t (record {
          whole =
              ap (λ (q : ReadyQueue T). take n r.queued.queue ++ q.queue) rest
              ∙ ap (λ l. take n r.queued.queue ++ l) (append-nil (drop n r.queued.queue))
              ∙ take-append-drop n r.queued.queue;
          size = omega arith;
          done = refl;
          counted = refl;
        })
      ]

  -- `n` pops, and the tokens that they hand out.
  pub pops : ℕ → Reactor T B → Reactor T B × List T
  pops zero r = (r, [])
  pops (suc n) r =
      let (r', token) = pop_ready_batched r in
      let (r'', rest) = pops n r' in (r'', elim token [ none ↦ rest | some x ↦ x ∷ rest ])

  -- What `n` pops hand out behind this one.
  abbrev taken : ℕ → Reactor T B × Option T → List T
  taken n v = elim v.1 [ none ↦ (pops n v.0).1 | some x ↦ x ∷ (pops n v.0).1 ]

  popped_one :
      (r : Reactor T B) (x : T) (l : List T) (n : ℕ)
      → r.batch_left ≡ suc n
      → r.queued.queue ≡ x ∷ l
      → (r' : Reactor T B) × (pop_ready_batched r ≡ (r', some x))
        × (r'.queued.queue ≡ l)
        × (r'.batch_left ≡ n)
        × (r'.stats.callbacks_dispatched ≡ r.stats.callbacks_dispatched + 1)
  unfolding pop_ready_batched pop_ready pop_of popped
  popped_one r x l n left at = elim (Bool-cases (r.batch_left == 0)) [
    | inl t ↦ absurd (ground arith)
    | inr t ↦ (
      record r {
        batch_left = r.batch_left - 1;
        queued = record { queue = l };
        stats = record r.stats { callbacks_dispatched = r.stats.callbacks_dispatched + 1 };
      },
      if_false (r.batch_left == 0) _ _ t ∙ ap (λ q. popped r (pop_of q)) at,
      refl,
      omega arith,
      refl,
    )
  ]

  pops-take :
      (n : ℕ) (r : Reactor T B)
      → r.batch_left ≡ n
      → n ≤ length r.queued.queue
      → ((pops n r).1 ≡ take n r.queued.queue)
        × ((pops n r).0.queued.queue ≡ drop n r.queued.queue)
        × ((pops n r).0.batch_left ≡ 0)
        × ((pops n r).0.stats.callbacks_dispatched ≡ r.stats.callbacks_dispatched + n)
  unfolding pops
  pops-take zero r left le = (refl, refl, left, omega arith)
  pops-take (suc n) r left le = elim (List-cases r.queued.queue) [
    | inl e ↦ absurd (omega (arith, ap length e))
    | inr (x, l, at) ↦
        let (r', e, queue, rest, counted) = popped_one r x l n left at in
        let (tokens, behind, done, total) =
          pops-take n r' rest (omega (arith, ap length at, ap length queue)) in
        let step : pop_ready_batched r ≡ (r', some x) = e in
        (
          ap (λ (v : Reactor T B × Option T). taken n v) step
              ∙ ap (λ l. x ∷ l) (tokens ∙ ap (take n) queue)
              ∙ ap (take (suc n)) (sym at),
          ap (λ (v : Reactor T B × Option T). (pops n v.0).0.queued.queue) step
              ∙ behind
              ∙ ap (drop n) queue
              ∙ ap (drop (suc n)) (sym at),
          ap (λ (v : Reactor T B × Option T). (pops n v.0).0.batch_left) step ∙ done,
          ap (λ (v : Reactor T B × Option T). (pops n v.0).0.stats.callbacks_dispatched) step
              ∙ omega arith,
        )
  ]

  -- Popping the tokens of a batch one by one is taking the batch: the same tokens in the same order, the same
  -- queue behind them, and the same statistics.
  pub pops-take_batch :
      (r : Reactor T B) (n : ℕ)
      → r.batch_left ≡ n
      → n ≤ length r.queued.queue
      → ((pops n r).1 ≡ (take_batch r []).1)
        × ((pops n r).0.queued.queue ≡ (take_batch r []).0.queued.queue)
        × ((pops n r).0.batch_left ≡ (take_batch r []).0.batch_left)
        × ((pops n r).0.stats.callbacks_dispatched ≡ (take_batch r []).0.stats.callbacks_dispatched)
  pops-take_batch r n left le =
      let (tokens, behind, done, total) = pops-take n r left le in
      let b = take_batch_correct r (omega arith) in
      let batch = (take_batch r []).1 in
      let size : length batch ≡ n = b.size ∙ left in
      (
        tokens
            ∙ ap (take n) (sym b.whole)
            ∙ take-front batch (take_batch r []).0.queued.queue n size,
        behind
            ∙ ap (drop n) (sym b.whole)
            ∙ drop-front batch (take_batch r []).0.queued.queue n size,
        done ∙ sym b.done,
        omega (arith, b.counted),
      )
