-- ===== src/Reactor/Timeout.antt =====
-- `poll_timeout` of crates/core/src/reactor.rs.
use mathlib.Core.List.{Mem, not-mem-nil}
use cadeloop.Prelude.{
  ℕ, ◌+◌, ◌-◌, ◌≤◌, ◌<◌, min, ◌≡◌, refl, sym, subst, true, false, ◌||◌, Option, some, List, [],
  arith, length, get_elem?, ltb, leb, Bool-cases, inl, inr,
}
use cadeloop.Prelude.Partial.{Yields, yields, Yields-if, Yields-then}
use cadeloop.Clock.{cached_time}
use cadeloop.Timer.{TimerPayload, Entry}
use cadeloop.Timer.Order.{IsBelow-mem, seq_bound}
use cadeloop.Timer.Heap.{is_dead}
use cadeloop.Timer.Heap.Expire.{
  IsValid, IsValid-IsSmall, Removed, Removed-refl, Earliest, no_entry, live_entry,
  next_deadline_correct,
}
use cadeloop.Reactor.{Reactor, max_park, park_until, poll_timeout, ready_len}

module _ {ℓ κ} {T : Type ℓ} {B : Type κ} ⦃p : TimerPayload T⦄ where
  -- The reasons for a timeout, with the tick's time: work is ready, a live timer is due, the park ends at the
  -- deadline of the first live timer, or no timer is due within the longest park.
  pub data Wait (r : Reactor T B) (time : ℕ) (r' : Reactor T B) : ℕ → Type (ℓ ⊔ κ) where
    busy : 0 < ready_len r → r'.deadline_bound ≡ false → Wait r time r' 0
    due :
        (e : Entry T)
        → ready_len r ≡ 0
        → get_elem? r'.timers.entries 0 ≡ some e
        → is_dead e ≡ false
        → e.deadline ≤ time
        → r'.deadline_bound ≡ false
        → Wait r time r' 0
    until :
        (e : Entry T)
        → ready_len r ≡ 0
        → get_elem? r'.timers.entries 0 ≡ some e
        → is_dead e ≡ false
        → time < e.deadline
        → ((x : Entry T) → Mem x r'.timers.entries → e.deadline ≤ x.deadline)
        → e.deadline - time ≤ max_park
        → r'.deadline_bound ≡ true
        → Wait r time r' (e.deadline - time)
    idle :
        ready_len r ≡ 0
        → ((x : Entry T) → Mem x r'.timers.entries → time + max_park < x.deadline)
        → r'.deadline_bound ≡ false
        → Wait r time r' max_park

  pub record Timeout (r : Reactor T B) (raw : ℕ) (v : Reactor T B × ℕ) : Type (ℓ ⊔ κ) where
    pub dead : List (Entry T)
    pub removed : Removed r.timers v.0.timers dead []
    pub wait : Wait r (cached_time r.clock raw).1 v.0 v.1

  Wait-bounded : {r r' : Reactor T B} {time d : ℕ} → Wait r time r' d → d ≤ max_park
  Wait-bounded (busy h q) = omega arith
  Wait-bounded (due e none_ready at live le q) = omega arith
  Wait-bounded (until e none_ready at live lt most le q) = le
  Wait-bounded (idle none_ready h q) = omega arith

  park_until-Wait :
      (r s : Reactor T B) (raw : ℕ) (d : Option ℕ)
      → ready_len r ≡ 0
      → s.deadline_bound ≡ false
      → IsValid s.timers
      → Earliest s.timers.entries d
      → (Wait r (cached_time s.clock raw).1 (park_until s raw d).0 (park_until s raw d).1)
        × ((park_until s raw d).0.timers ≡ s.timers)
  unfolding park_until
  park_until-Wait r s raw _ none_ready unbound v (no_entry e) =
      (idle none_ready (λ x m. absurd (not-mem-nil (subst (Mem x) e m))) unbound, refl)
  park_until-Wait r s raw _ none_ready unbound v (live_entry e at live first) =
      let time = (cached_time s.clock raw).1 in
      let small = IsValid-IsSmall v in
      let earliest : (x : Entry T) → Mem x s.timers.entries → e.deadline ≤ x.deadline =
        λ x m. omega (arith, first x m, IsBelow-mem seq_bound s.timers.entries small x m) in
      elim (Bool-cases (leb e.deadline time)) [
        | inl t ↦ rw t (due e none_ready at live (ground arith) unbound, refl)
        | inr t ↦ elim (Bool-cases (leb (e.deadline - time) max_park)) [
          | inl u ↦
              let d_is : min (e.deadline - time) max_park ≡ e.deadline - time = ground arith in
              rw (t, d_is)
                (until e none_ready at live (ground arith) earliest (ground arith) u, refl)
          | inr u ↦
              let d_is : min (e.deadline - time) max_park ≡ max_park = ground arith in
              rw (t, d_is) (idle none_ready (λ x m. ground (arith, earliest x m)) u, refl)
        ]
      ]

  -- On a valid timer heap `poll_timeout` returns, removes only cancelled timers, and answers at most 100 ms:
  -- nothing exactly if callbacks or expired timers wait or a live timer is due; the time to the first live deadline
  -- if that is within 100 ms, and then the park is marked as bound by a deadline; and 100 ms otherwise, when
  -- every timer left is due later than that.
  pub poll_timeout_correct :
      (r : Reactor T B) (raw : ℕ)
      → IsValid r.timers
      → Yields (λ v. Timeout r raw v × (v.1 ≤ max_park)) (poll_timeout r raw)
  unfolding poll_timeout ready_len
  poll_timeout_correct r raw v =
      Yields-if (ltb 0 (length r.queued.queue) || ltb 0 (length r.expired))
        (λ t.
          let w = busy (work t) refl in
          yields (record { dead = []; removed = Removed-refl v; wait = w }, Wait-bounded w))
        (λ t. Yields-then (next_deadline_correct r.timers v) (λ (d, timers) (dropped, answer).
          let s = record r { deadline_bound = false; timers = timers } in
          let top = subst (Earliest timers.entries) (sym answer) dropped.live_top in
          let (w, same) = park_until-Wait r s raw d (no_work t) refl dropped.removed.valid top in
          yields (
            record {
              dead = dropped.dead;
              removed = subst (λ h. Removed r.timers h dropped.dead []) (sym same) dropped.removed;
              wait = w;
            },
            Wait-bounded w,
          )))
    where
      work : (ltb 0 (length r.queued.queue) || ltb 0 (length r.expired)) ≡ true → 0 < ready_len r
      work t = ground arith

      no_work :
          (ltb 0 (length r.queued.queue) || ltb 0 (length r.expired)) ≡ false → ready_len r ≡ 0
      no_work t = ground arith
