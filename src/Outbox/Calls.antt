-- ===== src/Outbox/Calls.antt =====
-- The calls on a transport's write side keep it sound (crates/pyshim/src/net.rs).
use cadeloop.Prelude.{
  ℕ, ◌≤◌, ◌<◌, ◌≡◌, refl, sym, subst, ◌∙◌, ap, Bool, true, false, ◌&&◌, not, Option, none, some,
  List, [], ◌∷◌, ◌++◌, arith, append_assoc, length, length-drop, take, drop, take-within,
  take-append-drop, ◌==◌, leb, if_true, if_false, Bool-cases, inl, inr, ◌⊎◌,
}
use cadeloop.Outbox.{
  WriteBuf, TransportEntry, resume_writing, Net, flatten, is_empty, queue_event, Answer, SendDone,
  is_op, consume, take_sent, without_op, resume_or_go_on, on_send_done,
}
use cadeloop.Outbox.Buffers.{contents, consume-contents, consume-AllReady}
use cadeloop.Outbox.Gather.{prefix}
use cadeloop.Outbox.Invariant.{
  owed-append, Sending, idle, busy, Sending-as, IsAlive, IsWhole, HasOutput, IsSound, alive-front,
  teardown_with-IsSound, either-IsSound, maybe_finish_shutdown-IsSound, flush_pending-IsSound,
}

-- A completion that succeeds is that of the send in flight, and reports no more than the kernel was handed.
abbrev pub Obeys : Net → SendDone → Type 0
Obeys net c =
    net.entry.conn_lost ≡ false
    → c.os_error ≡ 0
    → (is_op net.entry.send_op c.op ≡ true) × (c.bytes ≤ length (flatten net.posted))

without_op-cases :
    (e : TransportEntry) (op : ℕ)
    → (without_op e op ≡ record e { send_op = none; inflight = 0 }) ⊎ (without_op e op ≡ e)
without_op-cases e op = elim (Bool-cases (is_op e.send_op op)) [
  | inl m ↦ inl (if_true (is_op e.send_op op) (record e { send_op = none; inflight = 0 }) e m)
  | inr m ↦ inr (if_false (is_op e.send_op op) (record e { send_op = none; inflight = 0 }) e m)
]

stopped-IsWhole :
    (net : Net)
    → IsWhole net
    → IsWhole (record net { entry = record net.entry { send_op = none; inflight = 0 } })
stopped-IsWhole net v = record {
  balanced = v.balanced;
  front = v.front;
  alive = λ h.
      let a = v.alive h in
      record { ready = a.ready; counted = a.counted; whole = a.whole; sending = idle refl refl };
}

without_op-IsWhole :
    (net : Net) (op : ℕ) → IsWhole net → IsWhole (record net { entry = without_op net.entry op })
without_op-IsWhole net op v = elim (without_op-cases net.entry op) [
  | inl e ↦ subst (λ x. IsWhole (record net { entry = x })) (sym e) (stopped-IsWhole net v)
  | inr e ↦ subst (λ x. IsWhole (record net { entry = x })) (sym e) v
]

lost_now-IsSound :
    (net : Net) (op : ℕ)
    → net.entry.conn_lost ≡ true
    → IsSound net
    → IsSound (record net { entry = without_op net.entry op })
lost_now-IsSound net op l v = record {
  whole = without_op-IsWhole net op v.whole;
  has_output = λ k. absurd (gone k);
  on_its_way = λ k. absurd (gone k);
}
  where
    gone : (without_op net.entry op).conn_lost ≡ false → ⊥
    gone k = elim (without_op-cases net.entry op) [
      | inl e ↦ let q = ap (λ x. x.conn_lost) e in cc
      | inr e ↦ let q = ap (λ x. x.conn_lost) e in cc
    ]

pub nonempty_of : (l : List WriteBuf) → 0 < length (contents l) → is_empty l ≡ false
nonempty_of [] h = absurd (omega arith)
nonempty_of (b ∷ l) h = refl

resumed-IsWhole :
    (net : Net)
    → net.entry.proto_paused ≡ true
    → IsWhole net
    → IsWhole (
        queue_event
          (record net { entry = record net.entry { proto_paused = false } })
          resume_writing)
resumed-IsWhole net p v = record {
  balanced = λ l. ground (arith, v.balanced l, p, owed-append net.events resume_writing);
  front = v.front;
  alive = λ h.
      let a = v.alive h in
      record {
        ready = a.ready;
        counted = a.counted;
        whole = a.whole;
        sending = Sending-as a.sending refl refl refl;
      };
}

resume_or_go_on-IsSound :
    (net : Net) (next : Answer) → IsWhole net → IsSound (resume_or_go_on net next)
unfolding resume_or_go_on
resume_or_go_on-IsSound net next v =
    let e = net.entry in
    let resumed =
      queue_event (record net { entry = record e { proto_paused = false } }) resume_writing in
    elim (Bool-cases (e.proto_paused && leb e.queued_bytes e.low_water)) [
      | inl r ↦
          let w = resumed-IsWhole net (ground arith) v in
          rw r (
            either-IsSound (not (is_empty e.wq))
              (λ n. flush_pending-IsSound resumed next w (λ k q. cc))
              (λ n. record { whole = w; has_output = λ k q. cc; on_its_way = λ k. ground arith }))
      | inr r ↦
          let h : HasOutput e = λ k p. nonempty_of e.wq (
            let a = v.alive k in
            over_low e.proto_paused e.queued_bytes e.low_water p r a.counted) in
          rw r (
            either-IsSound (not (is_empty e.wq)) (λ n. flush_pending-IsSound net next v h)
              (λ n.
                maybe_finish_shutdown-IsSound net
                  (record { whole = v; has_output = h; on_its_way = λ k. ground arith })))
    ]
  where
    over_low : (p : Bool) (q l : ℕ) {n : ℕ} → p ≡ true → (p && leb q l) ≡ false → q ≡ n → 0 < n
    over_low p q l e f g = ground arith

not_idle : (o : Option ℕ) (op : ℕ) → o ≡ none → is_op o op ≡ true → ⊥
not_idle none op n m = cc
not_idle (some x) op n m = cc

-- The front that was taken, and what is left behind it.
taken_whole :
    (p zs all : List ℕ) (n : ℕ) → n ≤ length p → p ++ zs ≡ all → take n p ++ drop n all ≡ all
taken_whole p zs all n h e =
    ap (λ l. l ++ drop n all) (sym (take-within n p zs h) ∙ ap (take n) e) ∙ take-append-drop n all

module _ (net : Net) (c : SendDone) (l : net.entry.conn_lost ≡ false) (v : IsWhole net)
    (m : is_op net.entry.send_op c.op ≡ true) (few : c.bytes ≤ length (flatten net.posted)) where
  taken :
      IsAlive net
      → Sending net.entry net.posted
      → IsAlive
          (take_sent (record net { entry = record net.entry { send_op = none; inflight = 0 } }) c)
  taken a (idle n z) = absurd (not_idle net.entry.send_op c.op n m)
  taken a (busy s i g view (prefix zs p) some_bytes most) =
      let wq = net.entry.wq in
      let left = consume-contents c.bytes wq in
      record {
        ready = consume-AllReady c.bytes wq a.ready;
        counted = omega (arith, a.counted, ap length left, length-drop c.bytes (contents wq));
        whole =
            append_assoc net.delivered (take c.bytes (flatten net.posted))
              (contents (consume c.bytes wq))
            ∙ ap (λ k. net.delivered ++ (take c.bytes (flatten net.posted) ++ k)) left
            ∙ ap (λ k. net.delivered ++ k)
                (taken_whole (flatten net.posted) zs (contents wq) c.bytes few p)
            ∙ a.whole;
        sending = idle refl refl;
      }

  take_sent-IsWhole :
      IsWhole
        (take_sent (record net { entry = record net.entry { send_op = none; inflight = 0 } }) c)
  take_sent-IsWhole =
      let a = v.alive l in
      let t = taken a a.sending in
      record { balanced = v.balanced; front = alive-front _ t; alive = λ k. t }

pub on_send_done-IsSound :
    (windows : Bool) (net : Net) (c : SendDone)
    → IsSound net
    → Obeys net c
    → IsSound (on_send_done windows net c)
unfolding on_send_done
on_send_done-IsSound windows net c v o =
    either-IsSound net.entry.conn_lost (λ l. lost_now-IsSound net c.op l v)
      (λ l.
        either-IsSound (not (c.os_error == 0))
          (λ e.
            teardown_with-IsSound (record net { entry = without_op net.entry c.op }) _
              (without_op-IsWhole net c.op v.whole))
          (λ e.
            let (m, few) = o l (ground arith) in
            let q =
              if_true (is_op net.entry.send_op c.op)
                (record net.entry { send_op = none; inflight = 0 }) net.entry m in
            subst (λ x. IsSound (resume_or_go_on (take_sent (record net { entry = x }) c) c.next))
              (sym q) (resume_or_go_on-IsSound _ c.next (take_sent-IsWhole net c l v.whole m few))))
