-- ===== src/Inbox/Arrivals.antt =====
-- The completions of a transport's receives (crates/pyshim/src/net.rs).
use cadeloop.Prelude.{
  ℕ, ◌≡◌, refl, sym, ◌∙◌, ap, subst, Bool, true, false, ◌||◌, not, none, List, [], ◌∷◌, ◌++◌, map,
  append-nil, inl, inr, arith, Bool-cases, if◌then◌else◌, ◌==◌, if_true, if_false,
}
use cadeloop.Outbox.{is_op}
use cadeloop.Inbox.{
  Signal, byte, ended, InboundEvent, plain_data, buf_data, eof, ReadSide, push_event, hold,
  RecvDone, signals, arrived, inbound, take_eof, take_bytes, is_empty, on_recv_done,
}
use cadeloop.Inbox.Bytes.{waiting, has_ended, held_signals, waiting-append, has_ended-append}
use cadeloop.Inbox.Order.{
  Agrees, Agrees-as, IsWhole, IsFree, IsOrdered, either-IsOrdered, whole-IsOrdered,
  post_recv-IsOrdered, hold-IsWhole, hold_ended-IsWhole, swap_empty, arrives-IsWhole,
  arrived-IsFront, shut-IsOrdered, teardown_with-IsOrdered,
}

signals_empty : (l : List ℕ) → is_empty l ≡ true → signals l ≡ ended ∷ []
signals_empty [] h = refl
signals_empty (_ ∷ _) h = cc

signals_bytes : (l : List ℕ) → is_empty l ≡ false → signals l ≡ map byte l
signals_bytes [] h = cc
signals_bytes (_ ∷ _) h = refl

inbound-waiting : (c : RecvDone) → waiting (inbound c ∷ []) ≡ map byte c.bytes
inbound-waiting c = elim (Bool-cases c.plain) [
  | inl p ↦
      ap waiting (ap (λ k. k ∷ []) (if_true c.plain (plain_data c.bytes) (buf_data c.bytes) p))
      ∙ append-nil _
  | inr p ↦
      ap waiting (ap (λ k. k ∷ []) (if_false c.plain (plain_data c.bytes) (buf_data c.bytes) p))
      ∙ append-nil _
]

-- A transport on which signals have arrived that are not in its queue yet.
abbrev pub IsDue : ReadSide → List Signal → Type 0
IsDue r more =
    Agrees (r.told ++ (held_signals r.paused_recv r.paused_eof ++ (waiting r.events ++ more)))
      r.received

-- They are first where nothing waits.
due_first :
    (r : ReadSide) (more : List Signal)
    → waiting r.events ≡ []
    → IsDue r more
    → Agrees
        (r.told ++ (held_signals r.paused_recv r.paused_eof ++ (more ++ waiting r.events)))
        r.received
due_first r more e h =
    Agrees-as
      (ap (λ k. r.told ++ (held_signals r.paused_recv r.paused_eof ++ k))
        (swap_empty more (waiting r.events) (inr e)))
      h

push_event-IsWhole :
    (r : ReadSide) (event : InboundEvent)
    → IsDue r (waiting (event ∷ []))
    → IsWhole (push_event r event)
push_event-IsWhole r event h =
    Agrees-as
      (ap (λ k. r.told ++ (held_signals r.paused_recv r.paused_eof ++ k))
        (waiting-append r.events (event ∷ [])))
      h

take_eof-IsOrdered :
    (r : ReadSide)
    → IsDue r (ended ∷ [])
    → IsFree r
    → (r.reading_paused ≡ true → waiting r.events ≡ [])
    → has_ended r.received ≡ true
    → IsOrdered (take_eof r)
take_eof-IsOrdered r w f n h =
    either-IsOrdered r.reading_paused
      (λ p.
        whole-IsOrdered (record r { paused_eof = true })
          (hold_ended-IsWhole r (waiting r.events) (due_first r (ended ∷ []) (n p) w)) (λ q. cc)
          (λ c l q. cc))
      (λ p. whole-IsOrdered (push_event r eof) (push_event-IsWhole r eof w) f (λ c l q k. cc))

take_bytes-IsOrdered :
    (r : ReadSide) (c : RecvDone)
    → IsDue r (map byte c.bytes)
    → IsFree r
    → (r.reading_paused ≡ true → waiting r.events ≡ [])
    → IsOrdered (take_bytes r c)
take_bytes-IsOrdered r c w f n =
    either-IsOrdered r.reading_paused
      (λ p.
        whole-IsOrdered (hold r c.bytes)
          (hold-IsWhole r c.bytes (waiting r.events) (due_first r (map byte c.bytes) (n p) w))
          (λ q. cc) (λ c l q. cc))
      (λ p.
        post_recv-IsOrdered (push_event r (inbound c)) c.next
          (push_event-IsWhole r (inbound c) (subst (IsDue r) (sym (inbound-waiting c)) w)) f)

-- After an EOF the kernel reports no bytes, but it may report the EOF again, and nothing is completed on an open
-- transport that is paused before its events that wait are dispatched.
pub record IsTimely (r : ReadSide) (c : RecvDone) : Type 0 where
  pub at_end : c.os_error ≡ 0 → has_ended r.received ≡ true → c.bytes ≡ []
  pub nothing_waits :
      r.closing ≡ false → r.conn_lost ≡ false → r.reading_paused ≡ true → waiting r.events ≡ []

-- What a completion without an error brings.
came : ReadSide → RecvDone → ReadSide
came r c = record r {
  recv_op = if is_op r.recv_op c.op then none else r.recv_op;
  received = r.received ++ signals c.bytes;
}

taken-IsOrdered :
    (r : ReadSide) (c : RecvDone)
    → IsOrdered r
    → IsTimely r c
    → r.closing ≡ false
    → r.conn_lost ≡ false
    → c.os_error ≡ 0
    → IsOrdered (if is_empty c.bytes then take_eof (came r c) else take_bytes (came r c) c)
unfolding came
taken-IsOrdered r c v t k l z =
    let w =
      arrives-IsWhole r.told (held_signals r.paused_recv r.paused_eof) (waiting r.events) r.received
        c.bytes (v.whole k l) (t.at_end z) in
    either-IsOrdered (is_empty c.bytes)
      (λ e.
        take_eof-IsOrdered (came r c) (subst (IsDue (came r c)) (signals_empty c.bytes e) w)
          (v.free k l) (t.nothing_waits k l)
          (ap (λ s. has_ended (r.received ++ s)) (signals_empty c.bytes e)
            ∙ ground (arith, has_ended-append r.received (ended ∷ []))))
      (λ e.
        take_bytes-IsOrdered (came r c) c (subst (IsDue (came r c)) (signals_bytes c.bytes e) w)
          (v.free k l) (t.nothing_waits k l))

pub on_recv_done-IsOrdered :
    (windows : Bool) (r : ReadSide) (c : RecvDone)
    → IsOrdered r
    → IsTimely r c
    → IsOrdered (on_recv_done windows r c)
unfolding on_recv_done came
on_recv_done-IsOrdered windows r c v t =
    let a = arrived-IsFront r c v.ahead in
    let o = v.last in
    either-IsOrdered (r.conn_lost || r.closing)
      (λ s. shut-IsOrdered (arrived r c) a o (ground arith))
      (λ s.
        either-IsOrdered (not (c.os_error == 0)) (λ e. teardown_with-IsOrdered (arrived r c) _ a o)
          (λ e.
            let q =
              if_true (c.os_error == 0) (r.received ++ signals c.bytes) r.received (ground arith) in
            let same : came r c ≡ arrived r c =
              ap
                (λ x. record r {
                  recv_op = if is_op r.recv_op c.op then none else r.recv_op;
                  received = x;
                })
                (sym q) in
            subst (λ x. IsOrdered (if is_empty c.bytes then take_eof x else take_bytes x c)) same
              (taken-IsOrdered r c v t (ground arith) (ground arith) (ground arith))))
