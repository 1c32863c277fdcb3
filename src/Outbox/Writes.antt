-- ===== src/Outbox/Writes.antt =====
-- Writes on a transport and their flow control keep its write side sound (crates/pyshim/src/net.rs).
use cadeloop.Prelude.{
  ℕ, zero, suc, ◌≤◌, ◌<◌, ◌≡◌, refl, sym, ◌∙◌, ap, Bool, true, false, ◌||◌, List, [], ◌∷◌, ◌++◌,
  map, arith, append_assoc, length, length-append, take, leb, if◌then◌else◌,
}
use cadeloop.Outbox.{
  slice, pauses_writing, Net, flatten, is_some, call_out, Answer, flush_pending, SendDone,
  on_send_done, Queued, bytes_of, enqueue, cork_flush_bytes,
}
use cadeloop.Outbox.Ops.{
  Inline, translate, settle_loop, settle_inline, within_mark, maybe_pause, cork,
}
use cadeloop.Outbox.Buffers.{contents, Enqueued, enqueue-Enqueued}
use cadeloop.Outbox.Gather.{Prefix, prefix}
use cadeloop.Outbox.Invariant.{
  pauses-append, resumes-append, Sending, idle, busy, Sending-as, IsWhole, HasOutput, IsSound,
  either-IsSound, flush_pending-IsSound,
}
use cadeloop.Outbox.Calls.{Obeys, on_send_done-IsSound, nonempty_of}

-- Each completion of a list obeys in the state that it finds.
abbrev pub AllObey : Bool → Net → List SendDone → Type 0
AllObey windows net [] = Unit
AllObey windows net (c ∷ l) = Obeys net c × AllObey windows (on_send_done windows net c) l

abbrev pub RoundsObey : ℕ → Bool → Net → List (List SendDone) → Type 0
RoundsObey zero windows net rounds = Unit
RoundsObey (suc k) windows net [] = Unit
RoundsObey (suc k) windows net ([] ∷ l) = Unit
RoundsObey (suc k) windows net ((c ∷ cs) ∷ l) =
    AllObey windows net (c ∷ cs) × RoundsObey k windows (translate windows net (c ∷ cs)) l

translate-IsSound :
    (windows : Bool) (net : Net) (l : List SendDone)
    → IsSound net
    → AllObey windows net l
    → IsSound (translate windows net l)
unfolding translate
translate-IsSound windows net [] v o = v
translate-IsSound windows net (c ∷ l) v o =
    translate-IsSound windows (on_send_done windows net c) l
      (on_send_done-IsSound windows net c v o.0) o.1

settle_loop-IsSound :
    (k : ℕ) (windows : Bool) (net : Net) (rounds : List (List SendDone))
    → IsSound net
    → RoundsObey k windows net rounds
    → IsSound (settle_loop k windows net rounds)
unfolding settle_loop
settle_loop-IsSound zero windows net rounds v o = v
settle_loop-IsSound (suc k) windows net [] v o = v
settle_loop-IsSound (suc k) windows net ([] ∷ l) v o = v
settle_loop-IsSound (suc k) windows net ((c ∷ cs) ∷ l) v o =
    settle_loop-IsSound k windows (translate windows net (c ∷ cs)) l
      (translate-IsSound windows net (c ∷ cs) v o.0) o.1

pub settle_inline-IsSound :
    (windows : Bool) (net : Net) (rounds : List (List SendDone))
    → IsSound net
    → RoundsObey 8 windows net rounds
    → IsSound (settle_inline windows net rounds)
unfolding settle_inline
settle_inline-IsSound windows net rounds v o = settle_loop-IsSound 8 windows net rounds v o

-- The send that `maybe_pause` makes before it decides.
abbrev pub flushed : Net → Inline → Net
flushed net inline = if is_some net.entry.send_op then net else flush_pending net inline.flush

paused-IsSound :
    (net : Net)
    → within_mark net.entry ≡ false
    → IsSound net
    → IsSound
        (call_out (record net { entry = record net.entry { proto_paused = true } }) pauses_writing)
paused-IsSound net o v = record {
  whole = record {
    balanced = λ l.
        let p =
          running net.entry.conn_lost net.entry.proto_paused
            (leb net.entry.queued_bytes net.entry.high_water) o in
        ground (
          arith,
          v.whole.balanced l,
          p,
          pauses-append net.calls pauses_writing,
          resumes-append net.calls pauses_writing,
        );
    front = v.whole.front;
    alive = λ h.
        let a = v.whole.alive h in
        record {
          ready = a.ready;
          counted = a.counted;
          whole = a.whole;
          sending = Sending-as a.sending refl refl refl;
        };
  };
  has_output = λ h p.
      let a = v.whole.alive h in
      nonempty_of net.entry.wq (
        over net.entry.conn_lost net.entry.proto_paused net.entry.queued_bytes net.entry.high_water
          o a.counted);
  on_its_way = v.on_its_way;
}
  where
    running : (l p b : Bool) → (l || p || b) ≡ false → p ≡ false
    running l p b h = ground arith

    over : (l p : Bool) (q m : ℕ) {n : ℕ} → (l || p || leb q m) ≡ false → q ≡ n → 0 < n
    over l p q m h e = ground arith

pub maybe_pause-IsSound :
    (windows : Bool) (net : Net) (inline : Inline)
    → IsSound net
    → RoundsObey 8 windows (flushed net inline) inline.rounds
    → IsSound (maybe_pause windows net inline)
unfolding maybe_pause
maybe_pause-IsSound windows net inline v o =
    let f =
      either-IsSound (is_some net.entry.send_op) (λ s. v)
        (λ s. flush_pending-IsSound net inline.flush v.whole v.has_output) in
    let s = settle_inline-IsSound windows (flushed net inline) inline.rounds f o in
    let settled = settle_inline windows (flushed net inline) inline.rounds in
    either-IsSound (within_mark net.entry) (λ e. v)
      (λ e. either-IsSound (within_mark settled.entry) (λ g. s) (λ g. paused-IsSound settled g s))

-- The net once a write is queued.
abbrev pub queued : Net → Queued → Net
queued net q = record net { entry = enqueue net.entry q; written = net.written ++ bytes_of q }

module _ (net : Net) (q : Queued) (l : net.entry.conn_lost ≡ false) (v : IsSound net)
    (n : 0 < length (bytes_of q)) where
  within : Sending net.entry net.posted → net.entry.inflight ≤ length net.entry.wq
  within (idle s i) = omega arith
  within (busy s i g view p some_bytes most) = i

  enqueued : Enqueued net.entry (enqueue net.entry q) (bytes_of q)
  enqueued =
      let a = v.whole.alive l in
      enqueue-Enqueued net.entry (bytes_of q) a.ready n (within a.sending) q refl

  queued-Sending :
      Enqueued net.entry (enqueue net.entry q) (bytes_of q)
      → Sending net.entry net.posted
      → Sending (enqueue net.entry q) net.posted
  queued-Sending x (idle s i) =
      idle (ap (λ e. e.send_op) x.as_is ∙ s) (ap (λ e. e.inflight) x.as_is ∙ i)
  queued-Sending x (busy s i g view (prefix zs p) some_bytes most) =
      let k = ap (λ e. e.inflight) x.as_is in
      busy (ap (λ e. is_some e.send_op) x.as_is ∙ s) (omega (arith, x.longer)) (omega arith)
        (ap (λ n. map slice (take n (enqueue net.entry q).wq)) k
          ∙ ap (map slice) x.untouched
          ∙ view)
        (prefix (zs ++ bytes_of q) (
          sym (append_assoc (flatten net.posted) zs (bytes_of q))
          ∙ ap (λ l. l ++ bytes_of q) p
          ∙ sym x.grew))
        some_bytes most

  pub queued-IsWhole : IsWhole (queued net q)
  queued-IsWhole =
      let x = enqueued in
      record {
        balanced =
            λ k. let p = ap (λ e. e.proto_paused) x.as_is in ground (arith, v.whole.balanced l);
        front = longer v.whole.front;
        alive = λ h.
            let a = v.whole.alive l in
            record {
              ready = x.ready;
              counted = omega (
                arith,
                x.counted,
                a.counted,
                ap length x.grew,
                length-append (contents net.entry.wq) (bytes_of q),
              );
              whole =
                  ap (λ k. net.delivered ++ k) x.grew
                  ∙ sym (append_assoc net.delivered (contents net.entry.wq) (bytes_of q))
                  ∙ ap (λ k. k ++ bytes_of q) a.whole;
              sending = queued-Sending x a.sending;
            };
      }
    where
      longer : Prefix net.delivered net.written → Prefix net.delivered (net.written ++ bytes_of q)
      longer (prefix zs e) =
          prefix (zs ++ bytes_of q)
            (sym (append_assoc net.delivered zs (bytes_of q)) ∙ ap (λ k. k ++ bytes_of q) e)

  pub queued-HasOutput : HasOutput (enqueue net.entry q)
  queued-HasOutput h p =
      let x = enqueued in
      nonempty_of (enqueue net.entry q).wq
        (omega (arith, ap length x.grew, length-append (contents net.entry.wq) (bytes_of q)))

scheduled-IsSound :
    (net : Net)
    → IsWhole net
    → HasOutput net.entry
    → IsSound (record net { entry = record net.entry { flush_scheduled = true } })
scheduled-IsSound net v h = record {
  whole = record {
    balanced = v.balanced;
    front = v.front;
    alive = λ k.
        let a = v.alive k in
        record {
          ready = a.ready;
          counted = a.counted;
          whole = a.whole;
          sending = Sending-as a.sending refl refl refl;
        };
  };
  has_output = h;
  on_its_way = λ k. ground arith;
}

pub cork-IsSound :
    (net : Net) (early : Answer) → IsWhole net → HasOutput net.entry → IsSound (cork net early)
unfolding cork
cork-IsSound net early v h =
    either-IsSound (is_some net.entry.send_op)
      (λ s. record { whole = v; has_output = h; on_its_way = λ k. ground arith })
      (λ s.
        either-IsSound (leb cork_flush_bytes net.entry.queued_bytes)
          (λ b. flush_pending-IsSound net early v h) (λ b. scheduled-IsSound net v h))
