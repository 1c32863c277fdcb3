-- ===== src/Outbox/Invariant.antt =====
-- What holds of a transport's write side between its calls (crates/pyshim/src/net.rs), and that its parts keep it.
use cadeloop.Prelude.{
  ℕ, suc, ◌+◌, ◌≤◌, ◌<◌, ◌≡◌, refl, sym, subst, ◌∙◌, ap, Bool, true, false, ◌||◌, ◌&&◌, not, Option,
  none, some, List, [], ◌∷◌, ◌++◌, map, arith, length, take, if◌then◌else◌, Bool-cases, inl, inr,
}
use cadeloop.Backend.{max_send_bytes}
use cadeloop.Outbox.{
  WriteBuf, slice, TransportEntry, NetEvent, resume_writing, lost, Call, pauses_writing,
  resumes_writing, shuts_down, loses, Net, flatten, is_some, is_empty, teardown_with, finish_eof,
  maybe_finish_shutdown, Answer, posted_as, refused, gather, max_gather, post_send, flush_pending,
}
use cadeloop.Outbox.Buffers.{contents, AllReady}
use cadeloop.Outbox.Gather.{
  Prefix, prefix, gather-Prefix, gather-view, gather-length, gather-bytes, gather-some,
}

-- How often writing was paused and resumed, and how often a resume waits.
abbrev pub pauses : List Call → ℕ
pauses [] = 0
pauses (pauses_writing ∷ l) = suc (pauses l)
pauses (resumes_writing ∷ l) = pauses l
pauses (shuts_down ∷ l) = pauses l
pauses (loses _ ∷ l) = pauses l

abbrev pub resumes : List Call → ℕ
resumes [] = 0
resumes (pauses_writing ∷ l) = resumes l
resumes (resumes_writing ∷ l) = suc (resumes l)
resumes (shuts_down ∷ l) = resumes l
resumes (loses _ ∷ l) = resumes l

abbrev pub owed : List NetEvent → ℕ
owed [] = 0
owed (resume_writing ∷ l) = suc (owed l)
owed (lost _ ∷ l) = owed l

pub pauses-append : (l : List Call) (c : Call) → pauses (l ++ c ∷ []) ≡ pauses l + pauses (c ∷ [])
pauses-append [] c = omega arith
pauses-append (pauses_writing ∷ l) c = omega (arith, pauses-append l c)
pauses-append (resumes_writing ∷ l) c = pauses-append l c
pauses-append (shuts_down ∷ l) c = pauses-append l c
pauses-append (loses _ ∷ l) c = pauses-append l c

pub resumes-append :
    (l : List Call) (c : Call) → resumes (l ++ c ∷ []) ≡ resumes l + resumes (c ∷ [])
resumes-append [] c = omega arith
resumes-append (pauses_writing ∷ l) c = resumes-append l c
resumes-append (resumes_writing ∷ l) c = omega (arith, resumes-append l c)
resumes-append (shuts_down ∷ l) c = resumes-append l c
resumes-append (loses _ ∷ l) c = resumes-append l c

pub owed-append : (l : List NetEvent) (e : NetEvent) → owed (l ++ e ∷ []) ≡ owed l + owed (e ∷ [])
owed-append [] e = omega arith
owed-append (resume_writing ∷ l) e = omega (arith, owed-append l e)
owed-append (lost _ ∷ l) e = owed-append l e

-- Each pause but the one that lasts has its resume, made or owed.
abbrev pub IsBalanced : Net → Type 0
IsBalanced net =
    pauses net.calls
    ≡ resumes net.calls + owed net.events + (if net.entry.proto_paused then 1 else 0)

-- The send in flight: the kernel has the slices of the first `inflight` buffers as they are now, which are the
-- front of the queue.
pub data Sending (e : TransportEntry) (posted : List (List ℕ)) : Type 0 where
  idle : e.send_op ≡ none → e.inflight ≡ 0 → Sending e posted
  busy :
      is_some e.send_op ≡ true
      → e.inflight ≤ length e.wq
      → e.inflight ≤ max_gather
      → map slice (take e.inflight e.wq) ≡ posted
      → Prefix (flatten posted) (contents e.wq)
      → 0 < length (flatten posted)
      → length (flatten posted) ≤ max_send_bytes
      → Sending e posted

pub record IsAlive (net : Net) : Type 0 where
  pub ready : AllReady net.entry.wq
  pub counted : net.entry.queued_bytes ≡ length (contents net.entry.wq)
  pub whole : net.delivered ++ contents net.entry.wq ≡ net.written
  pub sending : Sending net.entry net.posted

pub record IsWhole (net : Net) : Type 0 where
  pub balanced : net.entry.conn_lost ≡ false → IsBalanced net
  pub front : Prefix net.delivered net.written
  pub alive : net.entry.conn_lost ≡ false → IsAlive net

-- A protocol that is paused has output queued.
abbrev pub HasOutput : TransportEntry → Type 0
HasOutput e = e.conn_lost ≡ false → e.proto_paused ≡ true → is_empty e.wq ≡ false

-- Queued output is in flight, or waits for the flush at the end of the tick.
abbrev pub IsOnItsWay : TransportEntry → Type 0
IsOnItsWay e =
    e.conn_lost ≡ false → (is_empty e.wq || is_some e.send_op || e.flush_scheduled) ≡ true

pub record IsSound (net : Net) : Type 0 where
  pub whole : IsWhole net
  pub has_output : HasOutput net.entry
  pub on_its_way : IsOnItsWay net.entry

pub alive-front : (net : Net) → IsAlive net → Prefix net.delivered net.written
alive-front net a = prefix (contents net.entry.wq) a.whole

pub teardown_with-IsSound :
    (net : Net) (code : Option ℕ) → IsWhole net → IsSound (teardown_with net code)
unfolding teardown_with
teardown_with-IsSound net code v = record {
  whole = record { balanced = λ e. cc; front = v.front; alive = λ e. cc };
  has_output = λ e. cc;
  on_its_way = λ e. cc;
}

pub Sending-as :
    {e e' : TransportEntry} {posted : List (List ℕ)}
    → Sending e posted
    → e'.send_op ≡ e.send_op
    → e'.inflight ≡ e.inflight
    → e'.wq ≡ e.wq
    → Sending e' posted
Sending-as (idle p q) a b c = idle (a ∙ p) (b ∙ q)
Sending-as {e} {e'} {posted} (busy p q r s t u w) a b c =
    busy (ap is_some a ∙ p)
      (subst (λ n. n ≤ length e'.wq) (sym b) (subst (λ l. e.inflight ≤ length l) (sym c) q))
      (subst (λ n. n ≤ max_gather) (sym b) r)
      (ap (λ n. map slice (take n e'.wq)) b ∙ ap (λ l. map slice (take e.inflight l)) c ∙ s)
      (subst (λ l. Prefix (flatten posted) (contents l)) (sym c) t) u w

finish_eof-IsWhole : (net : Net) → IsWhole net → IsWhole (finish_eof net)
unfolding finish_eof
finish_eof-IsWhole net v = elim (Bool-cases (net.entry.eof_wanted && not net.entry.eof_sent)) [
  | inl e ↦ rw e (record {
    balanced = λ l. omega (
      arith,
      v.balanced l,
      pauses-append net.calls shuts_down,
      resumes-append net.calls shuts_down,
    );
    front = v.front;
    alive = λ h.
        let a = v.alive h in
        record {
          ready = a.ready;
          counted = a.counted;
          whole = a.whole;
          sending = Sending-as a.sending refl refl refl;
        };
  })
  | inr e ↦ rw e v
]

finish_eof-same :
    (net : Net)
    → ((finish_eof net).entry.wq ≡ net.entry.wq)
      × ((finish_eof net).entry.proto_paused ≡ net.entry.proto_paused)
      × ((finish_eof net).entry.conn_lost ≡ net.entry.conn_lost)
unfolding finish_eof
finish_eof-same net = elim (Bool-cases (net.entry.eof_wanted && not net.entry.eof_sent)) [
  | inl e ↦ rw e (refl, refl, refl)
  | inr e ↦ rw e (refl, refl, refl)
]

-- The flag and output of an entry, for what changes neither.
HasOutput-as :
    (e e' : TransportEntry)
    → HasOutput e
    → e'.wq ≡ e.wq
    → e'.proto_paused ≡ e.proto_paused
    → e'.conn_lost ≡ e.conn_lost
    → HasOutput e'
HasOutput-as e e' h a b c k p = ap is_empty a ∙ h (sym c ∙ k) (sym b ∙ p)

pub either-IsSound :
    (t : Bool) {x y : Net}
    → (t ≡ true → IsSound x)
    → (t ≡ false → IsSound y)
    → IsSound (if t then x else y)
either-IsSound true p q = p refl
either-IsSound false p q = q refl

pub maybe_finish_shutdown-IsSound : (net : Net) → IsSound net → IsSound (maybe_finish_shutdown net)
unfolding maybe_finish_shutdown
maybe_finish_shutdown-IsSound net v =
    let e = net.entry in
    let w = finish_eof-IsWhole net v.whole in
    let (q, p, c) = finish_eof-same net in
    either-IsSound (is_some e.send_op || not (is_empty e.wq) || e.conn_lost) (λ b. v)
      (λ b.
        either-IsSound (finish_eof net).entry.closing
          (λ f. teardown_with-IsSound (finish_eof net) none w)
          (λ f. record {
            whole = w;
            has_output = HasOutput-as net.entry (finish_eof net).entry v.has_output q p c;
            on_its_way = λ k. let m = ap is_empty q in ground arith;
          }))

sent-IsSound :
    (net : Net) (answer : Answer)
    → IsWhole net
    → HasOutput net.entry
    → net.entry.conn_lost ≡ false
    → is_empty net.entry.wq ≡ false
    → IsSound (post_send net (gather max_gather 0 0 net.entry.wq) answer)
unfolding post_send
sent-IsSound net (refused code) v h l n = teardown_with-IsSound net (some code) v
sent-IsSound net (posted_as op) v h l n =
    let wq = net.entry.wq in
    let a = v.alive l in
    let (few, have) = gather-length max_gather 0 0 wq in
    record {
      whole = record {
        balanced = v.balanced;
        front = v.front;
        alive = λ k. record {
          ready = a.ready;
          counted = a.counted;
          whole = a.whole;
          sending =
              busy refl have few (sym (gather-view max_gather 0 0 wq))
                (gather-Prefix max_gather 0 0 wq a.ready (inl refl)) (has_byte wq a.ready n)
                (let m = gather-bytes max_gather 0 0 wq (omega arith) (λ q. refl) in omega arith);
        };
      };
      has_output = h;
      on_its_way = λ k. ground arith;
    }
  where
    has_byte :
        (l : List WriteBuf)
        → AllReady l
        → is_empty l ≡ false
        → 0 < length (flatten (gather 16 0 0 l))
    has_byte [] r n = cc
    has_byte (b ∷ l) r n = gather-some l b r.0

lost_not : (b : Bool) → b ≡ true → b ≡ false → ⊥
lost_not b p q = cc

unscheduled :
    (net : Net)
    → IsWhole net
    → IsWhole (record net { entry = record net.entry { flush_scheduled = false } })
unscheduled net v = record {
  balanced = v.balanced;
  front = v.front;
  alive = λ h.
      let a = v.alive h in
      record {
        ready = a.ready;
        counted = a.counted;
        whole = a.whole;
        sending = Sending-as a.sending refl refl refl;
      };
}

pub flush_pending-IsSound :
    (net : Net) (answer : Answer)
    → IsWhole net
    → HasOutput net.entry
    → IsSound (flush_pending net answer)
unfolding flush_pending
flush_pending-IsSound net answer v h =
    let net' = record net { entry = record net.entry { flush_scheduled = false } } in
    let v' : IsWhole net' = unscheduled net v in
    either-IsSound net.entry.conn_lost
      (λ l. record {
        whole = v';
        has_output = h;
        on_its_way = λ k. absurd (lost_not net.entry.conn_lost l k);
      })
      (λ l.
        either-IsSound (is_some net.entry.send_op)
          (λ s. record { whole = v'; has_output = h; on_its_way = λ k. ground arith })
          (λ s.
            either-IsSound (is_empty net.entry.wq)
              (λ q.
                maybe_finish_shutdown-IsSound net'
                  (record { whole = v'; has_output = h; on_its_way = λ k. ground arith }))
              (λ q. sent-IsSound net' answer v' h l q)))
