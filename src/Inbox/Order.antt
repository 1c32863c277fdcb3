-- ===== src/Inbox/Order.antt =====
-- The order in which a transport's protocol is told what arrives (crates/pyshim/src/net.rs).
use cadeloop.Prelude.{
  ℕ, ◌≡◌, refl, sym, subst, ◌∙◌, ap, Bool, true, false, ◌||◌, Option, some, List, [], ◌∷◌, ◌++◌,
  map, append_assoc, append-nil, ◌⊎◌, inl, inr, arith, Bool-cases, if◌then◌else◌, ◌==◌,
}
use cadeloop.Outbox.{Answer, posted_as, refused, is_some}
use cadeloop.Inbox.{
  Signal, byte, ended, recv_failed, ReadSide, push_event, teardown_with, post_recv, held_bytes,
  RecvDone, signals, arrived,
}
use cadeloop.Inbox.Bytes.{
  waiting, has_failed, has_ended, ends_last, to_end, held_signals, waiting-append,
  has_failed-append, has_ended-append, to_end-more, to_end-behind, same-has_ended, behind_ended,
  ended_twice, ends_last-front, ends_last-append, hold-bytes, hold-ended,
}

-- The two agree up to the first EOF, and no byte of the first is behind one.
pub record Agrees (xs ys : List Signal) : Type 0 where
  pub same : to_end xs ≡ to_end ys
  pub last : ends_last xs ≡ true

pub Agrees-as : {xs xs' ys : List Signal} → xs' ≡ xs → Agrees xs ys → Agrees xs' ys
Agrees-as {ys = ys} e w = subst (λ k. Agrees k ys) (sym e) w

-- Something more makes the first agree with the second up to the EOF.
pub data IsFront (xs ys : List Signal) : Type 0 where
  front : (zs : List Signal) → to_end (xs ++ zs) ≡ to_end ys → IsFront xs ys

-- What is held, and what the events that wait stand for.
abbrev pub pending : ReadSide → List Signal
pending r = held_signals r.paused_recv r.paused_eof ++ waiting r.events

abbrev pub IsWhole : ReadSide → Type 0
IsWhole r = Agrees (r.told ++ pending r) r.received

-- Until the EOF, a transport that is not paused has a receive posted, or the failure to post one waits.
abbrev pub IsReading : ReadSide → Type 0
IsReading r =
    r.reading_paused ≡ false
    → has_ended r.received ≡ false
    → (is_some r.recv_op || has_failed r.events) ≡ true

-- Only a transport that is paused holds anything.
abbrev pub IsFree : ReadSide → Type 0
IsFree r = r.reading_paused ≡ false → held_signals r.paused_recv r.paused_eof ≡ []

pub record IsOrdered (r : ReadSide) : Type 0 where
  pub ahead : IsFront r.told r.received
  pub last : ends_last r.told ≡ true
  pub whole : r.closing ≡ false → r.conn_lost ≡ false → IsWhole r
  pub free : r.closing ≡ false → r.conn_lost ≡ false → IsFree r
  pub reading : r.closing ≡ false → r.conn_lost ≡ false → IsReading r

pub either-IsOrdered :
    (t : Bool) {x y : ReadSide}
    → (t ≡ true → IsOrdered x)
    → (t ≡ false → IsOrdered y)
    → IsOrdered (if t then x else y)
either-IsOrdered true a b = a refl
either-IsOrdered false a b = b refl

-- A transport that is whole is ahead.
pub whole-IsOrdered :
    (r : ReadSide)
    → IsWhole r
    → IsFree r
    → (r.closing ≡ false → r.conn_lost ≡ false → IsReading r)
    → IsOrdered r
whole-IsOrdered r w h f = record {
  ahead = front (pending r) w.same;
  last = ends_last-front r.told (pending r) w.last;
  whole = λ c l. w;
  free = λ c l. h;
  reading = f;
}

-- Posting a receive makes a transport read.
pub post_recv-IsOrdered :
    (r : ReadSide) (answer : Answer) → IsWhole r → IsFree r → IsOrdered (post_recv r answer)
unfolding post_recv
post_recv-IsOrdered r (posted_as op) w h =
    either-IsOrdered (is_some r.recv_op || r.reading_paused || r.closing || r.conn_lost)
      (λ e. whole-IsOrdered r w h (λ c l p n. ground arith))
      (λ e. whole-IsOrdered (record r { recv_op = some op }) w h (λ c l p n. refl))
post_recv-IsOrdered r (refused code) w h =
    either-IsOrdered (is_some r.recv_op || r.reading_paused || r.closing || r.conn_lost)
      (λ e. whole-IsOrdered r w h (λ c l p n. ground arith))
      (λ e.
        whole-IsOrdered (push_event r (recv_failed code))
          (Agrees-as
            (ap (λ k. r.told ++ (held_signals r.paused_recv r.paused_eof ++ k))
              (waiting-append r.events (recv_failed code ∷ []) ∙ append-nil (waiting r.events)))
            w)
          h (λ c l p n. ground (arith, has_failed-append r.events code)))

-- Bytes that stand first among what waits are held behind what is held.
hold_first :
    (r : ReadSide) (bytes : List ℕ) (later : List Signal)
    → r.paused_eof ≡ false
    → r.told ++ (held_signals (some (held_bytes r.paused_recv ++ bytes)) r.paused_eof ++ later)
      ≡ r.told ++ (held_signals r.paused_recv r.paused_eof ++ (map byte bytes ++ later))
hold_first r bytes later e =
    ap (λ b. r.told ++ (held_signals (some (held_bytes r.paused_recv ++ bytes)) b ++ later)) e
    ∙ ap (λ k. r.told ++ (k ++ later)) (hold-bytes r.paused_recv bytes)
    ∙ ap (λ k. r.told ++ k) (append_assoc (held_signals r.paused_recv false) (map byte bytes) later)
    ∙ ap (λ b. r.told ++ (held_signals r.paused_recv b ++ (map byte bytes ++ later))) (sym e)

-- Where a held EOF stands.
held_end :
    (o : Option (List ℕ)) (xs later : List Signal)
    → xs ++ (held_signals o true ++ later) ≡ (xs ++ map byte (held_bytes o)) ++ ended ∷ later
held_end o xs later =
    let m = map byte (held_bytes o) in
    ap (λ k. xs ++ k) (append_assoc m (ended ∷ []) later) ∙ sym (append_assoc xs m (ended ∷ later))

-- Where bytes wait, no EOF is held.
held_ended :
    (o : Option (List ℕ)) (e : Bool) (xs later : List Signal) (b : ℕ)
    → ends_last (xs ++ (held_signals o e ++ byte b ∷ later)) ≡ true
    → e ≡ false
held_ended o true xs later b h =
    let m = map byte (held_bytes o) in
    let n =
      behind_ended (xs ++ m) (byte b ∷ later)
        (ap ends_last (sym (held_end o xs (byte b ∷ later))) ∙ h) in
    cc
held_ended o false xs later b h = refl

-- A completion on a transport that is closing or lost.
pub arrived-IsFront :
    (r : ReadSide) (c : RecvDone)
    → IsFront r.told r.received
    → IsFront r.told (arrived r c).received
arrived-IsFront r c (front zs e) = elim (Bool-cases (c.os_error == 0)) [
  | inl z ↦ rw z (
      front (zs ++ signals c.bytes) (
        ap to_end (sym (append_assoc r.told zs (signals c.bytes)))
        ∙ to_end-more (r.told ++ zs) r.received (signals c.bytes) e))
  | inr z ↦ rw z (front zs e)
]

-- A transport that is not open any more.
pub shut-IsOrdered :
    (r : ReadSide)
    → IsFront r.told r.received
    → ends_last r.told ≡ true
    → (r.closing || r.conn_lost) ≡ true
    → IsOrdered r
shut-IsOrdered r a o s = record {
  ahead = a;
  last = o;
  whole = λ c l. absurd (ground arith);
  free = λ c l. absurd (ground arith);
  reading = λ c l. absurd (ground arith);
}

pub teardown_with-IsOrdered :
    (r : ReadSide) (code : ℕ)
    → IsFront r.told r.received
    → ends_last r.told ≡ true
    → IsOrdered (teardown_with r code)
teardown_with-IsOrdered r code a o =
    either-IsOrdered r.conn_lost (λ l. shut-IsOrdered r a o (ground arith))
      (λ l.
        shut-IsOrdered (record r { conn_lost = true; lost_with = some code }) a o (ground arith))

pub hold-IsWhole :
    (r : ReadSide) (bytes : List ℕ) (later : List Signal)
    → Agrees
        (r.told ++ (held_signals r.paused_recv r.paused_eof ++ (map byte bytes ++ later)))
        r.received
    → Agrees
        (r.told ++ (held_signals (some (held_bytes r.paused_recv ++ bytes)) r.paused_eof ++ later))
        r.received
hold-IsWhole r [] later h =
    Agrees-as
      (ap (λ d. r.told ++ (held_signals (some d) r.paused_eof ++ later))
        (append-nil (held_bytes r.paused_recv)))
      h
hold-IsWhole r (b ∷ l) later h =
    let e = held_ended r.paused_recv r.paused_eof r.told (map byte l ++ later) b h.last in
    Agrees-as (hold_first r (b ∷ l) later e) h

-- The same for the EOF.
ended-IsWhole :
    (told later ys : List Signal) (o : Option (List ℕ)) (e : Bool)
    → Agrees (told ++ (held_signals o e ++ (ended ∷ later))) ys
    → Agrees (told ++ (held_signals o true ++ later)) ys
ended-IsWhole told later ys o false h =
    Agrees-as
      (ap (λ k. told ++ (k ++ later)) (hold-ended o)
        ∙ ap (λ k. told ++ k) (append_assoc (held_signals o false) (ended ∷ []) later))
      h
ended-IsWhole told later ys o true h =
    let front = told ++ map byte (held_bytes o) in
    let h' = Agrees-as (sym (held_end o told (ended ∷ later))) h in
    Agrees-as (held_end o told later) (record {
      same = to_end-behind front later (ended ∷ later) ∙ h'.same;
      last = sym (ended_twice front later) ∙ h'.last;
    })

pub hold_ended-IsWhole :
    (r : ReadSide) (later : List Signal)
    → Agrees (r.told ++ (held_signals r.paused_recv r.paused_eof ++ (ended ∷ later))) r.received
    → Agrees (r.told ++ (held_signals r.paused_recv true ++ later)) r.received
hold_ended-IsWhole r later h = ended-IsWhole r.told later r.received r.paused_recv r.paused_eof h

pub held-has_ended :
    (o : Option (List ℕ)) (xs later : List Signal)
    → has_ended (xs ++ (held_signals o true ++ later)) ≡ true
held-has_ended o xs later =
    let front = xs ++ map byte (held_bytes o) in
    ap has_ended (held_end o xs later) ∙ ground (arith, has_ended-append front (ended ∷ later))

-- Where one of two is empty, they commute.
pub swap_empty : (xs ys : List Signal) → (xs ≡ []) ⊎ (ys ≡ []) → xs ++ ys ≡ ys ++ xs
swap_empty xs ys (inl e) = ap (λ k. k ++ ys) e ∙ sym (append-nil ys) ∙ ap (λ k. ys ++ k) (sym e)
swap_empty xs ys (inr e) = ap (λ k. xs ++ k) e ∙ append-nil xs ∙ ap (λ k. k ++ xs) (sym e)

-- What arrives comes last.
pub arrives-IsWhole :
    (told held later ys : List Signal) (bytes : List ℕ)
    → Agrees (told ++ (held ++ later)) ys
    → (has_ended ys ≡ true → bytes ≡ [])
    → Agrees (told ++ (held ++ (later ++ signals bytes))) (ys ++ signals bytes)
arrives-IsWhole told held later ys bytes h n =
    let all = told ++ (held ++ later) in
    Agrees-as
      (ap (λ k. told ++ k) (sym (append_assoc held later (signals bytes)))
        ∙ sym (append_assoc told (held ++ later) (signals bytes)))
      (record {
        same = to_end-more all ys (signals bytes) h.same;
        last = ends_last-append all bytes h.last (λ e. n (sym (same-has_ended all ys h.same) ∙ e));
      })
