-- ===== src/Outbox/Buffers.antt =====
-- The bytes in the write queue of crates/pyshim/src/net.rs: what a write adds, and what a completion takes.
use cadeloop.Prelude.{
  ℕ, zero, suc, ◌+◌, ◌-◌, ◌≤◌, ◌<◌, ◌≡◌, refl, sym, subst, ◌∙◌, ap, Bool, ◌||◌, Option, none, some,
  List, [], ◌∷◌, ◌++◌, arith, append_assoc, append-nil, length, length-append, length-drop, take,
  drop, drop-append, drop-beyond, drop-drop, take-within, ◌==◌, ltb, leb, if◌then◌else◌, Bool-cases,
  Option-cases, inl, inr,
}
use cadeloop.Outbox.{
  WriteBuf, retained, owned, remaining, advance, TransportEntry, extend_last, behind, coalesce_tail,
  consume, merged_wq, Queued, copied, kept, bytes_of, enqueue, coalesce_max,
}

abbrev pub rest : WriteBuf → List ℕ
rest (retained bytes off) = drop off bytes
rest (owned bytes off) = drop off bytes

abbrev pub contents : List WriteBuf → List ℕ
contents [] = []
contents (b ∷ l) = rest b ++ contents l

-- Every buffer has something left.
abbrev pub AllReady : List WriteBuf → Type 0
AllReady [] = Unit
AllReady (b ∷ l) = (0 < remaining b) × AllReady l

pub length-rest : (b : WriteBuf) → length (rest b) ≡ remaining b
length-rest (retained bytes off) = length-drop off bytes
length-rest (owned bytes off) = length-drop off bytes

pub contents-append : (l m : List WriteBuf) → contents (l ++ m) ≡ contents l ++ contents m
contents-append [] m = refl
contents-append (b ∷ l) m =
    ap (λ k. rest b ++ k) (contents-append l m)
    ∙ sym (append_assoc (rest b) (contents l) (contents m))

AllReady-append : (l m : List WriteBuf) → AllReady l → AllReady m → AllReady (l ++ m)
AllReady-append [] m p q = q
AllReady-append (b ∷ l) m p q = (p.0, AllReady-append l m p.1 q)

rest-advance : (b : WriteBuf) (n : ℕ) → rest (advance b n) ≡ drop n (rest b)
rest-advance (retained bytes off) n = drop-drop off n bytes
rest-advance (owned bytes off) n = drop-drop off n bytes

remaining-advance : (b : WriteBuf) (n : ℕ) → remaining (advance b n) ≡ remaining b - n
remaining-advance (retained bytes off) n = omega arith
remaining-advance (owned bytes off) n = omega arith

-- A completion takes its bytes off the front.
pub consume-contents : (n : ℕ) (l : List WriteBuf) → contents (consume n l) ≡ drop n (contents l)
unfolding consume
consume-contents zero [] = refl
consume-contents (suc n) [] = refl
consume-contents n (b ∷ l) = elim (Bool-cases (n == 0)) [
  | inl e ↦ let z : n ≡ 0 = ground arith in rw e (rw z refl)
  | inr e ↦ elim (Bool-cases (leb (remaining b) n)) [
    | inl f ↦
        let h : length (rest b) ≤ n = ground (arith, length-rest b) in
        rw (e, f)
          (consume-contents (n - remaining b) l
            ∙ ap (λ k. drop (n - k) (contents l)) (sym (length-rest b))
            ∙ sym (drop-beyond n (rest b) (contents l) h))
    | inr f ↦
        let h : n ≤ length (rest b) = ground (arith, length-rest b) in
        rw (e, f)
          (ap (λ k. k ++ contents l) (rest-advance b n)
            ∙ sym (drop-append n (rest b) (contents l) h))
  ]
]

pub consume-AllReady : (n : ℕ) (l : List WriteBuf) → AllReady l → AllReady (consume n l)
unfolding consume
consume-AllReady n [] p = p
consume-AllReady n (b ∷ l) p = elim (Bool-cases (n == 0)) [
  | inl e ↦ rw e p
  | inr e ↦ elim (Bool-cases (leb (remaining b) n)) [
    | inl f ↦ rw (e, f) (consume-AllReady (n - remaining b) l p.1)
    | inr f ↦ rw (e, f) (ground (arith, remaining-advance b n), p.1)
  ]
]

-- What a buffer that grew at the back of the queue changes.
pub record Extended (l m : List WriteBuf) (bytes : List ℕ) : Type 0 where
  pub grew : contents m ≡ contents l ++ bytes
  pub ready : AllReady m
  pub front : (i : ℕ) → i < length l → take i m ≡ take i l
  pub same_length : length m ≡ length l

Extended-behind :
    (b : WriteBuf) (l m : List WriteBuf) (bytes : List ℕ)
    → 0 < remaining b
    → Extended l m bytes
    → Extended (b ∷ l) (b ∷ m) bytes
Extended-behind b l m bytes p x = record {
  grew = ap (λ k. rest b ++ k) x.grew ∙ sym (append_assoc (rest b) (contents l) bytes);
  ready = (p, x.ready);
  front = front;
  same_length = ap suc x.same_length;
}
  where
    front : (i : ℕ) → i < suc (length l) → take i (b ∷ m) ≡ take i (b ∷ l)
    front zero h = refl
    front (suc i) h = ap (λ k. b ∷ k) (x.front i (omega arith))

owned-Extended :
    (b : List ℕ) (off : ℕ) (bytes : List ℕ)
    → 0 < length b - off
    → Extended (owned b off ∷ []) (owned (b ++ bytes) off ∷ []) bytes
owned-Extended b off bytes p = record {
  grew =
      append-nil (drop off (b ++ bytes))
      ∙ drop-append off b bytes (omega arith)
      ∙ ap (λ k. k ++ bytes) (sym (append-nil (drop off b)));
  ready = (omega (arith, length-append b bytes), tt);
  front = front;
  same_length = refl;
}
  where
    front : (i : ℕ) → i < 1 → take i (owned (b ++ bytes) off ∷ []) ≡ take i (owned b off ∷ [])
    front zero h = refl
    front (suc i) h = absurd (omega arith)

behind-none : (b : WriteBuf) (m : List WriteBuf) → behind b none ≡ some m → ⊥
behind-none b m e = cc

behind-some : (b : WriteBuf) (k m : List WriteBuf) → behind b (some k) ≡ some m → b ∷ k ≡ m
behind-some b k m e = cc

coalesced :
    (big : Bool) (wq : List WriteBuf) (n : ℕ) (o : Option (List WriteBuf)) (m : List WriteBuf)
    → (if big || leb (length wq) n then none else o) ≡ some m
    → (n < length wq) × (o ≡ some m)
coalesced big wq n o m h = ground arith

extend_last-Extended :
    (l : List WriteBuf) (bytes : List ℕ) (m : List WriteBuf)
    → AllReady l
    → extend_last l bytes ≡ some m
    → Extended l m bytes
unfolding extend_last
extend_last-Extended [] bytes m p e = cc
extend_last-Extended (retained b off ∷ []) bytes m p e = cc
extend_last-Extended (owned b off ∷ []) bytes m p e =
    let q : owned (b ++ bytes) off ∷ [] ≡ m = ground arith in
    subst (λ k. Extended (owned b off ∷ []) k bytes) q (owned-Extended b off bytes p.0)
extend_last-Extended (b ∷ c ∷ l) bytes m p e = elim (Option-cases (extend_last (c ∷ l) bytes)) [
  | inl n ↦ absurd (behind-none b m (rw n at e))
  | inr (k, n) ↦
      subst (λ k. Extended (b ∷ c ∷ l) k bytes) (behind-some b k m (rw n at e))
        (Extended-behind b (c ∷ l) k bytes p.0 (extend_last-Extended (c ∷ l) bytes k p.1 n))
]

-- The queue after a write: a buffer that the kernel was handed is not touched.
pub record Enqueued (e e' : TransportEntry) (bytes : List ℕ) : Type 0 where
  pub grew : contents e'.wq ≡ contents e.wq ++ bytes
  pub ready : AllReady e'.wq
  pub untouched : take e.inflight e'.wq ≡ take e.inflight e.wq
  pub longer : length e.wq ≤ length e'.wq
  pub counted : e'.queued_bytes ≡ e.queued_bytes + length bytes
  pub as_is : record e' { wq = e.wq; queued_bytes = e.queued_bytes } ≡ e

pushed-ready :
    (l : List WriteBuf) (b : WriteBuf) → AllReady l → 0 < remaining b → AllReady (l ++ b ∷ [])
pushed-ready l b p q = AllReady-append l (b ∷ []) p (q, tt)

module _ (e : TransportEntry) (bytes : List ℕ) (r : AllReady e.wq) (some_bytes : 0 < length bytes)
    (within : e.inflight ≤ length e.wq) where
  pushed-Enqueued :
      (b : WriteBuf)
      → remaining b ≡ length bytes
      → rest b ≡ bytes
      → Enqueued e
          (record e { queued_bytes = e.queued_bytes + length bytes; wq = e.wq ++ b ∷ [] })
          bytes
  pushed-Enqueued b h k = record {
    grew = contents-append e.wq (b ∷ []) ∙ ap (λ l. contents e.wq ++ l) (append-nil (rest b) ∙ k);
    ready = pushed-ready e.wq b r (omega arith);
    untouched = take-within e.inflight e.wq (b ∷ []) within;
    longer = omega (arith, length-append e.wq (b ∷ []));
    counted = refl;
    as_is = refl;
  }

  merged-Enqueued :
      (o : Option (List WriteBuf))
      → coalesce_tail (record e { queued_bytes = e.queued_bytes + length bytes }) bytes ≡ o
      → Enqueued e
          (merged_wq (record e { queued_bytes = e.queued_bytes + length bytes }) bytes o)
          bytes
  unfolding coalesce_tail
  merged-Enqueued none h = pushed-Enqueued (owned bytes 0) (omega arith) refl
  merged-Enqueued (some m) h =
      let (room, found) =
        coalesced (ltb coalesce_max (length bytes)) e.wq e.inflight (extend_last e.wq bytes) m h in
      let x = extend_last-Extended e.wq bytes m r found in
      record {
        grew = x.grew;
        ready = x.ready;
        untouched = x.front e.inflight room;
        longer = omega (arith, x.same_length);
        counted = refl;
        as_is = refl;
      }

  pub enqueue-Enqueued : (q : Queued) → bytes_of q ≡ bytes → Enqueued e (enqueue e q) bytes
  unfolding enqueue
  enqueue-Enqueued (copied x) h =
      subst (λ x. Enqueued e (enqueue e (copied x)) bytes) (sym h) (merged-Enqueued _ refl)
  enqueue-Enqueued (kept x) h =
      subst (λ x. Enqueued e (enqueue e (kept x)) bytes) (sym h)
        (pushed-Enqueued (retained bytes 0) (omega arith) refl)
