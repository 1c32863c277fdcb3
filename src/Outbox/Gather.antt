-- ===== src/Outbox/Gather.antt =====
-- The slices of a send of crates/pyshim/src/net.rs.
use cadeloop.Prelude.{
  if_true, ◌⊎◌, ℕ, zero, suc, ◌+◌, ◌≤◌, ◌<◌, ◌≡◌, refl, sym, ◌∙◌, ap, false, ◌&&◌, List, [], ◌∷◌,
  ◌++◌, map, min, arith, append_assoc, append-nil, length, length-append, length-take, take, drop,
  take-all, take-append-drop, ltb, leb, Bool-cases, inl, inr,
}
use cadeloop.Backend.{io_len, max_send_bytes}
use cadeloop.Outbox.{WriteBuf, retained, owned, remaining, slice, gather, flatten}
use cadeloop.Outbox.Buffers.{rest, contents, AllReady, length-rest}

pub data Prefix (xs ys : List ℕ) : Type 0 where
  prefix : (zs : List ℕ) → xs ++ zs ≡ ys → Prefix xs ys

slice-rest : (b : WriteBuf) → slice b ≡ take (io_len (remaining b)) (rest b)
slice-rest (retained bytes off) = refl
slice-rest (owned bytes off) = refl

io_len-clamp : (n : ℕ) → io_len n ≡ min n max_send_bytes
unfolding io_len
io_len-clamp n = omega arith

length-slice : (b : WriteBuf) → length (slice b) ≡ min (remaining b) max_send_bytes
length-slice b =
    ap length (slice-rest b)
    ∙ omega (
      arith,
      length-take (io_len (remaining b)) (rest b),
      length-rest b,
      io_len-clamp (remaining b),
    )

-- A slice is all that is left of its buffer, or as long as a send may be.
slice-whole : (b : WriteBuf) → remaining b ≤ max_send_bytes → slice b ≡ rest b
slice-whole b h =
    slice-rest b
    ∙ take-all (io_len (remaining b)) (rest b)
        (omega (arith, length-rest b, io_len-clamp (remaining b)))

slice-Prefix : (b : WriteBuf) → Prefix (slice b) (rest b)
slice-Prefix b = prefix (drop (io_len (remaining b)) (rest b)) (
    ap (λ k. k ++ drop (io_len (remaining b)) (rest b)) (slice-rest b)
    ∙ take-append-drop (io_len (remaining b)) (rest b))

-- Behind a slice that fills the send comes no other.
gather-full :
    (k n total : ℕ) (l : List WriteBuf)
    → AllReady l
    → max_send_bytes ≤ total
    → gather k (suc n) total l ≡ []
unfolding gather
gather-full zero n total l r h = refl
gather-full (suc k) n total [] r h = refl
gather-full (suc k) n total (b ∷ l) r h =
    if_true (ltb 0 (suc n) && ltb max_send_bytes (total + length (slice b))) _ _
      (ground (arith, length-slice b))

Prefix-behind : (xs : List ℕ) {ys zs : List ℕ} → Prefix ys zs → Prefix (xs ++ ys) (xs ++ zs)
Prefix-behind xs {ys = ys} (prefix ws e) = prefix ws (append_assoc xs ys ws ∙ ap (λ k. xs ++ k) e)

Prefix-of_first : {xs ys : List ℕ} (zs : List ℕ) → Prefix xs ys → Prefix (xs ++ []) (ys ++ zs)
Prefix-of_first {xs = xs} zs (prefix ws e) =
    prefix (ws ++ zs) (
      ap (λ k. k ++ (ws ++ zs)) (append-nil xs) ∙ sym (append_assoc xs ws zs) ∙ ap (λ k. k ++ zs) e)

-- What is handed to the kernel is the front of the queue.
pub gather-Prefix :
    (k n total : ℕ) (l : List WriteBuf)
    → AllReady l
    → (n ≡ 0) ⊎ (0 < total)
    → Prefix (flatten (gather k n total l)) (contents l)
unfolding gather
gather-Prefix zero n total l r h = prefix (contents l) refl
gather-Prefix (suc k) n total [] r h = prefix [] refl
gather-Prefix (suc k) n total (b ∷ l) r h =
    elim (Bool-cases (ltb 0 n && ltb max_send_bytes (total + length (slice b)))) [
      | inl e ↦ rw e (prefix (contents (b ∷ l)) refl)
      | inr e ↦ rw e (elim (Bool-cases (leb (remaining b) max_send_bytes)) [
        | inl f ↦ rw (slice-whole b (ground arith)) (
            Prefix-behind (rest b) (
              gather-Prefix k (suc n) (total + length (rest b)) l r.1
                (inr (ground (arith, length-rest b, r.0)))))
        | inr f ↦
            rw (gather-full k n (total + length (slice b)) l r.1 (ground (arith, length-slice b)))
              (Prefix-of_first (contents l) (slice-Prefix b))
      ])
    ]

-- The slices are those of the buffers at the front.
pub gather-view :
    (k n total : ℕ) (l : List WriteBuf)
    → gather k n total l ≡ map slice (take (length (gather k n total l)) l)
unfolding gather
gather-view zero n total l = refl
gather-view (suc k) n total [] = refl
gather-view (suc k) n total (b ∷ l) =
    elim (Bool-cases (ltb 0 n && ltb max_send_bytes (total + length (slice b)))) [
      | inl e ↦ rw e refl
      | inr e ↦ rw e (ap (λ m. slice b ∷ m) (gather-view k (suc n) (total + length (slice b)) l))
    ]

pub gather-length :
    (k n total : ℕ) (l : List WriteBuf)
    → (length (gather k n total l) ≤ k) × (length (gather k n total l) ≤ length l)
unfolding gather
gather-length zero n total l = (omega arith, omega arith)
gather-length (suc k) n total [] = (omega arith, omega arith)
gather-length (suc k) n total (b ∷ l) =
    let p = gather-length k (suc n) (total + length (slice b)) l in
    elim (Bool-cases (ltb 0 n && ltb max_send_bytes (total + length (slice b)))) [
      | inl e ↦ rw e (omega arith, omega arith)
      | inr e ↦ rw e (omega arith, omega arith)
    ]

fits_in :
    (n total s : ℕ)
    → (n ≡ 0 → total ≡ 0)
    → s ≤ max_send_bytes
    → (ltb 0 n && ltb max_send_bytes (total + s)) ≡ false
    → total + s ≤ max_send_bytes
fits_in zero total s z h e = let q = z refl in omega arith
fits_in (suc n) total s z h e = ground arith

-- A send has at most MAX_SEND_BYTES.
pub gather-bytes :
    (k n total : ℕ) (l : List WriteBuf)
    → total ≤ max_send_bytes
    → (n ≡ 0 → total ≡ 0)
    → total + length (flatten (gather k n total l)) ≤ max_send_bytes
unfolding gather
gather-bytes zero n total l h z = omega arith
gather-bytes (suc k) n total [] h z = omega arith
gather-bytes (suc k) n total (b ∷ l) h z =
    let s = length-slice b in
    elim (Bool-cases (ltb 0 n && ltb max_send_bytes (total + length (slice b)))) [
      | inl e ↦ rw e (omega arith)
      | inr e ↦
          let fits : total + length (slice b) ≤ max_send_bytes =
            fits_in n total (length (slice b)) z (omega arith) e in
          let more =
            gather-bytes k (suc n) (total + length (slice b)) l fits (λ q. absurd (omega arith)) in
          rw e (
            omega (
              arith,
              more,
              length-append (slice b) (flatten (gather k (suc n) (total + length (slice b)) l)),
            ))
    ]

-- A send of a queue that is not empty has a byte at least.
pub gather-some :
    (l : List WriteBuf) (b : WriteBuf)
    → 0 < remaining b
    → 0 < length (flatten (gather 16 0 0 (b ∷ l)))
unfolding gather
gather-some l b h = omega (
  arith,
  length-slice b,
  length-append (slice b) (flatten (gather 15 1 (0 + length (slice b)) l)),
)
