-- ===== src/Ws/Rx/Stable.antt =====
-- What `parse_one` of crates/core/src/ws.rs decides does not depend on the bytes behind the frame, and a
-- frame that it consumes is there in full.
use cadeloop.Prelude.{
  ℕ, zero, suc, ◌+◌, ◌/◌, ◌%◌, ◌≤◌, ◌<◌, ◌≡◌, refl, ap, ◌⊎◌, inl, inr, Bool, true, false, ◌&&◌,
  ◌||◌, not, List, [], ◌∷◌, ◌++◌, arith, length, length-append, take, drop, ltb, leb, ◌==◌,
  if◌then◌else◌, Bool-cases,
}
use cadeloop.Ws.{op_close, need_more, byte}
use cadeloop.Ws.Rx.{
  WsRx, LengthField, cut_short, bad, size, parse_length, parse_sized, parse_rest, parse_one,
}

byte-append : (b c : List ℕ) (i : ℕ) → i < length b → byte (b ++ c) i ≡ byte b i
byte-append [] c i h = absurd (omega arith)
byte-append (x ∷ b) c zero h = refl
byte-append (x ∷ b) c (suc i) h = byte-append b c i (omega arith)

take-append : (n : ℕ) (b c : List ℕ) → n ≤ length b → take n (b ++ c) ≡ take n b
take-append zero b c h = refl
take-append (suc n) [] c h = absurd (omega arith)
take-append (suc n) (x ∷ b) c h = ap (λ l. x ∷ l) (take-append n b c (omega arith))

slice-append :
    (off n : ℕ) (b c : List ℕ)
    → off + n ≤ length b
    → take n (drop off (b ++ c)) ≡ take n (drop off b)
slice-append zero n b c h = take-append n b c (omega arith)
slice-append (suc off) n [] c h = absurd (omega arith)
slice-append (suc off) n (x ∷ b) c h = slice-append off n b c (omega arith)

-- `x'` decides as `x` does, if `x` does not wait for more.
abbrev Same {ℓ} : {A : Type ℓ} → A → A → A → Type ℓ
Same wait x x' = (x ≡ wait) ⊎ (x' ≡ x)

module _ {ℓ} {A : Type ℓ} {wait : A} where
  Same-if :
      {x y x' y' : A} (t : Bool)
      → (t ≡ true → Same wait x x')
      → (t ≡ false → Same wait y y')
      → Same wait (if t then x else y) (if t then x' else y')
  Same-if true p q = p refl
  Same-if false p q = q refl

  Same-short :
      {y y' : A} (n k m : ℕ)
      → n ≤ k
      → (m ≤ n → Same wait y y')
      → Same wait (if ltb n m then wait else y) (if ltb k m then wait else y')
  Same-short {y} {y'} n k m le p = elim (Bool-cases (ltb n m)) [
    | inl q ↦ rw q (inl refl)
    | inr q ↦ let q' : ltb k m ≡ false = ground arith in rw (q, q') (p (ground arith))
  ]

module _ (b c : List ℕ) where
  longer : length b ≤ length (b ++ c)
  longer = omega (arith, length-append b c)

  -- More bytes leave a decision as it is.
  parse_length-append : 2 ≤ length b → Same cut_short (parse_length b) (parse_length (b ++ c))
  unfolding parse_length
  parse_length-append h = rw (byte-append b c 1 (omega arith)) (
      Same-if (byte b 1 % 128 == 126)
        (λ t.
          Same-short (length b) (length (b ++ c)) 4 longer
            (λ le. rw (slice-append 2 2 b c (omega arith)) (inr refl)))
        (λ t.
          Same-if (byte b 1 % 128 == 127)
            (λ t. Same-short (length b) (length (b ++ c)) 10 longer (λ le.
              rw (byte-append b c 2 (omega arith), slice-append 2 8 b c (omega arith)) (inr refl)))
            (λ t. inr refl)))

  parse_sized-append :
      (rx : WsRx) (len off : ℕ)
      → 2 ≤ length b
      → Same (rx, need_more) (parse_sized rx b len off) (parse_sized rx (b ++ c) len off)
  unfolding parse_sized
  parse_sized-append rx len off h = rw (byte-append b c 0 (omega arith)) (
      Same-if (leb op_close (byte b 0 % 16) && (ltb 125 len || not (byte b 0 / 128 % 2 == 1)))
        (λ t. inr refl)
        (λ t.
          Same-if (ltb rx.max_message len) (λ t. inr refl)
            (λ t. Same-short (length b) (length (b ++ c)) (off + 4) longer (λ le.
              Same-short (length b) (length (b ++ c)) (off + 4 + len) longer (λ le'.
                rw (slice-append off 4 b c le, slice-append (off + 4) len b c le') (inr refl))))))

  parse_rest-append :
      (rx : WsRx) (f : LengthField)
      → 2 ≤ length b
      → Same (rx, need_more) (parse_rest rx b f) (parse_rest rx (b ++ c) f)
  unfolding parse_rest
  parse_rest-append rx cut_short h = inl refl
  parse_rest-append rx (bad why) h = inr refl
  parse_rest-append rx (size len off) h = parse_sized-append rx len off h

  pub parse_one-append : (rx : WsRx) → Same (rx, need_more) (parse_one rx b) (parse_one rx (b ++ c))
  unfolding parse_one parse_rest
  parse_one-append rx = Same-short (length b) (length (b ++ c)) 2 longer (λ h.
      rw (byte-append b c 0 (omega arith), byte-append b c 1 (omega arith))
        (Same-if (not (byte b 0 / 16 % 8 == 0)) (λ t. inr refl)
          (λ t.
            Same-if (not (byte b 1 / 128 % 2 == 1)) (λ t. inr refl)
              (λ t. elim (parse_length-append h) [
                | inl e ↦ rw (e, parse_rest) (inl refl)
                | inr e ↦ rw e (parse_rest-append rx (parse_length b) h)
              ]))))
