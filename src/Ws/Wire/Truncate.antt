-- ===== src/Ws/Wire/Truncate.antt =====
-- The close frame of crates/core/src/ws.rs: its reason is cut where a character ends.
use cadeloop.Prelude.{
  ℕ, zero, suc, ◌+◌, ◌/◌, ◌%◌, ◌≤◌, ◌<◌, ◌≡◌, refl, sym, ap, ◌∙◌, ◌⊎◌, inl, inr, Bool, true, false,
  Option, none, some, List, [], ◌∷◌, ◌++◌, arith, length, length-take, get_elem?, take, drop,
  take-append-drop, ltb, leb, ◌==◌, if◌then◌else◌, Bool-cases,
}
use cadeloop.Ws.Utf8.{lead, enter, follow, is_utf8, is_char_boundary}
use cadeloop.Ws.Wire.{boundary_below, truncate_on_char_boundary, close_frame, frame, to_be_bytes}

-- What may be owed is continuation bytes.
data IsOwed : Option (ℕ × (ℕ × ℕ)) → Type 0 where
  nothing : IsOwed none
  owed : (n lo hi : ℕ) → 0x80 ≤ lo → hi ≤ 0xBF → IsOwed (some (n, (lo, hi)))

IsOwed-if :
    {x y : Option (ℕ × (ℕ × ℕ))} (t : Bool) → IsOwed x → IsOwed y → IsOwed (if t then x else y)
IsOwed-if true p q = p
IsOwed-if false p q = q

lead-IsOwed : (b : ℕ) → IsOwed (lead b)
unfolding lead
lead-IsOwed b = IsOwed-if (ltb b 0x80) (owed 0 0x80 0xBF (omega arith) (omega arith)) (
    IsOwed-if (ltb b 0xC2) nothing (
      IsOwed-if (ltb b 0xE0) (owed 1 0x80 0xBF (omega arith) (omega arith)) (
        IsOwed-if (b == 0xE0) (owed 2 0xA0 0xBF (omega arith) (omega arith)) (
          IsOwed-if (b == 0xED) (owed 2 0x80 0x9F (omega arith) (omega arith)) (
            IsOwed-if (ltb b 0xF0) (owed 2 0x80 0xBF (omega arith) (omega arith)) (
              IsOwed-if (b == 0xF0) (owed 3 0x90 0xBF (omega arith) (omega arith)) (
                IsOwed-if (ltb b 0xF4) (owed 3 0x80 0xBF (omega arith) (omega arith)) (
                  IsOwed-if (b == 0xF4) (owed 3 0x80 0x8F (omega arith) (omega arith))
                    nothing))))))))

enter_weaken :
    (o : Option (ℕ × (ℕ × ℕ))) {k k' : ℕ → ℕ → ℕ → Bool}
    → IsOwed o
    → ((n lo hi : ℕ) → 0x80 ≤ lo → hi ≤ 0xBF → k n lo hi ≡ true → k' n lo hi ≡ true)
    → enter o k ≡ true
    → enter o k' ≡ true
unfolding enter
enter_weaken none w f h = absurd (cc h)
enter_weaken (some (n, (lo, hi))) (owed _ _ _ p q) f h = f n lo hi p q h

-- The byte at `i`, if there is one, does not continue a character.
abbrev Starts : List ℕ → ℕ → Type 0
Starts s i = (b : ℕ) → get_elem? s i ≡ some b → (b < 0x80) ⊎ (0xC0 ≤ b)

follow-take :
    (n lo hi : ℕ) (s : List ℕ) (i : ℕ)
    → 0x80 ≤ lo
    → hi ≤ 0xBF
    → follow n lo hi s ≡ true
    → Starts s i
    → follow n lo hi (take i s) ≡ true
unfolding follow
follow-take zero lo hi [] zero p q h st = refl
follow-take zero lo hi [] (suc i) p q h st = refl
follow-take (suc n) lo hi [] i p q h st = absurd (cc h)
follow-take zero lo hi (b ∷ s) zero p q h st = refl
follow-take (suc n) lo hi (b ∷ s) zero p q h st = absurd (ground (arith, st b refl))
follow-take zero lo hi (b ∷ s) (suc i) p q h st =
    enter_weaken (lead b) (lead-IsOwed b)
      (λ n lo' hi' p' q' h'. follow-take n lo' hi' s i p' q' h' st) h
follow-take (suc n) lo hi (b ∷ s) (suc i) p q h st =
    ground (arith, follow-take n 0x80 0xBF s i (omega arith) (omega arith) (ground arith) st)

boundary-Starts : (s : List ℕ) (i : ℕ) → 0 < i → is_char_boundary s i ≡ true → Starts s i
unfolding is_char_boundary
boundary-Starts s i pos h b e = ground arith

-- The largest boundary up to `i`.
boundary_below-largest :
    (s : List ℕ) (i : ℕ)
    → (boundary_below s i ≤ i)
      × ((boundary_below s i ≡ 0) ⊎ (is_char_boundary s (boundary_below s i) ≡ true))
      × ((j : ℕ) → j ≤ i → is_char_boundary s j ≡ true → j ≤ boundary_below s i)
unfolding boundary_below
boundary_below-largest s zero = (omega arith, inl refl, λ j le h. le)
boundary_below-largest s (suc i) = elim (Bool-cases (is_char_boundary s (suc i))) [
  | inl t ↦ rw t (omega arith, inr t, λ j le h. le)
  | inr t ↦
      let (le, at, most) = boundary_below-largest s i in
      rw t (
        omega arith,
        at,
        λ j le' h. elim (Bool-cases (j == suc i)) [
          | inl q ↦
              let here : j ≡ suc i = ground arith in
              absurd (cc (sym t ∙ ap (is_char_boundary s) (sym here) ∙ h))
          | inr q ↦ most j (ground arith) h
        ],
      )
]

-- The longest prefix of at most `max` bytes that ends where a character ends; it is UTF-8.
pub record Truncated (s : List ℕ) (max : ℕ) (t : List ℕ) : Type 0 where
  pub fits : length t ≤ max
  pub prefix : t ++ drop (length t) s ≡ s
  pub valid : is_utf8 t ≡ true
  pub largest : (j : ℕ) → j ≤ max → j ≤ length s → is_char_boundary s j ≡ true → j ≤ length t

drop-length : (s : List ℕ) → s ++ drop (length s) s ≡ s
drop-length [] = refl
drop-length (x ∷ s) = ap (λ l. x ∷ l) (drop-length s)

cut-is_utf8 :
    (s : List ℕ) (i : ℕ)
    → is_utf8 s ≡ true
    → (i ≡ 0) ⊎ (is_char_boundary s i ≡ true)
    → is_utf8 (take i s) ≡ true
unfolding is_utf8 follow
cut-is_utf8 s zero h at = refl
cut-is_utf8 s (suc i) h (inl e) = absurd (omega arith)
cut-is_utf8 s (suc i) h (inr at) =
    follow-take 0 0x80 0xBF s (suc i) (omega arith) (omega arith) h
      (boundary-Starts s (suc i) (omega arith) at)

truncate-Truncated :
    (s : List ℕ) (max : ℕ) → is_utf8 s ≡ true → Truncated s max (truncate_on_char_boundary s max)
unfolding truncate_on_char_boundary
truncate-Truncated s max h = elim (Bool-cases (leb (length s) max)) [
  | inl t ↦
      rw t
        (record { fits = ground arith; prefix = drop-length s; valid = h; largest = λ j p q r. q })
  | inr t ↦
      let (le, at, most) = boundary_below-largest s max in
      let size : length (take (boundary_below s max) s) ≡ boundary_below s max =
        ground (arith, length-take (boundary_below s max) s) in
      rw t (record {
        fits = omega arith;
        prefix = rw size (take-append-drop (boundary_below s max) s);
        valid = cut-is_utf8 s (boundary_below s max) h at;
        largest = λ j p q r. omega (arith, most j p r);
      })
]

-- A close frame for a reason that is UTF-8: FIN and the close opcode, a short length, the code in network
-- order, and the longest prefix of the reason that has at most 123 bytes and does not split a character,
-- so that the whole frame has at most 127 bytes and its reason is UTF-8.
pub close_frame_correct :
    (code : ℕ) (reason : List ℕ)
    → is_utf8 reason ≡ true
    → (kept : List ℕ) × Truncated reason 123 kept
      × (close_frame code reason
          ≡ 0x88 ∷ (2 + length kept) ∷ (code / 256 % 256) ∷ (code % 256) ∷ kept)
      × (length (close_frame code reason) ≤ 127)
unfolding close_frame frame to_be_bytes
close_frame_correct code reason h =
    let kept = truncate_on_char_boundary reason 123 in
    let t = truncate-Truncated reason 123 h in
    let few : ltb (2 + length kept) 126 ≡ true = ground (arith, t.fits) in
    let size : length (to_be_bytes 2 code ++ kept) ≡ 2 + length kept = omega arith in
    let shape : close_frame code reason
        ≡ 0x88 ∷ (2 + length kept) ∷ (code / 256 % 256) ∷ (code % 256) ∷ kept =
      rw (size, few) refl in
    (kept, t, shape, omega (arith, ap length shape, t.fits))
