-- ===== src/Ws/Handshake/Base64.antt =====
-- The base64 of crates/core/src/ws.rs, against a decoder that is written down from RFC 4648.
use cadeloop.Prelude.{
  ℕ, zero, suc, ◌+◌, ◌-◌, leb, ◌*◌, ◌/◌, ◌%◌, ◌^◌, ◌<◌, ◌≡◌, refl, ap, ◌∙◌, Bool, true, false, ◌&&◌,
  not, List, [], ◌∷◌, length, arith, get_or, ap₂, ◌==◌, ◌⊎◌, inl, inr, if◌then◌else◌,
}
use cadeloop.Ws.Handshake.{alphabet, letter, group, base64}

-- RFC 4648, table 1: A to Z, a to z, 0 to 9, `+` and `/`.
unfoldable pub value_of : ℕ → ℕ
value_of c =
    if leb 65 c && leb c 90
    then c - 65
    else if leb 97 c && leb c 122
    then c - 97 + 26
    else if leb 48 c && leb c 57
    then c - 48 + 52
    else if c == 43
    then 62
    else if c == 47
    then 63
    else 64

-- What four letters stand for, up to the first that is padding.
unfoldable pub decoded : List ℕ → List ℕ
decoded (w ∷ x ∷ y ∷ z ∷ l) =
    let rest = decoded l in
    let first = value_of w * 4 + value_of x / 16 in
    let second = value_of x % 16 * 16 + value_of y / 4 in
    let third = value_of y % 4 * 64 + value_of z in
    if y == 61
    then first ∷ []
    else if z == 61
    then first ∷ second ∷ []
    else first ∷ second ∷ third ∷ rest
decoded _ = []

abbrev pub AllBytes : List ℕ → Type 0
AllBytes [] = Unit
AllBytes (x ∷ l) = (x < 256) × AllBytes l

all_below : ℕ → (ℕ → Bool) → Bool
all_below zero p = true
all_below (suc n) p = p n && all_below n p

all_below-at : (n k : ℕ) (p : ℕ → Bool) → all_below n p ≡ true → k < n → p k ≡ true
unfolding all_below
all_below-at zero k p h q = absurd (omega arith)
all_below-at (suc n) k p h q = elim (split n k q) [
  | inl e ↦ ap p e ∙ ground arith
  | inr q ↦ all_below-at n k p (ground arith) q
]
  where
    split : (n k : ℕ) → k < suc n → (k ≡ n) ⊎ (k < n)
    split n k q = omega arith

-- A letter is not the padding, and its value is the digit.
good_digit : ℕ → Bool
good_digit n = let c = get_or alphabet n 0 in (value_of c == n) && not (c == 61)

digits_good : all_below 64 good_digit ≡ true
unfolding all_below good_digit value_of
digits_good = refl

value_of-letter : (n : ℕ) → value_of (letter n) ≡ n % 64
unfolding good_digit letter
value_of-letter n =
    let h = all_below-at 64 (n % 64) good_digit digits_good (omega arith) in
    let e : (value_of (get_or alphabet (n % 64) 0) == n % 64) ≡ true = ground arith in ground arith

letter_other : (n : ℕ) → (letter n == 61) ≡ false
unfolding good_digit letter
letter_other n =
    let h = all_below-at 64 (n % 64) good_digit digits_good (omega arith) in ground arith

-- Decoding gives the bytes back.
pub decoded-base64 : (l : List ℕ) → AllBytes l → decoded (base64 l) ≡ l
unfolding decoded base64
decoded-base64 [] h = refl
decoded-base64 (a ∷ []) (h, t) =
    ap (λ k. k ∷ [])
      (omega
        (arith, value_of-letter (group a 0 0 / 2 ^ 18), value_of-letter (group a 0 0 / 2 ^ 12)))
decoded-base64 (a ∷ b ∷ []) (h, (g, t)) = rw (letter_other (group a b 0 / 2 ^ 6)) (
    ap₂ (λ j k. j ∷ k ∷ [])
      (omega
        (arith, value_of-letter (group a b 0 / 2 ^ 18), value_of-letter (group a b 0 / 2 ^ 12)))
      (omega
        (arith, value_of-letter (group a b 0 / 2 ^ 12), value_of-letter (group a b 0 / 2 ^ 6))))
decoded-base64 (a ∷ b ∷ c ∷ l) (h, (g, (f, t))) =
    let n = group a b c in
    let p = value_of-letter (n / 2 ^ 18) in
    let q = value_of-letter (n / 2 ^ 12) in
    let r = value_of-letter (n / 2 ^ 6) in
    rw (letter_other (n / 2 ^ 6), letter_other n)
      (ap₂ (λ j k. j ∷ k) (omega (arith, p, q))
        (ap₂ (λ j k. j ∷ k) (omega (arith, q, r))
          (ap₂ (λ j k. j ∷ k) (omega (arith, r, value_of-letter n)) (decoded-base64 l t))))

pub length-base64 : (l : List ℕ) → length (base64 l) ≡ (length l + 2) / 3 * 4
unfolding base64
length-base64 [] = refl
length-base64 (a ∷ []) = refl
length-base64 (a ∷ b ∷ []) = refl
length-base64 (a ∷ b ∷ c ∷ l) = omega (arith, length-base64 l)
