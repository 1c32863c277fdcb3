-- ===== src/Pool/Tally.antt =====
-- Sums over the slots of a class of crates/core/src/buffers.rs, whose counts and flags are parallel lists.
use cadeloop.Prelude.{
  ℕ, zero, suc, ◌+◌, ◌*◌, ◌≡◌, refl, Bool, some, List, [], ◌∷◌, ◌++◌, arith, length, get_elem?, set,
  replicate,
}

-- The sum of a weight over the slots, by a slot's reference count and whether it is paged out.
unfoldable pub tally : (ℕ → Bool → ℕ) → List ℕ → List Bool → ℕ
tally f [] ps = 0
tally f (r ∷ rs) [] = 0
tally f (r ∷ rs) (b ∷ ps) = f r b + tally f rs ps

module _ (f : ℕ → Bool → ℕ) where
  pub tally-set :
      (rs : List ℕ) (ps : List Bool) (i r' : ℕ) (b' : Bool) {r : ℕ} {b : Bool}
      → get_elem? rs i ≡ some r
      → get_elem? ps i ≡ some b
      → tally f (set rs i r') (set ps i b') + f r b ≡ tally f rs ps + f r' b'
  unfolding tally
  tally-set [] ps i r' b' e g = cc
  tally-set (x ∷ rs) [] i r' b' e g = cc
  tally-set (x ∷ rs) (y ∷ ps) zero r' b' e g = ground arith
  tally-set (x ∷ rs) (y ∷ ps) (suc i) r' b' e g = omega (arith, tally-set rs ps i r' b' e g)

  -- A write to the counts alone.
  pub tally-set_count :
      (rs : List ℕ) (ps : List Bool) (i r' : ℕ) {r : ℕ} {b : Bool}
      → get_elem? rs i ≡ some r
      → get_elem? ps i ≡ some b
      → tally f (set rs i r') ps + f r b ≡ tally f rs ps + f r' b
  unfolding tally
  tally-set_count [] ps i r' e g = cc
  tally-set_count (x ∷ rs) [] i r' e g = cc
  tally-set_count (x ∷ rs) (y ∷ ps) zero r' e g = ground arith
  tally-set_count (x ∷ rs) (y ∷ ps) (suc i) r' e g = omega (arith, tally-set_count rs ps i r' e g)

  tally-replicate : (n r : ℕ) (b : Bool) → tally f (replicate n r) (replicate n b) ≡ n * f r b
  unfolding tally replicate
  tally-replicate zero r b = omega arith
  tally-replicate (suc n) r b = grind (arith, tally-replicate n r b)

  pub tally-grow :
      (rs : List ℕ) (ps : List Bool) (n r : ℕ) (b : Bool)
      → length ps ≡ length rs
      → tally f (rs ++ replicate n r) (ps ++ replicate n b) ≡ tally f rs ps + n * f r b
  unfolding tally
  tally-grow [] [] n r b e = omega (arith, tally-replicate n r b)
  tally-grow [] (y ∷ ps) n r b e = absurd (omega arith)
  tally-grow (x ∷ rs) [] n r b e = absurd (omega arith)
  tally-grow (x ∷ rs) (y ∷ ps) n r b e = omega (arith, tally-grow rs ps n r b (omega arith))

-- Sums of weights of which one is the sum of two others, at each slot.
pub tally-split :
    (f g h : ℕ → Bool → ℕ) (rs : List ℕ) (ps : List Bool)
    → ((r : ℕ) (b : Bool) → f r b ≡ g r b + h r b)
    → tally f rs ps ≡ tally g rs ps + tally h rs ps
unfolding tally
tally-split f g h [] ps e = omega arith
tally-split f g h (r ∷ rs) [] e = omega arith
tally-split f g h (r ∷ rs) (b ∷ ps) e = omega (arith, e r b, tally-split f g h rs ps e)

-- The weight 1 counts the slots.
pub tally-one :
    (rs : List ℕ) (ps : List Bool) → length ps ≡ length rs → tally (λ r b. 1) rs ps ≡ length rs
unfolding tally
tally-one [] ps e = refl
tally-one (r ∷ rs) [] e = absurd (omega arith)
tally-one (r ∷ rs) (b ∷ ps) e = omega (arith, tally-one rs ps (omega arith))
