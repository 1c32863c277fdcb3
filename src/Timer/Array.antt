-- ===== src/Timer/Array.antt =====
-- The `Vec` calls of crates/core/src/timer.rs: `swap` and `swap_remove(0)`, which panic out of range.
use mathlib.Core.Option.{some-injective}
use mathlib.Core.List.{Perm}
use mathlib.Core.List.Perm
use cadeloop.Prelude.{
  ℕ, zero, suc, ◌<◌, ◌≡◌, refl, ◌∙◌, Option, none, some, List, [], ◌∷◌, arith, length, get_elem?,
  set, length-set, ◌==◌, if◌then◌else◌, subst, get_elem?-set_lt, Bool-cases, inl, inr,
}
use cadeloop.Prelude.Partial.{◌>>=◌}

module _ {ℓ} {A : Type ℓ} where
  unfoldable pub swap : List A → ℕ → ℕ → Option (List A)
  swap a i j = do x ← get_elem? a i; y ← get_elem? a j; some (set (set a i y) j x)

  -- The removed first entry is replaced by the last one.
  unfoldable pub last_entry : A → List A → A
  last_entry x [] = x
  last_entry x (y ∷ l) = last_entry y l

  unfoldable pub init : A → List A → List A
  init x [] = []
  init x (y ∷ l) = x ∷ init y l

  unfoldable pub swap_remove_first : List A → Option (A × List A)
  unfolding last_entry init
  swap_remove_first [] = none
  swap_remove_first (x ∷ []) = some (x, [])
  swap_remove_first (x ∷ y ∷ l) = some (x, last_entry y l ∷ init y l)

  pub get_elem?-some : (a : List A) (i : ℕ) → i < length a → (x : A) × (get_elem? a i ≡ some x)
  get_elem?-some [] i h = absurd (omega arith)
  get_elem?-some (x ∷ a) zero h = (x, refl)
  get_elem?-some (x ∷ a) (suc i) h = get_elem?-some a i (omega arith)

  -- Overwriting one entry trades it for the new one.
  set-perm :
      (a : List A) (i : ℕ) (v : A) {x : A} → get_elem? a i ≡ some x → Perm (x ∷ set a i v) (v ∷ a)
  set-perm [] i v h = cc
  set-perm (y ∷ a) zero v {x} h =
      subst (λ z. Perm (z ∷ v ∷ a) (v ∷ y ∷ a)) (some-injective _ _ h) (Perm.swap v y a)
  set-perm (y ∷ a) (suc i) v {x} h =
      Perm.trans (Perm.swap y x _) (Perm.trans (Perm.cons y (set-perm a i v h)) (Perm.swap v y a))

  kept :
      (a : List A) (i j : ℕ) (y : A)
      → get_elem? a j ≡ some y
      → i < length a
      → get_elem? (set a i y) j ≡ some y
  kept a i j y e h = elim (Bool-cases (i == j)) [
    | inl q ↦ rw (get_elem?-set_lt a i j y h, q) refl
    | inr q ↦ rw (get_elem?-set_lt a i j y h, q) e
  ]

  -- What a swap in range does.
  pub record Swapped (a : List A) (i j : ℕ) (b : List A) : Type ℓ where
    pub same : Perm b a
    pub size : length b ≡ length a
    pub at :
        (c : ℕ)
        → get_elem? b c
          ≡ (if j == c then get_elem? a i else if i == c then get_elem? a j else get_elem? a c)

  pub swap-Swapped :
      (a : List A) (i j : ℕ)
      → i < length a
      → j < length a
      → (b : List A) × (swap a i j ≡ some b) × Swapped a i j b
  unfolding swap
  swap-Swapped a i j hi hj =
      let (x, ex) = get_elem?-some a i hi in
      let (y, ey) = get_elem?-some a j hj in
      let b = set a i y in
      let hj' : j < length b = omega (arith, length-set a i y) in
      (
        set b j x,
        rw (ex, ey) refl,
        record {
          same =
              Perm.cons_inv (Perm.trans (set-perm b j x (kept a i j y ey hi)) (set-perm a i y ex));
          size = length-set b j x ∙ length-set a i y;
          at = λ c. rw (get_elem?-set_lt b j c x hj', get_elem?-set_lt a i c y hi, ex, ey) refl;
        },
      )
