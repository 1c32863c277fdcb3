-- ===== src/Prelude/Partial.antt =====
-- Code that may panic: `none` is the panic. `Yields P m` says that `m` returns, with a value in `P`.
use mathlib.Core.Option.{Option, none, some}
use mathlib.Core.Bool.{Bool, true, false}
use mathlib.Core.Path.{◌≡◌, refl, subst}
use cadeloop.Prelude.Tests.{if◌then◌else◌}

infixl 5 ◌>>=◌
abbrev pub ◌>>=◌ {ℓ κ} : {A : Type ℓ} {B : Type κ} → Option A → (A → Option B) → Option B
none >>= f = none
some a >>= f = f a

pub data Yields {ℓ κ} {A : Type ℓ} (P : A → Type κ) : Option A → Type (ℓ ⊔ κ) where
  yields : {a : A} → P a → Yields P (some a)

module _ {ℓ κ} {A : Type ℓ} {P : A → Type κ} where
  -- The value, its equation and what holds of it.
  pub Yields-value : {m : Option A} → Yields P m → (a : A) × (m ≡ some a) × P a
  Yields-value (yields p) = (_, refl, p)

  pub Yields-some : {m : Option A} {a : A} → Yields P m → m ≡ some a → P a
  Yields-some {a = a} (yields {a = b} p) h = let e : b ≡ a = cc in subst P e p

  pub Yields-weaken {κ'} :
      {Q : A → Type κ'} {m : Option A} → ((a : A) → P a → Q a) → Yields P m → Yields Q m
  Yields-weaken k (yields p) = yields (k _ p)

  pub Yields-then {ℓ' κ'} :
      {B : Type ℓ'} {Q : B → Type κ'} {m : Option A} {f : A → Option B}
      → Yields P m
      → ((a : A) → P a → Yields Q (f a))
      → Yields Q (m >>= f)
  Yields-then (yields p) k = k _ p

  pub Yields-if :
      {x y : Option A} (b : Bool)
      → (b ≡ true → Yields P x)
      → (b ≡ false → Yields P y)
      → Yields P (if b then x else y)
  Yields-if true p q = p refl
  Yields-if false p q = q refl
