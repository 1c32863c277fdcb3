-- ===== src/Prelude/Bits.antt =====
-- Facts about `bit_xor` at variables. The libraries have none, and the tactics take such a call for an
-- unknown.
use Prim.Native.Nat.{
  ℕ, zero, suc, ◌+◌, ◌*◌, ◌/◌, ◌%◌, ◌≤◌, ◌<◌, bit_xor, digits, differ, bit_xor-bitwise,
}
use mathlib.Core.Path.{◌≡◌, refl}
use native.Mathlib.Omega.{arith}

abbrev xor_digits : ℕ → ℕ → ℕ → ℕ
xor_digits n a b = digits (λ b. b) differ n a b

-- The sum of two digits without the carry.
differ_mod : (a b : ℕ) → a < 2 → b < 2 → differ a b ≡ (a + b) % 2
differ_mod zero zero p q = refl
differ_mod zero (suc zero) p q = refl
differ_mod zero (suc (suc b)) p q = absurd (omega arith)
differ_mod (suc zero) zero p q = refl
differ_mod (suc zero) (suc zero) p q = refl
differ_mod (suc zero) (suc (suc b)) p q = absurd (omega arith)
differ_mod (suc (suc a)) b p q = absurd (omega arith)

xor_digits_fuel : (n m a b : ℕ) → a ≤ n → a ≤ m → xor_digits n a b ≡ xor_digits m a b
xor_digits_fuel zero zero a b p q = refl
xor_digits_fuel zero (suc m) zero b p q = refl
xor_digits_fuel zero (suc m) (suc a) b p q = absurd (omega arith)
xor_digits_fuel (suc n) zero zero b p q = refl
xor_digits_fuel (suc n) zero (suc a) b p q = absurd (omega arith)
xor_digits_fuel (suc n) (suc m) zero b p q = refl
xor_digits_fuel (suc n) (suc m) (suc a) b p q =
    omega (arith, xor_digits_fuel n m (suc a / 2) (b / 2) (omega arith) (omega arith))

zero-bit_xor : (b : ℕ) → bit_xor 0 b ≡ b
zero-bit_xor b = bit_xor-bitwise 0 b

-- The law of the lowest digit.
pub bit_xor_step : (a b : ℕ) → bit_xor a b ≡ bit_xor (a / 2) (b / 2) * 2 + (a % 2 + b % 2) % 2
bit_xor_step zero b = omega (arith, zero-bit_xor b, zero-bit_xor (b / 2))
bit_xor_step (suc a) b = omega (
  arith,
  bit_xor-bitwise (suc a) b,
  bit_xor-bitwise (suc a / 2) (b / 2),
  differ_mod (suc a % 2) (b % 2) (omega arith) (omega arith),
  xor_digits_fuel a (suc a / 2) (suc a / 2) (b / 2) (omega arith) (omega arith),
)

bit_xor_twice_fuel : (n a m : ℕ) → a + m ≤ n → bit_xor (bit_xor a m) m ≡ a
bit_xor_twice_fuel zero a m h =
    let a_is : a ≡ 0 = omega arith in let m_is : m ≡ 0 = omega arith in rw (a_is, m_is) refl
bit_xor_twice_fuel (suc n) a m h =
    let half : bit_xor a m / 2 ≡ bit_xor (a / 2) (m / 2) = omega (arith, bit_xor_step a m) in
    let again : bit_xor (bit_xor a m / 2) (m / 2) ≡ a / 2 =
      rw half (bit_xor_twice_fuel n (a / 2) (m / 2) (omega arith)) in
    omega (arith, bit_xor_step a m, bit_xor_step (bit_xor a m) m, again)

pub bit_xor_twice : (a m : ℕ) → bit_xor (bit_xor a m) m ≡ a
bit_xor_twice a m = bit_xor_twice_fuel (a + m) a m (omega arith)
