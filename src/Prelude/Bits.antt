-- ===== src/Prelude/Bits.antt =====
-- `bit_or` of numbers whose bits do not meet is their sum.
use Prim.Native.Nat.{
  ℕ, zero, suc, ◌+◌, ◌*◌, ◌/◌, ◌%◌, ◌^◌, ◌≤◌, ◌<◌, max, bit_or, digits, bit_or-bitwise,
}
use mathlib.Core.Path.{◌≡◌, refl, ap}
use native.Mathlib.Nat.{pow-suc}
use native.Mathlib.Omega.{arith}

abbrev or_digits : ℕ → ℕ → ℕ → ℕ
or_digits n a b = digits (λ b. b) max n a b

or_digits_fuel : (n m a b : ℕ) → a ≤ n → a ≤ m → or_digits n a b ≡ or_digits m a b
or_digits_fuel zero zero a b p q = refl
or_digits_fuel zero (suc m) zero b p q = refl
or_digits_fuel zero (suc m) (suc a) b p q = absurd (omega arith)
or_digits_fuel (suc n) zero zero b p q = refl
or_digits_fuel (suc n) zero (suc a) b p q = absurd (omega arith)
or_digits_fuel (suc n) (suc m) zero b p q = refl
or_digits_fuel (suc n) (suc m) (suc a) b p q =
    omega (arith, or_digits_fuel n m (suc a / 2) (b / 2) (omega arith) (omega arith))

zero-bit_or : (b : ℕ) → bit_or 0 b ≡ b
zero-bit_or b = bit_or-bitwise 0 b

bit_or_step : (a b : ℕ) → bit_or a b ≡ bit_or (a / 2) (b / 2) * 2 + max (a % 2) (b % 2)
bit_or_step zero b = omega (arith, zero-bit_or b, zero-bit_or (b / 2))
bit_or_step (suc a) b = omega (
  arith,
  bit_or-bitwise (suc a) b,
  bit_or-bitwise (suc a / 2) (b / 2),
  or_digits_fuel a (suc a / 2) (suc a / 2) (b / 2) (omega arith) (omega arith),
)

bit_or-zero_fuel : (n a : ℕ) → a ≤ n → bit_or a 0 ≡ a
bit_or-zero_fuel n zero h = refl
bit_or-zero_fuel zero (suc a) h = absurd (omega arith)
bit_or-zero_fuel (suc n) (suc a) h =
    omega (arith, bit_or_step (suc a) 0, bit_or-zero_fuel n (suc a / 2) (omega arith))

-- A field shifted past the bits of the other.
pub bit_or_disjoint : (k x y : ℕ) → y < 2 ^ k → bit_or (x * 2 ^ k) y ≡ x * 2 ^ k + y
bit_or_disjoint zero zero zero h = refl
bit_or_disjoint zero (suc x) zero h =
    let whole : suc x * 2 ^ 0 ≡ suc x = omega arith in
    omega (arith, ap (λ (t : ℕ). bit_or t 0) whole, bit_or-zero_fuel (suc x) (suc x) (omega arith))
bit_or_disjoint zero x (suc y) h = absurd (omega arith)
bit_or_disjoint (suc k) x y h =
    let bound : y / 2 < 2 ^ k = omega (arith, pow-suc 2 k) in
    let even : x * 2 ^ suc k ≡ (x * 2 ^ k) * 2 =
      omega (arith, ap (λ (t : ℕ). x * t) (pow-suc 2 k)) in
    let half : x * 2 ^ suc k / 2 ≡ x * 2 ^ k = omega (arith, even) in
    omega (
      arith,
      bit_or_step (x * 2 ^ suc k) y,
      ap (λ (t : ℕ). bit_or t (y / 2)) half,
      bit_or_disjoint k x (y / 2) bound,
    )
