-- ===== src/Prelude/Bits/Or.antt =====
-- `|` of numbers whose bits do not meet is their sum.
use Prim.Native.Nat.{
  ℕ, zero, suc, ◌+◌, ◌*◌, ◌/◌, ◌%◌, ◌^◌, ◌≤◌, ◌<◌, max, bit_or, digits, bit_or-bitwise,
}
use mathlib.Core.Path.{◌≡◌, refl, ap}
use native.Mathlib.Omega.{arith}
use native.Mathlib.Nat.{pow-suc, mul-one, add-zero}

abbrev or_digits : ℕ → ℕ → ℕ → ℕ
or_digits n a b = digits (λ (b : ℕ). b) max n a b

or_digits_zero : (i j y : ℕ) → or_digits i 0 y ≡ or_digits j 0 y
or_digits_zero zero zero y = refl
or_digits_zero zero (suc j) y = refl
or_digits_zero (suc i) zero y = refl
or_digits_zero (suc i) (suc j) y = refl

or_digits_fuel : (i j x y : ℕ) → x ≤ i → x ≤ j → or_digits i x y ≡ or_digits j x y
or_digits_fuel zero zero x y hi hj = refl
or_digits_fuel i j zero y hi hj = or_digits_zero i j y
or_digits_fuel zero j (suc x) y hi hj = absurd (omega arith)
or_digits_fuel (suc i) zero (suc x) y hi hj = absurd (omega arith)
or_digits_fuel (suc i) (suc j) (suc x) y hi hj =
    let half = suc x / 2 in
    let rest = or_digits_fuel i j half (y / 2) (omega arith) (omega arith) in omega (arith, rest)

zero-bit_or : (b : ℕ) → bit_or 0 b ≡ b
zero-bit_or b = bit_or-bitwise 0 b

bit_or_step : (a b : ℕ) → bit_or a b ≡ bit_or (a / 2) (b / 2) * 2 + max (a % 2) (b % 2)
bit_or_step zero b = omega (arith, zero-bit_or b, zero-bit_or (b / 2))
bit_or_step (suc a) b = omega (
  arith,
  bit_or-bitwise (suc a) b,
  bit_or-bitwise (suc a / 2) (b / 2),
  or_digits_fuel a (suc a / 2) (suc a / 2) (b / 2) (omega arith) (omega arith),
)

bit_or-zero_fuel : (n a : ℕ) → a ≤ n → bit_or a 0 ≡ a
bit_or-zero_fuel n zero h = refl
bit_or-zero_fuel zero (suc a) h = absurd (omega arith)
bit_or-zero_fuel (suc n) (suc a) h =
    omega (arith, bit_or_step (suc a) 0, bit_or-zero_fuel n (suc a / 2) (omega arith))

halve : (k a : ℕ) → a * 2 ^ suc k / 2 ≡ a * 2 ^ k
halve k a = omega (arith, ap (λ (t : ℕ). a * t) (pow-suc 2 k))

-- (a << k) | b for b below 2 ^ k
pub bit_or-disjoint : (k a b : ℕ) → b < 2 ^ k → bit_or (a * 2 ^ k) b ≡ a * 2 ^ k + b
bit_or-disjoint zero a zero h = rw (mul-one, add-zero) (bit_or-zero_fuel a a (omega arith))
bit_or-disjoint zero a (suc b) h = absurd (omega arith)
bit_or-disjoint (suc k) a b h = omega (
  arith,
  pow-suc 2 k,
  ap (λ (t : ℕ). a * t) (pow-suc 2 k),
  bit_or_step (a * 2 ^ suc k) b,
  bit_or-disjoint k a (b / 2) (omega (arith, pow-suc 2 k)),
  ap (λ (t : ℕ). bit_or t (b / 2)) (halve k a),
)
