-- ===== src/Prelude/Bits.antt =====
-- `|` of fields that share no bit, as a sum, at every width.
use Prim.Native.Nat.{ℕ, zero, suc, ◌+◌, ◌*◌, ◌/◌, ◌%◌, ◌^◌, ◌≤◌, ◌<◌, max, bit_or}
use Prim.Native.Nat.{digits, bit_or-bitwise}
use mathlib.Core.Path.{◌≡◌, refl, ap}
use native.Mathlib.Nat.{pow-suc}
use native.Mathlib.Omega.{arith}

abbrev or_digits : ℕ → ℕ → ℕ → ℕ
or_digits fuel a b = digits (λ y. y) max fuel a b

-- Fuel beyond the first number changes nothing.
or_digits_fuel : (n m a b : ℕ) → a ≤ n → a ≤ m → or_digits n a b ≡ or_digits m a b
or_digits_fuel zero zero a b p q = refl
or_digits_fuel zero (suc m) zero b p q = refl
or_digits_fuel zero (suc m) (suc a) b p q = absurd (omega arith)
or_digits_fuel (suc n) zero zero b p q = refl
or_digits_fuel (suc n) zero (suc a) b p q = absurd (omega arith)
or_digits_fuel (suc n) (suc m) zero b p q = refl
or_digits_fuel (suc n) (suc m) (suc a) b p q =
    omega (arith, or_digits_fuel n m (suc a / 2) (b / 2) (omega arith) (omega arith))

zero-bit_or : (b : ℕ) → bit_or 0 b ≡ b
zero-bit_or b = bit_or-bitwise 0 b

bit_or_step : (a b : ℕ) → bit_or a b ≡ bit_or (a / 2) (b / 2) * 2 + max (a % 2) (b % 2)
bit_or_step zero b = omega (arith, zero-bit_or b, zero-bit_or (b / 2))
bit_or_step (suc a) b = omega (
  arith,
  bit_or-bitwise (suc a) b,
  bit_or-bitwise (suc a / 2) (b / 2),
  or_digits_fuel a (suc a / 2) (suc a / 2) (b / 2) (omega arith) (omega arith),
)

-- The low field first, as the source writes it: `low | (high << k)`.
pub bit_or_low : (k low high : ℕ) → low < 2 ^ k → bit_or low (high * 2 ^ k) ≡ low + high * 2 ^ k
bit_or_low zero low high fits = ground (arith, zero-bit_or high)
bit_or_low (suc k) low high fits = ground (
  arith,
  bit_or_step low (high * 2 ^ suc k),
  pow-suc 2 k,
  ap (λ (t : ℕ). high * t) (pow-suc 2 k),
  bit_or_low k (low / 2) high,
)

bit_or-zero : (bound a : ℕ) → a ≤ bound → bit_or a 0 ≡ a
bit_or-zero bound zero h = refl
bit_or-zero zero (suc a) h = absurd (omega arith)
bit_or-zero (suc bound) (suc a) h =
    omega (arith, bit_or_step (suc a) 0, bit_or-zero bound (suc a / 2) (omega arith))

-- The high field first: `(high << k) | low`.
pub bit_or_high : (k high low : ℕ) → low < 2 ^ k → bit_or (high * 2 ^ k) low ≡ high * 2 ^ k + low
bit_or_high zero high low fits = ground (arith, bit_or-zero high high)
bit_or_high (suc k) high low fits = ground (
  arith,
  bit_or_step (high * 2 ^ suc k) low,
  pow-suc 2 k,
  ap (λ (t : ℕ). high * t) (pow-suc 2 k),
  bit_or_high k high (low / 2),
)
