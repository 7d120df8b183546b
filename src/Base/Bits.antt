-- ===== src/Base/Bits.antt =====
-- `bit_or` of numbers that share no digit is their sum.
use Prim.Native.Nat.{
  ℕ, zero, suc, ◌+◌, ◌*◌, ◌/◌, ◌%◌, ◌^◌, ◌≤◌, ◌<◌, max, bit_and, bit_or, digits, bit_or-bitwise,
}
use mathlib.Core.Path.{◌≡◌, refl, ap}
use mathlib.Core.Bool.{true}
use native.Mathlib.Omega.{arith}
use native.Mathlib.Nat.{pow-suc, pow-suc}
use dogbox.Base.Tests.{◌==◌, ==_iff, all_below, all_below_sound}

abbrev or_digits : ℕ → ℕ → ℕ → ℕ
or_digits n a b = digits (λ b. b) max n a b

or_digits_fuel : (n m a b : ℕ) → a ≤ n → a ≤ m → or_digits n a b ≡ or_digits m a b
or_digits_fuel zero zero a b p q = refl
or_digits_fuel zero (suc m) zero b p q = refl
or_digits_fuel zero (suc m) (suc a) b p q = absurd (omega arith)
or_digits_fuel (suc n) zero zero b p q = refl
or_digits_fuel (suc n) zero (suc a) b p q = absurd (omega arith)
or_digits_fuel (suc n) (suc m) zero b p q = refl
or_digits_fuel (suc n) (suc m) (suc a) b p q =
    omega (arith, or_digits_fuel n m (suc a / 2) (b / 2) (omega arith) (omega arith))

zero-bit_or : (b : ℕ) → bit_or 0 b ≡ b
zero-bit_or b = bit_or-bitwise 0 b

bit_or_step : (a b : ℕ) → bit_or a b ≡ bit_or (a / 2) (b / 2) * 2 + max (a % 2) (b % 2)
bit_or_step zero b = omega (arith, zero-bit_or b, zero-bit_or (b / 2))
bit_or_step (suc a) b = omega (
  arith,
  bit_or-bitwise (suc a) b,
  bit_or-bitwise (suc a / 2) (b / 2),
  or_digits_fuel a (suc a / 2) (suc a / 2) (b / 2) (omega arith) (omega arith),
)

bit_or-zero_fuel : (n a : ℕ) → a ≤ n → bit_or a 0 ≡ a
bit_or-zero_fuel n zero h = zero-bit_or 0
bit_or-zero_fuel zero (suc a) h = absurd (omega arith)
bit_or-zero_fuel (suc n) (suc a) h =
    omega (arith, bit_or_step (suc a) 0, bit_or-zero_fuel n (suc a / 2) (omega arith))

bit_or_double : (x b : ℕ) → bit_or (x * 2) b ≡ bit_or x (b / 2) * 2 + b % 2
bit_or_double x b =
    let half : x * 2 / 2 ≡ x = omega arith in omega (arith, rw half at (bit_or_step (x * 2) b))

bit_or_pow : (k a b : ℕ) → b < 2 ^ k → bit_or (a * 2 ^ k) b ≡ a * 2 ^ k + b
bit_or_pow zero a zero h =
    let unshifted : a * 2 ^ 0 ≡ a = omega arith in
    rw unshifted (omega (arith, bit_or-zero_fuel a a (omega arith)))
bit_or_pow zero a (suc b) h = absurd (omega arith)
bit_or_pow (suc k) a b h =
    let shifted : a * 2 ^ suc k ≡ a * 2 ^ k * 2 =
      omega (arith, ap (λ (t : ℕ). a * t) (pow-suc 2 k)) in
    rw shifted (
      omega
        (arith, bit_or_double (a * 2 ^ k) b, bit_or_pow k a (b / 2) (omega (arith, pow-suc 2 k))))

-- `(high << 8) | low` for a byte `low`.
pub bit_or_byte : (a b : ℕ) → b < 256 → bit_or (a * 256) b ≡ a * 256 + b
bit_or_byte a b h = bit_or_pow 8 a b h

-- `(high << 4) | low` for a hexadecimal digit `low`.
pub bit_or_nibble : (a b : ℕ) → b < 16 → bit_or (a * 16) b ≡ a * 16 + b
bit_or_nibble a b h = bit_or_pow 4 a b h

low_nibble_table : all_below 256 (λ b. bit_and b 15 == b % 16) ≡ true
unfolding all_below
low_nibble_table = refl

pub bit_and_fifteen : (b : ℕ) → b < 256 → bit_and b 15 ≡ b % 16
bit_and_fifteen b h = (==_iff _ _).0 (all_below_sound 256 _ b low_nibble_table h)
