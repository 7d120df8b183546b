-- ===== src/Base/Decimal.antt =====
-- Numbers as decimal text: `std::to_string`, and `operator<<` of a stream for a number.
use Prim.Native.Nat.{ℕ, zero, suc, ◌+◌, ◌-◌, ◌*◌, ◌/◌, ◌%◌, ◌<◌}
use mathlib.Core.Path.{◌≡◌, sym, ap, ◌∙◌}
use mathlib.Core.Logic.{◌≢◌, inl, inr}
use mathlib.Core.List.{[], ◌∷◌}
use native.Mathlib.Omega.{arith}
use dogbox.Base.Tests.{ltb, if◌then◌else◌, Bool-cases, ltb_false→le}
use dogbox.Base.Lists.{All}
use dogbox.Base.Buffers.{Bytes}

-- The digits in front of `after`; each round takes a digit off, so that `n + 1` rounds are enough.
unfoldable pub decimal_loop : ℕ → ℕ → Bytes → Bytes
decimal_loop zero n after = after
decimal_loop (suc fuel) n after =
    let rest = decimal_loop fuel (n / 10) ((b'0' + n % 10) ∷ after) in
    if ltb n 10 then (b'0' + n) ∷ after else rest

unfoldable pub decimal : ℕ → Bytes
unfolding decimal_loop
decimal n = decimal_loop (suc n) n []

-- The number that some digits stand for, behind those that were read.
read_digits : ℕ → Bytes → ℕ
read_digits number [] = number
read_digits number (c ∷ digits) = read_digits (number * 10 + (c - b'0')) digits

read-decimal_loop :
    (fuel n : ℕ) (after : Bytes)
    → n < fuel
    → read_digits 0 (decimal_loop fuel n after) ≡ read_digits n after
unfolding read_digits decimal_loop
read-decimal_loop zero n after h = absurd (omega arith)
read-decimal_loop (suc fuel) n after h = elim (Bool-cases (ltb n 10)) [
  | inl last ↦
      let e : 0 * 10 + (b'0' + n - b'0') ≡ n = omega arith in
      rw last (ap (λ (k : ℕ). read_digits k after) e)
  | inr more ↦
      let large = ltb_false→le n 10 more in
      let e : n / 10 * 10 + (b'0' + n % 10 - b'0') ≡ n = omega arith in
      rw more (
        read-decimal_loop fuel (n / 10) ((b'0' + n % 10) ∷ after) (omega arith)
        ∙ ap (λ (k : ℕ). read_digits k after) e)
]

-- Different numbers have different texts.
pub decimal-injective : (n m : ℕ) → decimal n ≡ decimal m → n ≡ m
unfolding decimal read_digits
decimal-injective n m e =
    sym (read-decimal_loop (suc n) n [] (omega arith))
    ∙ ap (read_digits 0) e
    ∙ read-decimal_loop (suc m) m [] (omega arith)

decimal_loop-digits :
    (fuel n : ℕ) (after : Bytes)
    → All (λ c. c ≢ b' ') after
    → All (λ c. c ≢ b' ') (decimal_loop fuel n after)
unfolding decimal_loop
decimal_loop-digits zero n after h = h
decimal_loop-digits (suc fuel) n after h = elim (Bool-cases (ltb n 10)) [
  | inl last ↦ rw last ((λ e. omega arith), h)
  | inr more ↦
      rw more (decimal_loop-digits fuel (n / 10) ((b'0' + n % 10) ∷ after) ((λ e. omega arith), h))
]

-- No digit is a space.
pub decimal-digits : (n : ℕ) → All (λ c. c ≢ b' ') (decimal n)
unfolding decimal
decimal-digits n = decimal_loop-digits (suc n) n [] tt
