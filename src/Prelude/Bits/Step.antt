-- ===== src/Prelude/Bits/Step.antt =====
-- One binary digit of `&` and `|`, with the fuel of the native definition discharged.
use Prim.Native.Nat.{min, max, digits, bitwise, bit_and-bitwise, bit_or-bitwise}
use Prim.Native.Nat.{ℕ, zero, suc, ◌+◌, ◌*◌, ◌/◌, ◌%◌, ◌≤◌, bit_and, bit_or}
use mathlib.Core.Path.{◌≡◌, refl}
use native.Mathlib.Omega.{arith}

-- `out` is what is left of the second number once the first has run out.
module _ (out : ℕ → ℕ) (digit : ℕ → ℕ → ℕ) where
  run_out : (fuel b : ℕ) → digits out digit fuel 0 b ≡ out b
  run_out zero b = refl
  run_out (suc fuel) b = refl

  -- More fuel than the first number changes nothing.
  settled :
      (less more a b : ℕ)
      → a ≤ less
      → less ≤ more
      → digits out digit more a b ≡ digits out digit less a b
  settled less more zero b p q = rw (run_out more b, run_out less b)
  settled zero more (suc a) b p q = absurd (omega arith)
  settled (suc less) zero (suc a) b p q = absurd (omega arith)
  settled (suc less) (suc more) (suc a) b p q =
      rw (settled less more (suc a / 2) (b / 2) (omega arith) (omega arith))

  lowest_digit :
      (a b : ℕ)
      → bitwise out digit (suc a) b
        ≡ bitwise out digit (suc a / 2) (b / 2) * 2 + digit (suc a % 2) (b % 2)
  lowest_digit a b =
      omega (arith, settled (suc a / 2) a (suc a / 2) (b / 2) (omega arith) (omega arith))

-- `|` keeps the rest of the second number, `&` drops it.
pub bit_or_step : (a b : ℕ) → bit_or a b ≡ max (a % 2) (b % 2) + 2 * bit_or (a / 2) (b / 2)
bit_or_step zero b = rw (bit_or-bitwise 0 b, bit_or-bitwise 0 (b / 2)) (omega arith)
bit_or_step (suc a) b = omega (
  arith,
  lowest_digit (λ c. c) max a b,
  bit_or-bitwise (suc a) b,
  bit_or-bitwise (suc a / 2) (b / 2),
)

pub bit_and_step : (a b : ℕ) → bit_and a b ≡ min (a % 2) (b % 2) + 2 * bit_and (a / 2) (b / 2)
bit_and_step zero b = rw (bit_and-bitwise 0 b, bit_and-bitwise 0 (b / 2)) (omega arith)
bit_and_step (suc a) b = omega (
  arith,
  lowest_digit (λ _. 0) min a b,
  bit_and-bitwise (suc a) b,
  bit_and-bitwise (suc a / 2) (b / 2),
)
