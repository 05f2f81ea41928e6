-- ===== src/Prelude/Bits.antt =====
-- Laws of `&` and `|` at every width, from one equation for the lowest binary digit.
mod Step
use Step.{bit_or_step, bit_and_step}
use mathlib.Core.WellFounded.{Acc, WellFounded, induction}
use Prim.Native.Nat.{bit_and-bitwise, bit_or-bitwise}
use Prim.Native.Nat.{
  ℕ, zero, suc, ◌+◌, ◌-◌, ◌*◌, ◌/◌, ◌%◌, ◌^◌, ◌≤◌, ◌<◌, min, max, bit_and, bit_or,
}
use mathlib.Core.Path.{◌≡◌, refl, sym, ap, ◌∙◌}
use native.Mathlib.Nat.{
  pow-suc, one-le-pow, div-div-eq-div-mul, add-mul-mod_self_right, mod-eq_of_lt,
}
use native.Mathlib.Omega.{arith}

Acc-below : (k n : ℕ) → n < k → Acc ◌<◌ n
Acc-below zero n h = absurd (omega arith)
Acc-below (suc k) n h = Acc.intro n (λ m m<n. Acc-below k m (omega arith))

pub lt_wf : WellFounded ◌<◌
lt_wf = record { apply = λ n. Acc-below (suc n) n (omega arith) }

-- Induction from `a / 2` to `a`.
pub halving {ℓ} : (P : ℕ → Type ℓ) → P 0 → ((n : ℕ) → P (suc n / 2) → P (suc n)) → (n : ℕ) → P n
halving P base step n = induction lt_wf {C = P} n go
  where
    go : (k : ℕ) → ((m : ℕ) → m < k → P m) → P k
    go zero ih = base
    go (suc k) ih = step k (ih (suc k / 2) (omega arith))

pub bit_and-zero : (a : ℕ) → bit_and a 0 ≡ 0
bit_and-zero = halving (λ a. bit_and a 0 ≡ 0) refl (λ n ih. omega (arith, bit_and_step (suc n) 0))

pub bit_or-zero : (a : ℕ) → bit_or a 0 ≡ a
bit_or-zero = halving (λ a. bit_or a 0 ≡ a) refl (λ n ih. omega (arith, bit_or_step (suc n) 0))

pub bit_and_one : (a : ℕ) → bit_and a 1 ≡ a % 2
bit_and_one a = omega (arith, bit_and_step a 1, bit_and-zero (a / 2))

pub zero-bit_and : (b : ℕ) → bit_and 0 b ≡ 0
zero-bit_and b = bit_and-bitwise 0 b

pub zero-bit_or : (b : ℕ) → bit_or 0 b ≡ b
zero-bit_or b = bit_or-bitwise 0 b

pub bit_and_half : (a b : ℕ) → bit_and a b / 2 ≡ bit_and (a / 2) (b / 2)
bit_and_half a b = omega (arith, bit_and_step a b)

pub bit_and_digit : (a b : ℕ) → bit_and a b % 2 ≡ min (a % 2) (b % 2)
bit_and_digit a b = omega (arith, bit_and_step a b)

pub bit_or_half : (a b : ℕ) → bit_or a b / 2 ≡ bit_or (a / 2) (b / 2)
bit_or_half a b = omega (arith, bit_or_step a b)

pub bit_or_digit : (a b : ℕ) → bit_or a b % 2 ≡ max (a % 2) (b % 2)
bit_or_digit a b = omega (arith, bit_or_step a b)

-- Numbers with the same lowest digit and the same others are equal.
by_digits : {a b : ℕ} → a / 2 ≡ b / 2 → a % 2 ≡ b % 2 → a ≡ b
by_digits p q = omega arith

pub bit_and_comm : (a b : ℕ) → bit_and a b ≡ bit_and b a
bit_and_comm =
    halving (λ a. (b : ℕ) → bit_and a b ≡ bit_and b a)
      (λ b. omega (arith, bit_and-zero b, zero-bit_and b))
      (λ n ih b. omega (arith, bit_and_step (suc n) b, bit_and_step b (suc n), ih (b / 2)))

pub bit_and_idem : (a : ℕ) → bit_and a a ≡ a
bit_and_idem =
    halving (λ a. bit_and a a ≡ a) refl (λ n ih. omega (arith, bit_and_step (suc n) (suc n)))

pub le-bit_or : (a b : ℕ) → b ≤ bit_or a b
le-bit_or =
    halving (λ a. (b : ℕ) → b ≤ bit_or a b) (λ b. omega (arith, bit_or_step 0 b, zero-bit_or b))
      (λ n ih b. omega (arith, bit_or_step (suc n) b, ih (b / 2)))

pub bit_and-bit_or : (m a b : ℕ) → bit_and (bit_or a b) m ≡ bit_or (bit_and a m) (bit_and b m)
bit_and-bit_or =
    halving (λ m. (a b : ℕ) → bit_and (bit_or a b) m ≡ bit_or (bit_and a m) (bit_and b m))
      (λ a b. rw (bit_and-zero (bit_or a b), bit_and-zero a, bit_and-zero b))
      (λ n ih a b.
        by_digits (simp (bit_and_half, bit_or_half) (ih (a / 2) (b / 2)))
          (simp (bit_and_digit, bit_or_digit) (omega arith)))

pub bit_and_assoc : (a b c : ℕ) → bit_and (bit_and a b) c ≡ bit_and a (bit_and b c)
bit_and_assoc =
    halving (λ a. (b c : ℕ) → bit_and (bit_and a b) c ≡ bit_and a (bit_and b c))
      (λ b c. simp zero-bit_and)
      (λ n ih b c.
        by_digits (simp bit_and_half (ih (b / 2) (c / 2))) (simp bit_and_digit (omega arith)))

double-pow : (q k : ℕ) → q * 2 ^ suc k ≡ 2 * (q * 2 ^ k)
double-pow q k = omega (arith, ap (λ (t : ℕ). q * t) (pow-suc 2 k))

double-mod : (a p : ℕ) → 0 < p → 2 * (a / 2 % p) + a % 2 ≡ a % (2 * p)
double-mod a p h = sym (
    ap (λ (t : ℕ). t % (2 * p)) split
    ∙ (add-mul-mod_self_right small (a / 2 / p) (2 * p) ∙ mod-eq_of_lt fits))
  where
    small : ℕ
    small = 2 * (a / 2 % p) + a % 2

    split : a ≡ small + a / 2 / p * (2 * p)
    split = grind arith

    fits : small < 2 * p
    fits = grind arith

-- A mask of `k` low bits is the remainder by `2 ^ k`.
pub bit_and_low_mask : (k a : ℕ) → bit_and a (2 ^ k - 1) ≡ a % 2 ^ k
bit_and_low_mask zero a = omega (arith, bit_and-zero a)
bit_and_low_mask (suc k) a = ground (
  arith,
  bit_and_step a (2 ^ suc k - 1),
  pow-suc 2 k,
  one-le-pow k 2,
  bit_and_low_mask k (a / 2),
  double-mod a (2 ^ k),
)

-- A mask of the bits from `k` up keeps the multiple of `2 ^ k`.
pub bit_and_high_mask : (k m a : ℕ) → bit_and a (m * 2 ^ k) ≡ bit_and (a / 2 ^ k) m * 2 ^ k
bit_and_high_mask zero m a = ground arith
bit_and_high_mask (suc k) m a = ground (
  arith,
  bit_and_step a (m * 2 ^ suc k),
  double-pow m k,
  double-pow (bit_and (a / 2 ^ suc k) m) k,
  bit_and_high_mask k m (a / 2),
  div-div-eq-div-mul a 2 (2 ^ k),
  pow-suc 2 k,
)

-- Numbers that share no digit: `|` adds them.
pub bit_or_apart : (k a b : ℕ) → a < 2 ^ k → bit_or a (b * 2 ^ k) ≡ a + b * 2 ^ k
bit_or_apart zero a b h = ground (arith, zero-bit_or (b * 2 ^ 0))
bit_or_apart (suc k) a b h =
    ground
      (arith, bit_or_step a (b * 2 ^ suc k), double-pow b k, pow-suc 2 k, bit_or_apart k (a / 2) b)

pub apart_bit_or : (k a b : ℕ) → a < 2 ^ k → bit_or (b * 2 ^ k) a ≡ a + b * 2 ^ k
apart_bit_or zero a b h = ground (arith, bit_or-zero (b * 2 ^ 0))
apart_bit_or (suc k) a b h =
    ground
      (arith, bit_or_step (b * 2 ^ suc k) a, double-pow b k, pow-suc 2 k, apart_bit_or k (a / 2) b)
