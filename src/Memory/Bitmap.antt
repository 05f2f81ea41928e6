-- ===== src/Memory/Bitmap.antt =====
-- kernel/memory.c: one bit of a page bitmap is written and no other.
use Prim.Native.Nat.{◌<◌}
use tg11_os.Prelude.{
  ℕ, zero, suc, ◌%◌, ◌^◌, Bool, true, false, ◌&&◌, bit_and, bit_or, ltb, ◌==◌, if◌then◌else◌, u8,
  ◌<<<◌, ◌>>>◌, not32, ◌≡◌, refl, arith, ==-eq,
}
use tg11_os.Prelude.Bits.{
  bit_and_low_mask, bit_and-bit_or, bit_and_assoc, bit_or-zero, bit_and_comm, zero-bit_and,
  bit_and-zero, le-bit_or,
}
use native.Mathlib.Nat.{one-le-pow}
use tg11_os.Memory.{bit_of, bit_is_clear, set_bit, clear_bit}

every_below : ℕ → (ℕ → Bool) → Bool
every_below zero test = true
every_below (suc n) test = test n && every_below n test

every_below-at :
    (n : ℕ) (test : ℕ → Bool) (k : ℕ) → every_below n test ≡ true → k < n → test k ≡ true
unfolding every_below
every_below-at zero test k h lt = absurd (omega arith)
every_below-at (suc n) test k h lt = ground (arith, every_below-at n test k)

-- The masks of two bits of a byte, checked for all pairs.
masks_meet : ℕ → ℕ → Bool
masks_meet j k = bit_and (u8 (1 <<< j)) (u8 (1 <<< k)) == (if j == k then 2 ^ k else 0)

masks_miss : ℕ → ℕ → Bool
masks_miss j k = bit_and (u8 (not32 (1 <<< j))) (u8 (1 <<< k)) == (if j == k then 0 else u8 (2 ^ k))

meet_table : every_below 8 (λ j. every_below 8 (masks_meet j)) ≡ true
unfolding every_below masks_meet
meet_table = refl

miss_table : every_below 8 (λ j. every_below 8 (masks_miss j)) ≡ true
unfolding every_below masks_miss
miss_table = refl

masks_meet-true : (j k : ℕ) → j < 8 → k < 8 → masks_meet j k ≡ true
masks_meet-true j k hj hk =
    every_below-at 8 (masks_meet j) k
      (every_below-at 8 (λ i. every_below 8 (masks_meet i)) j meet_table hj) hk

masks_miss-true : (j k : ℕ) → j < 8 → k < 8 → masks_miss j k ≡ true
masks_miss-true j k hj hk =
    every_below-at 8 (masks_miss j) k
      (every_below-at 8 (λ i. every_below 8 (masks_miss i)) j miss_table hj) hk

-- `j` and `k` are the places of two pages within one byte `x`.
set_in_byte :
    (x j k : ℕ)
    → j < 8
    → k < 8
    → (bit_and (bit_or x (u8 (1 <<< j))) (u8 (1 <<< k)) == 0)
      ≡ (if j == k then false else bit_and x (u8 (1 <<< k)) == 0)
unfolding masks_meet
set_in_byte x j k hj hk = ground (
  arith,
  bit_and-bit_or (u8 (1 <<< k)) x (u8 (1 <<< j)),
  ==-eq _ _ (masks_meet-true j k hj hk),
  bit_or-zero (bit_and x (u8 (1 <<< k))),
  le-bit_or (bit_and x (u8 (1 <<< k))) (2 ^ k),
  one-le-pow k 2,
)

clear_in_byte :
    (x j k : ℕ)
    → j < 8
    → k < 8
    → (bit_and (bit_and x (u8 (not32 (1 <<< j)))) (u8 (1 <<< k)) == 0)
      ≡ (if j == k then true else bit_and x (u8 (1 <<< k)) == 0)
unfolding masks_miss
clear_in_byte x j k hj hk = ground (
  arith,
  bit_and_assoc x (u8 (not32 (1 <<< j))) (u8 (1 <<< k)),
  ==-eq _ _ (masks_miss-true j k hj hk),
  bit_and-zero x,
)

module _ (bitmap : ℕ → ℕ) (p q : ℕ) where
  -- Marking page `p` used is seen at `p` and nowhere else.
  pub bit_is_clear-set_bit :
      bit_is_clear (set_bit bitmap p) q ≡ (if p == q then false else bit_is_clear bitmap q)
  unfolding bit_is_clear set_bit
  bit_is_clear-set_bit = ground (
    arith,
    bit_and_low_mask 3 p,
    bit_and_low_mask 3 q,
    set_in_byte (bitmap (p >>> 3)) (p % 8) (q % 8) (omega arith) (omega arith),
  )

  -- Marking page `p` free is seen at `p` and nowhere else.
  pub bit_is_clear-clear_bit :
      bit_is_clear (clear_bit bitmap p) q ≡ (if p == q then true else bit_is_clear bitmap q)
  unfolding bit_is_clear clear_bit
  bit_is_clear-clear_bit = ground (
    arith,
    bit_and_low_mask 3 p,
    bit_and_low_mask 3 q,
    clear_in_byte (bitmap (p >>> 3)) (p % 8) (q % 8) (omega arith) (omega arith),
  )

bit_of_pos : (q : ℕ) → 0 < bit_of q
unfolding every_below
bit_of_pos q = ground (
  arith,
  bit_and_low_mask 3 q,
  every_below-at 8 (λ j. ltb 0 (u8 (1 <<< j))) (q % 8) refl (omega arith),
)

pub bit_is_clear-full : (q : ℕ) → bit_is_clear (λ _. 0xFF) q ≡ false
unfolding bit_is_clear
bit_is_clear-full q =
    ground (arith, bit_and_comm 0xFF (bit_of q), bit_and_low_mask 8 (bit_of q), bit_of_pos q)

pub bit_is_clear-empty : (q : ℕ) → bit_is_clear (λ _. 0) q ≡ true
unfolding bit_is_clear
bit_is_clear-empty q = ground (arith, zero-bit_and (bit_of q))
