-- ===== src/Fat32/Bytes.antt =====
-- kernel/fat32.c, the numbers in a sector: rd16, rd32, and the four bytes of an entry of the table.
use tg11_os.Prelude.{
  ℕ, ◌+◌, ◌*◌, ◌/◌, ◌%◌, ◌^◌, ◌<◌, bit_and, bit_or, update, u8, u16, u32, ◌<<<◌, ◌>>>◌, ◌≡◌, arith,
  ◌≤◌, ◌⊎◌, inl, inr,
}
use tg11_os.Prelude.Bits.{bit_and_low_mask, bit_and_high_mask, bit_or_apart, apart_bit_or}
use tg11_os.Block.{Sector}

unfoldable pub rd16 : Sector → ℕ → ℕ
rd16 p i = u16 (bit_or (p i) (p (i + 1) <<< 8))

unfoldable pub rd32 : Sector → ℕ → ℕ
rd32 p i = u32 (
    bit_or (bit_or (bit_or (p i) (u32 (p (i + 1) <<< 8))) (u32 (p (i + 2) <<< 16)))
      (u32 (p (i + 3) <<< 24)))

-- The entry at `i` gets a value; the upper half of its last byte stays.
unfoldable pub put_entry : Sector → ℕ → ℕ → Sector
put_entry sec i value =
    update
      (update
        (update (update sec i (u8 (bit_and value 0xFF))) (i + 1) (u8 (bit_and (value >>> 8) 0xFF)))
        (i + 2) (u8 (bit_and (value >>> 16) 0xFF)))
      (i + 3) (u8 (bit_or (bit_and (sec (i + 3)) 0xF0) (bit_and (value >>> 24) 0x0F)))

-- The number that four bytes make.
abbrev pub word : ℕ → ℕ → ℕ → ℕ → ℕ
word a b c d = a + b * 2 ^ 8 + c * 2 ^ 16 + d * 2 ^ 24

pub rd32-word :
    (p : Sector) (i : ℕ)
    → p i < 2 ^ 8
    → p (i + 1) < 2 ^ 8
    → p (i + 2) < 2 ^ 8
    → p (i + 3) < 2 ^ 8
    → rd32 p i ≡ word (p i) (p (i + 1)) (p (i + 2)) (p (i + 3))
unfolding rd32
rd32-word p i h0 h1 h2 h3 = ground (
  arith,
  bit_or_apart 8 (p i) (p (i + 1)),
  bit_or_apart 16 (p i + p (i + 1) * 2 ^ 8) (p (i + 2)),
  bit_or_apart 24 (p i + p (i + 1) * 2 ^ 8 + p (i + 2) * 2 ^ 16) (p (i + 3)),
)

-- The byte whose upper half stays.
mixed_byte :
    (old n : ℕ) → u8 (bit_or (bit_and old 0xF0) (bit_and n 0x0F)) ≡ n % 16 + (old / 16 % 16) * 16
mixed_byte old n = ground (
  arith,
  bit_and_high_mask 4 15 old,
  bit_and_low_mask 4 (old / 16),
  bit_and_low_mask 4 n,
  apart_bit_or 4 (n % 16) (old / 16 % 16),
)

-- An entry of the table reads back as the 28 bits that were put there.
pub rd32-put_entry :
    (sec : Sector) (i value : ℕ)
    → bit_and (rd32 (put_entry sec i value) i) 0x0FFFFFFF ≡ value % 2 ^ 28
unfolding put_entry
rd32-put_entry sec i value = ground (
  arith,
  mixed_byte (sec (i + 3)) (value / 2 ^ 24),
  bit_and_low_mask 8 value,
  bit_and_low_mask 8 (value / 2 ^ 8),
  bit_and_low_mask 8 (value / 2 ^ 16),
  bit_and_low_mask 28 (rd32 (put_entry sec i value) i),
  rd32-word (put_entry sec i value) i,
)

-- Four bytes elsewhere in the sector stay.
pub rd32-put_entry_elsewhere :
    (sec : Sector) (i j value : ℕ)
    → (i + 4 ≤ j) ⊎ (j + 4 ≤ i)
    → rd32 (put_entry sec i value) j ≡ rd32 sec j
unfolding put_entry rd32
rd32-put_entry_elsewhere sec i j value (inl h) = ground arith
rd32-put_entry_elsewhere sec i j value (inr h) = ground arith

pub rd16_bound : (p : Sector) (i : ℕ) → rd16 p i < 2 ^ 16
unfolding rd16
rd16_bound p i = omega arith

pub rd32_bound : (p : Sector) (i : ℕ) → rd32 p i < 2 ^ 32
unfolding rd32
rd32_bound p i = omega arith
