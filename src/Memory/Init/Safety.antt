-- ===== src/Memory/Init/Safety.antt =====
-- kernel/memory.c: `memory_init` ends on a well-formed list of boot tags, with a right free count
-- and with the pages of low memory, the kernel and the boot information reserved.
use Prim.Native.Nat.{◌<◌}
use tg11_os.Prelude.{
  ℕ, zero, suc, ◌+◌, ◌*◌, ◌^◌, false, some, leb, ◌==◌, if◌then◌else◌, ◌≡◌, ◌≢◌, refl, sym, arith,
  Bool-cases, inl, inr, ==-eq, ==-ne, u64,
}
use tg11_os.Memory.{Memory, max_pages, page_size, page_is_free}
use tg11_os.Memory.Bitmap.{bit_is_clear-full}
use tg11_os.Memory.Counts.{count_free_none}
use tg11_os.Memory.Phys.{IsValid}
use tg11_os.Memory.Init.{
  Boot, release_region, reserve_region, entries_from, read_tag, next_tag, tags_from, cleared,
  reserve_boot, memory_init,
}
use tg11_os.Memory.Init.Regions.{
  release_region-IsValid, reserve_region-IsValid, page_is_free-reserve_region,
}

pub cleared-IsValid : (boot : Boot) (m : Memory) → IsValid (cleared boot m)
unfolding cleared
cleared-IsValid boot m = record {
  counted = sym (count_free_none max_pages (page_is_free (cleared boot m)) bit_is_clear-full);
}

-- The pages that a region touches cannot be allocated.
abbrev pub IsReserved : ℕ → ℕ → Memory → Type 0
IsReserved start end m =
    (q : ℕ)
    → start < (q + 1) * page_size
    → q * page_size < end
    → q < max_pages
    → page_is_free m q ≡ false

module _ (boot : Boot) where
  open boot use {read32, kernel_start, kernel_end}

  -- A chain of `n` tags before the end tag, as the boot loader leaves them: the sizes are 32-bit
  -- numbers, nothing lies at the top of the address space, and the entries of a memory map have a
  -- size.
  abbrev pub IsTagChain : ℕ → ℕ → Type 0
  IsTagChain zero offset = read32 offset ≡ 0
  IsTagChain (suc n) offset =
      (read32 offset ≢ 0)
      × (read32 offset ≡ 6 → 0 < read32 (offset + 8))
      × (offset + 2 ^ 34 < 2 ^ 64)
      × (read32 (offset + 4) < 2 ^ 32)
      × (read32 (offset + 8) < 2 ^ 32)
      × IsTagChain n (next_tag boot offset)

  entries_from_total :
      (left off end size : ℕ) (m : Memory)
      → IsValid m
      → 0 < size
      → off + size < 2 ^ 64
      → end + size < 2 ^ 64
      → end < off + left
      → 0 < left
      → (m' : Memory) × (entries_from boot left off end size m ≡ some m') × IsValid m'
  unfolding entries_from
  entries_from_total zero off end size m v pos low high enough some_left = absurd (omega arith)
  entries_from_total (suc left) off end size m v pos low high enough some_left =
      let step : u64 (off + size) ≡ off + size = omega arith in
      let base = boot.read64 off in
      let after =
        if read32 (off + 16) == 1
        then release_region base (u64 (base + boot.read64 (off + 8))) m
        else m in
      let kept : IsValid after = elim (Bool-cases (read32 (off + 16) == 1)) [
        | inl available ↦
            rw available (release_region-IsValid base (u64 (base + boot.read64 (off + 8))) m v)
        | inr other ↦ rw other v
      ] in
      elim (Bool-cases (leb (u64 (off + size)) end)) [
        | inr over ↦ rw (over, entries_from) (m, refl, v)
        | inl inside ↦
            let (m', e, v') =
              entries_from_total left (u64 (off + size)) end size after kept pos (ground arith) high
                (ground arith) (ground arith) in
            (m', rw (inside, entries_from) e, v')
      ]

  read_tag_total :
      (n offset : ℕ) (m : Memory)
      → IsTagChain (suc n) offset
      → IsValid m
      → (m' : Memory) × (read_tag boot offset m ≡ some m') × IsValid m'
  unfolding read_tag
  read_tag_total n offset m (not_end, has_size, low, size_fits, entry_fits, rest) v =
      elim (Bool-cases (read32 offset == 6)) [
        | inr other ↦ rw other (m, refl, v)
        | inl memmap ↦ rw memmap (
            entries_from_total (suc (read32 (offset + 4))) (u64 (offset + 16))
              (u64 (offset + read32 (offset + 4))) (read32 (offset + 8)) m v
              (has_size (==-eq _ _ memmap)) (omega arith) (omega arith) (omega arith) (omega arith))
      ]

  tags_from_total :
      (n fuel offset : ℕ) (m : Memory)
      → IsTagChain n offset
      → n < fuel
      → IsValid m
      → (m' : Memory) × (tags_from boot fuel offset m ≡ some m') × IsValid m'
  unfolding tags_from
  tags_from_total n zero offset m chain lt v = absurd (omega arith)
  tags_from_total zero (suc fuel) offset m chain lt v = (m, ground arith, v)
  tags_from_total (suc n) (suc fuel) offset m chain lt v =
      let (m1, e1, v1) = read_tag_total n offset m chain v in
      let (m2, e2, v2) =
        tags_from_total n fuel (next_tag boot offset) m1 chain.5 (omega arith) v1 in
      let live : (read32 offset == 0) ≡ false = ==-ne _ _ chain.0 in
      (m2, rw (live, e1, tags_from) e2, v2)

  reserve_boot_lem :
      (addr : ℕ) (m : Memory)
      → kernel_start < 2 ^ 63
      → kernel_end < 2 ^ 63
      → addr < 2 ^ 63
      → read32 addr < 2 ^ 32
      → IsValid m
      → let m' = reserve_boot boot addr m in
        IsValid m'
        × IsReserved 0 0x100000 m'
        × IsReserved kernel_start kernel_end m'
        × (read32 addr ≢ 0 → IsReserved addr (addr + read32 addr) m')
  unfolding reserve_boot
  reserve_boot_lem addr m ks ke small size v =
      let m1 = reserve_region 0 0x100000 m in
      let m2 = reserve_region kernel_start kernel_end m1 in
      let end = u64 (addr + read32 addr) in
      let v2 =
        reserve_region-IsValid kernel_start kernel_end m1 (reserve_region-IsValid 0 0x100000 m v) in
      elim (Bool-cases (read32 addr == 0)) [
        | inl empty ↦ rw empty (
          v2,
          (λ q lo hi lt. ground (
            arith,
            page_is_free-reserve_region kernel_start kernel_end m1 q,
            page_is_free-reserve_region 0 0x100000 m q,
          )),
          (λ q lo hi lt. ground (arith, page_is_free-reserve_region kernel_start kernel_end m1 q)),
          (λ ne. absurd (ne (==-eq _ _ empty))),
        )
        | inr sized ↦ rw sized (
          reserve_region-IsValid addr end m2 v2,
          (λ q lo hi lt. ground (
            arith,
            page_is_free-reserve_region addr end m2 q,
            page_is_free-reserve_region kernel_start kernel_end m1 q,
            page_is_free-reserve_region 0 0x100000 m q,
          )),
          (λ q lo hi lt. ground (
            arith,
            page_is_free-reserve_region addr end m2 q,
            page_is_free-reserve_region kernel_start kernel_end m1 q,
          )),
          (λ ne q lo hi lt. ground (arith, page_is_free-reserve_region addr end m2 q)),
        )
      ]

  -- On a chain of tags that is shorter than the fuel `memory_init` ends, the free count is that
  -- of the bitmap, and no page of the first megabyte, of the kernel or of the boot information is
  -- free.
  pub memory_init_lem :
      (n fuel addr : ℕ) (m : Memory)
      → addr ≢ 0
      → addr + 8 < 2 ^ 63
      → IsTagChain n (addr + 8)
      → n < fuel
      → kernel_start < 2 ^ 63
      → kernel_end < 2 ^ 63
      → read32 addr < 2 ^ 32
      → (m' : Memory) × (memory_init boot fuel addr m ≡ some m')
        × IsValid m'
        × IsReserved 0 0x100000 m'
        × IsReserved kernel_start kernel_end m'
        × (read32 addr ≢ 0 → IsReserved addr (addr + read32 addr) m')
  unfolding memory_init
  memory_init_lem n fuel addr m ne small chain lt ks ke size =
      let start : u64 (addr + 8) ≡ addr + 8 = omega arith in
      let given : (addr == 0) ≡ false = ==-ne _ _ ne in
      let (m1, e, v) =
        tags_from_total n fuel (addr + 8) (cleared boot m) chain lt (cleared-IsValid boot m) in
      let parts = reserve_boot_lem addr m1 ks ke (omega arith) size v in
      (
        reserve_boot boot addr m1,
        rw (given, start, e, memory_init),
        parts.0,
        parts.1,
        parts.2,
        parts.3,
      )
