-- ===== src/Memory/Init.antt =====
-- kernel/memory.c: `release_region`, `reserve_region` and `memory_init`, which fills the page
-- bitmap from the memory map that the boot loader left in memory.
pub mod Regions
pub mod Safety
use tg11_os.Prelude.{
  ℕ, zero, suc, ◌+◌, ◌-◌, ◌/◌, ◌^◌, Bool, true, false, not, ◌&&◌, Option, none, some, bit_and, ltb,
  leb, ◌==◌, if◌then◌else◌, update, u32, u64, not32,
}
use tg11_os.Memory.{
  Memory, max_pages, max_phys, page_size, page_is_free, page_mark_used, page_mark_free, align_up,
  align_down, set_bit,
}

-- One round of the loop of `release_region`.
pub release_one : ℕ → Memory → Memory
release_one page m =
    if not (page_is_free m page)
    then (let m' = page_mark_free page m in
        record m' {
          total_page_count = u64 (m'.total_page_count + 1);
          free_page_count = u64 (m'.free_page_count + 1);
        })
    else m

-- One round of the loop of `reserve_region`.
pub reserve_one : ℕ → Memory → Memory
reserve_one page m =
    if ltb page max_pages && page_is_free m page
    then (let m' = page_mark_used page m in
        record m' { free_page_count = u64 (m'.free_page_count + 2 ^ 64 - 1) })
    else m

-- `for (addr = start; addr < end; addr += MEMORY_PAGE_SIZE) body(addr / MEMORY_PAGE_SIZE)`, with
-- the rounds left.
pub for_pages : (ℕ → Memory → Memory) → ℕ → ℕ → Memory → Memory
for_pages body zero addr m = m
for_pages body (suc left) addr m =
    for_pages body left (addr + page_size) (body (addr / page_size) m)

-- How often that loop runs.
abbrev pub rounds : ℕ → ℕ → ℕ
rounds start end = (end - start + (page_size - 1)) / page_size

pub release_region : ℕ → ℕ → Memory → Memory
release_region start_addr end_addr m =
    if leb max_phys start_addr
    then m
    else (let end_addr' = if ltb max_phys end_addr then max_phys else end_addr in
        let start = align_up start_addr page_size in
        let end = align_down end_addr' page_size in
        for_pages release_one (rounds start end) start m)

pub reserve_region : ℕ → ℕ → Memory → Memory
reserve_region start_addr end_addr m =
    let start = align_down start_addr page_size in
    let end = align_up end_addr page_size in
    let end' = if ltb max_phys end then max_phys else end in
    for_pages reserve_one (rounds start end') start m

-- The boot loader's structures, read by address, and the linker's two symbols.
pub record Boot : Type 0 where
  pub read32 : ℕ → ℕ
  pub read64 : ℕ → ℕ
  pub kernel_start : ℕ
  pub kernel_end : ℕ

module _ (boot : Boot) where
  open boot use {read32, read64, kernel_start, kernel_end}

  -- The entries of a memory map tag. `none` means that the rounds ran out.
  pub entries_from : ℕ → ℕ → ℕ → ℕ → Memory → Option Memory
  entries_from zero entry_off end_off entry_size m = none
  entries_from (suc left) entry_off end_off entry_size m =
      elim (leb (u64 (entry_off + entry_size)) end_off) [
        | false ↦ some m
        | true ↦
            let base_addr = read64 entry_off in
            let m' =
              if read32 (entry_off + 16) == 1
              then release_region base_addr (u64 (base_addr + read64 (entry_off + 8))) m
              else m in
            entries_from left (u64 (entry_off + entry_size)) end_off entry_size m'
      ]

  -- One tag: a memory map has its size as the bound on its rounds.
  pub read_tag : ℕ → Memory → Option Memory
  read_tag offset m =
      let size = read32 (offset + 4) in
      if read32 offset == 6
      then entries_from (suc size) (u64 (offset + 16)) (u64 (offset + size)) (read32 (offset + 8)) m
      else some m

  unfoldable pub next_tag : ℕ → ℕ
  next_tag offset = u64 (offset + bit_and (u32 (read32 (offset + 4) + 7)) (not32 7))

  -- The loop over the tags, which ends at the end tag; `fuel` bounds the tags that are read.
  pub tags_from : ℕ → ℕ → Memory → Option Memory
  tags_from zero offset m = none
  tags_from (suc fuel) offset m = elim (read32 offset == 0) [
    | true ↦ some m
    | false ↦ elim (read_tag offset m) [
      | none ↦ none
      | some m' ↦ tags_from fuel (next_tag offset) m'
    ]
  ]

  -- The bitmaps and counts before any region is released.
  unfoldable pub cleared : Memory → Memory
  cleared m = record m {
    phys_bitmap = λ _. 0xFF;
    virt_bitmap = set_bit (λ _. 0) 16383;
    total_page_count = 0;
    free_page_count = 0;
  }

  pub reserve_boot : ℕ → Memory → Memory
  reserve_boot mb2_info_addr m =
      let m' = reserve_region kernel_start kernel_end (reserve_region 0 0x100000 m) in
      let total_size = read32 mb2_info_addr in
      if total_size == 0
      then m'
      else reserve_region mb2_info_addr (u64 (mb2_info_addr + total_size)) m'

  pub memory_init : ℕ → ℕ → Memory → Option Memory
  memory_init fuel mb2_info_addr m =
      if mb2_info_addr == 0
      then some (cleared m)
      else elim (tags_from fuel (u64 (mb2_info_addr + 8)) (cleared m)) [
        | none ↦ none
        | some m' ↦ some (reserve_boot mb2_info_addr m')
      ]
