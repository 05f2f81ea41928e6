-- ===== src/Memory.antt =====
-- kernel/memory.c, the physical page allocator: the state that the file keeps, the page bitmaps,
-- the first-fit scan, and the operations on physical pages. The children prove what they do, and
-- model the page tables, the virtual address range and the kernel heap.
pub mod Bitmap
pub mod Runs
pub mod Counts
pub mod Phys
pub mod Release
pub mod Init
pub mod Paging
pub mod Virt
pub mod Walk
pub mod Reserve
mod Tests
use tg11_os.Prelude.{
  ℕ, zero, suc, ◌+◌, ◌-◌, ◌*◌, ◌/◌, ◌^◌, Bool, true, false, not, ◌&&◌, Option, none, some, bit_and,
  bit_or, ltb, leb, ◌==◌, if◌then◌else◌, update, u8, u64, ◌<<<◌, ◌>>>◌, not32, not64,
}

abbrev pub page_size : ℕ
page_size = 4096

abbrev pub max_phys : ℕ
max_phys = 0x100000000

abbrev pub max_pages : ℕ
max_pages = 0x100000

-- The static variables of memory.c, with the memory that page tables live in: `ram a` is the
-- 64-bit word at physical address `a`, and `cr3` the register that names the root table.
pub record Memory : Type 0 where
  pub phys_bitmap : ℕ → ℕ
  pub virt_bitmap : ℕ → ℕ
  pub total_page_count : ℕ
  pub free_page_count : ℕ
  pub ram : ℕ → ℕ
  pub cr3 : ℕ

pub align_up : ℕ → ℕ → ℕ
align_up value align = bit_and (u64 (u64 (value + align) + 2 ^ 64 - 1)) (not64 (align - 1))

pub align_down : ℕ → ℕ → ℕ
align_down value align = bit_and value (not64 (align - 1))

-- `(unsigned char)(1u << (page_index & 7))`
abbrev pub bit_of : ℕ → ℕ
bit_of page_index = u8 (1 <<< bit_and page_index 7)

pub bit_is_clear : (ℕ → ℕ) → ℕ → Bool
bit_is_clear bitmap page_index = bit_and (bitmap (page_index >>> 3)) (bit_of page_index) == 0

pub set_bit : (ℕ → ℕ) → ℕ → ℕ → ℕ
set_bit bitmap page_index =
    update bitmap (page_index >>> 3) (bit_or (bitmap (page_index >>> 3)) (bit_of page_index))

pub clear_bit : (ℕ → ℕ) → ℕ → ℕ → ℕ
clear_bit bitmap page_index =
    update bitmap (page_index >>> 3)
      (bit_and (bitmap (page_index >>> 3)) (u8 (not32 (1 <<< bit_and page_index 7))))

abbrev pub page_is_free : Memory → ℕ → Bool
page_is_free m page_index = bit_is_clear m.phys_bitmap page_index

abbrev pub page_mark_used : ℕ → Memory → Memory
page_mark_used page_index m = record m { phys_bitmap = set_bit m.phys_bitmap page_index }

abbrev pub page_mark_free : ℕ → Memory → Memory
page_mark_free page_index m = record m { phys_bitmap = clear_bit m.phys_bitmap page_index }

-- The scan for `count` free pages in a row, which `phys_alloc_pages` and `find_virtual_run` write
-- out alike: `left` rounds to go from `page` on. `run` is at most `page`, so `run++` cannot wrap.
pub find_run : (ℕ → Bool) → ℕ → ℕ → ℕ → ℕ → ℕ → Option ℕ
find_run is_free count zero page run start = none
find_run is_free count (suc left) page run start =
    let start' = if run == 0 then page else start in
    elim (is_free page) [
      | true ↦ elim (run + 1 == count) [
        | true ↦ some start'
        | false ↦ find_run is_free count left (page + 1) (run + 1) start'
      ]
      | false ↦ find_run is_free count left (page + 1) 0 start
    ]

-- `for (i = 0; i < count; i++) page_mark_used(start + i)`, with `left` rounds to go.
pub mark_used_from : ℕ → ℕ → Memory → Memory
mark_used_from zero page m = m
mark_used_from (suc left) page m = mark_used_from left (page + 1) (page_mark_used page m)

-- What is done once a run is found: the address of its first page is returned.
pub take_run : ℕ → ℕ → Memory → ℕ × Memory
take_run count start m =
    let m' = mark_used_from count start m in
    (
      u64 (start * page_size),
      record m' { free_page_count = u64 (m'.free_page_count + 2 ^ 64 - count) },
    )

pub phys_alloc_pages : ℕ → Memory → ℕ × Memory
phys_alloc_pages count m =
    if count == 0 then (0, m) else elim (find_run (page_is_free m) count max_pages 0 0 0) [
      | none ↦ (0, m)
      | some start ↦ take_run count start m
    ]

abbrev pub phys_alloc_page : Memory → ℕ × Memory
phys_alloc_page m = phys_alloc_pages 1 m

-- One round of the loop of `phys_free_pages`.
pub free_one : ℕ → Memory → Memory
free_one page m =
    if ltb page max_pages && not (page_is_free m page)
    then (let m' = page_mark_free page m in
        record m' { free_page_count = u64 (m'.free_page_count + 1) })
    else m

pub free_from : ℕ → ℕ → Memory → Memory
free_from zero page m = m
free_from (suc left) page m = free_from left (u64 (page + 1)) (free_one page m)

pub phys_free_pages : ℕ → ℕ → Memory → Memory
phys_free_pages phys_addr count m = free_from count (phys_addr / page_size) m

abbrev pub phys_free_page : ℕ → Memory → Memory
phys_free_page phys_addr m = phys_free_pages phys_addr 1 m
