-- ===== src/Memory/Virt.antt =====
-- kernel/memory.c: the kernel's range of virtual addresses, and the heap that takes pages from it.
use tg11_os.Prelude.{
  ℕ, zero, suc, ◌+◌, ◌-◌, ◌*◌, ◌/◌, Bool, true, false, not, ◌||◌, Option, none, some, bit_and, ltb,
  ◌==◌, if◌then◌else◌, u64,
}
use tg11_os.Memory.{
  Memory, page_size, phys_alloc_pages, phys_free_pages, phys_free_page, find_run, bit_is_clear,
  set_bit, clear_bit, align_up,
}
use tg11_os.Memory.Paging.{
  addr_mask, flag_writable, paging_map_page, paging_unmap_page, paging_get_phys, write_word,
  zero_words,
}

abbrev pub virt_base : ℕ
virt_base = 0xFFFF900000000000

abbrev pub virt_pages : ℕ
virt_pages = 16384

abbrev pub virt_limit : ℕ
virt_limit = virt_base + virt_pages * page_size

abbrev pub virt_page_is_free : Memory → ℕ → Bool
virt_page_is_free m page = bit_is_clear m.virt_bitmap page

unfoldable pub find_virtual_run : ℕ → Memory → Option ℕ
find_virtual_run count m = find_run (virt_page_is_free m) count virt_pages 0 0 0

-- `left` pages from `start + i` on, used or free.
unfoldable pub mark_virtual_run : ℕ → ℕ → Bool → (ℕ → ℕ) → ℕ → ℕ
mark_virtual_run zero page used bitmap = bitmap
mark_virtual_run (suc left) page used bitmap =
    mark_virtual_run left (page + 1) used
      (if used then set_bit bitmap page else clear_bit bitmap page)

abbrev pub virt_of : ℕ → ℕ
virt_of page = virt_base + page * page_size

unfoldable pub virt_reserve_pages : ℕ → Memory → ℕ × Memory
virt_reserve_pages count m = if count == 0 then (0, m) else elim (find_virtual_run count m) [
  | none ↦ (0, m)
  | some page ↦
      (virt_of page, record m { virt_bitmap = mark_virtual_run count page true m.virt_bitmap })
]

-- `while (i > 0) { i--; paging_unmap_page(...); }`
pub unmap_back : ℕ → ℕ → Memory → Memory
unmap_back zero virt_page m = m
unmap_back (suc i) virt_page m =
    unmap_back i virt_page (paging_unmap_page (virt_of (virt_page + i)) m)

-- The loop of `virt_alloc_pages` from the `i`th page on; whether every page was mapped.
pub map_from : ℕ → ℕ → ℕ → ℕ → Memory → Bool × Memory
map_from zero i virt_page phys m = (true, m)
map_from (suc left) i virt_page phys m =
    let (rc, m') =
      paging_map_page (virt_of (virt_page + i)) (phys + i * page_size) flag_writable m in
    elim (rc == 0) [
      | true ↦ map_from left (i + 1) virt_page phys m'
      | false ↦ (false, unmap_back i virt_page m')
    ]

pub virt_alloc_pages : ℕ → Memory → ℕ × Memory
virt_alloc_pages count m = if count == 0 then (0, m) else elim (find_virtual_run count m) [
  | none ↦ (0, m)
  | some page ↦
      let (phys, m1) = phys_alloc_pages count m in
      if phys == 0
      then (0, m1)
      else let marked = record m1 {
        virt_bitmap = mark_virtual_run count page true m1.virt_bitmap;
      } in
        let (ok, m2) = map_from count 0 page phys marked in
        if ok then (virt_of page, m2) else (
          0,
          phys_free_pages phys count
              (record m2 { virt_bitmap = mark_virtual_run count page false m2.virt_bitmap }),
        )
]

-- One page of `virt_free_pages`.
pub release_page : ℕ → ℕ → Memory → Memory
release_page page_virt page m =
    let phys = paging_get_phys page_virt m in
    let m' =
      if phys == 0
      then m
      else phys_free_page (bit_and phys addr_mask) (paging_unmap_page page_virt m) in
    record m' { virt_bitmap = clear_bit m'.virt_bitmap page }

pub release_from : ℕ → ℕ → ℕ → ℕ → Memory → Memory
release_from zero i virt_addr virt_page m = m
release_from (suc left) i virt_addr virt_page m = elim (ltb (virt_page + i) virt_pages) [
  | false ↦ m
  | true ↦
      release_from left (i + 1) virt_addr virt_page
        (release_page (virt_addr + i * page_size) (virt_page + i) m)
]

pub virt_free_pages : ℕ → ℕ → Memory → Memory
virt_free_pages addr count m =
    if addr == 0 || count == 0
    then m
    else if ltb addr virt_base || not (ltb addr virt_limit)
    then m
    else if not (bit_and addr 0xFFF == 0)
    then m
    else release_from count 0 addr ((addr - virt_base) / page_size) m

abbrev pub header_magic : ℕ
header_magic = 0x4B4D414C4C4F435F

-- The header is four words in the first page of the block; it is reached through the page tables.
abbrev pub header_size : ℕ
header_size = 32

pub write_virt : ℕ → ℕ → Memory → Memory
write_virt virt_addr value m = write_word (paging_get_phys virt_addr m) value m

pub read_virt : ℕ → Memory → ℕ
read_virt virt_addr m = m.ram (paging_get_phys virt_addr m)

pub write_header : ℕ → ℕ → ℕ → Memory → Memory
write_header base pages size m =
    write_virt (base + 24) 0
      (write_virt (base + 16) size (write_virt (base + 8) pages (write_virt base header_magic m)))

pub kmalloc : ℕ → Memory → ℕ × Memory
kmalloc size m =
    let pages = u64 (u64 (header_size + align_up size 16) + 4095) / page_size in
    if size == 0
    then (0, m)
    else let (base, m') = virt_alloc_pages pages m in
      if base == 0 then (0, m') else (base + header_size, write_header base pages size m')

-- `none` is the page fault of a header that is not mapped; its second word is read only where the
-- first is right.
pub kfree : ℕ → Memory → Option Memory
kfree ptr m =
    let header = ptr - header_size in
    if ptr == 0
    then some m
    else if ltb ptr (virt_base + header_size) || not (ltb ptr virt_limit)
    then some m
    else if paging_get_phys header m == 0
    then none
    else if not (read_virt header m == header_magic)
    then some m
    else if paging_get_phys (header + 8) m == 0
    then none
    else if read_virt (header + 8) m == 0
    then some m
    else let m' = write_virt header 0 m in
      some (virt_free_pages header (read_virt (header + 8) m') m')

-- The page is zeroed at its physical address, where the temporary mapping leads.
pub memory_zero_phys_page : ℕ → Memory → Memory
memory_zero_phys_page phys_addr m =
    let (rc, m') = paging_map_page (virt_of (virt_pages - 1)) phys_addr flag_writable m in
    if not (bit_and phys_addr 0xFFF == 0)
    then m
    else if not (rc == 0)
    then m'
    else paging_unmap_page (virt_of (virt_pages - 1))
        (record m' { ram = zero_words 512 phys_addr m'.ram })
