-- ===== src/Memory/Tests.antt =====
-- kernel/memory.c, physical pages: runs at concrete states, and the theorems at such states.
use tg11_os.Prelude.{
  ℕ, ◌+◌, ◌≤◌, true, false, some, ◌==◌, if◌then◌else◌, ◌≡◌, ◌≢◌, ◌⊎◌, refl, arith,
}
use tg11_os.Memory.{
  Memory, page_is_free, phys_alloc_pages, phys_free_pages, take_run, find_run, bit_is_clear,
  set_bit, clear_bit, free_one, free_from,
}
use tg11_os.Memory.Phys.{IsValid, IsAllocated, HasNoFit, phys_alloc_pages_lem}
use tg11_os.Memory.Release.{
  phys_free_pages-IsValid, page_is_free-phys_free_pages, phys_free_pages-phys_alloc_pages,
}
use tg11_os.Memory.Runs.{IsFreeRun}
use tg11_os.Memory.Paging.{
  paging_get_phys, paging_get_walk, root_page_table, pml4_index, pdpt_index, pd_index, pt_index,
  page_table_from_entry, slot,
}
use tg11_os.Memory.Walk.{address_of, paging_get_phys-paging_get_walk}
use tg11_os.Memory.Virt.{virt_pages, virt_page_is_free, virt_reserve_pages}
use tg11_os.Memory.Reserve.{IsReservedRun, virt_reserve_pages_lem}
use tg11_os.Memory.Init.{Boot, cleared, memory_init, release_region, reserve_region, next_tag}
use tg11_os.Memory.Init.Regions.{page_is_free-release_region, page_is_free-reserve_region}
use tg11_os.Memory.Init.Safety.{IsTagChain, IsReserved, cleared-IsValid, memory_init_lem}

abbrev blank : Memory
blank = record {
  phys_bitmap = λ _. 0;
  virt_bitmap = λ _. 0;
  total_page_count = 0;
  free_page_count = 0;
  ram = λ _. 0;
  cr3 = 0x1000;
}

-- A memory map tag of one available entry, 1 MiB to 2 MiB, at 0x8008, and the end tag at 0x8030.
boot_words : ℕ → ℕ
boot_words addr =
    if addr == 0x8000
    then 0x38
    else if addr == 0x8008
    then 6
    else if addr == 0x800C
    then 40
    else if addr == 0x8010
    then 24
    else if addr == 0x8018
    then 0x100000
    else if addr == 0x8020
    then 0x100000
    else if addr == 0x8028
    then 1
    else 0

abbrev boot : Boot
boot = record {
  read32 = boot_words;
  read64 = boot_words;
  kernel_start = 0x100000;
  kernel_end = 0x104000;
}

-- Every page used but the four from 0x110000 on.
four_free : Memory
four_free = phys_free_pages 0x110000 4 (cleared boot blank)

four_free-IsValid : IsValid four_free
unfolding four_free
four_free-IsValid =
    phys_free_pages-IsValid 0x110000 4 (cleared boot blank) (cleared-IsValid boot blank)

alloc_three : (phys_alloc_pages 3 four_free).0 ≡ 0x110000
unfolding phys_alloc_pages take_run find_run four_free phys_free_pages free_from free_one cleared
    bit_is_clear clear_bit set_bit
alloc_three = refl

phys_alloc_pages_lem_example :
    ((phys_alloc_pages 3 four_free ≡ (0, four_free)) × HasNoFit 3 four_free)
    ⊎ ((start : ℕ) × IsAllocated 3 start four_free (phys_alloc_pages 3 four_free))
phys_alloc_pages_lem_example = phys_alloc_pages_lem 3 four_free (omega arith) four_free-IsValid

phys_free_pages-IsValid_example : IsValid (phys_free_pages 0x111000 2 four_free)
phys_free_pages-IsValid_example = phys_free_pages-IsValid 0x111000 2 four_free four_free-IsValid

page_is_free-phys_free_pages_example : page_is_free (phys_free_pages 0x2000 2 four_free) 3 ≡ true
page_is_free-phys_free_pages_example =
    page_is_free-phys_free_pages 0x2000 2 four_free 3 (omega arith)

phys_free_pages-phys_alloc_pages_example :
    let (addr, m') = phys_alloc_pages 3 four_free in
    ((q : ℕ) → page_is_free (phys_free_pages addr 3 m') q ≡ page_is_free four_free q)
    × ((phys_free_pages addr 3 m').free_page_count ≡ four_free.free_page_count)
phys_free_pages-phys_alloc_pages_example =
    phys_free_pages-phys_alloc_pages 3 four_free (omega arith) (omega arith) four_free-IsValid
      (omega (arith, alloc_three))

page_is_free-release_region_example : page_is_free (release_region 0x1800 0x3000 four_free) 2 ≡ true
page_is_free-release_region_example = page_is_free-release_region 0x1800 0x3000 four_free 2

page_is_free-reserve_region_example :
    page_is_free (reserve_region 0x110800 0x111001 four_free) 0x111 ≡ false
page_is_free-reserve_region_example =
    page_is_free-reserve_region 0x110800 0x111001 four_free 0x111 (omega arith) (omega arith)

boot-IsTagChain : IsTagChain boot 1 (0x8000 + 8)
unfolding boot_words next_tag
boot-IsTagChain = omega arith

memory_init_lem_example :
    (m' : Memory) × (memory_init boot 5 0x8000 blank ≡ some m')
    × IsValid m'
    × IsReserved 0 0x100000 m'
    × IsReserved 0x100000 0x104000 m'
    × (boot_words 0x8000 ≢ 0 → IsReserved 0x8000 (0x8000 + boot_words 0x8000) m')
memory_init_lem_example =
    memory_init_lem boot 1 5 0x8000 blank (omega arith) (omega arith) boot-IsTagChain (omega arith)
      (omega arith) (omega arith) (unfold boot_words in omega arith)

virt_reserve_pages_lem_example :
    ((virt_reserve_pages 2 blank ≡ (0, blank))
      × ((t : ℕ) → t + 2 ≤ virt_pages → ¬ IsFreeRun (virt_page_is_free blank) t 2))
    ⊎ ((start : ℕ) × IsReservedRun 2 start blank (virt_reserve_pages 2 blank))
virt_reserve_pages_lem_example = virt_reserve_pages_lem 2 blank (omega arith)

-- The virtual page 0x5000 is mapped to the physical page 0x9000.
abbrev with_page : Memory
with_page = record blank {
  ram = λ addr.
      if addr == 0x1000
      then 0x2003
      else if addr == 0x2000
      then 0x3003
      else if addr == 0x3000
      then 0x4003
      else if addr == 0x4028
      then 0x9003
      else 0;
}

get_phys_run : paging_get_phys 0x5123 with_page ≡ 0x9123
unfolding paging_get_phys root_page_table pml4_index pdpt_index pd_index pt_index
    page_table_from_entry slot
get_phys_run = refl

paging_get_phys-paging_get_walk_example :
    paging_get_phys 0x5123 with_page ≡ address_of 0x5123 (paging_get_walk 0x5123 with_page)
paging_get_phys-paging_get_walk_example = paging_get_phys-paging_get_walk 0x5123 with_page
