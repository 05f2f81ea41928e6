-- ===== src/Memory/Paging.antt =====
-- kernel/memory.c: the page tables, four levels of 512 entries each. A pointer to an entry is the
-- physical address of its word in `ram`; the first gigabytes are mapped one to one.
use tg11_os.Prelude.{
  ℕ, zero, suc, ◌+◌, ◌*◌, Bool, true, false, not, ◌||◌, Option, none, some, bit_and, bit_or, ◌==◌,
  if◌then◌else◌, update, u64, ◌<<<◌, ◌>>>◌,
}
use tg11_os.Memory.{Memory, page_size, phys_alloc_page}

abbrev pub addr_mask : ℕ
addr_mask = 0x000FFFFFFFFFF000

abbrev pub large_addr_mask : ℕ
large_addr_mask = 0x000FFFFFFFE00000

abbrev pub flag_present : ℕ
flag_present = 1

abbrev pub flag_writable : ℕ
flag_writable = 2

abbrev pub flag_user : ℕ
flag_user = 4

abbrev pub flag_huge : ℕ
flag_huge = 128

-- `flags & (PAGE_FLAGS_MASK | PAGE_FLAG_NO_EXECUTE)`
abbrev pub kept_flags : ℕ → ℕ
kept_flags flags = bit_and flags (bit_or 0xFFF (1 <<< 63))

abbrev pub has : ℕ → ℕ → Bool
has flag entry = not (bit_and entry flag == 0)

unfoldable pub pml4_index : ℕ → ℕ
pml4_index addr = bit_and (addr >>> 39) 0x1FF

unfoldable pub pdpt_index : ℕ → ℕ
pdpt_index addr = bit_and (addr >>> 30) 0x1FF

unfoldable pub pd_index : ℕ → ℕ
pd_index addr = bit_and (addr >>> 21) 0x1FF

unfoldable pub pt_index : ℕ → ℕ
pt_index addr = bit_and (addr >>> 12) 0x1FF

unfoldable pub page_table_from_entry : ℕ → ℕ
page_table_from_entry entry = bit_and entry addr_mask

unfoldable pub root_page_table : Memory → ℕ
root_page_table m = bit_and m.cr3 addr_mask

-- `&table[index]`
unfoldable pub slot : ℕ → ℕ → ℕ
slot table index = table + 8 * index

pub write_word : ℕ → ℕ → Memory → Memory
write_word addr value m = record m { ram = update m.ram addr value }

-- `mem_zero` on `left` words from `addr` on.
pub zero_words : ℕ → ℕ → (ℕ → ℕ) → ℕ → ℕ
zero_words zero addr ram = ram
zero_words (suc left) addr ram = zero_words left (addr + 8) (update ram addr 0)

-- 0 is the null pointer.
pub alloc_page_table : Memory → ℕ × Memory
alloc_page_table m =
    let (phys, m') = phys_alloc_page m in
    if phys == 0 then (0, m') else (phys, record m' { ram = zero_words 512 phys m'.ram })

unfoldable pub ensure_next_table : ℕ → Memory → ℕ × Memory
ensure_next_table entry m =
    if has flag_present (m.ram entry)
    then if has flag_huge (m.ram entry) then (0, m) else (page_table_from_entry (m.ram entry), m)
    else let (table, m') = alloc_page_table m in
      if table == 0 then (0, m') else (
        table,
        write_word entry (bit_or (bit_or (bit_and table addr_mask) flag_present) flag_writable) m',
      )

-- `if ((flags & flag) != 0) *entry |= flag;`
abbrev pub pass_flag : ℕ → ℕ → ℕ → Memory → Memory
pass_flag flag flags entry m =
    if has flag flags then write_word entry (bit_or (m.ram entry) flag) m else m

abbrev pub pass_flags : ℕ → ℕ → Memory → Memory
pass_flags flags entry m = pass_flag flag_writable flags entry (pass_flag flag_user flags entry m)

-- One level of `paging_map_page`: the next table, with the flags passed on to its entry.
pub descend : ℕ → ℕ → Memory → ℕ × Memory
descend flags entry m =
    let (table, m') = ensure_next_table entry m in
    if table == 0 then (0, m') else (table, pass_flags flags entry m')

-- The results are the negated error codes; 0 is success. Flushing the TLB is not modelled.
pub paging_map_page : ℕ → ℕ → ℕ → Memory → ℕ × Memory
paging_map_page virt_addr phys_addr flags m =
    if not (bit_and virt_addr 0xFFF == 0) || not (bit_and phys_addr 0xFFF == 0)
    then (1, m)
    else let (pdpt, m1) = descend flags (slot (root_page_table m) (pml4_index virt_addr)) m in
      if pdpt == 0
      then (2, m1)
      else let (pd, m2) = descend flags (slot pdpt (pdpt_index virt_addr)) m1 in
        if pd == 0
        then (3, m2)
        else let (pt, m3) = descend flags (slot pd (pd_index virt_addr)) m2 in
          let entry = slot pt (pt_index virt_addr) in
          if pt == 0 then (4, m3) else if has flag_present (m3.ram entry) then (5, m3) else (
            0,
            write_word entry
                (bit_or (bit_or (bit_and phys_addr addr_mask) (kept_flags flags)) flag_present) m3,
          )

-- The entry of the lowest level where every level above it is present, and none of the page
-- directory's is huge.
pub pte_slot : ℕ → Memory → Option ℕ
pte_slot virt_addr m =
    let pml4e = m.ram (slot (root_page_table m) (pml4_index virt_addr)) in
    let pdpte = m.ram (slot (page_table_from_entry pml4e) (pdpt_index virt_addr)) in
    let pde = m.ram (slot (page_table_from_entry pdpte) (pd_index virt_addr)) in
    let entry = slot (page_table_from_entry pde) (pt_index virt_addr) in
    if not (has flag_present pml4e)
    then none
    else if not (has flag_present pdpte)
    then none
    else if not (has flag_present pde) || has flag_huge pde
    then none
    else if not (has flag_present (m.ram entry))
    then none
    else some entry

-- `false` is -1.
unfoldable pub paging_set_page_flags : ℕ → ℕ → Memory → Bool × Memory
paging_set_page_flags virt_addr flags m =
    if not (bit_and virt_addr 0xFFF == 0) then (false, m) else elim (pte_slot virt_addr m) [
      | none ↦ (false, m)
      | some entry ↦ (
        true,
        write_word entry
            (bit_or (bit_or (bit_and (m.ram entry) addr_mask) (kept_flags flags)) flag_present) m,
      )
    ]

unfoldable pub paging_unmap_page : ℕ → Memory → Memory
paging_unmap_page virt_addr m =
    if not (bit_and virt_addr 0xFFF == 0)
    then m
    else elim (pte_slot virt_addr m) [ none ↦ m | some entry ↦ write_word entry 0 m ]

unfoldable pub paging_get_phys : ℕ → Memory → ℕ
paging_get_phys virt_addr m =
    let pml4e = m.ram (slot (root_page_table m) (pml4_index virt_addr)) in
    let pdpte = m.ram (slot (page_table_from_entry pml4e) (pdpt_index virt_addr)) in
    let pde = m.ram (slot (page_table_from_entry pdpte) (pd_index virt_addr)) in
    let pte = m.ram (slot (page_table_from_entry pde) (pt_index virt_addr)) in
    if not (has flag_present pml4e)
    then 0
    else if not (has flag_present pdpte)
    then 0
    else if not (has flag_present pde)
    then 0
    else if has flag_huge pde
    then bit_or (bit_and pde large_addr_mask) (bit_and virt_addr 0x1FFFFF)
    else if not (has flag_present pte)
    then 0
    else bit_or (bit_and pte addr_mask) (bit_and virt_addr 0xFFF)

-- What `paging_get_walk` returns and writes; an entry it does not come to is 0.
pub data WalkResult : Type 0 where
  absent huge mapped : WalkResult

pub record PageWalk : Type 0 where
  pub result : WalkResult
  pub pml4e : ℕ
  pub pdpte : ℕ
  pub pde : ℕ
  pub pte : ℕ

unfoldable pub paging_get_walk : ℕ → Memory → PageWalk
paging_get_walk virt_addr m =
    let pml4e = m.ram (slot (root_page_table m) (pml4_index virt_addr)) in
    let pdpte = m.ram (slot (page_table_from_entry pml4e) (pdpt_index virt_addr)) in
    let pde = m.ram (slot (page_table_from_entry pdpte) (pd_index virt_addr)) in
    let pte = m.ram (slot (page_table_from_entry pde) (pt_index virt_addr)) in
    if not (has flag_present pml4e)
    then record { result = absent; pml4e = pml4e; pdpte = 0; pde = 0; pte = 0 }
    else if not (has flag_present pdpte)
    then record { result = absent; pml4e = pml4e; pdpte = pdpte; pde = 0; pte = 0 }
    else if not (has flag_present pde)
    then record { result = absent; pml4e = pml4e; pdpte = pdpte; pde = pde; pte = 0 }
    else if has flag_huge pde
    then record { result = huge; pml4e = pml4e; pdpte = pdpte; pde = pde; pte = 0 }
    else record {
      result = if has flag_present pte then mapped else absent;
      pml4e = pml4e;
      pdpte = pdpte;
      pde = pde;
      pte = pte;
    }

-- The entries of the table that takes the place of a huge page, from the `i`th on.
pub fill_small : ℕ → ℕ → ℕ → ℕ → (ℕ → ℕ) → ℕ → ℕ
fill_small zero i new_pt entry ram = ram
fill_small (suc left) i new_pt entry ram = fill_small left (i + 1) new_pt entry (
    update ram (slot new_pt i) (
      bit_or (u64 (bit_and entry large_addr_mask + i * page_size))
        (bit_and entry (bit_or flag_present flag_writable))))

-- The page directory's entry `pde`, split if it is huge; `false` is -1.
pub split_entry : ℕ → Memory → Bool × Memory
split_entry pde m =
    if not (has flag_present (m.ram pde)) || not (has flag_huge (m.ram pde))
    then (true, m)
    else let (new_pt, m') = alloc_page_table m in
      if new_pt == 0 then (false, m') else (
        true,
        write_word pde (bit_or (bit_or (bit_and new_pt addr_mask) flag_present) flag_writable)
            (record m' { ram = fill_small 512 0 new_pt (m.ram pde) m'.ram }),
      )

pub paging_split_huge_page : ℕ → Memory → Bool × Memory
paging_split_huge_page virt_addr m =
    let pml4e = m.ram (slot (root_page_table m) (pml4_index virt_addr)) in
    let pdpte = m.ram (slot (page_table_from_entry pml4e) (pdpt_index virt_addr)) in
    if not (bit_and virt_addr 0xFFF == 0)
    then (false, m)
    else if not (has flag_present pml4e)
    then (true, m)
    else if not (has flag_present pdpte)
    then (true, m)
    else split_entry (slot (page_table_from_entry pdpte) (pd_index virt_addr)) m
