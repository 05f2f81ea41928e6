-- ===== src/Memory/Walk.antt =====
-- kernel/memory.c: the two readings of the page tables agree.
use tg11_os.Prelude.{ℕ, Bool, true, false, not, bit_and, bit_or, if◌then◌else◌, ◌≡◌, refl}
use tg11_os.Memory.{Memory}
use tg11_os.Memory.Paging.{
  addr_mask, large_addr_mask, flag_present, flag_huge, has, slot, page_table_from_entry,
  root_page_table, pml4_index, pdpt_index, pd_index, pt_index, absent, huge, mapped, PageWalk,
  paging_get_phys, paging_get_walk,
}

-- The address that a walk leads to.
pub address_of : ℕ → PageWalk → ℕ
address_of virt_addr w = elim w.result [
  | absent ↦ 0
  | huge ↦ bit_or (bit_and w.pde large_addr_mask) (bit_and virt_addr 0x1FFFFF)
  | mapped ↦ bit_or (bit_and w.pte addr_mask) (bit_and virt_addr 0xFFF)
]

-- `paging_get_phys` gives 0 exactly as the walk ends early, and otherwise the address in the entry
-- that `paging_get_walk` reports, with the offset into its page.
pub paging_get_phys-paging_get_walk :
    (virt_addr : ℕ) (m : Memory)
    → paging_get_phys virt_addr m ≡ address_of virt_addr (paging_get_walk virt_addr m)
unfolding paging_get_phys paging_get_walk address_of
paging_get_phys-paging_get_walk virt_addr m =
    let pml4e = m.ram (slot (root_page_table m) (pml4_index virt_addr)) in
    let pdpte = m.ram (slot (page_table_from_entry pml4e) (pdpt_index virt_addr)) in
    let pde = m.ram (slot (page_table_from_entry pdpte) (pd_index virt_addr)) in
    let pte = m.ram (slot (page_table_from_entry pde) (pt_index virt_addr)) in
    walk_cases virt_addr pml4e pdpte pde pte (has flag_present pml4e) (has flag_present pdpte)
      (has flag_present pde) (has flag_huge pde) (has flag_present pte)
  where
    walk_cases :
        (virt_addr pml4e pdpte pde pte : ℕ) (a b c d e : Bool)
        → (if not a
            then 0
            else if not b
            then 0
            else if not c
            then 0
            else if d
            then bit_or (bit_and pde large_addr_mask) (bit_and virt_addr 0x1FFFFF)
            else if not e
            then 0
            else bit_or (bit_and pte addr_mask) (bit_and virt_addr 0xFFF))
          ≡ address_of virt_addr (
              if not a
              then record { result = absent; pml4e = pml4e; pdpte = 0; pde = 0; pte = 0 }
              else if not b
              then record { result = absent; pml4e = pml4e; pdpte = pdpte; pde = 0; pte = 0 }
              else if not c
              then record { result = absent; pml4e = pml4e; pdpte = pdpte; pde = pde; pte = 0 }
              else if d
              then record { result = huge; pml4e = pml4e; pdpte = pdpte; pde = pde; pte = 0 }
              else record {
                result = if e then mapped else absent;
                pml4e = pml4e;
                pdpte = pdpte;
                pde = pde;
                pte = pte;
              })
    walk_cases virt_addr pml4e pdpte pde pte false b c d e = refl
    walk_cases virt_addr pml4e pdpte pde pte true false c d e = refl
    walk_cases virt_addr pml4e pdpte pde pte true true false d e = refl
    walk_cases virt_addr pml4e pdpte pde pte true true true true e = refl
    walk_cases virt_addr pml4e pdpte pde pte true true true false false = refl
    walk_cases virt_addr pml4e pdpte pde pte true true true false true = refl
