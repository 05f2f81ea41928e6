-- ===== src/UserHeap.antt =====
-- kernel/task.c, the heap of the user program: its bounds, its break, and the pages mapped for it.
pub mod Break
mod Tests
use tg11_os.Prelude.{
  ℕ, zero, suc, ◌+◌, ◌-◌, ◌*◌, ◌/◌, ◌^◌, Bool, true, false, not, ◌&&◌, ◌||◌, bit_and, bit_or, ltb,
  leb, ◌==◌, if◌then◌else◌, u64, ◌<<<◌, not64,
}
use tg11_os.Memory.{Memory, page_size, phys_alloc_page, phys_free_page}
use tg11_os.Memory.Paging.{
  flag_present, flag_writable, flag_user, paging_map_page, paging_unmap_page, paging_get_phys,
}
use tg11_os.Memory.Virt.{memory_zero_phys_page}

-- The static variables of the heap, and the memory manager's state.
pub record UserHeap : Type 0 where
  pub user_heap_base : ℕ
  pub user_heap_limit : ℕ
  pub user_heap_brk : ℕ
  pub memory : Memory

pub align_up_page : ℕ → ℕ
align_up_page addr = bit_and (u64 (addr + 4095)) (not64 4095)

pub unmap_one : ℕ → Memory → Memory
unmap_one page m =
    let phys = paging_get_phys page m in
    if phys == 0 then m else phys_free_page phys (paging_unmap_page page m)

-- `for (page = start; page < end; page += 4096)`, `left` rounds at most; `rounds` are enough.
pub unmap_from : ℕ → ℕ → ℕ → Memory → Memory
unmap_from zero page end m = m
unmap_from (suc left) page end m = elim (ltb page end) [
  | false ↦ m
  | true ↦ unmap_from left (page + page_size) end (unmap_one page m)
]

abbrev pub rounds : ℕ → ℕ → ℕ
rounds start end = (end - start + 4095) / page_size

pub user_heap_unmap_range : ℕ → ℕ → Memory → Memory
user_heap_unmap_range start end m = unmap_from (rounds start end) start end m

unfoldable pub task_user_heap_reset : UserHeap → UserHeap
task_user_heap_reset h =
    let mapped_start = align_up_page h.user_heap_base in
    let mapped_end = align_up_page h.user_heap_brk in
    record {
      user_heap_base = 0;
      user_heap_limit = 0;
      user_heap_brk = 0;
      memory =
          if not (h.user_heap_base == 0)
            && (ltb h.user_heap_base h.user_heap_limit && ltb mapped_start mapped_end)
          then user_heap_unmap_range mapped_start mapped_end h.memory
          else h.memory;
    }

-- `false` is -1.
unfoldable pub task_user_heap_config : ℕ → ℕ → UserHeap → Bool × UserHeap
task_user_heap_config base limit h = if base == 0 || leb limit base then (false, h) else (
  true,
  record (task_user_heap_reset h) {
    user_heap_base = base;
    user_heap_limit = limit;
    user_heap_brk = base;
  },
)

-- `PAGE_FLAG_PRESENT | PAGE_FLAG_WRITABLE | PAGE_FLAG_USER | PAGE_FLAG_NO_EXECUTE`
abbrev pub heap_flags : ℕ
heap_flags = bit_or (bit_or (bit_or flag_present flag_writable) flag_user) (1 <<< 63)

-- One page of the heap: whether it was mapped.
pub map_one : ℕ → Memory → Bool × Memory
map_one page m =
    if not (paging_get_phys page m == 0)
    then (false, m)
    else let (phys, m1) = phys_alloc_page m in
      if phys == 0
      then (false, m1)
      else let (rc, m2) = paging_map_page page phys heap_flags m1 in
        if not (rc == 0)
        then (false, phys_free_page phys m2)
        else (true, memory_zero_phys_page phys m2)

-- The loop that maps the pages from `page` on; at a failure those from `map_from` on are given back.
pub grow_from : ℕ → ℕ → ℕ → ℕ → Memory → Bool × Memory
grow_from zero map_from page map_to m = (true, m)
grow_from (suc left) map_from page map_to m = elim (ltb page map_to) [
  | false ↦ (true, m)
  | true ↦
      let made = map_one page m in
      elim (made.0) [
        | false ↦ (false, user_heap_unmap_range map_from page (made.1))
        | true ↦ grow_from left map_from (page + page_size) map_to (made.1)
      ]
]

abbrev pub failed : ℕ
failed = 2 ^ 64 - 1

-- The pages between the two breaks are mapped or given back.
unfoldable pub move_break : ℕ → UserHeap → Bool × Memory
move_break new_break h =
    let map_from = align_up_page h.user_heap_brk in
    let map_to = align_up_page new_break in
    if ltb h.user_heap_brk new_break
    then grow_from (rounds map_from map_to) map_from map_from map_to h.memory
    else (true, user_heap_unmap_range map_to map_from h.memory)

unfoldable pub task_user_heap_brk : ℕ → UserHeap → ℕ × UserHeap
task_user_heap_brk new_break h =
    if h.user_heap_base == 0 || leb h.user_heap_limit h.user_heap_base
    then (failed, h)
    else if new_break == 0
    then (h.user_heap_brk, h)
    else if ltb new_break h.user_heap_base || ltb h.user_heap_limit new_break
    then (failed, h)
    else if new_break == h.user_heap_brk
    then (h.user_heap_brk, h)
    else let moved = move_break new_break h in
      if moved.0
      then (new_break, record h { user_heap_brk = new_break; memory = moved.1 })
      else (failed, record h { memory = moved.1 })
