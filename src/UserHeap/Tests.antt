-- ===== src/UserHeap/Tests.antt =====
-- kernel/task.c: the theorems on the heap of the user program at concrete states.
use tg11_os.Prelude.{◌≡◌, arith, inr}
use tg11_os.Memory.{Memory}
use tg11_os.UserHeap.{UserHeap, task_user_heap_brk, grow_from}
use tg11_os.UserHeap.Break.{IsHeap, IsBreak, task_user_heap_brk-IsBreak, grow_from-fuel}

abbrev blank : Memory
blank = record {
  phys_bitmap = λ _. 0;
  virt_bitmap = λ _. 0;
  total_page_count = 0;
  free_page_count = 0;
  ram = λ _. 0;
  cr3 = 0x1000;
}

abbrev heap : UserHeap
heap = record {
  user_heap_base = 0x1800000000;
  user_heap_limit = 0x1801000000;
  user_heap_brk = 0x1800000000;
  memory = blank;
}

heap-IsHeap : IsHeap heap
unfolding IsHeap
heap-IsHeap = inr (omega arith, omega arith, omega arith)

task_user_heap_brk-IsBreak_example :
    IsBreak 0x1800010000 heap (task_user_heap_brk 0x1800010000 heap)
task_user_heap_brk-IsBreak_example = task_user_heap_brk-IsBreak 0x1800010000 heap heap-IsHeap

grow_from-fuel_example :
    grow_from 2 0x1000 0x1000 0x3000 blank ≡ grow_from 9 0x1000 0x1000 0x3000 blank
grow_from-fuel_example = grow_from-fuel 2 9 0x1000 0x1000 0x3000 blank (omega arith) (omega arith)
