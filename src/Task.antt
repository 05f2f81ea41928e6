-- ===== src/Task.antt =====
-- kernel/task.c, the scheduler: the table of tasks, the round-robin ring through it, and the
-- operations on both. `virt_alloc_pages` and `virt_free_pages`, which give and take the stacks,
-- are a parameter.
pub mod Ops
pub mod Ring
pub mod Walks
pub mod Sound
pub mod Drop
pub mod Switch
pub mod Create
pub mod Yield
pub mod Calls
pub mod Runs
mod Tests
use tg11_os.Prelude.{
  ℕ, zero, suc, ◌+◌, ◌-◌, ◌*◌, ◌^◌, Bool, true, false, not, ◌&&◌, ◌||◌, Option, none, some, List,
  [], ◌∷◌, ltb, ◌==◌, if◌then◌else◌, update, u32, u64,
}

abbrev pub task_max : ℕ
task_max = 8

abbrev pub task_stack_pages : ℕ
task_stack_pages = 8

pub data State : Type 0 where
  ready running zombie stopped : State

-- What a task runs on when it is switched to: its entry function, or the rest of the function that
-- called `do_switch_to_next`. It stands for the return addresses on the stack that is saved.
pub data Resume : Type 0 where
  at_entry in_yield in_tick in_exit : Resume

-- `task_t`; a pointer to a task is its slot in the table. A name is its characters, without the NUL.
pub record Task : Type 0 where
  pub rsp : ℕ
  pub stack_base : ℕ
  pub id : ℕ
  pub state : State
  pub entry : ℕ
  pub arg : ℕ
  pub name : List ℕ
  pub next : Option ℕ
  pub resume : Resume

-- The static variables of task.c. `mem` is the memory manager's state.
pub record Sched (Mem : Type 0) : Type 0 where
  pub tasks : ℕ → Task
  pub current : ℕ
  pub protect_mode : ℕ → ℕ
  pub next_id : ℕ
  pub saved_rsp : ℕ
  pub preempt_enabled : Bool
  pub preempt_disable_count : ℕ
  pub mem : Mem

-- The memory manager as the scheduler calls it.
pub record Stacks (Mem : Type 0) : Type 0 where
  pub virt_alloc_pages : ℕ → Mem → ℕ × Mem
  pub virt_free_pages : ℕ → ℕ → Mem → Mem

-- `halted` is `for (;;) arch_halt()`; `fault` a read through a null pointer, or a walk of the ring
-- that does not end in `task_max` steps.
pub data Run {ℓ} (A : Type ℓ) : Type ℓ where
  done : A → Run A
  halted fault : Run A

infixl 5 ◌>>=◌
abbrev pub ◌>>=◌ {ℓ κ} : {A : Type ℓ} {B : Type κ} → Run A → (A → Run B) → Run B
done a >>= f = f a
halted >>= f = halted
fault >>= f = fault

pub str_eq : List ℕ → List ℕ → Bool
str_eq [] [] = true
str_eq [] (y ∷ ys) = false
str_eq (x ∷ xs) [] = false
str_eq (x ∷ xs) (y ∷ ys) = x == y && str_eq xs ys

-- At most `max - 1` characters.
pub copy_name : List ℕ → ℕ → List ℕ
copy_name src zero = []
copy_name src (suc zero) = []
copy_name [] (suc (suc max)) = []
copy_name (c ∷ src) (suc (suc max)) = c ∷ copy_name src (suc max)

abbrev pub name_max : ℕ
name_max = 24

abbrev pub shell_name : List ℕ
shell_name = b's' ∷ b'h' ∷ b'e' ∷ b'l' ∷ b'l' ∷ []

abbrev pub serial_name : List ℕ
serial_name = b's' ∷ b'e' ∷ b'r' ∷ b'i' ∷ b'a' ∷ b'l' ∷ []

abbrev pub kernel_name : List ℕ
kernel_name = b'k' ∷ b'e' ∷ b'r' ∷ b'n' ∷ b'e' ∷ b'l' ∷ []

abbrev pub is_ready : State → Bool
is_ready ready = true
is_ready _ = false

abbrev pub is_running : State → Bool
is_running running = true
is_running _ = false

abbrev pub is_zombie : State → Bool
is_zombie zombie = true
is_zombie _ = false

abbrev pub is_stopped : State → Bool
is_stopped stopped = true
is_stopped _ = false

-- The first slot from `i` on, `left` slots at most, that passes the test.
pub find_slot : (ℕ → Bool) → ℕ → ℕ → Option ℕ
find_slot test zero i = none
find_slot test (suc left) i = elim (test i) [ true ↦ some i | false ↦ find_slot test left (i + 1) ]

abbrev pub blank_task : Task
blank_task = record {
  rsp = 0;
  stack_base = 0;
  id = 0;
  state = zombie;
  entry = 0;
  arg = 0;
  name = [];
  next = none;
  resume = at_entry;
}

abbrev pub set_state : State → Task → Task
set_state st t = record t { state = st }

abbrev pub set_next : Option ℕ → Task → Task
set_next n t = record t { next = n }

abbrev pub modify : (ℕ → Task) → ℕ → (Task → Task) → ℕ → Task
modify tasks i f = update tasks i (f (tasks i))

-- The walk of `unlink_task` from `p`.
pub unlink_from : ℕ → ℕ → ℕ → (ℕ → Task) → Run (ℕ → Task)
unlink_from zero p t tasks = fault
unlink_from (suc fuel) p t tasks = elim ((tasks p).next) [
  | none ↦ fault
  | some n ↦ elim (n == t) [
    | true ↦ done (modify tasks p (set_next (tasks t).next))
    | false ↦ elim (n == 0) [ true ↦ done tasks | false ↦ unlink_from fuel n t tasks ]
  ]
]

-- The walk of `do_switch_to_next` and of `task_preempt_tick` from `n`: the first ready task, or
-- `old` again.
pub next_ready : ℕ → ℕ → ℕ → (ℕ → Task) → Run ℕ
next_ready zero old n tasks = fault
next_ready (suc fuel) old n tasks = elim (n == old || is_ready (tasks n).state) [
  | true ↦ done n
  | false ↦ elim ((tasks n).next) [ none ↦ fault | some n' ↦ next_ready fuel old n' tasks ]
]
