-- ===== src/Task/Ops.antt =====
-- kernel/task.c: the operations of the scheduler.
use tg11_os.Prelude.{
  ℕ, zero, suc, ◌+◌, ◌-◌, ◌*◌, ◌^◌, Bool, true, false, not, ◌&&◌, ◌||◌, Option, none, some, List,
  [], ◌∷◌, ltb, ◌==◌, if◌then◌else◌, update, u32, u64,
}
use tg11_os.Task.{
  Task, ready, running, zombie, stopped, Resume, at_entry, in_yield, in_tick, in_exit, Sched,
  Stacks, Run, done, halted, fault, ◌>>=◌, task_max, task_stack_pages, str_eq, copy_name, name_max,
  shell_name, serial_name, kernel_name, is_ready, is_running, is_zombie, is_stopped, find_slot,
  blank_task, set_state, set_next, modify, unlink_from, next_ready,
}

module _ {Mem : Type 0} where
  unfoldable pub find_task_by_id : ℕ → Sched Mem → Option ℕ
  find_task_by_id id s = find_slot (λ i. (s.tasks i).id == id) task_max 0

  unfoldable pub is_protected_task : ℕ → Sched Mem → Bool
  is_protected_task t s =
      if s.protect_mode t == 1
      then true
      else if s.protect_mode t == 2
      then false
      else t == 0 || (str_eq (s.tasks t).name shell_name || str_eq (s.tasks t).name serial_name)

  unfoldable pub unlink_task : ℕ → Sched Mem → Run (Sched Mem)
  unlink_task t s =
      if t == 0
      then done s
      else (unlink_from task_max 0 t s.tasks >>= λ tasks'. done (record s { tasks = tasks' }))

  -- `preempt_disable_count` is an `int` that the code raises before it lowers it.
  unfoldable pub after_switch : Resume → Sched Mem → Run (Sched Mem)
  after_switch at_entry s = done s
  after_switch in_yield s = done (record s { tasks = modify s.tasks s.current (set_state running) })
  after_switch in_tick s = done (record s {
    tasks = modify s.tasks s.current (set_state running);
    preempt_disable_count = s.preempt_disable_count - 1;
  })
  after_switch in_exit s = halted

  -- `task_switch(old, next)`: `old` is left to be resumed in its caller, and `next` goes on where
  -- it was left.
  unfoldable pub task_switch : Resume → ℕ → ℕ → Sched Mem → Run (Sched Mem)
  task_switch how old next s =
      after_switch (s.tasks next).resume
        (record s { tasks = modify s.tasks old (λ t. record t { resume = how }) })

  -- With what stands behind the call in the caller that `how` names. No tick falls between the
  -- change of the current task and `task_switch`.
  unfoldable pub do_switch_to_next : Resume → ℕ → Sched Mem → Run (Sched Mem)
  do_switch_to_next how old s = elim ((s.tasks old).next) [
    | none ↦ fault
    | some n ↦ next_ready task_max old n s.tasks >>= λ next. elim (next == old) [
      | true ↦
          if is_ready (s.tasks old).state || is_running (s.tasks old).state
          then after_switch how
              (record s { tasks = modify s.tasks old (set_state running); current = old })
          else halted
      | false ↦
          task_switch how old next
            (record s { tasks = modify s.tasks next (set_state running); current = next })
    ]
  ]

  -- Interrupts are on in `task_yield`, `task_exit` and `task_create`, and off in the others, but
  -- for the single store of `task_set_preemption`. Each of the three is given as it runs when no tick falls inside it.
  unfoldable pub task_yield : Sched Mem → Run (Sched Mem)
  task_yield s =
      do_switch_to_next in_yield s.current
        (record s { tasks = modify s.tasks s.current (set_state ready) })

  unfoldable pub task_preempt_tick : Sched Mem → Run (Sched Mem)
  task_preempt_tick s =
      if not s.preempt_enabled || ltb 0 s.preempt_disable_count
      then done s
      else if not (s.saved_rsp == 0)
      then done s
      else elim ((s.tasks s.current).next) [
        | none ↦ fault
        | some n ↦ next_ready task_max s.current n s.tasks >>= λ next. elim (next == s.current) [
          | true ↦ done s
          | false ↦ do_switch_to_next in_tick s.current (record s {
            tasks = modify s.tasks s.current (set_state ready);
            preempt_disable_count = s.preempt_disable_count + 1;
          })
        ]
      ]

  -- A user program's exit goes back into `task_exec_user`.
  unfoldable pub task_exit : Sched Mem → Run (Sched Mem)
  task_exit s =
      if not (s.saved_rsp == 0)
      then done (record s { saved_rsp = 0 })
      else if s.current == 0
      then done s
      else do_switch_to_next in_exit s.current
          (record s { tasks = modify s.tasks s.current (set_state zombie) })

  -- -1 is `false`.
  unfoldable pub task_stop : ℕ → Sched Mem → Bool × Sched Mem
  task_stop id s = elim (find_task_by_id id s) [
    | none ↦ (false, s)
    | some t ↦
        if is_protected_task t s
          || (t == s.current || not (is_ready (s.tasks t).state || is_running (s.tasks t).state))
        then (false, s)
        else (true, record s { tasks = modify s.tasks t (set_state stopped) })
  ]

  unfoldable pub task_continue : ℕ → Sched Mem → Bool × Sched Mem
  task_continue id s = elim (find_task_by_id id s) [
    | none ↦ (false, s)
    | some t ↦
        if not (is_stopped (s.tasks t).state)
        then (false, s)
        else (true, record s { tasks = modify s.tasks t (set_state ready) })
  ]

  unfoldable pub task_set_protection_by_id : ℕ → Bool → Sched Mem → Bool × Sched Mem
  task_set_protection_by_id id enabled s =
      if id == 0 then (false, s) else elim (find_task_by_id id s) [
        | none ↦ (false, s)
        | some t ↦ if t == 0 then (false, s) else (
          true,
          record s { protect_mode = update s.protect_mode t (if enabled then 1 else 2) },
        )
      ]

  unfoldable pub task_set_protection_by_name : List ℕ → Bool → Sched Mem → Bool × Sched Mem
  task_set_protection_by_name [] enabled s = (false, s)
  task_set_protection_by_name (c ∷ name) enabled s =
      elim (find_slot
        (λ i. not ((s.tasks i).id == 0) && (not (i == 0) && str_eq (s.tasks i).name (c ∷ name)))
        task_max 0) [
          | none ↦ (false, s)
          | some i ↦
              (true, record s { protect_mode = update s.protect_mode i (if enabled then 1 else 2) })
        ]

  unfoldable pub task_is_protected_id : ℕ → Sched Mem → Bool
  task_is_protected_id id s = elim (find_task_by_id id s) [
    | none ↦ false
    | some t ↦ is_protected_task t s
  ]

  unfoldable pub task_set_preemption : Bool → Sched Mem → Sched Mem
  task_set_preemption enabled s = record s { preempt_enabled = enabled }

  unfoldable pub task_find_id_by_name : List ℕ → Sched Mem → Option ℕ
  task_find_id_by_name [] s = none
  task_find_id_by_name (c ∷ name) s =
      elim (find_slot
        (λ i.
          not ((s.tasks i).id == 0)
          && (not (is_zombie (s.tasks i).state) && str_eq (s.tasks i).name (c ∷ name)))
        task_max 0) [ none ↦ none | some i ↦ some (s.tasks i).id ]

  unfoldable pub task_init : Sched Mem → Sched Mem
  task_init s = record s {
    tasks =
        update (λ _. blank_task) 0
          (record blank_task {
            id = 1;
            state = running;
            name = copy_name kernel_name name_max;
            next = some 0;
          });
    current = 0;
    protect_mode = λ _. 0;
  }

module _ {Mem : Type 0} (stacks : Stacks Mem) where
  open stacks use {virt_alloc_pages, virt_free_pages}

  unfoldable pub reclaim_task_slot : ℕ → Sched Mem → Sched Mem
  reclaim_task_slot t s = if t == 0 then s else record s {
    tasks = update s.tasks t blank_task;
    protect_mode = update s.protect_mode t 0;
    mem =
        if (s.tasks t).stack_base == 0
        then s.mem
        else virt_free_pages (s.tasks t).stack_base task_stack_pages s.mem;
  }

  unfoldable pub drop_task : ℕ → Sched Mem → Run (Sched Mem)
  drop_task t s = unlink_task t s >>= λ s'. done (reclaim_task_slot t s')

  unfoldable pub task_kill : ℕ → Sched Mem → Run (Bool × Sched Mem)
  task_kill id s = elim (find_task_by_id id s) [
    | none ↦ done (false, s)
    | some t ↦
        if is_protected_task t s || t == s.current
        then done (false, s)
        else (drop_task t s >>= λ s'. done (true, s'))
  ]

  -- The loops over the slots from `i`, `left` of them.
  unfoldable pub reap_from : ℕ → ℕ → Sched Mem → Run (Sched Mem)
  reap_from zero i s = done s
  reap_from (suc left) i s =
      (if i == s.current || ((s.tasks i).id == 0 || not (is_zombie (s.tasks i).state))
        then done s
        else drop_task i s)
      >>= λ s'. reap_from left (i + 1) s'

  unfoldable pub task_reap_zombies : Sched Mem → Run (Sched Mem)
  task_reap_zombies s = reap_from 7 1 s

  unfoldable pub kill_from : ℕ → ℕ → ℕ → Sched Mem → Run (ℕ × Sched Mem)
  kill_from zero i killed s = done (killed, s)
  kill_from (suc left) i killed s =
      let step : Run (ℕ × Sched Mem) =
        if i == s.current || ((s.tasks i).id == 0 || is_protected_task i s)
        then done (killed, s)
        else (drop_task i s >>= λ s'. done (killed + 1, s')) in
      step >>= λ r. kill_from left (i + 1) (r.0) (r.1)

  unfoldable pub task_kill_all : Sched Mem → Run (ℕ × Sched Mem)
  task_kill_all s = kill_from 7 1 0 s

  -- The slot that `task_create` uses, unlinked and reclaimed where it was a zombie's.
  unfoldable pub claim_slot : Sched Mem → Run (Option ℕ × Sched Mem)
  claim_slot s = elim (find_slot (λ i. (s.tasks i).id == 0) 7 1) [
    | some i ↦ done (some i, s)
    | none ↦ elim (find_slot (λ i. is_zombie (s.tasks i).state && not ((s.tasks i).id == 0)) 7 1) [
      | none ↦ done (none, s)
      | some i ↦ drop_task i s >>= λ s'. done (some i, s')
    ]
  ]

  -- The new task: `task_switch` will pop nine words and return to its entry function.
  unfoldable pub new_task : Option (List ℕ) → ℕ → ℕ → ℕ → ℕ → Option ℕ → Task
  new_task name entry arg id stack_base next = record {
    rsp = u64 (stack_base + task_stack_pages * 4096 + 2 ^ 64 - 72);
    stack_base = stack_base;
    id = id;
    state = ready;
    entry = entry;
    arg = arg;
    name = copy_name (elim name [ none ↦ b't' ∷ b'a' ∷ b's' ∷ b'k' ∷ [] | some n ↦ n ]) name_max;
    next = next;
    resume = at_entry;
  }

  -- It is linked behind slot 0.
  unfoldable pub link_task : ℕ → Task → Mem → Sched Mem → Sched Mem
  link_task t made mem' s = record s {
    tasks = modify (update s.tasks t made) 0 (set_next (some t));
    next_id = u32 (s.next_id + 1);
    protect_mode = update s.protect_mode t 0;
    mem = mem';
  }

  unfoldable pub set_stack : ℕ → ℕ → Mem → Sched Mem → Sched Mem
  set_stack t stack_base mem' s = record s {
    tasks = update s.tasks t (record (s.tasks t) { stack_base = stack_base });
    mem = mem';
  }

  -- `name` is `none` for a null pointer. The id that is returned; -1 is `none`.
  unfoldable pub task_create : Option (List ℕ) → ℕ → ℕ → Sched Mem → Run (Option ℕ × Sched Mem)
  task_create name entry arg s = claim_slot s >>= λ claimed. elim (claimed.0) [
    | none ↦ done (none, claimed.1)
    | some t ↦
        let s1 = claimed.1 in
        let (stack_base, mem') = virt_alloc_pages task_stack_pages s1.mem in
        if stack_base == 0
        then done (none, set_stack t stack_base mem' s1)
        else done (
          some s1.next_id,
          link_task t (new_task name entry arg s1.next_id stack_base (s1.tasks 0).next) mem' s1,
        )
  ]
