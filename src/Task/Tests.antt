-- ===== src/Task/Tests.antt =====
-- kernel/task.c: runs at concrete states, and the theorems at such states.
use tg11_os.Prelude.{
  ℕ, ◌+◌, ◌*◌, true, Option, none, some, List, [], ◌∷◌, ◌≡◌, ◌≢◌, ◌⊎◌, refl, arith, update,
}
use tg11_os.Prelude.Distinct.{without}
use tg11_os.Task.{
  ready, running, zombie, in_yield, in_tick, in_exit, Sched, Stacks, Run, done, halted, fault,
  ◌>>=◌, modify, set_state, blank_task, shell_name, find_slot, next_ready,
}
use tg11_os.Task.Sound.{IsSound}
use tg11_os.Task.Drop.{drop_task-IsSound, IsDropped}
use tg11_os.Task.Create.{task_create-IsCreated, IsCreated}
use tg11_os.Task.Switch.{IsSwitched}
use tg11_os.Task.Yield.{
  task_yield-IsSwitched, task_exit-IsSwitched, task_preempt_tick_lem, task_preempt_tick_twice,
  counted, tick_target,
}
use tg11_os.Task.Calls.{Call, create, kill, reap, yield, exit, run, run_all, IsRun}
use tg11_os.Task.Runs.{run_all-IsRun, init-IsSound}
use tg11_os.Task.Ops.{
  drop_task, task_create, task_yield, task_exit, task_preempt_tick, task_init, claim_slot, new_task,
  link_task, do_switch_to_next, task_switch, after_switch,
}

-- Stacks are given out one after another.
abbrev bump : Stacks ℕ
bump = record {
  virt_alloc_pages = λ count m. (m, m + count * 4096);
  virt_free_pages = λ addr count m. m;
}

abbrev start : Sched ℕ
start = record {
  tasks = λ _. blank_task;
  current = 0;
  protect_mode = λ _. 0;
  next_id = 2;
  saved_rsp = 0;
  preempt_enabled = true;
  preempt_disable_count = 0;
  mem = 0x10000;
}

-- The kernel's task is in slot 0, and a ready one in slot 1 that has not run.
abbrev two : Sched ℕ
two = record start {
  tasks =
      update
        (update (λ _. blank_task) 1
          (record blank_task { id = 2; state = ready; stack_base = 0x10000; next = some 0 }))
        0 (record blank_task { id = 1; state = running; next = some 1 });
  next_id = 3;
}

two-IsSound : IsSound two (1 ∷ [])
two-IsSound = record {
  path = (refl, refl);
  distinct = ground arith;
  bounded = λ i inside. ground arith;
  members = λ i lt. ground arith;
  current_in = refl;
  current_runs = refl;
  alone = λ i inside e. ground arith;
  idle = refl;
  unforced = refl;
  left = λ i inside e. ground arith;
  named = omega arith;
}

-- The same with the task in slot 1 running.
abbrev second : Sched ℕ
second = record start {
  tasks =
      update
        (update (λ _. blank_task) 1
          (record blank_task { id = 2; state = running; stack_base = 0x10000; next = some 0 }))
        0 (record blank_task { id = 1; state = ready; next = some 1; resume = in_yield });
  current = 1;
  next_id = 3;
}

second-IsSound : IsSound second (1 ∷ [])
second-IsSound = record {
  path = (refl, refl);
  distinct = ground arith;
  bounded = λ i inside. ground arith;
  members = λ i lt. ground arith;
  current_in = refl;
  current_runs = refl;
  alone = λ i inside e. ground arith;
  idle = refl;
  unforced = refl;
  left = λ i inside e. ground arith;
  named = omega arith;
}

current_of : Run (Sched ℕ) → Option ℕ
current_of (done s) = some s.current
current_of halted = none
current_of fault = none

abbrev calls : List Call
calls = create none 0x4000 7 ∷ create (some shell_name) 0x5000 0 ∷ yield ∷ kill 3 ∷ exit ∷ reap ∷ []

-- The second task that was created runs first, since it stands first behind slot 0.
yield_run :
    current_of
      (run_all bump (create none 0x4000 7 ∷ create none 0x5000 0 ∷ yield ∷ []) (task_init start))
    ≡ some 2
unfolding run_all run task_create claim_slot new_task link_task task_yield do_switch_to_next
    task_switch after_switch task_init current_of find_slot next_ready
yield_run = refl

-- A tick falls inside `task_yield`, behind its first statement, which has made task 0 ready. Task 1
-- runs and yields; task 0 is made running and goes on with its own switch, which leaves it so. No
-- switch picks it again: when task 1 exits, the machine halts.
interrupted_yield_run :
    (task_preempt_tick (record two { tasks = modify two.tasks 0 (set_state ready) }) >>= λ s1.
    task_yield s1 >>= λ s2. do_switch_to_next in_yield s2.current s2 >>= λ s3. task_exit s3)
    ≡ halted
unfolding task_preempt_tick task_yield task_exit do_switch_to_next task_switch after_switch
    next_ready
interrupted_yield_run = refl

run_all-IsRun_example : IsRun bump 6 (task_init start) (run_all bump calls (task_init start))
unfolding task_init
run_all-IsRun_example =
    run_all-IsRun bump calls (task_init start) [] (init-IsSound start (omega arith)) (omega arith)

task_yield-IsSwitched_example :
    (s' : Sched ℕ) × (task_yield two ≡ done s') × IsSwitched two (1 ∷ []) ready in_yield s'
task_yield-IsSwitched_example = task_yield-IsSwitched two (1 ∷ []) two-IsSound

task_exit-IsSwitched_example :
    (s' : Sched ℕ) × (task_exit second ≡ done s')
    × (s'.current ≢ 1)
    × ((s'.tasks 1).state ≡ zombie)
    × ((s'.tasks 1).resume ≡ in_exit)
    × IsSwitched second (1 ∷ []) zombie in_exit s'
task_exit-IsSwitched_example =
    task_exit-IsSwitched second (1 ∷ []) second-IsSound refl (omega arith)

task_preempt_tick_lem_example :
    ((tick_target two (1 ∷ []) two-IsSound ≡ 0) × (task_preempt_tick two ≡ done two))
    ⊎ ((tick_target two (1 ∷ []) two-IsSound ≢ 0)
        × ((s' : Sched ℕ) × (task_preempt_tick two ≡ done s')
            × IsSwitched (counted two (1 ∷ []) two-IsSound) (1 ∷ []) ready in_tick s'))
task_preempt_tick_lem_example = task_preempt_tick_lem two (1 ∷ []) two-IsSound refl refl refl

task_preempt_tick_twice_example :
    (s' : Sched ℕ) × (task_preempt_tick two ≡ done s')
    × (s'.current ≡ 1)
    × (s'.preempt_disable_count ≡ 1)
    × (task_preempt_tick s' ≡ done s')
task_preempt_tick_twice_example =
    task_preempt_tick_twice two (1 ∷ []) two-IsSound refl refl refl (omega arith) (λ e. cc)

task_create-IsCreated_example :
    (r : Option ℕ × Sched ℕ) × (task_create bump (some shell_name) 0x4000 7 two ≡ done r)
    × IsCreated bump two (1 ∷ []) two-IsSound 0x4000 7 r
task_create-IsCreated_example =
    task_create-IsCreated bump two (1 ∷ []) two-IsSound (some shell_name) 0x4000 7 (omega arith)

drop_task-IsSound_example :
    (s' : Sched ℕ) × (drop_task bump 1 two ≡ done s')
    × IsDropped bump two (1 ∷ []) two-IsSound 1 (omega arith) (omega arith) s'
    × IsSound s' (without 1 (1 ∷ []))
drop_task-IsSound_example =
    drop_task-IsSound bump two (1 ∷ []) two-IsSound 1 (omega arith) (omega arith) (omega arith)
