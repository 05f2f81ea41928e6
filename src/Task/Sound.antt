-- ===== src/Task/Sound.antt =====
-- kernel/task.c: the invariant of the scheduler, and the changes of one task that keep it.
use Prim.Native.Nat.{◌<◌}
use tg11_os.Prelude.{ℕ, true, not, ◌||◌, List, ◌∷◌, ◌==◌, ◌≡◌, ◌≢◌, arith, length, update}
use tg11_os.Prelude.Distinct.{elem, IsDistinct, length-IsDistinct}
use tg11_os.Task.{
  State, running, zombie, in_exit, Sched, task_max, is_ready, is_running, modify, set_state,
}
use tg11_os.Task.Ring.{IsPath, IsPath-ext}

-- `order` is the ring behind slot 0. The slots of the ring are those whose id is not 0, the current
-- task is one of them and the only one that runs, slot 0 can always run, and a task that was left
-- in `task_exit` is a zombie.
pub record IsSound {Mem : Type 0} (s : Sched Mem) (order : List ℕ) : Type 0 where
  pub path : IsPath s.tasks 0 order 0
  pub distinct : IsDistinct (0 ∷ order)
  pub bounded : (i : ℕ) → elem i order ≡ true → i < task_max
  pub members : (i : ℕ) → i < task_max → ((s.tasks i).id == 0) ≡ not (elem i (0 ∷ order))
  pub current_in : elem s.current (0 ∷ order) ≡ true
  pub current_runs : (s.tasks s.current).state ≡ running
  pub alone : (i : ℕ) → elem i (0 ∷ order) ≡ true → (s.tasks i).state ≡ running → i ≡ s.current
  pub idle : (is_ready (s.tasks 0).state || is_running (s.tasks 0).state) ≡ true
  pub unforced : s.protect_mode 0 ≡ 0
  pub left :
      (i : ℕ)
      → elem i (0 ∷ order) ≡ true
      → (s.tasks i).resume ≡ in_exit
      → (s.tasks i).state ≡ zombie
  pub named : 0 < s.next_id

module _ {Mem : Type 0} (s : Sched Mem) (order : List ℕ) (v : IsSound s order) where
  pub ring_length : length order < task_max
  ring_length =
      length-IsDistinct task_max (0 ∷ order) v.distinct (λ i inside. ground (arith, v.bounded i))

  -- A task that does not run may be made ready or stopped, slot 0 only ready.
  pub set_state-IsSound :
      (t : ℕ) (st : State)
      → t ≢ s.current
      → st ≢ running
      → ((s.tasks t).state ≡ zombie → ⊥)
      → (t ≡ 0 → is_ready st ≡ true)
      → IsSound (record s { tasks = modify s.tasks t (set_state st) }) order
  set_state-IsSound t st other calm live idle = record {
    path =
        IsPath-ext s.tasks (modify s.tasks t (set_state st)) 0 order 0 (λ i inside. ground arith)
          v.path;
    distinct = v.distinct;
    bounded = v.bounded;
    members = λ i lt. ground (arith, v.members i);
    current_in = v.current_in;
    current_runs = ground (arith, v.current_runs);
    alone = λ i inside e. ground (arith, v.alone i);
    idle = ground (arith, v.idle);
    unforced = v.unforced;
    left = λ i inside e. ground (arith, v.left i);
    named = v.named;
  }

  pub protect-IsSound :
      (t mode : ℕ)
      → t ≢ 0
      → IsSound (record s { protect_mode = update s.protect_mode t mode }) order
  protect-IsSound t mode other = record {
    path = v.path;
    distinct = v.distinct;
    bounded = v.bounded;
    members = v.members;
    current_in = v.current_in;
    current_runs = v.current_runs;
    alone = v.alone;
    idle = v.idle;
    unforced = ground (arith, v.unforced);
    left = v.left;
    named = v.named;
  }
