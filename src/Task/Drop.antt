-- ===== src/Task/Drop.antt =====
-- kernel/task.c: taking a task out of the ring and giving back its slot.
use Prim.Native.Nat.{◌<◌}
use tg11_os.Prelude.{
  ℕ, not, ◌&&◌, none, List, ◌∷◌, ◌==◌, ◌≡◌, ◌≢◌, refl, sym, ap, arith, update, Bool-cases, inl, inr,
  ==-ne,
}
use mathlib.Core.Path.{subst}
use tg11_os.Prelude.Distinct.{
  elem, IsDistinct, without, without_absent, elem-without, IsDistinct-without,
}
use tg11_os.Task.{Task, Sched, Stacks, done, task_max, set_next, blank_task}
use tg11_os.Task.Ring.{
  IsPath, IsPath-ext, unlinked, IsPath-unlinked, unlink_from-elem, unlink_from-absent,
}
use tg11_os.Task.Sound.{IsSound, ring_length}
use tg11_os.Task.Ops.{unlink_task, reclaim_task_slot, drop_task}

module _ {Mem : Type 0} (stacks : Stacks Mem) (s : Sched Mem) (order : List ℕ) (v : IsSound s order)
    (t : ℕ) (other : t ≢ s.current) (inner : t ≢ 0) where
  -- The slot is empty, and the other tasks keep all but their place in the ring.
  pub record IsDropped (s' : Sched Mem) : Type 0 where
    pub emptied : s'.tasks t ≡ blank_task
    pub others : (i : ℕ) → i ≢ t → set_next none (s'.tasks i) ≡ set_next none (s.tasks i)
    pub same_current : s'.current ≡ s.current
    pub same_id : s'.next_id ≡ s.next_id

  -- The state after the slot is given back, for tasks that are linked as `tasks'`.
  reclaimed : (ℕ → Task) → Sched Mem
  reclaimed tasks' = reclaim_task_slot stacks t (record s { tasks = tasks' })

  reclaimed-IsSound :
      (tasks' : ℕ → Task) (order' : List ℕ)
      → IsPath tasks' 0 order' 0
      → IsDistinct (0 ∷ order')
      → ((i : ℕ) → elem i order' ≡ (elem i order && not (i == t)))
      → ((i : ℕ) → set_next none (tasks' i) ≡ set_next none (s.tasks i))
      → IsSound (reclaimed tasks') order' × IsDropped (reclaimed tasks')
  unfolding reclaimed reclaim_task_slot
  reclaimed-IsSound tasks' order' path distinct rest same =
      let keeps : (i : ℕ)
          → i ≢ t
          → ((update tasks' t blank_task i).id ≡ (s.tasks i).id)
            × ((update tasks' t blank_task i).state ≡ (s.tasks i).state)
            × ((update tasks' t blank_task i).resume ≡ (s.tasks i).resume) =
        λ i ne. (
          ground (arith, ap (λ (k : Task). k.id) (same i)),
          ground (arith, ap (λ (k : Task). k.state) (same i)),
          ground (arith, ap (λ (k : Task). k.resume) (same i)),
        ) in
      rw (==-ne t 0 inner) (
        record {
          path =
              IsPath-ext tasks' (update tasks' t blank_task) 0 order' 0
                (λ i inside. ground (arith, rest i)) path;
          distinct = distinct;
          bounded = λ i inside. ground (arith, v.bounded i, rest i);
          members = λ i lt. ground (arith, v.members i, rest i, keeps i);
          current_in = ground (arith, v.current_in, rest s.current);
          current_runs = ground (arith, v.current_runs, keeps s.current);
          alone = λ i inside e. ground (arith, v.alone i, rest i, keeps i);
          idle = ground (arith, v.idle, keeps 0);
          unforced = ground (arith, v.unforced);
          left = λ i inside e. ground (arith, v.left i, rest i, keeps i);
          named = v.named;
        },
        record {
          emptied = ground arith;
          others = λ i ne. ground (arith, same i);
          same_current = refl;
          same_id = refl;
        },
      )

  -- Dropping a task other than the current one and slot 0 succeeds, in the ring or not.
  pub drop_task-IsSound :
      t < task_max
      → (s' : Sched Mem) × (drop_task stacks t s ≡ done s')
        × IsDropped s'
        × IsSound s' (without t order)
  unfolding drop_task unlink_task reclaimed
  drop_task-IsSound lt = elim (Bool-cases (elem t order)) [
    | inl linked ↦
        let tasks' = unlinked t 0 order s.tasks in
        let sound =
          reclaimed-IsSound tasks' (without t order)
            (IsPath-unlinked t 0 order s.tasks v.path v.distinct linked)
            (
              ground (arith, v.distinct, elem-without 0 t order v.distinct.1),
              IsDistinct-without t order v.distinct.1,
            )
            (λ i. elem-without i t order v.distinct.1) (λ i. ground arith) in
        (
          reclaimed tasks',
          rw (
            ==-ne t 0 inner,
            unlink_from-elem task_max 0 t order s.tasks (omega (arith, ring_length s order v))
                v.path v.distinct.0 linked,
          ),
          sound.1,
          sound.0,
        )
    | inr free ↦
        let sound =
          reclaimed-IsSound s.tasks (without t order)
            (subst (λ l. IsPath s.tasks 0 l 0) (sym (without_absent t order free)) v.path)
            (
              ground (arith, v.distinct, elem-without 0 t order v.distinct.1),
              IsDistinct-without t order v.distinct.1,
            )
            (λ i. elem-without i t order v.distinct.1) (λ i. refl) in
        (
          reclaimed s.tasks,
          rw (
            ==-ne t 0 inner,
            unlink_from-absent task_max 0 t order s.tasks (ring_length s order v) v.path inner
                v.distinct.0 free,
          ),
          sound.1,
          sound.0,
        )
  ]
