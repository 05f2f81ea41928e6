-- ===== src/Task/Create.antt =====
-- kernel/task.c: `task_create` puts the new task behind slot 0.
use Prim.Native.Nat.{◌<◌}
use tg11_os.Prelude.{
  ℕ, ◌+◌, ◌^◌, false, not, ◌&&◌, Option, none, some, List, ◌∷◌, ◌==◌, ◌≡◌, ◌≢◌, refl, ap, arith,
  update, Bool-cases, Option-cases, inl, inr,
}
use tg11_os.Prelude.Distinct.{elem, without, elem-ne, elem-without}
use tg11_os.Task.{
  Task, ready, at_entry, Sched, Stacks, done, task_max, find_slot, is_zombie, modify, set_next,
}
use tg11_os.Task.Ring.{IsPath-ext, IsPath-redirect}
use tg11_os.Task.Walks.{find_slot-some}
use tg11_os.Task.Sound.{IsSound}
use tg11_os.Task.Drop.{drop_task-IsSound}
use tg11_os.Task.Ops.{claim_slot, task_create, new_task, link_task, set_stack}

-- A slot that is not in the ring, and a sound state.
record IsClaim {Mem : Type 0} (s : Sched Mem) (order : List ℕ) (t : ℕ) : Type 0 where
  sound : IsSound s order
  inner : t ≢ 0
  in_table : t < task_max
  unlinked : elem t order ≡ false

-- A new ready task `made` in such a slot, linked behind slot 0.
insert-IsSound :
    {Mem : Type 0} (stacks : Stacks Mem) (s : Sched Mem) (order : List ℕ) (t : ℕ) (made : Task)
    (mem : Mem)
    → IsClaim s order t
    → made.next ≡ (s.tasks 0).next
    → made.id ≢ 0
    → made.state ≡ ready
    → made.resume ≡ at_entry
    → s.next_id + 1 < 2 ^ 32
    → IsSound (link_task stacks t made mem s) (t ∷ order)
unfolding link_task
insert-IsSound stacks s order t made mem c linked named fresh entry fits = record {
  path = (
    ground arith,
    IsPath-redirect s.tasks (modify (update s.tasks t made) 0 (set_next (some t))) t 0 order 0
        (ground (arith, c.inner))
        (λ i inside. ground (arith, c.unlinked, elem-ne t i order, elem-ne 0 i order, v.distinct))
        v.path,
  );
  distinct = ground (arith, v.distinct, c.unlinked, c.inner);
  bounded = λ i inside. ground (arith, v.bounded i, c.in_table);
  members = λ i lt. ground (arith, v.members i);
  current_in = ground (arith, v.current_in);
  current_runs = ground (arith, v.current_runs, v.current_in, c.inner, c.unlinked, v.idle);
  alone = λ i inside e. ground (arith, v.alone i);
  idle = ground (arith, v.idle, c.inner);
  unforced = ground (arith, v.unforced, c.inner);
  left = λ i inside e. ground (arith, v.left i, c.inner);
  named = omega (arith, v.named);
}
  where
    v : IsSound s order
    v = c.sound

module _ {Mem : Type 0} (stacks : Stacks Mem) (s : Sched Mem) (order : List ℕ)
    (v : IsSound s order) where
  -- Where `claim_slot` finds a slot it is a claim; it never faults.
  IsClaimed : Option ℕ × Sched Mem → Type 0
  IsClaimed (none, s') = (s' ≡ s)
  IsClaimed (some t, s') = (order' : List ℕ) × IsClaim s' order' t × (s'.next_id ≡ s.next_id)

  claim_slot-IsClaimed : (r : Option ℕ × Sched Mem) × (claim_slot stacks s ≡ done r) × IsClaimed r
  unfolding claim_slot IsClaimed
  claim_slot-IsClaimed = elim (Option-cases (find_slot (λ i. (s.tasks i).id == 0) 7 1)) [
    | inr (t, e) ↦
        let found = find_slot-some (λ i. (s.tasks i).id == 0) 7 1 t e in
        (
          (some t, s),
          rw (e, claim_slot),
          (
            order,
            record {
              sound = v;
              inner = omega (arith, found.1);
              in_table = omega (arith, found.2);
              unlinked = ground (arith, v.members t, found);
            },
            refl,
          ),
        )
    | inl all_used ↦
        let old = λ (i : ℕ). is_zombie (s.tasks i).state && not ((s.tasks i).id == 0) in
        elim (Option-cases (find_slot old 7 1)) [
          | inl no_zombie ↦ ((none, s), rw (all_used, no_zombie, claim_slot), refl)
          | inr (t, e) ↦
              let found = find_slot-some old 7 1 t e in
              let other : t ≢ s.current =
                λ same. ground (arith, found, v.current_runs, ap (λ i. (s.tasks i).state) same) in
              let (s', dropped, how, sound) =
                drop_task-IsSound stacks s order v t other (omega (arith, found.1))
                  (omega (arith, found.2)) in
              (
                (some t, s'),
                rw (all_used, e, dropped, claim_slot),
                (
                  without t order,
                  record {
                    sound = sound;
                    inner = omega (arith, found.1);
                    in_table = omega (arith, found.2);
                    unlinked = ground (arith, elem-without t t order v.distinct.1);
                  },
                  how.same_id,
                ),
              )
        ]
  ]

  -- No slot, or no stack: the ring is as sound as before. Otherwise the new task stands next to slot
  -- 0 in the ring, ready to run `entry` on `arg` under the id that is returned.
  abbrev pub IsCreated : ℕ → ℕ → Option ℕ × Sched Mem → Type 0
  IsCreated entry arg (none, s') = (order' : List ℕ) × IsSound s' order' × (s'.next_id ≡ s.next_id)
  IsCreated entry arg (some id, s') =
      (t : ℕ) × (order' : List ℕ) × IsSound s' (t ∷ order')
      × (id ≡ s.next_id)
      × ((s'.tasks t).id ≡ id)
      × ((s'.tasks t).state ≡ ready)
      × ((s'.tasks t).entry ≡ entry)
      × ((s'.tasks t).arg ≡ arg)
      × (s'.next_id ≡ id + 1)

  restack-IsSound :
      (s1 : Sched Mem) (order1 : List ℕ) (t stack_base : ℕ) (mem : Mem)
      → IsSound s1 order1
      → IsSound (set_stack stacks t stack_base mem s1) order1
  unfolding set_stack
  restack-IsSound s1 order1 t stack_base mem v1 = record {
    path =
        IsPath-ext s1.tasks (update s1.tasks t (record (s1.tasks t) { stack_base = stack_base })) 0
          order1 0 (λ i inside. ground arith) v1.path;
    distinct = v1.distinct;
    bounded = v1.bounded;
    members = λ i lt. ground (arith, v1.members i);
    current_in = v1.current_in;
    current_runs = ground (arith, v1.current_runs);
    alone = λ i inside e. ground (arith, v1.alone i);
    idle = ground (arith, v1.idle);
    unforced = v1.unforced;
    left = λ i inside e. ground (arith, v1.left i);
    named = v1.named;
  }

  link_new :
      (name : Option (List ℕ)) (entry arg stack_base : ℕ)
      → s.next_id + 1 < 2 ^ 32
      → (t : ℕ) (s1 : Sched Mem) (order1 : List ℕ) (mem : Mem) → IsClaim s1 order1 t
      → s1.next_id ≡ s.next_id
      → IsCreated entry arg (
        some s1.next_id,
        link_task stacks t
            (new_task stacks name entry arg s1.next_id stack_base (s1.tasks 0).next)
            mem
            s1,
      )
  unfolding new_task link_task
  link_new name entry arg stack_base fits t s1 order1 mem c same_id =
      let made = new_task stacks name entry arg s1.next_id stack_base (s1.tasks 0).next in
      (
        t,
        order1,
        insert-IsSound stacks s1 order1 t made mem c refl (omega (arith, c.sound.named)) refl refl
            (omega (arith, same_id)),
        same_id,
        ground (arith, c.inner),
        ground (arith, c.inner),
        ground (arith, c.inner),
        ground (arith, c.inner),
        omega (arith, same_id),
      )

  -- `task_create` neither faults nor halts, and does what `IsCreated` says.
  pub task_create-IsCreated :
      (name : Option (List ℕ)) (entry arg : ℕ)
      → s.next_id + 1 < 2 ^ 32
      → (r : Option ℕ × Sched Mem) × (task_create stacks name entry arg s ≡ done r)
        × IsCreated entry arg r
  unfolding task_create IsClaimed set_stack
  task_create-IsCreated name entry arg fits = use_claim (claim_slot-IsClaimed)
    where
      use_claim :
          ((r : Option ℕ × Sched Mem) × (claim_slot stacks s ≡ done r) × IsClaimed r)
          → (r : Option ℕ × Sched Mem) × (task_create stacks name entry arg s ≡ done r)
            × IsCreated entry arg r
      use_claim ((none, s1), e, same) = (
        (none, s1),
        rw (e, task_create),
        (order, rw same v, ap (λ (q : Sched Mem). q.next_id) same),
      )
      use_claim ((some t, s1), e, (order1, c, same_id)) =
          let got = stacks.virt_alloc_pages 8 s1.mem in
          elim (Bool-cases (got.0 == 0)) [
            | inl no_stack ↦ (
              (none, set_stack stacks t (got.0) (got.1) s1),
              rw (e, no_stack, task_create),
              (order1, restack-IsSound s1 order1 t (got.0) (got.1) c.sound, same_id),
            )
            | inr stack ↦
                let made = new_task stacks name entry arg s1.next_id (got.0) (s1.tasks 0).next in
                (
                  (some s1.next_id, link_task stacks t made (got.1) s1),
                  rw (e, stack, task_create),
                  link_new name entry arg (got.0) fits t s1 order1 (got.1) c same_id,
                )
          ]
