-- ===== src/Task/Yield.antt =====
-- kernel/task.c: the three ways in which a task gives up the CPU.
use tg11_os.Prelude.{
  ℕ, ◌+◌, true, false, some, List, ◌==◌, if◌then◌else◌, ◌≡◌, ◌≢◌, refl, sym, ap, ◌∙◌, arith,
  Bool-cases, inl, inr, ◌⊎◌, ==-eq, ==-ne,
}
use tg11_os.Task.{
  ready, running, zombie, Resume, at_entry, in_yield, in_tick, in_exit, Sched, done, task_max,
  next_ready, modify, set_state,
}
use tg11_os.Task.Walks.{
  first_ready-ext, next_ready-first_ready, next_of, round_from, IsPath-round_from, elem-round_from,
  length-round_from,
}
use tg11_os.Task.Sound.{IsSound, ring_length}
use tg11_os.Task.Ops.{do_switch_to_next, task_yield, task_exit, task_preempt_tick}
use tg11_os.Task.Switch.{IsSwitched, chosen, lowered, do_switch-IsSwitched}

ready-calm : ready ≢ running
ready-calm e = cc

zombie-calm : zombie ≢ running
zombie-calm e = cc

lowered-fresh : (how : Resume) (count : ℕ) → how ≢ in_tick → lowered how count ≡ count
lowered-fresh at_entry count ne = refl
lowered-fresh in_tick count ne = absurd (ne refl)
lowered-fresh _ count ne = refl

module _ {Mem : Type 0} (s : Sched Mem) (order : List ℕ) (v : IsSound s order) where
  -- `task_yield` hands the CPU to the first ready task of the ring after the caller, or leaves it
  -- with the caller if no other is ready. It neither faults nor halts, and keeps the invariant.
  pub task_yield-IsSwitched :
      (s' : Sched Mem) × (task_yield s ≡ done s') × IsSwitched s order ready in_yield s'
  unfolding task_yield
  task_yield-IsSwitched =
      do_switch-IsSwitched s order v ready ready-calm in_yield (λ _. refl) (λ e. cc)

  -- `task_exit` of a kernel task other than the first leaves it a zombie in its caller, which it
  -- does not go back to, and hands the CPU to the first ready task after it. There always is one:
  -- it never halts.
  pub task_exit-IsSwitched :
      s.saved_rsp ≡ 0
      → s.current ≢ 0
      → (s' : Sched Mem) × (task_exit s ≡ done s')
        × (s'.current ≢ s.current)
        × ((s'.tasks s.current).state ≡ zombie)
        × ((s'.tasks s.current).resume ≡ in_exit)
        × IsSwitched s order zombie in_exit s'
  unfolding task_exit
  task_exit-IsSwitched kernel other =
      let (s', e, r) =
        do_switch-IsSwitched s order v zombie zombie-calm in_exit (λ e. absurd (other e))
          (λ e. refl) in
      let away : chosen s order zombie ≢ s.current = λ same. absurd (cc (r.kept_ready same)) in
      (
        s',
        ground (arith, e),
        (λ same. away (sym r.picked ∙ same)),
        r.left_state away,
        r.left_in away,
        r,
      )

  -- The state in which `task_preempt_tick` switches.
  abbrev pub counted : Sched Mem
  counted = record s { preempt_disable_count = s.preempt_disable_count + 1 }

  counted-IsSound : IsSound counted order
  counted-IsSound = record {
    path = v.path;
    distinct = v.distinct;
    bounded = v.bounded;
    members = v.members;
    current_in = v.current_in;
    current_runs = v.current_runs;
    alone = v.alone;
    idle = v.idle;
    unforced = v.unforced;
    left = v.left;
    named = v.named;
  }

  abbrev pub tick_target : ℕ
  tick_target = chosen s order ready

  scan :
      (n : ℕ)
      → (s.tasks s.current).next ≡ some n
      → next_ready task_max s.current n s.tasks ≡ done tick_target
  scan n e =
      let rested = modify s.tasks s.current (set_state ready) in
      next_ready-first_ready task_max s.current n s.current (round_from s.current order) s.tasks
        (omega (arith, ring_length s order v, length-round_from s.current order v.current_in))
        (IsPath-round_from s.tasks s.current order v.path v.current_in)
        (ground (arith, elem-round_from s.current s.current order v.distinct v.current_in)) e
      ∙ ap done (
          first_ready-ext s.tasks rested (round_from s.current order) s.current
            (λ i inside. ground (arith, elem-round_from i s.current order v.distinct v.current_in)))

  switches :
      (n : ℕ)
      → (s.tasks s.current).next ≡ some n
      → (tick_target == s.current) ≡ false
      → s.preempt_enabled ≡ true
      → s.preempt_disable_count ≡ 0
      → s.saved_rsp ≡ 0
      → task_preempt_tick s
        ≡ do_switch_to_next in_tick s.current (record s {
          tasks = modify s.tasks s.current (set_state ready);
          preempt_disable_count = s.preempt_disable_count + 1;
        })
  unfolding task_preempt_tick
  switches n next other on count kernel = ground (arith, next, scan n next, other)

  -- With preemption on and no user program, a tick hands the CPU to the first ready task after the
  -- current one, and does nothing if there is none.
  pub task_preempt_tick_lem :
      s.preempt_enabled ≡ true
      → s.preempt_disable_count ≡ 0
      → s.saved_rsp ≡ 0
      → ((tick_target ≡ s.current) × (task_preempt_tick s ≡ done s))
        ⊎ ((tick_target ≢ s.current)
            × ((s' : Sched Mem) × (task_preempt_tick s ≡ done s')
                × IsSwitched counted order ready in_tick s'))
  unfolding task_preempt_tick
  task_preempt_tick_lem on count kernel =
      let (n, next) =
        next_of s.tasks s.current (round_from s.current order) s.current
          (IsPath-round_from s.tasks s.current order v.path v.current_in) in
      elim (Bool-cases (tick_target == s.current)) [
        | inl same ↦ inl (==-eq _ _ same, ground (arith, next, scan n next, same))
        | inr other ↦
            let (s', e, r) =
              do_switch-IsSwitched counted order counted-IsSound ready ready-calm in_tick
                (λ _. refl) (λ e. cc) in
            inr (ground (arith, other), (s', switches n next other on count kernel ∙ e, r))
      ]

  -- Once a tick has switched to a task that was not itself left in a tick, the count is 1, and the
  -- next tick does nothing.
  pub task_preempt_tick_twice :
      s.preempt_enabled ≡ true
      → s.preempt_disable_count ≡ 0
      → s.saved_rsp ≡ 0
      → tick_target ≢ s.current
      → (s.tasks tick_target).resume ≢ in_tick
      → (s' : Sched Mem) × (task_preempt_tick s ≡ done s')
        × (s'.current ≡ tick_target)
        × (s'.preempt_disable_count ≡ 1)
        × (task_preempt_tick s' ≡ done s')
  unfolding task_preempt_tick
  task_preempt_tick_twice on count kernel other fresh =
      let (n, next) =
        next_of s.tasks s.current (round_from s.current order) s.current
          (IsPath-round_from s.tasks s.current order v.path v.current_in) in
      let away : (tick_target == s.current) ≡ false = ==-ne _ _ other in
      let (s', e, r) =
        do_switch-IsSwitched counted order counted-IsSound ready ready-calm in_tick (λ _. refl)
          (λ e. cc) in
      let moved : lowered
            (if tick_target == s.current then in_tick else (s.tasks tick_target).resume)
            (s.preempt_disable_count + 1)
          ≡ lowered (s.tasks tick_target).resume (s.preempt_disable_count + 1) =
        ap
          (λ b.
            lowered (if b then in_tick else (s.tasks tick_target).resume)
              (s.preempt_disable_count + 1))
          away in
      let fresh' = lowered-fresh (s.tasks tick_target).resume (s.preempt_disable_count + 1) fresh in
      let raised : s'.preempt_disable_count ≡ 1 = omega (arith, r.count, moved, fresh', count) in
      (s', switches n next away on count kernel ∙ e, r.picked, raised, ground (arith, raised))
