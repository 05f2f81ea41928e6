-- ===== src/Task/Runs.antt =====
-- kernel/task.c: the loops over the table, and the invariant for every sequence of calls.
use Prim.Native.Nat.{◌<◌}
use tg11_os.Prelude.{
  ℕ, zero, suc, ◌+◌, ◌≤◌, ◌^◌, true, not, ◌||◌, Option, none, some, List, [], ◌∷◌, ltb, ◌==◌,
  if◌then◌else◌, ◌≡◌, ◌≢◌, refl, sym, ap, ◌∙◌, arith, length, Bool-cases, inl, inr, ==-eq,
}
use tg11_os.Task.{Sched, Stacks, Run, done, ◌>>=◌, task_max, is_zombie}
use tg11_os.Task.Sound.{IsSound}
use tg11_os.Task.Create.{task_create-IsCreated, IsCreated}
use tg11_os.Task.Yield.{task_yield-IsSwitched, task_exit-IsSwitched, task_preempt_tick_lem}
use tg11_os.Task.Ops.{
  is_protected_task, drop_task, task_create, reap_from, task_reap_zombies, kill_from, task_kill_all,
  task_exit, task_preempt_tick, task_init,
}
use tg11_os.Task.Calls.{
  Call, create, kill, stop, continue, protect, protect_name, set_preemption, kill_all, reap, yield,
  tick, exit, run, run_all, IsRun, same-IsRun, drop-IsRun, moved-IsRun, kill-IsRun, stop-IsRun,
  continue-IsRun, protect_call-IsRun, protect_name-IsRun, set_preemption-IsRun,
}

module _ {Mem : Type 0} (stacks : Stacks Mem) where
  -- A run goes on from where another ended.
  then-IsRun :
      (s : Sched Mem) (r : Run (Sched Mem)) (f : Sched Mem → Run (Sched Mem)) (m n k : ℕ)
      → m + n ≤ k
      → IsRun stacks m s r
      → ((s' : Sched Mem) (order : List ℕ)
          → IsSound s' order
          → s'.next_id ≤ s.next_id + m
          → IsRun stacks n s' (f s'))
      → IsRun stacks k s (r >>= f)
  then-IsRun s r f m n k fits first rest =
      let next = rest first.out first.ring first.sound first.ids in
      record {
        out = next.out;
        ring = next.ring;
        returns = ap (λ q. q >>= f) first.returns ∙ next.returns;
        sound = next.sound;
        ids = omega (arith, first.ids, next.ids);
      }

  weaken-IsRun : (s : Sched Mem) (r : Run (Sched Mem)) → IsRun stacks 0 s r → IsRun stacks 1 s r
  weaken-IsRun s r h = record {
    out = h.out;
    ring = h.ring;
    returns = h.returns;
    sound = h.sound;
    ids = omega (arith, h.ids);
  }

  reap_one-IsRun :
      (i : ℕ) (s : Sched Mem) (order : List ℕ)
      → IsSound s order
      → i ≢ 0
      → i < task_max
      → IsRun stacks 0 s (
          if i == s.current || ((s.tasks i).id == 0 || not (is_zombie (s.tasks i).state))
          then done s
          else drop_task stacks i s)
  reap_one-IsRun i s order v inner lt =
      elim (Bool-cases
        (i == s.current || ((s.tasks i).id == 0 || not (is_zombie (s.tasks i).state)))) [
          | inl skipped ↦ rw skipped (same-IsRun stacks s order v 0)
          | inr old ↦ rw old (drop-IsRun stacks s order v i (ground arith) inner lt)
        ]

  reap_from-IsRun :
      (left i : ℕ) (s : Sched Mem) (order : List ℕ)
      → IsSound s order
      → i ≢ 0
      → i + left ≤ task_max
      → IsRun stacks 0 s (reap_from stacks left i s)
  unfolding reap_from
  reap_from-IsRun zero i s order v inner fits = same-IsRun stacks s order v 0
  reap_from-IsRun (suc left) i s order v inner fits =
      then-IsRun s _ (reap_from stacks left (i + 1)) 0 0 0 (omega arith)
        (reap_one-IsRun i s order v inner (omega arith))
        (λ s' order' v' ids. reap_from-IsRun left (i + 1) s' order' v' (omega arith) (omega arith))

  kill_from-IsRun :
      (left i killed : ℕ) (s : Sched Mem) (order : List ℕ)
      → IsSound s order
      → i ≢ 0
      → i + left ≤ task_max
      → IsRun stacks 0 s (kill_from stacks left i killed s >>= λ r. done (r.1))
  unfolding kill_from
  kill_from-IsRun zero i killed s order v inner fits = same-IsRun stacks s order v 0
  kill_from-IsRun (suc left) i killed s order v inner fits =
      elim (Bool-cases (i == s.current || ((s.tasks i).id == 0 || is_protected_task i s))) [
        | inl spared ↦
            rw spared (kill_from-IsRun left (i + 1) killed s order v (omega arith) (omega arith))
        | inr chosen ↦
            let dropped = drop-IsRun stacks s order v i (ground arith) inner (omega arith) in
            let rest =
              kill_from-IsRun left (i + 1) (killed + 1) dropped.out dropped.ring dropped.sound
                (omega arith) (omega arith) in
            record {
              out = rest.out;
              ring = rest.ring;
              returns = rw (chosen, dropped.returns) rest.returns;
              sound = rest.sound;
              ids = omega (arith, dropped.ids, rest.ids);
            }
      ]

  exit-IsRun : (s : Sched Mem) (order : List ℕ) → IsSound s order → IsRun stacks 0 s (task_exit s)
  unfolding task_exit
  exit-IsRun s order v = elim (Bool-cases (s.saved_rsp == 0)) [
    | inr user ↦ rw user (
        moved-IsRun stacks s order v 0 (record s { saved_rsp = 0 }) order
          (record {
            path = v.path;
            distinct = v.distinct;
            bounded = v.bounded;
            members = v.members;
            current_in = v.current_in;
            current_runs = v.current_runs;
            alone = v.alone;
            idle = v.idle;
            unforced = v.unforced;
            left = v.left;
            named = v.named;
          })
          (omega arith))
    | inl kernel ↦ elim (Bool-cases (s.current == 0)) [
      | inl root ↦ rw (kernel, root) (same-IsRun stacks s order v 0)
      | inr other ↦
          let (s', e, _, _, _, r) =
            task_exit-IsSwitched s order v (==-eq _ _ kernel) (ground arith) in
          record {
            out = s';
            ring = order;
            returns = sym (ground arith) ∙ e;
            sound = r.sound;
            ids = omega (arith, r.same_id);
          }
    ]
  ]

  tick_off :
      (s : Sched Mem)
      → (not s.preempt_enabled || (ltb 0 s.preempt_disable_count || not (s.saved_rsp == 0))) ≡ true
      → task_preempt_tick s ≡ done s
  unfolding task_preempt_tick
  tick_off s off = ground arith

  tick-IsRun :
      (s : Sched Mem) (order : List ℕ) → IsSound s order → IsRun stacks 0 s (task_preempt_tick s)
  tick-IsRun s order v =
      elim (Bool-cases
        (not s.preempt_enabled || (ltb 0 s.preempt_disable_count || not (s.saved_rsp == 0)))) [
          | inl off ↦ record {
            out = s;
            ring = order;
            returns = tick_off s off;
            sound = v;
            ids = omega arith;
          }
          | inr on ↦
              elim (task_preempt_tick_lem s order v (ground arith) (ground arith) (ground arith)) [
                | inl (same, e) ↦ record {
                  out = s;
                  ring = order;
                  returns = e;
                  sound = v;
                  ids = omega arith;
                }
                | inr (other, (s', e, r)) ↦ record {
                  out = s';
                  ring = order;
                  returns = e;
                  sound = r.sound;
                  ids = omega (arith, r.same_id);
                }
              ]
        ]

  create-IsRun :
      (s : Sched Mem) (order : List ℕ) (name : Option (List ℕ)) (entry arg : ℕ)
      → IsSound s order
      → s.next_id + 1 < 2 ^ 32
      → IsRun stacks 1 s (run stacks (create name entry arg) s)
  unfolding run
  create-IsRun s order name entry arg v fits =
      created (task_create-IsCreated stacks s order v name entry arg fits)
    where
      created :
          (r : Option ℕ × Sched Mem) × (task_create stacks name entry arg s ≡ done r)
            × IsCreated stacks s order v entry arg r
          → IsRun stacks 1 s (run stacks (create name entry arg) s)
      created ((none, s'), e, (order', sound, ids)) =
          rw e (moved-IsRun stacks s order v 1 s' order' sound (omega (arith, ids)))
      created ((some id, s'), e, (t, order', sound, named, _, _, _, _, ids)) =
          rw e (moved-IsRun stacks s order v 1 s' (t ∷ order') sound (omega (arith, named, ids)))

  -- A call from a sound state, with an id left to give out, returns in a sound state.
  run-IsRun :
      (c : Call) (s : Sched Mem) (order : List ℕ)
      → IsSound s order
      → s.next_id + 1 < 2 ^ 32
      → IsRun stacks 1 s (run stacks c s)
  unfolding run task_kill_all task_reap_zombies
  run-IsRun (create name entry arg) s order v fits = create-IsRun s order name entry arg v fits
  run-IsRun (kill id) s order v fits = kill-IsRun stacks s order v id
  run-IsRun (stop id) s order v fits = stop-IsRun stacks s order v id
  run-IsRun (continue id) s order v fits = continue-IsRun stacks s order v id
  run-IsRun (protect id enabled) s order v fits = protect_call-IsRun stacks s order v id enabled
  run-IsRun (protect_name name enabled) s order v fits =
      protect_name-IsRun stacks s order v name enabled
  run-IsRun (set_preemption enabled) s order v fits = set_preemption-IsRun stacks s order v enabled
  run-IsRun kill_all s order v fits =
      weaken-IsRun s _ (kill_from-IsRun 7 1 0 s order v (omega arith) (omega arith))
  run-IsRun reap s order v fits =
      weaken-IsRun s _ (reap_from-IsRun 7 1 s order v (omega arith) (omega arith))
  run-IsRun yield s order v fits =
      let (s', e, r) = task_yield-IsSwitched s order v in
      record {
        out = s';
        ring = order;
        returns = e;
        sound = r.sound;
        ids = omega (arith, r.same_id);
      }
  run-IsRun tick s order v fits = weaken-IsRun s _ (tick-IsRun s order v)
  run-IsRun exit s order v fits = weaken-IsRun s _ (exit-IsRun s order v)

  -- From a sound state every sequence of calls and ticks in which no tick falls inside a call
  -- returns, without a fault or a halt, in a sound state, as long as there are ids for it.
  pub run_all-IsRun :
      (calls : List Call) (s : Sched Mem) (order : List ℕ)
      → IsSound s order
      → s.next_id + length calls < 2 ^ 32
      → IsRun stacks (length calls) s (run_all stacks calls s)
  unfolding run_all
  run_all-IsRun [] s order v fits = same-IsRun stacks s order v 0
  run_all-IsRun (c ∷ calls) s order v fits =
      then-IsRun s (run stacks c s) (run_all stacks calls) 1 (length calls) (suc (length calls))
        (omega arith) (run-IsRun c s order v (omega arith))
        (λ s' order' v' ids. run_all-IsRun calls s' order' v' (omega (arith, ids)))

module _ {Mem : Type 0} where
  -- What `task_init` leaves.
  pub init-IsSound : (s : Sched Mem) → 0 < s.next_id → IsSound (task_init s) []
  unfolding task_init
  init-IsSound s named = record {
    path = refl;
    distinct = ground arith;
    bounded = λ i inside. ground arith;
    members = λ i lt. ground arith;
    current_in = refl;
    current_runs = refl;
    alone = λ i inside e. ground arith;
    idle = refl;
    unforced = refl;
    left = λ i inside e. ground arith;
    named = named;
  }
