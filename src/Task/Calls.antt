-- ===== src/Task/Calls.antt =====
-- kernel/task.c: any sequence of calls of the scheduler keeps its invariant, and none faults or
-- halts.
use Prim.Native.Nat.{◌<◌}
use tg11_os.Prelude.{
  ℕ, ◌+◌, ◌≤◌, Bool, false, not, ◌&&◌, ◌||◌, Option, List, [], ◌∷◌, ◌==◌, if◌then◌else◌, ◌≡◌, ◌≢◌,
  refl, ap, arith, Bool-cases, Option-cases, inl, inr,
}
use tg11_os.Prelude.Distinct.{without}
use tg11_os.Task.{
  ready, stopped, Sched, Stacks, Run, done, ◌>>=◌, task_max, is_ready, is_running, is_stopped,
  find_slot, str_eq,
}
use tg11_os.Task.Walks.{find_slot-some}
use tg11_os.Task.Sound.{IsSound, set_state-IsSound, protect-IsSound}
use tg11_os.Task.Drop.{drop_task-IsSound}
use tg11_os.Task.Ops.{
  find_task_by_id, is_protected_task, drop_task, task_create, task_kill, task_reap_zombies,
  task_kill_all, task_stop, task_continue, task_set_protection_by_id, task_set_protection_by_name,
  task_set_preemption, task_yield, task_exit, task_preempt_tick,
}

-- What a task, or the timer, can call. A user program's exit goes through `exit` too.
pub data Call : Type 0 where
  create : Option (List ℕ) → ℕ → ℕ → Call
  kill stop continue : ℕ → Call
  protect : ℕ → Bool → Call
  protect_name : List ℕ → Bool → Call
  set_preemption : Bool → Call
  kill_all reap yield tick exit : Call

module _ {Mem : Type 0} (stacks : Stacks Mem) where
  unfoldable pub run : Call → Sched Mem → Run (Sched Mem)
  run (create name entry arg) s = task_create stacks name entry arg s >>= λ r. done (r.1)
  run (kill id) s = task_kill stacks id s >>= λ r. done (r.1)
  run (stop id) s = done (task_stop id s).1
  run (continue id) s = done (task_continue id s).1
  run (protect id enabled) s = done (task_set_protection_by_id id enabled s).1
  run (protect_name name enabled) s = done (task_set_protection_by_name name enabled s).1
  run (set_preemption enabled) s = done (task_set_preemption enabled s)
  run kill_all s = task_kill_all stacks s >>= λ r. done (r.1)
  run reap s = task_reap_zombies stacks s
  run yield s = task_yield s
  run tick s = task_preempt_tick s
  run exit s = task_exit s

  unfoldable pub run_all : List Call → Sched Mem → Run (Sched Mem)
  run_all [] s = done s
  run_all (c ∷ cs) s = run c s >>= λ s'. run_all cs s'

  -- The run ends in a sound state that has used at most `n` ids more than `s`.
  pub record IsRun (n : ℕ) (s : Sched Mem) (r : Run (Sched Mem)) : Type 0 where
    pub out : Sched Mem
    pub ring : List ℕ
    pub returns : r ≡ done out
    pub sound : IsSound out ring
    pub ids : out.next_id ≤ s.next_id + n

  pub inner_of :
      (s : Sched Mem) (order : List ℕ) (t : ℕ)
      → IsSound s order
      → is_protected_task t s ≡ false
      → t ≢ 0
  unfolding is_protected_task
  inner_of s order t v free root = ground (arith, v.unforced, root)

  module _ (s : Sched Mem) (order : List ℕ) (v : IsSound s order) where
    pub same-IsRun : (n : ℕ) → IsRun n s (done s)
    same-IsRun n = record { out = s; ring = order; returns = refl; sound = v; ids = omega arith }

    pub drop-IsRun :
        (t : ℕ) → t ≢ s.current → t ≢ 0 → t < task_max → IsRun 0 s (drop_task stacks t s)
    drop-IsRun t other inner lt =
        let (s', e, how, sound) = drop_task-IsSound stacks s order v t other inner lt in
        record {
          out = s';
          ring = without t order;
          returns = e;
          sound = sound;
          ids = omega (arith, how.same_id);
        }

    pub moved-IsRun :
        (n : ℕ) (s' : Sched Mem) (order' : List ℕ)
        → IsSound s' order'
        → s'.next_id ≤ s.next_id + n
        → IsRun n s (done s')
    moved-IsRun n s' order' sound ids = record {
      out = s';
      ring = order';
      returns = refl;
      sound = sound;
      ids = ids;
    }

    pub kill-IsRun : (id : ℕ) → IsRun 1 s (run (kill id) s)
    unfolding run task_kill find_task_by_id
    kill-IsRun id =
        let test = λ (i : ℕ). (s.tasks i).id == id in
        elim (Option-cases (find_slot test task_max 0)) [
          | inl missing ↦ rw (missing, run, task_kill, find_task_by_id) (same-IsRun 1)
          | inr (t, e) ↦ elim (Bool-cases (is_protected_task t s || t == s.current)) [
            | inl refused ↦ rw (e, refused, run, task_kill, find_task_by_id) (same-IsRun 1)
            | inr allowed ↦
                let found = find_slot-some test task_max 0 t e in
                let dropped =
                  drop-IsRun t (ground arith) (inner_of s order t v (ground arith))
                    (omega (arith, found.2)) in
                rw (e, allowed, dropped.returns, run, task_kill, find_task_by_id)
                  (moved-IsRun 1 dropped.out dropped.ring dropped.sound
                    (omega (arith, dropped.ids)))
          ]
        ]

    pub stop-IsRun : (id : ℕ) → IsRun 1 s (done (task_stop id s).1)
    unfolding task_stop find_task_by_id
    stop-IsRun id =
        let test = λ (i : ℕ). (s.tasks i).id == id in
        elim (Option-cases (find_slot test task_max 0)) [
          | inl missing ↦ rw (missing, task_stop, find_task_by_id) (same-IsRun 1)
          | inr (t, e) ↦
              elim (Bool-cases (
                is_protected_task t s
                || (t == s.current
                    || not (is_ready (s.tasks t).state || is_running (s.tasks t).state)))) [
                      | inl refused ↦ rw (e, refused, task_stop, find_task_by_id) (same-IsRun 1)
                      | inr allowed ↦
                          rw (e, allowed, task_stop, find_task_by_id)
                            (moved-IsRun 1 _ order
                              (set_state-IsSound s order v t stopped (ground arith) (λ q. cc)
                                (λ q. ground (arith, q))
                                (λ q. absurd (inner_of s order t v (ground arith) q)))
                              (omega arith))
                    ]
        ]

    pub continue-IsRun : (id : ℕ) → IsRun 1 s (done (task_continue id s).1)
    unfolding task_continue find_task_by_id
    continue-IsRun id =
        let test = λ (i : ℕ). (s.tasks i).id == id in
        elim (Option-cases (find_slot test task_max 0)) [
          | inl missing ↦ rw (missing, task_continue, find_task_by_id) (same-IsRun 1)
          | inr (t, e) ↦ elim (Bool-cases (not (is_stopped (s.tasks t).state))) [
            | inl refused ↦ rw (e, refused, task_continue, find_task_by_id) (same-IsRun 1)
            | inr allowed ↦
                rw (e, allowed, task_continue, find_task_by_id)
                  (moved-IsRun 1 _ order
                    (set_state-IsSound s order v t ready
                      (λ q. ground (arith, v.current_runs, ap (λ i. (s.tasks i).state) q)) (λ q. cc)
                      (λ q. ground (arith, q)) (λ q. refl))
                    (omega arith))
          ]
        ]

    pub protect_call-IsRun :
        (id : ℕ) (enabled : Bool) → IsRun 1 s (done (task_set_protection_by_id id enabled s).1)
    unfolding task_set_protection_by_id find_task_by_id
    protect_call-IsRun id enabled =
        let test = λ (i : ℕ). (s.tasks i).id == id in
        elim (Bool-cases (id == 0)) [
          | inl idle ↦ rw (idle, task_set_protection_by_id) (same-IsRun 1)
          | inr named ↦ elim (Option-cases (find_slot test task_max 0)) [
            | inl missing ↦
                rw (named, missing, task_set_protection_by_id, find_task_by_id) (same-IsRun 1)
            | inr (t, e) ↦ elim (Bool-cases (t == 0)) [
              | inl root ↦
                  rw (named, e, root, task_set_protection_by_id, find_task_by_id) (same-IsRun 1)
              | inr inner ↦
                  rw (named, e, inner, task_set_protection_by_id, find_task_by_id)
                    (moved-IsRun 1 _ order
                      (protect-IsSound s order v t (if enabled then 1 else 2) (ground arith))
                      (omega arith))
            ]
          ]
        ]

    pub protect_name-IsRun :
        (name : List ℕ) (enabled : Bool)
        → IsRun 1 s (done (task_set_protection_by_name name enabled s).1)
    unfolding task_set_protection_by_name
    protect_name-IsRun [] enabled = same-IsRun 1
    protect_name-IsRun (c ∷ name) enabled =
        let test = λ (i : ℕ).
          not ((s.tasks i).id == 0) && (not (i == 0) && str_eq (s.tasks i).name (c ∷ name)) in
        elim (Option-cases (find_slot test task_max 0)) [
          | inl missing ↦ rw (missing, task_set_protection_by_name) (same-IsRun 1)
          | inr (t, e) ↦
              let found = find_slot-some test task_max 0 t e in
              rw (e, task_set_protection_by_name)
                (moved-IsRun 1 _ order
                  (protect-IsSound s order v t (if enabled then 1 else 2) (ground (arith, found)))
                  (omega arith))
        ]

    pub set_preemption-IsRun : (enabled : Bool) → IsRun 1 s (done (task_set_preemption enabled s))
    unfolding task_set_preemption
    set_preemption-IsRun enabled =
        moved-IsRun 1 _ order
          (record {
            path = v.path;
            distinct = v.distinct;
            bounded = v.bounded;
            members = v.members;
            current_in = v.current_in;
            current_runs = v.current_runs;
            alone = v.alone;
            idle = v.idle;
            unforced = v.unforced;
            left = v.left;
            named = v.named;
          })
          (omega arith)
