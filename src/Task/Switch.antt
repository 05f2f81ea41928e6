-- ===== src/Task/Switch.antt =====
-- kernel/task.c: `do_switch_to_next` picks the next ready task of the ring, and the callers that
-- give up the CPU.
use tg11_os.Prelude.{
  ℕ, ◌-◌, true, false, ◌||◌, some, List, ◌==◌, if◌then◌else◌, ◌≡◌, ◌≢◌, refl, sym, ap, ◌∙◌, arith,
  inl, inr, ==-ne,
}
use tg11_os.Prelude.Distinct.{elem}
use tg11_os.Task.{
  Task, State, ready, running, zombie, Resume, at_entry, in_yield, in_tick, in_exit, Sched, done,
  task_max, next_ready, is_ready, is_running, modify, set_state,
}
use tg11_os.Task.Ring.{IsPath, IsPath-ext}
use tg11_os.Task.Walks.{
  first_ready, IsPick, first_ready-IsPick, next_ready-first_ready, next_of, round_from,
  IsPath-round_from, elem-round_from, length-round_from,
}
use tg11_os.Task.Sound.{IsSound, ring_length}
use tg11_os.Task.Ops.{after_switch, task_switch, do_switch_to_next}

-- The count after the code behind a switch has run.
abbrev pub lowered : Resume → ℕ → ℕ
lowered in_tick count = count - 1
lowered _ count = count

-- What stands behind a switch keeps the invariant, except in `task_exit`.
record IsResumed {Mem : Type 0} (how : Resume) (s s' : Sched Mem) (order : List ℕ) : Type 0 where
  sound : IsSound s' order
  same_current : s'.current ≡ s.current
  count : s'.preempt_disable_count ≡ lowered how s.preempt_disable_count
  same_id : s'.next_id ≡ s.next_id
  same_mem : s'.mem ≡ s.mem
  same_user : s'.saved_rsp ≡ s.saved_rsp
  same_switch : s'.preempt_enabled ≡ s.preempt_enabled
  others : (i : ℕ) → i ≢ s.current → s'.tasks i ≡ s.tasks i

-- Marking the running task as running changes nothing that the invariant reads.
marked-IsSound :
    {Mem : Type 0} (s : Sched Mem) (order : List ℕ) (count : ℕ)
    → IsSound s order
    → IsSound
        (record s {
          tasks = modify s.tasks s.current (set_state running);
          preempt_disable_count = count;
        })
        order
marked-IsSound s order count v = record {
  path =
      IsPath-ext s.tasks (modify s.tasks s.current (set_state running)) 0 order 0
        (λ i inside. ground arith) v.path;
  distinct = v.distinct;
  bounded = v.bounded;
  members = λ i lt. ground (arith, v.members i);
  current_in = v.current_in;
  current_runs = ground arith;
  alone = λ i inside e. ground (arith, v.alone i);
  idle = ground (arith, v.idle);
  unforced = v.unforced;
  left = λ i inside e. ground (arith, v.left i, v.current_runs);
  named = v.named;
}

after_switch-IsResumed :
    {Mem : Type 0} (how : Resume) (s : Sched Mem) (order : List ℕ)
    → IsSound s order
    → how ≢ in_exit
    → (s' : Sched Mem) × (after_switch how s ≡ done s') × IsResumed how s s' order
unfolding after_switch
after_switch-IsResumed at_entry s order v ne = (
  s,
  refl,
  record {
    sound = v;
    same_current = refl;
    count = refl;
    same_id = refl;
    same_mem = refl;
    same_user = refl;
    same_switch = refl;
    others = λ i ne. ground arith;
  },
)
after_switch-IsResumed in_yield s order v ne = (
  record s { tasks = modify s.tasks s.current (set_state running) },
  refl,
  record {
    sound = marked-IsSound s order s.preempt_disable_count v;
    same_current = refl;
    count = refl;
    same_id = refl;
    same_mem = refl;
    same_user = refl;
    same_switch = refl;
    others = λ i ne. ground arith;
  },
)
after_switch-IsResumed in_tick s order v ne = (
  record s {
    tasks = modify s.tasks s.current (set_state running);
    preempt_disable_count = s.preempt_disable_count - 1;
  },
  refl,
  record {
    sound = marked-IsSound s order (s.preempt_disable_count - 1) v;
    same_current = refl;
    count = refl;
    same_id = refl;
    same_mem = refl;
    same_user = refl;
    same_switch = refl;
    others = λ i ne. ground arith;
  },
)
after_switch-IsResumed in_exit s order v ne = absurd (ne refl)

module _ {Mem : Type 0} (how : Resume) (old n next : ℕ) (s : Sched Mem)
    (e : (s.tasks old).next ≡ some n) (w : next_ready task_max old n s.tasks ≡ done next) where
  do_switch_away :
      (next == old) ≡ false
      → do_switch_to_next how old s
        ≡ task_switch how old next
            (record s { tasks = modify s.tasks next (set_state running); current = next })
  unfolding do_switch_to_next
  do_switch_away other = ground (arith, e, w, other)

  do_switch_back :
      (next == old) ≡ true
      → (is_ready (s.tasks old).state || is_running (s.tasks old).state) ≡ true
      → do_switch_to_next how old s
        ≡ after_switch how
            (record s { tasks = modify s.tasks old (set_state running); current = old })
  unfolding do_switch_to_next
  do_switch_back same live = ground (arith, e, w, same, live)

-- The task that a switch picks, once the current one has the state `st`.
abbrev pub chosen : {Mem : Type 0} → Sched Mem → List ℕ → State → ℕ
chosen s order st =
    first_ready (modify s.tasks s.current (set_state st)) (round_from s.current order) s.current

-- The switch from `s`, whose current task is left with the state `st` in its caller `how`.
pub record IsSwitched {Mem : Type 0} (s : Sched Mem) (order : List ℕ) (st : State) (how : Resume)
    (s' : Sched Mem) : Type 0 where
  pub sound : IsSound s' order
  pub picked : s'.current ≡ chosen s order st
  pub count :
      s'.preempt_disable_count
      ≡ lowered
          (if chosen s order st == s.current then how else (s.tasks (chosen s order st)).resume)
          s.preempt_disable_count
  pub same_id : s'.next_id ≡ s.next_id
  pub same_mem : s'.mem ≡ s.mem
  pub same_user : s'.saved_rsp ≡ s.saved_rsp
  pub same_switch : s'.preempt_enabled ≡ s.preempt_enabled
  -- A task that gives up the CPU is left in this state, in its caller; only a ready one keeps it.
  pub left_state : chosen s order st ≢ s.current → (s'.tasks s.current).state ≡ st
  pub left_in : chosen s order st ≢ s.current → (s'.tasks s.current).resume ≡ how
  pub kept_ready : chosen s order st ≡ s.current → st ≡ ready
  pub others : (i : ℕ) → i ≢ s.current → i ≢ chosen s order st → s'.tasks i ≡ s.tasks i

module _ {Mem : Type 0} (s : Sched Mem) (order : List ℕ) (v : IsSound s order) (st : State)
    (calm : st ≢ running) where
  abbrev pick : ℕ
  pick = chosen s order st

  abbrev rested : Sched Mem
  rested = record s { tasks = modify s.tasks s.current (set_state st) }

  chosen-IsPick : IsPick rested.tasks (round_from s.current order) s.current pick
  chosen-IsPick = first_ready-IsPick rested.tasks (round_from s.current order) s.current

  rested-IsPath : IsPath rested.tasks 0 order 0
  rested-IsPath = IsPath-ext s.tasks rested.tasks 0 order 0 (λ i inside. ground arith) v.path

  -- The walk of the switch ends at the pick task.
  walk :
      (n : ℕ)
      → (rested.tasks s.current).next ≡ some n
      → next_ready task_max s.current n rested.tasks ≡ done pick
  walk n e =
      next_ready-first_ready task_max s.current n s.current (round_from s.current order)
        rested.tasks
        (omega (arith, ring_length s order v, length-round_from s.current order v.current_in))
        (IsPath-round_from rested.tasks s.current order rested-IsPath v.current_in)
        (ground (arith, elem-round_from s.current s.current order v.distinct v.current_in)) e

  -- The pick task is made the running one, and the old one left in its caller.
  handed_over : Resume → Sched Mem
  handed_over how = record rested {
    tasks =
        modify (modify rested.tasks pick (set_state running)) s.current
          (λ t. record t { resume = how });
    current = pick;
  }

  module _ (how : Resume) (root_ready : s.current ≡ 0 → st ≡ ready)
      (exit_zombie : how ≡ in_exit → st ≡ zombie) where
    handed_over-IsSound :
        pick ≢ s.current
        → elem pick (round_from s.current order) ≡ true
        → is_ready (rested.tasks pick).state ≡ true
        → IsSound (handed_over how) order
    unfolding handed_over
    handed_over-IsSound other inside ready' = record {
      path = IsPath-ext s.tasks (handed_over how).tasks 0 order 0 (λ i inside. ground arith) v.path;
      distinct = v.distinct;
      bounded = v.bounded;
      members = λ i lt. ground (arith, v.members i);
      current_in = ground (arith, elem-round_from pick s.current order v.distinct v.current_in);
      current_runs = ground arith;
      alone = λ i inside e. ground (arith, v.alone i);
      idle = ground (arith, v.idle);
      unforced = v.unforced;
      left = λ i inside e. ground (arith, v.left i);
      named = v.named;
    }

    -- Where no other task is ready, slot 0 goes on.
    stays-IsSound :
        pick ≡ s.current
        → ((i : ℕ)
            → elem i (round_from s.current order) ≡ true
            → is_ready (rested.tasks i).state ≡ false)
        → (st ≡ ready)
          × IsSound
              (record rested {
                tasks = modify rested.tasks s.current (set_state running);
                current = s.current;
              })
              order
    stays-IsSound same none_ready =
        let root : s.current ≡ 0 = ground (
          arith,
          elem-round_from 0 s.current order v.distinct v.current_in,
          none_ready 0,
          v.idle,
          v.alone 0,
        ) in
        (
          root_ready root,
          record {
            path =
                IsPath-ext s.tasks (modify rested.tasks s.current (set_state running)) 0 order 0
                  (λ i inside. ground arith) v.path;
            distinct = v.distinct;
            bounded = v.bounded;
            members = λ i lt. ground (arith, v.members i);
            current_in = v.current_in;
            current_runs = ground arith;
            alone = λ i inside e. ground (arith, v.alone i);
            idle = ground (arith, v.idle);
            unforced = v.unforced;
            left = λ i inside e. ground (arith, v.left i, v.current_runs);
            named = v.named;
          },
        )

    hands_over :
        (n : ℕ)
        → (rested.tasks s.current).next ≡ some n
        → pick ≢ s.current
        → do_switch_to_next how s.current rested
          ≡ after_switch (s.tasks pick).resume (handed_over how)
    unfolding handed_over task_switch
    hands_over n next other =
        let resumed : (modify rested.tasks pick (set_state running) pick).resume
            ≡ (s.tasks pick).resume =
          ground arith in
        do_switch_away how s.current n pick rested next (walk n next) (==-ne pick s.current other)
        ∙ ap (λ r. after_switch r (handed_over how)) resumed

    goes_on :
        (n : ℕ)
        → (rested.tasks s.current).next ≡ some n
        → pick ≡ s.current
        → st ≡ ready
        → do_switch_to_next how s.current rested
          ≡ after_switch how (record rested {
            tasks = modify rested.tasks s.current (set_state running);
            current = s.current;
          })
    goes_on n next same is_ready' =
        do_switch_back how s.current n pick rested next (walk n next) (ground arith) (ground arith)

    -- From a sound state the switch ends at the pick task, without a fault or a halt.
    pub do_switch-IsSwitched :
        (s' : Sched Mem) × (do_switch_to_next how s.current rested ≡ done s')
        × IsSwitched s order st how s'
    unfolding handed_over
    do_switch-IsSwitched =
        let (n, next) =
          next_of rested.tasks s.current (round_from s.current order) s.current
            (IsPath-round_from rested.tasks s.current order rested-IsPath v.current_in) in
        elim chosen-IsPick [
          | inl (inside, is_ready') ↦
              let other : pick ≢ s.current =
                ground (arith, elem-round_from pick s.current order v.distinct v.current_in) in
              let lives : (s.tasks pick).resume ≢ in_exit = λ e. ground (
                arith,
                v.left pick,
                elem-round_from pick s.current order v.distinct v.current_in,
              ) in
              let (s', e, r) =
                after_switch-IsResumed (s.tasks pick).resume (handed_over how) order
                  (handed_over-IsSound other inside is_ready') lives in
              (
                s',
                hands_over n next other ∙ e,
                record {
                  sound = r.sound;
                  picked = r.same_current;
                  count = rw (==-ne pick s.current other) r.count;
                  same_id = r.same_id;
                  same_mem = r.same_mem;
                  same_user = r.same_user;
                  same_switch = r.same_switch;
                  left_state = λ ne.
                      ap (λ (t : Task). t.state) (r.others s.current (λ e. other (sym e)))
                      ∙ ground arith;
                  left_in = λ ne.
                      ap (λ (t : Task). t.resume) (r.others s.current (λ e. other (sym e)))
                      ∙ ground arith;
                  kept_ready = λ same. absurd (other same);
                  others = λ i ne away. r.others i away ∙ ground arith;
                },
              )
          | inr (same, none_ready) ↦
              let (is_ready', sound) = stays-IsSound same none_ready in
              let (s', e, r) =
                after_switch-IsResumed how
                  (record rested {
                    tasks = modify rested.tasks s.current (set_state running);
                    current = s.current;
                  })
                  order sound (λ e. cc (exit_zombie e, is_ready')) in
              let here : (pick == s.current) ≡ true = ground arith in
              (
                s',
                goes_on n next same is_ready' ∙ e,
                record {
                  sound = r.sound;
                  picked = r.same_current ∙ sym same;
                  count = rw here r.count;
                  same_id = r.same_id;
                  same_mem = r.same_mem;
                  same_user = r.same_user;
                  same_switch = r.same_switch;
                  left_state = λ ne. absurd (ne same);
                  left_in = λ ne. absurd (ne same);
                  kept_ready = λ _. is_ready';
                  others = λ i ne away. r.others i ne ∙ ground arith;
                },
              )
        ]
