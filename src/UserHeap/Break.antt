-- ===== src/UserHeap/Break.antt =====
-- kernel/task.c: what `task_user_heap_brk` does to the break.
use Prim.Native.Nat.{◌<◌}
use tg11_os.Prelude.{
  ℕ, zero, suc, ◌+◌, ◌≤◌, false, ◌||◌, ltb, leb, ◌==◌, if◌then◌else◌, ◌≡◌, refl, arith, Bool-cases,
  inl, inr, ◌⊎◌,
}
use tg11_os.Memory.{Memory, page_size}
use tg11_os.UserHeap.{UserHeap, rounds, grow_from, failed, move_break, task_user_heap_brk, map_one}

-- No heap is set up, or the break lies in it.
unfoldable pub IsHeap : UserHeap → Type 0
IsHeap h =
    (h.user_heap_base ≡ 0)
    ⊎ ((h.user_heap_base < h.user_heap_limit)
        × (h.user_heap_base ≤ h.user_heap_brk)
        × (h.user_heap_brk ≤ h.user_heap_limit))

-- The call fails and the bounds and the break stay, or the break is the new one, or for 0 the old
-- one, and it is returned.
pub record IsBreak (new_break : ℕ) (h : UserHeap) (r : ℕ × UserHeap) : Type 0 where
  pub outcome :
      ((r.0 ≡ failed) × (r.1.user_heap_brk ≡ h.user_heap_brk))
      ⊎ ((r.0 ≡ r.1.user_heap_brk)
          × (r.1.user_heap_brk ≡ (if new_break == 0 then h.user_heap_brk else new_break)))
  pub same_base : r.1.user_heap_base ≡ h.user_heap_base
  pub same_limit : r.1.user_heap_limit ≡ h.user_heap_limit
  pub still_heap : IsHeap r.1

failed-IsBreak :
    (new_break : ℕ) (h : UserHeap) (m : Memory)
    → IsHeap h
    → IsBreak new_break h (failed, record h { memory = m })
unfolding IsHeap
failed-IsBreak new_break h m v = record {
  outcome = inl (refl, refl);
  same_base = refl;
  same_limit = refl;
  still_heap = v;
}

kept-IsBreak :
    (new_break : ℕ) (h : UserHeap)
    → IsHeap h
    → h.user_heap_brk ≡ (if new_break == 0 then h.user_heap_brk else new_break)
    → IsBreak new_break h (h.user_heap_brk, h)
kept-IsBreak new_break h v e = record {
  outcome = inr (refl, e);
  same_base = refl;
  same_limit = refl;
  still_heap = v;
}

moved-IsBreak :
    (new_break : ℕ) (h : UserHeap) (m : Memory)
    → h.user_heap_base < h.user_heap_limit
    → (new_break == 0) ≡ false
    → h.user_heap_base ≤ new_break
    → new_break ≤ h.user_heap_limit
    → IsBreak new_break h (new_break, record h { user_heap_brk = new_break; memory = m })
unfolding IsHeap
moved-IsBreak new_break h m wide positive above below = record {
  outcome = inr (refl, ground (arith, positive));
  same_base = refl;
  same_limit = refl;
  still_heap = inr (wide, above, below);
}

-- `task_user_heap_brk` keeps the break within the heap, on every path.
pub task_user_heap_brk-IsBreak :
    (new_break : ℕ) (h : UserHeap) → IsHeap h → IsBreak new_break h (task_user_heap_brk new_break h)
unfolding task_user_heap_brk
task_user_heap_brk-IsBreak new_break h v =
    elim (Bool-cases (h.user_heap_base == 0 || leb h.user_heap_limit h.user_heap_base)) [
      | inl none_set ↦ rw (none_set, task_user_heap_brk) (failed-IsBreak new_break h h.memory v)
      | inr set ↦ elim (Bool-cases (new_break == 0)) [
        | inl asked ↦
            rw (set, asked, task_user_heap_brk) (kept-IsBreak new_break h v (ground (arith, asked)))
        | inr positive ↦
            elim (Bool-cases (ltb new_break h.user_heap_base || ltb h.user_heap_limit new_break)) [
              | inl outside ↦
                  rw (set, positive, outside, task_user_heap_brk)
                    (failed-IsBreak new_break h h.memory v)
              | inr inside ↦ elim (Bool-cases (new_break == h.user_heap_brk)) [
                | inl same ↦
                    rw (set, positive, inside, same, task_user_heap_brk)
                      (kept-IsBreak new_break h v (ground (arith, positive, same)))
                | inr other ↦ elim (Bool-cases (move_break new_break h).0) [
                  | inr refused ↦
                      rw (set, positive, inside, other, refused, task_user_heap_brk)
                        (failed-IsBreak new_break h (move_break new_break h).1 v)
                  | inl done ↦
                      rw (set, positive, inside, other, done, task_user_heap_brk)
                        (moved-IsBreak new_break h (move_break new_break h).1 (ground (arith, set))
                          positive (ground (arith, inside)) (ground (arith, inside)))
                ]
              ]
            ]
      ]
    ]

no_rounds : (page end : ℕ) → rounds page end ≤ 0 → end ≤ page
no_rounds page end le = omega (arith, le)

fewer_rounds : (page end : ℕ) → page < end → suc (rounds (page + page_size) end) ≤ rounds page end
fewer_rounds page end lt = omega arith

-- The loops end at their own condition: any fuel from the number of pages on gives the same.
pub grow_from-fuel :
    (m n map_from page map_to : ℕ) (memory : Memory)
    → rounds page map_to ≤ m
    → rounds page map_to ≤ n
    → grow_from m map_from page map_to memory ≡ grow_from n map_from page map_to memory
unfolding grow_from
grow_from-fuel zero zero map_from page map_to memory le le' = refl
grow_from-fuel zero (suc n) map_from page map_to memory le le' =
    let ended : ltb page map_to ≡ false = ground (arith, no_rounds page map_to le) in
    ground (arith, ended)
grow_from-fuel (suc m) zero map_from page map_to memory le le' =
    let ended : ltb page map_to ≡ false = ground (arith, no_rounds page map_to le') in
    ground (arith, ended)
grow_from-fuel (suc m) (suc n) map_from page map_to memory le le' =
    elim (Bool-cases (ltb page map_to)) [
      | inr ended ↦ ground (arith, ended)
      | inl going ↦ elim (Bool-cases (map_one page memory).0) [
        | inr refused ↦ ground (arith, going, refused)
        | inl mapped ↦
            let fewer = fewer_rounds page map_to (ground (arith, going)) in
            ground (
              arith,
              going,
              mapped,
              grow_from-fuel m n map_from (page + page_size) map_to (map_one page memory).1
                  (omega (arith, fewer, le)) (omega (arith, fewer, le')),
            )
      ]
    ]
