-- ===== src/Memory/Runs.antt =====
-- kernel/memory.c: the scan for pages in a row is first fit.
use Prim.Native.Nat.{◌<◌}
use tg11_os.Prelude.{
  ℕ, zero, suc, ◌+◌, ◌-◌, ◌≤◌, Bool, true, false, Option, none, some, ◌==◌, if◌then◌else◌, ◌≡◌, ◌≢◌,
  refl, arith, Bool-cases, inl, inr, ==-eq,
}
use mathlib.Core.Path.{subst}
use native.Mathlib.Decide.{dec_lt}
use tg11_os.Memory.{find_run}

abbrev pub IsFreeRun : (ℕ → Bool) → ℕ → ℕ → Type 0
IsFreeRun is_free s n = (i : ℕ) → i < n → is_free (s + i) ≡ true

-- The least page at which `count` free pages below `limit` begin, or that there is none.
abbrev pub IsFirstFit : (ℕ → Bool) → ℕ → ℕ → Option ℕ → Type 0
IsFirstFit is_free count limit none = (t : ℕ) → t + count ≤ limit → ¬ IsFreeRun is_free t count
IsFirstFit is_free count limit (some s) =
    (s + count ≤ limit)
    × IsFreeRun is_free s count
    × ((t : ℕ) → t < s → ¬ IsFreeRun is_free t count)

pub IsFreeRun-at : (f : ℕ → Bool) (s n q : ℕ) → IsFreeRun f s n → s ≤ q → q < s + n → f q ≡ true
IsFreeRun-at f s n q h le lt =
    let here : s + (q - s) ≡ q = omega arith in rw here at (h (q - s) (omega arith))

module _ (is_free : ℕ → Bool) (count limit : ℕ) where
  -- At the head of the loop the pages from `base` on are free up to `page`, and no fit begins
  -- below `base`.
  record IsScanning (page run start base : ℕ) : Type 0 where
    reached : base + run ≡ page
    short : run < count
    begun : run ≢ 0 → start ≡ base
    free_so_far : IsFreeRun is_free base run
    none_below : (t : ℕ) → t < base → ¬ IsFreeRun is_free t count

  extend-IsFreeRun :
      (base run page : ℕ)
      → base + run ≡ page
      → IsFreeRun is_free base run
      → is_free page ≡ true
      → IsFreeRun is_free base (run + 1)
  extend-IsFreeRun base run page e h f i lt = elim (dec_lt i run) [
    | yes below ↦ h i below
    | no last ↦ let here : base + i ≡ page = omega arith in rw here f
  ]

  -- No fit begins at or before a used page unless it ends before it.
  none_across :
      (page run start base t : ℕ)
      → IsScanning page run start base
      → is_free page ≡ false
      → t < page + 1
      → ¬ IsFreeRun is_free t count
  none_across page run start base t s used lt h = elim (dec_lt t base) [
    | yes below ↦ s.none_below t below h
    | no above ↦
        let here : t + (page - t) ≡ page = omega (arith, s.reached) in
        cc (used, rw here at (h (page - t) (omega (arith, s.reached, s.short))))
  ]

  find_run-IsScanning :
      (left page run start base : ℕ)
      → page + left ≡ limit
      → IsScanning page run start base
      → IsFirstFit is_free count limit (find_run is_free count left page run start)
  unfolding find_run
  find_run-IsScanning zero page run start base e s =
      λ t fits. s.none_below t (omega (arith, s.reached, s.short))
  find_run-IsScanning (suc left) page run start base e s =
      let begun : (if run == 0 then page else start) ≡ base = ground (arith, s.begun, s.reached) in
      elim (Bool-cases (is_free page)) [
        | inr used ↦
            rw (used, find_run)
              (find_run-IsScanning left (page + 1) 0 start (page + 1) (omega arith) (record {
                reached = omega arith;
                short = omega (arith, s.short);
                begun = λ ne. absurd (ne refl);
                free_so_far = λ i lt. absurd (omega arith);
                none_below = λ t lt. none_across page run start base t s used lt;
              }))
        | inl free ↦ elim (Bool-cases (run + 1 == count)) [
          | inl full ↦
              let e' : run + 1 ≡ count = ==-eq _ _ full in
              rw (free, full, begun, find_run)
                (
                  omega (arith, s.reached),
                  subst (IsFreeRun is_free base) e'
                      (extend-IsFreeRun base run page s.reached s.free_so_far free),
                  s.none_below,
                )
          | inr more ↦
              rw (free, more, find_run)
                (find_run-IsScanning left (page + 1) (run + 1) (if run == 0 then page else start)
                  base (omega arith)
                  (record {
                    reached = omega (arith, s.reached);
                    short = ground (arith, s.short);
                    begun = λ _. begun;
                    free_so_far = extend-IsFreeRun base run page s.reached s.free_so_far free;
                    none_below = s.none_below;
                  }))
        ]
      ]

-- Started at page 0, the scan is first fit.
pub find_run-IsFirstFit :
    (is_free : ℕ → Bool) (count limit : ℕ)
    → 0 < count
    → IsFirstFit is_free count limit (find_run is_free count limit 0 0 0)
find_run-IsFirstFit is_free count limit pos =
    find_run-IsScanning is_free count limit limit 0 0 0 0 (omega arith) (record {
      reached = omega arith;
      short = pos;
      begun = λ _. refl;
      free_so_far = λ i lt. absurd (omega arith);
      none_below = λ t lt. absurd (omega arith);
    })
