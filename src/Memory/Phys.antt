-- ===== src/Memory/Phys.antt =====
-- kernel/memory.c: what `phys_alloc_pages` and `phys_free_pages` do to the bitmap and the count.
use Prim.Native.Nat.{◌<◌}
use tg11_os.Prelude.{
  ℕ, zero, suc, ◌+◌, ◌-◌, ◌*◌, ◌≤◌, ◌^◌, Bool, false, ◌&&◌, none, some, ltb, leb, if◌then◌else◌,
  ◌≡◌, ◌⊎◌, refl, ap, arith, Option-cases, inl, inr, u64,
}
use tg11_os.Memory.{
  Memory, max_pages, page_size, page_is_free, page_mark_used, mark_used_from, phys_alloc_pages,
  find_run, take_run,
}
use tg11_os.Memory.Bitmap.{bit_is_clear-set_bit}
use tg11_os.Memory.Runs.{IsFreeRun, IsFirstFit, IsFreeRun-at, find_run-IsFirstFit}
use mathlib.Core.Path.{subst}
use tg11_os.Memory.Counts.{count_free, count_free-le, count_free_without}

-- `free_page_count` is the number of clear bits of the bitmap.
pub record IsValid (m : Memory) : Type 0 where
  pub counted : m.free_page_count ≡ count_free max_pages (page_is_free m)

abbrev pub is_within : ℕ → ℕ → ℕ → Bool
is_within first n q = leb first q && ltb q (first + n)

-- Only the bitmap changes.
pub mark_used_from-frame :
    (left page : ℕ) (m : Memory)
    → mark_used_from left page m
      ≡ record m { phys_bitmap = (mark_used_from left page m).phys_bitmap }
unfolding mark_used_from
mark_used_from-frame zero page m = refl
mark_used_from-frame (suc left) page m =
    mark_used_from-frame left (page + 1) (page_mark_used page m)

pub page_is_free-mark_used_from :
    (left page : ℕ) (m : Memory) (q : ℕ)
    → page_is_free (mark_used_from left page m) q
      ≡ (if is_within page left q then false else page_is_free m q)
unfolding mark_used_from
page_is_free-mark_used_from zero page m q = ground arith
page_is_free-mark_used_from (suc left) page m q = ground (
  arith,
  page_is_free-mark_used_from left (page + 1) (page_mark_used page m) q,
  bit_is_clear-set_bit m.phys_bitmap page q,
)

count_free-mark_used_from :
    (left page : ℕ) (m : Memory)
    → page + left ≤ max_pages
    → IsFreeRun (page_is_free m) page left
    → count_free max_pages (page_is_free (mark_used_from left page m)) + left
      ≡ count_free max_pages (page_is_free m)
unfolding mark_used_from
count_free-mark_used_from zero page m fits free = omega arith
count_free-mark_used_from (suc left) page m fits free =
    let m' = page_mark_used page m in
    omega (
      arith,
      count_free-mark_used_from left (page + 1) m' (omega arith) λ i lt. ground (
        arith,
        bit_is_clear-set_bit m.phys_bitmap page (page + 1 + i),
        IsFreeRun-at (page_is_free m) page (suc left) (page + 1 + i) free,
      ),
      count_free_without max_pages (page_is_free m) (page_is_free m') page (omega arith)
          (IsFreeRun-at (page_is_free m) page (suc left) page free (omega arith) (omega arith))
          (ground (arith, bit_is_clear-set_bit m.phys_bitmap page page))
          (λ q ne. ground (arith, bit_is_clear-set_bit m.phys_bitmap page q)),
    )

-- What `phys_alloc_pages count` does to `m` where it finds pages, the first of them `start`.
pub record IsAllocated (count start : ℕ) (m : Memory) (result : ℕ × Memory) : Type 0 where
  pub address : result.0 ≡ start * page_size
  pub in_range : start + count ≤ max_pages
  pub were_free : IsFreeRun (page_is_free m) start count
  pub first_fit : (t : ℕ) → t < start → ¬ IsFreeRun (page_is_free m) t count
  pub pages :
      (q : ℕ)
      → page_is_free result.1 q ≡ (if is_within start count q then false else page_is_free m q)
  pub count_falls : result.1.free_page_count + count ≡ m.free_page_count
  pub rest_unchanged :
      result.1
      ≡ record m { phys_bitmap = result.1.phys_bitmap; free_page_count = result.1.free_page_count }
  pub valid : IsValid result.1

abbrev pub HasNoFit : ℕ → Memory → Type 0
HasNoFit count m = (t : ℕ) → t + count ≤ max_pages → ¬ IsFreeRun (page_is_free m) t count

take_run-IsAllocated :
    (count start : ℕ) (m : Memory)
    → IsValid m
    → IsFirstFit (page_is_free m) count max_pages (some start)
    → IsAllocated count start m (take_run count start m)
unfolding take_run
take_run-IsAllocated count start m v (in_range, were_free, first_fit) =
    let m' = mark_used_from count start m in
    let kept = ap (λ (k : Memory). k.free_page_count) (mark_used_from-frame count start m) in
    let counts = count_free-mark_used_from count start m in_range were_free in
    let bound = count_free-le max_pages (page_is_free m) in
    record {
      address = omega arith;
      in_range = in_range;
      were_free = were_free;
      first_fit = first_fit;
      pages = page_is_free-mark_used_from count start m;
      count_falls = omega (arith, v.counted);
      rest_unchanged =
          ap
            (λ (k : Memory). record k {
              free_page_count = u64 (m'.free_page_count + 2 ^ 64 - count);
            })
            (mark_used_from-frame count start m);
      valid = record { counted = omega (arith, v.counted) };
    }

alloc_found :
    (count start : ℕ) (m : Memory)
    → 0 < count
    → IsValid m
    → find_run (page_is_free m) count max_pages 0 0 0 ≡ some start
    → IsAllocated count start m (phys_alloc_pages count m)
unfolding phys_alloc_pages
alloc_found count start m pos v found =
    let fit =
      subst (IsFirstFit (page_is_free m) count max_pages) found
        (find_run-IsFirstFit (page_is_free m) count max_pages pos) in
    let taken : phys_alloc_pages count m ≡ take_run count start m = ground arith in
    rw taken (take_run-IsAllocated count start m v fit)

alloc_full :
    (count : ℕ) (m : Memory)
    → 0 < count
    → find_run (page_is_free m) count max_pages 0 0 0 ≡ none
    → phys_alloc_pages count m ≡ (0, m)
unfolding phys_alloc_pages
alloc_full count m pos e = ground arith

-- From a valid state `phys_alloc_pages` either takes the first run of `count` free pages below
-- `max_pages`, marks exactly those pages used and lowers the free count by `count`, or returns 0
-- with the state unchanged, and then there is no such run.
pub phys_alloc_pages_lem :
    (count : ℕ) (m : Memory)
    → 0 < count
    → IsValid m
    → ((phys_alloc_pages count m ≡ (0, m)) × HasNoFit count m)
      ⊎ ((start : ℕ) × IsAllocated count start m (phys_alloc_pages count m))
phys_alloc_pages_lem count m pos v =
    elim (Option-cases (find_run (page_is_free m) count max_pages 0 0 0)) [
      | inl e ↦ inl (
        alloc_full count m pos e,
        subst (IsFirstFit (page_is_free m) count max_pages) e
            (find_run-IsFirstFit (page_is_free m) count max_pages pos),
      )
      | inr (start, e) ↦ inr (start, alloc_found count start m pos v e)
    ]
