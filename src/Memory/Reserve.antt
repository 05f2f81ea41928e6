-- ===== src/Memory/Reserve.antt =====
-- kernel/memory.c: what `virt_reserve_pages` gives out.
use Prim.Native.Nat.{◌<◌}
use mathlib.Core.Path.{subst}
use tg11_os.Prelude.{
  ℕ, zero, suc, ◌+◌, ◌*◌, ◌≤◌, Bool, true, false, not, if◌then◌else◌, ◌≡◌, ◌⊎◌, refl, arith,
  Option-cases, inl, inr,
}
use tg11_os.Memory.{Memory, page_size, bit_is_clear, set_bit, clear_bit, find_run}
use tg11_os.Memory.Bitmap.{bit_is_clear-set_bit, bit_is_clear-clear_bit}
use tg11_os.Memory.Runs.{IsFreeRun, IsFirstFit, find_run-IsFirstFit}
use tg11_os.Memory.Phys.{is_within}
use tg11_os.Memory.Virt.{
  virt_base, virt_pages, virt_limit, virt_of, virt_page_is_free, find_virtual_run, mark_virtual_run,
  virt_reserve_pages,
}

-- Exactly the pages of the run are marked, used or free.
pub bit_is_clear-mark_virtual_run :
    (left page : ℕ) (used : Bool) (bitmap : ℕ → ℕ) (q : ℕ)
    → bit_is_clear (mark_virtual_run left page used bitmap) q
      ≡ (if is_within page left q then not used else bit_is_clear bitmap q)
unfolding mark_virtual_run
bit_is_clear-mark_virtual_run zero page used bitmap q = ground arith
bit_is_clear-mark_virtual_run (suc left) page true bitmap q = ground (
  arith,
  bit_is_clear-mark_virtual_run left (page + 1) true (set_bit bitmap page) q,
  bit_is_clear-set_bit bitmap page q,
)
bit_is_clear-mark_virtual_run (suc left) page false bitmap q = ground (
  arith,
  bit_is_clear-mark_virtual_run left (page + 1) false (clear_bit bitmap page) q,
  bit_is_clear-clear_bit bitmap page q,
)

-- What `virt_reserve_pages count` does to `m` where it finds pages, the first of them `start`.
pub record IsReservedRun (count start : ℕ) (m : Memory) (result : ℕ × Memory) : Type 0 where
  pub address : result.0 ≡ virt_base + start * page_size
  pub in_range : result.0 + count * page_size ≤ virt_limit
  pub were_free : IsFreeRun (virt_page_is_free m) start count
  pub first_fit : (t : ℕ) → t < start → ¬ IsFreeRun (virt_page_is_free m) t count
  pub pages :
      (q : ℕ)
      → virt_page_is_free result.1 q
        ≡ (if is_within start count q then false else virt_page_is_free m q)
  pub rest_unchanged : result.1 ≡ record m { virt_bitmap = result.1.virt_bitmap }

-- `virt_reserve_pages` of a positive count either takes the first run of free pages in the range
-- and marks exactly those used, or returns 0 with the state unchanged, and then there is no run.
pub virt_reserve_pages_lem :
    (count : ℕ) (m : Memory)
    → 0 < count
    → ((virt_reserve_pages count m ≡ (0, m))
        × ((t : ℕ) → t + count ≤ virt_pages → ¬ IsFreeRun (virt_page_is_free m) t count))
      ⊎ ((start : ℕ) × IsReservedRun count start m (virt_reserve_pages count m))
unfolding virt_reserve_pages find_virtual_run
virt_reserve_pages_lem count m pos =
    let fit = find_run-IsFirstFit (virt_page_is_free m) count virt_pages pos in
    elim (Option-cases (find_run (virt_page_is_free m) count virt_pages 0 0 0)) [
      | inl full ↦
          inl (
            ground (arith, full),
            subst (IsFirstFit (virt_page_is_free m) count virt_pages) full fit,
          )
      | inr (start, e) ↦
          let (in_range, were_free, first_fit) =
            subst (IsFirstFit (virt_page_is_free m) count virt_pages) e fit in
          let marked = record m { virt_bitmap = mark_virtual_run count start true m.virt_bitmap } in
          let taken : virt_reserve_pages count m ≡ (virt_of start, marked) = ground (arith, e) in
          inr (
            start,
            rw taken (record {
              address = refl;
              in_range = omega arith;
              were_free = were_free;
              first_fit = first_fit;
              pages = λ q. bit_is_clear-mark_virtual_run count start true m.virt_bitmap q;
              rest_unchanged = refl;
            }),
          )
    ]
