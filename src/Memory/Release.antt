-- ===== src/Memory/Release.antt =====
-- kernel/memory.c: what `phys_free_pages` does, and that it undoes `phys_alloc_pages`.
use Prim.Native.Nat.{◌<◌}
use tg11_os.Prelude.{
  ℕ, zero, suc, ◌+◌, ◌/◌, ◌^◌, true, not, ◌&&◌, ltb, ◌==◌, if◌then◌else◌, ◌≡◌, ◌≢◌, refl, sym, ◌∙◌,
  ap, arith, Bool-cases, inl, inr, u64,
}
use tg11_os.Memory.{
  Memory, max_pages, page_size, page_is_free, page_mark_free, phys_alloc_pages, free_one, free_from,
  phys_free_pages,
}
use tg11_os.Memory.Bitmap.{bit_is_clear-clear_bit}
use tg11_os.Memory.Counts.{count_free-le, count_free_ext, count_free_without}
use tg11_os.Memory.Runs.{IsFreeRun-at}
use tg11_os.Memory.Phys.{IsValid, IsAllocated, is_within, phys_alloc_pages_lem}

page_is_free-free_one :
    (page : ℕ) (m : Memory) (q : ℕ)
    → page_is_free (free_one page m) q
      ≡ (if page == q && ltb q max_pages then true else page_is_free m q)
unfolding free_one
page_is_free-free_one page m q =
    ground (arith, bit_is_clear-clear_bit m.phys_bitmap page q, ap (page_is_free m))

free_one-IsValid : (page : ℕ) (m : Memory) → IsValid m → IsValid (free_one page m)
unfolding free_one
free_one-IsValid page m v = elim (Bool-cases (ltb page max_pages && not (page_is_free m page))) [
  | inr same ↦ rw same v
  | inl used ↦ rw used (record {
    counted =
        let m' = page_mark_free page m in
        omega (
          arith,
          v.counted,
          count_free-le max_pages (page_is_free m'),
          count_free_without max_pages (page_is_free m') (page_is_free m) page (ground arith)
              (ground (arith, bit_is_clear-clear_bit m.phys_bitmap page page)) (ground arith)
              (λ q ne. ground (arith, bit_is_clear-clear_bit m.phys_bitmap page q)),
        );
  })
]

free_from-IsValid : (left page : ℕ) (m : Memory) → IsValid m → IsValid (free_from left page m)
unfolding free_from
free_from-IsValid zero page m v = v
free_from-IsValid (suc left) page m v =
    free_from-IsValid left (u64 (page + 1)) (free_one page m) (free_one-IsValid page m v)

-- `phys_free_pages` keeps the free count right, whatever address and count it is given.
pub phys_free_pages-IsValid :
    (phys_addr count : ℕ) (m : Memory) → IsValid m → IsValid (phys_free_pages phys_addr count m)
unfolding phys_free_pages
phys_free_pages-IsValid phys_addr count m v = free_from-IsValid count (phys_addr / page_size) m v

page_is_free-free_from :
    (left page : ℕ) (m : Memory) (q : ℕ)
    → page + left < 2 ^ 64
    → page_is_free (free_from left page m) q
      ≡ (if is_within page left q && ltb q max_pages then true else page_is_free m q)
unfolding free_from
page_is_free-free_from zero page m q fits = ground arith
page_is_free-free_from (suc left) page m q fits = ground (
  arith,
  page_is_free-free_from left (u64 (page + 1)) (free_one page m) q (omega arith),
  page_is_free-free_one page m q,
)

free_one-frame :
    (page : ℕ) (m : Memory)
    → free_one page m ≡ record m {
      phys_bitmap = (free_one page m).phys_bitmap;
      free_page_count = (free_one page m).free_page_count;
    }
unfolding free_one
free_one-frame page m = elim (Bool-cases (ltb page max_pages && not (page_is_free m page))) [
  | inl used ↦ rw used
  | inr same ↦ rw same
]

pub free_from-frame :
    (left page : ℕ) (m : Memory)
    → free_from left page m ≡ record m {
      phys_bitmap = (free_from left page m).phys_bitmap;
      free_page_count = (free_from left page m).free_page_count;
    }
unfolding free_from
free_from-frame zero page m = refl
free_from-frame (suc left) page m =
    let rest = free_from left (u64 (page + 1)) (free_one page m) in
    free_from-frame left (u64 (page + 1)) (free_one page m)
    ∙ ap
        (λ (k : Memory). record k {
          phys_bitmap = rest.phys_bitmap;
          free_page_count = rest.free_page_count;
        })
        (free_one-frame page m)

-- `phys_free_pages` marks the `count` pages from the one of `phys_addr` free, as far as they lie
-- below `max_pages`, and changes no other page, also where some of them were free before.
pub page_is_free-phys_free_pages :
    (phys_addr count : ℕ) (m : Memory) (q : ℕ)
    → phys_addr / page_size + count < 2 ^ 64
    → page_is_free (phys_free_pages phys_addr count m) q ≡ (
        if is_within (phys_addr / page_size) count q && ltb q max_pages
        then true
        else page_is_free m q)
unfolding phys_free_pages
page_is_free-phys_free_pages phys_addr count m q fits =
    page_is_free-free_from count (phys_addr / page_size) m q fits

restores :
    (count start : ℕ) (m : Memory) (r : ℕ × Memory)
    → count < 2 ^ 63
    → IsAllocated count start m r
    → (q : ℕ) → page_is_free (phys_free_pages r.0 count r.1) q ≡ page_is_free m q
restores count start m r small a q = elim (Bool-cases (is_within start count q)) [
  | inl inside ↦ ground (
    arith,
    a.address,
    a.in_range,
    page_is_free-phys_free_pages r.0 count r.1 q,
    a.pages q,
    IsFreeRun-at (page_is_free m) start count q a.were_free,
  )
  | inr outside ↦
      ground (arith, a.address, a.in_range, page_is_free-phys_free_pages r.0 count r.1 q, a.pages q)
]

-- After an allocation that did not return 0, freeing the pages that it returned gives back every
-- bit of the bitmap and the free count.
pub phys_free_pages-phys_alloc_pages :
    (count : ℕ) (m : Memory)
    → 0 < count
    → count < 2 ^ 63
    → IsValid m
    → (phys_alloc_pages count m).0 ≢ 0
    → let (addr, m') = phys_alloc_pages count m in
      ((q : ℕ) → page_is_free (phys_free_pages addr count m') q ≡ page_is_free m q)
      × ((phys_free_pages addr count m').free_page_count ≡ m.free_page_count)
phys_free_pages-phys_alloc_pages count m pos small v ne =
    elim (phys_alloc_pages_lem count m pos v) [
      | inl full ↦ absurd (ne (ap (λ (r : ℕ × Memory). r.0) full.0))
      | inr found ↦
          let r = phys_alloc_pages count m in
          let back = restores count found.0 m r small found.1 in
          let valid = phys_free_pages-IsValid r.0 count r.1 found.1.valid in
          let same =
            count_free_ext max_pages (page_is_free (phys_free_pages r.0 count r.1)) (page_is_free m)
              (λ i _. back i) in
          (back, valid.counted ∙ (same ∙ sym v.counted))
    ]
