-- ===== src/Memory/Init/Regions.antt =====
-- kernel/memory.c: which pages `release_region` and `reserve_region` touch.
use Prim.Native.Nat.{◌<◌}
use tg11_os.Prelude.{
  ℕ, zero, suc, ◌+◌, ◌-◌, ◌*◌, ◌/◌, ◌≤◌, ◌^◌, true, false, ◌&&◌, ltb, leb, ◌==◌, if◌then◌else◌, ◌≡◌,
  ap, arith, Bool-cases, inl, inr, u64, bit_and, not64,
}
use tg11_os.Prelude.Bits.{bit_and_high_mask, bit_and_low_mask}
use tg11_os.Memory.{
  Memory, max_pages, max_phys, page_size, page_is_free, page_mark_free, page_mark_used, align_up,
  align_down,
}
use tg11_os.Memory.Bitmap.{bit_is_clear-clear_bit, bit_is_clear-set_bit}
use tg11_os.Memory.Counts.{count_free-le, count_free_without}
use tg11_os.Memory.Phys.{IsValid, is_within}
use tg11_os.Memory.Init.{
  release_one, reserve_one, for_pages, rounds, release_region, reserve_region,
}

page_mask : (x : ℕ) → x < 2 ^ 64 → bit_and x (not64 4095) ≡ x / 4096 * 4096
page_mask x h = omega (arith, bit_and_high_mask 12 (2 ^ 52 - 1) x, bit_and_low_mask 52 (x / 2 ^ 12))

pub align_down-page : (x : ℕ) → x < 2 ^ 64 → align_down x page_size ≡ x / 4096 * 4096
unfolding align_down
align_down-page x h = page_mask x h

pub align_up-page : (x : ℕ) → x + 4095 < 2 ^ 64 → align_up x page_size ≡ (x + 4095) / 4096 * 4096
unfolding align_up
align_up-page x h = omega (arith, page_mask (u64 (u64 (x + 4096) + 2 ^ 64 - 1)) (omega arith))

module _ (m : Memory) (v : IsValid m) (page : ℕ) where
  release_one-IsValid : page < max_pages → IsValid (release_one page m)
  unfolding release_one
  release_one-IsValid lt = elim (Bool-cases (page_is_free m page)) [
    | inl same ↦ rw same v
    | inr used ↦ rw used (record {
      counted =
          let m' = page_mark_free page m in
          omega (
            arith,
            v.counted,
            count_free-le max_pages (page_is_free m'),
            count_free_without max_pages (page_is_free m') (page_is_free m) page lt
                (ground (arith, bit_is_clear-clear_bit m.phys_bitmap page page)) used
                (λ q ne. ground (arith, bit_is_clear-clear_bit m.phys_bitmap page q)),
          );
    })
  ]

  reserve_one-IsValid : IsValid (reserve_one page m)
  unfolding reserve_one
  reserve_one-IsValid = elim (Bool-cases (ltb page max_pages && page_is_free m page)) [
    | inr same ↦ rw same v
    | inl free ↦ rw free (record {
      counted =
          let m' = page_mark_used page m in
          omega (
            arith,
            v.counted,
            count_free-le max_pages (page_is_free m),
            count_free_without max_pages (page_is_free m) (page_is_free m') page (ground arith)
                (ground arith) (ground (arith, bit_is_clear-set_bit m.phys_bitmap page page))
                (λ q ne. ground (arith, bit_is_clear-set_bit m.phys_bitmap page q)),
          );
    })
  ]

page_is_free-release_one :
    (page : ℕ) (m : Memory) (q : ℕ)
    → page_is_free (release_one page m) q ≡ (if page == q then true else page_is_free m q)
unfolding release_one
page_is_free-release_one page m q =
    ground (arith, bit_is_clear-clear_bit m.phys_bitmap page q, ap (page_is_free m))

page_is_free-reserve_one :
    (page : ℕ) (m : Memory) (q : ℕ)
    → page_is_free (reserve_one page m) q
      ≡ (if page == q && ltb q max_pages then false else page_is_free m q)
unfolding reserve_one
page_is_free-reserve_one page m q =
    ground (arith, bit_is_clear-set_bit m.phys_bitmap page q, ap (page_is_free m))

release_pages :
    (left addr : ℕ) (m : Memory) (q : ℕ)
    → page_is_free (for_pages release_one left addr m) q
      ≡ (if is_within (addr / page_size) left q then true else page_is_free m q)
unfolding for_pages
release_pages zero addr m q = ground arith
release_pages (suc left) addr m q = ground (
  arith,
  release_pages left (addr + page_size) (release_one (addr / page_size) m) q,
  page_is_free-release_one (addr / page_size) m q,
)

reserve_pages :
    (left addr : ℕ) (m : Memory) (q : ℕ)
    → page_is_free (for_pages reserve_one left addr m) q
      ≡ (if is_within (addr / page_size) left q && ltb q max_pages then false else page_is_free m q)
unfolding for_pages
reserve_pages zero addr m q = ground arith
reserve_pages (suc left) addr m q = ground (
  arith,
  reserve_pages left (addr + page_size) (reserve_one (addr / page_size) m) q,
  page_is_free-reserve_one (addr / page_size) m q,
)

release_pages-IsValid :
    (left addr : ℕ) (m : Memory)
    → addr / page_size + left ≤ max_pages
    → IsValid m
    → IsValid (for_pages release_one left addr m)
unfolding for_pages
release_pages-IsValid zero addr m fits v = v
release_pages-IsValid (suc left) addr m fits v =
    release_pages-IsValid left (addr + page_size) (release_one (addr / page_size) m) (omega arith)
      (release_one-IsValid m v (addr / page_size) (omega arith))

reserve_pages-IsValid :
    (left addr : ℕ) (m : Memory) → IsValid m → IsValid (for_pages reserve_one left addr m)
unfolding for_pages
reserve_pages-IsValid zero addr m v = v
reserve_pages-IsValid (suc left) addr m v =
    reserve_pages-IsValid left (addr + page_size) (reserve_one (addr / page_size) m)
      (reserve_one-IsValid m v (addr / page_size))

-- `release_region` frees the pages below `max_pages` that lie wholly inside the region, and
-- changes no other page.
pub page_is_free-release_region :
    (start end : ℕ) (m : Memory) (q : ℕ)
    → page_is_free (release_region start end m) q ≡ (
        if leb start (q * page_size) && leb ((q + 1) * page_size) end && ltb q max_pages
        then true
        else page_is_free m q)
unfolding release_region
page_is_free-release_region start end m q =
    let last = align_down (if ltb max_phys end then max_phys else end) page_size in
    let first = align_up start page_size in
    elim (Bool-cases (leb max_phys start)) [
      | inl beyond ↦ rw beyond (ground arith)
      | inr below ↦
          let last_eq : last ≡ (if ltb max_phys end then max_phys else end) / 4096 * 4096 =
            align_down-page (if ltb max_phys end then max_phys else end) (ground arith) in
          let first_eq : first ≡ (start + 4095) / 4096 * 4096 =
            align_up-page start (ground arith) in
          rw below (ground (arith, release_pages (rounds first last) first m q, last_eq, first_eq))
    ]

align_up-wraps : (x : ℕ) → x < 2 ^ 64 → 2 ^ 64 ≤ x + 4095 → align_up x page_size ≡ 0
unfolding align_up
align_up-wraps x h w = omega (arith, page_mask (u64 (u64 (x + 4096) + 2 ^ 64 - 1)) (omega arith))

-- `reserve_region` marks used the pages below `max_pages` that the region touches, and changes no
-- other page. When the region ends in the last page of the address space, where the rounding wraps
-- round to 0, it changes no page at all.
pub page_is_free-reserve_region :
    (start end : ℕ) (m : Memory) (q : ℕ)
    → start < 2 ^ 64
    → end < 2 ^ 64
    → page_is_free (reserve_region start end m) q ≡ (
        if ltb start ((q + 1) * page_size)
          && ltb (q * page_size) end
          && (ltb q max_pages && ltb (end + 4095) (2 ^ 64))
        then false
        else page_is_free m q)
unfolding reserve_region
page_is_free-reserve_region start end m q hs he =
    let first = align_down start page_size in
    let last = align_up end page_size in
    let last' = if ltb max_phys last then max_phys else last in
    ground (
      arith,
      reserve_pages (rounds first last') first m q,
      align_down-page start hs,
      align_up-page end,
      align_up-wraps end he,
    )

pub release_region-IsValid :
    (start end : ℕ) (m : Memory) → IsValid m → IsValid (release_region start end m)
unfolding release_region
release_region-IsValid start end m v =
    let end' = if ltb max_phys end then max_phys else end in
    elim (Bool-cases (leb max_phys start)) [
      | inl beyond ↦ rw beyond v
      | inr below ↦ rw below (
          release_pages-IsValid (rounds (align_up start page_size) (align_down end' page_size))
            (align_up start page_size) m
            (ground
              (arith, align_up-page start (ground arith), align_down-page end' (ground arith)))
            v)
    ]

pub reserve_region-IsValid :
    (start end : ℕ) (m : Memory) → IsValid m → IsValid (reserve_region start end m)
unfolding reserve_region
reserve_region-IsValid start end m v =
    let last = align_up end page_size in
    let last' = if ltb max_phys last then max_phys else last in
    reserve_pages-IsValid (rounds (align_down start page_size) last') (align_down start page_size) m
      v
