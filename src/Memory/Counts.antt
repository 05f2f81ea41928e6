-- ===== src/Memory/Counts.antt =====
-- kernel/memory.c: how many pages of a bitmap are free, as a reference for `free_page_count`.
use Prim.Native.Nat.{◌<◌}
use tg11_os.Prelude.{
  ℕ, zero, suc, ◌+◌, ◌≤◌, Bool, true, false, if◌then◌else◌, ◌≡◌, ◌≢◌, refl, ap, ap₂, arith,
}
use native.Mathlib.Decide.{dec_lt}

pub count_free : ℕ → (ℕ → Bool) → ℕ
count_free zero is_free = 0
count_free (suc n) is_free = count_free n is_free + (if is_free n then 1 else 0)

pub count_free-le : (n : ℕ) (f : ℕ → Bool) → count_free n f ≤ n
unfolding count_free
count_free-le zero f = omega arith
count_free-le (suc n) f = ground (arith, count_free-le n f)

pub count_free_ext :
    (n : ℕ) (f g : ℕ → Bool) → ((i : ℕ) → i < n → f i ≡ g i) → count_free n f ≡ count_free n g
unfolding count_free
count_free_ext zero f g h = refl
count_free_ext (suc n) f g h =
    ap₂ (λ c b. c + (if b then 1 else 0)) (count_free_ext n f g (λ i lt. h i (omega arith)))
      (h n (omega arith))

pub count_free_none : (n : ℕ) (f : ℕ → Bool) → ((i : ℕ) → f i ≡ false) → count_free n f ≡ 0
unfolding count_free
count_free_none zero f h = refl
count_free_none (suc n) f h = ground (arith, count_free_none n f h, h n)

-- Where `g` differs from `f` at the free page `p` alone, it counts one page less.
pub count_free_without :
    (n : ℕ) (f g : ℕ → Bool) (p : ℕ)
    → p < n
    → f p ≡ true
    → g p ≡ false
    → ((q : ℕ) → p ≢ q → g q ≡ f q)
    → count_free n g + 1 ≡ count_free n f
unfolding count_free
count_free_without zero f g p lt fp gp same = absurd (omega arith)
count_free_without (suc n) f g p lt fp gp same = elim (dec_lt p n) [
  | yes below ↦ ground (arith, count_free_without n f g p below fp gp same, same n (omega arith))
  | no last ↦
      let here : p ≡ n = omega arith in
      ground (arith, count_free_ext n g f (λ i i<n. same i (omega arith)), ap f here, ap g here)
]
