-- ===== src/Prelude/Distinct.antt =====
-- Lists of distinct slots: the tables of the kernel link their slots into lists.
use Prim.Native.Nat.{◌<◌}
use tg11_os.Prelude.{
  ℕ, zero, suc, ◌≤◌, Bool, true, false, not, ◌&&◌, ◌||◌, List, [], ◌∷◌, ◌==◌, if◌then◌else◌, ◌≡◌,
  ◌≢◌, refl, ap, arith, length, Bool-cases, inl, inr,
}

abbrev pub elem : ℕ → List ℕ → Bool
elem i [] = false
elem i (x ∷ xs) = i == x || elem i xs

-- No slot stands twice in the list.
abbrev pub IsDistinct : List ℕ → Type 0
IsDistinct [] = Unit
IsDistinct (x ∷ xs) = (elem x xs ≡ false) × IsDistinct xs

abbrev pub without : ℕ → List ℕ → List ℕ
without t [] = []
without t (x ∷ xs) = if x == t then xs else x ∷ without t xs

pub elem-ne : (p q : ℕ) (xs : List ℕ) → elem p xs ≡ false → elem q xs ≡ true → p ≢ q
elem-ne p q xs out inside e = cc (ap (λ i. elem i xs) e)

pub without_absent : (t : ℕ) (xs : List ℕ) → elem t xs ≡ false → without t xs ≡ xs
without_absent t [] h = refl
without_absent t (x ∷ xs) h = ground (arith, without_absent t xs)

pub elem-without :
    (i t : ℕ) (xs : List ℕ) → IsDistinct xs → elem i (without t xs) ≡ (elem i xs && not (i == t))
elem-without i t [] d = refl
elem-without i t (x ∷ xs) d = ground (arith, elem-without i t xs d.1, elem-ne t i xs)

pub IsDistinct-without : (t : ℕ) (xs : List ℕ) → IsDistinct xs → IsDistinct (without t xs)
IsDistinct-without t [] d = d
IsDistinct-without t (x ∷ xs) d = elim (Bool-cases (x == t)) [
  | inl found ↦ rw found d.1
  | inr other ↦ rw other (ground (arith, elem-without x t xs d.1), IsDistinct-without t xs d.1)
]

pub length-without : (t : ℕ) (xs : List ℕ) → length (without t xs) ≤ length xs
length-without t [] = omega arith
length-without t (x ∷ xs) = ground (arith, length-without t xs)

pub length-le-without : (t : ℕ) (xs : List ℕ) → length xs ≤ suc (length (without t xs))
length-le-without t [] = omega arith
length-le-without t (x ∷ xs) = ground (arith, length-le-without t xs)

-- Distinct numbers below `n` are at most `n`.
pub length-IsDistinct :
    (n : ℕ) (xs : List ℕ) → IsDistinct xs → ((i : ℕ) → elem i xs ≡ true → i < n) → length xs ≤ n
length-IsDistinct zero [] d below = omega arith
length-IsDistinct zero (x ∷ xs) d below = absurd (omega (arith, below x (ground arith)))
length-IsDistinct (suc n) xs d below = omega (
  arith,
  length-le-without n xs,
  length-IsDistinct n (without n xs) (IsDistinct-without n xs d)
      (λ i inside. ground (arith, elem-without i n xs d, below i)),
)
