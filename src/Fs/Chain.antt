-- ===== src/Fs/Chain.antt =====
-- kernel/fs.c: the list of a directory's children, and the walks along it.
use tg11_os.Prelude.{
  ℕ, zero, suc, ◌≤◌, true, false, Option, none, some, List, [], ◌∷◌, ◌==◌, length, ◌≡◌, ◌≢◌, refl,
  sym, ap, ◌∙◌, arith, Bool-cases, inl, inr, ==-eq,
}
use mathlib.Core.Path.{subst}
use tg11_os.Prelude.Distinct.{elem, IsDistinct, without, elem-ne}
use tg11_os.Fs.{Node, str_eq, find_from, unlink_from, modify}

-- The siblings from `o` on are the nodes `xs`.
abbrev pub IsChain : (ℕ → Node) → Option ℕ → List ℕ → Type 0
IsChain nodes o [] = (o ≡ none)
IsChain nodes o (x ∷ xs) = (o ≡ some x) × IsChain nodes (nodes x).next_sibling xs

pub IsChain-ext :
    (f g : ℕ → Node) (o : Option ℕ) (xs : List ℕ)
    → ((i : ℕ) → elem i xs ≡ true → (g i).next_sibling ≡ (f i).next_sibling)
    → IsChain f o xs
    → IsChain g o xs
IsChain-ext f g o [] same h = h
IsChain-ext f g o (x ∷ xs) same h = (
  h.0,
  subst (λ q. IsChain g q xs) (sym (same x (ground arith)))
      (IsChain-ext f g (f x).next_sibling xs (λ i inside. same i (ground arith)) h.1),
)

pub find_from-some :
    (nodes : ℕ → Node) (fuel : ℕ) (o : Option ℕ) (xs : List ℕ) (name : List ℕ) (i : ℕ)
    → IsChain nodes o xs
    → find_from fuel o name nodes ≡ some i
    → (elem i xs ≡ true) × (str_eq (nodes i).name name ≡ true)
unfolding find_from
find_from-some nodes fuel o [] name i h e = ground (arith, h, e)
find_from-some nodes zero o (x ∷ xs) name i h e = ground (arith, h, e)
find_from-some nodes (suc fuel) o (x ∷ xs) name i h e =
    elim (Bool-cases (str_eq (nodes x).name name)) [
      | inl here ↦ ground (arith, h.0, e, here)
      | inr later ↦
          ground
            (arith, h.0, e, later, find_from-some nodes fuel (nodes x).next_sibling xs name i h.1)
    ]

-- With fuel for the whole list the walk passes every node of it.
pub find_from-none :
    (nodes : ℕ → Node) (fuel : ℕ) (o : Option ℕ) (xs : List ℕ) (name : List ℕ)
    → IsChain nodes o xs
    → length xs ≤ fuel
    → find_from fuel o name nodes ≡ none
    → (i : ℕ) → elem i xs ≡ true
    → str_eq (nodes i).name name ≡ false
unfolding find_from
find_from-none nodes fuel o [] name h le e i inside = ground (arith, inside)
find_from-none nodes zero o (x ∷ xs) name h le e i inside = ground (arith, le)
find_from-none nodes (suc fuel) o (x ∷ xs) name h le e i inside =
    elim (Bool-cases (str_eq (nodes x).name name)) [
      | inl here ↦ ground (arith, h.0, e, here)
      | inr later ↦ elim (Bool-cases (i == x)) [
        | inl same ↦ ap (λ j. str_eq (nodes j).name name) (==-eq i x same) ∙ later
        | inr other ↦
            find_from-none nodes fuel (nodes x).next_sibling xs name h.1 (omega arith)
              (ground (arith, h.0, e, later)) i (ground (arith, inside, other))
      ]
    ]

-- `q` now goes past `idx`.
abbrev pub skip_next : ℕ → ℕ → (ℕ → Node) → ℕ → Node
skip_next q idx nodes = modify nodes q (λ n. record n { next_sibling = (nodes idx).next_sibling })

IsChain-cons :
    (nodes : ℕ → Node) (q idx p x : ℕ) (xs : List ℕ)
    → (nodes p).next_sibling ≡ some x
    → p ≢ q
    → (x == idx) ≡ false
    → IsChain (skip_next q idx nodes) (skip_next q idx nodes x).next_sibling (without idx xs)
    → IsChain (skip_next q idx nodes) (skip_next q idx nodes p).next_sibling (without idx (x ∷ xs))
IsChain-cons nodes q idx p x xs link apart other chain =
    rw other (ground (arith, link, apart), chain)

-- The walk with `p` behind it takes `idx` out of the rest of the list.
pub unlink_from-elem :
    (nodes : ℕ → Node) (fuel idx parent p : ℕ) (o : Option ℕ) (xs : List ℕ)
    → IsChain nodes o xs
    → IsDistinct xs
    → elem p xs ≡ false
    → (nodes p).next_sibling ≡ o
    → length xs ≤ fuel
    → elem idx xs ≡ true
    → (q : ℕ) × (unlink_from fuel idx parent (some p) o nodes ≡ some (skip_next q idx nodes))
      × (elem q (p ∷ xs) ≡ true)
      × (q ≢ idx)
      × IsChain (skip_next q idx nodes) (skip_next q idx nodes p).next_sibling (without idx xs)
unfolding unlink_from
unlink_from-elem nodes fuel idx parent p o [] h d out link le inside = ground (arith, inside)
unlink_from-elem nodes zero idx parent p o (x ∷ xs) h d out link le inside = ground (arith, le)
unlink_from-elem nodes (suc fuel) idx parent p o (x ∷ xs) h d out link le inside =
    elim (Bool-cases (x == idx)) [
      | inl here ↦
          let same : x ≡ idx = ==-eq _ _ here in
          (
            p,
            ground (arith, h.0, here),
            ground arith,
            ground (arith, out, same),
            rw here (
                subst (λ a. IsChain (skip_next p idx nodes) a xs) (ground (arith, same))
                  (IsChain-ext nodes (skip_next p idx nodes) (nodes x).next_sibling xs
                    (λ i among. ground (arith, elem-ne p i xs, out)) h.1)),
          )
      | inr other ↦
          let (q, e, inside', apart, chain) =
            unlink_from-elem nodes fuel idx parent x (nodes x).next_sibling xs h.1 d.1 d.0 refl
              (omega arith) (ground (arith, inside, other)) in
          (
            q,
            ground (arith, h.0, other, e),
            ground (arith, inside'),
            apart,
            IsChain-cons nodes q idx p x xs (link ∙ h.0) (elem-ne p q (x ∷ xs) out inside') other
                chain,
          )
    ]
