-- ===== src/Fs/Resolve.antt =====
-- kernel/fs.c: what a path leads to.
use Prim.Native.Nat.{◌<◌}
use tg11_os.Prelude.{
  ℕ, zero, suc, ◌+◌, ◌≤◌, Bool, true, false, not, Option, none, some, List, [], ◌∷◌, ◌==◌,
  if◌then◌else◌, length, ◌≡◌, refl, ap, arith, Bool-cases, Option-cases, inl, inr,
}
use tg11_os.Fs.{Node, str_eq, str_copy, fs_name_max, fs_max_nodes, find_child, find_from}
use tg11_os.Fs.Paths.{
  slash, skip_slashes, take_part, start_of, step, resolve_from, resolve_path, result,
}

-- The fields by which paths are followed are the same.
pub record IsSameTree (f g : ℕ → Node) : Type 0 where
  pub same_parent : (i : ℕ) → (f i).parent ≡ (g i).parent
  pub same_first : (i : ℕ) → (f i).first_child ≡ (g i).first_child
  pub same_next : (i : ℕ) → (f i).next_sibling ≡ (g i).next_sibling
  pub same_name : (i : ℕ) → (f i).name ≡ (g i).name

module _ (f g : ℕ → Node) (same : IsSameTree f g) where
  find_from-ext :
      (fuel : ℕ) (n : Option ℕ) (name : List ℕ) → find_from fuel n name f ≡ find_from fuel n name g
  unfolding find_from
  find_from-ext fuel none name = refl
  find_from-ext zero (some n) name = refl
  find_from-ext (suc fuel) (some n) name =
      ground (arith, same.same_name n, same.same_next n, find_from-ext fuel (f n).next_sibling name)

  step-ext : (cur : ℕ) (part : List ℕ) → step cur part f ≡ step cur part g
  unfolding step find_child
  step-ext cur part = ground (
    arith,
    same.same_parent cur,
    same.same_first cur,
    find_from-ext fs_max_nodes (f cur).first_child part,
  )

  resolve_from-ext :
      (fuel cur : ℕ) (p : List ℕ) → resolve_from fuel cur p f ≡ resolve_from fuel cur p g
  unfolding resolve_from
  resolve_from-ext fuel cur [] = refl
  resolve_from-ext zero cur (c ∷ p) = refl
  resolve_from-ext (suc fuel) cur (c ∷ p) = elim (Option-cases (take_part fs_name_max (c ∷ p))) [
    | inl long ↦ ground (arith, long)
    | inr ((part, q), e) ↦ elim (Option-cases (step cur part f)) [
      | inl lost ↦ ground (arith, e, lost, step-ext cur part)
      | inr (cur', e') ↦
          ground (arith, e, e', step-ext cur part, resolve_from-ext fuel cur' (skip_slashes q))
    ]
  ]

  -- A path leads to the same node.
  pub resolve_path-ext :
      (path : List ℕ) (cwd : ℕ)
      → resolve_path path (record { nodes = f; cwd_node = cwd })
        ≡ resolve_path path (record { nodes = g; cwd_node = cwd })
  unfolding resolve_path
  resolve_path-ext [] cwd = refl
  resolve_path-ext (c ∷ p) cwd =
      elim (skip_slashes (c ∷ p))
        as (λ l.
          elim l as (λ x. Option ℕ) [
            | [] ↦ some 0
            | d ∷ q ↦ result (
                resolve_from (length (d ∷ q))
                  (start_of (c ∷ p) (record { nodes = f; cwd_node = cwd })) (d ∷ q) f)
          ]
          ≡ elim l as (λ x. Option ℕ) [
            | [] ↦ some 0
            | d ∷ q ↦ result (
                resolve_from (length (d ∷ q))
                  (start_of (c ∷ p) (record { nodes = g; cwd_node = cwd })) (d ∷ q) g)
          ]) [
            | [] ↦ refl
            | d ∷ q ↦
                ap result
                  (resolve_from-ext (length (d ∷ q)) (if c == slash then 0 else cwd) (d ∷ q))
          ]

pub length-take_part :
    (left : ℕ) (p part q : List ℕ)
    → take_part left p ≡ some (part, q)
    → (length part + length q ≡ length p) × (length part ≤ left)
unfolding take_part
length-take_part left [] part q e = ground (arith, e)
length-take_part zero (c ∷ p) part q e = ground (arith, e)
length-take_part (suc left) (c ∷ p) part q e = elim (Bool-cases (c == slash)) [
  | inl ends ↦ ground (arith, e, ends)
  | inr other ↦ elim (Option-cases (take_part left p)) [
    | inl long ↦ ground (arith, e, other, long)
    | inr ((part', q'), e') ↦ ground (arith, e, other, e', length-take_part left p part' q' e')
  ]
]

pub length-skip_slashes : (p : List ℕ) → length (skip_slashes p) ≤ length p
unfolding skip_slashes
length-skip_slashes [] = omega arith
length-skip_slashes (c ∷ p) = ground (arith, length-skip_slashes p)

pub str_copy-short : (max : ℕ) (name : List ℕ) → length name < max → str_copy name max ≡ name
unfolding str_copy
str_copy-short zero name lt = ground (arith, lt)
str_copy-short (suc zero) [] lt = refl
str_copy-short (suc zero) (c ∷ name) lt = ground (arith, lt)
str_copy-short (suc (suc max)) [] lt = refl
str_copy-short (suc (suc max)) (c ∷ name) lt =
    ap (λ l. c ∷ l) (str_copy-short (suc max) name (omega arith))

pub str_eq_refl : (name : List ℕ) → str_eq name name ≡ true
unfolding str_eq
str_eq_refl [] = refl
str_eq_refl (c ∷ name) = ground (arith, str_eq_refl name)

-- A part that starts the path is not empty unless a slash stands there.
pub take_part-some :
    (c : ℕ) (p part q : List ℕ)
    → (c == slash) ≡ false
    → take_part fs_name_max (c ∷ p) ≡ some (part, q)
    → length q ≤ length p
unfolding take_part
take_part-some c p part q other e = elim (Option-cases (take_part 30 p)) [
  | inl long ↦ ground (arith, e, other, long)
  | inr ((part', q'), e') ↦ ground (arith, e, other, e', length-take_part 30 p part' q' e')
]

unfoldable pub starts_part : List ℕ → Bool
starts_part [] = true
starts_part (c ∷ p) = not (c == slash)

pub skip_slashes-starts_part : (p : List ℕ) → starts_part (skip_slashes p) ≡ true
unfolding skip_slashes starts_part
skip_slashes-starts_part [] = refl
skip_slashes-starts_part (c ∷ p) = ground (arith, skip_slashes-starts_part p)
