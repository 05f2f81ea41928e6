-- ===== src/Fs/Split.antt =====
-- kernel/fs.c: the loops over a path end before their fuel, and the two walks agree.
use tg11_os.Prelude.{
  ℕ, zero, suc, ◌+◌, ◌≤◌, true, false, ◌||◌, Option, none, some, List, [], ◌∷◌, length, ◌≡◌, refl,
  sym, ap, arith, Bool-cases, Option-cases, inl, inr, ◌⊎◌,
}
use mathlib.Core.Path.{subst}
use tg11_os.Fs.{Node, Fs, str_eq, dot, dot_dot, fs_name_max, find_child}
use tg11_os.Fs.Paths.{
  skip_slashes, take_part, start_of, step, returned, result, resolve_from, resolve_path, enter,
  last_part, split_from, split_parent_and_name,
}
use tg11_os.Fs.Resolve.{
  length-take_part, take_part-some, starts_part, skip_slashes-starts_part, length-skip_slashes,
  str_copy-short,
}

-- At a path that does not start with a slash the loop of `resolve_path` returns before any fuel
-- from the length of the path on runs out, and with the same value.
pub resolve_from-fuel :
    (nodes : ℕ → Node) (m n cur : ℕ) (p : List ℕ)
    → starts_part p ≡ true
    → length p ≤ m
    → length p ≤ n
    → (r : Option ℕ) × (resolve_from m cur p nodes ≡ returned r)
      × (resolve_from n cur p nodes ≡ returned r)
unfolding resolve_from starts_part
resolve_from-fuel nodes m n cur [] starts le_m le_n = (some cur, refl, refl)
resolve_from-fuel nodes zero n cur (c ∷ p) starts le_m le_n = ground (arith, le_m)
resolve_from-fuel nodes (suc m) zero cur (c ∷ p) starts le_m le_n = ground (arith, le_n)
resolve_from-fuel nodes (suc m) (suc n) cur (c ∷ p) starts le_m le_n =
    elim (Option-cases (take_part fs_name_max (c ∷ p))) [
      | inl long ↦ (none, ground (arith, long), ground (arith, long))
      | inr ((part, q), e) ↦ elim (Option-cases (step cur part nodes)) [
        | inl lost ↦ (none, ground (arith, e, lost), ground (arith, e, lost))
        | inr (cur', e') ↦
            let shorter = take_part-some c p part q (ground arith) e in
            let (r, with_m, with_n) =
              resolve_from-fuel nodes m n cur' (skip_slashes q) (skip_slashes-starts_part q)
                (omega (arith, length-skip_slashes q, shorter))
                (omega (arith, length-skip_slashes q, shorter)) in
            (r, ground (arith, e, e', with_m), ground (arith, e, e', with_n))
      ]
    ]

-- Where one part is entered, the two walks go to the same node.
enter-step :
    (nodes : ℕ → Node) (cur cur' : ℕ) (part : List ℕ)
    → enter cur part nodes ≡ some cur'
    → step cur part nodes ≡ some cur'
unfolding enter step
enter-step nodes cur cur' part e = elim (Option-cases (find_child cur part nodes)) [
  | inl lost ↦ ground (arith, e, lost)
  | inr (n, e') ↦ ground (arith, e, e')
]

-- What `split_parent_and_name` gives: a name that fits, and a node in which the path's node is the
-- child of that name.
pub record IsSplit (nodes : ℕ → Node) (parent : ℕ) (name : List ℕ) (found : Option ℕ) : Type 0 where
  pub lookup : found ≡ find_child parent name nodes
  pub fits : length name ≤ fs_name_max
  pub proper : (str_eq name dot || str_eq name dot_dot) ≡ false

IsSplit-sym :
    (nodes : ℕ → Node) (parent : ℕ) (name : List ℕ) (x y : Option ℕ)
    → x ≡ y
    → IsSplit nodes parent name y
    → IsSplit nodes parent name x
IsSplit-sym nodes parent name x y e h = subst (λ found. IsSplit nodes parent name found) (sym e) h

last_part-IsSplit :
    (nodes : ℕ → Node) (fuel cur : ℕ) (part : List ℕ) (parent : ℕ) (name : List ℕ)
    → length part ≤ fs_name_max
    → last_part cur part ≡ some (parent, name)
    → IsSplit nodes parent name (elim (step cur part nodes) [
      | none ↦ none
      | some cur' ↦ result (resolve_from fuel cur' [] nodes)
    ])
unfolding step resolve_from
last_part-IsSplit nodes fuel cur part parent name short e =
    elim (Bool-cases (str_eq part dot || str_eq part dot_dot)) [
      | inl special ↦ ground (arith, e, special)
      | inr proper ↦
          let copied = str_copy-short (fs_name_max + 1) part (omega (arith, short)) in
          let found : (cur ≡ parent) × (part ≡ name) = ground (arith, e, proper, copied) in
          record {
            lookup = elim (Option-cases (find_child cur part nodes)) [
              | inl lost ↦ ground (arith, proper, lost, found)
              | inr (n, e') ↦ ground (arith, proper, e', found)
            ];
            fits = ground (arith, short, found);
            proper = ground (arith, proper, found);
          }
    ]

List-cases : (l : List ℕ) → (l ≡ []) ⊎ ((c : ℕ) × (p : List ℕ) × (l ≡ c ∷ p))
List-cases [] = inl refl
List-cases (c ∷ p) = inr (c, p, refl)

split_from-IsSplit :
    (nodes : ℕ → Node) (fuel cur : ℕ) (p : List ℕ) (parent : ℕ) (name : List ℕ)
    → starts_part p ≡ true
    → length p ≤ fuel
    → split_from fuel cur p nodes ≡ some (parent, name)
    → IsSplit nodes parent name (result (resolve_from fuel cur p nodes))
unfolding split_from resolve_from starts_part
split_from-IsSplit nodes fuel cur [] parent name starts le e = ground (arith, e)
split_from-IsSplit nodes zero cur (c ∷ p) parent name starts le e = ground (arith, le)
split_from-IsSplit nodes (suc fuel) cur (c ∷ p) parent name starts le e =
    elim (Option-cases (take_part fs_name_max (c ∷ p))) [
      | inl long ↦ ground (arith, e, long)
      | inr ((part, q), e') ↦
          let short = (length-take_part fs_name_max (c ∷ p) part q e').1 in
          elim (List-cases (skip_slashes q)) [
            | inl ends ↦ IsSplit-sym nodes parent name _ _ (ground (arith, e', ends)) (
                last_part-IsSplit nodes fuel cur part parent name short
                  (ground (arith, e, e', ends)))
            | inr (d, r, goes_on) ↦ elim (Option-cases (enter cur part nodes)) [
              | inl lost ↦ ground (arith, e, e', goes_on, lost)
              | inr (cur', e'') ↦
                  let shorter = take_part-some c p part q (ground arith) e' in
                  IsSplit-sym nodes parent name _ _
                    (ground (arith, e', goes_on, enter-step nodes cur cur' part e''))
                    (split_from-IsSplit nodes fuel cur' (d ∷ r) parent name
                      (ground (arith, skip_slashes-starts_part q, goes_on))
                      (omega (arith, length-skip_slashes q, shorter, ap length goes_on))
                      (ground (arith, e, e', goes_on, e'')))
            ]
          ]
    ]

-- Where `split_parent_and_name` succeeds, `resolve_path` leads to the child of that name in that
-- node; it is -1 if there is none.
pub split_parent_and_name-IsSplit :
    (path : List ℕ) (s : Fs) (parent : ℕ) (name : List ℕ)
    → split_parent_and_name path s ≡ some (parent, name)
    → IsSplit s.nodes parent name (resolve_path path s)
unfolding split_parent_and_name resolve_path split_from skip_slashes starts_part
split_parent_and_name-IsSplit [] s parent name e = ground (arith, e)
split_parent_and_name-IsSplit (c ∷ p) s parent name e = elim (List-cases (skip_slashes (c ∷ p))) [
  | inl root ↦ ground (arith, e, root)
  | inr (d, q, part) ↦ IsSplit-sym s.nodes parent name _ _ (ground (arith, part)) (
      split_from-IsSplit s.nodes (length (d ∷ q)) (start_of (c ∷ p) s) (d ∷ q) parent name
        (ground (arith, skip_slashes-starts_part (c ∷ p), part)) (omega arith)
        (ground (arith, e, part)))
]
