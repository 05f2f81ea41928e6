-- ===== src/Fs/Paths.antt =====
-- kernel/fs.c: `split_parent_and_name` and `resolve_path`.
use tg11_os.Prelude.{
  ℕ, zero, suc, ◌+◌, true, false, ◌||◌, Option, none, some, List, [], ◌∷◌, ◌==◌, if◌then◌else◌,
  length,
}
use tg11_os.Fs.{Node, Fs, str_eq, str_copy, dot, dot_dot, fs_name_max, find_child}

abbrev pub slash : ℕ
slash = b'/'

unfoldable pub skip_slashes : List ℕ → List ℕ
skip_slashes [] = []
skip_slashes (c ∷ p) = elim (c == slash) [ true ↦ skip_slashes p | false ↦ c ∷ p ]

-- The part up to the next slash, `left` characters at most, and what stands behind it.
unfoldable pub take_part : ℕ → List ℕ → Option (List ℕ × List ℕ)
take_part left [] = some ([], [])
take_part zero (c ∷ p) = if c == slash then some ([], c ∷ p) else none
take_part (suc left) (c ∷ p) =
    let rest = take_part left p in
    if c == slash
    then some ([], c ∷ p)
    else elim rest [ none ↦ none | some (part, q) ↦ some (c ∷ part, q) ]

-- The node that `..` leads to; the root has no parent.
abbrev pub up : ℕ → (ℕ → Node) → ℕ
up cur nodes = elim ((nodes cur).parent) [ none ↦ cur | some p ↦ p ]

abbrev pub start_of : List ℕ → Fs → ℕ
start_of [] s = s.cwd_node
start_of (c ∷ p) s = if c == slash then 0 else s.cwd_node

-- One part that is not the last: the node it leads to from `cur`.
unfoldable pub step : ℕ → List ℕ → (ℕ → Node) → Option ℕ
step cur part nodes =
    if str_eq part dot
    then some cur
    else if str_eq part dot_dot
    then some (up cur nodes)
    else find_child cur part nodes

-- How a loop ends: with the value that is returned, or by running out of fuel.
pub data Walk : Type 0 where
  returned : Option ℕ → Walk
  endless : Walk

-- The loop of `resolve_path` at a path that does not start with a slash.
unfoldable pub resolve_from : ℕ → ℕ → List ℕ → (ℕ → Node) → Walk
resolve_from fuel cur [] nodes = returned (some cur)
resolve_from zero cur (c ∷ p) nodes = endless
resolve_from (suc fuel) cur (c ∷ p) nodes = elim (take_part fs_name_max (c ∷ p)) [
  | none ↦ returned none
  | some (part, q) ↦ elim (step cur part nodes) [
    | none ↦ returned none
    | some cur' ↦ resolve_from fuel cur' (skip_slashes q) nodes
  ]
]

-- What the loop returns.
abbrev pub result : Walk → Option ℕ
result (returned r) = r
result endless = none

-- A null path is an empty one. The length of the path is enough fuel.
unfoldable pub resolve_path : List ℕ → Fs → Option ℕ
resolve_path [] s = some s.cwd_node
resolve_path (c ∷ p) s = elim (skip_slashes (c ∷ p)) [
  | [] ↦ some 0
  | d ∷ q ↦ result (resolve_from (length (d ∷ q)) (start_of (c ∷ p) s) (d ∷ q) s.nodes)
]

-- Of the parts before the last, those that are found must be directories.
unfoldable pub enter : ℕ → List ℕ → (ℕ → Node) → Option ℕ
enter cur part nodes =
    if str_eq part dot
    then some cur
    else if str_eq part dot_dot
    then some (up cur nodes)
    else elim (find_child cur part nodes) [
      | none ↦ none
      | some n ↦ if (nodes n).is_dir then some n else none
    ]

abbrev pub last_part : ℕ → List ℕ → Option (ℕ × List ℕ)
last_part cur part =
    if str_eq part dot || str_eq part dot_dot
    then none
    else some (cur, str_copy part (fs_name_max + 1))

unfoldable pub split_from : ℕ → ℕ → List ℕ → (ℕ → Node) → Option (ℕ × List ℕ)
split_from fuel cur [] nodes = none
split_from zero cur (c ∷ p) nodes = none
split_from (suc fuel) cur (c ∷ p) nodes = elim (take_part fs_name_max (c ∷ p)) [
  | none ↦ none
  | some (part, q) ↦ elim (skip_slashes q) [
    | [] ↦ last_part cur part
    | d ∷ r ↦ elim (enter cur part nodes) [
      | none ↦ none
      | some cur' ↦ split_from fuel cur' (d ∷ r) nodes
    ]
  ]
]

unfoldable pub split_parent_and_name : List ℕ → Fs → Option (ℕ × List ℕ)
split_parent_and_name path s =
    split_from (length (skip_slashes path)) (start_of path s) (skip_slashes path) s.nodes
