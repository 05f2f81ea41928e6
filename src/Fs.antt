-- ===== src/Fs.antt =====
-- kernel/fs.c, the file system in memory: the table of nodes, the child lists through it, and the
-- operations on one node.
pub mod Paths
pub mod Ops
pub mod Chain
pub mod Tree
pub mod Grow
pub mod Unlink
pub mod Detach
pub mod Shrink
pub mod Children
pub mod Resolve
pub mod Split
pub mod Files
pub mod Keep
pub mod Remove
pub mod Above
pub mod Move
pub mod Runs
pub mod Space
mod Tests
use tg11_os.Prelude.{
  ℕ, zero, suc, ◌+◌, ◌-◌, Bool, true, false, not, ◌&&◌, ◌||◌, Option, none, some, List, [], ◌∷◌,
  ltb, ◌==◌, if◌then◌else◌, length, update,
}

abbrev pub fs_name_max : ℕ
fs_name_max = 31

abbrev pub fs_max_nodes : ℕ
fs_max_nodes = 256

abbrev pub fs_max_file_size : ℕ
fs_max_file_size = 8192

-- `fs_node`; an index that is -1 is `none`. A name is its characters, without the NUL.
pub record Node : Type 0 where
  pub used : Bool
  pub is_dir : Bool
  pub parent : Option ℕ
  pub first_child : Option ℕ
  pub next_sibling : Option ℕ
  pub name : List ℕ
  pub size : ℕ
  pub bytes : ℕ → ℕ

pub record Fs : Type 0 where
  pub nodes : ℕ → Node
  pub cwd_node : ℕ

pub str_eq : List ℕ → List ℕ → Bool
str_eq [] [] = true
str_eq [] (y ∷ ys) = false
str_eq (x ∷ xs) [] = false
str_eq (x ∷ xs) (y ∷ ys) = x == y && str_eq xs ys

-- At most `max_len - 1` characters.
pub str_copy : List ℕ → ℕ → List ℕ
str_copy src zero = []
str_copy src (suc zero) = []
str_copy [] (suc (suc left)) = []
str_copy (c ∷ src) (suc (suc left)) = c ∷ str_copy src (suc left)

abbrev pub dot : List ℕ
dot = b'.' ∷ []

abbrev pub dot_dot : List ℕ
dot_dot = b'.' ∷ b'.' ∷ []

abbrev pub modify : (ℕ → Node) → ℕ → (Node → Node) → ℕ → Node
modify nodes i f = update nodes i (f (nodes i))

-- The first free node from `i` on, `left` nodes at most.
pub free_node : ℕ → ℕ → (ℕ → Node) → Option ℕ
free_node zero i nodes = none
free_node (suc left) i nodes = elim ((nodes i).used) [
  | false ↦ some i
  | true ↦ free_node left (i + 1) nodes
]

abbrev pub fresh : Node → Node
fresh n = record n {
  used = true;
  is_dir = false;
  parent = none;
  first_child = none;
  next_sibling = none;
  name = [];
  size = 0;
  bytes = update n.bytes 0 0;
}

pub alloc_node : Fs → Option ℕ × Fs
alloc_node s = elim (free_node 255 1 s.nodes) [
  | none ↦ (none, s)
  | some i ↦ (some i, record s { nodes = modify s.nodes i fresh })
]

-- The walk along the siblings from `n`. A list that does not end in `fs_max_nodes` steps goes round
-- in a circle.
pub find_from : ℕ → Option ℕ → List ℕ → (ℕ → Node) → Option ℕ
find_from fuel none name nodes = none
find_from zero (some n) name nodes = none
find_from (suc fuel) (some n) name nodes = elim (str_eq (nodes n).name name) [
  | true ↦ some n
  | false ↦ find_from fuel (nodes n).next_sibling name nodes
]

pub find_child : ℕ → List ℕ → (ℕ → Node) → Option ℕ
find_child parent name nodes = find_from fs_max_nodes (nodes parent).first_child name nodes

pub cannot_add : ℕ → List ℕ → (ℕ → Node) → Bool
cannot_add parent name nodes =
    not (nodes parent).used
    || (not (nodes parent).is_dir
        || (length name == 0
            || (ltb fs_name_max (length name) || (str_eq name dot || str_eq name dot_dot))))

-- The new node `idx` at the head of its parent's list.
pub attach : ℕ → ℕ → List ℕ → Bool → (ℕ → Node) → ℕ → Node
attach idx parent name is_dir nodes =
    let made : Node = record (nodes idx) {
      is_dir = is_dir;
      parent = some parent;
      first_child = none;
      next_sibling = (nodes parent).first_child;
      name = str_copy name (fs_name_max + 1);
    } in
    modify (update nodes idx made) parent (λ n. record n { first_child = some idx })

-- What `add_child` does with the slot that it is given.
pub place_child : ℕ → List ℕ → Bool → Option ℕ × Fs → Option ℕ × Fs
place_child parent name is_dir (none, s) = (none, s)
place_child parent name is_dir (some idx, s) =
    (some idx, record s { nodes = attach idx parent name is_dir s.nodes })

pub add_child : ℕ → List ℕ → Bool → Fs → Option ℕ × Fs
add_child parent name is_dir s =
    if cannot_add parent name s.nodes then (none, s) else elim (find_child parent name s.nodes) [
      | some n ↦ (none, s)
      | none ↦ place_child parent name is_dir (alloc_node s)
    ]

-- The walk of `unlink_node_from_parent`, with `prev` behind `cur`; `none` is -1.
pub unlink_from : ℕ → ℕ → ℕ → Option ℕ → Option ℕ → (ℕ → Node) → Option (ℕ → Node)
unlink_from fuel idx parent prev none nodes = none
unlink_from zero idx parent prev (some cur) nodes = none
unlink_from (suc fuel) idx parent prev (some cur) nodes = elim (cur == idx) [
  | true ↦ elim prev [
    | none ↦ some (modify nodes parent (λ n. record n { first_child = (nodes cur).next_sibling }))
    | some p ↦ some (modify nodes p (λ n. record n { next_sibling = (nodes cur).next_sibling }))
  ]
  | false ↦ unlink_from fuel idx parent (some cur) (nodes cur).next_sibling nodes
]

pub unlink_node_from_parent : ℕ → Fs → Option Fs
unlink_node_from_parent idx s =
    if idx == 0 || not (s.nodes idx).used then none else elim ((s.nodes idx).parent) [
      | none ↦ none
      | some parent ↦
          elim (unlink_from fs_max_nodes idx parent none (s.nodes parent).first_child s.nodes) [
            | none ↦ none
            | some nodes' ↦ some (record s { nodes = nodes' })
          ]
    ]
