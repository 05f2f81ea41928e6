-- ===== src/Fs/Ops.antt =====
-- kernel/fs.c: the operations on paths. A result that is -1 is `none` or `false`.
use tg11_os.Prelude.{
  ℕ, zero, suc, ◌+◌, ◌-◌, ◌*◌, Bool, true, false, not, ◌&&◌, ◌||◌, Option, none, some, List, [],
  ◌∷◌, ◌++◌, ltb, ◌==◌, if◌then◌else◌, length, update,
}
use tg11_os.Fs.{
  Node, Fs, str_copy, modify, fs_name_max, fs_max_nodes, fs_max_file_size, find_child, add_child,
  unlink_node_from_parent,
}
use tg11_os.Fs.Paths.{resolve_path, split_parent_and_name, slash}

-- What a `data` pointer points to: nothing, memory outside the table, or the data of a node.
pub data Source : Type 0 where
  null : Source
  outside : (ℕ → ℕ) → Source
  node_data : ℕ → Source

unfoldable pub read_source : Source → (ℕ → Node) → ℕ → ℕ
read_source null nodes i = 0
read_source (outside bytes) nodes i = bytes i
read_source (node_data n) nodes i = (nodes n).bytes i

abbrev pub is_null : Source → Bool
is_null null = true
is_null _ = false

-- `for (i = 0; i < n; i++) to[i] = from[i]`
unfoldable pub copy_bytes : ℕ → (ℕ → ℕ) → (ℕ → ℕ) → ℕ → ℕ
copy_bytes zero from to = to
copy_bytes (suc n) from to = update (copy_bytes n from to) n (from n)

unfoldable pub fs_mkdir : List ℕ → Fs → Bool × Fs
fs_mkdir path s = elim (split_parent_and_name path s) [
  | none ↦ (false, s)
  | some (parent, name) ↦
      let made = add_child parent name true s in
      (elim (made.0) [ none ↦ false | some i ↦ true ], made.1)
]

unfoldable pub fs_touch : List ℕ → Fs → Bool × Fs
fs_touch path s = elim (split_parent_and_name path s) [
  | none ↦ (false, s)
  | some (parent, name) ↦
      let made = add_child parent name false s in
      elim (made.0) [
        | some i ↦ (true, made.1)
        | none ↦ elim (find_child parent name (made.1).nodes) [
          | none ↦ (false, made.1)
          | some existing ↦ (not ((made.1).nodes existing).is_dir, made.1)
        ]
      ]
]

abbrev pub kept : ℕ → ℕ
kept size = if ltb size fs_max_file_size then size else 8191

-- The content of the node, with a NUL behind it.
unfoldable pub fill : Source → ℕ → (ℕ → Node) → Node → Node
fill from n nodes node = record node {
  bytes = update (copy_bytes n (read_source from nodes) node.bytes) n 0;
  size = n;
}

unfoldable pub write_node : ℕ → Source → ℕ → Fs → Bool × Fs
write_node node from size s =
    if (s.nodes node).is_dir
    then (false, s)
    else if is_null from && not (size == 0)
    then (false, s)
    else (true, record s { nodes = modify s.nodes node (fill from (kept size) s.nodes) })

unfoldable pub fs_write_file : List ℕ → Source → ℕ → Fs → Bool × Fs
fs_write_file path from size s = elim (resolve_path path s) [
  | some node ↦ write_node node from size s
  | none ↦
      let touched = fs_touch path s in
      if touched.0
      then elim (resolve_path path (touched.1)) [
        | none ↦ (false, touched.1)
        | some node ↦ write_node node from size (touched.1)
      ]
      else (false, touched.1)
]

abbrev pub min_of : ℕ → ℕ → ℕ
min_of n m = if ltb n m then n else m

-- The buffer is `none` for a null pointer, and stays as it is beyond the size that is returned.
unfoldable pub fs_read_file : List ℕ → Option (ℕ → ℕ) → ℕ → Bool → Fs → Option (Option (ℕ → ℕ) × ℕ)
fs_read_file path out capacity has_out_size s = elim (resolve_path path s) [
  | none ↦ none
  | some node ↦
      if (s.nodes node).is_dir || not has_out_size
      then none
      else some (
        elim out [
          | none ↦ none
          | some to ↦
              some (copy_bytes (min_of (s.nodes node).size capacity) (s.nodes node).bytes to)
        ],
        min_of (s.nodes node).size capacity,
      )
]

unfoldable pub text_bytes : List ℕ → ℕ → ℕ
text_bytes [] i = 0
text_bytes (c ∷ text) i = if i == 0 then c else text_bytes text (i - 1)

unfoldable pub fs_write_text : List ℕ → List ℕ → Fs → Bool × Fs
fs_write_text path text s = fs_write_file path (outside (text_bytes text)) (length text) s

-- A pointer to the node's data.
unfoldable pub fs_read_text : List ℕ → Fs → Option ℕ
fs_read_text path s = elim (resolve_path path s) [
  | none ↦ none
  | some node ↦ if (s.nodes node).is_dir then none else some node
]

abbrev pub freed : Node → Node
freed n = record n { used = false; first_child = none; next_sibling = none; size = 0; name = [] }

abbrev pub is_empty_dir : Node → Bool
is_empty_dir n = elim n.first_child [ none ↦ true | some c ↦ false ]

unfoldable pub rm_node : ℕ → Fs → Bool × Fs
rm_node node s = elim (unlink_node_from_parent node s) [
  | none ↦ (false, s)
  | some s' ↦ (true, record s' { nodes = modify s'.nodes node freed })
]

unfoldable pub fs_rm : List ℕ → Fs → Bool × Fs
fs_rm path s = elim (resolve_path path s) [
  | none ↦ (false, s)
  | some node ↦
      if node == 0 || ((s.nodes node).is_dir && not (is_empty_dir (s.nodes node)))
      then (false, s)
      else rm_node node s
]

unfoldable pub fs_cd : List ℕ → Fs → Bool × Fs
fs_cd path s = elim (resolve_path path s) [
  | none ↦ (false, s)
  | some node ↦
      if not (s.nodes node).is_dir then (false, s) else (true, record s { cwd_node = node })
]

unfoldable pub fs_cp : List ℕ → List ℕ → Fs → Bool × Fs
fs_cp src_path dst_path s = elim (resolve_path src_path s) [
  | none ↦ (false, s)
  | some src ↦
      if (s.nodes src).is_dir
      then (false, s)
      else fs_write_file dst_path (node_data src) (s.nodes src).size s
]

-- Whether `src` is `p` or above it. Parents that do not end in `fs_max_nodes` steps go round in a
-- circle.
unfoldable pub is_above : ℕ → ℕ → Option ℕ → (ℕ → Node) → Bool
is_above fuel src none nodes = false
is_above zero src (some p) nodes = true
is_above (suc fuel) src (some p) nodes = elim (p == src) [
  | true ↦ true
  | false ↦ is_above fuel src (nodes p).parent nodes
]

-- `src`, which is out of its list, at the head of the list of `parent`.
unfoldable pub move_to : ℕ → ℕ → List ℕ → (ℕ → Node) → ℕ → Node
move_to src parent name nodes =
    let linked : ℕ → Node =
      modify nodes src
        (λ n. record n { parent = some parent; next_sibling = (nodes parent).first_child }) in
    modify (modify linked parent (λ n. record n { first_child = some src })) src
      (λ n. record n { name = str_copy name (fs_name_max + 1) })

unfoldable pub cannot_move : ℕ → ℕ → List ℕ → (ℕ → Node) → Bool
cannot_move src dst_parent dst_name nodes =
    not (nodes dst_parent).is_dir
    || (elim (find_child dst_parent dst_name nodes) [ none ↦ false | some n ↦ true ]
        || ((nodes src).is_dir && is_above fs_max_nodes src (some dst_parent) nodes))

unfoldable pub mv_node : ℕ → ℕ → List ℕ → Fs → Bool × Fs
mv_node src dst_parent dst_name s = elim (unlink_node_from_parent src s) [
  | none ↦ (false, s)
  | some s' ↦ (true, record s' { nodes = move_to src dst_parent dst_name s'.nodes })
]

unfoldable pub fs_mv : List ℕ → List ℕ → Fs → Bool × Fs
fs_mv src_path dst_path s = elim (resolve_path src_path s) [
  | none ↦ (false, s)
  | some src ↦ if src == 0 then (false, s) else elim (split_parent_and_name dst_path s) [
    | none ↦ (false, s)
    | some (dst_parent, dst_name) ↦
        if cannot_move src dst_parent dst_name s.nodes
        then (false, s)
        else mv_node src dst_parent dst_name s
  ]
]

-- The names with a slash behind a directory's, and whether each is a directory.
unfoldable pub ls_from : ℕ → Option ℕ → (ℕ → Node) → List (List ℕ × Bool)
ls_from zero child nodes = []
ls_from (suc left) none nodes = []
ls_from (suc left) (some c) nodes =
    (
      str_copy (nodes c).name (fs_name_max + 1) ++ (if (nodes c).is_dir then slash ∷ [] else []),
      (nodes c).is_dir,
    )
    ∷ ls_from left (nodes c).next_sibling nodes

unfoldable pub fs_ls : List ℕ → ℕ → Fs → Option (List (List ℕ × Bool))
fs_ls path max_entries s = elim (resolve_path path s) [
  | none ↦ none
  | some dir ↦
      if not (s.nodes dir).is_dir
      then none
      else some (ls_from max_entries (s.nodes dir).first_child s.nodes)
]

unfoldable pub fs_stat : List ℕ → Fs → Option (Bool × ℕ)
fs_stat path s = elim (resolve_path path s) [
  | none ↦ none
  | some node ↦
      some ((s.nodes node).is_dir, if (s.nodes node).is_dir then 0 else (s.nodes node).size)
]

-- The directories, and the bytes of the files, of the slots from `i` on.
unfoldable pub count_dirs : ℕ → ℕ → (ℕ → Node) → ℕ
count_dirs zero i nodes = 0
count_dirs (suc left) i nodes =
    let rest = count_dirs left (i + 1) nodes in
    if (nodes i).used && (nodes i).is_dir then rest + 1 else rest

unfoldable pub count_bytes : ℕ → ℕ → (ℕ → Node) → ℕ
count_bytes zero i nodes = 0
count_bytes (suc left) i nodes =
    let rest = count_bytes left (i + 1) nodes in
    if (nodes i).used && not (nodes i).is_dir then rest + (nodes i).size else rest

unfoldable pub fs_free_bytes : Fs → ℕ
fs_free_bytes s =
    if not (ltb (count_dirs 255 1 s.nodes) 255)
    then 0
    else if not (ltb (count_bytes 255 1 s.nodes) ((255 - count_dirs 255 1 s.nodes) * 8191))
    then 0
    else (255 - count_dirs 255 1 s.nodes) * 8191 - count_bytes 255 1 s.nodes

abbrev pub cleared : Node → Node
cleared n = record {
  used = false;
  is_dir = false;
  parent = none;
  first_child = none;
  next_sibling = none;
  name = [];
  size = 0;
  bytes = update n.bytes 0 0;
}

-- `fs_init` before it writes the programs that come with the kernel.
unfoldable pub empty_fs : Fs → Fs
empty_fs s = record {
  nodes =
      update (λ i. cleared (s.nodes i)) 0
        (record (cleared (s.nodes 0)) { used = true; is_dir = true; name = slash ∷ [] });
  cwd_node = 0;
}
