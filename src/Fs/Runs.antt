-- ===== src/Fs/Runs.antt =====
-- kernel/fs.c: `fs_mv`, and sequences of calls.
use tg11_os.Prelude.{
  ℕ, zero, suc, ◌+◌, ◌≤◌, Bool, true, false, none, some, List, [], ◌∷◌, ◌==◌, length, ◌≡◌, ◌≢◌,
  refl, ap, ◌∙◌, arith, Bool-cases, Option-cases, inl, inr,
}
use tg11_os.Prelude.Distinct.{elem}
use tg11_os.Fs.{Node, Fs, str_eq, str_copy, fs_name_max, fs_max_nodes, find_child}
use tg11_os.Fs.Paths.{
  skip_slashes, take_part, up, start_of, enter, split_from, split_parent_and_name, resolve_path,
}
use tg11_os.Fs.Resolve.{str_copy-short, str_eq_refl}
use tg11_os.Fs.Split.{split_parent_and_name-IsSplit}
use tg11_os.Fs.Tree.{find_child-some, find_child-none}
use tg11_os.Fs.Unlink.{unlink_node_from_parent-IsUnlinked}
use tg11_os.Fs.Above.{under, not_under, not_under-alone}
use tg11_os.Fs.Move.{moved, sunk, moved-IsTree}
use tg11_os.Fs.Keep.{HasTree, mkdir-HasTree, touch-HasTree, write-HasTree, cp-HasTree, cd-HasTree}
use tg11_os.Fs.Remove.{rm-HasTree, unlink_unused}
use tg11_os.Fs.Ops.{
  Source, fs_mkdir, fs_touch, fs_write_file, fs_rm, fs_cd, fs_cp, fs_mv, mv_node, cannot_move,
}

module _ (nodes : ℕ → Node) (h : HasTree nodes) where
  up-used : (cur : ℕ) → (nodes cur).used ≡ true → (nodes (up cur nodes)).used ≡ true
  up-used cur used = elim (Option-cases (nodes cur).parent) [
    | inl top ↦ ground (arith, top, used)
    | inr (p, e) ↦ ground (arith, e, h.tree.listed cur p used e)
  ]

  enter-used :
      (cur cur' : ℕ) (part : List ℕ)
      → (nodes cur).used ≡ true
      → enter cur part nodes ≡ some cur'
      → (nodes cur').used ≡ true
  unfolding enter
  enter-used cur cur' part used e = elim (Option-cases (find_child cur part nodes)) [
    | inl lost ↦ ground (arith, e, lost, used, up-used cur used)
    | inr (n, found) ↦
        let child =
          h.tree.child cur n used
            (find_child-some nodes h.kids h.depth h.tree cur part n used found).0 in
        ground (arith, e, found, used, up-used cur used, child)
  ]

  -- A path from a used node is split at a used node.
  split_from-used :
      (fuel cur : ℕ) (p : List ℕ) (parent : ℕ) (name : List ℕ)
      → (nodes cur).used ≡ true
      → split_from fuel cur p nodes ≡ some (parent, name)
      → (nodes parent).used ≡ true
  unfolding split_from
  split_from-used fuel cur [] parent name used e = ground (arith, e)
  split_from-used zero cur (c ∷ p) parent name used e = ground (arith, e)
  split_from-used (suc fuel) cur (c ∷ p) parent name used e =
      elim (Option-cases (take_part fs_name_max (c ∷ p))) [
        | inl long ↦ ground (arith, e, long)
        | inr ((part, q), e') ↦ elim (Option-cases (enter cur part nodes)) [
          | inl lost ↦
              elim (skip_slashes q) as (λ l. skip_slashes q ≡ l → (nodes parent).used ≡ true) [
                | [] ↦ λ ends. ground (arith, e, e', ends, used)
                | d ∷ r ↦ λ goes_on. ground (arith, e, e', goes_on, lost)
              ]
                refl
          | inr (cur', e'') ↦
              elim (skip_slashes q) as (λ l. skip_slashes q ≡ l → (nodes parent).used ≡ true) [
                | [] ↦ λ ends. ground (arith, e, e', ends, used)
                | d ∷ r ↦ λ goes_on.
                    split_from-used fuel cur' (d ∷ r) parent name
                      (enter-used cur cur' part used e'') (ground (arith, e, e', goes_on, e''))
              ]
                refl
        ]
      ]

split-used :
    (path : List ℕ) (s : Fs) (parent : ℕ) (name : List ℕ)
    → HasTree s.nodes
    → (s.nodes s.cwd_node).used ≡ true
    → split_parent_and_name path s ≡ some (parent, name)
    → (s.nodes parent).used ≡ true
unfolding split_parent_and_name
split-used [] s parent name h home e =
    split_from-used s.nodes h (length (skip_slashes [])) s.cwd_node (skip_slashes []) parent name
      home e
split-used (c ∷ p) s parent name h home e =
    split_from-used s.nodes h (length (skip_slashes (c ∷ p))) (start_of (c ∷ p) s)
      (skip_slashes (c ∷ p)) parent name (ground (arith, h.tree.root_used, home)) e

mv_node-HasTree :
    (src dst : ℕ) (name : List ℕ) (s : Fs)
    → HasTree s.nodes
    → src ≢ 0
    → (s.nodes dst).used ≡ true
    → length name ≤ fs_name_max
    → cannot_move src dst name s.nodes ≡ false
    → HasTree (mv_node src dst name s).1.nodes
unfolding mv_node cannot_move
mv_node-HasTree src dst name s h inner dst_used fits allowed =
    elim (Bool-cases (s.nodes src).used) [
      | inr free ↦ rw (unlink_unused src s free, mv_node) h
      | inl used ↦
          let (old, above) = h.tree.placed src used inner in
          let (g, e, u) =
            unlink_node_from_parent-IsUnlinked s h.kids h.depth h.tree old src used above in
          let dst_dir : (s.nodes dst).is_dir ≡ true = ground (arith, allowed) in
          let missing : find_child dst name s.nodes ≡ none =
            elim (Option-cases (find_child dst name s.nodes)) [
              | inl none_there ↦ none_there
              | inr (n, exists) ↦ ground (arith, allowed, exists)
            ] in
          let free : under s.nodes h.kids h.depth h.tree src dst ≡ false =
            elim (Bool-cases (s.nodes src).is_dir) [
              | inl dir ↦
                  not_under s.nodes h.kids h.depth h.tree src fs_max_nodes dst dst_used
                    (ground (arith, allowed, dir))
              | inr file ↦
                  not_under-alone s.nodes h.kids h.depth h.tree src dst (h.tree.leaf src used file)
                    dst_used
                    (λ same. ground (arith, file, dst_dir, ap (λ k. (s.nodes k).is_dir) same))
            ] in
          let fresh_name : (i : ℕ)
              → elem i (h.kids dst) ≡ true
              → (s.nodes i).name ≢ str_copy name (fs_name_max + 1) =
            λ i inside q. ground (
              arith,
              find_child-none s.nodes h.kids h.depth h.tree dst name dst_used missing i inside,
              ap (λ l. str_eq l name)
                  (q ∙ str_copy-short (fs_name_max + 1) name (omega (arith, fits))),
              str_eq_refl name,
            ) in
          rw (e, mv_node)
            (record {
              kids =
                  moved s.nodes g h.kids h.depth h.tree old src dst used above u name dst_used
                    dst_dir free fresh_name;
              depth =
                  sunk s.nodes g h.kids h.depth h.tree old src dst used above u name dst_used
                    dst_dir free fresh_name;
              tree =
                  moved-IsTree s.nodes g h.kids h.depth h.tree old src dst used above u name
                    dst_used dst_dir free fresh_name;
            })
    ]

mv-HasTree :
    (src_path dst_path : List ℕ) (s : Fs)
    → HasTree s.nodes
    → (s.nodes s.cwd_node).used ≡ true
    → HasTree (fs_mv src_path dst_path s).1.nodes
unfolding fs_mv
mv-HasTree src_path dst_path s h home = elim (Option-cases (resolve_path src_path s)) [
  | inl missing ↦ rw (missing, fs_mv) h
  | inr (src, e) ↦ elim (Bool-cases (src == 0)) [
    | inl root ↦ rw (e, root, fs_mv) h
    | inr inner ↦ elim (Option-cases (split_parent_and_name dst_path s)) [
      | inl bad ↦ rw (e, inner, bad, fs_mv) h
      | inr ((dst, name), e') ↦ elim (Bool-cases (cannot_move src dst name s.nodes)) [
        | inl refused ↦ rw (e, inner, e', refused, fs_mv) h
        | inr allowed ↦
            rw (e, inner, e', allowed, fs_mv)
              (mv_node-HasTree src dst name s h (ground (arith, inner))
                (split-used dst_path s dst name h home e')
                (split_parent_and_name-IsSplit dst_path s dst name e').fits allowed)
      ]
    ]
  ]
]

-- The calls that change the table or the current directory.
pub data Call : Type 0 where
  mkdir touch rm cd : List ℕ → Call
  write : List ℕ → Source → ℕ → Call
  cp mv : List ℕ → List ℕ → Call

unfoldable pub run : Call → Fs → Bool × Fs
run (mkdir path) s = fs_mkdir path s
run (touch path) s = fs_touch path s
run (rm path) s = fs_rm path s
run (cd path) s = fs_cd path s
run (write path from size) s = fs_write_file path from size s
run (cp src dst) s = fs_cp src dst s
run (mv src dst) s = fs_mv src dst s

-- While the current directory is in use, every call leaves the table a tree: no lost nodes, no
-- loops, no name twice in a directory.
pub run-HasTree :
    (c : Call) (s : Fs)
    → HasTree s.nodes
    → (s.nodes s.cwd_node).used ≡ true
    → HasTree (run c s).1.nodes
unfolding run
run-HasTree (mkdir path) s h home = mkdir-HasTree path s h
run-HasTree (touch path) s h home = touch-HasTree path s h
run-HasTree (rm path) s h home = rm-HasTree path s h
run-HasTree (cd path) s h home = cd-HasTree path s h
run-HasTree (write path from size) s h home = write-HasTree path from size s h
run-HasTree (cp src dst) s h home = cp-HasTree src dst s h
run-HasTree (mv src dst) s h home = mv-HasTree src dst s h home
