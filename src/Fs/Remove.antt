-- ===== src/Fs/Remove.antt =====
-- kernel/fs.c: `fs_rm` keeps the table a tree.
use mathlib.Core.Path.{subst}
use tg11_os.Prelude.{
  ℕ, true, false, not, ◌&&◌, ◌||◌, none, List, [], ◌∷◌, ◌==◌, ◌≡◌, ◌≢◌, refl, arith, Bool-cases,
  Option-cases, inl, inr,
}
use tg11_os.Fs.{Node, Fs, unlink_node_from_parent}
use tg11_os.Fs.Paths.{resolve_path}
use tg11_os.Fs.Chain.{IsChain}
use tg11_os.Fs.Tree.{IsTree}
use tg11_os.Fs.Unlink.{unlink_node_from_parent-IsUnlinked}
use tg11_os.Fs.Detach.{detached}
use tg11_os.Fs.Shrink.{shrunk-IsTree}
use tg11_os.Fs.Keep.{HasTree}
use tg11_os.Fs.Ops.{is_empty_dir, rm_node, fs_rm}

-- Without a first child the list is empty.
no_kids :
    (nodes : ℕ → Node) (kids : ℕ → List ℕ) (depth : ℕ → ℕ)
    → IsTree nodes kids depth
    → (d : ℕ) → (nodes d).used ≡ true
    → ((nodes d).is_dir && not (is_empty_dir (nodes d))) ≡ false
    → kids d ≡ []
no_kids nodes kids depth t d used empty = elim (Bool-cases (nodes d).is_dir) [
  | inr file ↦ t.leaf d used file
  | inl dir ↦ elim (Option-cases (nodes d).first_child) [
    | inr (c, e) ↦ ground (arith, empty, dir, e)
    | inl e ↦ ends (kids d) (subst (λ o. IsChain nodes o (kids d)) e (t.chain d used))
  ]
]
  where
    ends : (l : List ℕ) → IsChain nodes none l → l ≡ []
    ends [] h = refl
    ends (x ∷ xs) h = ground (arith, h.0)

pub unlink_unused :
    (node : ℕ) (s : Fs) → (s.nodes node).used ≡ false → unlink_node_from_parent node s ≡ none
unfolding unlink_node_from_parent
unlink_unused node s free = ground (arith, free)

rm_node-HasTree :
    (node : ℕ) (s : Fs)
    → HasTree s.nodes
    → node ≢ 0
    → ((s.nodes node).is_dir && not (is_empty_dir (s.nodes node))) ≡ false
    → HasTree (rm_node node s).1.nodes
unfolding rm_node
rm_node-HasTree node s h inner empty = elim (Bool-cases (s.nodes node).used) [
  | inr free ↦ rw (unlink_unused node s free, rm_node) h
  | inl used ↦
      let (p, above) = h.tree.placed node used inner in
      let (g, e, u) =
        unlink_node_from_parent-IsUnlinked s h.kids h.depth h.tree p node used above in
      rw (e, rm_node)
        (record {
          kids = detached h.kids p node;
          depth = h.depth;
          tree =
              shrunk-IsTree s.nodes g h.kids h.depth h.tree p node used above
                (no_kids s.nodes h.kids h.depth h.tree node used empty) u inner;
        })
]

pub rm-HasTree : (path : List ℕ) (s : Fs) → HasTree s.nodes → HasTree (fs_rm path s).1.nodes
unfolding fs_rm
rm-HasTree path s h = elim (Option-cases (resolve_path path s)) [
  | inl missing ↦ rw (missing, fs_rm) h
  | inr (node, e) ↦
      elim (Bool-cases
        (node == 0 || ((s.nodes node).is_dir && not (is_empty_dir (s.nodes node))))) [
          | inl refused ↦ rw (e, refused, fs_rm) h
          | inr allowed ↦
              rw (e, allowed, fs_rm)
                (rm_node-HasTree node s h (ground (arith, allowed)) (ground (arith, allowed)))
        ]
]
