-- ===== src/Fs/Unlink.antt =====
-- kernel/fs.c: `unlink_node_from_parent` on a tree.
use mathlib.Core.Path.{subst}
use tg11_os.Prelude.{
  ℕ, ◌≤◌, true, false, none, some, List, [], ◌∷◌, ◌==◌, length, ◌≡◌, ◌≢◌, refl, ap, arith,
  Bool-cases, inl, inr, ==-ne,
}
use tg11_os.Prelude.Distinct.{elem, IsDistinct, without}
use tg11_os.Fs.{Node, Fs, modify, fs_max_nodes, unlink_from, unlink_node_from_parent}
use tg11_os.Fs.Chain.{IsChain, IsChain-ext, skip_next, unlink_from-elem}
use tg11_os.Fs.Tree.{IsTree, length_kids}

-- `g` is `f` with `idx` taken out of the list `siblings` of `parent`.
pub record IsUnlinked (f g : ℕ → Node) (siblings : List ℕ) (parent idx : ℕ) : Type 0 where
  pub same :
      (i : ℕ)
      → ((g i).used ≡ (f i).used)
        × ((g i).is_dir ≡ (f i).is_dir)
        × ((g i).parent ≡ (f i).parent)
        × ((g i).name ≡ (f i).name)
  pub same_first : (i : ℕ) → i ≢ parent → (g i).first_child ≡ (f i).first_child
  pub same_next : (i : ℕ) → elem i siblings ≡ false → (g i).next_sibling ≡ (f i).next_sibling
  pub chain : IsChain g (g parent).first_child (without idx siblings)

-- The walk from the head of the list.
unlink_list :
    (f : ℕ → Node) (parent idx : ℕ) (siblings : List ℕ)
    → IsChain f (f parent).first_child siblings
    → IsDistinct siblings
    → length siblings ≤ fs_max_nodes
    → elem idx siblings ≡ true
    → (g : ℕ → Node) × (unlink_from fs_max_nodes idx parent none (f parent).first_child f ≡ some g)
      × IsUnlinked f g siblings parent idx
unfolding unlink_from
unlink_list f parent idx [] h d le inside = ground (arith, inside)
unlink_list f parent idx (x ∷ xs) h d le inside = elim (Bool-cases (x == idx)) [
  | inl here ↦
      let g = modify f parent (λ n. record n { first_child = (f x).next_sibling }) in
      (
        g,
        ground (arith, h.0, here),
        record {
          same = λ i. (ground arith, ground arith, ground arith, ground arith);
          same_first = λ i ne. ground arith;
          same_next = λ i out. ground arith;
          chain = rw here (
              subst (λ a. IsChain g a xs) (ground arith)
                (IsChain-ext f g (f x).next_sibling xs (λ i among. ground arith) h.1));
        },
      )
  | inr other ↦
      let (q, e, inside', apart, chain) =
        unlink_from-elem f 255 idx parent x (f x).next_sibling xs h.1 d.1 d.0 refl (omega arith)
          (ground (arith, inside, other)) in
      (skip_next q idx f, ground (arith, h.0, other, e), skipped q inside' chain other)
]
  where
    skipped :
        (q : ℕ)
        → elem q (x ∷ xs) ≡ true
        → IsChain (skip_next q idx f) (skip_next q idx f x).next_sibling (without idx xs)
        → (x == idx) ≡ false
        → IsUnlinked f (skip_next q idx f) (x ∷ xs) parent idx
    skipped q inside' chain other = record {
      same = λ i. (ground arith, ground arith, ground arith, ground arith);
      same_first = λ i ne. ground arith;
      same_next = λ i out. ground (arith, out, inside');
      chain = rw other (ground (arith, h.0), chain);
    }

module _ (s : Fs) (kids : ℕ → List ℕ) (depth : ℕ → ℕ) (t : IsTree s.nodes kids depth)
    (parent idx : ℕ) (used : (s.nodes idx).used ≡ true)
    (above : (s.nodes idx).parent ≡ some parent) where
  not_root : idx ≢ 0
  not_root e = ground (arith, t.root_top, above, ap (λ i. (s.nodes i).parent) e)

  -- In a tree every used node but the root can be taken out of its list.
  pub unlink_node_from_parent-IsUnlinked :
      (g : ℕ → Node) × (unlink_node_from_parent idx s ≡ some (record s { nodes = g }))
      × IsUnlinked s.nodes g (kids parent) parent idx
  unfolding unlink_node_from_parent
  unlink_node_from_parent-IsUnlinked =
      let l = t.listed idx parent used above in
      let (g, e, u) =
        unlink_list s.nodes parent idx (kids parent) (t.chain parent l.0) (t.distinct parent l.0)
          (length_kids s.nodes kids depth t parent l.0) l.1 in
      (g, rw (==-ne idx 0 not_root, used, above, e) refl, u)
