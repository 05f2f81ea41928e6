-- ===== src/Fs/Shrink.antt =====
-- kernel/fs.c: a table stays a tree when `fs_rm` frees a node without children.
use mathlib.Core.Path.{subst}
use tg11_os.Prelude.{
  ℕ, true, false, not, ◌&&◌, some, List, [], ◌∷◌, ◌==◌, ◌≡◌, ◌≢◌, refl, sym, ap, ◌∙◌, arith,
}
use tg11_os.Prelude.Distinct.{elem}
use tg11_os.Fs.{Node, modify}
use tg11_os.Fs.Ops.{freed}
use tg11_os.Fs.Chain.{IsChain, IsChain-ext}
use tg11_os.Fs.Tree.{IsTree}
use tg11_os.Fs.Unlink.{IsUnlinked}
use tg11_os.Fs.Detach.{IsDetached, detached, unlinked-IsDetached}

module _ (f g : ℕ → Node) (kids : ℕ → List ℕ) (depth : ℕ → ℕ) (t : IsTree f kids depth)
    (parent idx : ℕ) (used : (f idx).used ≡ true) (above : (f idx).parent ≡ some parent)
    (alone : kids idx ≡ []) (u : IsUnlinked f g (kids parent) parent idx) where
  lists : IsDetached f g kids idx (detached kids parent idx)
  lists = unlinked-IsDetached f g kids depth t parent idx used above u

  after : ℕ → Node
  after = modify g idx freed

  still_used : (i : ℕ) → (after i).used ≡ true → ((f i).used ≡ true) × (i ≢ idx)
  unfolding after
  still_used i h = (ground (arith, h, u.same i), ground (arith, h))

  same_fields :
      (i : ℕ)
      → i ≢ idx
      → ((after i).used ≡ (f i).used)
        × ((after i).is_dir ≡ (f i).is_dir)
        × ((after i).parent ≡ (f i).parent)
        × ((after i).name ≡ (f i).name)
  unfolding after
  same_fields i ne = (
    ground (arith, u.same i),
    ground (arith, u.same i),
    ground (arith, u.same i),
    ground (arith, u.same i),
  )

  after_links :
      (i : ℕ)
      → i ≢ idx
      → ((after i).first_child ≡ (g i).first_child) × ((after i).next_sibling ≡ (g i).next_sibling)
  unfolding after
  after_links i ne = (ground arith, ground arith)

  not_idx : (d i : ℕ) → (f d).used ≡ true → elem i (detached kids parent idx d) ≡ true → i ≢ idx
  not_idx d i used_d inside = ground (arith, lists.members d i used_d, inside)

  after-IsChain :
      (d : ℕ)
      → (f d).used ≡ true
      → d ≢ idx
      → IsChain after (after d).first_child (detached kids parent idx d)
  after-IsChain d used_d ne =
      subst (λ o. IsChain after o (detached kids parent idx d)) (sym (after_links d ne).0)
        (IsChain-ext g after (g d).first_child (detached kids parent idx d)
          (λ i inside. (after_links i (not_idx d i used_d inside)).1) (lists.chain d used_d))

  listed_after :
      (i p : ℕ)
      → (after i).used ≡ true
      → (after i).parent ≡ some p
      → ((after p).used ≡ true) × (elem i (detached kids parent idx p) ≡ true)
  listed_after i p h e =
      let (used_i, ne) = still_used i h in
      let l = t.listed i p used_i (sym (same_fields i ne).2 ∙ e) in
      let apart : p ≢ idx = λ same. ground (arith, alone, l.1, ap (λ k. elem i (kids k)) same) in
      ((same_fields p apart).0 ∙ l.0, lists.members p i l.0 ∙ ground (arith, l.1, ne))

  leaf_after : (d : ℕ) → (f d).used ≡ true → (f d).is_dir ≡ false → detached kids parent idx d ≡ []
  leaf_after d used_d file =
      no_elem (detached kids parent idx d) (λ i.
        lists.members d i used_d ∙ ap (λ l. elem i l && not (i == idx)) (t.leaf d used_d file))
    where
      no_elem : (l : List ℕ) → ((i : ℕ) → elem i l ≡ false) → l ≡ []
      no_elem [] none_in = refl
      no_elem (x ∷ xs) none_in = ground (arith, none_in x)

  pub shrunk-IsTree : idx ≢ 0 → IsTree (modify g idx freed) (detached kids parent idx) depth
  unfolding after
  shrunk-IsTree inner = record {
    root_used = (same_fields 0 (λ q. inner (sym q))).0 ∙ t.root_used;
    root_dir = (same_fields 0 (λ q. inner (sym q))).1 ∙ t.root_dir;
    root_top = (same_fields 0 (λ q. inner (sym q))).2 ∙ t.root_top;
    chain = λ d h. after-IsChain d (still_used d h).0 (still_used d h).1;
    distinct = λ d h. lists.distinct d (still_used d h).0;
    child = λ d i h inside.
        let (used_d, ne) = still_used d h in
        let both = sym (lists.members d i used_d) ∙ inside in
        let c = t.child d i used_d (ground (arith, both)) in
        let o = same_fields i (not_idx d i used_d inside) in (o.0 ∙ c.0, o.2 ∙ c.1, c.2);
    listed = listed_after;
    placed = λ i h inner'.
        let (used_i, ne) = still_used i h in
        let (p, e) = t.placed i used_i inner' in (p, (same_fields i ne).2 ∙ e);
    leaf = λ d h file.
        let (used_d, ne) = still_used d h in leaf_after d used_d (sym (same_fields d ne).1 ∙ file);
    named = λ d i j h inside inside' e.
        let (used_d, ne) = still_used d h in
        let here = sym (lists.members d i used_d) ∙ inside in
        let here' = sym (lists.members d j used_d) ∙ inside' in
        t.named d i j used_d (ground (arith, here)) (ground (arith, here')) (
          sym (same_fields i (not_idx d i used_d inside)).3
          ∙ (e ∙ (same_fields j (not_idx d j used_d inside')).3));
    lower = λ i p h e.
        let (used_i, ne) = still_used i h in t.lower i p used_i (sym (same_fields i ne).2 ∙ e);
  }
