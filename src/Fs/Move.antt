-- ===== src/Fs/Move.antt =====
-- kernel/fs.c: a table stays a tree when `fs_mv` links a node into another directory.
use Prim.Native.Nat.{◌<◌}
use mathlib.Core.Path.{subst}
use tg11_os.Prelude.{
  ℕ, ◌+◌, Bool, true, false, not, ◌&&◌, some, List, [], ◌∷◌, ◌==◌, if◌then◌else◌, ◌≡◌, ◌≢◌, refl,
  sym, ap, ◌∙◌, arith, Bool-cases, inl, inr, ◌⊎◌, ==-eq, update,
}
use tg11_os.Prelude.Distinct.{elem, IsDistinct}
use tg11_os.Fs.{Node, fs_name_max, str_copy, fs_max_nodes}
use tg11_os.Fs.Ops.{move_to}
use tg11_os.Fs.Chain.{IsChain, IsChain-ext}
use tg11_os.Fs.Tree.{IsTree}
use tg11_os.Fs.Unlink.{IsUnlinked}
use tg11_os.Fs.Detach.{IsDetached, detached, unlinked-IsDetached}
use tg11_os.Fs.Above.{under, under_self, under-parent}

-- `g` is `f` with the unlinked `src` at the head of the list of `dst`.
record IsMoved (f g : ℕ → Node) (dst src : ℕ) (name : List ℕ) : Type 0 where
  new_parent : (g src).parent ≡ some dst
  new_next : (g src).next_sibling ≡ (f dst).first_child
  new_head : (g dst).first_child ≡ some src
  new_name : (g src).name ≡ name
  kind : (i : ℕ) → ((g i).used ≡ (f i).used) × ((g i).is_dir ≡ (f i).is_dir)
  others :
      (i : ℕ)
      → i ≢ src
      → ((g i).parent ≡ (f i).parent)
        × ((g i).next_sibling ≡ (f i).next_sibling)
        × ((g i).name ≡ (f i).name)
  same_first : (i : ℕ) → i ≢ dst → (g i).first_child ≡ (f i).first_child

move_to-IsMoved :
    (f : ℕ → Node) (dst src : ℕ) (name : List ℕ)
    → dst ≢ src
    → IsMoved f (move_to src dst name f) dst src (str_copy name (fs_name_max + 1))
unfolding move_to
move_to-IsMoved f dst src name apart = record {
  new_parent = ground (arith, apart);
  new_next = ground (arith, apart);
  new_head = ground (arith, apart);
  new_name = ground (arith, apart);
  kind = λ i. (ground (arith, apart), ground (arith, apart));
  others =
      λ i ne. (ground (arith, apart, ne), ground (arith, apart, ne), ground (arith, apart, ne));
  same_first = λ i ne. ground (arith, apart, ne);
}

module _ (f g : ℕ → Node) (kids : ℕ → List ℕ) (depth : ℕ → ℕ) (t : IsTree f kids depth)
    (old src dst : ℕ) (used : (f src).used ≡ true) (above : (f src).parent ≡ some old)
    (u : IsUnlinked f g (kids old) old src) (name : List ℕ) (dst_used : (f dst).used ≡ true)
    (dst_dir : (f dst).is_dir ≡ true) (free : under f kids depth t src dst ≡ false)
    (fresh_name : (i : ℕ)
      → elem i (kids dst) ≡ true
      → (f i).name ≢ str_copy name (fs_name_max + 1)) where
  below : ℕ → Bool
  below = under f kids depth t src

  apart : dst ≢ src
  apart e =
      ground (arith, free, under_self f kids depth t src, ap (λ k. under f kids depth t src k) e)

  after : ℕ → Node
  after = move_to src dst name g

  m : IsMoved g after dst src (str_copy name (fs_name_max + 1))
  unfolding after
  m = move_to-IsMoved g dst src name apart

  less : ℕ → List ℕ
  less = detached kids old src

  lists : IsDetached f g kids src less
  unfolding less
  lists = unlinked-IsDetached f g kids depth t old src used above u

  pub moved : ℕ → List ℕ
  moved = update less dst (src ∷ less dst)

  pub sunk : ℕ → ℕ
  sunk i = if below i then depth i + (depth dst + 1) else depth i

  moved-at_dst : moved dst ≡ src ∷ less dst
  unfolding moved
  moved-at_dst = ground arith

  moved-other : (d : ℕ) → d ≢ dst → moved d ≡ less d
  unfolding moved
  moved-other d ne = ground arith

  same_kind : (i : ℕ) → ((after i).used ≡ (f i).used) × ((after i).is_dir ≡ (f i).is_dir)
  same_kind i = ((m.kind i).0 ∙ (u.same i).0, (m.kind i).1 ∙ (u.same i).1)

  same_rest : (i : ℕ) → i ≢ src → ((after i).parent ≡ (f i).parent) × ((after i).name ≡ (f i).name)
  same_rest i ne = ((m.others i ne).0 ∙ (u.same i).2, (m.others i ne).2 ∙ (u.same i).3)

  was_kid :
      (d i : ℕ) → (f d).used ≡ true → elem i (less d) ≡ true → (elem i (kids d) ≡ true) × (i ≢ src)
  was_kid d i used_d inside = (
    ground (arith, lists.members d i used_d, inside),
    ground (arith, lists.members d i used_d, inside),
  )

  -- A claim on the list of every used node follows from two.
  each :
      (P : ℕ → List ℕ → Type 0)
      → P dst (src ∷ less dst)
      → ((d : ℕ) → (f d).used ≡ true → d ≢ dst → P d (less d))
      → (d : ℕ) → (after d).used ≡ true
      → P d (moved d)
  each P at_dst other d h = elim (Bool-cases (d == dst)) [
    | inl here ↦
        subst (λ k. P k (moved k)) (sym (==-eq _ _ here))
          (subst (λ l. P dst l) (sym moved-at_dst) at_dst)
    | inr ne ↦
        subst (λ l. P d l) (sym (moved-other d (ground (arith, ne))))
          (other d (sym (same_kind d).0 ∙ h) (ground (arith, ne)))
  ]

  less-IsChain : (d : ℕ) → (f d).used ≡ true → IsChain after (g d).first_child (less d)
  less-IsChain d used_d =
      IsChain-ext g after (g d).first_child (less d)
        (λ i inside. (m.others i (was_kid d i used_d inside).1).1) (lists.chain d used_d)

  less_child :
      (d i : ℕ)
      → (f d).used ≡ true
      → elem i (less d) ≡ true
      → ((after i).used ≡ true) × ((after i).parent ≡ some d) × (i < fs_max_nodes)
  less_child d i used_d inside =
      let (was, ne) = was_kid d i used_d inside in
      let c = t.child d i used_d was in ((same_kind i).0 ∙ c.0, (same_rest i ne).0 ∙ c.1, c.2)

  src_child : ((after src).used ≡ true) × ((after src).parent ≡ some dst) × (src < fs_max_nodes)
  src_child =
      let l = t.listed src old used above in
      ((same_kind src).0 ∙ used, m.new_parent, (t.child old src l.0 l.1).2)

  child_of_dst :
      (i : ℕ)
      → elem i (src ∷ less dst) ≡ true
      → ((i == src) ≡ true) ⊎ ((i == src) ≡ false)
      → ((after i).used ≡ true) × ((after i).parent ≡ some dst) × (i < fs_max_nodes)
  child_of_dst i inside (inl here) =
      subst (λ k. ((after k).used ≡ true) × ((after k).parent ≡ some dst) × (k < fs_max_nodes))
        (sym (==-eq _ _ here)) src_child
  child_of_dst i inside (inr ne) = less_child dst i dst_used (ground (arith, inside, ne))

  src_out : elem src (less dst) ≡ false
  src_out = ground (arith, lists.members dst src dst_used)

  -- Children stay in the list of their parent.
  stays : (i p : ℕ) → (f p).used ≡ true → elem i (kids p) ≡ true → i ≢ src → elem i (moved p) ≡ true
  stays i p used_p inside ne = elim (Bool-cases (p == dst)) [
    | inl here ↦
        subst (λ k. elem i (moved k) ≡ true) (sym (==-eq _ _ here))
          (ap (λ l. elem i l) moved-at_dst
            ∙ ground (
              arith,
              lists.members dst i dst_used,
              inside,
              ne,
              ap (λ k. elem i (kids k)) (==-eq _ _ here),
            ))
    | inr other ↦
        ap (λ l. elem i l) (moved-other p (ground (arith, other)))
        ∙ (lists.members p i used_p ∙ ground (arith, inside, ne))
  ]

  listed_after :
      (i p : ℕ)
      → (after i).used ≡ true
      → (after i).parent ≡ some p
      → ((i == src) ≡ true) ⊎ ((i == src) ≡ false)
      → ((after p).used ≡ true) × (elem i (moved p) ≡ true)
  listed_after i p h e (inl here) =
      let to : dst ≡ p =
        ground (arith, e, m.new_parent, ap (λ k. (after k).parent) (==-eq i src here)) in
      subst (λ k. ((after k).used ≡ true) × (elem i (moved k) ≡ true)) to
        ((same_kind dst).0 ∙ dst_used, ap (λ l. elem i l) moved-at_dst ∙ ground (arith, here))
  listed_after i p h e (inr ne) =
      let other : i ≢ src = ground (arith, ne) in
      let l = t.listed i p (sym (same_kind i).0 ∙ h) (sym (same_rest i other).0 ∙ e) in
      ((same_kind p).0 ∙ l.0, stays i p l.0 l.1 other)

  placed_after :
      (i : ℕ)
      → (after i).used ≡ true
      → i ≢ 0
      → ((i == src) ≡ true) ⊎ ((i == src) ≡ false)
      → (p : ℕ) × ((after i).parent ≡ some p)
  placed_after i h inner (inl here) =
      (dst, ap (λ k. (after k).parent) (==-eq _ _ here) ∙ m.new_parent)
  placed_after i h inner (inr ne) =
      let (p, e) = t.placed i (sym (same_kind i).0 ∙ h) inner in
      (p, (same_rest i (ground (arith, ne))).0 ∙ e)

  less_named :
      (d : ℕ)
      → (f d).used ≡ true
      → (i j : ℕ) → elem i (less d) ≡ true
      → elem j (less d) ≡ true
      → (after i).name ≡ (after j).name
      → i ≡ j
  less_named d used_d i j inside inside' e =
      let (was, ne) = was_kid d i used_d inside in
      let (was', ne') = was_kid d j used_d inside' in
      t.named d i j used_d was was' (sym (same_rest i ne).1 ∙ (e ∙ (same_rest j ne').1))

  new_named : (i : ℕ) → elem i (less dst) ≡ true → (after i).name ≢ (after src).name
  new_named i inside e =
      let (was, ne) = was_kid dst i dst_used inside in
      fresh_name i was (sym (same_rest i ne).1 ∙ (e ∙ m.new_name))

  named_in_dst :
      (i j : ℕ)
      → elem i (src ∷ less dst) ≡ true
      → elem j (src ∷ less dst) ≡ true
      → (after i).name ≡ (after j).name
      → ((i == src) ≡ true) ⊎ ((i == src) ≡ false)
      → ((j == src) ≡ true) ⊎ ((j == src) ≡ false)
      → i ≡ j
  named_in_dst i j inside inside' e (inl here) (inl here') = ==-eq _ _ here ∙ sym (==-eq _ _ here')
  named_in_dst i j inside inside' e (inl here) (inr ne) = absurd (
      new_named j (ground (arith, inside', ne)) (sym e ∙ ap (λ k. (after k).name) (==-eq _ _ here)))
  named_in_dst i j inside inside' e (inr ne) (inl here) =
      absurd
        (new_named i (ground (arith, inside, ne)) (e ∙ ap (λ k. (after k).name) (==-eq _ _ here)))
  named_in_dst i j inside inside' e (inr ne) (inr ne') =
      less_named dst dst_used i j (ground (arith, inside, ne)) (ground (arith, inside', ne')) e

  lower_after :
      (i p : ℕ)
      → (after i).used ≡ true
      → (after i).parent ≡ some p
      → ((i == src) ≡ true) ⊎ ((i == src) ≡ false)
      → sunk p < sunk i
  unfolding sunk below
  lower_after i p h e (inl here) =
      let to : dst ≡ p =
        ground (arith, e, m.new_parent, ap (λ k. (after k).parent) (==-eq i src here)) in
      subst (λ k. sunk k < sunk i) to
        (subst (λ k. sunk dst < sunk k) (sym (==-eq i src here)) sunk_src)
    where
      sunk_src : sunk dst < sunk src
      sunk_src = rw (free, under_self f kids depth t src) (omega arith)
  lower_after i p h e (inr ne) =
      let other : i ≢ src = ground (arith, ne) in
      let used_i = sym (same_kind i).0 ∙ h in
      let up = sym (same_rest i other).0 ∙ e in
      let lower = t.lower i p used_i up in
      rw (under-parent f kids depth t src i p used_i other up)
        (sink (under f kids depth t src p) lower)
    where
      sink :
          (b : Bool)
          → depth p < depth i
          → (if b then depth p + (depth dst + 1) else depth p)
            < (if b then depth i + (depth dst + 1) else depth i)
      sink true lt = omega arith
      sink false lt = lt

  no_elem : (l : List ℕ) → ((i : ℕ) → elem i l ≡ false) → l ≡ []
  no_elem [] none_in = refl
  no_elem (x ∷ xs) none_in = ground (arith, none_in x)

  src_inner : 0 ≢ src
  src_inner e = ground (arith, t.root_top, above, ap (λ i. (f i).parent) e)

  leaf_after : (d : ℕ) → (f d).used ≡ true → (f d).is_dir ≡ false → less d ≡ []
  leaf_after d used_d file =
      no_elem (less d) (λ i.
        lists.members d i used_d ∙ ap (λ l. elem i l && not (i == src)) (t.leaf d used_d file))

  pub moved-IsTree : IsTree (move_to src dst name g) moved sunk
  unfolding after
  moved-IsTree = record {
    root_used = (same_kind 0).0 ∙ t.root_used;
    root_dir = (same_kind 0).1 ∙ t.root_dir;
    root_top = (same_rest 0 src_inner).0 ∙ t.root_top;
    chain =
        each (λ d l. IsChain after (after d).first_child l)
          (
            m.new_head,
            subst (λ o. IsChain after o (less dst)) (sym m.new_next) (less-IsChain dst dst_used),
          )
          (λ d used_d ne.
            subst (λ o. IsChain after o (less d)) (sym (m.same_first d ne))
              (less-IsChain d used_d));
    distinct =
        each (λ d l. IsDistinct l) (src_out, lists.distinct dst dst_used)
          (λ d used_d ne. lists.distinct d used_d);
    child = λ d i h.
        each
          (λ d l.
            (i : ℕ)
            → elem i l ≡ true
            → ((after i).used ≡ true) × ((after i).parent ≡ some d) × (i < fs_max_nodes))
          (λ i inside. child_of_dst i inside (Bool-cases (i == src)))
          (λ d used_d ne i inside. less_child d i used_d inside) d h i;
    listed = λ i p h e. listed_after i p h e (Bool-cases (i == src));
    placed = λ i h inner. placed_after i h inner (Bool-cases (i == src));
    leaf =
        each (λ d l. (after d).is_dir ≡ false → l ≡ [])
          (λ file. ground (arith, file, dst_dir, same_kind dst))
          (λ d used_d ne file. leaf_after d used_d (sym (same_kind d).1 ∙ file));
    named = λ d i j h.
        each
          (λ d l.
            (i j : ℕ) → elem i l ≡ true → elem j l ≡ true → (after i).name ≡ (after j).name → i ≡ j)
          (λ i j inside inside' e.
            named_in_dst i j inside inside' e (Bool-cases (i == src)) (Bool-cases (j == src)))
          (λ d used_d ne. less_named d used_d) d h i j;
    lower = λ i p h e. lower_after i p h e (Bool-cases (i == src));
  }
