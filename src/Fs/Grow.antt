-- ===== src/Fs/Grow.antt =====
-- kernel/fs.c: a new node keeps the table a tree.
use Prim.Native.Nat.{◌<◌}
use mathlib.Core.Path.{subst}
use tg11_os.Prelude.{
  ℕ, ◌+◌, true, false, none, some, List, [], ◌∷◌, ◌==◌, ◌≡◌, ◌≢◌, refl, sym, ap, ◌∙◌, arith,
  Bool-cases, inl, inr, ◌⊎◌, ==-eq, update,
}
use tg11_os.Prelude.Distinct.{elem, IsDistinct}
use tg11_os.Fs.{Node, fs_max_nodes}
use tg11_os.Fs.Chain.{IsChain, IsChain-ext}
use tg11_os.Fs.Tree.{IsTree}

-- `g` is `f` with a new node `idx` at the head of the list of `parent`.
pub record IsGrown (f g : ℕ → Node) (parent idx : ℕ) : Type 0 where
  pub was_free : (f idx).used ≡ false
  pub in_table : idx < fs_max_nodes
  pub not_root : idx ≢ 0
  pub in_use : (f parent).used ≡ true
  pub in_dir : (f parent).is_dir ≡ true
  pub new_used : (g idx).used ≡ true
  pub new_parent : (g idx).parent ≡ some parent
  pub new_first : (g idx).first_child ≡ none
  pub new_next : (g idx).next_sibling ≡ (f parent).first_child
  pub new_head : (g parent).first_child ≡ some idx
  pub others :
      (i : ℕ)
      → i ≢ idx
      → ((g i).used ≡ (f i).used)
        × ((g i).is_dir ≡ (f i).is_dir)
        × ((g i).parent ≡ (f i).parent)
        × ((g i).next_sibling ≡ (f i).next_sibling)
        × ((g i).name ≡ (f i).name)
  pub same_first : (i : ℕ) → i ≢ idx → i ≢ parent → (g i).first_child ≡ (f i).first_child

module _ (f g : ℕ → Node) (kids : ℕ → List ℕ) (depth : ℕ → ℕ) (parent idx : ℕ)
    (t : IsTree f kids depth) (n : IsGrown f g parent idx)
    (fresh_name : (i : ℕ) → elem i (kids parent) ≡ true → (f i).name ≢ (g idx).name) where
  abbrev pub grown : ℕ → List ℕ
  grown = update (update kids idx []) parent (idx ∷ kids parent)

  abbrev pub deepened : ℕ → ℕ
  deepened = update depth idx (depth parent + 1)

  apart : idx ≢ parent
  apart e = ground (arith, n.was_free, n.in_use, ap (λ i. (f i).used) e)

  -- No used node of `f` is `idx`.
  old : (i : ℕ) → (f i).used ≡ true → i ≢ idx
  old i used e = ground (arith, n.was_free, used, ap (λ i. (f i).used) e)

  not_listed : (d : ℕ) → (f d).used ≡ true → elem idx (kids d) ≡ false
  not_listed d used = elim (Bool-cases (elem idx (kids d))) [
    | inr out ↦ out
    | inl inside ↦ ground (arith, n.was_free, t.child d idx used inside)
  ]

  used_before : (i : ℕ) → (g i).used ≡ true → i ≢ idx → (f i).used ≡ true
  used_before i used ne = ground (arith, n.others i ne)

  same-IsChain : (d : ℕ) → (f d).used ≡ true → IsChain g (f d).first_child (kids d)
  same-IsChain d used =
      IsChain-ext f g (f d).first_child (kids d)
        (λ i inside. (n.others i (old i (t.child d i used inside).0)).3) (t.chain d used)

  grown-at_parent : grown parent ≡ idx ∷ kids parent
  grown-at_parent = ground arith

  grown-at_idx : grown idx ≡ []
  grown-at_idx = ground (arith, apart)

  grown-other : (d : ℕ) → d ≢ parent → d ≢ idx → grown d ≡ kids d
  grown-other d ne ne' = ground arith

  -- A claim on every used node of `g` and its children follows from three.
  each :
      (P : ℕ → List ℕ → Type 0)
      → P parent (idx ∷ kids parent)
      → P idx []
      → ((d : ℕ) → (f d).used ≡ true → d ≢ parent → d ≢ idx → P d (kids d))
      → (d : ℕ) → (g d).used ≡ true
      → P d (grown d)
  each P at_parent at_idx other d used = elim (Bool-cases (d == parent)) [
    | inl here ↦
        subst (λ k. P k (grown k)) (sym (==-eq _ _ here))
          (subst (λ l. P parent l) (sym grown-at_parent) at_parent)
    | inr ne ↦ elim (Bool-cases (d == idx)) [
      | inl here ↦
          subst (λ k. P k (grown k)) (sym (==-eq _ _ here))
            (subst (λ l. P idx l) (sym grown-at_idx) at_idx)
      | inr ne' ↦
          subst (λ l. P d l) (sym (grown-other d (ground arith) (ground arith)))
            (other d (used_before d used (ground arith)) (ground arith) (ground arith))
    ]
  ]

  kept_child :
      (d i : ℕ)
      → (f d).used ≡ true
      → elem i (kids d) ≡ true
      → ((g i).used ≡ true) × ((g i).parent ≡ some d) × (i < fs_max_nodes)
  kept_child d i used inside =
      let c = t.child d i used inside in
      let o = n.others i (old i c.0) in (o.0 ∙ c.0, o.2 ∙ c.1, c.2)

  child_of_parent :
      (i : ℕ)
      → elem i (idx ∷ kids parent) ≡ true
      → ((i == idx) ≡ true) ⊎ ((i == idx) ≡ false)
      → ((g i).used ≡ true) × ((g i).parent ≡ some parent) × (i < fs_max_nodes)
  child_of_parent i inside (inl new) =
      subst (λ k. ((g k).used ≡ true) × ((g k).parent ≡ some parent) × (k < fs_max_nodes))
        (sym (==-eq _ _ new)) (n.new_used, n.new_parent, n.in_table)
  child_of_parent i inside (inr ne) = kept_child parent i n.in_use (ground (arith, inside, ne))

  listed_now :
      (i p : ℕ)
      → (g i).used ≡ true
      → (g i).parent ≡ some p
      → ((i == idx) ≡ true) ⊎ ((i == idx) ≡ false)
      → ((g p).used ≡ true) × (elem i (grown p) ≡ true)
  listed_now i p used e (inl new) =
      let here : parent ≡ p =
        ground (arith, e, n.new_parent, ap (λ k. (g k).parent) (==-eq i idx new)) in
      subst (λ k. ((g k).used ≡ true) × (elem i (grown k) ≡ true)) here
        ((n.others parent (λ q. apart (sym q))).0 ∙ n.in_use, ground (arith, new))
  listed_now i p used e (inr ne) =
      let o = n.others i (ground (arith, ne)) in
      let l = t.listed i p (sym o.0 ∙ used) (sym o.2 ∙ e) in
      let stays = old p l.0 in ((n.others p stays).0 ∙ l.0, ground (arith, l.1, stays))

  placed_now :
      (i : ℕ)
      → (g i).used ≡ true
      → i ≢ 0
      → ((i == idx) ≡ true) ⊎ ((i == idx) ≡ false)
      → (p : ℕ) × ((g i).parent ≡ some p)
  placed_now i used inner (inl new) =
      (parent, ap (λ k. (g k).parent) (==-eq _ _ new) ∙ n.new_parent)
  placed_now i used inner (inr ne) =
      let o = n.others i (ground (arith, ne)) in
      let (p, e) = t.placed i (sym o.0 ∙ used) inner in (p, o.2 ∙ e)

  kept_named :
      (d : ℕ)
      → (f d).used ≡ true
      → (i j : ℕ) → elem i (kids d) ≡ true
      → elem j (kids d) ≡ true
      → (g i).name ≡ (g j).name
      → i ≡ j
  kept_named d used i j inside inside' e =
      let same = (n.others i (old i (t.child d i used inside).0)).4 in
      let same' = (n.others j (old j (t.child d j used inside').0)).4 in
      t.named d i j used inside inside' (sym same ∙ (e ∙ same'))

  new_named : (i : ℕ) → elem i (kids parent) ≡ true → (g i).name ≢ (g idx).name
  new_named i inside e =
      fresh_name i inside (sym (n.others i (old i (t.child parent i n.in_use inside).0)).4 ∙ e)

  named_in_parent :
      (i j : ℕ)
      → elem i (idx ∷ kids parent) ≡ true
      → elem j (idx ∷ kids parent) ≡ true
      → (g i).name ≡ (g j).name
      → ((i == idx) ≡ true) ⊎ ((i == idx) ≡ false)
      → ((j == idx) ≡ true) ⊎ ((j == idx) ≡ false)
      → i ≡ j
  named_in_parent i j inside inside' e (inl new) (inl new') = ==-eq _ _ new ∙ sym (==-eq _ _ new')
  named_in_parent i j inside inside' e (inl new) (inr ne) =
      absurd
        (new_named j (ground (arith, inside', ne)) (sym e ∙ ap (λ k. (g k).name) (==-eq _ _ new)))
  named_in_parent i j inside inside' e (inr ne) (inl new) =
      absurd (new_named i (ground (arith, inside, ne)) (e ∙ ap (λ k. (g k).name) (==-eq _ _ new)))
  named_in_parent i j inside inside' e (inr ne) (inr ne') =
      kept_named parent n.in_use i j (ground (arith, inside, ne)) (ground (arith, inside', ne')) e

  lower_now :
      (i p : ℕ)
      → (g i).used ≡ true
      → (g i).parent ≡ some p
      → ((i == idx) ≡ true) ⊎ ((i == idx) ≡ false)
      → deepened p < deepened i
  lower_now i p used e (inl new) =
      let here : parent ≡ p =
        ground (arith, e, n.new_parent, ap (λ k. (g k).parent) (==-eq i idx new)) in
      subst (λ k. deepened k < deepened i) here (ground (arith, new, apart))
  lower_now i p used e (inr ne) =
      let o = n.others i (ground (arith, ne)) in
      let up = t.lower i p (sym o.0 ∙ used) (sym o.2 ∙ e) in
      let stays = old p (t.listed i p (sym o.0 ∙ used) (sym o.2 ∙ e)).0 in
      ground (arith, up, stays, ne)

  pub grown-IsTree : IsTree g grown deepened
  grown-IsTree = record {
    root_used = ground (arith, t.root_used, n.others 0, n.not_root);
    root_dir = ground (arith, t.root_dir, n.others 0, n.not_root);
    root_top = ground (arith, t.root_top, n.others 0, n.not_root);
    chain =
        each (λ d l. IsChain g (g d).first_child l)
          (
            n.new_head,
            subst (λ o. IsChain g o (kids parent)) (sym n.new_next) (same-IsChain parent n.in_use),
          )
          n.new_first
          (λ d used ne ne'.
            subst (λ o. IsChain g o (kids d)) (sym (n.same_first d ne' ne)) (same-IsChain d used));
    distinct =
        each (λ d l. IsDistinct l) (not_listed parent n.in_use, t.distinct parent n.in_use)
          record {} (λ d used ne ne'. t.distinct d used);
    child = λ d i used.
        each
          (λ d l.
            (i : ℕ)
            → elem i l ≡ true
            → ((g i).used ≡ true) × ((g i).parent ≡ some d) × (i < fs_max_nodes))
          (λ i inside. child_of_parent i inside (Bool-cases (i == idx)))
          (λ i inside. ground (arith, inside))
          (λ d used ne ne' i inside. kept_child d i used inside) d used i;
    listed = λ i p used e. listed_now i p used e (Bool-cases (i == idx));
    placed = λ i used inner. placed_now i used inner (Bool-cases (i == idx));
    leaf =
        each (λ d l. (g d).is_dir ≡ false → l ≡ [])
          (λ file. ground (arith, file, n.in_dir, n.others parent, apart)) (λ file. refl)
          (λ d used ne ne' file. t.leaf d used (ground (arith, file, n.others d)));
    named = λ d i j used.
        each
          (λ d l. (i j : ℕ) → elem i l ≡ true → elem j l ≡ true → (g i).name ≡ (g j).name → i ≡ j)
          (λ i j inside inside' e.
            named_in_parent i j inside inside' e (Bool-cases (i == idx)) (Bool-cases (j == idx)))
          (λ i j inside inside' e. ground (arith, inside)) (λ d used ne ne'. kept_named d used) d
          used i j;
    lower = λ i p used e. lower_now i p used e (Bool-cases (i == idx));
  }
