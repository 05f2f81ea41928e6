-- ===== src/Fs/Detach.antt =====
-- kernel/fs.c: the lists of children after a node is taken out of its list.
use mathlib.Core.Path.{subst}
use tg11_os.Prelude.{
  ℕ, true, false, not, ◌&&◌, some, List, ◌==◌, ◌≡◌, ◌≢◌, sym, ap, arith, Bool-cases, inl, inr,
  ==-eq, update,
}
use tg11_os.Prelude.Distinct.{elem, IsDistinct, without, elem-without, IsDistinct-without}
use tg11_os.Fs.{Node}
use tg11_os.Fs.Chain.{IsChain, IsChain-ext}
use tg11_os.Fs.Tree.{IsTree}
use tg11_os.Fs.Unlink.{IsUnlinked}

abbrev pub detached : (ℕ → List ℕ) → ℕ → ℕ → ℕ → List ℕ
detached kids parent idx = update kids parent (without idx (kids parent))

-- The lists `lists` are those of `kids`, less `idx`.
pub record IsDetached (f g : ℕ → Node) (kids : ℕ → List ℕ) (idx : ℕ) (lists : ℕ → List ℕ)
    : Type 0 where
  pub members :
      (d i : ℕ) → (f d).used ≡ true → elem i (lists d) ≡ (elem i (kids d) && not (i == idx))
  pub chain : (d : ℕ) → (f d).used ≡ true → IsChain g (g d).first_child (lists d)
  pub distinct : (d : ℕ) → (f d).used ≡ true → IsDistinct (lists d)

module _ (f g : ℕ → Node) (kids : ℕ → List ℕ) (depth : ℕ → ℕ) (t : IsTree f kids depth)
    (parent idx : ℕ) (used : (f idx).used ≡ true) (above : (f idx).parent ≡ some parent)
    (u : IsUnlinked f g (kids parent) parent idx) where
  abbrev lists : ℕ → List ℕ
  lists = detached kids parent idx

  parent_used : (f parent).used ≡ true
  parent_used = (t.listed idx parent used above).0

  -- A node is a child of one directory alone.
  one_parent :
      (d e i : ℕ)
      → (f d).used ≡ true
      → (f e).used ≡ true
      → elem i (kids d) ≡ true
      → elem i (kids e) ≡ true
      → d ≡ e
  one_parent d e i used_d used_e inside inside' =
      ground (arith, t.child d i used_d inside, t.child e i used_e inside')

  elsewhere :
      (d i : ℕ)
      → (f d).used ≡ true
      → d ≢ parent
      → elem i (kids d) ≡ true
      → elem i (kids parent) ≡ false
  elsewhere d i used_d other inside = elim (Bool-cases (elem i (kids parent))) [
    | inr out ↦ out
    | inl inside' ↦ absurd (other (one_parent d parent i used_d parent_used inside inside'))
  ]

  lists-at_parent : lists parent ≡ without idx (kids parent)
  lists-at_parent = ground arith

  lists-other : (d : ℕ) → d ≢ parent → lists d ≡ kids d
  lists-other d ne = ground arith

  only_in_parent : (d : ℕ) → (f d).used ≡ true → d ≢ parent → elem idx (kids d) ≡ false
  only_in_parent d used_d ne = elim (Bool-cases (elem idx (kids d))) [
    | inr out ↦ out
    | inl inside ↦
        absurd (
          ne (one_parent d parent idx used_d parent_used inside (t.listed idx parent used above).1))
  ]

  -- A claim on the list of every used node follows from two.
  each :
      (P : ℕ → List ℕ → Type 0)
      → P parent (without idx (kids parent))
      → ((d : ℕ) → (f d).used ≡ true → d ≢ parent → P d (kids d))
      → (d : ℕ) → (f d).used ≡ true
      → P d (lists d)
  each P at_parent other d used_d = elim (Bool-cases (d == parent)) [
    | inl here ↦
        subst (λ k. P k (lists k)) (sym (==-eq _ _ here))
          (subst (λ l. P parent l) (sym lists-at_parent) at_parent)
    | inr ne ↦
        subst (λ l. P d l) (sym (lists-other d (ground (arith, ne))))
          (other d used_d (ground (arith, ne)))
  ]

  pub unlinked-IsDetached : IsDetached f g kids idx lists
  unlinked-IsDetached = record {
    members = λ d i used_d.
        each (λ d l. elem i l ≡ (elem i (kids d) && not (i == idx)))
          (elem-without i idx (kids parent) (t.distinct parent parent_used))
          (λ d used_d ne. ground (arith, only_in_parent d used_d ne, ap (λ k. elem k (kids d)))) d
          used_d;
    chain =
        each (λ d l. IsChain g (g d).first_child l) u.chain
          (λ d used_d ne.
            subst (λ o. IsChain g o (kids d)) (sym (u.same_first d ne))
              (IsChain-ext f g (f d).first_child (kids d)
                (λ i inside. u.same_next i (elsewhere d i used_d ne inside)) (t.chain d used_d)));
    distinct =
        each (λ d l. IsDistinct l)
          (IsDistinct-without idx (kids parent) (t.distinct parent parent_used))
          (λ d used_d ne. t.distinct d used_d);
  }
