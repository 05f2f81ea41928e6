-- ===== src/Fs/Above.antt =====
-- kernel/fs.c: the walk to the root with which `fs_mv` looks for the node that it moves.
use Prim.Native.Nat.{◌<◌}
use tg11_os.Prelude.{
  ℕ, zero, suc, Bool, true, false, none, some, List, [], ◌==◌, ◌≡◌, ◌≢◌, ap, arith, Bool-cases,
  Option-cases, inl, inr, ◌⊎◌,
}
use tg11_os.Prelude.Distinct.{elem}
use tg11_os.Fs.{Node}
use tg11_os.Fs.Tree.{IsTree}
use tg11_os.Fs.Ops.{is_above}

module _ (f : ℕ → Node) (kids : ℕ → List ℕ) (depth : ℕ → ℕ) (t : IsTree f kids depth)
    (src : ℕ) where
  next_up :
      (p : ℕ)
      → (f p).used ≡ true
      → ((f p).parent ≡ none)
        ⊎ ((q : ℕ) × ((f p).parent ≡ some q)
            × ((f q).used ≡ true)
            × (depth q < depth p)
            × (elem p (kids q) ≡ true))
  next_up p used = elim (Option-cases (f p).parent) [
    | inl top ↦ inl top
    | inr (q, e) ↦ inr (q, e, (t.listed p q used e).0, t.lower p q used e, (t.listed p q used e).1)
  ]

  -- From the depth of a node on, the fuel of the walk does not matter.
  is_above-fuel :
      (m n p : ℕ)
      → (f p).used ≡ true
      → depth p < m
      → depth p < n
      → is_above m src (some p) f ≡ is_above n src (some p) f
  unfolding is_above
  is_above-fuel zero n p used lt lt' = ground (arith, lt)
  is_above-fuel (suc m) zero p used lt lt' = ground (arith, lt')
  is_above-fuel (suc m) (suc n) p used lt lt' = elim (next_up p used) [
    | inl top ↦ ground (arith, top)
    | inr (q, e, used', lower, inside) ↦
        ground (arith, e, is_above-fuel m n q used' (omega (arith, lower)) (omega (arith, lower)))
  ]

  -- Where the walk of any fuel does not find `src`, it is not there.
  is_above-false :
      (m n p : ℕ)
      → (f p).used ≡ true
      → is_above m src (some p) f ≡ false
      → depth p < n
      → is_above n src (some p) f ≡ false
  unfolding is_above
  is_above-false zero n p used e lt = ground (arith, e)
  is_above-false (suc m) zero p used e lt = ground (arith, lt)
  is_above-false (suc m) (suc n) p used e lt = elim (next_up p used) [
    | inl top ↦ ground (arith, top, e)
    | inr (q, e', used', lower, inside) ↦ elim (Bool-cases (p == src)) [
      | inl found ↦ ground (arith, e, found)
      | inr other ↦ ground (
        arith,
        e',
        other,
        is_above-false m n q used' (ground (arith, e, e', other)) (omega (arith, lower)),
      )
    ]
  ]

  -- A node without children is above no other.
  is_above-alone :
      (n p : ℕ)
      → kids src ≡ []
      → (f p).used ≡ true
      → p ≢ src
      → depth p < n
      → is_above n src (some p) f ≡ false
  unfolding is_above
  is_above-alone zero p alone used other lt = ground (arith, lt)
  is_above-alone (suc n) p alone used other lt = elim (next_up p used) [
    | inl top ↦ ground (arith, top, other)
    | inr (q, e, used', lower, inside) ↦
        let apart : q ≢ src =
          λ same. ground (arith, alone, inside, ap (λ k. elem p (kids k)) same) in
        ground (arith, e, other, is_above-alone n q alone used' apart (omega (arith, lower)))
  ]

  -- Whether `src` is the node or above it.
  abbrev pub under : ℕ → Bool
  under i = is_above (suc (depth i)) src (some i) f

  pub under_self : under src ≡ true
  unfolding is_above
  under_self = ground arith

  pub under-parent :
      (i p : ℕ) → (f i).used ≡ true → i ≢ src → (f i).parent ≡ some p → under i ≡ under p
  unfolding is_above
  under-parent i p used other e = ground (
    arith,
    e,
    other,
    is_above-fuel (depth i) (suc (depth p)) p (t.listed i p used e).0 (t.lower i p used e)
        (omega arith),
  )

  pub not_under :
      (m p : ℕ) → (f p).used ≡ true → is_above m src (some p) f ≡ false → under p ≡ false
  not_under m p used e = is_above-false m (suc (depth p)) p used e (omega arith)

  pub not_under-alone : (p : ℕ) → kids src ≡ [] → (f p).used ≡ true → p ≢ src → under p ≡ false
  not_under-alone p alone used other =
      is_above-alone (suc (depth p)) p alone used other (omega arith)
