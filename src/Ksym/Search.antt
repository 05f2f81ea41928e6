-- ===== src/Ksym/Search.antt =====
-- kernel/ksym.c: the binary search ends at the symbol that the address lies in.
use Prim.Native.Nat.{◌<◌}
use tg11_os.Prelude.{
  ℕ, zero, suc, ◌+◌, ◌-◌, ◌/◌, ◌^◌, ◌≤◌, false, none, some, ltb, leb, ◌==◌, u64, ◌≡◌, arith,
  Bool-cases, inl, inr, ◌⊎◌,
}
use tg11_os.Ksym.{KsymEntry, search, ksym_lookup}

-- The table's addresses do not fall.
unfoldable pub IsSorted : ℕ → (ℕ → KsymEntry) → Type 0
IsSorted count table = (i j : ℕ) → i ≤ j → j < count → (table i).addr ≤ (table j).addr

-- `k` is the last entry at or below `addr`.
pub record IsLast (count : ℕ) (table : ℕ → KsymEntry) (addr k : ℕ) : Type 0 where
  pub inside : k < count
  pub below : (table k).addr ≤ addr
  pub beyond : (j : ℕ) → k < j → j < count → addr < (table j).addr

mid_inside :
    (lo hi : ℕ)
    → lo < hi
    → hi + 1 < 2 ^ 64
    → (lo < lo + u64 (hi - lo + 1) / 2) × (lo + u64 (hi - lo + 1) / 2 ≤ hi)
mid_inside lo hi lt small = (omega arith, omega arith)

module _ (count : ℕ) (table : ℕ → KsymEntry) (addr : ℕ) (sorted : IsSorted count table)
    (small : count < 2 ^ 64) where
  at_end :
      (lo hi : ℕ)
      → lo ≡ hi
      → hi < count
      → (table lo).addr ≤ addr
      → ((j : ℕ) → hi < j → j < count → addr < (table j).addr)
      → IsLast count table addr lo
  at_end lo hi same in_table below beyond = record {
    inside = omega (arith, same, in_table);
    below = below;
    beyond = λ j lt lt'. beyond j (omega (arith, same, lt)) lt';
  }

  search-IsLast :
      (fuel lo hi : ℕ)
      → hi ≤ lo + fuel
      → lo ≤ hi
      → hi < count
      → (table lo).addr ≤ addr
      → ((j : ℕ) → hi < j → j < count → addr < (table j).addr)
      → (k : ℕ) × (search fuel table addr lo hi ≡ some k) × IsLast count table addr k
  unfolding search IsSorted
  search-IsLast zero lo hi enough le in_table below beyond = (
    lo,
    ground (arith, enough, le),
    at_end lo hi (omega (arith, enough, le)) in_table below beyond,
  )
  search-IsLast (suc fuel) lo hi enough le in_table below beyond = elim (Bool-cases (ltb lo hi)) [
    | inr ended ↦
        (lo, ground (arith, ended), at_end lo hi (ground (arith, ended, le)) in_table below beyond)
    | inl wide ↦
        let mid = lo + u64 (hi - lo + 1) / 2 in
        let inside : (lo < mid) × (mid ≤ hi) =
          mid_inside lo hi (ground (arith, wide)) (omega (arith, in_table, small)) in
        elim (Bool-cases (leb (table mid).addr addr)) [
          | inl at_or_above ↦
              let (k, e, last) =
                search-IsLast fuel mid hi (omega (arith, enough, inside)) inside.1 in_table
                  (ground (arith, at_or_above)) beyond in
              (k, ground (arith, wide, at_or_above, e), last)
          | inr under ↦
              let (k, e, last) =
                search-IsLast fuel lo (mid - 1) (omega (arith, enough, inside))
                  (omega (arith, inside)) (omega (arith, inside, in_table)) below
                  (λ j lt lt'.
                    omega (arith, gap under, sorted mid j (omega (arith, lt, inside)) lt')) in
              (k, ground (arith, wide, under, e), last)
        ]
  ]
    where
      gap : {m : ℕ} → leb (table m).addr addr ≡ false → addr < (table m).addr
      gap e = ground (arith, e)

  -- In a sorted table the lookup of an address at or above the first symbol gives the last symbol
  -- at or below it, and how far above it the address is; below the first symbol it gives none.
  pub ksym_lookup-IsLast :
      ((ksym_lookup count table addr ≡ none) × ((count ≡ 0) ⊎ (addr < (table 0).addr)))
      ⊎ ((k : ℕ) × (ksym_lookup count table addr ≡ some ((table k).name_off, addr - (table k).addr))
          × IsLast count table addr k)
  unfolding ksym_lookup
  ksym_lookup-IsLast = elim (Bool-cases (count == 0)) [
    | inl empty ↦ inl (ground (arith, empty), inl (ground (arith, empty)))
    | inr some_symbol ↦ elim (Bool-cases (ltb addr (table 0).addr)) [
      | inl low ↦ inl (ground (arith, some_symbol, low), inr (ground (arith, low)))
      | inr high ↦
          let (k, e, last) =
            search-IsLast count 0 (count - 1) (omega arith) (omega arith)
              (ground (arith, some_symbol)) (ground (arith, high))
              (λ j lt lt'. absurd (ground (arith, lt, lt'))) in
          inr (k, ground (arith, some_symbol, high, e), last)
    ]
  ]
