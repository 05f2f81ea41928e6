-- ===== src/Fat32/Table/Freeing.antt =====
-- kernel/fat32.c, free_chain: it ends, and frees what the chain reaches and nothing else.
use mathlib.Core.Path.{subst}
use tg11_os.Prelude.{
  ℕ, zero, suc, ◌+◌, ◌≤◌, ◌<◌, true, false, ◌&&◌, ltb, leb, ◌==◌, if◌then◌else◌, ◌≡◌, ◌≢◌, ◌⊎◌,
  refl, ap, ◌∙◌, inl, inr, Bool-cases, ==-eq, arith,
}
use tg11_os.Prelude.Actions.{ok, pure, Returns, Returns-then_run, Returns-weaken}
use tg11_os.Block.{Sector}
use tg11_os.Fat32.{Volume, Fat32}
use tg11_os.Fat32.Cached.{image, IsReady, IsSame, hint-IsReady}
use tg11_os.Fat32.Table.{
  eoc, cluster_is_valid, next_cluster, set_cluster_value, free_chain, lower_hint,
}
use tg11_os.Fat32.Table.Copies.{IsFormatted, IsPut}
use tg11_os.Fat32.Table.Entries.{
  table, next_cluster_lem, set_cluster_value_lem, cluster_is_valid_le,
}

-- The clusters below `n` that are in use.
abbrev pub in_use : (ℕ → ℕ) → ℕ → ℕ
in_use t zero = 0
in_use t (suc n) = if t n == 0 then in_use t n else suc (in_use t n)

pub in_use_bound : (t : ℕ → ℕ) (n : ℕ) → in_use t n ≤ n
in_use_bound t zero = omega arith
in_use_bound t (suc n) = ground (arith, in_use_bound t n)

module _ (t u : ℕ → ℕ) (c : ℕ) where
  in_use_same : (n : ℕ) → ((j : ℕ) → j < n → u j ≡ t j) → in_use u n ≡ in_use t n
  in_use_same zero h = refl
  in_use_same (suc n) h = ground (arith, h n, in_use_same n (λ j below. h j (omega arith)))

  -- A cluster in use is freed.
  in_use_less :
      (n : ℕ)
      → c < n
      → t c ≢ 0
      → ((j : ℕ) → j < n → u j ≡ (if c == j then 0 else t j))
      → suc (in_use u n) ≡ in_use t n
  in_use_less zero h used e = absurd (omega arith)
  in_use_less (suc n) h used e = elim (Bool-cases (c == n)) [
    | inl last ↦ ground (arith, e n, in_use_same n (λ j below. ground (arith, e j)))
    | inr before ↦
        ground (arith, e n, in_use_less n (ground arith) used (λ j below. e j (omega arith)))
  ]

module _ {S : Type 0} (v : Volume S) where
  -- What a chain reaches.
  pub data IsOn (t : ℕ → ℕ) : ℕ → ℕ → Type 0 where
    here : {c : ℕ} → cluster_is_valid v c ≡ true → IsOn t c c
    further : {c n j : ℕ} → cluster_is_valid v c ≡ true → t c ≡ n → IsOn t n j → IsOn t c j

  IsOn-valid : {t : ℕ → ℕ} {c j : ℕ} → IsOn t c j → cluster_is_valid v c ≡ true
  IsOn-valid (here valid) = valid
  IsOn-valid (further valid step rest) = valid

  zero_is_invalid : cluster_is_valid v 0 ≡ false
  unfolding cluster_is_valid
  zero_is_invalid = ground arith

  -- A chain in a table without an entry is one in the table with it.
  IsOn-without :
      (t u : ℕ → ℕ) (c : ℕ)
      → u c ≡ 0
      → ((j : ℕ) → j ≤ v.max_data_cluster → c ≢ j → u j ≡ t j)
      → {x j : ℕ} → IsOn u x j
      → IsOn t x j
  IsOn-without t u c free same (here valid) = here valid
  IsOn-without t u c free same {x = x} (further {n = n} valid step rest) =
      further valid
        (ground (
          arith,
          same x (cluster_is_valid_le v x valid).1,
          zero_is_invalid,
          IsOn-valid rest,
          ap u,
          ap (cluster_is_valid v) step,
        ))
        (IsOn-without t u c free same rest)

  -- What freeing a chain does to a table `t`: it frees the first cluster and, with a cluster, the
  -- next one; it changes nothing else, and frees nothing that the chain does not reach.
  pub record IsFreed (cur : ℕ) (t u : ℕ → ℕ) : Type 0 where
    pub first : cluster_is_valid v cur ≡ true → u cur ≡ 0
    pub closed :
        (j : ℕ)
        → j ≤ v.max_data_cluster
        → u j ≡ 0
        → (t j ≡ 0) ⊎ (cluster_is_valid v (t j) ≡ true → u (t j) ≡ 0)
    pub less : (j : ℕ) → j ≤ v.max_data_cluster → (u j ≡ 0) ⊎ (u j ≡ t j)
    pub only : (j : ℕ) → j ≤ v.max_data_cluster → u j ≢ t j → IsOn t cur j

  nothing-IsFreed : (cur : ℕ) (t : ℕ → ℕ) → cluster_is_valid v cur ≡ false → IsFreed cur t t
  nothing-IsFreed cur t h = record {
    first = λ valid. cc;
    closed = λ j hj e. inl e;
    less = λ j hj. inr refl;
    only = λ j hj ne. absurd (ne refl);
  }

  -- The table with the entry of `cur` cleared.
  abbrev IsCleared : ℕ → (ℕ → ℕ) → (ℕ → ℕ) → Type 0
  IsCleared cur t u = (j : ℕ) → j ≤ v.max_data_cluster → u j ≡ (if cur == j then 0 else t j)

  module _ (cur : ℕ) (t u w : ℕ → ℕ) (valid : cluster_is_valid v cur ≡ true) (e : IsCleared cur t u)
      (q : IsFreed (t cur) u w) where
    cur_le : cur ≤ v.max_data_cluster
    cur_le = (cluster_is_valid_le v cur valid).1

    chain_less : (j : ℕ) → j ≤ v.max_data_cluster → (w j ≡ 0) ⊎ (w j ≡ t j)
    chain_less j hj = ground (arith, e j hj, q.less j hj)

    chain_closed :
        (j : ℕ)
        → j ≤ v.max_data_cluster
        → w j ≡ 0
        → (t j ≡ 0) ⊎ (cluster_is_valid v (t j) ≡ true → w (t j) ≡ 0)
    chain_closed j hj z = elim (Bool-cases (cur == j)) [
      | inl at_first ↦
          let here' : cur ≡ j = ==-eq cur j at_first in
          inr (subst (λ (x : ℕ). cluster_is_valid v (t x) ≡ true → w (t x) ≡ 0) here' q.first)
      | inr there ↦
          let same : u j ≡ t j = ground (arith, e j hj) in
          subst (λ (x : ℕ). (x ≡ 0) ⊎ (cluster_is_valid v x ≡ true → w x ≡ 0)) same
            (q.closed j hj z)
    ]

    chain_only : (j : ℕ) → j ≤ v.max_data_cluster → w j ≢ t j → IsOn t cur j
    chain_only j hj ne = elim (Bool-cases (cur == j)) [
      | inl at_first ↦ subst (IsOn t cur) (==-eq cur j at_first) (here valid)
      | inr there ↦
          let same : u j ≡ t j = ground (arith, e j hj) in
          further valid refl (
            IsOn-without t u cur (ground (arith, e cur cur_le))
              (λ k hk other. ground (arith, e k hk)) (q.only j hj (λ z. ne (z ∙ same))))
    ]

    chain-IsFreed : IsFreed cur t w
    chain-IsFreed = record {
      first = λ _. ground (arith, e cur cur_le, q.less cur cur_le);
      closed = chain_closed;
      less = chain_less;
      only = chain_only;
    }

  module _ (contents : S → ℕ → Sector) where
    abbrev table_of : Fat32 S → ℕ → ℕ
    table_of m = table v (image contents m)

    pub record IsChainFreed (cur : ℕ) (m m' : Fat32 S) : Type 0 where
      pub fs : m'.fs ≡ v
      pub ready : IsReady contents m'
      pub chain_freed : IsFreed cur (table v (image contents m)) (table v (image contents m'))
      pub outside :
          (lba : ℕ)
          → (lba < v.fat_start_lba) ⊎ (v.data_start_lba ≤ lba)
          → image contents m' lba ≡ image contents m lba

    -- The chain ends before its next cluster.
    stops :
        (fuel cur : ℕ) (m : Fat32 S)
        → m.fs ≡ v
        → (cluster_is_valid v cur && ltb cur eoc) ≡ false
        → free_chain (suc fuel) cur m ≡ ok tt m
    unfolding free_chain
    stops fuel cur m e h =
        let h' = ap (λ (w : Volume S). cluster_is_valid w cur && ltb cur eoc) e ∙ h in
        rw (h', free_chain) refl

    nothing-IsChainFreed :
        (cur : ℕ) (m : Fat32 S)
        → m.fs ≡ v
        → IsReady contents m
        → cluster_is_valid v cur ≡ false
        → IsChainFreed cur m m
    nothing-IsChainFreed cur m e r invalid = record {
      fs = e;
      ready = r;
      chain_freed = nothing-IsFreed cur (table_of m) invalid;
      outside = λ lba g. refl;
    }

    module _ (f : IsFormatted v) where
      valid_below : (cur : ℕ) → cluster_is_valid v cur ≡ true → leb eoc cur ≡ false
      valid_below cur g = ground (arith, cluster_is_valid_le v cur g, f.numbers)

      -- A cluster is freed, and then the chain from the next one.
      first_and_rest :
          (cur : ℕ) (m m₁ m₂ m' : Fat32 S)
          → cluster_is_valid v cur ≡ true
          → IsSame contents m m₁
          → IsPut v contents (λ k. leb 0 k && ltb k (0 + v.fat_count)) cur 0 m₁ m₂
          → IsChainFreed (table_of m cur) (lower_hint cur m₂) m'
          → IsChainFreed cur m m'
      unfolding lower_hint
      first_and_rest cur m m₁ m₂ m' valid same p q =
          let no_slot_valid : IsCleared cur (table_of m) (table_of m₂) = λ j hj.
            p.entries 0 j f.has_copy hj
            ∙ ground (arith, f.has_copy, ap (λ (d : ℕ → Sector). table v d j) same.disk) in
          record {
            fs = q.fs;
            ready = q.ready;
            chain_freed =
                chain-IsFreed cur (table_of m) (table_of m₂) (table_of m') valid no_slot_valid
                  q.chain_freed;
            outside = λ lba g.
                q.outside lba g ∙ p.outside lba g ∙ ap (λ (d : ℕ → Sector). d lba) same.disk;
          }

      -- The end of a round of the loop, if the next round does what it is for.
      round_lem :
          (fuel next : ℕ) (m : Fat32 S)
          → m.fs ≡ v
          → IsReady contents m
          → (cluster_is_valid v next ≡ true
              → Returns
                  (λ _ m'. IsChainFreed next m m')
                  (λ m'. m'.fs ≡ v)
                  (free_chain (suc fuel) next m))
          → Returns
              (λ _ m'. IsChainFreed next m m')
              (λ m'. m'.fs ≡ v)
              ((if leb eoc next then pure tt else free_chain (suc fuel) next) m)
      round_lem fuel next m e r again = elim (Bool-cases (cluster_is_valid v next)) [
        | inl valid ↦ rw (valid_below next valid) (again valid)
        | inr invalid ↦ elim (Bool-cases (leb eoc next)) [
          | inl ended ↦ rw ended (record { ending = nothing-IsChainFreed next m e r invalid })
          | inr other ↦
              rw (other, stops fuel next m e (rw invalid refl))
                (record { ending = nothing-IsChainFreed next m e r invalid })
        ]
      ]

      -- The fuel that the clusters in use need.
      cleared_fuel :
          (cur : ℕ) (m m₁ m₂ : Fat32 S)
          → cluster_is_valid v cur ≡ true
          → IsSame contents m m₁
          → IsPut v contents (λ k. leb 0 k && ltb k (0 + v.fat_count)) cur 0 m₁ m₂
          → cluster_is_valid v (table_of m cur) ≡ true
          → suc (in_use (table_of (lower_hint cur m₂)) (v.max_data_cluster + 1))
            ≡ in_use (table_of m) (v.max_data_cluster + 1)
      unfolding lower_hint
      cleared_fuel cur m m₁ m₂ valid same p next =
          in_use_less (table_of m) (table_of m₂) cur (v.max_data_cluster + 1)
            (omega (arith, cluster_is_valid_le v cur valid))
            (λ z. ground (arith, cluster_is_valid_le v (table_of m cur) next))
            (λ j hj.
              p.entries 0 j f.has_copy (omega arith)
              ∙ ground (arith, f.has_copy, ap (λ (d : ℕ → Sector). table v d j) same.disk))

      free_chain_any :
          (fuel cur : ℕ) (m : Fat32 S)
          → in_use (table_of m) (v.max_data_cluster + 1) + 2 ≤ fuel
          → m.fs ≡ v
          → IsReady contents m
          → Returns (λ _ m'. IsChainFreed cur m m') (λ m'. m'.fs ≡ v) (free_chain fuel cur m)
      unfolding free_chain lower_hint
      free_chain_any zero cur m g e r = absurd (omega arith)
      free_chain_any (suc zero) cur m g e r = absurd (omega arith)
      free_chain_any (suc (suc fuel)) cur m g e r = elim (Bool-cases (cluster_is_valid v cur)) [
        | inl valid ↦
            let running : (cluster_is_valid m.fs cur && ltb cur eoc) ≡ true =
              ap (λ (w : Volume S). cluster_is_valid w cur && ltb cur eoc) e
              ∙ ground (arith, valid_below cur valid) in
            rw (running, free_chain)
              (Returns-then_run (next_cluster cur m) (next_cluster_lem v contents cur m e r)
                (λ next m₁ (at, _, _, same).
                  Returns-then_run (set_cluster_value cur 0 m₁)
                    (set_cluster_value_lem v contents cur 0 m₁ f (same.fs ∙ e) same.ready)
                    (λ _ m₂ p.
                      Returns-weaken
                        ((if leb eoc next then pure tt else free_chain (suc fuel) next)
                          (lower_hint cur m₂))
                        (round_lem fuel next (lower_hint cur m₂) p.fs
                          (hint-IsReady contents m₂ _ p.ready)
                          (λ valid_next.
                            free_chain_any (suc fuel) next (lower_hint cur m₂)
                              (omega (
                                arith,
                                cleared_fuel cur m m₁ m₂ valid same p
                                    (subst (λ (x : ℕ). cluster_is_valid v x ≡ true) at valid_next),
                              ))
                              p.fs (hint-IsReady contents m₂ _ p.ready)))
                        (λ _ m' q.
                          first_and_rest cur m m₁ m₂ m' valid same p
                            (subst (λ (x : ℕ). IsChainFreed x (lower_hint cur m₂) m') at q))
                        (λ m' h. h))
                    (λ m₂ h. h))
                (λ m₁ same. same.fs ∙ e))
        | inr invalid ↦
            rw (stops (suc fuel) cur m e (rw invalid refl))
              (record { ending = nothing-IsChainFreed cur m e r invalid })
      ]

      -- A chain, also one that runs in circles, is freed in at most as many rounds as the volume has
      -- clusters, and two more.
      pub free_chain_lem :
          (cur : ℕ) (m : Fat32 S)
          → m.fs ≡ v
          → IsReady contents m
          → Returns
              (λ _ m'. IsChainFreed cur m m')
              (λ m'. m'.fs ≡ v)
              (free_chain (v.max_data_cluster + 3) cur m)
      free_chain_lem cur m e r =
          free_chain_any (v.max_data_cluster + 3) cur m
            (omega (arith, in_use_bound (table_of m) (v.max_data_cluster + 1))) e r
