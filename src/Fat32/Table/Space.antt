-- ===== src/Fat32/Table/Space.antt =====
-- kernel/fat32.c, get_free_bytes: it counts the clusters that are free, and alloc_cluster takes one.
use native.Mathlib.Nat.{mul-le-mul_right}
use tg11_os.Prelude.{
  ℕ, zero, suc, ◌+◌, ◌*◌, ◌-◌, ◌^◌, ◌≤◌, ◌<◌, ◌==◌, ==-eq, if◌then◌else◌, u64, ◌≡◌, ◌≢◌, refl, sym,
  ap, ap₂, ◌∙◌, inl, inr, Bool-cases, arith,
}
use tg11_os.Prelude.Actions.{
  pure, ◌>>=◌, Action, Returns, Returns-then_run, Returns-weaken, Returns-guard,
}
use tg11_os.Block.{Sector}
use tg11_os.Fat32.{Volume, Fat32}
use tg11_os.Fat32.Cached.{image, IsReady, IsSame, IsSame-trans}
use tg11_os.Fat32.Table.{end_mark, next_cluster, alloc_cluster, count_free_clusters, get_free_bytes}
use tg11_os.Fat32.Table.Copies.{IsFormatted}
use tg11_os.Fat32.Table.Entries.{table, next_cluster_lem, cluster_is_valid_le}
use tg11_os.Fat32.Table.Claiming.{IsClaimed, alloc_cluster_lem}

-- The free clusters among `left` ones from `c` on.
abbrev pub free_among : (ℕ → ℕ) → (left c : ℕ) → ℕ
free_among t zero c = 0
free_among t (suc left) c =
    if t c == 0 then suc (free_among t left (c + 1)) else free_among t left (c + 1)

free_among_bound : (t : ℕ → ℕ) (left c : ℕ) → free_among t left c ≤ left
free_among_bound t zero c = omega arith
free_among_bound t (suc left) c = ground (arith, free_among_bound t left (c + 1))

module _ (t u : ℕ → ℕ) (d : ℕ) where
  same_free :
      (left c : ℕ)
      → ((j : ℕ) → c ≤ j → j < c + left → u j ≡ t j)
      → free_among u left c ≡ free_among t left c
  same_free zero c h = refl
  same_free (suc left) c h =
      ground (arith, h c, same_free left (c + 1) (λ j low high. h j (omega arith) (omega arith)))

  -- A free cluster is taken.
  one_less :
      (left c : ℕ)
      → c ≤ d
      → d < c + left
      → t d ≡ 0
      → u d ≢ 0
      → ((j : ℕ) → c ≤ j → j < c + left → d ≢ j → u j ≡ t j)
      → free_among t left c ≡ suc (free_among u left c)
  one_less zero c low high free taken h = absurd (omega arith)
  one_less (suc left) c low high free taken h = elim (Bool-cases (c == d)) [
    | inl here ↦
        let e = ==-eq c d here in
        ground (
          arith,
          ap t e,
          ap u e,
          same_free left (c + 1) (λ j below above. h j (omega arith) (omega arith) (omega arith)),
        )
    | inr there ↦ ground (
      arith,
      h c,
      one_less left (c + 1) (ground arith) (omega arith) free taken
          (λ j below above ne. h j (omega arith) (omega arith) ne),
    )
  ]

-- The room is asked for before and after a cluster is taken.
abbrev pub measured : {S : Type 0} → Action (Fat32 S) (ℕ × ℕ)
measured = do
  before ← get_free_bytes
  _ ← alloc_cluster
  after ← get_free_bytes
  pure (before, after)

module _ {S : Type 0} (v : Volume S) (contents : S → ℕ → Sector) where
  count_free_lem :
      (left c free_clusters : ℕ) (m : Fat32 S)
      → m.fs ≡ v
      → IsReady contents m
      → Returns
          (λ n m'.
            (n ≡ free_clusters + free_among (table v (image contents m)) left c)
            × IsSame contents m m')
          (IsSame contents m)
          (count_free_clusters left c free_clusters m)
  unfolding count_free_clusters
  count_free_lem zero c n m e r = record {
    ending = (omega arith, record { fs = refl; disk = refl; ready = r });
  }
  count_free_lem (suc left) c n m e r =
      Returns-then_run (next_cluster c m) (next_cluster_lem v contents c m e r)
        (λ next m₁ (at, _, _, same).
          Returns-weaken (count_free_clusters left (c + 1) (if next == 0 then n + 1 else n) m₁)
            (count_free_lem left (c + 1) (if next == 0 then n + 1 else n) m₁ (same.fs ∙ e)
              same.ready)
            (λ k m₂ (total, again). (
              ground (
                arith,
                total,
                at,
                ap (λ (d : ℕ → Sector). free_among (table v d) left (c + 1)) same.disk,
              ),
              IsSame-trans contents same again,
            ))
            (λ m₂ again. IsSame-trans contents same again))
        (λ m₁ same. same)

  -- The bytes in the free clusters.
  abbrev pub free_bytes : (ℕ → Sector) → ℕ
  free_bytes disk =
      free_among (table v disk) (v.max_data_cluster - 1) 2 * (v.sectors_per_cluster * 512)

  module _ (f : IsFormatted v) where
    bytes_fit : (disk : ℕ → Sector) → free_bytes disk < 2 ^ 64
    bytes_fit disk = ground (
      arith,
      f.last,
      f.addresses,
      mul-le-mul_right v.sectors_per_cluster
          (free_among_bound (table v disk) (v.max_data_cluster - 1) 2),
      ap (λ (x : ℕ). (x - 1) * v.sectors_per_cluster) f.last,
    )

    -- `get_free_bytes` gives the bytes in the free clusters.
    pub get_free_bytes_lem :
        (m : Fat32 S)
        → m.fs ≡ v
        → IsReady contents m
        → Returns
            (λ n m'. (n ≡ free_bytes (image contents m)) × IsSame contents m m')
            (IsSame contents m)
            (get_free_bytes m)
    unfolding get_free_bytes
    get_free_bytes_lem m e r =
        Returns-guard m.fs.mounted _
          (λ _.
            Returns-then_run (count_free_clusters (m.fs.max_data_cluster - 1) 2 0 m)
              (count_free_lem (m.fs.max_data_cluster - 1) 2 0 m e r)
              (λ n m₁ (total, same).
                let found : n
                    ≡ free_among (table v (image contents m)) (m.fs.max_data_cluster - 1) 2 =
                  omega (arith, total) in
                record {
                  ending = (
                    ap₂
                          (λ (k : ℕ) (w : Volume S).
                            u64 (k * (w.sectors_per_cluster * w.bytes_per_sector)))
                          (found
                            ∙ ap
                                (λ (w : Volume S).
                                  free_among (table v (image contents m)) (w.max_data_cluster - 1)
                                    2)
                                e)
                          e
                        ∙ ground (
                          arith,
                          bytes_fit (image contents m),
                          f.sector_size,
                          ap
                              (λ (x : ℕ).
                                free_among (table v (image contents m)) (v.max_data_cluster - 1) 2
                                * (v.sectors_per_cluster * x))
                              f.sector_size,
                        ),
                    same,
                  );
                })
              (λ m₁ same. same))
          (record { fs = refl; disk = refl; ready = r })

    claim_less :
        (c : ℕ) (disk : ℕ → Sector) (m' : Fat32 S)
        → table v disk c ≡ 0
        → IsClaimed v contents c disk m'
        → free_bytes disk ≡ free_bytes (image contents m') + v.sectors_per_cluster * 512
    claim_less c disk m' free q =
        let low = cluster_is_valid_le v c q.valid in
        let taken : table v (image contents m') c ≡ end_mark =
          q.entries 0 c f.has_copy low.1 ∙ ground arith in
        let fewer =
          one_less (table v disk) (table v (image contents m')) c (v.max_data_cluster - 1) 2 low.0
            (omega arith) free (λ z. omega arith)
            (λ j below above ne. q.entries 0 j f.has_copy (omega arith) ∙ ground arith) in
        ground (arith, ap (λ (n : ℕ). n * (v.sectors_per_cluster * 512)) fewer)

    -- The room before and after a cluster is taken: the answers differ by one cluster.
    pub get_free_bytes-alloc_cluster :
        (m : Fat32 S)
        → m.fs ≡ v
        → IsReady contents m
        → Returns
            (λ (before, after) m'.
              (before ≡ after + v.sectors_per_cluster * 512) × IsReady contents m')
            (λ m'. m'.fs ≡ v)
            (measured m)
    get_free_bytes-alloc_cluster m e r =
        Returns-then_run (get_free_bytes m) (get_free_bytes_lem m e r)
          (λ before m₁ (was, same).
            Returns-then_run (alloc_cluster m₁)
              (alloc_cluster_lem v contents f m₁ (same.fs ∙ e) same.ready)
              (λ c m₂ (free, q).
                Returns-then_run (get_free_bytes m₂) (get_free_bytes_lem m₂ q.fs q.ready)
                  (λ after m₃ (is, again). record {
                    ending = (
                      was
                          ∙ ap free_bytes (sym same.disk)
                          ∙ claim_less c (image contents m₁) m₂ free q
                          ∙ ap (λ (n : ℕ). n + v.sectors_per_cluster * 512) (sym is),
                      again.ready,
                    );
                  })
                  (λ m₃ again. again.fs ∙ q.fs))
              (λ m₂ g. g))
          (λ m₁ same. same.fs ∙ e)
