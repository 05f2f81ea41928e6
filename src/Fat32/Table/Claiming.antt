-- ===== src/Fat32/Table/Claiming.antt =====
-- kernel/fat32.c, alloc_cluster: the cluster that it gives was free, and is now marked and blank.
use mathlib.Core.Path.{subst}
use tg11_os.Prelude.{
  ℕ, zero, suc, ◌+◌, ◌*◌, ◌-◌, ◌^◌, ◌≤◌, ◌<◌, true, ◌&&◌, ltb, leb, ◌==◌, ==-eq, if◌then◌else◌,
  update, u32, ◌≡◌, ◌≢◌, ◌⊎◌, refl, sym, ap, ◌∙◌, inl, inr, Bool-cases, arith, Option, none, some,
}
use tg11_os.Prelude.Actions.{from_option, Returns, Returns-then_run, Returns-weaken}
use tg11_os.Block.{Sector}
use tg11_os.Fat32.{Volume, Fat32, write_sector_uncached}
use tg11_os.Fat32.Cached.{image, IsReady, hint-IsReady, write_sector_uncached_lem}
use tg11_os.Fat32.Table.{
  end_mark, blank_sector, cluster_to_lba, cluster_is_valid, fat_sector, next_cluster, entry_value,
  set_cluster_value, zero_cluster, raise_hint, claim, alloc_from, alloc_start, try_again,
  alloc_cluster,
}
use tg11_os.Fat32.Table.Copies.{
  IsFormatted, copy_value, IsPut, table_before_data, cluster_base, cluster_to_lba_lem, row_below,
}
use tg11_os.Fat32.Table.Entries.{
  table, next_cluster_lem, set_cluster_value_lem, cluster_is_valid_le, on_volume,
}

module _ {S : Type 0} (v : Volume S) (contents : S → ℕ → Sector) where
  -- A run of sectors is blank, and the others stay.
  record IsBlanked (low high : ℕ) (m m' : Fat32 S) : Type 0 where
    fs : m'.fs ≡ v
    ready : IsReady contents m'
    sectors :
        (l : ℕ)
        → image contents m' l
          ≡ (if leb low l && ltb l high then blank_sector else image contents m l)

  -- One sector more is blank.
  more_blank :
      (low high lba : ℕ) (f g h : ℕ → Sector)
      → lba ≡ low
      → low < high
      → g ≡ update f lba blank_sector
      → ((l : ℕ) → h l ≡ (if leb (low + 1) l && ltb l high then blank_sector else g l))
      → (l : ℕ) → h l ≡ (if leb low l && ltb l high then blank_sector else f l)
  more_blank low high lba f g h e below p q l = ground (arith, q l, ap (λ (d : ℕ → Sector). d l) p)

  zero_cluster_lem :
      (lba left s : ℕ) (m : Fat32 S)
      → lba + s + left ≤ 2 ^ 32
      → m.fs ≡ v
      → IsReady contents m
      → Returns
          (λ _ m'. IsBlanked (lba + s) (lba + s + left) m m')
          (λ m'. m'.fs ≡ v)
          (zero_cluster lba left s m)
  unfolding zero_cluster
  zero_cluster_lem lba zero s m h e r = record {
    ending = record { fs = e; ready = r; sectors = λ l. ground arith };
  }
  zero_cluster_lem lba (suc left) s m h e r =
      Returns-then_run (write_sector_uncached (u32 (lba + s)) blank_sector m)
        (write_sector_uncached_lem contents (u32 (lba + s)) blank_sector m r)
        (λ _ m₁ w.
          Returns-weaken (zero_cluster lba left (s + 1) m₁)
            (zero_cluster_lem lba left (s + 1) m₁ (omega arith) (w.fs ∙ e) w.ready)
            (λ _ m₂ b. record {
              fs = b.fs;
              ready = b.ready;
              sectors =
                  more_blank (lba + s) (lba + s + suc left) (u32 (lba + s)) (image contents m)
                    (image contents m₁) (image contents m₂) (omega arith) (omega arith) w.disk
                    (λ l. ground (arith, b.sectors l));
            })
            (λ m₂ g. g))
        (λ m₁ g. g ∙ e)

  -- A place in one row does not lie in another.
  row_apart : (n i k s : ℕ) → s < n → i ≢ k → (k * n + s < i * n) ⊎ (i * n + n ≤ k * n + s)
  row_apart n i k s h ne = elim (Bool-cases (ltb i k)) [
    | inl below ↦ inr (ground (arith, row_below n i k (n - 1)))
    | inr above ↦ inl (ground (arith, row_below n k i s))
  ]

  -- The cluster `c` is taken out of the free ones of a disk.
  pub record IsClaimed (c : ℕ) (disk : ℕ → Sector) (m' : Fat32 S) : Type 0 where
    pub fs : m'.fs ≡ v
    pub ready : IsReady contents m'
    pub valid : cluster_is_valid v c ≡ true
    pub entries :
        (k j : ℕ)
        → k < v.fat_count
        → j ≤ v.max_data_cluster
        → copy_value v (image contents m') k j
          ≡ (if c == j then end_mark else copy_value v disk k j)
    pub blank :
        (s : ℕ)
        → s < v.sectors_per_cluster
        → image contents m' (u32 (cluster_to_lba v c + s)) ≡ blank_sector
    pub others :
        (d s : ℕ)
        → cluster_is_valid v d ≡ true
        → d ≢ c
        → s < v.sectors_per_cluster
        → image contents m' (u32 (cluster_to_lba v d + s)) ≡ disk (u32 (cluster_to_lba v d + s))

  module _ (f : IsFormatted v) (c : ℕ) (valid : cluster_is_valid v c ≡ true) (m m₁ m₂ : Fat32 S)
      (p : IsPut v contents (λ k. leb 0 k && ltb k (0 + v.fat_count)) c end_mark m m₁)
      (b : IsBlanked
        (cluster_to_lba v c + 0)
        (cluster_to_lba v c + 0 + v.sectors_per_cluster)
        m₁
        m₂) where
    claimed_entries :
        (k j : ℕ)
        → k < v.fat_count
        → j ≤ v.max_data_cluster
        → copy_value v (image contents m₂) k j
          ≡ (if c == j then end_mark else copy_value v (image contents m) k j)
    claimed_entries k j hk hj =
        let before = table_before_data v f k j hk hj in
        let low = cluster_is_valid_le v c valid in
        let start = cluster_base v f c low.0 low.1 in
        let same : image contents m₂ (fat_sector v k j) ≡ image contents m₁ (fat_sector v k j) =
          ground (arith, b.sectors (fat_sector v k j)) in
        ap (λ (t : Sector). entry_value v j t) same ∙ p.entries k j hk hj ∙ ground arith

    claimed_blank :
        (s : ℕ)
        → s < v.sectors_per_cluster
        → image contents m₂ (u32 (cluster_to_lba v c + s)) ≡ blank_sector
    claimed_blank s hs =
        let low = cluster_is_valid_le v c valid in
        ground (
          arith,
          cluster_base v f c low.0 low.1,
          cluster_to_lba_lem v f c s low.0 low.1 hs,
          b.sectors (u32 (cluster_to_lba v c + s)),
        )

    claimed_others :
        (d s : ℕ)
        → cluster_is_valid v d ≡ true
        → d ≢ c
        → s < v.sectors_per_cluster
        → image contents m₂ (u32 (cluster_to_lba v d + s))
          ≡ image contents m (u32 (cluster_to_lba v d + s))
    claimed_others d s valid_d ne hs =
        let low = cluster_is_valid_le v c valid in
        let low_d = cluster_is_valid_le v d valid_d in
        let at = cluster_to_lba_lem v f d s low_d.0 low_d.1 hs in
        ground (
          arith,
          cluster_base v f c low.0 low.1,
          at,
          b.sectors (u32 (cluster_to_lba v d + s)),
          p.outside (u32 (cluster_to_lba v d + s)) (inr (omega (arith, at))),
          row_apart v.sectors_per_cluster (c - 2) (d - 2) s,
        )

    claimed : IsClaimed c (image contents m) (raise_hint c m₂)
    unfolding raise_hint
    claimed = record {
      fs = b.fs;
      ready = hint-IsReady contents m₂ _ b.ready;
      valid = valid;
      entries = claimed_entries;
      blank = claimed_blank;
      others = claimed_others;
    }

  module _ (f : IsFormatted v) where
    claim_lem :
        (c : ℕ) (m : Fat32 S)
        → cluster_is_valid v c ≡ true
        → m.fs ≡ v
        → IsReady contents m
        → Returns
            (λ o m'. (o ≡ some c) × IsClaimed c (image contents m) m')
            (λ m'. m'.fs ≡ v)
            (claim c m)
    unfolding claim
    claim_lem c m valid e r =
        let low = cluster_is_valid_le v c valid in
        Returns-then_run (set_cluster_value c end_mark m)
          (set_cluster_value_lem v contents c end_mark m f e r)
          (λ _ m₁ p.
            Returns-then_run (zero_cluster (cluster_to_lba m₁.fs c) m₁.fs.sectors_per_cluster 0 m₁)
              (on_volume
                (λ (w : Volume S). zero_cluster (cluster_to_lba w c) w.sectors_per_cluster 0 m₁)
                p.fs
                (zero_cluster_lem (cluster_to_lba v c) v.sectors_per_cluster 0 m₁
                  (ground (
                    arith,
                    cluster_base v f c low.0 low.1,
                    f.addresses,
                    f.last,
                    row_below v.sectors_per_cluster (c - 2) v.data_clusters
                        (v.sectors_per_cluster - 1),
                    f.has_sectors,
                  ))
                  p.fs p.ready))
              (λ _ m₂ b. record { ending = (refl, claimed f c valid m m₁ m₂ p b) }) (λ m₂ g. g))
          (λ m₁ g. g)

    -- What a search among the clusters from `c` to `c + left` gives.
    abbrev Search : (c left : ℕ) → (ℕ → Sector) → Option ℕ → Fat32 S → Type 0
    Search c left disk none m' =
        (m'.fs ≡ v)
        × (image contents m' ≡ disk)
        × IsReady contents m'
        × ((j : ℕ) → c ≤ j → j < c + left → table v disk j ≢ 0)
    Search c left disk (some d) m' = (table v disk d ≡ 0) × IsClaimed d disk m'

    Search-more :
        (c left : ℕ) (disk : ℕ → Sector) (o : Option ℕ) (m' : Fat32 S)
        → table v disk c ≢ 0
        → Search (c + 1) left disk o m'
        → Search c (suc left) disk o m'
    Search-more c left disk none m' ne (e, same, r, none_free) = (
      e,
      same,
      r,
      λ j h g z. elim (Bool-cases (c == j)) [
        | inl here ↦ ne (ap (table v disk) (==-eq c j here) ∙ z)
        | inr there ↦ none_free j (ground arith) (omega arith) z
      ],
    )
    Search-more c left disk (some d) m' ne q = q

    alloc_from_lem :
        (left c : ℕ) (m : Fat32 S)
        → m.fs ≡ v
        → IsReady contents m
        → Returns (Search c left (image contents m)) (λ m'. m'.fs ≡ v) (alloc_from left c m)
    unfolding alloc_from
    alloc_from_lem zero c m e r = record { ending = (e, refl, r, λ j h g. absurd (omega arith)) }
    alloc_from_lem (suc left) c m e r =
        Returns-then_run (next_cluster c m) (next_cluster_lem v contents c m e r)
          (λ value m₁ (at, valid, _, same). elim (Bool-cases (value == 0)) [
            | inl free ↦ rw free (
                Returns-weaken (claim c m₁) (claim_lem c m₁ valid (same.fs ∙ e) same.ready)
                  (λ o m₂ (done, q).
                    subst (λ (x : Option ℕ). Search c (suc left) (image contents m) x m₂) (sym done)
                      (
                        sym at ∙ ==-eq value 0 free,
                        subst (λ (d : ℕ → Sector). IsClaimed c d m₂) same.disk q,
                      ))
                  (λ m₂ g. g))
            | inr used ↦ rw used (
                Returns-weaken (alloc_from left (c + 1) m₁)
                  (alloc_from_lem left (c + 1) m₁ (same.fs ∙ e) same.ready)
                  (λ o m₂ q.
                    Search-more c left (image contents m) o m₂ (λ z. ground (arith, at))
                      (subst (λ (d : ℕ → Sector). Search (c + 1) left d o m₂) same.disk q))
                  (λ m₂ g. g))
          ])
          (λ m₁ same. same.fs ∙ e)

    found_lem :
        (c left : ℕ) (disk : ℕ → Sector) (o : Option ℕ) (m : Fat32 S)
        → Search c left disk o m
        → Returns
            (λ d m'. (table v disk d ≡ 0) × IsClaimed d disk m')
            (λ m'. m'.fs ≡ v)
            (from_option o m)
    found_lem c left disk none m q = record { ending = q.0 }
    found_lem c left disk (some d) m q = record { ending = q }

    try_again_lem :
        (start left : ℕ) (disk : ℕ → Sector) (o : Option ℕ) (m : Fat32 S)
        → Search start left disk o m
        → Returns
            (λ d m'. (table v disk d ≡ 0) × IsClaimed d disk m')
            (λ m'. m'.fs ≡ v)
            (try_again start o m)
    unfolding try_again
    try_again_lem start left disk (some d) m q = record { ending = q }
    try_again_lem start left disk none m (e, same, r, _) =
        Returns-then_run (alloc_from (start - 2) 2 m) (alloc_from_lem (start - 2) 2 m e r)
          (λ o m₁ q.
            found_lem 2 (start - 2) disk o m₁
              (subst (λ (d : ℕ → Sector). Search 2 (start - 2) d o m₁) same q))
          (λ m₁ g. g)

    -- `alloc_cluster` gives a valid cluster that was free. It is marked as the end of a chain in
    -- every copy of the table, its sectors are blank, and no other entry or cluster has changed.
    pub alloc_cluster_lem :
        (m : Fat32 S)
        → m.fs ≡ v
        → IsReady contents m
        → Returns
            (λ c m'. (table v (image contents m) c ≡ 0) × IsClaimed c (image contents m) m')
            (λ m'. m'.fs ≡ v)
            (alloc_cluster m)
    unfolding alloc_cluster
    alloc_cluster_lem m e r =
        Returns-then_run (alloc_from (m.fs.max_data_cluster + 1 - alloc_start m) (alloc_start m) m)
          (alloc_from_lem (m.fs.max_data_cluster + 1 - alloc_start m) (alloc_start m) m e r)
          (λ o m₁ q. try_again_lem (alloc_start m) _ _ o m₁ q) (λ m₁ g. g)
