-- ===== src/Fat32/Safety/Tables.antt =====
-- kernel/fat32.c, what the operations on the table may write.
use tg11_os.Prelude.{
  ℕ, zero, suc, ◌+◌, ◌*◌, ◌-◌, ◌≤◌, ◌<◌, true, ◌&&◌, ltb, leb, Option, none, some, ◌==◌, ◌≡◌, inl,
  inr, Bool-cases, arith, u32,
}
use tg11_os.Prelude.Actions.{guard, from_option}
use tg11_os.Block.{Sector, BlockDevice, IsLawful}
use tg11_os.Fat32.{Volume, Fat32, read_sector_cached, write_sector_uncached}
use tg11_os.Fat32.Bytes.{put_entry}
use tg11_os.Fat32.Table.{
  eoc, end_mark, blank_sector, cluster_to_lba, cluster_is_valid, fat_sector, ent_off, off_fits,
  value_is_sane, entry_value, next_in, next_cluster, set_copy, set_copies, set_value_in,
  set_cluster_value, lower_hint, free_chain, zero_cluster, raise_hint, claim, alloc_from,
  alloc_start, try_again, alloc_cluster,
}
use tg11_os.Fat32.Table.Copies.{
  IsFormatted, table_before_data, fat_sector_lem, cluster_base, cluster_to_lba_lem,
}
use tg11_os.Fat32.Table.Entries.{cluster_is_valid_le}
use tg11_os.Fat32.Safety.{
  Leaves, OnSome, Leaves-then_run, Leaves-weaken, Leaves-guard, IsGuarded, IsInside, on_mounted,
  read_sector_cached-IsGuarded, write_sector_uncached-IsGuarded,
}

module _ {S : Type 0} (v : Volume S) (contents : S → ℕ → Sector) (base : ℕ → Sector)
    (law : (d : BlockDevice S) → v.dev ≡ some d → IsLawful contents d) (f : IsFormatted v) where
  abbrev pub Guarded : Fat32 S → Type 0
  Guarded = IsGuarded v contents base

  -- A value of the table is the end of a chain, no cluster, or a cluster of the volume.
  abbrev pub IsSane : ℕ → Type 0
  IsSane value = value_is_sane v value ≡ true

  -- A cluster that is given is valid.
  abbrev pub IsCluster : ℕ → Type 0
  IsCluster c = cluster_is_valid v c ≡ true

  next_both :
      (c : ℕ) (m : Fat32 S)
      → Guarded m
      → Leaves (λ value. IsCluster c × IsSane value) Guarded (next_cluster c m)
  unfolding next_cluster next_in
  next_both c m g =
      on_mounted (λ (w : Volume S). next_in w c m) g.fs
        (Leaves-then_run (guard (cluster_is_valid v c) m) (Leaves-guard (cluster_is_valid v c) m g)
          (λ _ m₁ valid g₁.
            Leaves-then_run (read_sector_cached (fat_sector v 0 c) true m₁)
              (read_sector_cached-IsGuarded v contents base law (fat_sector v 0 c) true m₁ g₁)
              (λ sec m₂ _ g₂.
                Leaves-then_run (guard (off_fits v c) m₂) (Leaves-guard (off_fits v c) m₂ g₂)
                  (λ _ m₃ _ g₃.
                    Leaves-then_run (guard (value_is_sane v (entry_value v c sec)) m₃)
                      (Leaves-guard (value_is_sane v (entry_value v c sec)) m₃ g₃)
                      (λ _ m₄ sane g₄. record { left = ((valid, sane), g₄) })))))

  pub next_cluster-Guarded :
      (c : ℕ) (m : Fat32 S) → Guarded m → Leaves IsSane Guarded (next_cluster c m)
  next_cluster-Guarded c m g = Leaves-weaken (next_cluster c m) (next_both c m g) (λ value p. p.1)

  fat_sector-IsInside :
      (i c : ℕ) → i < v.fat_count → cluster_is_valid v c ≡ true → IsInside v (fat_sector v i c)
  fat_sector-IsInside i c hi valid =
      let low = cluster_is_valid_le v c valid in
      (
        omega (arith, fat_sector_lem v f i c hi low.1),
        omega (arith, table_before_data v f i c hi low.1),
      )

  set_copies-Guarded :
      (c value : ℕ)
      → cluster_is_valid v c ≡ true
      → (left i : ℕ) (m : Fat32 S) → i + left ≤ v.fat_count
      → Guarded m
      → Leaves (λ _. Unit) Guarded (set_copies v c value left i m)
  unfolding set_copies set_copy
  set_copies-Guarded c value valid zero i m h g = record { left = (tt, g) }
  set_copies-Guarded c value valid (suc left) i m h g =
      Leaves-then_run (set_copy v c value i m)
        (Leaves-then_run (read_sector_cached (fat_sector v i c) true m)
          (read_sector_cached-IsGuarded v contents base law (fat_sector v i c) true m g)
          (λ sec m₁ _ g₁.
            write_sector_uncached-IsGuarded v contents base law (fat_sector v i c)
              (put_entry sec (ent_off v c) value) m₁ g₁
              (fat_sector-IsInside i c (omega arith) valid)))
        (λ _ m₂ _ g₂. set_copies-Guarded c value valid left (i + 1) m₂ (omega arith) g₂)

  pub set_cluster_value-Guarded :
      (c value : ℕ) (m : Fat32 S)
      → Guarded m
      → Leaves (λ _. Unit) Guarded (set_cluster_value c value m)
  unfolding set_cluster_value set_value_in
  set_cluster_value-Guarded c value m g =
      on_mounted (λ (w : Volume S). set_value_in w c value m) g.fs
        (Leaves-then_run (guard (cluster_is_valid v c) m) (Leaves-guard (cluster_is_valid v c) m g)
          (λ _ m₁ valid g₁.
            Leaves-then_run (guard (value_is_sane v value) m₁)
              (Leaves-guard (value_is_sane v value) m₁ g₁)
              (λ _ m₂ _ g₂.
                Leaves-then_run (guard (off_fits v c) m₂) (Leaves-guard (off_fits v c) m₂ g₂)
                  (λ _ m₃ _ g₃.
                    set_copies-Guarded c value valid v.fat_count 0 m₃ (omega arith) g₃))))

  hinted : (m : Fat32 S) (h : ℕ) → Guarded m → Guarded (record m { alloc_hint_cluster = h })
  hinted m h g = record { fs = g.fs; outside = g.outside }

  pub free_chain-Guarded :
      (fuel cur : ℕ) (m : Fat32 S) → Guarded m → Leaves (λ _. Unit) Guarded (free_chain fuel cur m)
  unfolding free_chain lower_hint
  free_chain-Guarded zero cur m g = record { left = tt }
  free_chain-Guarded (suc fuel) cur m g =
      elim (Bool-cases (cluster_is_valid m.fs cur && ltb cur eoc)) [
        | inl on ↦
            rw (on, free_chain)
              (Leaves-then_run (next_cluster cur m) (next_cluster-Guarded cur m g) (λ next m₁ _ g₁.
                Leaves-then_run (set_cluster_value cur 0 m₁) (set_cluster_value-Guarded cur 0 m₁ g₁)
                  (λ _ m₂ _ g₂. elim (Bool-cases (leb eoc next)) [
                    | inl end ↦ rw end (record { left = (tt, hinted m₂ _ g₂) })
                    | inr more ↦
                        rw more (free_chain-Guarded fuel next (lower_hint cur m₂) (hinted m₂ _ g₂))
                  ])))
        | inr off ↦ rw (off, free_chain) (record { left = (tt, g) })
      ]

  -- A sector of a valid cluster.
  abbrev pub IsData : ℕ → Type 0
  IsData lba =
      (v.data_start_lba ≤ lba) × (lba < v.data_start_lba + v.data_clusters * v.sectors_per_cluster)

  pub data-IsInside : (lba : ℕ) → IsData lba → IsInside v lba
  data-IsInside lba d = (omega (arith, f.data_follows, d.0), d.1)

  pub sector-IsData :
      (c s : ℕ)
      → cluster_is_valid v c ≡ true
      → s < v.sectors_per_cluster
      → IsData (u32 (cluster_to_lba v c + s))
  sector-IsData c s valid hs =
      let low = cluster_is_valid_le v c valid in
      (
        omega (arith, cluster_to_lba_lem v f c s low.0 low.1 hs),
        omega (arith, cluster_to_lba_lem v f c s low.0 low.1 hs),
      )

  pub first-IsData : (c : ℕ) → cluster_is_valid v c ≡ true → IsData (cluster_to_lba v c)
  first-IsData c valid =
      let low = cluster_is_valid_le v c valid in
      let at = cluster_to_lba_lem v f c 0 low.0 low.1 f.has_sectors in
      let start = cluster_base v f c low.0 low.1 in (omega (arith, start), omega (arith, at, start))

  pub zero_cluster-Guarded :
      (c : ℕ)
      → cluster_is_valid v c ≡ true
      → (left s : ℕ) (m : Fat32 S) → s + left ≤ v.sectors_per_cluster
      → Guarded m
      → Leaves (λ _. Unit) Guarded (zero_cluster (cluster_to_lba v c) left s m)
  unfolding zero_cluster
  zero_cluster-Guarded c valid zero s m h g = record { left = (tt, g) }
  zero_cluster-Guarded c valid (suc left) s m h g =
      let lba = u32 (cluster_to_lba v c + s) in
      Leaves-then_run (write_sector_uncached lba blank_sector m)
        (write_sector_uncached-IsGuarded v contents base law lba blank_sector m g
          (data-IsInside lba (sector-IsData c s valid (omega arith))))
        (λ _ m₁ _ g₁. zero_cluster-Guarded c valid left (s + 1) m₁ (omega arith) g₁)

  claim-Guarded :
      (c : ℕ) (m : Fat32 S)
      → cluster_is_valid v c ≡ true
      → Guarded m
      → Leaves (OnSome IsCluster) Guarded (claim c m)
  unfolding claim raise_hint
  claim-Guarded c m valid g =
      Leaves-then_run (set_cluster_value c end_mark m) (set_cluster_value-Guarded c end_mark m g)
        (λ _ m₁ _ g₁.
          Leaves-then_run (zero_cluster (cluster_to_lba m₁.fs c) m₁.fs.sectors_per_cluster 0 m₁)
            (on_mounted
              (λ (w : Volume S). zero_cluster (cluster_to_lba w c) w.sectors_per_cluster 0 m₁) g₁.fs
              (zero_cluster-Guarded c valid v.sectors_per_cluster 0 m₁ (omega arith) g₁))
            (λ _ m₂ _ g₂. record { left = (valid, hinted m₂ _ g₂) }))

  alloc_from-Guarded :
      (left c : ℕ) (m : Fat32 S)
      → Guarded m
      → Leaves (OnSome IsCluster) Guarded (alloc_from left c m)
  unfolding alloc_from
  alloc_from-Guarded zero c m g = record { left = (tt, g) }
  alloc_from-Guarded (suc left) c m g =
      Leaves-then_run (next_cluster c m) (next_both c m g) (λ value m₁ valid g₁.
        elim (Bool-cases (value == 0)) [
          | inl free ↦ rw free (claim-Guarded c m₁ valid.0 g₁)
          | inr used ↦ rw used (alloc_from-Guarded left (c + 1) m₁ g₁)
        ])

  given :
      (o : Option ℕ) (m : Fat32 S)
      → OnSome IsCluster o
      → Guarded m
      → Leaves IsCluster Guarded (from_option o m)
  given none m p g = record { left = g }
  given (some c) m p g = record { left = (p, g) }

  try_again-Guarded :
      (start : ℕ) (o : Option ℕ) (m : Fat32 S)
      → OnSome IsCluster o
      → Guarded m
      → Leaves IsCluster Guarded (try_again start o m)
  unfolding try_again
  try_again-Guarded start (some c) m p g = record { left = (p, g) }
  try_again-Guarded start none m p g =
      Leaves-then_run (alloc_from (start - 2) 2 m) (alloc_from-Guarded (start - 2) 2 m g)
        (λ o m₁ q g₁. given o m₁ q g₁)

  pub alloc_cluster-Guarded : (m : Fat32 S) → Guarded m → Leaves IsCluster Guarded (alloc_cluster m)
  unfolding alloc_cluster
  alloc_cluster-Guarded m g =
      Leaves-then_run (alloc_from (m.fs.max_data_cluster + 1 - alloc_start m) (alloc_start m) m)
        (alloc_from-Guarded (m.fs.max_data_cluster + 1 - alloc_start m) (alloc_start m) m g)
        (λ o m₁ p g₁. try_again-Guarded (alloc_start m) o m₁ p g₁)
