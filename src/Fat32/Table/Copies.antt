-- ===== src/Fat32/Table/Copies.antt =====
-- kernel/fat32.c, the copies of the table: what set_cluster_value writes and next_cluster reads.
use native.Mathlib.Nat.{mul-le-mul_right}
use tg11_os.Prelude.{
  ℕ, zero, suc, ◌+◌, ◌*◌, ◌/◌, ◌%◌, ◌-◌, ◌^◌, ◌≤◌, ◌<◌, Bool, true, false, ◌&&◌, ltb, leb, ◌==◌,
  if◌then◌else◌, update, u32, ◌≡◌, ◌⊎◌, refl, ap, ap₂, ==-eq, ◌∙◌, inl, inr, Bool-cases, arith,
}
use tg11_os.Prelude.Actions.{Returns, Returns-then_run, Returns-weaken}
use tg11_os.Block.{Sector}
use tg11_os.Fat32.{Volume, Fat32, read_sector_cached, write_sector_uncached}
use tg11_os.Fat32.Bytes.{put_entry, rd32-put_entry, rd32-put_entry_elsewhere}
use tg11_os.Fat32.Cached.{image, IsReady, read_sector_cached_lem, write_sector_uncached_lem}
use tg11_os.Fat32.Table.{
  cluster_to_lba, fat_sector, ent_off, off_fits, entry_value, set_copy, set_copies,
}

-- A table that has room for an entry of every cluster, on a disk whose sectors have addresses of
-- 32 bits. The copies of the table stand between `fat_start_lba` and `data_start_lba`.
pub record IsFormatted {S : Type 0} (v : Volume S) : Type 0 where
  pub sector_size : v.bytes_per_sector ≡ 512
  pub has_copy : 0 < v.fat_count
  pub has_sectors : 0 < v.sectors_per_cluster
  pub last : v.max_data_cluster ≡ v.data_clusters + 1
  pub covers : v.max_data_cluster < v.sectors_per_fat * 128
  pub data_follows : v.data_start_lba ≡ v.fat_start_lba + v.fat_count * v.sectors_per_fat
  pub addresses : v.data_start_lba + v.data_clusters * v.sectors_per_cluster ≤ 2 ^ 32
  pub numbers : v.max_data_cluster < 0x0FFFFFF8

-- Rows of `n` places do not overlap.
pub row_below : (n i k x : ℕ) → i < k → x < n → i * n + x < k * n
row_below n i k x h g = grind (arith, mul-le-mul_right)

pub row_lem : (n i k x y : ℕ) → x < n → y < n → i * n + x ≡ k * n + y → (i ≡ k) × (x ≡ y)
row_lem n i k x y h g e = elim (Bool-cases (ltb i k)) [
  | inl below ↦ absurd (ground (arith, row_below n i k x))
  | inr under ↦ elim (Bool-cases (ltb k i)) [
    | inl above ↦ absurd (ground (arith, row_below n k i y))
    | inr over ↦
        let same : i ≡ k = ground arith in (same, ground (arith, ap (λ (t : ℕ). t * n) same))
  ]
]

module _ {S : Type 0} (v : Volume S) where
  -- The value of an entry in one of the copies.
  abbrev pub copy_value : (ℕ → Sector) → ℕ → ℕ → ℕ
  copy_value disk k c = entry_value v c (disk (fat_sector v k c))

  module _ (f : IsFormatted v) where
    pub fat_sector_lem :
        (k c : ℕ)
        → k < v.fat_count
        → c ≤ v.max_data_cluster
        → fat_sector v k c ≡ v.fat_start_lba + (k * v.sectors_per_fat + c / 128)
    unfolding fat_sector
    fat_sector_lem k c h g = ground (
      arith,
      f.sector_size,
      f.covers,
      f.data_follows,
      f.addresses,
      f.numbers,
      row_below v.sectors_per_fat k v.fat_count (c / 128),
    )

    ent_off_lem : (c : ℕ) → c ≤ v.max_data_cluster → ent_off v c ≡ c % 128 * 4
    unfolding ent_off
    ent_off_lem c h = ground (arith, f.sector_size, f.numbers)

    pub off_fits-true : (c : ℕ) → c ≤ v.max_data_cluster → off_fits v c ≡ true
    unfolding off_fits
    off_fits-true c h = ground (arith, f.sector_size, ent_off_lem c h)

    -- Two entries with the same sector.
    same_sector :
        (i c k j : ℕ)
        → i < v.fat_count
        → c ≤ v.max_data_cluster
        → k < v.fat_count
        → j ≤ v.max_data_cluster
        → fat_sector v i c ≡ fat_sector v k j
        → (i ≡ k) × (c / 128 ≡ j / 128)
    same_sector i c k j hi hc hk hj e =
        row_lem v.sectors_per_fat i k (c / 128) (j / 128) (omega (arith, f.covers))
          (omega (arith, f.covers))
          (omega (arith, fat_sector_lem i c hi hc, fat_sector_lem k j hk hj))

    -- A write of one entry in one copy changes this entry of this copy only.
    copy_value_put :
        (disk : ℕ → Sector) (i c k j value : ℕ)
        → i < v.fat_count
        → c ≤ v.max_data_cluster
        → k < v.fat_count
        → j ≤ v.max_data_cluster
        → copy_value
            (update disk
              (fat_sector v i c)
              (put_entry (disk (fat_sector v i c)) (ent_off v c) value))
            k
            j
          ≡ (if (i == k) && (c == j) then value % 2 ^ 28 else copy_value disk k j)
    unfolding entry_value
    copy_value_put disk i c k j value hi hc hk hj =
        elim (Bool-cases (fat_sector v i c == fat_sector v k j)) [
          | inl same ↦
              let e = ==-eq _ _ same in
              let (row, place) = same_sector i c k j hi hc hk hj e in
              elim (Bool-cases (c == j)) [
                | inl here ↦
                    let here' = ==-eq c j here in
                    rw (entry_value, ← row, ← here')
                      (ground (arith, rd32-put_entry (disk (fat_sector v i c)) (ent_off v c) value))
                | inr there ↦ ground (
                  arith,
                  ap disk e,
                  ent_off_lem c hc,
                  ent_off_lem j hj,
                  rd32-put_entry_elsewhere (disk (fat_sector v i c)) (ent_off v c) (ent_off v j)
                      value,
                )
              ]
          | inr apart ↦ elim (Bool-cases ((i == k) && (c == j))) [
            | inl both ↦
                let ek : i ≡ k = ground arith in
                let ej : c ≡ j = ground arith in absurd (ground (arith, ap₂ (fat_sector v) ek ej))
            | inr other ↦ rw (other, apart) refl
          ]
        ]

    pub outside_table :
        (i c lba : ℕ)
        → i < v.fat_count
        → c ≤ v.max_data_cluster
        → (lba < v.fat_start_lba) ⊎ (v.data_start_lba ≤ lba)
        → (fat_sector v i c == lba) ≡ false
    outside_table i c lba hi hc h = ground (
      arith,
      fat_sector_lem i c hi hc,
      f.covers,
      f.data_follows,
      row_below v.sectors_per_fat i v.fat_count (c / 128),
    )

    pub table_before_data :
        (i c : ℕ) → i < v.fat_count → c ≤ v.max_data_cluster → fat_sector v i c < v.data_start_lba
    table_before_data i c hi hc = ground (
      arith,
      fat_sector_lem i c hi hc,
      f.covers,
      f.data_follows,
      row_below v.sectors_per_fat i v.fat_count (c / 128),
    )

    pub cluster_base :
        (c : ℕ)
        → 2 ≤ c
        → c ≤ v.max_data_cluster
        → cluster_to_lba v c ≡ v.data_start_lba + (c - 2) * v.sectors_per_cluster
    unfolding cluster_to_lba
    cluster_base c low high = ground (
      arith,
      f.last,
      f.addresses,
      f.numbers,
      f.has_sectors,
      row_below v.sectors_per_cluster (c - 2) v.data_clusters 0,
    )

    -- The sectors of the clusters: a cluster is `sectors_per_cluster` sectors of the data area.
    pub cluster_to_lba_lem :
        (c s : ℕ)
        → 2 ≤ c
        → c ≤ v.max_data_cluster
        → s < v.sectors_per_cluster
        → (u32 (cluster_to_lba v c + s) ≡ v.data_start_lba + ((c - 2) * v.sectors_per_cluster + s))
          × (v.data_start_lba + ((c - 2) * v.sectors_per_cluster + s)
              < v.data_start_lba + v.data_clusters * v.sectors_per_cluster)
    unfolding cluster_to_lba
    cluster_to_lba_lem c s low high hs = ground (
      arith,
      f.last,
      f.addresses,
      f.numbers,
      row_below v.sectors_per_cluster (c - 2) v.data_clusters s,
    )

  module _ (contents : S → ℕ → Sector) where
    -- The entry of `c` has a new value in the copies that `b` picks. All other entries stay, and so
    -- does what is outside the copies of the table.
    pub record IsPut (b : ℕ → Bool) (c value : ℕ) (m m' : Fat32 S) : Type 0 where
      pub fs : m'.fs ≡ v
      pub ready : IsReady contents m'
      pub entries :
          (k j : ℕ)
          → k < v.fat_count
          → j ≤ v.max_data_cluster
          → copy_value (image contents m') k j
            ≡ (if b k && (c == j) then value % 2 ^ 28 else copy_value (image contents m) k j)
      pub outside :
          (lba : ℕ)
          → (lba < v.fat_start_lba) ⊎ (v.data_start_lba ≤ lba)
          → image contents m' lba ≡ image contents m lba

    module _ (f : IsFormatted v) (c value : ℕ) (hc : c ≤ v.max_data_cluster) where
      set_copy_lem :
          (i : ℕ) (m : Fat32 S)
          → i < v.fat_count
          → m.fs ≡ v
          → IsReady contents m
          → Returns
              (λ _ m'. IsPut (λ k. i == k) c value m m')
              (λ m'. m'.fs ≡ v)
              (set_copy v c value i m)
      unfolding set_copy
      set_copy_lem i m hi e r =
          Returns-then_run (read_sector_cached (fat_sector v i c) true m)
            (read_sector_cached_lem contents (fat_sector v i c) true m r)
            (λ sec m₁ (at, same).
              Returns-weaken
                (write_sector_uncached (fat_sector v i c) (put_entry sec (ent_off v c) value) m₁)
                (write_sector_uncached_lem contents (fat_sector v i c)
                  (put_entry sec (ent_off v c) value) m₁ same.ready)
                (λ _ m₂ w.
                  let after =
                    w.disk
                    ∙ ap₂
                        (λ (d : ℕ → Sector) (t : Sector).
                          update d (fat_sector v i c) (put_entry t (ent_off v c) value))
                        same.disk at in
                  record {
                    fs = w.fs ∙ same.fs ∙ e;
                    ready = w.ready;
                    entries = λ k j hk hj.
                        ap (λ (d : ℕ → Sector). copy_value d k j) after
                        ∙ copy_value_put f (image contents m) i c k j value hi hc hk hj;
                    outside = λ lba h.
                        ap (λ (d : ℕ → Sector). d lba) after
                        ∙ rw (outside_table f i c lba hi hc h) refl;
                  })
                (λ m₂ h. h ∙ same.fs ∙ e))
            (λ m₁ same. same.fs ∙ e)

      pub set_copies_lem :
          (left i : ℕ) (m : Fat32 S)
          → i + left ≤ v.fat_count
          → m.fs ≡ v
          → IsReady contents m
          → Returns
              (λ _ m'. IsPut (λ k. leb i k && ltb k (i + left)) c value m m')
              (λ m'. m'.fs ≡ v)
              (set_copies v c value left i m)
      unfolding set_copies
      set_copies_lem zero i m hi e r = record {
        ending = record {
          fs = e;
          ready = r;
          entries = λ k j hk hj. ground arith;
          outside = λ lba h. refl;
        };
      }
      set_copies_lem (suc left) i m hi e r =
          Returns-then_run (set_copy v c value i m) (set_copy_lem i m (omega arith) e r)
            (λ _ m₁ p.
              Returns-weaken (set_copies v c value left (i + 1) m₁)
                (set_copies_lem left (i + 1) m₁ (omega arith) p.fs p.ready)
                (λ _ m₂ q. record {
                  fs = q.fs;
                  ready = q.ready;
                  entries = λ k j hk hj. ground (arith, p.entries k j hk hj, q.entries k j hk hj);
                  outside = λ lba h. q.outside lba h ∙ p.outside lba h;
                })
                (λ m₂ h. h))
            (λ m₁ h. h)
