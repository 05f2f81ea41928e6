-- ===== src/Fat32/Mount/Layout.antt =====
-- kernel/fat32.c, where the clusters of a mounted volume lie.
use native.Mathlib.Nat.{mul-le-mul_right}
use tg11_os.Prelude.{ℕ, ◌+◌, ◌*◌, ◌-◌, ◌^◌, ◌≤◌, ◌<◌, true, u32, ◌≡◌, arith}
use tg11_os.Fat32.{Volume}
use tg11_os.Fat32.Table.{cluster_is_valid, cluster_to_lba}
use tg11_os.Fat32.Table.Copies.{IsFormatted, cluster_to_lba_lem, row_lem}
use tg11_os.Fat32.Table.Entries.{cluster_is_valid_le}
use tg11_os.Fat32.Mount.{data_start_rel}
use tg11_os.Fat32.Mount.Geometry.{IsMounted}

-- What mount takes on trust from the boot sector: the volume lies within addresses of 32 bits, and
-- the table has an entry for every cluster.
pub record IsTrue {S : Type 0} (v : Volume S) : Type 0 where
  pub small : v.reserved_sectors + v.fat_count * v.sectors_per_fat < 2 ^ 32
  pub addresses : v.start_lba + v.total_sectors ≤ 2 ^ 32
  pub covers : v.max_data_cluster < v.sectors_per_fat * 128
  pub numbers : v.max_data_cluster < 0x0FFFFFF8

module _ {S : Type 0} (v : Volume S) (m : IsMounted v) (t : IsTrue v) where
  some_sectors : 0 < v.data_clusters * v.sectors_per_cluster
  some_sectors =
      let low = cluster_is_valid_le v v.root_cluster m.root in
      ground (
        arith,
        m.last,
        m.has_sectors,
        mul-le-mul_right {m = 1} {n = v.data_clusters} v.sectors_per_cluster
            (omega (arith, low, m.last)),
      )

  pub mounted-IsFormatted : IsFormatted v
  unfolding data_start_rel
  mounted-IsFormatted = record {
    sector_size = m.sector_size;
    has_copy = m.has_copy;
    has_sectors = m.has_sectors;
    last = m.last;
    covers = t.covers;
    data_follows =
        ground (arith, m.fat_start, m.data_start, m.inside, t.small, t.addresses, some_sectors);
    addresses =
        ground (arith, m.fat_start, m.data_start, m.inside, t.small, t.addresses, some_sectors);
    numbers = t.numbers;
  }

  -- The sectors of a valid cluster lie behind the table and within the volume.
  pub cluster_to_lba_inside :
      (c s : ℕ)
      → cluster_is_valid v c ≡ true
      → s < v.sectors_per_cluster
      → (v.start_lba + v.reserved_sectors + v.fat_count * v.sectors_per_fat
          ≤ u32 (cluster_to_lba v c + s))
        × (u32 (cluster_to_lba v c + s) < v.start_lba + v.total_sectors)
  unfolding data_start_rel
  cluster_to_lba_inside c s valid hs =
      let low = cluster_is_valid_le v c valid in
      ground (
        arith,
        cluster_to_lba_lem v mounted-IsFormatted c s low.0 low.1 hs,
        m.fat_start,
        m.data_start,
        m.inside,
        t.small,
        t.addresses,
        some_sectors,
      )

  -- No two valid clusters have a sector in common.
  pub cluster_to_lba_apart :
      (c d r s : ℕ)
      → cluster_is_valid v c ≡ true
      → cluster_is_valid v d ≡ true
      → r < v.sectors_per_cluster
      → s < v.sectors_per_cluster
      → u32 (cluster_to_lba v c + r) ≡ u32 (cluster_to_lba v d + s)
      → (c ≡ d) × (r ≡ s)
  cluster_to_lba_apart c d r s valid_c valid_d hr hs e =
      let f = mounted-IsFormatted in
      let low_c = cluster_is_valid_le v c valid_c in
      let low_d = cluster_is_valid_le v d valid_d in
      let rows = row_lem v.sectors_per_cluster (c - 2) (d - 2) r s hr hs (
        omega (
          arith,
          cluster_to_lba_lem v f c r low_c.0 low_c.1 hr,
          cluster_to_lba_lem v f d s low_d.0 low_d.1 hs,
        )) in
      (omega (arith, rows, low_c, low_d), rows.1)
