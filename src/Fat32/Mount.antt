-- ===== src/Fat32/Mount.antt =====
-- kernel/fat32.c, mount and unmount: the checks of the boot sector and what is derived from it.
pub mod Geometry
pub mod Layout
use Prim.Native.String.{String}
use tg11_os.Prelude.{
  ℕ, zero, suc, ◌+◌, ◌*◌, ◌/◌, ◌-◌, ◌^◌, Bool, true, false, not, ◌&&◌, ◌||◌, Option, none, some,
  ltb, leb, ◌==◌, if◌then◌else◌, bit_and, u8, u32,
}
use tg11_os.Prelude.Actions.{
  Outcome, ok, failed, stuck, Action, pure, get, modify, fail, ◌>>=◌, ◌>>◌,
}
use tg11_os.Block.{Sector, BlockDevice}
use tg11_os.Fat32.{Volume, Fat32, flush_cache, set_error, clear_error}
use tg11_os.Fat32.Bytes.{rd16, rd32}
use tg11_os.Fat32.Table.{cluster_is_valid}

-- The mark at the end of a boot sector, and the name of the file system.
unfoldable pub is_signed : Sector → Bool
is_signed sector = sector 510 == 0x55 && sector 511 == 0xAA

unfoldable pub is_named : Sector → Bool
is_named sector =
    sector 82 == 0x46
    && sector 83 == 0x41
    && sector 84 == 0x54
    && sector 85 == 0x33
    && sector 86 == 0x32

unfoldable pub boot_is_fat32 : Sector → Bool
boot_is_fat32 sector =
    if not (is_signed sector)
    then false
    else if not (is_named sector)
    then false
    else if not (rd16 sector 11 == 512)
    then false
    else if u8 (sector 13) == 0 || not (bit_and (u8 (sector 13)) (u8 (sector 13) - 1) == 0)
    then false
    else if rd16 sector 14 == 0 || u8 (sector 16) == 0
    then false
    else if rd32 sector 32 == 0
    then false
    else if rd32 sector 36 == 0
    then false
    else if ltb (rd32 sector 44) 2
    then false
    else if not (rd16 sector 19 == 0)
    then false
    else if not (rd16 sector 22 == 0)
    then false
    else true

module _ {S : Type 0} where
  unfoldable pub fail_with : {A : Type 0} → String → Action (Fat32 S) A
  fail_with msg m = failed (set_error msg m)

  unfoldable pub ensure : Bool → String → Action (Fat32 S) (Unit {0})
  ensure true msg = pure tt
  ensure false msg = fail_with msg

  -- The device's function that reads a sector, if the device is there and has one.
  unfoldable pub usable : Option (BlockDevice S) → Action (Fat32 S) (ℕ → S → Option Sector × S)
  usable none = fail_with "mount: device not present"
  usable (some d) =
      if d.present
      then elim d.read_sector [
        | none ↦ fail_with "mount: device not present"
        | some read ↦ pure read
      ]
      else fail_with "mount: device not present"

  unfoldable pub answered : String → Option Sector × S → Action (Fat32 S) Sector
  answered msg (none, disk) m = failed (set_error msg (record m { disk = disk }))
  answered msg (some sec, disk) m = ok sec (record m { disk = disk })

  unfoldable pub read_raw : (ℕ → S → Option Sector × S) → ℕ → String → Action (Fat32 S) Sector
  read_raw read lba msg m = answered msg (read lba m.disk) m

  -- The boot sector of the first partition.
  unfoldable pub partition_boot :
      (ℕ → S → Option Sector × S) → Sector → Action (Fat32 S) (ℕ × Sector)
  partition_boot read sec = do
    ensure (is_signed sec) "mount: invalid MBR signature"
    ensure (not (rd32 sec 454 == 0)) "mount: no active FAT partition"
    boot ← read_raw read (rd32 sec 454) "mount: read partition boot failed"
    ensure (boot_is_fat32 boot) "mount: partition is not FAT32"
    pure (rd32 sec 454, boot)

  -- Where the volume starts, and its boot sector.
  unfoldable pub boot_sector : (ℕ → S → Option Sector × S) → Action (Fat32 S) (ℕ × Sector)
  boot_sector read = do
    sec ← read_raw read 0 "mount: read boot sector failed"
    if boot_is_fat32 sec then pure (0, sec) else partition_boot read sec

  -- The fields that the boot sector gives.
  unfoldable pub set_bpb : Option (BlockDevice S) → ℕ → Sector → Fat32 S → Fat32 S
  set_bpb dev start sec m = record m {
    fs = record m.fs {
      dev = dev;
      start_lba = start;
      bytes_per_sector = rd16 sec 11;
      sectors_per_cluster = u8 (sec 13);
      reserved_sectors = rd16 sec 14;
      fat_count = u8 (sec 16);
      sectors_per_fat = rd32 sec 36;
      root_cluster = rd32 sec 44;
      total_sectors = if not (rd16 sec 19 == 0) then rd16 sec 19 else rd32 sec 32;
    };
  }

  -- The sectors before the data area.
  unfoldable pub data_start_rel : Volume S → ℕ
  data_start_rel v = u32 (v.reserved_sectors + u32 (v.fat_count * v.sectors_per_fat))

  unfoldable pub set_clusters : Volume S → Fat32 S → Fat32 S
  set_clusters v m = record m {
    fs = record m.fs {
      data_clusters = (v.total_sectors - data_start_rel v) / v.sectors_per_cluster;
    };
  }

  unfoldable pub set_last : Fat32 S → Fat32 S
  set_last m = record m {
    fs = record m.fs { max_data_cluster = u32 (m.fs.data_clusters + 1) };
    alloc_hint_cluster = 2;
  }

  unfoldable pub set_areas : Fat32 S → Fat32 S
  set_areas m =
      let fat_start = u32 (m.fs.start_lba + m.fs.reserved_sectors) in
      record m {
        fs = record m.fs {
          fat_start_lba = fat_start;
          data_start_lba = u32 (fat_start + u32 (m.fs.fat_count * m.fs.sectors_per_fat));
          mounted = true;
        };
      }

  -- `fat32_mount` from the second group of checks on.
  unfoldable pub derive_fields : Action (Fat32 S) (Unit {0})
  derive_fields = do
    m ← get
    let v = m.fs
    ensure (v.bytes_per_sector == 512) "mount: unsupported sector size"
    ensure
        (not (
          v.sectors_per_cluster == 0
          || v.fat_count == 0
          || v.sectors_per_fat == 0
          || ltb v.root_cluster 2))
        "mount: invalid FAT32 BPB fields"
    ensure (not (v.total_sectors == 0)) "mount: total sectors is zero"
    ensure (ltb (data_start_rel v) v.total_sectors) "mount: data area outside volume"
    ensure (leb v.sectors_per_cluster (v.total_sectors - data_start_rel v))
        "mount: data area too small"
    modify (set_clusters v)
    m ← get
    ensure (not (m.fs.data_clusters == 0)) "mount: zero data clusters"
    modify set_last
    m ← get
    ensure (cluster_is_valid m.fs m.fs.root_cluster) "mount: root cluster out of range"
    modify (λ m. clear_error (flush_cache (set_areas m)))

  unfoldable pub unmark : Fat32 S → Fat32 S
  unmark m = clear_error (record m { fs = record m.fs { mounted = false } })

  unfoldable pub mount : Option (BlockDevice S) → Action (Fat32 S) (Unit {0})
  mount dev = do
    modify unmark
    read ← usable dev
    (start, sec) ← boot_sector read
    modify (set_bpb dev start sec)
    derive_fields

  unfoldable pub unmount : Fat32 S → Fat32 S
  unmount m = record (clear_error (flush_cache m)) {
    fs = record {
      mounted = false;
      dev = none;
      start_lba = 0;
      bytes_per_sector = 0;
      sectors_per_cluster = 0;
      reserved_sectors = 0;
      fat_count = 0;
      sectors_per_fat = 0;
      root_cluster = 0;
      fat_start_lba = 0;
      data_start_lba = 0;
      total_sectors = 0;
      data_clusters = 0;
      max_data_cluster = 0;
    };
    alloc_hint_cluster = 0;
  }

  pub set_data_cache_enabled : Bool → Fat32 S → Fat32 S
  set_data_cache_enabled enabled m = flush_cache (record m { data_cache_enabled = enabled })

  pub set_fat_cache_enabled : Bool → Fat32 S → Fat32 S
  set_fat_cache_enabled enabled m = flush_cache (record m { fat_cache_enabled = enabled })
