-- ===== src/Fat32.antt =====
-- kernel/fat32.c, the state of the file system and its two caches of sectors.
pub mod Cached
pub mod Bytes
pub mod Table
pub mod Mount
pub mod Names
pub mod Sectors
pub mod Directory
pub mod Listing
pub mod Files
pub mod Safety
mod Tests
use Prim.Native.String.{String}
use tg11_os.Prelude.{
  ℕ, zero, suc, ◌+◌, ◌*◌, ◌/◌, ◌%◌, ◌-◌, ◌^◌, Bool, true, false, not, ◌&&◌, ◌||◌, Option, none,
  some, ltb, leb, ◌==◌, if◌then◌else◌, update, u32,
}
use tg11_os.Prelude.Actions.{Outcome, ok, failed, stuck, Action, pure, ◌>>=◌, ◌>>◌}
use tg11_os.Block.{Sector, BlockDevice}

abbrev pub cache_slots : ℕ
cache_slots = 8

-- `struct fat32_state` but for `alloc_hint_cluster`, the one field that changes while it is mounted.
pub record Volume (S : Type 0) : Type 0 where
  pub mounted : Bool
  pub dev : Option (BlockDevice S)
  pub start_lba : ℕ
  pub bytes_per_sector : ℕ
  pub sectors_per_cluster : ℕ
  pub reserved_sectors : ℕ
  pub fat_count : ℕ
  pub sectors_per_fat : ℕ
  pub root_cluster : ℕ
  pub fat_start_lba : ℕ
  pub data_start_lba : ℕ
  pub total_sectors : ℕ
  pub data_clusters : ℕ
  pub max_data_cluster : ℕ

-- `struct fat32_sector_cache_entry`
pub record CacheEntry : Type 0 where
  pub valid : Bool
  pub lba : ℕ
  pub age : ℕ
  pub bytes : Sector

abbrev pub Cache : Type 0
Cache = ℕ → CacheEntry

-- The static variables of fat32.c, and the state of the hardware that the device works on.
pub record Fat32 (S : Type 0) : Type 0 where
  pub fs : Volume S
  pub alloc_hint_cluster : ℕ
  pub last_error : String
  pub io_batch_sectors : ℕ
  pub data_cache_enabled : Bool
  pub fat_cache_enabled : Bool
  pub cache_age_counter : ℕ
  pub data_cache : Cache
  pub fat_cache : Cache
  pub disk : S

unfoldable pub cache_clear : ℕ → Cache → Cache
cache_clear slots cache i =
    if ltb i slots then record (cache i) { valid = false; lba = 0; age = 0 } else cache i

-- The slot that `fat32_cache_store` overwrites: the first that is not valid, or the oldest.
unfoldable pub cache_victim : (left i slot min_age : ℕ) → Cache → ℕ
cache_victim zero i slot min_age cache = slot
cache_victim (suc left) i slot min_age cache =
    if not (cache i).valid
    then i
    else if ltb (cache i).age min_age
    then cache_victim left (i + 1) i (cache i).age cache
    else cache_victim left (i + 1) slot min_age cache

-- The slot in which `fat32_cache_lookup` finds the sector.
unfoldable pub cache_find : (left i lba : ℕ) → Cache → Option ℕ
cache_find zero i lba cache = none
cache_find (suc left) i lba cache =
    if (cache i).valid && (cache i).lba == lba then some i else cache_find left (i + 1) lba cache

module _ {S : Type 0} where
  unfoldable pub flush_cache : Fat32 S → Fat32 S
  unfolding cache_clear
  flush_cache m = record m {
    data_cache = cache_clear cache_slots m.data_cache;
    fat_cache = cache_clear cache_slots m.fat_cache;
    cache_age_counter = 1;
  }

  -- The cache that `use_fat_cache` picks, whether it is in use, and a write to one of its slots,
  -- which takes the next age.
  unfoldable pub cache_of : Bool → Fat32 S → Cache
  cache_of use_fat_cache m = if use_fat_cache then m.fat_cache else m.data_cache

  unfoldable pub cache_enabled : Bool → Fat32 S → Bool
  cache_enabled use_fat_cache m =
      if use_fat_cache then m.fat_cache_enabled else m.data_cache_enabled

  unfoldable pub put_slot : Bool → ℕ → CacheEntry → Fat32 S → Fat32 S
  put_slot true i entry m = record m {
    fat_cache = update m.fat_cache i entry;
    cache_age_counter = u32 (m.cache_age_counter + 1);
  }
  put_slot false i entry m = record m {
    data_cache = update m.data_cache i entry;
    cache_age_counter = u32 (m.cache_age_counter + 1);
  }

  unfoldable pub cache_store : Bool → ℕ → Sector → Fat32 S → Fat32 S
  unfolding cache_victim cache_of put_slot
  cache_store use_fat_cache lba sec m =
      put_slot use_fat_cache (cache_victim cache_slots 0 0 (2 ^ 32 - 1) (cache_of use_fat_cache m))
        (record { valid = true; lba = lba; age = m.cache_age_counter; bytes = sec }) m

  unfoldable pub cache_lookup : Bool → ℕ → Fat32 S → Option ℕ
  unfolding cache_find cache_of cache_enabled
  cache_lookup use_fat_cache lba m =
      if cache_enabled use_fat_cache m
      then cache_find cache_slots 0 lba (cache_of use_fat_cache m)
      else none

  -- The sector in a slot, which becomes the youngest.
  unfoldable pub cache_hit : Bool → ℕ → Action (Fat32 S) Sector
  unfolding cache_of put_slot
  cache_hit use_fat_cache i m =
      let entry = cache_of use_fat_cache m i in
      ok entry.bytes (put_slot use_fat_cache i (record entry { age = m.cache_age_counter }) m)

  -- What the device answers is kept in the cache.
  unfoldable pub fetched : Bool → ℕ → Option Sector × S → Action (Fat32 S) Sector
  unfolding cache_store cache_enabled
  fetched use_fat_cache lba (none, disk) m = failed (record m { disk = disk })
  fetched use_fat_cache lba (some sec, disk) m =
      let m' : Fat32 S = record m { disk = disk } in
      ok sec (if cache_enabled use_fat_cache m then cache_store use_fat_cache lba sec m' else m')

  abbrev pub device_read : BlockDevice S → Option (ℕ → S → Option Sector × S)
  device_read d = d.read_sector

  abbrev pub device_write : BlockDevice S → Option (ℕ → Sector → S → Bool × S)
  device_write d = d.write_sector

  -- A function of the device, if the volume is mounted and the device has it.
  unfoldable pub driver : {F : Type 0} → (BlockDevice S → Option F) → Fat32 S → Option F
  driver f m = if m.fs.mounted then elim m.fs.dev [ none ↦ none | some d ↦ f d ] else none

  unfoldable pub read_sector_cached : ℕ → Bool → Action (Fat32 S) Sector
  unfolding cache_lookup cache_hit fetched driver
  read_sector_cached lba use_fat_cache m = elim (driver device_read m) [
    | none ↦ failed m
    | some read ↦ elim (cache_lookup use_fat_cache lba m) [
      | some i ↦ cache_hit use_fat_cache i m
      | none ↦ fetched use_fat_cache lba (read lba m.disk) m
    ]
  ]

  unfoldable pub write_answered : Bool × S → Action (Fat32 S) (Unit {0})
  unfolding flush_cache
  write_answered (false, disk) m = failed (record m { disk = disk })
  write_answered (true, disk) m = ok tt (flush_cache (record m { disk = disk }))

  unfoldable pub write_sector_uncached : ℕ → Sector → Action (Fat32 S) (Unit {0})
  unfolding write_answered driver
  write_sector_uncached lba sec m = elim (driver device_write m) [
    | none ↦ failed m
    | some write ↦ write_answered (write lba sec m.disk) m
  ]

  -- `fat32_set_error`: the messages are shorter than the buffer of 96 bytes.
  unfoldable pub set_error : String → Fat32 S → Fat32 S
  set_error msg m = record m { last_error = msg }

  unfoldable pub clear_error : Fat32 S → Fat32 S
  clear_error m = record m { last_error = "" }
