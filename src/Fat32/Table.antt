-- ===== src/Fat32/Table.antt =====
-- kernel/fat32.c, the file allocation table: its entries, and the operations that take clusters
-- from it and give them back.
pub mod Copies
pub mod Entries
pub mod Freeing
pub mod Claiming
pub mod Space
use tg11_os.Prelude.{
  ℕ, zero, suc, ◌+◌, ◌*◌, ◌/◌, ◌%◌, ◌-◌, ◌^◌, Bool, true, false, not, ◌&&◌, ◌||◌, Option, none,
  some, ltb, leb, ◌==◌, if◌then◌else◌, bit_and, u32, u64,
}
use tg11_os.Prelude.Actions.{
  Outcome, ok, failed, stuck, Action, pure, get, modify, guard, from_option, ◌>>=◌, ◌>>◌,
}
use tg11_os.Block.{Sector}
use tg11_os.Fat32.{Volume, Fat32, read_sector_cached, write_sector_uncached}
use tg11_os.Fat32.Bytes.{rd32, put_entry}

-- `FAT32_EOC`, from which on a value marks the end of a chain, and the mark that is written.
abbrev pub eoc : ℕ
eoc = 0x0FFFFFF8

abbrev pub end_mark : ℕ
end_mark = 0x0FFFFFFF

abbrev pub blank_sector : Sector
blank_sector i = 0

module _ {S : Type 0} where
  unfoldable pub cluster_to_lba : Volume S → ℕ → ℕ
  cluster_to_lba v cluster =
      u32 (v.data_start_lba + u32 (u32 (cluster + 2 ^ 32 - 2) * v.sectors_per_cluster))

  unfoldable pub cluster_is_valid : Volume S → ℕ → Bool
  cluster_is_valid v cluster =
      if ltb cluster 2
      then false
      else if v.data_clusters == 0
      then false
      else if ltb v.max_data_cluster cluster
      then false
      else true

  -- The sector of a cluster's entry in one of the copies of the table, and the place in it.
  unfoldable pub fat_sector : Volume S → ℕ → ℕ → ℕ
  fat_sector v fat_index cluster = u32 (
      u32 (v.fat_start_lba + u32 (fat_index * v.sectors_per_fat))
      + u32 (cluster * 4) / v.bytes_per_sector)

  unfoldable pub ent_off : Volume S → ℕ → ℕ
  ent_off v cluster = u32 (cluster * 4) % v.bytes_per_sector

  unfoldable pub off_fits : Volume S → ℕ → Bool
  off_fits v cluster = leb (ent_off v cluster) (u32 (v.bytes_per_sector + 2 ^ 32 - 4))

  -- A value that names a cluster names one of this volume.
  unfoldable pub value_is_sane : Volume S → ℕ → Bool
  value_is_sane v value = not (leb 2 value && ltb value eoc && not (cluster_is_valid v value))

  unfoldable pub entry_value : Volume S → ℕ → Sector → ℕ
  entry_value v cluster sec = bit_and (rd32 sec (ent_off v cluster)) 0x0FFFFFFF

  -- `fat32_next_cluster` on the mounted volume.
  unfoldable pub next_in : Volume S → ℕ → Action (Fat32 S) ℕ
  next_in v cluster = do
    guard (cluster_is_valid v cluster)
    sec ← read_sector_cached (fat_sector v 0 cluster) true
    guard (off_fits v cluster)
    guard (value_is_sane v (entry_value v cluster sec))
    pure (entry_value v cluster sec)

  unfoldable pub next_cluster : ℕ → Action (Fat32 S) ℕ
  next_cluster cluster m = next_in m.fs cluster m

  -- One copy of the table gets the value.
  unfoldable pub set_copy : Volume S → ℕ → ℕ → ℕ → Action (Fat32 S) (Unit {0})
  set_copy v cluster value fat_index = do
    sec ← read_sector_cached (fat_sector v fat_index cluster) true
    write_sector_uncached (fat_sector v fat_index cluster) (put_entry sec (ent_off v cluster) value)

  -- The copies from `fat_index` on.
  unfoldable pub set_copies : Volume S → ℕ → ℕ → (left fat_index : ℕ) → Action (Fat32 S) (Unit {0})
  set_copies v cluster value zero fat_index = pure tt
  set_copies v cluster value (suc left) fat_index = do
    set_copy v cluster value fat_index
    set_copies v cluster value left (fat_index + 1)

  -- `fat32_set_cluster_value` on the mounted volume.
  unfoldable pub set_value_in : Volume S → ℕ → ℕ → Action (Fat32 S) (Unit {0})
  set_value_in v cluster value = do
    guard (cluster_is_valid v cluster)
    guard (value_is_sane v value)
    guard (off_fits v cluster)
    set_copies v cluster value v.fat_count 0

  unfoldable pub set_cluster_value : ℕ → ℕ → Action (Fat32 S) (Unit {0})
  set_cluster_value cluster value m = set_value_in m.fs cluster value m

  unfoldable pub lower_hint : ℕ → Fat32 S → Fat32 S
  lower_hint cur m = record m {
    alloc_hint_cluster =
        if not (cluster_is_valid m.fs m.alloc_hint_cluster) || ltb cur m.alloc_hint_cluster
        then cur
        else m.alloc_hint_cluster;
  }

  -- The loop of `fat32_free_chain`, one round for a cluster of the chain.
  unfoldable pub free_chain : (fuel cur : ℕ) → Action (Fat32 S) (Unit {0})
  free_chain zero cur m = stuck
  free_chain (suc fuel) cur m = elim (cluster_is_valid m.fs cur && ltb cur eoc) [
    | false ↦ ok tt m
    | true ↦
        (do
          next ← next_cluster cur
          set_cluster_value cur 0
          modify (lower_hint cur)
          if leb eoc next then pure tt else free_chain fuel next)
          m
  ]

  -- The sectors of a cluster from the `s`-th on are filled with zeros.
  unfoldable pub zero_cluster : ℕ → (left s : ℕ) → Action (Fat32 S) (Unit {0})
  zero_cluster lba zero s = pure tt
  zero_cluster lba (suc left) s = do
    write_sector_uncached (u32 (lba + s)) blank_sector
    zero_cluster lba left (s + 1)

  unfoldable pub raise_hint : ℕ → Fat32 S → Fat32 S
  raise_hint c m = record m {
    alloc_hint_cluster = if ltb c m.fs.max_data_cluster then u32 (c + 1) else 2;
  }

  -- A free cluster is taken: the body of either loop of `fat32_alloc_cluster`.
  unfoldable pub claim : ℕ → Action (Fat32 S) (Option ℕ)
  claim c = do
    set_cluster_value c end_mark
    m ← get
    zero_cluster (cluster_to_lba m.fs c) m.fs.sectors_per_cluster 0
    modify (raise_hint c)
    pure (some c)

  -- The clusters from `c` on are tried; none if the loop ends without one.
  unfoldable pub alloc_from : (left c : ℕ) → Action (Fat32 S) (Option ℕ)
  alloc_from zero c = pure none
  alloc_from (suc left) c = do
    value ← next_cluster c
    if value == 0 then claim c else alloc_from left (c + 1)

  unfoldable pub alloc_start : Fat32 S → ℕ
  alloc_start m = if cluster_is_valid m.fs m.alloc_hint_cluster then m.alloc_hint_cluster else 2

  -- The second loop, over the clusters before the first one tried.
  unfoldable pub try_again : ℕ → Option ℕ → Action (Fat32 S) ℕ
  try_again start (some c) = pure c
  try_again start none = do found ← alloc_from (start - 2) 2; from_option found

  unfoldable pub alloc_cluster : Action (Fat32 S) ℕ
  alloc_cluster = do
    m ← get
    let start = alloc_start m
    found ← alloc_from (m.fs.max_data_cluster + 1 - start) start
    try_again start found

  -- The loop of `fat32_get_free_bytes`.
  unfoldable pub count_free_clusters : (left c free_clusters : ℕ) → Action (Fat32 S) ℕ
  count_free_clusters zero c free_clusters = pure free_clusters
  count_free_clusters (suc left) c free_clusters = do
    next ← next_cluster c
    count_free_clusters left (c + 1) (if next == 0 then free_clusters + 1 else free_clusters)

  unfoldable pub get_free_bytes : Action (Fat32 S) ℕ
  get_free_bytes = do
    m ← get
    guard m.fs.mounted
    free_clusters ← count_free_clusters (m.fs.max_data_cluster - 1) 2 0
    pure (u64 (free_clusters * (m.fs.sectors_per_cluster * m.fs.bytes_per_sector)))
