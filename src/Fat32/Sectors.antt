-- ===== src/Fat32/Sectors.antt =====
-- kernel/fat32.c, reads of several sectors, and the fields of a directory entry.
pub mod Fields
pub mod Reads
use Prim.Native.String.{String}
use tg11_os.Prelude.{
  ℕ, zero, suc, ◌+◌, ◌*◌, ◌%◌, ◌-◌, Bool, true, false, not, ◌&&◌, ◌||◌, Option, none, some, ltb,
  leb, ◌==◌, if◌then◌else◌, update, bit_and, bit_or, u8, u32, ◌<<<◌, ◌>>>◌,
}
use tg11_os.Prelude.Actions.{Outcome, ok, failed, stuck, Action, pure, ◌>>=◌}
use tg11_os.Block.{Sector, BlockDevice}
use tg11_os.Fat32.{Fat32, read_sector_cached, set_error}
use tg11_os.Fat32.Bytes.{rd16}

-- `FAT32_ATTR_DIRECTORY`, `FAT32_ATTR_LFN`, and the mark of a deleted entry.
abbrev pub attr_directory : ℕ
attr_directory = 0x10

abbrev pub attr_lfn : ℕ
attr_lfn = 0x0F

abbrev pub deleted : ℕ
deleted = 0xE5

-- The 32 bytes at an offset.
abbrev pub entry_at : Sector → ℕ → Sector
entry_at sec off i = sec (off + i)

unfoldable pub is_directory : Sector → Bool
is_directory entry = not (bit_and (entry 11) attr_directory == 0)

unfoldable pub entry_first_cluster : Sector → ℕ
entry_first_cluster entry = bit_or (u32 (rd16 entry 20 <<< 16)) (rd16 entry 26)

-- `entry_set_first_cluster` on the entry at an offset.
unfoldable pub set_first_cluster : Sector → ℕ → ℕ → Sector
set_first_cluster sec off cluster =
    update
      (update
        (update (update sec (off + 20) (u8 (bit_and (cluster >>> 16) 0xFF))) (off + 21)
          (u8 (bit_and (cluster >>> 24) 0xFF)))
        (off + 26) (u8 (bit_and cluster 0xFF)))
      (off + 27) (u8 (bit_and (cluster >>> 8) 0xFF))

-- The size of a file, at an offset of 28.
unfoldable pub set_size : Sector → ℕ → ℕ → Sector
set_size sec off size =
    update
      (update
        (update (update sec (off + 28) (u8 (bit_and size 0xFF))) (off + 29)
          (u8 (bit_and (size >>> 8) 0xFF)))
        (off + 30) (u8 (bit_and (size >>> 16) 0xFF)))
      (off + 31) (u8 (bit_and (size >>> 24) 0xFF))

-- A blank entry with a name and an attribute.
unfoldable pub new_entry : Sector → ℕ → Sector → ℕ → Sector
new_entry sec off name83 attr i =
    if ltb i off || leb (off + 32) i
    then sec i
    else if ltb i (off + 11)
    then name83 (i - off)
    else if i == off + 11
    then attr
    else 0

unfoldable pub entry_name_is_dot_or_dotdot : Sector → Bool
entry_name_is_dot_or_dotdot entry =
    if entry 0 == 0x2E
    then true
    else if entry 0 == 0x2E && entry 1 == 0x2E
    then true
    else if entry 0 == 0x2E && entry 1 == 0x20 && entry 2 == 0x20
    then true
    else if entry 0 == 0x2E && entry 1 == 0x2E && entry 2 == 0x20
    then true
    else false

abbrev pub is_some : {A : Type 0} → Option A → Bool
is_some none = false
is_some (some a) = true

module _ {S : Type 0} where
  -- A buffer of sectors that are read one by one.
  unfoldable pub read_each : ℕ → (left i : ℕ) → (ℕ → ℕ) → Action (Fat32 S) (ℕ → ℕ)
  read_each lba zero i buffer = pure buffer
  read_each lba (suc left) i buffer = do
    sec ← read_sector_cached (u32 (lba + i)) false
    read_each lba left (i + 1)
        (λ j. if leb (i * 512) j && ltb j ((i + 1) * 512) then sec (j % 512) else buffer j)

  unfoldable pub many_answered : Option (ℕ → ℕ) × S → Action (Fat32 S) (ℕ → ℕ)
  many_answered (none, disk) m = failed (record m { disk = disk })
  many_answered (some buffer, disk) m = ok buffer (record m { disk = disk })

  abbrev pub device_read_many : BlockDevice S → Option (ℕ → ℕ → S → Option (ℕ → ℕ) × S)
  device_read_many d = d.read_sectors

  -- The function of the device for several sectors, null or not.
  unfoldable pub many_driver : Fat32 S → Option (ℕ → ℕ → S → Option (ℕ → ℕ) × S)
  many_driver m = elim m.fs.dev [ none ↦ none | some d ↦ device_read_many d ]

  unfoldable pub read_data_sectors : ℕ → ℕ → Action (Fat32 S) (ℕ → ℕ)
  read_data_sectors lba count m =
      if count == 0
      then failed m
      else if not (m.fs.mounted && is_some m.fs.dev)
      then failed m
      else if ltb 1 count
      then elim (many_driver m) [
        | none ↦ read_each lba count 0 (λ _. 0) m
        | some read ↦ many_answered (read lba count m.disk) m
      ]
      else read_each lba count 0 (λ _. 0) m

  -- The sectors that are read at once.
  unfoldable pub sectors_per_read : Fat32 S → ℕ
  sectors_per_read m = if is_some (many_driver m) then m.io_batch_sectors else 1

  unfoldable pub set_io_batch_sectors : ℕ → Action (Fat32 S) (Unit {0})
  set_io_batch_sectors count m =
      if ltb count 1 || ltb 32 count
      then failed m
      else ok tt (record m { io_batch_sectors = count })

  -- A call whose failure is reported.
  abbrev pub reported : {A : Type 0} → String → Outcome (Fat32 S) A → Outcome (Fat32 S) A
  reported msg (ok a m) = ok a m
  reported msg (failed m) = failed (set_error msg m)
  reported msg stuck = stuck

  abbrev pub or_error : {A : Type 0} → Action (Fat32 S) A → String → Action (Fat32 S) A
  or_error act msg m = reported msg (act m)
