-- ===== src/Fat32/Files.antt =====
-- kernel/fat32.c, what changes directories and files: touch, write, mkdir, remove and set_attr.
use Prim.Native.String.{String}
use tg11_os.Prelude.{
  ℕ, zero, suc, ◌+◌, ◌*◌, ◌/◌, ◌-◌, ◌^◌, true, false, not, ◌&&◌, Option, none, some, List, ltb, leb,
  ◌==◌, if◌then◌else◌, update, u8, u32, u64, bit_and, bit_or, length,
}
use tg11_os.Prelude.Actions.{ok, stuck, Action, pure, get, modify, guard, attempt, ◌>>=◌, ◌>>◌}
use tg11_os.Block.{Sector}
use tg11_os.Fat32.{Volume, Fat32, read_sector_cached, write_sector_uncached, clear_error}
use tg11_os.Fat32.Table.{
  eoc, end_mark, cluster_to_lba, next_cluster, set_cluster_value, alloc_cluster, zero_cluster,
}
use tg11_os.Fat32.Names.{dot_char, space}
use tg11_os.Fat32.Mount.{fail_with}
use tg11_os.Fat32.Sectors.{
  attr_directory, attr_lfn, deleted, is_directory, entry_first_cluster, set_first_cluster, set_size,
  new_entry, is_some, or_error,
}
use tg11_os.Fat32.Directory.{
  find_entry_in_dir, find_free_entry_in_dir, release, undo, Place, resolve_parent_and_leaf,
}
use tg11_os.Fat32.Listing.{begin, ls_dir_cluster}

-- The attribute of a file that is created.
abbrev pub attr_archive : ℕ
attr_archive = 0x20

-- A sector of the file, filled up with zeros.
unfoldable pub data_sector : (ℕ → ℕ) → ℕ → ℕ → Sector
data_sector bytes size written i = if ltb (written + i) size then bytes (written + i) else 0

unfoldable pub later : ℕ → ℕ → ℕ
later written size = if ltb (written + 512) size then written + 512 else size

-- The name of the entry for the directory itself, and for the one above.
unfoldable pub dot_name : ℕ → Sector
dot_name dots i = if ltb i dots then dot_char else space

-- The first sector of a new directory.
unfoldable pub dot_entries : ℕ → ℕ → Sector → Sector
dot_entries cluster parent sec =
    set_first_cluster
      (new_entry (set_first_cluster (new_entry sec 0 (dot_name 1) attr_directory) 0 cluster) 32
        (dot_name 2) attr_directory)
      32 parent

-- The attribute with bits set and cleared; the kind of the entry stays.
unfoldable pub new_attr : ℕ → ℕ → ℕ → ℕ
new_attr old set_mask clear_mask =
    let changed = bit_and (bit_or old set_mask) (u8 (255 - u8 clear_mask)) in
    u8 (bit_or (bit_and changed (255 - 0x18)) (bit_and old 0x18))

module _ {S : Type 0} where
  -- The sector of an entry is read, changed and written.
  unfoldable pub edit_sector : ℕ → (Sector → Sector) → String → String → Action (Fat32 S) (Unit {0})
  edit_sector lba change read_error write_error = do
    sec ← or_error (read_sector_cached lba false) read_error
    or_error (write_sector_uncached lba (change sec)) write_error

  unfoldable pub touch_entry : ℕ → ℕ → Sector → Option Place → Action (Fat32 S) (Unit {0})
  touch_entry fuel parent name83 (some (_, _, entry)) =
      if is_directory entry then fail_with "touch: target is a directory" else modify clear_error
  touch_entry fuel parent name83 none = do
    (lba, off) ← or_error (find_free_entry_in_dir fuel parent) "touch: no free directory entry"
    edit_sector lba (λ sec. new_entry sec off name83 attr_archive)
        "touch: read directory sector failed" "touch: write directory sector failed"
    modify clear_error

  unfoldable pub touch_file_path : ℕ → List ℕ → Action (Fat32 S) (Unit {0})
  touch_file_path fuel path = do
    begin "touch: invalid arguments or unmounted"
    (parent, name83) ← or_error (resolve_parent_and_leaf fuel path) "touch: path resolution failed"
    place ← attempt (find_entry_in_dir fuel parent name83)
    touch_entry fuel parent name83 place

  -- A cleanup whose result is not looked at, before a failure with a message.
  unfoldable pub undo_with : {A : Type 0} → ℕ → String → Action (Fat32 S) A
  undo_with cluster msg = do _ ← attempt (release cluster); fail_with msg

  unfoldable pub undo_chain : {A : Type 0} → ℕ → String → Action (Fat32 S) A
  undo_chain first msg = if leb 2 first then undo_with first msg else fail_with msg

  unfoldable pub or_undo_chain : {A : Type 0} → ℕ → String → Option A → Action (Fat32 S) A
  or_undo_chain first msg (some a) = pure a
  or_undo_chain first msg none = undo_chain first msg

  -- The clusters that a file needs.
  unfoldable pub needed_clusters : Volume S → ℕ → ℕ
  needed_clusters v size =
      if size == 0
      then 0
      else u32
          (u64 (size + v.sectors_per_cluster * 512 + 2 ^ 64 - 1) / (v.sectors_per_cluster * 512))

  -- A cluster is linked behind the one before it, if there is one.
  unfoldable pub link_after : ℕ → ℕ → ℕ → Action (Fat32 S) (Unit {0})
  link_after first prev cur = if ltb prev 2 then pure tt else do
    linked ← attempt (set_cluster_value prev cur)
    or_undo_chain first "write: failed to link cluster chain" linked

  -- The first and the last cluster of the chain that is allocated.
  unfoldable pub alloc_chain : (left first prev : ℕ) → Action (Fat32 S) (ℕ × ℕ)
  alloc_chain zero first prev = pure (first, prev)
  alloc_chain (suc left) first prev = do
    got ← attempt alloc_cluster
    cur ← or_undo_chain first "write: no free cluster or FAT write error" got
    link_after (if first == 0 then cur else first) prev cur
    alloc_chain left (if first == 0 then cur else first) cur

  unfoldable pub end_chain : ℕ → ℕ → Action (Fat32 S) (Unit {0})
  end_chain first prev = if ltb prev 2 then pure tt else do
    ended ← attempt (set_cluster_value prev end_mark)
    or_undo_chain first "write: failed to terminate cluster chain" ended

  -- The sectors of a cluster from the `s`-th on; the number of bytes that are written.
  unfoldable pub write_cluster : (left s : ℕ) → ℕ → (ℕ → ℕ) → ℕ → ℕ → Action (Fat32 S) ℕ
  write_cluster zero s base bytes size written = pure written
  write_cluster (suc left) s base bytes size written = if leb size written then pure written else do
    or_error (write_sector_uncached (u32 (base + s)) (data_sector bytes size written))
        "write: sector write failed"
    write_cluster left (s + 1) base bytes size (later written size)

  -- `left` bounds the rounds: a round writes a byte at least.
  unfoldable pub write_chain : (left cur : ℕ) → (ℕ → ℕ) → ℕ → ℕ → Action (Fat32 S) (Unit {0})
  write_chain zero cur bytes size written m = stuck
  write_chain (suc left) cur bytes size written m = elim (leb 2 cur && ltb written size) [
    | false ↦ ok tt m
    | true ↦
        (do
          now ←
              write_cluster m.fs.sectors_per_cluster 0 (cluster_to_lba m.fs cur) bytes size written
          if leb size now then pure tt else do
            next ← or_error (next_cluster cur) "write: failed to advance cluster chain"
            if leb eoc next then pure tt else write_chain left next bytes size now)
          m
  ]

  -- The entry of the file, which is created if there is none. `fat32_touch_file_path` leaves a
  -- message when it fails, so the message for a missing one is not needed.
  unfoldable pub target_entry : ℕ → List ℕ → ℕ → Sector → Option Place → Action (Fat32 S) Place
  target_entry fuel path parent name83 (some place) = pure place
  target_entry fuel path parent name83 none = do
    touch_file_path fuel path
    or_error (find_entry_in_dir fuel parent name83) "write: lookup after create failed"

  -- What a file keeps of its old chain: nothing.
  unfoldable pub drop_chain : ℕ → String → Action (Fat32 S) (Unit {0})
  drop_chain first msg = if leb 2 first then or_error (release first) msg else pure tt

  unfoldable pub write_file_path : ℕ → List ℕ → (ℕ → ℕ) → ℕ → Action (Fat32 S) (Unit {0})
  write_file_path fuel path bytes size = do
    begin "write: invalid arguments or unmounted"
    (parent, name83) ← or_error (resolve_parent_and_leaf fuel path) "write: path resolution failed"
    place ← attempt (find_entry_in_dir fuel parent name83)
    (lba, off, entry) ← target_entry fuel path parent name83 place
    or_error (guard (not (is_directory entry))) "write: target is a directory"
    drop_chain (entry_first_cluster entry) "write: failed to free previous data chain"
    m ← get
    (first, last) ← alloc_chain (needed_clusters m.fs size) 0 0
    end_chain first last
    write_chain (size + 1) first bytes size 0
    edit_sector lba
        (λ sec.
          set_size (set_first_cluster (update sec (off + 11) attr_archive) off first) off size)
        "write: read directory entry sector failed" "write: update directory entry failed"
    modify clear_error

  unfoldable pub fill_directory : ℕ → ℕ → ℕ → ℕ → Sector → Action (Fat32 S) (Unit {0})
  fill_directory cluster parent lba off name83 = do
    m ← get
    or_error (zero_cluster (cluster_to_lba m.fs cluster) m.fs.sectors_per_cluster 0)
        "mkdir: zeroing directory cluster failed"
    edit_sector (cluster_to_lba m.fs cluster) (dot_entries cluster parent)
        "mkdir: read new directory cluster failed" "mkdir: write dot entries failed"
    edit_sector lba (λ sec. set_first_cluster (new_entry sec off name83 attr_directory) off cluster)
        "mkdir: read parent directory sector failed" "mkdir: write parent directory entry failed"

  -- A directory that could not be filled is freed; the message is there already.
  unfoldable pub keep_directory : ℕ → Option (Unit {0}) → Action (Fat32 S) (Unit {0})
  keep_directory cluster (some _) = pure tt
  keep_directory cluster none = undo cluster

  unfoldable pub mkdir_path : ℕ → List ℕ → Action (Fat32 S) (Unit {0})
  mkdir_path fuel path = do
    begin "mkdir: invalid arguments or unmounted"
    (parent, name83) ← or_error (resolve_parent_and_leaf fuel path) "mkdir: path resolution failed"
    place ← attempt (find_entry_in_dir fuel parent name83)
    or_error (guard (not (is_some place))) "mkdir: target already exists"
    (lba, off) ← or_error (find_free_entry_in_dir fuel parent) "mkdir: no free directory entry"
    cluster ← or_error alloc_cluster "mkdir: no free cluster or FAT write error"
    filled ← attempt (fill_directory cluster parent lba off name83)
    keep_directory cluster filled
    modify clear_error

  unfoldable pub remove_chain : ℕ → Sector → Action (Fat32 S) (Unit {0})
  remove_chain fuel entry =
      if not (is_directory entry)
      then drop_chain (entry_first_cluster entry) "remove: failed to free file chain"
      else do
        or_error (guard (leb 2 (entry_first_cluster entry))) "remove: invalid directory cluster"
        names ←
            or_error (ls_dir_cluster fuel (entry_first_cluster entry) 2)
              "remove: cannot enumerate directory"
        or_error (guard (length names == 0)) "remove: directory not empty"
        or_error (release (entry_first_cluster entry)) "remove: failed to free directory chain"

  unfoldable pub remove_path : ℕ → List ℕ → Action (Fat32 S) (Unit {0})
  remove_path fuel path = do
    begin "remove: invalid arguments or unmounted"
    (parent, name83) ← or_error (resolve_parent_and_leaf fuel path) "remove: path resolution failed"
    (lba, off, entry) ← or_error (find_entry_in_dir fuel parent name83) "remove: target not found"
    remove_chain fuel entry
    edit_sector lba (λ sec. update sec off deleted) "remove: read directory sector failed"
        "remove: write directory sector failed"
    modify clear_error

  unfoldable pub set_attr_path : ℕ → List ℕ → ℕ → ℕ → Action (Fat32 S) ℕ
  set_attr_path fuel path set_mask clear_mask = do
    begin "attr: invalid arguments or unmounted"
    (parent, name83) ← or_error (resolve_parent_and_leaf fuel path) "attr: path resolution failed"
    (lba, off, entry) ← or_error (find_entry_in_dir fuel parent name83) "attr: target not found"
    or_error (guard (not (bit_and (new_attr (entry 11) set_mask clear_mask) 0x0F == attr_lfn)))
        "attr: invalid attribute combination"
    edit_sector lba (λ sec. update sec (off + 11) (new_attr (entry 11) set_mask clear_mask))
        "attr: read directory sector failed" "attr: write directory sector failed"
    modify clear_error
    pure (new_attr (entry 11) set_mask clear_mask)
