-- ===== src/Fat32/Listing.antt =====
-- kernel/fat32.c, what reads directories and files: ls, read, stat and get_attr.
pub mod Contents
use Prim.Native.String.{String}
use tg11_os.Prelude.{
  ℕ, zero, suc, ◌+◌, ◌*◌, ◌-◌, Bool, true, false, not, ◌&&◌, ◌||◌, Option, none, some, List, [],
  ◌∷◌, ◌++◌, ltb, leb, ◌==◌, if◌then◌else◌, update, u32, min, length,
}
use tg11_os.Prelude.Actions.{ok, stuck, Action, pure, get, modify, guard, attempt, ◌>>=◌, ◌>>◌}
use tg11_os.Block.{Sector}
use tg11_os.Fat32.{Fat32, clear_error}
use tg11_os.Fat32.Bytes.{rd32}
use tg11_os.Fat32.Table.{eoc, cluster_to_lba, next_cluster}
use tg11_os.Fat32.Names.{fat83_to_name}
use tg11_os.Fat32.Sectors.{
  attr_lfn, deleted, entry_at, is_directory, entry_first_cluster, entry_name_is_dot_or_dotdot,
  read_data_sectors, sectors_per_read, or_error,
}
use tg11_os.Fat32.Directory.{
  chain_goes_on, find_entry_in_dir, resolve_dir_cluster, resolve_parent_and_leaf, is_root_path,
}

-- The names that are listed so far, and whether the listing is over.
abbrev pub Listed : Type 0
Listed = Bool × List (List ℕ)

unfoldable pub take_chars : ℕ → List ℕ → List ℕ
take_chars zero name = []
take_chars (suc n) [] = []
take_chars (suc n) (c ∷ name) = c ∷ take_chars n name

-- A name as it is listed; a directory gets a slash.
unfoldable pub listed_name : Sector → List ℕ
listed_name entry =
    let name = fat83_to_name entry 40 in
    if is_directory entry then take_chars 38 name ++ 0x2F ∷ [] else name

-- The entries from the offset on. The listing is over at the end of the directory, and when
-- `max_entries` names are there.
unfoldable pub list_entries : (left off : ℕ) → ℕ → Sector → List (List ℕ) → Listed
list_entries zero off max_entries sec names = (false, names)
list_entries (suc left) off max_entries sec names =
    let more = names ++ listed_name (entry_at sec off) ∷ [] in
    if sec off == 0
    then (true, names)
    else if sec off == deleted
        || (sec (off + 11) == attr_lfn || entry_name_is_dot_or_dotdot (entry_at sec off))
    then list_entries left (off + 32) max_entries sec names
    else if leb max_entries (length more)
    then (true, more)
    else list_entries left (off + 32) max_entries sec more

-- The sectors of a buffer from the `sec_idx`-th on.
unfoldable pub list_buffer : (left sec_idx : ℕ) → ℕ → (ℕ → ℕ) → Listed → Listed
list_buffer zero sec_idx max_entries buffer listed = listed
list_buffer (suc left) sec_idx max_entries buffer (true, names) = (true, names)
list_buffer (suc left) sec_idx max_entries buffer (false, names) =
    list_buffer left (sec_idx + 1) max_entries buffer
      (list_entries 16 0 max_entries (λ i. buffer (sec_idx * 512 + i)) names)

module _ {S : Type 0} where
  -- The sectors of a cluster from the `s`-th on, `batch` at a time; `left` bounds the rounds.
  unfoldable pub list_cluster : (left s : ℕ) → ℕ → ℕ → ℕ → ℕ → Listed → Action (Fat32 S) Listed
  list_cluster zero s count base batch max_entries listed = pure listed
  list_cluster (suc left) s count base batch max_entries (true, names) = pure (true, names)
  list_cluster (suc left) s count base batch max_entries (false, names) =
      if leb count s then pure (false, names) else do
        buffer ← read_data_sectors (u32 (base + s)) (min (count - s) batch)
        list_cluster left (s + batch) count base batch max_entries
            (list_buffer (min (count - s) batch) 0 max_entries buffer (false, names))

  unfoldable pub list_chain :
      (fuel cluster : ℕ) → ℕ → ℕ → List (List ℕ) → Action (Fat32 S) (List (List ℕ))
  list_chain zero cluster batch max_entries names m = stuck
  list_chain (suc fuel) cluster batch max_entries names m = elim (chain_goes_on cluster m) [
    | false ↦ ok names m
    | true ↦
        (do
          (over, more) ←
              list_cluster m.fs.sectors_per_cluster 0 m.fs.sectors_per_cluster
                (cluster_to_lba m.fs cluster) batch max_entries (false, names)
          if over then pure more else do
            next ← next_cluster cluster
            if leb eoc next then pure more else list_chain fuel next batch max_entries more)
          m
  ]

  unfoldable pub ls_dir_cluster : ℕ → ℕ → ℕ → Action (Fat32 S) (List (List ℕ))
  ls_dir_cluster fuel dir_cluster max_entries = do
    m ← get
    guard (m.fs.mounted && ltb 0 max_entries)
    list_chain fuel dir_cluster (sectors_per_read m) max_entries []

  unfoldable pub ls_path : ℕ → List ℕ → ℕ → Action (Fat32 S) (List (List ℕ))
  ls_path fuel path max_entries = do
    dir_cluster ← resolve_dir_cluster fuel path
    ls_dir_cluster fuel dir_cluster max_entries

-- Bytes of a buffer are taken until the file ends; those beyond the capacity are left out.
unfoldable pub take_bytes : (left i : ℕ) → (ℕ → ℕ) → ℕ → ℕ → ℕ × (ℕ → ℕ) → ℕ × (ℕ → ℕ)
take_bytes zero i buffer size capacity filled = filled
take_bytes (suc left) i buffer size capacity (written, out) =
    if ltb written size
    then take_bytes left (i + 1) buffer size capacity
        (written + 1, if ltb written capacity then update out written (buffer i) else out)
    else (written, out)

module _ {S : Type 0} where
  -- The sectors of a cluster from the `s`-th on, `batch` at a time.
  unfoldable pub read_cluster :
      (left s : ℕ) → ℕ → ℕ → ℕ → ℕ → ℕ → ℕ × (ℕ → ℕ) → Action (Fat32 S) (ℕ × (ℕ → ℕ))
  read_cluster zero s count base batch size capacity filled = pure filled
  read_cluster (suc left) s count base batch size capacity filled =
      if leb count s || leb size filled.0 then pure filled else do
        buffer ← read_data_sectors (u32 (base + s)) (min (count - s) batch)
        read_cluster left (s + batch) count base batch size capacity
            (take_bytes (min (count - s) batch * 512) 0 buffer size capacity filled)

  unfoldable pub read_chain :
      (fuel cur : ℕ) → ℕ → ℕ → ℕ → ℕ × (ℕ → ℕ) → Action (Fat32 S) (ℕ × (ℕ → ℕ))
  read_chain zero cur batch size capacity filled m = stuck
  read_chain (suc fuel) cur batch size capacity filled m =
      elim (leb 2 cur && (ltb cur eoc && ltb filled.0 size)) [
        | false ↦ ok filled m
        | true ↦
            (do
              more ←
                  read_cluster m.fs.sectors_per_cluster 0 m.fs.sectors_per_cluster
                    (cluster_to_lba m.fs cur) batch size capacity filled
              if leb size more.0 then pure more else do
                next ← next_cluster cur
                if leb eoc next then pure more else read_chain fuel next batch size capacity more)
              m
      ]

  -- The size that is reported, and the buffer.
  unfoldable pub read_file_entry : ℕ → Sector → ℕ → (ℕ → ℕ) → Action (Fat32 S) (ℕ × (ℕ → ℕ))
  read_file_entry fuel entry capacity out = do
    guard (not (is_directory entry))
    m ← get
    if ltb (entry_first_cluster entry) 2 then pure (0, out) else do
      filled ←
          read_chain fuel (entry_first_cluster entry) (sectors_per_read m) (rd32 entry 28) capacity
            (0, out)
      pure (min (rd32 entry 28) capacity, filled.1)

  -- The checks at the start of an operation on a path.
  unfoldable pub begin : String → Action (Fat32 S) (Unit {0})
  begin msg = do modify clear_error; m ← get; or_error (guard m.fs.mounted) msg

  unfoldable pub read_file_path : ℕ → List ℕ → ℕ → (ℕ → ℕ) → Action (Fat32 S) (ℕ × (ℕ → ℕ))
  read_file_path fuel path capacity out = do
    begin "read: invalid arguments or unmounted"
    (parent, name83) ← or_error (resolve_parent_and_leaf fuel path) "read: path resolution failed"
    (_, _, entry) ← or_error (find_entry_in_dir fuel parent name83) "read: file not found"
    filled ← or_error (read_file_entry fuel entry capacity out) "read: file data read failed"
    modify clear_error
    pure filled

  -- Whether it is a directory, and its size.
  unfoldable pub stat_entry : ℕ → List ℕ → Option ℕ → Action (Fat32 S) (Bool × ℕ)
  stat_entry fuel path (some dir_cluster) = pure (true, 0)
  stat_entry fuel path none = do
    (parent, name83) ← resolve_parent_and_leaf fuel path
    (_, _, entry) ← find_entry_in_dir fuel parent name83
    pure (is_directory entry, if is_directory entry then 0 else rd32 entry 28)

  unfoldable pub stat_path : ℕ → List ℕ → Action (Fat32 S) (Bool × ℕ)
  stat_path fuel path = do
    m ← get
    guard m.fs.mounted
    if is_root_path path
        then pure (true, 0)
        else do dir ← attempt (resolve_dir_cluster fuel path); stat_entry fuel path dir

  unfoldable pub get_attr_path : ℕ → List ℕ → Action (Fat32 S) ℕ
  get_attr_path fuel path = do
    begin "attr: invalid arguments or unmounted"
    (parent, name83) ← or_error (resolve_parent_and_leaf fuel path) "attr: path resolution failed"
    (_, _, entry) ← or_error (find_entry_in_dir fuel parent name83) "attr: target not found"
    modify clear_error
    pure (entry 11)
