-- ===== src/Fat32/Directory.antt =====
-- kernel/fat32.c, directories: the search for an entry and for a free one, and the walk along a
-- path. The loops along a chain have fuel, since a chain that runs in circles has no end.
pub mod Search
pub mod Walk
use tg11_os.Prelude.{
  ℕ, zero, suc, ◌+◌, Bool, true, false, not, ◌&&◌, ◌||◌, Option, none, some, List, [], ◌∷◌, ltb,
  leb, ◌==◌, if◌then◌else◌, u32, length,
}
use tg11_os.Prelude.Actions.{
  ok, failed, stuck, Action, pure, fail, get, guard, attempt, from_option, unless_some, ◌>>=◌, ◌>>◌,
}
use tg11_os.Block.{Sector}
use tg11_os.Fat32.{Fat32, read_sector_cached}
use tg11_os.Fat32.Table.{
  eoc, cluster_to_lba, cluster_is_valid, next_cluster, set_cluster_value, alloc_cluster, free_chain,
}
use tg11_os.Fat32.Names.{name_to_83, path_next_part, is_dot, is_dotdot, is_empty, dot_char, space}
use tg11_os.Fat32.Sectors.{attr_lfn, deleted, entry_at, is_directory, entry_first_cluster}

-- Whether eleven bytes of an entry are a name.
unfoldable pub name_matches : (left i : ℕ) → Sector → Sector → Bool
name_matches zero i entry name83 = true
name_matches (suc left) i entry name83 =
    if entry i == name83 i then name_matches left (i + 1) entry name83 else false

-- How the search in a sector ends: at the end of the directory, with an entry, or without one.
pub data Scan : Type 0 where
  at_end : Scan
  found : ℕ → Scan
  nothing : Scan

-- The entries of a sector from an offset on.
unfoldable pub scan_find : (left off : ℕ) → Sector → Sector → Scan
scan_find zero off name83 sec = nothing
scan_find (suc left) off name83 sec =
    if sec off == 0
    then at_end
    else if sec off == deleted || sec (off + 11) == attr_lfn
    then scan_find left (off + 32) name83 sec
    else if name_matches 11 0 (entry_at sec off) name83
    then found off
    else scan_find left (off + 32) name83 sec

unfoldable pub scan_free : (left off : ℕ) → Sector → Option ℕ
scan_free zero off sec = none
scan_free (suc left) off sec =
    if sec off == 0 || sec off == deleted then some off else scan_free left (off + 32) sec

-- Where an entry is: its sector, the offset in it, and its bytes.
abbrev pub Place : Type 0
Place = ℕ × ℕ × Sector

abbrev pub dotdot_name : Sector
dotdot_name i = if ltb i 2 then dot_char else space

unfoldable pub parent_from : ℕ → Option Place → ℕ
parent_from root none = root
parent_from root (some (lba, off, entry)) =
    if ltb (entry_first_cluster entry) 2 then root else entry_first_cluster entry

unfoldable pub is_root_path : List ℕ → Bool
is_root_path [] = true
is_root_path (c ∷ []) = c == 0x2F
is_root_path (c ∷ d ∷ path) = false

module _ {S : Type 0} where
  unfoldable pub scan_result : ℕ → Sector → Scan → Action (Fat32 S) (Option Place)
  scan_result lba sec at_end = fail
  scan_result lba sec (found off) = pure (some (lba, off, entry_at sec off))
  scan_result lba sec nothing = pure none

  -- The sectors of a cluster from the `s`-th on.
  unfoldable pub find_in_cluster : (left s : ℕ) → ℕ → Sector → Action (Fat32 S) (Option Place)
  find_in_cluster zero s base name83 = pure none
  find_in_cluster (suc left) s base name83 = do
    sec ← read_sector_cached (u32 (base + s)) false
    place ← scan_result (u32 (base + s)) sec (scan_find 16 0 name83 sec)
    unless_some place some (find_in_cluster left (s + 1) base name83)

  -- Whether the loop along a chain goes on.
  unfoldable pub chain_goes_on : ℕ → Fat32 S → Bool
  chain_goes_on cluster m = cluster_is_valid m.fs cluster && ltb cluster eoc

  unfoldable pub find_entry_in_dir : (fuel cluster : ℕ) → Sector → Action (Fat32 S) Place
  find_entry_in_dir zero cluster name83 m = stuck
  find_entry_in_dir (suc fuel) cluster name83 m = elim (chain_goes_on cluster m) [
    | false ↦ failed m
    | true ↦
        (do
          place ← find_in_cluster m.fs.sectors_per_cluster 0 (cluster_to_lba m.fs cluster) name83
          unless_some place (λ p. p)
              (do
                next ← next_cluster cluster
                if leb eoc next then fail else find_entry_in_dir fuel next name83))
          m
  ]

  unfoldable pub free_in_cluster : (left s : ℕ) → ℕ → Action (Fat32 S) (Option (ℕ × ℕ))
  free_in_cluster zero s base = pure none
  free_in_cluster (suc left) s base = do
    sec ← read_sector_cached (u32 (base + s)) false
    unless_some (scan_free 16 0 sec) (λ off. some (u32 (base + s), off))
        (free_in_cluster left (s + 1) base)

  -- `fat32_free_chain` with the rounds that it needs.
  unfoldable pub release : ℕ → Action (Fat32 S) (Unit {0})
  release cluster m = free_chain (m.fs.max_data_cluster + 3) cluster m

  -- A cleanup whose result is not looked at, before a failure.
  unfoldable pub undo : {A : Type 0} → ℕ → Action (Fat32 S) A
  undo cluster = do _ ← attempt (release cluster); fail

  -- The first entry of a new cluster, if it could be linked.
  unfoldable pub new_slot : ℕ → Option (Unit {0}) → Action (Fat32 S) (ℕ × ℕ)
  new_slot new_cluster none m = undo new_cluster m
  new_slot new_cluster (some _) m = ok (cluster_to_lba m.fs new_cluster, 0) m

  -- A full directory gets one cluster more.
  unfoldable pub extend_dir : ℕ → Action (Fat32 S) (ℕ × ℕ)
  extend_dir cluster = do
    new_cluster ← alloc_cluster
    linked ← attempt (set_cluster_value cluster new_cluster)
    new_slot new_cluster linked

  unfoldable pub find_free_entry_in_dir : (fuel cluster : ℕ) → Action (Fat32 S) (ℕ × ℕ)
  find_free_entry_in_dir zero cluster m = stuck
  find_free_entry_in_dir (suc fuel) cluster m = elim (chain_goes_on cluster m) [
    | false ↦ failed m
    | true ↦
        (do
          place ← free_in_cluster m.fs.sectors_per_cluster 0 (cluster_to_lba m.fs cluster)
          unless_some place (λ p. p)
              (do
                next ← next_cluster cluster
                if leb eoc next
                    then extend_dir cluster
                    else do guard (cluster_is_valid m.fs next); find_free_entry_in_dir fuel next))
          m
  ]

  unfoldable pub get_parent_cluster : (fuel dir_cluster : ℕ) → Action (Fat32 S) ℕ
  get_parent_cluster fuel dir_cluster = do
    m ← get
    if dir_cluster == m.fs.root_cluster then pure m.fs.root_cluster else do
      place ← attempt (find_entry_in_dir fuel dir_cluster dotdot_name)
      pure (parent_from m.fs.root_cluster place)

  -- One part of a path is followed.
  unfoldable pub follow_part : ℕ → List ℕ → ℕ → Action (Fat32 S) ℕ
  follow_part fuel part cur =
      if is_dot part then pure cur else if is_dotdot part then get_parent_cluster fuel cur else do
        name83 ← from_option (name_to_83 part)
        (_, _, entry) ← find_entry_in_dir fuel cur name83
        guard (is_directory entry)
        guard (not (ltb (entry_first_cluster entry) 2))
        pure (entry_first_cluster entry)

  unfoldable pub resolve_loop : (left fuel : ℕ) → List ℕ → ℕ → Action (Fat32 S) ℕ
  resolve_loop zero fuel p cur = λ _. stuck
  resolve_loop (suc left) fuel p cur = do
    (part, np) ← from_option (path_next_part p 16)
    if is_empty part
        then pure cur
        else do next ← follow_part fuel part cur; resolve_loop left fuel np next

  unfoldable pub resolve_dir_cluster : ℕ → List ℕ → Action (Fat32 S) ℕ
  resolve_dir_cluster fuel path = do
    m ← get
    guard m.fs.mounted
    if is_root_path path
        then pure m.fs.root_cluster
        else resolve_loop (length path + 1) fuel path m.fs.root_cluster

  -- The directory and the last part of a path, which is empty if there is none.
  unfoldable pub leaf_loop : (left fuel : ℕ) → List ℕ → ℕ → Action (Fat32 S) (ℕ × List ℕ)
  leaf_loop zero fuel p cur = λ _. stuck
  leaf_loop (suc left) fuel p cur = do
    (part, np) ← from_option (path_next_part p 16)
    if is_empty part then pure (cur, []) else do
      (check, _) ← from_option (path_next_part np 16)
      if is_empty check
          then pure (cur, part)
          else do next ← follow_part fuel part cur; leaf_loop left fuel np next

  unfoldable pub resolve_parent_and_leaf : ℕ → List ℕ → Action (Fat32 S) (ℕ × Sector)
  resolve_parent_and_leaf fuel path = do
    m ← get
    guard m.fs.mounted
    (cur, last) ← leaf_loop (length path + 1) fuel path m.fs.root_cluster
    guard (not (is_empty last))
    guard (not (is_dot last || is_dotdot last))
    name83 ← from_option (name_to_83 last)
    pure (cur, name83)
