-- ===== src/Fat32/Tests.antt =====
-- kernel/fat32.c: runs on a small volume in memory, and the theorems at that volume.
mod Reading
use mathlib.Core.Path.{subst}
use tg11_os.Prelude.{
  ℕ, ◌+◌, ◌≤◌, ◌<◌, Bool, true, false, some, ◌==◌, if◌then◌else◌, ◌≡◌, refl, List, [], ◌∷◌, arith,
  u32, ltb, leb, inl, inr, ap, ap₂, ◌∙◌, ◌/◌, ◌%◌, ◌*◌,
}
use tg11_os.Prelude.Actions.{ok, failed, stuck, Outcome, Returns, guard, ◌>>◌}
use tg11_os.Block.{Sector, IsLawful}
use tg11_os.Block.Ram.{ram_drive, sectors, ram_drive-IsLawful, some_inj}
use tg11_os.Fat32.{
  Volume, Fat32, CacheEntry, read_sector_cached, write_sector_uncached, cache_of, flush_cache,
  clear_error,
}
use tg11_os.Fat32.Bytes.{rd16, rd32}
use tg11_os.Fat32.Cached.{
  IsReady, IsSame, IsWritten, read_sector_cached_lem, write_sector_uncached_lem,
}
use tg11_os.Fat32.Table.{
  next_cluster, set_cluster_value, free_chain, alloc_cluster, get_free_bytes, cluster_is_valid,
  cluster_to_lba, blank_sector, eoc,
}
use tg11_os.Fat32.Table.Copies.{IsFormatted}
use tg11_os.Fat32.Table.Entries.{table, cluster_is_valid_le, next_cluster-set_cluster_value}
use tg11_os.Fat32.Table.Freeing.{free_chain_lem, IsChainFreed}
use tg11_os.Fat32.Table.Claiming.{IsClaimed, alloc_cluster_lem}
use tg11_os.Fat32.Table.Space.{measured, get_free_bytes-alloc_cluster}
use tg11_os.Fat32.Mount.{
  mount, unmark, usable, boot_sector, read_raw, answered, boot_is_fat32, is_signed, is_named,
  set_bpb, derive_fields, ensure, data_start_rel, set_clusters, set_last, set_areas, unmount,
}
use tg11_os.Fat32.Mount.Geometry.{IsMounted, IsRefused, mount_lem}
use tg11_os.Fat32.Mount.Layout.{IsTrue, cluster_to_lba_inside, cluster_to_lba_apart}
use tg11_os.Fat32.{
  cache_clear, cache_victim, cache_find, cache_enabled, put_slot, cache_store, cache_lookup,
  cache_hit, fetched, driver, write_answered, set_error,
}
use tg11_os.Fat32.Bytes.{put_entry}
use tg11_os.Fat32.Table.{
  fat_sector, ent_off, off_fits, value_is_sane, entry_value, next_in, set_copy, set_copies,
  set_value_in, lower_hint, zero_cluster, raise_hint, claim, alloc_from, alloc_start, try_again,
  count_free_clusters,
}
use tg11_os.Fat32.Names.{
  upcase, is_slash, name_loop, name_to_83, trimmed, copy_chars, with_ext, fat83_to_name,
  skip_separators, copy_part, path_next_part, is_dot, is_dotdot,
}
use tg11_os.Fat32.Sectors.{
  entry_at, is_directory, entry_first_cluster, set_first_cluster, set_size, new_entry,
  entry_name_is_dot_or_dotdot, read_each, many_answered, many_driver, read_data_sectors,
  sectors_per_read, set_io_batch_sectors,
}
use tg11_os.Fat32.Directory.{
  name_matches, scan_find, scan_free, parent_from, is_root_path, scan_result, find_in_cluster,
  chain_goes_on, find_entry_in_dir, free_in_cluster, release, undo, new_slot, extend_dir,
  find_free_entry_in_dir, get_parent_cluster, follow_part, resolve_loop, resolve_dir_cluster,
  leaf_loop, resolve_parent_and_leaf,
}
use tg11_os.Fat32.Listing.{
  take_chars, listed_name, list_entries, list_buffer, list_cluster, list_chain, ls_dir_cluster,
  ls_path, take_bytes, read_cluster, read_chain, read_file_entry, begin, read_file_path, stat_entry,
  stat_path, get_attr_path,
}
use tg11_os.Fat32.Files.{
  data_sector, later, dot_name, dot_entries, new_attr, edit_sector, touch_entry, touch_file_path,
  undo_with, undo_chain, or_undo_chain, needed_clusters, link_after, alloc_chain, end_chain,
  write_cluster, write_chain, target_entry, drop_chain, write_file_path, fill_directory,
  keep_directory, mkdir_path, remove_chain, remove_path, set_attr_path,
}
use tg11_os.Fat32.Mount.{fail_with, partition_boot}
use tg11_os.Fat32.Directory.Search.{Stays, Ends, IsFound, find_entry_in_dir_lem}
use tg11_os.Fat32.Directory.Walk.{resolve_dir_cluster_lem}
use tg11_os.Fat32.Sectors.Reads.{Holds, read_data_sectors_lem}
use tg11_os.Fat32.Sectors.Fields.{entry_first_cluster-set_first_cluster}
use tg11_os.Fat32.Listing.Contents.{IsFile, IsContent, read_file_entry_lem}
use tg11_os.Fat32.Safety.{Leaves, IsGuarded}
use tg11_os.Fat32.Safety.Runs.{write_file, mkdir, remove, run_all, run_all_lem}

abbrev volume : Volume (ℕ → Sector)
volume = record {
  mounted = true;
  dev = some (ram_drive 20);
  start_lba = 0;
  bytes_per_sector = 512;
  sectors_per_cluster = 1;
  reserved_sectors = 1;
  fat_count = 2;
  sectors_per_fat = 1;
  root_cluster = 2;
  fat_start_lba = 1;
  data_start_lba = 3;
  total_sectors = 20;
  data_clusters = 17;
  max_data_cluster = 18;
}

abbrev empty_slot : CacheEntry
empty_slot = record { valid = false; lba = 0; age = 0; bytes = λ _. 0 }

-- The root directory in cluster 2, and a chain from 3 over 4 back to 3.
abbrev disk : ℕ → Sector
disk lba i =
    if (lba == 1)
    then (if i == 8
        then 0xFF
        else if i == 9
        then 0xFF
        else if i == 10
        then 0xFF
        else if i == 11
        then 0x0F
        else if i == 12
        then 4
        else if i == 16
        then 3
        else 0)
    else 0

abbrev machine : Fat32 (ℕ → Sector)
machine = record {
  fs = volume;
  alloc_hint_cluster = 2;
  last_error = "";
  io_batch_sectors = 4;
  data_cache_enabled = true;
  fat_cache_enabled = true;
  cache_age_counter = 1;
  data_cache = λ _. empty_slot;
  fat_cache = λ _. empty_slot;
  disk = disk;
}

volume-IsFormatted : IsFormatted volume
volume-IsFormatted = record {
  sector_size = refl;
  has_copy = omega arith;
  has_sectors = omega arith;
  last = refl;
  covers = omega arith;
  data_follows = refl;
  addresses = omega arith;
  numbers = omega arith;
}

no_slot : (b : Bool) (i : ℕ) → (cache_of b machine i).valid ≡ false
unfolding cache_of
no_slot true i = refl
no_slot false i = refl

machine-IsReady : IsReady sectors machine
machine-IsReady = record {
  lawful = λ d e. subst (IsLawful sectors) (some_inj e) (ram_drive-IsLawful 20);
  coherent = λ b i h v. absurd (ground (arith, no_slot b i));
}

-- The boot sector that such a volume has.
abbrev boot : Sector
boot i =
    if i == 510
    then 0x55
    else if i == 511
    then 0xAA
    else if i == 82
    then 0x46
    else if i == 83
    then 0x41
    else if i == 84
    then 0x54
    else if i == 85
    then 0x33
    else if i == 86
    then 0x32
    else if i == 12
    then 2
    else if i == 13
    then 1
    else if i == 14
    then 1
    else if i == 16
    then 2
    else if i == 32
    then 20
    else if i == 36
    then 1
    else if i == 44
    then 2
    else 0

abbrev unmounted : Fat32 (ℕ → Sector)
unmounted = unmount (record machine { disk = λ lba. if lba == 0 then boot else disk lba })

abbrev is_ok : {S A : Type 0} → Outcome S A → Bool
is_ok (ok a s) = true
is_ok (failed s) = false
is_ok stuck = false

mount_run : is_ok (mount (some (ram_drive 20)) unmounted) ≡ true
unfolding mount unmark usable boot_sector read_raw answered boot_is_fat32 is_signed is_named rd16
    rd32 set_bpb derive_fields ensure data_start_rel set_clusters set_last set_areas clear_error
    flush_cache cluster_is_valid unmount
mount_run = refl

mount_lem_example :
    Returns
      (λ _ m'.
        IsMounted m'.fs
        × (m'.last_error ≡ "")
        × (m'.fs.dev ≡ some (ram_drive 20))
        × IsReady sectors m')
      IsRefused
      (mount (some (ram_drive 20)) unmounted)
mount_lem_example =
    mount_lem sectors (some (ram_drive 20)) unmounted
      (λ d e. subst (IsLawful sectors) (some_inj e) (ram_drive-IsLawful 20))

volume-IsMounted : IsMounted volume
unfolding cluster_is_valid data_start_rel
volume-IsMounted = record {
  mounted = refl;
  sector_size = refl;
  has_sectors = omega arith;
  has_copy = omega arith;
  has_table = omega arith;
  root = refl;
  last = refl;
  inside = omega arith;
  fat_start = refl;
  data_start = refl;
}

volume-IsTrue : IsTrue volume
volume-IsTrue = record {
  small = omega arith;
  addresses = omega arith;
  covers = omega arith;
  numbers = omega arith;
}

eighteen_is_valid : cluster_is_valid volume 18 ≡ true
unfolding cluster_is_valid
eighteen_is_valid = refl

cluster_to_lba_inside_example :
    (1 + 2 ≤ u32 (cluster_to_lba volume 18 + 0)) × (u32 (cluster_to_lba volume 18 + 0) < 20)
cluster_to_lba_inside_example =
    cluster_to_lba_inside volume volume-IsMounted volume-IsTrue 18 0 eighteen_is_valid (omega arith)

cluster_to_lba_apart_example : (◌≡◌ {A = ℕ} 18 18) × (◌≡◌ {A = ℕ} 0 0)
cluster_to_lba_apart_example =
    cluster_to_lba_apart volume volume-IsMounted volume-IsTrue 18 18 0 0 eighteen_is_valid
      eighteen_is_valid (omega arith) (omega arith) refl

read_sector_cached_lem_example :
    Returns
      (λ sec m'. (sec ≡ disk 1) × IsSame sectors machine m')
      (IsSame sectors machine)
      (read_sector_cached 1 true machine)
read_sector_cached_lem_example = read_sector_cached_lem sectors 1 true machine machine-IsReady

write_sector_uncached_lem_example :
    Returns
      (λ _ m'. IsWritten sectors machine 5 blank_sector m')
      (λ m'. m'.fs ≡ volume)
      (write_sector_uncached 5 blank_sector machine)
write_sector_uncached_lem_example =
    write_sector_uncached_lem sectors 5 blank_sector machine machine-IsReady

next_cluster-set_cluster_value_example :
    Returns
      (λ next m'. (next ≡ 6) × IsReady sectors m')
      (λ m'. m'.fs ≡ volume)
      ((set_cluster_value 5 6 >> next_cluster 5) machine)
next_cluster-set_cluster_value_example =
    next_cluster-set_cluster_value volume sectors 5 6 5 machine volume-IsFormatted refl
      machine-IsReady

free_chain_lem_example :
    Returns
      (λ _ m'. IsChainFreed volume sectors 3 machine m')
      (λ m'. m'.fs ≡ volume)
      (free_chain 21 3 machine)
free_chain_lem_example =
    free_chain_lem volume sectors volume-IsFormatted 3 machine refl machine-IsReady

alloc_cluster_lem_example :
    Returns
      (λ c m'. (table volume disk c ≡ 0) × IsClaimed volume sectors c disk m')
      (λ m'. m'.fs ≡ volume)
      (alloc_cluster machine)
alloc_cluster_lem_example =
    alloc_cluster_lem volume sectors volume-IsFormatted machine refl machine-IsReady

get_free_bytes-alloc_cluster_example :
    Returns
      (λ (before, after) m'. (before ≡ after + 512) × IsReady sectors m')
      (λ m'. m'.fs ≡ volume)
      (measured machine)
get_free_bytes-alloc_cluster_example =
    get_free_bytes-alloc_cluster volume sectors volume-IsFormatted machine refl machine-IsReady

-- A file of three bytes is written to the root directory and read back.
abbrev name : List ℕ
name = 0x2F ∷ 0x61 ∷ 0x2E ∷ 0x74 ∷ 0x78 ∷ 0x74 ∷ []

abbrev written_then_read : Outcome (Fat32 (ℕ → Sector)) (ℕ × (ℕ → ℕ)) → List ℕ
written_then_read (ok (size, out) m) = size ∷ out 0 ∷ out 1 ∷ out 2 ∷ []
written_then_read (failed m) = 99 ∷ []
written_then_read stuck = 98 ∷ []

write_read_run :
    written_then_read
      ((write_file_path 20 name (λ i. i + 7) 3 >> read_file_path 20 name 512 (λ _. 0)) machine)
    ≡ 3 ∷ 7 ∷ 8 ∷ 9 ∷ []
unfolding cache_clear cache_victim cache_find flush_cache cache_of cache_enabled put_slot
    cache_store cache_lookup cache_hit fetched driver read_sector_cached write_answered
    write_sector_uncached set_error clear_error rd16 rd32 put_entry cluster_to_lba cluster_is_valid
    fat_sector ent_off off_fits value_is_sane entry_value next_in next_cluster set_copy set_copies
    set_value_in set_cluster_value lower_hint free_chain zero_cluster raise_hint claim alloc_from
    alloc_start try_again alloc_cluster count_free_clusters get_free_bytes upcase is_slash name_loop
    name_to_83 trimmed copy_chars with_ext fat83_to_name skip_separators copy_part path_next_part
    is_dot is_dotdot is_directory entry_first_cluster set_first_cluster set_size new_entry
    entry_name_is_dot_or_dotdot read_each many_answered many_driver read_data_sectors
    sectors_per_read set_io_batch_sectors name_matches scan_find scan_free parent_from is_root_path
    scan_result find_in_cluster chain_goes_on find_entry_in_dir free_in_cluster release undo
    new_slot extend_dir find_free_entry_in_dir get_parent_cluster follow_part resolve_loop
    resolve_dir_cluster leaf_loop resolve_parent_and_leaf take_chars listed_name list_entries
    list_buffer list_cluster list_chain ls_dir_cluster ls_path take_bytes read_cluster read_chain
    read_file_entry begin read_file_path stat_entry stat_path get_attr_path data_sector later
    dot_name dot_entries new_attr edit_sector touch_entry touch_file_path undo_with undo_chain
    or_undo_chain needed_clusters link_after alloc_chain end_chain write_cluster write_chain
    target_entry drop_chain write_file_path fill_directory keep_directory mkdir_path remove_chain
    remove_path set_attr_path is_signed is_named boot_is_fat32 fail_with ensure usable answered
    read_raw partition_boot boot_sector set_bpb data_start_rel set_clusters set_last set_areas
    derive_fields unmark mount unmount guard
write_read_run = refl

run_all_lem_example :
    Leaves
      (λ _. Unit)
      (IsGuarded volume sectors disk)
      (run_all 20 (write_file name (λ i. i + 7) 3 ∷ mkdir name ∷ remove name ∷ []) machine)
run_all_lem_example =
    run_all_lem sectors 20 (write_file name (λ i. i + 7) 3 ∷ mkdir name ∷ remove name ∷ []) machine
      volume-IsFormatted (λ d e. subst (IsLawful sectors) (some_inj e) (ram_drive-IsLawful 20))
