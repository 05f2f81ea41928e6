-- ===== src/Fat32/Tests/Reading.antt =====
-- kernel/fat32.c: searches and reads on small volumes in memory, and the theorems at them.
use mathlib.Core.Path.{subst}
use tg11_os.Prelude.{
  ℕ, ◌+◌, ◌≤◌, ◌<◌, Bool, true, false, ◌==◌, if◌then◌else◌, ◌≡◌, refl, arith, ltb, leb, inl, inr,
  ap, ap₂, ◌∙◌, ◌/◌, ◌%◌, ◌*◌,
}
use tg11_os.Prelude.Actions.{Returns}
use tg11_os.Block.{Sector, IsLawful}
use tg11_os.Block.Ram.{sectors, ram_drive-IsLawful, some_inj}
use tg11_os.Fat32.{Fat32, cache_of}
use tg11_os.Fat32.Bytes.{rd16, rd32}
use tg11_os.Fat32.Cached.{IsReady, IsSame}
use tg11_os.Fat32.Table.{cluster_is_valid, cluster_to_lba, eoc}
use tg11_os.Fat32.Table.Entries.{table, cluster_is_valid_le}
use tg11_os.Fat32.Table.{fat_sector, ent_off, entry_value}
use tg11_os.Fat32.Sectors.{
  entry_at, is_directory, entry_first_cluster, set_first_cluster, read_data_sectors,
}
use tg11_os.Fat32.Directory.{find_entry_in_dir, resolve_dir_cluster}
use tg11_os.Fat32.Listing.{read_file_entry}
use tg11_os.Fat32.Directory.Search.{Stays, Ends, IsFound, find_entry_in_dir_lem}
use tg11_os.Fat32.Directory.Walk.{resolve_dir_cluster_lem}
use tg11_os.Fat32.Sectors.Reads.{Holds, read_data_sectors_lem}
use tg11_os.Fat32.Sectors.Fields.{entry_first_cluster-set_first_cluster}
use tg11_os.Fat32.Listing.Contents.{IsFile, IsContent, read_file_entry_lem}
use tg11_os.Fat32.Tests.{volume, machine, disk, name, volume-IsFormatted, machine-IsReady}

-- The machine with another disk.
abbrev on : (ℕ → Sector) → Fat32 (ℕ → Sector)
on d = record machine { disk = d }

no_slot_on : (d : ℕ → Sector) (b : Bool) (i : ℕ) → (cache_of b (on d) i).valid ≡ false
unfolding cache_of
no_slot_on d true i = refl
no_slot_on d false i = refl

on-IsReady : (d : ℕ → Sector) → IsReady sectors (on d)
on-IsReady d = record {
  lawful = λ dev e. subst (IsLawful sectors) (some_inj e) (ram_drive-IsLawful 20);
  coherent = λ b i h v. absurd (cc (no_slot_on d b i, v));
}

-- The volume with one entry in its root directory, whose name is eleven times the letter A.
abbrev letters : Sector
letters i = 0x41

abbrev named_disk : ℕ → Sector
named_disk lba i = if lba == 3 then (if ltb i 11 then 0x41 else 0) else disk lba i

abbrev named_machine : Fat32 (ℕ → Sector)
named_machine = on named_disk

named_machine-Stays : Stays volume sectors named_disk named_machine
named_machine-Stays = record { fs = refl; image_is = refl; ready = on-IsReady named_disk }

root-Ends : Ends (table volume named_disk) 2 1
unfolding rd32 fat_sector ent_off entry_value
root-Ends = inl refl

find_entry_in_dir_lem_example :
    Returns
      (λ place m'. IsFound named_disk letters place × Stays volume sectors named_disk m')
      (Stays volume sectors named_disk)
      (find_entry_in_dir 1 2 letters named_machine)
find_entry_in_dir_lem_example =
    find_entry_in_dir_lem volume sectors named_disk letters 1 2 named_machine root-Ends
      named_machine-Stays

read_data_sectors_lem_example :
    Returns
      (λ buffer m'. Holds disk 1 3 buffer × IsSame sectors machine m')
      (IsSame sectors machine)
      (read_data_sectors 1 3 machine)
read_data_sectors_lem_example =
    read_data_sectors_lem sectors 1 3 machine (omega arith) machine-IsReady

entry_first_cluster-set_first_cluster_example :
    entry_first_cluster (entry_at (set_first_cluster letters 64 0x01234567) 64) ≡ 0x01234567
entry_first_cluster-set_first_cluster_example =
    entry_first_cluster-set_first_cluster letters 64 0x01234567 (omega arith)

-- A volume whose clusters are all the last of their chain.
abbrev ended_disk : ℕ → Sector
ended_disk lba i = if lba == 1 then 0xFF else named_disk lba i

abbrev ended_machine : Fat32 (ℕ → Sector)
ended_machine = on ended_disk

ended_machine-Stays : Stays volume sectors ended_disk ended_machine
ended_machine-Stays = record { fs = refl; image_is = refl; ready = on-IsReady ended_disk }

ended_value : (c : ℕ) → c ≤ 18 → table volume ended_disk c ≡ 0x0FFFFFFF
unfolding entry_value fat_sector rd32
ended_value c h =
    let first : fat_sector volume 0 c ≡ 1 = omega arith in
    ap (λ (lba : ℕ). entry_value volume c (ended_disk lba)) first

all-Ends : (c : ℕ) → cluster_is_valid volume c ≡ true → Ends (table volume ended_disk) c 1
all-Ends c h = inl (ap (λ (t : ℕ). leb eoc t) (ended_value c (cluster_is_valid_le volume c h).1))

resolve_dir_cluster_lem_example :
    Returns
      (λ c m'. (2 ≤ c) × Stays volume sectors ended_disk m')
      (Stays volume sectors ended_disk)
      (resolve_dir_cluster 1 name ended_machine)
resolve_dir_cluster_lem_example =
    resolve_dir_cluster_lem volume sectors ended_disk 0 all-Ends name ended_machine (omega arith)
      ended_machine-Stays

-- A file of twenty bytes, in the sector of the root directory.
abbrev file_entry : Sector
file_entry i = if i == 26 then 2 else if i == 28 then 20 else 0

abbrev file_bytes : ℕ → ℕ
file_bytes k = if ltb k 11 then 0x41 else 0

file_entry-IsFile : IsFile volume ended_disk file_bytes 1 file_entry
unfolding is_directory entry_first_cluster rd16 rd32 cluster_is_valid cluster_to_lba
file_entry-IsFile = record {
  file = refl;
  holds = inr (refl, (λ k hk hs. first_sector k hk), inl (omega arith));
}
  where
    first_sector : (k : ℕ) → k < 1 * 512 → ended_disk (3 + k / 512) (k % 512) ≡ file_bytes (0 + k)
    first_sector k hk =
        let sector : 3 + k / 512 ≡ 3 = omega arith in
        let place : k % 512 ≡ k = omega arith in
        let here_at : k ≡ 0 + k = omega arith in
        ap₂ (λ (a b : ℕ). ended_disk a b) sector place ∙ ap file_bytes here_at

read_file_entry_lem_example :
    Returns
      (λ filled m'. IsContent file_bytes (λ _. 9) 20 16 filled × Stays volume sectors ended_disk m')
      (Stays volume sectors ended_disk)
      (read_file_entry 1 file_entry 16 (λ _. 9) ended_machine)
unfolding rd32
read_file_entry_lem_example =
    read_file_entry_lem volume sectors ended_disk file_bytes (λ _. 9) 1 file_entry 16 ended_machine
      volume-IsFormatted (omega arith) file_entry-IsFile ended_machine-Stays
