-- ===== src/Fat32/Safety/Runs.antt =====
-- kernel/fat32.c, any sequence of operations on a mounted volume, which may fail.
use tg11_os.Prelude.{ℕ, zero, suc, ◌-◌, ◌+◌, some, List, [], ◌∷◌, ◌≡◌, refl}
use tg11_os.Prelude.Actions.{Action, pure, attempt, caught, guard, ◌>>=◌, ◌>>◌}
use tg11_os.Block.{Sector, BlockDevice, IsLawful}
use tg11_os.Fat32.{Volume, Fat32}
use tg11_os.Fat32.Cached.{image}
use tg11_os.Fat32.Table.{next_cluster, count_free_clusters, get_free_bytes}
use tg11_os.Fat32.Table.Copies.{IsFormatted}
use tg11_os.Fat32.Listing.{ls_path, read_file_path, stat_path, get_attr_path}
use tg11_os.Fat32.Files.{touch_file_path, write_file_path, mkdir_path, remove_path, set_attr_path}
use tg11_os.Fat32.Safety.{Leaves, Leaves-then_run, Leaves-caught, Leaves-guard, IsGuarded}
use tg11_os.Fat32.Safety.Tables.{next_cluster-Guarded}
use tg11_os.Fat32.Safety.Reading.{ls_guarded, read_file_guarded, stat_guarded, get_attr_guarded}
use tg11_os.Fat32.Safety.Writing.{touch_guarded}
use tg11_os.Fat32.Safety.Commands.{
  write_guarded_path, mkdir_guarded, remove_guarded, set_attr_guarded,
}

-- The operations on a mounted volume, with their arguments.
pub data Command : Type 0 where
  ls : List ℕ → ℕ → Command
  read_file : List ℕ → ℕ → (ℕ → ℕ) → Command
  stat : List ℕ → Command
  get_attr : List ℕ → Command
  free_bytes_left : Command
  touch : List ℕ → Command
  write_file : List ℕ → (ℕ → ℕ) → ℕ → Command
  mkdir : List ℕ → Command
  remove : List ℕ → Command
  set_attr : List ℕ → ℕ → ℕ → Command

module _ {S : Type 0} where
  abbrev dropped : {A : Type 0} → Action (Fat32 S) A → Action (Fat32 S) (Unit {0})
  dropped act = do _ ← attempt act; pure tt

  -- A command, whose result is not looked at.
  unfoldable pub run_command : ℕ → Command → Action (Fat32 S) (Unit {0})
  run_command fuel (ls path max_entries) = dropped (ls_path fuel path max_entries)
  run_command fuel (read_file path capacity out) = dropped (read_file_path fuel path capacity out)
  run_command fuel (stat path) = dropped (stat_path fuel path)
  run_command fuel (get_attr path) = dropped (get_attr_path fuel path)
  run_command fuel free_bytes_left = dropped get_free_bytes
  run_command fuel (touch path) = dropped (touch_file_path fuel path)
  run_command fuel (write_file path bytes size) = dropped (write_file_path fuel path bytes size)
  run_command fuel (mkdir path) = dropped (mkdir_path fuel path)
  run_command fuel (remove path) = dropped (remove_path fuel path)
  run_command fuel (set_attr path set_mask clear_mask) =
      dropped (set_attr_path fuel path set_mask clear_mask)

  unfoldable pub run_all : ℕ → List Command → Action (Fat32 S) (Unit {0})
  run_all fuel [] = pure tt
  run_all fuel (c ∷ commands) = do run_command fuel c; run_all fuel commands

module _ {S : Type 0} (v : Volume S) (contents : S → ℕ → Sector) (base : ℕ → Sector)
    (law : (d : BlockDevice S) → v.dev ≡ some d → IsLawful contents d) (f : IsFormatted v) where
  abbrev Kept : Fat32 S → Type 0
  Kept = IsGuarded v contents base

  dropped_guarded :
      {A : Type 0} {P : A → Type 0} (act : Action (Fat32 S) A) (m : Fat32 S)
      → Leaves P Kept (act m)
      → Leaves (λ _. Unit) Kept (dropped act m)
  dropped_guarded act m l =
      Leaves-then_run (caught (act m)) (Leaves-caught (act m) l)
        (λ _ m₁ _ g. record { left = (tt, g) })

  count_guarded :
      (left c n : ℕ) (m : Fat32 S)
      → Kept m
      → Leaves (λ _. Unit) Kept (count_free_clusters left c n m)
  unfolding count_free_clusters
  count_guarded zero c n m g = record { left = (tt, g) }
  count_guarded (suc left) c n m g =
      Leaves-then_run (next_cluster c m) (next_cluster-Guarded v contents base law f c m g)
        (λ next m₁ _ g₁. count_guarded left (c + 1) _ m₁ g₁)

  free_bytes_guarded : (m : Fat32 S) → Kept m → Leaves (λ _. Unit) Kept (get_free_bytes m)
  unfolding get_free_bytes
  free_bytes_guarded m g =
      Leaves-then_run (guard m.fs.mounted m) (Leaves-guard m.fs.mounted m g) (λ _ m₁ _ g₁.
        Leaves-then_run (count_free_clusters (m.fs.max_data_cluster - 1) 2 0 m₁)
          (count_guarded (m.fs.max_data_cluster - 1) 2 0 m₁ g₁)
          (λ n m₂ _ g₂. record { left = (tt, g₂) }))

  run_guarded :
      (fuel : ℕ) (c : Command) (m : Fat32 S)
      → Kept m
      → Leaves (λ _. Unit) Kept (run_command fuel c m)
  unfolding run_command
  run_guarded fuel (ls path max_entries) m g =
      dropped_guarded (ls_path fuel path max_entries) m
        (ls_guarded v contents base law f fuel path max_entries m g)
  run_guarded fuel (read_file path capacity out) m g =
      dropped_guarded (read_file_path fuel path capacity out) m
        (read_file_guarded v contents base law f fuel path capacity out m g)
  run_guarded fuel (stat path) m g =
      dropped_guarded (stat_path fuel path) m (stat_guarded v contents base law f fuel path m g)
  run_guarded fuel (get_attr path) m g =
      dropped_guarded (get_attr_path fuel path) m
        (get_attr_guarded v contents base law f fuel path m g)
  run_guarded fuel free_bytes_left m g = dropped_guarded get_free_bytes m (free_bytes_guarded m g)
  run_guarded fuel (touch path) m g =
      dropped_guarded (touch_file_path fuel path) m
        (touch_guarded v contents base law f fuel path m g)
  run_guarded fuel (write_file path bytes size) m g =
      dropped_guarded (write_file_path fuel path bytes size) m
        (write_guarded_path v contents base law f fuel path bytes size m g)
  run_guarded fuel (mkdir path) m g =
      dropped_guarded (mkdir_path fuel path) m (mkdir_guarded v contents base law f fuel path m g)
  run_guarded fuel (remove path) m g =
      dropped_guarded (remove_path fuel path) m (remove_guarded v contents base law f fuel path m g)
  run_guarded fuel (set_attr path set_mask clear_mask) m g =
      dropped_guarded (set_attr_path fuel path set_mask clear_mask) m
        (set_attr_guarded v contents base law f fuel path set_mask clear_mask m g)

  run_all_guarded :
      (fuel : ℕ) (commands : List Command) (m : Fat32 S)
      → Kept m
      → Leaves (λ _. Unit) Kept (run_all fuel commands m)
  unfolding run_all
  run_all_guarded fuel [] m g = record { left = (tt, g) }
  run_all_guarded fuel (c ∷ commands) m g =
      Leaves-then_run (run_command fuel c m) (run_guarded fuel c m g)
        (λ _ m₁ _ g₁. run_all_guarded fuel commands m₁ g₁)

-- On a formatted volume, no sequence of operations changes a sector before the copies of the table or
-- after the data area, or a field of the volume, whichever of them fail.
pub run_all_lem :
    {S : Type 0} (contents : S → ℕ → Sector) (fuel : ℕ) (commands : List Command) (m : Fat32 S)
    → IsFormatted m.fs
    → ((d : BlockDevice S) → m.fs.dev ≡ some d → IsLawful contents d)
    → Leaves (λ _. Unit) (IsGuarded m.fs contents (image contents m)) (run_all fuel commands m)
run_all_lem contents fuel commands m f law =
    run_all_guarded m.fs contents (image contents m) law f fuel commands m
      (record { fs = refl; outside = λ lba h. refl })
