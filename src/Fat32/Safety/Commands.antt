-- ===== src/Fat32/Safety/Commands.antt =====
-- kernel/fat32.c, what write, mkdir, remove and set_attr may write, and any of the operations.
use Prim.Native.String.{String}
use tg11_os.Prelude.{
  ℕ, ◌+◌, Bool, true, not, leb, Option, none, some, List, ◌==◌, ◌≡◌, inl, inr, Bool-cases, arith,
  update, bit_and, length,
}
use tg11_os.Prelude.Actions.{guard, caught}
use tg11_os.Block.{Sector, BlockDevice, IsLawful}
use tg11_os.Fat32.{Volume, Fat32}
use tg11_os.Fat32.Table.{cluster_to_lba, cluster_is_valid, alloc_cluster, zero_cluster}
use tg11_os.Fat32.Table.Copies.{IsFormatted}
use tg11_os.Fat32.Sectors.{
  attr_directory, attr_lfn, deleted, is_directory, entry_first_cluster, set_first_cluster, set_size,
  new_entry, is_some, or_error,
}
use tg11_os.Fat32.Directory.{
  find_entry_in_dir, find_free_entry_in_dir, release, Place, resolve_parent_and_leaf,
}
use tg11_os.Fat32.Listing.{begin, ls_dir_cluster}
use tg11_os.Fat32.Files.{
  attr_archive, dot_entries, new_attr, edit_sector, touch_file_path, needed_clusters, alloc_chain,
  end_chain, write_chain, target_entry, drop_chain, write_file_path, fill_directory, keep_directory,
  mkdir_path, remove_chain, remove_path, set_attr_path,
}
use tg11_os.Fat32.Safety.{
  Leaves, OnSome, Leaves-then_run, Leaves-caught, Leaves-guard, IsGuarded, on_mounted,
}
use tg11_os.Fat32.Safety.Tables.{IsData, alloc_cluster-Guarded, zero_cluster-Guarded, first-IsData}
use tg11_os.Fat32.Safety.Paths.{
  IsPlace, find_guarded, find_free_guarded, release_guarded, undo_guarded,
}
use tg11_os.Fat32.Safety.Writing.{or_guarded, edit_guarded, touch_guarded}
use tg11_os.Fat32.Safety.Chains.{alloc_chain_guarded, end_chain_guarded, write_chain_guarded}
use tg11_os.Fat32.Safety.Reading.{ls_dir_guarded, clear_guarded, begin_guarded, resolve_or, find_or}

module _ {S : Type 0} (v : Volume S) (contents : S → ℕ → Sector) (base : ℕ → Sector)
    (law : (d : BlockDevice S) → v.dev ≡ some d → IsLawful contents d) (f : IsFormatted v) where
  abbrev Kept : Fat32 S → Type 0
  Kept = IsGuarded v contents base

  target_guarded :
      (fuel : ℕ) (path : List ℕ) (parent : ℕ) (name83 : Sector) (o : Option Place) (m : Fat32 S)
      → OnSome (IsPlace v contents base law f) o
      → Kept m
      → Leaves (IsPlace v contents base law f) Kept (target_entry fuel path parent name83 o m)
  unfolding target_entry
  target_guarded fuel path parent name83 (some place) m p g = record { left = (p, g) }
  target_guarded fuel path parent name83 none m p g =
      Leaves-then_run (touch_file_path fuel path m)
        (touch_guarded v contents base law f fuel path m g)
        (λ _ m₁ _ g₁.
          find_or v contents base law f fuel parent name83 "write: lookup after create failed" m₁
            g₁)

  drop_guarded :
      (first : ℕ) (msg : String) (m : Fat32 S)
      → Kept m
      → Leaves (λ _. Unit) Kept (drop_chain first msg m)
  unfolding drop_chain
  drop_guarded first msg m g = elim (Bool-cases (leb 2 first)) [
    | inl chain ↦ rw chain (
        or_guarded v contents base law f (release first) msg m
          (release_guarded v contents base law f first m g))
    | inr empty ↦ rw empty (record { left = (tt, g) })
  ]

  -- A test with a message.
  check_guarded :
      (b : Bool) (msg : String) (m : Fat32 S)
      → Kept m
      → Leaves (λ _. b ≡ true) Kept (or_error (guard b) msg m)
  check_guarded b msg m g = or_guarded v contents base law f (guard b) msg m (Leaves-guard b m g)

  pub write_guarded_path :
      (fuel : ℕ) (path : List ℕ) (bytes : ℕ → ℕ) (size : ℕ) (m : Fat32 S)
      → Kept m
      → Leaves (λ _. Unit) Kept (write_file_path fuel path bytes size m)
  unfolding write_file_path
  write_guarded_path fuel path bytes size m g =
      Leaves-then_run (begin "write: invalid arguments or unmounted" m)
        (begin_guarded v contents base law f "write: invalid arguments or unmounted" m g)
        (λ _ m₁ _ g₁.
          Leaves-then_run
            (or_error (resolve_parent_and_leaf fuel path) "write: path resolution failed" m₁)
            (resolve_or v contents base law f fuel path "write: path resolution failed" m₁ g₁)
            (λ (parent, name83) m₂ _ g₂.
              Leaves-then_run (caught (find_entry_in_dir fuel parent name83 m₂))
                (Leaves-caught (find_entry_in_dir fuel parent name83 m₂)
                  (find_guarded v contents base law f fuel parent name83 m₂ g₂))
                (λ o m₃ p g₃.
                  Leaves-then_run (target_entry fuel path parent name83 o m₃)
                    (target_guarded fuel path parent name83 o m₃ p g₃)
                    (λ (lba, off, entry) m₄ d g₄.
                      Leaves-then_run
                        (or_error (guard (not (is_directory entry))) "write: target is a directory"
                          m₄)
                        (check_guarded (not (is_directory entry)) "write: target is a directory" m₄
                          g₄)
                        (λ _ m₅ _ g₅.
                          Leaves-then_run
                            (drop_chain (entry_first_cluster entry)
                              "write: failed to free previous data chain" m₅)
                            (drop_guarded (entry_first_cluster entry)
                              "write: failed to free previous data chain" m₅ g₅)
                            (λ _ m₆ _ g₆.
                              Leaves-then_run (alloc_chain (needed_clusters m₆.fs size) 0 0 m₆)
                                (alloc_chain_guarded v contents base law f
                                  (needed_clusters m₆.fs size) 0 0 m₆ (inl (omega arith)) g₆)
                                (λ (first, last) m₇ t g₇.
                                  Leaves-then_run (end_chain first last m₇)
                                    (end_chain_guarded v contents base law f first last m₇ g₇)
                                    (λ _ m₈ _ g₈.
                                      Leaves-then_run (write_chain (size + 1) first bytes size 0 m₈)
                                        (write_chain_guarded v contents base law f (size + 1) first
                                          bytes size 0 m₈ t g₈)
                                        (λ _ m₉ _ g₉.
                                          Leaves-then_run
                                            (edit_sector lba
                                              (λ sec.
                                                set_size
                                                  (set_first_cluster
                                                    (update sec (off + 11) attr_archive) off first)
                                                  off size)
                                              "write: read directory entry sector failed"
                                              "write: update directory entry failed" m₉)
                                            (edit_guarded v contents base law f lba
                                              (λ sec.
                                                set_size
                                                  (set_first_cluster
                                                    (update sec (off + 11) attr_archive) off first)
                                                  off size)
                                              "write: read directory entry sector failed"
                                              "write: update directory entry failed" m₉ d g₉)
                                            (λ _ m' _ g'. record {
                                              left =
                                                  (tt, clear_guarded v contents base law f m' g');
                                            }))))))))))

  fill_guarded :
      (c parent lba off : ℕ) (name83 : Sector) (m : Fat32 S)
      → cluster_is_valid v c ≡ true
      → IsData v contents base law f lba
      → Kept m
      → Leaves (λ _. Unit) Kept (fill_directory c parent lba off name83 m)
  unfolding fill_directory
  fill_guarded c parent lba off name83 m valid d g =
      Leaves-then_run
        (or_error (zero_cluster (cluster_to_lba m.fs c) m.fs.sectors_per_cluster 0)
          "mkdir: zeroing directory cluster failed" m)
        (or_guarded v contents base law f
          (zero_cluster (cluster_to_lba m.fs c) m.fs.sectors_per_cluster 0)
          "mkdir: zeroing directory cluster failed" m
          (on_mounted
            (λ (w : Volume S). zero_cluster (cluster_to_lba w c) w.sectors_per_cluster 0 m) g.fs
            (zero_cluster-Guarded v contents base law f c valid v.sectors_per_cluster 0 m
              (omega arith) g)))
        (λ _ m₁ _ g₁.
          Leaves-then_run
            (edit_sector (cluster_to_lba m.fs c) (dot_entries c parent)
              "mkdir: read new directory cluster failed" "mkdir: write dot entries failed" m₁)
            (on_mounted
              (λ (w : Volume S).
                edit_sector (cluster_to_lba w c) (dot_entries c parent)
                  "mkdir: read new directory cluster failed" "mkdir: write dot entries failed" m₁)
              g.fs
              (edit_guarded v contents base law f (cluster_to_lba v c) (dot_entries c parent)
                "mkdir: read new directory cluster failed" "mkdir: write dot entries failed" m₁
                (first-IsData v contents base law f c valid) g₁))
            (λ _ m₂ _ g₂.
              edit_guarded v contents base law f lba
                (λ sec. set_first_cluster (new_entry sec off name83 attr_directory) off c)
                "mkdir: read parent directory sector failed"
                "mkdir: write parent directory entry failed" m₂ d g₂))

  keep_directory-Guarded :
      (c : ℕ) (o : Option (Unit {0})) (m : Fat32 S)
      → Kept m
      → Leaves (λ _. Unit) Kept (keep_directory c o m)
  unfolding keep_directory
  keep_directory-Guarded c (some _) m g = record { left = (tt, g) }
  keep_directory-Guarded c none m g = undo_guarded v contents base law f c m g

  pub mkdir_guarded :
      (fuel : ℕ) (path : List ℕ) (m : Fat32 S)
      → Kept m
      → Leaves (λ _. Unit) Kept (mkdir_path fuel path m)
  unfolding mkdir_path
  mkdir_guarded fuel path m g =
      Leaves-then_run (begin "mkdir: invalid arguments or unmounted" m)
        (begin_guarded v contents base law f "mkdir: invalid arguments or unmounted" m g)
        (λ _ m₁ _ g₁.
          Leaves-then_run
            (or_error (resolve_parent_and_leaf fuel path) "mkdir: path resolution failed" m₁)
            (resolve_or v contents base law f fuel path "mkdir: path resolution failed" m₁ g₁)
            (λ (parent, name83) m₂ _ g₂.
              Leaves-then_run (caught (find_entry_in_dir fuel parent name83 m₂))
                (Leaves-caught (find_entry_in_dir fuel parent name83 m₂)
                  (find_guarded v contents base law f fuel parent name83 m₂ g₂))
                (λ o m₃ _ g₃.
                  Leaves-then_run
                    (or_error (guard (not (is_some o))) "mkdir: target already exists" m₃)
                    (check_guarded (not (is_some o)) "mkdir: target already exists" m₃ g₃)
                    (λ _ m₄ _ g₄.
                      Leaves-then_run
                        (or_error (find_free_entry_in_dir fuel parent)
                          "mkdir: no free directory entry" m₄)
                        (or_guarded v contents base law f (find_free_entry_in_dir fuel parent)
                          "mkdir: no free directory entry" m₄
                          (find_free_guarded v contents base law f fuel parent m₄ g₄))
                        (λ (lba, off) m₅ d g₅.
                          Leaves-then_run
                            (or_error alloc_cluster "mkdir: no free cluster or FAT write error" m₅)
                            (or_guarded v contents base law f alloc_cluster
                              "mkdir: no free cluster or FAT write error" m₅
                              (alloc_cluster-Guarded v contents base law f m₅ g₅))
                            (λ c m₆ valid g₆.
                              Leaves-then_run (caught (fill_directory c parent lba off name83 m₆))
                                (Leaves-caught (fill_directory c parent lba off name83 m₆)
                                  (fill_guarded c parent lba off name83 m₆ valid d g₆))
                                (λ filled m₇ _ g₇.
                                  Leaves-then_run (keep_directory c filled m₇)
                                    (keep_directory-Guarded c filled m₇ g₇)
                                    (λ _ m₈ _ g₈. record {
                                      left = (tt, clear_guarded v contents base law f m₈ g₈);
                                    }))))))))

  remove_chain_guarded :
      (fuel : ℕ) (entry : Sector) (m : Fat32 S)
      → Kept m
      → Leaves (λ _. Unit) Kept (remove_chain fuel entry m)
  unfolding remove_chain
  remove_chain_guarded fuel entry m g = elim (Bool-cases (not (is_directory entry))) [
    | inl file ↦
        rw file (drop_guarded (entry_first_cluster entry) "remove: failed to free file chain" m g)
    | inr dir ↦
        let first = entry_first_cluster entry in
        rw dir (
          Leaves-then_run (or_error (guard (leb 2 first)) "remove: invalid directory cluster" m)
            (check_guarded (leb 2 first) "remove: invalid directory cluster" m g)
            (λ _ m₁ _ g₁.
              Leaves-then_run
                (or_error (ls_dir_cluster fuel first 2) "remove: cannot enumerate directory" m₁)
                (or_guarded v contents base law f (ls_dir_cluster fuel first 2)
                  "remove: cannot enumerate directory" m₁
                  (ls_dir_guarded v contents base law f fuel first 2 m₁ g₁))
                (λ names m₂ _ g₂.
                  Leaves-then_run
                    (or_error (guard (length names == 0)) "remove: directory not empty" m₂)
                    (check_guarded (length names == 0) "remove: directory not empty" m₂ g₂)
                    (λ _ m₃ _ g₃.
                      or_guarded v contents base law f (release first)
                        "remove: failed to free directory chain" m₃
                        (release_guarded v contents base law f first m₃ g₃)))))
  ]

  pub remove_guarded :
      (fuel : ℕ) (path : List ℕ) (m : Fat32 S)
      → Kept m
      → Leaves (λ _. Unit) Kept (remove_path fuel path m)
  unfolding remove_path
  remove_guarded fuel path m g =
      Leaves-then_run (begin "remove: invalid arguments or unmounted" m)
        (begin_guarded v contents base law f "remove: invalid arguments or unmounted" m g)
        (λ _ m₁ _ g₁.
          Leaves-then_run
            (or_error (resolve_parent_and_leaf fuel path) "remove: path resolution failed" m₁)
            (resolve_or v contents base law f fuel path "remove: path resolution failed" m₁ g₁)
            (λ (parent, name83) m₂ _ g₂.
              Leaves-then_run
                (or_error (find_entry_in_dir fuel parent name83) "remove: target not found" m₂)
                (find_or v contents base law f fuel parent name83 "remove: target not found" m₂ g₂)
                (λ (lba, off, entry) m₃ d g₃.
                  Leaves-then_run (remove_chain fuel entry m₃)
                    (remove_chain_guarded fuel entry m₃ g₃)
                    (λ _ m₄ _ g₄.
                      Leaves-then_run
                        (edit_sector lba (λ sec. update sec off deleted)
                          "remove: read directory sector failed"
                          "remove: write directory sector failed" m₄)
                        (edit_guarded v contents base law f lba (λ sec. update sec off deleted)
                          "remove: read directory sector failed"
                          "remove: write directory sector failed" m₄ d g₄)
                        (λ _ m₅ _ g₅. record {
                          left = (tt, clear_guarded v contents base law f m₅ g₅);
                        })))))

  pub set_attr_guarded :
      (fuel : ℕ) (path : List ℕ) (set_mask clear_mask : ℕ) (m : Fat32 S)
      → Kept m
      → Leaves (λ _. Unit) Kept (set_attr_path fuel path set_mask clear_mask m)
  unfolding set_attr_path
  set_attr_guarded fuel path set_mask clear_mask m g =
      Leaves-then_run (begin "attr: invalid arguments or unmounted" m)
        (begin_guarded v contents base law f "attr: invalid arguments or unmounted" m g)
        (λ _ m₁ _ g₁.
          Leaves-then_run
            (or_error (resolve_parent_and_leaf fuel path) "attr: path resolution failed" m₁)
            (resolve_or v contents base law f fuel path "attr: path resolution failed" m₁ g₁)
            (λ (parent, name83) m₂ _ g₂.
              Leaves-then_run
                (or_error (find_entry_in_dir fuel parent name83) "attr: target not found" m₂)
                (find_or v contents base law f fuel parent name83 "attr: target not found" m₂ g₂)
                (λ (lba, off, entry) m₃ d g₃.
                  let attr = new_attr (entry 11) set_mask clear_mask in
                  Leaves-then_run
                    (or_error (guard (not (bit_and attr 0x0F == attr_lfn)))
                      "attr: invalid attribute combination" m₃)
                    (check_guarded (not (bit_and attr 0x0F == attr_lfn))
                      "attr: invalid attribute combination" m₃ g₃)
                    (λ _ m₄ _ g₄.
                      Leaves-then_run
                        (edit_sector lba (λ sec. update sec (off + 11) attr)
                          "attr: read directory sector failed" "attr: write directory sector failed"
                          m₄)
                        (edit_guarded v contents base law f lba (λ sec. update sec (off + 11) attr)
                          "attr: read directory sector failed" "attr: write directory sector failed"
                          m₄ d g₄)
                        (λ _ m₅ _ g₅. record {
                          left = (tt, clear_guarded v contents base law f m₅ g₅);
                        })))))
