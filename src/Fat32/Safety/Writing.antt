-- ===== src/Fat32/Safety/Writing.antt =====
-- kernel/fat32.c, what touch, write, mkdir, remove and set_attr may write.
use Prim.Native.String.{String}
use tg11_os.Prelude.{ℕ, false, Option, none, some, List, ◌≡◌, inl, inr, Bool-cases}
use tg11_os.Prelude.Actions.{Action, caught}
use tg11_os.Block.{Sector, BlockDevice, IsLawful}
use tg11_os.Fat32.{Volume, Fat32, read_sector_cached, write_sector_uncached, set_error}
use tg11_os.Fat32.Table.Copies.{IsFormatted}
use tg11_os.Fat32.Mount.{fail_with}
use tg11_os.Fat32.Sectors.{is_directory, new_entry, or_error}
use tg11_os.Fat32.Directory.{
  find_entry_in_dir, find_free_entry_in_dir, Place, resolve_parent_and_leaf,
}
use tg11_os.Fat32.Listing.{begin}
use tg11_os.Fat32.Files.{attr_archive, edit_sector, touch_entry, touch_file_path}
use tg11_os.Fat32.Safety.{
  Leaves, Leaves-then_run, Leaves-caught, Leaves-reported, IsGuarded, read_sector_cached-IsGuarded,
  write_sector_uncached-IsGuarded,
}
use tg11_os.Fat32.Safety.Tables.{IsData, data-IsInside}
use tg11_os.Fat32.Safety.Paths.{find_guarded, find_free_guarded}
use tg11_os.Fat32.Safety.Reading.{clear_guarded, begin_guarded, resolve_or}

module _ {S : Type 0} (v : Volume S) (contents : S → ℕ → Sector) (base : ℕ → Sector)
    (law : (d : BlockDevice S) → v.dev ≡ some d → IsLawful contents d) (f : IsFormatted v) where
  abbrev Kept : Fat32 S → Type 0
  Kept = IsGuarded v contents base

  abbrev Data : ℕ → Type 0
  Data = IsData v contents base law f

  -- A call with a message keeps what the call keeps.
  pub or_guarded :
      {A : Type 0} {P : A → Type 0} (act : Action (Fat32 S) A) (msg : String) (m : Fat32 S)
      → Leaves P Kept (act m)
      → Leaves P Kept (or_error act msg m)
  or_guarded act msg m l = Leaves-reported v contents base msg (act m) l

  pub fail_with_guarded :
      {A : Type 0} {P : A → Type 0} (msg : String) (m : Fat32 S)
      → Kept m
      → Leaves P Kept (fail_with msg m)
  unfolding fail_with set_error
  fail_with_guarded msg m g = record { left = record { fs = g.fs; outside = g.outside } }

  pub edit_guarded :
      (lba : ℕ) (change : Sector → Sector) (r w : String) (m : Fat32 S)
      → Data lba
      → Kept m
      → Leaves (λ _. Unit) Kept (edit_sector lba change r w m)
  unfolding edit_sector
  edit_guarded lba change r w m d g =
      Leaves-then_run (or_error (read_sector_cached lba false) r m)
        (or_guarded (read_sector_cached lba false) r m
          (read_sector_cached-IsGuarded v contents base law lba false m g))
        (λ sec m₁ _ g₁. or_guarded (write_sector_uncached lba (change sec)) w m₁ (
          write_sector_uncached-IsGuarded v contents base law lba (change sec) m₁ g₁
            (data-IsInside v contents base law f lba d)))

  touch_entry_guarded :
      (fuel parent : ℕ) (name83 : Sector) (o : Option Place) (m : Fat32 S)
      → Kept m
      → Leaves (λ _. Unit) Kept (touch_entry fuel parent name83 o m)
  unfolding touch_entry
  touch_entry_guarded fuel parent name83 (some (lba, off, entry)) m g =
      elim (Bool-cases (is_directory entry)) [
        | inl dir ↦ rw dir (fail_with_guarded "touch: target is a directory" m g)
        | inr file ↦ rw file (record { left = (tt, clear_guarded v contents base law f m g) })
      ]
  touch_entry_guarded fuel parent name83 none m g =
      Leaves-then_run
        (or_error (find_free_entry_in_dir fuel parent) "touch: no free directory entry" m)
        (or_guarded (find_free_entry_in_dir fuel parent) "touch: no free directory entry" m
          (find_free_guarded v contents base law f fuel parent m g))
        (λ (lba, off) m₁ d g₁.
          Leaves-then_run
            (edit_sector lba (λ sec. new_entry sec off name83 attr_archive)
              "touch: read directory sector failed" "touch: write directory sector failed" m₁)
            (edit_guarded lba (λ sec. new_entry sec off name83 attr_archive)
              "touch: read directory sector failed" "touch: write directory sector failed" m₁ d g₁)
            (λ _ m₂ _ g₂. record { left = (tt, clear_guarded v contents base law f m₂ g₂) }))

  pub touch_guarded :
      (fuel : ℕ) (path : List ℕ) (m : Fat32 S)
      → Kept m
      → Leaves (λ _. Unit) Kept (touch_file_path fuel path m)
  unfolding touch_file_path
  touch_guarded fuel path m g =
      Leaves-then_run (begin "touch: invalid arguments or unmounted" m)
        (begin_guarded v contents base law f "touch: invalid arguments or unmounted" m g)
        (λ _ m₁ _ g₁.
          Leaves-then_run
            (or_error (resolve_parent_and_leaf fuel path) "touch: path resolution failed" m₁)
            (resolve_or v contents base law f fuel path "touch: path resolution failed" m₁ g₁)
            (λ (parent, name83) m₂ _ g₂.
              Leaves-then_run (caught (find_entry_in_dir fuel parent name83 m₂))
                (Leaves-caught (find_entry_in_dir fuel parent name83 m₂)
                  (find_guarded v contents base law f fuel parent name83 m₂ g₂))
                (λ o m₃ _ g₃. touch_entry_guarded fuel parent name83 o m₃ g₃)))
