-- ===== src/Fat32/Safety/Reading.antt =====
-- kernel/fat32.c, what ls, read, stat and get_attr may write: nothing.
use Prim.Native.String.{String}
use tg11_os.Prelude.{
  ℕ, zero, suc, ◌+◌, ◌*◌, ◌-◌, true, false, not, ◌&&◌, ◌||◌, ltb, leb, Option, none, some, List, [],
  ◌==◌, ◌≡◌, sym, ap, ◌∙◌, inl, inr, Bool-cases, Option-cases, arith, u32, min,
}
use tg11_os.Prelude.Actions.{guard, caught}
use tg11_os.Block.{Sector, BlockDevice, IsLawful}
use tg11_os.Fat32.{Volume, Fat32, read_sector_cached, clear_error}
use tg11_os.Fat32.Bytes.{rd32}
use tg11_os.Fat32.Cached.{image}
use tg11_os.Fat32.Table.{eoc, cluster_to_lba, next_cluster}
use tg11_os.Fat32.Table.Copies.{IsFormatted}
use tg11_os.Fat32.Sectors.{
  is_directory, entry_first_cluster, read_each, many_answered, many_driver, is_some,
  read_data_sectors, sectors_per_read, or_error,
}
use tg11_os.Fat32.Directory.{
  chain_goes_on, find_entry_in_dir, resolve_dir_cluster, resolve_parent_and_leaf, is_root_path,
}
use tg11_os.Fat32.Listing.{
  Listed, list_buffer, list_cluster, list_chain, ls_dir_cluster, ls_path, take_bytes, read_cluster,
  read_chain, read_file_entry, begin, read_file_path, stat_entry, stat_path, get_attr_path,
}
use tg11_os.Fat32.Safety.{
  Leaves, Leaves-then_run, Leaves-caught, Leaves-weaken, Leaves-guard, Leaves-reported, IsGuarded,
  read_sector_cached-IsGuarded,
}
use tg11_os.Fat32.Safety.Tables.{next_cluster-Guarded}
use tg11_os.Fat32.Safety.Paths.{IsPlace, find_guarded, resolve_dir_guarded, resolve_guarded}

module _ {S : Type 0} (v : Volume S) (contents : S → ℕ → Sector) (base : ℕ → Sector)
    (law : (d : BlockDevice S) → v.dev ≡ some d → IsLawful contents d) (f : IsFormatted v) where
  abbrev Kept : Fat32 S → Type 0
  Kept = IsGuarded v contents base

  read_each_guarded :
      (lba left i : ℕ) (buffer : ℕ → ℕ) (m : Fat32 S)
      → Kept m
      → Leaves (λ _. Unit) Kept (read_each lba left i buffer m)
  unfolding read_each
  read_each_guarded lba zero i buffer m g = record { left = (tt, g) }
  read_each_guarded lba (suc left) i buffer m g =
      Leaves-then_run (read_sector_cached (u32 (lba + i)) false m)
        (read_sector_cached-IsGuarded v contents base law (u32 (lba + i)) false m g)
        (λ sec m₁ _ g₁. read_each_guarded lba left (i + 1) _ m₁ g₁)

  many_answered_guarded :
      (o : Option (ℕ → ℕ) × S) (m : Fat32 S)
      → Kept m
      → contents o.1 ≡ image contents m
      → Leaves (λ _. Unit) Kept (many_answered o m)
  unfolding many_answered
  many_answered_guarded (none, disk) m g e = record {
    left = record { fs = g.fs; outside = λ l h. ap (λ (t : ℕ → Sector). t l) e ∙ g.outside l h };
  }
  many_answered_guarded (some buffer, disk) m g e = record {
    left =
        (tt, record { fs = g.fs; outside = λ l h. ap (λ (t : ℕ → Sector). t l) e ∙ g.outside l h });
  }

  many-IsLawful :
      (m : Fat32 S) (read : ℕ → ℕ → S → Option (ℕ → ℕ) × S)
      → Kept m
      → many_driver m ≡ some read
      → (d : BlockDevice S) × IsLawful contents d × (d.read_sectors ≡ some read)
  unfolding many_driver
  many-IsLawful m read g h = elim (Option-cases m.fs.dev) [
    | inl absent ↦ absurd (cc)
    | inr (d, there) ↦ (d, law d (ap (λ (w : Volume S). w.dev) (sym g.fs) ∙ there), ground arith)
  ]

  data_guarded :
      (lba count : ℕ) (m : Fat32 S)
      → Kept m
      → Leaves (λ _. Unit) Kept (read_data_sectors lba count m)
  unfolding read_data_sectors
  data_guarded lba count m g = elim (Bool-cases (count == 0)) [
    | inl empty ↦ rw (empty, read_data_sectors) (record { left = g })
    | inr some_left ↦ elim (Bool-cases (not (m.fs.mounted && is_some m.fs.dev))) [
      | inl off ↦ rw (some_left, off, read_data_sectors) (record { left = g })
      | inr on ↦ elim (Bool-cases (ltb 1 count)) [
        | inr one ↦
            rw (some_left, on, one, read_data_sectors) (read_each_guarded lba count 0 (λ _. 0) m g)
        | inl many ↦ elim (Option-cases (many_driver m)) [
          | inl absent ↦
              rw (some_left, on, many, absent, read_data_sectors)
                (read_each_guarded lba count 0 (λ _. 0) m g)
          | inr (read, there) ↦
              let (d, l, e) = many-IsLawful m read g there in
              rw (some_left, on, many, there, read_data_sectors)
                (many_answered_guarded (read lba count m.disk) m g
                  (l.reads_many read e lba count m.disk).unchanged)
        ]
      ]
    ]
  ]

  list_cluster_guarded :
      (left s count start batch max_entries : ℕ) (listed : Listed) (m : Fat32 S)
      → Kept m
      → Leaves (λ _. Unit) Kept (list_cluster left s count start batch max_entries listed m)
  unfolding list_cluster
  list_cluster_guarded zero s count start batch max_entries listed m g = record { left = (tt, g) }
  list_cluster_guarded (suc left) s count start batch max_entries (true, names) m g = record {
    left = (tt, g);
  }
  list_cluster_guarded (suc left) s count start batch max_entries (false, names) m g =
      elim (Bool-cases (leb count s)) [
        | inl over ↦ rw over (record { left = (tt, g) })
        | inr more ↦ rw more (
            Leaves-then_run (read_data_sectors (u32 (start + s)) (min (count - s) batch) m)
              (data_guarded (u32 (start + s)) (min (count - s) batch) m g)
              (λ buffer m₁ _ g₁.
                list_cluster_guarded left (s + batch) count start batch max_entries
                  (list_buffer (min (count - s) batch) 0 max_entries buffer (false, names)) m₁ g₁))
      ]

  list_chain_guarded :
      (fuel c batch max_entries : ℕ) (names : List (List ℕ)) (m : Fat32 S)
      → Kept m
      → Leaves (λ _. Unit) Kept (list_chain fuel c batch max_entries names m)
  unfolding list_chain
  list_chain_guarded zero c batch max_entries names m g = record { left = tt }
  list_chain_guarded (suc fuel) c batch max_entries names m g =
      elim (Bool-cases (chain_goes_on c m)) [
        | inr off ↦ rw (off, list_chain) (record { left = (tt, g) })
        | inl on ↦
            rw (on, list_chain)
              (Leaves-then_run
                (list_cluster m.fs.sectors_per_cluster 0 m.fs.sectors_per_cluster
                  (cluster_to_lba m.fs c) batch max_entries (false, names) m)
                (list_cluster_guarded m.fs.sectors_per_cluster 0 m.fs.sectors_per_cluster
                  (cluster_to_lba m.fs c) batch max_entries (false, names) m g)
                (λ (over, more) m₁ _ g₁. elim (Bool-cases over) [
                  | inl end ↦ rw end (record { left = (tt, g₁) })
                  | inr further ↦ rw further (
                      Leaves-then_run (next_cluster c m₁)
                        (next_cluster-Guarded v contents base law f c m₁ g₁)
                        (λ next m₂ _ g₂. elim (Bool-cases (leb eoc next)) [
                          | inl last ↦ rw last (record { left = (tt, g₂) })
                          | inr inner ↦
                              rw inner (list_chain_guarded fuel next batch max_entries more m₂ g₂)
                        ]))
                ]))
      ]

  pub ls_dir_guarded :
      (fuel c max_entries : ℕ) (m : Fat32 S)
      → Kept m
      → Leaves (λ _. Unit) Kept (ls_dir_cluster fuel c max_entries m)
  unfolding ls_dir_cluster
  ls_dir_guarded fuel c max_entries m g =
      Leaves-then_run (guard (m.fs.mounted && ltb 0 max_entries) m)
        (Leaves-guard (m.fs.mounted && ltb 0 max_entries) m g)
        (λ _ m₁ _ g₁. list_chain_guarded fuel c (sectors_per_read m) max_entries [] m₁ g₁)

  pub ls_guarded :
      (fuel : ℕ) (path : List ℕ) (max_entries : ℕ) (m : Fat32 S)
      → Kept m
      → Leaves (λ _. Unit) Kept (ls_path fuel path max_entries m)
  unfolding ls_path
  ls_guarded fuel path max_entries m g =
      Leaves-then_run (resolve_dir_cluster fuel path m)
        (resolve_dir_guarded v contents base law f fuel path m g)
        (λ c m₁ _ g₁. ls_dir_guarded fuel c max_entries m₁ g₁)

  read_cluster_guarded :
      (left s count start batch size capacity : ℕ) (filled : ℕ × (ℕ → ℕ)) (m : Fat32 S)
      → Kept m
      → Leaves (λ _. Unit) Kept (read_cluster left s count start batch size capacity filled m)
  unfolding read_cluster
  read_cluster_guarded zero s count start batch size capacity filled m g = record { left = (tt, g) }
  read_cluster_guarded (suc left) s count start batch size capacity filled m g =
      elim (Bool-cases (leb count s || leb size filled.0)) [
        | inl over ↦ rw over (record { left = (tt, g) })
        | inr more ↦ rw more (
            Leaves-then_run (read_data_sectors (u32 (start + s)) (min (count - s) batch) m)
              (data_guarded (u32 (start + s)) (min (count - s) batch) m g)
              (λ buffer m₁ _ g₁.
                read_cluster_guarded left (s + batch) count start batch size capacity
                  (take_bytes (min (count - s) batch * 512) 0 buffer size capacity filled) m₁ g₁))
      ]

  read_chain_guarded :
      (fuel c batch size capacity : ℕ) (filled : ℕ × (ℕ → ℕ)) (m : Fat32 S)
      → Kept m
      → Leaves (λ _. Unit) Kept (read_chain fuel c batch size capacity filled m)
  unfolding read_chain
  read_chain_guarded zero c batch size capacity filled m g = record { left = tt }
  read_chain_guarded (suc fuel) c batch size capacity filled m g =
      elim (Bool-cases (leb 2 c && (ltb c eoc && ltb filled.0 size))) [
        | inr off ↦ rw (off, read_chain) (record { left = (tt, g) })
        | inl on ↦
            rw (on, read_chain)
              (Leaves-then_run
                (read_cluster m.fs.sectors_per_cluster 0 m.fs.sectors_per_cluster
                  (cluster_to_lba m.fs c) batch size capacity filled m)
                (read_cluster_guarded m.fs.sectors_per_cluster 0 m.fs.sectors_per_cluster
                  (cluster_to_lba m.fs c) batch size capacity filled m g)
                (λ more m₁ _ g₁. elim (Bool-cases (leb size more.0)) [
                  | inl whole ↦ rw whole (record { left = (tt, g₁) })
                  | inr part ↦ rw part (
                      Leaves-then_run (next_cluster c m₁)
                        (next_cluster-Guarded v contents base law f c m₁ g₁)
                        (λ next m₂ _ g₂. elim (Bool-cases (leb eoc next)) [
                          | inl last ↦ rw last (record { left = (tt, g₂) })
                          | inr inner ↦
                              rw inner (read_chain_guarded fuel next batch size capacity more m₂ g₂)
                        ]))
                ]))
      ]

  read_entry_guarded :
      (fuel : ℕ) (entry : Sector) (capacity : ℕ) (out : ℕ → ℕ) (m : Fat32 S)
      → Kept m
      → Leaves (λ _. Unit) Kept (read_file_entry fuel entry capacity out m)
  unfolding read_file_entry
  read_entry_guarded fuel entry capacity out m g =
      Leaves-then_run (guard (not (is_directory entry)) m)
        (Leaves-guard (not (is_directory entry)) m g)
        (λ _ m₁ _ g₁. elim (Bool-cases (ltb (entry_first_cluster entry) 2)) [
          | inl empty ↦ rw empty (record { left = (tt, g₁) })
          | inr chain ↦ rw chain (
              Leaves-then_run
                (read_chain fuel (entry_first_cluster entry) (sectors_per_read m₁) (rd32 entry 28)
                  capacity (0, out) m₁)
                (read_chain_guarded fuel (entry_first_cluster entry) (sectors_per_read m₁)
                  (rd32 entry 28) capacity (0, out) m₁ g₁)
                (λ filled m₂ _ g₂. record { left = (tt, g₂) }))
        ])

  pub clear_guarded : (m : Fat32 S) → Kept m → Kept (clear_error m)
  unfolding clear_error
  clear_guarded m g = record { fs = g.fs; outside = g.outside }

  pub begin_guarded : (msg : String) (m : Fat32 S) → Kept m → Leaves (λ _. Unit) Kept (begin msg m)
  unfolding begin
  begin_guarded msg m g =
      Leaves-weaken (or_error (guard (clear_error m).fs.mounted) msg (clear_error m))
        (Leaves-reported v contents base msg (guard (clear_error m).fs.mounted (clear_error m))
          (Leaves-guard (clear_error m).fs.mounted (clear_error m) (clear_guarded m g)))
        (λ _ _. tt)

  -- The checks, the walk along the path and the search for its last part, with their messages.
  pub resolve_or :
      (fuel : ℕ) (path : List ℕ) (msg : String) (m : Fat32 S)
      → Kept m
      → Leaves (λ _. Unit) Kept (or_error (resolve_parent_and_leaf fuel path) msg m)
  resolve_or fuel path msg m g =
      Leaves-reported v contents base msg (resolve_parent_and_leaf fuel path m)
        (resolve_guarded v contents base law f fuel path m g)

  pub find_or :
      (fuel parent : ℕ) (name83 : Sector) (msg : String) (m : Fat32 S)
      → Kept m
      → Leaves
          (IsPlace v contents base law f)
          Kept
          (or_error (find_entry_in_dir fuel parent name83) msg m)
  find_or fuel parent name83 msg m g =
      Leaves-reported v contents base msg (find_entry_in_dir fuel parent name83 m)
        (find_guarded v contents base law f fuel parent name83 m g)

  pub read_file_guarded :
      (fuel : ℕ) (path : List ℕ) (capacity : ℕ) (out : ℕ → ℕ) (m : Fat32 S)
      → Kept m
      → Leaves (λ _. Unit) Kept (read_file_path fuel path capacity out m)
  unfolding read_file_path
  read_file_guarded fuel path capacity out m g =
      Leaves-then_run (begin "read: invalid arguments or unmounted" m)
        (begin_guarded "read: invalid arguments or unmounted" m g)
        (λ _ m₁ _ g₁.
          Leaves-then_run
            (or_error (resolve_parent_and_leaf fuel path) "read: path resolution failed" m₁)
            (resolve_or fuel path "read: path resolution failed" m₁ g₁)
            (λ (parent, name83) m₂ _ g₂.
              Leaves-then_run
                (or_error (find_entry_in_dir fuel parent name83) "read: file not found" m₂)
                (find_or fuel parent name83 "read: file not found" m₂ g₂)
                (λ (_, _, entry) m₃ _ g₃.
                  Leaves-then_run
                    (or_error (read_file_entry fuel entry capacity out)
                      "read: file data read failed" m₃)
                    (Leaves-reported v contents base "read: file data read failed"
                      (read_file_entry fuel entry capacity out m₃)
                      (read_entry_guarded fuel entry capacity out m₃ g₃))
                    (λ filled m₄ _ g₄. record { left = (tt, clear_guarded m₄ g₄) }))))

  stat_entry_guarded :
      (fuel : ℕ) (path : List ℕ) (o : Option ℕ) (m : Fat32 S)
      → Kept m
      → Leaves (λ _. Unit) Kept (stat_entry fuel path o m)
  unfolding stat_entry
  stat_entry_guarded fuel path (some c) m g = record { left = (tt, g) }
  stat_entry_guarded fuel path none m g =
      Leaves-then_run (resolve_parent_and_leaf fuel path m)
        (resolve_guarded v contents base law f fuel path m g)
        (λ (parent, name83) m₁ _ g₁.
          Leaves-then_run (find_entry_in_dir fuel parent name83 m₁)
            (find_guarded v contents base law f fuel parent name83 m₁ g₁)
            (λ (_, _, entry) m₂ _ g₂. record { left = (tt, g₂) }))

  pub stat_guarded :
      (fuel : ℕ) (path : List ℕ) (m : Fat32 S)
      → Kept m
      → Leaves (λ _. Unit) Kept (stat_path fuel path m)
  unfolding stat_path
  stat_guarded fuel path m g =
      Leaves-then_run (guard m.fs.mounted m) (Leaves-guard m.fs.mounted m g) (λ _ m₁ _ g₁.
        elim (Bool-cases (is_root_path path)) [
          | inl root ↦ rw root (record { left = (tt, g₁) })
          | inr below ↦ rw below (
              Leaves-then_run (caught (resolve_dir_cluster fuel path m₁))
                (Leaves-caught (resolve_dir_cluster fuel path m₁)
                  (resolve_dir_guarded v contents base law f fuel path m₁ g₁))
                (λ dir m₂ _ g₂. stat_entry_guarded fuel path dir m₂ g₂))
        ])

  pub get_attr_guarded :
      (fuel : ℕ) (path : List ℕ) (m : Fat32 S)
      → Kept m
      → Leaves (λ _. Unit) Kept (get_attr_path fuel path m)
  unfolding get_attr_path
  get_attr_guarded fuel path m g =
      Leaves-then_run (begin "attr: invalid arguments or unmounted" m)
        (begin_guarded "attr: invalid arguments or unmounted" m g)
        (λ _ m₁ _ g₁.
          Leaves-then_run
            (or_error (resolve_parent_and_leaf fuel path) "attr: path resolution failed" m₁)
            (resolve_or fuel path "attr: path resolution failed" m₁ g₁)
            (λ (parent, name83) m₂ _ g₂.
              Leaves-then_run
                (or_error (find_entry_in_dir fuel parent name83) "attr: target not found" m₂)
                (find_or fuel parent name83 "attr: target not found" m₂ g₂)
                (λ (_, _, entry) m₃ _ g₃. record { left = (tt, clear_guarded m₃ g₃) })))
