-- ===== src/Fat32/Safety/Paths.antt =====
-- kernel/fat32.c, what the search in directories and the walk along a path may write.
use tg11_os.Prelude.{
  ℕ, zero, suc, ◌+◌, ◌≤◌, true, false, not, ◌||◌, ltb, leb, Option, none, some, List, ◌==◌, ◌≡◌, ap,
  inl, inr, Bool-cases, arith, u32, length,
}
use tg11_os.Prelude.Actions.{ok, guard, caught, from_option}
use tg11_os.Block.{Sector, BlockDevice, IsLawful}
use tg11_os.Fat32.{Volume, Fat32, read_sector_cached}
use tg11_os.Fat32.Table.{
  eoc, cluster_to_lba, cluster_is_valid, next_cluster, set_cluster_value, alloc_cluster,
}
use tg11_os.Fat32.Table.Copies.{IsFormatted}
use tg11_os.Fat32.Names.{name_to_83, path_next_part, is_dot, is_dotdot, is_empty}
use tg11_os.Fat32.Sectors.{is_directory, entry_first_cluster}
use tg11_os.Fat32.Directory.{
  Scan, at_end, found, nothing, scan_find, scan_free, Place, scan_result, find_in_cluster,
  chain_goes_on, find_entry_in_dir, free_in_cluster, release, undo, new_slot, extend_dir,
  find_free_entry_in_dir, dotdot_name, get_parent_cluster, follow_part, resolve_loop, is_root_path,
  resolve_dir_cluster, leaf_loop, resolve_parent_and_leaf,
}
use tg11_os.Fat32.Safety.{
  Leaves, OnSome, Leaves-then_run, Leaves-caught, Leaves-unless_some, Leaves-guard,
  Leaves-from_option, IsGuarded, on_mounted, read_sector_cached-IsGuarded,
}
use tg11_os.Fat32.Safety.Tables.{
  IsData, next_cluster-Guarded, set_cluster_value-Guarded, free_chain-Guarded,
  alloc_cluster-Guarded, sector-IsData, first-IsData,
}

module _ {S : Type 0} (v : Volume S) (contents : S → ℕ → Sector) (base : ℕ → Sector)
    (law : (d : BlockDevice S) → v.dev ≡ some d → IsLawful contents d) (f : IsFormatted v) where
  abbrev Kept : Fat32 S → Type 0
  Kept = IsGuarded v contents base

  any : (o : Option ℕ) → OnSome (λ _. Unit) o
  any none = tt
  any (some off) = tt

  -- An entry that is found lies in the data area.
  abbrev pub IsPlace : Place → Type 0
  IsPlace (lba, off, entry) = IsData v contents base law f lba

  abbrev pub IsSlot : ℕ × ℕ → Type 0
  IsSlot (lba, off) = IsData v contents base law f lba

  placed_guarded :
      (lba : ℕ) (sec : Sector) (scan : Scan) (m : Fat32 S)
      → IsData v contents base law f lba
      → Kept m
      → Leaves (OnSome IsPlace) Kept (scan_result lba sec scan m)
  unfolding scan_result
  placed_guarded lba sec at_end m d g = record { left = g }
  placed_guarded lba sec (found off) m d g = record { left = (d, g) }
  placed_guarded lba sec nothing m d g = record { left = (tt, g) }

  module _ (c : ℕ) (valid : cluster_is_valid v c ≡ true) where
    find_in_guarded :
        (name83 : Sector) (left s : ℕ) (m : Fat32 S)
        → s + left ≤ v.sectors_per_cluster
        → Kept m
        → Leaves (OnSome IsPlace) Kept (find_in_cluster left s (cluster_to_lba v c) name83 m)
    unfolding find_in_cluster
    find_in_guarded name83 zero s m h g = record { left = (tt, g) }
    find_in_guarded name83 (suc left) s m h g =
        let lba = u32 (cluster_to_lba v c + s) in
        Leaves-then_run (read_sector_cached lba false m)
          (read_sector_cached-IsGuarded v contents base law lba false m g)
          (λ sec m₁ _ g₁.
            Leaves-then_run (scan_result lba sec (scan_find 16 0 name83 sec) m₁)
              (placed_guarded lba sec (scan_find 16 0 name83 sec) m₁
                (sector-IsData v contents base law f c s valid (omega arith)) g₁)
              (λ o m₂ p g₂.
                Leaves-unless_some o some _ m₂ p g₂ (λ place q. q)
                  (find_in_guarded name83 left (s + 1) m₂ (omega arith) g₂)))

    free_in_guarded :
        (left s : ℕ) (m : Fat32 S)
        → s + left ≤ v.sectors_per_cluster
        → Kept m
        → Leaves (OnSome IsSlot) Kept (free_in_cluster left s (cluster_to_lba v c) m)
    unfolding free_in_cluster
    free_in_guarded zero s m h g = record { left = (tt, g) }
    free_in_guarded (suc left) s m h g =
        let lba = u32 (cluster_to_lba v c + s) in
        Leaves-then_run (read_sector_cached lba false m)
          (read_sector_cached-IsGuarded v contents base law lba false m g)
          (λ sec m₁ _ g₁.
            Leaves-unless_some {P = λ _. Unit} (scan_free 16 0 sec) (λ off. some (lba, off)) _ m₁
              (any (scan_free 16 0 sec)) g₁
              (λ off _. sector-IsData v contents base law f c s valid (omega arith))
              (free_in_guarded left (s + 1) m₁ (omega arith) g₁))

  goes_on_valid :
      (c : ℕ) (m : Fat32 S) → Kept m → chain_goes_on c m ≡ true → cluster_is_valid v c ≡ true
  unfolding chain_goes_on
  goes_on_valid c m g h = ground (arith, ap (λ (w : Volume S). cluster_is_valid w c) g.fs)

  pub find_guarded :
      (fuel c : ℕ) (name83 : Sector) (m : Fat32 S)
      → Kept m
      → Leaves IsPlace Kept (find_entry_in_dir fuel c name83 m)
  unfolding find_entry_in_dir
  find_guarded zero c name83 m g = record { left = tt }
  find_guarded (suc fuel) c name83 m g = elim (Bool-cases (chain_goes_on c m)) [
    | inl on ↦
        rw (on, find_entry_in_dir)
          (Leaves-then_run
            (find_in_cluster m.fs.sectors_per_cluster 0 (cluster_to_lba m.fs c) name83 m)
            (on_mounted
              (λ (w : Volume S).
                find_in_cluster w.sectors_per_cluster 0 (cluster_to_lba w c) name83 m)
              g.fs
              (find_in_guarded c (goes_on_valid c m g on) name83 v.sectors_per_cluster 0 m
                (omega arith) g))
            (λ o m₁ p g₁.
              Leaves-unless_some o (λ q. q) _ m₁ p g₁ (λ place q. q)
                (Leaves-then_run (next_cluster c m₁)
                  (next_cluster-Guarded v contents base law f c m₁ g₁)
                  (λ next m₂ _ g₂. elim (Bool-cases (leb eoc next)) [
                    | inl end ↦ rw end (record { left = g₂ })
                    | inr more ↦ rw more (find_guarded fuel next name83 m₂ g₂)
                  ]))))
    | inr off ↦ rw (off, find_entry_in_dir) (record { left = g })
  ]

  pub release_guarded : (c : ℕ) (m : Fat32 S) → Kept m → Leaves (λ _. Unit) Kept (release c m)
  unfolding release
  release_guarded c m g = free_chain-Guarded v contents base law f (m.fs.max_data_cluster + 3) c m g

  pub undo_guarded :
      {A : Type 0} {P : A → Type 0} (c : ℕ) (m : Fat32 S) → Kept m → Leaves P Kept (undo c m)
  unfolding undo
  undo_guarded c m g =
      Leaves-then_run (caught (release c m)) (Leaves-caught (release c m) (release_guarded c m g))
        (λ _ m₁ _ g₁. record { left = g₁ })

  new_slot_guarded :
      (c : ℕ) (o : Option (Unit {0})) (m : Fat32 S)
      → cluster_is_valid v c ≡ true
      → Kept m
      → Leaves IsSlot Kept (new_slot c o m)
  unfolding new_slot
  new_slot_guarded c none m valid g = undo_guarded c m g
  new_slot_guarded c (some _) m valid g =
      on_mounted {P = IsSlot} (λ (w : Volume S). ok (cluster_to_lba w c, 0) m) g.fs
        (record { left = (first-IsData v contents base law f c valid, g) })

  extend_guarded : (c : ℕ) (m : Fat32 S) → Kept m → Leaves IsSlot Kept (extend_dir c m)
  unfolding extend_dir
  extend_guarded c m g =
      Leaves-then_run (alloc_cluster m) (alloc_cluster-Guarded v contents base law f m g)
        (λ n m₁ valid g₁.
          Leaves-then_run (caught (set_cluster_value c n m₁))
            (Leaves-caught (set_cluster_value c n m₁)
              (set_cluster_value-Guarded v contents base law f c n m₁ g₁))
            (λ o m₂ _ g₂. new_slot_guarded n o m₂ valid g₂))

  pub find_free_guarded :
      (fuel c : ℕ) (m : Fat32 S) → Kept m → Leaves IsSlot Kept (find_free_entry_in_dir fuel c m)
  unfolding find_free_entry_in_dir
  find_free_guarded zero c m g = record { left = tt }
  find_free_guarded (suc fuel) c m g = elim (Bool-cases (chain_goes_on c m)) [
    | inl on ↦
        rw (on, find_free_entry_in_dir)
          (Leaves-then_run (free_in_cluster m.fs.sectors_per_cluster 0 (cluster_to_lba m.fs c) m)
            (on_mounted
              (λ (w : Volume S). free_in_cluster w.sectors_per_cluster 0 (cluster_to_lba w c) m)
              g.fs
              (free_in_guarded c (goes_on_valid c m g on) v.sectors_per_cluster 0 m (omega arith)
                g))
            (λ o m₁ p g₁.
              Leaves-unless_some o (λ q. q) _ m₁ p g₁ (λ place q. q)
                (Leaves-then_run (next_cluster c m₁)
                  (next_cluster-Guarded v contents base law f c m₁ g₁)
                  (λ next m₂ _ g₂. elim (Bool-cases (leb eoc next)) [
                    | inl end ↦ rw end (extend_guarded c m₂ g₂)
                    | inr more ↦ rw more (
                        Leaves-then_run (guard (cluster_is_valid m.fs next) m₂)
                          (Leaves-guard (cluster_is_valid m.fs next) m₂ g₂)
                          (λ _ m₃ _ g₃. find_free_guarded fuel next m₃ g₃))
                  ]))))
    | inr off ↦ rw (off, find_free_entry_in_dir) (record { left = g })
  ]

  parent_guarded :
      (fuel c : ℕ) (m : Fat32 S) → Kept m → Leaves (λ _. Unit) Kept (get_parent_cluster fuel c m)
  unfolding get_parent_cluster
  parent_guarded fuel c m g = elim (Bool-cases (c == m.fs.root_cluster)) [
    | inl root ↦ rw root (record { left = (tt, g) })
    | inr below ↦ rw below (
        Leaves-then_run (caught (find_entry_in_dir fuel c dotdot_name m))
          (Leaves-caught (find_entry_in_dir fuel c dotdot_name m)
            (find_guarded fuel c dotdot_name m g))
          (λ o m₁ _ g₁. record { left = (tt, g₁) }))
  ]

  enter_guarded :
      (fuel : ℕ) (part : List ℕ) (cur : ℕ) (m : Fat32 S)
      → Kept m
      → Leaves (λ _. Unit) Kept (follow_part fuel part cur m)
  unfolding follow_part
  enter_guarded fuel part cur m g = elim (Bool-cases (is_dot part)) [
    | inl here ↦ rw here (record { left = (tt, g) })
    | inr other ↦ elim (Bool-cases (is_dotdot part)) [
      | inl up ↦ rw (other, up) (parent_guarded fuel cur m g)
      | inr down ↦
          rw (other, down)
            (Leaves-then_run (from_option (name_to_83 part) m)
              (Leaves-from_option (name_to_83 part) m g)
              (λ name83 m₁ _ g₁.
                Leaves-then_run (find_entry_in_dir fuel cur name83 m₁)
                  (find_guarded fuel cur name83 m₁ g₁)
                  (λ (_, _, entry) m₂ _ g₂.
                    Leaves-then_run (guard (is_directory entry) m₂)
                      (Leaves-guard (is_directory entry) m₂ g₂)
                      (λ _ m₃ _ g₃.
                        Leaves-then_run (guard (not (ltb (entry_first_cluster entry) 2)) m₃)
                          (Leaves-guard (not (ltb (entry_first_cluster entry) 2)) m₃ g₃)
                          (λ _ m₄ _ g₄. record { left = (tt, g₄) })))))
    ]
  ]

  resolve_loop_guarded :
      (left fuel : ℕ) (p : List ℕ) (cur : ℕ) (m : Fat32 S)
      → Kept m
      → Leaves (λ _. Unit) Kept (resolve_loop left fuel p cur m)
  unfolding resolve_loop
  resolve_loop_guarded zero fuel p cur m g = record { left = tt }
  resolve_loop_guarded (suc left) fuel p cur m g =
      Leaves-then_run (from_option (path_next_part p 16) m)
        (Leaves-from_option (path_next_part p 16) m g)
        (λ (part, np) m₁ _ g₁. elim (Bool-cases (is_empty part)) [
          | inl over ↦ rw over (record { left = (tt, g₁) })
          | inr more ↦ rw more (
              Leaves-then_run (follow_part fuel part cur m₁) (enter_guarded fuel part cur m₁ g₁)
                (λ next m₂ _ g₂. resolve_loop_guarded left fuel np next m₂ g₂))
        ])

  pub resolve_dir_guarded :
      (fuel : ℕ) (path : List ℕ) (m : Fat32 S)
      → Kept m
      → Leaves (λ _. Unit) Kept (resolve_dir_cluster fuel path m)
  unfolding resolve_dir_cluster
  resolve_dir_guarded fuel path m g =
      Leaves-then_run (guard m.fs.mounted m) (Leaves-guard m.fs.mounted m g) (λ _ m₁ _ g₁.
        elim (Bool-cases (is_root_path path)) [
          | inl root ↦ rw root (record { left = (tt, g₁) })
          | inr below ↦
              rw below (resolve_loop_guarded (length path + 1) fuel path m.fs.root_cluster m₁ g₁)
        ])

  leaf_loop_guarded :
      (left fuel : ℕ) (p : List ℕ) (cur : ℕ) (m : Fat32 S)
      → Kept m
      → Leaves (λ _. Unit) Kept (leaf_loop left fuel p cur m)
  unfolding leaf_loop
  leaf_loop_guarded zero fuel p cur m g = record { left = tt }
  leaf_loop_guarded (suc left) fuel p cur m g =
      Leaves-then_run (from_option (path_next_part p 16) m)
        (Leaves-from_option (path_next_part p 16) m g)
        (λ (part, np) m₁ _ g₁. elim (Bool-cases (is_empty part)) [
          | inl over ↦ rw over (record { left = (tt, g₁) })
          | inr more ↦ rw more (
              Leaves-then_run (from_option (path_next_part np 16) m₁)
                (Leaves-from_option (path_next_part np 16) m₁ g₁)
                (λ (check, _) m₂ _ g₂. elim (Bool-cases (is_empty check)) [
                  | inl last ↦ rw last (record { left = (tt, g₂) })
                  | inr inner ↦ rw inner (
                      Leaves-then_run (follow_part fuel part cur m₂)
                        (enter_guarded fuel part cur m₂ g₂)
                        (λ next m₃ _ g₃. leaf_loop_guarded left fuel np next m₃ g₃))
                ]))
        ])

  pub resolve_guarded :
      (fuel : ℕ) (path : List ℕ) (m : Fat32 S)
      → Kept m
      → Leaves (λ _. Unit) Kept (resolve_parent_and_leaf fuel path m)
  unfolding resolve_parent_and_leaf
  resolve_guarded fuel path m g =
      Leaves-then_run (guard m.fs.mounted m) (Leaves-guard m.fs.mounted m g) (λ _ m₁ _ g₁.
        Leaves-then_run (leaf_loop (length path + 1) fuel path m.fs.root_cluster m₁)
          (leaf_loop_guarded (length path + 1) fuel path m.fs.root_cluster m₁ g₁)
          (λ (cur, last) m₂ _ g₂.
            Leaves-then_run (guard (not (is_empty last)) m₂)
              (Leaves-guard (not (is_empty last)) m₂ g₂)
              (λ _ m₃ _ g₃.
                Leaves-then_run (guard (not (is_dot last || is_dotdot last)) m₃)
                  (Leaves-guard (not (is_dot last || is_dotdot last)) m₃ g₃)
                  (λ _ m₄ _ g₄.
                    Leaves-then_run (from_option (name_to_83 last) m₄)
                      (Leaves-from_option (name_to_83 last) m₄ g₄)
                      (λ name83 m₅ _ g₅. record { left = (tt, g₅) })))))
