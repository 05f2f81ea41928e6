-- ===== src/Fat32/Directory/Walk.antt =====
-- kernel/fat32.c, the walk along a path: it ends where no chain of clusters is a circle.
use tg11_os.Prelude.{
  ℕ, zero, suc, ◌+◌, ◌≤◌, ◌<◌, true, false, not, ◌||◌, Option, none, some, List, [], ◌∷◌, ltb, leb,
  ◌==◌, ◌≡◌, ap, inl, inr, Bool-cases, Option-cases, arith, length,
}
use tg11_os.Prelude.Actions.{
  Returns, Returns-then_run, Returns-weaken, Returns-caught, Returns-guard, Returns-from_option,
  caught,
}
use tg11_os.Block.{Sector}
use tg11_os.Fat32.{Volume, Fat32}
use tg11_os.Fat32.Table.{cluster_is_valid}
use tg11_os.Fat32.Table.Entries.{table}
use tg11_os.Fat32.Names.{
  is_slash, skip_separators, copy_part, path_next_part, is_dot, is_dotdot, is_empty, name_to_83,
}
use tg11_os.Fat32.Sectors.{is_directory, entry_first_cluster}
use tg11_os.Fat32.Directory.{
  Place, chain_goes_on, find_entry_in_dir, dotdot_name, parent_from, get_parent_cluster,
  follow_part, resolve_loop, is_root_path, resolve_dir_cluster, leaf_loop, resolve_parent_and_leaf,
}
use tg11_os.Fat32.Directory.Search.{Ends, Stays, find_entry_in_dir_lem}

skip_separators_le : (path : List ℕ) → length (skip_separators path) ≤ length path
unfolding skip_separators
skip_separators_le [] = omega arith
skip_separators_le (c ∷ path) = ground (arith, skip_separators_le path)

some_pair :
    {A B : Type 0} (a : A) (b : B) (c : A) (d : B)
    → ◌≡◌ {A = Option (A × B)} (some (a, b)) (some (c, d))
    → (a ≡ c) × (b ≡ d)
some_pair a b c d h = (cc, cc)

-- What follows a part of a path is shorter by the characters of the part.
copy_part_le :
    (path : List ℕ) (i out_sz : ℕ) (part rest : List ℕ)
    → copy_part path i out_sz ≡ some (part, rest)
    → length part + length rest ≤ length path
unfolding copy_part
copy_part_le [] i out_sz part rest h = ground arith
copy_part_le (c ∷ path) i out_sz part rest h = elim (Bool-cases (is_slash c)) [
  | inl slash ↦
      let (e, f) = some_pair [] (c ∷ path) part rest (ground arith) in
      omega (arith, ap (λ (t : List ℕ). length t) e, ap (λ (t : List ℕ). length t) f)
  | inr char ↦ elim (Bool-cases (leb out_sz (i + 1))) [
    | inl full ↦ absurd (ground arith)
    | inr room ↦ elim (Option-cases (copy_part path (i + 1) out_sz)) [
      | inl missing ↦ absurd (ground arith)
      | inr ((part', rest'), there) ↦
          let (e, f) = some_pair (c ∷ part') rest' part rest (ground arith) in
          omega (
            arith,
            ap (λ (t : List ℕ). length t) e,
            ap (λ (t : List ℕ). length t) f,
            copy_part_le path (i + 1) out_sz part' rest' there,
          )
    ]
  ]
]

path_next_part_lt :
    (path : List ℕ) (out_sz : ℕ) (part rest : List ℕ)
    → path_next_part path out_sz ≡ some (part, rest)
    → is_empty part ≡ false
    → length rest < length path
unfolding path_next_part
path_next_part_lt path out_sz [] rest h e = cc
path_next_part_lt path out_sz (c ∷ part) rest h e =
    omega (
      arith,
      skip_separators_le path,
      copy_part_le (skip_separators path) 0 out_sz (c ∷ part) rest h,
    )

parent_from_le : (root : ℕ) (place : Option Place) → 2 ≤ root → 2 ≤ parent_from root place
unfolding parent_from
parent_from_le root none h = h
parent_from_le root (some (lba, off, entry)) h = ground arith

module _ {S : Type 0} (v : Volume S) (contents : S → ℕ → Sector) (disk : ℕ → Sector) (fuel : ℕ)
    (ends : (c : ℕ) → cluster_is_valid v c ≡ true → Ends (table v disk) c (suc fuel)) where
  abbrev Kept : Fat32 S → Type 0
  Kept = Stays v contents disk

  root_le : (m : Fat32 S) → 2 ≤ v.root_cluster → Kept m → 2 ≤ m.fs.root_cluster
  root_le m root s = ground (arith, ap (λ (w : Volume S). w.root_cluster) s.fs)

  find_lem :
      (c : ℕ) (name83 : Sector) (m : Fat32 S)
      → Kept m
      → Returns (λ (place : Place). Kept) Kept (find_entry_in_dir (suc fuel) c name83 m)
  unfolding find_entry_in_dir chain_goes_on
  find_lem c name83 m s = elim (Bool-cases (chain_goes_on c m)) [
    | inl on ↦
        Returns-weaken (find_entry_in_dir (suc fuel) c name83 m)
          (find_entry_in_dir_lem v contents disk name83 (suc fuel) c m
            (ends c (ground (arith, ap (λ (w : Volume S). cluster_is_valid w c) s.fs))) s)
          (λ place m' (_, k). k) (λ m' k. k)
    | inr off ↦ rw (off, find_entry_in_dir) (record { ending = s })
  ]

  -- A cluster that a path leads to.
  abbrev pub Reached : ℕ → Fat32 S → Type 0
  Reached c m = (2 ≤ c) × Kept m

  get_parent_cluster_lem :
      (c : ℕ) (m : Fat32 S)
      → 2 ≤ v.root_cluster
      → Kept m
      → Returns Reached Kept (get_parent_cluster (suc fuel) c m)
  unfolding get_parent_cluster parent_from
  get_parent_cluster_lem c m root s = elim (Bool-cases (c == m.fs.root_cluster)) [
    | inl top ↦ rw (top, get_parent_cluster) (record { ending = (root_le m root s, s) })
    | inr below ↦
        rw (below, get_parent_cluster)
          (Returns-then_run (caught (find_entry_in_dir (suc fuel) c dotdot_name m))
            (Returns-caught {Q = λ _. Kept} {G = Kept}
              (find_entry_in_dir (suc fuel) c dotdot_name m) (find_lem c dotdot_name m s)
              (λ place m' k. k) (λ m' k. k))
            (λ place m' k. record {
              ending = (parent_from_le m.fs.root_cluster place (root_le m root s), k);
            })
            (λ m' k. k))
  ]

  follow_part_lem :
      (part : List ℕ) (c : ℕ) (m : Fat32 S)
      → 2 ≤ v.root_cluster
      → Reached c m
      → Returns Reached Kept (follow_part (suc fuel) part c m)
  unfolding follow_part
  follow_part_lem part c m root s = elim (Bool-cases (is_dot part)) [
    | inl dot ↦ rw (dot, follow_part) (record { ending = s })
    | inr plain ↦ elim (Bool-cases (is_dotdot part)) [
      | inl up ↦ rw (plain, up, follow_part) (get_parent_cluster_lem c m root s.1)
      | inr down ↦
          rw (plain, down, follow_part)
            (Returns-from_option (name_to_83 part) _
              (λ name83 _.
                Returns-then_run (find_entry_in_dir (suc fuel) c name83 m) (find_lem c name83 m s.1)
                  (λ place m₁ k.
                    Returns-guard (is_directory place.2) _
                      (λ _.
                        Returns-guard (not (ltb (entry_first_cluster place.2) 2)) _
                          (λ h. record { ending = (ground arith, k) }) k)
                      k)
                  (λ m₁ k. k))
              s.1)
    ]
  ]

  resolve_loop_lem :
      (left : ℕ) (p : List ℕ) (c : ℕ) (m : Fat32 S)
      → 2 ≤ v.root_cluster
      → length p < left
      → Reached c m
      → Returns Reached Kept (resolve_loop left (suc fuel) p c m)
  unfolding resolve_loop
  resolve_loop_lem zero p c m root h s = absurd (omega arith)
  resolve_loop_lem (suc left) p c m root h s =
      Returns-from_option (path_next_part p 16) _
        (λ (part, np) next. elim (Bool-cases (is_empty part)) [
          | inl end ↦ rw end (record { ending = s })
          | inr more ↦ rw more (
              Returns-then_run (follow_part (suc fuel) part c m) (follow_part_lem part c m root s)
                (λ c' m₁ s'.
                  resolve_loop_lem left np c' m₁ root
                    (omega (arith, path_next_part_lt p 16 part np next more)) s')
                (λ m₁ k. k))
        ])
        s.1

  leaf_loop_lem :
      (left : ℕ) (p : List ℕ) (c : ℕ) (m : Fat32 S)
      → 2 ≤ v.root_cluster
      → length p < left
      → Reached c m
      → Returns (λ a m'. Reached a.0 m') Kept (leaf_loop left (suc fuel) p c m)
  unfolding leaf_loop
  leaf_loop_lem zero p c m root h s = absurd (omega arith)
  leaf_loop_lem (suc left) p c m root h s =
      Returns-from_option (path_next_part p 16) _
        (λ (part, np) next. elim (Bool-cases (is_empty part)) [
          | inl end ↦ rw end (record { ending = s })
          | inr more ↦ rw more (
              Returns-from_option (path_next_part np 16) _
                (λ (check, rest) _. elim (Bool-cases (is_empty check)) [
                  | inl leaf ↦ rw leaf (record { ending = s })
                  | inr inner ↦ rw inner (
                      Returns-then_run (follow_part (suc fuel) part c m)
                        (follow_part_lem part c m root s)
                        (λ c' m₁ s'.
                          leaf_loop_lem left np c' m₁ root
                            (omega (arith, path_next_part_lt p 16 part np next more)) s')
                        (λ m₁ k. k))
                ])
                s.1)
        ])
        s.1

  -- On a disk on which no chain of clusters is a circle, the search for a directory by its path
  -- comes to an end, and changes neither the volume nor the disk.
  pub resolve_dir_cluster_lem :
      (path : List ℕ) (m : Fat32 S)
      → 2 ≤ v.root_cluster
      → Kept m
      → Returns Reached Kept (resolve_dir_cluster (suc fuel) path m)
  unfolding resolve_dir_cluster
  resolve_dir_cluster_lem path m root s =
      Returns-guard m.fs.mounted _
        (λ on. elim (Bool-cases (is_root_path path)) [
          | inl top ↦ rw top (record { ending = (root_le m root s, s) })
          | inr below ↦ rw below (
              resolve_loop_lem (length path + 1) path m.fs.root_cluster m root (omega arith)
                (root_le m root s, s))
        ])
        s

  -- So does the search for the directory of a path's last part.
  pub resolve_parent_and_leaf_lem :
      (path : List ℕ) (m : Fat32 S)
      → 2 ≤ v.root_cluster
      → Kept m
      → Returns (λ a m'. Reached a.0 m') Kept (resolve_parent_and_leaf (suc fuel) path m)
  unfolding resolve_parent_and_leaf
  resolve_parent_and_leaf_lem path m root s =
      Returns-guard m.fs.mounted _
        (λ on.
          Returns-then_run (leaf_loop (length path + 1) (suc fuel) path m.fs.root_cluster m)
            (leaf_loop_lem (length path + 1) path m.fs.root_cluster m root (omega arith)
              (root_le m root s, s))
            (λ (cur, last) m₁ s'.
              Returns-guard (not (is_empty last)) _
                (λ _.
                  Returns-guard (not (is_dot last || is_dotdot last)) _
                    (λ _.
                      Returns-from_option (name_to_83 last) _ (λ name83 _. record { ending = s' })
                        s'.1)
                    s'.1)
                s'.1)
            (λ m₁ k. k))
        s
