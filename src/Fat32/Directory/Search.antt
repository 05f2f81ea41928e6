-- ===== src/Fat32/Directory/Search.antt =====
-- kernel/fat32.c, what fat32_find_entry_in_dir finds, on a chain that comes to an end.
use mathlib.Core.Path.{subst}
use tg11_os.Prelude.{
  ℕ, zero, suc, ◌+◌, ◌*◌, ◌≤◌, ◌<◌, true, false, ◌||◌, Option, none, some, leb, ◌==◌, ◌≡◌, ◌≢◌,
  refl, sym, ap, ◌∙◌, inl, inr, Bool-cases, ◌⊎◌, arith, u32,
}
use tg11_os.Prelude.Actions.{Action, Returns, Returns-then_run, unless_some}
use tg11_os.Block.{Sector}
use tg11_os.Fat32.{Volume, Fat32, read_sector_cached}
use tg11_os.Fat32.Cached.{image, IsReady, IsSame, read_sector_cached_lem}
use tg11_os.Fat32.Table.{eoc, cluster_to_lba, next_cluster}
use tg11_os.Fat32.Table.Entries.{table, next_cluster_lem}
use tg11_os.Fat32.Sectors.{attr_lfn, deleted, entry_at}
use tg11_os.Fat32.Directory.{
  name_matches, Scan, at_end, found, nothing, scan_find, Place, scan_result, find_in_cluster,
  chain_goes_on, find_entry_in_dir,
}

name_matches_lem :
    (left i : ℕ) (entry name83 : Sector)
    → name_matches left i entry name83 ≡ true
    → (j : ℕ) → i ≤ j
    → j < i + left
    → entry j ≡ name83 j
unfolding name_matches
name_matches_lem zero i entry name83 h j low high = absurd (omega arith)
name_matches_lem (suc left) i entry name83 h j low high = elim (Bool-cases (i == j)) [
  | inl same ↦ ground arith
  | inr other ↦
      name_matches_lem left (i + 1) entry name83 (ground arith) j (ground arith) (omega arith)
]

-- A place in a sector at which an entry in use has this name.
pub record IsNamed (name83 sec : Sector) (off : ℕ) : Type 0 where
  pub within : off + 32 ≤ 512
  pub in_use : sec off ≢ 0
  pub not_deleted : sec off ≢ deleted
  pub not_lfn : sec (off + 11) ≢ attr_lfn
  pub name : (i : ℕ) → i < 11 → sec (off + i) ≡ name83 i

scan_find-IsNamed :
    (left off : ℕ) (name83 sec : Sector) (at : ℕ)
    → off + left * 32 ≤ 512
    → scan_find left off name83 sec ≡ found at
    → IsNamed name83 sec at
unfolding scan_find
scan_find-IsNamed zero off name83 sec at h e = cc
scan_find-IsNamed (suc left) off name83 sec at h e = elim (Bool-cases (sec off == 0)) [
  | inl end ↦ absurd (ground arith)
  | inr more ↦ elim (Bool-cases (sec off == deleted || sec (off + 11) == attr_lfn)) [
    | inl skip ↦ scan_find-IsNamed left (off + 32) name83 sec at (omega arith) (ground arith)
    | inr live ↦ elim (Bool-cases (name_matches 11 0 (entry_at sec off) name83)) [
      | inl same ↦
          let here_at : at ≡ off = ground arith in
          rw here_at (record {
            within = omega arith;
            in_use = ground arith;
            not_deleted = ground arith;
            not_lfn = ground arith;
            name = λ i hi. name_matches_lem 11 0 (entry_at sec off) name83 same i (omega arith) hi;
          })
      | inr other ↦ scan_find-IsNamed left (off + 32) name83 sec at (omega arith) (ground arith)
    ]
  ]
]

-- An entry on the disk with this name, at its place.
pub record IsFound (disk : ℕ → Sector) (name83 : Sector) (place : Place) : Type 0 where
  pub named : IsNamed name83 (disk place.0) place.1
  pub entry_is : place.2 ≡ entry_at (disk place.0) place.1

-- The chain from a cluster comes to an end, after this number of clusters or fewer.
abbrev pub Ends : (ℕ → ℕ) → ℕ → ℕ → Type 0
Ends next c zero = ⊥
Ends next c (suc n) = (leb eoc (next c) ≡ true) ⊎ Ends next (next c) n

abbrev OnFound : (ℕ → Sector) → Sector → Option Place → Type 0
OnFound disk name83 none = Unit {0}
OnFound disk name83 (some place) = IsFound disk name83 place

module _ {S : Type 0} (v : Volume S) (contents : S → ℕ → Sector) (disk : ℕ → Sector) where
  -- The volume and the disk, which a search leaves as they are.
  pub record Stays (m : Fat32 S) : Type 0 where
    pub fs : m.fs ≡ v
    pub image_is : image contents m ≡ disk
    pub ready : IsReady contents m

  pub IsSame-Stays : (m m' : Fat32 S) → Stays m → IsSame contents m m' → Stays m'
  IsSame-Stays m m' s h = record {
    fs = h.fs ∙ s.fs;
    image_is = h.disk ∙ s.image_is;
    ready = h.ready;
  }

  module _ (name83 : Sector) where
    abbrev Found : Option Place → Fat32 S → Type 0
    Found o m = OnFound disk name83 o × Stays m

    scan_result_lem :
        (lba : ℕ) (sec : Sector) (scan : Scan) (m : Fat32 S)
        → Stays m
        → sec ≡ disk lba
        → ((off : ℕ) → scan ≡ found off → IsNamed name83 sec off)
        → Returns Found Stays (scan_result lba sec scan m)
    unfolding scan_result
    scan_result_lem lba sec at_end m s e h = record { ending = s }
    scan_result_lem lba sec (found off) m s e h = record {
      ending = (
        record {
          named = subst (λ (t : Sector). IsNamed name83 t off) e (h off refl);
          entry_is = ap (λ (t : Sector). entry_at t off) e;
        },
        s,
      );
    }
    scan_result_lem lba sec nothing m s e h = record { ending = (tt, s) }

    unless_some_lem :
        {B : Type 0} {Q : B → Fat32 S → Type 0} (give : Place → B) (o : Option Place)
        (rest : Action (Fat32 S) B) (m : Fat32 S)
        → Found o m
        → ((place : Place) → IsFound disk name83 place → Stays m → Q (give place) m)
        → Returns Q Stays (rest m)
        → Returns Q Stays (unless_some o give rest m)
    unless_some_lem give none rest m (f, s) made next = next
    unless_some_lem give (some place) rest m (f, s) made next = record { ending = made place f s }

    find_in_cluster_lem :
        (left s base : ℕ) (m : Fat32 S)
        → Stays m
        → Returns Found Stays (find_in_cluster left s base name83 m)
    unfolding find_in_cluster
    find_in_cluster_lem zero s base m st = record { ending = (tt, st) }
    find_in_cluster_lem (suc left) s base m st =
        let lba = u32 (base + s) in
        Returns-then_run (read_sector_cached lba false m)
          (read_sector_cached_lem contents lba false m st.ready)
          (λ sec m₁ (at, same).
            Returns-then_run (scan_result lba sec (scan_find 16 0 name83 sec) m₁)
              (scan_result_lem lba sec (scan_find 16 0 name83 sec) m₁ (IsSame-Stays m m₁ st same)
                (at ∙ ap (λ (t : ℕ → Sector). t lba) st.image_is)
                (λ off. scan_find-IsNamed 16 0 name83 sec off (omega arith)))
              (λ o m₂ f.
                unless_some_lem some o _ m₂ f (λ place h st. (h, st))
                  (find_in_cluster_lem left (s + 1) base m₂ f.1))
              (λ m₂ h. h))
          (λ m₁ same. IsSame-Stays m m₁ st same)

    rest-Ends :
        (n c next : ℕ)
        → next ≡ table v disk c
        → leb eoc next ≡ false
        → Ends (table v disk) c (suc n)
        → Ends (table v disk) next n
    rest-Ends n c next at more (inl end) = absurd (cc)
    rest-Ends n c next at more (inr e) = subst (λ (t : ℕ). Ends (table v disk) t n) (sym at) e

    -- On a chain that ends within the fuel the search comes to an end. It changes neither the
    -- volume nor the disk. An entry that it gives is on the disk, in use, and has the name.
    pub find_entry_in_dir_lem :
        (n c : ℕ) (m : Fat32 S)
        → Ends (table v disk) c n
        → Stays m
        → Returns
            (λ place m'. IsFound disk name83 place × Stays m')
            Stays
            (find_entry_in_dir n c name83 m)
    unfolding find_entry_in_dir
    find_entry_in_dir_lem zero c m e s = absurd e
    find_entry_in_dir_lem (suc n) c m e s = elim (Bool-cases (chain_goes_on c m)) [
      | inl on ↦
          rw (on, find_entry_in_dir)
            (Returns-then_run
              (find_in_cluster m.fs.sectors_per_cluster 0 (cluster_to_lba m.fs c) name83 m)
              (find_in_cluster_lem m.fs.sectors_per_cluster 0 (cluster_to_lba m.fs c) m s)
              (λ o m₁ f.
                unless_some_lem (λ p. p) o _ m₁ f (λ place h st. (h, st))
                  (Returns-then_run (next_cluster c m₁)
                    (next_cluster_lem v contents c m₁ f.1.fs f.1.ready)
                    (λ next m₂ (at, _, _, same). elim (Bool-cases (leb eoc next)) [
                      | inl end ↦ rw end (record { ending = IsSame-Stays m₁ m₂ f.1 same })
                      | inr more ↦ rw more (
                          find_entry_in_dir_lem n next m₂
                            (rest-Ends n c next
                              (at ∙ ap (λ (t : ℕ → Sector). table v t c) f.1.image_is) more e)
                            (IsSame-Stays m₁ m₂ f.1 same))
                    ])
                    (λ m₂ same. IsSame-Stays m₁ m₂ f.1 same)))
              (λ m₁ h. h))
      | inr off ↦ rw (off, find_entry_in_dir) (record { ending = s })
    ]
