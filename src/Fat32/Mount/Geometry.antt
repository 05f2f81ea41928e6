-- ===== src/Fat32/Mount/Geometry.antt =====
-- kernel/fat32.c, mount: what holds of the volume when it succeeds, and what is left when it fails.
use Prim.Native.String.{String}
use text.Mathlib.Text.{◌==◌ as ◌=?◌}
use text.Mathlib.TextEquality.{eq_iff}
use native.Mathlib.Nat.{div-le_self, div-mul-le_self}
use tg11_os.Prelude.{
  ℕ, ◌+◌, ◌*◌, ◌/◌, ◌-◌, ◌^◌, ◌≤◌, ◌<◌, Bool, true, false, not, ◌||◌, Option, none, some, ltb, leb,
  ◌==◌, u32, ◌≡◌, ◌≢◌, refl, sym, ap, ◌∙◌, inl, inr, Bool-cases, Option-cases, arith,
}
use tg11_os.Prelude.Actions.{Action, then_run, Returns, Returns-then_run, Returns-weaken}
use tg11_os.Block.{Sector, BlockDevice, IsLawful}
use tg11_os.Fat32.{Volume, Fat32, cache_of, flush_cache, set_error, clear_error}
use tg11_os.Fat32.Bytes.{rd32, rd16_bound, rd32_bound}
use tg11_os.Fat32.Cached.{IsReady, IsCoherent, image, cache_clear-IsCoherent}
use tg11_os.Fat32.Table.{cluster_is_valid}
use tg11_os.Fat32.Mount.{
  is_signed, boot_is_fat32, fail_with, ensure, usable, answered, read_raw, partition_boot,
  boot_sector, set_bpb, data_start_rel, set_clusters, set_last, set_areas, derive_fields, unmark,
  mount,
}

-- The volume after a mount.
pub record IsMounted {S : Type 0} (v : Volume S) : Type 0 where
  pub mounted : v.mounted ≡ true
  pub sector_size : v.bytes_per_sector ≡ 512
  pub has_sectors : 0 < v.sectors_per_cluster
  pub has_copy : 0 < v.fat_count
  pub has_table : 0 < v.sectors_per_fat
  pub root : cluster_is_valid v v.root_cluster ≡ true
  pub last : v.max_data_cluster ≡ v.data_clusters + 1
  pub inside : data_start_rel v + v.data_clusters * v.sectors_per_cluster ≤ v.total_sectors
  pub fat_start : v.fat_start_lba ≡ u32 (v.start_lba + v.reserved_sectors)
  pub data_start : v.data_start_lba ≡ u32 (v.fat_start_lba + u32 (v.fat_count * v.sectors_per_fat))

says : {msg : String} → (msg =? "") ≡ false → msg ≢ ""
says {msg} h = ground (arith, eq_iff msg "")

module _ {S : Type 0} where
  -- A mount that fails leaves no volume, and says why.
  pub record IsRefused (m : Fat32 S) : Type 0 where
    pub mounted : m.fs.mounted ≡ false
    pub reason : m.last_error ≢ ""

  refused :
      (msg : String) (m : Fat32 S) → m.fs.mounted ≡ false → msg ≢ "" → IsRefused (set_error msg m)
  unfolding set_error
  refused msg m h ne = record { mounted = h; reason = ne }

  Returns-ensure :
      {B : Type 0} {Q : B → Fat32 S → Type 0} (b : Bool) (msg : String) (m : Fat32 S)
      (f : Unit {0} → Action (Fat32 S) B)
      → m.fs.mounted ≡ false
      → msg ≢ ""
      → (b ≡ true → Returns Q IsRefused (f tt m))
      → Returns Q IsRefused (then_run (ensure b msg m) f)
  unfolding ensure fail_with
  Returns-ensure true msg m f h ne next = next refl
  Returns-ensure false msg m f h ne next = record { ending = refused msg m h ne }

  -- No cache holds a sector, whatever is on the disk.
  abbrev IsFlushed : Fat32 S → Type 0
  IsFlushed m = (b : Bool) (disk : ℕ → Sector) → IsCoherent disk (cache_of b m)

  no_slot_valid : (m : Fat32 S) → IsFlushed (flush_cache m)
  unfolding flush_cache cache_of
  no_slot_valid m true disk = cache_clear-IsCoherent disk m.fat_cache
  no_slot_valid m false disk = cache_clear-IsCoherent disk m.data_cache

  derive_fields_lem :
      (m : Fat32 S)
      → m.fs.mounted ≡ false
      → m.fs.total_sectors < 2 ^ 32
      → Returns
          (λ _ m'.
            IsMounted m'.fs
            × (m'.last_error ≡ "")
            × (m'.fs.dev ≡ m.fs.dev)
            × (m'.disk ≡ m.disk)
            × IsFlushed m')
          IsRefused
          (derive_fields m)
  unfolding derive_fields set_clusters set_last set_areas clear_error flush_cache cluster_is_valid
      data_start_rel cache_of
  derive_fields_lem m off small =
      Returns-ensure (m.fs.bytes_per_sector == 512) "mount: unsupported sector size" m _ off
        (says refl)
        (λ a.
          Returns-ensure
            (not (
              m.fs.sectors_per_cluster == 0
              || m.fs.fat_count == 0
              || m.fs.sectors_per_fat == 0
              || ltb m.fs.root_cluster 2))
            "mount: invalid FAT32 BPB fields" m _ off (says refl)
            (λ b.
              Returns-ensure (not (m.fs.total_sectors == 0)) "mount: total sectors is zero" m _ off
                (says refl)
                (λ c.
                  Returns-ensure (ltb (data_start_rel m.fs) m.fs.total_sectors)
                    "mount: data area outside volume" m _ off (says refl)
                    (λ d.
                      Returns-ensure
                        (leb m.fs.sectors_per_cluster (m.fs.total_sectors - data_start_rel m.fs))
                        "mount: data area too small" m _ off (says refl)
                        (λ e.
                          Returns-ensure
                            (not (
                              (m.fs.total_sectors - data_start_rel m.fs) / m.fs.sectors_per_cluster
                              == 0))
                            "mount: zero data clusters" (set_clusters m.fs m) _ off (says refl)
                            (λ g.
                              Returns-ensure
                                (cluster_is_valid (set_last (set_clusters m.fs m)).fs
                                  m.fs.root_cluster)
                                "mount: root cluster out of range" (set_last (set_clusters m.fs m))
                                _ off (says refl)
                                (λ h. record {
                                  ending = (
                                    record {
                                      mounted = refl;
                                      sector_size = ground arith;
                                      has_sectors = ground arith;
                                      has_copy = ground arith;
                                      has_table = ground arith;
                                      root = h;
                                      last = ground (
                                        arith,
                                        div-le_self (m.fs.total_sectors - data_start_rel m.fs)
                                            m.fs.sectors_per_cluster,
                                      );
                                      inside = ground (
                                        arith,
                                        div-mul-le_self (m.fs.total_sectors - data_start_rel m.fs)
                                            m.fs.sectors_per_cluster,
                                      );
                                      fat_start = refl;
                                      data_start = refl;
                                    },
                                    refl,
                                    refl,
                                    refl,
                                    no_slot_valid (set_areas (set_last (set_clusters m.fs m))),
                                  );
                                })))))))

  usable_lem :
      (dev : Option (BlockDevice S)) (m : Fat32 S)
      → m.fs.mounted ≡ false
      → Returns (λ _ m'. m' ≡ m) IsRefused (usable dev m)
  unfolding usable fail_with
  usable_lem none m off = record { ending = refused _ m off (says refl) }
  usable_lem (some d) m off = elim (Bool-cases d.present) [
    | inl there ↦ elim (Option-cases d.read_sector) [
      | inl missing ↦ rw (there, missing) (record { ending = refused _ m off (says refl) })
      | inr (read, has) ↦ rw (there, has) (record { ending = refl })
    ]
    | inr absent ↦ rw absent (record { ending = refused _ m off (says refl) })
  ]

  answered_lem :
      (msg : String) (o : Option Sector × S) (m : Fat32 S)
      → m.fs.mounted ≡ false
      → msg ≢ ""
      → Returns (λ _ m'. m'.fs ≡ m.fs) IsRefused (answered msg o m)
  unfolding answered
  answered_lem msg (none, disk) m off ne = record {
    ending = refused msg (record m { disk = disk }) off ne;
  }
  answered_lem msg (some sec, disk) m off ne = record { ending = refl }

  partition_boot_lem :
      (read : ℕ → S → Option Sector × S) (sec : Sector) (m : Fat32 S)
      → m.fs.mounted ≡ false
      → Returns (λ _ m'. m'.fs.mounted ≡ false) IsRefused (partition_boot read sec m)
  unfolding partition_boot read_raw
  partition_boot_lem read sec m off =
      Returns-ensure (is_signed sec) "mount: invalid MBR signature" m _ off (says refl) (λ _.
        Returns-ensure (not (rd32 sec 454 == 0)) "mount: no active FAT partition" m _ off
          (says refl)
          (λ _.
            Returns-then_run
              (answered "mount: read partition boot failed" (read (rd32 sec 454) m.disk) m)
              (answered_lem "mount: read partition boot failed" (read (rd32 sec 454) m.disk) m off
                (says refl))
              (λ boot m' e.
                Returns-ensure (boot_is_fat32 boot) "mount: partition is not FAT32" m' _
                  (ap (λ (w : Volume S). w.mounted) e ∙ off) (says refl)
                  (λ _. record { ending = ap (λ (w : Volume S). w.mounted) e ∙ off }))
              (λ m' h. h)))

  boot_sector_lem :
      (read : ℕ → S → Option Sector × S) (m : Fat32 S)
      → m.fs.mounted ≡ false
      → Returns (λ _ m'. m'.fs.mounted ≡ false) IsRefused (boot_sector read m)
  unfolding boot_sector read_raw
  boot_sector_lem read m off =
      Returns-then_run (answered "mount: read boot sector failed" (read 0 m.disk) m)
        (answered_lem "mount: read boot sector failed" (read 0 m.disk) m off (says refl))
        (λ sec m' e.
          let off' = ap (λ (w : Volume S). w.mounted) e ∙ off in
          elim (Bool-cases (boot_is_fat32 sec)) [
            | inl whole ↦ rw whole (record { ending = off' })
            | inr parts ↦ rw parts (partition_boot_lem read sec m' off')
          ])
        (λ m' h. h)

  -- A mount succeeds with a sound volume and empty caches, or fails with no volume and a reason.
  pub mount_lem :
      (contents : S → ℕ → Sector) (dev : Option (BlockDevice S)) (m : Fat32 S)
      → ((d : BlockDevice S) → dev ≡ some d → IsLawful contents d)
      → Returns
          (λ _ m'. IsMounted m'.fs × (m'.last_error ≡ "") × (m'.fs.dev ≡ dev) × IsReady contents m')
          IsRefused
          (mount dev m)
  unfolding mount unmark clear_error set_bpb
  mount_lem contents dev m lawful =
      Returns-then_run (usable dev (unmark m)) (usable_lem dev (unmark m) refl)
        (λ read m₁ e.
          Returns-then_run (boot_sector read m₁)
            (boot_sector_lem read m₁ (ap (λ (x : Fat32 S). x.fs.mounted) e))
            (λ (start, sec) m₂ off.
              Returns-weaken (derive_fields (set_bpb dev start sec m₂))
                (derive_fields_lem (set_bpb dev start sec m₂) off
                  (ground (arith, rd16_bound sec 19, rd32_bound sec 32)))
                (λ _ m₃ (v, said, device, _, flushed). (
                  v,
                  said,
                  device,
                  record {
                    lawful = λ d is. lawful d (sym device ∙ is);
                    coherent = λ b. flushed b (image contents m₃);
                  },
                ))
                (λ m₃ h. h))
            (λ m₂ h. h))
        (λ m₁ h. h)
