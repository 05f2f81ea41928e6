-- ===== src/Fat32/Table/Entries.antt =====
-- kernel/fat32.c, the table as a function from clusters to values, which next_cluster reads and
-- set_cluster_value updates.
use mathlib.Core.Path.{subst}
use tg11_os.Prelude.{
  ℕ, ◌+◌, ◌%◌, ◌^◌, ◌≤◌, true, ◌&&◌, ltb, leb, ◌==◌, if◌then◌else◌, ◌≡◌, refl, sym, ap, ◌∙◌, arith,
}
use tg11_os.Prelude.Actions.{
  Outcome, ◌>>◌, Returns, Returns-then_run, Returns-weaken, Returns-guard,
}
use tg11_os.Block.{Sector}
use tg11_os.Fat32.{Volume, Fat32, read_sector_cached}
use tg11_os.Fat32.Cached.{image, IsReady, IsSame, read_sector_cached_lem}
use tg11_os.Fat32.Table.{
  cluster_is_valid, fat_sector, off_fits, value_is_sane, entry_value, next_cluster, next_in,
  set_value_in, set_cluster_value,
}
use tg11_os.Fat32.Table.Copies.{IsFormatted, copy_value, IsPut, set_copies_lem}

-- What holds of the volume that is mounted.
pub on_volume :
    {S A : Type 0} {P : A → Fat32 S → Type 0} {F : Fat32 S → Type 0}
    (o : Volume S → Outcome (Fat32 S) A) {u v : Volume S}
    → u ≡ v
    → Returns P F (o v)
    → Returns P F (o u)
on_volume {P = P} {F = F} o e r = subst (λ w. Returns P F (o w)) (sym e) r

module _ {S : Type 0} (v : Volume S) where
  -- The value of a cluster in the first copy of the table, the one that is read.
  abbrev pub table : (ℕ → Sector) → ℕ → ℕ
  table disk = copy_value v disk 0

  pub cluster_is_valid_le :
      (c : ℕ) → cluster_is_valid v c ≡ true → (2 ≤ c) × (c ≤ v.max_data_cluster)
  unfolding cluster_is_valid
  cluster_is_valid_le c h = ground arith

  module _ (contents : S → ℕ → Sector) where
    -- `next_cluster` reads the table.
    pub next_cluster_lem :
        (c : ℕ) (m : Fat32 S)
        → m.fs ≡ v
        → IsReady contents m
        → Returns
            (λ value m'.
              (value ≡ table (image contents m) c)
              × (cluster_is_valid v c ≡ true)
              × (value_is_sane v value ≡ true)
              × IsSame contents m m')
            (IsSame contents m)
            (next_cluster c m)
    unfolding next_cluster next_in
    next_cluster_lem c m e r =
        on_volume (λ w. next_in w c m) e
          (Returns-guard (cluster_is_valid v c) _
            (λ valid.
              Returns-then_run (read_sector_cached (fat_sector v 0 c) true m)
                (read_sector_cached_lem contents (fat_sector v 0 c) true m r)
                (λ sec m' (at, same).
                  Returns-guard (off_fits v c) _
                    (λ _.
                      Returns-guard (value_is_sane v (entry_value v c sec)) _
                        (λ sane. record { ending = (ap (entry_value v c) at, valid, sane, same) })
                        same)
                    same)
                (λ m' same. same))
            (record { fs = refl; disk = refl; ready = r }))

    -- `set_cluster_value` updates it, in every copy.
    pub set_cluster_value_lem :
        (c value : ℕ) (m : Fat32 S)
        → IsFormatted v
        → m.fs ≡ v
        → IsReady contents m
        → Returns
            (λ _ m'. IsPut v contents (λ k. leb 0 k && ltb k (0 + v.fat_count)) c value m m')
            (λ m'. m'.fs ≡ v)
            (set_cluster_value c value m)
    unfolding set_cluster_value set_value_in
    set_cluster_value_lem c value m f e r =
        on_volume (λ w. set_value_in w c value m) e
          (Returns-guard (cluster_is_valid v c) _
            (λ valid.
              Returns-guard (value_is_sane v value) _
                (λ _.
                  Returns-guard (off_fits v c) _
                    (λ _.
                      set_copies_lem v contents f c value (cluster_is_valid_le c valid).1
                        v.fat_count 0 m (omega arith) e r)
                    e)
                e)
            e)

    -- A value that is put in the table is read back, and all other entries read as before.
    pub next_cluster-set_cluster_value :
        (c value j : ℕ) (m : Fat32 S)
        → IsFormatted v
        → m.fs ≡ v
        → IsReady contents m
        → Returns
            (λ next m'.
              (next ≡ (if c == j then value % 2 ^ 28 else table (image contents m) j))
              × IsReady contents m')
            (λ m'. m'.fs ≡ v)
            ((set_cluster_value c value >> next_cluster j) m)
    next_cluster-set_cluster_value c value j m f e r =
        Returns-then_run (set_cluster_value c value m) (set_cluster_value_lem c value m f e r)
          (λ _ m₁ p.
            Returns-weaken (next_cluster j m₁) (next_cluster_lem j m₁ p.fs p.ready)
              (λ next m₂ (at, valid, _, same). (
                at
                    ∙ p.entries 0 j f.has_copy (cluster_is_valid_le j valid).1
                    ∙ ground (arith, f.has_copy),
                same.ready,
              ))
              (λ m₂ same. same.fs ∙ p.fs))
          (λ m₁ h. h)
