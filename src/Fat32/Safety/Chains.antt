-- ===== src/Fat32/Safety/Chains.antt =====
-- kernel/fat32.c, what the chain of a file that is written may change.
use Prim.Native.String.{String}
use tg11_os.Prelude.{
  ℕ, zero, suc, ◌+◌, ◌≤◌, ◌<◌, true, false, ◌&&◌, ltb, leb, Option, none, some, ◌==◌, if◌then◌else◌,
  ◌≡◌, ◌⊎◌, inl, inr, Bool-cases, arith, u32,
}
use tg11_os.Prelude.Actions.{caught}
use tg11_os.Block.{Sector, BlockDevice, IsLawful}
use tg11_os.Fat32.{Volume, Fat32, write_sector_uncached}
use tg11_os.Fat32.Table.{
  eoc, end_mark, cluster_to_lba, cluster_is_valid, value_is_sane, next_cluster, set_cluster_value,
  alloc_cluster,
}
use tg11_os.Fat32.Table.Copies.{IsFormatted}
use tg11_os.Fat32.Sectors.{or_error}
use tg11_os.Fat32.Directory.{release}
use tg11_os.Fat32.Files.{
  data_sector, later, undo_with, undo_chain, or_undo_chain, link_after, alloc_chain, end_chain,
  write_cluster, write_chain,
}
use tg11_os.Fat32.Safety.{
  Leaves, OnSome, Leaves-then_run, Leaves-caught, IsGuarded, on_mounted,
  write_sector_uncached-IsGuarded,
}
use tg11_os.Fat32.Safety.Tables.{
  next_cluster-Guarded, set_cluster_value-Guarded, alloc_cluster-Guarded, data-IsInside,
  sector-IsData,
}
use tg11_os.Fat32.Safety.Paths.{release_guarded}
use tg11_os.Fat32.Safety.Writing.{or_guarded, fail_with_guarded}

module _ {S : Type 0} (v : Volume S) (contents : S → ℕ → Sector) (base : ℕ → Sector)
    (law : (d : BlockDevice S) → v.dev ≡ some d → IsLawful contents d) (f : IsFormatted v) where
  abbrev Kept : Fat32 S → Type 0
  Kept = IsGuarded v contents base

  -- No cluster, or a valid one.
  abbrev pub IsTail : ℕ → Type 0
  IsTail c = (c < 2) ⊎ (cluster_is_valid v c ≡ true)

  undo_with_guarded :
      {A : Type 0} {P : A → Type 0} (c : ℕ) (msg : String) (m : Fat32 S)
      → Kept m
      → Leaves P Kept (undo_with c msg m)
  unfolding undo_with
  undo_with_guarded c msg m g =
      Leaves-then_run (caught (release c m))
        (Leaves-caught (release c m) (release_guarded v contents base law f c m g))
        (λ _ m₁ _ g₁. fail_with_guarded v contents base law f msg m₁ g₁)

  undo_chain_guarded :
      {A : Type 0} {P : A → Type 0} (first : ℕ) (msg : String) (m : Fat32 S)
      → Kept m
      → Leaves P Kept (undo_chain first msg m)
  unfolding undo_chain
  undo_chain_guarded first msg m g = elim (Bool-cases (leb 2 first)) [
    | inl some_chain ↦ rw some_chain (undo_with_guarded first msg m g)
    | inr no_chain ↦ rw no_chain (fail_with_guarded v contents base law f msg m g)
  ]

  or_undo_guarded :
      {A : Type 0} {P : A → Type 0} (first : ℕ) (msg : String) (o : Option A) (m : Fat32 S)
      → OnSome P o
      → Kept m
      → Leaves P Kept (or_undo_chain first msg o m)
  unfolding or_undo_chain
  or_undo_guarded first msg (some a) m p g = record { left = (p, g) }
  or_undo_guarded first msg none m p g = undo_chain_guarded first msg m g

  link_guarded :
      (first prev cur : ℕ) (m : Fat32 S)
      → Kept m
      → Leaves (λ _. Unit) Kept (link_after first prev cur m)
  unfolding link_after
  link_guarded first prev cur m g = elim (Bool-cases (ltb prev 2)) [
    | inl alone ↦ rw alone (record { left = (tt, g) })
    | inr behind ↦ rw behind (
        Leaves-then_run (caught (set_cluster_value prev cur m))
          (Leaves-caught (set_cluster_value prev cur m)
            (set_cluster_value-Guarded v contents base law f prev cur m g))
          (λ o m₁ p g₁. or_undo_guarded first "write: failed to link cluster chain" o m₁ p g₁))
  ]

  pub alloc_chain_guarded :
      (left first prev : ℕ) (m : Fat32 S)
      → IsTail first
      → Kept m
      → Leaves (λ chain. IsTail chain.0) Kept (alloc_chain left first prev m)
  unfolding alloc_chain
  alloc_chain_guarded zero first prev m t g = record { left = (t, g) }
  alloc_chain_guarded (suc left) first prev m t g =
      Leaves-then_run (caught (alloc_cluster m))
        (Leaves-caught (alloc_cluster m) (alloc_cluster-Guarded v contents base law f m g))
        (λ o m₁ p g₁.
          Leaves-then_run (or_undo_chain first "write: no free cluster or FAT write error" o m₁)
            (or_undo_guarded first "write: no free cluster or FAT write error" o m₁ p g₁)
            (λ cur m₂ valid g₂.
              Leaves-then_run (link_after (if first == 0 then cur else first) prev cur m₂)
                (link_guarded (if first == 0 then cur else first) prev cur m₂ g₂)
                (λ _ m₃ _ g₃.
                  alloc_chain_guarded left (if first == 0 then cur else first) cur m₃
                    (elim (Bool-cases (first == 0)) [
                      | inl none_yet ↦ rw none_yet (inr valid)
                      | inr some_yet ↦ rw some_yet t
                    ])
                    g₃)))

  pub end_chain_guarded :
      (first prev : ℕ) (m : Fat32 S) → Kept m → Leaves (λ _. Unit) Kept (end_chain first prev m)
  unfolding end_chain
  end_chain_guarded first prev m g = elim (Bool-cases (ltb prev 2)) [
    | inl alone ↦ rw alone (record { left = (tt, g) })
    | inr behind ↦ rw behind (
        Leaves-then_run (caught (set_cluster_value prev end_mark m))
          (Leaves-caught (set_cluster_value prev end_mark m)
            (set_cluster_value-Guarded v contents base law f prev end_mark m g))
          (λ o m₁ p g₁. or_undo_guarded first "write: failed to terminate cluster chain" o m₁ p g₁))
  ]

  write_cluster_guarded :
      (c : ℕ)
      → cluster_is_valid v c ≡ true
      → (left s : ℕ) (bytes : ℕ → ℕ) (size written : ℕ) (m : Fat32 S)
      → s + left ≤ v.sectors_per_cluster
      → Kept m
      → Leaves (λ _. Unit) Kept (write_cluster left s (cluster_to_lba v c) bytes size written m)
  unfolding write_cluster
  write_cluster_guarded c valid zero s bytes size written m h g = record { left = (tt, g) }
  write_cluster_guarded c valid (suc left) s bytes size written m h g =
      elim (Bool-cases (leb size written)) [
        | inl whole ↦ rw whole (record { left = (tt, g) })
        | inr part ↦
            let lba = u32 (cluster_to_lba v c + s) in
            rw part (
              Leaves-then_run
                (or_error (write_sector_uncached lba (data_sector bytes size written))
                  "write: sector write failed" m)
                (or_guarded v contents base law f
                  (write_sector_uncached lba (data_sector bytes size written))
                  "write: sector write failed" m
                  (write_sector_uncached-IsGuarded v contents base law lba
                    (data_sector bytes size written) m g
                    (data-IsInside v contents base law f lba
                      (sector-IsData v contents base law f c s valid (omega arith)))))
                (λ _ m₁ _ g₁.
                  write_cluster_guarded c valid left (s + 1) bytes size (later written size) m₁
                    (omega arith) g₁))
      ]

  sane-IsTail : (c : ℕ) → value_is_sane v c ≡ true → leb eoc c ≡ false → IsTail c
  unfolding value_is_sane
  sane-IsTail c sane below = ground arith

  pub write_chain_guarded :
      (left cur : ℕ) (bytes : ℕ → ℕ) (size written : ℕ) (m : Fat32 S)
      → IsTail cur
      → Kept m
      → Leaves (λ _. Unit) Kept (write_chain left cur bytes size written m)
  unfolding write_chain
  write_chain_guarded zero cur bytes size written m t g = record { left = tt }
  write_chain_guarded (suc left) cur bytes size written m t g =
      elim (Bool-cases (leb 2 cur && ltb written size)) [
        | inr off ↦ rw (off, write_chain) (record { left = (tt, g) })
        | inl on ↦
            let valid : cluster_is_valid v cur ≡ true = ground arith in
            rw (on, write_chain)
              (Leaves-then_run
                (write_cluster m.fs.sectors_per_cluster 0 (cluster_to_lba m.fs cur) bytes size
                  written m)
                (on_mounted
                  (λ (w : Volume S).
                    write_cluster w.sectors_per_cluster 0 (cluster_to_lba w cur) bytes size written
                      m)
                  g.fs
                  (write_cluster_guarded cur valid v.sectors_per_cluster 0 bytes size written m
                    (omega arith) g))
                (λ now m₁ _ g₁. elim (Bool-cases (leb size now)) [
                  | inl whole ↦ rw whole (record { left = (tt, g₁) })
                  | inr part ↦ rw part (
                      Leaves-then_run
                        (or_error (next_cluster cur) "write: failed to advance cluster chain" m₁)
                        (or_guarded v contents base law f (next_cluster cur)
                          "write: failed to advance cluster chain" m₁
                          (next_cluster-Guarded v contents base law f cur m₁ g₁))
                        (λ next m₂ sane g₂. elim (Bool-cases (leb eoc next)) [
                          | inl last ↦ rw last (record { left = (tt, g₂) })
                          | inr inner ↦ rw inner (
                              write_chain_guarded left next bytes size now m₂
                                (sane-IsTail next sane inner) g₂)
                        ]))
                ]))
      ]
