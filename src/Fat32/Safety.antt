-- ===== src/Fat32/Safety.antt =====
-- kernel/fat32.c, what an operation may write, whether it succeeds or fails, and also when a write
-- has failed before it and the caches do not agree with the disk any more.
pub mod Tables
pub mod Paths
pub mod Reading
pub mod Writing
pub mod Chains
pub mod Commands
pub mod Runs
use mathlib.Core.Path.{subst}
use tg11_os.Prelude.{
  ℕ, zero, suc, ◌+◌, ◌*◌, ◌≤◌, ◌<◌, Bool, true, false, Option, none, some, ◌==◌, if◌then◌else◌,
  update, ◌≡◌, ◌≢◌, ◌⊎◌, refl, sym, ap, ◌∙◌, inl, inr, Option-cases, Bool-cases, arith, u32,
}
use Prim.Native.String.{String}
use tg11_os.Prelude.Actions.{
  Outcome, ok, failed, stuck, Action, pure, guard, attempt, caught, from_option, unless_some,
  then_run, ◌>>=◌, ◌>>◌,
}
use tg11_os.Block.{Sector, BlockDevice, IsLawful, IsRead, IsWrite}
use tg11_os.Fat32.{
  Volume, Fat32, CacheEntry, cache_enabled, put_slot, cache_store, cache_lookup, cache_hit, fetched,
  driver, device_read, device_write, read_sector_cached, write_answered, write_sector_uncached,
  flush_cache, set_error,
}
use tg11_os.Fat32.Cached.{image}
use tg11_os.Fat32.Sectors.{reported}

-- Of a value, if there is one.
abbrev pub OnSome : {A : Type 0} → (A → Type 0) → Option A → Type 0
OnSome P none = Unit
OnSome P (some a) = P a

-- `I` holds of the state however the action ends, and `P` of the value that it gives.
abbrev pub Leaving : {S A : Type 0} → (A → Type 0) → (S → Type 0) → Outcome S A → Type 0
Leaving P I (ok a s) = P a × I s
Leaving P I (failed s) = I s
Leaving P I stuck = Unit

pub record Leaves {S A : Type 0} (P : A → Type 0) (I : S → Type 0) (o : Outcome S A) : Type 0 where
  pub left : Leaving P I o

module _ {S : Type 0} {I : S → Type 0} where
  pub Leaves-then_run :
      {A B : Type 0} {P : A → Type 0} {Q : B → Type 0} {f : A → Action S B} (o : Outcome S A)
      → Leaves P I o
      → ((a : A) (s : S) → P a → I s → Leaves Q I (f a s))
      → Leaves Q I (then_run o f)
  Leaves-then_run (ok a s) l next = next a s l.left.0 l.left.1
  Leaves-then_run (failed s) l next = record { left = l.left }
  Leaves-then_run stuck l next = record { left = tt }

  pub Leaves-caught :
      {A : Type 0} {P : A → Type 0} (o : Outcome S A)
      → Leaves P I o
      → Leaves (OnSome P) I (caught o)
  Leaves-caught (ok a s) l = record { left = l.left }
  Leaves-caught (failed s) l = record { left = (tt, l.left) }
  Leaves-caught stuck l = record { left = tt }

  pub Leaves-weaken :
      {A : Type 0} {P Q : A → Type 0} (o : Outcome S A)
      → Leaves P I o
      → ((a : A) → P a → Q a)
      → Leaves Q I o
  Leaves-weaken (ok a s) l weaken = record { left = (weaken a l.left.0, l.left.1) }
  Leaves-weaken (failed s) l weaken = record { left = l.left }
  Leaves-weaken stuck l weaken = record { left = tt }

  pub Leaves-unless_some :
      {A B : Type 0} {P : A → Type 0} {Q : B → Type 0} (o : Option A) (give : A → B)
      (rest : Action S B) (s : S)
      → OnSome P o
      → I s
      → ((a : A) → P a → Q (give a))
      → Leaves Q I (rest s)
      → Leaves Q I (unless_some o give rest s)
  Leaves-unless_some (some a) give rest s p i made next = record { left = (made a p, i) }
  Leaves-unless_some none give rest s p i made next = next

  pub Leaves-guard : (b : Bool) (s : S) → I s → Leaves (λ _. b ≡ true) I (guard b s)
  unfolding guard
  Leaves-guard true s i = record { left = (refl, i) }
  Leaves-guard false s i = record { left = i }

  pub Leaves-from_option :
      {A : Type 0} (o : Option A) (s : S)
      → I s
      → Leaves {A = A} (λ a. o ≡ some a) I (from_option o s)
  Leaves-from_option none s i = record { left = i }
  Leaves-from_option (some a) s i = record { left = (refl, i) }

-- What holds of the volume that is mounted.
pub on_mounted :
    {S A : Type 0} {P : A → Type 0} {I : Fat32 S → Type 0} (o : Volume S → Outcome (Fat32 S) A)
    {u v : Volume S}
    → u ≡ v
    → Leaves P I (o v)
    → Leaves P I (o u)
on_mounted {P = P} {I = I} o e l = subst (λ w. Leaves P I (o w)) (sym e) l

module _ {S : Type 0} (v : Volume S) where
  -- The sectors before the copies of the table and after the data area.
  abbrev pub IsOutside : ℕ → Type 0
  IsOutside lba =
      (lba < v.fat_start_lba) ⊎ (v.data_start_lba + v.data_clusters * v.sectors_per_cluster ≤ lba)

  abbrev pub IsInside : ℕ → Type 0
  IsInside lba =
      (v.fat_start_lba ≤ lba) × (lba < v.data_start_lba + v.data_clusters * v.sectors_per_cluster)

module _ {S : Type 0} (v : Volume S) (contents : S → ℕ → Sector) (base : ℕ → Sector) where
  -- The volume is the same, and the sectors outside it are those of `base`.
  pub record IsGuarded (m : Fat32 S) : Type 0 where
    pub fs : m.fs ≡ v
    pub outside : (lba : ℕ) → IsOutside v lba → image contents m lba ≡ base lba

  pub Leaves-reported :
      {A : Type 0} {P : A → Type 0} (msg : String) (o : Outcome (Fat32 S) A)
      → Leaves P IsGuarded o
      → Leaves P IsGuarded (reported msg o)
  unfolding set_error
  Leaves-reported msg (ok a m) l = record { left = l.left }
  Leaves-reported msg (failed m) l = record {
    left = record { fs = l.left.fs; outside = l.left.outside };
  }
  Leaves-reported msg stuck l = record { left = tt }

  module _ (law : (d : BlockDevice S) → v.dev ≡ some d → IsLawful contents d) where
    driver-IsLawful :
        {F : Type 0} (f : BlockDevice S → Option F) (m : Fat32 S) (x : F)
        → m.fs ≡ v
        → driver f m ≡ some x
        → (d : BlockDevice S) × IsLawful contents d × (f d ≡ some x)
    unfolding driver
    driver-IsLawful f m x e h = elim (Bool-cases m.fs.mounted) [
      | inl on ↦ elim (Option-cases m.fs.dev) [
        | inl absent ↦ absurd (cc)
        | inr (d, there) ↦ (d, law d (ap (λ (w : Volume S). w.dev) (sym e) ∙ there), ground arith)
      ]
      | inr off ↦ absurd (ground arith)
    ]

    put_slot-IsGuarded :
        (b : Bool) (i : ℕ) (entry : CacheEntry) (m : Fat32 S)
        → IsGuarded m
        → IsGuarded (put_slot b i entry m)
    unfolding put_slot
    put_slot-IsGuarded true i entry m g = record { fs = g.fs; outside = g.outside }
    put_slot-IsGuarded false i entry m g = record { fs = g.fs; outside = g.outside }

    fetched-IsGuarded :
        (b : Bool) (lba : ℕ) (m : Fat32 S) (o : Option Sector × S)
        → IsGuarded m
        → contents o.1 ≡ image contents m
        → Leaves (λ _. Unit) IsGuarded (fetched b lba o m)
    unfolding fetched cache_store
    fetched-IsGuarded b lba m (none, disk) g e = record {
      left = record { fs = g.fs; outside = λ l h. ap (λ (t : ℕ → Sector). t l) e ∙ g.outside l h };
    }
    fetched-IsGuarded b lba m (some sec, disk) g e =
        let moved : IsGuarded (record m { disk = disk }) = record {
          fs = g.fs;
          outside = λ l h. ap (λ (t : ℕ → Sector). t l) e ∙ g.outside l h;
        } in
        elim (Bool-cases (cache_enabled b m)) [
          | inl on ↦ rw on (record { left = (tt, put_slot-IsGuarded b _ _ _ moved) })
          | inr off ↦ rw off (record { left = (tt, moved) })
        ]

    pub read_sector_cached-IsGuarded :
        (lba : ℕ) (b : Bool) (m : Fat32 S)
        → IsGuarded m
        → Leaves (λ _. Unit) IsGuarded (read_sector_cached lba b m)
    unfolding read_sector_cached cache_hit
    read_sector_cached-IsGuarded lba b m g = elim (Option-cases (driver device_read m)) [
      | inl absent ↦ rw (absent, read_sector_cached) (record { left = g })
      | inr (read, there) ↦ elim (Option-cases (cache_lookup b lba m)) [
        | inl missing ↦
            let (d, l, e) = driver-IsLawful device_read m read g.fs there in
            rw (there, missing, read_sector_cached)
              (fetched-IsGuarded b lba m (read lba m.disk) g (l.reads read e lba m.disk).unchanged)
        | inr (i, hit) ↦
            rw (there, hit, read_sector_cached, cache_hit)
              (record { left = (tt, put_slot-IsGuarded b _ _ m g) })
      ]
    ]

    write_answered-IsGuarded :
        (lba : ℕ) (sec : Sector) (m : Fat32 S) (o : Bool × S)
        → IsGuarded m
        → IsInside v lba
        → IsWrite contents m.disk lba sec o
        → Leaves (λ _. Unit) IsGuarded (write_answered o m)
    unfolding write_answered flush_cache
    write_answered-IsGuarded lba sec m (true, disk) g inside w = record {
      left =
          (tt, record { fs = g.fs; outside = λ l h. w.unchanged l (ground arith) ∙ g.outside l h });
    }
    write_answered-IsGuarded lba sec m (false, disk) g inside w = record {
      left = record { fs = g.fs; outside = λ l h. w.unchanged l (ground arith) ∙ g.outside l h };
    }

    pub write_sector_uncached-IsGuarded :
        (lba : ℕ) (sec : Sector) (m : Fat32 S)
        → IsGuarded m
        → IsInside v lba
        → Leaves (λ _. Unit) IsGuarded (write_sector_uncached lba sec m)
    unfolding write_sector_uncached
    write_sector_uncached-IsGuarded lba sec m g inside =
        elim (Option-cases (driver device_write m)) [
          | inl absent ↦ rw (absent, write_sector_uncached) (record { left = g })
          | inr (write, there) ↦
              let (d, l, e) = driver-IsLawful device_write m write g.fs there in
              rw (there, write_sector_uncached)
                (write_answered-IsGuarded lba sec m (write lba sec m.disk) g inside
                  (l.writes write e lba sec m.disk))
        ]
