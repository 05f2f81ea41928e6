-- ===== src/Fat32/Cached.antt =====
-- kernel/fat32.c, the caches: a read through them gives what is on the disk.
use tg11_os.Prelude.{
  ℕ, zero, suc, ◌+◌, ◌<◌, Bool, true, false, Option, none, some, ◌==◌, update, ◌≡◌, refl, sym, ap,
  ◌∙◌, inl, inr, Option-cases, Bool-cases, arith,
}
use tg11_os.Prelude.Actions.{Returns}
use tg11_os.Block.{Sector, BlockDevice, IsLawful, IsRead, IsWrite}
use tg11_os.Fat32.{
  Fat32, CacheEntry, Cache, cache_slots, cache_clear, cache_find, flush_cache, cache_of,
  cache_enabled, put_slot, cache_store, cache_lookup, cache_hit, fetched, driver, device_read,
  device_write, read_sector_cached, write_answered, write_sector_uncached,
}

-- Every slot that is valid holds the sector that it names.
abbrev pub IsCoherent : (ℕ → Sector) → Cache → Type 0
IsCoherent image cache =
    (i : ℕ) → i < cache_slots → (cache i).valid ≡ true → (cache i).bytes ≡ image (cache i).lba

cache_find_lem :
    (left i lba : ℕ) (cache : Cache) (j : ℕ)
    → cache_find left i lba cache ≡ some j
    → (j < i + left) × ((cache j).valid ≡ true) × ((cache j).lba ≡ lba)
unfolding cache_find
cache_find_lem zero i lba cache j h = cc
cache_find_lem (suc left) i lba cache j h = ground (arith, cache_find_lem left (i + 1) lba cache j)

pub cache_clear-IsCoherent :
    (image : ℕ → Sector) (cache : Cache) → IsCoherent image (cache_clear cache_slots cache)
unfolding cache_clear
cache_clear-IsCoherent image cache i h v = ground arith

module _ (image : ℕ → Sector) (cache : Cache) (i : ℕ) (entry : CacheEntry) where
  update-IsCoherent :
      IsCoherent image cache
      → (entry.valid ≡ true → entry.bytes ≡ image entry.lba)
      → IsCoherent image (update cache i entry)
  update-IsCoherent c e j h v = elim (Bool-cases (i == j)) [
    | inl same ↦ rw same (e (ground arith))
    | inr other ↦ rw other (c j h (ground arith))
  ]

module _ {S : Type 0} (contents : S → ℕ → Sector) where
  -- What is on the disk.
  abbrev pub image : Fat32 S → ℕ → Sector
  image m = contents m.disk

  -- The device keeps its promises and the caches agree with the disk.
  pub record IsReady (m : Fat32 S) : Type 0 where
    pub lawful : (d : BlockDevice S) → m.fs.dev ≡ some d → IsLawful contents d
    pub coherent : (b : Bool) → IsCoherent (image m) (cache_of b m)

  -- What a read may change: the caches and the state of the hardware.
  pub record IsSame (m m' : Fat32 S) : Type 0 where
    pub fs : m'.fs ≡ m.fs
    pub disk : image m' ≡ image m
    pub ready : IsReady m'

  module _ (i : ℕ) (entry : CacheEntry) (m : Fat32 S) (r : IsReady m)
      (e : entry.valid ≡ true → entry.bytes ≡ image m entry.lba) where
    put_slot-IsCoherent : (b c : Bool) → IsCoherent (image m) (cache_of c (put_slot b i entry m))
    unfolding put_slot cache_of
    put_slot-IsCoherent true true =
        update-IsCoherent (image m) m.fat_cache i entry (r.coherent true) e
    put_slot-IsCoherent true false = r.coherent false
    put_slot-IsCoherent false true = r.coherent true
    put_slot-IsCoherent false false =
        update-IsCoherent (image m) m.data_cache i entry (r.coherent false) e

    put_slot-IsSame : (b : Bool) → IsSame m (put_slot b i entry m)
    unfolding put_slot
    put_slot-IsSame true = record {
      fs = refl;
      disk = refl;
      ready = record { lawful = r.lawful; coherent = put_slot-IsCoherent true };
    }
    put_slot-IsSame false = record {
      fs = refl;
      disk = refl;
      ready = record { lawful = r.lawful; coherent = put_slot-IsCoherent false };
    }

  -- The state of the hardware changes, and what is on the disk does not.
  pub moved-IsSame :
      (m : Fat32 S) (disk : S)
      → IsReady m
      → contents disk ≡ image m
      → IsSame m (record m { disk = disk })
  unfolding cache_of
  moved-IsSame m disk r e = record {
    fs = refl;
    disk = e;
    ready = record {
      lawful = r.lawful;
      coherent =
          λ b i h v. r.coherent b i h v ∙ ap (λ (t : ℕ → Sector). t (cache_of b m i).lba) (sym e);
    };
  }

  pub hint-IsReady :
      (m : Fat32 S) (h : ℕ) → IsReady m → IsReady (record m { alloc_hint_cluster = h })
  unfolding cache_of
  hint-IsReady m h r = record { lawful = r.lawful; coherent = λ b. r.coherent b }

  pub IsSame-trans : {a b c : Fat32 S} → IsSame a b → IsSame b c → IsSame a c
  IsSame-trans p q = record { fs = q.fs ∙ p.fs; disk = q.disk ∙ p.disk; ready = q.ready }

  fetched_lem :
      (b : Bool) (lba : ℕ) (m : Fat32 S) (o : Option Sector × S)
      → IsReady m
      → IsRead contents m.disk lba o
      → Returns (λ sec m'. (sec ≡ image m lba) × IsSame m m') (IsSame m) (fetched b lba o m)
  unfolding fetched cache_store
  fetched_lem b lba m (none, disk) r h = record { ending = moved-IsSame m disk r h.unchanged }
  fetched_lem b lba m (some sec, disk) r h =
      let moved = moved-IsSame m disk r h.unchanged in
      elim (Bool-cases (cache_enabled b m)) [
        | inl on ↦ rw on (record {
          ending = (
            h.answer sec refl,
            IsSame-trans moved (
                put_slot-IsSame _ _ _ moved.ready
                  (λ _. h.answer sec refl ∙ ap (λ (t : ℕ → Sector). t lba) (sym h.unchanged)) b),
          );
        })
        | inr off ↦ rw off (record { ending = (h.answer sec refl, moved) })
      ]

  driver_device :
      {F : Type 0} (f : BlockDevice S → Option F) (m : Fat32 S) (x : F)
      → driver f m ≡ some x
      → (d : BlockDevice S) × (m.fs.dev ≡ some d) × (f d ≡ some x)
  unfolding driver
  driver_device f m x h = elim (Bool-cases m.fs.mounted) [
    | inl on ↦ elim (Option-cases m.fs.dev) [
      | inl none_there ↦ absurd (cc)
      | inr (d, e) ↦ (d, e, ground arith)
    ]
    | inr off ↦ absurd (ground arith)
  ]

  cache_hit_lem :
      (b : Bool) (i lba : ℕ) (m : Fat32 S)
      → IsReady m
      → cache_lookup b lba m ≡ some i
      → Returns (λ sec m'. (sec ≡ image m lba) × IsSame m m') (IsSame m) (cache_hit b i m)
  unfolding cache_hit cache_lookup
  cache_hit_lem b i lba m r h =
      let found = cache_find_lem cache_slots 0 lba (cache_of b m) i (ground arith) in
      let holds = r.coherent b i found.0 found.1 in
      record { ending = (holds ∙ ap (image m) found.2, put_slot-IsSame i _ m r (λ _. holds) b) }

  -- A read through the caches gives what is on the disk, or fails; either way what is on the disk
  -- stays, and the caches agree with it.
  pub read_sector_cached_lem :
      (lba : ℕ) (b : Bool) (m : Fat32 S)
      → IsReady m
      → Returns
          (λ sec m'. (sec ≡ image m lba) × IsSame m m')
          (IsSame m)
          (read_sector_cached lba b m)
  unfolding read_sector_cached
  read_sector_cached_lem lba b m r = elim (Option-cases (driver device_read m)) [
    | inl absent ↦
        rw (absent, read_sector_cached)
          (record { ending = record { fs = refl; disk = refl; ready = r } })
    | inr (read, there) ↦ elim (Option-cases (cache_lookup b lba m)) [
      | inl missing ↦
          let (d, e, f) = driver_device device_read m read there in
          rw (there, missing, read_sector_cached)
            (fetched_lem b lba m (read lba m.disk) r ((r.lawful d e).reads read f lba m.disk))
      | inr (i, found) ↦ rw (there, found, read_sector_cached) (cache_hit_lem b i lba m r found)
    ]
  ]

  -- What a write of one sector leaves.
  pub record IsWritten (m : Fat32 S) (lba : ℕ) (sec : Sector) (m' : Fat32 S) : Type 0 where
    pub fs : m'.fs ≡ m.fs
    pub disk : image m' ≡ update (image m) lba sec
    pub ready : IsReady m'

  written_lem :
      (lba : ℕ) (sec : Sector) (m : Fat32 S) (o : Bool × S)
      → IsReady m
      → IsWrite contents m.disk lba sec o
      → Returns (λ _ m'. IsWritten m lba sec m') (λ m'. m'.fs ≡ m.fs) (write_answered o m)
  unfolding write_answered flush_cache cache_of
  written_lem lba sec m (false, disk) r h = record { ending = refl }
  written_lem lba sec m (true, disk) r h = record {
    ending = record {
      fs = refl;
      disk = h.accepted refl;
      ready = record {
        lawful = r.lawful;
        coherent = λ b.
            elim b
              as (λ c.
                IsCoherent (contents disk) (cache_of c (flush_cache (record m { disk = disk })))) [
                  | true ↦ cache_clear-IsCoherent (contents disk) m.fat_cache
                  | false ↦ cache_clear-IsCoherent (contents disk) m.data_cache
                ];
      };
    };
  }

  -- A write that succeeds changes the one sector, and no cache holds what was there before.
  pub write_sector_uncached_lem :
      (lba : ℕ) (sec : Sector) (m : Fat32 S)
      → IsReady m
      → Returns
          (λ _ m'. IsWritten m lba sec m')
          (λ m'. m'.fs ≡ m.fs)
          (write_sector_uncached lba sec m)
  unfolding write_sector_uncached
  write_sector_uncached_lem lba sec m r = elim (Option-cases (driver device_write m)) [
    | inl absent ↦ rw (absent, write_sector_uncached) (record { ending = refl })
    | inr (write, there) ↦
        let (d, e, f) = driver_device device_write m write there in
        rw (there, write_sector_uncached)
          (written_lem lba sec m (write lba sec m.disk) r
            ((r.lawful d e).writes write f lba sec m.disk))
  ]
