-- ===== src/Fat32/Sectors/Reads.antt =====
-- kernel/fat32.c, fat32_read_data_sectors: a read at once and one by one give the same.
use tg11_os.Prelude.{
  ℕ, zero, suc, ◌+◌, ◌*◌, ◌%◌, ◌^◌, ◌≤◌, ◌<◌, false, not, ◌&&◌, Option, none, some, ltb, leb, ◌==◌,
  if◌then◌else◌, ◌≡◌, refl, ap, ◌∙◌, inl, inr, Bool-cases, Option-cases, arith, u32,
}
use tg11_os.Prelude.Actions.{Returns, Returns-then_run}
use tg11_os.Block.{Sector, IsReadMany}
use tg11_os.Fat32.{Fat32, read_sector_cached}
use tg11_os.Fat32.Cached.{
  image, IsReady, IsSame, IsSame-trans, moved-IsSame, read_sector_cached_lem,
}
use tg11_os.Fat32.Sectors.{is_some, read_each, many_answered, many_driver, read_data_sectors}

-- A buffer of sectors from the disk, from an address on.
abbrev pub Holds : (ℕ → Sector) → (lba count : ℕ) → (ℕ → ℕ) → Type 0
Holds disk lba count buffer =
    (i j : ℕ) → i < count → j < 512 → buffer (i * 512 + j) ≡ disk (lba + i) j

-- One sector more in the buffer.
Holds-suc :
    (disk : ℕ → Sector) (lba i : ℕ) (buffer : ℕ → ℕ) (sec : Sector)
    → Holds disk lba i buffer
    → sec ≡ disk (lba + i)
    → Holds disk lba
        (i + 1)
        (λ j. if leb (i * 512) j && ltb j ((i + 1) * 512) then sec (j % 512) else buffer j)
Holds-suc disk lba i buffer sec h e k j hk hj = elim (Bool-cases (k == i)) [
  | inl same ↦
      let at : (k * 512 + j) % 512 ≡ j = omega arith in
      ground (arith, ap (λ (t : ℕ). sec t) at, ap (λ (t : Sector). t j) e)
  | inr other ↦ ground (arith, h k j)
]

module _ {S : Type 0} (contents : S → ℕ → Sector) (disk : ℕ → Sector) (m : Fat32 S) where
  abbrev Filled : ℕ → ℕ → (ℕ → ℕ) → Fat32 S → Type 0
  Filled lba count buffer m' = Holds disk lba count buffer × IsSame contents m m'

  read_each_lem :
      (lba left i count : ℕ) (buffer : ℕ → ℕ) (m' : Fat32 S)
      → i + left ≡ count
      → lba + count ≤ 2 ^ 32
      → image contents m ≡ disk
      → IsSame contents m m'
      → Holds disk lba i buffer
      → Returns (Filled lba count) (IsSame contents m) (read_each lba left i buffer m')
  unfolding read_each
  read_each_lem lba zero i count buffer m' e fits d s h = record {
    ending = (λ k j hk. h k j (omega arith), s);
  }
  read_each_lem lba (suc left) i count buffer m' e fits d s h =
      Returns-then_run (read_sector_cached (u32 (lba + i)) false m')
        (read_sector_cached_lem contents (u32 (lba + i)) false m' s.ready)
        (λ sec m₁ (at, same).
          read_each_lem lba left (i + 1) count _ m₁ (omega arith) fits d
            (IsSame-trans contents s same)
            (Holds-suc disk lba i buffer sec h (
              at
              ∙ ap (λ (t : ℕ → Sector). t (u32 (lba + i))) (s.disk ∙ d)
              ∙ ap disk (omega arith))))
        (λ m₁ same. IsSame-trans contents s same)

  many_answered_lem :
      (lba count : ℕ) (o : Option (ℕ → ℕ) × S)
      → image contents m ≡ disk
      → IsReady contents m
      → IsReadMany contents m.disk lba count o
      → Returns (Filled lba count) (IsSame contents m) (many_answered o m)
  unfolding many_answered
  many_answered_lem lba count (none, hard) d r h = record {
    ending = moved-IsSame contents m hard r h.unchanged;
  }
  many_answered_lem lba count (some buffer, hard) d r h = record {
    ending = (
      λ i j hi hj. h.answer buffer refl i j hi hj ∙ ap (λ (t : ℕ → Sector). t (lba + i) j) d,
      moved-IsSame contents m hard r h.unchanged,
    );
  }

module _ {S : Type 0} (contents : S → ℕ → Sector) where
  many_driver-IsReadMany :
      (m : Fat32 S) (read : ℕ → ℕ → S → Option (ℕ → ℕ) × S) (lba count : ℕ)
      → IsReady contents m
      → many_driver m ≡ some read
      → IsReadMany contents m.disk lba count (read lba count m.disk)
  unfolding many_driver
  many_driver-IsReadMany m read lba count r e = elim (Option-cases m.fs.dev) [
    | inl absent ↦ absurd (ground arith)
    | inr (d, there) ↦ (r.lawful d there).reads_many read (ground arith) lba count m.disk
  ]

  -- Sectors that are read are those on the disk, whether the drive reads them at once or they are
  -- read one by one, or the read fails. What is on the disk stays.
  pub read_data_sectors_lem :
      (lba count : ℕ) (m : Fat32 S)
      → lba + count ≤ 2 ^ 32
      → IsReady contents m
      → Returns
          (λ buffer m'. Holds (image contents m) lba count buffer × IsSame contents m m')
          (IsSame contents m)
          (read_data_sectors lba count m)
  unfolding read_data_sectors
  read_data_sectors_lem lba count m fits r = elim (Bool-cases (count == 0)) [
    | inl empty ↦ rw (empty, read_data_sectors) (record { ending = still })
    | inr some_sectors ↦ elim (Bool-cases (not (m.fs.mounted && is_some m.fs.dev))) [
      | inl off ↦ rw (some_sectors, off, read_data_sectors) (record { ending = still })
      | inr on ↦ elim (Bool-cases (ltb 1 count)) [
        | inl several ↦ elim (Option-cases (many_driver m)) [
          | inl missing ↦ rw (some_sectors, on, several, missing, read_data_sectors) each
          | inr (read, has) ↦
              rw (some_sectors, on, several, has, read_data_sectors)
                (many_answered_lem contents (image contents m) m lba count (read lba count m.disk)
                  refl r (many_driver-IsReadMany m read lba count r has))
        ]
        | inr one ↦ rw (some_sectors, on, one, read_data_sectors) each
      ]
    ]
  ]
    where
      still : IsSame contents m m
      still = record { fs = refl; disk = refl; ready = r }

      each :
          Returns
            (Filled contents (image contents m) m lba count)
            (IsSame contents m)
            (read_each lba count 0 (λ _. 0) m)
      each =
          read_each_lem contents (image contents m) m lba count 0 count (λ _. 0) m (omega arith)
            fits refl still (λ i j hi hj. absurd (omega arith))
