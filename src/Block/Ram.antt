-- ===== src/Block/Ram.antt =====
-- A drive in memory, which keeps the promises of a block device.
use mathlib.Core.Path.{subst}
use tg11_os.Prelude.{
  ℕ, ◌+◌, ◌*◌, ◌/◌, ◌%◌, Bool, true, false, Option, none, some, ltb, if◌then◌else◌, update, ◌≡◌,
  refl, ap, ap₂, ◌∙◌, inl, inr, Bool-cases, arith,
}
use tg11_os.Block.{Sector, BlockDevice, IsLawful, IsRead, IsReadMany, IsWrite}

abbrev Ram : Type 0
Ram = ℕ → Sector

abbrev ram_read : ℕ → ℕ → Ram → Option Sector × Ram
ram_read size lba s = (if ltb lba size then some (s lba) else none, s)

abbrev ram_read_many : ℕ → ℕ → ℕ → Ram → Option (ℕ → ℕ) × Ram
ram_read_many size lba count s =
    (if ltb (lba + count) size then some (λ i. s (lba + i / 512) (i % 512)) else none, s)

abbrev ram_write : ℕ → ℕ → Sector → Ram → Bool × Ram
ram_write size lba sec s = if ltb lba size then (true, update s lba sec) else (false, s)

-- `size` sectors; a transfer beyond them fails.
abbrev pub ram_drive : ℕ → BlockDevice Ram
ram_drive size = record {
  present = true;
  sector_count = size;
  read_sector = some (ram_read size);
  write_sector = some (ram_write size);
  read_sectors = some (ram_read_many size);
  write_sectors = none;
}

abbrev pub sectors : Ram → ℕ → Sector
sectors s = s

pub some_inj : {A : Type 0} {x y : A} → ◌≡◌ {A = Option A} (some x) (some y) → x ≡ y
some_inj e = cc

if_some : {A : Type 0} (b : Bool) (x y : A) → (if b then some x else none) ≡ some y → y ≡ x
if_some true x y e = cc
if_some false x y e = cc

ram_read_lem : (size lba : ℕ) (s : Ram) → IsRead sectors s lba (ram_read size lba s)
ram_read_lem size lba s = record {
  answer = λ sec e. if_some (ltb lba size) (s lba) sec e;
  unchanged = refl;
}

ram_read_many_lem :
    (size lba count : ℕ) (s : Ram) → IsReadMany sectors s lba count (ram_read_many size lba count s)
ram_read_many_lem size lba count s = record {
  answer = λ buffer e i j hi hj.
      ap (λ (f : ℕ → ℕ). f (i * 512 + j)) (if_some (ltb (lba + count) size) _ buffer e)
      ∙ ap₂ (λ (k l : ℕ). s (lba + k) l) (omega arith) (omega arith);
  unchanged = refl;
}

ram_write_lem :
    (size lba : ℕ) (sec : Sector) (s : Ram) → IsWrite sectors s lba sec (ram_write size lba sec s)
ram_write_lem size lba sec s = elim (Bool-cases (ltb lba size)) [
  | inl inside ↦ rw inside (record { accepted = λ _. refl; unchanged = λ i ne. ground arith })
  | inr outside ↦ rw outside (record { accepted = λ e. cc; unchanged = λ i ne. refl })
]

pub ram_drive-IsLawful : (size : ℕ) → IsLawful sectors (ram_drive size)
ram_drive-IsLawful size = record {
  reads = λ read e lba s.
      subst (λ (f : ℕ → Ram → Option Sector × Ram). IsRead sectors s lba (f lba s)) (some_inj e)
        (ram_read_lem size lba s);
  reads_many = λ read e lba count s.
      subst
        (λ (f : ℕ → ℕ → Ram → Option (ℕ → ℕ) × Ram). IsReadMany sectors s lba count (f lba count s))
        (some_inj e) (ram_read_many_lem size lba count s);
  writes = λ write e lba sec s.
      subst (λ (f : ℕ → Sector → Ram → Bool × Ram). IsWrite sectors s lba sec (f lba sec s))
        (some_inj e) (ram_write_lem size lba sec s);
}
