-- ===== src/Block.antt =====
-- include/blockdev.h, what the file system asks of a drive.
pub mod Ram
use tg11_os.Prelude.{ℕ, ◌+◌, ◌*◌, ◌<◌, Bool, true, Option, some, ◌≡◌, ◌≢◌, update}

-- The 512 bytes of a sector, as a function of the offset.
abbrev pub Sector : Type 0
Sector = ℕ → ℕ

-- `struct block_device`. A function pointer that is null is none. A call takes the state of the
-- hardware, and says what it has read, or whether it has written; none and false stand for a
-- return value other than 0. A buffer of several sectors is a function of the offset too.
pub record BlockDevice (S : Type 0) : Type 0 where
  pub present : Bool
  pub sector_count : ℕ
  pub read_sector : Option (ℕ → S → Option Sector × S)
  pub write_sector : Option (ℕ → Sector → S → Bool × S)
  pub read_sectors : Option (ℕ → ℕ → S → Option (ℕ → ℕ) × S)
  pub write_sectors : Option (ℕ → ℕ → (ℕ → ℕ) → S → Bool × S)

-- What a drive promises. `contents` is what is on the disk: sectors, by their address. A transfer
-- may fail. A write that fails leaves the other sectors alone, and may or may not have taken
-- place: the driver also reports an error when it waits in vain for the end of a write.
module _ {S : Type 0} (contents : S → ℕ → Sector) where
  pub record IsRead (s : S) (lba : ℕ) (result : Option Sector × S) : Type 0 where
    pub answer : (sec : Sector) → result.0 ≡ some sec → sec ≡ contents s lba
    pub unchanged : contents result.1 ≡ contents s

  pub record IsReadMany (s : S) (lba count : ℕ) (result : Option (ℕ → ℕ) × S) : Type 0 where
    pub answer :
        (buffer : ℕ → ℕ)
        → result.0 ≡ some buffer
        → (i j : ℕ) → i < count
        → j < 512
        → buffer (i * 512 + j) ≡ contents s (lba + i) j
    pub unchanged : contents result.1 ≡ contents s

  pub record IsWrite (s : S) (lba : ℕ) (sec : Sector) (result : Bool × S) : Type 0 where
    pub accepted : result.0 ≡ true → contents result.1 ≡ update (contents s) lba sec
    pub unchanged : (i : ℕ) → i ≢ lba → contents result.1 i ≡ contents s i

  pub record IsLawful (d : BlockDevice S) : Type 0 where
    pub reads :
        (read : ℕ → S → Option Sector × S)
        → d.read_sector ≡ some read
        → (lba : ℕ) (s : S) → IsRead s lba (read lba s)
    pub reads_many :
        (read : ℕ → ℕ → S → Option (ℕ → ℕ) × S)
        → d.read_sectors ≡ some read
        → (lba count : ℕ) (s : S) → IsReadMany s lba count (read lba count s)
    pub writes :
        (write : ℕ → Sector → S → Bool × S)
        → d.write_sector ≡ some write
        → (lba : ℕ) (sec : Sector) (s : S) → IsWrite s lba sec (write lba sec s)
