-- ===== src/Fat32/Sectors/Fields.antt =====
-- kernel/fat32.c, the first cluster and the size in a directory entry.
use tg11_os.Prelude.{ℕ, ◌+◌, ◌*◌, ◌/◌, ◌%◌, ◌^◌, ◌<◌, ◌≡◌, arith}
use tg11_os.Prelude.Bits.{bit_and_low_mask, bit_or_apart, apart_bit_or}
use tg11_os.Block.{Sector}
use tg11_os.Fat32.Bytes.{rd16, rd32, rd32-word}
use tg11_os.Fat32.Sectors.{entry_at, entry_first_cluster, set_first_cluster, set_size}

rd16-bytes :
    (p : Sector) (i : ℕ) → p i < 2 ^ 8 → p (i + 1) < 2 ^ 8 → rd16 p i ≡ p i + p (i + 1) * 2 ^ 8
unfolding rd16
rd16-bytes p i h0 h1 = ground (arith, bit_or_apart 8 (p i) (p (i + 1)))

-- The first cluster that is put in an entry is the one that is read from it.
pub entry_first_cluster-set_first_cluster :
    (sec : Sector) (off cluster : ℕ)
    → cluster < 2 ^ 32
    → entry_first_cluster (entry_at (set_first_cluster sec off cluster) off) ≡ cluster
unfolding entry_first_cluster set_first_cluster
entry_first_cluster-set_first_cluster sec off cluster h = ground (
  arith,
  bit_and_low_mask 8 cluster,
  bit_and_low_mask 8 (cluster / 2 ^ 8),
  bit_and_low_mask 8 (cluster / 2 ^ 16),
  bit_and_low_mask 8 (cluster / 2 ^ 24),
  rd16-bytes (entry_at (set_first_cluster sec off cluster) off) 20,
  rd16-bytes (entry_at (set_first_cluster sec off cluster) off) 26,
  apart_bit_or 16 (cluster % 2 ^ 16) (cluster / 2 ^ 16),
)

-- The size that is put in an entry is the one that is read from it.
pub rd32-set_size :
    (sec : Sector) (off size : ℕ)
    → size < 2 ^ 32
    → rd32 (entry_at (set_size sec off size) off) 28 ≡ size
unfolding set_size
rd32-set_size sec off size h = ground (
  arith,
  bit_and_low_mask 8 size,
  bit_and_low_mask 8 (size / 2 ^ 8),
  bit_and_low_mask 8 (size / 2 ^ 16),
  bit_and_low_mask 8 (size / 2 ^ 24),
  rd32-word (entry_at (set_size sec off size) off) 28,
)
