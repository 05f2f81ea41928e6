-- ===== src/Ksym/Tests.antt =====
-- kernel/ksym.c: runs at a concrete table, and the theorem at it.
use tg11_os.Prelude.{ℕ, ◌+◌, ◌-◌, ◌*◌, ◌<◌, none, some, ◌≡◌, refl, arith, ◌⊎◌}
use tg11_os.Ksym.{KsymEntry, search, ksym_lookup}
use tg11_os.Ksym.Search.{IsSorted, IsLast, ksym_lookup-IsLast}

-- A symbol every sixteen bytes from 0x1000 on.
abbrev every_16 : ℕ → KsymEntry
every_16 i = record { addr = 0x1000 + i * 16; name_off = i * 8 }

every_16-IsSorted : IsSorted 5 every_16
unfolding IsSorted
every_16-IsSorted i j le lt = omega arith

lookup_run : ksym_lookup 5 every_16 0x1025 ≡ some (16, 5)
unfolding ksym_lookup search
lookup_run = refl

ksym_lookup-IsLast_example :
    ((ksym_lookup 5 every_16 0x1025 ≡ none) × (◌≡◌ {A = ℕ} 5 0 ⊎ (0x1025 < 0x1000)))
    ⊎ ((k : ℕ) × (ksym_lookup 5 every_16 0x1025 ≡ some (k * 8, 0x1025 - (0x1000 + k * 16)))
        × IsLast 5 every_16 0x1025 k)
ksym_lookup-IsLast_example = ksym_lookup-IsLast 5 every_16 0x1025 every_16-IsSorted (omega arith)
