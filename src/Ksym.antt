-- ===== src/Ksym.antt =====
-- kernel/ksym.c: the lookup in the kernel's symbol table. The table is generated when the kernel
-- is built, and is a parameter.
pub mod Search
mod Tests
use tg11_os.Prelude.{
  ℕ, zero, suc, ◌+◌, ◌-◌, ◌/◌, Bool, true, false, Option, none, some, ltb, leb, ◌==◌, if◌then◌else◌,
  u64,
}

-- `ksym_entry_t`.
pub record KsymEntry : Type 0 where
  pub addr : ℕ
  pub name_off : ℕ

-- The loop of the search for the last entry that is not above `addr`.
pub search : ℕ → (ℕ → KsymEntry) → ℕ → ℕ → ℕ → Option ℕ
search zero table addr lo hi = if ltb lo hi then none else some lo
search (suc fuel) table addr lo hi = elim (ltb lo hi) [
  | false ↦ some lo
  | true ↦
      let mid = lo + u64 (hi - lo + 1) / 2 in
      elim (leb (table mid).addr addr) [
        | true ↦ search fuel table addr mid hi
        | false ↦ search fuel table addr lo (mid - 1)
      ]
]

-- The name's offset in `ksym_names`, and what is written to `out_offset`; `none` is a null pointer.
pub ksym_lookup : ℕ → (ℕ → KsymEntry) → ℕ → Option (ℕ × ℕ)
ksym_lookup ksym_table_count table addr =
    if ksym_table_count == 0
    then none
    else if ltb addr (table 0).addr
    then none
    else elim (search ksym_table_count table addr 0 (ksym_table_count - 1)) [
      | none ↦ none
      | some lo ↦ some ((table lo).name_off, addr - (table lo).addr)
    ]
