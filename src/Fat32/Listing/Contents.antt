-- ===== src/Fat32/Listing/Contents.antt =====
-- kernel/fat32.c, fat32_read_file_entry: it gives the bytes that the chain of the file holds.
use mathlib.Core.Path.{subst}
use tg11_os.Prelude.{
  ℕ, zero, suc, ◌+◌, ◌*◌, ◌/◌, ◌%◌, ◌-◌, ◌^◌, ◌≤◌, ◌<◌, true, false, not, ◌&&◌, ◌||◌, ltb, leb,
  ◌==◌, if◌then◌else◌, update, min, ◌≡◌, refl, sym, ap, ap₂, ◌∙◌, inl, inr, ◌⊎◌, Bool-cases, arith,
  u32,
}
use tg11_os.Prelude.Actions.{Returns, Returns-then_run, Returns-guard}
use tg11_os.Block.{Sector}
use tg11_os.Fat32.{Volume, Fat32}
use tg11_os.Fat32.Bytes.{rd32}
use tg11_os.Fat32.Table.{eoc, cluster_to_lba, cluster_is_valid, next_cluster}
use tg11_os.Fat32.Table.Copies.{IsFormatted, cluster_base, cluster_to_lba_lem}
use tg11_os.Fat32.Table.Entries.{on_volume, table, next_cluster_lem, cluster_is_valid_le}
use tg11_os.Fat32.Sectors.{is_directory, entry_first_cluster, read_data_sectors, sectors_per_read}
use tg11_os.Fat32.Sectors.Reads.{read_data_sectors_lem}
use tg11_os.Fat32.Directory.Search.{Stays, IsSame-Stays}
use tg11_os.Fat32.Listing.{take_bytes, read_cluster, read_chain, read_file_entry}

-- The bytes below `written` are those of the file, as far as the buffer goes; the others are those
-- that were there.
abbrev pub IsFilled : (bytes before : ℕ → ℕ) → (capacity written : ℕ) → (ℕ → ℕ) → Type 0
IsFilled bytes before capacity written out =
    (k : ℕ) → out k ≡ (if ltb k written && ltb k capacity then bytes k else before k)

module _ (bytes : ℕ → ℕ) (size : ℕ) where
  -- The sectors from an address on hold the bytes of the file from `start` on.
  abbrev pub HoldsBytes : (disk : ℕ → Sector) (base count start : ℕ) → Type 0
  HoldsBytes disk base count start =
      (k : ℕ)
      → k < count * 512
      → start + k < size
      → disk (base + k / 512) (k % 512) ≡ bytes (start + k)

  -- The chain from a cluster, of this many clusters at most, holds the bytes of the file from
  -- `start` on.
  abbrev pub HoldsFile : {S : Type 0} → Volume S → (ℕ → Sector) → (n c start : ℕ) → Type 0
  HoldsFile v disk zero c start = ⊥
  HoldsFile v disk (suc n) c start =
      (cluster_is_valid v c ≡ true)
      × HoldsBytes disk (cluster_to_lba v c) v.sectors_per_cluster start
      × ((size ≤ start + v.sectors_per_cluster * 512)
          ⊎ ((leb eoc (table v disk c) ≡ false)
              × HoldsFile v disk n (table v disk c) (start + v.sectors_per_cluster * 512)))

module _ (bytes before : ℕ → ℕ) (size capacity : ℕ) where
  abbrev Filled : ℕ → ℕ × (ℕ → ℕ) → Type 0
  Filled w filled = (filled.0 ≡ w) × IsFilled bytes before capacity w filled.1

  -- One byte more in the buffer.
  IsFilled-suc :
      (w b : ℕ) (out : ℕ → ℕ)
      → IsFilled bytes before capacity w out
      → b ≡ bytes w
      → IsFilled bytes before capacity (w + 1) (if ltb w capacity then update out w b else out)
  IsFilled-suc w b out h e k = elim (Bool-cases (w == k)) [
    | inl same ↦ let at : w ≡ k = ground arith in ground (arith, h k, ap bytes at)
    | inr other ↦ ground (arith, h k)
  ]

  take_bytes_lem :
      (left i : ℕ) (buffer : ℕ → ℕ) (w w' : ℕ) (out : ℕ → ℕ)
      → w' ≡ min (w + left) size
      → w ≤ size
      → IsFilled bytes before capacity w out
      → ((j : ℕ) → j < left → w + j < size → buffer (i + j) ≡ bytes (w + j))
      → Filled w' (take_bytes left i buffer size capacity (w, out))
  unfolding take_bytes
  take_bytes_lem zero i buffer w w' out e hw h hb =
      let same : w ≡ w' = omega arith in
      (same, subst (λ (t : ℕ). IsFilled bytes before capacity t out) same h)
  take_bytes_lem (suc left) i buffer w w' out e hw h hb = elim (Bool-cases (ltb w size)) [
    | inl more ↦
        let less : w < size = ground arith in
        rw more (
          take_bytes_lem left (i + 1) buffer (w + 1) w' _ (omega arith) (omega arith)
            (IsFilled-suc w (buffer i) out h
              (ap buffer (omega arith) ∙ hb 0 (omega arith) (omega arith) ∙ ap bytes (omega arith)))
            (λ j hj hs.
              ap buffer (omega arith)
              ∙ hb (suc j) (omega arith) (omega arith)
              ∙ ap bytes (omega arith)))
    | inr full ↦
        let same : w ≡ w' = ground arith in
        rw full (same, subst (λ (t : ℕ). IsFilled bytes before capacity t out) same h)
  ]

  module _ {S : Type 0} (v : Volume S) (contents : S → ℕ → Sector) (disk : ℕ → Sector) where
    abbrev Read : ℕ → ℕ × (ℕ → ℕ) → Fat32 S → Type 0
    Read w filled m = Filled w filled × Stays v contents disk m

    read_cluster_lem :
        (left s count base batch start w' : ℕ) (filled : ℕ × (ℕ → ℕ)) (m : Fat32 S)
        → base + count ≤ 2 ^ 32
        → 0 < batch
        → count ≤ s + left
        → w' ≡ min (start + count * 512) size
        → HoldsBytes bytes size disk base count start
        → Filled (min (start + min s count * 512) size) filled
        → Stays v contents disk m
        → Returns
            (Read w')
            (Stays v contents disk)
            (read_cluster left s count base batch size capacity filled m)
    unfolding read_cluster
    read_cluster_lem zero s count base batch start w' filled m hb hn hl e hd h st =
        let same : min (start + min s count * 512) size ≡ w' = omega arith in
        record { ending = (subst (λ (t : ℕ). Filled t filled) same h, st) }
    read_cluster_lem (suc left) s count base batch start w' filled m hb hn hl e hd h st =
        let at = h.0 in
        elim (Bool-cases (leb count s || leb size filled.0)) [
          | inl done ↦
              let same : min (start + min s count * 512) size ≡ w' = ground arith in
              rw done (record { ending = (subst (λ (t : ℕ). Filled t filled) same h, st) })
          | inr more ↦
              let low : s < count = ground arith in
              let less : filled.0 < size = ground arith in
              let n = min (count - s) batch in
              let w = min (start + min s count * 512) size in
              let here_at : w ≡ start + s * 512 = omega arith in
              rw more (
                Returns-then_run (read_data_sectors (u32 (base + s)) n m)
                  (read_data_sectors_lem contents (u32 (base + s)) n m (omega arith) st.ready)
                  (λ buffer m₁ (holds, same).
                    read_cluster_lem left (s + batch) count base batch start w' _ m₁ hb hn
                      (omega arith) e hd
                      (take_bytes_lem (n * 512) 0 buffer filled.0
                        (min (start + min (s + batch) count * 512) size) filled.1 (omega arith)
                        (omega arith)
                        (subst (λ (t : ℕ). IsFilled bytes before capacity t filled.1) (sym at) h.1)
                        (λ j hj hs.
                          ap buffer (omega arith)
                          ∙ holds (j / 512) (j % 512) (omega arith) (omega arith)
                          ∙ ap (λ (t : ℕ → Sector). t (u32 (base + s) + j / 512) (j % 512))
                              st.image_is
                          ∙ ap₂ (λ (a b : ℕ). disk a b) (omega arith) (omega arith)
                          ∙ hd (s * 512 + j) (omega arith) (omega arith)
                          ∙ ap bytes (omega arith)))
                      (IsSame-Stays v contents disk m m₁ st same))
                  (λ m₁ same. IsSame-Stays v contents disk m m₁ st same))
        ]

    module _ (f : IsFormatted v) (batch : ℕ) (some_batch : 0 < batch) where
      cluster_lem :
          (c start : ℕ) (filled : ℕ × (ℕ → ℕ)) (m : Fat32 S)
          → cluster_is_valid v c ≡ true
          → HoldsBytes bytes size disk (cluster_to_lba v c) v.sectors_per_cluster start
          → start ≤ size
          → Filled start filled
          → Stays v contents disk m
          → Returns
              (Read (min (start + v.sectors_per_cluster * 512) size))
              (Stays v contents disk)
              (read_cluster m.fs.sectors_per_cluster 0 m.fs.sectors_per_cluster
                (cluster_to_lba m.fs c)
                batch
                size
                capacity
                filled
                m)
      cluster_lem c start filled m valid hd hs h st =
          let low = cluster_is_valid_le v c valid in
          let begins = cluster_base v f c low.0 low.1 in
          let ends =
            cluster_to_lba_lem v f c (v.sectors_per_cluster - 1) low.0 low.1
              (omega (arith, f.has_sectors)) in
          let fits : cluster_to_lba v c + v.sectors_per_cluster ≤ 2 ^ 32 =
            omega (arith, begins, ends.1, f.addresses, f.has_sectors) in
          let at : start ≡ min (start + min 0 v.sectors_per_cluster * 512) size = omega arith in
          on_volume
            (λ (w : Volume S).
              read_cluster w.sectors_per_cluster 0 w.sectors_per_cluster (cluster_to_lba w c) batch
                size capacity filled m)
            st.fs
            (read_cluster_lem v.sectors_per_cluster 0 v.sectors_per_cluster (cluster_to_lba v c)
              batch start (min (start + v.sectors_per_cluster * 512) size) filled m fits some_batch
              (omega arith) refl hd (subst (λ (t : ℕ). Filled t filled) at h) st)

      next_cluster_holds :
          (n c start : ℕ)
          → (size ≤ start + v.sectors_per_cluster * 512)
            ⊎ ((leb eoc (table v disk c) ≡ false)
                × HoldsFile bytes size v disk n
                    (table v disk c)
                    (start + v.sectors_per_cluster * 512))
          → start + v.sectors_per_cluster * 512 < size
          → (leb eoc (table v disk c) ≡ false)
            × HoldsFile bytes size v disk n (table v disk c) (start + v.sectors_per_cluster * 512)
      next_cluster_holds n c start (inl done) less = absurd (omega arith)
      next_cluster_holds n c start (inr next) less = next

      read_chain_lem :
          (n c start : ℕ) (filled : ℕ × (ℕ → ℕ)) (m : Fat32 S)
          → HoldsFile bytes size v disk n c start
          → start ≤ size
          → Filled start filled
          → Stays v contents disk m
          → Returns
              (Read size)
              (Stays v contents disk)
              (read_chain n c batch size capacity filled m)
      unfolding read_chain
      read_chain_lem zero c start filled m hf hs h st = absurd hf
      read_chain_lem (suc n) c start filled m (valid, hd, next_holds) hs h st =
          let low = cluster_is_valid_le v c valid in
          elim (Bool-cases (leb 2 c && (ltb c eoc && ltb filled.0 size))) [
            | inl on ↦
                rw (on, read_chain)
                  (Returns-then_run _ (cluster_lem c start filled m valid hd hs h st)
                    (λ more m₁ (h₁, st₁). elim (Bool-cases (leb size more.0)) [
                      | inl full ↦
                          let same : min (start + v.sectors_per_cluster * 512) size ≡ size =
                            ground (arith, h₁.0) in
                          rw full
                            (record { ending = (subst (λ (t : ℕ). Filled t more) same h₁, st₁) })
                      | inr short ↦
                          let same : min (start + v.sectors_per_cluster * 512) size
                              ≡ start + v.sectors_per_cluster * 512 =
                            ground (arith, h₁.0) in
                          let (not_end, hf) =
                            next_cluster_holds n c start next_holds (ground (arith, h₁.0)) in
                          rw short (
                            Returns-then_run (next_cluster c m₁)
                              (next_cluster_lem v contents c m₁ st₁.fs st₁.ready)
                              (λ next m₂ (at, _, _, kept).
                                let there : next ≡ table v disk c =
                                  at ∙ ap (λ (t : ℕ → Sector). table v t c) st₁.image_is in
                                let going : leb eoc next ≡ false =
                                  ap (λ (t : ℕ). leb eoc t) there ∙ not_end in
                                rw going (
                                  read_chain_lem n next (start + v.sectors_per_cluster * 512) more
                                    m₂
                                    (subst
                                      (λ (t : ℕ).
                                        HoldsFile bytes size v disk n t
                                          (start + v.sectors_per_cluster * 512))
                                      (sym there) hf)
                                    (omega (arith, h₁.0)) (subst (λ (t : ℕ). Filled t more) same h₁)
                                    (IsSame-Stays v contents disk m₁ m₂ st₁ kept)))
                              (λ m₂ kept. IsSame-Stays v contents disk m₁ m₂ st₁ kept))
                    ])
                    (λ m₁ k. k))
            | inr off ↦
                let same : start ≡ size = ground (arith, f.numbers, h.0) in
                rw (off, read_chain)
                  (record { ending = (subst (λ (t : ℕ). Filled t filled) same h, st) })
          ]

-- The entry of a file whose bytes are these, in a chain of `n` clusters at most.
pub record IsFile {S : Type 0} (v : Volume S) (disk : ℕ → Sector) (bytes : ℕ → ℕ) (n : ℕ)
    (entry : Sector) : Type 0 where
  pub file : is_directory entry ≡ false
  pub holds :
      ((entry_first_cluster entry < 2) × (rd32 entry 28 ≡ 0))
      ⊎ HoldsFile bytes (rd32 entry 28) v disk n (entry_first_cluster entry) 0

-- What a read of the file gives: its size, cut down to the buffer, and its bytes in the buffer.
abbrev pub IsContent : (bytes before : ℕ → ℕ) (size capacity : ℕ) → ℕ × (ℕ → ℕ) → Type 0
IsContent bytes before size capacity (n, out) =
    (n ≡ min size capacity) × IsFilled bytes before capacity size out

module _ {S : Type 0} (v : Volume S) (contents : S → ℕ → Sector) (disk : ℕ → Sector) where
  HoldsFile-start : (bytes : ℕ → ℕ) (n c size : ℕ) → HoldsFile bytes size v disk n c 0 → 2 ≤ c
  HoldsFile-start bytes zero c size h = absurd h
  HoldsFile-start bytes (suc n) c size h = (cluster_is_valid_le v c h.0).0

  sectors_per_read_positive : (m : Fat32 S) → 0 < m.io_batch_sectors → 0 < sectors_per_read m
  unfolding sectors_per_read
  sectors_per_read_positive m h = ground arith

  -- A read of a file gives the bytes that its chain holds, as many as fit in the buffer, or fails,
  -- when the device does. Neither the volume nor the disk changes.
  pub read_file_entry_lem :
      (bytes out : ℕ → ℕ) (n : ℕ) (entry : Sector) (capacity : ℕ) (m : Fat32 S)
      → IsFormatted v
      → 0 < m.io_batch_sectors
      → IsFile v disk bytes n entry
      → Stays v contents disk m
      → Returns
          (λ filled m'.
            IsContent bytes out (rd32 entry 28) capacity filled × Stays v contents disk m')
          (Stays v contents disk)
          (read_file_entry n entry capacity out m)
  unfolding read_file_entry
  read_file_entry_lem bytes out n entry capacity m f batch h st =
      Returns-guard (not (is_directory entry)) _
        (λ _. elim (Bool-cases (ltb (entry_first_cluster entry) 2)) [
          | inl empty ↦
              let none_there : rd32 entry 28 ≡ 0 = no_bytes h.holds empty in
              rw empty (record {
                ending = ((ground (arith, none_there), λ k. ground (arith, none_there)), st);
              })
          | inr some_there ↦ rw some_there (
              Returns-then_run
                (read_chain n (entry_first_cluster entry) (sectors_per_read m) (rd32 entry 28)
                  capacity (0, out) m)
                (read_chain_lem bytes out (rd32 entry 28) capacity v contents disk f
                  (sectors_per_read m) (sectors_per_read_positive m batch) n
                  (entry_first_cluster entry) 0 (0, out) m (its_chain h.holds some_there)
                  (omega arith) (refl, λ k. ground arith) st)
                (λ filled m₁ (h₁, st₁). record { ending = ((refl, h₁.1), st₁) }) (λ m₁ k. k))
        ])
        st
    where
      no_bytes :
          ((entry_first_cluster entry < 2) × (rd32 entry 28 ≡ 0))
            ⊎ HoldsFile bytes (rd32 entry 28) v disk n (entry_first_cluster entry) 0
          → ltb (entry_first_cluster entry) 2 ≡ true
          → rd32 entry 28 ≡ 0
      no_bytes (inl (low, none_there)) e = none_there
      no_bytes (inr chain) e = absurd (
          ground (arith, HoldsFile-start bytes n (entry_first_cluster entry) (rd32 entry 28) chain))

      its_chain :
          ((entry_first_cluster entry < 2) × (rd32 entry 28 ≡ 0))
            ⊎ HoldsFile bytes (rd32 entry 28) v disk n (entry_first_cluster entry) 0
          → ltb (entry_first_cluster entry) 2 ≡ false
          → HoldsFile bytes (rd32 entry 28) v disk n (entry_first_cluster entry) 0
      its_chain (inl (low, none_there)) e = absurd (ground arith)
      its_chain (inr chain) e = chain
