-- ===== src/Fat32/Names.antt =====
-- kernel/fat32.c, names of eight and three characters, and the parts of a path. A string is the list
-- of its characters, without the NUL.
use tg11_os.Prelude.{
  ℕ, zero, suc, ◌+◌, ◌-◌, Bool, true, false, not, ◌&&◌, ◌||◌, Option, none, some, List, [], ◌∷◌,
  ◌++◌, ltb, leb, ◌==◌, if◌then◌else◌, update, u8, length,
}
use tg11_os.Block.{Sector}

abbrev pub space : ℕ
space = 0x20

abbrev pub dot_char : ℕ
dot_char = 0x2E

unfoldable pub upcase : ℕ → ℕ
upcase c = if leb 0x61 c && leb c 0x7A then c - 0x61 + 0x41 else c

unfoldable pub is_slash : ℕ → Bool
is_slash c = c == 0x2F || c == 0x5C

-- The loop of `fat32_name_to_83`; `out83` is filled as it runs.
unfoldable pub name_loop : List ℕ → (in_ext : Bool) (base_len ext_len : ℕ) → Sector → Option Sector
name_loop [] in_ext base_len ext_len out83 = if base_len == 0 then none else some out83
name_loop (c ∷ name) in_ext base_len ext_len out83 =
    if is_slash (upcase c)
    then none
    else if upcase c == dot_char
    then (if in_ext then none else name_loop name true base_len ext_len out83)
    else if not in_ext
    then (if leb 8 base_len
        then none
        else name_loop name in_ext (base_len + 1) ext_len (update out83 base_len (u8 (upcase c))))
    else if leb 3 ext_len
    then none
    else name_loop name in_ext base_len (ext_len + 1) (update out83 (8 + ext_len) (u8 (upcase c)))

unfoldable pub name_to_83 : List ℕ → Option Sector
name_to_83 [] = none
name_to_83 (c ∷ name) = name_loop (c ∷ name) false 0 0 (λ _. space)

-- The length without the spaces at the end, of `n` characters from `start` on.
unfoldable pub trimmed : Sector → ℕ → ℕ → ℕ
trimmed entry start zero = 0
trimmed entry start (suc n) = if entry (start + n) == space then trimmed entry start n else suc n

-- Characters from `start` on, as long as they fit in `out_sz` with the NUL; `i` are there already.
unfoldable pub copy_chars : Sector → ℕ → (left i out_sz : ℕ) → List ℕ
copy_chars entry start zero i out_sz = []
copy_chars entry start (suc left) i out_sz =
    if ltb (i + 1) out_sz
    then entry start ∷ copy_chars entry (start + 1) left (i + 1) out_sz
    else []

unfoldable pub with_ext : Sector → List ℕ → ℕ → ℕ → List ℕ
with_ext entry base end_ext out_sz =
    if ltb 0 end_ext && ltb (length base + 2) out_sz
    then base ++ dot_char ∷ copy_chars entry 8 end_ext (length base + 1) out_sz
    else base

unfoldable pub fat83_to_name : Sector → ℕ → List ℕ
fat83_to_name entry out_sz =
    with_ext entry (copy_chars entry 0 (trimmed entry 0 8) 0 out_sz) (trimmed entry 8 3) out_sz

-- `path_next_part`: the next part, of less than `out_sz` characters, and what follows it.
unfoldable pub skip_separators : List ℕ → List ℕ
skip_separators [] = []
skip_separators (c ∷ path) = if is_slash c then skip_separators path else c ∷ path

abbrev pub put_before : ℕ → Option (List ℕ × List ℕ) → Option (List ℕ × List ℕ)
put_before c none = none
put_before c (some (part, rest)) = some (c ∷ part, rest)

unfoldable pub copy_part : List ℕ → (i out_sz : ℕ) → Option (List ℕ × List ℕ)
copy_part [] i out_sz = some ([], [])
copy_part (c ∷ path) i out_sz =
    if is_slash c
    then some ([], c ∷ path)
    else if leb out_sz (i + 1)
    then none
    else put_before c (copy_part path (i + 1) out_sz)

unfoldable pub path_next_part : List ℕ → ℕ → Option (List ℕ × List ℕ)
path_next_part path out_sz = copy_part (skip_separators path) 0 out_sz

unfoldable pub is_dot : List ℕ → Bool
is_dot [] = false
is_dot (a ∷ []) = a == dot_char
is_dot (a ∷ b ∷ part) = false

unfoldable pub is_dotdot : List ℕ → Bool
is_dotdot [] = false
is_dotdot (a ∷ []) = false
is_dotdot (a ∷ b ∷ []) = a == dot_char && b == dot_char
is_dotdot (a ∷ b ∷ c ∷ part) = false

abbrev pub is_empty : List ℕ → Bool
is_empty [] = true
is_empty (c ∷ part) = false
