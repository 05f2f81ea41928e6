-- ===== src/Fs/Space.antt =====
-- kernel/fs.c: what `fs_free_bytes` counts.
use tg11_os.Prelude.{
  ℕ, zero, suc, ◌+◌, ◌-◌, ◌*◌, ◌≤◌, if◌then◌else◌, ◌≡◌, arith, Bool-cases, inl, inr,
}
use tg11_os.Fs.{Node, Fs}
use tg11_os.Fs.Ops.{count_dirs, count_bytes, fs_free_bytes}

-- No file is longer than `fs_write_file` makes it.
unfoldable pub IsCapped : (ℕ → Node) → Type 0
IsCapped nodes = (i : ℕ) → (nodes i).size ≤ 8191

-- The bytes that can still be put in the file of a slot; a free slot can be made a file.
abbrev pub room_of : Node → ℕ
room_of node = if node.used then (if node.is_dir then 0 else 8191 - node.size) else 8191

-- Those of the slots from `i` on, together.
unfoldable pub room : (left i : ℕ) → (ℕ → Node) → ℕ
room zero i nodes = 0
room (suc left) i nodes = room_of (nodes i) + room left (i + 1) nodes

-- The two counters of `fs_free_bytes` leave this room.
count-room :
    (left i : ℕ) (nodes : ℕ → Node)
    → IsCapped nodes
    → (count_dirs left i nodes ≤ left)
      × (count_bytes left i nodes + count_dirs left i nodes * 8191 + room left i nodes
          ≡ left * 8191)
unfolding count_dirs count_bytes IsCapped room
count-room zero i nodes capped = (omega arith, omega arith)
count-room (suc left) i nodes capped =
    let rest = count-room left (i + 1) nodes capped in
    elim (Bool-cases (nodes i).used) [
      | inr free ↦ (ground (arith, free, rest), ground (arith, free, rest))
      | inl used ↦ elim (Bool-cases (nodes i).is_dir) [
        | inl dir ↦ (ground (arith, used, dir, rest), ground (arith, used, dir, rest))
        | inr file ↦ (ground (arith, used, file, rest), ground (arith, used, file, rest, capped i))
      ]
    ]

-- While no file is longer than 8191 bytes, the free bytes are the bytes that can still be put in
-- the slots 1 to 255: 8191 in a free one, none in a directory, and in a file what is missing to
-- 8191.
pub fs_free_bytes_lem : (s : Fs) → IsCapped s.nodes → fs_free_bytes s ≡ room 255 1 s.nodes
unfolding fs_free_bytes
fs_free_bytes_lem s capped = ground (arith, count-room 255 1 s.nodes capped)
