-- ===== src/Fs/Tests.antt =====
-- kernel/fs.c: runs at concrete states, and the theorems at such states.
use tg11_os.Prelude.{
  Option, ℕ, ◌+◌, Bool, true, false, none, some, List, [], ◌∷◌, ◌≡◌, refl, arith, ◌⊎◌,
}
use tg11_os.Fs.{
  Node, Fs, str_eq, str_copy, find_child, find_from, free_node, alloc_node, cannot_add, attach,
  place_child, add_child, unlink_from, unlink_node_from_parent,
}
use tg11_os.Fs.Paths.{
  skip_slashes, take_part, step, resolve_from, resolve_path, returned, enter, split_from,
  split_parent_and_name,
}
use tg11_os.Fs.Resolve.{starts_part}
use tg11_os.Fs.Split.{IsSplit, split_parent_and_name-IsSplit, resolve_from-fuel}
use tg11_os.Fs.Children.{IsAdded, add_child-IsAdded}
use tg11_os.Fs.Files.{IsRead, fs_read_file-fs_write_file}
use tg11_os.Fs.Keep.{HasTree, empty_fs-HasTree, mkdir-HasTree}
use tg11_os.Fs.Space.{IsCapped, room, fs_free_bytes_lem}
use tg11_os.Fs.Runs.{mv, run, run-HasTree}
use tg11_os.Fs.Ops.{
  fill, fs_free_bytes, outside, write_node, fs_mkdir, fs_touch, fs_write_file, fs_read_file, fs_rm,
  rm_node, fs_cd, empty_fs,
}

abbrev a_path : List ℕ
a_path = b'a' ∷ []

abbrev b_path : List ℕ
b_path = b'/' ∷ b'b' ∷ []

abbrev a_b_path : List ℕ
a_b_path = b'a' ∷ b'/' ∷ b'b' ∷ []

abbrev blank : Node
blank = record {
  used = false;
  is_dir = false;
  parent = none;
  first_child = none;
  next_sibling = none;
  name = [];
  size = 0;
  bytes = λ _. 0;
}

start : Fs
start = empty_fs (record { nodes = λ _. blank; cwd_node = 0 })

-- With the directory `a`.
with_a : Fs
with_a = (fs_mkdir a_path start).1

with_a-HasTree : HasTree with_a.nodes
unfolding with_a start
with_a-HasTree = mkdir-HasTree a_path start (empty_fs-HasTree _)

with_a-home : (with_a.nodes with_a.cwd_node).used ≡ true
unfolding with_a start empty_fs fs_mkdir split_parent_and_name split_from take_part skip_slashes
    add_child cannot_add str_eq str_copy find_child find_from alloc_node free_node place_child
    attach
with_a-home = refl

run-HasTree_example : HasTree (run (mv a_path b_path) with_a).1.nodes
run-HasTree_example = run-HasTree (mv a_path b_path) with_a with_a-HasTree with_a-home

-- The write of three bytes at `/b` makes a file.
with_b : Fs
with_b = (fs_write_file b_path (outside (λ i. i + 65)) 3 start).1

write_run : fs_write_file b_path (outside (λ i. i + 65)) 3 start ≡ (true, with_b)
unfolding with_b start empty_fs fs_write_file write_node fs_touch resolve_path resolve_from step
    split_parent_and_name split_from take_part skip_slashes add_child cannot_add str_eq str_copy
    find_child find_from alloc_node free_node place_child attach
write_run = refl

fs_read_file-fs_write_file_example :
    IsRead (λ i. i + 65) 3 2 (λ _. 0) (fs_read_file b_path (some (λ _. 0)) 2 true with_b)
fs_read_file-fs_write_file_example =
    fs_read_file-fs_write_file b_path (λ i. i + 65) 3 2 (λ _. 0) start with_b write_run

split_run : split_parent_and_name a_b_path with_a ≡ some (1, b'b' ∷ [])
unfolding with_a start empty_fs fs_mkdir split_parent_and_name split_from enter take_part
    skip_slashes add_child cannot_add str_eq str_copy find_child find_from alloc_node free_node
    place_child attach
split_run = refl

split_parent_and_name-IsSplit_example :
    IsSplit with_a.nodes 1 (b'b' ∷ []) (resolve_path a_b_path with_a)
split_parent_and_name-IsSplit_example =
    split_parent_and_name-IsSplit a_b_path with_a 1 (b'b' ∷ []) split_run

resolve_from-fuel_example :
    (r : Option ℕ) × (resolve_from 3 0 a_b_path with_a.nodes ≡ returned r)
    × (resolve_from 100 0 a_b_path with_a.nodes ≡ returned r)
unfolding starts_part
resolve_from-fuel_example =
    resolve_from-fuel with_a.nodes 3 100 0 a_b_path refl (omega arith) (omega arith)

add_child-IsAdded_example :
    ((idx : ℕ) × (s' : Fs) × (add_child 0 a_path true start ≡ (some idx, s'))
      × IsAdded 0 a_path true start idx s')
    ⊎ (add_child 0 a_path true start ≡ (none, start))
add_child-IsAdded_example = add_child-IsAdded 0 a_path true start

-- The current directory can be removed, which leaves it at a node that is free.
home_of : Fs → Bool
home_of s = (s.nodes s.cwd_node).used

rm_home_run : home_of (fs_rm (b'.' ∷ []) (fs_cd a_path with_a).1).1 ≡ false
unfolding home_of with_a start empty_fs fs_rm rm_node fs_cd unlink_node_from_parent unlink_from
    resolve_path resolve_from step fs_mkdir split_parent_and_name split_from take_part skip_slashes
    add_child cannot_add str_eq str_copy find_child find_from alloc_node free_node place_child
    attach
rm_home_run = refl

with_b-IsCapped : IsCapped with_b.nodes
unfolding IsCapped with_b start empty_fs fs_write_file write_node fill fs_touch resolve_path
    resolve_from step split_parent_and_name split_from take_part skip_slashes add_child cannot_add
    str_eq str_copy find_child find_from alloc_node free_node place_child attach
with_b-IsCapped i = ground arith

fs_free_bytes_lem_example : fs_free_bytes with_b ≡ room 255 1 with_b.nodes
fs_free_bytes_lem_example = fs_free_bytes_lem with_b with_b-IsCapped
