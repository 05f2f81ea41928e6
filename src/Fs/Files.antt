-- ===== src/Fs/Files.antt =====
-- kernel/fs.c: reading back what was written.
use Prim.Native.Nat.{◌<◌}
use tg11_os.Prelude.{
  ℕ, zero, suc, ◌≤◌, true, false, not, ◌&&◌, Option, some, List, ltb, ◌==◌, if◌then◌else◌, ◌≡◌, ◌≢◌,
  refl, sym, ap, ◌∙◌, arith, Bool-cases, Option-cases, inl, inr,
}
use mathlib.Core.Path.{subst}
use tg11_os.Fs.{Fs, modify}
use tg11_os.Fs.Paths.{resolve_path}
use tg11_os.Fs.Resolve.{IsSameTree, resolve_path-ext}
use tg11_os.Fs.Ops.{
  Source, outside, read_source, is_null, copy_bytes, kept, fill, write_node, fs_write_file,
  fs_read_file, min_of, fs_touch,
}

copy_bytes-at :
    (n : ℕ) (from to : ℕ → ℕ) (i : ℕ) → copy_bytes n from to i ≡ (if ltb i n then from i else to i)
unfolding copy_bytes
copy_bytes-at zero from to i = ground arith
copy_bytes-at (suc n) from to i = ground (arith, copy_bytes-at n from to i)

-- The node that was written and its content.
pub record IsWritten (node : ℕ) (from : Source) (size : ℕ) (s s' : Fs) : Type 0 where
  pub is_file : (s.nodes node).is_dir ≡ false
  pub new_size : (s'.nodes node).size ≡ kept size
  pub content : (i : ℕ) → i < kept size → (s'.nodes node).bytes i ≡ read_source from s.nodes i
  pub ended : (s'.nodes node).bytes (kept size) ≡ 0
  pub still_file : (s'.nodes node).is_dir ≡ false
  pub tree : IsSameTree s.nodes s'.nodes
  pub same_kind :
      (i : ℕ) → ((s'.nodes i).used ≡ (s.nodes i).used) × ((s'.nodes i).is_dir ≡ (s.nodes i).is_dir)
  pub others : (i : ℕ) → i ≢ node → s'.nodes i ≡ s.nodes i
  pub same_cwd : s'.cwd_node ≡ s.cwd_node

written :
    (node : ℕ) (from : Source) (size : ℕ) (s : Fs)
    → (s.nodes node).is_dir ≡ false
    → IsWritten node from size s
        (record s { nodes = modify s.nodes node (fill from (kept size) s.nodes) })
unfolding fill
written node from size s file =
    let read =
      λ (i : ℕ). copy_bytes-at (kept size) (read_source from s.nodes) (s.nodes node).bytes i in
    record {
      is_file = file;
      new_size = ground arith;
      content = λ i lt. ground (arith, read i);
      ended = ground arith;
      still_file = ground (arith, file);
      tree = record {
        same_parent = λ i. ground arith;
        same_first = λ i. ground arith;
        same_next = λ i. ground arith;
        same_name = λ i. ground arith;
      };
      same_kind = λ i. (ground arith, ground arith);
      others = λ i ne. ground arith;
      same_cwd = refl;
    }

pub write_node-IsWritten :
    (node : ℕ) (from : Source) (size : ℕ) (s s' : Fs)
    → write_node node from size s ≡ (true, s')
    → IsWritten node from size s s'
unfolding write_node
write_node-IsWritten node from size s s' e = elim (Bool-cases (s.nodes node).is_dir) [
  | inl dir ↦ ground (arith, e, dir)
  | inr file ↦ elim (Bool-cases (is_null from && not (size == 0))) [
    | inl empty ↦ ground (arith, e, file, empty)
    | inr usable ↦
        let made = record s { nodes = modify s.nodes node (fill from (kept size) s.nodes) } in
        let same : made ≡ s' = ground (arith, e, file, usable) in
        subst (λ q. IsWritten node from size s q) same (written node from size s file)
  ]
]

-- The path leads to the node that was written, in the state that the write began with.
pub record IsStored (path : List ℕ) (from : Source) (size : ℕ) (s' : Fs) : Type 0 where
  pub before : Fs
  pub node : ℕ
  pub leads : resolve_path path before ≡ some node
  pub write : IsWritten node from size before s'

fs_write_file-IsStored :
    (path : List ℕ) (from : Source) (size : ℕ) (s s' : Fs)
    → fs_write_file path from size s ≡ (true, s')
    → IsStored path from size s'
unfolding fs_write_file
fs_write_file-IsStored path from size s s' e = elim (Option-cases (resolve_path path s)) [
  | inr (node, leads) ↦ record {
    before = s;
    node = node;
    leads = leads;
    write = write_node-IsWritten node from size s s' (ground (arith, e, leads));
  }
  | inl missing ↦ elim (Bool-cases (fs_touch path s).0) [
    | inr refused ↦ ground (arith, e, missing, refused)
    | inl touched ↦ elim (Option-cases (resolve_path path (fs_touch path s).1)) [
      | inl lost ↦ ground (arith, e, missing, touched, lost)
      | inr (node, leads) ↦ record {
        before = (fs_touch path s).1;
        node = node;
        leads = leads;
        write =
            write_node-IsWritten node from size (fs_touch path s).1 s'
              (ground (arith, e, missing, touched, leads));
      }
    ]
  ]
]

-- A buffer `to` of the given capacity is filled with the bytes that were written.
pub record IsRead (from : ℕ → ℕ) (size capacity : ℕ) (to : ℕ → ℕ) (r : Option (Option (ℕ → ℕ) × ℕ))
    : Type 0 where
  pub out : ℕ → ℕ
  pub count : ℕ
  pub result : r ≡ some (some out, count)
  pub count_is : count ≡ min_of (kept size) capacity
  pub same_bytes : (i : ℕ) → i < count → out i ≡ from i
  pub rest : (i : ℕ) → count ≤ i → out i ≡ to i

fs_read_file-IsRead :
    (path : List ℕ) (from : ℕ → ℕ) (size capacity : ℕ) (to : ℕ → ℕ) (s' : Fs) (node : ℕ)
    → resolve_path path s' ≡ some node
    → (s'.nodes node).is_dir ≡ false
    → (s'.nodes node).size ≡ kept size
    → ((i : ℕ) → i < kept size → (s'.nodes node).bytes i ≡ from i)
    → IsRead from size capacity to (fs_read_file path (some to) capacity true s')
unfolding fs_read_file
fs_read_file-IsRead path from size capacity to s' node leads file sized content =
    let n = min_of (s'.nodes node).size capacity in
    let read = λ (i : ℕ). copy_bytes-at n (s'.nodes node).bytes to i in
    record {
      out = copy_bytes n (s'.nodes node).bytes to;
      count = n;
      result = ground (arith, leads, file);
      count_is = ap (λ k. min_of k capacity) sized;
      same_bytes = λ i lt. ground (arith, read i, content i, sized);
      rest = λ i le. ground (arith, read i);
    }

-- After a write that reports success, a read at the same path gives the bytes that were written,
-- up to the limit of a file and the capacity of the buffer, whether the write found the file or
-- made it.
pub fs_read_file-fs_write_file :
    (path : List ℕ) (from : ℕ → ℕ) (size capacity : ℕ) (to : ℕ → ℕ) (s s' : Fs)
    → fs_write_file path (outside from) size s ≡ (true, s')
    → IsRead from size capacity to (fs_read_file path (some to) capacity true s')
unfolding read_source
fs_read_file-fs_write_file path from size capacity to s s' e =
    let stored = fs_write_file-IsStored path (outside from) size s s' e in
    let w = stored.write in
    let leads : resolve_path path s' ≡ some stored.node =
      ap (λ c. resolve_path path (record { nodes = s'.nodes; cwd_node = c })) w.same_cwd
      ∙ (sym (resolve_path-ext stored.before.nodes s'.nodes w.tree path stored.before.cwd_node)
          ∙ stored.leads) in
    fs_read_file-IsRead path from size capacity to s' stored.node leads w.still_file w.new_size
      w.content
