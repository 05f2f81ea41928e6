-- ===== src/Fs/Children.antt =====
-- kernel/fs.c: a node that `add_child` makes is found under its name.
use Prim.Native.Nat.{◌<◌}
use tg11_os.Prelude.{
  ℕ, zero, suc, ◌+◌, ◌≤◌, Bool, false, none, some, List, ◌≡◌, ◌≢◌, refl, ap, arith, Bool-cases,
  Option-cases, inl, inr, ◌⊎◌,
}
use tg11_os.Fs.{
  Node, Fs, fs_name_max, find_child, find_from, free_node, fresh, alloc_node, cannot_add, attach,
  add_child, modify, place_child,
}
use tg11_os.Fs.Grow.{IsGrown}
use tg11_os.Fs.Resolve.{str_copy-short, str_eq_refl}

free_node-some :
    (left i j : ℕ) (nodes : ℕ → Node)
    → free_node left i nodes ≡ some j
    → ((nodes j).used ≡ false) × (i ≤ j) × (j < i + left)
unfolding free_node
free_node-some zero i j nodes e = ground (arith, e)
free_node-some (suc left) i j nodes e = elim (Bool-cases (nodes i).used) [
  | inr free ↦ ground (arith, e, free)
  | inl taken ↦
      ground (arith, e, taken, free_node-some left (i + 1) j nodes (ground (arith, e, taken)))
]

alloc_node-none : (s : Fs) → free_node 255 1 s.nodes ≡ none → alloc_node s ≡ (none, s)
unfolding alloc_node
alloc_node-none s full = rw (full, alloc_node) refl

alloc_node-some :
    (s : Fs) (idx : ℕ)
    → free_node 255 1 s.nodes ≡ some idx
    → alloc_node s ≡ (some idx, record s { nodes = modify s.nodes idx fresh })
unfolding alloc_node
alloc_node-some s idx e = rw (e, alloc_node) refl

-- What a call of `add_child` that makes the node `idx` has done.
pub record IsAdded (parent : ℕ) (name : List ℕ) (is_dir : Bool) (s : Fs) (idx : ℕ) (s' : Fs)
    : Type 0 where
  pub grown : IsGrown s.nodes s'.nodes parent idx
  pub found : find_child parent name s'.nodes ≡ some idx
  pub was_missing : find_child parent name s.nodes ≡ none
  pub new_name : (s'.nodes idx).name ≡ name
  pub kind : (s'.nodes idx).is_dir ≡ is_dir
  pub empty : ((s'.nodes idx).first_child ≡ none) × ((s'.nodes idx).size ≡ 0)
  pub others : (i : ℕ) → i ≢ idx → i ≢ parent → s'.nodes i ≡ s.nodes i
  pub same_cwd : s'.cwd_node ≡ s.cwd_node

added :
    (parent : ℕ) (name : List ℕ) (is_dir : Bool) (s : Fs) (idx : ℕ)
    → cannot_add parent name s.nodes ≡ false
    → find_child parent name s.nodes ≡ none
    → free_node 255 1 s.nodes ≡ some idx
    → IsAdded parent name is_dir s idx
        (record s { nodes = attach idx parent name is_dir (modify s.nodes idx fresh) })
unfolding attach find_child find_from cannot_add
added parent name is_dir s idx allowed missing e =
    let free = free_node-some 255 1 idx s.nodes e in
    let apart : idx ≢ parent =
      λ same. ground (arith, free, allowed, ap (λ i. (s.nodes i).used) same) in
    let copied = str_copy-short (fs_name_max + 1) name (ground (arith, allowed)) in
    record {
      grown = record {
        was_free = free.0;
        in_table = ground (arith, free);
        not_root = ground (arith, free);
        in_use = ground (arith, allowed);
        in_dir = ground (arith, allowed);
        new_used = ground (arith, apart);
        new_parent = ground (arith, apart);
        new_first = ground (arith, apart);
        new_next = ground (arith, apart);
        new_head = ground (arith, apart);
        others = λ i ne. (ground arith, ground arith, ground arith, ground arith, ground arith);
        same_first = λ i ne ne'. ground arith;
      };
      found = ground (arith, apart, copied, str_eq_refl name);
      was_missing = missing;
      new_name = ground (arith, apart, copied);
      kind = ground (arith, apart);
      empty = (ground (arith, apart), ground (arith, apart));
      others = λ i ne ne'. ground arith;
      same_cwd = refl;
    }

-- If `add_child` succeeds, the new node took a free slot other than the root's, the name did not
-- occur in the directory before and leads to the new node now, and only the new node and its
-- parent have changed. If it fails nothing has changed.
pub add_child-IsAdded :
    (parent : ℕ) (name : List ℕ) (is_dir : Bool) (s : Fs)
    → ((idx : ℕ) × (s' : Fs) × (add_child parent name is_dir s ≡ (some idx, s'))
        × IsAdded parent name is_dir s idx s')
      ⊎ (add_child parent name is_dir s ≡ (none, s))
unfolding add_child place_child
add_child-IsAdded parent name is_dir s = elim (Bool-cases (cannot_add parent name s.nodes)) [
  | inl refused ↦ inr (rw refused refl)
  | inr allowed ↦ elim (Option-cases (find_child parent name s.nodes)) [
    | inr (n, exists) ↦ inr (rw (allowed, exists) refl)
    | inl missing ↦ elim (Option-cases (free_node 255 1 s.nodes)) [
      | inl full ↦ inr (rw (allowed, missing, alloc_node-none s full) refl)
      | inr (idx, e) ↦ inl (
        idx,
        record s { nodes = attach idx parent name is_dir (modify s.nodes idx fresh) },
        rw (allowed, missing, alloc_node-some s idx e) refl,
        added parent name is_dir s idx allowed missing e,
      )
    ]
  ]
]
