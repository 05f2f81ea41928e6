-- ===== src/Fs/Keep.antt =====
-- kernel/fs.c: the operations keep the table a tree.
use mathlib.Core.Path.{subst}
use tg11_os.Prelude.{
  ℕ, Bool, true, false, not, List, [], ◌≡◌, ◌≢◌, refl, sym, ap, ◌∙◌, arith, Bool-cases,
  Option-cases, inl, inr,
}
use tg11_os.Prelude.Distinct.{elem}
use tg11_os.Fs.{Node, Fs, str_eq, find_child, add_child}
use tg11_os.Fs.Paths.{resolve_path, split_parent_and_name}
use tg11_os.Fs.Resolve.{IsSameTree, str_eq_refl}
use tg11_os.Fs.Chain.{IsChain, IsChain-ext}
use tg11_os.Fs.Tree.{IsTree, find_child-none}
use tg11_os.Fs.Grow.{grown, deepened, grown-IsTree}
use tg11_os.Fs.Children.{IsAdded, add_child-IsAdded}
use tg11_os.Fs.Files.{write_node-IsWritten}
use tg11_os.Fs.Ops.{
  Source, node_data, write_node, fs_mkdir, fs_touch, fs_write_file, fs_cd, fs_cp, empty_fs,
}

pub record HasTree (nodes : ℕ → Node) : Type 0 where
  pub kids : ℕ → List ℕ
  pub depth : ℕ → ℕ
  pub tree : IsTree nodes kids depth

-- The fields that the invariant reads are the same.
same-HasTree :
    (f g : ℕ → Node)
    → IsSameTree f g
    → ((i : ℕ) → ((g i).used ≡ (f i).used) × ((g i).is_dir ≡ (f i).is_dir))
    → HasTree f
    → HasTree g
same-HasTree f g same kind h =
    let t = h.tree in
    let used : (i : ℕ) → (g i).used ≡ true → (f i).used ≡ true = λ i e. sym (kind i).0 ∙ e in
    record {
      kids = h.kids;
      depth = h.depth;
      tree = record {
        root_used = (kind 0).0 ∙ t.root_used;
        root_dir = (kind 0).1 ∙ t.root_dir;
        root_top = sym (same.same_parent 0) ∙ t.root_top;
        chain = λ d e.
            subst (λ o. IsChain g o (h.kids d)) (same.same_first d)
              (IsChain-ext f g (f d).first_child (h.kids d) (λ i inside. sym (same.same_next i))
                (t.chain d (used d e)));
        distinct = λ d e. t.distinct d (used d e);
        child = λ d i e inside.
            let c = t.child d i (used d e) inside in
            ((kind i).0 ∙ c.0, sym (same.same_parent i) ∙ c.1, c.2);
        listed = λ i p e q.
            let l = t.listed i p (used i e) (same.same_parent i ∙ q) in ((kind p).0 ∙ l.0, l.1);
        placed = λ i e inner.
            let (p, q) = t.placed i (used i e) inner in (p, sym (same.same_parent i) ∙ q);
        leaf = λ d e file. t.leaf d (used d e) (sym (kind d).1 ∙ file);
        named = λ d i j e inside inside' q.
            t.named d i j (used d e) inside inside'
              (same.same_name i ∙ (q ∙ sym (same.same_name j)));
        lower = λ i p e q. t.lower i p (used i e) (same.same_parent i ∙ q);
      };
    }

write_node-same :
    (node : ℕ) (from : Source) (size : ℕ) (s : Fs)
    → (write_node node from size s).0 ≡ false
    → (write_node node from size s).1 ≡ s
unfolding write_node
write_node-same node from size s e = ground (arith, e)

pair-eta : {A : Type 0} (r : Bool × A) (b : Bool) → r.0 ≡ b → r ≡ (b, r.1)
pair-eta r b e = ap (λ c. (c, r.1)) e

write_node-HasTree :
    (node : ℕ) (from : Source) (size : ℕ) (s : Fs)
    → HasTree s.nodes
    → HasTree (write_node node from size s).1.nodes
write_node-HasTree node from size s h = elim (Bool-cases (write_node node from size s).0) [
  | inr failed ↦ subst (λ q. HasTree q.nodes) (sym (write_node-same node from size s failed)) h
  | inl written ↦
      let s' = (write_node node from size s).1 in
      let w =
        write_node-IsWritten node from size s s'
          (pair-eta (write_node node from size s) true written) in
      same-HasTree s.nodes s'.nodes w.tree w.same_kind h
]

added-HasTree :
    (parent : ℕ) (name : List ℕ) (is_dir : Bool) (s s' : Fs) (idx : ℕ)
    → IsAdded parent name is_dir s idx s'
    → HasTree s.nodes
    → HasTree s'.nodes
added-HasTree parent name is_dir s s' idx a h =
    let fresh_name : (i : ℕ)
        → elem i (h.kids parent) ≡ true
        → (s.nodes i).name ≢ (s'.nodes idx).name =
      λ i inside e. ground (
        arith,
        find_child-none s.nodes h.kids h.depth h.tree parent name a.grown.in_use a.was_missing i
            inside,
        ap (λ l. str_eq l name) (e ∙ a.new_name),
        str_eq_refl name,
      ) in
    record {
      kids = grown s.nodes s'.nodes h.kids h.depth parent idx h.tree a.grown fresh_name;
      depth = deepened s.nodes s'.nodes h.kids h.depth parent idx h.tree a.grown fresh_name;
      tree = grown-IsTree s.nodes s'.nodes h.kids h.depth parent idx h.tree a.grown fresh_name;
    }

add_child-HasTree :
    (parent : ℕ) (name : List ℕ) (is_dir : Bool) (s : Fs)
    → HasTree s.nodes
    → HasTree (add_child parent name is_dir s).1.nodes
add_child-HasTree parent name is_dir s h = elim (add_child-IsAdded parent name is_dir s) [
  | inr failed ↦ subst (λ r. HasTree (r.1.nodes)) (sym failed) h
  | inl (idx, s', e, a) ↦
      subst (λ r. HasTree (r.1.nodes)) (sym e) (added-HasTree parent name is_dir s s' idx a h)
]

pub mkdir-HasTree : (path : List ℕ) (s : Fs) → HasTree s.nodes → HasTree (fs_mkdir path s).1.nodes
unfolding fs_mkdir
mkdir-HasTree path s h = elim (Option-cases (split_parent_and_name path s)) [
  | inl bad ↦ rw (bad, fs_mkdir) h
  | inr ((parent, name), e) ↦ rw (e, fs_mkdir) (add_child-HasTree parent name true s h)
]

pub touch-HasTree : (path : List ℕ) (s : Fs) → HasTree s.nodes → HasTree (fs_touch path s).1.nodes
unfolding fs_touch
touch-HasTree path s h = elim (Option-cases (split_parent_and_name path s)) [
  | inl bad ↦ rw (bad, fs_touch) h
  | inr ((parent, name), e) ↦
      let made = add_child parent name false s in
      let made-HasTree : HasTree made.1.nodes = add_child-HasTree parent name false s h in
      elim (Option-cases made.0) [
        | inr (i, new) ↦ rw (e, new, fs_touch) made-HasTree
        | inl failed ↦ elim (Option-cases (find_child parent name made.1.nodes)) [
          | inl missing ↦ rw (e, failed, missing, fs_touch) made-HasTree
          | inr (n, exists) ↦ rw (e, failed, exists, fs_touch) made-HasTree
        ]
      ]
]

pub write-HasTree :
    (path : List ℕ) (from : Source) (size : ℕ) (s : Fs)
    → HasTree s.nodes
    → HasTree (fs_write_file path from size s).1.nodes
unfolding fs_write_file
write-HasTree path from size s h = elim (Option-cases (resolve_path path s)) [
  | inr (node, e) ↦ rw (e, fs_write_file) (write_node-HasTree node from size s h)
  | inl missing ↦
      let touched = fs_touch path s in
      let touched-HasTree : HasTree touched.1.nodes = touch-HasTree path s h in
      elim (Bool-cases touched.0) [
        | inr refused ↦ rw (missing, refused, fs_write_file) touched-HasTree
        | inl made ↦ elim (Option-cases (resolve_path path touched.1)) [
          | inl lost ↦ rw (missing, made, lost, fs_write_file) touched-HasTree
          | inr (node, e) ↦
              rw (missing, made, e, fs_write_file)
                (write_node-HasTree node from size touched.1 touched-HasTree)
        ]
      ]
]

pub cp-HasTree : (src dst : List ℕ) (s : Fs) → HasTree s.nodes → HasTree (fs_cp src dst s).1.nodes
unfolding fs_cp
cp-HasTree src dst s h = elim (Option-cases (resolve_path src s)) [
  | inl missing ↦ rw (missing, fs_cp) h
  | inr (n, e) ↦ elim (Bool-cases (s.nodes n).is_dir) [
    | inl dir ↦ rw (e, dir, fs_cp) h
    | inr file ↦ rw (e, file, fs_cp) (write-HasTree dst (node_data n) (s.nodes n).size s h)
  ]
]

pub cd-HasTree : (path : List ℕ) (s : Fs) → HasTree s.nodes → HasTree (fs_cd path s).1.nodes
unfolding fs_cd
cd-HasTree path s h = elim (Option-cases (resolve_path path s)) [
  | inl missing ↦ rw (missing, fs_cd) h
  | inr (n, e) ↦ elim (Bool-cases (not (s.nodes n).is_dir)) [
    | inl file ↦ rw (e, file, fs_cd) h
    | inr dir ↦ rw (e, dir, fs_cd) h
  ]
]

pub empty_fs-HasTree : (s : Fs) → HasTree (empty_fs s).nodes
unfolding empty_fs
empty_fs-HasTree s = record {
  kids = λ _. [];
  depth = λ _. 0;
  tree = record {
    root_used = refl;
    root_dir = refl;
    root_top = refl;
    chain = λ d used. ground arith;
    distinct = λ d used. record {};
    child = λ d i used inside. cc;
    listed = λ i p used e. ground (arith, used, e);
    placed = λ i used inner. ground (arith, used, inner);
    leaf = λ d used file. refl;
    named = λ d i j used inside inside' e. cc;
    lower = λ i p used e. ground (arith, used, e);
  };
}
