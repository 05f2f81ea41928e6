-- ===== src/Fs/Tree.antt =====
-- kernel/fs.c: the invariant of the table of nodes.
use Prim.Native.Nat.{◌<◌}
use tg11_os.Prelude.{ℕ, ◌≤◌, true, false, none, some, List, [], length, ◌≡◌, ◌≢◌}
use tg11_os.Prelude.Distinct.{elem, IsDistinct, length-IsDistinct}
use tg11_os.Fs.{Node, str_eq, find_child, fs_max_nodes}
use tg11_os.Fs.Chain.{IsChain, find_from-some, find_from-none}

-- `kids` are the children of each node in the order of its list, and `depth` grows from a node to
-- its children. The used nodes are a tree below the root, the names in a directory differ, and
-- only directories have children.
pub record IsTree (nodes : ℕ → Node) (kids : ℕ → List ℕ) (depth : ℕ → ℕ) : Type 0 where
  pub root_used : (nodes 0).used ≡ true
  pub root_dir : (nodes 0).is_dir ≡ true
  pub root_top : (nodes 0).parent ≡ none
  pub chain : (d : ℕ) → (nodes d).used ≡ true → IsChain nodes (nodes d).first_child (kids d)
  pub distinct : (d : ℕ) → (nodes d).used ≡ true → IsDistinct (kids d)
  pub child :
      (d i : ℕ)
      → (nodes d).used ≡ true
      → elem i (kids d) ≡ true
      → ((nodes i).used ≡ true) × ((nodes i).parent ≡ some d) × (i < fs_max_nodes)
  pub listed :
      (i p : ℕ)
      → (nodes i).used ≡ true
      → (nodes i).parent ≡ some p
      → ((nodes p).used ≡ true) × (elem i (kids p) ≡ true)
  pub placed : (i : ℕ) → (nodes i).used ≡ true → i ≢ 0 → (p : ℕ) × ((nodes i).parent ≡ some p)
  pub leaf : (d : ℕ) → (nodes d).used ≡ true → (nodes d).is_dir ≡ false → kids d ≡ []
  pub named :
      (d i j : ℕ)
      → (nodes d).used ≡ true
      → elem i (kids d) ≡ true
      → elem j (kids d) ≡ true
      → (nodes i).name ≡ (nodes j).name
      → i ≡ j
  pub lower : (i p : ℕ) → (nodes i).used ≡ true → (nodes i).parent ≡ some p → depth p < depth i

module _ (nodes : ℕ → Node) (kids : ℕ → List ℕ) (depth : ℕ → ℕ) (t : IsTree nodes kids depth) where
  -- The fuel of the walks is enough for every list.
  pub length_kids : (d : ℕ) → (nodes d).used ≡ true → length (kids d) ≤ fs_max_nodes
  length_kids d used =
      length-IsDistinct fs_max_nodes (kids d) (t.distinct d used)
        (λ i inside. (t.child d i used inside).2)

  pub find_child-some :
      (d : ℕ) (name : List ℕ) (i : ℕ)
      → (nodes d).used ≡ true
      → find_child d name nodes ≡ some i
      → (elem i (kids d) ≡ true) × (str_eq (nodes i).name name ≡ true)
  unfolding find_child
  find_child-some d name i used e =
      find_from-some nodes fs_max_nodes (nodes d).first_child (kids d) name i (t.chain d used) e

  pub find_child-none :
      (d : ℕ) (name : List ℕ)
      → (nodes d).used ≡ true
      → find_child d name nodes ≡ none
      → (i : ℕ) → elem i (kids d) ≡ true
      → str_eq (nodes i).name name ≡ false
  unfolding find_child
  find_child-none d name used e =
      find_from-none nodes fs_max_nodes (nodes d).first_child (kids d) name (t.chain d used)
        (length_kids d used) e
