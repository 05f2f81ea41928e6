-- ===== src/Task/Ring.antt =====
-- kernel/task.c: the ring of `next` pointers through the task table, and the walks round it.
use Prim.Native.Nat.{◌<◌}
use tg11_os.Prelude.{
  ℕ, zero, suc, ◌≤◌, true, false, some, List, [], ◌∷◌, ◌==◌, if◌then◌else◌, ◌≡◌, ◌≢◌, ◌∙◌, arith,
  length, Bool-cases, inl, inr, ==-eq,
}
use tg11_os.Prelude.Distinct.{elem, IsDistinct, without, elem-ne}
use tg11_os.Task.{Task, done, set_next, modify, unlink_from}

-- The pointers lead from `p` through the slots `xs` to `q`.
abbrev pub IsPath : (ℕ → Task) → ℕ → List ℕ → ℕ → Type 0
IsPath tasks p [] q = (tasks p).next ≡ some q
IsPath tasks p (x ∷ xs) q = ((tasks p).next ≡ some x) × IsPath tasks x xs q

-- A path depends on the pointers of its own slots alone.
pub IsPath-ext :
    (f g : ℕ → Task) (p : ℕ) (xs : List ℕ) (q : ℕ)
    → ((i : ℕ) → elem i (p ∷ xs) ≡ true → (g i).next ≡ (f i).next)
    → IsPath f p xs q
    → IsPath g p xs q
IsPath-ext f g p [] q same h = same p (ground arith) ∙ h
IsPath-ext f g p (x ∷ xs) q same h =
    (same p (ground arith) ∙ h.0, IsPath-ext f g x xs q (λ i e. same i (ground arith)) h.1)

-- The slot whose pointer leads to `t`.
abbrev pub before : ℕ → ℕ → List ℕ → ℕ
before t p [] = p
before t p (x ∷ xs) = if x == t then p else before t x xs

abbrev pub unlinked : ℕ → ℕ → List ℕ → (ℕ → Task) → ℕ → Task
unlinked t p xs tasks = modify tasks (before t p xs) (set_next (tasks t).next)

-- The walk of `unlink_task` finds `t`, and redirects the pointer before it.
pub unlink_from-elem :
    (fuel p t : ℕ) (xs : List ℕ) (tasks : ℕ → Task)
    → length xs ≤ fuel
    → IsPath tasks p xs 0
    → elem 0 xs ≡ false
    → elem t xs ≡ true
    → unlink_from fuel p t tasks ≡ done (unlinked t p xs tasks)
unfolding unlink_from
unlink_from-elem fuel p t [] tasks enough path live here = cc
unlink_from-elem zero p t (x ∷ xs) tasks enough path live here = absurd (omega arith)
unlink_from-elem (suc fuel) p t (x ∷ xs) tasks enough path live here = elim (Bool-cases (x == t)) [
  | inl found ↦ rw (path.0, found, unlink_from)
  | inr other ↦
      let on : (x == 0) ≡ false = ground arith in
      rw (path.0, other, on, unlink_from)
        (unlink_from-elem fuel x t xs tasks (omega arith) path.1 (ground arith) (ground arith))
]

-- Where `t` is not in the ring the walk ends at slot 0 and changes nothing.
pub unlink_from-absent :
    (fuel p t : ℕ) (xs : List ℕ) (tasks : ℕ → Task)
    → length xs < fuel
    → IsPath tasks p xs 0
    → t ≢ 0
    → elem 0 xs ≡ false
    → elem t xs ≡ false
    → unlink_from fuel p t tasks ≡ done tasks
unfolding unlink_from
unlink_from-absent zero p t xs tasks enough path ne live gone = absurd (omega arith)
unlink_from-absent (suc fuel) p t [] tasks enough path ne live gone = ground (arith, path)
unlink_from-absent (suc fuel) p t (x ∷ xs) tasks enough path ne live gone =
    let on : (x == 0) ≡ false = ground arith in
    let other : (x == t) ≡ false = ground arith in
    rw (path.0, other, on, unlink_from)
      (unlink_from-absent fuel x t xs tasks (omega arith) path.1 ne (ground arith) (ground arith))

before-elem : (t p : ℕ) (xs : List ℕ) → elem (before t p xs) (p ∷ xs) ≡ true
before-elem t p [] = ground arith
before-elem t p (x ∷ xs) = ground (arith, before-elem t x xs)

-- The path from `x` is one from `p` too, where `p` is given the pointer of `x`.
pub IsPath-redirect :
    (f g : ℕ → Task) (p x : ℕ) (xs : List ℕ) (q : ℕ)
    → (g p).next ≡ (f x).next
    → ((i : ℕ) → elem i xs ≡ true → (g i).next ≡ (f i).next)
    → IsPath f x xs q
    → IsPath g p xs q
IsPath-redirect f g p x [] q e same h = e ∙ h
IsPath-redirect f g p x (y ∷ ys) q e same h = (e ∙ h.0, IsPath-ext f g y ys q same h.1)

-- What is left is a path through the others.
pub IsPath-unlinked :
    (t p : ℕ) (xs : List ℕ) (tasks : ℕ → Task)
    → IsPath tasks p xs 0
    → IsDistinct (p ∷ xs)
    → elem t xs ≡ true
    → IsPath (unlinked t p xs tasks) p (without t xs) 0
IsPath-unlinked t p [] tasks path distinct here = cc
IsPath-unlinked t p (x ∷ xs) tasks path distinct here = elim (Bool-cases (x == t)) [
  | inl found ↦
      let e : x ≡ t = ==-eq _ _ found in
      rw found (
        IsPath-redirect tasks (modify tasks p (set_next (tasks t).next)) p x xs 0 (ground arith)
          (λ i inside. ground (arith, elem-ne p i xs)) path.1)
  | inr other ↦ rw other (
    ground (arith, elem-ne p (before t x xs) (x ∷ xs), before-elem t x xs, path),
    IsPath-unlinked t x xs tasks path.1 distinct.1 (ground arith),
  )
]
