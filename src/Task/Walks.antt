-- ===== src/Task/Walks.antt =====
-- kernel/task.c: the walk from one task of the ring to the next ready one, and the slot scans.
use Prim.Native.Nat.{◌<◌}
use tg11_os.Prelude.{
  ℕ, zero, suc, ◌+◌, ◌≤◌, Bool, true, false, not, ◌&&◌, ◌||◌, some, List, [], ◌∷◌, ◌++◌, ◌==◌,
  if◌then◌else◌, ◌≡◌, refl, sym, ap, arith, length, length-append, Bool-cases, inl, inr, ◌⊎◌, ==-eq,
}
use mathlib.Core.Path.{subst}
use tg11_os.Prelude.Distinct.{elem, IsDistinct, elem-ne}
use tg11_os.Task.{Task, done, is_ready, next_ready, find_slot}
use tg11_os.Task.Ring.{IsPath}

-- The first ready task of the list, or `old`.
abbrev pub first_ready : (ℕ → Task) → List ℕ → ℕ → ℕ
first_ready tasks [] old = old
first_ready tasks (x ∷ xs) old = if is_ready (tasks x).state then x else first_ready tasks xs old

pub next_of :
    (f : ℕ → Task) (p : ℕ) (xs : List ℕ) (q : ℕ) → IsPath f p xs q → (y : ℕ) × ((f p).next ≡ some y)
next_of f p [] q h = (q, h)
next_of f p (x ∷ xs) q h = (x, h.0)

-- The walk visits the slots of a path to `old`, and stops at the first ready task.
pub next_ready-first_ready :
    (fuel p n old : ℕ) (xs : List ℕ) (tasks : ℕ → Task)
    → length xs < fuel
    → IsPath tasks p xs old
    → elem old xs ≡ false
    → (tasks p).next ≡ some n
    → next_ready fuel old n tasks ≡ done (first_ready tasks xs old)
unfolding next_ready
next_ready-first_ready zero p n old xs tasks enough path fresh e = absurd (omega arith)
next_ready-first_ready (suc fuel) p n old [] tasks enough path fresh e = ground arith
next_ready-first_ready (suc fuel) p n old (x ∷ xs) tasks enough path fresh e =
    let here : n ≡ x = ground (arith, path.0) in
    let (y, next) = next_of tasks x xs old path.1 in
    let rest =
      next_ready-first_ready fuel x y old xs tasks (omega arith) path.1 (ground arith) next in
    ground arith

-- A path through `y` is a path to `y` and a path from it.
pub IsPath-split :
    (f : ℕ → Task) (p y q : ℕ) (xs ys : List ℕ)
    → IsPath f p (xs ++ (y ∷ ys)) q
    → IsPath f p xs y × IsPath f y ys q
IsPath-split f p y q [] ys h = h
IsPath-split f p y q (x ∷ xs) ys h =
    let rest = IsPath-split f x y q xs ys h.1 in ((h.0, rest.0), rest.1)

pub IsPath-join :
    (f : ℕ → Task) (p y q : ℕ) (xs ys : List ℕ)
    → IsPath f p xs y
    → IsPath f y ys q
    → IsPath f p (xs ++ (y ∷ ys)) q
IsPath-join f p y q [] ys h k = (h, k)
IsPath-join f p y q (x ∷ xs) ys h k = (h.0, IsPath-join f x y q xs ys h.1 k)

abbrev pub up_to : ℕ → List ℕ → List ℕ
up_to t [] = []
up_to t (x ∷ xs) = if x == t then [] else x ∷ up_to t xs

abbrev pub beyond : ℕ → List ℕ → List ℕ
beyond t [] = []
beyond t (x ∷ xs) = if x == t then xs else beyond t xs

pub split_at : (t : ℕ) (xs : List ℕ) → elem t xs ≡ true → xs ≡ up_to t xs ++ (t ∷ beyond t xs)
split_at t [] h = cc
split_at t (x ∷ xs) h = ground (arith, split_at t xs)

-- The other slots of the ring in the order in which they come after `t`.
abbrev pub round_from : ℕ → List ℕ → List ℕ
round_from t order = if t == 0 then order else beyond t order ++ (0 ∷ up_to t order)

pub IsPath-round_from :
    (f : ℕ → Task) (t : ℕ) (order : List ℕ)
    → IsPath f 0 order 0
    → elem t (0 ∷ order) ≡ true
    → IsPath f t (round_from t order) t
IsPath-round_from f t order path inside = elim (Bool-cases (t == 0)) [
  | inl root ↦ rw root (subst (λ i. IsPath f i order i) (sym (==-eq _ _ root)) path)
  | inr other ↦
      let whole = subst (λ l. IsPath f 0 l 0) (split_at t order (ground arith)) path in
      let halves = IsPath-split f 0 t 0 (up_to t order) (beyond t order) whole in
      rw other (IsPath-join f t 0 t (beyond t order) (up_to t order) halves.1 halves.0)
]

pub length-round_from :
    (t : ℕ) (order : List ℕ)
    → elem t (0 ∷ order) ≡ true
    → length (round_from t order) ≡ length order
length-round_from t order inside = elim (Bool-cases (t == 0)) [
  | inl root ↦ rw root
  | inr other ↦ rw other (
      omega (
        arith,
        length-append (beyond t order) (0 ∷ up_to t order),
        length-append (up_to t order) (t ∷ beyond t order),
        ap (λ l. length l) (split_at t order (ground arith)),
      ))
]

pub elem-append : (i : ℕ) (xs ys : List ℕ) → elem i (xs ++ ys) ≡ (elem i xs || elem i ys)
elem-append i [] ys = refl
elem-append i (x ∷ xs) ys = ground (arith, elem-append i xs ys)

elem-beyond-up_to :
    (i t : ℕ) (xs : List ℕ)
    → IsDistinct xs
    → elem t xs ≡ true
    → (elem i (beyond t xs) || elem i (up_to t xs)) ≡ (elem i xs && not (i == t))
elem-beyond-up_to i t [] d inside = cc
elem-beyond-up_to i t (x ∷ xs) d inside =
    ground (arith, elem-beyond-up_to i t xs d.1, elem-ne x i xs)

-- It holds each slot of the ring but `t`.
pub elem-round_from :
    (i t : ℕ) (order : List ℕ)
    → IsDistinct (0 ∷ order)
    → elem t (0 ∷ order) ≡ true
    → elem i (round_from t order) ≡ (elem i (0 ∷ order) && not (i == t))
elem-round_from i t order d inside = ground (
  arith,
  elem-append i (beyond t order) (0 ∷ up_to t order),
  elem-beyond-up_to i t order d.1,
  elem-ne 0 i order,
)

pub find_slot-some :
    (test : ℕ → Bool) (left i j : ℕ)
    → find_slot test left i ≡ some j
    → (test j ≡ true) × (i ≤ j) × (j < i + left)
unfolding find_slot
find_slot-some test zero i j e = cc
find_slot-some test (suc left) i j e = ground (arith, find_slot-some test left (i + 1) j)

-- `r` is a ready task of the list, or `old` where the list has none.
abbrev pub IsPick : (ℕ → Task) → List ℕ → ℕ → ℕ → Type 0
IsPick tasks xs old r =
    ((elem r xs ≡ true) × (is_ready (tasks r).state ≡ true))
    ⊎ ((r ≡ old) × ((i : ℕ) → elem i xs ≡ true → is_ready (tasks i).state ≡ false))

IsPick-cons :
    (tasks : ℕ → Task) (x : ℕ) (xs : List ℕ) (old r : ℕ)
    → is_ready (tasks x).state ≡ false
    → IsPick tasks xs old r
    → IsPick tasks (x ∷ xs) old r
IsPick-cons tasks x xs old r idle (inl later) = inl (ground arith, later.1)
IsPick-cons tasks x xs old r idle (inr none_left) =
    inr (none_left.0, λ i inside. ground (arith, none_left.1 i, ap (λ j. is_ready (tasks j).state)))

pub first_ready-IsPick :
    (tasks : ℕ → Task) (xs : List ℕ) (old : ℕ) → IsPick tasks xs old (first_ready tasks xs old)
first_ready-IsPick tasks [] old = inr (refl, λ i inside. cc)
first_ready-IsPick tasks (x ∷ xs) old = elim (Bool-cases (is_ready (tasks x).state)) [
  | inl found ↦
      let e : first_ready tasks (x ∷ xs) old ≡ x = ground arith in
      subst (IsPick tasks (x ∷ xs) old) (sym e) (inl (ground arith, found))
  | inr other ↦
      let e : first_ready tasks (x ∷ xs) old ≡ first_ready tasks xs old = ground arith in
      subst (IsPick tasks (x ∷ xs) old) (sym e) (
        IsPick-cons tasks x xs old (first_ready tasks xs old) other
          (first_ready-IsPick tasks xs old))
]

pub first_ready-ext :
    (f g : ℕ → Task) (xs : List ℕ) (old : ℕ)
    → ((i : ℕ) → elem i xs ≡ true → (f i).state ≡ (g i).state)
    → first_ready f xs old ≡ first_ready g xs old
first_ready-ext f g [] old same = refl
first_ready-ext f g (x ∷ xs) old same = rw (same x (ground arith)) (
    ap (λ r. if is_ready (g x).state then x else r)
      (first_ready-ext f g xs old (λ i inside. same i (ground arith))))
