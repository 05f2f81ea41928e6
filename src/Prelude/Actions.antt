-- ===== src/Prelude/Actions.antt =====
-- Functions of C that return 0 or -1, as actions on a state.
use tg11_os.Prelude.{◌≡◌, refl, Bool, true, false, Option, none, some, if◌then◌else◌}
use mathlib.Core.Path.{subst}
use native.Mathlib.Omega.{arith}

-- `failed` is the return value -1, with the state as the function leaves it. `stuck` stands for a
-- loop that has used up its fuel.
pub data Outcome (S A : Type 0) : Type 0 where
  ok : A → S → Outcome S A
  failed : S → Outcome S A
  stuck : Outcome S A

abbrev pub Action : Type 0 → Type 0 → Type 0
Action S A = S → Outcome S A

module _ {S : Type 0} where
  abbrev pub pure : {A : Type 0} → A → Action S A
  pure a s = ok a s

  abbrev pub fail : {A : Type 0} → Action S A
  fail s = failed s

  abbrev pub get : Action S S
  get s = ok s s

  abbrev pub modify : (S → S) → Action S (Unit {0})
  modify f s = ok tt (f s)

  -- What follows an outcome.
  abbrev pub then_run : {A B : Type 0} → Outcome S A → (A → Action S B) → Outcome S B
  then_run (ok a s) f = f a s
  then_run (failed s) f = failed s
  then_run stuck f = stuck

  infixl 5 ◌>>=◌ ◌>>◌
  abbrev pub ◌>>=◌ : {A B : Type 0} → Action S A → (A → Action S B) → Action S B
  ◌>>=◌ m f s = then_run (m s) f

  abbrev pub ◌>>◌ : {A B : Type 0} → Action S A → Action S B → Action S B
  m >> k = m >>= λ _. k

  abbrev pub caught : {A : Type 0} → Outcome S A → Outcome S (Option A)
  caught (ok a s) = ok (some a) s
  caught (failed s) = ok none s
  caught stuck = stuck

  -- The return value of a call that the caller tests itself.
  abbrev pub attempt : {A : Type 0} → Action S A → Action S (Option A)
  attempt m s = caught (m s)

  unfoldable pub guard : Bool → Action S (Unit {0})
  guard b = if b then pure tt else fail

  abbrev pub from_option : {A : Type 0} → Option A → Action S A
  from_option none = fail
  from_option (some a) = pure a

  -- The value that a search has found, or the rest of the search.
  abbrev pub unless_some : {A B : Type 0} → Option A → (A → B) → Action S B → Action S B
  unless_some (some a) give rest = pure (give a)
  unless_some none give rest = rest

  -- A chain that succeeds has succeeded at each step.
  pub then_run-eq-ok :
      {A B : Type 0} (o : Outcome S A) (f : A → Action S B) {b : B} {t : S}
      → then_run o f ≡ ok b t
      → (a : A) × (s : S) × (o ≡ ok a s) × (f a s ≡ ok b t)
  then_run-eq-ok (ok a s) f h = (a, s, refl, h)
  then_run-eq-ok (failed s) f h = cc
  then_run-eq-ok stuck f h = cc

  pub guard-eq-ok : (b : Bool) {s t : S} → guard b s ≡ ok tt t → (b ≡ true) × (s ≡ t)
  unfolding guard
  guard-eq-ok true h = ground arith
  guard-eq-ok false h = cc

-- `P` holds of the result and the state after a success, and `F` of the state after a failure.
abbrev pub Ending : {S A : Type 0} → (A → S → Type 0) → (S → Type 0) → Outcome S A → Type 0
Ending P F (ok a s) = P a s
Ending P F (failed s) = F s
Ending P F stuck = ⊥

-- The action comes to an end, in this way.
pub record Returns {S A : Type 0} (P : A → S → Type 0) (F : S → Type 0) (o : Outcome S A)
    : Type 0 where
  pub ending : Ending P F o

module _ {S A : Type 0} {P : A → S → Type 0} {F : S → Type 0} where
  pub Returns-weaken :
      {Q : A → S → Type 0} {G : S → Type 0} (o : Outcome S A)
      → Returns P F o
      → ((a : A) (s : S) → P a s → Q a s)
      → ((s : S) → F s → G s)
      → Returns Q G o
  Returns-weaken (ok a s) r done missed = record { ending = done a s r.ending }
  Returns-weaken (failed s) r done missed = record { ending = missed s r.ending }
  Returns-weaken stuck r done missed = absurd r.ending

  -- The result of a call that the caller tests.
  pub Returns-caught :
      {Q : Option A → S → Type 0} {G : S → Type 0} (o : Outcome S A)
      → Returns P F o
      → ((a : A) (s : S) → P a s → Q (some a) s)
      → ((s : S) → F s → Q none s)
      → Returns Q G (caught o)
  Returns-caught (ok a s) r done missed = record { ending = done a s r.ending }
  Returns-caught (failed s) r done missed = record { ending = missed s r.ending }
  Returns-caught stuck r done missed = absurd r.ending

  pub Returns-ok : {o : Outcome S A} {a : A} {s : S} → Returns P F o → o ≡ ok a s → P a s
  Returns-ok r e = (subst (Returns P F) e r).ending

module _ {S A B : Type 0} {P : A → S → Type 0} {F : S → Type 0} where
  -- The rule of a chain: what the first action ensures is what the next one may use.
  pub Returns-then_run :
      {Q : B → S → Type 0} {G : S → Type 0} {f : A → Action S B} (o : Outcome S A)
      → Returns P F o
      → ((a : A) (s : S) → P a s → Returns Q G (f a s))
      → ((s : S) → F s → G s)
      → Returns Q G (then_run o f)
  Returns-then_run (ok a s) r next weaken = next a s r.ending
  Returns-then_run (failed s) r next weaken = record { ending = weaken s r.ending }
  Returns-then_run stuck r next weaken = absurd r.ending

module _ {S B : Type 0} {Q : B → S → Type 0} {G : S → Type 0} where
  -- After a test that returns -1.
  pub Returns-guard :
      (b : Bool) {s : S} (f : Unit {0} → Action S B)
      → (b ≡ true → Returns Q G (f tt s))
      → G s
      → Returns Q G (then_run (guard b s) f)
  unfolding guard
  Returns-guard true f then_do otherwise = then_do refl
  Returns-guard false f then_do otherwise = record { ending = otherwise }

  -- After a value that may be missing.
  pub Returns-from_option :
      {A : Type 0} (o : Option A) {s : S} (f : A → Action S B)
      → ((a : A) → o ≡ some a → Returns Q G (f a s))
      → G s
      → Returns Q G (then_run (from_option o s) f)
  Returns-from_option none f next otherwise = record { ending = otherwise }
  Returns-from_option (some a) f next otherwise = next a refl
