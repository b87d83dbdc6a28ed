-- ===== src/Prelude/Effects.antt =====
-- Code that may throw, and methods that also change an object. What was written before a throw
-- stays written, so the state comes back beside the error too.
use mathlib.Core.Path.{◌≡◌, refl}
use mathlib.Core.Logic.{◌⊎◌, inl, inr}
use mathlib.Core.Bool.{Bool, true, false}
use mathlib.Core.Option.{Option, none, some}
use contactless_airlock_lab.Prelude.Tests.{if◌then◌else◌}

pub data Result (E A : Type 0) : Type 0 where
  ok : A → Result E A
  err : E → Result E A

abbrev pub Exec : Type 0 → Type 0 → Type 0 → Type 0
Exec E S A = S → Result E A × S

module _ {E S A : Type 0} where
  pub pure : A → Exec E S A
  pure a s = (ok a, s)

  pub raise : E → Exec E S A
  raise x s = (err x, s)

  pub lift : Result E A → Exec E S A
  lift r s = (r, s)

  pub gets : (S → A) → Exec E S A
  gets f s = (ok (f s), s)

  or_else_raise : E → Option A → S → Result E A × S
  or_else_raise x none s = (err x, s)
  or_else_raise x (some a) s = (ok a, s)

  or_else_raise_same : (x : E) (o : Option A) (s : S) → (or_else_raise x o s).1 ≡ s
  unfolding or_else_raise
  or_else_raise_same x none s = refl
  or_else_raise_same x (some a) s = refl

  -- A value that is read from the state, and must be there.
  pub fetch : (S → Option A) → E → Exec E S A
  unfolding or_else_raise
  fetch f x s = or_else_raise x (f s) s

module _ {E S : Type 0} where
  pub modify : (S → S) → Exec E S (Unit {0})
  modify f s = (ok tt, f s)

  -- `if (!test) throw x`
  pub guard : Bool → E → Exec E S (Unit {0})
  guard true x s = (ok tt, s)
  guard false x s = (err x, s)

module _ {E S A B : Type 0} where
  abbrev pub continue : (A → Exec E S B) → Result E A × S → Result E B × S
  continue f (ok a, s) = f a s
  continue f (err x, s) = (err x, s)

  infixl 10 ◌>>=◌ ◌>>◌
  -- To unfold this is to unfold the actions above too.
  unfoldable pub ◌>>=◌ : Exec E S A → (A → Exec E S B) → Exec E S B
  unfolding pure raise lift gets fetch modify guard
  ◌>>=◌ m f s = continue f (m s)

  abbrev pub ◌>>◌ : Exec E S A → Exec E S B → Exec E S B
  m >> k = m >>= λ _. k

module _ {E A : Type 0} where
  pub Result-cases : (r : Result E A) → ((a : A) × (r ≡ ok a)) ⊎ ((x : E) × (r ≡ err x))
  Result-cases (ok a) = inl (a, refl)
  Result-cases (err x) = inr (x, refl)

-- `m` keeps `P`, whether it returns or throws.
pub record Keeps {E S A : Type 0} (P : S → Type 0) (m : Exec E S A) : Type 0 where
  pub at : (s : S) → P s → P (m s).1

module _ {E S A : Type 0} {P : S → Type 0} where
  pub Keeps-lift : (r : Result E A) → Keeps P (lift r)
  unfolding lift
  Keeps-lift r = record { at = λ s h. h }

  pub Keeps-pure : (a : A) → Keeps {E = E} P (pure a)
  unfolding pure
  Keeps-pure a = record { at = λ s h. h }

  pub Keeps-raise : (x : E) → Keeps {A = A} P (raise x)
  unfolding raise
  Keeps-raise x = record { at = λ s h. h }

  pub Keeps-gets : (f : S → A) → Keeps {E = E} P (gets f)
  unfolding gets
  Keeps-gets f = record { at = λ s h. h }

  pub Keeps-fetch : (f : S → Option A) (x : E) → Keeps P (fetch f x)
  unfolding fetch
  Keeps-fetch f x = record { at = λ s h. rw (or_else_raise_same x (f s) s) h }

  pub Keeps-if :
      (b : Bool) (m n : Exec E S A) → Keeps P m → Keeps P n → Keeps P (if b then m else n)
  Keeps-if true m n km kn = km
  Keeps-if false m n km kn = kn

module _ {E S : Type 0} {P : S → Type 0} where
  pub Keeps-guard : (b : Bool) (x : E) → Keeps P (guard b x)
  unfolding guard
  Keeps-guard true x = record { at = λ s h. h }
  Keeps-guard false x = record { at = λ s h. h }

  pub Keeps-modify : (f : S → S) → ((s : S) → P s → P (f s)) → Keeps {E = E} P (modify f)
  unfolding modify
  Keeps-modify f k = record { at = k }

module _ {E S A B : Type 0} {P : S → Type 0} where
  continue-Keeps :
      (f : A → Exec E S B) (p : Result E A × S)
      → ((a : A) → Keeps P (f a))
      → P p.1
      → P (continue f p).1
  continue-Keeps f (ok a, s) k h = (k a).at s h
  continue-Keeps f (err x, s) k h = h

  pub Keeps-bind :
      (m : Exec E S A) (f : A → Exec E S B)
      → Keeps P m
      → ((a : A) → Keeps P (f a))
      → Keeps P (m >>= f)
  unfolding ◌>>=◌
  Keeps-bind m f km kf = record { at = λ s h. continue-Keeps f (m s) kf (km.at s h) }

  continue-keeps_with :
      (Q : A → Type 0) (f : A → Exec E S B) (p : Result E A × S)
      → ((a : A) → p.0 ≡ ok a → Q a)
      → ((a : A) → Q a → Keeps P (f a))
      → P p.1
      → P (continue f p).1
  continue-keeps_with Q f (ok a, s) q k h = (k a (q a refl)).at s h
  continue-keeps_with Q f (err x, s) q k h = h

  -- The same, where the rest relies on what the value satisfies.
  pub Keeps-bind_with :
      (Q : A → Type 0) (m : Exec E S A) (f : A → Exec E S B)
      → Keeps P m
      → ((s : S) (a : A) → P s → (m s).0 ≡ ok a → Q a)
      → ((a : A) → Q a → Keeps P (f a))
      → Keeps P (m >>= f)
  unfolding ◌>>=◌
  Keeps-bind_with Q m f km q kf = record {
    at = λ s h. continue-keeps_with Q f (m s) (λ a. q s a h) kf (km.at s h);
  }

module _ {E S A : Type 0} {P : S → Type 0} where
  pub Keeps-guarded :
      (b : Bool) (x : E) (m : Exec E S A) → (b ≡ true → Keeps P m) → Keeps P (guard b x >> m)
  unfolding ◌>>=◌
  Keeps-guarded true x m k = record { at = (k refl).at }
  Keeps-guarded false x m k = record { at = λ s h. h }

pub ruleset keeps_rules = (
  Keeps-pure, Keeps-raise, Keeps-lift, Keeps-gets, Keeps-fetch, Keeps-if, Keeps-guard, Keeps-bind,
)
