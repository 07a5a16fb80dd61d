-- ===== src/Common/Result.antt =====
-- A computation that returns or raises, and a method that also changes its object: what was
-- written before an exception stays written.
use mathlib.Core.Path.{◌≡◌, refl}
use mathlib.Core.Bool.{Bool, true, false}
use architect.Common.Tests.{if◌then◌else◌}

pub data Result (E A : Type 0) : Type 0 where
  ok : A → Result E A
  err : E → Result E A

module _ {E A : Type 0} where
  abbrev pub guard : Bool → E → A → Result E A
  guard true e a = ok a
  guard false e a = err e

module _ {E A B : Type 0} where
  -- `a ← r; f a`
  abbrev pub and_then : Result E A → (A → Result E B) → Result E B
  and_then (ok a) f = f a
  and_then (err e) f = err e

  pub and_then-eq-ok :
      (r : Result E A) (f : A → Result E B) {b : B}
      → and_then r f ≡ ok b
      → (a : A) × (r ≡ ok a) × (f a ≡ ok b)
  and_then-eq-ok (ok a) f h = (a, refl, h)
  and_then-eq-ok (err e) f h = cc

-- A method of an object with the state `S`.
abbrev pub Action : Type 0 → Type 0 → Type 0 → Type 0
Action S E A = S → Result E A × S

module _ {S E A : Type 0} where
  abbrev pub pure : A → Action S E A
  pure a s = (ok a, s)

  abbrev pub raise : E → Action S E A
  raise e s = (err e, s)

  -- A call that reads the state, and may raise.
  abbrev pub reads : (S → Result E A) → Action S E A
  reads f s = (f s, s)

module _ {S E : Type 0} where
  abbrev pub modify : (S → S) → Action S E (Unit {0})
  modify f s = (ok tt, f s)

  abbrev pub raise_unless : Bool → E → Action S E (Unit {0})
  raise_unless true e s = (ok tt, s)
  raise_unless false e s = (err e, s)

module _ {S E A : Type 0} where
  -- A branch on a field of the object.
  abbrev pub branch : (S → Bool) → Action S E A → Action S E A → Action S E A
  branch test m n s = (if test s then m else n) s

module _ {S E A B : Type 0} where
  abbrev pub resume : Result E A → (A → Action S E B) → Action S E B
  resume (ok a) f = f a
  resume (err e) f = raise e

  infixl 5 ◌>>=◌ ◌>>◌
  abbrev pub ◌>>=◌ : Action S E A → (A → Action S E B) → Action S E B
  m >>= f = λ s. let (r, s') = m s in resume r f s'

  abbrev pub ◌>>◌ : Action S E A → Action S E B → Action S E B
  m >> k = m >>= λ _. k
