-- ===== src/Common/Triple.antt =====
-- Rules for what an action of an object keeps and what it ends in, one for each way to build it.
use mathlib.Core.Path.{◌≡◌, refl, sym, subst}
use mathlib.Core.Bool.{Bool, true, false}
use architect.Common.Tests.{if◌then◌else◌}
use architect.Common.Result.{
  Result, ok, err, Action, branch, pure, raise, resume, ◌>>=◌, ◌>>◌, modify, reads,
}

-- From a state with `P`, `m` ends in `Q`, whether it returns or raises.
pub record Triple {S E A : Type 0} (P : S → Type 0) (m : Action S E A) (Q : Result E A → S → Type 0)
    : Type 0 where
  pub at : (s : S) → P s → Q (m s).0 (m s).1

-- `m` keeps `P`.
abbrev pub Keeps : {S E A : Type 0} → (S → Type 0) → Action S E A → Type 0
Keeps P m = Triple P m (λ _. P)

module _ {S E A : Type 0} {P : S → Type 0} {Q : Result E A → S → Type 0} where
  pub Triple-if :
      (b : Bool) (m n : Action S E A)
      → (b ≡ true → Triple P m Q)
      → (b ≡ false → Triple P n Q)
      → Triple P (if b then m else n) Q
  Triple-if true m n hm hn = hm refl
  Triple-if false m n hm hn = hn refl

  pub Triple-pure : (a : A) → ((s : S) → P s → Q (ok a) s) → Triple P (pure a) Q
  Triple-pure a h = record { at = h }

  pub Triple-reads : (f : S → Result E A) → ((s : S) → P s → Q (f s) s) → Triple P (reads f) Q
  Triple-reads f h = record { at = h }

module _ {S E A : Type 0} {P : S → Type 0} {Q : Result E A → S → Type 0} where
  pub Triple-branch :
      (test : S → Bool) (m n : Action S E A)
      → Triple (λ s. P s × (test s ≡ true)) m Q
      → Triple (λ s. P s × (test s ≡ false)) n Q
      → Triple P (branch test m n) Q
  Triple-branch test m n hm hn = record {
    at = λ s h.
        (Triple-if {P = λ t. t ≡ s} {Q = Q} (test s) m n
            (λ e. record {
              at = λ t same. hm.at t (subst (λ t. P t × (test t ≡ true)) (sym same) (h, e));
            })
            (λ e. record {
              at = λ t same. hn.at t (subst (λ t. P t × (test t ≡ false)) (sym same) (h, e));
            })).at
          s refl;
  }

module _ {S E A B : Type 0} (R : Result E A → S → Type 0) {Q : Result E B → S → Type 0} where
  Triple-resume :
      (r : Result E A) (f : A → Action S E B)
      → ((a : A) → Triple (R (ok a)) (f a) Q)
      → ((e : E) (s : S) → R (err e) s → Q (err e) s)
      → (s : S) → R r s
      → Q (resume r f s).0 (resume r f s).1
  Triple-resume (ok a) f hf he s h = (hf a).at s h
  Triple-resume (err e) f hf he s h = he e s h

module _ {S E A B : Type 0} {P : S → Type 0} {R : Result E A → S → Type 0}
    {Q : Result E B → S → Type 0} where
  pub Triple-bind :
      (m : Action S E A) (f : A → Action S E B)
      → Triple P m R
      → ((a : A) → Triple (R (ok a)) (f a) Q)
      → ((e : E) (s : S) → R (err e) s → Q (err e) s)
      → Triple P (m >>= f) Q
  Triple-bind m f hm hf he = record {
    at = λ s h. Triple-resume R (m s).0 f hf he (m s).1 (hm.at s h);
  }

module _ {S E A : Type 0} {P P' : S → Type 0} {Q Q' : Result E A → S → Type 0} where
  pub Triple-weaken :
      (m : Action S E A)
      → ((s : S) → P s → P' s)
      → ((r : Result E A) (s : S) → Q' r s → Q r s)
      → Triple P' m Q'
      → Triple P m Q
  Triple-weaken m hp hq h = record { at = λ s p. hq (m s).0 (m s).1 (h.at s (hp s p)) }

module _ {S E A : Type 0} {P P' : S → Type 0} {Q : Result E A → S → Type 0} where
  -- An assignment before the rest.
  pub Triple-modify :
      (f : S → S) (m : Action S E A)
      → ((s : S) → P s → P' (f s))
      → Triple P' m Q
      → Triple P (modify f >> m) Q
  Triple-modify f m hf hm = record { at = λ s h. hm.at (f s) (hf s h) }

module _ {S E A B : Type 0} {P : S → Type 0} where
  pub Keeps-bind :
      (m : Action S E A) (f : A → Action S E B)
      → Keeps P m
      → ((a : A) → Keeps P (f a))
      → Keeps P (m >>= f)
  Keeps-bind m f hm hf = Triple-bind m f hm hf (λ e s h. h)

module _ {S E A B : Type 0} {P : S → Type 0} where
  pub Keeps-then : (m : Action S E A) (n : Action S E B) → Keeps P m → Keeps P n → Keeps P (m >> n)
  Keeps-then m n hm hn = Keeps-bind m (λ _. n) hm (λ _. hn)

module _ {S E A : Type 0} {P : S → Type 0} where
  pub Keeps-raise : (e : E) → Keeps {A = A} P (raise e)
  Keeps-raise e = record { at = λ s h. h }

  pub Keeps-pure : (a : A) → Keeps {E = E} P (pure a)
  Keeps-pure a = record { at = λ s h. h }

  pub Keeps-branch :
      (test : S → Bool) (m n : Action S E A) → Keeps P m → Keeps P n → Keeps P (branch test m n)
  Keeps-branch test m n hm hn =
      Triple-branch test m n (record { at = λ s h. hm.at s h.0 })
        (record { at = λ s h. hn.at s h.0 })

  pub Keeps-reads : (f : S → Result E A) → Keeps P (reads f)
  Keeps-reads f = record { at = λ s h. h }

pub ruleset keeps_rules =
    (Keeps-raise, Keeps-pure, Keeps-reads, Keeps-bind, Keeps-then, Keeps-branch, Triple-if)
