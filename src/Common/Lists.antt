-- ===== src/Common/Lists.antt =====
-- Lists of identifiers as Python's lists and sets: length, membership, inclusion, insertion.
use Prim.Native.Nat.{ℕ, zero, suc, ◌+◌}
use mathlib.Core.Path.{◌≡◌, refl}
use mathlib.Core.Logic.{◌⊎◌, inl, inr}
use mathlib.Core.Bool.{Bool, true, false, ◌&&◌, ◌||◌}
use mathlib.Core.Option.{Option, none, some}
use mathlib.Core.List.{List, [], ◌∷◌, ◌++◌}
use native.Mathlib.Omega.{arith}
use architect.Common.Tests.{◌==◌, if◌then◌else◌, ==-refl}

-- Every element satisfies the predicate; it computes to a tuple.
abbrev pub All {ℓ κ} : {A : Type ℓ} → (A → Type κ) → List A → Type κ
All P [] = Unit
All P (x ∷ xs) = P x × All P xs

module _ {ℓ} {A : Type ℓ} where
  abbrev pub length : List A → ℕ
  length [] = 0
  length (x ∷ xs) = suc (length xs)

  -- `[x for x in xs if p(x)]`
  abbrev pub filter : (A → Bool) → List A → List A
  filter p [] = []
  filter p (x ∷ xs) = if p x then x ∷ filter p xs else filter p xs

  -- `all(p(x) for x in xs)`
  abbrev pub every : (A → Bool) → List A → Bool
  every p [] = true
  every p (x ∷ xs) = p x && every p xs

  abbrev pub head? : List A → Option A
  head? [] = none
  head? (x ∷ xs) = some x

  -- `xs[:n]` and `xs[n:]`
  abbrev pub take : ℕ → List A → List A
  take zero xs = []
  take (suc n) [] = []
  take (suc n) (x ∷ xs) = x ∷ take n xs

  abbrev pub drop : ℕ → List A → List A
  drop zero xs = xs
  drop (suc n) [] = []
  drop (suc n) (x ∷ xs) = drop n xs

  pub length-append : (xs ys : List A) → length (xs ++ ys) ≡ length xs + length ys
  length-append [] ys = omega arith
  length-append (x ∷ xs) ys = omega (arith, length-append xs ys)

-- `x in xs`
abbrev pub elem : ℕ → List ℕ → Bool
elem x [] = false
elem x (y ∷ ys) = (x == y) || elem x ys

-- `set(xs) <= set(ys)`
abbrev pub subset : List ℕ → List ℕ → Bool
subset xs ys = every (λ x. elem x ys) xs

-- `s.add(x)`
abbrev pub add : ℕ → List ℕ → List ℕ
add x s = if elem x s then s else x ∷ s

-- `s.update(xs)`
abbrev pub update_set : List ℕ → List ℕ → List ℕ
update_set [] s = s
update_set (x ∷ xs) s = add x (update_set xs s)

pub elem-add : (x y : ℕ) (s : List ℕ) → elem x (add y s) ≡ ((x == y) || elem x s)
elem-add x y s = ground arith

pub elem-append : (x : ℕ) (xs ys : List ℕ) → elem x (xs ++ ys) ≡ (elem x xs || elem x ys)
elem-append x [] ys = refl
elem-append x (y ∷ xs) ys = ground (arith, elem-append x xs ys)

pub elem-update_set : (x : ℕ) (xs s : List ℕ) → elem x (update_set xs s) ≡ (elem x xs || elem x s)
elem-update_set x [] s = refl
elem-update_set x (y ∷ xs) s = ground (arith, elem-update_set x xs s)

pub elem-filter :
    (p : ℕ → Bool) (x : ℕ) (xs : List ℕ)
    → elem x (filter p xs) ≡ true
    → (p x ≡ true) × (elem x xs ≡ true)
elem-filter p x [] h = ground arith
elem-filter p x (y ∷ ys) h = ground (arith, elem-filter p x ys)

pub filter-elem :
    (p : ℕ → Bool) (x : ℕ) (xs : List ℕ)
    → elem x xs ≡ true
    → p x ≡ true
    → elem x (filter p xs) ≡ true
filter-elem p x [] h k = ground arith
filter-elem p x (y ∷ ys) h k = ground (arith, filter-elem p x ys)

pub subset-elem :
    (xs ys : List ℕ) (x : ℕ) → subset xs ys ≡ true → elem x xs ≡ true → elem x ys ≡ true
subset-elem [] ys x h k = ground arith
subset-elem (z ∷ xs) ys x h k = ground (arith, subset-elem xs ys x)

-- Either the inclusion holds, or some member is missing.
pub subset-cases :
    (xs ys : List ℕ) → (subset xs ys ≡ true) ⊎ ((x : ℕ) × (elem x xs ≡ true) × (elem x ys ≡ false))
subset-cases [] ys = inl refl
subset-cases (z ∷ xs) ys = elim (subset-cases xs ys) [
  | inr (x, m, n) ↦ inr (x, ground arith, n)
  | inl rest ↦ missing (elem z ys) refl rest
]
  where
    missing :
        (b : Bool)
        → elem z ys ≡ b
        → subset xs ys ≡ true
        → (subset (z ∷ xs) ys ≡ true) ⊎ ((x : ℕ) × (elem x (z ∷ xs) ≡ true) × (elem x ys ≡ false))
    missing true e r = inl (ground arith)
    missing false e r = inr (z, ground (arith, ==-refl z), e)

pub List-cases {ℓ} :
    {A : Type ℓ} (xs : List A) → (xs ≡ []) ⊎ ((x : A) × (rest : List A) × (xs ≡ x ∷ rest))
List-cases [] = inl refl
List-cases (x ∷ xs) = inr (x, xs, refl)

pub filter-congr :
    (p q : ℕ → Bool) (xs : List ℕ)
    → ((x : ℕ) → elem x xs ≡ true → p x ≡ q x)
    → filter p xs ≡ filter q xs
filter-congr p q [] h = refl
filter-congr p q (x ∷ xs) h =
    ground (arith, h x (ground (arith, ==-refl x)), filter-congr p q xs (λ y k. h y (ground arith)))

-- An update by what is there already changes nothing.
update_set_old :
    (xs s : List ℕ) → ((x : ℕ) → elem x xs ≡ true → elem x s ≡ true) → update_set xs s ≡ s
update_set_old [] s h = refl
update_set_old (x ∷ xs) s h =
    ground (arith, h x (ground (arith, ==-refl x)), update_set_old xs s (λ y k. h y (ground arith)))

pub update_set_idem : (xs s : List ℕ) → update_set xs (update_set xs s) ≡ update_set xs s
update_set_idem xs s =
    update_set_old xs (update_set xs s) λ x h. ground (arith, elem-update_set x xs s)
