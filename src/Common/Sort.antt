-- ===== src/Common/Sort.antt =====
-- `list.sort(key=..., reverse=True)`: a stable sort by descending key.
use Prim.Native.Nat.{ℕ, ◌≤◌}
use mathlib.Core.Path.{◌≡◌, refl}
use mathlib.Core.Bool.{◌||◌}
use mathlib.Core.List.{List, [], ◌∷◌, Perm}
use mathlib.Core.List.Perm
use native.Mathlib.Omega.{arith}
use architect.Common.Tests.{◌==◌, ltb, if◌then◌else◌}
use architect.Common.Lists.{All, elem}

module _ {A : Type 0} (key : A → ℕ) where
  -- An element goes before the later ones of the same key.
  insert_desc : A → List A → List A
  insert_desc x [] = x ∷ []
  insert_desc x (y ∷ ys) = if ltb (key x) (key y) then y ∷ insert_desc x ys else x ∷ y ∷ ys

  unfoldable pub sort_desc : List A → List A
  unfolding insert_desc
  sort_desc [] = []
  sort_desc (x ∷ xs) = insert_desc x (sort_desc xs)

  -- Each key is at least those behind it.
  abbrev pub IsDescending : List A → Type 0
  IsDescending [] = Unit
  IsDescending (x ∷ xs) = All (λ y. key y ≤ key x) xs × IsDescending xs

  insert_desc-All :
      (b : ℕ) (x : A) (xs : List A)
      → key x ≤ b
      → All (λ y. key y ≤ b) xs
      → All (λ y. key y ≤ b) (insert_desc x xs)
  unfolding insert_desc
  insert_desc-All b x [] h k = (h, tt)
  insert_desc-All b x (y ∷ ys) h k = ground (arith, insert_desc-All b x ys h k.1)

  All-le_trans : (a b : ℕ) (xs : List A) → a ≤ b → All (λ y. key y ≤ a) xs → All (λ y. key y ≤ b) xs
  All-le_trans a b [] h k = tt
  All-le_trans a b (x ∷ xs) h k = (omega arith, All-le_trans a b xs h k.1)

  insert_desc-IsDescending :
      (x : A) (xs : List A) → IsDescending xs → IsDescending (insert_desc x xs)
  unfolding insert_desc
  insert_desc-IsDescending x [] h = (tt, tt)
  insert_desc-IsDescending x (y ∷ ys) h = ground (
    arith,
    insert_desc-IsDescending x ys h.1,
    insert_desc-All (key y) x ys,
    All-le_trans (key y) (key x) ys,
  )

  pub sort_desc-IsDescending : (xs : List A) → IsDescending (sort_desc xs)
  unfolding sort_desc
  sort_desc-IsDescending [] = tt
  sort_desc-IsDescending (x ∷ xs) =
      insert_desc-IsDescending x (sort_desc xs) (sort_desc-IsDescending xs)

  insert_desc-perm : (x : A) (xs : List A) → Perm (insert_desc x xs) (x ∷ xs)
  unfolding insert_desc
  insert_desc-perm x [] = Perm.refl _
  insert_desc-perm x (y ∷ ys) =
      let moved = Perm.trans (Perm.cons y (insert_desc-perm x ys)) (Perm.swap x y ys) in
      ground (arith, moved, Perm.refl (x ∷ y ∷ ys))

  pub sort_desc-perm : (xs : List A) → Perm (sort_desc xs) xs
  unfolding sort_desc
  sort_desc-perm [] = Perm.refl _
  sort_desc-perm (x ∷ xs) =
      Perm.trans (insert_desc-perm x (sort_desc xs)) (Perm.cons x (sort_desc-perm xs))

-- Membership of identifiers is kept.
insert_desc-elem :
    (key : ℕ → ℕ) (a x : ℕ) (xs : List ℕ) → elem a (insert_desc key x xs) ≡ ((a == x) || elem a xs)
unfolding insert_desc
insert_desc-elem key a x [] = refl
insert_desc-elem key a x (y ∷ ys) = ground (arith, insert_desc-elem key a x ys)

pub sort_desc-elem : (key : ℕ → ℕ) (a : ℕ) (xs : List ℕ) → elem a (sort_desc key xs) ≡ elem a xs
unfolding sort_desc
sort_desc-elem key a [] = refl
sort_desc-elem key a (x ∷ xs) =
    ground (arith, insert_desc-elem key a x (sort_desc key xs), sort_desc-elem key a xs)
