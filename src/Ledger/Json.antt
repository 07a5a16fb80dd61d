-- ===== src/Ledger/Json.antt =====
-- JSON values as Python holds them, and the paths of services/world-state-ledger/src/
-- world_state_ledger/state_manager.py into them. A value is copied where the code shares a reference.
pub mod Paths
use architect.Common.{
  ℕ, zero, suc, ◌+◌, ◌*◌, Bool, true, false, ◌&&◌, Option, none, some, List, [], ◌∷◌, ◌==◌,
  if◌then◌else◌,
}
use architect.Common.Text.{Text, text_beq, codes}

-- An `int` or a finite `float`: (plus - minus) / 2 ^ shift.
pub record Number : Type 0 where
  pub plus : ℕ
  pub minus : ℕ
  pub shift : ℕ

mutual
  pub data Json : Type 0 where
    null : Json
    bool : Bool → Json
    number : Number → Json
    string : Text → Json
    array : Items → Json
    object : Object → Json

  pub data Items : Type 0 where
    no_items : Items
    item : Json → Items → Items

  -- A dict with its keys in insertion order.
  pub data Object : Type 0 where
    no_fields : Object
    field : Text → Json → Object → Object

abbrev pub double : ℕ → ℕ → ℕ
double zero n = n
double (suc k) n = double k (n + n)

abbrev pub number_eq : Number → Number → Bool
number_eq a b =
    (double b.shift a.plus + double a.shift b.minus)
    == (double a.shift b.plus + double b.shift a.minus)

-- `d.get(key)`
abbrev pub get : Text → Object → Option Json
get key no_fields = none
get key (field k v d) = if text_beq key k then some v else get key d

-- `d[key] = value`
abbrev pub set : Text → Json → Object → Object
set key value no_fields = field key value no_fields
set key value (field k v d) =
    let rest = set key value d in if text_beq key k then field k value d else field k v rest

abbrev pub count : Object → ℕ
count no_fields = 0
count (field k v d) = suc (count d)

-- A `bool` is an `int`.
abbrev of_bool : Bool → Number
of_bool true = record { plus = 1; minus = 0; shift = 0 }
of_bool false = record { plus = 0; minus = 0; shift = 0 }

abbrev pub as_number : Json → Option Number
as_number (bool b) = some (of_bool b)
as_number (number n) = some n
as_number _ = none

abbrev eq_number : Option Number → Option Number → Bool
eq_number (some a) (some b) = number_eq a b
eq_number _ _ = false

-- `d.get(key)`, where there is nothing `None`.
abbrev pub or_null : Option Json → Json
or_null none = null
or_null (some v) = v

abbrev has : Option Json → Bool
has none = false
has (some v) = true

-- `a == b`
unfoldable mutual
  pub json_eq : Json → Json → Bool
  json_eq null null = true
  json_eq (string s) (string t) = text_beq s t
  json_eq (array xs) (array ys) = items_eq xs ys
  json_eq (object d) (object e) = (count d == count e) && fields_eq d e
  json_eq a b = eq_number (as_number a) (as_number b)

  pub items_eq : Items → Items → Bool
  items_eq no_items no_items = true
  items_eq (item a xs) (item b ys) = json_eq a b && items_eq xs ys
  items_eq _ _ = false

  -- Every field of the first dict is in the second.
  pub fields_eq : Object → Object → Bool
  fields_eq no_fields e = true
  fields_eq (field k v d) e = has (get k e) && json_eq v (or_null (get k e)) && fields_eq d e

-- `path.split(".")`
abbrev before_rest : ℕ → List Text → List Text
before_rest c [] = []
before_rest c (part ∷ parts) = (c ∷ part) ∷ parts

unfoldable pub split : Text → List Text
split [] = [] ∷ []
split (c ∷ s) = let rest = split s in if c == 46 then [] ∷ rest else before_rest c rest

-- `target.setdefault(part, {})`, as far as it is a dict.
abbrev pub child : Option Json → Option Object
child none = some no_fields
child (some (object d)) = some d
child (some _) = none

-- `_set_at_path`, on the parts of the path. A value on the way that is no dict stops it.
unfoldable pub set_at : List Text → Json → Object → Object
set_at [] value d = d
set_at (key ∷ []) value d = set key value d
set_at (part ∷ key ∷ parts) value d = elim (child (get part d)) [
  | none ↦ d
  | some below ↦ set part (object (set_at (key ∷ parts) value below)) d
]

unfoldable pub set_at_path : Object → Text → Json → Object
set_at_path d path value = set_at (split path) value d

-- The walk of `_validate_mutations`: what stands at a path, `None` where there is nothing.
unfoldable pub walk : List Text → Json → Json
walk [] current = current
walk (part ∷ parts) (object d) = walk parts (or_null (get part d))
walk (part ∷ parts) _ = null
