-- ===== src/Ledger/Json/Paths.antt =====
-- What a write at a path of a JSON value leaves there and elsewhere.
use architect.Common.{◌≡◌, false, some, List, [], ◌∷◌, arith, Option-cases, inl, inr}
use architect.Common.Text.{Text, text_beq, text_beq_iff}
use architect.Ledger.Json.{Json, object, Object, no_fields, field, get, set, child, set_at, walk}

pub get-set_self : (k : Text) (v : Json) (d : Object) → get k (set k v d) ≡ some v
get-set_self k v no_fields = ground (arith, text_beq_iff k k)
get-set_self k v (field j w d) =
    ground (arith, text_beq_iff k k, text_beq_iff k j, get-set_self k v d)

pub get-set_other :
    (k j : Text) (v : Json) (d : Object) → text_beq j k ≡ false → get j (set k v d) ≡ get j d
get-set_other k j v no_fields h = ground arith
get-set_other k j v (field i w d) h =
    ground (arith, text_beq_iff k i, text_beq_iff j k, text_beq_iff j i, get-set_other k j v d h)

-- Every value on the way to the last part of a path is a dict, or missing.
abbrev pub IsOpen : List Text → Object → Type 0
IsOpen [] d = ⊥
IsOpen (key ∷ []) d = Unit
IsOpen (part ∷ key ∷ parts) d =
    (below : Object) × (child (get part d) ≡ some below) × IsOpen (key ∷ parts) below

-- A write at a path is read back there, if every value on the way is a dict or missing.
pub walk-set_at :
    (path : List Text) (value : Json) (d : Object)
    → IsOpen path d
    → walk path (object (set_at path value d)) ≡ value
unfolding set_at walk
walk-set_at [] value d h = absurd h
walk-set_at (key ∷ []) value d h = ground (arith, get-set_self key value d)
walk-set_at (part ∷ key ∷ parts) value d (below, e, h) = ground (
  arith,
  e,
  get-set_self part (object (set_at (key ∷ parts) value below)) d,
  walk-set_at (key ∷ parts) value below h,
)

-- A write at a path leaves every other field of the dict.
pub get-set_at :
    (part : Text) (parts : List Text) (j : Text) (value : Json) (d : Object)
    → text_beq j part ≡ false
    → get j (set_at (part ∷ parts) value d) ≡ get j d
unfolding set_at
get-set_at part [] j value d h = get-set_other part j value d h
get-set_at part (key ∷ parts) j value d h = elim (Option-cases (child (get part d))) [
  | inl e ↦ ground arith
  | inr (below, e) ↦
      ground (arith, get-set_other part j (object (set_at (key ∷ parts) value below)) d h)
]
