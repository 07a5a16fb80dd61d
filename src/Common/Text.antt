-- ===== src/Common/Text.antt =====
-- Python's `str` as the list of its code points.
use Prim.Native.Char.{code}
use Prim.Native.Nat.{ℕ, ◌+◌}
use Prim.Native.String.{String}
use mathlib.Core.Path.{◌≡◌, refl, ap}
use mathlib.Core.Logic.{◌↔◌, inl, inr}
use mathlib.Core.Bool.{Bool, true, false, ◌&&◌, ◌||◌}
use mathlib.Core.List.{List, [], ◌∷◌, ◌++◌}
use native.Mathlib.Omega.{arith}
use architect.Common.Tests.{◌==◌, leb, if◌then◌else◌, Bool-cases}
use architect.Common.Dict.{Eq}
use architect.Common.Lists.{every}

abbrev pub Text : Type 0
Text = List ℕ

-- The text of a literal.
abbrev pub codes : String → Text
codes String.[] = []
codes (String.◌∷◌ c s) = code c ∷ codes s

abbrev pub text_beq : Text → Text → Bool
text_beq [] [] = true
text_beq (a ∷ s) (b ∷ t) = (a == b) && text_beq s t
text_beq _ _ = false

pub text_beq_iff : (s t : Text) → (text_beq s t ≡ true) ↔ (s ≡ t)
text_beq_iff [] [] = (λ _. refl, λ _. refl)
text_beq_iff (a ∷ s) (b ∷ t) = ground (arith, text_beq_iff s t)
text_beq_iff (a ∷ s) [] = (λ h. cc, λ h. cc)
text_beq_iff [] (b ∷ t) = (λ h. cc, λ h. cc)

instance abbrev pub text_eq : Eq Text
text_eq = record { beq = text_beq; beq_iff = text_beq_iff }

-- `str.isspace` of one character.
abbrev pub is_space : ℕ → Bool
is_space c =
    (leb 9 c && leb c 13)
    || (leb 28 c && leb c 32)
    || (c == 133)
    || (c == 160)
    || (c == 5760)
    || (leb 8192 c && leb c 8202)
    || (c == 8232)
    || (c == 8233)
    || (c == 8239)
    || (c == 8287)
    || (c == 12288)

-- `s.lstrip()` and `s.rstrip()`
abbrev pub lstrip : Text → Text
lstrip [] = []
lstrip (c ∷ s) = let rest = lstrip s in if is_space c then rest else c ∷ s

abbrev cons_unless_blank : ℕ → Text → Text
cons_unless_blank c [] = if is_space c then [] else c ∷ []
cons_unless_blank c s = c ∷ s

abbrev pub rstrip : Text → Text
rstrip [] = []
rstrip (c ∷ s) = cons_unless_blank c (rstrip s)

-- `s.strip()`
unfoldable pub strip : Text → Text
strip s = rstrip (lstrip s)

-- `s.startswith(p)`
abbrev pub starts_with : Text → Text → Bool
starts_with [] s = true
starts_with (a ∷ p) [] = false
starts_with (a ∷ p) (c ∷ s) = (a == c) && starts_with p s

-- `p in s`
abbrev pub is_in : Text → Text → Bool
is_in p [] = starts_with p []
is_in p (c ∷ s) = starts_with p (c ∷ s) || is_in p s

-- `s.lower()` at ASCII letters; nothing here depends on any other.
abbrev lower_code : ℕ → ℕ
lower_code c = if leb 65 c && leb c 90 then c + 32 else c

abbrev pub lower : Text → Text
lower [] = []
lower (c ∷ s) = lower_code c ∷ lower s

-- The characters that end a line, of which "\r\n" is one end.
abbrev pub is_line_end : ℕ → Bool
is_line_end c =
    (leb 10 c && leb c 13) || (leb 28 c && leb c 30) || (c == 133) || (c == 8232) || (c == 8233)

abbrev skip_newline : ℕ → Text → Bool
skip_newline c [] = false
skip_newline c (d ∷ s) = (c == 13) && (d == 10)

abbrev onto_first : ℕ → List Text → List Text
onto_first c [] = (c ∷ []) ∷ []
onto_first c (line ∷ lines) = (c ∷ line) ∷ lines

-- `s.splitlines()`
unfoldable pub splitlines : Text → List Text
splitlines [] = []
splitlines (c ∷ s) =
    let rest = splitlines s in
    if skip_newline c s then rest else if is_line_end c then [] ∷ rest else onto_first c rest

-- `s.splitlines(keepends=True)`
unfoldable pub splitlines_keepends : Text → List Text
splitlines_keepends [] = []
splitlines_keepends (c ∷ s) =
    let rest = splitlines_keepends s in
    if skip_newline c s
    then onto_first c rest
    else if is_line_end c
    then (c ∷ []) ∷ rest
    else onto_first c rest

-- `"".join(texts)`
abbrev pub join : List Text → Text
join [] = []
join (t ∷ ts) = t ++ join ts

lstrip-blank : (s : Text) → every is_space s ≡ true → lstrip s ≡ []
lstrip-blank [] h = refl
lstrip-blank (c ∷ s) h = elim (Bool-cases (is_space c)) [
  | inl e ↦ rw e (lstrip-blank s (rw e at h))
  | inr e ↦ cc (rw e at h)
]

blank-lstrip : (s : Text) → every is_space (lstrip s) ≡ true → every is_space s ≡ true
blank-lstrip [] h = refl
blank-lstrip (c ∷ s) h = elim (Bool-cases (is_space c)) [
  | inl e ↦ rw e (blank-lstrip s (rw e at h))
  | inr e ↦ rw e at h
]

cons_unless_blank-nil :
    (c : ℕ) (t : Text) → cons_unless_blank c t ≡ [] → (is_space c ≡ true) × (t ≡ [])
cons_unless_blank-nil c [] h = elim (Bool-cases (is_space c)) [
  | inl e ↦ (e, refl)
  | inr e ↦ cc (rw e at h)
]
cons_unless_blank-nil c (d ∷ t) h = cc

blank-rstrip : (s : Text) → rstrip s ≡ [] → every is_space s ≡ true
blank-rstrip [] h = refl
blank-rstrip (c ∷ s) h =
    let (e, rest) = cons_unless_blank-nil c (rstrip s) h in rw e (blank-rstrip s rest)

-- A text strips to nothing exactly if it is all white space.
pub strip-nil : (s : Text) → (strip s ≡ []) ↔ (every is_space s ≡ true)
unfolding strip
strip-nil s = (λ h. blank-lstrip s (blank-rstrip (lstrip s) h), λ h. ap rstrip (lstrip-blank s h))

every-onto_first :
    (c : ℕ) (lines : List Text)
    → is_space c ≡ true
    → every (every is_space) lines ≡ true
    → every (every is_space) (onto_first c lines) ≡ true
every-onto_first c [] e h = rw e refl
every-onto_first c (line ∷ lines) e h = rw e h

-- The lines of white space are white space.
pub splitlines-blank :
    (s : Text) → every is_space s ≡ true → every (every is_space) (splitlines s) ≡ true
unfolding splitlines
splitlines-blank [] h = refl
splitlines-blank (c ∷ s) h = elim (Bool-cases (is_space c)) [
  | inl e ↦
      let ih = splitlines-blank s (rw e at h) in
      elim (Bool-cases (skip_newline c s)) [
        | inl skips ↦ rw skips ih
        | inr more ↦ elim (Bool-cases (is_line_end c)) [
          | inl ends ↦ rw more (rw ends ih)
          | inr goes ↦ rw more (rw goes (every-onto_first c (splitlines s) e ih))
        ]
      ]
  | inr e ↦ cc (rw e at h)
]
