-- ===== src/Codebase/Chunker/Blocks.antt =====
-- How far the chunker (chunker.py) takes a block of lines to reach, and what stands above it.
use architect.Common.{
  take, drop, ℕ, zero, suc, ◌+◌, ◌≤◌, ◌<◌, ◌≡◌, refl, sym, ◌∙◌, subst, ◌⊎◌, inl, inr, Bool, true,
  false, List, [], ◌∷◌, length, leb, ◌==◌, All, arith, Bool-cases,
}
use architect.Common.Text.{Text, strip}
use architect.Codebase.Chunker.{is_empty, indent, scan, is_remark_at, walk_back}

abbrev pub is_blank : Text → Bool
is_blank line = is_empty (strip line)

-- The lines behind a block are blank, up to one that is not, whose indentation ends the block.
abbrev pub Stops : ℕ → List Text → Type 0
Stops base [] = Unit {0}
Stops base (line ∷ lines) =
    ((is_blank line ≡ true) × Stops base lines) ⊎ ((is_blank line ≡ false) × (indent line ≤ base))

abbrev pub IsInside : ℕ → Text → Type 0
IsInside base line = (is_blank line ≡ true) ⊎ (base < indent line)

-- The last of the first `n` lines is not blank, if there is one.
abbrev pub HasLast : ℕ → List Text → Type 0
HasLast zero lines = Unit {0}
HasLast (suc n) [] = ⊥
HasLast (suc zero) (line ∷ lines) = is_blank line ≡ false
HasLast (suc (suc n)) (line ∷ lines) = HasLast (suc n) lines

-- The block is the first `n` of the lines: each of them is blank or deeper than the definition, the
-- last of them is not blank, and it stops there.
pub record IsBlock (base n : ℕ) (lines : List Text) : Type 0 where
  pub is_within : n ≤ length lines
  pub is_inside : All (IsInside base) (take n lines)
  pub has_last : HasLast n lines
  pub stops : Stops base (drop n lines)

abbrev end_of : ℕ → ℕ → ℕ → ℕ
end_of end i zero = end
end_of end i (suc n) = i + suc n

IsBlock-blank :
    (base n : ℕ) (line : Text) (lines : List Text)
    → is_blank line ≡ true
    → IsBlock base n lines
    → (end i : ℕ)
    → (m : ℕ) × IsBlock base m (line ∷ lines) × (end_of end (suc i) n ≡ end_of end i m)
IsBlock-blank base zero line lines e b end i = (
  0,
  record { is_within = omega arith; is_inside = tt; has_last = tt; stops = inl (e, b.stops) },
  refl,
)
IsBlock-blank base (suc n) line lines e b end i = (
  suc (suc n),
  record {
    is_within = omega (arith, b.is_within);
    is_inside = (inl e, b.is_inside);
    has_last = b.has_last;
    stops = b.stops;
  },
  omega arith,
)

IsBlock-deeper :
    (base n : ℕ) (line : Text) (lines : List Text)
    → is_blank line ≡ false
    → base < indent line
    → IsBlock base n lines
    → (i : ℕ) → IsBlock base (suc n) (line ∷ lines) × (end_of (suc i) (suc i) n ≡ i + suc n)
IsBlock-deeper base zero line lines e d b i = (
  record { is_within = omega arith; is_inside = (inr d, tt); has_last = e; stops = b.stops },
  omega arith,
)
IsBlock-deeper base (suc n) line lines e d b i = (
  record {
    is_within = omega (arith, b.is_within);
    is_inside = (inr d, b.is_inside);
    has_last = b.has_last;
    stops = b.stops;
  },
  omega arith,
)

scan-end_of :
    (base end i : ℕ) (lines : List Text)
    → (n : ℕ) × IsBlock base n lines × (scan base end i lines ≡ end_of end i n)
unfolding scan
scan-end_of base end i [] =
    (0, record { is_within = omega arith; is_inside = tt; has_last = tt; stops = tt }, refl)
scan-end_of base end i (line ∷ lines) = elim (Bool-cases (is_blank line)) [
  | inl e ↦
      let (n, b, h) = scan-end_of base end (suc i) lines in
      let (m, b', k) = IsBlock-blank base n line lines e b end i in (m, b', rw e (h ∙ k))
  | inr e ↦ elim (Bool-cases (leb (indent line) base)) [
    | inl at_base ↦ (
      0,
      record {
        is_within = omega arith;
        is_inside = tt;
        has_last = tt;
        stops = inr (e, ground arith);
      },
      rw e (rw at_base refl),
    )
    | inr deeper ↦
        let (n, b, h) = scan-end_of base (suc i) (suc i) lines in
        let (b', k) = IsBlock-deeper base n line lines e (ground arith) b i in
        (suc n, b', rw e (rw deeper (h ∙ k)))
  ]
]

-- A scan from the line behind a definition reaches exactly the end of its block.
pub scan-IsBlock :
    (base start : ℕ) (lines : List Text)
    → (n : ℕ) × IsBlock base n lines × (scan base start start lines ≡ start + n)
scan-IsBlock base start lines =
    let (n, b, h) = scan-end_of base start start lines in (n, b, h ∙ plus n)
  where
    plus : (n : ℕ) → end_of start start n ≡ start + n
    plus zero = omega arith
    plus (suc n) = refl

-- The lines from `i` up to `k` are remarks, and the line before `i` is none.
abbrev pub AreRemarks : List Text → ℕ → ℕ → Type 0
AreRemarks lines i k = (j : ℕ) → i ≤ j → j < k → is_remark_at (drop j lines) ≡ true

abbrev pub IsBare : List Text → ℕ → Type 0
IsBare lines zero = Unit {0}
IsBare lines (suc j) = is_remark_at (drop j lines) ≡ false

-- Where the context of the line `k` starts: at the first of the remarks right above it, or at
-- `otherwise` if there are none.
abbrev pub IsContextStart : List Text → ℕ → ℕ → ℕ → Type 0
IsContextStart lines k otherwise i =
    ((i ≡ otherwise) × IsBare lines k) ⊎ ((i < k) × AreRemarks lines i k × IsBare lines i)

pub walk_back-IsContextStart :
    (lines : List Text) (k otherwise : ℕ)
    → IsContextStart lines k otherwise (walk_back lines k otherwise)
unfolding walk_back
walk_back-IsContextStart lines zero otherwise = inl (refl, tt)
walk_back-IsContextStart lines (suc idx) otherwise =
    elim (Bool-cases (is_remark_at (drop idx lines))) [
      | inl e ↦ rw e (inr (further e (walk_back-IsContextStart lines idx idx)))
      | inr e ↦ rw e (inl (refl, refl))
    ]
  where
    last_or :
        (i j : ℕ)
        → is_remark_at (drop idx lines) ≡ true
        → AreRemarks lines i idx
        → i ≤ j
        → j < suc idx
        → is_remark_at (drop j lines) ≡ true
    last_or i j e h le lt = elim (Bool-cases (j == idx)) [
      | inl same ↦
          let at_idx : idx ≡ j = ground (arith, same) in
          subst (λ (k : ℕ). is_remark_at (drop k lines) ≡ true) at_idx e
      | inr other ↦ h j le (ground (arith, other))
    ]

    further :
        is_remark_at (drop idx lines) ≡ true
        → IsContextStart lines idx idx (walk_back lines idx idx)
        → (walk_back lines idx idx < suc idx)
          × AreRemarks lines (walk_back lines idx idx) (suc idx)
          × IsBare lines (walk_back lines idx idx)
    further e (inl (here, bare)) = (
      omega (arith, here),
      λ j le lt.
          last_or (walk_back lines idx idx) j e (λ k ke kl. absurd (omega (arith, here))) le lt,
      subst (λ (k : ℕ). IsBare lines k) (sym here) bare,
    )
    further e (inr (lt, h, bare)) =
        (omega arith, λ j le lt'. last_or (walk_back lines idx idx) j e h le lt', bare)
