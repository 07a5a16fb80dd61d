-- ===== src/CodingAgent/Report/Blank.antt =====
-- When `_collect_errors` (agent.py) reports nothing.
use architect.Common.{
  ◌≡◌, refl, ap, ◌∙◌, ◌⊎◌, inl, inr, ◌↔◌, true, false, List, [], ◌∷◌, ◌++◌, every, All, Bool-cases,
  List-cases,
}
use architect.Common.Text.{Text, strip, splitlines, is_space, strip-nil, splitlines-blank}
use architect.CodingAgent.Models.{ℤ, CommandResult, Error}
use architect.CodingAgent.Report.{
  is_zero, output, error_lines, or_generic, after, collect, collect_errors,
}

-- A command that exits with zero, or prints only white space; what it prints to stdout counts only if
-- it prints nothing to stderr.
abbrev pub IsQuiet : CommandResult → Type 0
IsQuiet r = (is_zero r.exit_code ≡ true) ⊎ (every is_space (output r) ≡ true)

error_lines-blank :
    (lines : List Text) → every (every is_space) lines ≡ true → error_lines lines ≡ []
unfolding error_lines
error_lines-blank [] h = refl
error_lines-blank (line ∷ lines) h = elim (Bool-cases (every is_space line)) [
  | inl e ↦ rw ((strip-nil line).1 e) (error_lines-blank lines (rw e at h))
  | inr e ↦ cc (rw e at h)
]

or_generic-nil :
    (code : ℤ) (out stripped : Text) (es : List Error)
    → or_generic code out stripped es ≡ []
    → stripped ≡ []
or_generic-nil code out [] es h = refl
or_generic-nil code out (c ∷ s) [] h = cc
or_generic-nil code out (c ∷ s) (e ∷ es) h = cc

after-nil : (r : CommandResult) → (after r [] ≡ []) ↔ IsQuiet r
after-nil r = elim (Bool-cases (is_zero r.exit_code)) [
  | inl e ↦ (λ h. inl e, λ q. rw e refl)
  | inr e ↦ (λ h. inr (printed e h), λ q. quiet e q)
]
  where
    found : List Error
    found = error_lines (splitlines (output r))

    printed : is_zero r.exit_code ≡ false → after r [] ≡ [] → every is_space (output r) ≡ true
    printed e h =
        (strip-nil (output r)).0
          (or_generic-nil r.exit_code (output r) (strip (output r)) found (rw e at h))

    quiet : is_zero r.exit_code ≡ false → IsQuiet r → after r [] ≡ []
    quiet e (inl z) = cc
    quiet e (inr b) = rw e (
        rw ((strip-nil (output r)).1 b)
          (rw (error_lines-blank (splitlines (output r)) (splitlines-blank (output r) b)) refl))

-- What is reported stays.
or_generic-cons :
    (code : ℤ) (out stripped : Text) (e : Error) (es : List Error)
    → or_generic code out stripped (e ∷ es) ≡ e ∷ es
or_generic-cons code out [] e es = refl
or_generic-cons code out (c ∷ s) e es = refl

after-cons :
    (r : CommandResult) (e : Error) (es : List Error)
    → (f : Error) × (fs : List Error) × (after r (e ∷ es) ≡ f ∷ fs)
after-cons r e es = elim (Bool-cases (is_zero r.exit_code)) [
  | inl z ↦ (e, es, rw z refl)
  | inr z ↦
      let found = error_lines (splitlines (output r)) in
      (
        e,
        es ++ found,
        rw z (or_generic-cons r.exit_code (output r) (strip (output r)) e (es ++ found)),
      )
]

collect-cons :
    (rs : List CommandResult) (e : Error) (es : List Error)
    → (f : Error) × (fs : List Error) × (collect rs (e ∷ es) ≡ f ∷ fs)
collect-cons [] e es = (e, es, refl)
collect-cons (r ∷ rs) e es =
    let (g, gs, step) = after-cons r e es in
    let (f, fs, more) = collect-cons rs g gs in (f, fs, ap (collect rs) step ∙ more)

collect-nil : (rs : List CommandResult) → (collect rs [] ≡ []) ↔ All IsQuiet rs
collect-nil [] = (λ h. tt, λ h. refl)
collect-nil (r ∷ rs) = elim (List-cases (after r [])) [
  | inl e ↦
      (λ h. ((after-nil r).0 e, (collect-nil rs).0 (rw e at h)), λ q. rw e ((collect-nil rs).1 q.1))
  | inr (x, xs, e) ↦
      let (f, fs, more) = collect-cons rs x xs in (λ h. cc, λ q. cc ((after-nil r).1 q.0))
]

-- No error is found exactly if every command exits with zero or prints only white space, where what
-- it prints to stdout counts only if it prints nothing to stderr.
pub collect_errors-IsQuiet : (rs : List CommandResult) → (collect_errors rs ≡ []) ↔ All IsQuiet rs
unfolding collect_errors
collect_errors-IsQuiet rs = collect-nil rs
