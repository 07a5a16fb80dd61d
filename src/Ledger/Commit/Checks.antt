-- ===== src/Ledger/Commit/Checks.antt =====
-- What a committed proposal was checked against: `_validate_mutations` (state_manager.py).
use architect.Common.{
  suc, ◌≤◌, ◌≡◌, ◌∙◌, sym, ap, subst, refl, Bool, true, ◌⊎◌, inl, inr, Option, none, some, List, [],
  ◌∷◌, arith, length, Bool-cases, Option-cases, All,
}
use architect.Common.Result.{Result, ok}
use architect.Common.Text.{codes}
use architect.TaskGraph.Models.{Time}
use architect.Ledger.Json.{
  Json, null, bool, number, string, array, object, Object, json_eq, get, split, walk,
}
use architect.Ledger.Models.{ProposalId, is_pending, WorldState, ProposalRow, StateMutation}
use architect.Ledger.Manager.{
  Pydantic, Error, State, find_proposal, current_of, validate_mutations, apply_mutations, write_all,
  first_stale, check_budget, remaining_in,
}
use architect.Ledger.Manager.Versions.{IsLedger}
use architect.Ledger.Commit.{validate_and_commit, after_commit, ledger_row, next_state}
use architect.Ledger.Commit.Outcome.{
  IsCommit, announce-rows, CommitOutcome, unchanged, rejection, committed,
  validate_and_commit-CommitOutcome,
}
use architect.Ledger.Commit.History.{validated-eq-ok}

-- The old value is `None`, or equal to what stands at the path.
abbrev pub IsExpected : Object → StateMutation → Type 0
IsExpected d m =
    (m.old_value ≡ null) ⊎ (json_eq (walk (split m.path) (object d)) m.old_value ≡ true)

json_eq-null : (v : Json) → json_eq v null ≡ true → v ≡ null
unfolding json_eq
json_eq-null null h = refl
json_eq-null (bool b) h = cc
json_eq-null (number n) h = cc
json_eq-null (string s) h = cc
json_eq-null (array xs) h = cc
json_eq-null (object d) h = cc

first_stale-IsExpected :
    (d : Object) (ms : List StateMutation) → first_stale d ms ≡ none → All (IsExpected d) ms
unfolding first_stale
first_stale-IsExpected d [] h = tt
first_stale-IsExpected d (m ∷ ms) h =
    let current = walk (split m.path) (object d) in
    elim (Bool-cases (json_eq m.old_value null)) [
      | inl blank ↦ (
        inl (json_eq-null m.old_value blank),
        first_stale-IsExpected d ms (ground (arith, h, blank)),
      )
      | inr given ↦ elim (Bool-cases (json_eq current m.old_value)) [
        | inl matches ↦
            (inr matches, first_stale-IsExpected d ms (ground (arith, h, given, matches)))
        | inr stale ↦ ground (arith, h, given, stale)
      ]
    ]

-- No number below zero. A value that is no number, as a string, is not looked at.
abbrev pub IsNonNegative : Json → Type 0
IsNonNegative (number n) = n.minus ≤ n.plus
IsNonNegative _ = Unit

-- The tokens that remain by a dumped state.
abbrev pub WithinBudget : Object → Type 0
WithinBudget d = (r : Json) × (remaining_in (get (codes "budget") d) ≡ some r) × IsNonNegative r

check_budget-WithinBudget : (d : Object) → check_budget d ≡ ok none → WithinBudget d
unfolding check_budget
check_budget-WithinBudget d h = elim (Option-cases (remaining_in (get (codes "budget") d))) [
  | inl e ↦ ground (arith, h, e)
  | inr (r, e) ↦ (r, e, go r e)
]
  where
    go : (r : Json) → remaining_in (get (codes "budget") d) ≡ some r → IsNonNegative r
    go (number n) e = ground (arith, h, e)
    go null e = tt
    go (bool b) e = tt
    go (string s) e = tt
    go (array xs) e = tt
    go (object o) e = tt

module _ (py : Pydantic) where
  open py use {model_dump, model_validate}

  -- An accepted proposal, with the state before it and the rows after it.
  pub record IsAccepted (now : Time) (p : ProposalRow) (s s' : State) : Type 0 where
    pub current : WorldState
    pub is_current : current_of py now s.rows ≡ ok current
    pub same_base : current.version ≡ p.ledger_version_before
    pub expected : All (IsExpected (model_dump current)) p.mutations
    pub within_budget : WithinBudget (write_all (model_dump current) p.mutations)
    pub changed : WorldState
    pub is_changed : model_validate (write_all (model_dump current) p.mutations) ≡ some changed
    pub is_row : s'.rows ≡ ledger_row py now p (next_state py now current changed) ∷ s.rows
    pub one_more : length s'.rows ≡ suc p.ledger_version_before

  validate_mutations-eq-none :
      (state : WorldState) (ms : List StateMutation)
      → validate_mutations py state ms ≡ ok none
      → All (IsExpected (model_dump state)) ms × WithinBudget (write_all (model_dump state) ms)
  unfolding validate_mutations
  validate_mutations-eq-none state ms h = elim (Option-cases (first_stale (model_dump state) ms)) [
    | inl e ↦ (
      first_stale-IsExpected (model_dump state) ms e,
      check_budget-WithinBudget (write_all (model_dump state) ms) (ground (arith, h, e)),
    )
    | inr (reason, e) ↦ ground (arith, h, e)
  ]

  -- If a pending proposal is accepted on a ledger in sequence, it was made for the latest version, each of its old values is
  -- `None` or stands in the state of that version, the remaining tokens after its writes are no
  -- number below zero (a value that is no number, as a string, is not looked at), and the ledger has
  -- one version more, whose row is made of the state that pydantic reads from those writes.
  pub validate_and_commit-IsAccepted :
      (now : Time) (saved : Bool) (id : ProposalId) (s : State) (p : ProposalRow)
      → IsLedger py s.rows
      → find_proposal id s.proposals ≡ some p
      → is_pending p.verdict ≡ true
      → (validate_and_commit py now saved id s).0 ≡ ok true
      → IsAccepted now p s (validate_and_commit py now saved id s).1
  unfolding apply_mutations
  validate_and_commit-IsAccepted now saved id s p l found is_open h =
      go (validate_and_commit py now saved id s)
        (validate_and_commit-CommitOutcome py now saved id s l) h
    where
      found_eq : (q : ProposalRow) → ◌≡◌ {A = Option ProposalRow} (some q) (some p) → q ≡ p
      found_eq q e = cc

      build :
          (q : ProposalRow) (new_state : WorldState) (s' : State)
          → IsCommit py now q s new_state
          → s'.rows ≡ ledger_row py now q new_state ∷ s.rows
          → length s'.rows ≡ suc q.ledger_version_before
          → IsAccepted now q s s'
      build q new_state s' c row more =
          let (fresh, budget) = validate_mutations-eq-none c.current q.mutations c.is_valid in
          record {
            current = c.current;
            is_current = c.is_current;
            same_base = c.same_base;
            expected = fresh;
            within_budget = budget;
            changed = c.changed;
            is_changed =
                validated-eq-ok py (model_validate (write_all (model_dump c.current) q.mutations))
                  c.changed c.is_changed;
            is_row = row ∙ (rw c.is_next refl);
            one_more = more;
          }

      go :
          (out : Result Error Bool × State)
          → CommitOutcome py now saved id s out
          → out.0 ≡ ok true
          → IsAccepted now p s out.1
      go out (unchanged e never) k = absurd (never p found is_open k)
      go out (rejection q reason g o e) k = absurd (ground (arith, e, k))
      go out (committed q new_state g o b v c e) k =
          let same : q ≡ p = found_eq q (sym g ∙ found) in
          let rows = ledger_row py now q new_state ∷ s.rows in
          let kept = announce-rows py saved q new_state (after_commit py now q new_state rows s) in
          let row : out.1.rows ≡ rows = ap (λ (x : Result Error Bool × State). x.1.rows) e ∙ kept in
          subst (λ x. IsAccepted now x s out.1) same
            (build q new_state out.1 c row (rw row (omega (arith, b))))
