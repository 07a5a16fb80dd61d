-- ===== src/Ledger/Commit/Outcome.antt =====
-- How `validate_and_commit` (state_manager.py) ends: what it returns and what it leaves.
use architect.Common.{
  suc, ◌≡◌, ◌≢◌, sym, subst, refl, Bool, true, false, ◌⊎◌, inl, inr, none, some, ◌∷◌, arith, ◌==◌,
  ==_iff, length, Bool-cases, Option-cases,
}
use architect.Common.Result.{Result, ok, err}
use architect.TaskGraph.Models.{Time}
use architect.Ledger.Models.{ProposalId, is_pending, WorldState, ProposalRow, Reason}
use architect.Ledger.Manager.{
  Pydantic, Error, State, find_proposal, current_of, validate_mutations, apply_mutations,
}
use architect.Ledger.Manager.Versions.{IsLedger, insert_row-IsLedger, current_of-version}
use architect.Ledger.Commit.{
  validate_and_commit, resolve, validate_pending, apply_and_commit, after_commit, announce,
  after_rejection, next_state, ledger_row,
}

pub Result-cases :
    {E A : Type 0} (r : Result E A) → ((e : E) × (r ≡ err e)) ⊎ ((a : A) × (r ≡ ok a))
Result-cases (err e) = inl (e, refl)
Result-cases (ok a) = inr (a, refl)

module _ (py : Pydantic) where
  open py use {model_dump, model_validate, validate-dump}

  -- What an accepted proposal was checked against, and the state that it leads to.
  pub record IsCommit (now : Time) (p : ProposalRow) (s : State) (new_state : WorldState)
      : Type 0 where
    pub current : WorldState
    pub changed : WorldState
    pub is_current : current_of py now s.rows ≡ ok current
    pub same_base : current.version ≡ p.ledger_version_before
    pub is_valid : validate_mutations py current p.mutations ≡ ok none
    pub is_changed : apply_mutations py current p.mutations ≡ ok changed
    pub is_next : new_state ≡ next_state py now current changed

  -- A call changes nothing, or rejects the proposal, or commits one new version of the ledger, which
  -- is announced next.
  pub data CommitOutcome (now : Time) (saved : Bool) (id : ProposalId) (s : State)
      (out : Result Error Bool × State) : Type 0 where
    unchanged :
        out.1 ≡ s
        → ((p : ProposalRow)
            → find_proposal id s.proposals ≡ some p
            → is_pending p.verdict ≡ true
            → out.0 ≢ ok true)
        → CommitOutcome now saved id s out
    rejection :
        (p : ProposalRow) (reason : Reason)
        → find_proposal id s.proposals ≡ some p
        → is_pending p.verdict ≡ true
        → out ≡ (ok false, after_rejection py now p reason s)
        → CommitOutcome now saved id s out
    committed :
        (p : ProposalRow) (new_state : WorldState)
        → find_proposal id s.proposals ≡ some p
        → is_pending p.verdict ≡ true
        → p.ledger_version_before ≡ length s.rows
        → new_state.version ≡ suc (length s.rows)
        → IsCommit now p s new_state
        → out
          ≡ announce py saved p new_state
              (after_commit py now p new_state (ledger_row py now p new_state ∷ s.rows) s)
        → CommitOutcome now saved id s out

  pub announce-rows :
      (saved : Bool) (p : ProposalRow) (new_state : WorldState) (s : State)
      → (announce py saved p new_state s).1.rows ≡ s.rows
  announce-rows true p new_state s = refl
  announce-rows false p new_state s = refl

  same_outcome :
      {now : Time} {saved : Bool} {id : ProposalId} {s : State}
      {out out' : Result Error Bool × State}
      → out ≡ out'
      → CommitOutcome now saved id s out'
      → CommitOutcome now saved id s out
  same_outcome {now} {saved} {id} {s} e o = subst (CommitOutcome now saved id s) (sym e) o

  -- The proposal is pending and was made for the current version, and its mutations are valid.
  apply_and_commit-CommitOutcome :
      (now : Time) (saved : Bool) (id : ProposalId) (s : State) (p : ProposalRow)
      (current : WorldState)
      → find_proposal id s.proposals ≡ some p
      → is_pending p.verdict ≡ true
      → IsLedger py s.rows
      → current_of py now s.rows ≡ ok current
      → current.version ≡ p.ledger_version_before
      → validate_mutations py current p.mutations ≡ ok none
      → CommitOutcome now saved id s (apply_and_commit py now saved p current s)
  apply_and_commit-CommitOutcome now saved id s p current found open_ l is_current same valid =
      elim (Result-cases (apply_mutations py current p.mutations)) [
        | inl (e, h) ↦ unchanged (ground (arith, h)) (λ q f o r. ground (arith, h, r))
        | inr (changed, h) ↦
            let new_state = next_state py now current changed in
            let version = current_of-version py now s.rows current l is_current in
            let is_version : new_state.version ≡ suc (length s.rows) = omega (arith, version) in
            let put = insert_row-IsLedger py (ledger_row py now p new_state) s.rows l is_version in
            committed p new_state found open_ (omega (arith, version, same)) is_version
              (record {
                current = current;
                changed = changed;
                is_current = is_current;
                same_base = same;
                is_valid = valid;
                is_changed = h;
                is_next = refl;
              })
              (ground (arith, h, put))
      ]

  validate_pending-CommitOutcome :
      (now : Time) (saved : Bool) (id : ProposalId) (s : State) (p : ProposalRow)
      (current : WorldState)
      → find_proposal id s.proposals ≡ some p
      → is_pending p.verdict ≡ true
      → IsLedger py s.rows
      → current_of py now s.rows ≡ ok current
      → current.version ≡ p.ledger_version_before
      → CommitOutcome now saved id s (validate_pending py now saved p current s)
  validate_pending-CommitOutcome now saved id s p current found open_ l is_current same =
      elim (Result-cases (validate_mutations py current p.mutations)) [
        | inl (e, h) ↦ unchanged (ground (arith, h)) (λ q f o r. ground (arith, h, r))
        | inr (some reason, h) ↦ rejection p reason found open_ (ground (arith, h))
        | inr (none, h) ↦ same_outcome (ground (arith, h)) (
            apply_and_commit-CommitOutcome now saved id s p current found open_ l is_current same h)
      ]

  resolve-CommitOutcome :
      (now : Time) (saved : Bool) (id : ProposalId) (s : State) (p : ProposalRow)
      → find_proposal id s.proposals ≡ some p
      → is_pending p.verdict ≡ true
      → IsLedger py s.rows
      → CommitOutcome now saved id s (resolve py now saved p s)
  resolve-CommitOutcome now saved id s p found open_ l =
      elim (Result-cases (current_of py now s.rows)) [
        | inl (e, h) ↦ unchanged (ground (arith, h)) (λ q f o r. ground (arith, h, r))
        | inr (current, h) ↦ elim (Bool-cases (current.version == p.ledger_version_before)) [
          | inr other ↦
              unchanged (ground (arith, h, other)) (λ q f o r. ground (arith, h, other, r))
          | inl same ↦ same_outcome (ground (arith, h, same)) (
              validate_pending-CommitOutcome now saved id s p current found open_ l h
                ((==_iff current.version p.ledger_version_before).0 same))
        ]
      ]

  -- On a ledger whose versions count up from 1, every call that does not reject leaves everything as
  -- it is, or commits exactly one version, the next, for a pending proposal that was made for the
  -- latest version and whose mutations are valid there. The commit stands also where the write to the
  -- cache after it raises.
  pub validate_and_commit-CommitOutcome :
      (now : Time) (saved : Bool) (id : ProposalId) (s : State)
      → IsLedger py s.rows
      → CommitOutcome now saved id s (validate_and_commit py now saved id s)
  unfolding validate_and_commit
  validate_and_commit-CommitOutcome now saved id s l =
      elim (Option-cases (find_proposal id s.proposals)) [
        | inl h ↦ unchanged (ground (arith, h)) (λ q f o r. cc)
        | inr (p, h) ↦ elim (Bool-cases (is_pending p.verdict)) [
          | inr closed ↦ unchanged (ground (arith, h, closed)) (λ q f o r. cc)
          | inl pending_ ↦
              same_outcome (ground (arith, h, pending_))
                (resolve-CommitOutcome now saved id s p h pending_ l)
        ]
      ]
