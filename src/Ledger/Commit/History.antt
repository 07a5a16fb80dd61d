-- ===== src/Ledger/Commit/History.antt =====
-- The history of the ledger over any calls of `validate_and_commit` (state_manager.py).
use architect.Common.{
  ◌+◌, ◌≤◌, ◌<◌, ◌≡◌, ◌≢◌, ◌∙◌, sym, ap, refl, Bool, true, inl, inr, Option, none, some, List, [],
  ◌∷◌, arith, length, Bool-cases,
}
use architect.Common.Result.{Result, ok}
use architect.TaskGraph.Models.{Time}
use architect.Ledger.Models.{
  ProposalId, LedgerVersion, is_pending, WorldState, LedgerRow, ProposalRow,
}
use architect.Ledger.Manager.{
  Pydantic, Error, State, find_proposal, validated, apply_mutations, write_all, nearest_checkpoint,
  rows_between, get_version,
}
use architect.Ledger.Manager.Versions.{IsSound, delta, checkpoint, IsLedger}
use architect.Ledger.Commit.{validate_and_commit, after_commit, ledger_row, is_checkpoint_version}
use architect.Ledger.Commit.Outcome.{
  IsCommit, announce-rows, CommitOutcome, unchanged, rejection, committed,
  validate_and_commit-CommitOutcome,
}

module _ (py : Pydantic) where
  open py use {model_dump, model_validate, validate-dump}

  pub validated-eq-ok :
      (o : Option WorldState) (state : WorldState) → validated py o ≡ ok state → o ≡ some state
  validated-eq-ok none state h = cc
  validated-eq-ok (some x) state h = cc

  -- The snapshot of a new checkpoint is read back as the state that was committed.
  ledger_row-IsSound :
      (now : Time) (p : ProposalRow) (s : State) (new_state : WorldState)
      → IsCommit py now p s new_state
      → IsSound py (ledger_row py now p new_state)
  unfolding apply_mutations
  ledger_row-IsSound now p s new_state c =
      elim (Bool-cases (is_checkpoint_version new_state.version)) [
        | inr plain ↦ delta plain (ground (arith, plain))
        | inl full ↦
            let written = write_all (model_dump c.current) p.mutations in
            let valid = validated-eq-ok (model_validate written) c.changed c.is_changed in
            let back = validate-dump written c.changed (c.current.version + 1) now valid in
            checkpoint (model_dump new_state) new_state full (ground (arith, full))
              (rw c.is_next back) refl
      ]

  -- The rows are kept, or one sound row of the next version is put in front.
  pub data Extends (rows : List LedgerRow) : List LedgerRow → Type 0 where
    same : Extends rows rows
    more :
        {rows' : List LedgerRow} (row : LedgerRow) → Extends rows rows' → Extends rows (row ∷ rows')

  pub validate_and_commit-Extends :
      (now : Time) (saved : Bool) (id : ProposalId) (s : State)
      → IsLedger py s.rows
      → IsLedger py (validate_and_commit py now saved id s).1.rows
        × Extends s.rows (validate_and_commit py now saved id s).1.rows
  validate_and_commit-Extends now saved id s l =
      go (validate_and_commit py now saved id s)
        (validate_and_commit-CommitOutcome py now saved id s l)
    where
      go :
          (out : Result Error Bool × State)
          → CommitOutcome py now saved id s out
          → IsLedger py out.1.rows × Extends s.rows out.1.rows
      go out (unchanged e _) = rw e (l, same)
      go out (rejection p reason f o e) = rw e (l, same)
      go out (committed p new_state f o b v c e) =
          let rows = ledger_row py now p new_state ∷ s.rows in
          let kept = announce-rows py saved p new_state (after_commit py now p new_state rows s) in
          rw e (
            rw kept (
              (v, ledger_row-IsSound now p s new_state c, l),
              more (ledger_row py now p new_state) same,
            ))

  -- Calls in any order.
  unfoldable pub commit_all : List (Time × Bool × ProposalId) → State → State
  commit_all [] s = s
  commit_all ((now, saved, id) ∷ calls) s =
      commit_all calls (validate_and_commit py now saved id s).1

  pub Extends-trans : {a b c : List LedgerRow} → Extends a b → Extends b c → Extends a c
  Extends-trans x same = x
  Extends-trans x (more row y) = more row (Extends-trans x y)

  -- From a ledger in sequence, whatever is committed, the versions count up from 1 without a gap, every
  -- checkpoint holds a state of its own version, and the rows that were there stay.
  pub commit_all-IsLedger :
      (calls : List (Time × Bool × ProposalId)) (s : State)
      → IsLedger py s.rows
      → IsLedger py (commit_all calls s).rows × Extends s.rows (commit_all calls s).rows
  unfolding commit_all
  commit_all-IsLedger [] s l = (l, same)
  commit_all-IsLedger ((now, saved, id) ∷ calls) s l =
      let (l', x) = validate_and_commit-Extends now saved id s l in
      let (l'', y) = commit_all-IsLedger calls (validate_and_commit py now saved id s).1 l' in
      (l'', Extends-trans x y)

  length-Extends : {a b : List LedgerRow} → Extends a b → length a ≤ length b
  length-Extends same = omega arith
  length-Extends (more row x) = omega (arith, length-Extends x)

  -- From a ledger in sequence, a pending proposal that was made for a version behind the latest is never
  -- accepted and adds no row, whatever other proposals are committed first.
  pub commit_all-stale :
      (calls : List (Time × Bool × ProposalId)) (now : Time) (saved : Bool) (id : ProposalId)
      (s : State) (p : ProposalRow)
      → IsLedger py s.rows
      → p.ledger_version_before < length s.rows
      → find_proposal id (commit_all calls s).proposals ≡ some p
      → is_pending p.verdict ≡ true
      → ((validate_and_commit py now saved id (commit_all calls s)).0 ≢ ok true)
        × ((validate_and_commit py now saved id (commit_all calls s)).1.rows
            ≡ (commit_all calls s).rows)
  commit_all-stale calls now saved id s p l old found is_open =
      let (l', x) = commit_all-IsLedger calls s l in
      let longer = length-Extends x in
      go (commit_all calls s) found longer _
        (validate_and_commit-CommitOutcome py now saved id (commit_all calls s) l')
    where
      found_eq : (q : ProposalRow) → ◌≡◌ {A = Option ProposalRow} (some p) (some q) → p ≡ q
      found_eq q e = cc

      go :
          (t : State)
          → find_proposal id t.proposals ≡ some p
          → length s.rows ≤ length t.rows
          → (out : Result Error Bool × State) → CommitOutcome py now saved id t out
          → (out.0 ≢ ok true) × (out.1.rows ≡ t.rows)
      go t f longer out (unchanged e never) = (never p f is_open, ap (λ (x : State). x.rows) e)
      go t f longer out (rejection q reason g o e) = ((λ h. ground (arith, e, h)), rw e refl)
      go t f longer out (committed q new_state g o b v c e) =
          let is_p : p ≡ q = found_eq q (sym f ∙ g) in
          absurd
            (omega (arith, old, longer, b, ap (λ (x : ProposalRow). x.ledger_version_before) is_p))

  nearest_checkpoint-newer :
      (v : LedgerVersion) (row : LedgerRow) (rows : List LedgerRow)
      → v < row.version
      → nearest_checkpoint v (row ∷ rows) ≡ nearest_checkpoint v rows
  unfolding nearest_checkpoint
  nearest_checkpoint-newer v row rows h = ground arith

  rows_between-newer :
      (start v : LedgerVersion) (row : LedgerRow) (rows : List LedgerRow)
      → v < row.version
      → rows_between start v (row ∷ rows) ≡ rows_between start v rows
  unfolding rows_between
  rows_between-newer start v row rows h = ground arith

  get_version-Extends :
      (now : Time) (v : LedgerVersion) {a b : List LedgerRow}
      → Extends a b
      → IsLedger py b
      → v ≤ length a
      → get_version py now b v ≡ get_version py now a v
  unfolding get_version
  get_version-Extends now v same l h = refl
  get_version-Extends now v {a} (more {rows'} row x) l h =
      let newer : v < row.version = omega (arith, l.0, h, length-Extends x) in
      let kept : get_version py now (row ∷ rows') v ≡ get_version py now rows' v =
        rw (nearest_checkpoint-newer v row rows' newer) (simp (rows_between-newer, newer)) in
      kept ∙ get_version-Extends now v x l.2 h

  -- From a ledger in sequence, a version that is there is read the same after any commits.
  pub commit_all-get_version :
      (calls : List (Time × Bool × ProposalId)) (now : Time) (v : LedgerVersion) (s : State)
      → IsLedger py s.rows
      → v ≤ length s.rows
      → get_version py now (commit_all calls s).rows v ≡ get_version py now s.rows v
  commit_all-get_version calls now v s l h =
      let (l', x) = commit_all-IsLedger calls s l in get_version-Extends now v x l' h
