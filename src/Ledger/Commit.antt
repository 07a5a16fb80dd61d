-- ===== src/Ledger/Commit.antt =====
-- The operations of `StateManager` that change the ledger, its cache and its proposals,
-- services/world-state-ledger/src/world_state_ledger/state_manager.py. `hit` says whether a read of
-- the cache gives what was stored, which expiry decides, and `saved` whether Redis takes a write to
-- it: else the write raises. A call runs as a whole, with no other call inside it.

pub mod Outcome
pub mod Checks
pub mod History
use architect.Common.{
  ◌+◌, ◌%◌, Bool, true, false, not, Option, none, some, List, [], ◌∷◌, ◌++◌, ◌==◌, if◌then◌else◌,
}
use architect.Common.Result.{Result, ok, err}
use architect.TaskGraph.Models.{Time}
use architect.Ledger.Json.{Object}
use architect.Ledger.Models.{
  ProposalId, LedgerVersion, pending, accepted, rejected, is_pending, is_accepted, WorldState,
  pristine, Proposal, LedgerRow, ProposalRow, Reason,
}
use architect.Ledger.Manager.{
  Pydantic, Error, proposal_not_found, concurrency, integrity_error, redis_error, Event,
  proposal_created, proposal_rejected, proposal_accepted, ledger_updated, State,
  checkpoint_interval, insert_row, find_proposal, put_proposal, validated, get_version, current_of,
  validate_mutations, apply_mutations,
}

abbrev pub is_checkpoint_version : LedgerVersion → Bool
is_checkpoint_version v = (v % checkpoint_interval) == 0

module _ (py : Pydantic) where
  open py use {model_dump, model_validate}

  -- A read from the tables goes into the cache.
  abbrev pub cached : Bool → Result Error WorldState → State → Result Error WorldState × State
  cached saved (err e) s = (err e, s)
  cached true (ok state) s = (ok state, record s { cache = some (model_dump state) })
  cached false (ok state) s = (err redis_error, s)

  abbrev pub latest_state : Time → List LedgerRow → Result Error WorldState
  latest_state now [] = ok (pristine now)
  latest_state now (row ∷ rows) =
      let replayed = get_version py now (row ∷ rows) row.version in
      elim row.state_snapshot [
        | none ↦ replayed
        | some d ↦ if row.is_checkpoint then validated py (model_validate d) else replayed
      ]

  unfoldable pub get_current : Time → Bool → Bool → State → Result Error WorldState × State
  get_current now hit saved s = elim (if hit then s.cache else none) [
    | some d ↦ (validated py (model_validate d), s)
    | none ↦ cached saved (latest_state now s.rows) s
  ]

  abbrev pub new_row : Proposal → LedgerVersion → ProposalRow
  new_row p v = record {
    id = p.id;
    agent_id = p.agent_id;
    task_id = p.task_id;
    mutations = p.mutations;
    rationale = p.rationale;
    verdict = pending;
    verdict_reason = none;
    verdict_at = none;
    ledger_version_before = v;
    ledger_version_after = none;
  }

  abbrev pub add_proposal :
      Proposal → Option ProposalRow → LedgerVersion → State → Result Error ProposalId × State
  add_proposal p (some there) v s = (err integrity_error, s)
  add_proposal p none v s = (
    ok p.id,
    record s {
      proposals = s.proposals ++ new_row p v ∷ [];
      events = s.events ++ proposal_created p.id p.agent_id p.task_id ∷ [];
    },
  )

  abbrev pub submitted :
      Proposal → Result Error WorldState × State → Result Error ProposalId × State
  submitted p (err e, s) = (err e, s)
  submitted p (ok state, s) = add_proposal p (find_proposal p.id s.proposals) state.version s

  unfoldable pub submit_proposal :
      Time → Bool → Bool → Proposal → State → Result Error ProposalId × State
  submit_proposal now hit saved p s = submitted p (get_current now hit saved s)

  abbrev pub rejected_row : Time → Reason → ProposalRow → ProposalRow
  rejected_row now reason p = record p {
    verdict = rejected;
    verdict_reason = some reason;
    verdict_at = some now;
  }

  abbrev pub accepted_row : Time → LedgerVersion → ProposalRow → ProposalRow
  accepted_row now v p = record p {
    verdict = accepted;
    verdict_at = some now;
    ledger_version_after = some v;
  }

  abbrev pub after_rejection : Time → ProposalRow → Reason → State → State
  after_rejection now p reason s = record s {
    proposals = put_proposal (rejected_row now reason p) s.proposals;
    events = s.events ++ proposal_rejected p.id reason ∷ [];
  }

  -- The state and the ledger row of a new version.
  abbrev pub next_state : Time → WorldState → WorldState → WorldState
  next_state now current changed = record changed {
    version = current.version + 1;
    updated_at = now;
  }

  abbrev pub ledger_row : Time → ProposalRow → WorldState → LedgerRow
  ledger_row now p new_state = record {
    version = new_state.version;
    state_snapshot =
        if is_checkpoint_version new_state.version then some (model_dump new_state) else none;
    mutations = p.mutations;
    is_checkpoint = is_checkpoint_version new_state.version;
    updated_at = now;
    proposal_id = p.id;
  }

  -- What `session.commit()` makes durable: the row of the new version and the verdict.
  abbrev pub after_commit : Time → ProposalRow → WorldState → List LedgerRow → State → State
  after_commit now p new_state rows s = record s {
    rows = rows;
    proposals = put_proposal (accepted_row now new_state.version p) s.proposals;
  }

  -- After the commit: the write to the cache, then the events. Where the write raises, no event goes
  -- out and the caller gets the exception, while the commit stands.
  abbrev pub announce : Bool → ProposalRow → WorldState → State → Result Error Bool × State
  announce false p new_state s = (err redis_error, s)
  announce true p new_state s = (
    ok true,
    record s {
      cache = some (model_dump new_state);
      events =
          s.events
          ++ proposal_accepted p.id new_state.version ∷ ledger_updated p.id new_state.version ∷ [];
    },
  )

  abbrev pub commit : Time → Bool → ProposalRow → WorldState → State → Result Error Bool × State
  commit now saved p new_state s = elim (insert_row (ledger_row now p new_state) s.rows) [
    | none ↦ (err integrity_error, s)
    | some rows ↦ announce saved p new_state (after_commit now p new_state rows s)
  ]

  abbrev pub apply_and_commit :
      Time → Bool → ProposalRow → WorldState → State → Result Error Bool × State
  apply_and_commit now saved p current s = elim (apply_mutations py current p.mutations) [
    | err e ↦ (err e, s)
    | ok changed ↦ commit now saved p (next_state now current changed) s
  ]

  abbrev pub validate_pending :
      Time → Bool → ProposalRow → WorldState → State → Result Error Bool × State
  validate_pending now saved p current s = elim (validate_mutations py current p.mutations) [
    | err e ↦ (err e, s)
    | ok (some reason) ↦ (ok false, after_rejection now p reason s)
    | ok none ↦ apply_and_commit now saved p current s
  ]

  abbrev pub resolve : Time → Bool → ProposalRow → State → Result Error Bool × State
  resolve now saved p s = elim (current_of py now s.rows) [
    | err e ↦ (err e, s)
    | ok current ↦
        if not (current.version == p.ledger_version_before)
        then (err (concurrency p.ledger_version_before current.version), s)
        else validate_pending now saved p current s
  ]

  unfoldable pub validate_and_commit : Time → Bool → ProposalId → State → Result Error Bool × State
  validate_and_commit now saved id s = elim (find_proposal id s.proposals) [
    | none ↦ (err (proposal_not_found id), s)
    | some p ↦
        if not (is_pending p.verdict)
        then (ok (is_accepted p.verdict), s)
        else resolve now saved p s
  ]
