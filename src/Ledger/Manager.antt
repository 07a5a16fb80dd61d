-- ===== src/Ledger/Manager.antt =====
-- `StateManager`, services/world-state-ledger/src/world_state_ledger/state_manager.py. Pydantic is no
-- part of the repository, so it is a parameter. Events are delivered, and database calls return.
pub mod Versions
pub mod Beyond
use architect.Common.{
  ℕ, zero, suc, ◌+◌, ◌%◌, ◌≡◌, Bool, true, false, not, ◌&&◌, Option, none, some, List, [], ◌∷◌,
  ◌++◌, ◌==◌, ltb, leb, filter, if◌then◌else◌, head?,
}
use mathlib.Core.List.{reverse}
use architect.Common.Result.{Result, ok, err, and_then}
use architect.Common.Text.{Text, codes}
use architect.TaskGraph.Models.{AgentId, TaskId, Time}
use architect.Ledger.Json.{
  Number, Json, null, object, number, Object, get, json_eq, as_number, set_at_path, split, walk,
}
use architect.Ledger.Models.{
  ProposalId, LedgerVersion, pending, accepted, rejected, is_pending, is_accepted, WorldState,
  pristine, StateMutation, Proposal, LedgerRow, ProposalRow, Reason, stale_value, budget_violated,
}

-- `WorldState.model_dump(mode="json")` and `WorldState.model_validate`, `none` where it raises. The
-- default state and a validated state, under whatever version and time, come back from their dumps.
pub record Pydantic : Type 1 where
  pub model_dump : WorldState → Object
  pub model_validate : Object → Option WorldState
  pub validate-pristine : (t : Time) → model_validate (model_dump (pristine t)) ≡ some (pristine t)
  pub validate-dump :
      (d : Object) (state : WorldState) (v : LedgerVersion) (t : Time)
      → model_validate d ≡ some state
      → model_validate (model_dump (record state { version = v; updated_at = t }))
        ≡ some (record state { version = v; updated_at = t })

pub data Error : Type 0 where
  version_not_found : LedgerVersion → Error
  proposal_not_found : ProposalId → Error
  concurrency : (expected actual : LedgerVersion) → Error
  validation_error integrity_error attribute_error redis_error : Error

pub data Event : Type 0 where
  proposal_created : ProposalId → AgentId → TaskId → Event
  proposal_rejected : ProposalId → Reason → Event
  proposal_accepted ledger_updated : ProposalId → LedgerVersion → Event

-- The two tables, the cached state and what was published. The ledger's rows are in the descending
-- order of their primary key, `version`, as the queries read them.
pub record State : Type 0 where
  pub rows : List LedgerRow
  pub proposals : List ProposalRow
  pub cache : Option Object
  pub events : List Event

-- `_CHECKPOINT_INTERVAL`
abbrev pub checkpoint_interval : ℕ
checkpoint_interval = 20

-- `session.add(row)`: a version that is there violates the primary key.
abbrev put_behind : LedgerRow → Option (List LedgerRow) → Option (List LedgerRow)
put_behind row none = none
put_behind row (some rows) = some (row ∷ rows)

unfoldable pub insert_row : LedgerRow → List LedgerRow → Option (List LedgerRow)
insert_row new [] = some (new ∷ [])
insert_row new (row ∷ rows) =
    let rest = insert_row new rows in
    if new.version == row.version
    then none
    else if ltb row.version new.version
    then some (new ∷ row ∷ rows)
    else put_behind row rest

unfoldable pub find_proposal : ProposalId → List ProposalRow → Option ProposalRow
find_proposal id [] = none
find_proposal id (p ∷ ps) = let rest = find_proposal id ps in if p.id == id then some p else rest

-- The row of a proposal is written back.
unfoldable pub put_proposal : ProposalRow → List ProposalRow → List ProposalRow
put_proposal p [] = []
put_proposal p (q ∷ ps) = (if q.id == p.id then p else q) ∷ put_proposal p ps

-- The nearest checkpoint at or before a version.
unfoldable pub nearest_checkpoint : LedgerVersion → List LedgerRow → Option LedgerRow
nearest_checkpoint v [] = none
nearest_checkpoint v (row ∷ rows) =
    let rest = nearest_checkpoint v rows in
    if row.is_checkpoint && leb row.version v then some row else rest

-- The rows after one version up to another, in ascending order.
unfoldable pub rows_between : LedgerVersion → LedgerVersion → List LedgerRow → List LedgerRow
rows_between start v rows =
    reverse (filter (λ row. ltb start row.version && leb row.version v) rows)

-- The writes of a list of mutations, in order.
unfoldable pub write_all : Object → List StateMutation → Object
write_all d [] = d
write_all d (m ∷ ms) = write_all (set_at_path d m.path m.new_value) ms

-- The first mutation whose old value is not what stands at its path.
unfoldable pub first_stale : Object → List StateMutation → Option Reason
first_stale d [] = none
first_stale d (m ∷ ms) =
    let current = walk (split m.path) (object d) in
    let rest = first_stale d ms in
    if not (json_eq m.old_value null) && not (json_eq current m.old_value)
    then some (stale_value m.path m.old_value current)
    else rest

abbrev is_negative : Option Number → Bool
is_negative none = false
is_negative (some n) = ltb n.plus n.minus

abbrev pub or_zero : Option Json → Json
or_zero none = number (record { plus = 0; minus = 0; shift = 0 })
or_zero (some v) = v

-- `simulated.get("budget", {}).get("remaining_tokens", 0)`, `none` where "budget" is no dict.
abbrev pub remaining_in : Option Json → Option Json
remaining_in none = some (or_zero none)
remaining_in (some (object b)) = some (or_zero (get (codes "remaining_tokens") b))
remaining_in (some _) = none

unfoldable pub check_budget : Object → Result Error (Option Reason)
check_budget simulated = elim (remaining_in (get (codes "budget") simulated)) [
  | none ↦ err attribute_error
  | some remaining ↦
      ok (if is_negative (as_number remaining) then some (budget_violated remaining) else none)
]

module _ (py : Pydantic) where
  open py use {model_dump, model_validate}

  abbrev pub validated : Option WorldState → Result Error WorldState
  validated none = err validation_error
  validated (some state) = ok state

  -- `WorldState.model_validate(row.state_snapshot)`
  abbrev pub validate_snapshot : Option Object → Result Error WorldState
  validate_snapshot none = err validation_error
  validate_snapshot (some d) = validated (model_validate d)

  -- `_apply_mutations`
  unfoldable pub apply_mutations : WorldState → List StateMutation → Result Error WorldState
  apply_mutations state mutations =
      validated (model_validate (write_all (model_dump state) mutations))

  -- `_validate_mutations`: the reason if they are not valid.
  unfoldable pub validate_mutations : WorldState → List StateMutation → Result Error (Option Reason)
  validate_mutations state mutations = elim (first_stale (model_dump state) mutations) [
    | some reason ↦ ok (some reason)
    | none ↦ check_budget (write_all (model_dump state) mutations)
  ]

  abbrev pub replay_delta : WorldState → List StateMutation → Result Error WorldState
  replay_delta state [] = ok state
  replay_delta state (m ∷ ms) = apply_mutations state (m ∷ ms)

  -- One row of the replay: a checkpoint replaces the state, a delta is applied.
  abbrev pub replay_row : WorldState → LedgerRow → Result Error WorldState
  replay_row state row = elim row.state_snapshot [
    | none ↦ replay_delta state row.mutations
    | some d ↦
        if row.is_checkpoint then validated (model_validate d) else replay_delta state row.mutations
  ]

  unfoldable pub replay : WorldState → List LedgerRow → Result Error WorldState
  replay state [] = ok state
  replay state (row ∷ rows) = and_then (replay_row state row) λ next. replay next rows

  -- The state and the version that a reconstruction starts from.
  abbrev pub base_state : Time → Option LedgerRow → Result Error WorldState
  base_state now none = ok (pristine now)
  base_state now (some row) = validate_snapshot row.state_snapshot

  abbrev pub base_version : Option LedgerRow → LedgerVersion
  base_version none = 0
  base_version (some row) = row.version

  -- `state.version = version`
  abbrev pub labelled : LedgerVersion → WorldState → WorldState
  labelled v state = record state { version = v }

  -- `_reconstruct_version`
  unfoldable pub reconstruct_version :
      Time → List LedgerRow → LedgerVersion → Result Error WorldState
  reconstruct_version now rows v =
      let base = nearest_checkpoint v rows in
      and_then (base_state now base) λ state.
        if base_version base == v
        then ok state
        else and_then (replay state (rows_between (base_version base) v rows))
            λ last. ok (labelled v last)

  abbrev pub replay_some : WorldState → LedgerVersion → List LedgerRow → Result Error WorldState
  replay_some state v [] = err (version_not_found v)
  replay_some state v (row ∷ rows) =
      and_then (replay state (row ∷ rows)) λ last. ok (labelled v last)

  unfoldable pub get_version : Time → List LedgerRow → LedgerVersion → Result Error WorldState
  get_version now rows v =
      let base = nearest_checkpoint v rows in
      and_then (base_state now base) λ state.
        if base_version base == v
        then ok state
        else replay_some state v (rows_between (base_version base) v rows)

  -- What `validate_and_commit` takes as the current state, under the lock of the latest row.
  unfoldable pub current_of : Time → List LedgerRow → Result Error WorldState
  current_of now [] = ok (pristine now)
  current_of now (row ∷ rows) =
      let replayed = reconstruct_version now (row ∷ rows) row.version in
      elim row.state_snapshot [
        | none ↦ replayed
        | some d ↦ if row.is_checkpoint then validated (model_validate d) else replayed
      ]
