-- ===== src/Ledger/Tests.antt =====
-- The ledger on small inputs, and each of its theorems at an input that meets its hypotheses.
use architect.Common.{
  ◌++◌, ℕ, ◌≡◌, ◌≢◌, refl, true, false, Option, none, some, [], ◌∷◌, arith, length,
}
use architect.Common.Result.{Result, ok, err}
use architect.Common.Text.{codes}
use architect.Ledger.Json.{
  Json, null, number, string, object, Object, no_fields, field, split, walk, set_at, set_at_path,
  json_eq,
}
use architect.Ledger.Json.Paths.{walk-set_at}
use architect.Ledger.Models.{
  ProposalId, Proposal, pending, WorldState, pristine, StateMutation, ProposalRow, LedgerRow,
}
use architect.Ledger.Manager.{
  Error, redis_error, State, insert_row, find_proposal, put_proposal, nearest_checkpoint,
  rows_between, write_all, first_stale, check_budget, apply_mutations, validate_mutations, replay,
  reconstruct_version, get_version, current_of, labelled,
}
use architect.Ledger.Manager.Versions.{IsLedger}
use architect.Ledger.Manager.Beyond.{get_version-beyond}
use architect.Ledger.Commit.{validate_and_commit, get_current, submit_proposal, new_row}
use architect.Ledger.Commit.Outcome.{CommitOutcome, validate_and_commit-CommitOutcome}
use architect.Ledger.Commit.Checks.{IsAccepted, validate_and_commit-IsAccepted}
use architect.Ledger.Commit.History.{
  Extends, commit_all, commit_all-IsLedger, commit_all-stale, commit_all-get_version,
}
use architect.Ledger.Samples.{plain_pydantic}

abbrev tokens : ℕ → Json
tokens n = number (record { plus = n; minus = 0; shift = 0 })

abbrev write : Json → Json → StateMutation
write old new = record { path = codes "budget.remaining_tokens"; old_value = old; new_value = new }

abbrev proposal : ProposalId → StateMutation → ℕ → ProposalRow
proposal id m base = record {
  id = id;
  agent_id = 4;
  task_id = 2;
  mutations = m ∷ [];
  rationale = [];
  verdict = pending;
  verdict_reason = none;
  verdict_at = none;
  ledger_version_before = base;
  ledger_version_after = none;
}

-- Two proposals for the pristine state, and one for the version behind it.
abbrev first : ProposalRow
first = proposal 1 (write (tokens 0) (tokens 50)) 0

abbrev second : ProposalRow
second = proposal 2 (write null (tokens 7)) 0

abbrev third : ProposalRow
third = proposal 3 (write (tokens 50) (tokens 20)) 1

abbrev empty : State
empty = record { rows = []; proposals = first ∷ second ∷ third ∷ []; cache = none; events = [] }

program : Unit {0}
unfolding split walk set_at set_at_path json_eq insert_row find_proposal put_proposal
    nearest_checkpoint rows_between write_all first_stale check_budget apply_mutations
    validate_mutations replay reconstruct_version get_version current_of validate_and_commit
    commit_all
program = tt

abbrev once : State
once = (validate_and_commit plain_pydantic 5 true 1 empty).1

first_ok : (validate_and_commit plain_pydantic 5 true 1 empty).0 ≡ ok true
unfolding program
first_ok = refl

first_found : find_proposal 1 empty.proposals ≡ some first
unfolding program
first_found = refl

once-IsLedger : IsLedger plain_pydantic once.rows
unfolding program
once-IsLedger = (commit_all-IsLedger plain_pydantic ((5, true, 1) ∷ []) empty tt).0

validate_and_commit-IsAccepted_example :
    IsAccepted plain_pydantic 5 first empty (validate_and_commit plain_pydantic 5 true 1 empty).1
validate_and_commit-IsAccepted_example =
    validate_and_commit-IsAccepted plain_pydantic 5 true 1 empty first tt first_found refl first_ok

validate_and_commit-CommitOutcome_example :
    CommitOutcome plain_pydantic 6 true 3 once (validate_and_commit plain_pydantic 6 true 3 once)
validate_and_commit-CommitOutcome_example =
    validate_and_commit-CommitOutcome plain_pydantic 6 true 3 once once-IsLedger

commit_all-IsLedger_example :
    IsLedger plain_pydantic (commit_all plain_pydantic ((6, true, 2) ∷ (7, true, 3) ∷ []) once).rows
    × Extends plain_pydantic once.rows
        (commit_all plain_pydantic ((6, true, 2) ∷ (7, true, 3) ∷ []) once).rows
commit_all-IsLedger_example =
    commit_all-IsLedger plain_pydantic ((6, true, 2) ∷ (7, true, 3) ∷ []) once once-IsLedger

third_ok : length (commit_all plain_pydantic ((6, true, 2) ∷ (7, true, 3) ∷ []) once).rows ≡ 2
unfolding program
third_ok = refl

one_row : length once.rows ≡ 1
unfolding program
one_row = refl

second_left :
    find_proposal 2 (commit_all plain_pydantic ((7, true, 3) ∷ []) once).proposals ≡ some second
unfolding program
second_left = refl

commit_all-stale_example :
    ((validate_and_commit plain_pydantic 8 true 2
        (commit_all plain_pydantic ((7, true, 3) ∷ []) once)).0
      ≢ ok true)
    × ((validate_and_commit plain_pydantic 8 true 2
          (commit_all plain_pydantic ((7, true, 3) ∷ []) once)).1.rows
        ≡ (commit_all plain_pydantic ((7, true, 3) ∷ []) once).rows)
commit_all-stale_example =
    commit_all-stale plain_pydantic ((7, true, 3) ∷ []) 8 true 2 once second once-IsLedger
      (omega (arith, one_row)) second_left refl

commit_all-get_version_example :
    get_version plain_pydantic 9 (commit_all plain_pydantic ((7, true, 3) ∷ []) once).rows 1
    ≡ get_version plain_pydantic 9 once.rows 1
commit_all-get_version_example =
    commit_all-get_version plain_pydantic ((7, true, 3) ∷ []) 9 1 once once-IsLedger
      (omega (arith, one_row))

abbrev request : Proposal
request = record {
  id = 9;
  agent_id = 4;
  task_id = 2;
  mutations = write null (tokens 1) ∷ [];
  rationale = [];
}

-- A cache that raises: the commit stands, nothing is announced, and the caller gets an exception.
silent : (validate_and_commit plain_pydantic 5 false 1 empty).0 ≡ err redis_error
unfolding program
silent = refl

silent_rows : length (validate_and_commit plain_pydantic 5 false 1 empty).1.rows ≡ 1
unfolding program
silent_rows = refl

silent_events : (validate_and_commit plain_pydantic 5 false 1 empty).1.events ≡ []
unfolding program
silent_events = refl

-- The cache then still has the state of version 0, for which a proposal is taken.
abbrev behind : State
behind =
    (validate_and_commit plain_pydantic 5 false 1
      (get_current plain_pydantic 4 false true empty).1).1

request_behind :
    (submit_proposal plain_pydantic 6 true true request behind).1.proposals
    ≡ behind.proposals ++ new_row plain_pydantic request 0 ∷ []
unfolding program submit_proposal get_current
request_behind = refl

request_latest :
    (submit_proposal plain_pydantic 6 false true request behind).1.proposals
    ≡ behind.proposals ++ new_row plain_pydantic request 1 ∷ []
unfolding program submit_proposal get_current
request_latest = refl

-- The remaining tokens as a string: the writes pass the check on the budget.
abbrev minus_five : StateMutation
minus_five = write null (string (codes "-5"))

string_passes : validate_mutations plain_pydantic (pristine 0) (minus_five ∷ []) ≡ ok none
unfolding program
string_passes = refl

abbrev state_of : Result Error WorldState → Option WorldState
state_of (ok s) = some s
state_of (err e) = none

abbrev fallback : Option WorldState → WorldState
fallback (some s) = s
fallback none = pristine 0

-- The table as it stands after the first commit.
abbrev row : LedgerRow
row = record {
  version = 1;
  state_snapshot = none;
  mutations = first.mutations;
  is_checkpoint = false;
  updated_at = 5;
  proposal_id = 1;
}

once_rows : once.rows ≡ row ∷ []
unfolding program
once_rows = refl

row-IsLedger : IsLedger plain_pydantic (row ∷ [])
unfolding program
row-IsLedger = once-IsLedger

abbrev latest : WorldState
latest = fallback (state_of (get_version plain_pydantic 9 (row ∷ []) 1))

latest_read : get_version plain_pydantic 9 (row ∷ []) 1 ≡ ok latest
unfolding program
latest_read = refl

get_version-beyond_example :
    get_version plain_pydantic 9 (row ∷ []) 7 ≡ ok (labelled plain_pydantic 7 latest)
get_version-beyond_example =
    get_version-beyond plain_pydantic 9 7 row [] latest row-IsLedger refl (omega arith) latest_read

abbrev document : Object
document = field (codes "budget") (object (field (codes "spent") (tokens 3) no_fields)) no_fields

walk-set_at_example :
    walk
      (codes "budget" ∷ codes "left" ∷ [])
      (object (set_at (codes "budget" ∷ codes "left" ∷ []) (tokens 4) document))
    ≡ tokens 4
walk-set_at_example =
    walk-set_at (codes "budget" ∷ codes "left" ∷ []) (tokens 4) document
      (field (codes "spent") (tokens 3) no_fields, refl, tt)
