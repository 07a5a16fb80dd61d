-- ===== src/HumanInterface/Gates/Overlap.antt =====
-- `cast_vote` (api/routes.py) when votes overlap. A vote reads the gate with no lock on its row and
-- commits later, from what it read; the columns that it does not change keep what others wrote. The
-- table of votes has a unique key of gate and voter, `uq_approval_votes_gate_voter`.
pub mod Alone
pub mod Backed
pub mod Rows
use architect.Common.{
  ℕ, zero, suc, ◌+◌, Bool, true, false, Option, none, some, List, [], ◌∷◌, ◌++◌, leb, if◌then◌else◌,
}
use architect.Common.Result.{Result}
use architect.Common.Dict.{lookup, insert, nat_eq}
use architect.Common.Text.{Text}
use architect.TaskGraph.Models.{Time}
use architect.HumanInterface.Gates.{
  ApprovalGateId, ApprovalGate, approved, denied, Decision, approve, deny, ApprovalVote,
  CreateApprovalGateRequest, VoteRequest, State, empty, is_pending, is_blank, identity, has_voted,
  add_approval, resolve, count_vote, create_approval_gate,
}

-- A vote between its read of the gate and its commit, with the gate as it was read.
pub record Ballot : Type 0 where
  pub gate_id : ApprovalGateId
  pub voter : Text
  pub decision : Decision
  pub gate : ApprovalGate

pub record Server : Type 0 where
  pub tables : State
  pub ballots : List Ballot

-- The UPDATE of a gate's row, by the gate that was read: the columns that the vote changes.
unfoldable pub write_gate : Time → Decision → ApprovalGate → ApprovalGate → ApprovalGate
write_gate now approve read row =
    let counted = add_approval read in
    let row' = record row { current_approvals = counted.current_approvals } in
    if leb counted.required_approvals counted.current_approvals
    then resolve approved now row'
    else row'
write_gate now deny read row = resolve denied now row

abbrev pub written : Time → Ballot → Option ApprovalGate → State → State
written now b none s = s
written now b (some row) s = record {
  gates = insert b.gate_id (write_gate now b.decision b.gate row) s.gates;
  votes = record { gate_id = b.gate_id; voter = b.voter; decision = b.decision } ∷ s.votes;
  broadcasts = count_vote now b.decision b.gate ∷ s.broadcasts;
}

-- From the look at the votes to the commit. A second vote is refused by that look, or, if the first was
-- committed after it, by the unique key: either way nothing is written.
unfoldable pub commit_ballot : Time → Ballot → State → State
commit_ballot now b s =
    if has_voted b.gate_id b.voter s.votes then s else written now b (lookup b.gate_id s.gates) s

-- The checks before a vote is recorded, by the gate that is read.
abbrev pub opened : ApprovalGateId → Text → Decision → Option ApprovalGate → Server → Server
opened id voter decision none v = v
opened id voter decision (some gate) v =
    if is_pending gate.status
    then record v {
      ballots =
          record { gate_id = id; voter = voter; decision = decision; gate = gate } ∷ v.ballots;
    }
    else v

unfoldable pub open_ballot : ApprovalGateId → Option Text → VoteRequest → Server → Server
open_ballot id header body v =
    let voter = identity header body.voter in
    if is_blank voter then v else opened id voter body.decision (lookup id v.tables.gates) v

-- The ballot at a position, and the others.
abbrev pub and_others : Ballot → Option (Ballot × List Ballot) → Option (Ballot × List Ballot)
and_others b none = none
and_others b (some (c, others)) = some (c, b ∷ others)

unfoldable pub take_at : ℕ → List Ballot → Option (Ballot × List Ballot)
take_at n [] = none
take_at zero (b ∷ bs) = some (b, bs)
take_at (suc n) (b ∷ bs) = and_others b (take_at n bs)

abbrev pub closed : Time → Option (Ballot × List Ballot) → Server → Server
closed now none v = v
closed now (some (b, others)) v = record { tables = commit_ballot now b v.tables; ballots = others }

-- What happens next: a gate is created, a vote reads its gate, or one of the open votes goes on to its
-- end.
pub data Event : Type 0 where
  created : Time → ApprovalGateId → CreateApprovalGateRequest → Event
  began : ApprovalGateId → Option Text → VoteRequest → Event
  finished : Time → ℕ → Event

unfoldable pub act : ℕ → Event → Server → Server
act default_minutes (created now id body) v = record v {
  tables = (create_approval_gate default_minutes now id body v.tables).1;
}
act default_minutes (began id header body) v = open_ballot id header body v
act default_minutes (finished now n) v = closed now (take_at n v.ballots) v

-- The events in order, the latest first.
unfoldable pub act_all : ℕ → List Event → Server
act_all default_minutes [] = record { tables = empty; ballots = [] }
act_all default_minutes (e ∷ es) = act default_minutes e (act_all default_minutes es)
