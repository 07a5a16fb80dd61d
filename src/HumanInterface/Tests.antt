-- ===== src/HumanInterface/Tests.antt =====
-- Approval gates on a few requests.
use architect.Common.{ℕ, Option, ◌≡◌, refl, none, some, List, [], ◌∷◌, arith}
use architect.Common.Dict.{lookup, nat_eq}
use architect.Common.Text.{codes, text_eq}
use architect.HumanInterface.Gates.{
  ApprovalGateId, ApprovalGateStatus, pending, approved, Decision, approve, deny,
  CreateApprovalGateRequest, VoteRequest, State, Request, create, vote, serve_all, cast_vote,
  create_approval_gate, has_voted, count_vote,
}
use architect.HumanInterface.Gates.Overlap.{
  Server, Event, created, began, finished, open_ballot, commit_ballot, take_at, write_gate, act,
  act_all,
}
use architect.HumanInterface.Gates.Overlap.Backed.{act_all-IsBacked}
use architect.HumanInterface.Gates.Overlap.Rows.{IsBacked}
use architect.HumanInterface.Gates.Tally.{IsTallied, serve_all-IsTallied}

abbrev gate_request : CreateApprovalGateRequest
gate_request = record {
  action_type = codes "deploy";
  resource_id = none;
  required_approvals = 2;
  expires_in_minutes = some 1;
}

abbrev ballot : Decision → VoteRequest
ballot d = record { decision = d; voter = none }

-- The second vote of ann is refused, and bob's comes long after the gate expired.
abbrev requests : List Request
requests =
    vote 9000 4 (some (codes "bob")) (ballot approve)
    ∷ vote 20 4 (some (codes "ann")) (ballot deny)
    ∷ vote 10 4 (some (codes "ann")) (ballot approve)
    ∷ create 0 4 gate_request
    ∷ []

gate_after :
    lookup 4 (serve_all 60 requests).gates
    ≡ some (record {
      action_type = codes "deploy";
      resource_id = none;
      required_approvals = 2;
      current_approvals = 2;
      status = approved;
      created_at = 0;
      expires_at = 60;
      resolved_at = some 9000;
    })
unfolding serve_all cast_vote create_approval_gate has_voted count_vote
gate_after = refl

serve_all-IsTallied_example : IsTallied (serve_all 60 requests)
serve_all-IsTallied_example = serve_all-IsTallied 60 requests (tt, (tt, (tt, (omega arith, tt))))

-- Two approvals that both read the gate before either commits: the count is one although both are
-- there, so that the gate stays pending.
abbrev lost : List Event
lost =
    finished 12 0
    ∷ finished 11 1
    ∷ began 4 (some (codes "bob")) (ballot approve)
    ∷ began 4 (some (codes "ann")) (ballot approve)
    ∷ created 0 4 gate_request
    ∷ []

abbrev status_at : ApprovalGateId → Server → Option (ApprovalGateStatus × ℕ)
status_at id v = elim (lookup id v.tables.gates) [
  | none ↦ none
  | some g ↦ some (g.status, g.current_approvals)
]

lost_approval : status_at 4 (act_all 60 lost) ≡ some (pending, 1)
unfolding act_all act open_ballot commit_ballot take_at write_gate create_approval_gate has_voted
    count_vote
lost_approval = refl

-- A denial that is committed while the approval that decides is open is overwritten.
abbrev overruled : List Event
overruled =
    finished 14 0
    ∷ finished 13 0
    ∷ began 4 (some (codes "cy")) (ballot deny)
    ∷ began 4 (some (codes "bob")) (ballot approve)
    ∷ finished 11 0
    ∷ began 4 (some (codes "ann")) (ballot approve)
    ∷ created 0 4 gate_request
    ∷ []

overruled_denial : status_at 4 (act_all 60 overruled) ≡ some (approved, 2)
unfolding act_all act open_ballot commit_ballot take_at write_gate create_approval_gate has_voted
    count_vote
overruled_denial = refl

act_all-IsBacked_example : IsBacked (act_all 60 lost).tables
act_all-IsBacked_example = act_all-IsBacked 60 lost

abbrev asked : State
asked = serve_all 60 (create 0 4 gate_request ∷ [])
