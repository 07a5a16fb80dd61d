-- ===== src/HumanInterface/Gates.antt =====
-- Approval gates: `create_approval_gate` and `cast_vote`, services/human-interface/src/human_interface/
-- api/routes.py, on the tables of libs/architect-db. Here a request runs to its end before the next starts;
-- Overlap has votes whose reads and writes interleave, as nothing keeps them apart.
-- The JSON context of a gate and the comment of a vote are left out; minutes are natural.
pub mod Tally
pub mod Overlap
use architect.Common.{
  ℕ, zero, suc, ◌+◌, ◌*◌, Bool, true, false, not, ◌&&◌, ◌||◌, Option, none, some, List, [], ◌∷◌,
  ◌++◌, ◌==◌, leb, if◌then◌else◌,
}
use architect.Common.Result.{Result, ok, err}
use architect.Common.Dict.{Dict, lookup, insert, nat_eq}
use architect.Common.Text.{Text, text_beq}
use architect.TaskGraph.Models.{Time}

abbrev pub ApprovalGateId : Type 0
ApprovalGateId = ℕ

pub data ApprovalGateStatus : Type 0 where
  pending approved denied expired : ApprovalGateStatus

pub record ApprovalGate : Type 0 where
  pub action_type : Text
  pub resource_id : Option Text
  pub required_approvals : ℕ
  pub current_approvals : ℕ
  pub status : ApprovalGateStatus
  pub created_at : Time
  pub expires_at : Time
  pub resolved_at : Option Time

pub data Decision : Type 0 where
  approve deny : Decision

pub record ApprovalVote : Type 0 where
  pub gate_id : ApprovalGateId
  pub voter : Text
  pub decision : Decision

pub record CreateApprovalGateRequest : Type 0 where
  pub action_type : Text
  pub resource_id : Option Text
  pub required_approvals : ℕ
  pub expires_in_minutes : Option ℕ

pub record VoteRequest : Type 0 where
  pub decision : Decision
  pub voter : Option Text

-- The answers 401, 404, 400 and 409, and the error of a key that is there already.
pub data HttpError : Type 0 where
  identity_required gate_not_found no_longer_pending already_voted integrity_error : HttpError

-- Both tables, and the gates that were broadcast.
pub record State : Type 0 where
  pub gates : Dict ApprovalGateId ApprovalGate
  pub votes : List ApprovalVote
  pub broadcasts : List ApprovalGate

abbrev pub empty : State
empty = record { gates = []; votes = []; broadcasts = [] }

abbrev pub is_pending : ApprovalGateStatus → Bool
is_pending pending = true
is_pending _ = false

abbrev pub or_blank : Option Text → Text
or_blank none = []
or_blank (some t) = t

abbrev pub is_blank : Text → Bool
is_blank [] = true
is_blank (c ∷ t) = false

-- `request.headers.get("X-Authenticated-User") or body.voter`
abbrev pub identity : Option Text → Option Text → Text
identity header voter = if is_blank (or_blank header) then or_blank voter else or_blank header

-- `any(v.voter == voter for v in existing_votes)`, of the votes on the gate.
unfoldable pub has_voted : ApprovalGateId → Text → List ApprovalVote → Bool
has_voted id voter [] = false
has_voted id voter (v ∷ votes) =
    ((id == v.gate_id) && text_beq voter v.voter) || has_voted id voter votes

abbrev pub add_approval : ApprovalGate → ApprovalGate
add_approval gate = record gate { current_approvals = gate.current_approvals + 1 }

abbrev pub resolve : ApprovalGateStatus → Time → ApprovalGate → ApprovalGate
resolve status now gate = record gate { status = status; resolved_at = some now }

unfoldable pub count_vote : Time → Decision → ApprovalGate → ApprovalGate
count_vote now approve gate =
    let counted = add_approval gate in
    if leb counted.required_approvals counted.current_approvals
    then resolve approved now counted
    else counted
count_vote now deny gate = resolve denied now gate

abbrev pub record_vote :
    Time
    → ApprovalGateId
    → Text
    → Decision
    → ApprovalGate
    → State
    → Result HttpError ApprovalGate × State
record_vote now id voter decision gate s =
    let counted = count_vote now decision gate in
    (
      ok counted,
      record {
        gates = insert id counted s.gates;
        votes = record { gate_id = id; voter = voter; decision = decision } ∷ s.votes;
        broadcasts = counted ∷ s.broadcasts;
      },
    )

abbrev pub vote_on :
    Time
    → ApprovalGateId
    → Text
    → Decision
    → Option ApprovalGate
    → State
    → Result HttpError ApprovalGate × State
vote_on now id voter decision none s = (err gate_not_found, s)
vote_on now id voter decision (some gate) s =
    if not (is_pending gate.status)
    then (err no_longer_pending, s)
    else if has_voted id voter s.votes
    then (err already_voted, s)
    else record_vote now id voter decision gate s

unfoldable pub cast_vote :
    Time
    → ApprovalGateId
    → Option Text
    → VoteRequest
    → State
    → Result HttpError ApprovalGate × State
cast_vote now id header body s =
    let voter = identity header body.voter in
    if is_blank voter
    then (err identity_required, s)
    else vote_on now id voter body.decision (lookup id s.gates) s

-- `body.expires_in_minutes` if it is there and not 0.
abbrev pub expiry_minutes : ℕ → Option ℕ → ℕ
expiry_minutes default_minutes none = default_minutes
expiry_minutes default_minutes (some zero) = default_minutes
expiry_minutes default_minutes (some (suc n)) = suc n

abbrev pub new_gate : ℕ → Time → CreateApprovalGateRequest → ApprovalGate
new_gate default_minutes now body = record {
  action_type = body.action_type;
  resource_id = body.resource_id;
  required_approvals = body.required_approvals;
  current_approvals = 0;
  status = pending;
  created_at = now;
  expires_at = now + expiry_minutes default_minutes body.expires_in_minutes * 60;
  resolved_at = none;
}

abbrev pub add_gate :
    ApprovalGateId
    → ApprovalGate
    → Option ApprovalGate
    → State
    → Result HttpError ApprovalGate × State
add_gate id gate (some there) s = (err integrity_error, s)
add_gate id gate none s =
    (ok gate, record s { gates = insert id gate s.gates; broadcasts = gate ∷ s.broadcasts })

unfoldable pub create_approval_gate :
    ℕ
    → Time
    → ApprovalGateId
    → CreateApprovalGateRequest
    → State
    → Result HttpError ApprovalGate × State
create_approval_gate default_minutes now id body s =
    add_gate id (new_gate default_minutes now body) (lookup id s.gates) s

-- A request to one of the routes; a new gate comes with the id drawn for it.
pub data Request : Type 0 where
  create : Time → ApprovalGateId → CreateApprovalGateRequest → Request
  vote : Time → ApprovalGateId → Option Text → VoteRequest → Request

-- A request with no other inside it.
abbrev pub serve : ℕ → Request → State → State
serve default_minutes (create now id body) s =
    (create_approval_gate default_minutes now id body s).1
serve default_minutes (vote now id header body) s = (cast_vote now id header body s).1

-- The requests in order, the latest first.
unfoldable pub serve_all : ℕ → List Request → State
serve_all default_minutes [] = empty
serve_all default_minutes (r ∷ rs) = serve default_minutes r (serve_all default_minutes rs)
