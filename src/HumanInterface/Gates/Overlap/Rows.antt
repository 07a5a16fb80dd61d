-- ===== src/HumanInterface/Gates/Overlap/Rows.antt =====
-- What one vote (api/routes.py) writes, when others were committed since it read the gate.
use architect.Common.{
  ℕ, ◌+◌, ◌≤◌, ◌≡◌, ◌≢◌, refl, sym, ap, ◌∙◌, inl, inr, false, some, List, [], ◌∷◌, ◌==◌, ==_iff,
  All, arith, Bool-cases, leb,
}
use architect.Common.Dict.{lookup, nat_eq, lookup-insert_self, lookup-insert_ne}
use architect.Common.Text.{Text}
use architect.TaskGraph.Models.{Time}
use architect.HumanInterface.Gates.{
  ApprovalGateId, approved, ApprovalGate, Decision, approve, deny, ApprovalVote, State, has_voted,
}
use architect.HumanInterface.Gates.Tally.{
  count, approvals, votes_by, votes_by-cast, insert_cases, some_eq,
}
use architect.HumanInterface.Gates.Overlap.{Ballot, write_gate, written}

-- The count of a gate is at most its approvals, and if it is approved these are enough.
abbrev pub HasApprovals : ApprovalGate → ℕ → Type 0
HasApprovals g yeas =
    (g.current_approvals ≤ yeas) × (g.status ≡ approved → g.required_approvals ≤ yeas)

-- A ballot read a count that the votes have reached, of a gate that still asks for as many.
abbrev pub IsRead : State → Ballot → Type 0
IsRead s b =
    (b.gate.current_approvals ≤ approvals b.gate_id s.votes)
    × ((g : ApprovalGate) × (lookup b.gate_id s.gates ≡ some g)
        × (g.required_approvals ≡ b.gate.required_approvals))

pub record IsBacked (s : State) : Type 0 where
  pub approvals_le :
      (id : ApprovalGateId) (g : ApprovalGate)
      → lookup id s.gates ≡ some g
      → HasApprovals g (approvals id s.votes)
  pub votes_once : (id : ApprovalGateId) (voter : Text) → votes_by voter id s.votes ≤ 1

pub map-All :
    {P Q : Ballot → Type 0} (bs : List Ballot) → ((b : Ballot) → P b → Q b) → All P bs → All Q bs
map-All [] f h = tt
map-All (b ∷ bs) f h = (f b h.0, map-All bs f h.1)

pub approvals-cons :
    (v : ApprovalVote) (id : ApprovalGateId) (votes : List ApprovalVote)
    → approvals id votes ≤ approvals id (v ∷ votes)
unfolding count
approvals-cons v id votes = omega arith

approvals-approve :
    (id : ApprovalGateId) (voter : Text) (votes : List ApprovalVote)
    → approvals id (record { gate_id = id; voter = voter; decision = approve } ∷ votes)
      ≡ approvals id votes + 1
unfolding count
approvals-approve id voter votes = ground arith

-- A row that a vote writes, by the row before it and what the vote had read.
write_gate-required :
    (now : Time) (d : Decision) (read row : ApprovalGate)
    → (write_gate now d read row).required_approvals ≡ row.required_approvals
unfolding write_gate
write_gate-required now approve read row = ground arith
write_gate-required now deny read row = refl

write_gate-HasApprovals :
    (now : Time) (id : ApprovalGateId) (voter : Text) (d : Decision) (read row : ApprovalGate)
    (votes : List ApprovalVote)
    → read.current_approvals ≤ approvals id votes
    → row.required_approvals ≡ read.required_approvals
    → HasApprovals row (approvals id votes)
    → HasApprovals
        (write_gate now d read row)
        (approvals id (record { gate_id = id; voter = voter; decision = d } ∷ votes))
unfolding write_gate
write_gate-HasApprovals now id voter approve read row votes le same h =
    let more = approvals-approve id voter votes in
    elim (Bool-cases (leb read.required_approvals (read.current_approvals + 1))) [
      | inl e ↦ rw e (omega (arith, le, more), λ _. ground (arith, e, le, more, same))
      | inr e ↦ rw e (omega (arith, le, more), λ q. omega (arith, h.1 q, more))
    ]
write_gate-HasApprovals now id voter deny read row votes le same h =
    let more = approvals-cons (record { gate_id = id; voter = voter; decision = deny }) id votes in
    (omega (arith, h.0, more), λ q. cc)

module _ (now : Time) (b : Ballot) (s : State) (row : ApprovalGate)
    (found : lookup b.gate_id s.gates ≡ some row) where
  abbrev pub after : State
  after = written now b (some row) s

  abbrev pub vote : ApprovalVote
  vote = record { gate_id = b.gate_id; voter = b.voter; decision = b.decision }

  pub written-IsBacked :
      IsBacked s
      → b.gate.current_approvals ≤ approvals b.gate_id s.votes
      → row.required_approvals ≡ b.gate.required_approvals
      → has_voted b.gate_id b.voter s.votes ≡ false
      → IsBacked after
  written-IsBacked h le same fresh = record {
    approvals_le =
        insert_cases (λ j g. HasApprovals g (approvals j (vote ∷ s.votes))) b.gate_id
          (write_gate now b.decision b.gate row) s.gates
          (write_gate-HasApprovals now b.gate_id b.voter b.decision b.gate row s.votes le same
            (h.approvals_le b.gate_id row found))
          (λ j g apart e.
            let more = approvals-cons vote j s.votes in
            let k = h.approvals_le j g e in
            (omega (arith, k.0, more), λ q. omega (arith, k.1 q, more)));
    votes_once = votes_by-cast vote s.votes h.votes_once fresh;
  }

  pub written-IsRead : (c : Ballot) → IsRead s c → IsRead after c
  written-IsRead c (le, (g, there, same)) =
      let more = approvals-cons vote c.gate_id s.votes in
      elim (Bool-cases (c.gate_id == b.gate_id)) [
        | inl e ↦
            let same_id : c.gate_id ≡ b.gate_id = (==_iff c.gate_id b.gate_id).0 e in
            let is_row : g ≡ row =
              some_eq (sym there ∙ ap (λ i. lookup i s.gates) same_id ∙ found) in
            (
              omega (arith, le, more),
              (
                write_gate now b.decision b.gate row,
                ap (λ i. lookup i after.gates) same_id
                    ∙ lookup-insert_self b.gate_id (write_gate now b.decision b.gate row) s.gates,
                write_gate-required now b.decision b.gate row
                    ∙ ap (λ (x : ApprovalGate). x.required_approvals) (sym is_row)
                    ∙ same,
              ),
            )
        | inr e ↦
            let apart : c.gate_id ≢ b.gate_id = λ q. ground (arith, e, q) in
            (
              omega (arith, le, more),
              (
                g,
                lookup-insert_ne b.gate_id c.gate_id (write_gate now b.decision b.gate row) s.gates
                      apart
                    ∙ there,
                same,
              ),
            )
      ]
