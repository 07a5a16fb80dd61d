-- ===== src/HumanInterface/Gates/Overlap/Backed.antt =====
-- What the tables of approval gates (api/routes.py) say of votes that overlap.
use architect.Common.{
  ℕ, zero, suc, ◌≤◌, ◌≡◌, ◌≢◌, refl, sym, subst, ap, ◌∙◌, inl, inr, Option, none, some, List, [],
  ◌∷◌, All, arith, Bool-cases, Option-cases,
}
use architect.Common.Dict.{lookup, insert, nat_eq, lookup-insert_ne}
use architect.Common.Text.{Text}
use architect.TaskGraph.Models.{Time}
use architect.HumanInterface.Gates.{
  ApprovalGateId, ApprovalGate, CreateApprovalGateRequest, VoteRequest, State, is_pending, is_blank,
  identity, has_voted, new_gate, create_approval_gate,
}
use architect.HumanInterface.Gates.Tally.{count, approvals, insert_cases, none-some}
use architect.HumanInterface.Gates.Overlap.{
  Ballot, Server, commit_ballot, opened, open_ballot, take_at, closed, Event, created, began,
  finished, act, act_all,
}
use architect.HumanInterface.Gates.Overlap.Rows.{
  HasApprovals, IsRead, IsBacked, map-All, written-IsBacked, written-IsRead,
}

pub record IsServed (v : Server) : Type 0 where
  pub tables_backed : IsBacked v.tables
  pub ballots_read : All (IsRead v.tables) v.ballots

commit_ballot-IsServed :
    (now : Time) (b : Ballot) (others : List Ballot) (s : State)
    → IsBacked s
    → IsRead s b
    → All (IsRead s) others
    → IsServed (record { tables = commit_ballot now b s; ballots = others })
unfolding commit_ballot
commit_ballot-IsServed now b others s h (le, (row, found, same)) reads =
    elim (Bool-cases (has_voted b.gate_id b.voter s.votes)) [
      | inl e ↦ rw e (record { tables_backed = h; ballots_read = reads })
      | inr e ↦
          rw (e, found)
            (record {
              tables_backed = written-IsBacked now b s row found h le same e;
              ballots_read = map-All others (written-IsRead now b s row found) reads;
            })
    ]

take_at-All :
    (P : Ballot → Type 0) (n : ℕ) (bs : List Ballot) (b : Ballot) (others : List Ballot)
    → take_at n bs ≡ some (b, others)
    → All P bs
    → P b × All P others
unfolding take_at
take_at-All P n [] b others e h = cc
take_at-All P zero (c ∷ bs) b others e h =
    subst (λ (x : Ballot × List Ballot). P x.0 × All P x.1) (pair_eq e) h
  where
    pair_eq :
        {x y : Ballot × List Ballot}
        → ◌≡◌ {A = Option (Ballot × List Ballot)} (some x) (some y)
        → x ≡ y
    pair_eq q = cc
take_at-All P (suc n) (c ∷ bs) b others e h = elim (Option-cases (take_at n bs)) [
  | inl f ↦ ground (arith, f, e)
  | inr ((d, rest), f) ↦
      let (this, those) = take_at-All P n bs d rest f h.1 in
      let same : (d, c ∷ rest) ≡ (b, others) = ground (arith, f, e) in
      subst (λ (x : Ballot × List Ballot). P x.0 × All P x.1) same (this, (h.0, those))
]

open_ballot-IsServed :
    (id : ApprovalGateId) (header : Option Text) (body : VoteRequest) (v : Server)
    → IsServed v
    → IsServed (open_ballot id header body v)
unfolding open_ballot
open_ballot-IsServed id header body v h =
    elim (Bool-cases (is_blank (identity header body.voter))) [
      | inl e ↦ rw e h
      | inr e ↦ rw e (read (lookup id v.tables.gates) refl)
    ]
  where
    read :
        (o : Option ApprovalGate)
        → lookup id v.tables.gates ≡ o
        → IsServed (opened id (identity header body.voter) body.decision o v)
    read none there = h
    read (some gate) there = elim (Bool-cases (is_pending gate.status)) [
      | inl e ↦ rw e (record {
        tables_backed = h.tables_backed;
        ballots_read =
            (((h.tables_backed.approvals_le id gate there).0, (gate, there, refl)), h.ballots_read);
      })
      | inr e ↦ rw e h
    ]

create_approval_gate-IsServed :
    (default_minutes : ℕ) (now : Time) (id : ApprovalGateId) (body : CreateApprovalGateRequest)
    (v : Server)
    → IsServed v
    → IsServed (record v { tables = (create_approval_gate default_minutes now id body v.tables).1 })
unfolding create_approval_gate
create_approval_gate-IsServed default_minutes now id body v h =
    elim (Option-cases (lookup id v.tables.gates)) [
      | inr (there, e) ↦ rw e h
      | inl e ↦ rw e (record {
        tables_backed = record {
          approvals_le =
              insert_cases (λ j g. HasApprovals g (approvals j v.tables.votes)) id
                (new_gate default_minutes now body) v.tables.gates (omega arith, λ q. cc)
                (λ j g apart there. h.tables_backed.approvals_le j g there);
          votes_once = h.tables_backed.votes_once;
        };
        ballots_read = map-All v.ballots (still e) h.ballots_read;
      })
    ]
  where
    still :
        lookup id v.tables.gates ≡ none
        → (b : Ballot) → IsRead v.tables b
        → (b.gate.current_approvals ≤ approvals b.gate_id v.tables.votes)
          × ((g : ApprovalGate) × (lookup b.gate_id
                  (insert id (new_gate default_minutes now body) v.tables.gates)
                ≡ some g)
              × (g.required_approvals ≡ b.gate.required_approvals))
    still e b (le, (g, there, same)) =
        let apart : b.gate_id ≢ id =
          λ q. none-some (sym e ∙ ap (λ i. lookup i v.tables.gates) (sym q) ∙ there) in
        (
          le,
          (
            g,
            lookup-insert_ne id b.gate_id (new_gate default_minutes now body) v.tables.gates apart
                ∙ there,
            same,
          ),
        )

closed-IsServed :
    (now : Time) (n : ℕ) (v : Server) → IsServed v → IsServed (closed now (take_at n v.ballots) v)
closed-IsServed now n v h = elim (Option-cases (take_at n v.ballots)) [
  | inl e ↦ rw e h
  | inr ((b, others), e) ↦
      let (this, those) = take_at-All (IsRead v.tables) n v.ballots b others e h.ballots_read in
      rw e (commit_ballot-IsServed now b others v.tables h.tables_backed this those)
]

act_all-IsServed : (default_minutes : ℕ) (es : List Event) → IsServed (act_all default_minutes es)
unfolding act_all act count
act_all-IsServed default_minutes [] = record {
  tables_backed = record { approvals_le = λ id g e. cc; votes_once = λ id voter. omega arith };
  ballots_read = tt;
}
act_all-IsServed default_minutes (created now id body ∷ es) =
    create_approval_gate-IsServed default_minutes now id body (act_all default_minutes es)
      (act_all-IsServed default_minutes es)
act_all-IsServed default_minutes (began id header body ∷ es) =
    open_ballot-IsServed id header body (act_all default_minutes es)
      (act_all-IsServed default_minutes es)
act_all-IsServed default_minutes (finished now n ∷ es) =
    closed-IsServed now n (act_all default_minutes es) (act_all-IsServed default_minutes es)

-- However votes overlap, from empty tables: a gate counts at most the approvals on it; a gate that is
-- approved has at least as many approvals as it asks for; and nobody has voted twice on a gate.
pub act_all-IsBacked :
    (default_minutes : ℕ) (es : List Event) → IsBacked (act_all default_minutes es).tables
act_all-IsBacked default_minutes es = (act_all-IsServed default_minutes es).tables_backed
