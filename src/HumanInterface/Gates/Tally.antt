-- ===== src/HumanInterface/Gates/Tally.antt =====
-- What the tables of approval gates say after any requests (api/routes.py), each of which is served to
-- its end before the next starts.
use architect.Common.{
  ℕ, ◌+◌, ◌≤◌, ◌<◌, ◌≡◌, ◌≢◌, refl, sym, subst, ap, ◌∙◌, inl, inr, Bool, true, false, not, ◌&&◌,
  Option, none, some, List, [], ◌∷◌, ◌==◌, ==_iff, All, arith, Bool-cases, leb,
}
use architect.Common.Dict.{Dict, lookup, insert, nat_eq, lookup-insert_self, lookup-insert_ne}
use architect.Common.Text.{Text, text_beq, text_beq_iff}
use architect.TaskGraph.Models.{Time}
use architect.HumanInterface.Gates.{
  ApprovalGateId, ApprovalGateStatus, pending, approved, denied, expired, ApprovalGate, Decision,
  approve, deny, ApprovalVote, CreateApprovalGateRequest, VoteRequest, State, empty, is_pending,
  is_blank, identity, has_voted, count_vote, record_vote, vote_on, cast_vote, new_gate, add_gate,
  create_approval_gate, Request, create, vote, serve_all,
}

abbrev pub is_approve : Decision → Bool
is_approve approve = true
is_approve deny = false

abbrev pub one_if : Bool → ℕ
one_if true = 1
one_if false = 0

-- The votes on a gate that pass a test.
unfoldable pub count : (ApprovalVote → Bool) → ApprovalGateId → List ApprovalVote → ℕ
count test id [] = 0
count test id (v ∷ votes) = one_if ((id == v.gate_id) && test v) + count test id votes

abbrev pub approvals : ApprovalGateId → List ApprovalVote → ℕ
approvals = count (λ v. is_approve v.decision)

abbrev pub denials : ApprovalGateId → List ApprovalVote → ℕ
denials = count (λ v. not (is_approve v.decision))

abbrev pub votes_by : Text → ApprovalGateId → List ApprovalVote → ℕ
votes_by voter = count (λ v. text_beq voter v.voter)

-- What a gate's status says of its votes.
abbrev pub Decided : ApprovalGateStatus → ℕ → ℕ → ℕ → Type 0
Decided pending required yeas nays = (yeas < required) × (nays ≡ 0)
Decided approved required yeas nays = (yeas ≡ required) × (nays ≡ 0)
Decided denied required yeas nays = (yeas < required) × (nays ≡ 1)
Decided expired required yeas nays = ⊥

pub record IsTallied (s : State) : Type 0 where
  pub approvals_eq :
      (id : ApprovalGateId) (g : ApprovalGate)
      → lookup id s.gates ≡ some g
      → g.current_approvals ≡ approvals id s.votes
  pub is_decided :
      (id : ApprovalGateId) (g : ApprovalGate)
      → lookup id s.gates ≡ some g
      → Decided g.status g.required_approvals (approvals id s.votes) (denials id s.votes)
  pub votes_once : (id : ApprovalGateId) (voter : Text) → votes_by voter id s.votes ≤ 1
  pub no_votes :
      (id : ApprovalGateId)
      → lookup id s.gates ≡ none
      → (test : ApprovalVote → Bool) → count test id s.votes ≡ 0

-- Whoever creates a gate asks for an approval.
abbrev pub AsksApproval : Request → Type 0
AsksApproval (create now id body) = 0 < body.required_approvals
AsksApproval (vote now id header body) = Unit

count-other :
    (test : ApprovalVote → Bool) (id : ApprovalGateId) (v : ApprovalVote)
    (votes : List ApprovalVote)
    → id ≢ v.gate_id
    → count test id (v ∷ votes) ≡ count test id votes
unfolding count
count-other test id v votes h = ground (arith, h)

has_voted-votes_by :
    (id : ApprovalGateId) (voter : Text) (votes : List ApprovalVote)
    → has_voted id voter votes ≡ false
    → votes_by voter id votes ≡ 0
unfolding has_voted count
has_voted-votes_by id voter [] h = refl
has_voted-votes_by id voter (v ∷ votes) h = ground (arith, h, has_voted-votes_by id voter votes)

-- A vote of somebody who has not voted on the gate.
pub votes_by-cast :
    (v : ApprovalVote) (votes : List ApprovalVote)
    → ((j : ApprovalGateId) (name : Text) → votes_by name j votes ≤ 1)
    → has_voted v.gate_id v.voter votes ≡ false
    → (j : ApprovalGateId) (name : Text) → votes_by name j (v ∷ votes) ≤ 1
unfolding count
votes_by-cast v votes once fresh j name =
    elim (Bool-cases ((j == v.gate_id) && text_beq name v.voter)) [
      | inl both ↦
          let same_id : j ≡ v.gate_id = (==_iff j v.gate_id).0 (ground (arith, both)) in
          let same_name : name ≡ v.voter = (text_beq_iff name v.voter).0 (ground (arith, both)) in
          let none_yet : votes_by name j votes ≡ 0 =
            subst (λ i. votes_by name i votes ≡ 0) (sym same_id)
              (subst (λ n. votes_by n v.gate_id votes ≡ 0) (sym same_name)
                (has_voted-votes_by v.gate_id v.voter votes fresh)) in
          rw both (omega (arith, none_yet))
      | inr other ↦ rw other (omega (arith, once j name))
    ]

pub none-some : {g : ApprovalGate} → ◌≡◌ {A = Option ApprovalGate} none (some g) → ⊥
none-some e = cc

pub some_eq : {a b : ApprovalGate} → ◌≡◌ {A = Option ApprovalGate} (some a) (some b) → a ≡ b
some_eq e = cc

pub insert_cases :
    (P : ApprovalGateId → ApprovalGate → Type 0) (id : ApprovalGateId) (gate : ApprovalGate)
    (gates : Dict ApprovalGateId ApprovalGate)
    → P id gate
    → ((j : ApprovalGateId) (g : ApprovalGate) → j ≢ id → lookup j gates ≡ some g → P j g)
    → (j : ApprovalGateId) (g : ApprovalGate) → lookup j (insert id gate gates) ≡ some g
    → P j g
insert_cases P id gate gates this others j g e = elim (Bool-cases (j == id)) [
  | inl same ↦
      let same_id : j ≡ id = (==_iff j id).0 same in
      let same_gate : g ≡ gate = some_eq (
        sym e
        ∙ ap (λ i. lookup i (insert id gate gates)) same_id
        ∙ lookup-insert_self id gate gates) in
      subst (λ i. P i g) (sym same_id) (subst (λ x. P id x) (sym same_gate) this)
  | inr other ↦
      let apart : j ≢ id = λ q. ground (arith, other, q) in
      others j g apart (sym (lookup-insert_ne id j gate gates apart) ∙ e)
]

insert-none :
    (j id : ApprovalGateId) (gate : ApprovalGate) (gates : Dict ApprovalGateId ApprovalGate)
    → lookup j (insert id gate gates) ≡ none
    → j ≢ id
insert-none j id gate gates e q =
    none-some
      (sym e ∙ ap (λ i. lookup i (insert id gate gates)) q ∙ lookup-insert_self id gate gates)

module _ (now : Time) (id : ApprovalGateId) (voter : Text) (gate : ApprovalGate) (s : State)
    (h : IsTallied s) (there : lookup id s.gates ≡ some gate)
    (open_ : is_pending gate.status ≡ true) where
  abbrev cast : Decision → ApprovalVote
  cast d = record { gate_id = id; voter = voter; decision = d }

  pending_eq : (status : ApprovalGateStatus) → is_pending status ≡ true → status ≡ pending
  pending_eq pending e = refl
  pending_eq approved e = cc
  pending_eq denied e = cc
  pending_eq expired e = cc

  was_pending : (approvals id s.votes < gate.required_approvals) × (denials id s.votes ≡ 0)
  was_pending =
      subst (λ st. Decided st gate.required_approvals (approvals id s.votes) (denials id s.votes))
        (pending_eq gate.status open_) (h.is_decided id gate there)

  count_vote-approvals :
      (d : Decision) → (count_vote now d gate).current_approvals ≡ approvals id (cast d ∷ s.votes)
  unfolding count_vote count
  count_vote-approvals approve = ground (arith, h.approvals_eq id gate there)
  count_vote-approvals deny = ground (arith, h.approvals_eq id gate there)

  count_vote-Decided :
      (d : Decision)
      → Decided
          (count_vote now d gate).status
          (count_vote now d gate).required_approvals
          (approvals id (cast d ∷ s.votes))
          (denials id (cast d ∷ s.votes))
  unfolding count_vote count
  count_vote-Decided approve =
      elim (Bool-cases (leb gate.required_approvals (gate.current_approvals + 1))) [
        | inl e ↦ rw e (
          ground (arith, e, was_pending, h.approvals_eq id gate there),
          ground (arith, was_pending),
        )
        | inr e ↦ rw e (
            subst
              (λ st.
                Decided st gate.required_approvals (approvals id (cast approve ∷ s.votes))
                  (denials id (cast approve ∷ s.votes)))
              (sym (pending_eq gate.status open_))
              (
                ground (arith, e, was_pending, h.approvals_eq id gate there),
                ground (arith, was_pending),
              ))
      ]
  count_vote-Decided deny = (ground (arith, was_pending), ground (arith, was_pending))

  record_vote-IsTallied :
      (d : Decision)
      → has_voted id voter s.votes ≡ false
      → IsTallied (record_vote now id voter d gate s).1
  record_vote-IsTallied d fresh = record {
    approvals_eq =
        insert_cases (λ j g. g.current_approvals ≡ approvals j (cast d ∷ s.votes)) id
          (count_vote now d gate) s.gates (count_vote-approvals d)
          (λ j g apart e.
            h.approvals_eq j g e
            ∙ sym (count-other (λ v. is_approve v.decision) j (cast d) s.votes apart));
    is_decided =
        insert_cases
          (λ j g.
            Decided g.status g.required_approvals (approvals j (cast d ∷ s.votes))
              (denials j (cast d ∷ s.votes)))
          id (count_vote now d gate) s.gates (count_vote-Decided d)
          (λ j g apart e. rw (count-other (λ v. is_approve v.decision) j (cast d) s.votes apart) (
            rw (count-other (λ v. not (is_approve v.decision)) j (cast d) s.votes apart)
              (h.is_decided j g e)));
    votes_once = votes_by-cast (cast d) s.votes h.votes_once fresh;
    no_votes = λ j e test.
        let apart = insert-none j id (count_vote now d gate) s.gates e in
        count-other test j (cast d) s.votes apart
        ∙ h.no_votes j (sym (lookup-insert_ne id j (count_vote now d gate) s.gates apart) ∙ e) test;
  }

cast_vote-IsTallied :
    (now : Time) (id : ApprovalGateId) (header : Option Text) (body : VoteRequest) (s : State)
    → IsTallied s
    → IsTallied (cast_vote now id header body s).1
unfolding cast_vote
cast_vote-IsTallied now id header body s h =
    elim (Bool-cases (is_blank (identity header body.voter))) [
      | inl e ↦ rw e h
      | inr e ↦ rw e (voted (lookup id s.gates) refl)
    ]
  where
    voted :
        (o : Option ApprovalGate)
        → lookup id s.gates ≡ o
        → IsTallied (vote_on now id (identity header body.voter) body.decision o s).1
    voted none there = h
    voted (some gate) there = elim (Bool-cases (is_pending gate.status)) [
      | inr e ↦ rw e h
      | inl e ↦ elim (Bool-cases (has_voted id (identity header body.voter) s.votes)) [
        | inl f ↦ rw e (rw f h)
        | inr f ↦ rw e (
            rw f (
              record_vote-IsTallied now id (identity header body.voter) gate s h there e
                body.decision f))
      ]
    ]

create_approval_gate-IsTallied :
    (default_minutes : ℕ) (now : Time) (id : ApprovalGateId) (body : CreateApprovalGateRequest)
    (s : State)
    → 0 < body.required_approvals
    → IsTallied s
    → IsTallied (create_approval_gate default_minutes now id body s).1
unfolding create_approval_gate
create_approval_gate-IsTallied default_minutes now id body s asks h = added (lookup id s.gates) refl
  where
    added :
        (o : Option ApprovalGate)
        → lookup id s.gates ≡ o
        → IsTallied (add_gate id (new_gate default_minutes now body) o s).1
    added (some old) there = h
    added none there = record {
      approvals_eq =
          insert_cases (λ j g. g.current_approvals ≡ approvals j s.votes) id
            (new_gate default_minutes now body) s.gates
            (sym (h.no_votes id there (λ v. is_approve v.decision)))
            (λ j g apart e. h.approvals_eq j g e);
      is_decided =
          insert_cases
            (λ j g. Decided g.status g.required_approvals (approvals j s.votes) (denials j s.votes))
            id (new_gate default_minutes now body) s.gates
            (
              omega (arith, asks, h.no_votes id there (λ v. is_approve v.decision)),
              h.no_votes id there (λ v. not (is_approve v.decision)),
            )
            (λ j g apart e. h.is_decided j g e);
      votes_once = h.votes_once;
      no_votes = λ j e test.
          let apart = insert-none j id (new_gate default_minutes now body) s.gates e in
          h.no_votes j
            (sym (lookup-insert_ne id j (new_gate default_minutes now body) s.gates apart) ∙ e)
            test;
    }

empty-IsTallied : IsTallied empty
unfolding count
empty-IsTallied = record {
  approvals_eq = λ id g e. cc;
  is_decided = λ id g e. absurd (none-some e);
  votes_once = λ id voter. omega arith;
  no_votes = λ id e test. refl;
}

-- After any requests that are served one at a time, in which every new gate asks for an approval: a
-- gate counts exactly the
-- approvals on it; it is pending with fewer than it asks for and no denial, approved with just as many
-- and no denial, or denied with fewer and one denial; and nobody has voted twice on a gate.
pub serve_all-IsTallied :
    (default_minutes : ℕ) (rs : List Request)
    → All AsksApproval rs
    → IsTallied (serve_all default_minutes rs)
unfolding serve_all
serve_all-IsTallied default_minutes [] h = empty-IsTallied
serve_all-IsTallied default_minutes (create now id body ∷ rs) h =
    create_approval_gate-IsTallied default_minutes now id body (serve_all default_minutes rs) h.0
      (serve_all-IsTallied default_minutes rs h.1)
serve_all-IsTallied default_minutes (vote now id header body ∷ rs) h =
    cast_vote-IsTallied now id header body (serve_all default_minutes rs)
      (serve_all-IsTallied default_minutes rs h.1)
