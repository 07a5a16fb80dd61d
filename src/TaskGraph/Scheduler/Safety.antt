-- ===== src/TaskGraph/Scheduler/Safety.antt =====
-- What the scheduler hands out: `schedule_next` and `schedule_and_claim` (scheduler.py).
use architect.Common.{
  ℕ, ◌≤◌, ◌≡◌, refl, sym, ap, ◌∙◌, inl, inr, Bool, true, false, Option, some, List, [], ◌∷◌, arith,
  All, elem, subset, List-cases, Bool-cases, Option-cases, ==-refl, ◌==◌, ==_iff, subst,
}
use architect.Common.Sort.{IsDescending}
use architect.Common.Result.{Result, ok}
use architect.TaskGraph.Models.{TaskId, AgentId, Time, running, Task}
use architect.TaskGraph.DiGraph.{DiGraph}
use architect.TaskGraph.Dag.{Error, get_task, get_ready_tasks, priority_of}
use architect.TaskGraph.Dag.Ready.{IsWired, IsReady, get_ready_tasks-IsReady}
use architect.TaskGraph.Lock.{Redis, acquire}
use architect.TaskGraph.Transitions.{started_task}
use architect.TaskGraph.Scheduler.{
  Event, State, schedule_next, claim_next, schedule_and_claim, with_redis_lock, release,
}
use architect.TaskGraph.Scheduler.Lifecycle.{get_task-eq-ok}
use architect.TaskGraph.Scheduler.Outcome.{after_running}
use architect.TaskGraph.Scheduler.Claim.{
  ClaimOutcome, idle, broken, lost, not_pending, claimed, claim_next-ClaimOutcome, get_task_known,
  schedule_and_claim_local, schedule_and_claim_remote, with_redis_lock_cases, inside, tried,
}

All-elem :
    (key : TaskId → ℕ) (b : ℕ) (m : TaskId) (xs : List TaskId)
    → All (λ y. key y ≤ b) xs
    → elem m xs ≡ true
    → key m ≤ b
All-elem key b m [] h k = cc
All-elem key b m (x ∷ xs) h k = elim (Bool-cases (m == x)) [
  | inl this ↦ rw ((==_iff m x).0 this) h.0
  | inr other ↦ All-elem key b m xs h.1 (ground arith)
]

-- The first of a descending list has the greatest key.
head_max :
    (key : TaskId → ℕ) (n m : TaskId) (rest : List TaskId)
    → IsDescending key (n ∷ rest)
    → elem m (n ∷ rest) ≡ true
    → key m ≤ key n
head_max key n m rest d h = elim (Bool-cases (m == n)) [
  | inl this ↦ rw ((==_iff m n).0 this) (omega arith)
  | inr other ↦ All-elem key (key n) m rest d.0 (ground arith)
]

module _ (nx : DiGraph) (rd : Redis) (deliver : Event → Bool) where
  open nx use {
    Graph, add_node, nodes, node_task, predecessors, nodes-add_node, predecessors-add_node,
    node_task-add_node,
  }

  schedule_next_head :
      (s : State nx rd deliver) (t : Task)
      → (schedule_next nx rd deliver s).0 ≡ ok (some t)
      → (n : TaskId) × (rest : List TaskId) × (get_ready_tasks nx s.dag s.completed_ids ≡ n ∷ rest)
        × (get_task nx s.dag n ≡ ok t)
  unfolding schedule_next
  schedule_next_head s t h = elim (List-cases (get_ready_tasks nx s.dag s.completed_ids)) [
    | inl e ↦ absurd (ground arith)
    | inr (n, rest, e) ↦ (n, rest, e, ground arith)
  ]

  -- If every task is stored under its own id and `schedule_next` returns a task, that task is ready,
  -- it is what the graph stores, and no ready task has a greater priority.
  pub schedule_next-IsReady :
      (s : State nx rd deliver) (t : Task) (m : TaskId)
      → IsWired nx s.dag
      → (schedule_next nx rd deliver s).0 ≡ ok (some t)
      → elem m (get_ready_tasks nx s.dag s.completed_ids) ≡ true
      → IsReady nx s.dag s.completed_ids t.id
        × (get_task nx s.dag t.id ≡ ok t)
        × (priority_of nx s.dag m ≤ t.priority)
  schedule_next-IsReady s t m wired h ready =
      let (n, rest, e, found) = schedule_next_head s t h in
      let stored : node_task s.dag n ≡ some t = (get_task-eq-ok nx s.dag n t found).1 in
      let same : t.id ≡ n = wired.task_id n t stored in
      let (exact, descending) = get_ready_tasks-IsReady nx s.dag s.completed_ids in
      let first : elem n (get_ready_tasks nx s.dag s.completed_ids) ≡ true =
        rw e (ground (arith, ==-refl n)) in
      let top : priority_of nx s.dag m ≤ priority_of nx s.dag n =
        head_max (priority_of nx s.dag) n m rest (rw e at descending) (rw e at ready) in
      (rw same ((exact n).0 first), ap (get_task nx s.dag) same ∙ found, ground arith)

  -- What a successful claim leaves: the task is there and runs for the agent, it is not completed,
  -- and all of its predecessors are.
  pub record IsClaimed (a : AgentId) (t : Task) (s' : State nx rd deliver) : Type 0 where
    pub is_running : t.status ≡ running
    pub assigned : t.assigned_agent ≡ some a
    pub stored : get_task nx s'.dag t.id ≡ ok t
    pub not_completed : elem t.id s'.completed_ids ≡ false
    pub deps_completed : subset (predecessors s'.dag t.id) s'.completed_ids ≡ true

  after_running-IsClaimed :
      (s : State nx rd deliver) (now : Time) (a : AgentId) (n : TaskId) (t : Task)
      → IsReady nx s.dag s.completed_ids n
      → get_task nx s.dag n ≡ ok t
      → t.id ≡ n
      → IsClaimed a (started_task now a t) (after_running nx rd deliver now n a s t)
  unfolding started_task
  after_running-IsClaimed s now a n t r found same = record {
    is_running = refl;
    assigned = refl;
    stored = ground (arith, get_task_known nx rd deliver s.dag n t (started_task now a t) found);
    not_completed = ground (arith, r.not_completed);
    deps_completed =
        ground (
          arith,
          r.deps_completed,
          predecessors-add_node s.dag n (started_task now a t) n r.present,
        );
  }

  some_ok_eq :
      (a b : Task) → ◌≡◌ {A = Result Error (Option Task)} (ok (some a)) (ok (some b)) → a ≡ b
  some_ok_eq a b e = cc

  ClaimOutcome-IsClaimed :
      (s : State nx rd deliver) (now : Time) (a : AgentId) (t : Task)
      (out : Result Error (Option Task) × State nx rd deliver)
      → IsWired nx s.dag
      → ClaimOutcome nx rd deliver s now a out
      → out.0 ≡ ok (some t)
      → IsClaimed a t out.1
  ClaimOutcome-IsClaimed s now a t out w (idle e o) h = absurd (cc)
  ClaimOutcome-IsClaimed s now a t out w (broken n rest x e f o) h = absurd (cc)
  ClaimOutcome-IsClaimed s now a t out w (lost n rest b e f c o) h = absurd (cc)
  ClaimOutcome-IsClaimed s now a t out w (not_pending n rest b e f c v o) h = absurd (cc)
  ClaimOutcome-IsClaimed s now a t out w (claimed n rest b e f c v o) h =
      let inner = tried nx rd deliver s n in
      let (exact, _) = get_ready_tasks-IsReady nx s.dag inner.completed_ids in
      let ready : IsReady nx s.dag inner.completed_ids n =
        (exact n).0 (rw e (ground (arith, ==-refl n))) in
      let same : b.id ≡ n = w.task_id n b (get_task-eq-ok nx s.dag n b f).1 in
      subst (λ x. IsClaimed a x out.1)
        (some_ok_eq (started_task now a b) t
          (sym (ap (λ (x : Result Error (Option Task) × State nx rd deliver). x.0) o) ∙ h))
        (subst (IsClaimed a (started_task now a b))
          (sym (ap (λ (x : Result Error (Option Task) × State nx rd deliver). x.1) o))
          (after_running-IsClaimed inner now a n b ready f same))

  release-IsClaimed :
      (a : AgentId) (t : Task) (s : State nx rd deliver)
      → IsClaimed a t s
      → IsClaimed a t (release nx rd deliver s)
  release-IsClaimed a t s h = record {
    is_running = h.is_running;
    assigned = h.assigned;
    stored = ground (arith, h.stored);
    not_completed = ground (arith, h.not_completed);
    deps_completed = ground (arith, h.deps_completed);
  }

  abbrev Claims : AgentId → Task → Result Error (Option Task) × State nx rd deliver → Type 0
  Claims a t out = out.0 ≡ ok (some t) → IsClaimed a t out.1

  claim_next-Claims :
      (now : Time) (a : AgentId) (s : State nx rd deliver) (t : Task)
      → IsWired nx s.dag
      → Claims a t (claim_next nx rd deliver now a s)
  claim_next-Claims now a s t w =
      ClaimOutcome-IsClaimed s now a t _ w (claim_next-ClaimOutcome nx rd deliver now a s w)

  with_redis_lock-Claims :
      (now : Time) (a : AgentId) (s : State nx rd deliver) (got : Bool × rd.Store) (t : Task)
      → IsWired nx s.dag
      → Claims a t (with_redis_lock nx rd deliver (claim_next nx rd deliver now a) got s)
  with_redis_lock-Claims now a s got t w =
      let body = claim_next nx rd deliver now a in
      elim (with_redis_lock_cases nx rd deliver body got s) [
        | inl e ↦ subst (Claims a t) (sym e) (λ h. cc)
        | inr e ↦ subst (Claims a t) (sym e) (λ h.
            release-IsClaimed a t (body (inside nx rd deliver s got.1)).1
              (claim_next-Claims now a (inside nx rd deliver s got.1) t w h))
      ]

  -- If every task is stored under its own id, a task that `schedule_and_claim` returns is RUNNING and
  -- assigned to the agent; it was not completed, and every predecessor of it is in the completed set.
  pub schedule_and_claim-IsClaimed :
      (polls : ℕ) (wait : rd.Store → rd.Store) (now : Time) (a : AgentId) (s : State nx rd deliver)
      (t : Task)
      → IsWired nx s.dag
      → (schedule_and_claim nx rd deliver polls wait now a s).0 ≡ ok (some t)
      → IsClaimed a t (schedule_and_claim nx rd deliver polls wait now a s).1
  schedule_and_claim-IsClaimed polls wait now a s t w = elim (Option-cases s.lock.redis) [
    | inl e ↦
        subst (Claims a t) (sym (schedule_and_claim_local nx rd deliver polls wait now a s e))
          (claim_next-Claims now a s t w)
    | inr (r, e) ↦
        subst (Claims a t) (sym (schedule_and_claim_remote nx rd deliver polls wait now a s e))
          (with_redis_lock-Claims now a s (acquire rd polls wait r) t w)
  ]
