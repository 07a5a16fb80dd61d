-- ===== src/TaskGraph/Scheduler/Refines.antt =====
-- The methods of `TaskScheduler` (scheduler.py) against the lifecycle of a task.
use architect.Common.{ℕ, ◌≡◌, ap, ◌∙◌, inl, inr, Bool, true, Option, arith, Option-cases}
use architect.Common.Result.{Result}
use architect.Common.Text.{Text}
use architect.TaskGraph.Models.{
  TaskId, AgentId, Time, StatusEnum, running, completed, failed, Task, EvalVerdict,
}
use architect.TaskGraph.DiGraph.{DiGraph}
use architect.TaskGraph.Dag.{Error}
use architect.TaskGraph.Lock.{Redis, acquire}
use architect.TaskGraph.Transitions.{
  is_valid_transition, started_task, completed_task, failed_task, retried_task,
}
use architect.TaskGraph.Scheduler.{
  Event, State, mark_running, mark_completed, mark_failed, should_retry, schedule_next, claim_next,
  schedule_and_claim, with_redis_lock,
}
use architect.TaskGraph.Scheduler.Lifecycle.{
  Lifecycle, Moves, to_running, to_completed, to_failed, started_task-Lifecycle,
  completed_task-Lifecycle, failed_task-Lifecycle, retried_task-Lifecycle,
}
use architect.TaskGraph.Dag.Ready.{IsWired}
use architect.TaskGraph.Scheduler.Claim.{
  ClaimOutcome, idle, broken, lost, not_pending, claimed, claim_next-ClaimOutcome,
  with_redis_lock_cases, inside, release-dag, schedule_and_claim_local, schedule_and_claim_remote,
}
use architect.TaskGraph.Scheduler.Outcome.{
  Outcome, missing, refused, done, mark_running-Outcome, mark_completed-Outcome,
  mark_failed-Outcome, RetryOutcome, retry_missing, kept, queued, should_retry-Outcome,
  after_running, after_completed, after_failed, after_retry,
}

module _ (nx : DiGraph) (rd : Redis) (deliver : Event → Bool) where
  open nx use {Graph, add_node, node_task, node_task-add_node}

  abbrev after_dag : {A : Type 0} → Result Error A × State nx rd deliver → Graph
  after_dag out = out.1.dag

  Outcome-Moves :
      (s : State nx rd deliver) (n : TaskId) (target : StatusEnum)
      (next : Task → State nx rd deliver) (out : Result Error (Unit {0}) × State nx rd deliver)
      (change : Task → Task)
      → ((t : Task) → is_valid_transition t.status target ≡ true → Lifecycle t (change t))
      → ((t : Task) → (next t).dag ≡ add_node s.dag n (change t))
      → Outcome nx rd deliver s n target next out
      → Moves nx s.dag out.1.dag
  Outcome-Moves s n target next out change step dag (missing e h o) = inl (ap after_dag o)
  Outcome-Moves s n target next out change step dag (refused t h v o) = inl (ap after_dag o)
  Outcome-Moves s n target next out change step dag (done t h v o) = inr (record {
    task_id = n;
    before = t;
    after = change t;
    found = h;
    step = step t v;
    result = ap after_dag o ∙ dag t;
  })

  mark_running-Moves :
      (now : Time) (n : TaskId) (a : AgentId) (s : State nx rd deliver)
      → Moves nx s.dag (mark_running nx rd deliver now n a s).1.dag
  mark_running-Moves now n a s =
      Outcome-Moves s n running (after_running nx rd deliver now n a s) _ (started_task now a)
        (λ t v. started_task-Lifecycle now a t (to_running t.status v)) (λ t. ground arith)
        (mark_running-Outcome nx rd deliver now n a s)

  mark_completed-Moves :
      (now : Time) (n : TaskId) (v : EvalVerdict) (s : State nx rd deliver)
      → Moves nx s.dag (mark_completed nx rd deliver now n v s).1.dag
  mark_completed-Moves now n v s =
      Outcome-Moves s n completed (after_completed nx rd deliver now n v s) _ (completed_task now v)
        (λ t h. completed_task-Lifecycle now v t (to_completed t.status h)) (λ t. ground arith)
        (mark_completed-Outcome nx rd deliver now n v s)

  pub mark_failed-Moves :
      (now : Time) (n : TaskId) (error : Text) (s : State nx rd deliver)
      → Moves nx s.dag (mark_failed nx rd deliver now n error s).1.dag
  mark_failed-Moves now n error s =
      Outcome-Moves s n failed (after_failed nx rd deliver now n error s) _ (failed_task now error)
        (λ t h. failed_task-Lifecycle now error t (to_failed t.status h)) (λ t. ground arith)
        (mark_failed-Outcome nx rd deliver now n error s)

  pub RetryOutcome-Moves :
      (now : Time) (n : TaskId) (s : State nx rd deliver)
      (out : Result Error Bool × State nx rd deliver)
      → RetryOutcome nx rd deliver s n (after_retry nx rd deliver now n s) out
      → Moves nx s.dag out.1.dag
  RetryOutcome-Moves now n s out (retry_missing e h o) = inl (ap after_dag o)
  RetryOutcome-Moves now n s out (kept t h why o) = inl (ap after_dag o)
  RetryOutcome-Moves now n s out (queued t h f lt o) = inr (record {
    task_id = n;
    before = t;
    after = retried_task t;
    found = h;
    step = retried_task-Lifecycle t f lt;
    result = ap after_dag o ∙ ground arith;
  })

  ClaimOutcome-Moves :
      (s : State nx rd deliver) (now : Time) (a : AgentId)
      (out : Result Error (Option Task) × State nx rd deliver)
      → ClaimOutcome nx rd deliver s now a out
      → Moves nx s.dag out.1.dag
  ClaimOutcome-Moves s now a out (idle e o) = inl (ap after_dag o)
  ClaimOutcome-Moves s now a out (broken n rest x e h o) = inl (ap after_dag o)
  ClaimOutcome-Moves s now a out (lost n rest t e h c o) = inl (ap after_dag o)
  ClaimOutcome-Moves s now a out (not_pending n rest t e h c v o) = inl (ap after_dag o)
  ClaimOutcome-Moves s now a out (claimed n rest t e h c v o) = inr (record {
    task_id = n;
    before = t;
    after = started_task now a t;
    found = h;
    step = started_task-Lifecycle now a t (to_running t.status v);
    result = ap after_dag o ∙ ground arith;
  })

  pub claim_next-Moves :
      (now : Time) (a : AgentId) (s : State nx rd deliver)
      → IsWired nx s.dag
      → Moves nx s.dag (claim_next nx rd deliver now a s).1.dag
  claim_next-Moves now a s wired =
      ClaimOutcome-Moves s now a _ (claim_next-ClaimOutcome nx rd deliver now a s wired)

  with_redis_lock-Moves :
      (now : Time) (a : AgentId) (s : State nx rd deliver) (got : Bool × rd.Store)
      → IsWired nx s.dag
      → Moves nx s.dag (with_redis_lock nx rd deliver (claim_next nx rd deliver now a) got s).1.dag
  with_redis_lock-Moves now a s got wired =
      elim (with_redis_lock_cases nx rd deliver (claim_next nx rd deliver now a) got s) [
        | inl e ↦ inl (ap after_dag e)
        | inr e ↦
            let body = (claim_next nx rd deliver now a (inside nx rd deliver s got.1)).1 in
            rw (ap after_dag e, release-dag nx rd deliver body)
              (claim_next-Moves now a (inside nx rd deliver s got.1) wired)
      ]

  schedule_and_claim-Moves :
      (polls : ℕ) (wait : rd.Store → rd.Store) (now : Time) (a : AgentId) (s : State nx rd deliver)
      → IsWired nx s.dag
      → Moves nx s.dag (schedule_and_claim nx rd deliver polls wait now a s).1.dag
  schedule_and_claim-Moves polls wait now a s wired = elim (Option-cases s.lock.redis) [
    | inl e ↦
        rw (schedule_and_claim_local nx rd deliver polls wait now a s e)
          (claim_next-Moves now a s wired)
    | inr (r, e) ↦
        rw (schedule_and_claim_remote nx rd deliver polls wait now a s e)
          (with_redis_lock-Moves now a s (acquire rd polls wait r) wired)
  ]

  -- A call of a method of the scheduler, with its arguments, but not of `load_from_db`, which puts
  -- another graph in the place of the one that is there.
  pub data Call : Type 0 where
    run_task : Time → TaskId → AgentId → Call
    complete_task : Time → TaskId → EvalVerdict → Call
    fail_task : Time → TaskId → Text → Call
    retry_task : Time → TaskId → Call
    claim_task : ℕ → (rd.Store → rd.Store) → Time → AgentId → Call
    next_task : Call

  -- The object after the call, whether it returned or raised.
  unfoldable pub perform : Call → State nx rd deliver → State nx rd deliver
  perform (run_task now n a) s = (mark_running nx rd deliver now n a s).1
  perform (complete_task now n v) s = (mark_completed nx rd deliver now n v s).1
  perform (fail_task now n error) s = (mark_failed nx rd deliver now n error s).1
  perform (retry_task now n) s = (should_retry nx rd deliver now n s).1
  perform (claim_task polls wait now a) s = (schedule_and_claim nx rd deliver polls wait now a s).1
  perform next_task s = (schedule_next nx rd deliver s).1

  schedule_next-dag : (s : State nx rd deliver) → (schedule_next nx rd deliver s).1.dag ≡ s.dag
  unfolding schedule_next
  schedule_next-dag s = ground arith

  -- In a graph that stores every task under its own id, a call that looks for, claims, starts,
  -- completes, fails or retries a task (every method but `load_from_db`, which replaces the graph),
  -- also one that raises, leaves the graph as it is or stores one task that has made one step of its
  -- lifecycle.
  pub perform-Moves :
      (c : Call) (s : State nx rd deliver) → IsWired nx s.dag → Moves nx s.dag (perform c s).dag
  unfolding perform
  perform-Moves (run_task now n a) s w = mark_running-Moves now n a s
  perform-Moves (complete_task now n v) s w = mark_completed-Moves now n v s
  perform-Moves (fail_task now n error) s w = mark_failed-Moves now n error s
  perform-Moves (retry_task now n) s w =
      RetryOutcome-Moves now n s _ (should_retry-Outcome nx rd deliver now n s)
  perform-Moves (claim_task polls wait now a) s w = schedule_and_claim-Moves polls wait now a s w
  perform-Moves next_task s w = inl (schedule_next-dag s)
