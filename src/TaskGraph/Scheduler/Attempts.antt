-- ===== src/TaskGraph/Scheduler/Attempts.antt =====
-- How often a task runs: the retry budget over every run of the scheduler (scheduler.py).
use architect.Common.{
  ◌∙◌, ◌≤◌, ◌<◌, ◌≡◌, ap, ◌⊎◌, inl, inr, some, arith, length, Bool, elem, List, [], true, false,
  ◌≢◌,
}
use architect.TaskGraph.Models.{TaskId, Task, pending, running}
use architect.TaskGraph.DiGraph.{DiGraph}
use architect.TaskGraph.Dag.{get_ready_tasks, from_tasks}
use architect.TaskGraph.Dag.FromTasks.{ids, from_tasks-edges}
use architect.TaskGraph.Dag.Ordered.{IsOrdered, from_tasks-IsAcyclic}
use architect.TaskGraph.Dag.Stored.{from_tasks-IsWired}
use architect.TaskGraph.Dag.Ready.{IsWired, AllTasks, IsAcyclic, get_ready_tasks-progress}
use architect.TaskGraph.Lock.{Redis}
use architect.TaskGraph.Scheduler.{Event, State}
use architect.TaskGraph.Scheduler.Lifecycle.{Lifecycle, start, finish, fail, retry}
use architect.TaskGraph.Scheduler.Runs.{Run, Run-AllTasks, Run-IsAcyclic}

-- A task that has not been started.
pub record IsFresh (t : Task) : Type 0 where
  pub not_begun : t.status ≡ pending
  pub no_attempt : t.current_attempt ≡ 0
  pub no_history : length t.retry_history ≡ 0

-- The attempts so far fit the retry budget, and each recorded failure is an attempt of its own.
pub record IsBounded (t : Task) : Type 0 where
  pub attempts : (t.current_attempt ≤ t.budget.max_retries) ⊎ (t.current_attempt ≤ 1)
  pub may_start :
      t.status ≡ pending → (t.current_attempt < t.budget.max_retries) ⊎ (t.current_attempt ≡ 0)
  pub recorded : length t.retry_history ≤ t.current_attempt
  pub in_flight : t.status ≡ running → length t.retry_history < t.current_attempt

IsFresh-IsBounded : (t : Task) → IsFresh t → IsBounded t
IsFresh-IsBounded t f = record {
  attempts = inr (omega (arith, f.no_attempt));
  may_start = λ _. inr f.no_attempt;
  recorded = omega (arith, f.no_history);
  in_flight = λ h. cc (f.not_begun);
}

Lifecycle-IsBounded : (t t' : Task) → Lifecycle t t' → IsBounded t → IsBounded t'
Lifecycle-IsBounded t t' (start same was now att hist) b = record {
  attempts = ground (arith, b.may_start was, same.same_budget);
  may_start = λ h. cc;
  recorded = omega (arith, b.recorded, ap length hist);
  in_flight = λ h. omega (arith, b.recorded, ap length hist);
}
Lifecycle-IsBounded t t' (finish same was now att hist) b = record {
  attempts = ground (arith, b.attempts, same.same_budget);
  may_start = λ h. cc;
  recorded = omega (arith, b.recorded, ap length hist);
  in_flight = λ h. cc;
}
Lifecycle-IsBounded t t' (fail same was now att hist) b = record {
  attempts = ground (arith, b.attempts, same.same_budget);
  may_start = λ h. cc;
  recorded = omega (arith, b.in_flight was);
  in_flight = λ h. cc;
}
Lifecycle-IsBounded t t' (retry same was now att lt hist) b = record {
  attempts = ground (arith, b.attempts, same.same_budget);
  may_start = λ h. inl (ground (arith, same.same_budget));
  recorded = omega (arith, b.recorded, ap length hist);
  in_flight = λ h. cc;
}

module _ (nx : DiGraph) (rd : Redis) (deliver : Event → Bool) where
  -- Starting from tasks that were never run, each under its own id, after any run of the scheduler a task has been started
  -- at most `max_retries` times (once, if `max_retries` is 0), and no more failures are on its
  -- record than it had attempts.
  pub run_attempts :
      {s t : State nx rd deliver} (n : TaskId) (x : Task)
      → IsWired nx s.dag
      → AllTasks nx IsFresh s.dag
      → Run nx rd deliver s t
      → nx.node_task t.dag n ≡ some x
      → ((x.current_attempt ≤ x.budget.max_retries) ⊎ (x.current_attempt ≤ 1))
        × (length x.retry_history ≤ x.current_attempt)
  run_attempts {s} n x w fresh run here =
      let bounded : AllTasks nx IsBounded s.dag = record {
        at = λ m t e. IsFresh-IsBounded t (fresh.at m t e);
      } in
      let end =
        (Run-AllTasks nx rd deliver IsBounded Lifecycle-IsBounded w bounded run).at n x here in
      (end.attempts, end.recorded)

  -- Over a graph rebuilt from tasks in dependency order, after any run of the scheduler: while some
  -- given task is not completed, some task is ready.
  pub run_progress :
      {s t : State nx rd deliver} (tasks : List Task) (n : TaskId)
      → IsOrdered [] tasks
      → s.dag ≡ from_tasks nx tasks
      → Run nx rd deliver s t
      → elem n (ids tasks) ≡ true
      → elem n t.completed_ids ≡ false
      → get_ready_tasks nx t.dag t.completed_ids ≢ []
  run_progress {s} {t} tasks n ordered rebuilt run given left =
      let wired : IsWired nx s.dag = rw rebuilt (from_tasks-IsWired nx tasks) in
      let acyclic : IsAcyclic nx s.dag = rw rebuilt (from_tasks-IsAcyclic nx tasks ordered) in
      let (acyclic', same) = Run-IsAcyclic nx rd deliver wired acyclic run in
      get_ready_tasks-progress nx t.dag t.completed_ids n acyclic'
        (rw (same, rebuilt) ((from_tasks-edges nx tasks n n).0 ∙ given)) left
