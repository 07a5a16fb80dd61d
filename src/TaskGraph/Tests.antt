-- ===== src/TaskGraph/Tests.antt =====
-- The task graph on small inputs, and each of its theorems at an input that meets its hypotheses.
use architect.Common.{
  ◌≤◌, ◌≡◌, ◌≢◌, ◌↔◌, ◌⊎◌, refl, Bool, true, false, Option, none, some, List, [], ◌∷◌, length, elem,
}
use architect.Common.Sort.{sort_desc, IsDescending}
use architect.Common.Result.{Result, ok, err}
use architect.Common.Text.{codes}
use architect.TaskGraph.Models.{
  TaskId, Task, pending, running, completed, pass, default_task, implement_feature,
}
use architect.TaskGraph.Dag.{
  Error, invalid_transition, get_task, update_task, get_ready_tasks, from_tasks, add_nodes,
  add_edges, add_edges_to, priority_of,
}
use architect.TaskGraph.Dag.Ready.{IsReady, IsWired, AllTasks, get_ready_tasks-IsReady}
use architect.TaskGraph.Dag.Ordered.{IsOrdered}
use architect.TaskGraph.Dag.Stored.{from_tasks-IsWired, from_tasks-AllTasks}
use architect.TaskGraph.Lock
use architect.TaskGraph.Lock.{Redis, try_claim_task, get_completed, acquire}
use architect.TaskGraph.Repo.{TaskRow, update_status}
use architect.TaskGraph.Transitions.{
  started_task, completed_task, failed_task, retried_task, is_valid_transition,
}
use architect.TaskGraph.Scheduler.{
  Event, State, mark_running, mark_completed, mark_failed, should_retry, schedule_next, claim_next,
  schedule_and_claim,
}
use architect.TaskGraph.Scheduler.Lifecycle.{Moves}
use architect.TaskGraph.Scheduler.Claim.{ready_ids}
use architect.TaskGraph.Scheduler.Refines.{perform, perform-Moves, claim_task, complete_task}
use architect.TaskGraph.Scheduler.Runs.{Run, rest, call, run_ind, Run-completed}
use architect.TaskGraph.Scheduler.Attempts.{IsFresh, run_attempts, run_progress}
use architect.TaskGraph.Scheduler.Safety.{IsClaimed, schedule_and_claim-IsClaimed}
use architect.TaskGraph.Scheduler.Contention.{schedule_and_claim_twice}
use architect.TaskGraph.Scheduler.Reclaim.{claim_fail_retry, claim_fail_retry-unclaimable}
use architect.TaskGraph.Scheduler.Load.{load_from_db}
use architect.TaskGraph.Scheduler.Restart.{load_from_db-count}
use architect.TaskGraph.Scheduler.Forgets.{Run-load_from_db-attempts}
use architect.TaskGraph.Samples.{plain, plain_redis, plain_database, PlainStore}

abbrev build : Task
build = record (default_task 1 0) { priority = 5 }

abbrev test : Task
test = record (default_task 2 0) { priority = 9; dependencies = 1 ∷ [] }

abbrev docs : Task
docs = record (default_task 3 0) { priority = 1 }

abbrev tasks : List Task
tasks = build ∷ test ∷ docs ∷ []

abbrev row : TaskRow
row = record {
  id = 1;
  type = implement_feature;
  agent_type = none;
  model_tier = none;
  status = pending;
  priority = 5;
  dependencies = none;
  dependents = none;
  budget = none;
  assigned_agent = none;
  current_attempt = 0;
  verdict = none;
  error_message = none;
  created_at = 0;
  started_at = none;
  completed_at = none;
}

abbrev deliver : Event → Bool
deliver e = true

abbrev S : Type 0
S = State plain plain_redis deliver

abbrev start : S
start = record {
  dag = from_tasks plain tasks;
  completed_ids = [];
  lock = record { redis = none; local_completed = [] };
  table = row ∷ [];
  events = [];
}

-- The same behind a Redis store that is empty.
abbrev shared : S
shared = record start {
  lock = record { redis = some (record { keys = []; members = λ k. [] }); local_completed = [] };
}

abbrev idle_wait : PlainStore → PlainStore
idle_wait r = r

program : Unit {0}
unfolding get_task update_task get_ready_tasks sort_desc from_tasks add_nodes add_edges add_edges_to
    try_claim_task get_completed acquire Lock.mark_completed update_status started_task
    completed_task failed_task retried_task is_valid_transition mark_running mark_completed
    mark_failed should_retry schedule_next claim_next schedule_and_claim perform
program = tt

wired : IsWired plain start.dag
wired = from_tasks-IsWired plain tasks

abbrev claim : S → Result Error (Option Task) × S
claim s = schedule_and_claim plain plain_redis deliver 3 idle_wait 7 42 s

claim-start : (claim start).0 ≡ ok (some (started_task 7 42 build))
unfolding program
claim-start = refl

schedule_and_claim-IsClaimed_example :
    IsClaimed plain plain_redis deliver 42 (started_task 7 42 build) (claim start).1
schedule_and_claim-IsClaimed_example =
    schedule_and_claim-IsClaimed plain plain_redis deliver 3 idle_wait 7 42 start
      (started_task 7 42 build) wired claim-start

schedule_and_claim_twice_example :
    (claim (claim start).1).0 ≡ err (invalid_transition 1 running running)
unfolding started_task
schedule_and_claim_twice_example =
    schedule_and_claim_twice plain plain_redis deliver 3 idle_wait 7 7 42 42 start
      (started_task 7 42 build) wired refl claim-start

-- The first task is claimed and completed, then the next claim is made.
abbrev claimed_once : S
claimed_once = perform plain plain_redis deliver (claim_task 3 idle_wait 7 42) start

abbrev completed_once : S
completed_once = perform plain plain_redis deliver (complete_task 8 1 pass) claimed_once

abbrev claimed_again : S
claimed_again = perform plain plain_redis deliver (claim_task 3 idle_wait 9 43) completed_once

abbrev once : Run plain plain_redis deliver start completed_once
once = call (call rest (claim_task 3 idle_wait 7 42)) (complete_task 8 1 pass)

abbrev again : Run plain plain_redis deliver completed_once claimed_again
again = call rest (claim_task 3 idle_wait 9 43)

abbrev built : Task
built = completed_task 8 pass (started_task 7 42 build)

second_claim : (claim completed_once).0 ≡ ok (some (started_task 7 42 test))
unfolding program
second_claim = refl

tasks-IsOrdered : IsOrdered [] tasks
tasks-IsOrdered = (refl, refl, (refl, refl, (refl, refl, tt)))

tasks-IsFresh : AllTasks plain IsFresh start.dag
tasks-IsFresh = from_tasks-AllTasks plain IsFresh tasks (
  record { not_begun = refl; no_attempt = refl; no_history = refl },
  (
    record { not_begun = refl; no_attempt = refl; no_history = refl },
    (record { not_begun = refl; no_attempt = refl; no_history = refl }, tt),
  ),
)

test_left : elem 2 completed_once.completed_ids ≡ false
unfolding program
test_left = refl

run_progress_example : get_ready_tasks plain completed_once.dag completed_once.completed_ids ≢ []
run_progress_example =
    run_progress plain plain_redis deliver tasks 2 tasks-IsOrdered refl once refl test_left

build_stored : plain.node_task completed_once.dag 1 ≡ some built
unfolding program
build_stored = refl

run_attempts_example :
    ((built.current_attempt ≤ built.budget.max_retries) ⊎ (built.current_attempt ≤ 1))
    × (length built.retry_history ≤ built.current_attempt)
run_attempts_example =
    run_attempts plain plain_redis deliver 1 built wired tasks-IsFresh once build_stored

once-IsWired : IsWired plain completed_once.dag
once-IsWired = (run_ind plain plain_redis deliver (λ g. Unit {0}) (λ g g' m u. tt) wired tt once).0

built_status : built.status ≡ completed
unfolding completed_task
built_status = refl

Run-completed_example : plain.node_task claimed_again.dag 1 ≡ some built
Run-completed_example =
    Run-completed plain plain_redis deliver 1 built once-IsWired build_stored built_status again

perform-Moves_example : Moves plain start.dag claimed_once.dag
perform-Moves_example =
    perform-Moves plain plain_redis deliver (claim_task 3 idle_wait 7 42) start wired

next-start : (schedule_next plain plain_redis deliver start).0 ≡ ok (some build)
unfolding program
next-start = refl

docs_ready : elem 3 (get_ready_tasks plain start.dag []) ≡ true
unfolding program
docs_ready = refl

get_ready_tasks-IsReady_example :
    ((n : TaskId)
      → (elem n (get_ready_tasks plain start.dag []) ≡ true) ↔ IsReady plain start.dag [] n)
    × IsDescending (priority_of plain start.dag) (get_ready_tasks plain start.dag [])
get_ready_tasks-IsReady_example = get_ready_tasks-IsReady plain start.dag []

shared_claim :
    (claim_next plain plain_redis deliver 7 42 shared).0 ≡ ok (some (started_task 7 42 build))
unfolding program
shared_claim = refl

abbrev requeued : Result Error Bool × S
requeued = claim_fail_retry plain plain_redis deliver 7 42 1 (codes "boom") shared

requeued_ok : requeued.0 ≡ ok true
unfolding program
requeued_ok = refl

requeued_first : ready_ids plain plain_redis deliver requeued.1 ≡ 1 ∷ 3 ∷ []
unfolding program
requeued_first = refl

claim_fail_retry-unclaimable_example :
    (claim_next plain plain_redis deliver 7 43 requeued.1).0 ≡ ok none
unfolding started_task
claim_fail_retry-unclaimable_example =
    claim_fail_retry-unclaimable plain plain_redis deliver 7 42 43 (codes "boom") shared
      (started_task 7 42 build) (record { keys = []; members = λ k. [] }) (3 ∷ []) wired refl
      shared_claim requeued_ok requeued_first

abbrev row_after : TaskRow
row_after = record row { status = completed; started_at = some 7; completed_at = some 8 }

table_after : completed_once.table ≡ row_after ∷ []
unfolding program
table_after = refl

Run-load_from_db-attempts_example :
    AllTasks plain
      (λ x. x.current_attempt ≡ 0)
      (load_from_db plain plain_redis deliver plain_database completed_once).1.dag
Run-load_from_db-attempts_example =
    Run-load_from_db-attempts plain plain_redis deliver plain_database row_after [] wired (refl, tt)
      once table_after

load_from_db-count_example :
    (load_from_db plain plain_redis deliver plain_database start).0 ≡ ok (length start.table)
load_from_db-count_example = load_from_db-count plain plain_redis deliver plain_database start
