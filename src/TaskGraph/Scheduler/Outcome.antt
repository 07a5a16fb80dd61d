-- ===== src/TaskGraph/Scheduler/Outcome.antt =====
-- What each lifecycle method of `TaskScheduler` (scheduler.py) returns and leaves, on every branch.
use architect.Common.{
  ◌+◌, ◌<◌, ◌≤◌, ◌≡◌, refl, ◌⊎◌, inl, inr, Bool, true, false, Option, none, some, arith, Bool-cases,
  leb, leb→le,
}
use architect.Common.Result.{Result, ok, err}
use architect.Common.Text.{Text}
use architect.TaskGraph.Models.{
  TaskId, AgentId, Time, StatusEnum, running, completed, failed, Task, EvalVerdict, status_eq,
}
use architect.TaskGraph.DiGraph.{DiGraph}
use architect.TaskGraph.Dag.{Error, get_task, invalid_transition}
use architect.TaskGraph.Lock
use architect.TaskGraph.Lock.{Redis}
use architect.TaskGraph.Repo.{update_status}
use architect.TaskGraph.Transitions.{
  is_valid_transition, started_task, completed_task, failed_task, retried_task,
}
use architect.TaskGraph.Scheduler.{
  Event, State, mark_running, mark_completed, mark_failed, should_retry, published, task_started,
  task_completed, task_failed, task_retried,
}
use architect.TaskGraph.Scheduler.Lifecycle.{update_task_known}
use architect.Common.{add}

pub Result-cases :
    {E A : Type 0} (r : Result E A) → ((e : E) × (r ≡ err e)) ⊎ ((a : A) × (r ≡ ok a))
Result-cases (err e) = inl (e, refl)
Result-cases (ok a) = inr (a, refl)

module _ (nx : DiGraph) (rd : Redis) (deliver : Event → Bool) where
  open nx use {add_node}

  -- The object after a task was stored and its status was saved.
  abbrev pub saved : State nx rd deliver → TaskId → Task → Option Text → Time → State nx rd deliver
  saved s n t error now = record s {
    dag = add_node s.dag n t;
    table = update_status s.table n t.status error now;
  }

  -- The ways a call of a lifecycle method can end: the task is missing, or the transition is not
  -- allowed, and nothing has changed; or the call returns and leaves `next`.
  pub data Outcome (s : State nx rd deliver) (n : TaskId) (target : StatusEnum)
      (next : Task → State nx rd deliver) (out : Result Error (Unit {0}) × State nx rd deliver)
      : Type 0 where
    missing :
        (e : Error) → get_task nx s.dag n ≡ err e → out ≡ (err e, s) → Outcome s n target next out
    refused :
        (t : Task)
        → get_task nx s.dag n ≡ ok t
        → is_valid_transition t.status target ≡ false
        → out ≡ (err (invalid_transition t.id t.status target), s)
        → Outcome s n target next out
    done :
        (t : Task)
        → get_task nx s.dag n ≡ ok t
        → is_valid_transition t.status target ≡ true
        → out ≡ (ok tt, next t)
        → Outcome s n target next out

  -- The method looks the task up and tests the transition first; `finished` is its last branch.
  Outcome-cases :
      (s : State nx rd deliver) (n : TaskId) (target : StatusEnum)
      (next : Task → State nx rd deliver) (out : Result Error (Unit {0}) × State nx rd deliver)
      → ((e : Error) → get_task nx s.dag n ≡ err e → out ≡ (err e, s))
      → ((t : Task)
          → get_task nx s.dag n ≡ ok t
          → is_valid_transition t.status target ≡ false
          → out ≡ (err (invalid_transition t.id t.status target), s))
      → ((t : Task)
          → get_task nx s.dag n ≡ ok t
          → is_valid_transition t.status target ≡ true
          → out ≡ (ok tt, next t))
      → Outcome s n target next out
  Outcome-cases s n target next out on_missing on_refused on_done =
      elim (Result-cases (get_task nx s.dag n)) [
        | inl (e, h) ↦ missing e h (on_missing e h)
        | inr (t, h) ↦ elim (Bool-cases (is_valid_transition t.status target)) [
          | inl v ↦ done t h v (on_done t h v)
          | inr v ↦ refused t h v (on_refused t h v)
        ]
      ]

  abbrev pub after_running :
      Time → TaskId → AgentId → State nx rd deliver → Task → State nx rd deliver
  after_running now n a s t =
      published nx rd deliver (task_started n a) (saved s n (started_task now a t) none now)

  abbrev pub after_completed :
      Time → TaskId → EvalVerdict → State nx rd deliver → Task → State nx rd deliver
  after_completed now n v s t =
      let stored = saved s n (completed_task now v t) none now in
      published nx rd deliver (task_completed n v) (record stored {
        completed_ids = add n s.completed_ids;
        lock = Lock.mark_completed rd s.lock n;
      })

  abbrev pub after_failed : Time → TaskId → Text → State nx rd deliver → Task → State nx rd deliver
  after_failed now n error s t =
      published nx rd deliver (task_failed n error)
        (saved s n (failed_task now error t) (some error) now)

  abbrev pub after_retry : Time → TaskId → State nx rd deliver → Task → State nx rd deliver
  after_retry now n s t =
      published nx rd deliver (task_retried n (t.current_attempt + 1))
        (saved s n (retried_task t) none now)

  pub mark_running_done :
      (now : Time) (n : TaskId) (a : AgentId) (s : State nx rd deliver) (t : Task)
      → get_task nx s.dag n ≡ ok t
      → is_valid_transition t.status running ≡ true
      → mark_running nx rd deliver now n a s ≡ (ok tt, after_running now n a s t)
  unfolding mark_running started_task
  mark_running_done now n a s t h v =
      ground (arith, update_task_known nx s.dag n t (started_task now a t) h)

  pub mark_running_refused :
      (now : Time) (n : TaskId) (a : AgentId) (s : State nx rd deliver) (t : Task)
      → get_task nx s.dag n ≡ ok t
      → is_valid_transition t.status running ≡ false
      → mark_running nx rd deliver now n a s ≡ (err (invalid_transition t.id t.status running), s)
  unfolding mark_running
  mark_running_refused now n a s t h v = ground arith

  -- `mark_running` on every branch.
  pub mark_running-Outcome :
      (now : Time) (n : TaskId) (a : AgentId) (s : State nx rd deliver)
      → Outcome s n running (after_running now n a s) (mark_running nx rd deliver now n a s)
  unfolding mark_running
  mark_running-Outcome now n a s =
      Outcome-cases s n running (after_running now n a s) _ (λ e h. ground arith)
        (mark_running_refused now n a s) (mark_running_done now n a s)

  -- `mark_completed` on every branch: a missing task and a transition that is not allowed raise and
  -- change nothing; else the task, the completed set, the lock, its row and the event are all updated.
  pub mark_completed-Outcome :
      (now : Time) (n : TaskId) (v : EvalVerdict) (s : State nx rd deliver)
      → Outcome s n completed (after_completed now n v s) (mark_completed nx rd deliver now n v s)
  unfolding mark_completed completed_task
  mark_completed-Outcome now n v s =
      Outcome-cases s n completed (after_completed now n v s) _ (λ e h. ground arith)
        (λ t h r. ground arith)
        (λ t h r. ground (arith, h, r, update_task_known nx s.dag n t (completed_task now v t) h))

  -- `mark_failed` on every branch.
  pub mark_failed-Outcome :
      (now : Time) (n : TaskId) (error : Text) (s : State nx rd deliver)
      → Outcome s n failed (after_failed now n error s) (mark_failed nx rd deliver now n error s)
  unfolding mark_failed failed_task
  mark_failed-Outcome now n error s =
      Outcome-cases s n failed (after_failed now n error s) _ (λ e h. ground arith)
        (λ t h r. ground arith)
        (λ t h r. ground (arith, h, r, update_task_known nx s.dag n t (failed_task now error t) h))

  -- The ways a call of `should_retry` can end.
  pub data RetryOutcome (s : State nx rd deliver) (n : TaskId) (next : Task → State nx rd deliver)
      (out : Result Error Bool × State nx rd deliver) : Type 0 where
    retry_missing :
        (e : Error) → get_task nx s.dag n ≡ err e → out ≡ (err e, s) → RetryOutcome s n next out
    kept :
        (t : Task)
        → get_task nx s.dag n ≡ ok t
        → (status_eq t.status failed ≡ false) ⊎ (t.budget.max_retries ≤ t.current_attempt)
        → out ≡ (ok false, s)
        → RetryOutcome s n next out
    queued :
        (t : Task)
        → get_task nx s.dag n ≡ ok t
        → t.status ≡ failed
        → t.current_attempt < t.budget.max_retries
        → out ≡ (ok true, next t)
        → RetryOutcome s n next out

  status_eq-failed : (x : StatusEnum) → status_eq x failed ≡ true → x ≡ failed
  status_eq-failed x h = ground arith

  -- `should_retry` on every branch: a missing task raises, a task that is not failed or whose attempts
  -- are spent gives `False` and changes nothing, any other is stored as pending and gives `True`.
  pub should_retry-Outcome :
      (now : Time) (n : TaskId) (s : State nx rd deliver)
      → RetryOutcome s n (after_retry now n s) (should_retry nx rd deliver now n s)
  unfolding should_retry retried_task
  should_retry-Outcome now n s = elim (Result-cases (get_task nx s.dag n)) [
    | inl (e, h) ↦ retry_missing e h (ground arith)
    | inr (t, h) ↦ elim (Bool-cases (status_eq t.status failed)) [
      | inr other ↦ kept t h (inl other) (ground arith)
      | inl is_failed ↦ elim (Bool-cases (leb t.budget.max_retries t.current_attempt)) [
        | inl spent ↦ kept t h (inr (leb→le _ _ spent)) (ground arith)
        | inr left ↦
            queued t h (status_eq-failed t.status is_failed) (ground arith) (
              ground (arith, h, is_failed, left, update_task_known nx s.dag n t (retried_task t) h))
      ]
    ]
  ]
