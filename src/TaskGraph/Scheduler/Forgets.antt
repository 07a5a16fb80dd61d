-- ===== src/TaskGraph/Scheduler/Forgets.antt =====
-- The attempt counts of the rows (scheduler.py, task_repo.py) over runs and restarts.
use architect.Common.{
  ℕ, suc, ◌+◌, ◌<◌, ◌≡◌, length, refl, sym, ap, ◌∙◌, Bool, Option, none, some, List, [], ◌∷◌, map,
  arith, All, ◌==◌, if◌then◌else◌, Option-cases, inl, inr, subst,
}
use architect.Common.Result.{Result}
use architect.Common.Text.{Text}
use architect.TaskGraph.Models.{
  TaskId, AgentId, Time, Task, StatusEnum, running, completed, failed, EvalVerdict,
}
use architect.TaskGraph.DiGraph.{DiGraph}
use architect.TaskGraph.Dag.{Error}
use architect.TaskGraph.Dag.Ready.{IsWired, AllTasks}
use architect.TaskGraph.Dag.Stored.{from_tasks-AllTasks}
use architect.TaskGraph.Lock.{Redis, acquire}
use architect.TaskGraph.Repo.{TaskRow, Database, update_status, with_times, with_error}
use architect.TaskGraph.Transitions.{started_task, completed_task, failed_task, retried_task}
use architect.TaskGraph.Scheduler.{
  Event, State, schedule_next, claim_next, schedule_and_claim, with_redis_lock, release, published,
  task_started, task_failed, task_retried,
}
use architect.TaskGraph.Scheduler.Outcome.{
  Outcome, missing, refused, done, mark_running-Outcome, mark_completed-Outcome,
  mark_failed-Outcome, RetryOutcome, retry_missing, kept, queued, should_retry-Outcome,
  after_running, after_completed, after_failed, after_retry, saved,
}
use architect.TaskGraph.Scheduler.Claim.{
  ClaimOutcome, idle, broken, lost, not_pending, claimed, claim_next-ClaimOutcome,
  schedule_and_claim_local, schedule_and_claim_remote, with_redis_lock_cases, inside, tried,
}
use architect.TaskGraph.Scheduler.Refines.{
  Call, perform, run_task, complete_task, fail_task, retry_task, claim_task, next_task,
}
use architect.TaskGraph.Scheduler.Runs.{Run, rest, call, others, run_ind}
use architect.TaskGraph.Scheduler.Load.{domain_task, load_pages, load_rows, load_from_db}
use architect.TaskGraph.Scheduler.Restart.{load_pages-All, loaded-length}

abbrev pub attempts : List TaskRow → List ℕ
attempts table = map (λ (row : TaskRow). row.current_attempt) table

update_status-attempts :
    (table : List TaskRow) (n : TaskId) (status : StatusEnum) (error : Option Text) (now : Time)
    → attempts (update_status table n status error now) ≡ attempts table
unfolding update_status
update_status-attempts [] n status error now = refl
update_status-attempts (row ∷ table) n status error now =
    let one : (if row.id == n
          then with_times status now (with_error error (record row { status = status }))
          else row).current_attempt
        ≡ row.current_attempt =
      ground arith in
    cc (one, update_status-attempts table n status error now)

module _ (nx : DiGraph) (rd : Redis) (deliver : Event → Bool) where
  -- The rows have the attempt counts of those of another object.
  abbrev SameAttempts : State nx rd deliver → State nx rd deliver → Type 0
  SameAttempts s s' = attempts s'.table ≡ attempts s.table

  Outcome-SameAttempts :
      (s : State nx rd deliver) (n : TaskId) (target : StatusEnum)
      (next : Task → State nx rd deliver) (out : Result Error (Unit {0}) × State nx rd deliver)
      → ((t : Task) → SameAttempts s (next t))
      → Outcome nx rd deliver s n target next out
      → SameAttempts s out.1
  Outcome-SameAttempts s n target next out same (missing e h o) = rw o
  Outcome-SameAttempts s n target next out same (refused t h v o) = rw o
  Outcome-SameAttempts s n target next out same (done t h v o) = rw o (same t)

  saved-SameAttempts :
      (e : Event) (s : State nx rd deliver) (n : TaskId) (t : Task) (error : Option Text)
      (now : Time)
      → SameAttempts s (published nx rd deliver e (saved nx rd deliver s n t error now))
  saved-SameAttempts e s n t error now =
      ground (arith, update_status-attempts s.table n t.status error now)

  after_completed-SameAttempts :
      (now : Time) (n : TaskId) (v : EvalVerdict) (s : State nx rd deliver) (t : Task)
      → SameAttempts s (after_completed nx rd deliver now n v s t)
  after_completed-SameAttempts now n v s t =
      ground (arith, update_status-attempts s.table n (completed_task now v t).status none now)

  RetryOutcome-SameAttempts :
      (s : State nx rd deliver) (n : TaskId) (now : Time)
      (out : Result Error Bool × State nx rd deliver)
      → RetryOutcome nx rd deliver s n (after_retry nx rd deliver now n s) out
      → SameAttempts s out.1
  RetryOutcome-SameAttempts s n now out (retry_missing e h o) = rw o
  RetryOutcome-SameAttempts s n now out (kept t h why o) = rw o
  RetryOutcome-SameAttempts s n now out (queued t h f lt o) =
      rw o
        (saved-SameAttempts (task_retried n (t.current_attempt + 1)) s n (retried_task t) none now)

  ClaimOutcome-SameAttempts :
      (s : State nx rd deliver) (now : Time) (a : AgentId)
      (out : Result Error (Option Task) × State nx rd deliver)
      → ClaimOutcome nx rd deliver s now a out
      → SameAttempts s out.1
  ClaimOutcome-SameAttempts s now a out (idle e o) = rw o
  ClaimOutcome-SameAttempts s now a out (broken n r x e f o) = rw o
  ClaimOutcome-SameAttempts s now a out (lost n r b e f c o) = rw o
  ClaimOutcome-SameAttempts s now a out (not_pending n r b e f c v o) = rw o
  ClaimOutcome-SameAttempts s now a out (claimed n r b e f c v o) = rw o (
      saved-SameAttempts (task_started n a) (tried nx rd deliver s n) n (started_task now a b) none
        now)

  with_redis_lock-SameAttempts :
      (now : Time) (a : AgentId) (s : State nx rd deliver) (got : Bool × rd.Store)
      → IsWired nx s.dag
      → SameAttempts s (with_redis_lock nx rd deliver (claim_next nx rd deliver now a) got s).1
  with_redis_lock-SameAttempts now a s got w =
      let within = inside nx rd deliver s got.1 in
      let body = claim_next nx rd deliver now a within in
      let kept_rows =
        ClaimOutcome-SameAttempts within now a body
          (claim_next-ClaimOutcome nx rd deliver now a within w) in
      elim (with_redis_lock_cases nx rd deliver (claim_next nx rd deliver now a) got s) [
        | inl e ↦ rw e
        | inr e ↦ rw e (release-table body.1 ∙ kept_rows)
      ]
    where
      release-table :
          (s : State nx rd deliver) → attempts (release nx rd deliver s).table ≡ attempts s.table
      release-table s = ground arith

  schedule_and_claim-SameAttempts :
      (polls : ℕ) (wait : rd.Store → rd.Store) (now : Time) (a : AgentId) (s : State nx rd deliver)
      → IsWired nx s.dag
      → SameAttempts s (schedule_and_claim nx rd deliver polls wait now a s).1
  schedule_and_claim-SameAttempts polls wait now a s w = elim (Option-cases s.lock.redis) [
    | inl e ↦
        rw (schedule_and_claim_local nx rd deliver polls wait now a s e)
          (ClaimOutcome-SameAttempts s now a _ (claim_next-ClaimOutcome nx rd deliver now a s w))
    | inr (r, e) ↦
        rw (schedule_and_claim_remote nx rd deliver polls wait now a s e)
          (with_redis_lock-SameAttempts now a s (acquire rd polls wait r) w)
  ]

  schedule_next-table :
      (s : State nx rd deliver) → (schedule_next nx rd deliver s).1.table ≡ s.table
  unfolding schedule_next
  schedule_next-table s = ground arith

  perform-SameAttempts :
      (c : Call nx rd deliver) (s : State nx rd deliver)
      → IsWired nx s.dag
      → SameAttempts s (perform nx rd deliver c s)
  unfolding perform
  perform-SameAttempts (run_task now n a) s w =
      Outcome-SameAttempts s n running (after_running nx rd deliver now n a s) _
        (λ t. saved-SameAttempts (task_started n a) s n (started_task now a t) none now)
        (mark_running-Outcome nx rd deliver now n a s)
  perform-SameAttempts (complete_task now n v) s w =
      Outcome-SameAttempts s n completed (after_completed nx rd deliver now n v s) _
        (after_completed-SameAttempts now n v s) (mark_completed-Outcome nx rd deliver now n v s)
  perform-SameAttempts (fail_task now n error) s w =
      Outcome-SameAttempts s n failed (after_failed nx rd deliver now n error s) _
        (λ t.
          saved-SameAttempts (task_failed n error) s n (failed_task now error t) (some error) now)
        (mark_failed-Outcome nx rd deliver now n error s)
  perform-SameAttempts (retry_task now n) s w =
      RetryOutcome-SameAttempts s n now _ (should_retry-Outcome nx rd deliver now n s)
  perform-SameAttempts (claim_task polls wait now a) s w =
      schedule_and_claim-SameAttempts polls wait now a s w
  perform-SameAttempts next_task s w = ap attempts (schedule_next-table s)

  Run-SameAttempts :
      {s t : State nx rd deliver} → IsWired nx s.dag → Run nx rd deliver s t → SameAttempts s t
  Run-SameAttempts w rest = refl
  Run-SameAttempts w (others run e r) = Run-SameAttempts w run
  Run-SameAttempts w (call {t = t} run c) =
      let wired = (run_ind nx rd deliver (λ g. Unit {0}) (λ g g' m u. tt) w tt run).0 in
      perform-SameAttempts c t wired ∙ Run-SameAttempts w run

  abbrev HasNone : TaskRow → Type 0
  HasNone row = row.current_attempt ≡ 0

  attempts-HasNone : (table : List TaskRow) → All (λ n. n ≡ 0) (attempts table) → All HasNone table
  attempts-HasNone [] h = tt
  attempts-HasNone (row ∷ table) h = (h.0, attempts-HasNone table h.1)

  fresh_rows :
      (table : List TaskRow)
      → All HasNone table
      → All (λ (x : Task). x.current_attempt ≡ 0) (map domain_task table)
  unfolding domain_task
  fresh_rows [] h = tt
  fresh_rows (row ∷ table) h = (h.0, fresh_rows table h.1)

  load_rows-attempts :
      (loaded : List TaskRow) (s : State nx rd deliver)
      → 0 < length loaded
      → All HasNone loaded
      → AllTasks nx (λ x. x.current_attempt ≡ 0) (load_rows nx rd deliver loaded s).1.dag
  load_rows-attempts [] s some_rows h = absurd (omega (arith, some_rows))
  load_rows-attempts (row ∷ rows) s some_rows h =
      from_tasks-AllTasks nx (λ x. x.current_attempt ≡ 0) (map domain_task (row ∷ rows))
        (fresh_rows (row ∷ rows) h)

  -- From tasks under their own ids, and rows with no attempts: whatever the scheduler does, after a
  -- restart that finds a row, in whatever order the database serves the rows, every task of the
  -- rebuilt graph has no attempts again, so that its retry budget is whole.
  pub Run-load_from_db-attempts :
      (db : Database) {s t : State nx rd deliver} (row : TaskRow) (rows : List TaskRow)
      → IsWired nx s.dag
      → All (λ n. n ≡ 0) (attempts s.table)
      → Run nx rd deliver s t
      → t.table ≡ row ∷ rows
      → AllTasks nx (λ x. x.current_attempt ≡ 0) (load_from_db nx rd deliver db t).1.dag
  unfolding load_from_db
  Run-load_from_db-attempts db {s} {t} row rows w start run found =
      let zero_rows : All (λ n. n ≡ 0) (attempts t.table) =
        subst (All (λ n. n ≡ 0)) (sym (Run-SameAttempts w run)) start in
      let loaded = load_pages db (suc (length t.table)) 1000 0 t.table in
      let some_rows : 0 < length loaded =
        omega (arith, loaded-length nx rd deliver db t.table, ap length found) in
      load_rows-attempts loaded t some_rows
        (load_pages-All db HasNone _ 1000 0 t.table (attempts-HasNone t.table zero_rows))
