-- ===== src/TaskGraph/Scheduler/Reclaim.antt =====
-- The claim of a task that fails and is retried (scheduler.py, distributed_lock.py).
use architect.Common.{
  ◌≡◌, sym, ap, ◌∙◌, Bool, true, false, Option, none, some, List, ◌∷◌, arith, ==-refl,
}
use architect.Common.Text.{Text}
use architect.Common.Result.{Result, ok}
use architect.TaskGraph.Models.{TaskId, AgentId, Time, failed, Task}
use architect.TaskGraph.DiGraph.{DiGraph}
use architect.TaskGraph.Dag.{Error, get_task}
use architect.TaskGraph.Dag.Ready.{IsWired}
use architect.TaskGraph.Lock.{Redis, Lock, try_claim_task, claimed_key}
use architect.TaskGraph.Transitions.{started_task, retried_task}
use architect.TaskGraph.Scheduler.{Event, State, claim_next, mark_failed, should_retry}
use architect.TaskGraph.Scheduler.Lifecycle.{get_task-eq-ok}
use architect.TaskGraph.Scheduler.Outcome.{
  Outcome, missing, refused, done, mark_failed-Outcome, after_failed, RetryOutcome, retry_missing,
  kept, queued, should_retry-Outcome, after_retry,
}
use architect.TaskGraph.Scheduler.Refines.{mark_failed-Moves, RetryOutcome-Moves, claim_next-Moves}
use architect.TaskGraph.Scheduler.Runs.{Moves-IsWired}
use architect.TaskGraph.Scheduler.Claim.{
  ClaimOutcome, idle, broken, lost, not_pending, claimed, claim_next-ClaimOutcome, ready_ids,
  get_task_known,
}

head_eq : (n m : TaskId) (xs ys : List TaskId) → (n ∷ xs) ≡ (m ∷ ys) → n ≡ m
head_eq n m xs ys e = cc

module _ (rd : Redis) where
  -- The store of the lock holds a claim of the task.
  pub record HoldsClaim (lk : Lock rd.Store) (n : TaskId) : Type 0 where
    pub store : rd.Store
    pub connected : lk.redis ≡ some store
    pub claim_exists : rd.exists store (claimed_key n) ≡ true

  try_claim_held :
      (lk : Lock rd.Store) (n : TaskId) → HoldsClaim lk n → (try_claim_task rd lk n).0 ≡ false
  unfolding try_claim_task
  try_claim_held lk n h =
      ground (arith, h.connected, h.claim_exists, rd.set_nx-result h.store (claimed_key n))

  try_claim-HoldsClaim :
      (lk : Lock rd.Store) (n : TaskId) {r : rd.Store}
      → lk.redis ≡ some r
      → HoldsClaim (try_claim_task rd lk n).1 n
  unfolding try_claim_task
  try_claim-HoldsClaim lk n {r} e = record {
    store = (rd.set_nx r (claimed_key n)).1;
    connected = ground arith;
    claim_exists = ground (arith, rd.exists-set_nx r (claimed_key n) (claimed_key n), ==-refl n);
  }

module _ (nx : DiGraph) (rd : Redis) (deliver : Event → Bool) where
  -- Neither `mark_failed` nor `should_retry` touches the lock.
  failed_lock :
      (s : State nx rd deliver) (now : Time) (n : TaskId) (error : Text)
      (out : Result Error (Unit {0}) × State nx rd deliver)
      → Outcome nx rd deliver s n failed (after_failed nx rd deliver now n error s) out
      → out.1.lock ≡ s.lock
  failed_lock s now n error out (missing e h o) = rw o
  failed_lock s now n error out (refused t h v o) = rw o
  failed_lock s now n error out (done t h v o) = rw o (ground arith)

  retry_lock :
      (s : State nx rd deliver) (now : Time) (n : TaskId)
      (out : Result Error Bool × State nx rd deliver)
      → RetryOutcome nx rd deliver s n (after_retry nx rd deliver now n s) out
      → out.1.lock ≡ s.lock
  retry_lock s now n out (retry_missing e h o) = rw o
  retry_lock s now n out (kept t h why o) = rw o
  retry_lock s now n out (queued t h f lt o) = rw o (ground arith)

  claim-HoldsClaim :
      (s : State nx rd deliver) (now : Time) (a : AgentId) (t : Task) {r : rd.Store}
      (out : Result Error (Option Task) × State nx rd deliver)
      → IsWired nx s.dag
      → s.lock.redis ≡ some r
      → ClaimOutcome nx rd deliver s now a out
      → out.0 ≡ ok (some t)
      → HoldsClaim rd out.1.lock t.id
  unfolding started_task
  claim-HoldsClaim s now a t out w remote (idle e o) h = absurd (cc)
  claim-HoldsClaim s now a t out w remote (broken n rest x e f o) h = absurd (cc)
  claim-HoldsClaim s now a t out w remote (lost n rest b e f c o) h = absurd (cc)
  claim-HoldsClaim s now a t out w remote (not_pending n rest b e f c v o) h = absurd (cc)
  claim-HoldsClaim s now a t out w remote (claimed n rest b e f c v o) h =
      let result : ok (some (started_task now a b)) ≡ ok (some t) =
        sym (ap (λ (x : Result Error (Option Task) × State nx rd deliver). x.0) o) ∙ h in
      let named : n ≡ t.id = sym (w.task_id n b (get_task-eq-ok nx s.dag n b f).1) ∙ (cc) in
      let lock_of : out.1.lock ≡ (try_claim_task rd s.lock n).1 = rw o (ground arith) in
      rw (lock_of, ← named) (try_claim-HoldsClaim rd s.lock n remote)

  lost_claim :
      (s : State nx rd deliver) (now : Time) (a : AgentId) (n : TaskId) (rest : List TaskId)
      (t : Task) (out : Result Error (Option Task) × State nx rd deliver)
      → ready_ids nx rd deliver s ≡ n ∷ rest
      → get_task nx s.dag n ≡ ok t
      → (try_claim_task rd s.lock n).0 ≡ false
      → ClaimOutcome nx rd deliver s now a out
      → out.0 ≡ ok none
  lost_claim s now a n rest t out e f c (idle e' o) = absurd (cc (e, e'))
  lost_claim s now a n rest t out e f c (broken m rest' x e' f' o) =
      absurd (cc (ap (get_task nx s.dag) (head_eq n m rest rest' (sym e ∙ e'))))
  lost_claim s now a n rest t out e f c (lost m rest' b e' f' c' o) = rw o
  lost_claim s now a n rest t out e f c (not_pending m rest' b e' f' c' v o) =
      absurd (cc (ap (λ i. (try_claim_task rd s.lock i).0) (head_eq n m rest rest' (sym e ∙ e'))))
  lost_claim s now a n rest t out e f c (claimed m rest' b e' f' c' v o) =
      absurd (cc (ap (λ i. (try_claim_task rd s.lock i).0) (head_eq n m rest rest' (sym e ∙ e'))))

  queued_task :
      (s : State nx rd deliver) (now : Time) (n : TaskId)
      (out : Result Error Bool × State nx rd deliver)
      → RetryOutcome nx rd deliver s n (after_retry nx rd deliver now n s) out
      → out.0 ≡ ok true
      → (t : Task) × (get_task nx out.1.dag n ≡ ok t)
  queued_task s now n out (retry_missing e h o) q = absurd (cc)
  queued_task s now n out (kept t h why o) q = absurd (cc)
  queued_task s now n out (queued t h f lt o) q = (
    retried_task t,
    rw o (ground (arith, get_task_known nx rd deliver s.dag n t (retried_task t) h)),
  )

  -- The object after a claim, after the failure of a task, and what its retry returns and leaves.
  abbrev pub after_claim : Time → AgentId → State nx rd deliver → State nx rd deliver
  after_claim now a s = (claim_next nx rd deliver now a s).1

  abbrev pub after_failure : Time → TaskId → Text → State nx rd deliver → State nx rd deliver
  after_failure now n error s = (mark_failed nx rd deliver now n error s).1

  abbrev pub claim_fail_retry :
      Time → AgentId → TaskId → Text → State nx rd deliver → Result Error Bool × State nx rd deliver
  claim_fail_retry now a n error s =
      should_retry nx rd deliver now n (after_failure now n error (after_claim now a s))

  claim_fail_retry-IsWired :
      (now : Time) (a : AgentId) (n : TaskId) (error : Text) (s : State nx rd deliver)
      → IsWired nx s.dag
      → IsWired nx (claim_fail_retry now a n error s).1.dag
  claim_fail_retry-IsWired now a n error s w =
      let s1 = after_claim now a s in
      let s2 = after_failure now n error s1 in
      let w1 =
        Moves-IsWired nx rd deliver s.dag s1.dag (claim_next-Moves nx rd deliver now a s w) w in
      let w2 =
        Moves-IsWired nx rd deliver s1.dag s2.dag (mark_failed-Moves nx rd deliver now n error s1)
          w1 in
      Moves-IsWired nx rd deliver s2.dag (claim_fail_retry now a n error s).1.dag
        (RetryOutcome-Moves nx rd deliver now n s2 (claim_fail_retry now a n error s)
          (should_retry-Outcome nx rd deliver now n s2))
        w2

  -- With Redis, and every task under its own id: a task is claimed, fails, and is queued for retry. If it then comes first among the
  -- ready tasks while its claim has not expired, a claim returns `None`: the retried task is not
  -- run, nor is any task behind it.
  pub claim_fail_retry-unclaimable :
      (now : Time) (a a' : AgentId) (error : Text) (s : State nx rd deliver) (t : Task)
      (r : rd.Store) (rest : List TaskId)
      → IsWired nx s.dag
      → s.lock.redis ≡ some r
      → (claim_next nx rd deliver now a s).0 ≡ ok (some t)
      → (claim_fail_retry now a t.id error s).0 ≡ ok true
      → ready_ids nx rd deliver (claim_fail_retry now a t.id error s).1 ≡ t.id ∷ rest
      → (claim_next nx rd deliver now a' (claim_fail_retry now a t.id error s).1).0 ≡ ok none
  claim_fail_retry-unclaimable now a a' error s t r rest w remote h requeued first =
      let s1 = after_claim now a s in
      let s2 = after_failure now t.id error s1 in
      let out = claim_fail_retry now a t.id error s in
      let w3 = claim_fail_retry-IsWired now a t.id error s w in
      let held =
        claim-HoldsClaim s now a t (claim_next nx rd deliver now a s) w remote
          (claim_next-ClaimOutcome nx rd deliver now a s w) h in
      let failing =
        failed_lock s1 now t.id error (mark_failed nx rd deliver now t.id error s1)
          (mark_failed-Outcome nx rd deliver now t.id error s1) in
      let retry = should_retry-Outcome nx rd deliver now t.id s2 in
      let (t', found) = queued_task s2 now t.id out retry requeued in
      lost_claim out.1 now a' t.id rest t' (claim_next nx rd deliver now a' out.1) first found
        (rw (retry_lock s2 now t.id out retry, failing) (try_claim_held rd s1.lock t.id held))
        (claim_next-ClaimOutcome nx rd deliver now a' out.1 w3)
