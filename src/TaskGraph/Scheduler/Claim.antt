-- ===== src/TaskGraph/Scheduler/Claim.antt =====
-- What `schedule_next` and `schedule_and_claim` (scheduler.py) return and leave, on every branch.
use architect.Common.{
  ℕ, ◌≡◌, refl, ◌⊎◌, inl, inr, Bool, true, false, Option, none, some, List, [], ◌∷◌, arith,
  Bool-cases, List-cases, update_set,
}
use architect.Common.Result.{Result, ok, err}
use architect.TaskGraph.Models.{TaskId, AgentId, Time, running, Task}
use architect.TaskGraph.DiGraph.{DiGraph}
use architect.TaskGraph.Dag.{Error, get_task, get_ready_tasks, invalid_transition, lock_timeout}
use architect.TaskGraph.Dag.Ready.{IsWired}
use architect.TaskGraph.Lock.{Redis, acquire, get_completed, try_claim_task}
use architect.TaskGraph.Transitions.{is_valid_transition, started_task}
use architect.TaskGraph.Scheduler.{
  Event, State, schedule_next, claim_next, schedule_and_claim, M, with_redis_lock, release,
}
use architect.TaskGraph.Scheduler.Lifecycle.{get_task-eq-ok}
use architect.TaskGraph.Scheduler.Outcome.{
  mark_running_done, mark_running_refused, Result-cases, after_running,
}

module _ (nx : DiGraph) (rd : Redis) (deliver : Event → Bool) where
  open nx use {Graph, add_node, nodes, node_task, node_task-add_node, nodes-add_node}

  -- The object with the completed set of the lock taken over, and after a try for a task's claim.
  abbrev pub synced : State nx rd deliver → State nx rd deliver
  synced s = record s { completed_ids = update_set (get_completed rd s.lock) s.completed_ids }

  abbrev pub tried : State nx rd deliver → TaskId → State nx rd deliver
  tried s n = record (synced s) { lock = (try_claim_task rd s.lock n).1 }

  abbrev pub ready_ids : State nx rd deliver → List TaskId
  ready_ids s = get_ready_tasks nx s.dag (synced s).completed_ids

  -- The ways in which `claim_next` can end.
  pub data ClaimOutcome (s : State nx rd deliver) (now : Time) (a : AgentId)
      (out : Result Error (Option Task) × State nx rd deliver) : Type 0 where
    idle : ready_ids s ≡ [] → out ≡ (ok none, synced s) → ClaimOutcome s now a out
    broken :
        (n : TaskId) (rest : List TaskId) (e : Error)
        → ready_ids s ≡ n ∷ rest
        → get_task nx s.dag n ≡ err e
        → out ≡ (err e, synced s)
        → ClaimOutcome s now a out
    lost :
        (n : TaskId) (rest : List TaskId) (t : Task)
        → ready_ids s ≡ n ∷ rest
        → get_task nx s.dag n ≡ ok t
        → (try_claim_task rd s.lock n).0 ≡ false
        → out ≡ (ok none, tried s n)
        → ClaimOutcome s now a out
    not_pending :
        (n : TaskId) (rest : List TaskId) (t : Task)
        → ready_ids s ≡ n ∷ rest
        → get_task nx s.dag n ≡ ok t
        → (try_claim_task rd s.lock n).0 ≡ true
        → is_valid_transition t.status running ≡ false
        → out ≡ (err (invalid_transition t.id t.status running), tried s n)
        → ClaimOutcome s now a out
    claimed :
        (n : TaskId) (rest : List TaskId) (t : Task)
        → ready_ids s ≡ n ∷ rest
        → get_task nx s.dag n ≡ ok t
        → (try_claim_task rd s.lock n).0 ≡ true
        → is_valid_transition t.status running ≡ true
        → out
          ≡ (ok (some (started_task now a t)), after_running nx rd deliver now n a (tried s n) t)
        → ClaimOutcome s now a out

  pub get_task_known :
      (g : Graph) (n : TaskId) (t t' : Task)
      → get_task nx g n ≡ ok t
      → get_task nx (add_node g n t') n ≡ ok t'
  unfolding get_task
  get_task_known g n t t' h =
      let (here, stored) = get_task-eq-ok nx g n t h in
      ground (arith, here, nodes-add_node g n t', node_task-add_node g n t' n)

  pub claim_next-ClaimOutcome :
      (now : Time) (a : AgentId) (s : State nx rd deliver)
      → IsWired nx s.dag
      → ClaimOutcome s now a (claim_next nx rd deliver now a s)
  unfolding claim_next schedule_next
  claim_next-ClaimOutcome now a s wired = elim (List-cases (ready_ids s)) [
    | inl e ↦ idle e (ground arith)
    | inr (n, rest, e) ↦ elim (Result-cases (get_task nx s.dag n)) [
      | inl (x, h) ↦ broken n rest x e h (ground arith)
      | inr (t, h) ↦
          let same : t.id ≡ n = wired.task_id n t (get_task-eq-ok nx s.dag n t h).1 in
          elim (Bool-cases (try_claim_task rd s.lock n).0) [
            | inr taken ↦ lost n rest t e h taken (ground arith)
            | inl got ↦ elim (Bool-cases (is_valid_transition t.status running)) [
              | inr v ↦
                  not_pending n rest t e h got v
                    (ground (arith, mark_running_refused nx rd deliver now n a (tried s n) t h v))
              | inl v ↦ claimed n rest t e h got v (
                  ground (
                    arith,
                    mark_running_done nx rd deliver now n a (tried s n) t h v,
                    get_task_known s.dag n t (started_task now a t) h,
                  ))
            ]
          ]
    ]
  ]

  pub schedule_and_claim_local :
      (polls : ℕ) (wait : rd.Store → rd.Store) (now : Time) (a : AgentId) (s : State nx rd deliver)
      → s.lock.redis ≡ none
      → schedule_and_claim nx rd deliver polls wait now a s ≡ claim_next nx rd deliver now a s
  unfolding schedule_and_claim
  schedule_and_claim_local polls wait now a s e = ground arith

  pub schedule_and_claim_remote :
      (polls : ℕ) (wait : rd.Store → rd.Store) (now : Time) (a : AgentId) (s : State nx rd deliver)
      {r : rd.Store}
      → s.lock.redis ≡ some r
      → schedule_and_claim nx rd deliver polls wait now a s
        ≡ with_redis_lock nx rd deliver (claim_next nx rd deliver now a) (acquire rd polls wait r) s
  unfolding schedule_and_claim
  schedule_and_claim_remote polls wait now a s e = ground arith

  pub release-dag : (s : State nx rd deliver) → (release nx rd deliver s).dag ≡ s.dag
  release-dag s = ground arith

  -- The object inside the lock, with the store that `SET NX` left.
  abbrev pub inside : State nx rd deliver → rd.Store → State nx rd deliver
  inside s r = record s {
    lock = record { redis = some r; local_completed = s.lock.local_completed };
  }

  pub with_redis_lock_cases :
      (body : M nx rd deliver (Option Task)) (got : Bool × rd.Store) (s : State nx rd deliver)
      → (with_redis_lock nx rd deliver body got s ≡ (err lock_timeout, inside s got.1))
        ⊎ ((with_redis_lock nx rd deliver body got s)
            ≡ ((body (inside s got.1)).0, release nx rd deliver (body (inside s got.1)).1))
  with_redis_lock_cases body (true, r) s = inr refl
  with_redis_lock_cases body (false, r) s = inl refl
