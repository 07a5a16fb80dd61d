-- ===== src/TaskGraph/Scheduler/Contention.antt =====
-- Two claims in a row (scheduler.py) by one process.
use architect.Common.{
  ℕ, ◌≡◌, refl, sym, ap, ◌∙◌, Bool, true, Option, none, some, List, ◌∷◌, arith, filter,
  filter-congr, update_set, update_set_idem, fun_ext,
}
use architect.Common.Result.{Result, ok, err}
use architect.TaskGraph.Models.{TaskId, AgentId, Time, running, Task}
use architect.TaskGraph.DiGraph.{DiGraph}
use architect.TaskGraph.Dag.{
  Error, get_task, get_ready_tasks, priority_of, is_ready, invalid_transition,
}
use architect.TaskGraph.Dag.Ready.{IsWired}
use architect.TaskGraph.Lock.{Redis, Lock, try_claim_task, get_completed}
use architect.TaskGraph.Transitions.{is_valid_transition, started_task}
use architect.TaskGraph.Scheduler.{Event, State, claim_next, schedule_and_claim}
use architect.TaskGraph.Scheduler.Lifecycle.{get_task-eq-ok}
use architect.TaskGraph.Scheduler.Outcome.{after_running}
use architect.TaskGraph.Scheduler.Claim.{
  ClaimOutcome, idle, broken, lost, not_pending, claimed, claim_next-ClaimOutcome, get_task_known,
  schedule_and_claim_local, tried, ready_ids,
}

module _ (nx : DiGraph) where
  open nx use {
    Graph, add_node, nodes, node_task, predecessors, nodes-add_node, predecessors-add_node,
    node_task-add_node,
  }

  -- A new version of a task with the same priority changes nothing about who is ready.
  get_ready_tasks-add_node :
      (g : Graph) (n : TaskId) (t t' : Task) (c : List TaskId)
      → get_task nx g n ≡ ok t
      → t'.priority ≡ t.priority
      → get_ready_tasks nx (add_node g n t') c ≡ get_ready_tasks nx g c
  unfolding get_ready_tasks
  get_ready_tasks-add_node g n t t' c found same =
      let (present, stored) = get_task-eq-ok nx g n t found in
      let nodes_same : nodes (add_node g n t') ≡ nodes g = ground (arith, nodes-add_node g n t') in
      let keys_same : priority_of nx (add_node g n t') ≡ priority_of nx g =
        fun_ext (λ m. ground (arith, node_task-add_node g n t' m)) in
      let tests_same : filter (is_ready nx (add_node g n t') c) (nodes g)
          ≡ filter (is_ready nx g c) (nodes g) =
        filter-congr (is_ready nx (add_node g n t') c) (is_ready nx g c) (nodes g)
          (λ m known. ground (arith, predecessors-add_node g n t' m known)) in
      cc (nodes_same, keys_same, tests_same)

module _ (nx : DiGraph) (rd : Redis) (deliver : Event → Bool) where
  open nx use {Graph, add_node, node_task, node_task-add_node}

  try_claim_local :
      (lk : Lock rd.Store) (n : TaskId) → lk.redis ≡ none → try_claim_task rd lk n ≡ (true, lk)
  unfolding try_claim_task
  try_claim_local lk n e = ground arith

  head_eq : (n m : TaskId) (xs ys : List TaskId) → (n ∷ xs) ≡ (m ∷ ys) → n ≡ m
  head_eq n m xs ys e = cc

  ok_eq : (a b : Task) → ◌≡◌ {A = Result Error Task} (ok a) (ok b) → a ≡ b
  ok_eq a b e = cc

  -- Where the first ready task is RUNNING and nobody else can hold its claim, a claim raises.
  claim_next_running :
      (s : State nx rd deliver) (now : Time) (a : AgentId) (n : TaskId) (rest : List TaskId)
      (t : Task) (out : Result Error (Option Task) × State nx rd deliver)
      → s.lock.redis ≡ none
      → ready_ids nx rd deliver s ≡ n ∷ rest
      → get_task nx s.dag n ≡ ok t
      → t.status ≡ running
      → ClaimOutcome nx rd deliver s now a out
      → out.0 ≡ err (invalid_transition t.id running running)
  unfolding is_valid_transition
  claim_next_running s now a n rest t out local e f r (idle e' o) = absurd (cc (e, e'))
  claim_next_running s now a n rest t out local e f r (broken m rest' x e' f' o) =
      let same = head_eq n m rest rest' (sym e ∙ e') in absurd (cc (ap (get_task nx s.dag) same))
  claim_next_running s now a n rest t out local e f r (lost m rest' b e' f' c o) =
      absurd (cc (try_claim_local s.lock m local))
  claim_next_running s now a n rest t out local e f r (claimed m rest' b e' f' c v o) =
      let same = head_eq n m rest rest' (sym e ∙ e') in
      let b_is : b ≡ t = ok_eq b t (sym f' ∙ ap (get_task nx s.dag) (sym same) ∙ f) in
      absurd (ground (arith, ap (λ (x : Task). x.status) b_is))
  claim_next_running s now a n rest t out local e f r (not_pending m rest' b e' f' c v o) =
      let same = head_eq n m rest rest' (sym e ∙ e') in
      let b_is : b ≡ t = ok_eq b t (sym f' ∙ ap (get_task nx s.dag) (sym same) ∙ f) in
      ap (λ (x : Result Error (Option Task) × State nx rd deliver). x.0) o
      ∙ cc (ap (λ (x : Task). x.status) b_is, ap (λ (x : Task). x.id) b_is)

  ready_after_claim :
      (s : State nx rd deliver) (now : Time) (a : AgentId) (n : TaskId) (rest : List TaskId)
      (t : Task)
      → s.lock.redis ≡ none
      → ready_ids nx rd deliver s ≡ n ∷ rest
      → get_task nx s.dag n ≡ ok t
      → ready_ids nx rd deliver (after_running nx rd deliver now n a (tried nx rd deliver s n) t)
        ≡ n ∷ rest
  ready_after_claim s now a n rest t local e f =
      let c = update_set (get_completed rd s.lock) s.completed_ids in
      let graph =
        get_ready_tasks-add_node nx s.dag n t (started_task now a t) c f (priority_kept now a t) in
      ground (
        arith,
        e,
        graph,
        try_claim_local s.lock n local,
        update_set_idem (get_completed rd s.lock) s.completed_ids,
      )
    where
      priority_kept :
          (now : Time) (a : AgentId) (t : Task) → (started_task now a t).priority ≡ t.priority
      priority_kept now a t = unfold started_task in refl

  -- The object that a successful claim leaves refuses the next claim.
  after_claim_raises :
      (s : State nx rd deliver) (now now' : Time) (a a' : AgentId) (n : TaskId) (rest : List TaskId)
      (t : Task)
      → IsWired nx s.dag
      → s.lock.redis ≡ none
      → ready_ids nx rd deliver s ≡ n ∷ rest
      → get_task nx s.dag n ≡ ok t
      → (claim_next nx rd deliver now' a'
          (after_running nx rd deliver now n a (tried nx rd deliver s n) t)).0
        ≡ err (invalid_transition t.id running running)
  unfolding started_task
  after_claim_raises s now now' a a' n rest t w local e f =
      let t' = started_task now a t in
      let s' = after_running nx rd deliver now n a (tried nx rd deliver s n) t in
      let same : t.id ≡ n = w.task_id n t (get_task-eq-ok nx s.dag n t f).1 in
      let graph : s'.dag ≡ add_node s.dag n t' = ground arith in
      let wired : IsWired nx s'.dag = rw graph (record {
        task_id = λ m x h. ground (arith, node_task-add_node s.dag n t' m, w.task_id m x);
      }) in
      claim_next_running s' now' a' n rest t' (claim_next nx rd deliver now' a' s')
        (ground (arith, try_claim_local s.lock n local))
        (ready_after_claim s now a n rest t local e f)
        (rw graph (get_task_known nx rd deliver s.dag n t t' f)) refl
        (claim_next-ClaimOutcome nx rd deliver now' a' s' wired)

  claims_twice :
      (s : State nx rd deliver) (now now' : Time) (a a' : AgentId) (t : Task)
      (out : Result Error (Option Task) × State nx rd deliver)
      → IsWired nx s.dag
      → s.lock.redis ≡ none
      → ClaimOutcome nx rd deliver s now a out
      → out.0 ≡ ok (some t)
      → (claim_next nx rd deliver now' a' out.1).0 ≡ err (invalid_transition t.id running running)
  unfolding started_task
  claims_twice s now now' a a' t out w local (idle e o) h = absurd (cc)
  claims_twice s now now' a a' t out w local (broken n rest x e f o) h = absurd (cc)
  claims_twice s now now' a a' t out w local (lost n rest b e f c o) h = absurd (cc)
  claims_twice s now now' a a' t out w local (not_pending n rest b e f c v o) h = absurd (cc)
  claims_twice s now now' a a' t out w local (claimed n rest b e f c v o) h =
      let result : ok (some (started_task now a b)) ≡ ok (some t) =
        sym (ap (λ (x : Result Error (Option Task) × State nx rd deliver). x.0) o) ∙ h in
      let named : b.id ≡ t.id = cc in
      rw (ap (λ (x : Result Error (Option Task) × State nx rd deliver). x.1) o) (
        after_claim_raises s now now' a a' n rest b w local e f
        ∙ ap (λ i. err (invalid_transition i running running)) named)

  -- A claim without Redis stays without Redis.
  pub claim_next-local :
      (s : State nx rd deliver) (now : Time) (a : AgentId)
      (out : Result Error (Option Task) × State nx rd deliver)
      → s.lock.redis ≡ none
      → ClaimOutcome nx rd deliver s now a out
      → out.1.lock.redis ≡ none
  claim_next-local s now a out local (idle e o) = rw o local
  claim_next-local s now a out local (broken n rest x e f o) = rw o local
  claim_next-local s now a out local (lost n rest b e f c o) =
      rw o (ground (arith, try_claim_local s.lock n local))
  claim_next-local s now a out local (not_pending n rest b e f c v o) =
      rw o (ground (arith, try_claim_local s.lock n local))
  claim_next-local s now a out local (claimed n rest b e f c v o) =
      rw o (ground (arith, try_claim_local s.lock n local))

  -- Without Redis and with every task under its own id, once a claim has returned a task, the next claim raises `InvalidTransitionError`
  -- for that same task, whichever other tasks are ready: it comes first until it is completed.
  pub schedule_and_claim_twice :
      (polls : ℕ) (wait : rd.Store → rd.Store) (now now' : Time) (a a' : AgentId)
      (s : State nx rd deliver) (t : Task)
      → IsWired nx s.dag
      → s.lock.redis ≡ none
      → (schedule_and_claim nx rd deliver polls wait now a s).0 ≡ ok (some t)
      → (schedule_and_claim nx rd deliver polls wait now' a'
          (schedule_and_claim nx rd deliver polls wait now a s).1).0
        ≡ err (invalid_transition t.id running running)
  schedule_and_claim_twice polls wait now now' a a' s t w local h =
      let first = schedule_and_claim_local nx rd deliver polls wait now a s local in
      let outcome = claim_next-ClaimOutcome nx rd deliver now a s w in
      let claim : (claim_next nx rd deliver now a s).0 ≡ ok (some t) = rw first at h in
      let s' = (claim_next nx rd deliver now a s).1 in
      let still_local : s'.lock.redis ≡ none = claim_next-local s now a _ local outcome in
      rw (first, schedule_and_claim_local nx rd deliver polls wait now' a' s' still_local)
        (claims_twice s now now' a a' t (claim_next nx rd deliver now a s) w local outcome claim)
