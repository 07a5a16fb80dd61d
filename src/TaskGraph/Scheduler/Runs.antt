-- ===== src/TaskGraph/Scheduler/Runs.antt =====
-- Runs of a scheduler (scheduler.py): any sequence of calls, between which other instances may
-- change the Redis store. What a run keeps of the graph and of each task in it.
use architect.Common.{
  ◌≡◌, refl, sym, ◌∙◌, ap, ◌⊎◌, inl, inr, subst, Bool, true, some, arith, ◌==◌, Bool-cases, ==_iff,
}
use architect.TaskGraph.Models.{TaskId, Task, completed}
use architect.TaskGraph.DiGraph.{DiGraph}
use architect.TaskGraph.Dag.{has_node}
use architect.TaskGraph.Lock.{Redis}
use architect.TaskGraph.Scheduler.{Event, State}
use architect.TaskGraph.Scheduler.Lifecycle.{
  Lifecycle, start, finish, fail, retry, Moves, Stored, get_task-eq-ok,
}
use architect.TaskGraph.Dag.Ready.{IsAcyclic, IsWired, AllTasks}
use architect.TaskGraph.Scheduler.Refines.{Call, perform, perform-Moves}

pub Lifecycle-id : (t t' : Task) → Lifecycle t t' → t'.id ≡ t.id
Lifecycle-id t t' (start same _ _ _ _) = same.same_id
Lifecycle-id t t' (finish same _ _ _ _) = same.same_id
Lifecycle-id t t' (fail same _ _ _ _) = same.same_id
Lifecycle-id t t' (retry same _ _ _ _ _) = same.same_id

-- Nothing leaves the status COMPLETED.
completed_stays : (t t' : Task) → Lifecycle t t' → ¬ (t.status ≡ completed)
completed_stays t t' (start _ p _ _ _) h = cc
completed_stays t t' (finish _ p _ _ _) h = cc
completed_stays t t' (fail _ p _ _ _) h = cc
completed_stays t t' (retry _ p _ _ _ _) h = cc

module _ (nx : DiGraph) (rd : Redis) (deliver : Event → Bool) where
  open nx use {
    Graph, add_node, nodes, node_task, predecessors, nodes-add_node, node_task-add_node,
    predecessors-add_node,
  }

  pub data Run (s : State nx rd deliver) : State nx rd deliver → Type 0 where
    rest : Run s s
    call :
        {t : State nx rd deliver}
        → Run s t
        → (c : Call nx rd deliver) → Run s (perform nx rd deliver c t)
    others :
        {t : State nx rd deliver} {r : rd.Store}
        → Run s t
        → t.lock.redis ≡ some r
        → (r' : rd.Store)
        → Run s (record t {
          lock = record { redis = some r'; local_completed = t.lock.local_completed };
        })

  -- A node of the graph after one stored step.
  Stored-node :
      (g g' : Graph) (m : Stored nx g g') (n : TaskId)
      → (node_task g' n ≡ node_task g n)
        ⊎ ((t : Task) × (t' : Task) × (node_task g n ≡ some t)
            × (node_task g' n ≡ some t')
            × Lifecycle t t')
  Stored-node g g' m n = elim (Bool-cases (m.task_id == n)) [
    | inl this ↦
        let same : m.task_id ≡ n = (==_iff m.task_id n).0 this in
        inr (
          m.before,
          m.after,
          rw (← same) (get_task-eq-ok nx g m.task_id m.before m.found).1,
          rw m.result (ground (arith, node_task-add_node g m.task_id m.after n)),
          m.step,
        )
    | inr other ↦ inl (rw m.result (ground (arith, node_task-add_node g m.task_id m.after n)))
  ]

  Stored-nodes : (g g' : Graph) → Stored nx g g' → nodes g' ≡ nodes g
  Stored-nodes g g' m =
      let (known, _) = get_task-eq-ok nx g m.task_id m.before m.found in
      rw m.result (ground (arith, nodes-add_node g m.task_id m.after))

  Stored-predecessors :
      (g g' : Graph)
      → Stored nx g g'
      → (n : TaskId) → has_node nx g n ≡ true
      → predecessors g' n ≡ predecessors g n
  Stored-predecessors g g' m n here = rw m.result (predecessors-add_node g m.task_id m.after n here)

  -- A property of tasks that every step of the lifecycle keeps.
  abbrev pub Kept : (Task → Type 0) → Type 0
  Kept P = (t t' : Task) → Lifecycle t t' → P t → P t'

  some_eq : {A : Type 0} (a b : A) → some a ≡ some b → a ≡ b
  some_eq a b e = cc

  Stored-AllTasks :
      (P : Task → Type 0)
      → Kept P
      → (g g' : Graph) → Stored nx g g'
      → AllTasks nx P g
      → AllTasks nx P g'
  Stored-AllTasks P keep g g' m all = record {
    at = λ n t here. elim (Stored-node g g' m n) [
      | inl same ↦ all.at n t (sym same ∙ here)
      | inr (b, a, before, after, step) ↦
          subst P (some_eq a t (sym after ∙ here)) (keep b a step (all.at n b before))
    ];
  }

  Stored-IsWired : (g g' : Graph) → Stored nx g g' → IsWired nx g → IsWired nx g'
  Stored-IsWired g g' m w = record {
    task_id = λ n t here. elim (Stored-node g g' m n) [
      | inl same ↦ w.task_id n t (sym same ∙ here)
      | inr (b, a, before, after, step) ↦
          let same : a ≡ t = some_eq a t (sym after ∙ here) in
          ap (λ (x : Task). x.id) (sym same) ∙ Lifecycle-id b a step ∙ w.task_id n b before
    ];
  }

  pub Moves-IsWired : (g g' : Graph) → Moves nx g g' → IsWired nx g → IsWired nx g'
  Moves-IsWired g g' (inl same) w = rw same w
  Moves-IsWired g g' (inr m) w = Stored-IsWired g g' m w

  -- What holds of the graph at the start of a run, and is kept by a stored step, holds at its end.
  pub run_ind :
      (Q : Graph → Type 0)
      → ((g g' : Graph) → Stored nx g g' → Q g → Q g')
      → {s t : State nx rd deliver} → IsWired nx s.dag
      → Q s.dag
      → Run s t
      → IsWired nx t.dag × Q t.dag
  run_ind Q keep w q rest = (w, q)
  run_ind Q keep w q (others run e r) = run_ind Q keep w q run
  run_ind Q keep w q (call {t = t} run c) =
      let (w', q') = run_ind Q keep w q run in
      elim (perform-Moves nx rd deliver c t w') [
        | inl same ↦ (rw same w', rw same q')
        | inr m ↦ (
          Stored-IsWired t.dag (perform nx rd deliver c t).dag m w',
          keep t.dag (perform nx rd deliver c t).dag m q',
        )
      ]

  pub Run-AllTasks :
      (P : Task → Type 0)
      → Kept P
      → {s t : State nx rd deliver} → IsWired nx s.dag
      → AllTasks nx P s.dag
      → Run s t
      → AllTasks nx P t.dag
  Run-AllTasks P keep w all run = (run_ind (AllTasks nx P) (Stored-AllTasks P keep) w all run).1

  -- In a graph that stores every task under its own id, a completed task is never changed again,
  -- whatever the calls and the other instances do.
  pub Run-completed :
      {s t : State nx rd deliver} (n : TaskId) (x : Task)
      → IsWired nx s.dag
      → node_task s.dag n ≡ some x
      → x.status ≡ completed
      → Run s t
      → node_task t.dag n ≡ some x
  Run-completed n x w here is_completed run =
      (run_ind (λ g. node_task g n ≡ some x)
        (λ g g' m e. elim (Stored-node g g' m n) [
          | inl same ↦ same ∙ e
          | inr (b, a, before, after, step) ↦
              absurd (completed_stays b a step (rw (some_eq b x (sym before ∙ e)) is_completed))
        ])
        w here run).1

  -- A run adds no task and no dependency, so the graph stays acyclic.
  pub Run-IsAcyclic :
      {s t : State nx rd deliver}
      → IsWired nx s.dag
      → IsAcyclic nx s.dag
      → Run s t
      → IsAcyclic nx t.dag × (nodes t.dag ≡ nodes s.dag)
  Run-IsAcyclic {s} w acyclic run =
      (run_ind (λ g. IsAcyclic nx g × (nodes g ≡ nodes s.dag))
        (λ g g' m q.
          let same = Stored-nodes g g' m in
          (
            record {
              rank = q.0.rank;
              rank-lt = λ u n here edge.
                  let old : has_node nx g n ≡ true = rw same at here in
                  q.0.rank-lt u n old (rw (Stored-predecessors g g' m n old) at edge);
              present = λ u n here edge.
                  let old : has_node nx g n ≡ true = rw same at here in
                  rw same (q.0.present u n old (rw (Stored-predecessors g g' m n old) at edge));
            },
            same ∙ q.1,
          ))
        w (acyclic, refl) run).1
