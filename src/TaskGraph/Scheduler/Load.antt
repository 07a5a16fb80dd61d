-- ===== src/TaskGraph/Scheduler/Load.antt =====
-- `TaskScheduler.load_from_db` (scheduler.py): the graph and the completed set after a restart.
use architect.Common.{
  ℕ, zero, suc, ◌+◌, Bool, true, false, Option, none, some, List, [], ◌∷◌, ◌++◌, map, length, ltb,
  if◌then◌else◌,
}
use architect.Common.Result.{ok}
use architect.TaskGraph.Models.{TaskId, Task, coder, tier_2, completed, default_budget, status_eq}
use architect.TaskGraph.DiGraph.{DiGraph}
use architect.TaskGraph.Dag.{from_tasks}
use architect.TaskGraph.Lock
use architect.TaskGraph.Lock.{Redis, Lock}
use architect.TaskGraph.Repo.{TaskRow, Database, list_all}
use architect.TaskGraph.Scheduler.{Event, State, M}

abbrev or_default : {A : Type 0} → Option A → A → A
or_default none d = d
or_default (some a) d = a

-- The domain model of a row. What a row does not carry takes its default, the retry history too.
unfoldable pub domain_task : TaskRow → Task
domain_task row = record {
  id = row.id;
  type = row.type;
  agent_type = or_default row.agent_type coder;
  model_tier = or_default row.model_tier tier_2;
  dependencies = or_default row.dependencies [];
  dependents = or_default row.dependents [];
  inputs = [];
  outputs = [];
  budget = or_default row.budget default_budget;
  status = row.status;
  assigned_agent = row.assigned_agent;
  priority = row.priority;
  timestamps = record {
    created_at = row.created_at;
    started_at = row.started_at;
    completed_at = row.completed_at;
  };
  current_attempt = row.current_attempt;
  retry_history = [];
  verdict = row.verdict;
  error_message = row.error_message;
  description = [];
}

abbrev pub is_empty : List TaskRow → Bool
is_empty [] = true
is_empty (r ∷ rs) = false

-- The pages that the loop collects from `offset` on, for fuel that bounds the number of rounds.
unfoldable pub load_pages : Database → ℕ → ℕ → ℕ → List TaskRow → List TaskRow
load_pages db zero batch_size offset table = []
load_pages db (suc fuel) batch_size offset table =
    let batch = list_all db table batch_size offset in
    let more = batch ++ load_pages db fuel batch_size (offset + batch_size) table in
    if is_empty batch then [] else if ltb (length batch) batch_size then batch else more

-- `{t.id for t in domain_tasks if t.status == COMPLETED}`
abbrev pub completed_of : List Task → List TaskId
completed_of [] = []
completed_of (t ∷ ts) =
    if status_eq t.status completed then t.id ∷ completed_of ts else completed_of ts

module _ (nx : DiGraph) (rd : Redis) (deliver : Event → Bool) where
  -- The loop that tells the lock of each completed task.
  abbrev pub mark_all : List TaskId → Lock rd.Store → Lock rd.Store
  mark_all [] lk = lk
  mark_all (n ∷ ns) lk = mark_all ns (Lock.mark_completed rd lk n)

  abbrev pub rebuilt : List Task → State nx rd deliver → State nx rd deliver
  rebuilt tasks s = record s {
    dag = from_tasks nx tasks;
    completed_ids = completed_of tasks;
    lock = mark_all (completed_of tasks) s.lock;
  }

  abbrev pub load_rows : List TaskRow → M nx rd deliver ℕ
  load_rows [] s = (ok 0, s)
  load_rows (r ∷ rs) s =
      let tasks = map domain_task (r ∷ rs) in (ok (length tasks), rebuilt tasks s)

  -- One round more than the table has rows is enough, since each but the last takes a row.
  unfoldable pub load_from_db : Database → M nx rd deliver ℕ
  load_from_db db s = load_rows (load_pages db (suc (length s.table)) 1000 0 s.table) s
