-- ===== src/TaskGraph/Repo.antt =====
-- `TaskRepository`, libs/architect-db/src/architect_db/repositories/task_repo.py, with `list_all` of
-- repositories/base.py. The table is its list of rows; an SQL statement is its effect on that list.
use architect.Common.{
  ℕ, ◌-◌, ◌≡◌, All, length, Bool, true, false, Option, none, some, List, [], ◌∷◌, ◌==◌,
  if◌then◌else◌, ltb,
}
use architect.Common.Text.{Text}
use architect.TaskGraph.Models.{
  TaskId, AgentId, Time, TaskType, AgentType, ModelTier, StatusEnum, EvalVerdict, TaskBudget,
  running, completed, failed, cancelled,
}

-- A row of `tasks`, libs/architect-db/src/architect_db/models/task.py, by the columns read here.
pub record TaskRow : Type 0 where
  pub id : TaskId
  pub type : TaskType
  pub agent_type : Option AgentType
  pub model_tier : Option ModelTier
  pub status : StatusEnum
  pub priority : ℕ
  pub dependencies : Option (List TaskId)
  pub dependents : Option (List TaskId)
  pub budget : Option TaskBudget
  pub assigned_agent : Option AgentId
  pub current_attempt : ℕ
  pub verdict : Option EvalVerdict
  pub error_message : Option Text
  pub created_at : Time
  pub started_at : Option Time
  pub completed_at : Option Time

abbrev pub max_limit : ℕ
max_limit = 1000

-- What LIMIT and OFFSET promise of a SELECT without ORDER BY: rows of the table, as many as there are
-- behind the offset up to the limit. In which order is the database's own choice at each query, so
-- that two pages may share rows or miss some.
pub record Database : Type 1 where
  pub page : (limit offset : ℕ) → List TaskRow → List TaskRow
  pub length-page :
      (limit offset : ℕ) (table : List TaskRow)
      → length (page limit offset table)
        ≡ (if ltb limit (length table - offset) then limit else length table - offset)
  pub page-All :
      (P : TaskRow → Type 0) (limit offset : ℕ) (table : List TaskRow)
      → All P table
      → All P (page limit offset table)

-- `list_all(limit=..., offset=...)`; the limit is capped.
unfoldable pub list_all : Database → List TaskRow → ℕ → ℕ → List TaskRow
list_all db table limit offset =
    db.page (if ltb max_limit limit then max_limit else limit) offset table

-- `_TERMINAL_STATUSES`
abbrev pub is_terminal : StatusEnum → Bool
is_terminal completed = true
is_terminal failed = true
is_terminal cancelled = true
is_terminal _ = false

-- The assignments of one UPDATE.
abbrev pub with_error : Option Text → TaskRow → TaskRow
with_error none row = row
with_error (some message) row = record row { error_message = some message }

abbrev pub with_times : StatusEnum → Time → TaskRow → TaskRow
with_times running now row = record row { started_at = some now }
with_times status now row =
    if is_terminal status then record row { completed_at = some now } else row

unfoldable pub update_status :
    List TaskRow → TaskId → StatusEnum → Option Text → Time → List TaskRow
update_status [] task_id status error_message now = []
update_status (row ∷ table) task_id status error_message now =
    (if row.id == task_id
      then with_times status now (with_error error_message (record row { status = status }))
      else row)
    ∷ update_status table task_id status error_message now
