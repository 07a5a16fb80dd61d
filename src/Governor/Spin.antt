-- ===== src/Governor/Spin.antt =====
-- `SpinDetector`, services/economic-governor/src/economic_governor/spin_detector.py. Its state is an
-- ordered dict, the oldest entry first.
pub mod Counts
use architect.Common.{
  ℕ, ◌+◌, Bool, true, false, not, ◌&&◌, Option, none, some, List, [], ◌∷◌, ◌++◌, ◌==◌, ltb, leb,
  length, if◌then◌else◌,
}
use architect.TaskGraph.Models.{AgentId, TaskId}

-- `_MAX_TRACKED`
abbrev pub max_tracked : ℕ
max_tracked = 10_000

-- What is known of an agent on a task: retries and tokens since the last diff.
pub record Entry : Type 0 where
  pub agent_id : AgentId
  pub task_id : TaskId
  pub retry_count : ℕ
  pub tokens : ℕ

pub record SpinDetection : Type 0 where
  pub agent_id : AgentId
  pub task_id : TaskId
  pub is_spinning : Bool
  pub retry_count : ℕ
  pub tokens_since_last_diff : ℕ

abbrev pub has_key : AgentId → TaskId → Entry → Bool
has_key a t e = (e.agent_id == a) && (e.task_id == t)

-- `self._state.get(key, (0, 0))`
unfoldable pub tracked : AgentId → TaskId → List Entry → ℕ × ℕ
tracked a t [] = (0, 0)
tracked a t (e ∷ d) =
    let rest = tracked a t d in if has_key a t e then (e.retry_count, e.tokens) else rest

-- `self._state.pop(key, None)`
unfoldable pub pop : AgentId → TaskId → List Entry → List Entry
pop a t [] = []
pop a t (e ∷ d) = let rest = pop a t d in if has_key a t e then rest else e ∷ rest

-- An assignment and `move_to_end`.
abbrev pub set_last : Entry → List Entry → List Entry
set_last e d = pop e.agent_id e.task_id d ++ e ∷ []

-- The loop that drops the oldest entries.
unfoldable pub evict : List Entry → List Entry
evict [] = []
evict (e ∷ d) = let rest = evict d in if ltb max_tracked (length (e ∷ d)) then rest else e ∷ d

abbrev pub next_entry : AgentId → TaskId → ℕ → ℕ × ℕ → Entry
next_entry a t tokens (count, spent) = record {
  agent_id = a;
  task_id = t;
  retry_count = count + 1;
  tokens = spent + tokens;
}

abbrev detection : ℕ → Entry → SpinDetection
detection max_retries e = record {
  agent_id = e.agent_id;
  task_id = e.task_id;
  is_spinning = leb max_retries e.retry_count;
  retry_count = e.retry_count;
  tokens_since_last_diff = e.tokens;
}

abbrev progress : AgentId → TaskId → SpinDetection
progress a t = record {
  agent_id = a;
  task_id = t;
  is_spinning = false;
  retry_count = 0;
  tokens_since_last_diff = 0;
}

unfoldable pub record_retry :
    ℕ → AgentId → TaskId → Bool → ℕ → List Entry → SpinDetection × List Entry
record_retry max_retries a t has_diff tokens d =
    let e = next_entry a t tokens (tracked a t d) in
    if has_diff then (progress a t, pop a t d) else (detection max_retries e, evict (set_last e d))

-- `reset`
unfoldable pub reset_agent : AgentId → List Entry → List Entry
reset_agent a [] = []
reset_agent a (e ∷ d) = let rest = reset_agent a d in if e.agent_id == a then rest else e ∷ rest
