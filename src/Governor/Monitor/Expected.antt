-- ===== src/Governor/Monitor/Expected.antt =====
-- What the governor (monitor.py, budget_tracker.py, enforcer.py) is to publish, by the calls alone.
use architect.Common.{ℕ, ◌+◌, Bool, true, false, ◌||◌, List, [], ◌∷◌, ◌++◌, ltb, leb, if◌then◌else◌}
use architect.TaskGraph.Models.{AgentId, TaskId}
use architect.Governor.Spin.Counts.{Retry, since_last_diff}
use architect.Governor.Monitor.{
  EnforcementLevel, no_level, alert, restrict, halt, Config, Event, budget_threshold_alert,
  budget_tier_downgrade, budget_task_paused, budget_halt, spin_detected, pct_of,
  compute_enforcement_level, Call, agent_completed, routing_decision, task_failed, polled,
}

-- The tokens consumed, and the retries reported.
unfoldable pub total : List Call → ℕ
total [] = 0
total (agent_completed tokens ∷ cs) = total cs + tokens
total (routing_decision i o has_cost ∷ cs) = total cs + (i + o)
total (task_failed a t has_diff tokens ∷ cs) = total cs
total (polled ∷ cs) = total cs

unfoldable pub retries : List Call → List Retry
retries [] = []
retries (agent_completed tokens ∷ cs) = retries cs
retries (routing_decision i o has_cost ∷ cs) = retries cs
retries (task_failed a t has_diff tokens ∷ cs) =
    record { agent_id = a; task_id = t; has_diff = has_diff; tokens = tokens } ∷ retries cs
retries (polled ∷ cs) = retries cs

module _ (cfg : Config) where
  -- The events at a level, when so much is consumed.
  abbrev pub at_level : EnforcementLevel → ℕ → List Event
  at_level no_level consumed = []
  at_level alert consumed = budget_threshold_alert (pct_of cfg consumed) consumed ∷ []
  at_level restrict consumed =
      budget_task_paused (pct_of cfg consumed)
      ∷ budget_tier_downgrade cfg.restrict_max_tier (pct_of cfg consumed)
      ∷ []
  at_level halt consumed = budget_halt (pct_of cfg consumed) consumed ∷ []

  abbrev pub on_spin : AgentId → TaskId → Bool → ℕ × ℕ → List Event
  on_spin a t true spent = []
  on_spin a t false (count, tokens) =
      if leb cfg.max_retries count
      then spin_detected (record {
        agent_id = a;
        task_id = t;
        is_spinning = true;
        retry_count = count;
        tokens_since_last_diff = tokens;
      })
        ∷ []
      else []

  -- Every event that reports consumption at a level publishes that level's events again; a failure
  -- publishes that its agent spins if the retries since its last diff are enough; a poll nothing.
  unfoldable pub expected : List Call → List Event
  expected [] = []
  expected (agent_completed tokens ∷ cs) =
      at_level (compute_enforcement_level cfg (total cs + tokens)) (total cs + tokens)
      ++ expected cs
  expected (routing_decision i o has_cost ∷ cs) =
      if ltb 0 (i + o) || has_cost
      then at_level (compute_enforcement_level cfg (total cs + (i + o))) (total cs + (i + o))
        ++ expected cs
      else expected cs
  expected (task_failed a t has_diff tokens ∷ cs) =
      on_spin a t has_diff (
        since_last_diff a t
          (record { agent_id = a; task_id = t; has_diff = has_diff; tokens = tokens } ∷ retries cs))
      ++ expected cs
  expected (polled ∷ cs) = expected cs
