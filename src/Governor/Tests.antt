-- ===== src/Governor/Tests.antt =====
-- The spin detector and the governor at inputs that meet the hypotheses of its theorems.
use architect.Common.{ℕ, ◌≡◌, ◌≤◌, refl, true, false, List, [], ◌∷◌, ◌*◌, length}
use architect.Governor.Spin.{tracked, max_tracked, record_retry, pop, evict}
use architect.Governor.Spin.Counts.{Retry, since_last_diff, record_all, record_all-max_tracked}
use architect.TaskGraph.Models.{tier_2}
use architect.Governor.Monitor.{
  Config, Call, agent_completed, routing_decision, task_failed, polled, perform_all, budget_halt,
  budget_threshold_alert, budget_tier_downgrade, budget_task_paused, spin_detected,
  compute_enforcement_level, enforce, enforce_if_needed, record_consumption, threshold_crossed,
  consume, handle_agent_completed, handle_routing_decision, kill_spinning_agent, handle_task_failed,
  poll,
}

abbrev idle : ℕ → Retry
idle tokens = record { agent_id = 1; task_id = 2; has_diff = false; tokens = tokens }

abbrev calls : List Retry
calls = idle 30 ∷ idle 20 ∷ record (idle 9) { has_diff = true } ∷ idle 5 ∷ []

counted : since_last_diff 1 2 calls ≡ (2, 50)
unfolding since_last_diff
counted = refl

-- A budget of a hundred tokens, with the default thresholds.
abbrev governed : Config
governed = record {
  consumed_pct = λ consumed allocated. consumed * 100;
  total_tokens = 100;
  alert_threshold_pct = 8_000;
  restrict_threshold_pct = 9_500;
  halt_threshold_pct = 10_000;
  restrict_max_tier = tier_2;
  max_retries = 2;
}

abbrev happened : List Call
happened =
    agent_completed 20
    ∷ polled
    ∷ routing_decision 0 0 true
    ∷ task_failed 1 2 false 7
    ∷ agent_completed 11
    ∷ task_failed 1 2 false 5
    ∷ agent_completed 85
    ∷ []

-- The routing that consumes no tokens publishes the events of its level again.
published_events :
    (perform_all governed happened).events
    ≡ budget_halt 11_600 116
      ∷ budget_task_paused 9_600
      ∷ budget_tier_downgrade tier_2 9_600
      ∷ spin_detected (record {
        agent_id = 1;
        task_id = 2;
        is_spinning = true;
        retry_count = 2;
        tokens_since_last_diff = 12;
      })
      ∷ budget_task_paused 9_600
      ∷ budget_tier_downgrade tier_2 9_600
      ∷ budget_threshold_alert 8_500 85
      ∷ []
unfolding perform_all compute_enforcement_level enforce enforce_if_needed record_consumption
    threshold_crossed consume handle_agent_completed handle_routing_decision kill_spinning_agent
    handle_task_failed poll record_retry tracked pop evict
published_events = refl

record_all-max_tracked_example : length (record_all 3 calls) ≤ max_tracked
record_all-max_tracked_example = record_all-max_tracked 3 calls
