-- ===== src/Governor/Monitor.antt =====
-- The event handlers of `Monitor` (monitor.py), with the enforcement level of `BudgetTracker`
-- (budget_tracker.py) and `Enforcer` (enforcer.py), services/economic-governor/src/economic_governor.
-- Costs, rates, phases and the scores of efficiency are left out. Percentages are in hundredths, to
-- which the code rounds what is consumed; thresholds too. Each handler runs to its end, publishing is
-- taken to return, and rows that fail to persist are only logged.
pub mod Expected
pub mod Actions
use architect.Common.{
  ℕ, zero, suc, ◌+◌, Bool, true, false, not, ◌&&◌, ◌||◌, Option, none, some, List, [], ◌∷◌, ◌++◌,
  ltb, leb, if◌then◌else◌,
}
use architect.TaskGraph.Models.{AgentId, TaskId, ModelTier}
use architect.Governor.Spin
use architect.Governor.Spin.{SpinDetection, record_retry}

pub data EnforcementLevel : Type 0 where
  no_level alert restrict halt : EnforcementLevel

-- `consumed_pct` of the consumed and the allocated tokens is computed in floats, and rounded.
pub record Config : Type 0 where
  pub consumed_pct : ℕ → ℕ → ℕ
  pub total_tokens : ℕ
  pub alert_threshold_pct : ℕ
  pub restrict_threshold_pct : ℕ
  pub halt_threshold_pct : ℕ
  pub restrict_max_tier : ModelTier
  pub max_retries : ℕ

-- The events that the enforcer publishes, with the percentage and the tokens consumed.
pub data Event : Type 0 where
  budget_threshold_alert : ℕ → ℕ → Event
  budget_tier_downgrade : ModelTier → ℕ → Event
  budget_task_paused : ℕ → Event
  budget_halt : ℕ → ℕ → Event
  spin_detected : SpinDetection → Event

pub record EnforcementRecord : Type 0 where
  pub level : EnforcementLevel
  pub event : Event
  pub consumed_pct : ℕ

-- The objects together; events and records are the latest first.
pub record Governor : Type 0 where
  pub consumed_tokens : ℕ
  pub enforcement_level : EnforcementLevel
  pub spins : List Spin.Entry
  pub events : List Event
  pub history : List EnforcementRecord

abbrev pub new : Governor
new = record {
  consumed_tokens = 0;
  enforcement_level = no_level;
  spins = [];
  events = [];
  history = [];
}

abbrev pub level_eq : EnforcementLevel → EnforcementLevel → Bool
level_eq no_level no_level = true
level_eq alert alert = true
level_eq restrict restrict = true
level_eq halt halt = true
level_eq _ _ = false

abbrev pub max_history : ℕ
max_history = 1000

-- `deque(maxlen=n)` keeps the latest.
abbrev pub latest : ℕ → List EnforcementRecord → List EnforcementRecord
latest zero rs = []
latest (suc n) [] = []
latest (suc n) (r ∷ rs) = r ∷ latest n rs

module _ (cfg : Config) where
  abbrev pub pct_of : ℕ → ℕ
  pct_of consumed = cfg.consumed_pct consumed cfg.total_tokens

  -- `_compute_enforcement_level`
  unfoldable pub compute_enforcement_level : ℕ → EnforcementLevel
  compute_enforcement_level consumed =
      if leb cfg.halt_threshold_pct (pct_of consumed)
      then halt
      else if leb cfg.restrict_threshold_pct (pct_of consumed)
      then restrict
      else if leb cfg.alert_threshold_pct (pct_of consumed)
      then alert
      else no_level

  -- `_enforce`: publish, then record.
  unfoldable pub enforce : EnforcementLevel → Event → ℕ → Governor → Governor
  enforce level event pct g = record g {
    events = event ∷ g.events;
    history =
        latest max_history
          (record { level = level; event = event; consumed_pct = pct } ∷ g.history);
  }

  abbrev pub enforce_restrict : ℕ → Governor → Governor
  enforce_restrict pct g =
      enforce restrict (budget_task_paused pct) pct
        (enforce restrict (budget_tier_downgrade cfg.restrict_max_tier pct) pct g)

  -- `_enforce_if_needed`, by the snapshot.
  unfoldable pub enforce_if_needed : EnforcementLevel → Governor → Governor
  enforce_if_needed no_level g = g
  enforce_if_needed alert g =
      let pct = pct_of g.consumed_tokens in
      enforce alert (budget_threshold_alert pct g.consumed_tokens) pct g
  enforce_if_needed restrict g = enforce_restrict (pct_of g.consumed_tokens) g
  enforce_if_needed halt g =
      let pct = pct_of g.consumed_tokens in enforce halt (budget_halt pct g.consumed_tokens) pct g

  -- `record_consumption`, and the level it returns.
  unfoldable pub record_consumption : ℕ → Governor → EnforcementLevel × Governor
  record_consumption tokens g =
      let consumed = g.consumed_tokens + tokens in
      let level = compute_enforcement_level consumed in
      (level, record g { consumed_tokens = consumed; enforcement_level = level })

  unfoldable pub threshold_crossed : Governor → Option EnforcementLevel × Governor
  threshold_crossed g =
      let level = compute_enforcement_level g.consumed_tokens in
      if level_eq level g.enforcement_level
      then (none, g)
      else (some level, record g { enforcement_level = level })

  unfoldable pub consume : ℕ → Governor → Governor
  consume tokens g = let (level, g') = record_consumption tokens g in enforce_if_needed level g'

  unfoldable pub handle_agent_completed : ℕ → Governor → Governor
  handle_agent_completed tokens g = consume tokens g

  -- `has_cost` is whether the cost is more than 0.
  unfoldable pub handle_routing_decision : ℕ → ℕ → Bool → Governor → Governor
  handle_routing_decision input_tokens output_tokens has_cost g =
      let tokens = input_tokens + output_tokens in
      if ltb 0 tokens || has_cost then consume tokens g else g

  unfoldable pub kill_spinning_agent : SpinDetection → Governor → Governor
  kill_spinning_agent detection g = enforce restrict (spin_detected detection) 0 g

  unfoldable pub handle_task_failed : AgentId → TaskId → Bool → ℕ → Governor → Governor
  handle_task_failed agent_id task_id has_diff tokens g =
      let (detection, spins) =
        record_retry cfg.max_retries agent_id task_id has_diff tokens g.spins in
      let g' = record g { spins = spins } in
      if detection.is_spinning then kill_spinning_agent detection g' else g'

  abbrev pub enforce_some : Option EnforcementLevel → Governor → Governor
  enforce_some none g = g
  enforce_some (some level) g = enforce_if_needed level g

  -- A round of the monitoring loop.
  unfoldable pub poll : Governor → Governor
  poll g = let (level, g') = threshold_crossed g in enforce_some level g'

-- What happens to the monitor.
pub data Call : Type 0 where
  agent_completed : ℕ → Call
  routing_decision : ℕ → ℕ → Bool → Call
  task_failed : AgentId → TaskId → Bool → ℕ → Call
  polled : Call

abbrev pub perform : Config → Call → Governor → Governor
perform cfg (agent_completed tokens) g = handle_agent_completed cfg tokens g
perform cfg (routing_decision i o has_cost) g = handle_routing_decision cfg i o has_cost g
perform cfg (task_failed a t has_diff tokens) g = handle_task_failed cfg a t has_diff tokens g
perform cfg polled g = poll cfg g

-- The calls in order, the latest first.
unfoldable pub perform_all : Config → List Call → Governor
perform_all cfg [] = new
perform_all cfg (c ∷ cs) = perform cfg c (perform_all cfg cs)
