-- ===== src/Governor/Monitor/Actions.antt =====
-- What the governor (monitor.py, budget_tracker.py, enforcer.py) publishes in a series of calls.
use architect.Common.{◌≡◌, List}
use architect.Governor.Spin.Counts.{record_all}
use architect.Governor.Monitor.{Config, Governor, compute_enforcement_level, Call}
use architect.Governor.Monitor.Expected.{total, retries, expected}

module _ (cfg : Config) where
  -- The governor after the calls.
  record IsExpected (cs : List Call) (g : Governor) : Type 0 where
    consumed_eq : g.consumed_tokens ≡ total cs
    level_now : g.enforcement_level ≡ compute_enforcement_level cfg g.consumed_tokens
    spins_eq : g.spins ≡ record_all cfg.max_retries (retries cs)
    events_eq : g.events ≡ expected cfg cs
