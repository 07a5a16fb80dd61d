-- ===== src/Router/Escalation.antt =====
-- `EscalationPolicy`, services/multi-model-router/src/multi_model_router/escalation.py. The records
-- are a dict; an entry of a history is its tier, and the failures that it was escalated after if so.
pub mod Failures
use architect.Common.{
  ℕ, ◌+◌, Bool, true, false, ◌||◌, Option, none, some, List, [], ◌∷◌, ◌==◌, leb, if◌then◌else◌,
}
use architect.Common.Dict.{Dict, lookup, insert, erase, nat_eq}
use architect.TaskGraph.Models.{TaskId, ModelTier, tier_1, tier_2, tier_3}

pub record HistoryEntry : Type 0 where
  pub tier : ModelTier
  pub escalated_after : Option ℕ

-- The history is here the latest entry first, where the code appends.
pub record EscalationRecord : Type 0 where
  pub task_id : TaskId
  pub failure_count : ℕ
  pub current_tier : ModelTier
  pub escalation_history : List HistoryEntry
  pub needs_human : Bool

-- `_ESCALATION_CHAIN`
abbrev pub next_tier : ModelTier → Option ModelTier
next_tier tier_3 = some tier_2
next_tier tier_2 = some tier_1
next_tier tier_1 = none

abbrev pub tier_eq : ModelTier → ModelTier → Bool
tier_eq tier_1 tier_1 = true
tier_eq tier_2 tier_2 = true
tier_eq tier_3 tier_3 = true
tier_eq _ _ = false

-- The loop over `reversed(history)`: the entries of the tier at the end.
unfoldable pub consecutive : ModelTier → List HistoryEntry → ℕ
consecutive tier [] = 0
consecutive tier (e ∷ es) =
    let rest = consecutive tier es in if tier_eq e.tier tier then rest + 1 else 0

-- `existing.failure_count if existing else 0`, and the history likewise.
abbrev pub count_of : Option EscalationRecord → ℕ
count_of none = 0
count_of (some r) = r.failure_count

abbrev pub history_of : Option EscalationRecord → List HistoryEntry
history_of none = []
history_of (some r) = r.escalation_history

abbrev pub or_same : Option ModelTier → ModelTier → ModelTier
or_same none tier = tier
or_same (some next) tier = next

abbrev pub is_last : Option ModelTier → Bool
is_last none = true
is_last (some next) = false

-- `max_tier_failures` and `max_total_failures`.
module _ (max_tier max_total : ℕ) where
  -- The record of one more failure.
  unfoldable pub next_record : Option EscalationRecord → TaskId → ModelTier → EscalationRecord
  next_record existing task_id tier =
      let failures = count_of existing + 1 in
      let history = history_of existing in
      let tier_failures = consecutive tier history + 1 in
      let escalates = leb max_tier tier_failures in
      record {
        task_id = task_id;
        failure_count = failures;
        current_tier = if escalates then or_same (next_tier tier) tier else tier;
        escalation_history =
            record { tier = tier; escalated_after = if escalates then some tier_failures else none }
            ∷ history;
        needs_human =
            leb max_total failures || (if escalates then is_last (next_tier tier) else false);
      }

  unfoldable pub record_failure :
      TaskId
      → ModelTier
      → Dict TaskId EscalationRecord
      → EscalationRecord × Dict TaskId EscalationRecord
  record_failure task_id tier records =
      let r = next_record (lookup task_id records) task_id tier in (r, insert task_id r records)

  unfoldable pub should_escalate : TaskId → Dict TaskId EscalationRecord → Bool
  should_escalate task_id records = elim (lookup task_id records) [
    | none ↦ false
    | some r ↦ leb max_tier (consecutive r.current_tier r.escalation_history)
  ]

  unfoldable pub reset_task : TaskId → Dict TaskId EscalationRecord → Dict TaskId EscalationRecord
  reset_task task_id records = erase task_id records
