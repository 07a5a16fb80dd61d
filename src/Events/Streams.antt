-- ===== src/Events/Streams.antt =====
-- The names of events, libs/architect-common/src/architect_common/enums.py, and of their streams,
-- libs/architect-events. `EventType` is a `StrEnum`: its members are texts.
use architect.Common.{
  String, Bool, false, ◌||◌, Option, none, some, List, [], ◌∷◌, ◌++◌, ◌==◌, if◌then◌else◌,
}
use architect.Common.Text.{Text, codes, text_beq}

abbrev pub EventType : Type 0
EventType = Text

abbrev event_names : List String
event_names =
    "ledger.updated" ∷ "proposal.created" ∷ "proposal.accepted" ∷ "proposal.rejected"
    ∷ "task.created" ∷ "task.started" ∷ "task.completed" ∷ "task.failed" ∷ "task.retried"
    ∷ "agent.spawned" ∷ "agent.heartbeat" ∷ "agent.completed" ∷ "agent.failed" ∷ "sandbox.created"
    ∷ "sandbox.command" ∷ "sandbox.destroyed" ∷ "eval.started" ∷ "eval.layer_completed"
    ∷ "eval.completed" ∷ "budget.warning" ∷ "budget.exhausted" ∷ "spec.created"
    ∷ "spec.clarification_needed" ∷ "spec.finalized" ∷ "routing.decision" ∷ "routing.escalation"
    ∷ "message.published" ∷ "message.dead_lettered" ∷ "knowledge.acquired"
    ∷ "knowledge.pattern_extracted" ∷ "knowledge.heuristic_created"
    ∷ "knowledge.compression_completed" ∷ "budget.threshold_alert" ∷ "budget.tier_downgrade"
    ∷ "budget.task_paused" ∷ "budget.halt" ∷ "budget.spin_detected" ∷ "efficiency.updated"
    ∷ "escalation.created" ∷ "escalation.resolved" ∷ "approval.requested" ∷ "approval.granted"
    ∷ "approval.denied" ∷ "security.scan_started" ∷ "security.scan_completed"
    ∷ "security.finding_created" ∷ "security.policy_violation" ∷ "security.gate_blocked"
    ∷ "deployment.started" ∷ "deployment.stage_changed" ∷ "deployment.completed"
    ∷ "deployment.rolled_back" ∷ "failure.classified" ∷ "improvement.proposed"
    ∷ "post_mortem.completed" ∷ []

abbrev is_member : Text → List String → Bool
is_member t [] = false
is_member t (name ∷ names) = text_beq t (codes name) || is_member t names

-- `EventType(text)`, where it does not raise.
unfoldable pub to_event_type : Text → Option EventType
to_event_type t = if is_member t event_names then some t else none

-- `f"{prefix}:{event_type}"`
abbrev pub stream_name : Text → EventType → Text
stream_name prefix et = prefix ++ codes ":" ++ et

abbrev pub dlq_stream_name : Text → EventType → Text
dlq_stream_name prefix et = prefix ++ codes ":dlq:" ++ et

-- `str.removeprefix`
abbrev after_prefix : Text → Text → Option Text
after_prefix [] t = some t
after_prefix (a ∷ s) (b ∷ t) = let rest = after_prefix s t in if a == b then rest else none
after_prefix (a ∷ s) [] = none

abbrev or_whole : Option Text → Text → Text
or_whole none t = t
or_whole (some s) t = s

unfoldable pub removeprefix : Text → Text → Text
removeprefix s t = or_whole (after_prefix s t) t

-- The event type that the name of a stream gives.
abbrev pub stream_type : Text → Text → Option EventType
stream_type prefix stream = to_event_type (removeprefix (prefix ++ codes ":") stream)
