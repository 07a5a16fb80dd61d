-- ===== src/Events/Tests.antt =====
-- The event library on a few messages.
use architect.Common.{
  ◌≤◌, ◌<◌, ◌≡◌, refl, ◌==◌, false, Option, none, some, List, [], ◌∷◌, map, length, arith,
  if◌then◌else◌, Bool-cases, inl, inr, subst, sym,
}
use architect.Common.Result.{ok}
use architect.Common.Text.{Text, codes, text_beq, text_beq_iff, text_eq}
use architect.Events.Streams.{EventType, to_event_type, removeprefix}
use architect.Events.Subscriber.{
  registered, on, Message, Handler, Entry, call, World, new, max_retry_tracking, prune, dlq_fields,
  send, move_to_dlq, invoke, run_handlers, after_failure, acknowledge, process_message,
  process_messages, process_results, read_loop,
}
use architect.Events.Subscriber.Deliveries.{Justified}
use architect.Events.Subscriber.Once.{
  delivered, delivered_round, delivered_in, OnlyUnreadable, read_loop-Justified,
  read_loop-OnlyUnreadable,
}
use architect.Events.Dlq.{reprocess}
use architect.Events.Dlq.RoundTrip.{Letter, Fresh, IsPlain, stored, sent, reprocess-sent}

abbrev prefix : Text
prefix = codes "architect"

abbrev stream : Text
stream = codes "architect:task.created"

abbrev event : Text → Message
event id = record { id = id; fields = (codes "data", codes "{}") ∷ [] }

abbrev broken : Message
broken = record { id = codes "3-0"; fields = [] }

-- The second of two handlers raises at every message.
abbrev raises : List Entry → Option Text
raises (call h ∷ log) = if h == 7 then some (codes "notify: boom") else none
raises log = none

abbrev world : World
world = record { Envelope = Text; parse_envelope = some; raised = raises; refused = λ log. false }

abbrev handlers : EventType → List Handler
handlers = registered (on (codes "task.created") 7 (on (codes "task.created") 4 []))

abbrev rounds : List (List (Text × List Message))
rounds =
    ((stream, event (codes "1-0") ∷ event (codes "2-0") ∷ []) ∷ [])
    ∷ ((stream, broken ∷ []) ∷ [])
    ∷ []

program : Unit {0}
unfolding to_event_type removeprefix prune dlq_fields send move_to_dlq invoke run_handlers
    after_failure acknowledge process_message process_messages process_results read_loop
program = tt

-- Both messages failed once and stay pending; the broken one went to the dead-letter stream.
retries_tracked :
    (read_loop world prefix 3 handlers rounds new).1.retry_counts
    ≡ (codes "1-0", 1) ∷ (codes "2-0", 1) ∷ []
unfolding program
retries_tracked = refl

entries : length (read_loop world prefix 3 handlers rounds new).1.log ≡ 9
unfolding program
entries = refl

read_loop-Justified_example :
    Justified world prefix 3 handlers (read_loop world prefix 3 handlers rounds new).1.log
    × (length (read_loop world prefix 3 handlers rounds new).1.retry_counts ≤ max_retry_tracking)
read_loop-Justified_example = read_loop-Justified world prefix 3 handlers rounds

few_deliveries : (id : Text) → delivered id rounds < 3
unfolding delivered delivered_round delivered_in
few_deliveries id = elim (Bool-cases (text_beq id (codes "1-0"))) [
  | inl e ↦
      subst (λ i. delivered i rounds < 3) (sym ((text_beq_iff id (codes "1-0")).0 e)) (omega arith)
  | inr e ↦ elim (Bool-cases (text_beq id (codes "2-0"))) [
    | inl f ↦
        subst (λ i. delivered i rounds < 3) (sym ((text_beq_iff id (codes "2-0")).0 f))
          (omega arith)
    | inr f ↦ rw e (rw f (ground arith))
  ]
]

read_loop-OnlyUnreadable_example :
    OnlyUnreadable world prefix 3 handlers (read_loop world prefix 3 handlers rounds new).1.log
read_loop-OnlyUnreadable_example =
    read_loop-OnlyUnreadable world prefix 3 handlers rounds few_deliveries

abbrev letter : Text → Letter
letter mid = record {
  mid = mid;
  stream = stream;
  msg = event (codes "1-0");
  error = codes "notify: boom";
}

letter-IsPlain : (mid : Text) → IsPlain (letter mid)
unfolding Fresh
letter-IsPlain mid = ((refl, tt), λ e. cc)

reprocess-sent_example :
    reprocess
      (λ log. false)
      prefix
      (codes "task.created")
      0
      (map stored (letter (codes "8-0") ∷ letter (codes "9-0") ∷ []))
      []
    ≡ (
      ok 2,
      sent prefix (codes "task.created") (letter (codes "8-0") ∷ letter (codes "9-0") ∷ []) [],
    )
reprocess-sent_example =
    reprocess-sent prefix (codes "task.created") (letter (codes "8-0") ∷ letter (codes "9-0") ∷ [])
      (letter-IsPlain (codes "8-0"), (letter-IsPlain (codes "9-0"), tt))
