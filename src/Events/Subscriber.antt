-- ===== src/Events/Subscriber.antt =====
-- `EventSubscriber`, libs/architect-events/src/architect_events/subscriber.py. What the read loop
-- receives, calls and sends is put on a log, the latest first; by the log, the surroundings say
-- whether a handler raises and whether Redis takes a command.
pub mod Deliveries
pub mod Counts
pub mod Due
pub mod Once
use architect.Common.{
  drop, ℕ, zero, suc, ◌+◌, ◌/◌, Bool, true, false, Option, none, some, List, [], ◌∷◌, ◌++◌, ltb,
  leb, length, if◌then◌else◌,
}
use architect.Common.Result.{Result, ok, err, Action, pure, reads, modify, ◌>>=◌, ◌>>◌}
use architect.Common.Dict.{Dict, lookup, insert, erase}
use architect.Common.Text.{Text, codes, text_eq}
use architect.Events.Streams.{EventType, dlq_stream_name, stream_type}

-- `dict[bytes, bytes]`; the bytes are those of a text.
abbrev pub Fields : Type 0
Fields = Dict Text Text

pub record Message : Type 0 where
  pub id : Text
  pub fields : Fields

-- The number of a handler.
abbrev pub Handler : Type 0
Handler = ℕ

pub data Entry : Type 0 where
  received : Text → Message → Entry
  call : Handler → Entry
  xadd : Text → Fields → Entry
  xack : Text → Text → Entry

-- `parse_envelope` reads the JSON of an event, and is none where it raises; `raised` is the text of the exception of the latest
-- call, if it raises; `refused` whether Redis fails at the latest command.
pub record World : Type 1 where
  pub Envelope : Type 0
  pub parse_envelope : Text → Option Envelope
  pub raised : List Entry → Option Text
  pub refused : List Entry → Bool

abbrev pub parsed : (w : World) → Option Text → Option w.Envelope
parsed w none = none
parsed w (some raw) = w.parse_envelope raw

-- `deserialize_event`, libs/architect-events/src/architect_events/serialization.py
abbrev pub deserialize_event : (w : World) → Fields → Option w.Envelope
deserialize_event w fields = parsed w (lookup (codes "data") fields)

abbrev pub or_empty : Option (List Handler) → List Handler
or_empty none = []
or_empty (some hs) = hs

-- `self._handlers.get(event_type, [])`
abbrev pub registered : Dict EventType (List Handler) → EventType → List Handler
registered table et = or_empty (lookup et table)

abbrev pub on : EventType → Handler → Dict EventType (List Handler) → Dict EventType (List Handler)
on et h table = insert et (registered table et ++ h ∷ []) table

-- An error of Redis leaves the read loop.
pub data Stop : Type 0 where
  redis_error : Stop

pub record Subscriber : Type 0 where
  pub retry_counts : Dict Text ℕ
  pub log : List Entry

abbrev pub new : Subscriber
new = record { retry_counts = []; log = [] }

abbrev pub max_retry_tracking : ℕ
max_retry_tracking = 10_000

abbrev pub M : Type 0 → Type 0
M A = Action Subscriber Stop A

abbrev pub or_zero : Option ℕ → ℕ
or_zero none = 0
or_zero (some n) = n

-- The oldest half goes when too many messages are tracked.
unfoldable pub prune : Dict Text ℕ → Dict Text ℕ
prune d = if ltb max_retry_tracking (length d) then drop (length d / 2) d else d

-- `dlq_fields[key] = val` for each of the data.
abbrev pub copy : Fields → Fields → Fields
copy [] fields = fields
copy ((k, v) ∷ rest) fields = copy rest (insert k v fields)

abbrev pub metadata : Text → Text → Text → Fields
metadata stream id error =
    (codes "original_stream", stream) ∷ (codes "original_id", id) ∷ (codes "error", error) ∷ []

unfoldable pub dlq_fields : Text → Message → Text → Fields
dlq_fields stream msg error = copy msg.fields (metadata stream msg.id error)

abbrev pub note : Entry → Subscriber → Subscriber
note e s = record s { log = e ∷ s.log }

-- The methods of one subscriber: its stream prefix, retries and handlers by event type.
module _ (w : World) (prefix : Text) (max_retries : ℕ) (handlers : EventType → List Handler) where
  -- A command to Redis.
  unfoldable pub send : Entry → M (Unit {0})
  send e s = (if w.refused (e ∷ s.log) then err redis_error else ok tt, note e s)

  unfoldable pub move_to_dlq : Text → EventType → Message → Text → M (Unit {0})
  move_to_dlq stream et msg error = do
    send (xadd (dlq_stream_name prefix et) (dlq_fields stream msg error))
    send (xack stream msg.id)

  unfoldable pub invoke : Handler → M (Option Text)
  invoke h s = (ok (w.raised (call h ∷ s.log)), note (call h) s)

  abbrev pub call_next : Option Text → M (Option Text) → M (Option Text)
  call_next none next = next
  call_next (some error) next = pure (some error)

  -- The loop over the handlers: the last error, if one raised.
  unfoldable pub run_handlers : List Handler → M (Option Text)
  run_handlers [] = pure none
  run_handlers (h ∷ hs) = let next = run_handlers hs in do error ← invoke h; call_next error next

  abbrev pub forget : Message → Subscriber → Subscriber
  forget msg s = record s { retry_counts = erase msg.id s.retry_counts }

  abbrev pub count_failure : Message → ℕ → Subscriber → Subscriber
  count_failure msg count s = record s { retry_counts = prune (insert msg.id count s.retry_counts) }

  unfoldable pub after_failure : Text → EventType → Message → Text → M (Unit {0})
  after_failure stream et msg error = do
    count ← reads (λ s. ok (or_zero (lookup msg.id s.retry_counts) + 1))
    modify (count_failure msg count)
    if leb max_retries count
        then move_to_dlq stream et msg error >> modify (forget msg)
        else pure tt

  unfoldable pub acknowledge : Text → Message → M (Unit {0})
  acknowledge stream msg = do send (xack stream msg.id); modify (forget msg)

  abbrev pub conclude : Text → EventType → Message → Option Text → M (Unit {0})
  conclude stream et msg (some error) = after_failure stream et msg error
  conclude stream et msg none = acknowledge stream msg

  abbrev pub dispatch : Text → EventType → Message → Option w.Envelope → M (Unit {0})
  dispatch stream et msg none = move_to_dlq stream et msg (codes "deserialization_error")
  dispatch stream et msg (some envelope) = do
    failure ← run_handlers (handlers et)
    conclude stream et msg failure

  unfoldable pub process_message : Text → EventType → Message → M (Unit {0})
  process_message stream et msg = do
    modify (note (received stream msg))
    dispatch stream et msg (deserialize_event w msg.fields)

  unfoldable pub process_messages : Text → EventType → List Message → M (Unit {0})
  process_messages stream et [] = pure tt
  process_messages stream et (msg ∷ msgs) =
      let next = process_messages stream et msgs in process_message stream et msg >> next

  abbrev pub of_type : Text → Option EventType → List Message → M (Unit {0})
  of_type stream none msgs = pure tt
  of_type stream (some et) msgs = process_messages stream et msgs

  -- What one `XREADGROUP` returned: messages by stream.
  unfoldable pub process_results : List (Text × List Message) → M (Unit {0})
  process_results [] = pure tt
  process_results ((stream, msgs) ∷ results) =
      let next = process_results results in of_type stream (stream_type prefix stream) msgs >> next

  -- The rounds of the loop in which `XREADGROUP` returned, until it is cancelled.
  unfoldable pub read_loop : List (List (Text × List Message)) → M (Unit {0})
  read_loop [] = pure tt
  read_loop (results ∷ rounds) = let next = read_loop rounds in process_results results >> next
