-- ===== src/Events/Subscriber/Deliveries.antt =====
-- When the read loop of a subscriber (subscriber.py) may send a command, by its log.
use architect.Common.{
  ℕ, ◌+◌, ◌≤◌, ◌≡◌, Bool, true, false, ◌&&◌, ◌==◌, Option, none, some, List, [], ◌∷◌, All, length,
  not,
}
use architect.Common.Text.{Text, codes, text_beq, text_eq}
use architect.Events.Streams.{EventType, dlq_stream_name, stream_type}
use architect.Events.Subscriber.{
  Handler, Message, Entry, received, call, xadd, xack, World, deserialize_event, Subscriber,
  dlq_fields, max_retry_tracking,
}

abbrev pub is_none : Option Text → Bool
is_none none = true
is_none (some e) = false

-- The message that the loop is at.
unfoldable pub current : List Entry → Option (Text × Message)
current [] = none
current (received stream msg ∷ log) = some (stream, msg)
current (call h ∷ log) = current log
current (xadd stream fields ∷ log) = current log
current (xack stream id ∷ log) = current log

abbrev pub has_id : Text → Option (Text × Message) → Bool
has_id id none = false
has_id id (some (stream, msg)) = text_beq id msg.id

abbrev pub one_if : Bool → ℕ
one_if true = 1
one_if false = 0

unfoldable pub receives : Text → List Entry → ℕ
receives id [] = 0
receives id (received stream msg ∷ log) = one_if (text_beq id msg.id) + receives id log
receives id (call h ∷ log) = receives id log
receives id (xadd stream fields ∷ log) = receives id log
receives id (xack stream i ∷ log) = receives id log

-- The handlers in the order of their calls.
abbrev pub rev_onto : List Handler → List Handler → List Handler
rev_onto [] hs = hs
rev_onto (g ∷ gs) hs = rev_onto gs (g ∷ hs)

module _ (w : World) (prefix : Text) (max_retries : ℕ) (handlers : EventType → List Handler) where
  -- The calls that raised at a message of this id.
  unfoldable pub fails : Text → List Entry → ℕ
  fails id [] = 0
  fails id (received stream msg ∷ log) = fails id log
  fails id (call h ∷ log) =
      one_if (not (is_none (w.raised (call h ∷ log))) && has_id id (current log)) + fails id log
  fails id (xadd stream fields ∷ log) = fails id log
  fails id (xack stream i ∷ log) = fails id log

  -- Since the latest message came, these handlers were called, the latest first, and none raised.
  unfoldable pub served : List Handler → List Entry → Bool
  served [] (received stream msg ∷ log) = true
  served (h ∷ hs) (call g ∷ log) = (h == g) && (is_none (w.raised (call g ∷ log)) && served hs log)
  served _ _ = false

  -- An entry that may follow the log.
  pub data IsDue : List Entry → Entry → Type 0 where
    due_received :
        (log : List Entry) (stream : Text) (msg : Message) → IsDue log (received stream msg)
    due_call :
        (log : List Entry) (h : Handler) (hs : List Handler)
        → served hs log ≡ true
        → IsDue log (call h)
    -- All handlers of the message returned.
    due_ack :
        (log : List Entry) (stream : Text) (msg : Message) (et : EventType)
        → current log ≡ some (stream, msg)
        → stream_type prefix stream ≡ some et
        → served (rev_onto (handlers et) []) log ≡ true
        → IsDue log (xack stream msg.id)
    -- The message was just put on the dead-letter stream.
    due_ack_dead :
        (log : List Entry) (stream : Text) (msg : Message) (et : EventType) (error : Text)
        → current log ≡ some (stream, msg)
        → IsDue
            (xadd (dlq_stream_name prefix et) (dlq_fields stream msg error) ∷ log)
            (xack stream msg.id)
    due_unreadable :
        (log : List Entry) (stream : Text) (msg : Message) (et : EventType)
        → current log ≡ some (stream, msg)
        → deserialize_event w msg.fields ≡ none
        → IsDue log (
            xadd
              (dlq_stream_name prefix et)
              (dlq_fields stream msg (codes "deserialization_error")))
    -- A handler just raised, and handlers have raised often enough at this id.
    due_dead :
        (log : List Entry) (stream : Text) (msg : Message) (et : EventType) (error : Text)
        → current log ≡ some (stream, msg)
        → w.raised log ≡ some error
        → max_retries ≤ fails msg.id log
        → IsDue log (xadd (dlq_stream_name prefix et) (dlq_fields stream msg error))

  unfoldable pub Justified : List Entry → Type 0
  Justified [] = Unit
  Justified (e ∷ log) = IsDue log e × Justified log

  -- No count is more than the failures on the log, and there are not too many.
  pub record IsCounted (s : Subscriber) : Type 0 where
    pub is_justified : Justified s.log
    pub counts_le : All (λ (k, n). n ≤ fails k s.log) s.retry_counts
    pub is_bounded : length s.retry_counts ≤ max_retry_tracking
