-- ===== src/Events/Dlq.antt =====
-- `DeadLetterProcessor.reprocess`, libs/architect-events/src/architect_events/dlq.py. What it sends is
-- put on a log, the latest first; by the log, the surroundings say whether Redis takes a command.
pub mod RoundTrip
use architect.Common.{ℕ, ◌+◌, Bool, ◌||◌, List, [], ◌∷◌, if◌then◌else◌}
use architect.Common.Result.{Result, ok, err, Action, pure, ◌>>=◌, ◌>>◌}
use architect.Common.Dict.{insert}
use architect.Common.Text.{Text, codes, text_beq, text_eq}
use architect.Events.Streams.{EventType, stream_name, dlq_stream_name}
use architect.Events.Subscriber.{Fields, Stop, redis_error}

pub data Command : Type 0 where
  publish : Text → Fields → Command
  delete : Text → Text → Command

abbrev pub M : Type 0 → Type 0
M A = Action (List Command) Stop A

abbrev pub is_metadata : Text → Bool
is_metadata key =
    text_beq key (codes "original_stream")
    || text_beq key (codes "original_id")
    || text_beq key (codes "error")

-- The loop over the items of the data, from what is in `clean`.
unfoldable pub strip_metadata : Fields → Fields → Fields
strip_metadata clean [] = clean
strip_metadata clean ((key, val) ∷ items) =
    if is_metadata key
    then strip_metadata clean items
    else strip_metadata (insert key val clean) items

-- `refused` is whether Redis fails at the latest command, and `prefix` the stream prefix.
module _ (refused : List Command → Bool) (prefix : Text) where
  unfoldable pub send : Command → M (Unit {0})
  send c log = (if refused (c ∷ log) then err redis_error else ok tt, c ∷ log)

  -- `if clean: await self._redis.xadd(origin, clean)`
  abbrev pub republish : EventType → Fields → M (Unit {0})
  republish et [] = pure tt
  republish et (item ∷ items) = send (publish (stream_name prefix et) (item ∷ items))

  -- The loop over what `XRANGE` returned; the count is that of the messages that were done before.
  unfoldable pub reprocess : EventType → ℕ → List (Text × Fields) → M ℕ
  reprocess et count [] = pure count
  reprocess et count ((mid, fields) ∷ messages) =
      let next = reprocess et (count + 1) messages in
      do
        republish et (strip_metadata [] fields)
        send (delete (dlq_stream_name prefix et) mid)
        next
