-- ===== src/Events/Subscriber/Once.antt =====
-- What comes of the messages that the read loop (subscriber.py) receives.
use architect.Common.{
  ℕ, ◌+◌, ◌≤◌, ◌<◌, ◌≡◌, refl, Bool, true, false, ◌&&◌, Option, none, some, List, [], ◌∷◌, length,
  arith,
}
use architect.Common.Result.{Action, pure, modify, ◌>>◌}
use architect.Common.Text.{Text, codes, text_beq}
use architect.Common.Triple.{
  Triple, Keeps, Keeps-pure, Keeps-bind, Triple-bind, Triple-modify, Triple-weaken, Triple-pure,
  keeps_rules,
}
use architect.Events.Streams.{EventType, stream_type}
use architect.Events.Subscriber.{
  Handler, Message, Entry, received, call, xadd, xack, World, deserialize_event, Subscriber, Stop,
  note, new, max_retry_tracking, send, move_to_dlq, invoke, call_next, run_handlers, forget,
  count_failure, after_failure, acknowledge, conclude, dispatch, process_message, process_messages,
  of_type, process_results, read_loop,
}
use architect.Events.Subscriber.Deliveries.{
  is_none, current, has_id, one_if, receives, fails, served, IsCounted, Justified, due_call,
  due_unreadable, due_dead,
}
use architect.Events.Subscriber.Due.{read_loop-Counted}

-- How often an id is among what `XREADGROUP` returned, over all streams.
unfoldable pub delivered_in : Text → List Message → ℕ
delivered_in id [] = 0
delivered_in id (msg ∷ msgs) = one_if (text_beq id msg.id) + delivered_in id msgs

unfoldable pub delivered_round : Text → List (Text × List Message) → ℕ
delivered_round id [] = 0
delivered_round id ((stream, msgs) ∷ results) = delivered_in id msgs + delivered_round id results

unfoldable pub delivered : Text → List (List (Text × List Message)) → ℕ
delivered id [] = 0
delivered id (results ∷ rounds) = delivered_round id results + delivered id rounds

module _ (w : World) (prefix : Text) (max_retries : ℕ) (handlers : EventType → List Handler) where
  -- No handler raised since the latest message came.
  clean : List Entry → Bool
  clean (received stream msg ∷ log) = true
  clean (call h ∷ log) = is_none (w.raised (call h ∷ log)) && clean log
  clean _ = false

  served-clean :
      (hs : List Handler) (log : List Entry)
      → served w prefix max_retries handlers hs log ≡ true
      → clean log ≡ true
  unfolding served clean
  served-clean [] (received stream msg ∷ log) h = refl
  served-clean (g ∷ gs) (call h ∷ log) e = ground (arith, e, served-clean gs log)
  served-clean [] (call h ∷ log) e = cc
  served-clean [] [] e = cc
  served-clean [] (xadd d f ∷ log) e = cc
  served-clean [] (xack d f ∷ log) e = cc
  served-clean (g ∷ gs) [] e = cc
  served-clean (g ∷ gs) (received stream msg ∷ log) e = cc
  served-clean (g ∷ gs) (xadd d f ∷ log) e = cc
  served-clean (g ∷ gs) (xack d f ∷ log) e = cc

  -- A message fails at most once each time it is received.
  fails_le :
      (id : Text) (log : List Entry)
      → Justified w prefix max_retries handlers log
      → fails w prefix max_retries handlers id log + one_if (clean log && has_id id (current log))
        ≤ receives id log
  unfolding Justified fails receives clean current
  fails_le id [] h = omega arith
  fails_le id (received stream msg ∷ log) h = omega (arith, fails_le id log h.1)
  fails_le id (call g ∷ log) (due_call _ _ hs fine, h) =
      ground (arith, fails_le id log h, served-clean hs log fine)
  fails_le id (xadd d f ∷ log) h = omega (arith, fails_le id log h.1)
  fails_le id (xack d f ∷ log) h = omega (arith, fails_le id log h.1)

  -- Only messages that cannot be read are put on a dead-letter stream.
  unfoldable pub OnlyUnreadable : List Entry → Type 0
  OnlyUnreadable [] = Unit
  OnlyUnreadable (xadd d f ∷ log) =
      ((stream : Text) × (msg : Message) × (current log ≡ some (stream, msg))
        × (deserialize_event w msg.fields ≡ none))
      × OnlyUnreadable log
  OnlyUnreadable (received stream msg ∷ log) = OnlyUnreadable log
  OnlyUnreadable (call h ∷ log) = OnlyUnreadable log
  OnlyUnreadable (xack stream id ∷ log) = OnlyUnreadable log

  only_unreadable :
      (log : List Entry)
      → ((id : Text) → receives id log < max_retries)
      → Justified w prefix max_retries handlers log
      → OnlyUnreadable log
  unfolding Justified receives OnlyUnreadable
  only_unreadable [] once h = tt
  only_unreadable (received stream msg ∷ log) once h =
      only_unreadable log (λ id. omega (arith, once id)) h.1
  only_unreadable (call g ∷ log) once h = only_unreadable log once h.1
  only_unreadable (xack d f ∷ log) once h = only_unreadable log once h.1
  only_unreadable (xadd d f ∷ log) once (due_unreadable _ stream msg et cur e, h) =
      ((stream, msg, cur, e), only_unreadable log once h)
  only_unreadable (xadd d f ∷ log) once (due_dead _ stream msg et error cur e often, h) =
      ground (arith, often, once msg.id, fails_le msg.id log h)

  start : IsCounted w prefix max_retries handlers new
  unfolding Justified
  start = record { is_justified = tt; counts_le = tt; is_bounded = omega arith }

  record Has (id : Text) (n : ℕ) (s : Subscriber) : Type 0 where
    receives_le : receives id s.log ≤ n

  module _ (id : Text) (n : ℕ) where
    send_ack-Has :
        (stream i : Text) → Keeps (Has id n) (send w prefix max_retries handlers (xack stream i))
    unfolding send receives
    send_ack-Has stream i = record { at = λ s h. record { receives_le = h.receives_le } }

    move_to_dlq-Has :
        (stream : Text) (et : EventType) (msg : Message) (error : Text)
        → Keeps (Has id n) (move_to_dlq w prefix max_retries handlers stream et msg error)
    unfolding move_to_dlq send receives
    move_to_dlq-Has stream et msg error =
        Triple-bind {R = λ _. Has id n} (send w prefix max_retries handlers (xadd _ _)) _
          (record { at = λ s h. record { receives_le = h.receives_le } })
          (λ _. send_ack-Has stream msg.id) (λ e s h. h)

    invoke-Has : (h : Handler) → Keeps (Has id n) (invoke w prefix max_retries handlers h)
    unfolding invoke receives
    invoke-Has h = record { at = λ s k. record { receives_le = k.receives_le } }

    forget-Has :
        (msg : Message)
        → Keeps {E = Stop} (Has id n) (modify (forget w prefix max_retries handlers msg))
    forget-Has msg = record { at = λ s k. record { receives_le = k.receives_le } }

    count-Has :
        (msg : Message) (count : ℕ)
        → Keeps {E = Stop}
            (Has id n)
            (modify (count_failure w prefix max_retries handlers msg count))
    count-Has msg count = record { at = λ s k. record { receives_le = k.receives_le } }

    call_next-Has :
        (error : Option Text) (next : Action Subscriber Stop (Option Text))
        → Keeps (Has id n) next
        → Keeps (Has id n) (call_next w prefix max_retries handlers error next)
    call_next-Has none next h = h
    call_next-Has (some error) next h = Keeps-pure (some error)

    run_handlers-Has :
        (hs : List Handler) → Keeps (Has id n) (run_handlers w prefix max_retries handlers hs)
    unfolding run_handlers
    run_handlers-Has [] = Keeps-pure none
    run_handlers-Has (h ∷ hs) =
        Keeps-bind (invoke w prefix max_retries handlers h) _ (invoke-Has h)
          (λ error. call_next-Has error _ (run_handlers-Has hs))

    conclude-Has :
        (stream : Text) (et : EventType) (msg : Message) (failure : Option Text)
        → Keeps (Has id n) (conclude w prefix max_retries handlers stream et msg failure)
    unfolding acknowledge after_failure
    conclude-Has stream et msg none = search (keeps_rules, send_ack-Has, forget-Has)
    conclude-Has stream et msg (some error) =
        search (keeps_rules, move_to_dlq-Has, forget-Has, count-Has) depth 12

    dispatch-Has :
        (stream : Text) (et : EventType) (msg : Message) (o : Option w.Envelope)
        → Keeps (Has id n) (dispatch w prefix max_retries handlers stream et msg o)
    dispatch-Has stream et msg none = move_to_dlq-Has stream et msg (codes "deserialization_error")
    dispatch-Has stream et msg (some envelope) =
        search (keeps_rules, run_handlers-Has, conclude-Has)

  abbrev Adds : {A : Type 0} → Text → ℕ → Action Subscriber Stop A → Type 0
  Adds id k m = (n : ℕ) → Triple (Has id n) m (λ _. Has id (k + n))

  process_message-Has :
      (id stream : Text) (et : EventType) (msg : Message)
      → Adds id
          (one_if (text_beq id msg.id))
          (process_message w prefix max_retries handlers stream et msg)
  unfolding process_message receives
  process_message-Has id stream et msg n =
      Triple-modify {P' = Has id (one_if (text_beq id msg.id) + n)} (note (received stream msg)) _
        (λ s h. record { receives_le = omega (arith, h.receives_le) })
        (dispatch-Has id (one_if (text_beq id msg.id) + n) stream et msg
          (deserialize_event w msg.fields))

  Adds-then :
      {A B : Type 0} (id : Text) (j k : ℕ) (m : Action Subscriber Stop A)
      (next : Action Subscriber Stop B)
      → Adds id j m
      → Adds id k next
      → Adds id (j + k) (m >> next)
  Adds-then id j k m next hm hn n =
      Triple-bind m (λ _. next) (hm n)
        (λ _.
          Triple-weaken next (λ s h. h)
            (λ r s h. record { receives_le = omega (arith, h.receives_le) }) (hn (j + n)))
        (λ e s h. record { receives_le = omega (arith, h.receives_le) })

  Adds-pure : (id : Text) (k : ℕ) → Adds id k (pure tt)
  Adds-pure id k n = Triple-pure tt (λ s h. record { receives_le = omega (arith, h.receives_le) })

  process_messages-Adds :
      (id stream : Text) (et : EventType) (msgs : List Message)
      → Adds id
          (delivered_in id msgs)
          (process_messages w prefix max_retries handlers stream et msgs)
  unfolding process_messages delivered_in
  process_messages-Adds id stream et [] = Adds-pure id 0
  process_messages-Adds id stream et (msg ∷ msgs) =
      Adds-then id _ _ (process_message w prefix max_retries handlers stream et msg)
        (process_messages w prefix max_retries handlers stream et msgs)
        (process_message-Has id stream et msg) (process_messages-Adds id stream et msgs)

  of_type-Adds :
      (id stream : Text) (o : Option EventType) (msgs : List Message)
      → Adds id (delivered_in id msgs) (of_type w prefix max_retries handlers stream o msgs)
  of_type-Adds id stream none msgs = Adds-pure id (delivered_in id msgs)
  of_type-Adds id stream (some et) msgs = process_messages-Adds id stream et msgs

  process_results-Adds :
      (id : Text) (results : List (Text × List Message))
      → Adds id (delivered_round id results) (process_results w prefix max_retries handlers results)
  unfolding process_results delivered_round
  process_results-Adds id [] = Adds-pure id 0
  process_results-Adds id ((stream, msgs) ∷ results) =
      Adds-then id _ _
        (of_type w prefix max_retries handlers stream (stream_type prefix stream) msgs)
        (process_results w prefix max_retries handlers results)
        (of_type-Adds id stream (stream_type prefix stream) msgs) (process_results-Adds id results)

  read_loop-Adds :
      (id : Text) (rounds : List (List (Text × List Message)))
      → Adds id (delivered id rounds) (read_loop w prefix max_retries handlers rounds)
  unfolding read_loop delivered
  read_loop-Adds id [] = Adds-pure id 0
  read_loop-Adds id (results ∷ rounds) =
      Adds-then id _ _ (process_results w prefix max_retries handlers results)
        (read_loop w prefix max_retries handlers rounds) (process_results-Adds id results)
        (read_loop-Adds id rounds)

  -- Whatever is received, whichever handlers raise and whichever commands Redis refuses: a message is
  -- acknowledged only after all its handlers returned or right after it was sent to the dead-letter
  -- stream, and it is sent there only if it cannot be read, or if a handler just raised and handlers
  -- have raised at its id `max_retries` times. The subscriber never tracks the retries of more
  -- messages than its limit.
  pub read_loop-Justified :
      (rounds : List (List (Text × List Message)))
      → Justified w prefix max_retries handlers
          (read_loop w prefix max_retries handlers rounds new).1.log
        × (length (read_loop w prefix max_retries handlers rounds new).1.retry_counts
            ≤ max_retry_tracking)
  unfolding Justified
  read_loop-Justified rounds =
      let counted = (read_loop-Counted w prefix max_retries handlers rounds).at new start in
      (counted.is_justified, counted.is_bounded)

  -- If every id is delivered fewer than `max_retries` times, counted over all streams (ids are unique
  -- only within a stream), then a message is never sent to a dead-letter stream because a handler
  -- raised.
  pub read_loop-OnlyUnreadable :
      (rounds : List (List (Text × List Message)))
      → ((id : Text) → delivered id rounds < max_retries)
      → OnlyUnreadable (read_loop w prefix max_retries handlers rounds new).1.log
  unfolding receives
  read_loop-OnlyUnreadable rounds few =
      only_unreadable (read_loop w prefix max_retries handlers rounds new).1.log
        (λ id.
          let k = (read_loop-Adds id rounds 0).at new (record { receives_le = omega arith }) in
          omega (arith, k.receives_le, few id))
        (read_loop-Justified rounds).0
