-- ===== src/Events/Subscriber/Due.antt =====
-- What the parts of the read loop (subscriber.py) add to the log.
use architect.Common.{
  ℕ, suc, ◌+◌, ◌≤◌, ◌≡◌, refl, true, ==-refl, Option, none, some, List, [], ◌∷◌, arith, leb, sym,
  subst, Option-cases, inl, inr, leb→le,
}
use architect.Common.Result.{Action, Result, ok, err, pure, reads, modify, ◌>>◌}
use architect.Common.Dict.{insert, lookup}
use architect.Common.Text.{Text, codes, text_eq, text_beq_iff}
use architect.Common.Triple.{
  Triple, Keeps, Keeps-then, Keeps-pure, Triple-bind, Triple-modify, Triple-weaken, Triple-if,
  Triple-pure, Triple-reads,
}
use architect.Events.Streams.{EventType, dlq_stream_name, stream_type}
use architect.Events.Subscriber.{
  Handler, Message, Entry, received, call, xadd, xack, World, deserialize_event, Subscriber, Stop,
  dlq_fields, or_zero, note, send, move_to_dlq, invoke, call_next, run_handlers, forget,
  count_failure, after_failure, acknowledge, conclude, dispatch, process_message, process_messages,
  of_type, process_results, read_loop,
}
use architect.Events.Subscriber.Deliveries.{
  current, has_id, rev_onto, fails, served, IsDue, Justified, IsCounted, due_received, due_call,
  due_ack, due_ack_dead, due_unreadable, due_dead,
}
use architect.Events.Subscriber.Counts.{
  All-weaken, All-insert, All-erase, All-prune, lookup-All, length-insert, length-erase,
  length-prune,
}

module _ (w : World) (prefix : Text) (max_retries : ℕ) (handlers : EventType → List Handler) where
  abbrev pub Counted : Subscriber → Type 0
  Counted = IsCounted w prefix max_retries handlers

  fails_mono :
      (k : Text) (e : Entry) (log : List Entry)
      → fails w prefix max_retries handlers k log ≤ fails w prefix max_retries handlers k (e ∷ log)
  unfolding fails
  fails_mono k (received stream msg) log = omega arith
  fails_mono k (call h) log = omega arith
  fails_mono k (xadd stream fields) log = omega arith
  fails_mono k (xack stream id) log = omega arith

  note-IsCounted :
      (e : Entry) (s : Subscriber)
      → IsDue w prefix max_retries handlers s.log e
      → Counted s
      → Counted (note e s)
  unfolding Justified
  note-IsCounted e s due h = record {
    is_justified = (due, h.is_justified);
    counts_le =
        All-weaken _ _ s.retry_counts (λ (k, n) le. omega (arith, le, fails_mono k e s.log))
          h.counts_le;
    is_bounded = h.is_bounded;
  }

  forget-IsCounted :
      (msg : Message) (s : Subscriber)
      → Counted s
      → Counted (forget w prefix max_retries handlers msg s)
  forget-IsCounted msg s h = record {
    is_justified = h.is_justified;
    counts_le = All-erase _ msg.id s.retry_counts h.counts_le;
    is_bounded = omega (arith, length-erase msg.id s.retry_counts, h.is_bounded);
  }

  count-IsCounted :
      (msg : Message) (n : ℕ) (s : Subscriber)
      → n ≤ fails w prefix max_retries handlers msg.id s.log
      → Counted s
      → Counted (count_failure w prefix max_retries handlers msg n s)
  count-IsCounted msg n s le h = record {
    is_justified = h.is_justified;
    counts_le =
        All-prune _ (insert msg.id n s.retry_counts)
          (All-insert _ msg.id n s.retry_counts le h.counts_le);
    is_bounded =
        length-prune (insert msg.id n s.retry_counts)
          (omega (arith, length-insert msg.id n s.retry_counts, h.is_bounded));
  }

  send-Counted :
      (e : Entry)
      → Triple
          (λ s. IsDue w prefix max_retries handlers s.log e × Counted s)
          (send w prefix max_retries handlers e)
          (λ _ s. Counted s)
  unfolding send
  send-Counted e = record { at = λ s (due, h). note-IsCounted e s due h }

  count_eq : {a b : ℕ} → ◌≡◌ {A = Result Stop ℕ} (ok a) (ok b) → a ≡ b
  count_eq e = cc

  module _ (stream : Text) (et : EventType) (msg : Message)
      (type_eq : stream_type prefix stream ≡ some et) where
    abbrev IsAt : Subscriber → Type 0
    IsAt s = current s.log ≡ some (stream, msg)

    move_to_dlq-Counted :
        (error : Text)
        → Triple
            (λ s.
              IsAt s
              × IsDue w prefix max_retries handlers s.log
                  (xadd (dlq_stream_name prefix et) (dlq_fields stream msg error))
              × Counted s)
            (move_to_dlq w prefix max_retries handlers stream et msg error)
            (λ _ s. Counted s)
    unfolding move_to_dlq send
    move_to_dlq-Counted error =
        Triple-bind
          {R = λ _ s. IsDue w prefix max_retries handlers s.log (xack stream msg.id) × Counted s}
          (send w prefix max_retries handlers
            (xadd (dlq_stream_name prefix et) (dlq_fields stream msg error)))
          _
          (record {
            at = λ s (cur, due, h).
                (due_ack_dead s.log stream msg et error cur, note-IsCounted _ s due h);
          })
          (λ _. send-Counted (xack stream msg.id)) (λ e s h. h.1)

    abbrev Served : List Handler → Subscriber → Type 0
    Served hs s = IsAt s × (served w prefix max_retries handlers hs s.log ≡ true) × Counted s

    abbrev Failed : Text → Subscriber → Type 0
    Failed error s =
        IsAt s
        × (w.raised s.log ≡ some error)
        × (or_zero (lookup msg.id s.retry_counts) + 1
            ≤ fails w prefix max_retries handlers msg.id s.log)
        × Counted s

    abbrev Called : List Handler → Result Stop (Option Text) → Subscriber → Type 0
    Called hs (ok none) s = Served hs s
    Called hs (ok (some error)) s = Failed error s
    Called hs (err e) s = Counted s

    raised_once :
        (h : Handler) (log : List Entry) (error : Text)
        → current log ≡ some (stream, msg)
        → w.raised (call h ∷ log) ≡ some error
        → fails w prefix max_retries handlers msg.id (call h ∷ log)
          ≡ suc (fails w prefix max_retries handlers msg.id log)
    unfolding fails
    raised_once h log error cur e =
        let same : has_id msg.id (current log) ≡ true =
          rw cur ((text_beq_iff msg.id msg.id).1 refl) in
        rw e (rw same (omega arith))

    called :
        (h : Handler) (hs : List Handler) (s : Subscriber)
        → Served hs s
        → Called (h ∷ hs) (ok (w.raised (call h ∷ s.log))) (note (call h) s)
    unfolding current served
    called h hs s (cur, fine, c) = elim (Option-cases (w.raised (call h ∷ s.log))) [
      | inl e ↦
          subst (λ o. Called (h ∷ hs) (ok o) (note (call h) s)) (sym e)
            (
              cur,
              ground (arith, e, fine, ==-refl h),
              note-IsCounted (call h) s (due_call s.log h hs fine) c,
            )
      | inr (error, e) ↦
          subst (λ o. Called (h ∷ hs) (ok o) (note (call h) s)) (sym e)
            (
              cur,
              e,
              omega (
                arith,
                raised_once h s.log error cur e,
                lookup-All (λ k. fails w prefix max_retries handlers k s.log) msg.id s.retry_counts
                    c.counts_le,
              ),
              note-IsCounted (call h) s (due_call s.log h hs fine) c,
            )
    ]

    invoke-Called :
        (h : Handler) (hs : List Handler)
        → Triple (Served hs) (invoke w prefix max_retries handlers h) (Called (h ∷ hs))
    unfolding invoke
    invoke-Called h hs = record { at = called h hs }

    call_next-Called :
        (error : Option Text) (hs done : List Handler) (next : Action Subscriber Stop (Option Text))
        → Triple (Served hs) next (Called done)
        → Triple
            (Called hs (ok error))
            (call_next w prefix max_retries handlers error next)
            (Called done)
    call_next-Called none hs done next h = h
    call_next-Called (some error) hs done next h = Triple-pure (some error) (λ s k. k)

    run_handlers-Called :
        (gs hs : List Handler)
        → Triple
            (Served hs)
            (run_handlers w prefix max_retries handlers gs)
            (Called (rev_onto gs hs))
    unfolding run_handlers
    run_handlers-Called [] hs = Triple-pure none (λ s h. h)
    run_handlers-Called (g ∷ gs) hs =
        Triple-bind (invoke w prefix max_retries handlers g) _ (invoke-Called g hs)
          (λ error.
            call_next-Called error (g ∷ hs) (rev_onto gs (g ∷ hs)) _
              (run_handlers-Called gs (g ∷ hs)))
          (λ e s h. h)

    after_failure-Counted :
        (error : Text)
        → Triple
            (Failed error)
            (after_failure w prefix max_retries handlers stream et msg error)
            (λ _ s. Counted s)
    unfolding after_failure
    after_failure-Counted error =
        Triple-bind
          {R = λ r s. Failed error s × (r ≡ ok (or_zero (lookup msg.id s.retry_counts) + 1))}
          (reads (λ s. ok (or_zero (lookup msg.id s.retry_counts) + 1))) _
          (Triple-reads _ (λ s h. (h, refl)))
          (λ count.
            Triple-modify
              {P' = λ s.
                IsAt s
                × (w.raised s.log ≡ some error)
                × (count ≤ fails w prefix max_retries handlers msg.id s.log)
                × Counted s}
              (count_failure w prefix max_retries handlers msg count) _
              (λ s ((cur, raised, le, h), e). (
                cur,
                raised,
                omega (arith, count_eq e, le),
                count-IsCounted msg count s (omega (arith, count_eq e, le)) h,
              ))
              (Triple-if (leb max_retries count)
                (move_to_dlq w prefix max_retries handlers stream et msg error
                  >> modify (forget w prefix max_retries handlers msg))
                (pure tt)
                (λ often.
                  Triple-bind {R = λ _ s. Counted s}
                    (move_to_dlq w prefix max_retries handlers stream et msg error) _
                    (Triple-weaken _
                      (λ s (cur, raised, le, h). (
                        cur,
                        due_dead s.log stream msg et error cur raised
                            (omega (arith, leb→le max_retries count often, le)),
                        h,
                      ))
                      (λ r s h. h) (move_to_dlq-Counted error))
                    (λ _. record { at = forget-IsCounted msg }) (λ e s h. h))
                (λ _. Triple-pure tt (λ s h. h.3))))
          (λ e s h. h.0.3)

    acknowledge-Counted :
        Triple
          (Served (rev_onto (handlers et) []))
          (acknowledge w prefix max_retries handlers stream msg)
          (λ _ s. Counted s)
    unfolding acknowledge
    acknowledge-Counted =
        Triple-bind {R = λ _ s. Counted s} (send w prefix max_retries handlers (xack stream msg.id))
          _
          (Triple-weaken _ (λ s (cur, fine, h). (due_ack s.log stream msg et cur type_eq fine, h))
            (λ r s h. h) (send-Counted (xack stream msg.id)))
          (λ _. record { at = forget-IsCounted msg }) (λ e s h. h)

    conclude-Counted :
        (failure : Option Text)
        → Triple
            (Called (rev_onto (handlers et) []) (ok failure))
            (conclude w prefix max_retries handlers stream et msg failure)
            (λ _ s. Counted s)
    conclude-Counted none = acknowledge-Counted
    conclude-Counted (some error) = after_failure-Counted error

    dispatch-Counted :
        (o : Option w.Envelope)
        → deserialize_event w msg.fields ≡ o
        → Triple
            (Served [])
            (dispatch w prefix max_retries handlers stream et msg o)
            (λ _ s. Counted s)
    dispatch-Counted none e =
        Triple-weaken _ (λ s (cur, fine, h). (cur, due_unreadable s.log stream msg et cur e, h))
          (λ r s h. h) (move_to_dlq-Counted (codes "deserialization_error"))
    dispatch-Counted (some envelope) e =
        Triple-bind (run_handlers w prefix max_retries handlers (handlers et)) _
          (run_handlers-Called (handlers et) []) conclude-Counted (λ e s h. h)

    process_message-Counted :
        Keeps Counted (process_message w prefix max_retries handlers stream et msg)
    unfolding process_message current served
    process_message-Counted =
        Triple-modify {P' = Served []} (note (received stream msg)) _
          (λ s h.
            (refl, refl, note-IsCounted (received stream msg) s (due_received s.log stream msg) h))
          (dispatch-Counted (deserialize_event w msg.fields) refl)

  process_messages-Counted :
      (stream : Text) (et : EventType) (msgs : List Message)
      → stream_type prefix stream ≡ some et
      → Keeps Counted (process_messages w prefix max_retries handlers stream et msgs)
  unfolding process_messages
  process_messages-Counted stream et [] e = Keeps-pure tt
  process_messages-Counted stream et (msg ∷ msgs) e =
      Keeps-then _ _ (process_message-Counted stream et msg e)
        (process_messages-Counted stream et msgs e)

  of_type-Counted :
      (stream : Text) (o : Option EventType) (msgs : List Message)
      → stream_type prefix stream ≡ o
      → Keeps Counted (of_type w prefix max_retries handlers stream o msgs)
  of_type-Counted stream none msgs e = Keeps-pure tt
  of_type-Counted stream (some et) msgs e = process_messages-Counted stream et msgs e

  process_results-Counted :
      (results : List (Text × List Message))
      → Keeps Counted (process_results w prefix max_retries handlers results)
  unfolding process_results
  process_results-Counted [] = Keeps-pure tt
  process_results-Counted ((stream, msgs) ∷ results) =
      Keeps-then _ _ (of_type-Counted stream (stream_type prefix stream) msgs refl)
        (process_results-Counted results)

  pub read_loop-Counted :
      (rounds : List (List (Text × List Message)))
      → Keeps Counted (read_loop w prefix max_retries handlers rounds)
  unfolding read_loop
  read_loop-Counted [] = Keeps-pure tt
  read_loop-Counted (results ∷ rounds) =
      Keeps-then _ _ (process_results-Counted results) (read_loop-Counted rounds)
