-- ===== src/Events/Dlq/RoundTrip.antt =====
-- What becomes of a message that was put on a dead-letter stream and is reprocessed (dlq.py).
use architect.Common.{
  ℕ, suc, ◌+◌, ◌≡◌, ◌≢◌, refl, sym, ap, ◌∙◌, Bool, false, none, List, [], ◌∷◌, ◌++◌, All, length,
  arith, subst, map,
}
use mathlib.Core.List.{append-nil, append_assoc}
use architect.Common.Result.{ok}
use architect.Common.Dict.{insert, lookup}
use architect.Common.Text.{Text, text_eq}
use architect.Events.Streams.{EventType, stream_name, dlq_stream_name}
use architect.Events.Subscriber.{Fields, Message, copy, metadata, dlq_fields}
use architect.Events.Dlq.{
  Command, publish, delete, is_metadata, strip_metadata, send, republish, reprocess,
}

-- No key of the second fields is among the first, or twice there.
unfoldable pub Fresh : Fields → Fields → Type 0
Fresh before [] = Unit
Fresh before ((k, v) ∷ rest) = (lookup k before ≡ none) × Fresh (before ++ (k, v) ∷ []) rest

insert_fresh : (k v : Text) (d : Fields) → lookup k d ≡ none → insert k v d ≡ d ++ (k, v) ∷ []
insert_fresh k v [] h = refl
insert_fresh k v ((j, u) ∷ d) h = ground (arith, h, insert_fresh k v d)

copy-Fresh : (rest before : Fields) → Fresh before rest → copy rest before ≡ before ++ rest
unfolding Fresh
copy-Fresh [] before h = sym (append-nil before)
copy-Fresh ((k, v) ∷ rest) before h =
    ap (copy rest) (insert_fresh k v before h.0)
    ∙ copy-Fresh rest (before ++ (k, v) ∷ []) h.1
    ∙ append_assoc before ((k, v) ∷ []) rest

lookup-append :
    (k : Text) (a b : Fields) → lookup k (a ++ b) ≡ none → (lookup k a ≡ none) × (lookup k b ≡ none)
lookup-append k [] b h = (refl, h)
lookup-append k ((j, v) ∷ a) b h = ground (arith, h, lookup-append k a b)

strip-Fresh :
    (stream id error : Text) (rest clean : Fields)
    → Fresh (metadata stream id error ++ clean) rest
    → strip_metadata clean rest ≡ clean ++ rest
unfolding Fresh strip_metadata
strip-Fresh stream id error [] clean h = sym (append-nil clean)
strip-Fresh stream id error ((k, v) ∷ rest) clean h =
    let parts = lookup-append k (metadata stream id error) clean h.0 in
    let plain : is_metadata k ≡ false = ground (arith, parts.0) in
    rw plain (
      ap (λ c. strip_metadata c rest) (insert_fresh k v clean parts.1)
      ∙ strip-Fresh stream id error rest (clean ++ (k, v) ∷ []) (
          subst (λ l. Fresh l rest) (append_assoc (metadata stream id error) clean ((k, v) ∷ []))
            h.1)
      ∙ append_assoc clean ((k, v) ∷ []) rest)

strip-dlq_fields :
    (stream error : Text) (msg : Message)
    → Fresh (metadata stream msg.id error) msg.fields
    → strip_metadata [] (dlq_fields stream msg error) ≡ msg.fields
unfolding strip_metadata dlq_fields
strip-dlq_fields stream error msg h =
    ap (strip_metadata []) (copy-Fresh msg.fields (metadata stream msg.id error) h)
    ∙ strip-Fresh stream msg.id error msg.fields [] h

-- A message on the dead-letter stream, under a new id.
pub record Letter : Type 0 where
  pub mid : Text
  pub stream : Text
  pub msg : Message
  pub error : Text

abbrev pub stored : Letter → Text × Fields
stored l = (l.mid, dlq_fields l.stream l.msg l.error)

abbrev pub IsPlain : Letter → Type 0
IsPlain l = Fresh (metadata l.stream l.msg.id l.error) l.msg.fields × (l.msg.fields ≢ [])

-- Each message is published as it was, and deleted after that.
abbrev pub sent : Text → EventType → List Letter → List Command → List Command
sent prefix et [] log = log
sent prefix et (l ∷ letters) log =
    sent prefix et letters (
      delete (dlq_stream_name prefix et) l.mid ∷ publish (stream_name prefix et) l.msg.fields ∷ log)

module _ (prefix : Text) (et : EventType) where
  abbrev takes_all : List Command → Bool
  takes_all log = false

  republish-plain :
      (fields : Fields) (log : List Command)
      → fields ≢ []
      → republish takes_all prefix et fields log
        ≡ (ok tt, publish (stream_name prefix et) fields ∷ log)
  unfolding send
  republish-plain [] log h = absurd (h refl)
  republish-plain (item ∷ items) log h = refl

  reprocess_from :
      (letters : List Letter) (count : ℕ) (log : List Command)
      → All IsPlain letters
      → reprocess takes_all prefix et count (map stored letters) log
        ≡ (ok (count + length letters), sent prefix et letters log)
  unfolding reprocess send
  reprocess_from [] count log h = ap (λ n. (ok n, log)) (omega arith)
  reprocess_from (l ∷ letters) count log h =
      let next =
        delete (dlq_stream_name prefix et) l.mid
        ∷ publish (stream_name prefix et) l.msg.fields
        ∷ log in
      let more : count + 1 + length letters ≡ count + suc (length letters) = omega arith in
      rw (strip-dlq_fields l.stream l.error l.msg h.0.0) (
        rw (republish-plain l.msg.fields log h.0.1) (
          reprocess_from letters (count + 1) next h.1
          ∙ ap (λ n. (ok n, sent prefix et letters next)) more))

  -- If Redis takes every command and no field of the messages clashes with the metadata, reprocessing
  -- dead letters publishes each message with the fields that it had, deletes each after that, and
  -- returns their number.
  pub reprocess-sent :
      (letters : List Letter)
      → All IsPlain letters
      → reprocess (λ log. false) prefix et 0 (map stored letters) []
        ≡ (ok (length letters), sent prefix et letters [])
  reprocess-sent letters h =
      let same : 0 + length letters ≡ length letters = omega arith in
      reprocess_from letters 0 [] h ∙ ap (λ n. (ok n, sent prefix et letters [])) same
