-- ===== src/Fabric/Pipeline.antt =====
-- pipeline.py: `EventPipeline.ingest_raw`, `_consume_all` and `drain_raw`. A method gives what it
-- returns or raises, beside the pipeline after it.
use Prim.Native.String.{◌++◌ as text_append}
use blue_team_os.Prelude.{
  ℕ, zero, suc, ◌+◌, String, not, Option, none, some, List, [], ◌∷◌, ◌++◌, ◌==◌, length, leb,
  lookup, if◌then◌else◌,
}
use blue_team_os.Errors.{Error, Result, ok, err, value_error}
use blue_team_os.Value.{Doc, Runtime, text, null, get_or}
use blue_team_os.Event.{CanonicalEvent}
use blue_team_os.Fabric.Envelope.{FabricEnvelope, envelope, raw, normalized}
use blue_team_os.Fabric.Memory.{InMemoryFabric, publish, consume, dead_letter}

-- `drawn` counts the identifiers and times that were taken.
pub record EventPipeline : Type 0 where
  pub fabric : InMemoryFabric
  pub max_attempts : ℕ
  pub events : List CanonicalEvent
  pub drawn : ℕ

-- What the pipeline calls: the normalizer, event.model_dump(mode="json"), str(exc), new_id, utcnow.
pub record Calls : Type 0 where
  pub py : Runtime
  pub normalizer : Doc → String → Result CanonicalEvent
  pub model_dump : CanonicalEvent → Doc
  pub show : Error → String
  pub new_id : ℕ → String
  pub utcnow : ℕ → ℕ

pub record Counts : Type 0 where
  pub accepted : ℕ
  pub dead : ℕ

abbrev pub with_fabric : EventPipeline → InMemoryFabric → EventPipeline
with_fabric p fabric = record p { fabric = fabric }

abbrev pub published_in :
    EventPipeline → Result String × InMemoryFabric → Result String × EventPipeline
published_in p (result, fabric) = (result, with_fabric p fabric)

abbrev pub publish_envelope : EventPipeline → Result FabricEnvelope → Result String × EventPipeline
publish_envelope p (err exc) = (err exc, p)
publish_envelope p (ok message) = published_in p (publish message p.fabric)

abbrev pub drew : EventPipeline → EventPipeline
drew p = record p { drawn = p.drawn + 1 }

-- if not chunk: break, or batch.extend(chunk) and the loop's next round.
abbrev pub chunk_taken :
    List FabricEnvelope
    → (InMemoryFabric
        → List FabricEnvelope
        → Option (Result (List FabricEnvelope) × InMemoryFabric))
    → Result (List FabricEnvelope) × InMemoryFabric
    → Option (Result (List FabricEnvelope) × InMemoryFabric)
chunk_taken batch again (err exc, fabric) = some (err exc, fabric)
chunk_taken batch again (ok [], fabric) = some (ok batch, fabric)
chunk_taken batch again (ok (m ∷ ms), fabric) = again fabric (batch ++ m ∷ ms)

-- _consume_all: `while True`, on fuel; `none` means that it ran out.
unfoldable pub consume_rounds :
    ℕ
    → (topic group : String) → InMemoryFabric
    → List FabricEnvelope
    → Option (Result (List FabricEnvelope) × InMemoryFabric)
consume_rounds zero topic group fabric batch = none
consume_rounds (suc fuel) topic group fabric batch =
    chunk_taken batch (consume_rounds fuel topic group) (consume topic 500 group fabric)

abbrev pub queue_of : String → InMemoryFabric → List FabricEnvelope
queue_of topic fabric = elim (lookup topic fabric.topics) [ none ↦ [] | some queue ↦ queue ]

-- The fuel is one more than the length of the queue.
unfoldable pub consume_all :
    (topic group : String) → InMemoryFabric → Option (Result (List FabricEnvelope) × InMemoryFabric)
consume_all topic group fabric =
    consume_rounds (suc (length (queue_of topic fabric))) topic group fabric []

module _ (calls : Calls) where
  -- The message is returned once it is published.
  abbrev pub returned :
      Result FabricEnvelope → Result String × EventPipeline → Result FabricEnvelope × EventPipeline
  returned message (err exc, p) = (err exc, p)
  returned message (ok event_id, p) = (message, p)

  -- ingest_raw
  unfoldable pub ingest_raw :
      (tenant_id : String) → Doc → EventPipeline → Result FabricEnvelope × EventPipeline
  ingest_raw tenant_id payload p =
      let message =
        envelope calls.py (calls.new_id p.drawn) (calls.utcnow p.drawn) raw tenant_id payload
          (get_or payload "id" null) none in
      returned message (publish_envelope (drew p) message)

  abbrev pub publish_event : EventPipeline → CanonicalEvent → Result String × EventPipeline
  publish_event p event = publish_envelope (drew p) (
      envelope calls.py (calls.new_id p.drawn) (calls.utcnow p.drawn) normalized event.tenant_id
        (calls.model_dump event) (text event.id) none)

  -- The checks of the event, and its way into the pipeline.
  abbrev pub accept :
      FabricEnvelope → Result CanonicalEvent → EventPipeline → Result String × EventPipeline
  accept message (err exc) p = (err exc, p)
  accept message (ok event) p =
      if not (event.tenant_id == message.tenant_id)
      then (err (value_error "tenant mismatch after normalize"), p)
      else if event.schema_version == ""
      then (err (value_error "schema_version missing after normalize"), p)
      else publish_event (record p { events = p.events ++ event ∷ [] }) event

  -- message.model_copy(update={"attempt": message.attempt + 1})
  abbrev pub retry_of : FabricEnvelope → FabricEnvelope
  retry_of message = record message { attempt = message.attempt + 1 }

  abbrev pub counted : Counts → Result String × EventPipeline → Result Counts × EventPipeline
  counted n (err exc, p) = (err exc, p)
  counted n (ok event_id, p) = (ok n, p)

  -- Behind the `try`: what it published, or the `except`.
  abbrev pub tried :
      FabricEnvelope → Counts → Result String × EventPipeline → Result Counts × EventPipeline
  tried message n (ok event_id, p) = (ok (record n { accepted = n.accepted + 1 }), p)
  tried message n (err exc, p) =
      if leb p.max_attempts (message.attempt + 1)
      then counted (record n { dead = n.dead + 1 })
          (published_in p (dead_letter message (text_append "poison: " (calls.show exc)) p.fabric))
      else counted n (published_in p (publish (retry_of message) p.fabric))

  -- The body of the loop.
  unfoldable pub handle : FabricEnvelope → Counts → EventPipeline → Result Counts × EventPipeline
  handle message n p =
      tried message n (accept message (calls.normalizer message.payload message.tenant_id) p)

  abbrev pub handled :
      (Counts → EventPipeline → Result Counts × EventPipeline)
      → Result Counts × EventPipeline
      → Result Counts × EventPipeline
  handled next (err exc, p) = (err exc, p)
  handled next (ok n, p) = next n p

  unfoldable pub handle_all :
      List FabricEnvelope → Counts → EventPipeline → Result Counts × EventPipeline
  handle_all [] n p = (ok n, p)
  handle_all (message ∷ messages) n p = handled (handle_all messages) (handle message n p)

  abbrev pub drained :
      EventPipeline → Result (List FabricEnvelope) × InMemoryFabric → Result Counts × EventPipeline
  drained p (err exc, fabric) = (err exc, with_fabric p fabric)
  drained p (ok batch, fabric) =
      handle_all batch (record { accepted = 0; dead = 0 }) (with_fabric p fabric)

  -- drain_raw
  unfoldable pub drain_raw :
      (group : String) → EventPipeline → Option (Result Counts × EventPipeline)
  drain_raw group p = elim (consume_all raw group p.fabric) [
    | none ↦ none
    | some found ↦ some (drained p found)
  ]
