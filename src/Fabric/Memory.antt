-- ===== src/Fabric/Memory.antt =====
-- memory.py: `InMemoryFabric`. `_consumed` is a list without repetitions.
use Prim.Native.String.{◌++◌ as text_append}
use blue_team_os.Prelude.{
  ℕ, zero, suc, ◌+◌, String, true, false, Option, none, some, List, [], ◌∷◌, ◌++◌, length, mem_text,
  lookup, insert,
}
use blue_team_os.Errors.{Result, ok, err, value_error}
use blue_team_os.Value.{text}
use blue_team_os.Fabric.Envelope.{FabricEnvelope, all_topics, deadletter}

pub record InMemoryFabric : Type 0 where
  pub topics : List (String × List FabricEnvelope)
  pub consumed : List String
  pub offsets : List (String × ℕ)
  pub published : List (String × ℕ)
  pub lag : List (String × ℕ)

abbrev pub empty_queues : List String → List (String × List FabricEnvelope)
empty_queues [] = []
empty_queues (name ∷ names) = (name, []) ∷ empty_queues names

-- InMemoryFabric()
abbrev pub new_fabric : InMemoryFabric
new_fabric = record {
  topics = empty_queues all_topics;
  consumed = [];
  offsets = [];
  published = [];
  lag = [];
}

abbrev or_zero : Option ℕ → ℕ
or_zero none = 0
or_zero (some n) = n

-- counts[key] += 1, in a defaultdict(int)
unfoldable pub bump : String → List (String × ℕ) → List (String × ℕ)
bump key counts = insert key (or_zero (lookup key counts) + 1) counts

abbrev pub unknown_topic : String → Result String
unknown_topic topic = err (value_error (text_append "unknown topic " topic))

unfoldable pub publish : FabricEnvelope → InMemoryFabric → Result String × InMemoryFabric
publish message fabric = elim (lookup message.topic fabric.topics) [
  | none ↦ (err (value_error (text_append "unknown topic " message.topic)), fabric)
  | some queue ↦ (
    ok message.event_id,
    record fabric {
      topics = insert message.topic (queue ++ message ∷ []) fabric.topics;
      published = bump message.topic fabric.published;
      lag = insert message.topic (length (queue ++ message ∷ [])) fabric.lag;
    },
  )
]

-- f"{group}:{item.idempotency_key}"
abbrev pub group_key : String → FabricEnvelope → String
group_key group item = text_append group (text_append ":" item.idempotency_key)

pub record Taken : Type 0 where
  pub queue : List FabricEnvelope
  pub batch : List FabricEnvelope
  pub consumed : List String
  pub offsets : List (String × ℕ)

-- while self._topics[topic] and len(batch) < max_records: over the queue, with the room that is left.
unfoldable pub take_batch :
    (group topic : String)
    → List FabricEnvelope
    → (room : ℕ) → (batch : List FabricEnvelope) → (consumed : List String)
    → (offsets : List (String × ℕ)) → Taken
take_batch group topic [] room batch consumed offsets = record {
  queue = [];
  batch = batch;
  consumed = consumed;
  offsets = offsets;
}
take_batch group topic (item ∷ queue) zero batch consumed offsets = record {
  queue = item ∷ queue;
  batch = batch;
  consumed = consumed;
  offsets = offsets;
}
take_batch group topic (item ∷ queue) (suc room) batch consumed offsets =
    elim (mem_text (group_key group item) consumed) [
      | true ↦ take_batch group topic queue (suc room) batch consumed offsets
      | false ↦
          take_batch group topic queue room (batch ++ item ∷ [])
            (consumed ++ group_key group item ∷ [])
            (bump (text_append group (text_append ":" topic)) offsets)
    ]

abbrev pub after_take : String → InMemoryFabric → Taken → InMemoryFabric
after_take topic fabric t = record fabric {
  topics = insert topic t.queue fabric.topics;
  consumed = t.consumed;
  offsets = t.offsets;
  lag = insert topic (length t.queue) fabric.lag;
}

unfoldable pub consume :
    (topic : String) (max_records : ℕ) (group : String)
    → InMemoryFabric
    → Result (List FabricEnvelope) × InMemoryFabric
consume topic max_records group fabric = elim (lookup topic fabric.topics) [
  | none ↦ (err (value_error (text_append "unknown topic " topic)), fabric)
  | some queue ↦
      let t = take_batch group topic queue max_records [] fabric.consumed fabric.offsets in
      (ok t.batch, after_take topic fabric t)
]

-- message.model_copy(update=…) of dead_letter
unfoldable pub poisoned : FabricEnvelope → String → FabricEnvelope
poisoned message reason = record message {
  topic = deadletter;
  poison = true;
  attempt = message.attempt + 1;
  idempotency_key = text_append "dlq:" message.idempotency_key;
  payload =
      insert "original_topic" (text message.topic)
        (insert "dlq_reason" (text reason) message.payload);
}

unfoldable pub dead_letter :
    FabricEnvelope → (reason : String) → InMemoryFabric → Result String × InMemoryFabric
dead_letter message reason fabric = publish (poisoned message reason) fabric
