-- ===== src/Fabric/Tests.antt =====
-- A pipeline with a message that the normalizer refuses, and the theorems at it.
use Prim.Native.String.{◌++◌ as text_append}
use blue_team_os.Prelude.{
  ℕ, ◌≡◌, refl, String, false, none, some, List, [], ◌∷◌, lookup, insert, mem_text,
}
use blue_team_os.Errors.{Result, ok, err, value_error}
use blue_team_os.Value.{Doc, Runtime, pos, text, get_or, truthy, to_str}
use blue_team_os.Event.{CanonicalEvent, informational}
use blue_team_os.Fabric.Envelope.{FabricEnvelope, envelope, raw}
use blue_team_os.Fabric.Memory.{InMemoryFabric, new_fabric, publish, bump, take_batch, consume}
use blue_team_os.Fabric.Pipeline.{
  EventPipeline, Calls, Counts, consume_rounds, consume_all, ingest_raw, handle, handle_all,
  drain_raw, with_fabric,
}
use blue_team_os.Fabric.Fresh.{AreNew, AreKnown, first_fresh}
use blue_team_os.Fabric.Drain.{consume_all-once}
use blue_team_os.Fabric.Retry.{drain_raw-drain_raw}
use blue_team_os.Fabric.Tenants.{Adds, drain_raw-Adds}

abbrev py : Runtime
py = record { repr = λ v. "repr"; int_of_text = λ s. none; float_of_text = λ s. none }

abbrev event_of : String → String → CanonicalEvent
event_of id tenant_id = record {
  id = id;
  tenant_id = tenant_id;
  timestamp = 0;
  is_naive = false;
  ingested_at = 0;
  source = "test";
  source_type = "test";
  event_type = "login";
  category = "authentication";
  user = none;
  host = none;
  process = none;
  parent_process = none;
  src_ip = none;
  dst_ip = none;
  src_port = none;
  dst_port = none;
  protocol = none;
  domain = none;
  url = none;
  file = none;
  hash = none;
  identity = none;
  cloud_resource = none;
  action = none;
  outcome = none;
  severity = informational;
  confidence = pos 1000000;
  risk_score = pos 0;
  raw_event = [];
  schema_version = "1.0.0";
  attributes = [];
  idempotency_key = none;
  correlation_id = none;
  trace_id = none;
  raw_hash = none;
}

-- A payload without a source is refused.
abbrev normalizer : Doc → String → Result CanonicalEvent
normalizer payload tenant_id = elim (lookup "source" payload) [
  | none ↦ err (value_error "source")
  | some v ↦ ok (event_of (to_str py (get_or payload "id" (text "evt_0"))) tenant_id)
]

abbrev calls : Calls
calls = record {
  py = py;
  normalizer = normalizer;
  model_dump = λ event. [];
  show = λ e. "error";
  new_id = λ n. "evt_new";
  utcnow = λ n. n;
}

abbrev good : Doc
good = ("id", text "evt_1") ∷ (("source", text "vpn") ∷ [])

abbrev bad : Doc
bad = ("id", text "evt_2") ∷ []

abbrev started : EventPipeline
started = record { fabric = new_fabric; max_attempts = 3; events = []; drawn = 0 }

-- The pipeline that has taken both payloads in.
abbrev ingested : EventPipeline
ingested = (ingest_raw calls "ten_a" bad (ingest_raw calls "ten_a" good started).1).1

abbrev message_of : String → Doc → ℕ → FabricEnvelope
message_of id payload now = record {
  event_id = id;
  tenant_id = "ten_a";
  schema_version = "1.0.0";
  topic = raw;
  produced_at = now;
  idempotency_key = text_append "telemetry.raw.v1:" id;
  payload = payload;
  attempt = 0;
  poison = false;
  partition_key = "ten_a";
}

abbrev waiting : List FabricEnvelope
waiting = message_of "evt_1" good 0 ∷ (message_of "evt_2" bad 1 ∷ [])

two_messages : lookup raw ingested.fabric.topics ≡ some waiting
unfolding lookup insert ingest_raw envelope publish bump get_or truthy to_str
two_messages = refl

abbrev first_drain : Result Counts × EventPipeline
first_drain = elim (drain_raw calls "normalizer" ingested) [
  | none ↦ (err (value_error "fuel"), started)
  | some f ↦ f
]

first_drained : drain_raw calls "normalizer" ingested ≡ some first_drain
unfolding drain_raw consume_all consume_rounds consume take_batch handle_all handle lookup insert
    ingest_raw envelope publish bump get_or truthy to_str mem_text
first_drained = refl

-- One event is normalized; the other message is neither that nor a dead letter.
first_counts : first_drain.0 ≡ ok (record { accepted = 1; dead = 0 })
unfolding drain_raw consume_all consume_rounds consume take_batch handle_all handle lookup insert
    ingest_raw envelope publish bump get_or truthy to_str mem_text
first_counts = refl

consume_all-once_example :
    (batch : List FabricEnvelope) × (fabric : InMemoryFabric) × (consume_all raw "normalizer"
        ingested.fabric
      ≡ some (ok batch, fabric))
    × AreNew "normalizer" ingested.fabric.consumed batch
    × AreKnown "normalizer" fabric.consumed batch
consume_all-once_example = consume_all-once raw "normalizer" ingested.fabric waiting two_messages

drain_raw-Adds_example :
    Adds calls (first_fresh "normalizer" ingested.fabric.consumed waiting) ingested first_drain.1
drain_raw-Adds_example =
    drain_raw-Adds calls "normalizer" ingested waiting first_drain two_messages first_drained

drain_raw-drain_raw_example :
    (fabric : InMemoryFabric) × (drain_raw calls "normalizer" first_drain.1
      ≡ some (ok (record { accepted = 0; dead = 0 }), with_fabric first_drain.1 fabric))
    × (lookup raw fabric.topics ≡ some [])
drain_raw-drain_raw_example =
    drain_raw-drain_raw calls calls "normalizer" ingested waiting first_drain two_messages
      first_drained
