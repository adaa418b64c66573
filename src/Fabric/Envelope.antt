-- ===== src/Fabric/Envelope.antt =====
-- envelope.py and topics.py.
use Prim.Native.String.{◌++◌ as text_append}
use blue_team_os.Prelude.{
  ℕ, String, Bool, false, not, Option, none, some, List, [], ◌∷◌, ◌==◌, if◌then◌else◌,
}
use blue_team_os.Errors.{Result, ok, err, value_error}
use blue_team_os.Value.{Value, Doc, Runtime, text, null, get_or, truthy, to_str}
use blue_team_os.Event.{is_tenant}

abbrev pub raw : String
raw = "telemetry.raw.v1"

abbrev pub normalized : String
normalized = "telemetry.normalized.v1"

abbrev pub findings : String
findings = "detections.findings.v1"

abbrev pub correlation : String
correlation = "correlation.candidates.v1"

abbrev pub incidents : String
incidents = "incidents.events.v1"

abbrev pub evidence : String
evidence = "evidence.created.v1"

abbrev pub health : String
health = "telemetry.health.v1"

abbrev pub deadletter : String
deadletter = "deadletter.events.v1"

abbrev pub all_topics : List String
all_topics =
    raw ∷ normalized ∷ findings ∷ correlation ∷ incidents ∷ evidence ∷ health ∷ deadletter ∷ []

pub record FabricEnvelope : Type 0 where
  pub event_id : String
  pub tenant_id : String
  pub schema_version : String
  pub topic : String
  pub produced_at : ℕ
  pub idempotency_key : String
  pub payload : Doc
  pub attempt : ℕ
  pub poison : Bool
  pub partition_key : String

-- event_id or payload.get("id") or new_id("evt")
abbrev pub envelope_id : Value → Doc → String → Value
envelope_id event_id payload new_id =
    if truthy event_id
    then event_id
    else if truthy (get_or payload "id" null)
    then get_or payload "id" null
    else text new_id

-- idempotency_key or f"{topic}:{eid}"
abbrev pub envelope_key : Option String → String → String → String
envelope_key none topic eid = text_append topic (text_append ":" eid)
envelope_key (some key) topic eid =
    if key == "" then text_append topic (text_append ":" eid) else key

-- The schema version of an envelope is never empty here, so only the tenant's validator can refuse.
unfoldable pub envelope :
    Runtime
    → (new_id : String) (now : ℕ) (topic tenant_id : String) → Doc
    → (event_id : Value) → (idempotency_key : Option String) → Result FabricEnvelope
envelope py new_id now topic tenant_id payload event_id idempotency_key =
    let eid = to_str py (envelope_id event_id payload new_id) in
    if not (is_tenant tenant_id)
    then err (value_error "tenant_id is mandatory and must use the ten_ prefix")
    else ok (record {
      event_id = eid;
      tenant_id = tenant_id;
      schema_version = "1.0.0";
      topic = topic;
      produced_at = now;
      idempotency_key = envelope_key idempotency_key topic eid;
      payload = payload;
      attempt = 0;
      poison = false;
      partition_key = tenant_id;
    })
