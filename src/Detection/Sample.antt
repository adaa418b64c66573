-- ===== src/Detection/Sample.antt =====
-- A failed login as a canonical event.
use blue_team_os.Prelude.{false, ℕ, ◌*◌, String, none, some, []}
use blue_team_os.Value.{pos}
use blue_team_os.Event.{CanonicalEvent, failure, informational}

abbrev pub login_at : String → ℕ → CanonicalEvent
login_at tenant_id time = record {
  id = "evt_1";
  tenant_id = tenant_id;
  timestamp = time;
  is_naive = false;
  ingested_at = time;
  source = "idp";
  source_type = "identity";
  event_type = "login";
  category = "authentication";
  user = some (record { name = some "alice"; id = none; email = none; domain = none });
  host = none;
  process = none;
  parent_process = none;
  src_ip = none;
  dst_ip = none;
  src_port = none;
  dst_port = none;
  protocol = none;
  domain = none;
  url = none;
  file = none;
  hash = none;
  identity = none;
  cloud_resource = none;
  action = none;
  outcome = some failure;
  severity = informational;
  confidence = pos 1000000;
  risk_score = pos 0;
  raw_event = [];
  schema_version = "1.0.0";
  attributes = [];
  idempotency_key = none;
  correlation_id = none;
  trace_id = none;
  raw_hash = none;
}

abbrev pub login : ℕ → CanonicalEvent
login second = login_at "ten_a" (second * 1000000)
