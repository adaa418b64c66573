-- ===== src/Event.antt =====
-- packages/schemas/blueteam_schemas/events.py: the canonical event. A datetime is its microseconds
-- since 1970, a float its millionths.
use blue_team_os.Prelude.{ℕ, String, Bool, ◌||◌, not, Option, ◌==◌, starts_with}
use blue_team_os.Value.{ℤ, Doc}

pub data Severity : Type 0 where
  informational low medium high critical : Severity

pub data Outcome : Type 0 where
  success failure unknown : Outcome

pub record CanonicalUser : Type 0 where
  pub name : Option String
  pub id : Option String
  pub email : Option String
  pub domain : Option String

pub record CanonicalHost : Type 0 where
  pub name : Option String
  pub id : Option String
  pub os : Option String
  pub ip : Option String

pub record CanonicalProcess : Type 0 where
  pub name : Option String
  pub pid : Option ℤ
  pub command_line : Option String
  pub hash : Option String
  pub path : Option String

pub record CanonicalFile : Type 0 where
  pub name : Option String
  pub path : Option String
  pub hash_md5 : Option String
  pub hash_sha1 : Option String
  pub hash_sha256 : Option String
  pub size : Option ℤ

pub record CanonicalIdentity : Type 0 where
  pub id : Option String
  pub type : Option String
  pub provider : Option String

pub record CanonicalCloudResource : Type 0 where
  pub provider : Option String
  pub account_id : Option String
  pub resource_id : Option String
  pub resource_type : Option String
  pub region : Option String

pub record CanonicalEvent : Type 0 where
  pub id : String
  pub tenant_id : String
  pub timestamp : ℕ
  -- The timestamp has no zone; it is then read as if its zone were UTC.
  pub is_naive : Bool
  pub ingested_at : ℕ
  pub source : String
  pub source_type : String
  pub event_type : String
  pub category : String
  pub user : Option CanonicalUser
  pub host : Option CanonicalHost
  pub process : Option CanonicalProcess
  pub parent_process : Option CanonicalProcess
  pub src_ip : Option String
  pub dst_ip : Option String
  pub src_port : Option ℤ
  pub dst_port : Option ℤ
  pub protocol : Option String
  pub domain : Option String
  pub url : Option String
  pub file : Option CanonicalFile
  pub hash : Option String
  pub identity : Option CanonicalIdentity
  pub cloud_resource : Option CanonicalCloudResource
  pub action : Option String
  pub outcome : Option Outcome
  pub severity : Severity
  pub confidence : ℤ
  pub risk_score : ℤ
  pub raw_event : Doc
  pub schema_version : String
  pub attributes : Doc
  pub idempotency_key : Option String
  pub correlation_id : Option String
  pub trace_id : Option String
  pub raw_hash : Option String

-- The validator of tenant_id: `value` and its ten_ prefix.
abbrev pub is_tenant : String → Bool
is_tenant value = not (value == "" || not (starts_with value "ten_"))
