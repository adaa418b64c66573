-- ===== src/Store/Tables.antt =====
-- The rows of the tables, and the database as the lists of its rows in the order of insertion. A column
-- JSON holds values of Value. Sessions do not flush by themselves: what was added to the tables of
-- findings and alerts is kept apart until the next flush; every other table is flushed at once. `drawn` counts the identifiers and times that the services have taken.
use blue_team_os.Prelude.{ℕ, String, Bool, Option, List, []}
use blue_team_os.Value.{Value, Doc}

pub record SecurityEvent : Type 0 where
  pub id : String
  pub tenant_id : String
  pub timestamp : ℕ
  pub ingested_at : ℕ
  pub source : String
  pub source_type : String
  pub event_type : String
  pub category : String
  pub action : Option String
  pub outcome : Option String
  pub src_ip : Option String
  pub user_name : Option String
  pub idempotency_key : Option String
  pub raw_hash : String
  pub payload : Doc

pub record DeadLetterEvent : Type 0 where
  pub id : String
  pub tenant_id : Option String
  pub reason : String
  pub raw_payload : Doc
  pub created_at : ℕ

pub record FindingRecord : Type 0 where
  pub id : String
  pub tenant_id : String
  pub rule_id : String
  pub rule_version : String
  pub title : String
  pub severity : String
  pub confidence : ℕ
  pub fingerprint : String
  pub explanation : String
  pub mitre_techniques : List String
  pub event_ids : List String
  pub evidence_ids : List String
  pub payload : Doc
  pub created_at : ℕ

pub record Alert : Type 0 where
  pub id : String
  pub tenant_id : String
  pub finding_id : String
  pub title : String
  pub severity : String
  pub status : String
  pub created_at : ℕ

pub record Evidence : Type 0 where
  pub id : String
  pub tenant_id : String
  pub incident_id : Option String
  pub source : String
  pub acquisition_method : String
  pub original_timestamp : ℕ
  pub ingested_at : ℕ
  pub collector_identity : String
  pub integrity_hash : String
  pub object_uri : Option String
  pub parser_version : String
  pub transformation_history : List Value
  pub confidence_level : ℕ
  pub payload : Doc
  pub sealed : Bool

pub record Suppression : Type 0 where
  pub id : String
  pub tenant_id : String
  pub rule_id : String
  pub entity_key : String
  pub entity_value : String
  pub reason : String
  pub created_by : String
  pub expires_at : Option ℕ
  pub created_at : ℕ

pub record DetectionException : Type 0 where
  pub id : String
  pub tenant_id : String
  pub rule_id : String
  pub entity_key : String
  pub entity_value : String
  pub reason : String
  pub created_by : String
  pub created_at : ℕ

pub record IncidentRecord : Type 0 where
  pub id : String
  pub tenant_id : String
  pub fingerprint : String
  pub title : String
  pub status : String
  pub severity : String
  pub assignee_user_id : Option String
  pub assignee_email : Option String
  pub source_alert_id : Option String
  pub storyline_ids : List String
  pub finding_rule_ids : List String
  pub event_ids : List String
  pub evidence_ids : List String
  pub related_entity_ids : List String
  pub mitre_techniques : List String
  pub notes : List Value
  pub tasks : List Value
  pub timeline : List Value
  pub root_cause : Option String
  pub lessons_learned : Option String
  pub payload : Doc
  pub created_at : ℕ
  pub updated_at : ℕ

pub record StorylineRecord : Type 0 where
  pub id : String
  pub tenant_id : String
  pub incident_id : Option String
  pub title : String
  pub fingerprint : String
  pub confidence : ℕ
  pub payload : Doc
  pub created_at : ℕ

pub record Db : Type 0 where
  pub events : List SecurityEvent
  pub dead_letters : List DeadLetterEvent
  pub findings : List FindingRecord
  pub alerts : List Alert
  pub evidence : List Evidence
  pub suppressions : List Suppression
  pub exceptions : List DetectionException
  pub incidents : List IncidentRecord
  pub storylines : List StorylineRecord
  pub added_findings : List FindingRecord
  pub added_alerts : List Alert
  pub drawn : ℕ

abbrev pub empty_db : Db
empty_db = record {
  events = [];
  dead_letters = [];
  findings = [];
  alerts = [];
  evidence = [];
  suppressions = [];
  exceptions = [];
  incidents = [];
  storylines = [];
  added_findings = [];
  added_alerts = [];
  drawn = 0;
}
