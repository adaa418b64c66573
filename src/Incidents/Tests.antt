-- ===== src/Incidents/Tests.antt =====
-- An incident with one evidence, and the theorems at it.
use Prim.Native.String.{◌++◌ as text_append}
use blue_team_os.Prelude.{◌≡◌, refl, String, true, none, some, [], ◌∷◌, mem_text}
use blue_team_os.Errors.{Result, ok, err}
use blue_team_os.Store.Tables.{Db, IncidentRecord, empty_db}
use blue_team_os.Store.Tables
use blue_team_os.Store.Action.{Source, flush}
use blue_team_os.Incidents.{
  save, timeline_event, set_status, link_evidence, link, bind, bound_error,
}
use blue_team_os.Incidents.History.{Extends, status_set, start, after, Reach-Extends}
use blue_team_os.Incidents.Bound.{link_evidence-other}

abbrev source : Source
source = record {
  new_id = λ prefix n. text_append prefix "_1";
  utcnow = λ n. n;
  isoformat = λ n. "t";
}

abbrev incident : String → IncidentRecord
incident id = record {
  id = id;
  tenant_id = "ten_a";
  fingerprint = "alert:alt_1";
  title = "Title";
  status = "new";
  severity = "high";
  assignee_user_id = none;
  assignee_email = none;
  source_alert_id = some "alt_1";
  storyline_ids = [];
  finding_rule_ids = [];
  event_ids = [];
  evidence_ids = [];
  related_entity_ids = [];
  mitre_techniques = [];
  notes = [];
  tasks = [];
  timeline = [];
  root_cause = none;
  lessons_learned = none;
  payload = [];
  created_at = 1;
  updated_at = 1;
}

abbrev evidence : Tables.Evidence
evidence = record {
  id = "evi_1";
  tenant_id = "ten_a";
  incident_id = none;
  source = "event:evt_1";
  acquisition_method = "ingestion";
  original_timestamp = 1;
  ingested_at = 2;
  collector_identity = "usr_1";
  integrity_hash = "abc";
  object_uri = none;
  parser_version = "canonical-1.0.0";
  transformation_history = [];
  confidence_level = 1;
  payload = [];
  sealed = true;
}

abbrev db : Db
db = record empty_db {
  evidence = evidence ∷ [];
  incidents = incident "inc_1" ∷ incident "inc_2" ∷ [];
}

abbrev row_of : Result IncidentRecord × Db → IncidentRecord
row_of (ok row, later) = row
row_of (err exc, later) = incident ""

abbrev closed : Result IncidentRecord × Db
closed = set_status source (incident "inc_1") "closed" "usr_1" db

closes : closed ≡ (ok (row_of closed), closed.1)
unfolding set_status timeline_event save flush mem_text
closes = refl

Reach-Extends_example : Extends (incident "inc_1") (row_of closed)
Reach-Extends_example =
    Reach-Extends source (incident "inc_1") (row_of closed)
      (after start (status_set "closed" "usr_1" db closed.1 closes))

abbrev linking : Result IncidentRecord × Db
linking = link_evidence source (incident "inc_1") "evi_1" "usr_1" db

links : linking ≡ (ok (row_of linking), linking.1)
unfolding link_evidence link bind timeline_event save flush mem_text
links = refl

link_evidence-other_example :
    link_evidence source (incident "inc_2") "evi_1" "usr_2" linking.1 ≡ (err bound_error, linking.1)
link_evidence-other_example =
    link_evidence-other source (incident "inc_1") (incident "inc_2") "evi_1" "usr_1" "usr_2"
      (row_of linking) db linking.1 refl refl refl links
