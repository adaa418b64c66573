-- ===== src/Incidents.antt =====
-- services/api/app/services/incidents.py: an incident, what analysts do with it, and the evidence that
-- is bound to it. A call takes the row as it was read and gives it back as it was written.
pub mod History
pub mod Bound
mod Tests
use Prim.Native.String.{◌++◌ as text_append}
use blue_team_os.Prelude.{
  ℕ, String, Bool, ◌&&◌, not, Option, none, some, List, [], ◌∷◌, ◌++◌, ◌==◌, filter, update,
  mem_text, strip, if◌then◌else◌,
}
use blue_team_os.Errors.{Error, blue_team_error, not_found}
use blue_team_os.Value.{Value, Doc, text, dict}
use blue_team_os.Detection.Context.{same_option}
use blue_team_os.Detection.Rules.{join, or_text}
use blue_team_os.Store.Tables.{Alert, IncidentRecord}
use blue_team_os.Store.Tables
use blue_team_os.Store.Action.{
  Action, ◌>>=◌, ◌>>◌, give, ask, write, throw_if, found_or, one_or_none, flush, Source, new_id,
  utcnow, now_text,
}
use blue_team_os.Evidence.{evidence_with}

abbrev pub incident_statuses : List String
incident_statuses =
    "grouped" ∷ "new" ∷ "triaging" ∷ "investigating" ∷ "contained" ∷ "eradicated" ∷ "recovered"
    ∷ "closed" ∷ []

abbrev pub severities : List String
severities = "critical" ∷ "high" ∷ "medium" ∷ "low" ∷ "informational" ∷ []

-- db.flush(), with the row written back.
unfoldable pub save : IncidentRecord → Action IncidentRecord
save incident = do
  write (λ db. record db {
    incidents = update (λ row. row.id == incident.id) (λ _. incident) db.incidents;
  })
  flush
  give incident

-- text.strip() or None
abbrev pub stripped : String → Option String
stripped s = if strip s == "" then none else some (strip s)

abbrev pub get_incident : (tenant_id incident_id : String) → Action IncidentRecord
get_incident tenant_id incident_id = do
  rows ←
      ask (λ db. filter (λ row. row.tenant_id == tenant_id && row.id == incident_id) db.incidents)
  row ← one_or_none rows
  found_or (not_found "Incident not found") row

abbrev pub bound_error : Error
bound_error = blue_team_error "EVIDENCE_BOUND" "Evidence already bound to another incident" 409

-- evidence.incident_id and evidence.incident_id != incident.id
abbrev pub is_bound_elsewhere : Tables.Evidence → IncidentRecord → Bool
is_bound_elsewhere evidence incident =
    let owner = or_text evidence.incident_id in not (owner == "") && not (owner == incident.id)

module _ (source : Source) where
  unfoldable pub timeline_event : (kind actor_id summary : String) → (detail : Doc) → Action Value
  timeline_event kind actor_id summary detail = do
    id ← new_id source "itl"
    at ← now_text source
    give (
        dict (
          ("id", text id)
          ∷ ("at", text at)
          ∷ ("kind", text kind)
          ∷ ("actor_id", text actor_id)
          ∷ ("summary", text summary)
          ∷ ("detail", dict detail)
          ∷ []))

  unfoldable pub set_status : IncidentRecord → (status actor_id : String) → Action IncidentRecord
  set_status incident status actor_id = do
    throw_if (not (mem_text status incident_statuses))
        (blue_team_error "INVALID_STATUS" (text_append "Unsupported status " status) 422)
    now ← utcnow source
    event ←
        timeline_event "status_change" actor_id
          (join ("Status " ∷ incident.status ∷ " → " ∷ status ∷ []))
          (("before", text incident.status) ∷ ("after", text status) ∷ [])
    save (record incident {
      status = status;
      updated_at = now;
      timeline = incident.timeline ++ event ∷ [];
    })

  unfoldable pub assign :
      IncidentRecord → (assignee_user_id assignee_email actor_id : String) → Action IncidentRecord
  assign incident assignee_user_id assignee_email actor_id = do
    now ← utcnow source
    event ←
        timeline_event "assignment" actor_id (text_append "Assigned to " assignee_email)
          (("assignee_user_id", text assignee_user_id) ∷ [])
    save (record incident {
      assignee_user_id = some assignee_user_id;
      assignee_email = some assignee_email;
      updated_at = now;
      status = if incident.status == "grouped" then "triaging" else incident.status;
      timeline = incident.timeline ++ event ∷ [];
    })

  unfoldable pub add_note : IncidentRecord → (body actor_id : String) → Action IncidentRecord
  add_note incident body actor_id = do
    throw_if (strip body == "") (blue_team_error "INVALID_NOTE" "Note body required" 422)
    id ← new_id source "nte"
    at ← now_text source
    event ← timeline_event "note" actor_id "Analyst note added" (("note_id", text id) ∷ [])
    now ← utcnow source
    save (record incident {
      notes =
          incident.notes
          ++ dict (
              ("id", text id)
              ∷ ("at", text at)
              ∷ ("author_id", text actor_id)
              ∷ ("body", text (strip body))
              ∷ [])
            ∷ [];
      timeline = incident.timeline ++ event ∷ [];
      updated_at = now;
    })

  unfoldable pub add_task : IncidentRecord → (title actor_id : String) → Action IncidentRecord
  add_task incident title actor_id = do
    throw_if (strip title == "") (blue_team_error "INVALID_TASK" "Task title required" 422)
    id ← new_id source "tsk"
    created_at ← now_text source
    event ←
        timeline_event "task" actor_id (text_append "Task added: " (strip title))
          (("task_id", text id) ∷ [])
    now ← utcnow source
    save (record incident {
      tasks =
          incident.tasks
          ++ dict (
              ("id", text id)
              ∷ ("title", text (strip title))
              ∷ ("status", text "open")
              ∷ ("created_at", text created_at)
              ∷ ("created_by", text actor_id)
              ∷ [])
            ∷ [];
      timeline = incident.timeline ++ event ∷ [];
      updated_at = now;
    })

  unfoldable pub set_root_cause : IncidentRecord → (body actor_id : String) → Action IncidentRecord
  set_root_cause incident body actor_id = do
    now ← utcnow source
    event ← timeline_event "root_cause" actor_id "Root cause recorded" []
    save (record incident {
      root_cause = stripped body;
      updated_at = now;
      timeline = incident.timeline ++ event ∷ [];
    })

  unfoldable pub set_lessons : IncidentRecord → (body actor_id : String) → Action IncidentRecord
  set_lessons incident body actor_id = do
    now ← utcnow source
    event ← timeline_event "lessons" actor_id "Lessons learned recorded" []
    save (record incident {
      lessons_learned = stripped body;
      updated_at = now;
      timeline = incident.timeline ++ event ∷ [];
    })

  abbrev pub linked : IncidentRecord → (actor_id at : String) → Tables.Evidence → Tables.Evidence
  linked incident actor_id at evidence = record evidence {
    incident_id = some incident.id;
    transformation_history =
        evidence.transformation_history
        ++ dict (
            ("op", text "link_incident")
            ∷ ("at", text at)
            ∷ ("actor_id", text actor_id)
            ∷ ("incident_id", text incident.id)
            ∷ ("integrity_hash", text evidence.integrity_hash)
            ∷ [])
          ∷ [];
  }

  -- The part of link_evidence behind its guards.
  unfoldable pub bind :
      IncidentRecord → Tables.Evidence → (evidence_id actor_id : String) → Action IncidentRecord
  bind incident evidence evidence_id actor_id = do
    at ← now_text source
    write (λ db. record db {
      evidence =
          update (λ row. row.tenant_id == incident.tenant_id && row.id == evidence_id)
            (linked incident actor_id at) db.evidence;
    })
    event ←
        timeline_event "evidence_link" actor_id (text_append "Linked sealed evidence " evidence_id)
          (("evidence_id", text evidence_id)
            ∷ ("integrity_hash", text evidence.integrity_hash)
            ∷ [])
    now ← utcnow source
    save (record incident {
      evidence_ids =
          if mem_text evidence_id incident.evidence_ids
          then incident.evidence_ids
          else incident.evidence_ids ++ evidence_id ∷ [];
      timeline = incident.timeline ++ event ∷ [];
      updated_at = now;
    })

  unfoldable pub link :
      IncidentRecord → Tables.Evidence → (evidence_id actor_id : String) → Action IncidentRecord
  link incident evidence evidence_id actor_id = do
    throw_if (not evidence.sealed)
        (blue_team_error "EVIDENCE_NOT_SEALED" "Only sealed evidence may be linked" 409)
    throw_if (is_bound_elsewhere evidence incident) bound_error
    bind incident evidence evidence_id actor_id

  unfoldable pub link_evidence :
      IncidentRecord → (evidence_id actor_id : String) → Action IncidentRecord
  link_evidence incident evidence_id actor_id = do
    rows ← ask (λ db. evidence_with incident.tenant_id evidence_id db.evidence)
    found ← one_or_none rows
    evidence ← found_or (not_found "Evidence not found") found
    link incident evidence evidence_id actor_id

  abbrev promoted : Alert → (actor_id id : String) → (now : ℕ) → Value → IncidentRecord
  promoted alert actor_id id now event = record {
    id = id;
    tenant_id = alert.tenant_id;
    fingerprint = text_append "alert:" alert.id;
    title = alert.title;
    status = "new";
    severity = if mem_text alert.severity severities then alert.severity else "medium";
    assignee_user_id = none;
    assignee_email = none;
    source_alert_id = some alert.id;
    storyline_ids = [];
    finding_rule_ids = alert.finding_id ∷ [];
    event_ids = [];
    evidence_ids = [];
    related_entity_ids = [];
    mitre_techniques = [];
    notes = [];
    tasks = [];
    timeline = event ∷ [];
    root_cause = none;
    lessons_learned = none;
    payload =
        ("source", text "alert")
        ∷ ("alert_id", text alert.id)
        ∷ ("finding_id", text alert.finding_id)
        ∷ [];
    created_at = now;
    updated_at = now;
  }

  unfoldable pub promote : Alert → (actor_id : String) → Action IncidentRecord
  promote alert actor_id = do
    now ← utcnow source
    id ← new_id source "inc"
    event ←
        timeline_event "created_from_alert" actor_id
          (join ("Alert " ∷ alert.id ∷ " converted to incident" ∷ []))
          (("alert_id", text alert.id) ∷ ("finding_id", text alert.finding_id) ∷ [])
    let incident = promoted alert actor_id id now event in
        do
          write (λ db. record db {
            alerts =
                update (λ row. row.tenant_id == alert.tenant_id && row.id == alert.id)
                  (λ row. record row { status = "promoted" }) db.alerts;
            incidents = db.incidents ++ incident ∷ [];
          })
          flush
          give incident

  unfoldable pub create_from_alert : (tenant_id alert_id actor_id : String) → Action IncidentRecord
  create_from_alert tenant_id alert_id actor_id = do
    rows ← ask (λ db. filter (λ row. row.tenant_id == tenant_id && row.id == alert_id) db.alerts)
    found ← one_or_none rows
    alert ← found_or (not_found "Alert not found") found
    made ← ask (λ db.
        filter (λ row. row.tenant_id == tenant_id && same_option row.source_alert_id alert_id)
          db.incidents)
    existing ← one_or_none made
    elim existing [ some incident ↦ give incident | none ↦ promote alert actor_id ]
