-- ===== src/Findings.antt =====
-- services/api/app/services/detection.py: the findings of the registry become rows and alerts. The
-- window comes from load_window of services/api/app/services/ingestion.py. What pydantic makes of a row
-- and of a finding is a parameter.
pub mod Backed
pub mod Skipped
mod Tests
use Prim.Native.String.{◌++◌ as text_append}
use blue_team_os.Prelude.{
  ℕ, ◌+◌, String, Bool, true, false, ◌&&◌, Option, none, some, List, [], ◌∷◌, ◌++◌, ◌==◌, map, null,
  filter, leb, after, if◌then◌else◌,
}
use blue_team_os.Errors.{Result, ok, err}
use blue_team_os.Value.{Doc}
use blue_team_os.Event.{CanonicalEvent}
use blue_team_os.Detection.Context.{Finding, DetectionContext, DetectionRegistry, evaluate}
use blue_team_os.Store.Tables.{Db, Alert, FindingRecord, SecurityEvent}
use blue_team_os.Store.Action.{Action, ◌>>=◌, ◌>>◌, give, ask, write, one_or_none, flush, Source}
use blue_team_os.Evidence.{register_event_evidence}
use blue_team_os.Suppression.{is_suppressed}

-- CanonicalEvent.model_validate and Finding.model_dump.
pub record Codec : Type 0 where
  pub read_event : Doc → Result CanonicalEvent
  pub dump_finding : Finding → Doc

-- order_by(SecurityEvent.timestamp.asc())
abbrev place : SecurityEvent → List SecurityEvent → List SecurityEvent
place row [] = row ∷ []
place row (next ∷ rows) =
    let later = place row rows in
    if leb row.timestamp next.timestamp then row ∷ next ∷ rows else next ∷ later

abbrev by_time : List SecurityEvent → List SecurityEvent
by_time [] = []
by_time (row ∷ rows) = place row (by_time rows)

abbrev read_all : Codec → List SecurityEvent → Result (List CanonicalEvent)
read_all codec [] = ok []
read_all codec (row ∷ rows) =
    let later = read_all codec rows in
    elim (codec.read_event row.payload) [
      | err exc ↦ err exc
      | ok event ↦ elim later [ err exc ↦ err exc | ok events ↦ ok (event ∷ events) ]
    ]

unfoldable pub load_window : Codec → (tenant_id : String) → Action (List CanonicalEvent)
load_window codec tenant_id db =
    (read_all codec (by_time (filter (λ row. row.tenant_id == tenant_id) db.events)), db)

abbrev pub alert_id : (finding_id : String) → String
alert_id id = elim (after "fnd_" id) [ none ↦ id | some rest ↦ text_append "alt_" rest ]

abbrev pub finding_record :
    Codec → (tenant_id : String) → Finding → (evidence_ids : List String) → FindingRecord
finding_record codec tenant_id finding evidence_ids = record {
  id = finding.id;
  tenant_id = tenant_id;
  rule_id = finding.rule_id;
  rule_version = finding.rule_version;
  title = finding.title;
  severity = finding.severity;
  confidence = finding.confidence;
  fingerprint = finding.fingerprint;
  explanation = finding.explanation;
  mitre_techniques = finding.mitre_techniques;
  event_ids = finding.event_ids;
  evidence_ids = evidence_ids;
  payload = codec.dump_finding finding;
  created_at = finding.created_at;
}

abbrev pub alert_of : (tenant_id : String) → Finding → Alert
alert_of tenant_id finding = record {
  id = alert_id finding.id;
  tenant_id = tenant_id;
  finding_id = finding.id;
  title = finding.title;
  severity = finding.severity;
  status = "open";
  created_at = finding.created_at;
}

module _ (source : Source) (codec : Codec) (registry : DetectionRegistry)
    (tenant_id actor_id : String) where
  -- evidence_ids
  unfoldable pub register_all : (event_ids : List String) → Action (List String)
  register_all [] = give []
  register_all (event_id ∷ event_ids) = do
    evidence_id ← register_event_evidence source tenant_id event_id actor_id
    evidence_ids ← register_all event_ids
    give (evidence_id ∷ evidence_ids)

  abbrev pub add : Finding → (evidence_ids : List String) → Db → Db
  add finding evidence_ids db = record db {
    added_findings = db.added_findings ++ finding_record codec tenant_id finding evidence_ids ∷ [];
    added_alerts = db.added_alerts ++ alert_of tenant_id finding ∷ [];
  }

  abbrev pub stored_as : (fingerprint : String) → List FindingRecord → List FindingRecord
  stored_as fingerprint =
      filter (λ row. row.tenant_id == tenant_id && row.fingerprint == fingerprint)

  -- The loop's body behind its two guards.
  unfoldable pub create : Finding → Action Bool
  create finding = do
    evidence_ids ← register_all finding.event_ids
    write (add finding evidence_ids)
    give true

  unfoldable pub unless_stored : Finding → Option FindingRecord → Action Bool
  unless_stored finding none = create finding
  unless_stored finding (some row) = give false

  unfoldable pub unless_suppressed : Finding → Bool → Action Bool
  unless_suppressed finding true = give false
  unless_suppressed finding false = do
    rows ← ask (λ db. stored_as finding.fingerprint db.findings)
    existing ← one_or_none rows
    unless_stored finding existing

  -- The loop's body; true where it has created a row.
  unfoldable pub consider : Finding → Action Bool
  consider finding = do
    suppressed ← is_suppressed source tenant_id finding
    unless_suppressed finding suppressed

  abbrev note : Bool → Finding → DetectionContext → DetectionContext
  note false finding context = context
  note true finding context = record context {
    open_fingerprints = finding.fingerprint ∷ context.open_fingerprints;
  }

  abbrev count : Bool → ℕ → ℕ
  count false n = n
  count true n = n + 1

  -- for finding in findings: …
  unfoldable pub consider_all :
      List Finding → (created : ℕ) → DetectionContext → Action (ℕ × DetectionContext)
  consider_all [] created context = give (created, context)
  consider_all (finding ∷ findings) created context = do
    new ← consider finding
    consider_all findings (count new created) (note new finding context)

  abbrev returned {ℓ} : {A : Type ℓ} → Result A → Action A
  returned result db = (result, db)

  unfoldable pub evaluate_and_store_findings :
      CanonicalEvent → DetectionContext → Action (ℕ × DetectionContext)
  evaluate_and_store_findings event context = do
    findings ← returned (evaluate registry event context)
    result ← consider_all findings 0 context
    flush
    give result

  -- select(FindingRecord.fingerprint)
  abbrev open_fingerprints : List FindingRecord → List String
  open_fingerprints rows =
      map (λ (row : FindingRecord). row.fingerprint)
        (filter (λ row. row.tenant_id == tenant_id) rows)

  unfoldable pub evaluate_and_store : CanonicalEvent → Action ℕ
  evaluate_and_store event = do
    events ← load_window codec tenant_id
    open_fps ← ask (λ db. open_fingerprints db.findings)
    result ←
        evaluate_and_store_findings event
          (record { window = events; open_fingerprints = open_fps; scheduled = false })
    give result.0

  -- for event in events: created += …
  unfoldable pub sweep : List CanonicalEvent → (created : ℕ) → DetectionContext → Action ℕ
  sweep [] created context = give created
  sweep (event ∷ events) created context = do
    result ← evaluate_and_store_findings event context
    sweep events (created + result.0) result.1

  unfoldable pub run_scheduled : Action ℕ
  run_scheduled = do
    events ← load_window codec tenant_id
    open_fps ← ask (λ db. open_fingerprints db.findings)
    if null events
        then give 0
        else sweep events 0
            (record { window = events; open_fingerprints = open_fps; scheduled = true })
