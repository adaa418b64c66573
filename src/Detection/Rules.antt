-- ===== src/Detection/Rules.antt =====
-- What the rules share: detections/python/identity/_common.py and detections/python/shared.py. A rule
-- returns its findings or raises.
use Prim.Native.String.{◌++◌ as text_append}
use blue_team_os.Prelude.{
  ℕ, String, Bool, true, false, ◌&&◌, not, Option, none, some, List, [], ◌∷◌, ◌==◌, map, mem_text,
  filter, sorted_set, if◌then◌else◌,
}
use blue_team_os.Errors.{Result, ok, err, ◌>>=◌, value_error}
use blue_team_os.Value.{pos, int, Value, Runtime, truthy, to_str}
use blue_team_os.Event.{
  CanonicalEvent, CanonicalHost, CanonicalProcess, CanonicalUser, Outcome, success, failure,
}
use blue_team_os.Detection.Context.{
  Finding, Filters, DetectionContext, RuleMeta, already_open, name_of,
}

-- new_id("fnd"), utcnow(), the runtime, ip_address(…).is_private (`none` is a ValueError), and the
-- text of a time cut down to its minute, to its ten minutes, to its hour and to its date.
pub record Clock : Type 0 where
  pub new_id : String
  pub utcnow : ℕ
  pub py : Runtime
  pub is_private : String → Option Bool
  pub minute_of : ℕ → String
  pub ten_minutes_of : ℕ → String
  pub hour_of : ℕ → String
  pub date_of : ℕ → String

abbrev has_outcome : Outcome → Option Outcome → Bool
has_outcome failure (some failure) = true
has_outcome success (some success) = true
has_outcome _ _ = false

abbrev pub is_login : CanonicalEvent → Bool
is_login event =
    event.category == "authentication"
    && mem_text event.event_type ("login" ∷ "authentication" ∷ "logon" ∷ [])

unfoldable pub is_auth_failure : CanonicalEvent → Bool
is_auth_failure event = is_login event && has_outcome failure event.outcome

unfoldable pub is_auth_success : CanonicalEvent → Bool
is_auth_success event = is_login event && has_outcome success event.outcome

abbrev pub or_text : Option String → String
or_text none = ""
or_text (some s) = s

-- str() of an optional text, and of a number.
abbrev pub shown : Option String → String
shown none = "None"
shown (some s) = s

abbrev pub number : Clock → ℕ → String
number clock n = to_str clock.py (int (pos n))

-- a or b, of values.
abbrev pub or_value : Value → Value → Value
or_value a b = if truthy a then a else b

-- Texts joined.
abbrev pub join : List String → String
join [] = ""
join (s ∷ rest) = text_append s (join rest)

-- ", ".join(…)
abbrev pub separated : List String → String
separated [] = ""
separated (s ∷ rest) = elim rest [ [] ↦ s | _ ∷ _ ↦ join (s ∷ ", " ∷ separated rest ∷ []) ]

abbrev pub host_name : Option CanonicalHost → String
host_name none = ""
host_name (some host) = or_text host.name

abbrev pub process_name : Option CanonicalProcess → String
process_name none = ""
process_name (some process) = or_text process.name

abbrev pub user_name : CanonicalEvent → String
user_name event = or_text (name_of event.user)

abbrev pub event_ids_of : CanonicalEvent → List CanonicalEvent → List String
event_ids_of trigger related =
    let ids = map (λ (e : CanonicalEvent). e.id) related in
    if mem_text trigger.id ids then ids else trigger.id ∷ ids

abbrev pub evidence_of : CanonicalEvent → CanonicalEvent → String × String × String
evidence_of trigger event = (
  text_append "evi_pending_" event.id,
  event.id,
  if event.id == trigger.id then "trigger" else "supporting",
)

abbrev pub finding_of :
    Clock
    → RuleMeta
    → (trigger : CanonicalEvent) → (related : List CanonicalEvent)
    → (fingerprint explanation : String) → List (String × String)
    → Finding
finding_of clock meta trigger related fingerprint explanation attributes = record {
  id = clock.new_id;
  tenant_id = trigger.tenant_id;
  rule_id = meta.rule_id;
  rule_version = meta.version;
  title = meta.name;
  description = meta.description;
  severity = meta.severity;
  confidence = meta.confidence;
  fingerprint = fingerprint;
  mitre_tactics = meta.mitre_tactics;
  mitre_techniques = meta.mitre_techniques;
  event_ids = event_ids_of trigger related;
  evidence = map (evidence_of trigger) related;
  explanation = explanation;
  created_at = clock.utcnow;
  attributes = attributes;
}

-- trigger.user.name if trigger.user else "": the attributes of a finding are texts, and pydantic
-- refuses None.
abbrev pub user_attribute : Option CanonicalUser → Result String
user_attribute none = ok ""
user_attribute (some user) = elim user.name [
  | none ↦ err (value_error "attributes.user: Input should be a valid string")
  | some name ↦ ok name
]

abbrev pub identity_attributes : CanonicalEvent → (user : String) → List (String × String)
identity_attributes trigger user = ("src_ip", or_text trigger.src_ip) ∷ ("user", user) ∷ []

abbrev pub shared_attributes : CanonicalEvent → List (String × String)
shared_attributes trigger =
    ("src_ip", or_text trigger.src_ip)
    ∷ ("dst_ip", or_text trigger.dst_ip)
    ∷ ("user", user_name trigger)
    ∷ ("host", host_name trigger.host)
    ∷ ("process", process_name trigger.process)
    ∷ []

module _ (clock : Clock) (meta : RuleMeta) (trigger : CanonicalEvent)
    (related : List CanonicalEvent) (fingerprint explanation : String) where
  -- finding_from_events of identity/_common.py
  unfoldable pub identity_finding : Result Finding
  identity_finding = user_attribute trigger.user >>= λ user. ok (
      finding_of clock meta trigger related fingerprint explanation
        (identity_attributes trigger user))

  -- finding_from_events of shared.py
  unfoldable pub shared_finding : Finding
  shared_finding =
      finding_of clock meta trigger related fingerprint explanation (shared_attributes trigger)

  -- The end of a rule: nothing if the fingerprint is open, or the finding.
  unfoldable pub identity_report : DetectionContext → Result (List Finding)
  identity_report context =
      if already_open context fingerprint
      then ok []
      else identity_finding >>= λ finding. ok (finding ∷ [])

  unfoldable pub shared_report : DetectionContext → Result (List Finding)
  shared_report context =
      if already_open context fingerprint then ok [] else ok (shared_finding ∷ [])

abbrev pub no_filters : Filters
no_filters = record {
  event_type = none;
  category = none;
  outcome = none;
  src_ip = none;
  user_name = none;
  action = none;
}

abbrev pub meta_of :
    (rule_id name description severity : String) (confidence : ℕ)
    (tactics techniques sources : List String)
    → RuleMeta
meta_of rule_id name description severity confidence tactics techniques sources = record {
  rule_id = rule_id;
  name = name;
  description = description;
  version = "1.0.0";
  severity = severity;
  confidence = confidence;
  mitre_tactics = tactics;
  mitre_techniques = techniques;
  data_sources = sources;
  author = "blueteam-os";
  status = "tested";
  execution = "realtime";
}

abbrev pub of_name : String → Filters
of_name name = record {
  event_type = none;
  category = some "authentication";
  outcome = none;
  src_ip = none;
  user_name = some name;
  action = none;
}

-- category="authentication", outcome=…, user_name=…
abbrev pub logins_of : (outcome name : String) → Filters
logins_of outcome name = record (of_name name) { outcome = some outcome }

abbrev pub failures_from : Option String → Filters
failures_from src_ip = record no_filters {
  category = some "authentication";
  outcome = some "failure";
  src_ip = src_ip;
}

abbrev pub from_address : Option String → Filters
from_address src_ip = record no_filters { src_ip = src_ip }

-- {item.user.name for item in events if item.user and item.user.name}, sorted
abbrev pub users_of : List CanonicalEvent → List String
users_of events = sorted_set (filter (λ name. not (name == "")) (map user_name events))

-- f"{rule_id}:{tenant_id}:…"
abbrev pub fingerprint_of : RuleMeta → CanonicalEvent → String → String
fingerprint_of meta event rest = join (meta.rule_id ∷ ":" ∷ event.tenant_id ∷ ":" ∷ rest ∷ [])
