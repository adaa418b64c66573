-- ===== src/Detection/Context.antt =====
-- context.py, rule.py and registry.py, with the finding of packages/schemas. A filter of `query` that is
-- None or empty does not filter.
use blue_team_os.Prelude.{
  ℕ, ◌-◌, ◌*◌, String, Bool, true, false, ◌&&◌, ◌||◌, not, Option, none, some, List, [], ◌∷◌, ◌++◌,
  ◌==◌, ltb, mem_text, insert, values, if◌then◌else◌,
}
use blue_team_os.Errors.{Result, ok, err, type_error, ◌>>=◌}
use blue_team_os.Event.{CanonicalEvent, CanonicalUser, Outcome, success, failure, unknown}

pub record Finding : Type 0 where
  pub id : String
  pub tenant_id : String
  pub rule_id : String
  pub rule_version : String
  pub title : String
  pub description : String
  pub severity : String
  pub confidence : ℕ
  pub fingerprint : String
  pub mitre_tactics : List String
  pub mitre_techniques : List String
  pub event_ids : List String
  pub evidence : List (String × String × String)
  pub explanation : String
  pub created_at : ℕ
  pub attributes : List (String × String)

abbrev pub outcome_text : Outcome → String
outcome_text success = "success"
outcome_text failure = "failure"
outcome_text unknown = "unknown"

-- The filters of `query`.
pub record Filters : Type 0 where
  pub event_type : Option String
  pub category : Option String
  pub outcome : Option String
  pub src_ip : Option String
  pub user_name : Option String
  pub action : Option String

abbrev pub same_option : Option String → String → Bool
same_option none value = false
same_option (some text) value = text == value

-- if value and field != value: continue
abbrev pub passes : Option String → (String → Bool) → Bool
passes none field_is = true
passes (some value) field_is = value == "" || field_is value

abbrev pub outcome_of : Option Outcome → Option String
outcome_of none = none
outcome_of (some o) = some (outcome_text o)

abbrev pub name_of : Option CanonicalUser → Option String
name_of none = none
name_of (some user) = user.name

abbrev pub not_after : Option ℕ → ℕ → Bool
not_after none time = true
not_after (some until) time = not (ltb until time)

-- The guards of the loop of `query`.
unfoldable pub matches :
    (tenant_id : String) (since : ℕ) (until : Option ℕ) → Filters → CanonicalEvent → Bool
matches tenant_id since until f event =
    event.tenant_id == tenant_id
    && (not (ltb event.timestamp since)
        && (not_after until event.timestamp
            && (passes f.event_type (λ v. event.event_type == v)
                && (passes f.category (λ v. event.category == v)
                    && (passes f.outcome (same_option (outcome_of event.outcome))
                        && (passes f.src_ip (same_option event.src_ip)
                            && (passes f.user_name (same_option (name_of event.user))
                                && passes f.action (same_option event.action))))))))

abbrev pub differ : Bool → Bool → Bool
differ a b = if a then not b else b

-- `is_naive` says of `since` and of `until` whether they have no zone. Such a time is not compared with
-- one that has a zone.
unfoldable pub query :
    List CanonicalEvent
    → (tenant_id : String) (is_naive : Bool) (since : ℕ) (until : Option ℕ) → Filters
    → Result (List CanonicalEvent)
query [] tenant_id is_naive since until f = ok []
query (event ∷ events) tenant_id is_naive since until f =
    let rest = query events tenant_id is_naive since until f in
    if not (event.tenant_id == tenant_id)
    then rest
    else if differ event.is_naive is_naive
    then err (type_error "can't compare offset-naive and offset-aware datetimes")
    else rest >>= λ more. ok (if matches tenant_id since until f event then event ∷ more else more)

pub record DetectionContext : Type 0 where
  pub window : List CanonicalEvent
  pub open_fingerprints : List String
  pub scheduled : Bool

-- A time before 1970 is cut off at 1970, where no event of the model is earlier.
unfoldable pub events_in_window :
    DetectionContext → CanonicalEvent → (seconds : ℕ) → Filters → Result (List CanonicalEvent)
events_in_window context event seconds f =
    query context.window event.tenant_id event.is_naive (event.timestamp - seconds * 1000000)
      (some event.timestamp) f

unfoldable pub already_open : DetectionContext → String → Bool
already_open context fingerprint = mem_text fingerprint context.open_fingerprints

pub record RuleMeta : Type 0 where
  pub rule_id : String
  pub name : String
  pub description : String
  pub version : String
  pub severity : String
  pub confidence : ℕ
  pub mitre_tactics : List String
  pub mitre_techniques : List String
  pub data_sources : List String
  pub author : String
  pub status : String
  pub execution : String

pub record DetectionRule : Type 0 where
  pub meta : RuleMeta
  pub evaluate : CanonicalEvent → DetectionContext → Result (List Finding)

-- _rules
abbrev pub DetectionRegistry : Type 0
DetectionRegistry = List (String × DetectionRule)

unfoldable pub register : DetectionRule → DetectionRegistry → DetectionRegistry
register rule rules = insert rule.meta.rule_id rule rules

-- The two `continue` of the loop.
abbrev pub is_skipped : DetectionRule → DetectionContext → Bool
is_skipped rule context =
    (rule.meta.execution == "scheduled" && not context.scheduled)
    || (rule.meta.execution == "realtime" && context.scheduled)

unfoldable pub evaluate_rules :
    List DetectionRule → CanonicalEvent → DetectionContext → Result (List Finding)
evaluate_rules [] event context = ok []
evaluate_rules (rule ∷ rules) event context =
    let rest = evaluate_rules rules event context in
    if is_skipped rule context
    then rest
    else rule.evaluate event context >>= λ found. rest >>= λ more. ok (found ++ more)

unfoldable pub evaluate :
    DetectionRegistry → CanonicalEvent → DetectionContext → Result (List Finding)
evaluate rules event context = evaluate_rules (values rules) event context
