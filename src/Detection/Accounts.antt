-- ===== src/Detection/Accounts.antt =====
-- detections/python/identity: impossible_travel.py, mfa_fatigue.py, dormant_account.py,
-- service_account_misuse.py and privilege_grant.py.
use blue_team_os.Prelude.{
  true, String, Bool, false, ◌&&◌, ◌||◌, not, Option, none, some, List, [], ◌∷◌, ◌==◌, mem_text,
  filter, any, if◌then◌else◌, ltb, leb, length, lower, contains, starts_with,
}
use blue_team_os.Errors.{type_error, value_error, Result, ok, err, ◌>>=◌, type_error}
use blue_team_os.Value.{
  ℤ, pos, negsuc, int, Value, Doc, text, truthy, to_str, to_int, get_or, fields, obj, arr,
}
use blue_team_os.Event.{CanonicalEvent}
use blue_team_os.Detection.Context.{
  Finding, DetectionContext, RuleMeta, events_in_window, outcome_of,
}
use blue_team_os.Detection.Rules.{
  Clock, is_auth_success, or_text, shown, number, or_value, join, user_name, identity_report,
  meta_of, fingerprint_of, of_name, logins_of,
}

abbrev pub impossible_travel_meta : RuleMeta
impossible_travel_meta =
    meta_of "identity.impossible_travel" "Impossible travel abstraction"
      "Two successful authentications for one account from different GeoIP countries inside a short window. Uses fixture/enrichment country codes only — not live travel math."
      "high" 70 ("initial-access" ∷ []) ("T1078" ∷ []) ("authentication" ∷ "identity" ∷ [])

abbrev pub mfa_fatigue_meta : RuleMeta
mfa_fatigue_meta =
    meta_of "identity.mfa_fatigue" "MFA fatigue"
      "Burst of MFA challenges or denials against one account (T1621 abstraction)." "high" 80
      ("credential-access" ∷ []) ("T1621" ∷ []) ("authentication" ∷ "identity" ∷ [])

abbrev pub dormant_account_meta : RuleMeta
dormant_account_meta =
    meta_of "identity.dormant_account" "Dormant account activity"
      "Successful login for an account marked dormant or long-idle in directory enrichment."
      "medium" 72 ("persistence" ∷ "initial-access" ∷ []) ("T1078" ∷ [])
      ("authentication" ∷ "identity" ∷ [])

abbrev pub service_account_misuse_meta : RuleMeta
service_account_misuse_meta =
    meta_of "identity.service_account_misuse" "Service account misuse"
      "Interactive or unusual authentication by a service account." "high" 82
      ("persistence" ∷ "privilege-escalation" ∷ []) ("T1078.001" ∷ [])
      ("authentication" ∷ "identity" ∷ [])

abbrev pub privilege_grant_meta : RuleMeta
privilege_grant_meta =
    meta_of "identity.privilege_grant" "Privileged group or role grant"
      "A principal was added to an administrative group or granted a privileged role." "high" 90
      ("privilege-escalation" ∷ "persistence" ∷ []) ("T1098" ∷ "T1078" ∷ [])
      ("identity" ∷ "directory" ∷ [])

-- item.attributes.get("geoip") or {}, where the country is looked up in a set: a list or a dict there
-- cannot be hashed.
abbrev pub country_text : (Value → String) → Value → Result (Option String)
country_text str (arr items) = err (type_error "unhashable type")
country_text str (obj fs) = err (type_error "unhashable type")
country_text str (text s) = ok (if mem_text s ("unknown" ∷ "private" ∷ []) then none else some s)
country_text str v = ok (some (str v))

abbrev fields_of : Value → Doc
fields_of (obj fs) = fields fs
fields_of _ = []

abbrev is_marked : String → Bool
is_marked s = mem_text s ("true" ∷ "1" ∷ "yes" ∷ [])

-- The `try` around int(…) >= 90, whose handler does not catch an OverflowError.
abbrev pub long_idle : Result ℤ → Result Bool
long_idle (ok (pos days)) = ok (leb 90 days)
long_idle (ok (negsuc days)) = ok false
long_idle (err (type_error m)) = ok false
long_idle (err (value_error m)) = ok false
long_idle (err exc) = err exc

abbrev privileged_markers : List String
privileged_markers =
    "domain admins" ∷ "enterprise admins" ∷ "administrators" ∷ "global admin"
    ∷ "privileged role administrator" ∷ "organization management" ∷ "sudo" ∷ "root" ∷ []

abbrev mfa_actions : List String
mfa_actions = "mfa_challenge" ∷ "mfa_deny" ∷ "mfa_push" ∷ "mfa_reject" ∷ []

abbrev is_mfa : CanonicalEvent → Bool
is_mfa event =
    event.category == "authentication"
    && (mem_text (lower (or_text event.action)) mfa_actions
        || (mem_text (lower event.event_type) mfa_actions
            || truthy (get_or event.attributes "mfa" Value.null)))

abbrev pub country_value : CanonicalEvent → Value
country_value event =
    get_or (fields_of (get_or event.attributes "geoip" Value.null)) "country" Value.null

-- directory.get("last_login_days") or 0
abbrev pub idle_days : CanonicalEvent → Value
idle_days event =
    or_value
      (get_or (fields_of (get_or event.attributes "directory" Value.null)) "last_login_days"
        Value.null)
      (int (pos 0))

module _ (clock : Clock) where
  -- str(v).lower()
  abbrev low : Value → String
  low v = lower (to_str clock.py v)

  abbrev pub country : CanonicalEvent → Result (Option String)
  country event =
      let found = country_value event in
      if truthy found then country_text (to_str clock.py) found else ok none

  abbrev pub is_dormant : CanonicalEvent → Result Bool
  is_dormant event =
      let directory = fields_of (get_or event.attributes "directory" Value.null) in
      let marked = is_marked (low (get_or event.attributes "dormant" (text ""))) in
      if is_marked (low (get_or directory "dormant" (text "")))
      then ok true
      else long_idle (to_int clock.py (idle_days event)) >>= λ idle. ok (idle || marked)

  abbrev pub is_service : CanonicalEvent → Bool
  is_service event =
      let name = lower (user_name event) in
      let directory = fields_of (get_or event.attributes "directory" Value.null) in
      starts_with name "svc-"
      || (starts_with name "svc_"
          || (low (get_or directory "type" (text "")) == "service"
              || low (get_or event.attributes "account_type" (text "")) == "service"))

  abbrev pub is_interactive : CanonicalEvent → Bool
  is_interactive event =
      let a = get_or event.attributes "logon_type" Value.null in
      let b = get_or event.attributes "LogonType" Value.null in
      mem_text (low (or_value (or_value a b) (text "")))
        ("interactive" ∷ "2" ∷ "10" ∷ "11" ∷ "remoteinteractive" ∷ "unlocked" ∷ [])
      || mem_text (lower (or_text event.action)) ("interactive_login" ∷ "rdp" ∷ "console" ∷ [])

  abbrev grant_target : CanonicalEvent → String
  grant_target event =
      let a = get_or event.attributes "group" Value.null in
      let b = get_or event.attributes "role" Value.null in low (or_value (or_value a b) (text ""))

module _ (clock : Clock) (event : CanonicalEvent) (context : DetectionContext) where
  abbrev name : String
  name = user_name event

  -- not event.user or not event.user.name
  abbrev unnamed : Bool
  unnamed = name == ""

  abbrev pub travelled : (current other : String) → CanonicalEvent → Result (List Finding)
  travelled current other item =
      identity_report clock impossible_travel_meta event (item ∷ event ∷ [])
        (fingerprint_of impossible_travel_meta event
          (join (name ∷ ":" ∷ other ∷ "->" ∷ current ∷ ":" ∷ clock.date_of event.timestamp ∷ [])))
        (join (
          "Account " ∷ name ∷ " authenticated from " ∷ other ∷ " then " ∷ current
          ∷ " within 7200s (GeoIP fixture abstraction)." ∷ []))
        context

  -- for item in prior: …
  abbrev pub travel : (current : String) → List CanonicalEvent → Result (List Finding)
  travel current [] = ok []
  travel current (item ∷ prior) =
      let later = travel current prior in
      country clock item >>= λ found.
      let other = or_text found in
      if other == "" || other == current then later else travelled current other item

  abbrev pub prior_successes : List CanonicalEvent → List CanonicalEvent
  prior_successes = filter (λ item. not (item.id == event.id) && is_auth_success item)

  unfoldable pub impossible_travel : Result (List Finding)
  impossible_travel =
      if not (is_auth_success event) || unnamed
      then ok []
      else country clock event >>= λ found.
          let current = or_text found in
          if current == ""
          then ok []
          else events_in_window context event 7200 (logins_of "success" name) >>= λ seen.
              travel current (prior_successes seen)

  unfoldable pub mfa_fatigue : Result (List Finding)
  mfa_fatigue =
      if not (is_mfa event) || unnamed
      then ok []
      else events_in_window context event 600 (of_name name) >>= λ seen.
          let related = filter is_mfa seen in
          if ltb (length related) 5
          then ok []
          else identity_report clock mfa_fatigue_meta event related
              (fingerprint_of mfa_fatigue_meta event
                (join (name ∷ ":" ∷ clock.ten_minutes_of event.timestamp ∷ [])))
              (join (
                "Account "
                ∷ name
                ∷ " received "
                ∷ number clock (length related)
                ∷ " MFA challenge/deny events within 600s."
                ∷ []))
              context

  unfoldable pub dormant_account : Result (List Finding)
  dormant_account =
      if not (is_auth_success event) || unnamed
      then ok []
      else is_dormant clock event >>= λ dormant.
          if not dormant
          then ok []
          else identity_report clock dormant_account_meta event (event ∷ [])
              (fingerprint_of dormant_account_meta event
                (join (name ∷ ":" ∷ clock.date_of event.timestamp ∷ [])))
              (join (
                "Dormant/long-idle account "
                ∷ name
                ∷ " authenticated successfully from "
                ∷ shown event.src_ip
                ∷ "."
                ∷ []))
              context

  unfoldable pub service_account_misuse : Result (List Finding)
  service_account_misuse =
      if not (is_auth_success event) || unnamed
      then ok []
      else if not (is_service clock event)
      then ok []
      else if not (is_interactive clock event)
      then ok []
      else identity_report clock service_account_misuse_meta event (event ∷ [])
          (fingerprint_of service_account_misuse_meta event
            (join (name ∷ ":" ∷ clock.hour_of event.timestamp ∷ [])))
          (join (
            "Service account "
            ∷ name
            ∷ " performed interactive authentication from "
            ∷ shown event.src_ip
            ∷ "."
            ∷ []))
          context

  unfoldable pub privilege_grant : Result (List Finding)
  privilege_grant =
      let target = grant_target clock event in
      if not (mem_text event.category ("identity" ∷ "directory" ∷ []))
      then ok []
      else if not (
          mem_text (shown event.action)
            ("add_to_group" ∷ "grant_role" ∷ "add_member" ∷ "elevate" ∷ []))
      then ok []
      else if not (any (λ marker. contains marker target) privileged_markers)
      then ok []
      else identity_report clock privilege_grant_meta event (event ∷ [])
          (fingerprint_of privilege_grant_meta event event.id)
          (join (
            (if name == "" then "unknown" else name)
            ∷ " granted privileged membership '"
            ∷ target
            ∷ "' (action="
            ∷ shown event.action
            ∷ ", outcome="
            ∷ (if or_text (outcome_of event.outcome) == ""
                then "unknown"
                else or_text (outcome_of event.outcome))
            ∷ ")."
            ∷ []))
          context
