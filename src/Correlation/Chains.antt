-- ===== src/Correlation/Chains.antt =====
-- packages/correlation/blueteam_correlation/engine.py: the storylines of fixed chains of findings.
use blue_team_os.Prelude.{
  ◌-◌, ◌*◌, String, Bool, true, false, ◌&&◌, ◌||◌, not, Option, none, some, List, [], ◌∷◌, ◌++◌,
  ◌==◌, map, filter, find_first, null, mem_text, insert, lookup, values, leb, if◌then◌else◌,
}
use blue_team_os.Event.{CanonicalEvent}
use blue_team_os.Detection.Context.{Finding, same_option, outcome_of}
use blue_team_os.Correlation.{
  StorylineStage, Storyline, attribute, evidence_ids_of, stage_of, story,
}

abbrev pub rules_in : List String → List Finding → List Finding
rules_in rule_ids = filter (λ item. mem_text item.rule_id rule_ids)

abbrev pub office_rules : List String
office_rules =
    "sigma.office-spawns-powershell" ∷ "endpoint.office_spawns_shell"
    ∷ "endpoint.encoded_powershell" ∷ []

abbrev pub beacon_rules : List String
beacon_rules = "network.repetitive_beacon" ∷ "endpoint.process_network_chain" ∷ []

abbrev pub overlap_user : Finding → Finding → Bool
overlap_user left right =
    not (attribute left "user" == "") && attribute left "user" == attribute right "user"

abbrev pub near : Finding → Finding → Bool
near left right =
    leb (left.created_at - right.created_at) (7200 * 1000000)
    && leb (right.created_at - left.created_at) (7200 * 1000000)

abbrev same_address : Option String → Option String → Bool
same_address none none = true
same_address none (some b) = false
same_address (some a) b = same_option b a

-- The event's time is taken to have a zone, as the time of a finding does.
abbrev pub is_later_success : Finding → CanonicalEvent → Bool
is_later_success spray event =
    event.category == "authentication"
    && (same_option (outcome_of event.outcome) "success"
        && (same_address event.src_ip (lookup "src_ip" spray.attributes)
            && leb (spray.created_at - 7200 * 1000000) event.timestamp))

-- {event.id: event for event in events}.values()
abbrev pub by_id : List (String × CanonicalEvent) → List CanonicalEvent → List CanonicalEvent
by_id dict [] = values dict
by_id dict (event ∷ events) = by_id (insert event.id event dict) events

abbrev success_stage : List CanonicalEvent → List StorylineStage
success_stage [] = []
success_stage (event ∷ events) =
    stage_of "authentication_success" [] (map (λ (e : CanonicalEvent). e.id) (event ∷ events))
      event.timestamp
    ∷ []

abbrev grant_stage : Option Finding → List StorylineStage
grant_stage none = []
grant_stage (some grant) =
    stage_of "privilege_grant" (grant.rule_id ∷ []) grant.event_ids grant.created_at ∷ []

abbrev pub events_of : Option Finding → List String
events_of none = []
events_of (some grant) = grant.event_ids

abbrev pub evidence_of : Option Finding → List String
evidence_of none = []
evidence_of (some grant) = evidence_ids_of grant

abbrev pub grant_of : Finding → List Finding → Option Finding
grant_of spray findings =
    find_first (λ item. overlap_user spray item || near spray item)
      (filter (λ item. item.rule_id == "identity.privilege_grant") findings)

abbrev pub exists : Option Finding → Bool
exists none = false
exists (some f) = true

abbrev pub goes_with : Finding → Finding → Bool
goes_with spawn item =
    attribute spawn "host" == ""
    || (same_option (lookup "host" item.attributes) (attribute spawn "host")
        || not (attribute item "src_ip" == ""))

module _ (new_id : String) where
  abbrev pub identity_story :
      Finding → Option Finding → (later_success : List CanonicalEvent) → Storyline
  identity_story spray grant later_success =
      story new_id spray.tenant_id "Password spray to privilege" spray.created_at
        (stage_of "password_spray" (spray.rule_id ∷ []) spray.event_ids spray.created_at
            ∷ success_stage later_success
          ++ grant_stage grant)
        ("T1110.003" ∷ "T1098" ∷ []) (evidence_ids_of spray ++ evidence_of grant)
        (spray.event_ids ++ events_of grant)
        (("user", attribute spray "user" ∷ []) ∷ ("ip", attribute spray "src_ip" ∷ []) ∷ []) 80

  -- for spray in sprays: …
  unfoldable pub identity_chain :
      (sprays findings : List Finding) → List CanonicalEvent → List Storyline
  identity_chain [] findings events = []
  identity_chain (spray ∷ sprays) findings events =
      let rest = identity_chain sprays findings events in
      let grant = grant_of spray findings in
      let later_success = filter (is_later_success spray) (by_id [] events) in
      let successes = filter (λ item. item.rule_id == "identity.brute_force") findings in
      if not (exists grant) && (null later_success && null successes)
      then rest
      else identity_story spray grant later_success ∷ rest

  abbrev pub office_story : (spawn match : Finding) → Storyline
  office_story spawn match =
      story new_id spawn.tenant_id "Office to PowerShell to beacon" spawn.created_at
        (stage_of "office_process" (spawn.rule_id ∷ []) spawn.event_ids spawn.created_at
          ∷ stage_of "powershell" (spawn.rule_id ∷ []) spawn.event_ids spawn.created_at
          ∷ stage_of "external_beacon" (match.rule_id ∷ []) match.event_ids match.created_at
          ∷ [])
        ("T1059.001" ∷ "T1204.002" ∷ "T1071" ∷ []) (evidence_ids_of spawn ++ evidence_ids_of match)
        (spawn.event_ids ++ match.event_ids)
        (("host", attribute spawn "host" ∷ [])
          ∷ ("ip", attribute match "dst_ip" ∷ [])
          ∷ ("process", attribute spawn "process" ∷ [])
          ∷ [])
        85

  abbrev pub office_of : Finding → Option Finding → List Storyline
  office_of spawn none = []
  office_of spawn (some match) = office_story spawn match ∷ []

  -- for spawn in office: …; without beacons no spawn has a match.
  unfoldable pub office_c2 : (office beacons : List Finding) → List Storyline
  office_c2 [] beacons = []
  office_c2 (spawn ∷ office) beacons =
      office_of spawn (find_first (goes_with spawn) beacons) ++ office_c2 office beacons

  abbrev pub lateral_story : (spawn beacon : Finding) → Storyline
  lateral_story spawn beacon =
      story new_id spawn.tenant_id "Endpoint to lateral movement to C2" spawn.created_at
        (stage_of "compromised_endpoint" [] spawn.event_ids spawn.created_at
          ∷ stage_of "smb_rdp_movement" (spawn.rule_id ∷ []) spawn.event_ids spawn.created_at
          ∷ stage_of "second_endpoint" [] spawn.event_ids spawn.created_at
          ∷ stage_of "c2" (beacon.rule_id ∷ []) beacon.event_ids beacon.created_at
          ∷ [])
        ("T1021" ∷ "T1071" ∷ []) (evidence_ids_of spawn ++ evidence_ids_of beacon)
        (spawn.event_ids ++ beacon.event_ids)
        ((
          "ip",
          attribute spawn "src_ip" ∷ attribute spawn "dst_ip" ∷ attribute beacon "dst_ip" ∷ [],
        )
          ∷ ("host", attribute spawn "host" ∷ [])
          ∷ [])
        78

  unfoldable pub lateral_c2 : (east beacons : List Finding) → List Storyline
  lateral_c2 (spawn ∷ east) (beacon ∷ beacons) = lateral_story spawn beacon ∷ []
  lateral_c2 _ _ = []
