-- ===== src/Correlation/Rules.antt =====
-- packages/correlation/blueteam_correlation/rules.py
use blue_team_os.Prelude.{
  ℕ, ◌-◌, ◌*◌, String, none, some, List, [], ◌∷◌, ◌++◌, ◌==◌, map, filter, mem_text, sorted_set,
  insert, lookup, length, ltb, leb, if◌then◌else◌,
}
use blue_team_os.Detection.Context.{Finding}
use blue_team_os.Correlation.{Storyline, attribute, evidence_ids_of, earliest, latest, stage_of}

pub record CorrelationRule : Type 0 where
  pub rule_id : String
  pub title : String
  pub required_rule_ids : List String
  pub entity_key : String
  pub window_seconds : ℕ
  pub mitre_techniques : List String
  pub min_findings : ℕ

abbrev pub default_correlation_rules : List CorrelationRule
default_correlation_rules =
    record {
      rule_id = "corr.identity.spray_then_grant";
      title = "Password spray correlated with privilege grant";
      required_rule_ids = "identity.password_spray" ∷ "identity.privilege_grant" ∷ [];
      entity_key = "user";
      window_seconds = 7200;
      mitre_techniques = "T1110.003" ∷ "T1098" ∷ [];
      min_findings = 2;
    }
    ∷ record {
      rule_id = "corr.endpoint.office_c2";
      title = "Office execution correlated with beacon";
      required_rule_ids = "endpoint.office_spawns_shell" ∷ "network.repetitive_beacon" ∷ [];
      entity_key = "host";
      window_seconds = 3600;
      mitre_techniques = "T1059.001" ∷ "T1071" ∷ [];
      min_findings = 2;
    }
    ∷ record {
      rule_id = "corr.network.lateral_c2";
      title = "East-west movement correlated with C2";
      required_rule_ids = "network.unusual_east_west" ∷ "network.repetitive_beacon" ∷ [];
      entity_key = "ip";
      window_seconds = 3600;
      mitre_techniques = "T1021" ∷ "T1071" ∷ [];
      min_findings = 2;
    }
    ∷ []

-- item.attributes.get(rule.entity_key) or item.attributes.get("src_ip") or ""
abbrev pub group_key : CorrelationRule → Finding → String
group_key rule item =
    if attribute item rule.entity_key == ""
    then attribute item "src_ip"
    else attribute item rule.entity_key

abbrev pub group_at : String → List (String × List Finding) → List Finding
group_at key groups = elim (lookup key groups) [ none ↦ [] | some group ↦ group ]

-- groups.setdefault(key, []).append(item)
abbrev pub group_all :
    CorrelationRule → List (String × List Finding) → List Finding → List (String × List Finding)
group_all rule groups [] = groups
group_all rule groups (item ∷ items) =
    let key = group_key rule item in
    group_all rule (insert key (group_at key groups ++ item ∷ []) groups) items

abbrev pub distinct_rules : List Finding → ℕ
distinct_rules items = length (sorted_set (map (λ (f : Finding). f.rule_id) items))

abbrev place : Finding → List Finding → List Finding
place f [] = f ∷ []
place f (g ∷ rest) =
    let later = place f rest in if leb f.created_at g.created_at then f ∷ g ∷ rest else g ∷ later

-- sorted(group, key=lambda row: row.created_at)
abbrev by_time : List Finding → List Finding
by_time [] = []
by_time (f ∷ rest) = place f (by_time rest)

abbrev pub concat : List (List String) → List String
concat [] = []
concat (xs ∷ rest) = xs ++ concat rest

abbrev pub created : List Finding → List ℕ
created = map (λ (f : Finding). f.created_at)

abbrev pub matched_by : CorrelationRule → List Finding → List Finding
matched_by rule = filter (λ item. mem_text item.rule_id rule.required_rule_ids)

module _ (new_id : String) where
  abbrev pub group_story : CorrelationRule → (entity : String) → Finding → List Finding → Storyline
  group_story rule entity first rest = record {
    storyline_id = new_id;
    tenant_id = first.tenant_id;
    title = rule.title;
    entities = (rule.entity_key, if entity == "" then [] else entity ∷ []) ∷ [];
    stages =
        map
          (λ (item : Finding).
            stage_of item.rule_id (item.rule_id ∷ []) item.event_ids item.created_at)
          (by_time (first ∷ rest));
    confidence = 75;
    evidence_ids = concat (map evidence_ids_of (first ∷ rest));
    event_ids = concat (map (λ (item : Finding). item.event_ids) (first ∷ rest));
    mitre_techniques = rule.mitre_techniques;
    start = earliest first.created_at (created rest);
    end = latest first.created_at (created rest);
    attributes = ("correlation_rule_id", rule.rule_id) ∷ [];
  }

  -- The body of the loop over the groups.
  unfoldable pub story_of_group :
      CorrelationRule → (entity : String) → List Finding → List Storyline
  story_of_group rule entity [] = []
  story_of_group rule entity (first ∷ rest) =
      let group = first ∷ rest in
      if ltb (distinct_rules group) (length rule.required_rule_ids)
      then []
      else if ltb (length group) rule.min_findings
      then []
      else if ltb (rule.window_seconds * 1000000)
          (latest first.created_at (created rest) - earliest first.created_at (created rest))
      then []
      else group_story rule entity first rest ∷ []

  abbrev pub stories_of_groups : CorrelationRule → List (String × List Finding) → List Storyline
  stories_of_groups rule [] = []
  stories_of_groups rule ((entity, group) ∷ groups) =
      story_of_group rule entity group ++ stories_of_groups rule groups

  unfoldable pub apply_correlation_rules : List Finding → List CorrelationRule → List Storyline
  apply_correlation_rules findings [] = []
  apply_correlation_rules findings (rule ∷ rules) =
      let rest = apply_correlation_rules findings rules in
      if ltb (distinct_rules (matched_by rule findings)) (length rule.required_rule_ids)
      then rest
      else stories_of_groups rule (group_all rule [] (matched_by rule findings)) ++ rest
