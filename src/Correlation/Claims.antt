-- ===== src/Correlation/Claims.antt =====
-- The findings behind the storylines of rules, and behind all that correlate makes.

use blue_team_os.Prelude.{
  ◌*◌, ◌-◌, length, refl, String, Bool, true, false, List, [], ◌∷◌, ◌++◌, ◌==◌, any, null, mem_text,
  insert, lookup, inl, inr, All, All-append, All-Mem, Bool-cases, if◌then◌else◌, if_ind, ltb,
}
use blue_team_os.Event.{CanonicalEvent}
use blue_team_os.Detection.Context.{Finding}
use blue_team_os.Correlation.{Storyline, earliest, latest}
use blue_team_os.Correlation.Chains.{
  office_rules, beacon_rules, identity_chain, office_c2, lateral_c2,
}
use blue_team_os.Correlation.Rules.{
  distinct_rules, group_key, group_at, created, CorrelationRule, default_correlation_rules,
  group_all, group_story, story_of_group, stories_of_groups, matched_by, apply_correlation_rules,
}
use blue_team_os.Correlation.Correlate.{chains, same_story, add_new, correlate}
use blue_team_os.Correlation.Grounded.{
  earliest-latest, IsGrounded, Known, filter-Known, identity_chain-IsGrounded, office_c2-IsGrounded,
  lateral_c2-IsGrounded,
}

module _ (findings : List Finding) (new_id : String) where
  GroupKnown : List (String × List Finding) → Type 0
  GroupKnown = All (λ (g : String × List Finding). Known findings g.1)

  insert-Known :
      (key : String) (group : List Finding) (groups : List (String × List Finding))
      → Known findings group
      → GroupKnown groups
      → GroupKnown (insert key group groups)
  unfolding insert GroupKnown
  insert-Known key group [] h k = (h, tt)
  insert-Known key group ((other, old) ∷ groups) h k = elim (Bool-cases (other == key)) [
    | inl same ↦ rw same (h, k.1)
    | inr differs ↦ rw differs (k.0, insert-Known key group groups h k.1)
  ]

  group_at-Known :
      (key : String) (groups : List (String × List Finding))
      → GroupKnown groups
      → Known findings (group_at key groups)
  unfolding lookup GroupKnown
  group_at-Known key [] h = tt
  group_at-Known key ((other, old) ∷ groups) h = elim (Bool-cases (other == key)) [
    | inl same ↦ rw (group_at, same) h.0
    | inr differs ↦ rw (group_at, differs) (group_at-Known key groups h.1)
  ]

  group_all-Known :
      (rule : CorrelationRule) (groups : List (String × List Finding)) (items : List Finding)
      → GroupKnown groups
      → Known findings items
      → GroupKnown (group_all rule groups items)
  group_all-Known rule groups [] h k = h
  group_all-Known rule groups (item ∷ items) h k =
      group_all-Known rule
        (insert (group_key rule item) (group_at (group_key rule item) groups ++ item ∷ []) groups)
        items
        (insert-Known (group_key rule item) (group_at (group_key rule item) groups ++ item ∷ [])
          groups
          (All-append _ (group_at (group_key rule item) groups) (item ∷ [])
            (group_at-Known (group_key rule item) groups h) (k.0, tt))
          h)
        k.1

  story_of_group-IsGrounded :
      (rule : CorrelationRule) (entity : String) (group : List Finding)
      → Known findings group
      → All (IsGrounded findings) (story_of_group new_id rule entity group)
  unfolding story_of_group
  story_of_group-IsGrounded rule entity [] h = tt
  story_of_group-IsGrounded rule entity (first ∷ rest) h =
      let made = group_story new_id rule entity first rest ∷ [] in
      let apart =
        ltb (rule.window_seconds * 1000000)
          (latest first.created_at (created rest) - earliest first.created_at (created rest)) in
      let few = ltb (length (first ∷ rest)) rule.min_findings in
      unless (ltb (distinct_rules (first ∷ rest)) (length rule.required_rule_ids))
        (if few then [] else if apart then [] else made)
        (unless few (if apart then [] else made) (
          unless apart made (
            record {
              first = first;
              others = rest;
              known = h;
              tenant = refl;
              events = refl;
              evidence = refl;
              ordered = earliest-latest first.created_at (created rest);
            },
            tt,
          )))
    where
      unless :
          (guard : Bool) (stories : List Storyline)
          → All (IsGrounded findings) stories
          → All (IsGrounded findings) (if guard then [] else stories)
      unless true stories k = tt
      unless false stories k = k

  stories_of_groups-IsGrounded :
      (rule : CorrelationRule) (groups : List (String × List Finding))
      → GroupKnown groups
      → All (IsGrounded findings) (stories_of_groups new_id rule groups)
  unfolding GroupKnown
  stories_of_groups-IsGrounded rule [] h = tt
  stories_of_groups-IsGrounded rule ((entity, group) ∷ groups) h =
      All-append _ (story_of_group new_id rule entity group) _
        (story_of_group-IsGrounded rule entity group h.0)
        (stories_of_groups-IsGrounded rule groups h.1)

  apply_correlation_rules-IsGrounded :
      (rules : List CorrelationRule)
      → Known findings findings
      → All (IsGrounded findings) (apply_correlation_rules new_id findings rules)
  unfolding apply_correlation_rules GroupKnown
  apply_correlation_rules-IsGrounded [] h = tt
  apply_correlation_rules-IsGrounded (rule ∷ rules) h =
      let rest = apply_correlation_rules-IsGrounded rules h in
      let groups = group_all rule [] (matched_by rule findings) in
      if_ind (All (IsGrounded findings))
        (ltb (distinct_rules (matched_by rule findings)) (length rule.required_rule_ids))
        (apply_correlation_rules new_id findings rules)
        (stories_of_groups new_id rule groups ++ apply_correlation_rules new_id findings rules)
        (λ _. rest)
        (λ _.
          All-append _ (stories_of_groups new_id rule groups) _
            (stories_of_groups-IsGrounded rule groups (
              group_all-Known rule [] (matched_by rule findings) tt (
                filter-Known findings (λ item. mem_text item.rule_id rule.required_rule_ids)
                  findings h)))
            rest)

module _ (findings : List Finding) where
  add_new-IsGrounded :
      (storylines extras : List Storyline)
      → All (IsGrounded findings) storylines
      → All (IsGrounded findings) extras
      → All (IsGrounded findings) (add_new storylines extras)
  add_new-IsGrounded storylines [] h k = h
  add_new-IsGrounded storylines (extra ∷ extras) h k =
      if_ind (All (IsGrounded findings)) (any (same_story extra) storylines)
        (add_new storylines extras) (add_new (storylines ++ extra ∷ []) extras)
        (λ _. add_new-IsGrounded storylines extras h k.1)
        (λ _.
          add_new-IsGrounded (storylines ++ extra ∷ []) extras
            (All-append _ storylines (extra ∷ []) h (k.0, tt)) k.1)

-- Each storyline is made of one or more of the findings: it has the tenant of the first of them, its
-- events and its evidence identifiers are exactly those of all of them, in their order, and it does not
-- end before it starts.
pub correlate-IsGrounded :
    (new_id : String) (events : List CanonicalEvent) (findings : List Finding)
    → All (IsGrounded findings) (correlate new_id events findings)
unfolding correlate
correlate-IsGrounded new_id events findings =
    let known = All-Mem findings in
    let beacons =
      filter-Known findings (λ item. mem_text item.rule_id beacon_rules) findings known in
    if_ind (All (IsGrounded findings)) (null findings) []
      (add_new (chains new_id events findings)
        (apply_correlation_rules new_id findings default_correlation_rules))
      (λ _. tt)
      (λ _.
        add_new-IsGrounded findings (chains new_id events findings)
          (apply_correlation_rules new_id findings default_correlation_rules)
          (All-append _ _ (lateral_c2 new_id _ _)
            (All-append _ (identity_chain new_id _ findings events) (office_c2 new_id _ _)
              (identity_chain-IsGrounded findings new_id _ events
                (filter-Known findings (λ item. item.rule_id == "identity.password_spray") findings
                  known)
                known)
              (office_c2-IsGrounded findings new_id _ _
                (filter-Known findings (λ item. mem_text item.rule_id office_rules) findings known)
                beacons))
            (lateral_c2-IsGrounded findings new_id _ _
              (filter-Known findings (λ item. item.rule_id == "network.unusual_east_west") findings
                known)
              beacons))
          (apply_correlation_rules-IsGrounded findings new_id default_correlation_rules known))
