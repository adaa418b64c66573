-- ===== src/Correlation/Correlate.antt =====
-- packages/correlation/blueteam_correlation/engine.py: correlate.
use blue_team_os.Prelude.{
  String, Bool, true, false, ◌&&◌, List, [], ◌∷◌, ◌++◌, ◌==◌, filter, any, null, if◌then◌else◌,
}
use blue_team_os.Event.{CanonicalEvent}
use blue_team_os.Detection.Context.{Finding}
use blue_team_os.Correlation.{Storyline}
use blue_team_os.Correlation.Chains.{
  rules_in, office_rules, beacon_rules, identity_chain, office_c2, lateral_c2,
}
use blue_team_os.Correlation.Rules.{default_correlation_rules, apply_correlation_rules}

abbrev same_texts : List String → List String → Bool
same_texts [] [] = true
same_texts (a ∷ as_) (b ∷ bs) = a == b && same_texts as_ bs
same_texts _ _ = false

abbrev pub same_story : Storyline → Storyline → Bool
same_story a b = a.title == b.title && same_texts a.event_ids b.event_ids

-- for extra in …: if key not in existing
abbrev pub add_new : (storylines extras : List Storyline) → List Storyline
add_new storylines [] = storylines
add_new storylines (extra ∷ extras) =
    let skipped = add_new storylines extras in
    let kept = add_new (storylines ++ extra ∷ []) extras in
    if any (same_story extra) storylines then skipped else kept

-- The storylines of the three chains.
abbrev pub chains : (new_id : String) → List CanonicalEvent → List Finding → List Storyline
chains new_id events findings =
    identity_chain new_id (filter (λ item. item.rule_id == "identity.password_spray") findings)
      findings events
    ++ office_c2 new_id (rules_in office_rules findings) (rules_in beacon_rules findings)
    ++ lateral_c2 new_id (filter (λ item. item.rule_id == "network.unusual_east_west") findings)
        (rules_in beacon_rules findings)

unfoldable pub correlate : (new_id : String) → List CanonicalEvent → List Finding → List Storyline
correlate new_id events findings =
    if null findings
    then []
    else add_new (chains new_id events findings)
        (apply_correlation_rules new_id findings default_correlation_rules)
