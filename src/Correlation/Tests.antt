-- ===== src/Correlation/Tests.antt =====
-- A password spray and a grant within two hours, and the theorem at them.
use blue_team_os.Prelude.{
  ℕ, ◌≡◌, refl, String, false, List, [], ◌∷◌, null, All, lookup, mem_text, insert, sorted_set,
}
use blue_team_os.Detection.Context.{Finding}
use blue_team_os.Correlation.{story}
use blue_team_os.Correlation.Chains.{identity_chain, office_c2, lateral_c2}
use blue_team_os.Correlation.Rules.{apply_correlation_rules, story_of_group}
use blue_team_os.Correlation.Correlate.{correlate}
use blue_team_os.Correlation.Grounded.{IsGrounded}
use blue_team_os.Correlation.Claims.{correlate-IsGrounded}

abbrev finding : (id rule_id : String) → (created_at : ℕ) → Finding
finding id rule_id created_at = record {
  id = id;
  tenant_id = "ten_a";
  rule_id = rule_id;
  rule_version = "1.0.0";
  title = "Title";
  description = "";
  severity = "high";
  confidence = 80;
  fingerprint = id;
  mitre_tactics = [];
  mitre_techniques = [];
  event_ids = id ∷ [];
  evidence = (id, id, "trigger") ∷ [];
  explanation = "";
  created_at = created_at;
  attributes = ("user", "alice") ∷ ("src_ip", "10.0.0.1") ∷ [];
}

abbrev findings : List Finding
findings = finding "1" "identity.password_spray" 5 ∷ finding "2" "identity.privilege_grant" 9 ∷ []

told : null (correlate "stl_1" [] findings) ≡ false
unfolding correlate story identity_chain office_c2 lateral_c2 apply_correlation_rules story_of_group
    lookup mem_text insert sorted_set
told = refl

correlate-IsGrounded_example : All (IsGrounded findings) (correlate "stl_1" [] findings)
correlate-IsGrounded_example = correlate-IsGrounded "stl_1" [] findings
