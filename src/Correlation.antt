-- ===== src/Correlation.antt =====
-- packages/correlation/blueteam_correlation, with the storylines of packages/schemas: what the chains
-- (Chains) and the rules (Rules) share, and what correlate makes of both (Correlate). The identifier that new_id gives a storyline is a parameter.
pub mod Chains
pub mod Rules
pub mod Correlate
pub mod Grounded
pub mod Claims
mod Tests
use blue_team_os.Prelude.{
  ℕ, String, not, Option, none, some, List, [], ◌∷◌, ◌==◌, map, filter, lookup, ltb, if◌then◌else◌,
}
use blue_team_os.Detection.Context.{Finding}
use blue_team_os.Detection.Rules.{or_text}

pub record StorylineStage : Type 0 where
  pub name : String
  pub rule_ids : List String
  pub event_ids : List String
  pub evidence_ids : List String
  pub timestamp : Option ℕ

pub record Storyline : Type 0 where
  pub storyline_id : String
  pub tenant_id : String
  pub title : String
  pub entities : List (String × List String)
  pub stages : List StorylineStage
  pub confidence : ℕ
  pub evidence_ids : List String
  pub event_ids : List String
  pub mitre_techniques : List String
  pub start : ℕ
  pub end : ℕ
  pub attributes : List (String × String)

abbrev pub attribute : Finding → String → String
attribute finding key = or_text (lookup key finding.attributes)

-- [item.evidence_id for item in finding.evidence]
abbrev pub evidence_ids_of : Finding → List String
evidence_ids_of finding = map (λ (e : String × String × String). e.0) finding.evidence

-- min(times) and max(times), of a time and more.
abbrev pub earliest : ℕ → List ℕ → ℕ
earliest t [] = t
earliest t (u ∷ times) = let rest = earliest u times in if ltb rest t then rest else t

abbrev pub latest : ℕ → List ℕ → ℕ
latest t [] = t
latest t (u ∷ times) = let rest = latest u times in if ltb t rest then rest else t

abbrev pub times_of : List StorylineStage → List ℕ
times_of [] = []
times_of (stage ∷ stages) = elim stage.timestamp [
  | none ↦ times_of stages
  | some t ↦ t ∷ times_of stages
]

abbrev pub stage_of :
    (name : String) → (rule_ids event_ids : List String) → (timestamp : ℕ) → StorylineStage
stage_of name rule_ids event_ids timestamp = record {
  name = name;
  rule_ids = rule_ids;
  event_ids = event_ids;
  evidence_ids = [];
  timestamp = some timestamp;
}

abbrev pub named : String × List String → String × List String
named (key, texts) = (key, filter (λ s. not (s == "")) texts)

module _ (new_id : String) where
  -- The first stage has the time `first`; the times of the others are those of `stages`.
  unfoldable pub story :
      (tenant_id title : String)
      → (first : ℕ) → (stages : List StorylineStage)
      → (techniques evidence_ids event_ids : List String) → List (String × List String)
      → (confidence : ℕ) → Storyline
  story tenant_id title first stages techniques evidence_ids event_ids entities confidence =
      record {
        storyline_id = new_id;
        tenant_id = tenant_id;
        title = title;
        entities = map named entities;
        stages = stages;
        confidence = confidence;
        evidence_ids = evidence_ids;
        event_ids = event_ids;
        mitre_techniques = techniques;
        start = earliest first (times_of stages);
        end = latest first (times_of stages);
        attributes = [];
      }
