-- ===== src/Quality/Index.antt =====
-- The checks, the domains and the index.
use Prim.Native.String.{◌++◌ as text_append}
use blue_team_os.Prelude.{
  ℕ, String, Bool, false, not, Option, none, some, List, [], ◌∷◌, ◌++◌, null, lookup, insert,
  if◌then◌else◌,
}
use blue_team_os.Errors.{Result, ok, err, ◌>>=◌, value_error}
use blue_team_os.Value.{ℤ, pos}
use blue_team_os.Quality.Points.{◌+ℤ◌, le, min}

abbrev pub quality_domains : List (String × ℕ)
quality_domains =
    ("network_defence", 100)
    ∷ ("endpoint_defence", 100)
    ∷ ("incident_response", 100)
    ∷ ("dfir", 80)
    ∷ ("detection_engineering", 100)
    ∷ ("threat_hunting", 80)
    ∷ ("identity_security", 80)
    ∷ ("cloud_security", 70)
    ∷ ("defensive_architecture", 70)
    ∷ ("threat_intelligence", 50)
    ∷ ("response_automation", 60)
    ∷ ("continuous_monitoring", 50)
    ∷ []

pub data MaturityBand : Type 0 where
  prototype basic_soc professional advanced expert gse_calibre elite : MaturityBand

unfoldable pub maturity_band : ℤ → MaturityBand
maturity_band score =
    if le (pos 975) score
    then elite
    else if le (pos 925) score
    then gse_calibre
    else if le (pos 850) score
    then expert
    else if le (pos 750) score
    then advanced
    else if le (pos 650) score
    then professional
    else if le (pos 500) score
    then basic_soc
    else prototype

pub record QualityCheckResult : Type 0 where
  pub check_id : String
  pub domain : String
  pub title : String
  pub max_points : ℤ
  pub awarded_points : ℤ
  pub passed : Bool
  pub evidence_ids : List String
  pub reason : String

pub record QualityIndex : Type 0 where
  pub model_version : String
  pub computed_at : ℕ
  pub total : ℤ
  pub maximum : ℤ
  pub band : MaturityBand
  pub domains : List (String × ℤ)
  pub checks : List QualityCheckResult
  pub unsigned : Bool

-- The check as the index keeps it: its points are withheld without evidence, or when it did not pass.
unfoldable pub normalize : QualityCheckResult → QualityCheckResult
normalize check =
    if null check.evidence_ids
    then record check {
      awarded_points = pos 0;
      passed = false;
      reason = text_append check.reason " Missing evidence — score withheld.";
    }
    else if not check.passed
    then record check { awarded_points = pos 0 }
    else check

abbrev pub points_of : String → List (String × ℤ) → ℤ
points_of domain awarded = elim (lookup domain awarded) [ none ↦ pos 0 | some n ↦ n ]

-- awarded_by_domain and normalized
pub record Tally : Type 0 where
  pub awarded : List (String × ℤ)
  pub normalized : List QualityCheckResult

abbrev pub add_check : QualityCheckResult → Tally → Tally
add_check check t = record {
  awarded =
      insert check.domain (points_of check.domain t.awarded +ℤ check.awarded_points) t.awarded;
  normalized = t.normalized ++ check ∷ [];
}

abbrev pub known_domain : QualityCheckResult → Option ℕ → Result QualityCheckResult
known_domain check none = err (value_error (text_append "unknown quality domain: " check.domain))
known_domain check (some ceiling) = ok (normalize check)

-- The loop over the checks.
unfoldable pub tally : List QualityCheckResult → Tally → Result Tally
tally [] t = ok t
tally (check ∷ checks) t = known_domain check (lookup check.domain quality_domains) >>= λ kept.
    tally checks (add_check kept t)

-- domain_scores[domain] = min(ceiling, awarded_by_domain[domain])
unfoldable pub domain_scores : List (String × ℕ) → List (String × ℤ) → List (String × ℤ)
domain_scores [] awarded = []
domain_scores ((domain, ceiling) ∷ domains) awarded =
    (domain, min (pos ceiling) (points_of domain awarded)) ∷ domain_scores domains awarded

abbrev pub sum : List (String × ℤ) → ℤ
sum [] = pos 0
sum ((domain, n) ∷ scores) = n +ℤ sum scores

unfoldable pub compute_quality_index :
    (checks : List QualityCheckResult) (computed_at : ℕ) (model_version : String)
    → Result QualityIndex
compute_quality_index checks computed_at model_version =
    tally checks (record { awarded = []; normalized = [] }) >>= λ t.
    let scores = domain_scores quality_domains t.awarded in
    ok (record {
      model_version = model_version;
      computed_at = computed_at;
      total = sum scores;
      maximum = pos 1000;
      band = maturity_band (sum scores);
      domains = scores;
      checks = t.normalized;
      unsigned = false;
    })
