-- ===== src/Quality/Tests.antt =====
-- An index of two checks, and the theorems at it.
use blue_team_os.Prelude.{◌≡◌, ◌≢◌, ◌≤◌, refl, true, false, [], ◌∷◌, All, lookup, insert}
use blue_team_os.Errors.{ok}
use blue_team_os.Value.{pos}
use blue_team_os.Quality.Points.{le}
use blue_team_os.Quality.Index.{
  elite, maturity_band, QualityCheckResult, QualityIndex, normalize, tally, domain_scores,
  compute_quality_index,
}
use blue_team_os.Quality.Bounds.{IsEarned, compute_quality_index-total, rank, maturity_band-le}

abbrev evidenced : QualityCheckResult
evidenced = record {
  check_id = "qck_1";
  domain = "dfir";
  title = "Disk images";
  max_points = pos 100;
  awarded_points = pos 95;
  passed = true;
  evidence_ids = "evi_1" ∷ [];
  reason = "ok";
}

abbrev claimed : QualityCheckResult
claimed = record evidenced { check_id = "qck_2"; domain = "cloud_security"; evidence_ids = [] }

abbrev index : QualityIndex
index = record {
  model_version = "qi-1.0.0";
  computed_at = 0;
  total = pos 80;
  maximum = pos 1000;
  band = maturity_band (pos 80);
  domains =
      ("network_defence", pos 0)
      ∷ ("endpoint_defence", pos 0)
      ∷ ("incident_response", pos 0)
      ∷ ("dfir", pos 80)
      ∷ ("detection_engineering", pos 0)
      ∷ ("threat_hunting", pos 0)
      ∷ ("identity_security", pos 0)
      ∷ ("cloud_security", pos 0)
      ∷ ("defensive_architecture", pos 0)
      ∷ ("threat_intelligence", pos 0)
      ∷ ("response_automation", pos 0)
      ∷ ("continuous_monitoring", pos 0)
      ∷ [];
  checks =
      evidenced
      ∷ (record claimed {
        awarded_points = pos 0;
        passed = false;
        reason = "ok Missing evidence — score withheld.";
      }
          ∷ []);
  unsigned = false;
}

computed : compute_quality_index (evidenced ∷ (claimed ∷ [])) 0 "qi-1.0.0" ≡ ok index
unfolding compute_quality_index tally normalize domain_scores lookup insert
computed = refl

compute_quality_index-total_example :
    (le index.total (pos 940) ≡ true) × (index.band ≢ elite) × All IsEarned index.checks
compute_quality_index-total_example =
    compute_quality_index-total (evidenced ∷ (claimed ∷ [])) 0 "qi-1.0.0" index computed

maturity_band-le_example : rank (maturity_band (pos 640)) ≤ rank (maturity_band (pos 860))
maturity_band-le_example = maturity_band-le (pos 640) (pos 860) refl
