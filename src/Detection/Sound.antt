-- ===== src/Detection/Sound.antt =====
-- Each rule of detections/python/identity reports only what its events ground.
use blue_team_os.Prelude.{
  mem_text, ltb, ◌==◌, if_ind, String, ◌||◌, not, List, [], ◌∷◌, ◌==◌, All-append, length,
}
use blue_team_os.Event.{CanonicalEvent}
use blue_team_os.Detection.Context.{DetectionContext}
use blue_team_os.Detection.Rules.{
  Clock, or_text, is_auth_failure, is_auth_success, user_name, users_of,
}
use blue_team_os.Detection.Failures.{
  password_spray, password_spray_meta, brute_force, brute_force_meta, repeated_failures,
  repeated_failures_meta, unusual_success, unusual_success_meta,
}
use blue_team_os.Detection.Accounts.{
  is_service, is_interactive, travel, travelled, impossible_travel, impossible_travel_meta,
  mfa_fatigue, mfa_fatigue_meta, dormant_account, dormant_account_meta, service_account_misuse,
  service_account_misuse_meta, privilege_grant, privilege_grant_meta,
}
use blue_team_os.Detection.Grounds.{
  Known, Grounded, trigger-IsKnown, filter-Known, windowed, nothing, located, behind_dormant,
  guarded, guarded_thrice, identity,
}

module _ (clock : Clock) (context : DetectionContext) (event : CanonicalEvent) where
  itself : Known context event (event ∷ [])
  itself = (trigger-IsKnown context event, tt)

  pub password_spray-Grounded :
      Grounded clock context event password_spray_meta (password_spray clock event context)
  unfolding password_spray
  password_spray-Grounded =
      guarded _ (windowed 600 _ _ (λ seen known. guarded _ (identity _ _ _ known)))

  pub brute_force-Grounded :
      Grounded clock context event brute_force_meta (brute_force clock event context)
  unfolding brute_force
  brute_force-Grounded = guarded (not (is_auth_failure event) || user_name event == "") (
      windowed 600 _ _ (λ seen known.
        guarded (ltb (length seen) 8)
          (guarded (ltb 2 (length (users_of seen))) (identity _ _ _ known))))

  pub repeated_failures-Grounded :
      Grounded clock context event repeated_failures_meta (repeated_failures clock event context)
  unfolding repeated_failures
  repeated_failures-Grounded =
      guarded _ (windowed 900 _ _ (λ seen known. guarded _ (identity _ _ _ known)))

  pub unusual_success-Grounded :
      Grounded clock context event unusual_success_meta (unusual_success clock event context)
  unfolding unusual_success
  unusual_success-Grounded = guarded _ (
      windowed 1800 _ _ (λ seen known.
        guarded _
          (identity _ _ _ (All-append _ _ _ (filter-Known context event _ _ known) itself))))

  travel-Grounded :
      (current : String) (prior : List CanonicalEvent)
      → Known context event prior
      → Grounded clock context event impossible_travel_meta
          (travel clock event context current prior)
  travel-Grounded current [] h = nothing
  travel-Grounded current (item ∷ prior) h = located item _ h.0 (λ found.
      if_ind (Grounded clock context event impossible_travel_meta)
        (or_text found == "" || or_text found == current) (travel clock event context current prior)
        (travelled clock event context current (or_text found) item)
        (λ _. travel-Grounded current prior h.1)
        (λ _. identity (item ∷ event ∷ []) _ _ (h.0, itself)))

  pub impossible_travel-Grounded :
      Grounded clock context event impossible_travel_meta (impossible_travel clock event context)
  unfolding impossible_travel
  impossible_travel-Grounded = guarded (not (is_auth_success event) || user_name event == "") (
      located event _ (trigger-IsKnown context event) (λ found. guarded (or_text found == "") (
        windowed 7200 _ _ (λ seen known.
          travel-Grounded (or_text found) _ (filter-Known context event _ _ known)))))

  pub mfa_fatigue-Grounded :
      Grounded clock context event mfa_fatigue_meta (mfa_fatigue clock event context)
  unfolding mfa_fatigue
  mfa_fatigue-Grounded = guarded _ (
      windowed 600 _ _
        (λ seen known. guarded _ (identity _ _ _ (filter-Known context event _ _ known))))

  pub dormant_account-Grounded :
      Grounded clock context event dormant_account_meta (dormant_account clock event context)
  unfolding dormant_account
  dormant_account-Grounded =
      guarded (not (is_auth_success event) || user_name event == "")
        (behind_dormant _ (λ dormant. guarded (not dormant) (identity _ _ _ itself)))

  pub service_account_misuse-Grounded :
      Grounded clock context event service_account_misuse_meta
        (service_account_misuse clock event context)
  unfolding service_account_misuse
  service_account_misuse-Grounded =
      guarded_thrice (not (is_auth_success event) || user_name event == "")
        (not (is_service clock event)) (not (is_interactive clock event)) (identity _ _ _ itself)

  pub privilege_grant-Grounded :
      Grounded clock context event privilege_grant_meta (privilege_grant clock event context)
  unfolding privilege_grant
  privilege_grant-Grounded =
      guarded (not (mem_text event.category ("identity" ∷ "directory" ∷ [])))
        (guarded _ (guarded _ (identity _ _ _ itself)))
