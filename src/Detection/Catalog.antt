-- ===== src/Detection/Catalog.antt =====
-- detections/python/catalog.py. A rule that the sigma compiler makes is a parameter.
use blue_team_os.Prelude.{List, [], ◌∷◌, ◌++◌}
use blue_team_os.Detection.Context.{DetectionRule, DetectionRegistry, register}
use blue_team_os.Detection.Rules.{Clock}
use blue_team_os.Detection.Failures.{
  password_spray, password_spray_meta, brute_force, brute_force_meta, repeated_failures,
  repeated_failures_meta, unusual_success, unusual_success_meta,
}
use blue_team_os.Detection.Accounts.{
  impossible_travel, impossible_travel_meta, mfa_fatigue, mfa_fatigue_meta, dormant_account,
  dormant_account_meta, service_account_misuse, service_account_misuse_meta, privilege_grant,
  privilege_grant_meta,
}
use blue_team_os.Detection.Endpoint.{
  office_shell, office_shell_meta, encoded_powershell, encoded_powershell_meta, script_interpreter,
  script_interpreter_meta, service_persistence, service_persistence_meta, task_persistence,
  task_persistence_meta, registry_persistence, registry_persistence_meta, unusual_child,
  unusual_child_meta, rare_path, rare_path_meta, process_network, process_network_meta,
}
use blue_team_os.Detection.Network.{
  horizontal_scan, horizontal_scan_meta, vertical_scan, vertical_scan_meta, rare_destination,
  rare_destination_meta, beacon, beacon_meta, suspicious_dns, suspicious_dns_meta, east_west,
  east_west_meta, window_sweep, window_sweep_meta,
}

module _ (clock : Clock) where
  abbrev pub identity_rules : List DetectionRule
  identity_rules =
      record { meta = password_spray_meta; evaluate = password_spray clock }
      ∷ record { meta = brute_force_meta; evaluate = brute_force clock }
      ∷ record { meta = privilege_grant_meta; evaluate = privilege_grant clock }
      ∷ record { meta = repeated_failures_meta; evaluate = repeated_failures clock }
      ∷ record { meta = unusual_success_meta; evaluate = unusual_success clock }
      ∷ record { meta = impossible_travel_meta; evaluate = impossible_travel clock }
      ∷ record { meta = mfa_fatigue_meta; evaluate = mfa_fatigue clock }
      ∷ record { meta = dormant_account_meta; evaluate = dormant_account clock }
      ∷ record { meta = service_account_misuse_meta; evaluate = service_account_misuse clock }
      ∷ []

  abbrev pub network_rules : List DetectionRule
  network_rules =
      record { meta = horizontal_scan_meta; evaluate = horizontal_scan clock }
      ∷ record { meta = vertical_scan_meta; evaluate = vertical_scan clock }
      ∷ record { meta = rare_destination_meta; evaluate = rare_destination clock }
      ∷ record { meta = beacon_meta; evaluate = beacon clock }
      ∷ record { meta = suspicious_dns_meta; evaluate = suspicious_dns clock }
      ∷ record { meta = east_west_meta; evaluate = east_west clock }
      ∷ []

  abbrev pub endpoint_rules : List DetectionRule
  endpoint_rules =
      record { meta = office_shell_meta; evaluate = office_shell clock }
      ∷ record { meta = encoded_powershell_meta; evaluate = encoded_powershell clock }
      ∷ record { meta = script_interpreter_meta; evaluate = script_interpreter clock }
      ∷ record { meta = service_persistence_meta; evaluate = service_persistence clock }
      ∷ record { meta = task_persistence_meta; evaluate = task_persistence clock }
      ∷ record { meta = registry_persistence_meta; evaluate = registry_persistence clock }
      ∷ record { meta = unusual_child_meta; evaluate = unusual_child clock }
      ∷ record { meta = rare_path_meta; evaluate = rare_path clock }
      ∷ record { meta = process_network_meta; evaluate = process_network clock }
      ∷ []

  abbrev pub scheduled_rules : List DetectionRule
  scheduled_rules = record { meta = window_sweep_meta; evaluate = window_sweep clock } ∷ []

-- for rule in …: registry.register(rule)
abbrev pub register_all : List DetectionRule → DetectionRegistry → DetectionRegistry
register_all [] registry = registry
register_all (rule ∷ rules) registry = register_all rules (register rule registry)

unfoldable pub build_default_registry : Clock → (sigma : List DetectionRule) → DetectionRegistry
build_default_registry clock sigma =
    register_all
      (identity_rules clock
        ++ network_rules clock
        ++ endpoint_rules clock
        ++ scheduled_rules clock
        ++ sigma)
      []
