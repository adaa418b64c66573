-- ===== src/Detection/Seen.antt =====
-- Each rule of detections/python/endpoint, network and scheduled reports only what its events ground.
use blue_team_os.Prelude.{
  map, ltb, eqb, ◌==◌, ◌&&◌, ◌||◌, not, [], ◌∷◌, ◌==◌, All-append, values, length,
}
use blue_team_os.Event.{CanonicalEvent}
use blue_team_os.Detection.Context.{DetectionContext}
use blue_team_os.Detection.Rules.{Clock, or_text}
use blue_team_os.Detection.Grounds.{
  Known, Grounded, trigger-IsKnown, filter-Known, windowed, queried, guarded, guarded_thrice,
  shared,
}
use blue_team_os.Detection.Endpoint.{
  no_process, exists, office_shell, office_shell_meta, encoded_powershell, encoded_powershell_meta,
  script_interpreter, script_interpreter_meta, service_persistence, service_persistence_meta,
  task_persistence, task_persistence_meta, registry_persistence, registry_persistence_meta,
  unusual_child, unusual_child_meta, rare_path, rare_path_meta, process_network,
  process_network_meta,
}
use blue_team_os.Detection.Network.{
  count_destinations, destination, peers, seen_times, largest, no_addresses, has_port,
  is_admin_port, is_internal, source, horizontal_scan, horizontal_scan_meta, vertical_scan,
  vertical_scan_meta, rare_destination, rare_destination_meta, beacon, beacon_meta, suspicious_dns,
  suspicious_dns_meta, east_west, east_west_meta, window_sweep, window_sweep_meta,
}

module _ (clock : Clock) (context : DetectionContext) (event : CanonicalEvent) where
  itself : Known context event (event ∷ [])
  itself = (trigger-IsKnown context event, tt)

  pub horizontal_scan-Grounded :
      Grounded clock context event horizontal_scan_meta (horizontal_scan clock event context)
  unfolding horizontal_scan
  horizontal_scan-Grounded = guarded _ (
      windowed 120 _ _
        (λ seen known. guarded _ (shared _ _ _ (filter-Known context event _ _ known))))

  pub vertical_scan-Grounded :
      Grounded clock context event vertical_scan_meta (vertical_scan clock event context)
  unfolding vertical_scan
  vertical_scan-Grounded = guarded _ (
      windowed 120 _ _
        (λ seen known. guarded _ (shared _ _ _ (filter-Known context event _ _ known))))

  pub rare_destination-Grounded :
      Grounded clock context event rare_destination_meta (rare_destination clock event context)
  unfolding rare_destination
  rare_destination-Grounded =
      guarded (not (event.category == "network") || no_addresses clock event context) (
        windowed 3600 _ _ (λ seen known.
          let counts = count_destinations [] (map destination (peers clock event context seen)) in
          guarded (not (eqb (seen_times (destination event) counts) 1)) (
            guarded (ltb (largest (values counts)) 3 || ltb (length counts) 2)
              (shared _ _ _ (filter-Known context event _ _ known)))))

  pub beacon-Grounded : Grounded clock context event beacon_meta (beacon clock event context)
  unfolding beacon
  beacon-Grounded = guarded _ (
      windowed 600 _ _
        (λ seen known. guarded _ (shared _ _ _ (filter-Known context event _ _ known))))

  pub suspicious_dns-Grounded :
      Grounded clock context event suspicious_dns_meta (suspicious_dns clock event context)
  unfolding suspicious_dns
  suspicious_dns-Grounded = guarded _ (guarded _ (shared _ _ _ itself))

  pub east_west-Grounded :
      Grounded clock context event east_west_meta (east_west clock event context)
  unfolding east_west
  east_west-Grounded =
      guarded_thrice
        (not (event.category == "network")
          || (no_addresses clock event context || not (has_port event.dst_port)))
        (not (is_admin_port clock event context event.dst_port))
        (not (is_internal clock event context (source clock event context))
          || not (is_internal clock event context (destination event)))
        (shared _ _ _ itself)

  pub window_sweep-Grounded :
      Grounded clock context event window_sweep_meta (window_sweep clock event context)
  unfolding window_sweep
  window_sweep-Grounded =
      guarded (not context.scheduled)
        (guarded _ (queried _ _ _ _ (λ seen known. guarded _ (shared _ _ _ known))))

  pub office_shell-Grounded :
      Grounded clock context event office_shell_meta (office_shell clock event context)
  unfolding office_shell
  office_shell-Grounded = guarded _ (guarded _ (shared _ _ _ itself))

  pub encoded_powershell-Grounded :
      Grounded clock context event encoded_powershell_meta (encoded_powershell clock event context)
  unfolding encoded_powershell
  encoded_powershell-Grounded = guarded _ (guarded _ (shared _ _ _ itself))

  pub script_interpreter-Grounded :
      Grounded clock context event script_interpreter_meta (script_interpreter clock event context)
  unfolding script_interpreter
  script_interpreter-Grounded =
      guarded (no_process clock event context) (guarded _ (guarded _ (shared _ _ _ itself)))

  pub service_persistence-Grounded :
      Grounded clock context event service_persistence_meta
        (service_persistence clock event context)
  unfolding service_persistence
  service_persistence-Grounded =
      guarded (not (event.event_type == "service") && not (event.category == "persistence"))
        (guarded _ (guarded _ (shared _ _ _ itself)))

  pub task_persistence-Grounded :
      Grounded clock context event task_persistence_meta (task_persistence clock event context)
  unfolding task_persistence
  task_persistence-Grounded = guarded _ (shared _ _ _ itself)

  pub registry_persistence-Grounded :
      Grounded clock context event registry_persistence_meta
        (registry_persistence clock event context)
  unfolding registry_persistence
  registry_persistence-Grounded = guarded _ (guarded _ (shared _ _ _ itself))

  pub unusual_child-Grounded :
      Grounded clock context event unusual_child_meta (unusual_child clock event context)
  unfolding unusual_child
  unusual_child-Grounded =
      guarded (no_process clock event context || not (exists event.parent_process))
        (guarded _ (guarded _ (shared _ _ _ itself)))

  pub rare_path-Grounded :
      Grounded clock context event rare_path_meta (rare_path clock event context)
  unfolding rare_path
  rare_path-Grounded = guarded _ (guarded _ (shared _ _ _ itself))

  pub process_network-Grounded :
      Grounded clock context event process_network_meta (process_network clock event context)
  unfolding process_network
  process_network-Grounded =
      guarded
        (not (event.category == "network")
          || (or_text event.dst_ip == "" || not (exists event.host)))
        (guarded _ (
          windowed 180 _ _ (λ seen known.
            guarded _
              (shared _ _ _ (All-append _ _ _ (filter-Known context event _ _ known) itself)))))
