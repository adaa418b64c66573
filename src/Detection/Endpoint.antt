-- ===== src/Detection/Endpoint.antt =====
-- detections/python/endpoint: the rules over processes, services, tasks and the registry.
use blue_team_os.Prelude.{
  String, Bool, true, false, ◌&&◌, ◌||◌, not, Option, none, some, List, [], ◌∷◌, ◌++◌, ◌==◌,
  mem_text, filter, any, if◌then◌else◌, lower, contains, null,
}
use blue_team_os.Errors.{Result, ok, ◌>>=◌}
use blue_team_os.Value.{Value, text, to_str, get_or}
use blue_team_os.Event.{CanonicalEvent, CanonicalFile, CanonicalHost, CanonicalProcess}
use blue_team_os.Detection.Context.{Finding, DetectionContext, RuleMeta, events_in_window}
use blue_team_os.Detection.Rules.{
  Clock, or_text, shown, or_value, join, process_name, shared_report, meta_of, fingerprint_of,
  no_filters,
}

abbrev pub office_shell_meta : RuleMeta
office_shell_meta =
    meta_of "endpoint.office_spawns_shell" "Office spawns a shell"
      "Office process launches powershell, cmd, or wscript." "high" 88 ("execution" ∷ [])
      ("T1059.001" ∷ "T1204.002" ∷ []) ("endpoint" ∷ "process" ∷ [])

abbrev pub encoded_powershell_meta : RuleMeta
encoded_powershell_meta =
    meta_of "endpoint.encoded_powershell" "Encoded PowerShell"
      "PowerShell launched with encoded command switches." "high" 86
      ("defense-evasion" ∷ "execution" ∷ []) ("T1027" ∷ "T1059.001" ∷ [])
      ("endpoint" ∷ "process" ∷ [])

abbrev pub script_interpreter_meta : RuleMeta
script_interpreter_meta =
    meta_of "endpoint.suspicious_script_interpreter" "Suspicious script interpreter"
      "Script host or interpreter launched from user content paths." "medium" 74 ("execution" ∷ [])
      ("T1059" ∷ []) ("endpoint" ∷ "process" ∷ [])

abbrev pub service_persistence_meta : RuleMeta
service_persistence_meta =
    meta_of "endpoint.service_persistence" "Service persistence"
      "New or modified service creation from endpoint telemetry." "medium" 78 ("persistence" ∷ [])
      ("T1543.003" ∷ []) ("endpoint" ∷ [])

abbrev pub task_persistence_meta : RuleMeta
task_persistence_meta =
    meta_of "endpoint.scheduled_task_persistence" "Scheduled-task persistence"
      "Scheduled task creation or modification." "medium" 78 ("persistence" ∷ []) ("T1053.005" ∷ [])
      ("endpoint" ∷ [])

abbrev pub registry_persistence_meta : RuleMeta
registry_persistence_meta =
    meta_of "endpoint.registry_persistence" "Registry persistence"
      "Run-key or similar registry persistence write." "medium" 80 ("persistence" ∷ [])
      ("T1547.001" ∷ []) ("endpoint" ∷ [])

abbrev pub unusual_child_meta : RuleMeta
unusual_child_meta =
    meta_of "endpoint.unusual_child_process" "Unusual child process"
      "Trusted parent launches an unexpected LOLBin or payload-like child." "medium" 72
      ("execution" ∷ []) ("T1204" ∷ []) ("endpoint" ∷ [])

abbrev pub rare_path_meta : RuleMeta
rare_path_meta =
    meta_of "endpoint.rare_executable_path" "Rare executable path"
      "Executable launched from a world-writable or user-temp path." "medium" 70
      ("defense-evasion" ∷ []) ("T1036" ∷ []) ("endpoint" ∷ [])

abbrev pub process_network_meta : RuleMeta
process_network_meta =
    meta_of "endpoint.process_network_chain" "Process to network chain"
      "A newly created process on a host is followed by an outbound connection." "high" 80
      ("command-and-control" ∷ []) ("T1071" ∷ []) ("endpoint" ∷ "network" ∷ [])

abbrev pub exists {ℓ} : {A : Type ℓ} → Option A → Bool
exists none = false
exists (some a) = true

-- (process.name or "").lower()
abbrev process_low : Option CanonicalProcess → String
process_low process = lower (process_name process)

abbrev path_of : Option CanonicalProcess → String
path_of none = ""
path_of (some process) = lower (or_text process.path)

abbrev command_of : Option CanonicalProcess → String
command_of none = ""
command_of (some process) = lower (or_text process.command_line)

-- a or b, of optional texts that are then read as texts.
abbrev pub first_of : Option String → Option String → String
first_of a b = if or_text a == "" then or_text b else or_text a

abbrev script_path : Option CanonicalProcess → String
script_path none = ""
script_path (some process) = lower (first_of process.path process.command_line)

abbrev pub host_of : Option CanonicalHost → String
host_of none = ""
host_of (some host) = first_of host.name host.id

abbrev file_path : Option CanonicalFile → String
file_path none = ""
file_path (some file) = or_text file.path

abbrev last_process : List CanonicalEvent → String
last_process [] = ""
last_process (item ∷ items) = elim items [
  | [] ↦ elim item.process [ none ↦ "" | some process ↦ shown process.name ]
  | _ ∷ _ ↦ last_process items
]

module _ (clock : Clock) (event : CanonicalEvent) (context : DetectionContext) where
  abbrev child : String
  child = process_low event.process

  abbrev parent : String
  parent = process_low event.parent_process

  abbrev pub no_process : Bool
  no_process = not (event.category == "process") || not (exists event.process)

  -- The end of a rule over one event.
  abbrev report : RuleMeta → (rest explanation : String) → Result (List Finding)
  report meta rest explanation =
      shared_report clock meta event (event ∷ []) (fingerprint_of meta event rest) explanation
        context

  unfoldable pub office_shell : Result (List Finding)
  office_shell =
      if no_process || not (exists event.parent_process)
      then ok []
      else if not
            (mem_text parent ("winword.exe" ∷ "excel.exe" ∷ "powerpnt.exe" ∷ "outlook.exe" ∷ []))
          || not (
              mem_text child
                ("powershell.exe" ∷ "pwsh.exe" ∷ "cmd.exe" ∷ "wscript.exe" ∷ "cscript.exe" ∷ []))
      then ok []
      else report office_shell_meta (join (parent ∷ ":" ∷ child ∷ ":" ∷ event.id ∷ []))
          (join (parent ∷ " spawned " ∷ child ∷ "." ∷ []))

  unfoldable pub encoded_powershell : Result (List Finding)
  encoded_powershell =
      let padded = join (" " ∷ command_of event.process ∷ " " ∷ []) in
      if no_process
      then ok []
      else if not (mem_text child ("powershell.exe" ∷ "pwsh.exe" ∷ []))
          || not (
              any (λ marker. contains marker padded)
                (" -enc " ∷ " -encodedcommand " ∷ " -e " ∷ "frombase64string" ∷ []))
      then ok []
      else report encoded_powershell_meta event.id
          "PowerShell command line contains an encoded-command marker."

  unfoldable pub script_interpreter : Result (List Finding)
  script_interpreter =
      if no_process
      then ok []
      else if not (
          mem_text child
            ("wscript.exe" ∷ "cscript.exe" ∷ "mshta.exe" ∷ "python.exe" ∷ "wmic.exe" ∷ []))
      then ok []
      else if not (
          any (λ token. contains token (script_path event.process))
            ("\\users\\" ∷ "/home/" ∷ "\\appdata\\" ∷ "\\temp\\" ∷ []))
      then ok []
      else report script_interpreter_meta (join (child ∷ ":" ∷ event.id ∷ []))
          (join (child ∷ " executed from a user/content path." ∷ []))

  unfoldable pub service_persistence : Result (List Finding)
  service_persistence =
      let other = not (event.event_type == "service") in
      if other && not (event.category == "persistence")
      then ok []
      else if not
            (mem_text (shown event.action) ("service" ∷ "service_start" ∷ "service_create" ∷ []))
          && other
      then ok []
      else if other
      then ok []
      else report service_persistence_meta event.id "Service persistence event observed."

  unfoldable pub task_persistence : Result (List Finding)
  task_persistence =
      if not (event.event_type == "scheduled_task")
      then ok []
      else report task_persistence_meta event.id "Scheduled-task persistence event observed."

  abbrev registry_path : String
  registry_path =
      let raw =
        to_str clock.py (or_value (get_or event.raw_event "TargetObject" Value.null) (text "")) in
      lower (if file_path event.file == "" then raw else file_path event.file)

  unfoldable pub registry_persistence : Result (List Finding)
  registry_persistence =
      if not (event.category == "registry")
      then ok []
      else if not (contains "\\currentversion\\run" registry_path)
          && not (contains "runonce" registry_path)
      then ok []
      else report registry_persistence_meta event.id
          (join ("Registry persistence write: " ∷ registry_path ∷ []))

  unfoldable pub unusual_child : Result (List Finding)
  unusual_child =
      let path = path_of event.process in
      if no_process || not (exists event.parent_process)
      then ok []
      else if not (mem_text parent ("explorer.exe" ∷ "services.exe" ∷ []))
          || not (
              mem_text child (
                "powershell.exe" ∷ "cmd.exe" ∷ "mshta.exe" ∷ "rundll32.exe" ∷ "regsvr32.exe"
                ∷ "payload.exe" ∷ []))
      then ok []
      else if (parent == "explorer.exe" && mem_text child ("powershell.exe" ∷ "cmd.exe" ∷ []))
          && (not (contains "\\temp\\" path)
              && (not (contains "\\users\\" path) && not (child == "payload.exe")))
      then ok []
      else report unusual_child_meta (join (parent ∷ ":" ∷ child ∷ ":" ∷ event.id ∷ []))
          (join ("Unusual child " ∷ child ∷ " from " ∷ parent ∷ "." ∷ []))

  unfoldable pub rare_path : Result (List Finding)
  rare_path =
      let path = path_of event.process in
      if no_process
      then ok []
      else if path == ""
          || not (
              any (λ token. contains token path)
                ("\\temp\\" ∷ "\\appdata\\local\\temp\\" ∷ "/tmp/" ∷ "\\users\\public\\" ∷ []))
      then ok []
      else report rare_path_meta path (join ("Process launched from rare path " ∷ path ∷ "." ∷ []))

  abbrev host : String
  host = host_of event.host

  abbrev launches : CanonicalEvent → Bool
  launches item =
      item.category == "process"
      && (exists item.process
          && (mem_text (process_low item.process)
                ("powershell.exe" ∷ "pwsh.exe" ∷ "cmd.exe" ∷ "payload.exe" ∷ "wscript.exe" ∷ [])
              && (exists item.host && host_of item.host == host)))

  abbrev pub processes : List CanonicalEvent → List CanonicalEvent
  processes = filter launches

  unfoldable pub process_network : Result (List Finding)
  process_network =
      if not (event.category == "network")
        || (or_text event.dst_ip == "" || not (exists event.host))
      then ok []
      else if host == ""
      then ok []
      else events_in_window context event 180 no_filters >>= λ seen.
          if null (processes seen)
          then ok []
          else shared_report clock process_network_meta event (processes seen ++ event ∷ [])
              (fingerprint_of process_network_meta event
                (join (host ∷ ":" ∷ or_text event.dst_ip ∷ [])))
              (join (
                "Host "
                ∷ host
                ∷ " ran "
                ∷ last_process (processes seen)
                ∷ " then connected to "
                ∷ or_text event.dst_ip
                ∷ "."
                ∷ []))
              context
