-- ===== src/Detection/Network.antt =====
-- detections/python/network: the rules over connections and name lookups; and
-- detections/python/scheduled/window_sweep.py.
use Prim.Native.Char.{code}
use blue_team_os.Prelude.{
  ◌-◌, ℕ, ◌+◌, String, Bool, true, false, ◌&&◌, ◌||◌, not, Option, none, some, List, [], ◌∷◌, ◌==◌,
  map, ◌*◌, mem_text, filter, any, if◌then◌else◌, ltb, eqb, length, max, lower, contains, lookup,
  insert, values, sorted_set,
}
use blue_team_os.Errors.{Result, ok, ◌>>=◌}
use blue_team_os.Value.{ℤ, pos, negsuc, int, to_str}
use blue_team_os.Event.{CanonicalEvent}
use blue_team_os.Detection.Context.{
  Finding, DetectionContext, RuleMeta, events_in_window, query, same_option, outcome_of,
}
use blue_team_os.Detection.Rules.{
  Clock, or_text, shown, number, join, shared_report, meta_of, fingerprint_of, failures_from,
  from_address, users_of,
}

abbrev pub horizontal_scan_meta : RuleMeta
horizontal_scan_meta =
    meta_of "network.horizontal_scan" "Horizontal network scan"
      "One source contacts many distinct destinations on a shared port." "medium" 80
      ("discovery" ∷ []) ("T1046" ∷ []) ("network" ∷ "zeek" ∷ "suricata" ∷ [])

abbrev pub vertical_scan_meta : RuleMeta
vertical_scan_meta =
    meta_of "network.vertical_scan" "Vertical port scan"
      "One source probes many ports on a single destination." "medium" 80 ("discovery" ∷ [])
      ("T1046" ∷ []) ("network" ∷ "zeek" ∷ "suricata" ∷ [])

abbrev pub rare_destination_meta : RuleMeta
rare_destination_meta =
    meta_of "network.rare_destination" "Rare destination"
      "First observed outbound destination from a host in the recent window." "low" 65
      ("command-and-control" ∷ []) ("T1071" ∷ []) ("network" ∷ [])

abbrev pub beacon_meta : RuleMeta
beacon_meta =
    meta_of "network.repetitive_beacon" "Repetitive beacon"
      "Regular outbound connections from one host to one destination." "high" 82
      ("command-and-control" ∷ []) ("T1071" ∷ []) ("network" ∷ [])

abbrev pub suspicious_dns_meta : RuleMeta
suspicious_dns_meta =
    meta_of "network.suspicious_dns" "Suspicious DNS"
      "Unusually long DNS query labels consistent with tunneling or DGA-like names." "medium" 70
      ("command-and-control" ∷ "exfiltration" ∷ []) ("T1071.004" ∷ []) ("dns" ∷ [])

abbrev pub east_west_meta : RuleMeta
east_west_meta =
    meta_of "network.unusual_east_west" "Unusual east-west traffic"
      "Internal-to-internal SMB/RDP/WinRM after or alongside other suspicious activity." "high" 75
      ("lateral-movement" ∷ []) ("T1021.002" ∷ "T1021.001" ∷ []) ("network" ∷ [])

abbrev pub window_sweep_meta : RuleMeta
window_sweep_meta =
    record (meta_of "scheduled.auth_failure_sweep" "Scheduled authentication failure sweep"
      "Window sweep for repeated authentication failures. Runs only on the scheduled runner."
      "medium" 70 ("credential-access" ∷ []) ("T1110" ∷ []) ("authentication" ∷ [])) {
        execution = "scheduled";
      }

abbrev same_int : ℤ → ℤ → Bool
same_int (pos m) (pos n) = eqb m n
same_int (negsuc m) (negsuc n) = eqb m n
same_int _ _ = false

abbrev same_port : Option ℤ → Option ℤ → Bool
same_port none none = true
same_port (some p) (some q) = same_int p q
same_port _ _ = false

-- bool(port)
abbrev pub has_port : Option ℤ → Bool
has_port none = false
has_port (some p) = not (same_int p (pos 0))

-- How many members {item.dst_port for item in events} has.
abbrev distinct_ports : List (Option ℤ) → ℕ
distinct_ports [] = 0
distinct_ports (p ∷ ports) =
    let more = distinct_ports ports in if any (same_port p) ports then more else 1 + more

-- len(part) for part in domain.split("."), the first part having `n` characters before.
abbrev label_lengths : ℕ → String → List ℕ
label_lengths n String.[] = n ∷ []
label_lengths n (String.◌∷◌ c s) =
    let ended = label_lengths 0 s in
    let longer = label_lengths (n + 1) s in if eqb (code c) b'.' then n ∷ ended else longer

-- max(…, default=0)
abbrev pub largest : List ℕ → ℕ
largest [] = 0
largest (n ∷ ns) = max n (largest ns)

abbrev pub seen_times : String → List (String × ℕ) → ℕ
seen_times key counts = elim (lookup key counts) [ none ↦ 0 | some n ↦ n ]

-- for item in peers: dest_counts[item.dst_ip] = dest_counts.get(item.dst_ip, 0) + 1
abbrev pub count_destinations : List (String × ℕ) → List String → List (String × ℕ)
count_destinations counts [] = counts
count_destinations counts (address ∷ rest) =
    count_destinations (insert address (seen_times address counts + 1) counts) rest

abbrev pub destination : CanonicalEvent → String
destination event = or_text event.dst_ip

abbrev is_traffic : CanonicalEvent → Bool
is_traffic event = mem_text event.category ("network" ∷ "alert" ∷ [])

module _ (clock : Clock) (event : CanonicalEvent) (context : DetectionContext) where
  abbrev pub source : String
  source = or_text event.src_ip

  abbrev pub target : String
  target = destination event

  abbrev port : String
  port = elim event.dst_port [ none ↦ "None" | some p ↦ to_str clock.py (int p) ]

  abbrev pub from_source : (seconds : ℕ) → Result (List CanonicalEvent)
  from_source seconds = events_in_window context event seconds (from_address event.src_ip)

  abbrev pub no_addresses : Bool
  no_addresses = source == "" || target == ""

  abbrev report :
      RuleMeta → List CanonicalEvent → (rest explanation : String) → Result (List Finding)
  report meta related rest explanation =
      shared_report clock meta event related (fingerprint_of meta event rest) explanation context

  unfoldable pub horizontal_scan : Result (List Finding)
  horizontal_scan =
      if not (is_traffic event) || no_addresses
      then ok []
      else from_source 120 >>= λ seen.
          let related =
            filter
              (λ item.
                is_traffic item
                && (not (destination item == "") && same_port item.dst_port event.dst_port))
              seen in
          let destinations = sorted_set (map destination related) in
          if ltb (length destinations) 8
          then ok []
          else report horizontal_scan_meta related (join (source ∷ ":" ∷ port ∷ [])) (
              join (
                source
                ∷ " contacted "
                ∷ number clock (length destinations)
                ∷ " distinct hosts on port "
                ∷ port
                ∷ " within 120s."
                ∷ []))

  unfoldable pub vertical_scan : Result (List Finding)
  vertical_scan =
      if not (is_traffic event) || no_addresses
      then ok []
      else from_source 120 >>= λ seen.
          let related =
            filter (λ item. same_option item.dst_ip target && has_port item.dst_port) seen in
          let ports = distinct_ports (map (λ (item : CanonicalEvent). item.dst_port) related) in
          if ltb ports 8
          then ok []
          else report vertical_scan_meta related (join (source ∷ ":" ∷ target ∷ []))
              (join (source ∷ " probed " ∷ number clock ports ∷ " ports on " ∷ target ∷ "." ∷ []))

  abbrev pub peers : List CanonicalEvent → List CanonicalEvent
  peers = filter (λ item. item.category == "network" && not (destination item == ""))

  unfoldable pub rare_destination : Result (List Finding)
  rare_destination =
      if not (event.category == "network") || no_addresses
      then ok []
      else from_source 3600 >>= λ seen.
          let counts = count_destinations [] (map destination (peers seen)) in
          if not (eqb (seen_times target counts) 1)
          then ok []
          else if ltb (largest (values counts)) 3 || ltb (length counts) 2
          then ok []
          else report rare_destination_meta (peers seen) (join (source ∷ ":" ∷ target ∷ []))
              (join (source ∷ " reached rare destination " ∷ target ∷ "." ∷ []))

  unfoldable pub beacon : Result (List Finding)
  beacon =
      if not (event.category == "network") || no_addresses
      then ok []
      else from_source 600 >>= λ seen.
          let related =
            filter (λ item. same_option item.dst_ip target && item.category == "network") seen in
          if ltb (length related) 4
          then ok []
          else report beacon_meta related (join (source ∷ ":" ∷ target ∷ [])) (
              join (
                number clock (length related)
                ∷ " outbound connections from "
                ∷ source
                ∷ " to "
                ∷ target
                ∷ "."
                ∷ []))

  unfoldable pub suspicious_dns : Result (List Finding)
  suspicious_dns =
      let domain = or_text event.domain in
      let long_label = largest (label_lengths 0 domain) in
      if not (event.category == "dns") || domain == ""
      then ok []
      else if ltb long_label 40 && not (contains "tunnel" (lower domain))
      then ok []
      else report suspicious_dns_meta (event ∷ []) domain (
          join (
            "DNS query " ∷ domain ∷ " has a " ∷ number clock long_label ∷ "-character label." ∷ []))

  abbrev pub is_admin_port : Option ℤ → Bool
  is_admin_port port = any (λ n. same_port port (some (pos n))) (445 ∷ 3389 ∷ 5985 ∷ 5986 ∷ [])

  -- The block under `try`; a ValueError counts as public.
  abbrev pub is_internal : String → Bool
  is_internal address = elim (clock.is_private address) [ none ↦ false | some b ↦ b ]

  unfoldable pub east_west : Result (List Finding)
  east_west =
      if not (event.category == "network") || (no_addresses || not (has_port event.dst_port))
      then ok []
      else if not (is_admin_port event.dst_port)
      then ok []
      else if not (is_internal source) || not (is_internal target)
      then ok []
      else report east_west_meta (event ∷ []) (join (source ∷ ":" ∷ target ∷ ":" ∷ port ∷ [])) (
          join (
            "East-west "
            ∷ (if or_text event.protocol == "" then "tcp" else or_text event.protocol)
            ∷ "/"
            ∷ port
            ∷ " from "
            ∷ source
            ∷ " to "
            ∷ target
            ∷ "."
            ∷ []))

  abbrev pub swept : Result (List CanonicalEvent)
  swept =
      query context.window event.tenant_id event.is_naive (event.timestamp - 86400 * 1000000)
        (some event.timestamp) (failures_from event.src_ip)

  unfoldable pub window_sweep : Result (List Finding)
  window_sweep =
      if not context.scheduled
      then ok []
      else if not (event.category == "authentication")
          || not (same_option (outcome_of event.outcome) "failure")
      then ok []
      else swept >>= λ related.
          if ltb (length related) 8
          then ok []
          else shared_report clock window_sweep_meta event related
              (join
                ("scheduled.auth_failure_sweep|" ∷ event.tenant_id ∷ "|" ∷ shown event.src_ip ∷ []))
              (join (
                "Scheduled sweep observed "
                ∷ number clock (length related)
                ∷ " authentication failures from "
                ∷ shown event.src_ip
                ∷ " across "
                ∷ number clock (length (users_of related))
                ∷ " users."
                ∷ []))
              context
