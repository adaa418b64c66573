-- ===== src/Detection/Findings.antt =====
-- What the registry of detections/python/catalog.py reports of an event.
use mathlib.Core.List.{Memᴰ}
use blue_team_os.Prelude.{
  ◌≡◌, refl, String, false, List, [], ◌∷◌, ◌++◌, ◌==◌, inl, inr, All, All-map, All-append, All-both,
  All-Mem, Bool-cases, values, insert,
}
use blue_team_os.Errors.{ok, OnOk, Returned, OnOk-then, OnOk-bind, OnOk-elim, OnOk-map}
use blue_team_os.Event.{CanonicalEvent}
use blue_team_os.Detection.Context.{
  Finding, DetectionContext, DetectionRule, DetectionRegistry, register, is_skipped, evaluate_rules,
  evaluate,
}
use blue_team_os.Detection.Rules.{Clock}
use blue_team_os.Detection.Catalog.{
  identity_rules, network_rules, endpoint_rules, scheduled_rules, register_all,
  build_default_registry,
}
use blue_team_os.Detection.Grounds.{IsGrounded, IsReadable, Grounded}
use blue_team_os.Detection.Sound.{
  password_spray-Grounded, brute_force-Grounded, repeated_failures-Grounded,
  unusual_success-Grounded, impossible_travel-Grounded, mfa_fatigue-Grounded,
  dormant_account-Grounded, service_account_misuse-Grounded, privilege_grant-Grounded,
}
use blue_team_os.Detection.Seen.{
  horizontal_scan-Grounded, vertical_scan-Grounded, rare_destination-Grounded, beacon-Grounded,
  suspicious_dns-Grounded, east_west-Grounded, window_sweep-Grounded, office_shell-Grounded,
  encoded_powershell-Grounded, script_interpreter-Grounded, service_persistence-Grounded,
  task_persistence-Grounded, registry_persistence-Grounded, unusual_child-Grounded,
  rare_path-Grounded, process_network-Grounded,
}

abbrev pub IsSoundRule : Clock → DetectionRule → Type 0
IsSoundRule clock rule =
    (context : DetectionContext) (event : CanonicalEvent)
    → Grounded clock context event rule.meta (rule.evaluate event context)

-- A rule of the list that the run of the context does not skip has returned the finding, and it has
-- the grounds of the rule.
abbrev pub IsReported : List DetectionRule → DetectionContext → CanonicalEvent → Finding → Type 0
IsReported rules context event finding =
    (rule : DetectionRule) × Memᴰ rule rules
    × (is_skipped rule context ≡ false)
    × ((found : List Finding) × (rule.evaluate event context ≡ ok found) × Memᴰ finding found)
    × IsGrounded context event rule.meta finding

module _ (clock : Clock) where
  values-insert :
      (key : String) (rule : DetectionRule) (registry : DetectionRegistry)
      → IsSoundRule clock rule
      → All (IsSoundRule clock) (values registry)
      → All (IsSoundRule clock) (values (insert key rule registry))
  unfolding insert
  values-insert key rule [] h k = (h, tt)
  values-insert key rule ((other, old) ∷ registry) h k = elim (Bool-cases (other == key)) [
    | inl same ↦ rw same (h, k.1)
    | inr differs ↦ rw differs (k.0, values-insert key rule registry h k.1)
  ]

  register_all-IsSoundRule :
      (rules : List DetectionRule) (registry : DetectionRegistry)
      → All (IsSoundRule clock) rules
      → All (IsSoundRule clock) (values registry)
      → All (IsSoundRule clock) (values (register_all rules registry))
  unfolding register
  register_all-IsSoundRule [] registry h k = k
  register_all-IsSoundRule (rule ∷ rules) registry h k =
      register_all-IsSoundRule rules (register rule registry) h.1
        (values-insert rule.meta.rule_id rule registry h.0 k)

  identity_rules-IsSoundRule : All (IsSoundRule clock) (identity_rules clock)
  identity_rules-IsSoundRule = (
    password_spray-Grounded clock,
    (
      brute_force-Grounded clock,
      (
        privilege_grant-Grounded clock,
        (
          repeated_failures-Grounded clock,
          (
            unusual_success-Grounded clock,
            (
              impossible_travel-Grounded clock,
              (
                mfa_fatigue-Grounded clock,
                (dormant_account-Grounded clock, (service_account_misuse-Grounded clock, (tt))),
              ),
            ),
          ),
        ),
      ),
    ),
  )

  network_rules-IsSoundRule : All (IsSoundRule clock) (network_rules clock)
  network_rules-IsSoundRule = (
    horizontal_scan-Grounded clock,
    (
      vertical_scan-Grounded clock,
      (
        rare_destination-Grounded clock,
        (beacon-Grounded clock, (suspicious_dns-Grounded clock, (east_west-Grounded clock, (tt)))),
      ),
    ),
  )

  endpoint_rules-IsSoundRule : All (IsSoundRule clock) (endpoint_rules clock)
  endpoint_rules-IsSoundRule = (
    office_shell-Grounded clock,
    (
      encoded_powershell-Grounded clock,
      (
        script_interpreter-Grounded clock,
        (
          service_persistence-Grounded clock,
          (
            task_persistence-Grounded clock,
            (
              registry_persistence-Grounded clock,
              (
                unusual_child-Grounded clock,
                (rare_path-Grounded clock, (process_network-Grounded clock, (tt))),
              ),
            ),
          ),
        ),
      ),
    ),
  )

  module _ (context : DetectionContext) (event : CanonicalEvent) where
    IsReported-later :
        (rule : DetectionRule) (rules : List DetectionRule) (finding : Finding)
        → IsReported rules context event finding
        → IsReported (rule ∷ rules) context event finding
    IsReported-later rule rules finding (other, there, due, found, grounds) =
        (other, Memᴰ.tail there, due, found, grounds)

    own-IsReported :
        (rule : DetectionRule) (rules : List DetectionRule) (found : List Finding)
        → IsSoundRule clock rule
        → is_skipped rule context ≡ false
        → rule.evaluate event context ≡ ok found
        → All (IsReported (rule ∷ rules) context event) found
    own-IsReported rule rules found sound due e =
        let grounds = OnOk-elim _ (rule.evaluate event context) (sound context event).findings e in
        All-map _ (λ finding (there, g). (rule, Memᴰ.head refl, due, (found, e, there), g)) found
          (All-both _ _ found (All-Mem found) grounds)

    evaluate_rules-IsReported :
        (rules : List DetectionRule)
        → All (IsSoundRule clock) rules
        → OnOk (All (IsReported rules context event)) (evaluate_rules rules event context)
    unfolding evaluate_rules
    evaluate_rules-IsReported [] h = tt
    evaluate_rules-IsReported (rule ∷ rules) h =
        let later =
          OnOk-map (λ found. All-map _ (IsReported-later rule rules) found)
            (evaluate_rules rules event context) (evaluate_rules-IsReported rules h.1) in
        elim (Bool-cases (is_skipped rule context)) [
          | inl skipped ↦ rw skipped later
          | inr due ↦ rw due (
              OnOk-bind _ (rule.evaluate event context) _ (λ found e.
                OnOk-then (All (IsReported (rule ∷ rules) context event)) _
                  (evaluate_rules rules event context) (λ more. ok (found ++ more)) later
                  (λ more reported.
                    All-append _ found more (own-IsReported rule rules found h.0 due e) reported)))
        ]

    pub evaluate_rules-Returned :
        (rules : List DetectionRule)
        → All (IsSoundRule clock) rules
        → IsReadable clock context event
        → Returned (evaluate_rules rules event context)
    unfolding evaluate_rules
    evaluate_rules-Returned [] h readable = ([], refl)
    evaluate_rules-Returned (rule ∷ rules) h readable =
        let (more, later) = evaluate_rules-Returned rules h.1 readable in
        let (found, now) = (h.0 context event).returns readable in
        elim (Bool-cases (is_skipped rule context)) [
          | inl skipped ↦ rw skipped (more, later)
          | inr due ↦ rw (due, now, later) (found ++ more, refl)
        ]

  pub build_default_registry-IsSoundRule :
      (sigma : List DetectionRule)
      → All (IsSoundRule clock) sigma
      → All (IsSoundRule clock) (values (build_default_registry clock sigma))
  unfolding build_default_registry
  build_default_registry-IsSoundRule sigma h =
      register_all-IsSoundRule
        (identity_rules clock
          ++ network_rules clock
          ++ endpoint_rules clock
          ++ scheduled_rules clock
          ++ sigma)
        []
        (All-append (IsSoundRule clock) (identity_rules clock)
          (network_rules clock ++ endpoint_rules clock ++ scheduled_rules clock ++ sigma)
          identity_rules-IsSoundRule
          (All-append (IsSoundRule clock) (network_rules clock)
            (endpoint_rules clock ++ scheduled_rules clock ++ sigma) network_rules-IsSoundRule
            (All-append (IsSoundRule clock) (endpoint_rules clock) (scheduled_rules clock ++ sigma)
              endpoint_rules-IsSoundRule (window_sweep-Grounded clock, h))))
        tt

  -- Each finding that the default registry returns for an event is one that a rule of the registry, which
  -- the run does not skip, has returned for that event. It carries the event's tenant and the rule's identifier, its fingerprint was not
  -- open, the event is among its events, and each of its events is the event or one of the window, of
  -- the event's tenant. The rules that the sigma compiler adds are supposed to do so.
  pub evaluate-IsReported :
      (sigma : List DetectionRule) (context : DetectionContext) (event : CanonicalEvent)
      → All (IsSoundRule clock) sigma
      → OnOk
          (All (IsReported (values (build_default_registry clock sigma)) context event))
          (evaluate (build_default_registry clock sigma) event context)
  unfolding evaluate
  evaluate-IsReported sigma context event h =
      evaluate_rules-IsReported context event _ (build_default_registry-IsSoundRule sigma h)
