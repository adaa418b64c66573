-- ===== src/Detection/Tests.antt =====
-- Eight failed logins of one account, and the theorems at them.
use mathlib.Core.List.{Memᴰ}
use blue_team_os.Prelude.{
  insert, ℕ, ◌≡◌, ◌≤◌, refl, String, true, false, none, List, lookup, [], ◌∷◌, ◌==◌, length, null,
  values, All, mem_text, sorted_set,
}
use blue_team_os.Event.{CanonicalEvent}
use blue_team_os.Value.{get_or, truthy}
use blue_team_os.Detection.Context.{
  DetectionContext, matches, query, events_in_window, already_open, same_option, name_of,
}
use blue_team_os.Errors.{ok, err, type_error, OnOk, Returned}
use blue_team_os.Detection.Rules.{
  Clock, is_auth_failure, identity_report, identity_finding, logins_of, user_name, users_of,
}
use blue_team_os.Detection.Context.{Finding, evaluate}
use blue_team_os.Detection.Accounts.{country_value, idle_days}
use blue_team_os.Detection.Failures.{failures_within, brute_force, brute_force_fingerprint}
use blue_team_os.Detection.Catalog.{build_default_registry}
use blue_team_os.Detection.Sample.{login, login_at}
use blue_team_os.Detection.Window.{IsSeen, events_in_window-IsSeen, brute_force-fires}
use blue_team_os.Detection.Findings.{IsReported, evaluate-IsReported}
use blue_team_os.Detection.Complete.{IsKept, evaluate-IsKept}
use blue_team_os.Detection.Context.{DetectionRule, register, evaluate_rules}
use blue_team_os.Detection.Failures.{brute_force_meta}
use blue_team_os.Detection.Total.{IsPlain, IsCountable, evaluate-total}

abbrev clock : Clock
clock = record {
  new_id = "fnd_1";
  utcnow = 0;
  py = record { repr = λ v. "8"; int_of_text = λ s. none; float_of_text = λ s. none };
  is_private = λ address. none;
  minute_of = λ t. "m";
  ten_minutes_of = λ t. "t";
  hour_of = λ t. "h";
  date_of = λ t. "d";
}

-- A login of another tenant stands among them.
abbrev attack : DetectionContext
attack = record {
  window =
      login 1
      ∷ (login 2
          ∷ (login 3
              ∷ (login_at "ten_b" 3000000
                  ∷ (login 4 ∷ (login 5 ∷ (login 6 ∷ (login 7 ∷ (login 8 ∷ []))))))));
  open_fingerprints = [];
  scheduled = false;
}

abbrev findings : List Finding
findings = elim (brute_force clock (login 8) attack) [ ok found ↦ found | err exc ↦ [] ]

returned : brute_force clock (login 8) attack ≡ ok findings
unfolding brute_force is_auth_failure events_in_window query matches sorted_set already_open
    mem_text identity_report identity_finding
returned = refl

full : null findings ≡ false
unfolding brute_force is_auth_failure events_in_window query matches sorted_set already_open
    mem_text identity_report identity_finding
full = refl

events_in_window-IsSeen_example :
    OnOk
      (All (IsSeen (login 8) 600 (logins_of "failure" "alice")))
      (events_in_window attack (login 8) 600 (logins_of "failure" "alice"))
events_in_window-IsSeen_example =
    events_in_window-IsSeen attack (login 8) 600 (logins_of "failure" "alice")

brute_force-fires_example :
    (is_auth_failure (login 8) ≡ true)
    × ((user_name (login 8) == "") ≡ false)
    × ((related : List CanonicalEvent) × (failures_within clock (login 8) attack 600 ≡ ok related)
        × (8 ≤ length related)
        × All (IsSeen (login 8) 600 (logins_of "failure" "alice")) related
        × All (λ e. same_option (name_of e.user) "alice" ≡ true) related
        × (length (users_of related) ≤ 2))
    × (already_open attack (brute_force_fingerprint clock (login 8) attack) ≡ false)
brute_force-fires_example = brute_force-fires clock (login 8) attack findings returned full

-- One event of the tenant without a zone in the window.
test-zone :
    query
      ((record (login 7) { is_naive = true }) ∷ [])
      "ten_a"
      false
      0
      none
      (logins_of "failure" "alice")
    ≡ err (type_error "can't compare offset-naive and offset-aware datetimes")
unfolding query matches
test-zone = refl

evaluate-IsReported_example :
    OnOk
      (All (IsReported (values (build_default_registry clock [])) attack (login 8)))
      (evaluate (build_default_registry clock []) (login 8) attack)
evaluate-IsReported_example = evaluate-IsReported clock [] attack (login 8) tt

abbrev calm : DetectionContext
calm = record { window = login 7 ∷ []; open_fingerprints = []; scheduled = false }

placed : (tenant_id : String) (time : ℕ) → IsPlain (country_value (login_at tenant_id time))
unfolding get_or lookup
placed tenant_id time = tt

countable : IsCountable (idle_days (login 8))
unfolding get_or lookup truthy
countable = tt

evaluate-total_example : Returned (evaluate (build_default_registry clock []) (login 8) calm)
evaluate-total_example =
    evaluate-total clock [] calm (login 8) tt ("alice", refl) countable
      (placed "ten_a" 8000000, (placed "ten_a" 7000000, tt)) (refl, (refl, tt))

abbrev brute_force_rule : DetectionRule
brute_force_rule = record { meta = brute_force_meta; evaluate = brute_force clock }

registered : evaluate (register brute_force_rule []) (login 8) attack ≡ ok findings
unfolding evaluate evaluate_rules register insert brute_force is_auth_failure events_in_window query
    matches sorted_set already_open mem_text identity_report identity_finding
registered = refl

there : Memᴰ brute_force_rule (values (register brute_force_rule []))
unfolding register insert
there = Memᴰ.head refl

evaluate-IsKept_example : IsKept (login 8) attack findings brute_force_rule
evaluate-IsKept_example =
    evaluate-IsKept (login 8) attack (register brute_force_rule []) findings brute_force_rule
      registered there refl
