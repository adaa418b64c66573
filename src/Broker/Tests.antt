-- ===== src/Broker/Tests.antt =====
-- Runs of the broker on concrete requests, and the theorems at them.
use blue_team_os.Prelude.{
  ◌↔◌, ◌⊎◌, ◌≡◌, refl, Bool, true, false, none, some, [], ◌∷◌, All, mem_text, lookup,
}
use blue_team_os.Errors.{ok}
use blue_team_os.Value.{ℤ, pos, finite, int, Runtime, get_or, truthy, to_str, to_int, to_float}
use blue_team_os.Policy.{action_tier, evaluate_action, tier1_actions, tier2_actions}
use blue_team_os.Policy.Outcome.{allow, deny}
use blue_team_os.Policy.Rego.{
  PolicyInput, action_of, read_input, subset_decide, subset_evaluate, evaluate, is_destructive,
  from_ai,
}
use blue_team_os.Policy.Rego.Laws.{subset_decide-allow_iff}
use blue_team_os.Broker.Registry.{ActionSpec, default_registry, powershell, python}
use blue_team_os.Broker.Request.{ActionRequest, Env, Machine, word, number}
use blue_team_os.Broker.Execute.{
  execute, execute_language, plan_or_run_script, safe_command, powershell_command, int_option,
  binary_of,
}
use blue_team_os.Broker.Gates.{Authorized, authorize-allow, submit_runs}
use blue_team_os.Broker.Safety.{IsCommandOf, RunsNothing, submit-IsCommandOf, submit-write}
use blue_team_os.Broker.Policies.{authorize-ai}
use blue_team_os.Broker.Defaults.{IsSafeEntry, default_registry-IsSafeEntry}
use blue_team_os.Broker.{
  is_forbidden, extra_params, is_permitted, policy_doc, combine, policies, authorize, act_on,
  submit,
}

abbrev py : Runtime
py = record { repr = λ v. "repr"; int_of_text = λ s. none; float_of_text = λ s. none }

abbrev windows_host : Machine
windows_host = record {
  which = λ name. some "C:/pwsh.exe";
  script_sha256 = λ path. some "digest";
  run = λ cmd. ok (record { returncode = pos 0; stdout = "[]"; stderr = "" });
}

abbrev env : Env
env = record {
  py = py;
  machine = windows_host;
  handlers = [];
  scan_b64 = λ params. ok [];
  blueql_explain = λ q. ok [];
  sql_describe = λ q. ok [];
  opa = none;
  show_error = λ e. "error";
  new_id = "act_1";
  utcnow = 0;
}

abbrev collect : ActionRequest
collect = record {
  action_id = "act_7";
  action_type = "collect.windows.processes";
  tenant_id = "ten_a";
  target = [];
  params = ("limit", int (pos 5)) ∷ [];
  reason = "triage";
  requested_by = "usr_1";
  dry_run = false;
  actor_roles = [];
  permissions = "response:tier0" ∷ [];
}

abbrev isolate : ActionRequest
isolate = record collect {
  action_type = "isolate.host";
  params = [];
  permissions = "response:tier2" ∷ [];
}

abbrev collect_spec : ActionSpec
collect_spec = record {
  action_type = "collect.windows.processes";
  language = powershell;
  description = "Read-only local process inventory (Windows).";
  tier = 0;
  read_only = true;
  required_permission = "response:tier0";
  allowed_params = "limit" ∷ [];
  script_path = some "security-languages/powershell/windows/Get-BtosProcesses.ps1";
  rollback_available = false;
  feature_flag = none;
}

abbrev isolate_spec : ActionSpec
isolate_spec = record {
  action_type = "isolate.host";
  language = python;
  description = "Host isolation request. Always policy-gated.";
  tier = 2;
  read_only = false;
  required_permission = "response:tier2";
  allowed_params = "host_id" ∷ "environment" ∷ "confidence" ∷ "auto_containment" ∷ [];
  script_path = none;
  rollback_available = true;
  feature_flag = none;
}

collect_found : lookup "collect.windows.processes" default_registry ≡ some collect_spec
unfolding lookup default_registry
collect_found = refl

isolate_found : lookup "isolate.host" default_registry ≡ some isolate_spec
unfolding lookup default_registry
isolate_found = refl

collect_allowed :
    authorize env collect collect_spec ≡ ok (allow, "Tier-0 read-only collection is permitted")
unfolding authorize policies evaluate subset_evaluate subset_decide read_input policy_doc action_of
    to_int to_float get_or lookup truthy to_str combine evaluate_action action_tier extra_params
    is_permitted mem_text
collect_allowed = refl

collect_commands :
    (submit env default_registry collect).commands
    ≡ (word "C:/pwsh.exe"
        ∷ word "-NoProfile"
        ∷ word "-NonInteractive"
        ∷ word "-File"
        ∷ word "security-languages/powershell/windows/Get-BtosProcesses.ps1"
        ∷ word "-Limit"
        ∷ number (pos 5)
        ∷ [])
      ∷ []
unfolding submit is_forbidden lookup default_registry authorize policies evaluate subset_evaluate
    subset_decide read_input policy_doc action_of to_int to_float get_or truthy to_str combine
    evaluate_action action_tier extra_params is_permitted mem_text act_on execute execute_language
    plan_or_run_script safe_command powershell_command int_option binary_of
collect_commands = refl

submit_runs_example :
    (is_forbidden "collect.windows.processes" ≡ false)
    × ((spec : ActionSpec) × (lookup "collect.windows.processes" default_registry ≡ some spec)
        × Authorized env collect spec)
submit_runs_example = submit_runs env default_registry collect (λ e. cc (e, collect_commands))

submit-IsCommandOf_example :
    All (IsCommandOf env collect_spec) (submit env default_registry collect).commands
submit-IsCommandOf_example =
    submit-IsCommandOf env default_registry collect collect_spec collect_found

submit-write_example : RunsNothing (submit env default_registry isolate)
submit-write_example =
    submit-write env default_registry isolate isolate_spec isolate_found refl refl

authorize-allow_example :
    (collect_spec.tier ≡ 0)
    × (mem_text "collect.windows.processes" tier2_actions ≡ false)
    × (mem_text "collect.windows.processes" tier1_actions ≡ false)
authorize-allow_example = authorize-allow env collect collect_spec collect_allowed

default_registry-IsSafeEntry_example : IsSafeEntry ("isolate.host", isolate_spec)
default_registry-IsSafeEntry_example =
    default_registry-IsSafeEntry "isolate.host" isolate_spec isolate_found

abbrev by_ai : ActionRequest
by_ai = record collect { action_type = "ai.collect"; params = [] }

by_ai_decided :
    authorize env by_ai collect_spec ≡ ok (deny, "AI cannot request execution authority")
unfolding authorize policies evaluate subset_evaluate subset_decide read_input policy_doc action_of
    to_int to_float get_or lookup truthy to_str combine evaluate_action action_tier extra_params
    is_permitted mem_text
by_ai_decided = refl

authorize-ai_example : deny ≡ deny
authorize-ai_example = authorize-ai env by_ai collect_spec refl refl by_ai_decided

abbrev wet_collection : PolicyInput
wet_collection = record {
  action_type = "collect.windows.processes";
  tier = pos 0;
  read_only = true;
  dry_run = false;
  environment = "production";
  confidence = finite (pos 0);
  auto = false;
  requested_by_ai = false;
  domain = "endpoint";
}

subset_decide-allow_iff_example : ((subset_decide wet_collection).decision ≡ allow) ↔ (
    (is_destructive "collect.windows.processes" ≡ false)
    × (from_ai wet_collection ≡ false)
    × (◌≡◌ {A = Bool} true true)
    × ((◌≡◌ {A = Bool} false true) ⊎ (◌≡◌ {A = ℤ} (pos 0) (pos 0))))
subset_decide-allow_iff_example = subset_decide-allow_iff wet_collection
