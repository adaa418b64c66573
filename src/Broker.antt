-- ===== src/Broker.antt =====
-- packages/execution-broker/blueteam_broker/broker.py: the execution broker, with its action contract
-- (packages/schemas/blueteam_schemas/actions.py). The processes that it starts are part of the result:
-- `submit` returns the commands that it ran beside what it returns or raises.
pub mod Registry
pub mod Request
pub mod Execute
pub mod Gates
pub mod Safety
mod Tests
pub mod Policies
pub mod Defaults
use blue_team_os.Prelude.{
  String, Bool, true, false, ◌&&◌, ◌||◌, not, Option, none, some, List, [], ◌∷◌, ◌++◌, eqb, ◌==◌,
  starts_with, mem_text, any, null, keys, filter, if◌then◌else◌, lookup,
}
use Prim.Native.Char.{code}
use Prim.Native.String.{◌++◌ as text_append}
use blue_team_os.Errors.{Result, ok, err, ◌>>=◌, ◌>>◌, blue_team_error, permission_denied}
use blue_team_os.Value.{
  Float, pos, Value, null as null_value, boolean, int, float, text, obj, Doc, to_fields, get_or,
  truthy, to_float,
}
use blue_team_os.Policy.{action_tier, evaluate_action}
use blue_team_os.Policy.Outcome.{Decision, allow, deny, require_approval}
use blue_team_os.Policy.Rego.{evaluate}
use blue_team_os.Broker.Registry.{ActionSpec}
use blue_team_os.Broker.Request.{
  ActionRequest, ActionResult, Status, denied, awaiting_approval, planned, Env, status_of,
  opt_text_of,
}
use blue_team_os.Broker.Execute.{Run, no_command, execute}

abbrev pub forbidden_action_prefixes : List String
forbidden_action_prefixes = "shell.exec" ∷ "powershell.invoke_raw" ∷ "bash.eval" ∷ "os.system" ∷ []

unfoldable pub is_forbidden : String → Bool
is_forbidden action_type = any (starts_with action_type) forbidden_action_prefixes

-- Not in spec.allowed_params: the keys of `params` and `target` that the action does not take.
unfoldable pub extra_params : ActionRequest → ActionSpec → List String
extra_params request spec =
    filter (λ k. not (mem_text k spec.allowed_params)) (keys request.params)
    ++ filter (λ k. not (mem_text k spec.allowed_params)) (keys request.target)

unfoldable pub is_permitted : ActionRequest → ActionSpec → Bool
is_permitted request spec =
    mem_text spec.required_permission request.permissions
    || mem_text "admin:platform" request.permissions

-- action_type.split(".", 1)[0]
abbrev before_dot : String → String
before_dot String.[] = String.[]
before_dot (String.◌∷◌ c s) =
    let rest = before_dot s in if eqb (code c) b'.' then String.[] else String.◌∷◌ c rest

unfoldable pub policy_doc : ActionRequest → ActionSpec → Float → Doc
policy_doc request spec confidence =
    (
      "action",
      obj (
          to_fields (
            ("type", text request.action_type)
            ∷ (("tier", int (pos spec.tier))
                ∷ (("read_only", boolean spec.read_only)
                    ∷ (("dry_run", boolean request.dry_run) ∷ []))))),
    )
    ∷ (("environment", get_or request.params "environment" (text "unknown"))
        ∷ (("confidence", Value.float confidence)
            ∷ ((
              "auto_containment",
              boolean (truthy (get_or request.params "auto_containment" (boolean false))),
            )
                ∷ ((
                  "domain",
                  get_or request.params "domain" (text (before_dot request.action_type)),
                )
                    ∷ ((
                      "requested_by_ai",
                      boolean (truthy (get_or request.params "requested_by_ai" (boolean false))),
                    )
                        ∷ [])))))

-- The playbook's policy turns ALLOW into REQUIRE_APPROVAL, and nothing else.
unfoldable pub combine : (playbook policy : Decision) → Decision
combine require_approval allow = require_approval
combine playbook policy = policy

abbrev is_approval : Decision → Bool
is_approval require_approval = true
is_approval _ = false

module _ (env : Env) (request : ActionRequest) (spec : ActionSpec) where
  unfoldable pub result_of :
      Decision → Status → Doc → (skip_reason error approval : Option String) → ActionResult
  result_of decision status outputs skip_reason error approval = record {
    action_id = if request.action_id == "" then env.new_id else request.action_id;
    action_type = request.action_type;
    tenant_id = request.tenant_id;
    policy_decision = decision;
    approval_status = approval;
    executor = spec.language;
    rollback_available = spec.rollback_available;
    status = status;
    dry_run = request.dry_run;
    outputs = outputs;
    skip_reason = skip_reason;
    error = error;
    completed_at = env.utcnow;
  }

  -- The result of a run, with Pydantic's checks of what the run put out.
  abbrev executed_result : Decision → Doc → Result ActionResult
  executed_result decision outputs = do
    status ←
        (if request.dry_run
          then ok planned
          else status_of (get_or outputs "status" (text "executed")))
    skip_reason ← opt_text_of (get_or outputs "skip_reason" null_value)
    ok (result_of decision status outputs skip_reason none none)

  abbrev after_run : Decision → Run Doc → Run ActionResult
  after_run decision r = record {
    result = (r.result >>= executed_result decision);
    commands = r.commands;
  }

  -- The tail of `submit`, from the decision on.
  unfoldable pub act_on : Decision → String → Run ActionResult
  act_on deny reason = no_command (ok (result_of deny denied [] none (some reason) none))
  act_on decision reason =
      if is_approval decision && not request.dry_run
      then no_command (ok (result_of decision awaiting_approval [] none none (some "required")))
      else if request.dry_run || spec.read_only
      then after_run decision (execute env request spec)
      else no_command (
          ok (
            result_of decision denied [] none (some "Non-read-only execution requires approval")
              none))

  -- The playbook's policy and the policy engine, and what they decide together.
  unfoldable pub policies : Result (Decision × String)
  policies = do
    tier ← action_tier spec.tier
    confidence ← to_float env.py (get_or request.params "confidence" (int (pos 0)))
    policy ← evaluate env.py env.opa env.show_error (policy_doc request spec confidence)
    ok (combine (evaluate_action request.action_type (some tier)) policy.decision, policy.reason)

  -- The checks of `submit` behind the lookup, and the two policies: what the action may do, and why.
  -- The message of the first error leaves out the sorted names.
  unfoldable pub authorize : Result (Decision × String)
  authorize =
      if not (null (extra_params request spec))
      then err (blue_team_error "ACTION_SCHEMA" "Unsupported parameters" 422)
      else if not (is_permitted request spec)
      then err (permission_denied (text_append "Missing permission " spec.required_permission))
      else policies

  abbrev act_if : Result (Decision × String) → Run ActionResult
  act_if (err e) = no_command (err e)
  act_if (ok (decision, reason)) = act_on decision reason

module _ (env : Env) (registry : List (String × ActionSpec)) (request : ActionRequest) where
  abbrev with_spec : Option ActionSpec → Run ActionResult
  with_spec none = no_command (
      err (
        blue_team_error "ACTION_UNREGISTERED"
          (text_append "Action " (text_append request.action_type " is not registered")) 400))
  with_spec (some spec) = act_if env request spec (authorize env request spec)

  unfoldable pub submit : Run ActionResult
  submit =
      if is_forbidden request.action_type
      then no_command (
          err (
            blue_team_error "ACTION_FORBIDDEN"
              "Arbitrary command execution is not a registered action" 403))
      else with_spec (lookup request.action_type registry)
