-- ===== src/Broker/Policies.antt =====
-- What the built-in policy sees of a request, where OPA is not installed.
use blue_team_os.Prelude.{
  ◌≡◌, refl, String, true, false, ◌||◌, none, some, starts_with, lookup, ◌∙◌, ap,
}
use blue_team_os.Errors.{ok, OnOk, OnOk-bind, OnOk-elim}
use blue_team_os.Value.{Float, pos, int, boolean, text, get_or, truthy, to_str, to_int, to_float}
use blue_team_os.Policy.{action_tier, evaluate_action}
use blue_team_os.Policy.Outcome.{Decision, allow, deny, require_approval}
use blue_team_os.Policy.Rego.{
  PolicyInput, action_of, read_input, subset_decide, subset_evaluate, evaluate,
}
use blue_team_os.Policy.Rego.Laws.{subset_decide-ai}
use blue_team_os.Broker.Registry.{ActionSpec}
use blue_team_os.Broker.Request.{ActionRequest, Env}
use blue_team_os.Broker.Gates.{authorize_decided}
use blue_team_os.Broker.{policy_doc, before_dot, combine, policies, authorize}

module _ (env : Env) (request : ActionRequest) (spec : ActionSpec) where
  abbrev pub policy_input : Float → PolicyInput
  policy_input confidence = record {
    action_type = request.action_type;
    tier = pos spec.tier;
    read_only = spec.read_only;
    dry_run = request.dry_run;
    environment = to_str env.py (get_or request.params "environment" (text "unknown"));
    confidence = confidence;
    auto = truthy (get_or request.params "auto_containment" (boolean false));
    requested_by_ai = truthy (get_or request.params "requested_by_ai" (boolean false));
    domain = to_str env.py (get_or request.params "domain" (text (before_dot request.action_type)));
  }

  read_input-policy_doc :
      (c : Float) → read_input env.py (policy_doc request spec c) ≡ ok (policy_input c)
  unfolding read_input policy_doc action_of to_int to_float get_or lookup truthy to_str
  read_input-policy_doc c = refl

  -- The two policies, where the second is the subset.
  policies-subset :
      env.opa ≡ none
      → OnOk
          (λ (d : Decision × String).
            (c : Float) × (p : Decision) × (d.0
              ≡ combine p (subset_decide (policy_input c)).decision))
          (policies env request spec)
  unfolding policies evaluate
  policies-subset h = OnOk-bind _ (action_tier spec.tier) _ λ tier _.
      OnOk-bind _ (to_float env.py (get_or request.params "confidence" (int (pos 0)))) _ λ c _.
        rw (h, evaluate)
          (unfold subset_evaluate in
            rw (read_input-policy_doc c) (c, evaluate_action request.action_type (some tier), refl))

combine-deny : (p : Decision) → combine p deny ≡ deny
unfolding combine
combine-deny allow = refl
combine-deny deny = refl
combine-deny require_approval = refl

-- Without OPA an action whose name says that an AI asks for it, or whose parameters do, is denied
-- where it is decided at all.
pub authorize-ai :
    (env : Env) (request : ActionRequest) (spec : ActionSpec) {d : Decision} {reason : String}
    → env.opa ≡ none
    → (starts_with request.action_type "ai."
        || starts_with request.action_type "llm."
        || truthy (get_or request.params "requested_by_ai" (boolean false)))
      ≡ true
    → authorize env request spec ≡ ok (d, reason)
    → d ≡ deny
authorize-ai env request spec {d} {reason} no_opa ai h =
    let (c, p, e) =
      OnOk-elim _ (policies env request spec) (policies-subset env request spec no_opa)
        (authorize_decided env request spec d reason h) in
    e ∙ ap (combine p) (subset_decide-ai (policy_input env request spec c) ai) ∙ combine-deny p
