-- ===== src/Broker/Gates.antt =====
-- What `submit` has established when it runs a command, and when it returns at all.
use blue_team_os.Prelude.{
  null→[], ◌≡◌, refl, ◌≢◌, inl, inr, String, true, false, Option, none, some, List, [], arith,
  mem_text, lookup, Bool-cases, Option-cases,
}
use blue_team_os.Errors.{Result, ok, err, returned_bind}
use blue_team_os.Value.{pos, int, get_or, to_float}
use blue_team_os.Policy.{ActionTier, tier1_actions, tier2_actions, action_tier, evaluate_action}
use blue_team_os.Policy.Tiers.{evaluate_action-allow, evaluate_action-ne-deny, tier_zero}
use blue_team_os.Policy.Outcome.{Decision, allow, deny, require_approval}
use blue_team_os.Policy.Rego.{evaluate}
use blue_team_os.Broker.Registry.{ActionSpec, Language, powershell, bash}
use blue_team_os.Broker.Request.{ActionRequest, Env}
use blue_team_os.Broker.Execute.{execute, execute_language, plan_or_run_script}
use blue_team_os.Broker.{
  is_forbidden, extra_params, is_permitted, combine, policy_doc, policies, act_if, with_spec,
  authorize, act_on, submit,
}

module _ (env : Env) (request : ActionRequest) (spec : ActionSpec) where
  plan-dry_run : request.dry_run ≡ true → (plan_or_run_script env request spec).commands ≡ []
  unfolding plan_or_run_script
  plan-dry_run h = ground arith

  execute_language-dry_run :
      (lang : Language)
      → request.dry_run ≡ true
      → (execute_language env request spec lang).commands ≡ []
  unfolding execute_language
  execute_language-dry_run powershell h = plan-dry_run h
  execute_language-dry_run bash h = plan-dry_run h
  execute_language-dry_run _ h = refl

  execute-dry_run : request.dry_run ≡ true → (execute env request spec).commands ≡ []
  unfolding execute
  execute-dry_run h = elim (Option-cases (lookup spec.action_type env.handlers)) [
    | inl e ↦ rw (e, execute) (execute_language-dry_run spec.language h)
    | inr (f, e) ↦ rw (e, execute)
  ]

  -- The tail of `submit` runs a command only for a read-only action that is allowed and no dry run.
  act_on_runs :
      (d : Decision) (reason : String)
      → (act_on env request spec d reason).commands ≢ []
      → (d ≡ allow) × (spec.read_only ≡ true) × (request.dry_run ≡ false)
  unfolding act_on
  act_on_runs deny reason h = absurd (h refl)
  act_on_runs allow reason h = ground (arith, execute-dry_run)
  act_on_runs require_approval reason h = ground (arith, execute-dry_run)

  -- What the gates before the policies have checked.
  authorize_checked :
      (d : Decision) (reason : String)
      → authorize env request spec ≡ ok (d, reason)
      → (extra_params request spec ≡ []) × (is_permitted request spec ≡ true)
  unfolding authorize
  authorize_checked d reason h = (null→[] _ (ground arith), ground arith)

  -- What the two policies have said.
  pub authorize_decided :
      (d : Decision) (reason : String)
      → authorize env request spec ≡ ok (d, reason)
      → policies env request spec ≡ ok (d, reason)
  unfolding authorize
  authorize_decided d reason h = ground arith

  policies_decided :
      (d : Decision) (reason : String)
      → policies env request spec ≡ ok (d, reason)
      → (tier : ActionTier) × (action_tier spec.tier ≡ ok tier)
        × ((policy : Decision) × (combine (evaluate_action request.action_type (some tier)) policy
              ≡ d))
  unfolding policies
  policies_decided d reason h =
      let (tier, e, h') = returned_bind (action_tier spec.tier) _ h in
      let (conf, e', h'') =
        returned_bind (to_float env.py (get_or request.params "confidence" (int (pos 0)))) _ h' in
      let (policy, e'', h3) =
        returned_bind (evaluate env.py env.opa env.show_error (policy_doc request spec conf)) _
          h'' in
      (tier, e, (policy.decision, cc))

combine-allow : (p q : Decision) → p ≢ deny → combine p q ≡ allow → p ≡ allow
unfolding combine
combine-allow allow q n h = refl
combine-allow deny q n h = absurd (n refl)
combine-allow require_approval allow n h = cc
combine-allow require_approval deny n h = cc
combine-allow require_approval require_approval n h = cc

-- Where the playbook's policy asks for approval, no policy document and no answer of OPA turns an
-- action into an allowed one: what is allowed has tier 0 and stands in neither list of tiers.
pub authorize-allow :
    (env : Env) (request : ActionRequest) (spec : ActionSpec) {reason : String}
    → authorize env request spec ≡ ok (allow, reason)
    → (spec.tier ≡ 0)
      × (mem_text request.action_type tier2_actions ≡ false)
      × (mem_text request.action_type tier1_actions ≡ false)
authorize-allow env request spec {reason} h =
    let decided = authorize_decided env request spec allow reason h in
    let (tier, e, (policy, c)) = policies_decided env request spec allow reason decided in
    let p =
      combine-allow (evaluate_action request.action_type (some tier)) policy
        (evaluate_action-ne-deny _ _) c in
    let (t, a2, a1) = evaluate_action-allow request.action_type tier p in
    (tier_zero spec.tier (rw t at e), a2, a1)

module _ (env : Env) (request : ActionRequest) where
  -- The conditions under which `submit` runs a command of an action.
  abbrev pub Authorized : ActionSpec → Type 0
  Authorized spec =
      (extra_params request spec ≡ [])
      × (is_permitted request spec ≡ true)
      × (spec.read_only ≡ true)
      × (request.dry_run ≡ false)
      × ((reason : String) × (authorize env request spec ≡ ok (allow, reason)))

  act_if_runs :
      (spec : ActionSpec) (r : Result (Decision × String))
      → authorize env request spec ≡ r
      → (act_if env request spec r).commands ≢ []
      → Authorized spec
  act_if_runs spec (err e) q h = absurd (h refl)
  act_if_runs spec (ok (d, reason)) q h =
      let (extra, permitted) = authorize_checked env request spec d reason q in
      let (allowed, reads, wet) = act_on_runs env request spec d reason h in
      (extra, permitted, reads, wet, (reason, rw allowed at q))

  with_spec_runs :
      (registry : List (String × ActionSpec)) (found : Option ActionSpec)
      → (with_spec env registry request found).commands ≢ []
      → (spec : ActionSpec) × (found ≡ some spec) × Authorized spec
  with_spec_runs registry none h = absurd (h refl)
  with_spec_runs registry (some spec) h = (spec, refl, act_if_runs spec _ refl h)

-- A command is run only where the action is not forbidden, is registered and read-only, takes every
-- parameter of the request, is permitted to the caller and allowed by both policies, and the request
-- is no dry run.
pub submit_runs :
    (env : Env) (registry : List (String × ActionSpec)) (request : ActionRequest)
    → (submit env registry request).commands ≢ []
    → (is_forbidden request.action_type ≡ false)
      × ((spec : ActionSpec) × (lookup request.action_type registry ≡ some spec)
          × Authorized env request spec)
unfolding submit
submit_runs env registry request h = elim (Bool-cases (is_forbidden request.action_type)) [
  | inl e ↦ absurd (h (rw e))
  | inr e ↦ (e, with_spec_runs env request registry _ (rw e at h))
]
