-- ===== src/Policy/Rego.antt =====
-- packages/rego-engine/blueteam_rego/engine.py: the built-in policy subset, and the engine that
-- prefers OPA and falls back on the subset. OPA is an external process: it is a parameter, absent
-- where the binary is not installed.
pub mod Laws
use blue_team_os.Prelude.{
  ℕ, String, Bool, true, false, ◌&&◌, ◌||◌, not, Option, none, some, List, [], ◌∷◌, ◌==◌,
  starts_with, mem_text, lower_is, leb, eqb, if◌then◌else◌,
}
use Prim.Native.String.{◌++◌}
use blue_team_os.Errors.{Error, Result, ok, err, ◌>>=◌, type_error}
use blue_team_os.Value.{
  ℤ, pos, negsuc, Float, finite, infinite, nan, arr, Value, null, boolean, int, text, obj, Doc,
  fields, get_or, Runtime, truthy, to_str, to_int, to_float,
}
use blue_team_os.Policy.Outcome.{Decision, allow, deny, require_approval, decision_of}

pub record PolicyResult : Type 0 where
  pub decision : Decision
  pub reason : String
  pub policy : String
  pub engine : String

abbrev pub subset_result : Decision → String → PolicyResult
subset_result d r = record {
  decision = d;
  reason = r;
  policy = "blueteam.response.v1";
  engine = "blueteam_rego.subset";
}

-- What `_subset_evaluate` reads from the document before it decides.
pub record PolicyInput : Type 0 where
  pub action_type : String
  pub tier : ℤ
  pub read_only : Bool
  pub dry_run : Bool
  pub environment : String
  pub confidence : Float
  pub auto : Bool
  pub requested_by_ai : Bool
  pub domain : String

abbrev pub guarded_domains : List String
guarded_domains = "identity" ∷ "endpoint" ∷ "network" ∷ "cloud" ∷ "tenant" ∷ []

-- n >= k
abbrev pub at_least : ℤ → ℕ → Bool
at_least (pos n) k = leb k n
at_least (negsuc n) k = false

-- confidence >= k, for a k in millionths
abbrev pub reaches : Float → ℕ → Bool
reaches (finite n) k = at_least n k
reaches (infinite negative) k = not negative
reaches nan k = false

abbrev is_tier0 : ℤ → Bool
is_tier0 (pos n) = eqb n 0
is_tier0 (negsuc n) = false

abbrev pub is_destructive : String → Bool
is_destructive a = a == "delete_evidence" || a == "alter_platform_policy"

abbrev pub from_ai : PolicyInput → Bool
from_ai i = starts_with i.action_type "ai." || starts_with i.action_type "llm." || i.requested_by_ai

-- The early returns of `_subset_evaluate`, in order.
unfoldable pub subset_decide : PolicyInput → PolicyResult
subset_decide i =
    if is_destructive i.action_type
    then subset_result deny "Destructive or policy-altering actions are denied"
    else if from_ai i
    then subset_result deny "AI cannot request execution authority"
    else if i.dry_run && i.read_only
    then subset_result allow "Read-only dry-run is permitted"
    else if at_least i.tier 2
    then subset_result require_approval "Tier-2 actions always require a human"
    else if not i.read_only && lower_is i.environment "production"
    then subset_result require_approval
        "Production impact requires approval even at high confidence"
    else if mem_text i.domain guarded_domains && not i.read_only
    then subset_result require_approval (i.domain ++ " mutation requires approval")
    else if not i.read_only && (not i.auto || not (reaches i.confidence 950000))
    then subset_result require_approval
        "Containment requires auto_containment and confidence >= 0.95"
    else if i.read_only && is_tier0 i.tier
    then subset_result allow "Tier-0 read-only collection is permitted"
    else subset_result deny "Default deny"

-- input_doc.get("action") or {}; a value that is no dict has no `.get`.
unfoldable pub action_of : Value → Result Doc
action_of (obj fs) = ok (fields fs)
action_of v = if truthy v then err (type_error "no attribute get") else ok []

module _ (py : Runtime) where
  unfoldable pub read_input : Doc → Result PolicyInput
  read_input input_doc = do
    action ← action_of (get_or input_doc "action" null)
    tier ← to_int py (get_or action "tier" (int (pos 2)))
    confidence ← to_float py (get_or input_doc "confidence" (int (pos 0)))
    ok (record {
      action_type = to_str py (get_or action "type" (text ""));
      tier = tier;
      read_only = truthy (get_or action "read_only" (boolean false));
      dry_run = truthy (get_or action "dry_run" (boolean true));
      environment = to_str py (get_or input_doc "environment" (text "unknown"));
      confidence = confidence;
      auto = truthy (get_or input_doc "auto_containment" (boolean false));
      requested_by_ai = truthy (get_or input_doc "requested_by_ai" (boolean false));
      domain = to_str py (get_or input_doc "domain" (text ""));
    })

  unfoldable pub subset_evaluate : Doc → Result PolicyResult
  subset_evaluate input_doc = do i ← read_input input_doc; ok (subset_decide i)

  abbrev or_deny : Option Decision → Decision
  or_deny none = deny
  or_deny (some d) = d

  abbrev decision_in : Value → Decision
  decision_in (text s) = or_deny (decision_of s)
  decision_in v = deny

  abbrev opa_result : Doc → Decision → PolicyResult
  opa_result raw decision = record {
    decision = decision;
    reason = to_str py (get_or raw "reason" (text "OPA decision"));
    policy = to_str py (get_or raw "policy" (text "blueteam.policy.v1"));
    engine = "opa";
  }

  -- decision not in {…}, which hashes the decision
  abbrev decided : Value → Result Decision
  decided (arr vs) = err (type_error "unhashable type: 'list'")
  decided (obj fs) = err (type_error "unhashable type: 'dict'")
  decided v = ok (decision_in v)

  -- What the `try` makes of OPA's answer.
  unfoldable pub of_opa : Doc → Result PolicyResult
  unfolding decision_of
  of_opa raw = do
    decision ← decided (get_or raw "decision" (text "DENY"))
    ok (opa_result raw decision)

  abbrev fallback_reason : String → PolicyResult → PolicyResult
  fallback_reason exc f = record {
    decision = f.decision;
    reason = f.reason ++ (" (OPA failed: " ++ (exc ++ ")"));
    policy = f.policy;
    engine = "blueteam_rego.subset";
  }

  -- The handler of the `try`.
  abbrev answered : (show : Error → String) → Result PolicyResult → Doc → Result PolicyResult
  answered show (ok result) input_doc = ok result
  answered show (err exc) input_doc = do
    f ← subset_evaluate input_doc
    ok (fallback_reason (show exc) f)

  -- `opa` is `evaluate_opa` where the binary is installed; `show` is str() of an exception.
  unfoldable pub evaluate :
      (opa : Option (Doc → Result Doc)) (show : Error → String) → Doc → Result PolicyResult
  evaluate none show input_doc = subset_evaluate input_doc
  evaluate (some run) show input_doc = answered show (run input_doc >>= of_opa) input_doc
