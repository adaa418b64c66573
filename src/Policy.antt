-- ===== src/Policy.antt =====
-- packages/playbook-sdk/blueteam_playbook/policy.py: the tiers of actions and what each requires.
-- The policy engine of packages/rego-engine stands in the child module.
pub mod Rego
pub mod Tiers
pub mod Outcome
use blue_team_os.Prelude.{
  ℕ, String, Bool, ◌||◌, Option, some, List, [], ◌∷◌, mem_text, if◌then◌else◌,
}
use blue_team_os.Errors.{Result, ok, err, value_error}
use blue_team_os.Policy.Outcome.{Decision, allow, require_approval}

pub data ActionTier : Type 0 where
  T0 T1 T2 : ActionTier

-- ActionTier(n)
unfoldable pub action_tier : ℕ → Result ActionTier
action_tier ℕ.zero = ok T0
action_tier (ℕ.suc ℕ.zero) = ok T1
action_tier (ℕ.suc (ℕ.suc ℕ.zero)) = ok T2
action_tier _ = err (value_error "not a valid ActionTier")

abbrev pub tier2_actions : List String
tier2_actions =
    "isolate_host" ∷ "isolate.host" ∷ "disable_user" ∷ "revoke_privileged_access"
    ∷ "modify_firewall" ∷ "push_production_detection" ∷ "alter_platform_policy" ∷ "delete_evidence"
    ∷ []

abbrev pub tier1_actions : List String
tier1_actions = "contain_session" ∷ "disable_stale_token" ∷ "quarantine_mailbox_rule" ∷ []

abbrev is_tier1 : Option ActionTier → Bool
is_tier1 (some T1) = Bool.true
is_tier1 _ = Bool.false

abbrev is_tier2 : Option ActionTier → Bool
is_tier2 (some T2) = Bool.true
is_tier2 _ = Bool.false

unfoldable pub evaluate_action : String → Option ActionTier → Decision
evaluate_action action_type tier =
    if mem_text action_type tier2_actions || is_tier2 tier
    then require_approval
    else if mem_text action_type tier1_actions || is_tier1 tier
    then require_approval
    else allow
