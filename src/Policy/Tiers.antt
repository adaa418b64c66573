-- ===== src/Policy/Tiers.antt =====
-- What the playbook's policy says of an action that it lets through.
use blue_team_os.Prelude.{ℕ, ◌≡◌, ◌≢◌, String, false, Option, some, arith, mem_text}
use blue_team_os.Errors.{ok}
use blue_team_os.Policy.Outcome.{allow, deny}
use blue_team_os.Policy.{
  ActionTier, T0, T1, T2, tier1_actions, tier2_actions, action_tier, evaluate_action,
}

pub evaluate_action-allow :
    (a : String) (t : ActionTier)
    → evaluate_action a (some t) ≡ allow
    → (t ≡ T0) × (mem_text a tier2_actions ≡ false) × (mem_text a tier1_actions ≡ false)
unfolding evaluate_action
evaluate_action-allow a T0 h = ground arith
evaluate_action-allow a T1 h = ground arith
evaluate_action-allow a T2 h = ground arith

pub evaluate_action-ne-deny : (a : String) (t : Option ActionTier) → evaluate_action a t ≢ deny
unfolding evaluate_action
evaluate_action-ne-deny a t = ground arith

pub tier_zero : (n : ℕ) → action_tier n ≡ ok T0 → n ≡ 0
unfolding action_tier
tier_zero n h = ground arith
