-- ===== src/Policy/Rego/Laws.antt =====
-- When the policy subset allows an action.
use blue_team_os.Prelude.{arith, ◌≡◌, true, false, ◌⊎◌, ◌↔◌}
use blue_team_os.Value.{pos}
use blue_team_os.Policy.Outcome.{allow, deny}
use blue_team_os.Policy.Rego.{PolicyInput, subset_decide, is_destructive, from_ai}

-- The subset allows an action exactly when it is read-only, neither destructive nor asked for by an
-- AI, and either a dry run or of tier 0.
pub subset_decide-allow_iff :
    (i : PolicyInput)
    → ((subset_decide i).decision ≡ allow) ↔ (
        (is_destructive i.action_type ≡ false)
        × (from_ai i ≡ false)
        × (i.read_only ≡ true)
        × ((i.dry_run ≡ true) ⊎ (i.tier ≡ pos 0)))
unfolding subset_decide
subset_decide-allow_iff i = (λ h. ground arith, λ h. ground arith)

-- The subset denies what an AI asks for.
pub subset_decide-ai : (i : PolicyInput) → from_ai i ≡ true → (subset_decide i).decision ≡ deny
unfolding subset_decide
subset_decide-ai i h = ground arith
