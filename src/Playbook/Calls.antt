-- ===== src/Playbook/Calls.antt =====
-- Which steps the executor is called for.
use blue_team_os.Prelude.{
  ◌+◌, ℕ, zero, suc, ◌≡◌, refl, ◌⊎◌, inl, inr, String, Bool, true, false, Option, none, some, List,
  [], ◌∷◌, ◌++◌, All, All-append, mem_text, lookup, subst, sym, arith,
}
use blue_team_os.Errors.{Error, Result, ok, err}
use blue_team_os.Value.{Doc}
use blue_team_os.Policy.{ActionTier, action_tier, tier1_actions, tier2_actions, evaluate_action}
use blue_team_os.Policy.Tiers.{evaluate_action-allow, tier_zero}
use blue_team_os.Policy.Outcome.{Decision, allow}
use blue_team_os.Playbook.Defs.{PlaybookStepDef, PlaybookDef}
use blue_team_os.Playbook.Run.{
  Attempted, Executor, Call, Progress, Outcome, calls_of, proceed, halt, crash, is_held,
  wants_approval, call_of, after_try, try_from, RunArgs, pending_of, start, execute,
}
use blue_team_os.Playbook.Invariant.{Rule, Leaves, rounds_end}
use blue_team_os.Playbook.Steps.{IsStep, pending_of-IsStep}

-- A call of a step of the playbook, with its action and parameters, in the mode of the run; outside a
-- dry run the step was approved, or has tier 0 and an action of no tier.
abbrev pub IsCleared :
    (dry_run : Bool) (approved : List String) → List PlaybookStepDef → Call → Type 0
IsCleared dry_run approved steps c =
    (c.dry_run ≡ dry_run)
    × ((step : PlaybookStepDef) × (lookup c.step_id (pending_of steps) ≡ some step)
        × (c.action_type ≡ step.action_type)
        × (c.params ≡ step.params)
        × ((dry_run ≡ true)
            ⊎ ((mem_text c.step_id approved ≡ true)
                ⊎ ((step.tier ≡ 0)
                    × (mem_text step.action_type tier2_actions ≡ false)
                    × (mem_text step.action_type tier1_actions ≡ false)))))

allow_of_open :
    (a : String) (t : Option ActionTier)
    → wants_approval (evaluate_action a t) ≡ false
    → evaluate_action a t ≡ allow
unfolding evaluate_action
allow_of_open a t h = ground arith

gate_open :
    (dry_run : Bool) (approved : List String) (step : PlaybookStepDef) (d : Decision)
    → is_held dry_run approved step d ≡ false
    → (dry_run ≡ true) ⊎ ((mem_text step.id approved ≡ true) ⊎ (wants_approval d ≡ false))
gate_open dry_run approved step d h = ground arith

after_try-calls :
    (show : Error → String) (Q : Call → Type 0) (r : Result Doc) (attempts : ℕ) (calls : List Call)
    (again : Option String → List Call → Attempted)
    → All Q calls
    → ((message : Option String) → All Q (again message calls).calls)
    → All Q (after_try show r attempts calls again).calls
after_try-calls show Q (ok outputs) attempts calls again h k = h
after_try-calls show Q (err exc) attempts calls again h k = k (some (show exc))

module _ (executor : Executor) (show : Error → String) (dry_run : Bool)
    (approved : List String) where
  try_from-calls :
      (Q : Call → Type 0) (step : PlaybookStepDef) (left attempts : ℕ) (last : Option String)
      (calls : List Call)
      → Q (call_of dry_run step)
      → All Q calls
      → All Q (try_from executor show dry_run approved step left attempts last calls).calls
  unfolding try_from
  try_from-calls Q step zero attempts last calls q h = h
  try_from-calls Q step (suc left) attempts last calls q h =
      let grown = All-append Q calls (call_of dry_run step ∷ []) h (q, tt) in
      after_try-calls show Q (executor calls step.action_type step.params dry_run) attempts
        (calls ++ call_of dry_run step ∷ [])
        (try_from executor show dry_run approved step left (attempts + 1)) grown
        λ message.
          try_from-calls Q step left (attempts + 1) message (calls ++ call_of dry_run step ∷ []) q
            grown

  step-IsCleared :
      (steps : List PlaybookStepDef) (id : String) (step : PlaybookStepDef) (tier : ActionTier)
      → IsStep steps (id, step)
      → action_tier step.tier ≡ ok tier
      → is_held dry_run approved step (evaluate_action step.action_type (some tier)) ≡ false
      → IsCleared dry_run approved steps (call_of dry_run step)
  step-IsCleared steps id step tier (found, named) graded gate = (
    refl,
    (
      step,
      subst (λ k. lookup k (pending_of steps) ≡ some step) (sym named) found,
      refl,
      refl,
      cleared (gate_open dry_run approved step _ gate),
    ),
  )
    where
      cleared :
          (dry_run ≡ true)
            ⊎ ((mem_text step.id approved ≡ true)
                ⊎ (wants_approval (evaluate_action step.action_type (some tier)) ≡ false))
          → (dry_run ≡ true)
            ⊎ ((mem_text step.id approved ≡ true)
                ⊎ ((step.tier ≡ 0)
                    × (mem_text step.action_type tier2_actions ≡ false)
                    × (mem_text step.action_type tier1_actions ≡ false)))
      cleared (inl dry) = inl dry
      cleared (inr (inl named)) = inr (inl named)
      cleared (inr (inr unasked)) =
          let (t, high, low) =
            evaluate_action-allow step.action_type tier
              (allow_of_open step.action_type (some tier) unasked) in
          inr (inr (tier_zero step.tier (rw t at graded), high, low))

  abbrev AllCleared : List PlaybookStepDef → Progress → Type 0
  AllCleared steps s = All (IsCleared dry_run approved steps) s.calls

  cleared_rule :
      (steps : List PlaybookStepDef)
      → Rule executor show dry_run approved (IsStep steps) (AllCleared steps) (AllCleared steps)
  cleared_rule steps = record {
    take = λ id step s e h. h;
    hold = λ id step s e h free. h;
    refuse = λ id step s e h. h;
    fail = λ id step tier s e h free graded gate.
        try_from-calls _ step (suc step.retries) 0 none s.calls
          (step-IsCleared steps id step tier e graded gate) h;
    succeed = λ id step tier s e h free graded gate.
        try_from-calls _ step (suc step.retries) 0 none s.calls
          (step-IsCleared steps id step tier e graded gate) h;
  }

-- Each call that `execute` makes of the executor is of a step of the playbook, with that step's action
-- and parameters and the mode of the run; and outside a dry run that step was approved, or has tier 0
-- and an action that stands in no list of tiers.
pub execute-IsCleared :
    (executor : Executor) (show : Error → String) (playbook : PlaybookDef) (args : RunArgs)
    (o : Outcome)
    → execute executor show playbook args ≡ some o
    → All (IsCleared args.dry_run args.approved_steps playbook.steps) (calls_of o)
unfolding execute
execute-IsCleared executor show playbook args o h = at_end o (
    rounds_end executor show args.dry_run args.approved_steps _ _ _
      (cleared_rule executor show args.dry_run args.approved_steps playbook.steps) (λ s k. k) _
      (start playbook) (pending_of-IsStep playbook.steps) tt h)
  where
    at_end :
        (o : Outcome)
        → Leaves
            (λ s. All (IsCleared args.dry_run args.approved_steps playbook.steps) s.calls)
            (λ s. All (IsCleared args.dry_run args.approved_steps playbook.steps) s.calls)
            o
        → All (IsCleared args.dry_run args.approved_steps playbook.steps) (calls_of o)
    at_end (proceed s) k = k
    at_end (halt s) k = k
    at_end (crash e s) k = k
