-- ===== src/Playbook/Invariant.antt =====
-- The invariant rule of the loop: what each change of the body keeps holds when the loop ends.
use blue_team_os.Prelude.{
  ℕ, zero, suc, ◌≡◌, refl, String, Bool, false, ◌==◌, Option, none, some, List, [], ◌∷◌, All, null,
  remove, if_ind, if◌then◌else◌, subst,
}
use blue_team_os.Errors.{Error, Result, ok, err}
use blue_team_os.Policy.{ActionTier, action_tier, evaluate_action}
use blue_team_os.Policy.Outcome.{Decision}
use blue_team_os.Playbook.Defs.{PlaybookStepDef}
use blue_team_os.Playbook.Run.{
  Executor, Progress, Outcome, proceed, halt, crash, awaited, refused, failed_with, succeeded,
  taken, is_held, is_deny, is_error, is_blocked, try_from, record_attempts, decided, visit,
  Attempted, after_pass, and_then, with_tier, one_pass, rounds,
}

-- P of the local variables where the loop went on or ended by itself, H where it returned early or
-- raised.
abbrev pub Leaves : (P H : Progress → Type 0) → Outcome → Type 0
Leaves P H (proceed s) = P s
Leaves P H (halt s) = H s
Leaves P H (crash e s) = H s

Leaves-map :
    (P Q H : Progress → Type 0) (o : Outcome)
    → ((s : Progress) → P s → Q s)
    → Leaves P H o
    → Leaves Q H o
Leaves-map P Q H (proceed s) f h = f s h
Leaves-map P Q H (halt s) f h = h
Leaves-map P Q H (crash e s) f h = h

pub All-remove {ℓ} :
    {V : Type 0} (E : String × V → Type ℓ) (key : String) (dict : List (String × V))
    → All E dict
    → All E (remove key dict)
unfolding remove
All-remove E key [] h = tt
All-remove E key ((key', val) ∷ dict) h =
    if_ind (All E) (key' == key) _ _ (λ _. All-remove E key dict h.1)
      (λ _. (h.0, All-remove E key dict h.1))

module _ (executor : Executor) (show : Error → String) (dry_run : Bool) (approved : List String)
    (E : String × PlaybookStepDef → Type 0) (P H : Progress → Type 0) where
  -- `E` is known of each entry of `pending`. A case is given the state in which the entry is taken.
  pub record Rule : Type 0 where
    pub take :
        (id : String) (step : PlaybookStepDef) (s : Progress) → E (id, step) → P s → H (taken id s)
    pub hold :
        (id : String) (step : PlaybookStepDef) (s : Progress)
        → E (id, step)
        → P s
        → is_blocked step s ≡ false
        → P (awaited step (taken id s))
    pub refuse :
        (id : String) (step : PlaybookStepDef) (s : Progress)
        → E (id, step)
        → P s
        → H (refused step (taken id s))
    pub fail :
        (id : String) (step : PlaybookStepDef) (tier : ActionTier) (s : Progress)
        → E (id, step)
        → P s
        → is_blocked step s ≡ false
        → action_tier step.tier ≡ ok tier
        → is_held dry_run approved step (evaluate_action step.action_type (some tier)) ≡ false
        → H (
            failed_with step
              (try_from executor show dry_run approved step (suc step.retries) 0 none s.calls)
              (taken id s))
    pub succeed :
        (id : String) (step : PlaybookStepDef) (tier : ActionTier) (s : Progress)
        → E (id, step)
        → P s
        → is_blocked step s ≡ false
        → action_tier step.tier ≡ ok tier
        → is_held dry_run approved step (evaluate_action step.action_type (some tier)) ≡ false
        → P (
            succeeded step
              (try_from executor show dry_run approved step (suc step.retries) 0 none s.calls)
              (taken id s))

  then_pass :
      {K : Progress → Type 0} (o : Outcome) (f : Progress → Outcome)
      → Leaves K H o
      → ((s : Progress) → K s → Leaves K H (f s))
      → Leaves K H (and_then o f)
  then_pass (proceed s) f k h = h s k
  then_pass (halt s) f k h = k
  then_pass (crash e s) f k h = k

  module _ (rule : Rule) where
    abbrev pub Known : Progress → Type 0
    Known s = All E s.pending × P s

    take-Known : (id : String) (s : Progress) → Known s → All E (taken id s).pending
    take-Known id s k = All-remove E id s.pending k.0

    module _ (id : String) (step : PlaybookStepDef) (tier : ActionTier) (s : Progress)
        (e : E (id, step)) (k : Known s) (free : is_blocked step s ≡ false)
        (graded : action_tier step.tier ≡ ok tier) where
      abbrev decision : Decision
      decision = evaluate_action step.action_type (some tier)

      abbrev tried : Attempted
      tried = try_from executor show dry_run approved step (suc step.retries) 0 none s.calls

      record_attempts-Known :
          is_held dry_run approved step decision ≡ false
          → Leaves Known H (record_attempts step tried (taken id s))
      unfolding record_attempts
      record_attempts-Known gate =
          if_ind (Leaves Known H) (is_error tried.last_error)
            (halt (failed_with step tried (taken id s)))
            (proceed (succeeded step tried (taken id s)))
            (λ _. rule.fail id step tier s e k.1 free graded gate)
            (λ _. (take-Known id s k, rule.succeed id step tier s e k.1 free graded gate))

      decided-Known :
          Leaves Known H (decided executor show dry_run approved step decision (taken id s))
      unfolding decided
      decided-Known =
          if_ind (Leaves Known H) (is_held dry_run approved step decision)
            (proceed (awaited step (taken id s)))
            (if is_deny decision
              then halt (refused step (taken id s))
              else record_attempts step tried (taken id s))
            (λ _. (take-Known id s k, rule.hold id step s e k.1 free))
            λ gate.
              if_ind (Leaves Known H) (is_deny decision) (halt (refused step (taken id s)))
                (record_attempts step tried (taken id s)) (λ _. rule.refuse id step s e k.1)
                (λ _. record_attempts-Known gate)

    visit-Known :
        (entry : String × PlaybookStepDef) (s : Progress)
        → E entry
        → Known s
        → Leaves Known H (visit executor show dry_run approved entry s)
    unfolding visit
    visit-Known (id, step) s e k =
        if_ind (Leaves Known H) (is_blocked step s) _ _ (λ _. k)
          (λ free. tiers (action_tier step.tier) refl free)
      where
        tiers :
            (t : Result ActionTier)
            → action_tier step.tier ≡ t
            → is_blocked step s ≡ false
            → Leaves Known H (with_tier executor show dry_run approved step t (taken id s))
        tiers (err x) graded free = rule.take id step s e k.1
        tiers (ok tier) graded free = decided-Known id step tier s e k free graded

    one_pass-Known :
        (entries : List (String × PlaybookStepDef)) (s : Progress)
        → All E entries
        → Known s
        → Leaves Known H (one_pass executor show dry_run approved entries s)
    unfolding one_pass
    one_pass-Known [] s es k = k
    one_pass-Known (entry ∷ rest) s es k =
        then_pass {K = Known} _ _ (visit-Known entry s es.0 k)
          (λ s' k'. one_pass-Known rest s' es.1 k')

    pub one_pass_keeps :
        (entries : List (String × PlaybookStepDef)) (s : Progress)
        → All E entries
        → All E s.pending
        → P s
        → Leaves P H (one_pass executor show dry_run approved entries s)
    one_pass_keeps entries s es pending p =
        Leaves-map Known P H _ (λ s' k. k.1) (one_pass-Known entries s es (pending, p))

    abbrev LeavesIf : Option Outcome → Type 0
    LeavesIf none = Unit
    LeavesIf (some o) = Leaves Known H o

    after_pass-Known :
        (again : Progress → Option Outcome) (o : Outcome)
        → Leaves Known H o
        → ((s : Progress) → Known s → LeavesIf (again s))
        → LeavesIf (after_pass again o)
    after_pass-Known again (halt s) k h = k
    after_pass-Known again (crash e s) k h = k
    after_pass-Known again (proceed s) k h =
        if_ind LeavesIf s.progressed (again s) (some (proceed s)) (λ _. h s k) (λ _. k)

    module _ (reset : (s : Progress) → P s → P (record s { progressed = false })) where
      rounds_keep :
          (fuel : ℕ) (s : Progress)
          → Known s
          → LeavesIf (rounds executor show dry_run approved fuel s)
      unfolding rounds
      rounds_keep zero s k = tt
      rounds_keep (suc fuel) s k =
          if_ind LeavesIf (null s.pending) (some (proceed s)) _ (λ _. k)
            λ _.
              after_pass-Known (rounds executor show dry_run approved fuel) _
                (one_pass-Known s.pending _ k.0 (k.0, reset s k.1)) (rounds_keep fuel)

      -- Whatever the fuel, `P` holds of the local variables when the loop ends.
      pub rounds_end :
          (fuel : ℕ) (s : Progress) {o : Outcome}
          → All E s.pending
          → P s
          → rounds executor show dry_run approved fuel s ≡ some o
          → Leaves P H o
      rounds_end fuel s {o} pending p h =
          Leaves-map Known P H o (λ s' k. k.1) (subst LeavesIf h (rounds_keep fuel s (pending, p)))
