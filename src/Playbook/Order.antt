-- ===== src/Playbook/Order.antt =====
-- A step is tried only behind the steps that it depends on.
use blue_team_os.Prelude.{
  ◌≡◌, refl, ◌∙◌, sym, ap, String, Bool, true, false, not, some, List, [], ◌∷◌, ◌++◌, All, any,
  mem_text, lookup, subst, arith,
}
use blue_team_os.Errors.{Error}
use blue_team_os.Playbook.Defs.{
  PlaybookStepDef, PlaybookDef, StepRun, StepStatus, success, failed, awaiting_approval,
}
use blue_team_os.Playbook.Run.{
  Executor, Progress, Outcome, proceed, halt, crash, is_blocked, RunArgs, pending_of, start,
  execute,
}
use blue_team_os.Playbook.Invariant.{Rule, Leaves, rounds_end}
use blue_team_os.Playbook.Steps.{IsStep, pending_of-IsStep}

-- The identifiers of the steps that have succeeded.
abbrev pub grow : List String → StepStatus → String → List String
grow seen success id = seen ++ id ∷ []
grow seen _ id = seen

abbrev pub succeeded_from : List String → List StepRun → List String
succeeded_from seen [] = seen
succeeded_from seen (r ∷ rs) = succeeded_from (grow seen r.status r.step_id) rs

-- The step runs that the loop recorded.
abbrev pub steps_of : Outcome → List StepRun
steps_of (proceed s) = s.steps
steps_of (halt s) = s.steps
steps_of (crash e s) = s.steps

module _ (steps : List PlaybookStepDef) where
  -- The playbook's step of that name has all of its dependencies in `seen`.
  abbrev pub HasDeps : List String → String → Type 0
  HasDeps seen id =
      (step : PlaybookStepDef) × (lookup id (pending_of steps) ≡ some step)
      × All (λ dep. mem_text dep seen ≡ true) step.depends_on

  -- A step that succeeded, failed or waits for approval had its dependencies.
  abbrev pub IsBehind : List String → StepStatus → String → Type 0
  IsBehind seen success id = HasDeps seen id
  IsBehind seen failed id = HasDeps seen id
  IsBehind seen awaiting_approval id = HasDeps seen id
  IsBehind seen _ id = Unit

  abbrev pub IsOrdered : List String → List StepRun → Type 0
  IsOrdered seen [] = Unit
  IsOrdered seen (r ∷ rs) =
      IsBehind seen r.status r.step_id × IsOrdered (grow seen r.status r.step_id) rs

  IsOrdered-concat :
      (seen : List String) (rs : List StepRun) (r : StepRun)
      → IsOrdered seen rs
      → IsBehind (succeeded_from seen rs) r.status r.step_id
      → IsOrdered seen (rs ++ r ∷ [])
  IsOrdered-concat seen [] r h k = (k, tt)
  IsOrdered-concat seen (x ∷ xs) r h k =
      (h.0, IsOrdered-concat (grow seen x.status x.step_id) xs r h.1 k)

pub succeeded_from-concat :
    (seen : List String) (rs : List StepRun) (r : StepRun)
    → succeeded_from seen (rs ++ r ∷ []) ≡ grow (succeeded_from seen rs) r.status r.step_id
succeeded_from-concat seen [] r = refl
succeeded_from-concat seen (x ∷ xs) r = succeeded_from-concat (grow seen x.status x.step_id) xs r

deps_completed :
    (deps completed : List String)
    → any (λ dep. not (mem_text dep completed)) deps ≡ false
    → All (λ dep. mem_text dep completed ≡ true) deps
deps_completed [] completed h = tt
deps_completed (d ∷ ds) completed h = (ground arith, deps_completed ds completed (ground arith))

module _ (steps : List PlaybookStepDef) where
  -- The record of steps is ordered, and `completed` holds what has succeeded.
  abbrev InOrder : Progress → Type 0
  InOrder s = IsOrdered steps [] s.steps × (s.completed ≡ succeeded_from [] s.steps)

  HasDeps-free :
      (id : String) (step : PlaybookStepDef) (s : Progress)
      → IsStep steps (id, step)
      → InOrder s
      → is_blocked step s ≡ false
      → HasDeps steps (succeeded_from [] s.steps) step.id
  HasDeps-free id step s (found, named) (_, done) free = (
    step,
    subst (λ k. lookup k (pending_of steps) ≡ some step) (sym named) found,
    subst (λ c. All (λ dep. mem_text dep c ≡ true) step.depends_on) done
        (deps_completed step.depends_on s.completed free),
  )

  module _ (executor : Executor) (show : Error → String) (dry_run : Bool)
      (approved : List String) where
    order_rule : Rule executor show dry_run approved (IsStep steps) InOrder InOrder
    order_rule = record {
      take = λ id step s e h. h;
      hold = λ id step s e h free. (
        IsOrdered-concat steps [] s.steps _ h.0 (HasDeps-free id step s e h free),
        h.1 ∙ sym (succeeded_from-concat [] s.steps _),
      );
      refuse = λ id step s e h. (
        IsOrdered-concat steps [] s.steps _ h.0 tt,
        h.1 ∙ sym (succeeded_from-concat [] s.steps _),
      );
      fail = λ id step tier s e h free graded gate. (
        IsOrdered-concat steps [] s.steps _ h.0 (HasDeps-free id step s e h free),
        h.1 ∙ sym (succeeded_from-concat [] s.steps _),
      );
      succeed = λ id step tier s e h free graded gate. (
        IsOrdered-concat steps [] s.steps _ h.0 (HasDeps-free id step s e h free),
        ap (λ c. c ++ step.id ∷ []) h.1 ∙ sym (succeeded_from-concat [] s.steps _),
      );
    }

-- In the record that `execute` leaves, each step that succeeded, failed or waits for approval is a step
-- of the playbook all of whose dependencies succeeded before it.
pub execute-IsOrdered :
    (executor : Executor) (show : Error → String) (playbook : PlaybookDef) (args : RunArgs)
    (o : Outcome)
    → execute executor show playbook args ≡ some o
    → IsOrdered playbook.steps [] (steps_of o)
unfolding execute
execute-IsOrdered executor show playbook args o h = at_end o (
    rounds_end executor show args.dry_run args.approved_steps _ _ _
      (order_rule playbook.steps executor show args.dry_run args.approved_steps) (λ s k. k) _
      (start playbook) (pending_of-IsStep playbook.steps) (tt, refl) h)
  where
    at_end :
        (o : Outcome)
        → Leaves (InOrder playbook.steps) (InOrder playbook.steps) o
        → IsOrdered playbook.steps [] (steps_of o)
    at_end (proceed s) k = k.0
    at_end (halt s) k = k.0
    at_end (crash e s) k = k.0
