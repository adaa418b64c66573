-- ===== src/Playbook/Ends.antt =====
-- What the status of a run says.
use blue_team_os.Prelude.{
  text_differs, null→[], if◌then◌else◌, suc, ◌≡◌, refl, ◌∙◌, sym, ap, String, Bool, true, false,
  ◌||◌, not, ◌==◌, eq_iff, none, some, List, [], ◌∷◌, ◌++◌, All, All-map, keys, null, mem_text,
  mem_text-append, mem_text-keys-remove, remove, subst, arith,
}
use blue_team_os.Errors.{ok_injective, Error, ok}
use blue_team_os.Playbook.Defs.{PlaybookStepDef, PlaybookDef, PlaybookRun}
use blue_team_os.Playbook.Run.{
  awaited, succeeded, Attempted, Executor, Progress, Outcome, proceed, halt, crash, try_from, taken,
  RunArgs, dag_step, pending_of, start, execute, conclude, finished,
}
use blue_team_os.Playbook.Invariant.{Rule, Leaves, rounds_end}
use blue_team_os.Playbook.Steps.{IsStep, pending_of-IsStep}
use blue_team_os.Playbook.Total.{keys_present}
use blue_team_os.Playbook.Order.{succeeded_from, succeeded_from-concat}

-- An entry has succeeded, waits for approval or is pending.
abbrev IsPlaced : Progress → String × PlaybookStepDef → Type 0
IsPlaced s (id, step) =
    (mem_text id s.completed || (mem_text id s.approval_required || mem_text id (keys s.pending)))
    ≡ true

abbrev Accounted : List PlaybookStepDef → Progress → Type 0
Accounted steps s = All (IsPlaced s) (pending_of steps) × (s.completed ≡ succeeded_from [] s.steps)

placed_awaiting :
    (id : String) (completed approvals : List String) (pending : List (String × PlaybookStepDef))
    (k : String)
    → (mem_text k completed || (mem_text k approvals || mem_text k (keys pending))) ≡ true
    → (mem_text k completed
        || (mem_text k (approvals ++ id ∷ []) || mem_text k (keys (remove id pending))))
      ≡ true
unfolding mem_text
placed_awaiting id completed approvals pending k h = ground (
  arith,
  mem_text-append k approvals (id ∷ []),
  mem_text-keys-remove k id pending,
  eq_iff k id,
  eq_iff id k,
)

placed_done :
    (id : String) (completed approvals : List String) (pending : List (String × PlaybookStepDef))
    (k : String)
    → (mem_text k completed || (mem_text k approvals || mem_text k (keys pending))) ≡ true
    → (mem_text k (completed ++ id ∷ [])
        || (mem_text k approvals || mem_text k (keys (remove id pending))))
      ≡ true
unfolding mem_text
placed_done id completed approvals pending k h = ground (
  arith,
  mem_text-append k completed (id ∷ []),
  mem_text-keys-remove k id pending,
  eq_iff k id,
  eq_iff id k,
)

module _ (steps : List PlaybookStepDef) (executor : Executor) (show : Error → String)
    (dry_run : Bool) (approved : List String) where
  hold-Accounted :
      (id : String) (step : PlaybookStepDef) (s : Progress)
      → IsStep steps (id, step)
      → Accounted steps s
      → Accounted steps (awaited step (taken id s))
  hold-Accounted id step s (found, named) (placed, done) = (
    All-map (IsPlaced s)
        (λ e h.
          subst
            (λ k.
              (mem_text e.0 s.completed
                || (mem_text e.0 (s.approval_required ++ k ∷ [])
                    || mem_text e.0 (keys (remove id s.pending))))
              ≡ true)
            (sym named) (placed_awaiting id s.completed s.approval_required s.pending e.0 h))
        (pending_of steps) placed,
    done ∙ sym (succeeded_from-concat [] s.steps _),
  )

  succeed-Accounted :
      (id : String) (step : PlaybookStepDef) (a : Attempted) (s : Progress)
      → IsStep steps (id, step)
      → Accounted steps s
      → Accounted steps (succeeded step a (taken id s))
  succeed-Accounted id step a s (found, named) (placed, done) = (
    All-map (IsPlaced s)
        (λ e h.
          subst
            (λ k.
              (mem_text e.0 (s.completed ++ k ∷ [])
                || (mem_text e.0 s.approval_required || mem_text e.0 (keys (remove id s.pending))))
              ≡ true)
            (sym named) (placed_done id s.completed s.approval_required s.pending e.0 h))
        (pending_of steps) placed,
    ap (λ c. c ++ step.id ∷ []) done ∙ sym (succeeded_from-concat [] s.steps _),
  )

  account_rule :
      Rule executor show dry_run approved (IsStep steps) (Accounted steps) (λ _. Unit {0})
  account_rule = record {
    take = λ id step s e h. tt;
    hold = λ id step s e h free. hold-Accounted id step s e h;
    refuse = λ id step s e h. tt;
    fail = λ id step tier s e h free graded gate. tt;
    succeed = λ id step tier s e h free graded gate.
        succeed-Accounted id step
          (try_from executor show dry_run approved step (suc step.retries) 0 none s.calls) s e h;
  }

start-IsPlaced :
    (playbook : PlaybookDef) → All (IsPlaced (start playbook)) (pending_of playbook.steps)
unfolding mem_text
start-IsPlaced playbook = keys_present (pending_of playbook.steps)

-- The loop's end, where no step failed and no exception was raised, accounts for every step.
execute-Accounted :
    (executor : Executor) (show : Error → String) (playbook : PlaybookDef) (args : RunArgs)
    (o : Outcome)
    → execute executor show playbook args ≡ some o
    → Leaves (Accounted playbook.steps) (λ _. Unit {0}) o
unfolding execute
execute-Accounted executor show playbook args o h =
    rounds_end executor show args.dry_run args.approved_steps _ _ _
      (account_rule playbook.steps executor show args.dry_run args.approved_steps) (λ s k. k) _
      (start playbook) (pending_of-IsStep playbook.steps) (start-IsPlaced playbook, refl) h

null_end :
    (steps : List PlaybookStepDef) (s : Progress)
    → Accounted steps s
    → null s.approval_required ≡ true
    → null s.pending ≡ true
    → All
        (λ (e : String × PlaybookStepDef). mem_text e.0 (succeeded_from [] s.steps) ≡ true)
        (pending_of steps)
unfolding mem_text
null_end steps s (placed, done) a p =
    All-map (IsPlaced s)
      (λ e h.
        only_completed e.0 s.completed (succeeded_from [] s.steps) s.approval_required s.pending
          done (null→[] s.approval_required a) (null→[] s.pending p) h)
      (pending_of steps) placed
  where
    only_completed :
        (k : String) (completed seen approvals : List String)
        (pending : List (String × PlaybookStepDef))
        → completed ≡ seen
        → approvals ≡ []
        → pending ≡ []
        → (mem_text k completed || (mem_text k approvals || mem_text k (keys pending))) ≡ true
        → mem_text k seen ≡ true
    only_completed k completed seen approvals pending done a p h = ground arith

-- Each step of the playbook succeeded in the run, and no step waits for approval.
abbrev pub AllDone : PlaybookDef → PlaybookRun → Type 0
AllDone playbook run =
    (run.approval_required ≡ [])
    × All (λ (e : String × PlaybookStepDef). mem_text e.0 (succeeded_from [] run.steps) ≡ true)
        (pending_of playbook.steps)

clash {ℓ} : {A : Type ℓ} (a b : String) → (a == b) ≡ false → a ≡ b → A
clash a b h e = absurd (text_differs a b h e)

completed_of :
    (playbook : PlaybookDef) (args : RunArgs) (s : Progress)
    → Accounted playbook.steps s
    → (a p : Bool) → null s.approval_required ≡ a
    → null s.pending ≡ p
    → (r : PlaybookRun)
    → (if not a
        then finished playbook args "awaiting_approval" s.steps s.approval_required
        else if not p
        then finished playbook args "failed" (s.steps ++ dag_step ∷ []) s.approval_required
        else finished playbook args "completed" s.steps s.approval_required)
      ≡ r
    → r.status ≡ "completed"
    → AllDone playbook r
unfolding finished
completed_of playbook args s k false p ea ep r e done =
    clash "awaiting_approval" "completed" refl (ap (λ x. x.status) e ∙ done)
completed_of playbook args s k true false ea ep r e done =
    clash "failed" "completed" refl (ap (λ x. x.status) e ∙ done)
completed_of playbook args s k true true ea ep r e done =
    subst (AllDone playbook) e (null→[] s.approval_required ea, null_end playbook.steps s k ea ep)

-- A run whose status is "completed" awaits no approval, and each step of its playbook succeeded in it.
pub conclude-completed :
    (executor : Executor) (show : Error → String) (playbook : PlaybookDef) (args : RunArgs)
    (o : Outcome) (r : PlaybookRun)
    → execute executor show playbook args ≡ some o
    → conclude playbook args o ≡ ok r
    → r.status ≡ "completed"
    → AllDone playbook r
unfolding conclude finished
conclude-completed executor show playbook args o r h =
    at_end o (execute-Accounted executor show playbook args o h)
  where
    at_end :
        (o : Outcome)
        → Leaves (Accounted playbook.steps) (λ _. Unit {0}) o
        → conclude playbook args o ≡ ok r
        → r.status ≡ "completed"
        → AllDone playbook r
    at_end (proceed s) k c done =
        completed_of playbook args s k (null s.approval_required) (null s.pending) refl refl r
          (ok_injective c) done
    at_end (halt s) k c done =
        clash "failed" "completed" refl (ap (λ x. x.status) (ok_injective c) ∙ done)
    at_end (crash e s) k c done = ground arith
