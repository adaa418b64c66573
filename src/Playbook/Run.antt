-- ===== src/Playbook/Run.antt =====
-- `PlaybookEngine`: run, approve, get.
use Prim.Native.String.{◌++◌ as text_append}
use blue_team_os.Prelude.{
  ℕ, zero, suc, ◌+◌, String, Bool, true, false, ◌&&◌, not, Option, none, some, List, [], ◌∷◌, ◌++◌,
  ◌==◌, mem_text, any, null, length, lookup, insert, remove, if◌then◌else◌,
}
use blue_team_os.Errors.{Error, Result, ok, err, key_error}
use blue_team_os.Value.{Doc}
use blue_team_os.Policy.{ActionTier, action_tier, evaluate_action}
use blue_team_os.Policy.Outcome.{Decision, deny, require_approval}
use blue_team_os.Playbook.Defs.{
  PlaybookStepDef, PlaybookDef, StepRun, PlaybookRun, StepStatus, success, failed,
  awaiting_approval, denied,
}

-- One call of the executor.
pub record Call : Type 0 where
  pub step_id : String
  pub action_type : String
  pub params : Doc
  pub dry_run : Bool

-- The executor, behind the calls that were made before.
abbrev pub Executor : Type 0
Executor = List Call → String → Doc → Bool → Result Doc

-- The local variables of `run` that the loop changes.
pub record Progress : Type 0 where
  pub steps : List StepRun
  pub approval_required : List String
  pub completed : List String
  pub pending : List (String × PlaybookStepDef)
  pub progressed : Bool
  pub calls : List Call

-- How one step, a pass or the loop ends: it goes on, it returns from `run` (a step was denied or
-- failed), or an exception leaves `run`.
pub data Outcome : Type 0 where
  proceed : Progress → Outcome
  halt : Progress → Outcome
  crash : Error → Progress → Outcome

pub record Attempted : Type 0 where
  pub attempts : ℕ
  pub last_error : Option String
  pub outputs : Doc
  pub calls : List Call

abbrev pub step_run : PlaybookStepDef → StepStatus → ℕ → Doc → Option String → StepRun
step_run step status attempts outputs error = record {
  step_id = step.id;
  action_type = step.action_type;
  status = status;
  attempts = attempts;
  outputs = outputs;
  error = error;
  rollback_hook = step.rollback_action;
}

-- if last_error: an empty message is no error.
abbrev pub is_error : Option String → Bool
is_error none = false
is_error (some message) = not (message == "")

abbrev pub wants_approval : Decision → Bool
wants_approval require_approval = true
wants_approval _ = false

abbrev pub is_deny : Decision → Bool
is_deny deny = true
is_deny _ = false

abbrev pub fill :
    List PlaybookStepDef → List (String × PlaybookStepDef) → List (String × PlaybookStepDef)
fill [] dict = dict
fill (step ∷ rest) dict = fill rest (insert step.id step dict)

-- {step.id: step for step in steps}
unfoldable pub pending_of : List PlaybookStepDef → List (String × PlaybookStepDef)
pending_of steps = fill steps []

-- The changes that the body of the loop makes.
abbrev pub awaited : PlaybookStepDef → Progress → Progress
awaited step s = record s {
  steps = s.steps ++ step_run step awaiting_approval 0 [] none ∷ [];
  approval_required = s.approval_required ++ step.id ∷ [];
}

abbrev pub refused : PlaybookStepDef → Progress → Progress
refused step s = record s {
  steps = s.steps ++ record (step_run step denied 1 [] none) { rollback_hook = none } ∷ [];
}

abbrev pub failed_with : PlaybookStepDef → Attempted → Progress → Progress
failed_with step a s = record s {
  steps = s.steps ++ step_run step failed a.attempts [] a.last_error ∷ [];
  calls = a.calls;
}

abbrev pub succeeded : PlaybookStepDef → Attempted → Progress → Progress
succeeded step a s = record s {
  steps = s.steps ++ step_run step success a.attempts a.outputs none ∷ [];
  completed = s.completed ++ step.id ∷ [];
  calls = a.calls;
}

abbrev pub taken : String → Progress → Progress
taken step_id s = record s { progressed = true; pending = remove step_id s.pending }

-- What the loop does with the outcome of the attempts.
unfoldable pub record_attempts : PlaybookStepDef → Attempted → Progress → Outcome
record_attempts step a s =
    if is_error a.last_error then halt (failed_with step a s) else proceed (succeeded step a s)

-- A step that must be approved first.
abbrev pub is_held : (dry_run : Bool) (approved : List String) → PlaybookStepDef → Decision → Bool
is_held dry_run approved step decision =
    wants_approval decision && (not dry_run && not (mem_text step.id approved))

-- any(dep not in completed for dep in step.depends_on)
abbrev pub is_blocked : PlaybookStepDef → Progress → Bool
is_blocked step s = any (λ dep. not (mem_text dep s.completed)) step.depends_on

abbrev pub and_then : Outcome → (Progress → Outcome) → Outcome
and_then (proceed s) f = f s
and_then (halt s) f = halt s
and_then (crash e s) f = crash e s

-- Behind a pass: the loop goes on if a step was taken.
abbrev pub after_pass : (Progress → Option Outcome) → Outcome → Option Outcome
after_pass again (halt s) = some (halt s)
after_pass again (crash e s) = some (crash e s)
after_pass again (proceed s) = if s.progressed then again s else some (proceed s)

abbrev pub call_of : Bool → PlaybookStepDef → Call
call_of dry_run step = record {
  step_id = step.id;
  action_type = step.action_type;
  params = step.params;
  dry_run = dry_run;
}

-- The `try` of one attempt: `break` with the outputs, or the next attempt with the message.
abbrev pub after_try :
    (show : Error → String)
    → Result Doc
    → ℕ
    → List Call
    → (Option String → List Call → Attempted)
    → Attempted
after_try show (ok outputs) attempts calls again = record {
  attempts = attempts + 1;
  last_error = none;
  outputs = outputs;
  calls = calls;
}
after_try show (err exc) attempts calls again = again (some (show exc)) calls

module _ (executor : Executor) (show : Error → String) (dry_run : Bool)
    (approved : List String) where
  -- The loop `while attempts <= step.retries`, over the attempts that are left.
  unfoldable pub try_from :
      PlaybookStepDef → (left attempts : ℕ) → Option String → List Call → Attempted
  try_from step zero attempts last calls = record {
    attempts = attempts;
    last_error = last;
    outputs = [];
    calls = calls;
  }
  try_from step (suc left) attempts last calls =
      after_try show (executor calls step.action_type step.params dry_run) attempts
        (calls ++ call_of dry_run step ∷ []) (try_from step left (attempts + 1))

  unfoldable pub decided : PlaybookStepDef → Decision → Progress → Outcome
  decided step decision s =
      if is_held dry_run approved step decision
      then proceed (awaited step s)
      else if is_deny decision
      then halt (refused step s)
      else record_attempts step (try_from step (suc step.retries) 0 none s.calls) s

  abbrev pub with_tier : PlaybookStepDef → Result ActionTier → Progress → Outcome
  with_tier step (err e) s = crash e s
  with_tier step (ok tier) s = decided step (evaluate_action step.action_type (some tier)) s

  -- The body of the `for` loop.
  unfoldable pub visit : String × PlaybookStepDef → Progress → Outcome
  visit (step_id, step) s =
      if is_blocked step s
      then proceed s
      else with_tier step (action_tier step.tier) (taken step_id s)

  -- The `for` loop over the snapshot of `pending`.
  unfoldable pub one_pass : List (String × PlaybookStepDef) → Progress → Outcome
  one_pass [] s = proceed s
  one_pass (entry ∷ rest) s = and_then (visit entry s) (one_pass rest)

  -- while pending: … ; `none` means that the fuel ran out.
  unfoldable pub rounds : ℕ → Progress → Option Outcome
  rounds zero s = none
  rounds (suc fuel) s =
      if null s.pending
      then some (proceed s)
      else after_pass (rounds fuel) (one_pass s.pending (record s { progressed = false }))

-- self._runs and self._by_idempotency
pub record Engine : Type 0 where
  pub runs : List (String × PlaybookRun)
  pub by_idempotency : List (String × String)

-- What `run` is given beside the playbook, with the identifier and the times that it will take.
pub record RunArgs : Type 0 where
  pub tenant_id : String
  pub dry_run : Bool
  pub idempotency_key : Option String
  pub approved_steps : List String
  pub new_id : String
  pub started_at : String
  pub finished_at : String

-- idempotency_key or f"{playbook_id}:{tenant_id}:auto"
unfoldable pub run_key : PlaybookDef → RunArgs → String
run_key playbook args =
    let auto =
      text_append playbook.playbook_id (text_append ":" (text_append args.tenant_id ":auto")) in
    elim args.idempotency_key [ none ↦ auto | some key ↦ if key == "" then auto else key ]

abbrev pub start : PlaybookDef → Progress
start playbook = record {
  steps = [];
  approval_required = [];
  completed = [];
  pending = pending_of playbook.steps;
  progressed = false;
  calls = [];
}

abbrev pub dag_step : StepRun
dag_step = record {
  step_id = "dag";
  action_type = "playbook.dag";
  status = failed;
  attempts = 0;
  outputs = [];
  error = some "Unresolved dependencies or cycle";
  rollback_hook = none;
}

unfoldable pub finished : PlaybookDef → RunArgs → String → List StepRun → List String → PlaybookRun
finished playbook args status steps approvals = record {
  run_id = args.new_id;
  playbook_id = playbook.playbook_id;
  tenant_id = args.tenant_id;
  status = status;
  dry_run = args.dry_run;
  idempotency_key = run_key playbook args;
  steps = steps;
  approval_required = approvals;
  started_at = args.started_at;
  finished_at = some args.finished_at;
}

-- The run that the end of the loop gives.
unfoldable pub conclude : PlaybookDef → RunArgs → Outcome → Result PlaybookRun
unfolding finished
conclude playbook args (crash e s) = err e
conclude playbook args (halt s) = ok (finished playbook args "failed" s.steps s.approval_required)
conclude playbook args (proceed s) = ok (
    if not (null s.approval_required)
    then finished playbook args "awaiting_approval" s.steps s.approval_required
    else if not (null s.pending)
    then finished playbook args "failed" (s.steps ++ dag_step ∷ []) s.approval_required
    else finished playbook args "completed" s.steps s.approval_required)

abbrev pub calls_of : Outcome → List Call
calls_of (proceed s) = s.calls
calls_of (halt s) = s.calls
calls_of (crash e s) = s.calls

-- What `run` returns or raises, the engine after it, and the calls of the executor.
pub record Ran : Type 0 where
  pub result : Result PlaybookRun
  pub engine : Engine
  pub calls : List Call

unfoldable pub store : PlaybookRun → Engine → Engine
store run engine = record {
  runs = insert run.run_id run engine.runs;
  by_idempotency = insert run.idempotency_key run.run_id engine.by_idempotency;
}

abbrev pub store_result : Result PlaybookRun → Engine → Engine
store_result (ok run) engine = store run engine
store_result (err e) engine = engine

abbrev pub known_run : Option PlaybookRun → Result PlaybookRun
known_run none = err (key_error "run")
known_run (some run) = ok run

-- The run that an idempotency key stands for.
abbrev pub reused : Engine → String → Ran
reused engine run_id = record {
  result = known_run (lookup run_id engine.runs);
  engine = engine;
  calls = [];
}

module _ (executor : Executor) (show : Error → String) where
  -- The fuel is one more than the number of pending steps.
  unfoldable pub execute : PlaybookDef → RunArgs → Option Outcome
  execute playbook args =
      rounds executor show args.dry_run args.approved_steps
        (suc (length (pending_of playbook.steps))) (start playbook)

  abbrev pub ran : PlaybookDef → RunArgs → Engine → Outcome → Ran
  ran playbook args engine o = record {
    result = conclude playbook args o;
    engine = store_result (conclude playbook args o) engine;
    calls = calls_of o;
  }

  unfoldable pub run : Engine → PlaybookDef → RunArgs → Option Ran
  run engine playbook args = elim (lookup (run_key playbook args) engine.by_idempotency) [
    | some run_id ↦ some (reused engine run_id)
    | none ↦ elim (execute playbook args) [
      | none ↦ none
      | some o ↦ some (ran playbook args engine o)
    ]
  ]

  -- `joined` is ",".join(sorted(step_ids)).
  abbrev pub resume_args : PlaybookRun → List String → String → RunArgs → RunArgs
  resume_args prior step_ids joined fresh = record fresh {
    tenant_id = prior.tenant_id;
    dry_run = prior.dry_run;
    idempotency_key = some (text_append prior.idempotency_key (text_append ":approved:" joined));
    approved_steps = step_ids ++ prior.approval_required;
  }

  unfoldable pub approve :
      Engine
      → (run_id : String) → (step_ids : List String) → (joined : String) → PlaybookDef
      → RunArgs
      → Option Ran
  approve engine run_id step_ids joined playbook fresh = elim (lookup run_id engine.runs) [
    | none ↦ some (record { result = err (key_error run_id); engine = engine; calls = [] })
    | some prior ↦
        run (record engine { by_idempotency = remove prior.idempotency_key engine.by_idempotency })
          playbook (resume_args prior step_ids joined fresh)
  ]

-- get
unfoldable pub get : Engine → String → Option PlaybookRun
get engine run_id = lookup run_id engine.runs
