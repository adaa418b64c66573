-- ===== src/Playbook/Tests.antt =====
-- Runs of the catalogue's playbooks, and the theorems at them.
use blue_team_os.Prelude.{
  ◌≡◌, refl, String, true, false, none, some, [], ◌∷◌, All, mem_text, lookup, insert, remove,
}
use blue_team_os.Errors.{Error, ok, err, key_error}
use blue_team_os.Policy.{action_tier, evaluate_action}
use blue_team_os.Playbook.Defs.{
  PlaybookStepDef, step_def, PlaybookRun, contain_host, enrich_only, success, awaiting_approval,
}
use blue_team_os.Playbook.Run.{
  Executor, Engine, RunArgs, Ran, proceed, Progress, pending_of, try_from, record_attempts, decided,
  visit, one_pass, rounds, run_key, finished, conclude, store, execute, run, call_of, step_run,
}
use blue_team_os.Playbook.Total.{run_total}
use blue_team_os.Playbook.Calls.{IsCleared, execute-IsCleared}
use blue_team_os.Playbook.Order.{IsOrdered, execute-IsOrdered}
use blue_team_os.Playbook.Ends.{AllDone, conclude-completed}
use blue_team_os.Playbook.Reuse.{run-run}

abbrev always_ok : Executor
always_ok calls action_type params dry_run = ok []

abbrev show : Error → String
show e = "error"

abbrev wet : RunArgs
wet = record {
  tenant_id = "ten_a";
  dry_run = false;
  idempotency_key = some "key_1";
  approved_steps = [];
  new_id = "run_1";
  started_at = "t0";
  finished_at = "t1";
}

abbrev fresh : Engine
fresh = record { runs = []; by_idempotency = [] }

abbrev step_a : PlaybookStepDef
step_a = step_def "a" "collect.windows.processes" 0 [] 0 none

abbrev step_b : PlaybookStepDef
step_b = step_def "b" "collect.windows.events" 0 ("a" ∷ []) 0 none

abbrev enriched : Progress
enriched = record {
  steps = step_run step_a success 1 [] none ∷ (step_run step_b success 1 [] none ∷ []);
  approval_required = [];
  completed = "a" ∷ ("b" ∷ []);
  pending = [];
  progressed = true;
  calls = call_of false step_a ∷ (call_of false step_b ∷ []);
}

enriched_end : execute always_ok show enrich_only wet ≡ some (proceed enriched)
unfolding execute rounds one_pass visit decided record_attempts try_from pending_of mem_text lookup
    insert remove action_tier evaluate_action
enriched_end = refl

abbrev enriched_run : PlaybookRun
enriched_run = record {
  run_id = "run_1";
  playbook_id = "pb.enrich_only";
  tenant_id = "ten_a";
  status = "completed";
  dry_run = false;
  idempotency_key = "key_1";
  steps = enriched.steps;
  approval_required = [];
  started_at = "t0";
  finished_at = some "t1";
}

abbrev enriched_ran : Ran
enriched_ran = record {
  result = ok enriched_run;
  engine = record { runs = ("run_1", enriched_run) ∷ []; by_idempotency = ("key_1", "run_1") ∷ [] };
  calls = enriched.calls;
}

enriched_concluded : conclude enrich_only wet (proceed enriched) ≡ ok enriched_run
unfolding conclude finished run_key
enriched_concluded = refl

enriched_result : run always_ok show fresh enrich_only wet ≡ some enriched_ran
unfolding run store conclude finished run_key execute rounds one_pass visit decided record_attempts
    try_from pending_of mem_text lookup insert remove action_tier evaluate_action
enriched_result = refl

abbrev step_collect : PlaybookStepDef
step_collect = step_def "collect" "collect.windows.processes" 0 [] 1 none

abbrev step_isolate : PlaybookStepDef
step_isolate = step_def "isolate" "isolate.host" 2 ("collect" ∷ []) 0 (some "release.host")

-- The collection fails once and is tried again; the isolation waits for approval.
abbrev fails_once : Executor
fails_once [] action_type params dry_run = err (key_error "host")
fails_once (c ∷ calls) action_type params dry_run = ok []

abbrev held : Progress
held = record {
  steps =
      step_run step_collect success 2 [] none
      ∷ (step_run step_isolate awaiting_approval 0 [] none ∷ []);
  approval_required = "isolate" ∷ [];
  completed = "collect" ∷ [];
  pending = [];
  progressed = true;
  calls = call_of false step_collect ∷ (call_of false step_collect ∷ []);
}

held_end : execute fails_once show contain_host wet ≡ some (proceed held)
unfolding execute rounds one_pass visit decided record_attempts try_from pending_of mem_text lookup
    insert remove action_tier evaluate_action
held_end = refl

run_total_example : (r : Ran) × (run fails_once show fresh contain_host wet ≡ some r)
run_total_example = run_total fails_once show fresh contain_host wet

execute-IsCleared_example : All (IsCleared false [] contain_host.steps) held.calls
execute-IsCleared_example =
    execute-IsCleared fails_once show contain_host wet (proceed held) held_end

execute-IsOrdered_example : IsOrdered contain_host.steps [] held.steps
execute-IsOrdered_example =
    execute-IsOrdered fails_once show contain_host wet (proceed held) held_end

conclude-completed_example : AllDone enrich_only enriched_run
conclude-completed_example =
    conclude-completed always_ok show enrich_only wet (proceed enriched) enriched_run enriched_end
      enriched_concluded refl

same_key : run_key contain_host wet ≡ run_key enrich_only wet
unfolding run_key
same_key = refl

run-run_example :
    run fails_once show enriched_ran.engine contain_host wet
    ≡ some (record { result = ok enriched_run; engine = enriched_ran.engine; calls = [] })
run-run_example =
    run-run always_ok fails_once show show fresh enrich_only contain_host wet wet enriched_ran
      enriched_run enriched_result refl same_key
