-- ===== src/Playbook/Defs.antt =====
-- The data classes of engine.py, and its catalogue.
use blue_team_os.Prelude.{ℕ, String, Bool, Option, none, some, List, [], ◌∷◌, lookup}
use blue_team_os.Errors.{Result, ok, err, blue_team_error}
use blue_team_os.Value.{Doc}

pub data StepStatus : Type 0 where
  success skipped failed awaiting_approval denied : StepStatus

-- `retries` is an `int` that no definition of the program makes negative.
pub record PlaybookStepDef : Type 0 where
  pub id : String
  pub action_type : String
  pub depends_on : List String
  pub tier : ℕ
  pub retries : ℕ
  pub params : Doc
  pub rollback_action : Option String

pub record PlaybookDef : Type 0 where
  pub playbook_id : String
  pub name : String
  pub steps : List PlaybookStepDef
  pub description : String

pub record StepRun : Type 0 where
  pub step_id : String
  pub action_type : String
  pub status : StepStatus
  pub attempts : ℕ
  pub outputs : Doc
  pub error : Option String
  pub rollback_hook : Option String

pub record PlaybookRun : Type 0 where
  pub run_id : String
  pub playbook_id : String
  pub tenant_id : String
  pub status : String
  pub dry_run : Bool
  pub idempotency_key : String
  pub steps : List StepRun
  pub approval_required : List String
  pub started_at : String
  pub finished_at : Option String

abbrev pub step_def : String → String → ℕ → List String → ℕ → Option String → PlaybookStepDef
step_def id action_type tier depends_on retries rollback = record {
  id = id;
  action_type = action_type;
  depends_on = depends_on;
  tier = tier;
  retries = retries;
  params = [];
  rollback_action = rollback;
}

abbrev pub contain_host : PlaybookDef
contain_host = record {
  playbook_id = "pb.contain_host_t0";
  name = "Collect then plan isolate";
  description = "T0 collect processes, then T2 isolate (approval required when not dry-run).";
  steps =
      step_def "collect" "collect.windows.processes" 0 [] 1 none
      ∷ (step_def "isolate" "isolate.host" 2 ("collect" ∷ []) 0 (some "release.host") ∷ []);
}

abbrev pub enrich_only : PlaybookDef
enrich_only = record {
  playbook_id = "pb.enrich_only";
  name = "Read-only enrichment chain";
  description = "T0 DAG with two collect steps.";
  steps =
      step_def "a" "collect.windows.processes" 0 [] 0 none
      ∷ (step_def "b" "collect.windows.events" 0 ("a" ∷ []) 0 none ∷ []);
}

abbrev pub autopilot_investigate : PlaybookDef
autopilot_investigate = record {
  playbook_id = "pb.autopilot_investigate";
  name = "Blue Autopilot investigate";
  description =
      "Automated investigation DAG: collect auth + processes, then policy-gated contain suggestion.";
  steps =
      step_def "collect_auth" "collect.windows.auth_events" 0 [] 1 none
      ∷ (step_def "collect_procs" "collect.windows.processes" 0 ("collect_auth" ∷ []) 0 none
          ∷ (step_def "suggest_contain" "isolate.host" 2 ("collect_procs" ∷ []) 0
                (some "release.host")
              ∷ []));
}

abbrev pub catalogue : List (String × PlaybookDef)
catalogue =
    ("pb.contain_host_t0", contain_host)
    ∷ (("pb.enrich_only", enrich_only) ∷ (("pb.autopilot_investigate", autopilot_investigate) ∷ []))

abbrev found_or_404 : Option PlaybookDef → Result PlaybookDef
found_or_404 none = err (blue_team_error "UNKNOWN_PLAYBOOK" "Playbook not found" 404)
found_or_404 (some p) = ok p

-- The message leaves out the identifier.
unfoldable pub get_playbook : String → Result PlaybookDef
get_playbook playbook_id = found_or_404 (lookup playbook_id catalogue)
