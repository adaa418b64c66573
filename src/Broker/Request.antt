-- ===== src/Broker/Request.antt =====
-- packages/schemas/blueteam_schemas/actions.py, and what the broker meets outside the program: the
-- machine on which it runs, the handlers that it was given, and the engines of the other packages.
use blue_team_os.Prelude.{ℕ, String, Bool, Option, none, some, List, ◌==◌, if◌then◌else◌}
use blue_team_os.Errors.{Error, Result, ok, err, value_error}
use blue_team_os.Value.{ℤ, Value, text, null, Doc, Runtime}
use blue_team_os.Policy.Outcome.{Decision}
use blue_team_os.Broker.Registry.{ActionSpec, Language}

pub record ActionRequest : Type 0 where
  pub action_id : String
  pub action_type : String
  pub tenant_id : String
  pub target : Doc
  pub params : Doc
  pub reason : String
  pub requested_by : String
  pub dry_run : Bool
  pub actor_roles : List String
  pub permissions : List String

pub data Status : Type 0 where
  planned denied awaiting_approval executed skipped failed verified : Status

pub record ActionResult : Type 0 where
  pub action_id : String
  pub action_type : String
  pub tenant_id : String
  pub policy_decision : Decision
  pub approval_status : Option String
  pub executor : Language
  pub rollback_available : Bool
  pub status : Status
  pub dry_run : Bool
  pub outputs : Doc
  pub skip_reason : Option String
  pub error : Option String
  pub completed_at : ℕ

-- One argument of a command line: a text, or `str(int(v))`.
pub data Arg : Type 0 where
  word : String → Arg
  number : ℤ → Arg

abbrev pub Command : Type 0
Command = List Arg

pub record Completed : Type 0 where
  pub returncode : ℤ
  pub stdout : String
  pub stderr : String

-- shutil.which, the SHA-256 of a script that exists, and subprocess.run, which may time out.
pub record Machine : Type 0 where
  pub which : String → Option String
  pub script_sha256 : String → Option String
  pub run : Command → Result Completed

pub record Env : Type 0 where
  pub py : Runtime
  pub machine : Machine
  pub handlers : List (String × (ActionRequest → ActionSpec → Result Doc))
  pub scan_b64 : Doc → Result Doc
  pub blueql_explain : String → Result Doc
  pub sql_describe : String → Result Doc
  pub opa : Option (Doc → Result Doc)
  pub show_error : Error → String
  pub new_id : String
  pub utcnow : ℕ

-- Pydantic's check of the field `status`.
unfoldable pub status_of : Value → Result Status
status_of (text s) =
    if s == "planned"
    then ok planned
    else if s == "denied"
    then ok denied
    else if s == "awaiting_approval"
    then ok awaiting_approval
    else if s == "executed"
    then ok executed
    else if s == "skipped"
    then ok skipped
    else if s == "failed"
    then ok failed
    else if s == "verified"
    then ok verified
    else err (value_error "status")
status_of v = err (value_error "status")

-- Pydantic's check of a field of type `str | None`.
unfoldable pub opt_text_of : Value → Result (Option String)
opt_text_of null = ok none
opt_text_of (text s) = ok (some s)
opt_text_of v = err (value_error "str")
