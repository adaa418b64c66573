-- ===== src/Broker/Execute.antt =====
-- `_execute`, `_plan_or_run_script` and `_safe_command` of broker.py. Each returns the commands that
-- were run beside its result.
use Prim.Native.String.{count, ◌++◌ as text_append}
use blue_team_os.Prelude.{
  ℕ, zero, suc, ◌-◌, String, Bool, true, false, Option, none, some, List, [], ◌∷◌, ◌++◌,
  starts_with, if◌then◌else◌, lookup, insert,
}
use blue_team_os.Errors.{Result, ok, err, ◌>>=◌}
use blue_team_os.Value.{
  ℤ, Float, pos, Value, boolean, int, text, obj, Doc, to_fields, get_or, Runtime, truthy, to_str,
  to_int, to_float,
}
use blue_team_os.Policy.Outcome.{Decision, allow, deny, require_approval}
use blue_team_os.Policy.Rego.{PolicyResult, evaluate}
use blue_team_os.Broker.Registry.{
  ActionSpec, Language, powershell, bash, yara, blueql, sql, rego, python, go, rust, sigma, ebpf,
  cpp,
}
use blue_team_os.Broker.Request.{ActionRequest, word, number, Command, Completed, Env}

-- What an operation returns or raises, and the commands that it ran.
pub record Run {ℓ} (A : Type ℓ) : Type ℓ where
  pub result : Result A
  pub commands : List Command

abbrev pub no_command {ℓ} : {A : Type ℓ} → Result A → Run A
no_command r = record { result = r; commands = [] }

-- s[-n:]
abbrev drop_chars : ℕ → String → String
drop_chars zero s = s
drop_chars (suc n) String.[] = String.[]
drop_chars (suc n) (String.◌∷◌ c s) = drop_chars n s

unfoldable pub last_chars : ℕ → String → String
last_chars n s = drop_chars (count s - n) s

abbrev pub option_args : Runtime → String → Option Value → Result Command
option_args py flag none = ok []
option_args py flag (some v) = to_int py v >>= λ n. ok (word flag ∷ number n ∷ [])

-- if key in params: cmd.extend([flag, str(int(params[key]))])
unfoldable pub int_option : Runtime → Doc → String → String → Result Command
int_option py params key flag = option_args py flag (lookup key params)

abbrev pub is_powershell : Language → Bool
is_powershell powershell = true
is_powershell _ = false

unfoldable pub powershell_command : Runtime → String → String → ActionRequest → Result Command
powershell_command py script binary request = do
  limit ← int_option py request.params "limit" "-Limit"
  max_events ← int_option py request.params "max_events" "-MaxEvents"
  ok (
      word binary
      ∷ word "-NoProfile"
      ∷ word "-NonInteractive"
      ∷ word "-File"
      ∷ word script
      ∷ ((if request.dry_run then word "-DryRun" ∷ [] else []) ++ (limit ++ max_events)))

unfoldable pub bash_command : Runtime → String → String → ActionRequest → Result Command
bash_command py script binary request = do
  limit ← int_option py request.params "limit" "--limit"
  ok (
      word binary
      ∷ word script
      ∷ ((if request.dry_run then word "--dry-run" ∷ [] else []) ++ limit))

unfoldable pub safe_command :
    Runtime → ActionSpec → String → String → ActionRequest → Result Command
safe_command py spec script binary request =
    if is_powershell spec.language
    then powershell_command py script binary request
    else bash_command py script binary request

-- shutil.which(runtime) or shutil.which("powershell"), or shutil.which("bash")
abbrev or_which : Option String → Option String → Option String
or_which (some b) other = some b
or_which none other = other

unfoldable pub binary_of : Env → Language → Option String
binary_of env lang =
    if is_powershell lang
    then or_which (env.machine.which "pwsh") (env.machine.which "powershell")
    else env.machine.which "bash"

abbrev runtime_name : Language → String
runtime_name lang = if is_powershell lang then "pwsh" else "bash"

abbrev pub planned_doc : ActionSpec → String → String → ActionRequest → Doc
planned_doc spec script digest request =
    ("script", text script)
    ∷ (("script_sha256", text digest)
        ∷ (("runtime", text (runtime_name spec.language))
            ∷ (("args", obj (to_fields request.params))
                ∷ (("dry_run", boolean request.dry_run)
                    ∷ (("invoke_expression", boolean false)
                        ∷ (("arbitrary_shell", boolean false) ∷ []))))))

abbrev is_zero : ℤ → Bool
is_zero (pos zero) = true
is_zero _ = false

abbrev completed_doc : Doc → Completed → Doc
completed_doc planned done =
    insert "status" (text (if is_zero done.returncode then "executed" else "failed")) (
      insert "stderr" (text (last_chars 1000 done.stderr)) (
        insert "stdout" (text (last_chars 4000 done.stdout))
          (insert "exit_code" (int done.returncode) (insert "dry_run" (boolean false) planned))))

abbrev pub start : Env → Doc → Result Command → Run Doc
start env planned (err e) = no_command (err e)
start env planned (ok cmd) = record {
  result = (env.machine.run cmd >>= λ done. ok (completed_doc planned done));
  commands = cmd ∷ [];
}

abbrev pub with_binary : Env → ActionRequest → ActionSpec → String → Doc → Option String → Run Doc
with_binary env request spec script planned none = no_command (
    ok (
      insert "status" (text "skipped") (
        insert "skip_reason" (text (text_append (runtime_name spec.language) " not installed"))
          planned)))
with_binary env request spec script planned (some binary) =
    if request.dry_run
    then no_command (ok (insert "status" (text "planned") planned))
    else start env planned (safe_command env.py spec script binary request)

abbrev pub missing_doc : Doc
missing_doc = ("skip_reason", text "script missing") ∷ (("status", text "skipped") ∷ [])

abbrev pub with_digest : Env → ActionRequest → ActionSpec → String → Option String → Run Doc
with_digest env request spec script none = no_command (ok missing_doc)
with_digest env request spec script (some digest) =
    with_binary env request spec script (planned_doc spec script digest request)
      (binary_of env spec.language)

abbrev pub with_path : Env → ActionRequest → ActionSpec → Option String → Run Doc
with_path env request spec none = no_command (ok missing_doc)
with_path env request spec (some script) =
    with_digest env request spec script (env.machine.script_sha256 script)

unfoldable pub plan_or_run_script : Env → ActionRequest → ActionSpec → Run Doc
plan_or_run_script env request spec = with_path env request spec spec.script_path

abbrev decision_text : Decision → String
decision_text allow = "ALLOW"
decision_text deny = "DENY"
decision_text require_approval = "REQUIRE_APPROVAL"

-- PolicyResult.as_dict
unfoldable pub as_dict : PolicyResult → Doc
as_dict p =
    ("decision", text (decision_text p.decision))
    ∷ (("reason", text p.reason) ∷ (("policy", text p.policy) ∷ (("engine", text p.engine) ∷ [])))

unfoldable pub proposed_doc : Runtime → ActionRequest → Float → Doc
proposed_doc py request confidence =
    let proposed = to_str py (get_or request.params "proposed_action" (text "unknown")) in
    let isolates = to_str py (get_or request.params "proposed_action" (text "")) in
    (
      "action",
      obj (
          to_fields (
            ("type", text proposed)
            ∷ (("tier", int (pos (if starts_with isolates "isolate" then 2 else 0)))
                ∷ (("read_only", boolean false) ∷ (("dry_run", boolean request.dry_run) ∷ []))))),
    )
    ∷ (("environment", get_or request.params "environment" (text "unknown"))
        ∷ (("confidence", Value.float confidence)
            ∷ ((
              "auto_containment",
              boolean (truthy (get_or request.params "auto_containment" (boolean false))),
            )
                ∷ [])))

abbrev language_text : Language → String
language_text python = "python"
language_text powershell = "powershell"
language_text bash = "bash"
language_text go = "go"
language_text rust = "rust"
language_text sigma = "sigma"
language_text yara = "yara"
language_text sql = "sql"
language_text blueql = "blueql"
language_text rego = "rego"
language_text ebpf = "ebpf"
language_text cpp = "cpp"

-- The dispatch on the language, behind the handlers.
unfoldable pub execute_language : Env → ActionRequest → ActionSpec → Language → Run Doc
execute_language env request spec powershell = plan_or_run_script env request spec
execute_language env request spec bash = plan_or_run_script env request spec
execute_language env request spec yara = no_command (env.scan_b64 request.params)
execute_language env request spec blueql =
    no_command (env.blueql_explain (to_str env.py (get_or request.params "query" (text ""))))
execute_language env request spec sql =
    no_command (env.sql_describe (to_str env.py (get_or request.params "query_id" (text ""))))
execute_language env request spec rego = no_command (do
  confidence ← to_float env.py (get_or request.params "confidence" (int (pos 0)))
  p ← evaluate env.py env.opa env.show_error (proposed_doc env.py request confidence)
  ok (as_dict p))
execute_language env request spec lang =
    no_command (ok (("planned", boolean true) ∷ (("executor", text (language_text lang)) ∷ [])))

unfoldable pub execute : Env → ActionRequest → ActionSpec → Run Doc
execute env request spec = elim (lookup spec.action_type env.handlers) [
  | none ↦ execute_language env request spec spec.language
  | some handler ↦ no_command (handler request spec)
]
