-- ===== src/Broker/Safety.antt =====
-- What the command lines hold that `submit` runs, and what becomes of an action that writes.
use blue_team_os.Prelude.{
  ◌≡◌, refl, ◌⊎◌, inl, inr, String, Bool, true, false, ◌||◌, not, eq_refl, Option, none, some, List,
  [], ◌∷◌, ◌++◌, All, All-append, arith, mem_text, lookup, Bool-cases, Option-cases, if_ind,
  if◌then◌else◌,
}
use blue_team_os.Errors.{Result, ok, err, OnOk, OnOk-bind, OnOk-then}
use blue_team_os.Value.{Value, Doc, Runtime, to_int}
use blue_team_os.Policy.Outcome.{Decision, allow, deny, require_approval}
use blue_team_os.Broker.Registry.{ActionSpec, Language, powershell, bash}
use blue_team_os.Broker.Request.{
  ActionRequest, ActionResult, denied, awaiting_approval, Env, Arg, word, number, Command,
}
use blue_team_os.Broker.Execute.{
  Run, option_args, int_option, is_powershell, safe_command, powershell_command, bash_command,
  start, binary_of, plan_or_run_script, execute_language, execute, with_path, with_digest,
  with_binary,
}
use blue_team_os.Broker.{act_on, with_spec, act_if, is_forbidden, result_of, submit}

abbrev pub fixed_flags : List String
fixed_flags =
    "-NoProfile" ∷ "-NonInteractive" ∷ "-File" ∷ "-DryRun" ∷ "-Limit" ∷ "-MaxEvents" ∷ "--dry-run"
    ∷ "--limit" ∷ []

-- The texts that may stand in a command line: the interpreter, the registered script, fixed flags.
abbrev pub fixed_words : (binary script : String) → List String
fixed_words binary script = binary ∷ script ∷ fixed_flags

abbrev pub IsFixed : (binary script : String) → Arg → Type 0
IsFixed binary script (number n) = Unit
IsFixed binary script (word w) = mem_text w (fixed_words binary script) ≡ true

module _ (binary script : String) where
  binary-IsFixed : IsFixed binary script (word binary)
  unfolding mem_text
  binary-IsFixed = rw eq_refl

  script-IsFixed : IsFixed binary script (word script)
  unfolding mem_text
  script-IsFixed = ground (arith, eq_refl script)

  option_args-IsFixed :
      (py : Runtime) (flag : String) (found : Option Value)
      → IsFixed binary script (word flag)
      → OnOk (All (IsFixed binary script)) (option_args py flag found)
  option_args-IsFixed py flag none f = tt
  option_args-IsFixed py flag (some v) f =
      OnOk-bind (All (IsFixed binary script)) (to_int py v) _ (λ n _. (f, (tt, tt)))

  flag-IsFixed : (w : String) → mem_text w fixed_flags ≡ true → IsFixed binary script (word w)
  unfolding mem_text
  flag-IsFixed w h = ground arith

  dry_run-IsFixed :
      (dry : Bool) (flag : String)
      → mem_text flag fixed_flags ≡ true
      → All (IsFixed binary script) (if dry then word flag ∷ [] else [])
  dry_run-IsFixed true flag h = (flag-IsFixed flag h, tt)
  dry_run-IsFixed false flag h = tt

  powershell-IsFixed :
      (dry : Bool) (limit max_events : Command)
      → All (IsFixed binary script) limit
      → All (IsFixed binary script) max_events
      → All (IsFixed binary script) (
          word binary
          ∷ word "-NoProfile"
          ∷ word "-NonInteractive"
          ∷ word "-File"
          ∷ word script
          ∷ ((if dry then word "-DryRun" ∷ [] else []) ++ (limit ++ max_events)))
  unfolding mem_text
  powershell-IsFixed dry limit max_events l m = (
    binary-IsFixed,
    (
      flag-IsFixed "-NoProfile" refl,
      (
        flag-IsFixed "-NonInteractive" refl,
        (
          flag-IsFixed "-File" refl,
          (
            script-IsFixed,
            All-append (IsFixed binary script) _ _ (dry_run-IsFixed dry "-DryRun" refl)
                (All-append (IsFixed binary script) limit max_events l m),
          ),
        ),
      ),
    ),
  )

  bash-IsFixed :
      (dry : Bool) (limit : Command)
      → All (IsFixed binary script) limit
      → All
          (IsFixed binary script)
          (word binary ∷ word script ∷ ((if dry then word "--dry-run" ∷ [] else []) ++ limit))
  unfolding mem_text
  bash-IsFixed dry limit l = (
    binary-IsFixed,
    (
      script-IsFixed,
      All-append (IsFixed binary script) _ limit (dry_run-IsFixed dry "--dry-run" refl) l,
    ),
  )

  int_option-IsFixed :
      (py : Runtime) (params : Doc) (key flag : String)
      → mem_text flag fixed_flags ≡ true
      → OnOk (All (IsFixed binary script)) (int_option py params key flag)
  unfolding int_option
  int_option-IsFixed py params key flag h =
      option_args-IsFixed py flag (lookup key params) (flag-IsFixed flag h)

  powershell_command-IsFixed :
      (py : Runtime) (request : ActionRequest)
      → OnOk (All (IsFixed binary script)) (powershell_command py script binary request)
  unfolding powershell_command mem_text
  powershell_command-IsFixed py request =
      OnOk-then (All (IsFixed binary script)) (All (IsFixed binary script))
        (int_option py request.params "limit" "-Limit") _
        (int_option-IsFixed py request.params "limit" "-Limit" refl)
        λ limit l.
          OnOk-then (All (IsFixed binary script)) (All (IsFixed binary script))
            (int_option py request.params "max_events" "-MaxEvents") _
            (int_option-IsFixed py request.params "max_events" "-MaxEvents" refl)
            λ max_events m. powershell-IsFixed request.dry_run limit max_events l m

  bash_command-IsFixed :
      (py : Runtime) (request : ActionRequest)
      → OnOk (All (IsFixed binary script)) (bash_command py script binary request)
  unfolding bash_command mem_text
  bash_command-IsFixed py request =
      OnOk-then (All (IsFixed binary script)) (All (IsFixed binary script))
        (int_option py request.params "limit" "--limit") _
        (int_option-IsFixed py request.params "limit" "--limit" refl)
        λ limit l. bash-IsFixed request.dry_run limit l

  -- Whatever the parameters of the request, a command line holds fixed words and integers.
  safe_command-IsFixed :
      (py : Runtime) (spec : ActionSpec) (request : ActionRequest)
      → OnOk (All (IsFixed binary script)) (safe_command py spec script binary request)
  unfolding safe_command
  safe_command-IsFixed py spec request = elim (Bool-cases (is_powershell spec.language)) [
    | inl e ↦ rw e (powershell_command-IsFixed py request)
    | inr e ↦ rw e (bash_command-IsFixed py request)
  ]

-- A command line of `spec`: an interpreter that was found on the machine, the script that the
-- registry names, fixed flags, and integers.
abbrev pub IsCommandOf : Env → ActionSpec → Command → Type 0
IsCommandOf env spec cmd =
    (binary : String) × (script : String) × (binary_of env spec.language ≡ some binary)
    × (spec.script_path ≡ some script)
    × All (IsFixed binary script) cmd

abbrev pub IsHeld : ActionResult → Type 0
IsHeld r = (r.status ≡ denied) ⊎ (r.status ≡ awaiting_approval)

abbrev pub RunsNothing : Run ActionResult → Type 0
RunsNothing r = (r.commands ≡ []) × OnOk IsHeld r.result

module _ (env : Env) (request : ActionRequest) (spec : ActionSpec) where
  start-IsCommandOf :
      (doc : Doc) (binary script : String) (built : Result Command)
      → binary_of env spec.language ≡ some binary
      → spec.script_path ≡ some script
      → OnOk (All (IsFixed binary script)) built
      → All (IsCommandOf env spec) (start env doc built).commands
  start-IsCommandOf doc binary script (err e) b p h = tt
  start-IsCommandOf doc binary script (ok cmd) b p h = ((binary, script, b, p, h), tt)

  with_binary-IsCommandOf :
      (script : String) (doc : Doc) (found : Option String)
      → binary_of env spec.language ≡ found
      → spec.script_path ≡ some script
      → All (IsCommandOf env spec) (with_binary env request spec script doc found).commands
  with_binary-IsCommandOf script doc none b p = tt
  with_binary-IsCommandOf script doc (some binary) b p =
      if_ind (λ (r : Run Doc). All (IsCommandOf env spec) r.commands) request.dry_run _ _ (λ _. tt)
        λ _.
          start-IsCommandOf doc binary script _ b p
            (safe_command-IsFixed binary script env.py spec request)

  with_path-IsCommandOf :
      (path : Option String)
      → spec.script_path ≡ path
      → All (IsCommandOf env spec) (with_path env request spec path).commands
  with_path-IsCommandOf none p = tt
  with_path-IsCommandOf (some script) p = digest (env.machine.script_sha256 script)
    where
      digest :
          (d : Option String)
          → All (IsCommandOf env spec) (with_digest env request spec script d).commands
      digest none = tt
      digest (some d) = with_binary-IsCommandOf script _ _ refl p

  plan-IsCommandOf : All (IsCommandOf env spec) (plan_or_run_script env request spec).commands
  unfolding plan_or_run_script
  plan-IsCommandOf = with_path-IsCommandOf spec.script_path refl

  execute_language-IsCommandOf :
      (lang : Language)
      → All (IsCommandOf env spec) (execute_language env request spec lang).commands
  unfolding execute_language
  execute_language-IsCommandOf powershell = plan-IsCommandOf
  execute_language-IsCommandOf bash = plan-IsCommandOf
  execute_language-IsCommandOf _ = tt

  execute-IsCommandOf : All (IsCommandOf env spec) (execute env request spec).commands
  unfolding execute
  execute-IsCommandOf = elim (Option-cases (lookup spec.action_type env.handlers)) [
    | inl e ↦ rw (e, execute) (execute_language-IsCommandOf spec.language)
    | inr (f, e) ↦ rw (e, execute) tt
  ]

  act_on-IsCommandOf :
      (d : Decision) (reason : String)
      → All (IsCommandOf env spec) (act_on env request spec d reason).commands
  unfolding act_on
  act_on-IsCommandOf deny reason = tt
  act_on-IsCommandOf allow reason =
      if_ind (λ (r : Run ActionResult). All (IsCommandOf env spec) r.commands)
        (request.dry_run || spec.read_only) _ _ (λ _. execute-IsCommandOf) (λ _. tt)
  act_on-IsCommandOf require_approval reason =
      if_ind (λ (r : Run ActionResult). All (IsCommandOf env spec) r.commands) (not request.dry_run)
        _ _ (λ _. tt)
        λ _.
          if_ind (λ (r : Run ActionResult). All (IsCommandOf env spec) r.commands)
            (request.dry_run || spec.read_only) _ _ (λ _. execute-IsCommandOf) (λ _. tt)

  act_if-IsCommandOf :
      (r : Result (Decision × String))
      → All (IsCommandOf env spec) (act_if env request spec r).commands
  act_if-IsCommandOf (err e) = tt
  act_if-IsCommandOf (ok (d, reason)) = act_on-IsCommandOf d reason

  -- An action that writes and is no dry run ends without a run.
  act_on-write :
      (d : Decision) (reason : String)
      → spec.read_only ≡ false
      → request.dry_run ≡ false
      → RunsNothing (act_on env request spec d reason)
  unfolding act_on result_of
  act_on-write deny reason w n = (refl, inl refl)
  act_on-write allow reason w n = rw (w, n) (refl, inl refl)
  act_on-write require_approval reason w n = rw (w, n) (refl, inr refl)

  act_if-write :
      (r : Result (Decision × String))
      → spec.read_only ≡ false
      → request.dry_run ≡ false
      → RunsNothing (act_if env request spec r)
  act_if-write (err e) w n = (refl, tt)
  act_if-write (ok (d, reason)) w n = act_on-write d reason w n

module _ (env : Env) (registry : List (String × ActionSpec)) (request : ActionRequest)
    (spec : ActionSpec) (found : lookup request.action_type registry ≡ some spec) where
  -- Whatever the request holds, each command that `submit` runs for a registered action is an
  -- interpreter found on the machine, the script that the registry names, fixed flags and integers.
  pub submit-IsCommandOf : All (IsCommandOf env spec) (submit env registry request).commands
  unfolding submit
  submit-IsCommandOf =
      if_ind (λ (r : Run ActionResult). All (IsCommandOf env spec) r.commands)
        (is_forbidden request.action_type) _ _ (λ _. tt)
        λ _. rw (found, with_spec) (act_if-IsCommandOf env request spec _)

  -- A registered action that is not read-only and no dry run runs no command, and what `submit`
  -- returns for it is denied or awaits approval, whatever the policies and OPA say.
  pub submit-write :
      spec.read_only ≡ false → request.dry_run ≡ false → RunsNothing (submit env registry request)
  unfolding submit
  submit-write w n =
      if_ind RunsNothing (is_forbidden request.action_type) _ _ (λ _. (refl, tt))
        λ _. rw (found, with_spec) (act_if-write env request spec _ w n)
