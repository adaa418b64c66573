-- ===== src/Playbook/Reuse.antt =====
-- A second call of `run` with the key of a first one.
use blue_team_os.Prelude.{
  some_injective, lookup-insert_same, not, null, ◌≡◌, refl, ◌∙◌, sym, ap, String, Bool, true, false,
  Option, none, some, [], lookup, if◌then◌else◌, subst,
}
use blue_team_os.Errors.{ok_injective, Error, ok}
use blue_team_os.Playbook.Defs.{PlaybookDef, PlaybookRun}
use blue_team_os.Playbook.Run.{
  Executor, Engine, RunArgs, Ran, Outcome, proceed, halt, crash, run_key, finished, conclude, store,
  store_result, execute, run, ran, reused, known_run,
}

-- The engine answers the key with the run `r`.
abbrev pub Answers : Engine → String → PlaybookRun → Type 0
Answers engine key r =
    (id : String) × (lookup key engine.by_idempotency ≡ some id) × (lookup id engine.runs ≡ some r)

conclude_key :
    (playbook : PlaybookDef) (args : RunArgs) (o : Outcome) (r : PlaybookRun)
    → conclude playbook args o ≡ ok r
    → r.idempotency_key ≡ run_key playbook args
unfolding conclude finished
conclude_key playbook args (crash e s) r h = cc h
conclude_key playbook args (halt s) r h = sym (ap (λ x. x.idempotency_key) (ok_injective h))
conclude_key playbook args (proceed s) r h =
    subst (λ x. x.idempotency_key ≡ run_key playbook args) (ok_injective h)
      (ending _ _ _ (not (null s.approval_required)) (not (null s.pending)) refl refl refl)
  where
    ending :
        (x y z : PlaybookRun) (a p : Bool)
        → x.idempotency_key ≡ run_key playbook args
        → y.idempotency_key ≡ run_key playbook args
        → z.idempotency_key ≡ run_key playbook args
        → (if a then x else if p then y else z).idempotency_key ≡ run_key playbook args
    ending x y z true p ex ey ez = ex
    ending x y z false true ex ey ez = ey
    ending x y z false false ex ey ez = ez

store-Answers : (r : PlaybookRun) (engine : Engine) → Answers (store r engine) r.idempotency_key r
unfolding store
store-Answers r engine =
    (r.run_id, lookup-insert_same r.idempotency_key r.run_id _, lookup-insert_same r.run_id r _)

reused-Answers :
    (engine : Engine) (key id : String) (first : Ran) (r : PlaybookRun)
    → lookup key engine.by_idempotency ≡ some id
    → some (reused engine id) ≡ some first
    → first.result ≡ ok r
    → Answers first.engine key r
reused-Answers engine key id first r known same got =
    subst (λ f. Answers f.engine key r) (some_injective same)
      (id, known, is_known _ (ap (λ f. f.result) (some_injective same) ∙ got))
  where
    is_known : (o : Option PlaybookRun) → known_run o ≡ ok r → o ≡ some r
    is_known none h = absurd cc
    is_known (some x) h = ap some (ok_injective h)

ran-Answers :
    (executor : Executor) (show : Error → String) (playbook : PlaybookDef) (args : RunArgs)
    (engine : Engine) (end : Option Outcome) (first : Ran) (r : PlaybookRun)
    → (elim end [ none ↦ none | some o ↦ some (ran executor show playbook args engine o) ])
      ≡ some first
    → first.result ≡ ok r
    → Answers first.engine (run_key playbook args) r
ran-Answers executor show playbook args engine none first r h got = absurd cc
ran-Answers executor show playbook args engine (some o) first r h got =
    subst (λ f. Answers f.engine (run_key playbook args) r) (some_injective h)
      (subst (λ c. Answers (store_result c engine) (run_key playbook args) r) (sym concluded)
        (subst (λ k. Answers (store r engine) k r) (conclude_key playbook args o r concluded)
          (store-Answers r engine)))
  where
    concluded : conclude playbook args o ≡ ok r
    concluded = ap (λ f. f.result) (some_injective h) ∙ got

-- A call of `run` that returns a run leaves an engine that answers the call's key with it.
run-Answers :
    (executor : Executor) (show : Error → String) (engine : Engine) (playbook : PlaybookDef)
    (args : RunArgs) (first : Ran) (r : PlaybookRun)
    → run executor show engine playbook args ≡ some first
    → first.result ≡ ok r
    → Answers first.engine (run_key playbook args) r
unfolding run
run-Answers executor show engine playbook args first r h got =
    by_key (lookup (run_key playbook args) engine.by_idempotency) refl h
  where
    by_key :
        (o : Option String)
        → lookup (run_key playbook args) engine.by_idempotency ≡ o
        → (elim o [
          | some run_id ↦ some (reused engine run_id)
          | none ↦ elim (execute executor show playbook args) [
            | none ↦ none
            | some o ↦ some (ran executor show playbook args engine o)
          ]
        ])
          ≡ some first
        → Answers first.engine (run_key playbook args) r
    by_key (some id) known h = reused-Answers engine _ id first r known h got
    by_key none unknown h = ran-Answers executor show playbook args engine _ first r h got

run_known :
    (executor : Executor) (show : Error → String) (engine : Engine) (playbook : PlaybookDef)
    (args : RunArgs) (r : PlaybookRun)
    → Answers engine (run_key playbook args) r
    → run executor show engine playbook args
      ≡ some (record { result = ok r; engine = engine; calls = [] })
unfolding run
run_known executor show engine playbook args r (id, known, stored) =
    rw (known, run) (rw stored refl)

-- Once `run` has returned a run, a call of `run` with the same key, by any executor and with any other
-- arguments, returns that run, makes no call of the executor and leaves the engine as it is.
pub run-run :
    (executor executor' : Executor) (show show' : Error → String) (engine : Engine)
    (playbook playbook' : PlaybookDef) (args args' : RunArgs) (first : Ran) (r : PlaybookRun)
    → run executor show engine playbook args ≡ some first
    → first.result ≡ ok r
    → run_key playbook' args' ≡ run_key playbook args
    → run executor' show' first.engine playbook' args'
      ≡ some (record { result = ok r; engine = first.engine; calls = [] })
run-run executor executor' show show' engine playbook playbook' args args' first r h got same =
    run_known executor' show' first.engine playbook' args' r (
      subst (λ k. Answers first.engine k r) (sym same)
        (run-Answers executor show engine playbook args first r h got))
