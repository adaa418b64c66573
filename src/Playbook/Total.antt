-- ===== src/Playbook/Total.antt =====
-- `run` always returns or raises: the fuel of `execute` is enough.
use blue_team_os.Prelude.{
  ℕ, zero, suc, ◌≡◌, ◌<◌, refl, ◌⊎◌, inl, inr, String, Bool, true, false, Option, some, List, [],
  ◌∷◌, All, All-map, length, null, keys, mem_text, eq_refl, lookup, length-remove-le,
  length-remove-lt, if_ind, Bool-cases, Option-cases, arith,
}
use blue_team_os.Errors.{Error}
use blue_team_os.Playbook.Defs.{PlaybookStepDef, PlaybookDef}
use blue_team_os.Playbook.Run.{
  Executor, Progress, Outcome, proceed, halt, crash, taken, after_pass, one_pass, rounds, Engine,
  RunArgs, Ran, run_key, start, reused, execute, ran, run,
}
use blue_team_os.Playbook.Invariant.{Rule, Leaves, one_pass_keeps}

pub keys_present :
    (entries : List (String × PlaybookStepDef))
    → All (λ (e : String × PlaybookStepDef). mem_text e.0 (keys entries) ≡ true) entries
unfolding mem_text
keys_present [] = tt
keys_present ((key, step) ∷ rest) = (
  rw eq_refl refl,
  All-map (λ (e : String × PlaybookStepDef). mem_text e.0 (keys rest) ≡ true)
      (λ e h. ground (arith, h)) rest (keys_present rest),
)

module _ (executor : Executor) (show : Error → String) (dry_run : Bool)
    (approved : List String) where
  -- Until a step is taken `pending` is what it was, and from then on it is shorter.
  abbrev IsShrunk : List (String × PlaybookStepDef) → Progress → Type 0
  IsShrunk before s =
      ((s.progressed ≡ false) × (s.pending ≡ before)) ⊎ (length s.pending < length before)

  taken-IsShrunk :
      (before : List (String × PlaybookStepDef)) (id : String) (s : Progress)
      → mem_text id (keys before) ≡ true
      → IsShrunk before s
      → IsShrunk before (taken id s)
  taken-IsShrunk before id s m (inl (_, same)) = inr (rw same (length-remove-lt id before m))
  taken-IsShrunk before id s m (inr less) = inr (omega (arith, length-remove-le id s.pending))

  shrink_rule :
      (before : List (String × PlaybookStepDef))
      → Rule executor show dry_run approved
          (λ e. mem_text e.0 (keys before) ≡ true)
          (IsShrunk before)
          (IsShrunk before)
  shrink_rule before = record {
    take = λ id step s m h. taken-IsShrunk before id s m h;
    hold = λ id step s m h _. taken-IsShrunk before id s m h;
    refuse = λ id step s m h. taken-IsShrunk before id s m h;
    fail = λ id step tier s m h _ _ _. taken-IsShrunk before id s m h;
    succeed = λ id step tier s m h _ _ _. taken-IsShrunk before id s m h;
  }

  abbrev Returns : Option Outcome → Type 0
  Returns found = (o : Outcome) × (found ≡ some o)

  after_pass_total :
      (before : List (String × PlaybookStepDef)) (again : Progress → Option Outcome) (o : Outcome)
      → Leaves (IsShrunk before) (IsShrunk before) o
      → ((s : Progress) → length s.pending < length before → Returns (again s))
      → Returns (after_pass again o)
  after_pass_total before again (halt s) h k = (halt s, refl)
  after_pass_total before again (crash e s) h k = (crash e s, refl)
  after_pass_total before again (proceed s) (inr less) k = elim (Bool-cases s.progressed) [
    | inl e ↦ let (o, r) = k s less in (o, ground arith)
    | inr e ↦ (proceed s, ground arith)
  ]
  after_pass_total before again (proceed s) (inl (still, _)) k = (proceed s, ground arith)

  one_pass-IsShrunk :
      (s : Progress)
      → Leaves
          (IsShrunk s.pending)
          (IsShrunk s.pending)
          (one_pass executor show dry_run approved s.pending (record s { progressed = false }))
  one_pass-IsShrunk s =
      one_pass_keeps executor show dry_run approved _ _ _ (shrink_rule s.pending) s.pending
        (record s { progressed = false }) (keys_present s.pending) (keys_present s.pending)
        (inl (refl, refl))

  -- With more fuel than pending steps the loop ends.
  pub rounds_total :
      (fuel : ℕ) (s : Progress)
      → length s.pending < fuel
      → Returns (rounds executor show dry_run approved fuel s)
  unfolding rounds
  rounds_total zero s h = absurd (omega arith)
  rounds_total (suc fuel) s h =
      if_ind Returns (null s.pending) (some (proceed s)) _ (λ _. (proceed s, refl))
        λ _.
          after_pass_total s.pending (rounds executor show dry_run approved fuel)
            (one_pass executor show dry_run approved s.pending (record s { progressed = false }))
            (one_pass-IsShrunk s) (λ s' less. rounds_total fuel s' (omega (arith, less)))

pub execute_total :
    (executor : Executor) (show : Error → String) (playbook : PlaybookDef) (args : RunArgs)
    → (o : Outcome) × (execute executor show playbook args ≡ some o)
unfolding execute
execute_total executor show playbook args =
    rounds_total executor show args.dry_run args.approved_steps _ (start playbook) (omega arith)

-- `run` ends for every playbook, executor and engine: the fuel never runs out, also where the
-- dependencies form a cycle or name steps that are not there.
pub run_total :
    (executor : Executor) (show : Error → String) (engine : Engine) (playbook : PlaybookDef)
    (args : RunArgs)
    → (r : Ran) × (run executor show engine playbook args ≡ some r)
unfolding run
run_total executor show engine playbook args =
    elim (Option-cases (lookup (run_key playbook args) engine.by_idempotency)) [
      | inr (run_id, e) ↦ (reused engine run_id, rw (e, run))
      | inl e ↦
          let (o, p) = execute_total executor show playbook args in
          (ran executor show playbook args engine o, rw (e, p, run))
    ]
