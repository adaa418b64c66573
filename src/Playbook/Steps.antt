-- ===== src/Playbook/Steps.antt =====
-- The entries of `pending` at the start of a run.
use blue_team_os.Prelude.{
  ◌==◌, if_ind, All-both, ◌≡◌, refl, String, some, List, [], ◌∷◌, All, lookup, insert, IsDistinct,
  insert-IsDistinct, found_entries,
}
use blue_team_os.Playbook.Defs.{PlaybookStepDef}
use blue_team_os.Playbook.Run.{fill, pending_of}

fill-IsDistinct :
    (steps : List PlaybookStepDef) (dict : List (String × PlaybookStepDef))
    → IsDistinct dict
    → IsDistinct (fill steps dict)
fill-IsDistinct [] dict h = h
fill-IsDistinct (step ∷ rest) dict h =
    fill-IsDistinct rest (insert step.id step dict) (insert-IsDistinct step.id step dict h)

pub pending_of-IsDistinct : (steps : List PlaybookStepDef) → IsDistinct (pending_of steps)
unfolding pending_of
pending_of-IsDistinct steps = fill-IsDistinct steps [] tt

-- The step that a playbook has under an identifier.
abbrev pub IsStep : List PlaybookStepDef → String × PlaybookStepDef → Type 0
IsStep steps (id, step) = (lookup id (pending_of steps) ≡ some step) × (step.id ≡ id)

insert_named :
    (step : PlaybookStepDef) (dict : List (String × PlaybookStepDef))
    → All (λ (e : String × PlaybookStepDef). e.1.id ≡ e.0) dict
    → All (λ (e : String × PlaybookStepDef). e.1.id ≡ e.0) (insert step.id step dict)
unfolding insert
insert_named step [] h = (refl, tt)
insert_named step ((key, old) ∷ dict) h =
    if_ind (All (λ (e : String × PlaybookStepDef). e.1.id ≡ e.0)) (key == step.id) _ _
      (λ _. (refl, h.1)) (λ _. (h.0, insert_named step dict h.1))

fill_named :
    (steps : List PlaybookStepDef) (dict : List (String × PlaybookStepDef))
    → All (λ (e : String × PlaybookStepDef). e.1.id ≡ e.0) dict
    → All (λ (e : String × PlaybookStepDef). e.1.id ≡ e.0) (fill steps dict)
fill_named [] dict h = h
fill_named (step ∷ rest) dict h = fill_named rest _ (insert_named step dict h)

pub pending_of-IsStep : (steps : List PlaybookStepDef) → All (IsStep steps) (pending_of steps)
unfolding pending_of
pending_of-IsStep steps =
    All-both _ _ _ (found_entries _ (pending_of-IsDistinct steps)) (fill_named steps [] tt)
