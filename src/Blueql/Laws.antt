-- ===== src/Blueql/Laws.antt =====
-- packages/blueql/blueteam_blueql/engine.py: the membership test of a query against comparisons.
use blue_team_os.Prelude.{◌≡◌, refl, sym, arith, String, List, [], ◌∷◌, any}
use blue_team_os.Errors.{Error, Result, ok, err}
use blue_team_os.Value.{Value, Runtime}
use blue_team_os.Event.{CanonicalEvent}
use blue_team_os.Blueql.{Pred, Op, disj, is_in, cmp, field_value, same, compare, eval_pred}

-- field = first or field = second or ...
unfoldable pub one_of : (field : String) → (first : Value) → List Value → Pred
one_of field first [] = cmp field Op.eq first
one_of field first (second ∷ more) = disj (cmp field Op.eq first) (one_of field second more)

module _ (py : Runtime) (event : CanonicalEvent) where
  one_of-fails :
      (field : String) (first : Value) (more : List Value) (exc : Error)
      → field_value event field ≡ err exc
      → eval_pred py (one_of field first more) event ≡ err exc
  unfolding one_of eval_pred
  one_of-fails field first [] exc unknown = rw unknown refl
  one_of-fails field first (second ∷ more) exc unknown = rw unknown refl

  one_of-any :
      (field : String) (first : Value) (more : List Value) (observed : Value)
      → field_value event field ≡ ok observed
      → eval_pred py (one_of field first more) event ≡ ok (any (same py observed) (first ∷ more))
  unfolding one_of eval_pred compare
  one_of-any field first [] observed known = rw known (ground arith)
  one_of-any field first (second ∷ more) observed known =
      rw known (rw (one_of-any field second more observed known) (ground arith))

  is_in-cases :
      (field : String) (first : Value) (more : List Value) (found : Result Value)
      → field_value event field ≡ found
      → eval_pred py (is_in field (first ∷ more)) event
        ≡ eval_pred py (one_of field first more) event
  unfolding eval_pred
  is_in-cases field first more (err exc) e = rw e (sym (one_of-fails field first more exc e))
  is_in-cases field first more (ok observed) e = rw e (sym (one_of-any field first more observed e))

  -- Testing whether a field is in a non-empty list of literals gives the same result as the
  -- disjunction of the equality comparisons of the field with each literal, for every event and
  -- also where the field is unknown.
  pub is_in-one_of :
      (field : String) (first : Value) (more : List Value)
      → eval_pred py (is_in field (first ∷ more)) event
        ≡ eval_pred py (one_of field first more) event
  is_in-one_of field first more = is_in-cases field first more (field_value event field) refl
