-- ===== src/Blueql.antt =====
-- packages/blueql/blueteam_blueql/engine.py: what the predicate of a parsed query selects. The predicates
-- are those that the parser builds; a comparison of values without an order is a TypeError.
pub mod Laws
pub mod Sequence
mod Tests
use blue_team_os.Prelude.{
  ◌+◌, ◌*◌, lookup, String, Bool, true, false, ◌&&◌, ◌||◌, not, Option, none, some, List, [], ◌∷◌,
  ◌==◌, any, ltb, eqb, lower, starts_with, if◌then◌else◌, text_less,
}
use blue_team_os.Errors.{Result, ok, err, ◌>>=◌, value_error, type_error}
use blue_team_os.Value.{
  ℤ, pos, negsuc, Float, finite, infinite, nan, Value, boolean, int, float, text, optional, Runtime,
  to_str,
}
use blue_team_os.Event.{CanonicalEvent}
use blue_team_os.Detection.Context.{name_of, outcome_of, same_option}
use blue_team_os.Detection.Rules.{or_text}

pub data Op : Type 0 where
  eq ne gt ge lt le : Op

-- The nodes "and", "or", "not", "in" and "cmp".
pub data Pred : Type 0 where
  conj disj : (left right : Pred) → Pred
  negate : Pred → Pred
  is_in : (field : String) → (literals : List Value) → Pred
  cmp : (field : String) → Op → (literal : Value) → Pred

abbrev is_login_event : CanonicalEvent → Bool
is_login_event event = event.category == "authentication"

abbrev is_external : Option String → Bool
is_external address =
    not (or_text address == "")
    && not (
        starts_with (or_text address) "10."
        || (starts_with (or_text address) "192.168." || starts_with (or_text address) "172."))

abbrev table : CanonicalEvent → List (String × Value)
table event =
    ("process.name", elim event.process [ none ↦ Value.null | some p ↦ optional p.name ])
    ∷ ("parent.name", elim event.parent_process [ none ↦ Value.null | some p ↦ optional p.name ])
    ∷ ("user.name", optional (name_of event.user))
    ∷ ("src_ip", optional event.src_ip)
    ∷ ("dst_ip", optional event.dst_ip)
    ∷ ("category", text event.category)
    ∷ ("event_type", text event.event_type)
    ∷ ("outcome", optional (outcome_of event.outcome))
    ∷ ("action", optional event.action)
    ∷ ("network.external", boolean (is_external event.dst_ip))
    ∷ (
      "auth.failures",
      int (
          pos (
            if is_login_event event && same_option (outcome_of event.outcome) "failure"
            then 1
            else 0)),
    )
    ∷ (
      "auth.success",
      boolean (is_login_event event && same_option (outcome_of event.outcome) "success"),
    )
    ∷ (
      "privilege.change",
      boolean (
          any (same_option event.action)
            ("add_to_group" ∷ "grant_role" ∷ "add_member" ∷ "elevate" ∷ [])),
    )
    ∷ []

unfoldable pub field_value : CanonicalEvent → (field : String) → Result Value
field_value event field = elim (lookup field (table event)) [
  | none ↦ err (value_error "unknown field")
  | some v ↦ ok v
]

-- expected in {True, "true"}
abbrev is_true_word : Value → Bool
is_true_word (boolean b) = b
is_true_word (text s) = s == "true"
is_true_word (int (pos n)) = eqb n 1
is_true_word (float (finite (pos n))) = eqb n 1000000
is_true_word _ = false

-- A number as a float.
abbrev number_of : Value → Option Float
number_of (boolean true) = some (finite (pos 1000000))
number_of (boolean false) = some (finite (pos 0))
number_of (int (pos n)) = some (finite (pos (n * 1000000)))
number_of (int (negsuc n)) = some (finite (negsuc (n * 1000000 + 999999)))
number_of (float x) = some x
number_of _ = none

abbrev less_int : ℤ → ℤ → Bool
less_int (pos m) (pos n) = ltb m n
less_int (pos m) (negsuc n) = false
less_int (negsuc m) (pos n) = true
less_int (negsuc m) (negsuc n) = ltb n m

-- No field and no literal is a nan.
abbrev less_float : Float → Float → Bool
less_float (finite m) (finite n) = less_int m n
less_float (finite m) (infinite negative) = not negative
less_float (infinite negative) (finite n) = negative
less_float (infinite a) (infinite b) = a && not b
less_float nan x = false
less_float x nan = false

abbrev less_numbers : Option Float → Option Float → Result Bool
less_numbers (some m) (some n) = ok (less_float m n)
less_numbers _ _ = err (type_error "not supported between instances")

-- a < b
abbrev less : Value → Value → Result Bool
less (text a) (text b) = ok (text_less a b)
less a b = less_numbers (number_of a) (number_of b)

abbrev inverted : Result Bool → Result Bool
inverted (ok b) = ok (not b)
inverted (err exc) = err exc

module _ (py : Runtime) where
  -- _compare(observed, "=", expected)
  unfoldable pub same : (observed expected : Value) → Bool
  same (boolean b) expected = if is_true_word expected then b else not b
  same observed expected = lower (to_str py observed) == lower (to_str py expected)

  abbrev ordered : (observed : Value) → Result Bool → Result Bool
  ordered Value.null result = ok false
  ordered _ result = result

  unfoldable pub compare : (observed : Value) → Op → (expected : Value) → Result Bool
  compare observed eq expected = ok (same observed expected)
  compare observed ne expected = ok (not (same observed expected))
  compare observed gt expected = ordered observed (less expected observed)
  compare observed ge expected = ordered observed (inverted (less observed expected))
  compare observed lt expected = ordered observed (less observed expected)
  compare observed le expected = ordered observed (inverted (less expected observed))

  unfoldable pub eval_pred : Pred → CanonicalEvent → Result Bool
  eval_pred (conj left right) event =
      let more = eval_pred right event in eval_pred left event >>= λ b. if b then more else ok false
  eval_pred (disj left right) event =
      let more = eval_pred right event in eval_pred left event >>= λ b. if b then ok true else more
  eval_pred (negate pred) event = inverted (eval_pred pred event)
  eval_pred (is_in field literals) event =
      field_value event field >>= λ observed. ok (any (same observed) literals)
  eval_pred (cmp field op literal) event =
      field_value event field >>= λ observed. compare observed op literal
