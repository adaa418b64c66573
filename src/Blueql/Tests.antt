-- ===== src/Blueql/Tests.antt =====
-- A query for two addresses, a sequence of failed logins, and the theorems at them.
use blue_team_os.Prelude.{◌≡◌, refl, true, lookup, lower, some, mem_text, [], ◌∷◌, none}
use blue_team_os.Errors.{ok}
use blue_team_os.Value.{Value, pos, Runtime, text, to_str}
use blue_team_os.Detection.Sample.{login}
use blue_team_os.Blueql.{is_in, Op, compare, eval_pred, field_value, same}
use blue_team_os.Blueql.Laws.{one_of, is_in-one_of}
use blue_team_os.Blueql.{Pred, cmp}
use blue_team_os.Blueql.Sequence.{IsChain, follow, scan, execute_sequence, collect, follow-IsChain}

abbrev is_login : Pred
is_login = cmp "auth.failures" Op.ge (Value.int (pos 1))

abbrev py : Runtime
py = record { repr = λ v. "repr"; int_of_text = λ s. none; float_of_text = λ s. none }

test-is_in :
    eval_pred py (is_in "category" (text "process" ∷ text "AUTHENTICATION" ∷ [])) (login 1)
    ≡ ok true
unfolding eval_pred field_value lookup same lower to_str
test-is_in = refl

is_in-one_of_example :
    eval_pred py (is_in "category" (text "process" ∷ text "AUTHENTICATION" ∷ [])) (login 1)
    ≡ eval_pred py (one_of "category" (text "process") (text "AUTHENTICATION" ∷ [])) (login 1)
is_in-one_of_example =
    is_in-one_of py (login 1) "category" (text "process") (text "AUTHENTICATION" ∷ [])

-- The two events of the chain have one id.
test-execute_sequence :
    execute_sequence py (some 5) is_login (is_login ∷ []) (login 9 ∷ login 2 ∷ login 5 ∷ [])
    ≡ ok (login 2 ∷ [])
unfolding execute_sequence collect follow scan eval_pred field_value lookup compare mem_text
test-execute_sequence = refl

follow-IsChain_example : IsChain py 5 (is_login ∷ is_login ∷ []) 1000000 (login 2 ∷ login 5 ∷ [])
unfolding follow scan eval_pred field_value lookup compare
follow-IsChain_example =
    follow-IsChain py 5 (is_login ∷ is_login ∷ []) 1000000 (login 2 ∷ login 5 ∷ []) refl
