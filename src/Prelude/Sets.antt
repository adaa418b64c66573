-- ===== src/Prelude/Sets.antt =====
-- A set of texts as the sorted list of its members.
use Prim.Native.Nat.{ℕ}
use Prim.Native.String.{String}
use mathlib.Core.Bool.{Bool, true, false, ◌&&◌, ◌||◌}
use mathlib.Core.List.{List, [], ◌∷◌}
use text.Mathlib.Text.{◌==◌}
use blue_team_os.Prelude.Tests.{ltb, eqb, if◌then◌else◌}
use blue_team_os.Prelude.Text.{codes}

-- s < t for texts, by their code points.
abbrev code_less : List ℕ → List ℕ → Bool
code_less [] [] = false
code_less [] (y ∷ ys) = true
code_less (x ∷ xs) [] = false
code_less (x ∷ xs) (y ∷ ys) = ltb x y || (eqb x y && code_less xs ys)

abbrev place : String → List String → List String
place s [] = s ∷ []
place s (t ∷ ts) =
    let later = place s ts in
    if s == t then t ∷ ts else if code_less (codes s) (codes t) then s ∷ t ∷ ts else t ∷ later

-- sorted({…})
unfoldable pub sorted_set : List String → List String
sorted_set [] = []
sorted_set (s ∷ names) = place s (sorted_set names)

-- s < t
abbrev pub text_less : String → String → Bool
text_less s t = code_less (codes s) (codes t)
