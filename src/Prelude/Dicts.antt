-- ===== src/Prelude/Dicts.antt =====
-- Dictionaries whose keys are distinct, as those of the program are.
use Prim.Native.Nat.{◌≤◌, ◌<◌}
use Prim.Native.String.{String}
use mathlib.Core.Path.{◌∙◌, ◌≡◌, refl}
use mathlib.Core.Logic.{◌≢◌, inl, inr}
use mathlib.Core.Bool.{true, false, ◌||◌}
use mathlib.Core.Option.{some}
use mathlib.Core.List.{List, [], ◌∷◌, ◌++◌}
use native.Mathlib.Omega.{arith}
use text.Mathlib.Text.{◌==◌}
use text.Mathlib.TextEquality.{eq_iff}
use text.Mathlib.TextPositions.{eq_refl}
use blue_team_os.Prelude.Tests.{if◌then◌else◌, Bool-cases}
use blue_team_os.Prelude.Lists.{All, length}
use blue_team_os.Prelude.Text.{lookup-insert, mem_text, keys, lookup, insert, remove}

pub mem_text-append :
    (s : String) (xs ys : List String) → mem_text s (xs ++ ys) ≡ (mem_text s xs || mem_text s ys)
unfolding mem_text
mem_text-append s [] ys = refl
mem_text-append s (x ∷ xs) ys = ground (arith, mem_text-append s xs ys)

module _ {ℓ} {V : Type ℓ} where
  abbrev pub IsDistinct : List (String × V) → Type 0
  IsDistinct [] = Unit
  IsDistinct ((key, val) ∷ dict) = (mem_text key (keys dict) ≡ false) × IsDistinct dict

  mem_text-keys-insert :
      (s key : String) (val : V) (dict : List (String × V))
      → mem_text s (keys (insert key val dict)) ≡ (s == key || mem_text s (keys dict))
  unfolding mem_text insert
  mem_text-keys-insert s key val [] = refl
  mem_text-keys-insert s key val ((key', old) ∷ dict) =
      ground
        (arith, eq_iff key' key, eq_iff s key', eq_iff s key, mem_text-keys-insert s key val dict)

  pub insert-IsDistinct :
      (key : String) (val : V) (dict : List (String × V))
      → IsDistinct dict
      → IsDistinct (insert key val dict)
  unfolding insert mem_text
  insert-IsDistinct key val [] h = (refl, tt)
  insert-IsDistinct key val ((key', old) ∷ dict) h = elim (Bool-cases (key' == key)) [
    | inl same ↦ rw same (ground (arith, eq_iff key' key), h.1)
    | inr differs ↦ rw differs (
      ground (arith, eq_iff key' key, mem_text-keys-insert key' key val dict),
      insert-IsDistinct key val dict h.1,
    )
  ]

  key_differs :
      (key : String) (dict : List (String × V))
      → mem_text key (keys dict) ≡ false
      → All (λ (e : String × V). (key == e.0) ≡ false) dict
  unfolding mem_text
  key_differs key [] h = tt
  key_differs key ((key', val) ∷ dict) h = (ground arith, key_differs key dict (ground arith))

  All-found :
      (key : String) (val : V) (rest dict : List (String × V))
      → All (λ (e : String × V). (key == e.0) ≡ false) rest
      → All (λ (e : String × V). lookup e.0 dict ≡ some e.1) rest
      → All (λ (e : String × V). lookup e.0 ((key, val) ∷ dict) ≡ some e.1) rest
  unfolding lookup
  All-found key val [] dict d f = tt
  All-found key val ((key', old) ∷ rest) dict d f =
      (rw d.0 f.0, All-found key val rest dict d.1 f.1)

  -- Each entry is what a lookup of its key finds.
  pub found_entries :
      (dict : List (String × V))
      → IsDistinct dict
      → All (λ (e : String × V). lookup e.0 dict ≡ some e.1) dict
  unfolding lookup
  found_entries [] h = tt
  found_entries ((key, val) ∷ dict) h = (
    rw eq_refl refl,
    All-found key val dict dict (key_differs key dict h.0) (found_entries dict h.1),
  )

  pub length-remove-le :
      (key : String) (dict : List (String × V)) → length (remove key dict) ≤ length dict
  unfolding remove
  length-remove-le key [] = omega arith
  length-remove-le key ((key', val) ∷ dict) = ground (arith, length-remove-le key dict)

  -- A key that is there leaves.
  pub length-remove-lt :
      (key : String) (dict : List (String × V))
      → mem_text key (keys dict) ≡ true
      → length (remove key dict) < length dict
  unfolding remove mem_text
  length-remove-lt key [] h = cc
  length-remove-lt key ((key', val) ∷ dict) h = ground (
    arith,
    eq_iff key' key,
    eq_iff key key',
    length-remove-le key dict,
    length-remove-lt key dict,
  )

  pub mem_text_of_found :
      (key : String) (val : V) (dict : List (String × V))
      → lookup key dict ≡ some val
      → mem_text key (keys dict) ≡ true
  unfolding lookup mem_text
  mem_text_of_found key val [] h = cc
  mem_text_of_found key val ((key', old) ∷ dict) h =
      ground (arith, eq_iff key' key, eq_iff key key', mem_text_of_found key val dict)

  pub mem_text-keys-remove :
      (s key : String) (dict : List (String × V))
      → mem_text s (keys (remove key dict)) ≡ (if key == s then false else mem_text s (keys dict))
  unfolding mem_text remove
  mem_text-keys-remove s key [] = ground arith
  mem_text-keys-remove s key ((key', val) ∷ dict) =
      ground (arith, eq_iff key' key, eq_iff s key', eq_iff key s, mem_text-keys-remove s key dict)

pub lookup-insert_same {ℓ} :
    {V : Type ℓ} (key : String) (val : V) (dict : List (String × V))
    → lookup key (insert key val dict) ≡ some val
lookup-insert_same key val dict = lookup-insert key key val dict ∙ rw eq_refl refl

pub lookup-insert_other {ℓ} :
    {V : Type ℓ} (key other : String) (val : V) (dict : List (String × V))
    → (key == other) ≡ false
    → lookup other (insert key val dict) ≡ lookup other dict
lookup-insert_other key other val dict differs = lookup-insert key other val dict ∙ rw differs refl

pub text_differs : (a b : String) → (a == b) ≡ false → a ≢ b
text_differs a b h e = ground (arith, eq_iff a b)
