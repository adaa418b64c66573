-- ===== src/Prelude/Text.antt =====
-- Texts: membership in a list of texts, lower case of ASCII letters, and dictionaries with text keys
-- as association lists in insertion order, which is the order in which Python iterates them.
use Prim.Native.Nat.{ℕ, zero, suc, ◌+◌, ◌-◌}
use Prim.Native.Char.{Char, code, nul}
use Prim.Native.String.{String, ◌++◌ as text_append}
use Prim.Native.String.append
use mathlib.Core.Path.{◌≡◌, refl, subst}
use mathlib.Core.Logic.{inl, inr}
use mathlib.Core.Bool.{Bool, true, false, ◌&&◌, ◌||◌}
use mathlib.Core.Option.{Option, none, some}
use mathlib.Core.List.{List, [], ◌∷◌, map}
use native.Mathlib.Omega.{arith}
use text.Mathlib.Text.{◌==◌, find?}
use text.Mathlib.TextEquality.{eq_iff}
use blue_team_os.Prelude.Lists.{All}
use blue_team_os.Prelude.Tests.{leb, eqb, if◌then◌else◌, Bool-cases}

-- s in names
unfoldable pub mem_text : String → List String → Bool
mem_text s [] = false
mem_text s (t ∷ ts) = s == t || mem_text s ts

abbrev pub codes : String → List ℕ
codes String.[] = []
codes (String.◌∷◌ c s) = code c ∷ codes s

abbrev pub same_codes : List ℕ → List ℕ → Bool
same_codes [] [] = true
same_codes (x ∷ xs) (y ∷ ys) = eqb x y && same_codes xs ys
same_codes _ _ = false

abbrev pub lower_code : ℕ → ℕ
lower_code c = if leb b'A' c && leb c b'Z' then c + 32 else c

-- s.lower() == t, for ASCII texts.
unfoldable pub lower_is : String → String → Bool
lower_is s t = same_codes (map lower_code (codes s)) (codes t)

module _ {ℓ} {V : Type ℓ} where
  abbrev pub keys : List (String × V) → List String
  keys [] = []
  keys ((key, val) ∷ dict) = key ∷ keys dict

  abbrev pub values : List (String × V) → List V
  values [] = []
  values ((key, val) ∷ dict) = val ∷ values dict

  -- dict.pop(key, None)
  unfoldable pub remove : String → List (String × V) → List (String × V)
  remove key [] = []
  remove key ((key', val) ∷ dict) =
      let others = remove key dict in if key' == key then others else (key', val) ∷ others

  -- dict.get(key)
  unfoldable pub lookup : String → List (String × V) → Option V
  lookup key [] = none
  lookup key ((key', val) ∷ dict) =
      let later = lookup key dict in if key' == key then some val else later

  -- dict[key] = val
  unfoldable pub insert : String → V → List (String × V) → List (String × V)
  insert key val [] = (key, val) ∷ []
  insert key val ((key', old) ∷ dict) =
      let others = insert key val dict in
      if key' == key then (key, val) ∷ dict else (key', old) ∷ others

  pub lookup-remove :
      (key other : String) (dict : List (String × V))
      → lookup other (remove key dict) ≡ (if key == other then none else lookup other dict)
  unfolding remove lookup
  lookup-remove key other [] = ground arith
  lookup-remove key other ((key', val) ∷ dict) =
      ground
        (arith, eq_iff key' other, eq_iff key other, eq_iff key' key, lookup-remove key other dict)

  pub lookup-insert :
      (key other : String) (val : V) (dict : List (String × V))
      → lookup other (insert key val dict) ≡ (if key == other then some val else lookup other dict)
  unfolding insert lookup
  lookup-insert key other val [] = refl
  lookup-insert key other val ((key', old) ∷ dict) = ground (
    arith,
    eq_iff key' other,
    eq_iff key other,
    eq_iff key' key,
    lookup-insert key other val dict,
  )

  -- What holds of every entry holds of what a lookup finds.
  pub lookup-All {κ} :
      (P : String × V → Type κ) (key : String) {val : V} (dict : List (String × V))
      → All P dict
      → lookup key dict ≡ some val
      → P (key, val)
  unfolding lookup
  lookup-All P key [] h e = cc
  lookup-All P key {val} ((key', old) ∷ dict) h e = elim (Bool-cases (key' == key)) [
    | inl same ↦ let p : (key', old) ≡ (key, val) = ground (arith, eq_iff key' key) in subst P p h.0
    | inr differs ↦ lookup-All P key dict h.1 (ground arith)
  ]

abbrev letter_at : ℕ → String → Char
letter_at n String.[] = nul
letter_at zero (String.◌∷◌ c s) = c
letter_at (suc n) (String.◌∷◌ c s) = letter_at n s

abbrev lower_char : Char → Char
lower_char c =
    if leb b'A' (code c) && leb (code c) b'Z'
    then letter_at (code c - b'A') "abcdefghijklmnopqrstuvwxyz"
    else c

-- s.lower(), for ASCII texts.
unfoldable pub lower : String → String
lower String.[] = String.[]
lower (String.◌∷◌ c s) = String.◌∷◌ (lower_char c) (lower s)

abbrev is_space : Char → Bool
is_space c =
    eqb (code c) 32 || ((leb 9 (code c) && leb (code c) 13) || (leb 28 (code c) && leb (code c) 31))

abbrev lstrip : String → String
lstrip String.[] = String.[]
lstrip (String.◌∷◌ c s) = let rest = lstrip s in if is_space c then rest else String.◌∷◌ c s

abbrev rstrip : String → String
rstrip String.[] = String.[]
rstrip (String.◌∷◌ c s) =
    let rest = rstrip s in if is_space c && rest == "" then String.[] else String.◌∷◌ c rest

-- s.strip(), for ASCII texts.
unfoldable pub strip : String → String
strip s = rstrip (lstrip s)

-- part in s
unfoldable pub contains : String → String → Bool
contains part s = elim (find? s part) [ none ↦ false | some n ↦ true ]

-- text.split(prefix, 1)[1] where text starts with the prefix
unfoldable pub after : (prefix : String) → String → Option String
after String.[] s = some s
after (String.◌∷◌ p prefix) String.[] = none
after (String.◌∷◌ p prefix) (String.◌∷◌ c s) =
    let rest = after prefix s in if eqb (code p) (code c) then rest else none

eqb_refl : (n : ℕ) → eqb n n ≡ true
eqb_refl n = ground arith

pub after-text_append : (prefix s : String) → after prefix (text_append prefix s) ≡ some s
unfolding after
after-text_append String.[] s = rw append.nil refl
after-text_append (String.◌∷◌ p prefix) s =
    rw (append.cons, eqb_refl (code p)) (after-text_append prefix s)
