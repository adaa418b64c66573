-- ===== src/Value.antt =====
-- The values of the program's dict[str, Any] payloads, and the built-in conversions that the source
-- applies to them: bool(), int(), float(), str(). A finite float is its value in millionths, which
-- is exact for the constants that the program compares with. What Python's runtime does with a text is in
-- `Runtime`.
use blue_team_os.Prelude.{
  ℕ, ◌-◌, ltb, ◌*◌, ◌/◌, ◌+◌, String, Bool, true, false, not, Option, none, some, List, [], ◌∷◌,
  ◌==◌, eqb, if◌then◌else◌, lookup,
}
use Prim.Native.Nat.{◌^◌}
use blue_team_os.Errors.{Result, ok, err, value_error, type_error, overflow_error}

-- `negsuc n` is -(n + 1).
pub data ℤ : Type 0 where
  pos : ℕ → ℤ
  negsuc : ℕ → ℤ

-- JSON's reader in Python gives the infinities and the nan too.
pub data Float : Type 0 where
  finite : (millionths : ℤ) → Float
  infinite : (negative : Bool) → Float
  nan : Float

mutual
  pub data Value : Type 0 where
    null : Value
    boolean : Bool → Value
    int : ℤ → Value
    float : Float → Value
    text : String → Value
    arr : Items → Value
    obj : Fields → Value

  pub data Items : Type 0 where
    nil : Items
    item : Value → Items → Items

  pub data Fields : Type 0 where
    end : Fields
    field : String → Value → Fields → Fields

-- A dict[str, Any] in insertion order.
abbrev pub Doc : Type 0
Doc = List (String × Value)

abbrev pub fields : Fields → Doc
fields end = []
fields (field k v fs) = (k, v) ∷ fields fs

abbrev pub to_fields : Doc → Fields
to_fields [] = end
to_fields ((k, v) ∷ d) = field k v (to_fields d)

-- {…} and […] as values
abbrev pub dict : Doc → Value
dict d = obj (to_fields d)

abbrev pub items : Items → List Value
items nil = []
items (item v vs) = v ∷ items vs

abbrev pub to_items : List Value → Items
to_items [] = nil
to_items (v ∷ vs) = item v (to_items vs)

abbrev pub list_of : List Value → Value
list_of vs = arr (to_items vs)

abbrev pub optional : Option String → Value
optional none = null
optional (some s) = text s

-- d.get(key, default)
unfoldable pub get_or : Doc → String → Value → Value
unfolding lookup
get_or d key default = elim (lookup key d) [ none ↦ default | some v ↦ v ]

-- What Python's runtime reads from a text, or prints of a value that is no text. `none` is a
-- ValueError.
pub record Runtime : Type 0 where
  pub repr : Value → String
  pub int_of_text : String → Option ℤ
  pub float_of_text : String → Option Float

abbrev is_zero : ℤ → Bool
is_zero (pos n) = eqb n 0
is_zero (negsuc n) = false

-- The least number that float() does not convert.
abbrev beyond_floats : ℕ
beyond_floats = 2 ^ 1024 - 2 ^ 970

abbrev is_small : ℤ → Bool
is_small (pos n) = ltb n beyond_floats
is_small (negsuc n) = ltb (n + 1) beyond_floats

abbrev is_zero_float : Float → Bool
is_zero_float (finite n) = is_zero n
is_zero_float _ = false

-- bool(v)
unfoldable pub truthy : Value → Bool
truthy null = false
truthy (boolean b) = b
truthy (int n) = not (is_zero n)
truthy (float x) = not (is_zero_float x)
truthy (text s) = not (s == "")
truthy (arr nil) = false
truthy (arr (item v vs)) = true
truthy (obj end) = false
truthy (obj (field k v fs)) = true

abbrev pub of_bool : Bool → ℕ
of_bool b = if b then 1 else 0

-- Python truncates towards zero.
abbrev pub truncate : ℤ → ℤ
truncate (pos n) = pos (n / 1000000)
truncate (negsuc n) = elim ((n + 1) / 1000000) [ ℕ.zero ↦ pos 0 | ℕ.suc k ↦ negsuc k ]

abbrev scale : ℤ → ℤ
scale (pos n) = pos (n * 1000000)
scale (negsuc n) = negsuc (n * 1000000 + 999999)

abbrev to_double : ℤ → Result Float
to_double n =
    if is_small n
    then ok (finite (scale n))
    else err (overflow_error "int too large to convert to float")

abbrev pub truncate_float : Float → Result ℤ
truncate_float (finite n) = ok (truncate n)
truncate_float (infinite negative) = err (overflow_error "cannot convert float infinity to integer")
truncate_float nan = err (value_error "cannot convert float NaN to integer")

abbrev pub or_value_error : {A : Type 0} → Option A → Result A
or_value_error none = err (value_error "invalid literal")
or_value_error (some n) = ok n

module _ (py : Runtime) where
  -- str(v)
  unfoldable pub to_str : Value → String
  to_str (text s) = s
  to_str v = py.repr v

  -- int(v)
  unfoldable pub to_int : Value → Result ℤ
  to_int (boolean b) = ok (pos (of_bool b))
  to_int (int n) = ok n
  to_int (float x) = truncate_float x
  to_int (text s) = or_value_error (py.int_of_text s)
  to_int v = err (type_error "int() argument")

  -- float(v)
  unfoldable pub to_float : Value → Result Float
  to_float (boolean b) = ok (finite (pos (of_bool b * 1000000)))
  to_float (int n) = to_double n
  to_float (float x) = ok x
  to_float (text s) = or_value_error (py.float_of_text s)
  to_float v = err (type_error "float() argument")
