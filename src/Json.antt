-- ===== src/Json.antt =====
-- The JSON values of the vendored library, as source/ARTestEngine.Core uses them: a parameter. The
-- library documents that a value is of exactly one of the kinds of `View`, that the members of an
-- object are in the order of their keys, and what its conversions answer.
use artest_cli.Base.{ℕ, ◌≡◌, refl, Bool, true, false, Option, none, some, List, [], String}
use artest_cli.Base.Int.{ℤ, pos, wrap, half_int, half_int64}
use artest_cli.Diagnostics.{Outcome, returned}
use artest_cli.Registry.Creators.{lookup}

-- `type()` with the value that it stores; `opaque` is a binary or a discarded value.
pub data View (V F : Type 0) : Type 0 where
  null opaque : View V F
  boolean : Bool → View V F
  signed : ℤ → View V F
  unsigned : ℕ → View V F
  float : F → View V F
  text : String → View V F
  array : List V → View V F
  object : List (String × V) → View V F

-- The integer that a value stores, if it stores one.
abbrev pub integer_of : {V F : Type 0} → View V F → Option ℤ
integer_of (signed z) = some z
integer_of (unsigned n) = some (pos n)
integer_of _ = none

-- The values, the comparisons `==`, `<` and `>`, and the conversions to a number. A conversion of an
-- integer to a signed type is a cast, which keeps the value modulo the number of values of the type;
-- one to an unsigned type is exact for the numbers that are not negative.
pub record Json : Type 1 where
  pub Value : Type 0
  pub Float : Type 0
  pub view : Value → View Value Float
  pub equal : Value → Value → Bool
  pub less : Value → Value → Bool
  pub greater : Value → Value → Bool
  pub utf8 : String → List ℕ
  pub get_size : Value → Outcome ℕ
  pub get_int : Value → Outcome ℤ
  pub get_int64 : Value → Outcome ℤ
  pub get_uint64 : Value → Outcome ℕ
  pub get_size_unsigned : (v : Value) (n : ℕ) → view v ≡ unsigned n → get_size v ≡ returned n
  pub get_size_signed : (v : Value) (n : ℕ) → view v ≡ signed (pos n) → get_size v ≡ returned n
  pub get_int_cast :
      (v : Value) (z : ℤ) → integer_of (view v) ≡ some z → get_int v ≡ returned (wrap half_int z)
  pub get_int64_cast :
      (v : Value) (z : ℤ)
      → integer_of (view v) ≡ some z
      → get_int64 v ≡ returned (wrap half_int64 z)

module _ {V F : Type 0} where
  abbrev pub is_object : View V F → Bool
  is_object (object ms) = true
  is_object _ = false

  abbrev pub is_array : View V F → Bool
  is_array (array xs) = true
  is_array _ = false

  abbrev pub is_string : View V F → Bool
  is_string (text s) = true
  is_string _ = false

  abbrev pub is_boolean : View V F → Bool
  is_boolean (boolean b) = true
  is_boolean _ = false

  abbrev pub is_null : View V F → Bool
  is_null null = true
  is_null _ = false

  abbrev pub is_number_unsigned : View V F → Bool
  is_number_unsigned (unsigned n) = true
  is_number_unsigned _ = false

  abbrev pub is_number_integer : View V F → Bool
  is_number_integer (signed z) = true
  is_number_integer (unsigned n) = true
  is_number_integer _ = false

  abbrev pub is_number : View V F → Bool
  is_number (float x) = true
  is_number (signed z) = true
  is_number (unsigned n) = true
  is_number _ = false

  -- `items()` of an object, the elements of an array, the text of a string.
  abbrev pub members : View V F → List (String × V)
  members (object ms) = ms
  members _ = []

  abbrev pub elements : View V F → List V
  elements (array xs) = xs
  elements _ = []

  abbrev pub text_of : View V F → Option String
  text_of (text s) = some s
  text_of _ = none

  -- `contains(key)` and `[key]` of an object.
  abbrev pub member : String → View V F → Option V
  member key v = lookup key (members v)

pub integer_of-some :
    {V F : Type 0} (x : View V F) (z : ℤ) → integer_of x ≡ some z → is_number_integer x ≡ true
integer_of-some (signed y) z e = refl
integer_of-some (unsigned n) z e = refl
integer_of-some null z e = cc
integer_of-some opaque z e = cc
integer_of-some (boolean b) z e = cc
integer_of-some (float f) z e = cc
integer_of-some (text s) z e = cc
integer_of-some (array xs) z e = cc
integer_of-some (object ms) z e = cc

pub is_number_integer_lem :
    {V F : Type 0} (x : View V F) → is_number_integer x ≡ true → (z : ℤ) × (integer_of x ≡ some z)
is_number_integer_lem (signed y) e = (y, refl)
is_number_integer_lem (unsigned n) e = (pos n, refl)
is_number_integer_lem null e = cc
is_number_integer_lem opaque e = cc
is_number_integer_lem (boolean b) e = cc
is_number_integer_lem (float f) e = cc
is_number_integer_lem (text s) e = cc
is_number_integer_lem (array xs) e = cc
is_number_integer_lem (object ms) e = cc
