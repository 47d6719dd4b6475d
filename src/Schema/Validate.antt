-- ===== src/Schema/Validate.antt =====
-- `Validate` and `ValidateValue` of Catalog/SchemaValidator.h. An exception of a conversion leaves
-- them as `raised`.
use artest_cli.Base.{
  ℕ, zero, suc, ◌/◌, Bool, true, false, not, ◌&&◌, ◌||◌, Option, none, some, List, [], ◌∷◌, any,
  count, length, String, str_eq, ◌⧺◌, ◌==◌, ltb, to_string, if◌then◌else◌,
}
use artest_cli.Diagnostics.{OperationResult, Outcome, returned, raised, succeeded, success, failure}
use artest_cli.Json.{
  Json, View, boolean, text, array, object, is_object, is_array, is_string, is_boolean, is_null,
  is_number, is_number_integer, elements, text_of,
}
use artest_cli.Registry.Creators.{holds}
use artest_cli.Schema.Check.{property, declared_type, check, depth_limit}

-- One part of the validation after another: the first failure or exception is the answer.
infixr 5 ◌then◌
unfoldable pub ◌then◌ : Outcome OperationResult → Outcome OperationResult → Outcome OperationResult
raised what then next = raised what
returned r then next = if succeeded r then next else returned r

-- A test that may throw, with the failure that it means.
unfoldable pub unless : Outcome Bool → OperationResult → Outcome OperationResult
unless (raised what) r = raised what
unless (returned true) r = returned r
unless (returned false) r = returned success

-- The second test is made if the first one fails.
abbrev pub either : Outcome Bool → Outcome Bool → Outcome Bool
either (raised what) second = raised what
either (returned true) second = returned true
either (returned false) second = second

abbrev pub refuses_others : Outcome Bool → Outcome Bool
refuses_others (raised what) = raised what
refuses_others (returned b) = returned (not b)

module _ (j : Json) where
  open j use {Value, view, equal, less, greater, utf8, get_size}

  abbrev pub matches : String → Value → Bool
  matches type v =
      if str_eq type "object"
      then is_object (view v)
      else if str_eq type "array"
      then is_array (view v)
      else if str_eq type "string"
      then is_string (view v)
      else if str_eq type "integer"
      then is_number_integer (view v)
      else if str_eq type "number"
      then is_number (view v)
      else if str_eq type "boolean"
      then is_boolean (view v)
      else is_null (view v)

  abbrev pub is_listed : Option Value → Value → Bool
  is_listed none v = true
  is_listed (some e) v = any (λ item. equal item v) (elements (view e))

  -- `contains(key) && value < schema[key]` and the like.
  abbrev pub exceeds : (Value → Value → Bool) → Option Value → Value → Bool
  exceeds compare none v = false
  exceeds compare (some m) v = compare v m

  abbrev pub out_of_range : Value → Value → Bool
  out_of_range schema v =
      is_number (view v)
      && (exceeds less (property j "minimum" schema) v
          || exceeds greater (property j "maximum" schema) v)

  -- Bytes that do not continue a character: `(byte & 0xc0) != 0x80`.
  abbrev pub characters : String → ℕ
  characters s = count (λ byte. not (byte / 64 == 2)) (utf8 s)

  -- The size that the bounds are for, with the names of the bounds.
  abbrev pub sized : View Value j.Float → Option (ℕ × String × String)
  sized (text s) = some (characters s, "minLength", "maxLength")
  sized (array xs) = some (length xs, "minItems", "maxItems")
  sized _ = none

  -- `contains(key) && compare(size, schema[key].get<size_t>())`.
  abbrev pub size_exceeds : (ℕ → ℕ → Bool) → Option Value → ℕ → Outcome Bool
  size_exceeds compare none n = returned false
  size_exceeds compare (some m) n = elim (get_size m) [
    | raised what ↦ raised what
    | returned k ↦ returned (compare n k)
  ]

  unfoldable pub validate_size : Value → Value → String → Outcome OperationResult
  validate_size schema v path = elim (sized (view v)) [
    | none ↦ returned success
    | some (size, minimum, maximum) ↦
        unless
          (either (size_exceeds ltb (property j minimum schema) size)
            (size_exceeds (λ a b. ltb b a) (property j maximum schema) size))
          (failure "PARAMETER_SIZE_INVALID" "Value has an invalid length." path)
  ]

  -- The loop over the required names.
  unfoldable pub validate_required :
      List (String × Value) → String → List Value → Outcome OperationResult
  validate_required ms path [] = returned success
  validate_required ms path (r ∷ rs) = elim (text_of (view r)) [
    | none ↦ raised (some "type_error")
    | some name ↦
        unless (returned (not (holds name ms)))
          (failure "PARAMETER_REQUIRED" "Required property is missing." (path ⧺ "/" ⧺ name))
        then validate_required ms path rs
  ]

  -- `schema.value("additionalProperties", true)`.
  abbrev pub allows_others : Value → Outcome Bool
  allows_others schema = elim (property j "additionalProperties" schema) [
    | none ↦ returned true
    | some a ↦ elim (view a) [ boolean b ↦ returned b | _ ↦ raised (some "type_error") ]
  ]

  -- The schema of a property.
  abbrev pub child : Value → String → Option Value
  child schema key = elim (property j "properties" schema) [
    | none ↦ none
    | some ps ↦ property j key ps
  ]

  -- The loop over the members; `validate` is the call for one level more.
  unfoldable pub validate_members :
      (Value → Value → String → Outcome OperationResult)
      → Value
      → String
      → List (String × Value)
      → Outcome OperationResult
  validate_members validate schema path [] = returned success
  validate_members validate schema path ((key, item) ∷ ms) =
      let here = path ⧺ "/" ⧺ key in
      elim (child schema key) [
        | some c ↦ validate c item here
        | none ↦
            unless (refuses_others (allows_others schema))
              (failure "PARAMETER_UNKNOWN" "Property is not declared by the schema." here)
      ]
      then validate_members validate schema path ms

  -- The loop over the elements, from an index on.
  unfoldable pub validate_elements :
      (Value → Value → String → Outcome OperationResult)
      → Value
      → String
      → ℕ
      → List Value
      → Outcome OperationResult
  validate_elements validate items path i [] = returned success
  validate_elements validate items path i (x ∷ xs) =
      validate items x (path ⧺ "/" ⧺ to_string i)
      then validate_elements validate items path (suc i) xs

  abbrev pub required_names : Value → List Value
  required_names schema = elim (property j "required" schema) [
    | none ↦ []
    | some rs ↦ elements (view rs)
  ]

  -- The part of `ValidateValue` for objects.
  unfoldable pub validate_object :
      (Value → Value → String → Outcome OperationResult)
      → Value
      → String
      → View Value j.Float
      → Outcome OperationResult
  validate_object validate schema path (object ms) =
      validate_required ms path (required_names schema)
      then validate_members validate schema path ms
  validate_object validate schema path _ = returned success

  -- The part of `ValidateValue` for arrays.
  unfoldable pub validate_array :
      (Value → Value → String → Outcome OperationResult)
      → Value
      → String
      → View Value j.Float
      → Outcome OperationResult
  validate_array validate schema path (array xs) = elim (property j "items" schema) [
    | none ↦ returned success
    | some items ↦ validate_elements validate items path 0 xs
  ]
  validate_array validate schema path _ = returned success

  -- The tests that read the value alone.
  unfoldable pub validate_scalar : String → Value → Value → String → Outcome OperationResult
  validate_scalar type schema v path =
      unless (returned (not (matches type v)))
        (failure "PARAMETER_TYPE_INVALID" ("Expected " ⧺ type ⧺ ".") path)
      then unless (returned (not (is_listed (property j "enum" schema) v)))
          (failure "PARAMETER_ENUM_INVALID" "Value is not an allowed enum member." path)
      then unless (returned (out_of_range schema v))
          (failure "PARAMETER_RANGE_INVALID" "Value is outside the declared range." path)
      then validate_size schema v path

  -- `ValidateValue` with a number of levels left.
  unfoldable pub validate_value : ℕ → Value → Value → String → Outcome OperationResult
  validate_value zero schema v path =
      returned (failure "PARAMETER_DEPTH_INVALID" "Parameter depth limit exceeded." path)
  validate_value (suc levels) schema v path = elim (declared_type j schema) [
    | none ↦ raised (some "out_of_range or type_error")
    | some type ↦
        validate_scalar type schema v path
        then validate_object (validate_value levels) schema path (view v)
        then validate_array (validate_value levels) schema path (view v)
  ]

  -- `Validate`.
  unfoldable pub validate : Value → Value → String → Outcome OperationResult
  validate schema v path =
      returned (check j depth_limit schema "schema") then validate_value depth_limit schema v path
