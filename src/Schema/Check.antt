-- ===== src/Schema/Check.antt =====
-- `Check` of Catalog/SchemaValidator.h: the schemas that the profile allows.
use artest_cli.Base.{
  ℕ, zero, suc, Bool, true, false, not, ◌&&◌, ◌||◌, Option, none, some, List, [], ◌∷◌, any, String,
  str_eq, ◌⧺◌, if◌then◌else◌,
}
use artest_cli.Base.Int.{negsuc}
use artest_cli.Diagnostics.{OperationResult, succeeded, success, failure}
use artest_cli.Json.{
  Json, View, signed, array, is_object, is_array, is_string, is_boolean, is_number,
  is_number_integer, members, elements, member, text_of,
}
use artest_cli.Registry.Creators.{holds}

abbrev pub one_of : List String → String → Bool
one_of names s = any (λ n. str_eq n s) names

abbrev pub invalid : String → String → OperationResult
invalid message path = failure "SCHEMA_INVALID" message path

-- One check after another: the first failure is the answer.
infixr 5 ◌then_check◌
unfoldable pub ◌then_check◌ : OperationResult → OperationResult → OperationResult
r then_check next = if succeeded r then next else r

unfoldable pub require : Bool → OperationResult → OperationResult
require true r = success
require false r = r

abbrev pub keywords : List String
keywords =
    "$schema" ∷ "$id" ∷ "title" ∷ "description" ∷ "default" ∷ "type" ∷ "properties" ∷ "required"
    ∷ "additionalProperties" ∷ "minimum" ∷ "maximum" ∷ "minLength" ∷ "maxLength" ∷ "items"
    ∷ "minItems" ∷ "maxItems" ∷ "enum" ∷ []

abbrev pub annotations : List String
annotations = "$schema" ∷ "$id" ∷ "title" ∷ "description" ∷ []

abbrev pub type_names : List String
type_names = "object" ∷ "array" ∷ "string" ∷ "integer" ∷ "number" ∷ "boolean" ∷ "null" ∷ []

-- The depth 32 is the last one: the root has 33 levels.
abbrev pub depth_limit : ℕ
depth_limit = 33

module _ (j : Json) where
  open j use {Value, view}

  -- `contains(key)` and `[key]`.
  abbrev pub property : String → Value → Option Value
  property key v = member key (view v)

  unfoldable pub check_keywords : String → List (String × Value) → OperationResult
  check_keywords path [] = success
  check_keywords path ((key, value) ∷ ms) =
      require (one_of keywords key)
        (failure "SCHEMA_KEYWORD_UNSUPPORTED" ("Unsupported schema keyword: " ⧺ key) path)
      then_check require (not (one_of annotations key) || is_string (view value))
          (invalid "Schema annotations must be strings." (path ⧺ "/" ⧺ key))
      then_check check_keywords path ms

  -- `!schema.contains(key) || test(schema[key])`.
  abbrev pub absent_or : (Value → Bool) → Option Value → Bool
  absent_or test none = true
  absent_or test (some v) = test v

  abbrev pub is_nonempty_array : Value → Bool
  is_nonempty_array v = elim (view v) [ array (x ∷ xs) ↦ true | _ ↦ false ]

  -- `schema[key] < 0` of an integer.
  abbrev pub is_negative : View Value j.Float → Bool
  is_negative (signed (negsuc n)) = true
  is_negative _ = false

  abbrev pub is_size : Value → Bool
  is_size v = is_number_integer (view v) && not (is_negative (view v))

  unfoldable pub check_bounds : String → Value → String → List String → OperationResult
  check_bounds type schema path [] = success
  check_bounds type schema path (key ∷ keys) =
      require
        (absent_or (λ v. (str_eq type "number" || str_eq type "integer") && is_number (view v))
          (property key schema))
        (invalid "Numeric bounds require a numeric type and value." path)
      then_check check_bounds type schema path keys

  -- The size keywords, each with the type that it is for.
  unfoldable pub check_sizes : String → Value → String → List (String × String) → OperationResult
  check_sizes type schema path [] = success
  check_sizes type schema path ((key, kind) ∷ keys) =
      require (absent_or (λ v. is_size v && str_eq type kind) (property key schema))
        (invalid "Size bounds require a non-negative integer and matching type." path)
      then_check check_sizes type schema path keys

  abbrev pub size_keywords : List (String × String)
  size_keywords =
      ("minLength", "string")
      ∷ ("maxLength", "string")
      ∷ ("minItems", "array")
      ∷ ("maxItems", "array")
      ∷ []

  -- The loop over the children; `check` is the call for one level less.
  unfoldable pub check_children :
      (Value → String → OperationResult) → String → List (String × Value) → OperationResult
  check_children check path [] = success
  check_children check path ((key, child) ∷ ms) =
      check child (path ⧺ "/properties/" ⧺ key) then_check check_children check path ms

  unfoldable pub check_properties :
      (Value → String → OperationResult) → String → Value → String → OperationResult
  check_properties check type schema path = elim (property "properties" schema) [
    | none ↦ success
    | some ps ↦
        require (str_eq type "object" && is_object (view ps))
          (invalid "properties requires an object schema." path)
        then_check check_children check path (members (view ps))
  ]

  abbrev pub declared : Value → String → Bool
  declared schema name = elim (property "properties" schema) [
    | none ↦ false
    | some ps ↦ holds name (members (view ps))
  ]

  -- The loop over the required names; `names` are those inserted so far.
  unfoldable pub check_names : Value → String → List String → List Value → OperationResult
  check_names schema path names [] = success
  check_names schema path names (v ∷ vs) =
      let wrong = invalid "Required names must be unique declared properties." path in
      elim (text_of (view v)) [
        | none ↦ wrong
        | some name ↦
            require (not (one_of names name) && declared schema name) wrong
            then_check check_names schema path (name ∷ names) vs
      ]

  unfoldable pub check_required : String → Value → String → OperationResult
  check_required type schema path = elim (property "required" schema) [
    | none ↦ success
    | some rs ↦
        require (str_eq type "object" && is_array (view rs))
          (invalid "required must be an array on an object schema." path)
        then_check check_names schema path [] (elements (view rs))
  ]

  unfoldable pub check_items :
      (Value → String → OperationResult) → String → Value → String → OperationResult
  check_items check type schema path = elim (property "items" schema) [
    | none ↦ success
    | some items ↦
        require (str_eq type "array") (invalid "items requires an array schema." path)
        then_check check items (path ⧺ "/items")
  ]

  -- The checks of an object that declares a type.
  unfoldable pub check_typed :
      (Value → String → OperationResult) → String → Value → String → OperationResult
  check_typed check type schema path =
      require (one_of type_names type) (invalid "Unsupported schema type." path)
      then_check require (absent_or is_nonempty_array (property "enum" schema))
          (invalid "enum must be a non-empty array." path)
      then_check check_bounds type schema path ("minimum" ∷ "maximum" ∷ [])
      then_check check_sizes type schema path size_keywords
      then_check check_properties check type schema path
      then_check check_required type schema path
      then_check require
          (absent_or (λ v. str_eq type "object" && is_boolean (view v))
            (property "additionalProperties" schema))
          (invalid "additionalProperties must be a boolean on an object schema." path)
      then_check check_items check type schema path

  abbrev pub declared_type : Value → Option String
  declared_type schema = elim (property "type" schema) [ none ↦ none | some t ↦ text_of (view t) ]

  -- `Check` with a number of levels left.
  unfoldable pub check : ℕ → Value → String → OperationResult
  check zero schema path = invalid "A schema must be an object within the depth limit." path
  check (suc levels) schema path =
      require (is_object (view schema))
        (invalid "A schema must be an object within the depth limit." path)
      then_check check_keywords path (members (view schema))
      then_check elim (declared_type schema) [
        | none ↦ invalid "An explicit type is required." path
        | some type ↦ check_typed (check levels) type schema path
      ]
