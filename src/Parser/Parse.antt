-- ===== src/Parser/Parse.antt =====
-- `ParseText` and `ParseFile` of Parsing/JsonTestPlanParser.cpp. The library's parser is the
-- parameter `parse`; the file is given by what its size and its content answer.
use artest_cli.Base.{
  ℕ, suc, Bool, false, Option, none, some, List, [], ◌∷◌, ◌++◌, String, ◌⧺◌, str_eq, is_empty,
  to_string, ltb, ◌==◌, if◌then◌else◌,
}
use artest_cli.Base.Int.{ℤ, pos, negsuc}
use artest_cli.Compiler.Plan.{TestPlan}
use artest_cli.Compiler.Steps.{Checked, accepted, rejected}
use artest_cli.Diagnostics.{
  Diagnostic, Outcome, ValueResult, returned, raised, error_at, contains_errors, what_or,
}
use artest_cli.Json.{Json, array, is_object, member}
use artest_cli.Parser.Members.{text_member, integer_member, parse_instrument, parse_command}

abbrev pub maximum_script_size : ℕ
maximum_script_size = 4194304

abbrev pub at_source : String → String → String
at_source source key = if is_empty key then source else source ⧺ ":" ⧺ key

abbrev pub only : {A : Type 0} → List Diagnostic → ValueResult A
only ds = record { value = none; diagnostics = ds }

-- The elements of an array that can be read, from an index on, and the diagnostics of the others.
unfoldable pub parse_all :
    {V A : Type 0}
    → (String → V → Checked A)
    → String
    → String
    → ℕ
    → List V
    → List Diagnostic × List A
parse_all parse source name i [] = ([], [])
parse_all parse source name i (v ∷ vs) =
    let (ds, parsed) = parse_all parse source name (suc i) vs in
    elim (parse (at_source source (name ⧺ "[" ⧺ to_string i ⧺ "]")) v) [
      | accepted a ↦ (ds, a ∷ parsed)
      | rejected es ↦ (es ++ ds, parsed)
    ]

-- The answer of `get<int>` on the version, if it is an integer.
pub data Version : Type 0 where
  missing outside : Version
  declared : ℤ → Version

abbrev pub is_one : ℤ → Bool
is_one (pos n) = n == 1
is_one (negsuc n) = false

module _ (j : Json) where
  open j use {Value, view, get_int}

  abbrev pub format_diagnostics : String → Value → List Diagnostic
  format_diagnostics source root =
      let wrong =
        error_at "SCRIPT_FORMAT_INVALID" "The script format must be ARTest.Script."
          (at_source source "format")
        ∷ [] in
      elim (text_member j "format" root) [
        | none ↦ wrong
        | some f ↦ if str_eq f "ARTest.Script" then [] else wrong
      ]

  abbrev pub version_of : Value → Version
  version_of root = elim (integer_member j "version" root) [
    | none ↦ missing
    | some v ↦ elim (get_int v) [ returned z ↦ declared z | raised what ↦ outside ]
  ]

  abbrev pub version_diagnostics : String → Version → List Diagnostic
  version_diagnostics source missing =
      error_at "SCRIPT_VERSION_MISSING" "The script must declare an integer version."
        (at_source source "version")
      ∷ []
  version_diagnostics source outside =
      error_at "SCRIPT_VERSION_UNSUPPORTED" "The script version is outside the supported range."
        (at_source source "version")
      ∷ []
  version_diagnostics source (declared z) =
      if is_one z
      then []
      else error_at "SCRIPT_VERSION_UNSUPPORTED" "The script version is not supported."
          (at_source source "version")
        ∷ []

  -- The version of the plan starts as the current one.
  abbrev pub plan_version : Version → ℤ
  plan_version (declared z) = z
  plan_version _ = pos 1

  abbrev pub array_member : String → Value → Option (List Value)
  array_member key root = elim (member key (view root)) [
    | none ↦ none
    | some m ↦ elim (view m) [ array xs ↦ some xs | _ ↦ none ]
  ]

  abbrev pub array_diagnostics : String → String → String → Option (List Value) → List Diagnostic
  array_diagnostics code message location none = error_at code message location ∷ []
  array_diagnostics code message location (some xs) = []

  abbrev pub values : Option (List Value) → List Value
  values none = []
  values (some xs) = xs

  abbrev pub instruments_diagnostics : String → Value → List Diagnostic
  instruments_diagnostics source root =
      array_diagnostics "SCRIPT_INSTRUMENTS_INVALID" "The instruments member must be an array."
        (at_source source "instruments") (array_member "instruments" root)

  abbrev pub commands_diagnostics : String → Value → List Diagnostic
  commands_diagnostics source root =
      array_diagnostics "SCRIPT_COMMANDS_INVALID" "The commands member must be an array."
        (at_source source "commands") (array_member "commands" root)

  -- The tests of the root's members.
  unfoldable pub root_diagnostics : String → Value → List Diagnostic
  root_diagnostics source root =
      format_diagnostics source root
      ++ (version_diagnostics source (version_of root)
          ++ (instruments_diagnostics source root ++ commands_diagnostics source root))

  -- The plan of a root whose members passed the tests.
  unfoldable pub parse_members : String → Value → ValueResult (TestPlan Value)
  parse_members source root =
      let (ds, instruments) =
        parse_all (parse_instrument j) source "instruments" 0
          (values (array_member "instruments" root)) in
      let (es, steps) =
        parse_all (parse_command j) source "commands" 0 (values (array_member "commands" root)) in
      record {
        value =
            if contains_errors (ds ++ es)
            then none
            else some (record {
              version = plan_version (version_of root);
              instruments = instruments;
              steps = steps;
            });
        diagnostics = ds ++ es;
      }

  -- `ParseText` after the library has parsed the text.
  unfoldable pub parse_root : String → Value → ValueResult (TestPlan Value)
  parse_root source root =
      if is_object (view root)
      then (if contains_errors (root_diagnostics source root)
          then only (root_diagnostics source root)
          else parse_members source root)
      else only
          (error_at "SCRIPT_ROOT_INVALID" "The script root must be a JSON object." source ∷ [])

  module _ (parse : String → Outcome Value) where
    -- `ParseText`.
    unfoldable pub parse_text : String → String → ValueResult (TestPlan Value)
    parse_text content source = elim (parse content) [
      | raised what ↦
          only (error_at "SCRIPT_JSON_INVALID" ("Invalid JSON: " ⧺ what_or "" what) source ∷ [])
      | returned root ↦ parse_root source root
    ]

    -- `ParseFile` of a file with a size, or none if it cannot be inspected, and a content, or none
    -- if it cannot be opened.
    unfoldable pub parse_file : Option ℕ → Option String → String → ValueResult (TestPlan Value)
    parse_file none content path =
        only
          (error_at "SCRIPT_FILE_UNAVAILABLE" "The script file could not be inspected." path ∷ [])
    parse_file (some size) content path =
        if ltb maximum_script_size size
        then only
            (error_at "SCRIPT_FILE_TOO_LARGE" "The script exceeds the 4 MB safety limit." path ∷ [])
        else elim content [
          | none ↦
              only (error_at "SCRIPT_OPEN_FAILED" "The script file could not be opened." path ∷ [])
          | some s ↦ parse_text s path
        ]
