-- ===== src/Diagnostics.antt =====
-- Diagnostics.h of source/ARTestEngine.Core: diagnostics and the results that carry them.
use artest_cli.Base.{
  ◌≡◌, ◌||◌, Bool, true, false, Option, none, some, List, [], ◌∷◌, ◌++◌, String, not, any,
  any-append,
}

pub data DiagnosticSeverity : Type 0 where
  information warning error : DiagnosticSeverity

pub record Diagnostic : Type 0 where
  pub severity : DiagnosticSeverity
  pub code : String
  pub message : String
  pub location : String

abbrev pub is_error : Diagnostic → Bool
is_error d = elim d.severity [ information ↦ false | warning ↦ false | error ↦ true ]

abbrev pub contains_errors : List Diagnostic → Bool
contains_errors ds = any is_error ds

pub record OperationResult : Type 0 where
  pub diagnostics : List Diagnostic

abbrev pub succeeded : OperationResult → Bool
succeeded r = not (contains_errors r.diagnostics)

abbrev pub success : OperationResult
success = record { diagnostics = [] }

-- The aggregates `{DiagnosticSeverity::Error, code, message, location}` of the sources.
abbrev pub error_at : String → String → String → Diagnostic
error_at code message location = record {
  severity = error;
  code = code;
  message = message;
  location = location;
}

abbrev pub failure : String → String → String → OperationResult
failure code message location = record { diagnostics = error_at code message location ∷ [] }

pub record ValueResult {ℓ} (T : Type ℓ) : Type ℓ where
  pub value : Option T
  pub diagnostics : List Diagnostic

abbrev pub has_value {ℓ} : {T : Type ℓ} → Option T → Bool
has_value none = false
has_value (some x) = true

abbrev pub value_succeeded {ℓ} : {T : Type ℓ} → ValueResult T → Bool
value_succeeded r = elim (contains_errors r.diagnostics) [
  | true ↦ false
  | false ↦ has_value r.value
]

-- A call of code that may throw: a `std::exception` with its text, or anything else.
pub data Outcome {ℓ} (A : Type ℓ) : Type ℓ where
  returned : A → Outcome A
  raised : Option String → Outcome A

-- `e.what()` in the handler for `std::exception`, a fixed text in the handler for the rest.
abbrev pub what_or : String → Option String → String
what_or unknown none = unknown
what_or unknown (some what) = what

pub contains_errors-append :
    (xs ys : List Diagnostic)
    → contains_errors (xs ++ ys) ≡ (contains_errors xs || contains_errors ys)
contains_errors-append xs ys = any-append is_error xs ys
