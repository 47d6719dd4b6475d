-- ===== src/Tests/Compiler.antt =====
-- A plan with one instrument and two steps, compiled with schemas that bound a number.
use artest_cli.Base.{
  ◌≡◌, ◌⊎◌, refl, ℕ, true, false, Option, none, some, List, [], ◌∷◌, String, leb, if◌then◌else◌,
}
use artest_cli.Base.Int.{pos}
use artest_cli.Catalog.Components.{ComponentKind, Components, command, instrument_driver}
use artest_cli.Compiler.Outcome.{AreCompiled, AreOfPlan, compile-AreCompiled}
use artest_cli.Compiler.Plan.{StepDefinition, TestPlan}
use artest_cli.Compiler.Steps.{
  compile, compile_steps, compile_step, check_command, check_parameters, contract_failures,
  definition_failure, admit, admit_all, empty_script,
}
use artest_cli.Catalog.Components.{schema}
use artest_cli.Diagnostics.{OperationResult, success, failure, contains_errors}
use artest_cli.Results.{default_policy}
use artest_cli.Session.Binding.{CompiledStep}

-- The number must not exceed the schema's.
abbrev at_most : ℕ → ℕ → String → OperationResult
at_most bound n location =
    if leb n bound then success else failure "TOO_LARGE" "The number is too large." location

abbrev component :
    ComponentKind → String → String → List String → String → ℕ → Components ℕ → Components ℕ
component kind name contract required role bound rest =
    (
      name,
      record {
        kind = kind;
        type_id = name;
        contract_id = contract;
        version = "1.0.0";
        display_name = name;
        aliases = [];
        capabilities = [];
        required_contracts = required;
        schemas =
            record {
              role = role;
              schema_id = name;
              media_type = "application/json";
              relative_path = "";
              document = bound;
            }
            ∷ [];
        flags = [];
        validation_code = "";
        unavailable_code = "";
      },
    )
    ∷ rest

abbrev power_catalog : Components ℕ
power_catalog = component instrument_driver "supply" "power.v1" [] "configuration" 10 (
    component command "set_voltage" "command.v1" ("power.v1" ∷ []) "parameters" 24
      (component command "pause" "command.v1" [] "parameters" 1000 []))

abbrev step : ℕ → String → Option String → ℕ → StepDefinition ℕ
step id name instrument n = record {
  step_id = id;
  command_name = name;
  instrument_id = instrument;
  parameters = n;
  policy = default_policy;
}

abbrev plan_with : ℕ → TestPlan ℕ
plan_with volts = record {
  version = pos 1;
  instruments = record { device_type = "supply"; id = "PS1"; configuration = 3 } ∷ [];
  steps = step 10 "set_voltage" (some "PS1") volts ∷ step 20 "pause" none 500 ∷ [];
}

compiles : contains_errors (compile at_most power_catalog (plan_with 12)).diagnostics ≡ false
unfolding compile compile_steps compile_step check_command check_parameters contract_failures
    definition_failure admit admit_all schema
compiles = refl

-- A voltage above the schema's bound is an error.
refuses : (compile at_most power_catalog (plan_with 25)).value ≡ none
unfolding compile compile_steps compile_step check_command check_parameters contract_failures
    definition_failure admit admit_all schema
refuses = refl

compile-AreCompiled_example :
    let r = compile at_most power_catalog (plan_with 12) in
    ((contains_errors r.diagnostics ≡ true) × (r.value ≡ none))
    ⊎ ((contains_errors r.diagnostics ≡ false)
        × (empty_script (plan_with 12).steps ≡ [])
        × ((steps : List (CompiledStep ℕ)) × (r.value ≡ some steps)
            × AreCompiled at_most power_catalog
                (admit_all at_most power_catalog (plan_with 12).instruments []).1
                []
                0
                (plan_with 12).steps
                steps
            × AreOfPlan at_most power_catalog
                (plan_with 12).instruments
                (admit_all at_most power_catalog (plan_with 12).instruments []).1))
compile-AreCompiled_example = compile-AreCompiled at_most power_catalog (plan_with 12)
