-- ===== src/Tests/Schema.antt =====
-- A schema of a voltage, values for it, and a script that sets one.
use artest_cli.Base.{ℕ, ◌≤◌, ◌≡◌, ◌↔◌, refl, true, false, none, some, List, [], ◌∷◌, All}
use artest_cli.Base.Int.{pos}
use artest_cli.Catalog.Components.{Components, command, schema}
use artest_cli.Compiler.Plan.{TestPlan}
use artest_cli.Compiler.Schemas.{HasParameters, validator, compile-HasParameters}
use artest_cli.Compiler.Steps.{
  compile, compile_steps, compile_step, check_command, check_parameters, contract_failures,
  definition_failure, admit_all,
}
use artest_cli.Diagnostics.{OperationResult, returned, succeeded}
use artest_cli.Parser.Denotes.{IsPlan}
use artest_cli.Parser.Members.{
  parse_command, parse_instrument, policy_at, read_policy, read_integer, read_action,
}
use artest_cli.Parser.Parse.{parse_root, parse_members, parse_all, root_diagnostics}
use artest_cli.Parser.Plan.{parse_root-IsPlan}
use artest_cli.Results.{FailureAction}
use artest_cli.Schema.Check.{
  ◌then_check◌, require, check, check_keywords, check_typed, check_bounds, check_sizes,
  check_properties, check_children, check_required, check_names, check_items, depth_limit,
}
use artest_cli.Schema.Conforms.{Conforms}
use artest_cli.Schema.Descent.{validate-Conforms}
use artest_cli.Schema.Validate.{
  ◌then◌, unless, validate, validate_value, validate_scalar, validate_size, validate_object,
  validate_array, validate_required, validate_members, validate_elements,
}
use artest_cli.Session.Binding.{CompiledStep}
use artest_cli.Tests.Documents.{
  documents, Doc, flag, number, word, row, dict, stop, item, close, entry,
}

abbrev volts_schema : Doc
volts_schema = dict (
    entry "additionalProperties" (flag false) (
      entry "properties"
        (dict (
          entry "volts" (dict (entry "maximum" (number 24) (entry "type" (word "integer") close)))
            close))
        (entry "required" (row (item (word "volts") stop)) (entry "type" (word "object") close))))

abbrev volts : Doc → Doc
volts d = dict (entry "volts" d close)

accepts :
    validate documents volts_schema (volts (number 12)) "params"
    ≡ returned (record { diagnostics = [] })
unfolding validate validate_value validate_scalar validate_size validate_object validate_array
    validate_required validate_members validate_elements ◌then◌ unless check check_keywords
    check_typed check_bounds check_sizes check_properties check_children check_required check_names
    check_items ◌then_check◌ require
accepts = refl

validate-Conforms_example :
    (r : OperationResult) × (validate documents volts_schema (volts (number 25)) "params"
      ≡ returned r)
    × ((succeeded r ≡ true) ↔ (
        (succeeded (check documents depth_limit volts_schema "schema") ≡ true)
        × Conforms documents depth_limit volts_schema (volts (number 25))))
    × (succeeded (check documents depth_limit volts_schema "schema") ≡ false
        → r ≡ check documents depth_limit volts_schema "schema")
    × (succeeded (check documents depth_limit volts_schema "schema") ≡ true
        → (levels : ℕ) → depth_limit ≤ levels
        → Conforms documents depth_limit volts_schema (volts (number 25))
          ↔ Conforms documents levels volts_schema (volts (number 25)))
validate-Conforms_example = validate-Conforms documents volts_schema (volts (number 25)) "params"

abbrev pub volts_command : Components Doc
volts_command =
    (
      "set_voltage",
      record {
        kind = command;
        type_id = "set_voltage";
        contract_id = "command.v1";
        version = "1.0.0";
        display_name = "Set voltage";
        aliases = [];
        capabilities = [];
        required_contracts = [];
        schemas =
            record {
              role = "parameters";
              schema_id = "volts";
              media_type = "application/json";
              relative_path = "";
              document = volts_schema;
            }
            ∷ [];
        flags = [];
        validation_code = "";
        unavailable_code = "";
      },
    )
    ∷ []

abbrev pub script : Doc
script = dict (
    entry "commands"
      (row (
        item
          (dict (
            entry "instrument" (word "NoInstrument") (
              entry "name" (word "set_voltage") (
                entry "params" (volts (number 12)) (
                  entry "policy"
                    (dict
                      (entry "maxAttempts" (number 3) (entry "onFailure" (word "continue") close)))
                    (entry "stepId" (number 10) close))))))
          stop))
      (entry "format" (word "ARTest.Script")
        (entry "instruments" (row stop) (entry "version" (number 1) close))))

abbrev scripted : TestPlan Doc
scripted = record {
  version = pos 1;
  instruments = [];
  steps =
      record {
        step_id = 10;
        command_name = "set_voltage";
        instrument_id = none;
        parameters = volts (number 12);
        policy = record {
          max_attempts = pos 3;
          retry_delay = pos 0;
          timeout = pos 0;
          on_failure = FailureAction.continue;
        };
      }
      ∷ [];
}

parses : (parse_root documents "script" script).value ≡ some scripted
unfolding parse_root parse_members parse_all root_diagnostics parse_command parse_instrument
    policy_at read_policy read_integer read_action
parses = refl

parse_root-IsPlan_example :
    ((parse_root documents "script" script).value ≡ some scripted)
    ↔ IsPlan documents script scripted
parse_root-IsPlan_example = parse_root-IsPlan documents "script" script scripted

abbrev compiled_volts : List (CompiledStep Doc)
compiled_volts =
    record {
      step_id = 10;
      command_name = "set_voltage";
      component_type = "set_voltage";
      parameters = volts (number 12);
      instrument_id = none;
      policy = record {
        max_attempts = pos 3;
        retry_delay = pos 0;
        timeout = pos 0;
        on_failure = FailureAction.continue;
      };
    }
    ∷ []

compile-HasParameters_example : All (HasParameters documents volts_command) compiled_volts
unfolding validator compile compile_steps compile_step check_command check_parameters
    contract_failures definition_failure admit_all schema validate validate_value validate_scalar
    validate_size validate_object validate_array validate_required validate_members
    validate_elements ◌then◌ unless check check_keywords check_typed check_bounds check_sizes
    check_properties check_children check_required check_names check_items ◌then_check◌ require
compile-HasParameters_example =
    compile-HasParameters documents volts_command scripted compiled_volts refl
