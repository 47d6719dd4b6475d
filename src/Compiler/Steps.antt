-- ===== src/Compiler/Steps.antt =====
-- `Compile` of Compilation/TestPlanCompiler.cpp in source/ARTestEngine.Core. A step that fails a
-- guard adds its diagnostics and the loop goes on with the next one.
use artest_cli.Base.{
  ℕ, suc, ◌||◌, not, Bool, true, false, Option, none, some, List, [], ◌∷◌, ◌++◌, map, any, String,
  ◌⧺◌, str_eq, is_empty, to_string, ◌==◌, if◌then◌else◌,
}
use artest_cli.Base.Int.{pos, ltb_ℤ}
use artest_cli.Diagnostics.{
  Diagnostic, OperationResult, ValueResult, error_at, succeeded, contains_errors,
}
use artest_cli.Results.{StepExecutionPolicy}
use artest_cli.Registry.Creators.{Table, holds, lookup, emplace}
use artest_cli.Catalog.Components.{
  ComponentKind, ComponentDescriptor, Components, command, instrument_driver, tool, find, schema,
}
use artest_cli.Compiler.Plan.{InstrumentDefinition, StepDefinition, TestPlan}
use artest_cli.Session.Binding.{CompiledStep}

-- What becomes of a step.
pub data Checked (A : Type 0) : Type 0 where
  accepted : A → Checked A
  rejected : List Diagnostic → Checked A

abbrev pub fail : {A : Type 0} → String → String → String → Checked A
fail code message location = rejected (error_at code message location ∷ [])

-- The guards that read the step alone; `ids` are the identifiers inserted so far.
unfoldable pub definition_failure : List ℕ → ℕ → StepExecutionPolicy → Option (String × String)
definition_failure ids id p =
    if id == 0 || any (λ i. i == id) ids
    then some ("COMMAND_STEP_ID_INVALID", "Step identifiers must be unique positive integers.")
    else if ltb_ℤ p.max_attempts (pos 1) || ltb_ℤ (pos 100) p.max_attempts
    then some ("COMMAND_POLICY_ATTEMPTS_INVALID", "maxAttempts must be between 1 and 100.")
    else if ltb_ℤ p.retry_delay (pos 0)
    then some ("COMMAND_POLICY_RETRY_DELAY_INVALID", "retryDelayMs must be zero or greater.")
    else if ltb_ℤ p.timeout (pos 0)
    then some ("COMMAND_POLICY_TIMEOUT_INVALID", "timeoutMs must be zero or greater.")
    else none

abbrev pub insert : ℕ → List ℕ → List ℕ
insert id ids = if id == 0 then ids else id ∷ ids

abbrev pub is_command : ComponentKind → Bool
is_command command = true
is_command instrument_driver = false
is_command tool = false

abbrev pub is_driver : ComponentKind → Bool
is_driver command = false
is_driver instrument_driver = true
is_driver tool = false

-- The validator's diagnostics under the code of the component.
abbrev pub relabel : String → ℕ → Diagnostic → Diagnostic
relabel code id d =
    if is_empty code then d else record d { code = code; location = "stepId=" ⧺ to_string id }

module _ {J : Type 0} where
  -- Whether the bound instrument provides a contract.
  abbrev pub provides : Option (ComponentDescriptor J) → String → Bool
  provides none contract = false
  provides (some d) contract = str_eq d.contract_id contract

  unfoldable pub contract_failures :
      Option (ComponentDescriptor J) → String → List String → List Diagnostic
  contract_failures o location [] = []
  contract_failures o location (k ∷ ks) =
      let rest = contract_failures o location ks in
      if provides o k
      then rest
      else error_at "COMMAND_INSTRUMENT_CONTRACT_MISMATCH"
          ("A configured instrument must provide " ⧺ k ⧺ ".") location
        ∷ rest

  abbrev pub compiled_step : StepDefinition J → ComponentDescriptor J → CompiledStep J
  compiled_step s d = record {
    step_id = s.step_id;
    command_name = s.command_name;
    component_type = d.type_id;
    parameters = s.parameters;
    instrument_id = s.instrument_id;
    policy = s.policy;
  }

  -- The descriptor of the bound instrument, if one is bound, or the unknown identifier.
  abbrev pub bound :
      Option String
      → Table (ComponentDescriptor J)
      → String
      → Checked (Option (ComponentDescriptor J))
  bound none t location = accepted none
  bound (some id) t location = elim (lookup id t) [
    | none ↦ fail "COMMAND_INSTRUMENT_UNKNOWN" ("Unknown instrument ID: " ⧺ id) location
    | some d ↦ accepted (some d)
  ]

  abbrev pub empty_script : List (StepDefinition J) → List Diagnostic
  empty_script [] =
      error_at "SCRIPT_EMPTY" "The test plan must contain at least one step." "steps" ∷ []
  empty_script (s ∷ ss) = []

module _ {J : Type 0} (validate : J → J → String → OperationResult) (catalog : Components J) where
  -- The body of the loop over the instruments.
  unfoldable pub admit :
      InstrumentDefinition J
      → Table (ComponentDescriptor J)
      → List Diagnostic × Table (ComponentDescriptor J)
  admit i t =
      let unknown =
        error_at "INSTRUMENT_TYPE_UNKNOWN" ("Unknown instrument type: " ⧺ i.device_type) i.id
        ∷ [] in
      if is_empty i.id || holds i.id t
      then (
        error_at "INSTRUMENT_ID_INVALID" "Instrument IDs must be non-empty and unique." i.id ∷ [],
        t,
      )
      else elim (find i.device_type catalog) [
        | none ↦ (unknown, t)
        | some d ↦
            if is_driver d.kind
            then (
              elim (schema "configuration" d.schemas) [
                | none ↦
                    error_at "INSTRUMENT_SCHEMA_MISSING"
                      "A declarative configuration schema is required." i.id
                    ∷ []
                | some b ↦
                    (validate b.document i.configuration
                      ("instruments/" ⧺ i.id ⧺ "/config")).diagnostics
              ],
              emplace i.id d t,
            )
            else (unknown, t)
      ]

  unfoldable pub admit_all :
      List (InstrumentDefinition J)
      → Table (ComponentDescriptor J)
      → List Diagnostic × Table (ComponentDescriptor J)
  admit_all [] t = ([], t)
  admit_all (i ∷ is) t =
      let (ds, t1) = admit i t in let (rest, t2) = admit_all is t1 in (ds ++ rest, t2)

  -- The schema that the parameters of a step are checked against.
  unfoldable pub check_parameters :
      String → StepDefinition J → ComponentDescriptor J → Checked (CompiledStep J)
  check_parameters location s d = elim (schema "parameters" d.schemas) [
    | none ↦ fail "COMMAND_SCHEMA_MISSING" "A declarative parameter schema is required." location
    | some b ↦
        let r = validate b.document s.parameters (location ⧺ "/params") in
        if succeeded r
        then accepted (compiled_step s d)
        else rejected (map (relabel d.validation_code s.step_id) r.diagnostics)
  ]

  -- The guards on the descriptor of the command.
  unfoldable pub check_command :
      String
      → StepDefinition J
      → Option (ComponentDescriptor J)
      → ComponentDescriptor J
      → Checked (CompiledStep J)
  check_command location s instrument d =
      if not (is_command d.kind)
      then fail "COMMAND_TYPE_UNKNOWN" ("Unknown command type: " ⧺ s.command_name) location
      else if not (is_empty d.unavailable_code)
      then fail d.unavailable_code "This intrinsic is reserved and is not implemented." location
      else elim (contract_failures instrument location d.required_contracts) [
        | [] ↦ check_parameters location s d
        | f ∷ fs ↦ rejected (f ∷ fs)
      ]

  -- The body of the loop over the steps.
  unfoldable pub compile_step :
      Table (ComponentDescriptor J) → List ℕ → String → StepDefinition J → Checked (CompiledStep J)
  compile_step t ids location s = elim (definition_failure ids s.step_id s.policy) [
    | some (code, message) ↦ fail code message location
    | none ↦ elim (bound s.instrument_id t location) [
      | rejected ds ↦ rejected ds
      | accepted instrument ↦ elim (find s.command_name catalog) [
        | none ↦ fail "COMMAND_TYPE_UNKNOWN" ("Unknown command type: " ⧺ s.command_name) location
        | some d ↦ check_command location s instrument d
      ]
    ]
  ]

  -- The loop over the steps, from an index on.
  unfoldable pub compile_steps :
      Table (ComponentDescriptor J)
      → List ℕ
      → ℕ
      → List (StepDefinition J)
      → List Diagnostic × List (CompiledStep J)
  compile_steps t ids index [] = ([], [])
  compile_steps t ids index (s ∷ ss) =
      let (ds, cs) = compile_steps t (insert s.step_id ids) (suc index) ss in
      elim (compile_step t ids ("steps[" ⧺ to_string index ⧺ "]") s) [
        | accepted c ↦ (ds, c ∷ cs)
        | rejected es ↦ (es ++ ds, cs)
      ]

  -- `Compile`.
  unfoldable pub compile : TestPlan J → ValueResult (List (CompiledStep J))
  compile plan =
      let (is, t) = admit_all plan.instruments [] in
      let (ss, steps) = compile_steps t [] 0 plan.steps in
      let diagnostics = is ++ empty_script plan.steps ++ ss in
      record {
        value = if contains_errors diagnostics then none else some steps;
        diagnostics = diagnostics;
      }
