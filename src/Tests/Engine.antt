-- ===== src/Tests/Engine.antt =====
-- An engine with one package: a plan is compiled too early, then again, a session runs it, and the
-- catalog cannot change meanwhile.
use artest_cli.Base.{◌≡◌, refl, ℕ, true, none, some, List, [], ◌∷◌, map, length, All, String, arith}
use artest_cli.Catalog.Components.{add, add_all, add_names, schema}
use artest_cli.Compiler.Schemas.{HasParameters, validator}
use artest_cli.Compiler.Steps.{
  compile, compile_steps, compile_step, check_command, check_parameters, contract_failures,
  definition_failure, admit_all,
}
use artest_cli.Diagnostics.{Outcome, returned, succeeded, success}
use artest_cli.Engine.Calls.{
  Handles, ApiCall, prepare_catalog, activate_begins, activate_ends, compile_plan, start, wait,
  entry_at, new_handles, perform_call, perform_calls,
}
use artest_cli.Engine.Context.{refreshed, register_intrinsic, prepare, begin_activation}
use artest_cli.Engine.Plans.{compile_parsed, compile_for_engine, resolve_types}
use artest_cli.Engine.Reached.{After, perform_calls-HasParameters, perform_calls-IsPrepared}
use artest_cli.Engine.Resolving.{IsAttempt, compile_for_engine-IsAttempt}
use artest_cli.Engine.Scan.{CatalogScan, components, fingerprint}
use artest_cli.Engine.Sessions.{expired, start_session}
use artest_cli.Engine.Sound.{AtMostOne}
use artest_cli.Parser.Members.{
  parse_command, parse_instrument, policy_at, read_policy, read_integer, read_action,
}
use artest_cli.Schema.Check.{
  ◌then_check◌, require, check, check_keywords, check_typed, check_bounds, check_sizes,
  check_properties, check_children, check_required, check_names, check_items,
}
use artest_cli.Schema.Validate.{
  ◌then◌, unless, validate, validate_value, validate_scalar, validate_size, validate_object,
  validate_array, validate_required, validate_members, validate_elements,
}
use artest_cli.Parser.Parse.{parse_text, parse_root, parse_members, parse_all, root_diagnostics}
use artest_cli.Tests.Documents.{Doc, number, documents}
use artest_cli.Tests.Schema.{volts_command, script}

abbrev read : String → Outcome Doc
read s = returned script

abbrev dumped : Doc → String
dumped d = "{}"

abbrev sized : String → ℕ
sized s = 2

abbrev power_package : CatalogScan Doc
power_package = record {
  root = "extensions";
  packages =
      record {
        manifest_text = "{}";
        content_sha256 = "aa";
        components = map (λ p. p.1) volts_command;
        diagnostics = [];
      }
      ∷ [];
  diagnostics = [];
}

abbrev to_start : List (ApiCall Doc ℕ)
to_start =
    compile_plan "{}"
    ∷ prepare_catalog power_package
    ∷ compile_plan "{}"
    ∷ start 0
    ∷ prepare_catalog power_package
    ∷ activate_begins
    ∷ []

abbrev to_end : List (ApiCall Doc ℕ)
to_end =
    compile_plan "{}"
    ∷ prepare_catalog power_package
    ∷ compile_plan "{}"
    ∷ start 0
    ∷ activate_begins
    ∷ activate_ends 0 (refreshed success (number 1))
    ∷ wait 0 none 7
    ∷ []

abbrev fresh_engine : Handles Doc ℕ
fresh_engine = new_handles documents read dumped sized [] 1

-- One plan was compiled, and its session holds the lease.
starts :
    elim (perform_calls documents read dumped sized [] to_start fresh_engine) as (λ o. ℕ × ℕ × ℕ) [
      | none ↦ (0, 0, 0)
      | some h ↦ (length h.plans, length h.sessions, h.engine.revision)
    ]
    ≡ (1, 1, 1)
unfolding perform_calls perform_call prepare begin_activation compile_for_engine compile_parsed
    resolve_types start_session expired components fingerprint add add_all add_names entry_at
    parse_text parse_root parse_members parse_all root_diagnostics parse_command parse_instrument
    policy_at read_policy read_integer read_action validator compile compile_steps compile_step
    check_command check_parameters contract_failures definition_failure admit_all schema validate
    validate_value validate_scalar validate_size validate_object validate_array validate_required
    validate_members validate_elements ◌then◌ unless check check_keywords check_typed check_bounds
    check_sizes check_properties check_children check_required check_names check_items ◌then_check◌
    require
starts = refl

compile_for_engine-IsAttempt_example :
    IsAttempt documents read fresh_engine.engine
      (compile_for_engine documents read fresh_engine.engine "{}")
compile_for_engine-IsAttempt_example =
    compile_for_engine-IsAttempt documents read fresh_engine.engine "{}"

perform_calls-HasParameters_example : After documents read dumped sized [] 1 to_start (λ h.
    AtMostOne h.sessions
    × All
        (λ s.
          (h.engine.run_lease ≡ some s.lease)
          × All (HasParameters documents h.engine.catalog) s.steps)
        h.sessions)
perform_calls-HasParameters_example =
    perform_calls-HasParameters documents read dumped sized [] {R = ℕ} 1 to_start (omega arith)

perform_calls-IsPrepared_example : After documents read dumped sized [] 1 to_end (λ h.
    let given : String × String =
      (h.engine.prepared.root, fingerprint dumped sized h.engine.prepared) in
    let next = add (components h.engine.prepared) (register_intrinsic [] []).1 in
    (succeeded next.0 ≡ true)
    × (next.1 ≡ h.engine.catalog)
    × AtMostOne h.activating
    × All (λ a. a ≡ given) h.activating
    × (h.engine.active ≡ true → h.pinned ≡ some given))
perform_calls-IsPrepared_example =
    perform_calls-IsPrepared documents read dumped sized [] {R = ℕ} 1 to_end (omega arith)
