-- ===== src/Engine/Plans.antt =====
-- Api/EnginePlanApi.cpp of source/ARTestEngine with `ARTestCompiledPlanOpaque` of EngineHandles.h.
use artest_cli.Base.{
  ◌&&◌, not, Bool, ℕ, Option, none, some, List, [], ◌∷◌, ◌++◌, length, String, if◌then◌else◌,
}
use artest_cli.Catalog.Components.{Components, find}
use artest_cli.Compiler.Plan.{InstrumentDefinition, TestPlan}
use artest_cli.Compiler.Schemas.{validator}
use artest_cli.Compiler.Steps.{compile}
use artest_cli.Diagnostics.{Diagnostic, Outcome, value_succeeded, has_value, contains_errors}
use artest_cli.Engine.Context.{Engine}
use artest_cli.Json.{Json}
use artest_cli.Parser.Parse.{parse_text}
use artest_cli.Session.Binding.{CompiledStep}

pub record CompiledPlan (J : Type 0) : Type 0 where
  pub owner : ℕ
  pub plan : TestPlan J
  pub steps : List (CompiledStep J)
  pub revision : ℕ

pub record CompileAttempt (J : Type 0) : Type 0 where
  pub plan : Option (CompiledPlan J)
  pub diagnostics : List Diagnostic
  pub instrument_count : ℕ
  pub step_count : ℕ

abbrev pub attempt_succeeded : {J : Type 0} → CompileAttempt J → Bool
attempt_succeeded a = has_value a.plan && not (contains_errors a.diagnostics)

-- The plan that `CompilePlan` gives out.
abbrev pub released : {J : Type 0} → CompileAttempt J → Option (CompiledPlan J)
released a = if attempt_succeeded a then a.plan else none

module _ {J : Type 0} where
  -- The loop over the instruments; none where `Find` gives no descriptor, whose dereference the
  -- language does not define.
  unfoldable pub resolve_types :
      Components J → List (InstrumentDefinition J) → Option (List (InstrumentDefinition J))
  resolve_types catalog [] = some []
  resolve_types catalog (i ∷ is) =
      let rest = resolve_types catalog is in
      elim (find i.device_type catalog) [
        | none ↦ none
        | some d ↦ elim rest [
          | none ↦ none
          | some js ↦ some (record i { device_type = d.type_id } ∷ js)
        ]
      ]

module _ (j : Json) (parse : String → Outcome j.Value) where
  open j use {Value}

  abbrev no_plan : List Diagnostic → ℕ → ℕ → CompileAttempt Value
  no_plan ds instruments steps = record {
    plan = none;
    diagnostics = ds;
    instrument_count = instruments;
    step_count = steps;
  }

  -- The handle of a plan whose types are resolved.
  abbrev pub handle :
      Engine Value
      → TestPlan Value
      → List (CompiledStep Value)
      → List (InstrumentDefinition Value)
      → CompiledPlan Value
  handle e plan steps resolved = record {
    owner = e.address;
    plan = record plan { instruments = resolved };
    steps = steps;
    revision = e.revision;
  }

  -- The part after the parse of a plan; `ds` are the parser's diagnostics.
  unfoldable pub compile_parsed :
      Engine Value → TestPlan Value → List Diagnostic → Option (CompileAttempt Value)
  compile_parsed e plan ds =
      let r = compile (validator j) e.catalog plan in
      let failed = no_plan (ds ++ r.diagnostics) (length plan.instruments) (length plan.steps) in
      if not (value_succeeded r) then some failed else elim r.value [
        | none ↦ some failed
        | some steps ↦ elim (resolve_types e.catalog plan.instruments) [
          | none ↦ none
          | some resolved ↦ some (record failed { plan = some (handle e plan steps resolved) })
        ]
      ]

  -- `CompileForEngine` of the text of a payload.
  unfoldable pub compile_for_engine : Engine Value → String → Option (CompileAttempt Value)
  compile_for_engine e content =
      let r = parse_text j parse content "engine-api" in
      if not (value_succeeded r) then some (no_plan r.diagnostics 0 0) else elim r.value [
        | none ↦ some (no_plan r.diagnostics 0 0)
        | some plan ↦ compile_parsed e plan r.diagnostics
      ]
