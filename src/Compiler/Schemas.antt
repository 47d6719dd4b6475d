-- ===== src/Compiler/Schemas.antt =====
-- The compiler with the schema validator that it calls.
use artest_cli.Base.{ℕ, suc, ◌≡◌, subst, inl, inr, true, some, List, [], ◌∷◌, All, String, ◌⧺◌}
use artest_cli.Catalog.Components.{ComponentDescriptor, SchemaBinding, Components, find, schema}
use artest_cli.Compiler.Outcome.{AreCompiled, compile-AreCompiled}
use artest_cli.Compiler.Plan.{StepDefinition, TestPlan}
use artest_cli.Compiler.Soundness.{IsCompiled}
use artest_cli.Compiler.Steps.{compile, admit_all}
use artest_cli.Diagnostics.{OperationResult, Outcome, returned, raised, succeeded, failure}
use artest_cli.Json.{Json}
use artest_cli.Registry.Creators.{Table}
use artest_cli.Schema.Check.{depth_limit}
use artest_cli.Schema.Conforms.{Conforms}
use artest_cli.Schema.Descent.{validate-Conforms}
use artest_cli.Schema.Validate.{validate}
use artest_cli.Session.Binding.{CompiledStep}

-- The result of `Validate`, which never throws.
abbrev pub result_of : Outcome OperationResult → OperationResult
result_of (returned r) = r
result_of (raised what) = failure "" "" ""

module _ (j : Json) where
  open j use {Value}

  unfoldable pub validator : Value → Value → String → OperationResult
  validator s v path = result_of (validate j s v path)

  validator-Conforms :
      (s v : Value) (path : String)
      → succeeded (validator s v path) ≡ true
      → Conforms j depth_limit s v
  unfolding validator
  validator-Conforms s v path h =
      let (r, e, exact, _, _) = validate-Conforms j s v path in (exact.0 (rw e at h)).1

  -- The parameters of a step are described by the schema of its command.
  abbrev pub HasParameters : Components Value → CompiledStep Value → Type 0
  HasParameters catalog c =
      (d : ComponentDescriptor Value) × (b : SchemaBinding Value) × (find c.command_name catalog
        ≡ some d)
      × (schema "parameters" d.schemas ≡ some b)
      × Conforms j depth_limit b.document c.parameters

  step-HasParameters :
      (catalog : Components Value) (t : Table (ComponentDescriptor Value)) (ids : List ℕ)
      (location : String) (s : StepDefinition Value) (c : CompiledStep Value)
      → IsCompiled validator catalog t ids location s c
      → HasParameters catalog c
  step-HasParameters catalog t ids location s c i =
      let (b, e, v) = i.valid in
      rw i.step (
        i.descriptor,
        b,
        i.known,
        e,
        validator-Conforms b.document s.parameters (location ⧺ "/params") v,
      )

  steps-HasParameters :
      (catalog : Components Value) (t : Table (ComponentDescriptor Value)) (ids : List ℕ)
      (index : ℕ) (ss : List (StepDefinition Value)) (cs : List (CompiledStep Value))
      → AreCompiled validator catalog t ids index ss cs
      → All (HasParameters catalog) cs
  steps-HasParameters catalog t ids index ss [] a = tt
  steps-HasParameters catalog t ids index [] (c ∷ cs) a = cc
  steps-HasParameters catalog t ids index (s ∷ ss) (c ∷ cs) a = (
    step-HasParameters catalog t ids _ s c a.0,
    steps-HasParameters catalog t (s.step_id ∷ ids) (suc index) ss cs a.1,
  )

  -- If a plan compiles, the parameters of every compiled step are among those that the schema of its
  -- command in the catalog describes.
  pub compile-HasParameters :
      (catalog : Components Value) (plan : TestPlan Value) (steps : List (CompiledStep Value))
      → (compile validator catalog plan).value ≡ some steps
      → All (HasParameters catalog) steps
  compile-HasParameters catalog plan steps h = elim (compile-AreCompiled validator catalog plan) [
    | inl (e, n) ↦ cc (n, h)
    | inr (e, script, (cs, v, a, _)) ↦
        let same : cs ≡ steps = cc (v, h) in
        subst (All (HasParameters catalog)) same (
          steps-HasParameters catalog (admit_all validator catalog plan.instruments []).1 [] 0
            plan.steps cs a)
  ]
