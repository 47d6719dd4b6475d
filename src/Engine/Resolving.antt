-- ===== src/Engine/Resolving.antt =====
-- What `CompileForEngine` gives: the types of a plan that compiles are all in the catalog.
use artest_cli.Base.{
  ◌≡◌, refl, ◌∙◌, sym, ◌||◌, Bool, true, false, Option, none, some, List, [], ◌∷◌, ◌++◌, inl, inr,
  All, String, if◌then◌else◌, arith, Bool-cases, Option-cases,
}
use artest_cli.Catalog.Components.{ComponentDescriptor, Components, find}
use artest_cli.Compiler.Plan.{InstrumentDefinition, TestPlan}
use artest_cli.Compiler.Schemas.{HasParameters, validator, compile-HasParameters}
use artest_cli.Compiler.Steps.{admit, admit_all, compile, compile_steps, empty_script}
use artest_cli.Diagnostics.{
  Diagnostic, OperationResult, Outcome, contains_errors, contains_errors-append, value_succeeded,
}
use artest_cli.Engine.Context.{Engine}
use artest_cli.Engine.Plans.{
  CompiledPlan, CompileAttempt, released, resolve_types, handle, compile_parsed, compile_for_engine,
}
use artest_cli.Json.{Json}
use artest_cli.Parser.Parse.{parse_text}
use artest_cli.Registry.Creators.{Table}
use artest_cli.Session.Binding.{CompiledStep}

module _ {J : Type 0} (validate : J → J → String → OperationResult) (catalog : Components J) where
  -- The types that the catalog knows.
  abbrev IsKnown : InstrumentDefinition J → Type 0
  IsKnown i = (d : ComponentDescriptor J) × (find i.device_type catalog ≡ some d)

  admit-IsKnown :
      (i : InstrumentDefinition J) (t : Table (ComponentDescriptor J))
      → contains_errors (admit validate catalog i t).0 ≡ false
      → IsKnown i
  unfolding admit
  admit-IsKnown i t n = elim (Option-cases (find i.device_type catalog)) [
    | inl e ↦ ground (arith, n, e)
    | inr k ↦ k
  ]

  admit_all-IsKnown :
      (is : List (InstrumentDefinition J)) (t : Table (ComponentDescriptor J))
      → contains_errors (admit_all validate catalog is t).0 ≡ false
      → All IsKnown is
  unfolding admit_all
  admit_all-IsKnown [] t n = tt
  admit_all-IsKnown (i ∷ is) t n =
      let (ds, t1) = admit validate catalog i t in
      let (rest, t2) = admit_all validate catalog is t1 in
      let apart : (contains_errors ds || contains_errors rest) ≡ false =
        sym (contains_errors-append ds rest) ∙ n in
      (admit-IsKnown i t (ground arith), admit_all-IsKnown is t1 (ground arith))

  resolve_types-IsKnown :
      (is : List (InstrumentDefinition J))
      → All IsKnown is
      → (js : List (InstrumentDefinition J)) × (resolve_types catalog is ≡ some js)
  unfolding resolve_types
  resolve_types-IsKnown [] a = ([], refl)
  resolve_types-IsKnown (i ∷ is) ((d, e), a) =
      let (js, r) = resolve_types-IsKnown is a in
      (record i { device_type = d.type_id } ∷ js, rw (resolve_types, e, r) refl)

  -- The dereference of every `Find` in `CompileForEngine` is defined.
  compile-resolves :
      (plan : TestPlan J) (steps : List (CompiledStep J))
      → (compile validate catalog plan).value ≡ some steps
      → (js : List (InstrumentDefinition J)) × (resolve_types catalog plan.instruments ≡ some js)
  unfolding compile
  compile-resolves plan steps e =
      let (is, t) = admit_all validate catalog plan.instruments [] in
      let (ss, cs) = compile_steps validate catalog t [] 0 plan.steps in
      let clean : contains_errors (is ++ empty_script plan.steps ++ ss) ≡ false =
        ground (arith, e) in
      resolve_types-IsKnown plan.instruments (
        admit_all-IsKnown plan.instruments [] (
          ground (
            arith,
            clean,
            contains_errors-append (is ++ empty_script plan.steps) ss,
            contains_errors-append is (empty_script plan.steps),
          )))

module _ (j : Json) (parse : String → Outcome j.Value) (e : Engine j.Value) where
  open j use {Value}

  -- A plan handle that is given out belongs to the engine and is compiled against its catalog.
  abbrev pub IsCurrent : CompiledPlan Value → Type 0
  IsCurrent p =
      (p.owner ≡ e.address) × (p.revision ≡ e.revision) × All (HasParameters j e.catalog) p.steps

  abbrev pub IsMade : Option (CompiledPlan Value) → Type 0
  IsMade none = Unit
  IsMade (some p) = IsCurrent p

  -- The compilation is defined, and a plan that it gives out is current.
  abbrev pub IsAttempt : Option (CompileAttempt Value) → Type 0
  IsAttempt none = true ≡ false
  IsAttempt (some a) = IsMade (released a)

  IsMade-if :
      (b : Bool) (o : Option (CompiledPlan Value)) → IsMade o → IsMade (if b then o else none)
  IsMade-if true o m = m
  IsMade-if false o m = tt

  compile_parsed-IsAttempt :
      (plan : TestPlan Value) (ds : List Diagnostic) → IsAttempt (compile_parsed j parse e plan ds)
  unfolding compile_parsed
  compile_parsed-IsAttempt plan ds =
      let r = compile (validator j) e.catalog plan in
      elim (Bool-cases (value_succeeded r)) [
        | inr n ↦ rw n tt
        | inl y ↦ elim (Option-cases r.value) [
          | inl v ↦ rw (y, v) tt
          | inr (steps, v) ↦
              let (js, k) = compile-resolves (validator j) e.catalog plan steps v in
              rw (y, v, k)
                (IsMade-if _ (some (handle j parse e plan steps js))
                  (refl, refl, compile-HasParameters j e.catalog plan steps v))
        ]
      ]

  -- Compiling any text against an engine is defined: the types of the instruments of a plan that
  -- compiles are all in the catalog. A plan handle that it gives out belongs to the engine, has its
  -- revision, and the parameters of its steps are among those that the schemas of its catalog
  -- describe.
  pub compile_for_engine-IsAttempt :
      (content : String) → IsAttempt (compile_for_engine j parse e content)
  unfolding compile_for_engine
  compile_for_engine-IsAttempt content =
      let r = parse_text j parse content "engine-api" in
      elim (Bool-cases (value_succeeded r)) [
        | inr n ↦ rw n tt
        | inl y ↦ elim (Option-cases r.value) [
          | inl v ↦ rw (y, v) tt
          | inr (plan, v) ↦ rw (y, v) (compile_parsed-IsAttempt plan r.diagnostics)
        ]
      ]
