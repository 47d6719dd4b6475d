-- ===== src/Compiler/Outcome.antt =====
-- What `Compile` answers for a whole plan.
use artest_cli.Registry.Tables.{lookup-snoc, lookup_other}
use artest_cli.Base.{
  ℕ, ◌||◌, sym, ◌∙◌, Option-cases, is_empty, str_eq, eq_iff, suc, ◌≡◌, ◌⊎◌, refl, ap, subst, inl,
  inr, true, false, none, some, List, [], ◌∷◌, ◌++◌, String, ◌⧺◌, to_string, if◌then◌else◌, arith,
  Bool-cases,
}
use artest_cli.Diagnostics.{Diagnostic, OperationResult, contains_errors, contains_errors-append}
use artest_cli.Registry.Creators.{Table, lookup, holds}
use artest_cli.Catalog.Components.{ComponentDescriptor, Components, find}
use artest_cli.Compiler.Plan.{InstrumentDefinition, StepDefinition, TestPlan}
use artest_cli.Compiler.Soundness.{Accepts, IsCompiled, compile_step-Accepts}
use artest_cli.Compiler.Steps.{
  Checked, accepted, rejected, insert, compile_step, compile_steps, compile, admit, admit_all,
  is_driver, empty_script,
}
use artest_cli.Session.Binding.{CompiledStep}

without_errors :
    (xs ys : List Diagnostic)
    → contains_errors (xs ++ ys) ≡ false
    → (contains_errors xs ≡ false) × (contains_errors ys ≡ false)
without_errors xs ys e = ground (arith, contains_errors-append xs ys)

module _ {J : Type 0} (validate : J → J → String → OperationResult) (catalog : Components J) where
  -- The compiled steps are those of the plan, one for one and in order; `ids` are the identifiers
  -- of the steps before.
  abbrev pub AreCompiled :
      Table (ComponentDescriptor J)
      → List ℕ
      → ℕ
      → List (StepDefinition J)
      → List (CompiledStep J)
      → Type 0
  AreCompiled t ids index [] [] = Unit
  AreCompiled t ids index [] (c ∷ cs) = true ≡ false
  AreCompiled t ids index (s ∷ ss) [] = true ≡ false
  AreCompiled t ids index (s ∷ ss) (c ∷ cs) =
      IsCompiled validate catalog t ids ("steps[" ⧺ to_string index ⧺ "]") s c
      × AreCompiled t (s.step_id ∷ ids) (suc index) ss cs

  -- A driver of the catalog under the identifier of an instrument of the plan that names its type.
  abbrev pub IsOfPlan : List (InstrumentDefinition J) → String → ComponentDescriptor J → Type 0
  IsOfPlan [] id d = ⊥
  IsOfPlan (i ∷ is) id d =
      ((i.id ≡ id) × (find i.device_type catalog ≡ some d) × (is_driver d.kind ≡ true))
      ⊎ IsOfPlan is id d

  -- Every instrument that a step may name is one of the plan.
  abbrev pub AreOfPlan : List (InstrumentDefinition J) → Table (ComponentDescriptor J) → Type 0
  AreOfPlan is t =
      (id : String) (d : ComponentDescriptor J) → lookup id t ≡ some d → IsOfPlan is id d

  admit_lem :
      (i : InstrumentDefinition J) (t : Table (ComponentDescriptor J))
      → ((admit validate catalog i t).1 ≡ t)
        ⊎ ((x : ComponentDescriptor J) × (find i.device_type catalog ≡ some x)
            × (is_driver x.kind ≡ true)
            × (holds i.id t ≡ false)
            × ((admit validate catalog i t).1 ≡ t ++ (i.id, x) ∷ []))
  unfolding admit
  admit_lem i t = elim (Bool-cases (is_empty i.id || holds i.id t)) [
    | inl y ↦ rw y (inl refl)
    | inr n ↦ elim (Option-cases (find i.device_type catalog)) [
      | inl f ↦ rw (n, f) (inl refl)
      | inr (x, f) ↦ elim (Bool-cases (is_driver x.kind)) [
        | inr m ↦ rw (n, f, m) (inl refl)
        | inl k ↦
            let new : holds i.id t ≡ false = ground (arith, n) in
            rw (n, f, k, new) (inr (x, refl, k, refl, refl))
      ]
    ]
  ]

  -- What one instrument adds to the table.
  admit-IsOfPlan :
      (i : InstrumentDefinition J) (t : Table (ComponentDescriptor J)) (id : String)
      (d : ComponentDescriptor J)
      → lookup id (admit validate catalog i t).1 ≡ some d
      → (lookup id t ≡ some d)
        ⊎ ((i.id ≡ id) × (find i.device_type catalog ≡ some d) × (is_driver d.kind ≡ true))
  admit-IsOfPlan i t id d e = elim (admit_lem i t) [
    | inl same ↦ inl (subst (λ u. lookup id u ≡ some d) same e)
    | inr (x, f, k, new, same) ↦
        let later : lookup id (t ++ (i.id, x) ∷ []) ≡ some d =
          subst (λ u. lookup id u ≡ some d) same e in
        elim (Bool-cases (str_eq i.id id)) [
          | inr n ↦ inl (sym (lookup_other id i.id x t n) ∙ later)
          | inl y ↦
              let one : i.id ≡ id = (eq_iff i.id id).0 y in
              let here : some x ≡ some d =
                sym (lookup-snoc i.id x t new)
                ∙ ap (λ u. lookup u (t ++ (i.id, x) ∷ [])) one
                ∙ later in
              inr (one, f ∙ here, ground (arith, k, here))
        ]
  ]

  admit_all-IsOfPlan :
      (is : List (InstrumentDefinition J)) (t : Table (ComponentDescriptor J)) (id : String)
      (d : ComponentDescriptor J)
      → lookup id (admit_all validate catalog is t).1 ≡ some d
      → (lookup id t ≡ some d) ⊎ IsOfPlan is id d
  unfolding admit_all
  admit_all-IsOfPlan [] t id d e = inl e
  admit_all-IsOfPlan (i ∷ is) t id d e =
      elim (admit_all-IsOfPlan is (admit validate catalog i t).1 id d e) [
        | inr p ↦ inr (inr p)
        | inl q ↦ elim (admit-IsOfPlan i t id d q) [ inl r ↦ inl r | inr p ↦ inr (inl p) ]
      ]

  AreCompiled-cons :
      (t : Table (ComponentDescriptor J)) (ids : List ℕ) (index : ℕ) (s : StepDefinition J)
      (ss : List (StepDefinition J)) (ds : List Diagnostic) (cs : List (CompiledStep J))
      (x : Checked (CompiledStep J))
      → Accepts (IsCompiled validate catalog t ids ("steps[" ⧺ to_string index ⧺ "]") s) x
      → (contains_errors ds ≡ false → AreCompiled t (insert s.step_id ids) (suc index) ss cs)
      → let (es, rs) = elim x as (λ y. List Diagnostic × List (CompiledStep J)) [
        | accepted c ↦ (ds, c ∷ cs)
        | rejected es ↦ (es ++ ds, cs)
      ] in
        contains_errors es ≡ false → AreCompiled t ids index (s ∷ ss) rs
  AreCompiled-cons t ids index s ss ds cs (accepted c) a r n = (
    a,
    subst (λ is. AreCompiled t is (suc index) ss cs)
        (ap (λ b. if b then ids else s.step_id ∷ ids) a.fresh.0) (r n),
  )
  AreCompiled-cons t ids index s ss ds cs (rejected es) a r n =
      ground (arith, a, n, contains_errors-append es ds)

  compile_steps-AreCompiled :
      (t : Table (ComponentDescriptor J)) (ids : List ℕ) (index : ℕ) (ss : List (StepDefinition J))
      → let (ds, cs) = compile_steps validate catalog t ids index ss in
        contains_errors ds ≡ false → AreCompiled t ids index ss cs
  unfolding compile_steps
  compile_steps-AreCompiled t ids index [] n = tt
  compile_steps-AreCompiled t ids index (s ∷ ss) n =
      let (ds, cs) = compile_steps validate catalog t (insert s.step_id ids) (suc index) ss in
      AreCompiled-cons t ids index s ss ds cs
        (compile_step validate catalog t ids ("steps[" ⧺ to_string index ⧺ "]") s)
        (compile_step-Accepts validate catalog t ids _ s)
        (compile_steps-AreCompiled t (insert s.step_id ids) (suc index) ss) n

  -- Compiling a plan either reports an error and answers no steps, or reports none, and then the plan
  -- has a step and the answer has exactly its steps in their order. Each has an identifier that is
  -- positive and differs from those before it, a policy in range, an instrument if it names one, and a
  -- command of the catalog that is available, whose contracts the instrument provides and whose
  -- schema accepts the parameters. Every such instrument is one of the plan's, under its identifier,
  -- with the driver of the catalog that its type names.
  pub compile-AreCompiled :
      (plan : TestPlan J)
      → let r = compile validate catalog plan in
        ((contains_errors r.diagnostics ≡ true) × (r.value ≡ none))
        ⊎ ((contains_errors r.diagnostics ≡ false)
            × (empty_script plan.steps ≡ [])
            × ((steps : List (CompiledStep J)) × (r.value ≡ some steps)
                × AreCompiled
                    (admit_all validate catalog plan.instruments []).1
                    []
                    0
                    plan.steps
                    steps
                × AreOfPlan plan.instruments (admit_all validate catalog plan.instruments []).1))
  unfolding compile
  compile-AreCompiled plan =
      let (is, t) = admit_all validate catalog plan.instruments [] in
      let (ds, cs) = compile_steps validate catalog t [] 0 plan.steps in
      elim (Bool-cases (contains_errors (is ++ empty_script plan.steps ++ ds))) [
        | inl e ↦ inl (e, rw e refl)
        | inr e ↦
            let (e1, e3) = without_errors (is ++ empty_script plan.steps) ds e in
            let (_, e2) = without_errors is (empty_script plan.steps) e1 in
            inr (
              e,
              script plan.steps e2,
              (
                cs,
                rw e refl,
                compile_steps-AreCompiled t [] 0 plan.steps e3,
                of_plan plan.instruments,
              ),
            )
      ]
    where
      of_plan :
          (is : List (InstrumentDefinition J)) → AreOfPlan is (admit_all validate catalog is []).1
      of_plan is id d e = elim (admit_all-IsOfPlan is [] id d e) [ inl n ↦ cc | inr p ↦ p ]

      script :
          (ss : List (StepDefinition J))
          → contains_errors (empty_script ss) ≡ false
          → empty_script ss ≡ []
      script [] e = ground arith
      script (s ∷ ss) e = refl
