-- ===== src/Compiler/Soundness.antt =====
-- What a compiled plan guarantees to the session that runs it.
use artest_cli.Base.{
  ℕ, ◌≡◌, refl, ◌∙◌, inl, inr, not, Bool, true, false, Option, none, some, List, [], ◌∷◌, map, any,
  All, String, ◌⧺◌, is_empty, ◌==◌, if◌then◌else◌, arith, Bool-cases,
}
use artest_cli.Base.Int.{pos, ◌≤ℤ◌}
use artest_cli.Diagnostics.{Diagnostic, OperationResult, succeeded, contains_errors}
use artest_cli.Results.{StepExecutionPolicy}
use artest_cli.Registry.Creators.{Table, lookup}
use artest_cli.Catalog.Components.{ComponentDescriptor, SchemaBinding, Components, find, schema}
use artest_cli.Compiler.Plan.{StepDefinition}
use artest_cli.Compiler.Steps.{
  Checked, accepted, rejected, definition_failure, is_command, relabel, provides, contract_failures,
  compiled_step, bound, check_parameters, check_command, compile_step,
}
use artest_cli.Session.Binding.{CompiledStep}

-- Attempts and times in the documented ranges.
abbrev pub InRange : StepExecutionPolicy → Type 0
InRange p =
    (pos 1 ≤ℤ p.max_attempts)
    × (p.max_attempts ≤ℤ pos 100)
    × (pos 0 ≤ℤ p.retry_delay)
    × (pos 0 ≤ℤ p.timeout)

-- A positive identifier that is not among the earlier ones.
abbrev pub IsFresh : List ℕ → ℕ → Type 0
IsFresh ids id = ((id == 0) ≡ false) × (any (λ i. i == id) ids ≡ false)

definition_failure_lem :
    (ids : List ℕ) (id : ℕ) (p : StepExecutionPolicy)
    → definition_failure ids id p ≡ none
    → IsFresh ids id × InRange p
unfolding definition_failure
definition_failure_lem ids id p e = ground arith

contains_errors-relabel :
    (code : String) (id : ℕ) (ds : List Diagnostic)
    → contains_errors (map (relabel code id) ds) ≡ contains_errors ds
contains_errors-relabel code id [] = refl
contains_errors-relabel code id (d ∷ ds) = ground (arith, contains_errors-relabel code id ds)

-- What an accepted step satisfies; a rejection says why.
abbrev pub Accepts : {A : Type 0} → (A → Type 0) → Checked A → Type 0
Accepts P (accepted a) = P a
Accepts P (rejected ds) = contains_errors ds ≡ true

-- A branch of the compiler is followed with the value of its test.
module _ {A : Type 0} (P : A → Type 0) where
  follow_test :
      (b : Bool) (x y : Checked A)
      → (b ≡ true → Accepts P x)
      → (b ≡ false → Accepts P y)
      → Accepts P (if b then x else y)
  follow_test true x y f g = f refl
  follow_test false x y f g = g refl

  follow_option :
      {B : Type 0} (o : Option B) (x : Checked A) (y : B → Checked A)
      → (o ≡ none → Accepts P x)
      → ((b : B) → o ≡ some b → Accepts P (y b))
      → Accepts P (elim o [ none ↦ x | some b ↦ y b ])
  follow_option none x y f g = f refl
  follow_option (some b) x y f g = g b refl

  follow_checked :
      {B : Type 0} (Q : B → Type 0) (c : Checked B) (y : B → Checked A)
      → Accepts Q c
      → ((b : B) → Q b → Accepts P (y b))
      → Accepts P (elim c [ rejected ds ↦ rejected ds | accepted b ↦ y b ])
  follow_checked Q (rejected ds) y q g = q
  follow_checked Q (accepted b) y q g = g b q

module _ {J : Type 0} where
  -- The step is bound to no instrument, or to one of the plan, whose descriptor is given.
  abbrev pub IsBound :
      Table (ComponentDescriptor J) → Option String → Option (ComponentDescriptor J) → Type 0
  IsBound t none o = o ≡ none
  IsBound t (some id) o = (d : ComponentDescriptor J) × (lookup id t ≡ some d) × (o ≡ some d)

  abbrev AreProvided : Option (ComponentDescriptor J) → List String → List Diagnostic → Type 0
  AreProvided o ks [] = All (λ k. provides o k ≡ true) ks
  AreProvided o ks (f ∷ fs) = contains_errors (f ∷ fs) ≡ true

  contract_failures-AreProvided :
      (o : Option (ComponentDescriptor J)) (location : String) (ks : List String)
      → AreProvided o ks (contract_failures o location ks)
  unfolding contract_failures
  contract_failures-AreProvided o location [] = tt
  contract_failures-AreProvided o location (k ∷ ks) = elim (Bool-cases (provides o k)) [
    | inl y ↦ rw y (
        AreProvided-cons (contract_failures o location ks) y
          (contract_failures-AreProvided o location ks))
    | inr n ↦ rw n refl
  ]
    where
      AreProvided-cons :
          (fs : List Diagnostic)
          → provides o k ≡ true
          → AreProvided o ks fs
          → AreProvided o (k ∷ ks) fs
      AreProvided-cons [] y a = (y, a)
      AreProvided-cons (f ∷ fs) y a = a

  bound-Accepts :
      (id : Option String) (t : Table (ComponentDescriptor J)) (location : String)
      → Accepts (IsBound t id) (bound id t location)
  bound-Accepts none t location = refl
  bound-Accepts (some id) t location =
      follow_option (IsBound t (some id)) (lookup id t) _ _ (λ e. refl) (λ d e. (d, e, refl))

module _ {J : Type 0} (validate : J → J → String → OperationResult) (catalog : Components J) where
  -- The parameters pass the schema that the command declares.
  abbrev pub AreValid : String → StepDefinition J → ComponentDescriptor J → Type 0
  AreValid location s d =
      (b : SchemaBinding J) × (schema "parameters" d.schemas ≡ some b)
      × (succeeded (validate b.document s.parameters (location ⧺ "/params")) ≡ true)

  -- The descriptor is an available command whose contracts the instrument provides.
  abbrev pub IsUsable : Option (ComponentDescriptor J) → ComponentDescriptor J → Type 0
  IsUsable o d =
      (is_command d.kind ≡ true)
      × (is_empty d.unavailable_code ≡ true)
      × All (λ k. provides o k ≡ true) d.required_contracts

  pub record IsCompiled (t : Table (ComponentDescriptor J)) (ids : List ℕ) (location : String)
      (s : StepDefinition J) (c : CompiledStep J) : Type 0 where
    pub fresh : IsFresh ids s.step_id
    pub in_range : InRange s.policy
    pub instrument : Option (ComponentDescriptor J)
    pub is_bound : IsBound t s.instrument_id instrument
    pub descriptor : ComponentDescriptor J
    pub known : find s.command_name catalog ≡ some descriptor
    pub usable : IsUsable instrument descriptor
    pub valid : AreValid location s descriptor
    pub step : c ≡ compiled_step s descriptor

  check_parameters-Accepts :
      (location : String) (s : StepDefinition J) (d : ComponentDescriptor J)
      → Accepts
          (λ c. AreValid location s d × (c ≡ compiled_step s d))
          (check_parameters validate catalog location s d)
  unfolding check_parameters
  check_parameters-Accepts location s d =
      follow_option _ (schema "parameters" d.schemas) _ _ (λ e. refl)
        (λ b e.
          follow_test _ (succeeded (validate b.document s.parameters (location ⧺ "/params"))) _ _
            (λ y. ((b, e, y), refl))
            (λ n. contains_errors-relabel d.validation_code s.step_id _ ∙ ground arith))

  -- The command part of a compiled step.
  abbrev Runs :
      String
      → StepDefinition J
      → Option (ComponentDescriptor J)
      → ComponentDescriptor J
      → CompiledStep J
      → Type 0
  Runs location s o d c = IsUsable o d × AreValid location s d × (c ≡ compiled_step s d)

  with_contracts :
      (location : String) (s : StepDefinition J) (o : Option (ComponentDescriptor J))
      (d : ComponentDescriptor J) (fs : List Diagnostic) (x : Checked (CompiledStep J))
      → is_command d.kind ≡ true
      → is_empty d.unavailable_code ≡ true
      → AreProvided o d.required_contracts fs
      → Accepts (λ c. AreValid location s d × (c ≡ compiled_step s d)) x
      → Accepts (Runs location s o d) (elim fs [ [] ↦ x | f ∷ gs ↦ rejected (f ∷ gs) ])
  with_contracts location s o d [] (accepted c) y z a b = ((y, z, a), b.0, b.1)
  with_contracts location s o d [] (rejected ds) y z a b = b
  with_contracts location s o d (f ∷ fs) x y z a b = a

  check_command-Accepts :
      (location : String) (s : StepDefinition J) (o : Option (ComponentDescriptor J))
      (d : ComponentDescriptor J)
      → Accepts (Runs location s o d) (check_command validate catalog location s o d)
  unfolding check_command
  check_command-Accepts location s o d =
      follow_test _ (not (is_command d.kind)) _ _ (λ y. refl)
        (λ y.
          follow_test _ (not (is_empty d.unavailable_code)) _ _ (λ z. refl)
            (λ z.
              with_contracts location s o d (contract_failures o location d.required_contracts) _
                (ground arith) (ground arith)
                (contract_failures-AreProvided o location d.required_contracts)
                (check_parameters-Accepts location s d)))

  pub compile_step-Accepts :
      (t : Table (ComponentDescriptor J)) (ids : List ℕ) (location : String) (s : StepDefinition J)
      → Accepts (IsCompiled t ids location s) (compile_step validate catalog t ids location s)
  unfolding compile_step
  compile_step-Accepts t ids location s =
      follow_option _ (definition_failure ids s.step_id s.policy) _ _
        (λ e.
          follow_checked _ (IsBound t s.instrument_id) (bound s.instrument_id t location) _
            (bound-Accepts s.instrument_id t location)
            (λ o b.
              follow_option _ (find s.command_name catalog) _ _ (λ f. refl)
                (λ d f.
                  Runs-IsCompiled t ids location s o d e b f
                    (check_command validate catalog location s o d)
                    (check_command-Accepts location s o d))))
        (λ p e. refl)
    where
      Runs-IsCompiled :
          (t : Table (ComponentDescriptor J)) (ids : List ℕ) (location : String)
          (s : StepDefinition J) (o : Option (ComponentDescriptor J)) (d : ComponentDescriptor J)
          → definition_failure ids s.step_id s.policy ≡ none
          → IsBound t s.instrument_id o
          → find s.command_name catalog ≡ some d
          → (x : Checked (CompiledStep J)) → Accepts (Runs location s o d) x
          → Accepts (IsCompiled t ids location s) x
      Runs-IsCompiled t ids location s o d e b f (rejected ds) r = r
      Runs-IsCompiled t ids location s o d e b f (accepted c) r =
          let (i, j) = definition_failure_lem ids s.step_id s.policy e in
          record {
            fresh = i;
            in_range = j;
            instrument = o;
            is_bound = b;
            descriptor = d;
            known = f;
            usable = r.0;
            valid = r.1;
            step = r.2;
          }
