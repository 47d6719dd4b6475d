-- ===== src/Parser/Denotes.antt =====
-- The plan that a JSON document denotes, stated without the control flow of the parser.
use artest_cli.Base.{ℕ, ◌≡◌, true, Option, none, some, List, [], ◌∷◌, String}
use artest_cli.Base.Int.{ℤ, pos, wrap, half_int, half_int64}
use artest_cli.Compiler.Plan.{InstrumentDefinition, StepDefinition, TestPlan}
use artest_cli.Json.{Json, is_object, integer_of, member, text_of}
use artest_cli.Parser.Members.{
  text_member, object_member, integer_member, action_of, instrument_of, identifier,
}
use artest_cli.Parser.Parse.{array_member}
use artest_cli.Results.{StepExecutionPolicy, FailureAction, default_policy}

-- The entries of two lists stand in a relation, one for one and in order.
abbrev pub Pairwise : {A B : Type 0} → (A → B → Type 0) → List A → List B → Type 0
Pairwise R [] [] = Unit
Pairwise R [] (b ∷ bs) = ⊥
Pairwise R (a ∷ as1) [] = ⊥
Pairwise R (a ∷ as1) (b ∷ bs) = R a b × Pairwise R as1 bs

module _ (j : Json) where
  open j use {Value, view}

  -- An optional integer member as a signed type of `2 * half` values holds it, or its default.
  abbrev pub IsInteger : ℕ → ℤ → Option Value → ℤ → Type 0
  IsInteger half default none z = z ≡ default
  IsInteger half default (some m) z = (y : ℤ) × (integer_of (view m) ≡ some y) × (z ≡ wrap half y)

  abbrev pub IsAction : Option Value → FailureAction → Type 0
  IsAction none a = a ≡ FailureAction.stop
  IsAction (some m) a = (s : String) × (text_of (view m) ≡ some s) × (action_of s ≡ some a)

  pub record IsPolicy (p : Value) (q : StepExecutionPolicy) : Type 0 where
    pub attempts : IsInteger half_int (pos 1) (member "maxAttempts" (view p)) q.max_attempts
    pub delay : IsInteger half_int64 (pos 0) (member "retryDelayMs" (view p)) q.retry_delay
    pub limit : IsInteger half_int64 (pos 0) (member "timeoutMs" (view p)) q.timeout
    pub action : IsAction (member "onFailure" (view p)) q.on_failure

  abbrev pub IsPolicyMember : Option Value → StepExecutionPolicy → Type 0
  IsPolicyMember none q = q ≡ default_policy
  IsPolicyMember (some p) q = (is_object (view p) ≡ true) × IsPolicy p q

  pub record IsInstrument (v : Value) (i : InstrumentDefinition Value) : Type 0 where
    pub device_type : text_member j "type" v ≡ some i.device_type
    pub id : text_member j "id" v ≡ some i.id
    pub configuration : object_member j "config" v ≡ some i.configuration

  pub record IsCommand (v : Value) (s : StepDefinition Value) : Type 0 where
    pub id : Value
    pub has_id : integer_member j "stepId" v ≡ some id
    pub step_id : s.step_id ≡ identifier j id
    pub name : text_member j "name" v ≡ some s.command_name
    pub instrument : String
    pub has_instrument : text_member j "instrument" v ≡ some instrument
    pub binding : s.instrument_id ≡ instrument_of instrument
    pub parameters : object_member j "params" v ≡ some s.parameters
    pub policy : IsPolicyMember (member "policy" (view v)) s.policy

  pub record IsPlan (root : Value) (plan : TestPlan Value) : Type 0 where
    pub is_root : is_object (view root) ≡ true
    pub format : text_member j "format" root ≡ some "ARTest.Script"
    pub one : plan.version ≡ pos 1
    pub number : Value
    pub has_version : integer_member j "version" root ≡ some number
    pub written : ℤ
    pub has_written : integer_of (view number) ≡ some written
    pub version : plan.version ≡ wrap half_int written
    pub devices : List Value
    pub has_instruments : array_member j "instruments" root ≡ some devices
    pub instruments : Pairwise IsInstrument devices plan.instruments
    pub commands : List Value
    pub has_commands : array_member j "commands" root ≡ some commands
    pub steps : Pairwise IsCommand commands plan.steps
