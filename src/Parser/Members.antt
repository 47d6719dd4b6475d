-- ===== src/Parser/Members.antt =====
-- The members of instruments, commands and policies, as Parsing/JsonTestPlanParser.cpp reads them.
-- The exceptions of the library's conversions are `std::exception`s, as the handlers expect.
use artest_cli.Base.{ℕ, ◌||◌, Option, none, some, String, ◌⧺◌, str_eq, is_empty, if◌then◌else◌}
use artest_cli.Base.Int.{ℤ, pos, negsuc}
use artest_cli.Compiler.Plan.{InstrumentDefinition, StepDefinition}
use artest_cli.Compiler.Steps.{Checked, accepted, rejected, fail}
use artest_cli.Diagnostics.{Outcome, returned, raised, what_or}
use artest_cli.Json.{Json, unsigned, is_object, is_number_integer, member, text_of}
use artest_cli.Results.{StepExecutionPolicy, FailureAction, default_policy}

-- What a missing member is replaced by.
abbrev pub or_default : {A : Type 0} → A → Option A → A
or_default a none = a
or_default a (some b) = b

-- An exception ends the `try` block.
infixl 5 ◌>>=◌
abbrev pub ◌>>=◌ : {A B : Type 0} → Outcome A → (A → Outcome B) → Outcome B
returned a >>= f = f a
raised what >>= f = raised what

abbrev pub invalid_argument : {A : Type 0} → String → Outcome A
invalid_argument what = raised (some what)

abbrev pub action_of : String → Option FailureAction
action_of s =
    if str_eq s "stop"
    then some FailureAction.stop
    else if str_eq s "continue"
    then some FailureAction.continue
    else none

abbrev pub instrument_of : String → Option String
instrument_of s = if str_eq s "NoInstrument" || is_empty s then none else some s

module _ (j : Json) where
  open j use {Value, view, get_int, get_int64, get_uint64}

  -- `contains(key)` with `[key].is_string()`, and with `[key].is_object()`.
  abbrev pub text_member : String → Value → Option String
  text_member key v = elim (member key (view v)) [ none ↦ none | some m ↦ text_of (view m) ]

  abbrev pub object_member : String → Value → Option Value
  object_member key v = elim (member key (view v)) [
    | none ↦ none
    | some m ↦ if is_object (view m) then some m else none
  ]

  abbrev pub integer_member : String → Value → Option Value
  integer_member key v = elim (member key (view v)) [
    | none ↦ none
    | some m ↦ if is_number_integer (view m) then some m else none
  ]

  -- An optional integer of a policy.
  unfoldable pub read_integer : String → (Value → Outcome ℤ) → ℤ → Value → Outcome ℤ
  read_integer key get default p = elim (member key (view p)) [
    | none ↦ returned default
    | some m ↦
        if is_number_integer (view m)
        then get m
        else invalid_argument (key ⧺ " must be an integer.")
  ]

  unfoldable pub read_action : Value → Outcome FailureAction
  read_action p = elim (member "onFailure" (view p)) [
    | none ↦ returned FailureAction.stop
    | some m ↦ elim (text_of (view m)) [
      | none ↦ invalid_argument "onFailure must be a string."
      | some s ↦ elim (action_of s) [
        | none ↦ invalid_argument "onFailure must be 'stop' or 'continue'."
        | some a ↦ returned a
      ]
    ]
  ]

  -- The `try` block over a policy.
  unfoldable pub read_policy : Value → Outcome StepExecutionPolicy
  read_policy p = do
    attempts ← read_integer "maxAttempts" get_int (pos 1) p
    delay ← read_integer "retryDelayMs" get_int64 (pos 0) p
    limit ← read_integer "timeoutMs" get_int64 (pos 0) p
    action ← read_action p
    returned (record {
      max_attempts = attempts;
      retry_delay = delay;
      timeout = limit;
      on_failure = action;
    })

  unfoldable pub policy_at : String → Option Value → Checked StepExecutionPolicy
  policy_at location none = accepted default_policy
  policy_at location (some p) =
      if is_object (view p)
      then elim (read_policy p) [
        | returned policy ↦ accepted policy
        | raised what ↦
            fail "COMMAND_POLICY_SCHEMA_INVALID" (what_or "" what) (location ⧺ ":policy")
      ]
      else fail "COMMAND_POLICY_SCHEMA_INVALID" "The policy member must be an object."
          (location ⧺ ":policy")

  abbrev pub positive_or_zero : Outcome ℤ → ℕ
  positive_or_zero (returned (pos n)) = n
  positive_or_zero (returned (negsuc n)) = 0
  positive_or_zero (raised what) = 0

  abbrev pub returned_or_zero : Outcome ℕ → ℕ
  returned_or_zero (returned n) = n
  returned_or_zero (raised what) = 0

  -- The identifier of an integer; 0 stands for one that is refused later.
  abbrev pub identifier : Value → ℕ
  identifier v = elim (view v) [
    | unsigned n ↦ returned_or_zero (get_uint64 v)
    | _ ↦ positive_or_zero (get_int64 v)
  ]

  abbrev pub incomplete_instrument : String → Checked (InstrumentDefinition Value)
  incomplete_instrument location =
      fail "INSTRUMENT_SCHEMA_INVALID"
        "The instrument definition is incomplete or has invalid types." location

  -- The body of the loop over the instruments.
  unfoldable pub parse_instrument : String → Value → Checked (InstrumentDefinition Value)
  parse_instrument location v = elim (text_member "type" v) [
    | none ↦ incomplete_instrument location
    | some type ↦ elim (text_member "id" v) [
      | none ↦ incomplete_instrument location
      | some id ↦ elim (object_member "config" v) [
        | none ↦ incomplete_instrument location
        | some config ↦ accepted (record { device_type = type; id = id; configuration = config })
      ]
    ]
  ]

  abbrev pub incomplete_command : String → Checked (StepDefinition Value)
  incomplete_command location =
      fail "COMMAND_SCHEMA_INVALID" "The command definition is incomplete or has invalid types."
        location

  -- The body of the loop over the commands.
  unfoldable pub parse_command : String → Value → Checked (StepDefinition Value)
  parse_command location v = elim (integer_member "stepId" v) [
    | none ↦ incomplete_command location
    | some id ↦ elim (text_member "name" v) [
      | none ↦ incomplete_command location
      | some name ↦ elim (text_member "instrument" v) [
        | none ↦ incomplete_command location
        | some instrument ↦ elim (object_member "params" v) [
          | none ↦ incomplete_command location
          | some params ↦ elim (policy_at location (member "policy" (view v))) [
            | rejected ds ↦ rejected ds
            | accepted policy ↦ accepted (record {
              step_id = identifier id;
              command_name = name;
              instrument_id = instrument_of instrument;
              parameters = params;
              policy = policy;
            })
          ]
        ]
      ]
    ]
  ]
