-- ===== src/Session/Binding.antt =====
-- `BindCommands` of Execution/ExecutionSession.cpp in source/ARTestEngine.Core: the commands of a
-- compiled plan are created, configured and validated when the session runs.
use artest_cli.Base.{ℕ, Option, none, some, List, [], ◌∷◌, String, if◌then◌else◌}
use artest_cli.Diagnostics.{Diagnostic, returned, raised, error_at, succeeded}
use artest_cli.Executor.Attempts.{RuntimeStep}
use artest_cli.Host.{Host, Reply}
use artest_cli.Instruments.Manager.{InstrumentManager, get_instrument}
use artest_cli.Results.{StepExecutionPolicy}
use artest_cli.World.{apply_effect}

-- Model/CompiledStep.h.
pub record CompiledStep (J : Type 0) : Type 0 where
  pub step_id : ℕ
  pub command_name : String
  pub component_type : String
  pub parameters : J
  pub instrument_id : Option String
  pub policy : StepExecutionPolicy

-- A result, the diagnostics of a refusal, or an exception that leaves the function.
pub data Setup (A : Type 0) : Type 0 where
  ready : A → Setup A
  refused : List Diagnostic → Setup A
  thrown : Option String → Setup A

module _ (h : Host) (lookup : String → Option h.CommandCreator) where
  open h use {Json, Command, Device, Bench, create_command, configure, validate}

  abbrev pub Manager : Type 0
  Manager = InstrumentManager h

  -- A call into the host moves the bench and the world on.
  abbrev pub after_call : {A : Type 0} → Reply Bench A → Manager → Manager
  after_call r m = record m { bench = r.bench; world = apply_effect r.effect m.world }

  abbrev unavailable : CompiledStep Json → List Diagnostic
  unavailable s =
      error_at "COMMAND_TYPE_UNAVAILABLE" "The compiled component is not active." s.component_type
      ∷ []

  abbrev device_for : CompiledStep Json → Manager → Option Device
  device_for s m = elim s.instrument_id [ none ↦ none | some id ↦ get_instrument h id m ]

  validate_step : CompiledStep Json → Command → Manager → Setup (RuntimeStep Command) × Manager
  validate_step s c m =
      let reply = validate c m.bench m.world in
      (
        elim reply.outcome [
          | raised what ↦ thrown what
          | returned r ↦
              if succeeded r
              then ready (record {
                step_id = s.step_id;
                command_name = s.command_name;
                command = c;
                policy = s.policy;
              })
              else refused r.diagnostics
        ],
        after_call reply m,
      )

  configure_step : CompiledStep Json → Command → Manager → Setup (RuntimeStep Command) × Manager
  unfolding validate_step
  configure_step s c m =
      let reply = configure c s.parameters (device_for s m) m.bench m.world in
      elim reply.outcome [
        | raised what ↦ (thrown what, after_call reply m)
        | returned (r, c') ↦
            if succeeded r
            then validate_step s c' (after_call reply m)
            else (refused r.diagnostics, after_call reply m)
      ]

  -- The body of the loop.
  unfoldable pub bind_step : CompiledStep Json → Manager → Setup (RuntimeStep Command) × Manager
  unfolding configure_step
  bind_step s m = elim (lookup s.component_type) [
    | none ↦ (refused (unavailable s), m)
    | some creator ↦
        let reply = create_command creator m.bench m.world in
        elim reply.outcome [
          | raised what ↦ (thrown what, after_call reply m)
          | returned none ↦ (refused (unavailable s), after_call reply m)
          | returned (some c) ↦ configure_step s c (after_call reply m)
        ]
  ]

  -- The steps bound so far are kept only if all are.
  abbrev pub bound_all :
      {A : Type 0}
      → Setup A × Manager
      → (A → Manager → Setup (List A) × Manager)
      → Setup (List A) × Manager
  bound_all (ready a, m) next = next a m
  bound_all (refused ds, m) next = (refused ds, m)
  bound_all (thrown what, m) next = (thrown what, m)

  abbrev pub prepend : {A : Type 0} → A → Setup (List A) × Manager → Setup (List A) × Manager
  prepend a (ready rest, m) = (ready (a ∷ rest), m)
  prepend a (refused ds, m) = (refused ds, m)
  prepend a (thrown what, m) = (thrown what, m)

  unfoldable pub bind_commands :
      List (CompiledStep Json) → Manager → Setup (List (RuntimeStep Command)) × Manager
  bind_commands [] m = (ready [], m)
  bind_commands (s ∷ rest) m = bound_all (bind_step s m) (λ a m1. prepend a (bind_commands rest m1))
