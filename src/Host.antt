-- ===== src/Host.antt =====
-- What the engine calls and does not implement: commands, instruments and execution control of
-- the interfaces Commands/ICommand.h, Instruments/IInstrument.h and Execution/IExecutionControl.h
-- in source/ARTestEngine.Core, and the JSON values of the vendored library. All is a parameter.
use artest_cli.Base.{ℕ, Option, String}
use artest_cli.Cancellation.{CancellationToken}
use artest_cli.Context.{ExecutionContext}
use artest_cli.Diagnostics.{Outcome, OperationResult}
use artest_cli.Results.{StepResult}
use artest_cli.World.{World, Effect}

pub data ExecutionDecision : Type 0 where
  proceed cancel : ExecutionDecision

pub record StepExecutionInfo : Type 0 where
  pub command_index : ℕ
  pub step_id : ℕ
  pub command_name : String

-- The answer of a call, the state of the test bench after it, and what else happened meanwhile.
pub record Reply (B A : Type 0) : Type 0 where
  pub outcome : Outcome A
  pub bench : B
  pub effect : Effect

pub record CommandReply (J C B : Type 0) : Type 0 where
  pub outcome : Outcome (StepResult J)
  pub command : C
  pub context : ExecutionContext
  pub bench : B
  pub effect : Effect

-- `Command` is a command object with its state, `Device` a pointer to an instrument, `Bench` the
-- state of the instruments and of all that lies outside the engine. A creator may answer null.
pub record Host : Type 1 where
  pub Json : Type 0
  pub Command : Type 0
  pub Device : Type 0
  pub Bench : Type 0
  pub CommandCreator : Type 0
  pub InstrumentCreator : Type 0
  pub null : Json
  pub execute :
      Command
      → ExecutionContext
      → CancellationToken
      → Bench
      → World
      → CommandReply Json Command Bench
  pub before_step : StepExecutionInfo → Bench → World → Reply Bench ExecutionDecision
  pub create_command : CommandCreator → Bench → World → Reply Bench (Option Command)
  pub configure :
      Command → Json → Option Device → Bench → World → Reply Bench (OperationResult × Command)
  pub validate : Command → Bench → World → Reply Bench OperationResult
  pub create_instrument : InstrumentCreator → Bench → World → Reply Bench (Option Device)
  pub set_id : Device → String → Bench → World → Reply Bench (Unit {0})
  pub initialize : Device → Json → Bench → World → Reply Bench OperationResult
  pub shutdown : Device → Bench → World → Reply Bench OperationResult
