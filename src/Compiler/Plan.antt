-- ===== src/Compiler/Plan.antt =====
-- Model/TestPlan.h of source/ARTestEngine.Core.
use artest_cli.Base.{ℕ, Option, List, String}
use artest_cli.Base.Int.{ℤ}
use artest_cli.Results.{StepExecutionPolicy}

pub record InstrumentDefinition (J : Type 0) : Type 0 where
  pub device_type : String
  pub id : String
  pub configuration : J

pub record StepDefinition (J : Type 0) : Type 0 where
  pub step_id : ℕ
  pub command_name : String
  pub instrument_id : Option String
  pub parameters : J
  pub policy : StepExecutionPolicy

pub record TestPlan (J : Type 0) : Type 0 where
  pub version : ℤ
  pub instruments : List (InstrumentDefinition J)
  pub steps : List (StepDefinition J)
