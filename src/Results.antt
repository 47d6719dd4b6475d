-- ===== src/Results.antt =====
-- Execution/ExecutionResult.h and Model/ExecutionPolicy.h of source/ARTestEngine.Core.
-- `nlohmann::json` is the type parameter `J`: these types only carry its values.
use artest_cli.Base.{ℕ, Bool, true, false, List, [], String}
use artest_cli.Base.Int.{ℤ, pos}
use artest_cli.Diagnostics.{Diagnostic}

pub data StepStatus : Type 0 where
  passed failed error skipped cancelled timed_out : StepStatus

pub record StepResult (J : Type 0) : Type 0 where
  pub status : StepStatus
  pub message : String
  pub data_schema : String
  pub payload : J
  pub indeterminate : Bool

abbrev pub is_passed : StepStatus → Bool
is_passed StepStatus.passed = true
is_passed _ = false

abbrev pub is_cancelled : StepStatus → Bool
is_cancelled StepStatus.cancelled = true
is_cancelled _ = false

-- `StepResult{status, message}`, the other fields by default.
abbrev pub step_result : {J : Type 0} → J → StepStatus → String → StepResult J
step_result null status message = record {
  status = status;
  message = message;
  data_schema = "";
  payload = null;
  indeterminate = false;
}

pub record StepAttemptRecord (J : Type 0) : Type 0 where
  pub attempt : ℕ
  pub result : StepResult J
  pub duration : ℕ

pub record StepExecutionRecord (J : Type 0) : Type 0 where
  pub step_id : ℕ
  pub command_name : String
  pub result : StepResult J
  pub duration : ℕ
  pub attempts : List (StepAttemptRecord J)

pub data RunFailureKind : Type 0 where
  no_failure initialization execution cleanup internal : RunFailureKind

pub data RunStatus : Type 0 where
  passed failed error cancelled timed_out : RunStatus

pub record RunSummary : Type 0 where
  pub planned_steps : ℕ
  pub executed_steps : ℕ
  pub passed_steps : ℕ
  pub failed_steps : ℕ
  pub error_steps : ℕ
  pub cancelled_steps : ℕ
  pub timed_out_steps : ℕ
  pub skipped_steps : ℕ
  pub total_attempts : ℕ
  pub duration : ℕ

pub record RunResult (J : Type 0) : Type 0 where
  pub status : RunStatus
  pub failure_kind : RunFailureKind
  pub steps : List (StepExecutionRecord J)
  pub diagnostics : List Diagnostic
  pub summary : RunSummary

abbrev pub run_succeeded : {J : Type 0} → RunResult J → Bool
run_succeeded r = elim r.status [ RunStatus.passed ↦ true | _ ↦ false ]

abbrev pub empty_summary : RunSummary
empty_summary = record {
  planned_steps = 0;
  executed_steps = 0;
  passed_steps = 0;
  failed_steps = 0;
  error_steps = 0;
  cancelled_steps = 0;
  timed_out_steps = 0;
  skipped_steps = 0;
  total_attempts = 0;
  duration = 0;
}

-- `RunResult run;`
abbrev pub new_run : {J : Type 0} → RunResult J
new_run = record {
  status = RunStatus.passed;
  failure_kind = no_failure;
  steps = [];
  diagnostics = [];
  summary = empty_summary;
}

pub data FailureAction : Type 0 where
  stop continue : FailureAction

-- Milliseconds are `int64`, attempts `int`.
pub record StepExecutionPolicy : Type 0 where
  pub max_attempts : ℤ
  pub retry_delay : ℤ
  pub timeout : ℤ
  pub on_failure : FailureAction

abbrev pub default_policy : StepExecutionPolicy
default_policy = record {
  max_attempts = pos 1;
  retry_delay = pos 0;
  timeout = pos 0;
  on_failure = stop;
}
