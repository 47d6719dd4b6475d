-- ===== src/Executor/Accounts.antt =====
-- The statuses, the counts and the summary of `TestExecutor::Execute` in Execution/TestExecutor.cpp of
-- source/ARTestEngine.Core.
use artest_cli.Base.{
  ℕ, suc, ◌+◌, ◌-◌, ◌||◌, ◌&&◌, Bool, true, false, not, List, [], ◌∷◌, ◌++◌, String, ◌⧺◌, length,
  ltb, to_string, if◌then◌else◌,
}
use artest_cli.Results.{
  StepStatus, RunStatus, StepResult, StepExecutionRecord, RunSummary, RunResult, execution,
  FailureAction, stop, continue, is_passed, is_cancelled,
}
use artest_cli.Executor.Attempts.{RuntimeStep}

abbrev pub run_status_text : RunStatus → String
run_status_text RunStatus.passed = "PASSED"
run_status_text RunStatus.failed = "FAILED"
run_status_text RunStatus.error = "ERROR"
run_status_text RunStatus.cancelled = "CANCELLED"
run_status_text RunStatus.timed_out = "TIMED_OUT"

unfoldable pub run_status_for : StepStatus → RunStatus
run_status_for StepStatus.passed = RunStatus.passed
run_status_for StepStatus.failed = RunStatus.failed
run_status_for StepStatus.cancelled = RunStatus.cancelled
run_status_for StepStatus.timed_out = RunStatus.timed_out
run_status_for StepStatus.error = RunStatus.error
run_status_for StepStatus.skipped = RunStatus.error

unfoldable pub severity : RunStatus → ℕ
severity RunStatus.passed = 0
severity RunStatus.failed = 1
severity RunStatus.error = 2
severity RunStatus.timed_out = 3
severity RunStatus.cancelled = 4

-- `AccumulateStatus`: the new status of the run.
unfoldable pub accumulate_status : RunStatus → StepStatus → RunStatus
unfolding run_status_for severity
accumulate_status s t =
    if ltb (severity s) (severity (run_status_for t)) then run_status_for t else s

-- The body of the loop of `BuildSummary`.
unfoldable pub tally : StepStatus → ℕ → RunSummary → RunSummary
tally status attempts s =
    let t = record s { total_attempts = s.total_attempts + attempts } in
    elim status [
      | StepStatus.passed ↦ record t { passed_steps = suc s.passed_steps }
      | StepStatus.failed ↦ record t { failed_steps = suc s.failed_steps }
      | StepStatus.error ↦ record t { error_steps = suc s.error_steps }
      | StepStatus.cancelled ↦ record t { cancelled_steps = suc s.cancelled_steps }
      | StepStatus.timed_out ↦ record t { timed_out_steps = suc s.timed_out_steps }
      | StepStatus.skipped ↦ record t { skipped_steps = suc s.skipped_steps }
    ]

unfoldable pub tally_all : {J : Type 0} → List (StepExecutionRecord J) → RunSummary → RunSummary
unfolding tally
tally_all [] s = s
tally_all (r ∷ rs) s = tally_all rs (tally r.result.status (length r.attempts) s)

-- `BuildSummary`.
unfoldable pub build_summary : {J : Type 0} → RunResult J → ℕ → RunResult J
unfolding tally_all
build_summary run planned = record run {
  summary = tally_all run.steps (record run.summary {
    planned_steps = planned;
    executed_steps = length run.steps;
    skipped_steps = planned - length run.steps;
  });
}

unfoldable pub summary_text : {J : Type 0} → RunResult J → String
summary_text run =
    run_status_text run.status
    ⧺ " | planned="
    ⧺ to_string s.planned_steps
    ⧺ " executed="
    ⧺ to_string s.executed_steps
    ⧺ " passed="
    ⧺ to_string s.passed_steps
    ⧺ " failed="
    ⧺ to_string s.failed_steps
    ⧺ " errors="
    ⧺ to_string s.error_steps
    ⧺ " timedOut="
    ⧺ to_string s.timed_out_steps
    ⧺ " cancelled="
    ⧺ to_string s.cancelled_steps
    ⧺ " skipped="
    ⧺ to_string s.skipped_steps
    ⧺ " attempts="
    ⧺ to_string s.total_attempts
    ⧺ " durationMs="
    ⧺ to_string s.duration
  where
    open run use {summary as s}

abbrev pub is_stop : FailureAction → Bool
is_stop stop = true
is_stop continue = false

-- The tests that end the run after a step.
abbrev pub ends_run : {J C : Type 0} → RuntimeStep C → StepResult J → Bool
ends_run step r =
    not (is_passed r.status)
    && (is_cancelled r.status || r.indeterminate || is_stop step.policy.on_failure)

-- The verdict, `failureKind` and the record that a step adds to the run.
unfoldable pub account : {J : Type 0} → StepExecutionRecord J → RunResult J → RunResult J
account r run = record run {
  status = accumulate_status run.status r.result.status;
  failure_kind = if is_passed r.result.status then run.failure_kind else execution;
  steps = run.steps ++ r ∷ [];
}
