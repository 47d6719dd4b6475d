-- ===== src/Tests/Executor.antt =====
-- The executor on the simulated host.
use artest_cli.Base.{ℕ, ◌≡◌, ◌↔◌, refl, List, [], ◌∷◌, map, length, All}
use artest_cli.Cancellation.{source_token}
use artest_cli.Context.{new_context}
use artest_cli.Executor.Attempts.{Machine, attempt_loop, run_attempt, retry_wait}
use artest_cli.Executor.Cancel.{attempt_loop-cancelled, execute-requested}
use artest_cli.Executor.Plan.{Follows, execute-Follows}
use artest_cli.Executor.Accounts.{account, accumulate_status, build_summary}
use artest_cli.Executor.Runs.{execute, step_loop, gate, run_step}
use artest_cli.Executor.Severity.{AtMost, execute-severity}
use artest_cli.Executor.Summary.{Accounts, execute-Accounts}
use artest_cli.Executor.Verdict.{IsPassed, execute_verdict}
use artest_cli.Cancellation.{
  is_cancellation_requested, is_timed_out, reason, wait_until_requested, sleep_until, block_until,
  wait_for, with_timeout,
}
use artest_cli.Results.{StepStatus, StepResult, stop, RunStatus, RunResult}
use artest_cli.Tests.Bench.{demo, plan, step_of, quiet, revoked, failed_once}
use artest_cli.World.{World, direct, publish, pass, now, apply_effect}

abbrev run_of : World → RunResult ℕ
run_of w = (execute demo direct source_token plan new_context 0 w).run

-- The second step ends the run, so the third has no record.
shortened : map (λ r. r.step_id) (run_of quiet).steps ≡ 1 ∷ 2 ∷ []
unfolding execute step_loop gate run_step account accumulate_status build_summary attempt_loop
    run_attempt retry_wait wait_for reason block_until wait_until_requested sleep_until
    is_cancellation_requested is_timed_out with_timeout publish pass now apply_effect
shortened = refl

execute-Follows_example : Follows 0 plan (run_of quiet).steps
execute-Follows_example = execute-Follows demo direct source_token plan new_context 0 quiet

execute_verdict_example :
    ((run_of quiet).status ≡ RunStatus.passed)
    ↔ ((length (run_of quiet).steps ≡ 3) × All IsPassed (run_of quiet).steps)
execute_verdict_example = execute_verdict demo direct source_token plan new_context 0 quiet

execute-Accounts_example : Accounts 3 (run_of quiet).steps (run_of quiet).summary
execute-Accounts_example = execute-Accounts demo direct source_token plan new_context 0 quiet

execute-severity_example : All (AtMost (run_of quiet).status) (run_of quiet).steps
unfolding execute step_loop gate run_step account build_summary attempt_loop run_attempt retry_wait
    wait_for reason block_until wait_until_requested sleep_until is_cancellation_requested
    is_timed_out with_timeout publish pass now apply_effect
execute-severity_example = execute-severity demo direct source_token plan new_context 0 quiet refl

execute-requested_example :
    let q =
      execute demo direct source_token
        (step_of 1 (failed_once ∷ []) stop ∷ [])
        new_context
        7
        revoked in
    (q.run.status ≡ RunStatus.cancelled)
    × (q.run.steps ≡ [])
    × (q.bench ≡ 7)
    × (q.context ≡ new_context)
execute-requested_example =
    execute-requested demo direct source_token refl (step_of 1 (failed_once ∷ []) stop ∷ [])
      new_context 7 revoked refl

abbrev start : Machine (List (StepResult ℕ)) ℕ
start = record { command = failed_once ∷ []; context = new_context; bench = 0; world = revoked }

attempt_loop-cancelled_example :
    let e = attempt_loop demo direct source_token (step_of 1 [] stop) 2 1 start in
    (e.result.status ≡ StepStatus.cancelled) × (length e.attempts ≡ 1)
unfolding publish now pass with_timeout apply_effect
attempt_loop-cancelled_example =
    attempt_loop-cancelled demo direct source_token refl (step_of 1 [] stop) 2 1 start refl
