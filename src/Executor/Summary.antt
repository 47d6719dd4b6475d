-- ===== src/Executor/Summary.antt =====
-- The counters of a run's summary against its records.
use artest_cli.Base.{ℕ, suc, ◌+◌, ◌-◌, ◌≤◌, ◌≡◌, refl, ◌∙◌, List, [], ◌∷◌, length, arith, ap}
use artest_cli.Context.{ExecutionContext}
use artest_cli.Cancellation.{CancellationToken}
use artest_cli.Executor.Attempts.{RuntimeStep}
use artest_cli.Executor.Accounts.{account, tally, tally_all, build_summary}
use artest_cli.Executor.Runs.{Progress, gate, run_step, execute, step_loop}
use artest_cli.Executor.Loop.{step_loop_inv}
use artest_cli.Executor.Plan.{Follows, execute-Follows}
use artest_cli.Host.{Host}
use artest_cli.Results.{
  StepStatus, StepExecutionRecord, RunSummary, RunResult, empty_summary, new_run,
}
use artest_cli.World.{World, EventSink, now}

-- The steps by their status, the ones that were not reached among the skipped.
abbrev pub steps_counted : RunSummary → ℕ
steps_counted s =
    s.passed_steps + s.failed_steps + s.error_steps + s.cancelled_steps + s.timed_out_steps
    + s.skipped_steps

abbrev pub attempts_of : {J : Type 0} → List (StepExecutionRecord J) → ℕ
attempts_of [] = 0
attempts_of (r ∷ rs) = length r.attempts + attempts_of rs

-- What a summary promises of the plan and the records.
pub record Accounts {J : Type 0} (planned : ℕ) (rs : List (StepExecutionRecord J)) (s : RunSummary)
    : Type 0 where
  pub all_planned : s.planned_steps ≡ planned
  pub executed : s.executed_steps ≡ length rs
  pub conserved : steps_counted s ≡ planned
  pub attempts : s.total_attempts ≡ attempts_of rs

-- A tally adds one step to one counter.
tally_lem :
    (t : StepStatus) (n : ℕ) (s : RunSummary)
    → (steps_counted (tally t n s) ≡ suc (steps_counted s))
      × ((tally t n s).planned_steps ≡ s.planned_steps)
      × ((tally t n s).executed_steps ≡ s.executed_steps)
      × ((tally t n s).total_attempts ≡ s.total_attempts + n)
unfolding tally
tally_lem t n s = ground arith

tally_all_lem :
    {J : Type 0} (rs : List (StepExecutionRecord J)) (s : RunSummary)
    → (steps_counted (tally_all rs s) ≡ length rs + steps_counted s)
      × ((tally_all rs s).planned_steps ≡ s.planned_steps)
      × ((tally_all rs s).executed_steps ≡ s.executed_steps)
      × ((tally_all rs s).total_attempts ≡ s.total_attempts + attempts_of rs)
unfolding tally_all
tally_all_lem [] s = omega arith
tally_all_lem (r ∷ rs) s = omega (
  arith,
  tally_all_lem rs (tally r.result.status (length r.attempts) s),
  tally_lem r.result.status (length r.attempts) s,
)

-- A run has at most as many records as the plan has steps.
pub Follows-length :
    {J C : Type 0} (null : J) (plan : List (RuntimeStep C)) (rs : List (StepExecutionRecord J))
    → Follows null plan rs
    → length rs ≤ length plan
Follows-length null plan [] f = omega arith
Follows-length null [] (r ∷ rs) f = absurd f
Follows-length null (s ∷ plan) (r ∷ rs) f = omega (arith, Follows-length null plan rs f.2)

build_summary-Accounts :
    {J : Type 0} (run : RunResult J) (planned d : ℕ)
    → length run.steps ≤ planned
    → run.summary ≡ record empty_summary { duration = d }
    → Accounts planned run.steps (build_summary run planned).summary
unfolding build_summary
build_summary-Accounts run planned d l e =
    let t = tally_all_lem run.steps (record run.summary {
      planned_steps = planned;
      executed_steps = length run.steps;
      skipped_steps = planned - length run.steps;
    }) in
    record {
      all_planned = t.1;
      executed = t.2;
      conserved = ground (arith, t.0, e);
      attempts = ground (arith, t.3, e);
    }

module _ (h : Host) (sink : EventSink) (cancellation : CancellationToken) where
  open h use {Command, Bench, null}

  gate-summary :
      (i : ℕ) (s : RuntimeStep Command) (p : Progress h sink cancellation)
      → (gate h sink cancellation i s p).1.run.summary ≡ p.run.summary
  unfolding gate
  gate-summary i s p = ground arith

  run_step-summary :
      (s : RuntimeStep Command) (p : Progress h sink cancellation)
      → (run_step h sink cancellation s p).1.run.summary ≡ p.run.summary
  unfolding run_step account
  run_step-summary s p = refl

  step_loop-summary :
      (plan : List (RuntimeStep Command)) (p : Progress h sink cancellation)
      → p.run.summary ≡ empty_summary
      → (step_loop h sink cancellation 0 plan p).run.summary ≡ empty_summary
  step_loop-summary plan p e =
      step_loop_inv h sink cancellation (λ q. q.run.summary ≡ empty_summary)
        (λ i s q x. gate-summary i s q ∙ x) (λ s q x. run_step-summary s q ∙ x) 0 plan p e

  -- The counters of a run's summary cover the plan: passed, failed, error, cancelled, timed out and
  -- skipped steps add up to the planned ones, the executed ones are the records, and the attempts
  -- are those of all records, whatever the commands, the control and other threads do.
  pub execute-Accounts :
      (plan : List (RuntimeStep Command)) (c : ExecutionContext) (b : Bench) (w : World)
      → let run = (execute h sink cancellation plan c b w).run in
        Accounts (length plan) run.steps run.summary
  unfolding execute
  execute-Accounts plan c b w =
      let p : Progress h sink cancellation = record {
        run = new_run;
        context = c;
        bench = b;
        world = (now w).1;
      } in
      let q = step_loop h sink cancellation 0 plan p in
      let d = (now q.world).0 - (now w).0 in
      build_summary-Accounts (record q.run { summary = record q.run.summary { duration = d } })
        (length plan) d
        (Follows-length null plan q.run.steps (execute-Follows h sink cancellation plan c b w))
        (ap {A = RunSummary} (λ s. record s { duration = d }) (step_loop-summary plan p refl))
