-- ===== src/Executor/Runs.antt =====
-- A run: the step loop and the verdict of `TestExecutor::Execute` in
-- Execution/TestExecutor.cpp of source/ARTestEngine.Core.
use artest_cli.Base.{
  ℕ, suc, ◌-◌, Bool, true, false, none, some, List, [], ◌∷◌, ◌++◌, String, ◌⧺◌, length, to_string,
  if◌then◌else◌,
}
use artest_cli.Base.Int.{pos}
use artest_cli.Cancellation.{CancellationToken, is_cancellation_requested}
use artest_cli.Context.{ExecutionContext}
use artest_cli.Diagnostics.{returned, raised, Diagnostic, error_at}
use artest_cli.Host.{Host, StepExecutionInfo, proceed, cancel}
use artest_cli.Results.{
  RunStatus, StepExecutionRecord, RunResult, execution, internal, new_run, run_succeeded, is_passed,
}
use artest_cli.World.{
  World, EventSink, EngineEvent, EngineEventSeverity, event, step_started, step_completed,
  run_completed, diagnostic, publish, now, apply_effect,
}
use artest_cli.Executor.Attempts.{RuntimeStep, Machine, AttemptsEnd, maximum_attempts, attempt_loop}
use artest_cli.Executor.Accounts.{account, build_summary, ends_run, summary_text}

module _ {C : Type 0} (step : RuntimeStep C) where
  abbrev pub step_started_event : EngineEvent
  step_started_event =
      record (event step_started EngineEventSeverity.information step.command_name
        "Executing step.") { step_id = some step.step_id }

  abbrev pub step_completed_event : {J : Type 0} → StepExecutionRecord J → EngineEvent
  step_completed_event r =
      record (event step_completed
        (if is_passed r.result.status
          then EngineEventSeverity.information
          else EngineEventSeverity.error)
        step.command_name r.result.message) {
          step_id = some step.step_id;
          step_status = some r.result.status;
          attempt = some (length r.attempts);
          duration = some (pos r.duration);
        }

  -- The event that reports an exception of the execution control.
  abbrev pub control_event : String → EngineEvent
  control_event what =
      record (event diagnostic EngineEventSeverity.error "EXECUTION_CONTROL_EXCEPTION" what) {
        step_id = some step.step_id;
      }

  abbrev pub control_diagnostic : String → Diagnostic
  control_diagnostic what =
      error_at "EXECUTION_CONTROL_EXCEPTION" what ("stepId=" ⧺ to_string step.step_id)

abbrev pub run_completed_event : {J : Type 0} → String → String → RunResult J → EngineEvent
run_completed_event source text run =
    record (event run_completed
      (if run_succeeded run then EngineEventSeverity.information else EngineEventSeverity.error)
      source text) { run_status = some run.status; duration = some (pos run.summary.duration) }

module _ (h : Host) (sink : EventSink) (cancellation : CancellationToken) where
  open h use {Json, Command, Bench, before_step}

  -- The run so far, the variables, the bench and the world.
  pub record Progress : Type 0 where
    pub run : RunResult Json
    pub context : ExecutionContext
    pub bench : Bench
    pub world : World

  -- The tests before a step: whether it is to be executed, and the run with the reason if not.
  unfoldable pub gate : ℕ → RuntimeStep Command → Progress → Bool × Progress
  gate index step p =
      let (asked, w1) = is_cancellation_requested cancellation p.world in
      let info : StepExecutionInfo = record {
        command_index = index;
        step_id = step.step_id;
        command_name = step.command_name;
      } in
      let reply = before_step info p.bench w1 in
      let w2 = apply_effect reply.effect w1 in
      let q : Progress = record p { bench = reply.bench; world = w2 } in
      if asked
      then (
        false,
        record p {
          run = record p.run { status = RunStatus.cancelled; failure_kind = execution };
          world = w1;
        },
      )
      else elim reply.outcome [
        | returned proceed ↦ (true, q)
        | returned cancel ↦ (
          false,
          record q {
            run = record p.run { status = RunStatus.cancelled; failure_kind = execution };
          },
        )
        | raised (some what) ↦ (
          false,
          record q {
            run = record p.run {
              status = RunStatus.error;
              failure_kind = internal;
              diagnostics = p.run.diagnostics ++ control_diagnostic step what ∷ [];
            };
            world = publish sink (control_event step what) w2;
          },
        )
        | raised none ↦ (
          false,
          record q {
            run = record p.run {
              status = RunStatus.error;
              failure_kind = internal;
              diagnostics =
                  p.run.diagnostics
                  ++ control_diagnostic step "Unknown exception from the execution control." ∷ [];
            };
          },
        )
      ]

  -- The attempts of a step, after the event that announces it.
  abbrev pub begin_step : RuntimeStep Command → Progress → Machine Command Bench
  begin_step step p = record {
    command = step.command;
    context = p.context;
    bench = p.bench;
    world = (now (publish sink (step_started_event step) p.world)).1;
  }

  unfoldable pub step_attempts :
      (step : RuntimeStep Command) → Progress → AttemptsEnd h sink cancellation step
  step_attempts step p =
      attempt_loop h sink cancellation step (maximum_attempts step.policy - 1) 1 (begin_step step p)

  -- A step that is executed: its events, its attempts and its record.
  unfoldable pub run_step : RuntimeStep Command → Progress → StepExecutionRecord Json × Progress
  unfolding step_attempts
  run_step step p =
      let start = (begin_step step p).world.clock in
      let e = step_attempts step p in
      let (end, w2) = now e.machine.world in
      let r : StepExecutionRecord Json = record {
        step_id = step.step_id;
        command_name = step.command_name;
        result = e.result;
        duration = end - start;
        attempts = e.attempts;
      } in
      (
        r,
        record {
          run = account r p.run;
          context = e.machine.context;
          bench = e.machine.bench;
          world = publish sink (step_completed_event step r) w2;
        },
      )

  unfoldable pub step_loop : ℕ → List (RuntimeStep Command) → Progress → Progress
  step_loop index [] p = p
  step_loop index (step ∷ rest) p =
      let (open_gate, q) = gate index step p in
      let (r, q') = run_step step q in
      let on = step_loop (suc index) rest q' in
      if open_gate then (if ends_run step r.result then q' else on) else q

  -- `Execute` with all its arguments, from a fresh `RunResult`.
  unfoldable pub execute : List (RuntimeStep Command) → ExecutionContext → Bench → World → Progress
  unfolding build_summary summary_text
  execute steps context bench w =
      let (start, w1) = now w in
      let p : Progress = record { run = new_run; context = context; bench = bench; world = w1 } in
      let q = step_loop 0 steps p in
      let (end, w2) = now q.world in
      let timed = record q.run { summary = record q.run.summary { duration = end - start } } in
      let run = build_summary timed (length steps) in
      record q {
        run = run;
        world = publish sink (run_completed_event "executor" (summary_text run) run) w2;
      }
