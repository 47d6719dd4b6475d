-- ===== src/Executor/Attempts.antt =====
-- One step of a run: the attempt loop of `TestExecutor::Execute` in Execution/TestExecutor.cpp of
-- source/ARTestEngine.Core. The loop counts the attempts left, so it ends by itself.
use artest_cli.Base.{
  ℕ, zero, suc, ◌-◌, ◌||◌, Bool, true, false, some, List, [], ◌∷◌, String, if◌then◌else◌,
}
use artest_cli.Base.Int.{pos, pos_part, ltb_ℤ}
use artest_cli.Cancellation.{
  CancellationToken, is_cancellation_requested, is_timed_out, wait_for, with_timeout,
}
use artest_cli.Context.{ExecutionContext}
use artest_cli.Diagnostics.{Outcome, returned, raised, what_or}
use artest_cli.Host.{Host}
use artest_cli.Results.{
  StepStatus, StepResult, StepAttemptRecord, StepExecutionPolicy, step_result, is_passed,
  is_cancelled,
}
use artest_cli.World.{
  World, EventSink, EngineEvent, event, step_attempt_started, step_retry_scheduled, information,
  warning, publish, now, apply_effect,
}

-- Model/CompiledStep's runtime counterpart, Execution/RuntimeStep.h.
pub record RuntimeStep (C : Type 0) : Type 0 where
  pub step_id : ℕ
  pub command_name : String
  pub command : C
  pub policy : StepExecutionPolicy

-- What the loops change besides the run: the command, the variables, the bench and the world.
pub record Machine (C B : Type 0) : Type 0 where
  pub command : C
  pub context : ExecutionContext
  pub bench : B
  pub world : World

abbrev pub maximum_attempts : StepExecutionPolicy → ℕ
maximum_attempts p = if ltb_ℤ p.max_attempts (pos 1) then 1 else pos_part p.max_attempts

-- The handlers round `Execute`.
abbrev pub attempt_outcome : {J : Type 0} → J → Outcome (StepResult J) → StepResult J
attempt_outcome null (returned r) = r
attempt_outcome null (raised what) =
    step_result null StepStatus.error (what_or "Unknown exception while executing the step." what)

-- The status that cancellation and the attempt's deadline put over the command's own.
abbrev pub override_status : {J : Type 0} → Bool → Bool → StepResult J → StepResult J
override_status true late r = record r { status = StepStatus.cancelled }
override_status false true r = record r { status = StepStatus.timed_out }
override_status false false r = r

-- The tests that end the attempts before the limit.
abbrev pub ends_attempts : {J : Type 0} → StepResult J → Bool
ends_attempts r = is_passed r.status || r.indeterminate || is_cancelled r.status

-- The second test is made only if the first fails.
abbrev timed_out_unless : Bool → CancellationToken → World → Bool × World
timed_out_unless true t w = (false, w)
timed_out_unless false t w = is_timed_out t w

module _ {C : Type 0} (step : RuntimeStep C) where
  abbrev pub attempt_started : ℕ → EngineEvent
  attempt_started n =
      record (event step_attempt_started information step.command_name "Starting step attempt.") {
        step_id = some step.step_id;
        attempt = some n;
      }

  abbrev pub retry_scheduled : StepStatus → ℕ → EngineEvent
  retry_scheduled status n =
      record (event step_retry_scheduled warning step.command_name
        "Retrying the step after a failed attempt.") {
          step_id = some step.step_id;
          step_status = some status;
          attempt = some n;
          duration = some step.policy.retry_delay;
        }

module _ (h : Host) (sink : EventSink) (cancellation : CancellationToken)
    (step : RuntimeStep h.Command) where
  open h use {Json, Command, Bench, null, execute}

  -- The body of the loop up to `record.result = attemptResult`.
  unfoldable pub run_attempt :
      ℕ → Machine Command Bench → StepAttemptRecord Json × Machine Command Bench
  run_attempt n m =
      let (token, w1) = with_timeout cancellation step.policy.timeout m.world in
      let (start, w2) = now (publish sink (attempt_started step n) w1) in
      let reply = execute m.command m.context token m.bench w2 in
      let (asked, w3) = is_cancellation_requested cancellation (apply_effect reply.effect w2) in
      let (late, w4) = timed_out_unless asked token w3 in
      let (stop, w5) = now w4 in
      (
        record {
          attempt = n;
          result = override_status asked late (attempt_outcome null reply.outcome);
          duration = stop - start;
        },
        record {
          command = reply.command;
          context = reply.context;
          bench = reply.bench;
          world = w5;
        },
      )

  -- The attempts made, `record.result`, and the state after them.
  pub record AttemptsEnd : Type 0 where
    pub attempts : List (StepAttemptRecord Json)
    pub result : StepResult Json
    pub machine : Machine Command Bench

  abbrev last_attempt :
      StepAttemptRecord Json → StepResult Json → Machine Command Bench → AttemptsEnd
  last_attempt a r m = record { attempts = a ∷ []; result = r; machine = m }

  abbrev earlier_attempt : StepAttemptRecord Json → AttemptsEnd → AttemptsEnd
  earlier_attempt a e = record e { attempts = a ∷ e.attempts }

  -- `WaitFor(retryDelay)` between two attempts, with the event before it.
  unfoldable pub retry_wait :
      StepAttemptRecord Json → Machine Command Bench → Bool × Machine Command Bench
  retry_wait a m =
      let w = publish sink (retry_scheduled step a.result.status a.attempt) m.world in
      let (woken, w') = wait_for cancellation step.policy.retry_delay w in
      (woken, record m { world = w' })

  -- Attempt `n`, with `left` more allowed after it.
  unfoldable pub attempt_loop : ℕ → ℕ → Machine Command Bench → AttemptsEnd
  attempt_loop zero n m = let (a, m1) = run_attempt n m in last_attempt a a.result m1
  attempt_loop (suc left) n m =
      let (a, m1) = run_attempt n m in
      if ends_attempts a.result
      then last_attempt a a.result m1
      else let (woken, m2) = retry_wait a m1 in
        if woken
        then last_attempt a (step_result null StepStatus.cancelled "Execution was cancelled.") m2
        else let rest = attempt_loop left (suc n) m2 in earlier_attempt a rest
