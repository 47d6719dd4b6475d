-- ===== src/Executor/Cancel.antt =====
-- What a request for cancellation does to a run.
use artest_cli.Base.{ℕ, zero, suc, ◌≡◌, refl, ap, true, false, List, [], ◌∷◌, length, arith}
use artest_cli.Cancellation.{CancellationToken, with_timeout, is_cancellation_requested-sees}
use artest_cli.Context.{ExecutionContext}
use artest_cli.Executor.Attempts.{
  RuntimeStep, Machine, ends_attempts, run_attempt, attempt_loop, attempt_started,
}
use artest_cli.Executor.Accounts.{build_summary}
use artest_cli.Executor.Runs.{Progress, gate, step_loop, execute}
use artest_cli.Host.{Host}
use artest_cli.Results.{StepStatus, StepResult, RunStatus, execution, new_run}
use artest_cli.World.{World, EventSink, now, publish, apply_effect, now-Later}

module _ (h : Host) (sink : EventSink) (cancellation : CancellationToken)
    (shared : cancellation.shared ≡ true) where
  open h use {Json, Command, Bench}

  -- The world in which the command's answer arrives.
  abbrev pub answered : RuntimeStep Command → ℕ → Machine Command Bench → World
  answered step n m =
      let (token, w1) = with_timeout cancellation step.policy.timeout m.world in
      let w2 = (now (publish sink (attempt_started step n) w1)).1 in
      apply_effect (h.execute m.command m.context token m.bench w2).effect w2

  run_attempt-cancelled :
      (step : RuntimeStep Command) (n : ℕ) (m : Machine Command Bench)
      → (answered step n m).requested ≡ true
      → (run_attempt h sink cancellation step n m).0.result.status ≡ StepStatus.cancelled
  unfolding run_attempt
  run_attempt-cancelled step n m r =
      rw (is_cancellation_requested-sees cancellation (answered step n m) shared r)

  cancelled-ends_attempts :
      (r : StepResult Json) → r.status ≡ StepStatus.cancelled → ends_attempts r ≡ true
  cancelled-ends_attempts r e = ground arith

  -- An attempt during which cancellation is requested is the last one of its step, and the step's
  -- result is cancelled whatever the command answers.
  pub attempt_loop-cancelled :
      (step : RuntimeStep Command) (left n : ℕ) (m : Machine Command Bench)
      → (answered step n m).requested ≡ true
      → let e = attempt_loop h sink cancellation step left n m in
        (e.result.status ≡ StepStatus.cancelled) × (length e.attempts ≡ 1)
  unfolding attempt_loop
  attempt_loop-cancelled step zero n m r = (run_attempt-cancelled step n m r, refl)
  attempt_loop-cancelled step (suc left) n m r =
      let e = run_attempt-cancelled step n m r in
      rw (cancelled-ends_attempts (run_attempt h sink cancellation step n m).0.result e) (e, refl)

  gate_requested :
      (i : ℕ) (s : RuntimeStep Command) (p : Progress h sink cancellation)
      → p.world.requested ≡ true
      → let (going, q) = gate h sink cancellation i s p in
        (going ≡ false)
        × (q.run ≡ record p.run { status = RunStatus.cancelled; failure_kind = execution })
        × (q.bench ≡ p.bench)
        × (q.context ≡ p.context)
  unfolding gate
  gate_requested i s p r =
      rw (is_cancellation_requested-sees cancellation p.world shared r) (refl, refl, refl, refl)

  -- The verdict on a plan of which nothing is executed: one without steps has passed.
  abbrev pub unexecuted_status : List (RuntimeStep Command) → RunStatus
  unexecuted_status [] = RunStatus.passed
  unexecuted_status (s ∷ ss) = RunStatus.cancelled

  -- If cancellation is requested before a run starts, no command and no control is called, so no step
  -- has a record, and the bench and the variables stay as they were. The run is cancelled if the plan
  -- has a step, and has passed if it has none.
  pub execute-requested :
      (plan : List (RuntimeStep Command)) (c : ExecutionContext) (b : Bench) (w : World)
      → w.requested ≡ true
      → let q = execute h sink cancellation plan c b w in
        (q.run.status ≡ unexecuted_status plan)
        × (q.run.steps ≡ [])
        × (q.bench ≡ b)
        × (q.context ≡ c)
  unfolding execute build_summary step_loop
  execute-requested [] c b w r = (refl, refl, refl, refl)
  execute-requested (s ∷ plan) c b w r =
      let p : Progress h sink cancellation = record {
        run = new_run;
        context = c;
        bench = b;
        world = (now w).1;
      } in
      let (shut, run, bench, context) = gate_requested 0 s p ((now-Later w).sticky r) in
      rw shut (ap (λ x. x.status) run, ap (λ x. x.steps) run, bench, context)
