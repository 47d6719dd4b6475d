-- ===== src/Executor/Severity.antt =====
-- The verdict of a run is as severe as its worst step.
use artest_cli.Base.{
  ◌++◌, ◌+◌, ◌<◌, length, length-append, ◌≤◌, ◌≡◌, ◌⊎◌, inl, inr, ℕ, List, [], ◌∷◌, arith, ap, All,
  All-append, All-map,
}
use artest_cli.Context.{ExecutionContext}
use artest_cli.Cancellation.{CancellationToken}
use artest_cli.Diagnostics.{Diagnostic}
use artest_cli.Executor.Attempts.{RuntimeStep}
use artest_cli.Executor.Accounts.{account, severity, run_status_for, build_summary}
use artest_cli.Executor.Runs.{Progress, gate, run_step, execute}
use artest_cli.Executor.Loop.{step_loop_inv}
use artest_cli.Executor.Verdict.{accumulate_status-severity}
use artest_cli.Host.{Host}
use artest_cli.Results.{RunStatus, StepExecutionRecord, new_run}
use artest_cli.World.{World, EventSink, now}

-- A step is at most as severe as a run.
abbrev pub AtMost : {J : Type 0} → RunStatus → StepExecutionRecord J → Type 0
AtMost s r = severity (run_status_for r.result.status) ≤ severity s

severity-le_cancelled : (s : RunStatus) → severity s ≤ severity RunStatus.cancelled
unfolding severity
severity-le_cancelled s = ground arith

module _ (h : Host) (sink : EventSink) (cancellation : CancellationToken) where
  open h use {Json, Command, Bench}

  abbrev Covers : Progress h sink cancellation → Type 0
  Covers p = (0 < length p.run.diagnostics) ⊎ All (AtMost p.run.status) p.run.steps

  diagnostics_grow : (ds : List Diagnostic) (d : Diagnostic) → length (ds ++ d ∷ []) ≡ length ds + 1
  diagnostics_grow ds d = length-append ds (d ∷ [])

  -- The tests before a step leave the verdict, cancel the run, or report an error.
  gate_status :
      (i : ℕ) (s : RuntimeStep Command) (p : Progress h sink cancellation)
      → let q = (gate h sink cancellation i s p).1 in
        (length q.run.diagnostics ≡ length p.run.diagnostics + 1)
        ⊎ ((q.run.steps ≡ p.run.steps)
            × (q.run.diagnostics ≡ p.run.diagnostics)
            × ((q.run.status ≡ p.run.status) ⊎ (q.run.status ≡ RunStatus.cancelled)))
  unfolding gate
  gate_status i s p = grind (arith, diagnostics_grow)

  gate-Covers :
      (i : ℕ) (s : RuntimeStep Command) (p : Progress h sink cancellation)
      → Covers p
      → Covers (gate h sink cancellation i s p).1
  gate-Covers i s p (inl d) = elim (gate_status i s p) [
    | inl more ↦ inl (omega arith)
    | inr (_, same, _) ↦ inl (omega (arith, ap length same))
  ]
  gate-Covers i s p (inr all) = elim (gate_status i s p) [
    | inl more ↦ inl (omega arith)
    | inr (steps, _, inl same) ↦ inr (rw (steps, same) all)
    | inr (steps, _, inr worst) ↦
        inr (rw (steps, worst) (All-map _ _ (λ x _. severity-le_cancelled _) p.run.steps all))
  ]

  run_step-Covers :
      (s : RuntimeStep Command) (p : Progress h sink cancellation)
      → Covers p
      → Covers (run_step h sink cancellation s p).1
  unfolding run_step account
  run_step-Covers s p (inl d) = inl d
  run_step-Covers s p (inr all) =
      let r = (run_step h sink cancellation s p).0 in
      let worse = accumulate_status-severity p.run.status r.result.status in
      inr (
        All-append _ p.run.steps (r ∷ [])
          (All-map _ _ (λ x e. omega (arith, e, worse.0)) p.run.steps all) (worse.1, tt))

  -- If the execution control has reported no exception, no step of the run is more severe than
  -- the run's verdict: passed, failed, error, timed out and cancelled in this order.
  pub execute-severity :
      (plan : List (RuntimeStep Command)) (c : ExecutionContext) (b : Bench) (w : World)
      → let run = (execute h sink cancellation plan c b w).run in
        run.diagnostics ≡ [] → All (AtMost run.status) run.steps
  unfolding execute build_summary
  execute-severity plan c b w e =
      elim (step_loop_inv h sink cancellation Covers gate-Covers run_step-Covers 0 plan
        (record { run = new_run; context = c; bench = b; world = (now w).1 }) (inr tt)) [
          | inl d ↦ absurd (omega (arith, ap length e))
          | inr all ↦ all
        ]
