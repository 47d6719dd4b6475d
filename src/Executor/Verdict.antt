-- ===== src/Executor/Verdict.antt =====
-- The verdict of a run against the results of its steps.
use artest_cli.Base.{
  ℕ, suc, ◌+◌, ◌≤◌, ◌≡◌, ◌≢◌, All-snoc, refl, sym, ◌↔◌, ◌⊎◌, inl, inr, true, List, [], ◌∷◌, length,
  arith, ap, subst, All, All-append, Bool-cases, if◌then◌else◌, length-append,
}
use artest_cli.Context.{ExecutionContext}
use artest_cli.Cancellation.{CancellationToken}
use artest_cli.Executor.Attempts.{RuntimeStep}
use artest_cli.Executor.Accounts.{
  account, ends_run, accumulate_status, severity, run_status_for, build_summary,
}
use artest_cli.Executor.Runs.{Progress, gate, run_step, execute, step_loop}
use artest_cli.Host.{Host}
use artest_cli.Results.{StepStatus, StepResult, RunStatus, StepExecutionRecord, RunResult, new_run}
use artest_cli.World.{World, EventSink, now}

abbrev pub IsPassed : {J : Type 0} → StepExecutionRecord J → Type 0
IsPassed r = r.result.status ≡ StepStatus.passed

-- Accumulating takes the more severe of two statuses.
pub accumulate_status-severity :
    (s : RunStatus) (t : StepStatus)
    → (severity s ≤ severity (accumulate_status s t))
      × (severity (run_status_for t) ≤ severity (accumulate_status s t))
      × ((accumulate_status s t ≡ s) ⊎ (accumulate_status s t ≡ run_status_for t))
unfolding accumulate_status severity run_status_for
accumulate_status-severity s t = ground arith

accumulate_status-passed :
    (s : RunStatus) (t : StepStatus)
    → (accumulate_status s t ≡ RunStatus.passed)
      ↔ ((s ≡ RunStatus.passed) × (t ≡ StepStatus.passed))
unfolding accumulate_status severity run_status_for
accumulate_status-passed s t = ground arith

module _ (h : Host) (sink : EventSink) (cancellation : CancellationToken) where
  open h use {Json, Command, Bench}

  ends_run-fails :
      (s : RuntimeStep Command) (r : StepResult Json)
      → ends_run s r ≡ true
      → r.status ≢ StepStatus.passed
  ends_run-fails s r e = ground arith

  -- A closed gate leaves a run that has not passed, an open one leaves the run as it was.
  gate_verdict :
      (i : ℕ) (s : RuntimeStep Command) (p : Progress h sink cancellation)
      → let (going, q) = gate h sink cancellation i s p in
        (q.run.steps ≡ p.run.steps)
        × (if going then q.run ≡ p.run else (q.run.status ≢ RunStatus.passed))
  unfolding gate
  gate_verdict i s p = ground arith

  -- So far the run has passed exactly if each of its steps has.
  abbrev Agrees : Progress h sink cancellation → Type 0
  Agrees p = (p.run.status ≡ RunStatus.passed) ↔ All IsPassed p.run.steps

  run_step-Agrees :
      (s : RuntimeStep Command) (p : Progress h sink cancellation)
      → Agrees p
      → Agrees (run_step h sink cancellation s p).1
  unfolding run_step account
  run_step-Agrees s p a =
      let r = (run_step h sink cancellation s p).0 in
      let both = accumulate_status-passed p.run.status r.result.status in
      (
        λ e. All-append IsPassed p.run.steps (r ∷ []) (a.0 (both.0 e).0) ((both.0 e).1, tt),
        λ all.
            let (before, last) = All-snoc IsPassed p.run.steps r all in both.1 (a.1 before, last),
      )

  run_step-length :
      (s : RuntimeStep Command) (p : Progress h sink cancellation)
      → length (run_step h sink cancellation s p).1.run.steps ≡ length p.run.steps + 1
  unfolding run_step account
  run_step-length s p = length-append p.run.steps ((run_step h sink cancellation s p).0 ∷ [])

  run_step-last :
      (s : RuntimeStep Command) (p : Progress h sink cancellation)
      → All IsPassed (run_step h sink cancellation s p).1.run.steps
      → IsPassed (run_step h sink cancellation s p).0
  unfolding run_step account
  run_step-last s p all = (All-snoc IsPassed p.run.steps _ all).1

  -- Every step of the plan has a record.
  abbrev Done : ℕ → Progress h sink cancellation → Progress h sink cancellation → Type 0
  Done n p q = length q.run.steps ≡ length p.run.steps + n

  step_loop_verdict :
      (i : ℕ) (plan : List (RuntimeStep Command)) (p : Progress h sink cancellation)
      → Agrees p
      → let q = step_loop h sink cancellation i plan p in
        (q.run.status ≡ RunStatus.passed) ↔ (Done (length plan) p q × All IsPassed q.run.steps)
  unfolding step_loop
  step_loop_verdict i [] p a = (λ e. (omega arith, a.0 e), λ d. a.1 d.1)
  step_loop_verdict i (s ∷ plan) p a =
      let (going, q) = gate h sink cancellation i s p in
      let (r, q') = run_step h sink cancellation s q in
      let (same, verdict) = gate_verdict i s p in
      let grown = run_step-length s q in
      elim (Bool-cases going) [
        | inr shut ↦
            rw shut (
              λ e. absurd ((rw shut at verdict) e),
              λ d. absurd (omega (arith, d.0, ap length same)),
            )
        | inl on ↦
            let b : Agrees q' = run_step-Agrees s q (
              subst (λ (x : RunResult Json). (x.status ≡ RunStatus.passed) ↔ All IsPassed x.steps)
                (sym (rw on at verdict)) a) in
            rw on (elim (Bool-cases (ends_run s r.result)) [
              | inl ends ↦ rw ends (
                λ e. absurd (ends_run-fails s r.result ends (run_step-last s q (b.0 e))),
                λ d. b.1 d.1,
              )
              | inr goes ↦
                  let (to, from) = step_loop_verdict (suc i) plan q' b in
                  rw goes (
                    λ e. (omega (arith, (to e).0, grown, ap length same), (to e).1),
                    λ d. from (omega (arith, d.0, grown, ap length same), d.1),
                  )
            ])
      ]

  -- A run has passed exactly if every step of the plan was executed and has passed. So nothing that
  -- a command, the control or another thread does makes a shortened or a failed run pass.
  pub execute_verdict :
      (plan : List (RuntimeStep Command)) (c : ExecutionContext) (b : Bench) (w : World)
      → let run = (execute h sink cancellation plan c b w).run in
        (run.status ≡ RunStatus.passed)
        ↔ ((length run.steps ≡ length plan) × All IsPassed run.steps)
  unfolding execute build_summary
  execute_verdict plan c b w =
      let (to, from) =
        step_loop_verdict 0 plan
          (record { run = new_run; context = c; bench = b; world = (now w).1 })
          (λ e. tt, λ t. refl) in
      (λ e. (omega (arith, (to e).0), (to e).1), λ d. from (omega (arith, d.0), d.1))
