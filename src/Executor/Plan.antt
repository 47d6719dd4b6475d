-- ===== src/Executor/Plan.antt =====
-- A run against its plan: which steps are executed, and when the run goes on.
use artest_cli.Base.{
  ℕ, suc, ◌≡◌, ◌≢◌, refl, sym, ◌∙◌, ◌⊎◌, inl, inr, false, List, [], ◌∷◌, ◌++◌, Bool-cases, arith,
  ap, subst,
}
use mathlib.Core.List.{append_assoc, append-nil}
use artest_cli.Cancellation.{CancellationToken}
use artest_cli.Context.{ExecutionContext}
use artest_cli.Executor.Attempts.{RuntimeStep, maximum_attempts}
use artest_cli.Executor.Accounts.{ends_run, account}
use artest_cli.Executor.Runs.{Progress, gate, run_step, step_loop, execute}
use artest_cli.Executor.Retry.{AreAttempts, run_step-AreAttempts}
use artest_cli.Host.{Host}
use artest_cli.Results.{StepExecutionRecord, StepResult, StepStatus, continue}
use artest_cli.World.{World, EventSink}

-- A record of a step of the plan: its name and identifier, and attempts that keep its policy.
pub record Executes {J C : Type 0} (null : J) (s : RuntimeStep C) (r : StepExecutionRecord J)
    : Type 0 where
  pub same_id : r.step_id ≡ s.step_id
  pub same_name : r.command_name ≡ s.command_name
  pub attempted : AreAttempts null (maximum_attempts s.policy) 1 r.attempts r.result

-- A step after which the run may go on: it has passed, or its policy continues after a failure and
-- its result is neither cancelled nor indeterminate.
abbrev pub MayContinue : {J C : Type 0} → RuntimeStep C → StepResult J → Type 0
MayContinue s r =
    (r.status ≡ StepStatus.passed)
    ⊎ ((r.status ≢ StepStatus.cancelled)
        × (r.indeterminate ≡ false)
        × (s.policy.on_failure ≡ continue))

ends_run-MayContinue :
    {J C : Type 0} (s : RuntimeStep C) (r : StepResult J) → ends_run s r ≡ false → MayContinue s r
ends_run-MayContinue s r e = ground arith

-- The records are those of a leading part of the plan, in its order, and a step is executed after
-- another only if that one passed, or if its policy continues and it was neither cancelled nor
-- indeterminate.
abbrev pub Follows :
    {J C : Type 0} → J → List (RuntimeStep C) → List (StepExecutionRecord J) → Type 0
Follows null plan [] = Unit
Follows null [] (r ∷ rs) = ⊥
Follows null (s ∷ plan) (r ∷ rs) =
    Executes null s r × ((rs ≡ []) ⊎ MayContinue s r.result) × Follows null plan rs

module _ (h : Host) (sink : EventSink) (cancellation : CancellationToken) where
  open h use {Json, Command, Bench, null}

  gate-steps :
      (i : ℕ) (s : RuntimeStep Command) (p : Progress h sink cancellation)
      → (gate h sink cancellation i s p).1.run.steps ≡ p.run.steps
  unfolding gate
  gate-steps i s p = ground arith

  run_step-Executes :
      (s : RuntimeStep Command) (p : Progress h sink cancellation)
      → Executes null s (run_step h sink cancellation s p).0
  unfolding run_step
  run_step-Executes s p = record {
    same_id = refl;
    same_name = refl;
    attempted = run_step-AreAttempts h sink cancellation s p;
  }

  run_step-steps :
      (s : RuntimeStep Command) (p : Progress h sink cancellation)
      → (run_step h sink cancellation s p).1.run.steps
        ≡ p.run.steps ++ (run_step h sink cancellation s p).0 ∷ []
  unfolding run_step account
  run_step-steps s p = refl

  -- The loop appends records that follow the plan to those that are there.
  step_loop-Follows :
      (i : ℕ) (plan : List (RuntimeStep Command)) (p : Progress h sink cancellation)
      → (rs : List (StepExecutionRecord Json)) × ((step_loop h sink cancellation i plan p).run.steps
          ≡ p.run.steps ++ rs)
        × Follows null plan rs
  unfolding step_loop
  step_loop-Follows i [] p = ([], sym (append-nil p.run.steps), tt)
  step_loop-Follows i (s ∷ plan) p =
      let (going, q) = gate h sink cancellation i s p in
      let (r, q') = run_step h sink cancellation s q in
      let same : q.run.steps ≡ p.run.steps = gate-steps i s p in
      let more : q'.run.steps ≡ p.run.steps ++ r ∷ [] =
        run_step-steps s q ∙ ap (λ l. l ++ r ∷ []) same in
      let (rs, e, f) = step_loop-Follows (suc i) plan q' in
      elim (Bool-cases going) [
        | inr shut ↦ rw shut ([], same ∙ sym (append-nil p.run.steps), tt)
        | inl on ↦ rw on (elim (Bool-cases (ends_run s r.result)) [
          | inl ends ↦ rw ends (r ∷ [], more, (run_step-Executes s q, inl refl, tt))
          | inr goes ↦ rw goes (
            r ∷ rs,
            e ∙ ap (λ l. l ++ rs) more ∙ append_assoc p.run.steps (r ∷ []) rs,
            (run_step-Executes s q, inr (ends_run-MayContinue s r.result goes), f),
          )
        ])
      ]

  -- However commands, the control and other threads behave, the records of a run are those of a
  -- leading part of the plan in its order, each with attempts that keep the step's policy, and a
  -- step is executed after another only if that one passed, or if its policy continues and its
  -- result is neither cancelled nor indeterminate.
  pub execute-Follows :
      (plan : List (RuntimeStep Command)) (c : ExecutionContext) (b : Bench) (w : World)
      → Follows null plan (execute h sink cancellation plan c b w).run.steps
  unfolding execute
  execute-Follows plan c b w =
      let (rs, e, f) = step_loop-Follows 0 plan _ in subst (Follows null plan) (sym e) f
