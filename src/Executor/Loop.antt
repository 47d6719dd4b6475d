-- ===== src/Executor/Loop.antt =====
-- The rule for the step loop: what the tests before a step and an executed step keep, a run keeps.
use artest_cli.Base.{ℕ, suc, inl, inr, List, [], ◌∷◌, Bool-cases}
use artest_cli.Cancellation.{CancellationToken}
use artest_cli.Executor.Attempts.{RuntimeStep}
use artest_cli.Executor.Accounts.{ends_run}
use artest_cli.Executor.Runs.{Progress, gate, run_step, step_loop}
use artest_cli.Host.{Host}
use artest_cli.World.{EventSink}

module _ (h : Host) (sink : EventSink) (cancellation : CancellationToken) where
  pub step_loop_inv {ℓ} :
      (P : Progress h sink cancellation → Type ℓ)
      → ((i : ℕ) (s : RuntimeStep h.Command) (p : Progress h sink cancellation)
          → P p
          → P (gate h sink cancellation i s p).1)
      → ((s : RuntimeStep h.Command) (p : Progress h sink cancellation)
          → P p
          → P (run_step h sink cancellation s p).1)
      → (i : ℕ) (plan : List (RuntimeStep h.Command)) (p : Progress h sink cancellation) → P p
      → P (step_loop h sink cancellation i plan p)
  unfolding step_loop
  step_loop_inv P kg kr i [] p x = x
  step_loop_inv P kg kr i (s ∷ plan) p x =
      let (going, q) = gate h sink cancellation i s p in
      let (r, q') = run_step h sink cancellation s q in
      let y : P q = kg i s p x in
      elim (Bool-cases going) [
        | inr shut ↦ rw shut y
        | inl on ↦ rw on (elim (Bool-cases (ends_run s r.result)) [
          | inl ends ↦ rw ends (kr s q y)
          | inr goes ↦ rw goes (step_loop_inv P kg kr (suc i) plan q' (kr s q y))
        ])
      ]
