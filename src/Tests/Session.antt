-- ===== src/Tests/Session.antt =====
-- Sessions on the simulated host.
use artest_cli.Base.{ℕ, ◌≡◌, refl, reverse, Option, none, some, List, [], String}
use artest_cli.Instruments.Lifecycle.{IsIdle}
use artest_cli.Instruments.Manager.{shutdown_all}
use artest_cli.Results.{RunResult, StepResult}
use artest_cli.Session.Binding.{Manager}
use artest_cli.Instruments.Calls.{initialised, call_each}
use artest_cli.Session.Instruments.{bench_after, run_worker-IsIdle}
use artest_cli.Session.Outcome.{run_worker-state}
use artest_cli.Session.Worker.{
  SessionSteps, runtime, Session, terminal_state, run_worker, before_cleanup, in_world,
}
use artest_cli.StateMachine.{initializing}
use artest_cli.Tests.Bench.{demo, good_plan, manager_of}
use artest_cli.World.{now}

-- One component is active.
abbrev script_of : String → Option (List (StepResult ℕ))
script_of name = some []

abbrev started : ℕ → Session demo script_of none none
started device = record { state = initializing; manager = manager_of device }

abbrev outcome :
    SessionSteps ℕ (List (StepResult ℕ)) → ℕ → RunResult ℕ × Session demo script_of none none
outcome steps device = run_worker demo script_of none none steps (started device)

-- What the worker has before its cleanup.
abbrev unclean : SessionSteps ℕ (List (StepResult ℕ)) → ℕ → Manager demo script_of
unclean steps device =
    (before_cleanup demo script_of none none steps
      (in_world demo script_of none none (λ w. (now w).1) (started device))).1.manager

run_worker-IsIdle_example :
    let n = (outcome (runtime good_plan) 2).1.manager in
    let m = unclean (runtime good_plan) 2 in
    let down = call_each demo (reverse (initialised demo m.instruments)) m.bench m.world in
    IsIdle n.instruments
    × ((shutdown_all demo m).0 ≡ down.diagnostics)
    × (n.bench ≡ bench_after demo script_of none none none down)
run_worker-IsIdle_example =
    run_worker-IsIdle demo script_of none none (runtime good_plan) (started 2)
      ((refl, tt), (tt, tt)) (refl, (refl, tt))

run_worker-state_example :
    (outcome (runtime good_plan) 9).1.state
    ≡ terminal_state (outcome (runtime good_plan) 9).0.status
run_worker-state_example =
    run_worker-state demo script_of none none (runtime good_plan) (started 9) refl
