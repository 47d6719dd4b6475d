-- ===== src/Tests/Lifecycle.antt =====
-- Calls of a session on the simulated host.
use artest_cli.Base.{◌≡◌, refl, ℕ, Option, none, some, [], ◌∷◌, String, false}
use artest_cli.Diagnostics.{returned, raised, succeeded}
use artest_cli.Results.{StepResult}
use artest_cli.Session.Calls.{start-perform_all, wait-perform_all}
use artest_cli.Session.Lifecycle.{
  Handle, invalid, start, perform_all, wait, cancels, ends, waits, starts, waits_for,
}
use artest_cli.Session.Worker.{SessionSteps, runtime, terminal_state}
use artest_cli.StateMachine.{idle}
use artest_cli.Tests.Bench.{demo, good_plan, manager_of}
use artest_cli.Base.{List, true}

abbrev creators : String → Option (List (StepResult ℕ))
creators name = some []

abbrev plan : SessionSteps ℕ (List (StepResult ℕ))
plan = runtime good_plan

abbrev new_handle : Handle demo creators none none plan
new_handle = record {
  inner = record { state = idle; manager = manager_of 2 };
  future = invalid;
  result = none;
}

start-perform_all_example :
    let c1 =
      perform_all demo creators none none plan
        (ends ∷ cancels ∷ waits ∷ [])
        (start demo creators none none plan (raised none) new_handle).1 in
    let (r, c2) = start demo creators none none plan (returned tt) c1 in
    (succeeded r ≡ false) × (c2 ≡ c1)
start-perform_all_example =
    start-perform_all demo creators none none plan (raised none) (returned tt)
      (ends ∷ cancels ∷ waits ∷ []) new_handle (refl, refl, refl)

wait-perform_all_example :
    let c1 =
      perform_all demo creators none none plan
        (cancels ∷ waits_for true ∷ [])
        (start demo creators none none plan (returned tt) new_handle).1 in
    let (r, c2) = wait demo creators none none plan c1 in
    let c3 = perform_all demo creators none none plan (starts (returned tt) ∷ waits ∷ []) c2 in
    (c2.inner.state ≡ terminal_state r.status) × (wait demo creators none none plan c3 ≡ (r, c3))
wait-perform_all_example =
    wait-perform_all demo creators none none plan (cancels ∷ waits_for true ∷ [])
      (starts (returned tt) ∷ waits ∷ []) new_handle (refl, refl, refl)
