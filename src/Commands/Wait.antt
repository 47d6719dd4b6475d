-- ===== src/Commands/Wait.antt =====
-- Commands/BuiltIn/WaitCommand.cpp of source/ARTestEngine.Core.
use artest_cli.Base.{◌≡◌, ◌⊎◌, refl, inl, inr, ◌≤◌, none, some, String, if◌then◌else◌, Bool-cases}
use artest_cli.Base.Int.{ℤ, pos, negsuc, ltb_ℤ}
use artest_cli.Cancellation.{
  CancellationToken, CancellationReason, no_reason, requested, timed_out, reason, after, wait_for,
  wait_for-lasts,
}
use artest_cli.Diagnostics.{OperationResult, Outcome, returned, raised, success, failure}
use artest_cli.Results.{StepStatus, StepResult, step_result}
use artest_cli.World.{World}

-- The member `m_milliseconds`.
pub record WaitCommand : Type 0 where
  pub milliseconds : ℤ

abbrev pub new_wait : WaitCommand
new_wait = record { milliseconds = negsuc 0 }

module _ {J : Type 0} (value : J → String → ℤ → Outcome ℤ) where
  -- `Configure`, whose handler takes no exception but a `std::exception`.
  unfoldable pub configure_wait : J → WaitCommand → Outcome OperationResult × WaitCommand
  configure_wait parameters c = elim (value parameters "milliseconds" (negsuc 0)) [
    | returned n ↦ (returned success, record { milliseconds = n })
    | raised none ↦ (raised none, c)
    | raised (some what) ↦ (returned (failure "WAIT_CONFIGURATION_INVALID" what ""), c)
  ]

-- `Validate`.
unfoldable pub validate_wait : WaitCommand → OperationResult
validate_wait c =
    if ltb_ℤ c.milliseconds (pos 0)
    then failure "WAIT_DURATION_INVALID" "The milliseconds parameter must be zero or greater." ""
    else success

module _ {J : Type 0} (null : J) where
  abbrev interrupted : CancellationReason → StepResult J
  interrupted no_reason = step_result null StepStatus.cancelled "Execution was cancelled."
  interrupted requested = step_result null StepStatus.cancelled "Execution was cancelled."
  interrupted timed_out = step_result null StepStatus.timed_out "The step timed out."

  -- `Execute`.
  unfoldable pub execute_wait : WaitCommand → CancellationToken → World → StepResult J × World
  execute_wait c t w =
      let (cut, w1) = wait_for t c.milliseconds w in
      let (why, w2) = reason t w1 in
      if cut then (interrupted why, w2) else (step_result null StepStatus.passed "", w1)

  -- The command passes only after its whole duration; otherwise it is cancelled or timed out.
  pub execute_wait-lasts :
      (c : WaitCommand) (t : CancellationToken) (w : World)
      → let (r, w1) = execute_wait c t w in
        ((r.status ≡ StepStatus.passed) × (after w.clock c.milliseconds ≤ w1.clock))
        ⊎ ((r.status ≡ StepStatus.cancelled) ⊎ (r.status ≡ StepStatus.timed_out))
  unfolding execute_wait
  execute_wait-lasts c t w = elim (Bool-cases (wait_for t c.milliseconds w).0) [
    | inr e ↦ rw e (inl (refl, wait_for-lasts t c.milliseconds w e))
    | inl e ↦ rw e (inr (ends (reason t (wait_for t c.milliseconds w).1).0))
  ]
    where
      ends :
          (why : CancellationReason)
          → ((interrupted why).status ≡ StepStatus.cancelled)
            ⊎ ((interrupted why).status ≡ StepStatus.timed_out)
      ends no_reason = inl refl
      ends requested = inl refl
      ends timed_out = inr refl
