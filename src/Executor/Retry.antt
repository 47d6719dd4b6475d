-- ===== src/Executor/Retry.antt =====
-- What the attempts of one step satisfy.
use artest_cli.Base.{
  ℕ, zero, suc, ◌-◌, ◌≤◌, ◌≡◌, ◌≢◌, refl, ◌⊎◌, inl, inr, false, List, [], ◌∷◌, length, AllButLast,
  Bool-cases, arith, subst,
}
use artest_cli.Cancellation.{CancellationToken}
use artest_cli.Executor.Attempts.{
  RuntimeStep, Machine, maximum_attempts, ends_attempts, run_attempt, attempt_loop, retry_wait,
}
use artest_cli.Executor.Runs.{Progress, begin_step, step_attempts, run_step}
use artest_cli.Host.{Host}
use artest_cli.Results.{StepStatus, StepResult, StepAttemptRecord, StepExecutionPolicy, step_result}
use artest_cli.World.{EventSink}

-- The attempts carry the numbers n, n + 1, ...
abbrev pub NumberedFrom : {J : Type 0} → ℕ → List (StepAttemptRecord J) → Type 0
NumberedFrom n [] = Unit
NumberedFrom n (a ∷ rest) = (a.attempt ≡ n) × NumberedFrom (suc n) rest

-- An attempt that may be followed by another one: it has neither passed nor been cancelled, and
-- the effect of its command is known.
abbrev pub MayRetry : {J : Type 0} → StepResult J → Type 0
MayRetry r =
    (r.status ≢ StepStatus.passed) × (r.status ≢ StepStatus.cancelled) × (r.indeterminate ≡ false)

ends_attempts-MayRetry : {J : Type 0} (r : StepResult J) → ends_attempts r ≡ false → MayRetry r
ends_attempts-MayRetry r e = ground arith

-- The result of the last attempt, or one that says that the wait for a retry was cancelled.
abbrev pub ComesFrom : {J : Type 0} → J → StepResult J → List (StepAttemptRecord J) → Type 0
ComesFrom null r [] = ⊥
ComesFrom null r (a ∷ []) =
    (r ≡ a.result)
    ⊎ (MayRetry a.result × (r ≡ step_result null StepStatus.cancelled "Execution was cancelled."))
ComesFrom null r (a ∷ b ∷ rest) = ComesFrom null r (b ∷ rest)

-- What the attempts of a step promise, `limit` being the most that are allowed: there is at least
-- one, they are numbered in order, all but the last have neither passed nor been cancelled nor
-- left the effect of the command unknown, and the result is the last one's.
pub record AreAttempts {J : Type 0} (null : J) (limit first : ℕ) (made : List (StepAttemptRecord J))
    (r : StepResult J) : Type 0 where
  pub some_made : 1 ≤ length made
  pub within : length made ≤ limit
  pub numbered : NumberedFrom first made
  pub retried : AllButLast (λ a. MayRetry a.result) made
  pub final : ComesFrom null r made

module _ (h : Host) (sink : EventSink) (cancellation : CancellationToken)
    (step : RuntimeStep h.Command) where
  open h use {Json, Command, Bench, null}

  one-AreAttempts :
      (limit n : ℕ) (a : StepAttemptRecord Json) (r : StepResult Json)
      → 1 ≤ limit
      → a.attempt ≡ n
      → ComesFrom null r (a ∷ [])
      → AreAttempts null limit n (a ∷ []) r
  one-AreAttempts limit n a r l e c = record {
    some_made = omega arith;
    within = omega arith;
    numbered = (e, tt);
    retried = tt;
    final = c;
  }

  more-AreAttempts :
      (limit n : ℕ) (a : StepAttemptRecord Json) (rest : List (StepAttemptRecord Json))
      (r : StepResult Json)
      → a.attempt ≡ n
      → MayRetry a.result
      → AreAttempts null limit (suc n) rest r
      → AreAttempts null (suc limit) n (a ∷ rest) r
  more-AreAttempts limit n a [] r e f s = absurd (omega (arith, s.some_made))
  more-AreAttempts limit n a (b ∷ rest) r e f s = record {
    some_made = omega arith;
    within = omega (arith, s.within);
    numbered = (e, s.numbered);
    retried = (f, s.retried);
    final = s.final;
  }

  run_attempt-number :
      (n : ℕ) (m : Machine Command Bench) → (run_attempt h sink cancellation step n m).0.attempt ≡ n
  unfolding run_attempt
  run_attempt-number n m = refl

  attempt_loop-AreAttempts :
      (left n : ℕ) (m : Machine Command Bench)
      → let e = attempt_loop h sink cancellation step left n m in
        AreAttempts null (suc left) n e.attempts e.result
  unfolding attempt_loop
  attempt_loop-AreAttempts zero n m =
      one-AreAttempts 1 n _ _ (omega arith) (run_attempt-number n m) (inl refl)
  attempt_loop-AreAttempts (suc left) n m =
      let (a, m1) = run_attempt h sink cancellation step n m in
      let (woken, m2) = retry_wait h sink cancellation step a m1 in
      elim (Bool-cases (ends_attempts a.result)) [
        | inl done ↦ rw done (
            one-AreAttempts (suc (suc left)) n a a.result (omega arith) (run_attempt-number n m)
              (inl refl))
        | inr more ↦ rw more (elim (Bool-cases woken) [
          | inl asked ↦ rw asked (
              one-AreAttempts (suc (suc left)) n a _ (omega arith) (run_attempt-number n m)
                (inr (ends_attempts-MayRetry a.result more, refl)))
          | inr quiet ↦ rw quiet (
              more-AreAttempts (suc left) n a _ _ (run_attempt-number n m)
                (ends_attempts-MayRetry a.result more) (attempt_loop-AreAttempts left (suc n) m2))
        ])
      ]

maximum_attempts-pos : (p : StepExecutionPolicy) → suc (maximum_attempts p - 1) ≡ maximum_attempts p
maximum_attempts-pos p = ground arith

module _ (h : Host) (sink : EventSink) (cancellation : CancellationToken)
    (step : RuntimeStep h.Command) (p : Progress h sink cancellation) where
  pub run_step-AreAttempts :
      let r = (run_step h sink cancellation step p).0 in
      AreAttempts h.null (maximum_attempts step.policy) 1 r.attempts r.result
  unfolding run_step
  run_step-AreAttempts =
      let e = step_attempts h sink cancellation step p in
      subst (λ k. AreAttempts h.null k 1 e.attempts e.result) (maximum_attempts-pos step.policy)
        (attempt_loop-AreAttempts h sink cancellation step (maximum_attempts step.policy - 1) 1
          (begin_step h sink cancellation step p))
