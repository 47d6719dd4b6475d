-- ===== src/Cancellation/Laws.antt =====
-- What waits and deadlines promise, and that no operation on a token withdraws a request.
use artest_cli.Base.{
  ℕ, ◌≤◌, ◌≡◌, refl, subst, ◌⊎◌, inl, inr, min, true, false, some, le→leb, arith, Bool-cases,
  Option-cases,
}
use mathlib.Core.Bool.{true≢false}
use native.Mathlib.Decide.{dec_le}
use native.Mathlib.Nat.{le_trans}
use artest_cli.Base.Int.{ℤ}
use artest_cli.Cancellation.Defs.{
  CancellationToken, is_cancellation_requested, is_timed_out, reason, wait_for, with_timeout, after,
  earlier, wait_until_requested, sleep_until, block_until, is_reason,
}
use artest_cli.World.{World, pass, Later, Later-trans, pass-Later}

module _ (t : CancellationToken) where
  pub is_cancellation_requested-Later : (w : World) → Later w (is_cancellation_requested t w).1
  unfolding is_cancellation_requested
  is_cancellation_requested-Later w = ground (arith, pass-Later w)

  pub is_timed_out-Later : (w : World) → Later w (is_timed_out t w).1
  unfolding is_timed_out
  is_timed_out-Later w = ground (arith, pass-Later w)

  pub with_timeout-Later : (d : ℤ) (w : World) → Later w (with_timeout t d w).1
  unfolding with_timeout
  with_timeout-Later d w = ground (arith, pass-Later w)

  -- A request that was made is seen.
  pub is_cancellation_requested-sees :
      (w : World) → t.shared ≡ true → w.requested ≡ true → (is_cancellation_requested t w).0 ≡ true
  unfolding is_cancellation_requested
  is_cancellation_requested-sees w s r = ground (arith, pass-Later w)

  reason-Later : (w : World) → Later w (reason t w).1
  unfolding reason
  reason-Later w =
      let a = is_cancellation_requested-Later w in
      elim (Bool-cases (is_cancellation_requested t w).0) [
        | inl e ↦ rw e a
        | inr e ↦ rw e (Later-trans _ _ _ a (is_timed_out-Later (is_cancellation_requested t w).1))
      ]

  wait_until_requested-Later : (end : ℕ) (w : World) → Later w (wait_until_requested end w)
  unfolding wait_until_requested
  wait_until_requested-Later end w = ground (arith, pass-Later w)

  sleep_until-Later : (end : ℕ) (w : World) → Later w (sleep_until end w)
  unfolding sleep_until
  sleep_until-Later end w = ground (arith, pass-Later w)

  block_until-Later : (d : ℤ) (w : World) → Later w (block_until t d w)
  unfolding block_until
  block_until-Later d w = elim (Bool-cases t.shared) [
    | inl e ↦ rw e (Later-trans _ _ _ (pass-Later w) (wait_until_requested-Later _ (pass w)))
    | inr e ↦ rw e (Later-trans _ _ _ (pass-Later w) (sleep_until-Later _ (pass w)))
  ]

  pub wait_for-Later : (d : ℤ) (w : World) → Later w (wait_for t d w).1
  unfolding wait_for
  wait_for-Later d w =
      let a = reason-Later w in
      let v = block_until t d (reason t w).1 in
      elim (Bool-cases (is_reason (reason t w).0)) [
        | inl e ↦ rw e a
        | inr e ↦ rw e (
            Later-trans _ _ _ a
              (Later-trans _ _ _ (block_until-Later d (reason t w).1) (reason-Later v)))
      ]

  -- A deadline that has passed is seen.
  is_timed_out-sees :
      (n : ℕ) (w : World) → t.deadline ≡ some n → n ≤ w.clock → (is_timed_out t w).0 ≡ true
  unfolding is_timed_out
  is_timed_out-sees n w e l = rw e (le→leb n _ (le_trans l (pass-Later w).forward))

  reason_none_requested :
      (w : World) → is_reason (reason t w).0 ≡ false → t.shared ≡ true → w.requested ≡ true → ⊥
  unfolding reason
  reason_none_requested w h s r = true≢false (rw (is_cancellation_requested-sees w s r) at h)

  reason_none_deadline :
      (n : ℕ) (w : World) → is_reason (reason t w).0 ≡ false → t.deadline ≡ some n → n ≤ w.clock → ⊥
  unfolding reason
  reason_none_deadline n w h e l =
      let late =
        is_timed_out-sees n (is_cancellation_requested t w).1 e
          (le_trans l (is_cancellation_requested-Later w).forward) in
      elim (Bool-cases (is_cancellation_requested t w).0) [
        | inl y ↦ true≢false (rw y at h)
        | inr z ↦ true≢false (rw (z, late) at h)
      ]

  -- The blocking part ends by a request or at its end.
  block_until_end :
      (d : ℤ) (w : World)
      → let v = block_until t d w in
        ((t.shared ≡ true) × (v.requested ≡ true))
        ⊎ (earlier t.deadline (after (pass w).clock d) ≤ v.clock)
  unfolding block_until wait_until_requested sleep_until
  block_until_end d w = elim (Bool-cases t.shared) [
    | inr e ↦ rw e (inr (omega arith))
    | inl e ↦ rw e (elim (Bool-cases (pass (pass w)).requested) [
      | inl r ↦ rw r (inl (refl, refl))
      | inr r ↦ rw r (inr (omega arith))
    ])
  ]

  -- A wait that reports no reason has lasted for the whole duration: it was cut short neither by
  -- a request nor by the deadline.
  pub wait_for-lasts :
      (d : ℤ) (w : World) → (wait_for t d w).0 ≡ false → after w.clock d ≤ (wait_for t d w).1.clock
  unfolding wait_for
  wait_for-lasts d w h =
      let w1 = (reason t w).1 in
      let v = block_until t d w1 in
      elim (Bool-cases (is_reason (reason t w).0)) [
        | inl e ↦ absurd (true≢false (rw e at h))
        | inr e ↦ rw e (whole v (rw e at h) (block_until_end d w1))
      ]
    where
      w1 : World
      w1 = (reason t w).1

      begun : w.clock ≤ (pass w1).clock
      begun = le_trans (reason-Later w).forward (pass-Later w1).forward

      whole :
          (v : World)
          → is_reason (reason t v).0 ≡ false
          → ((t.shared ≡ true) × (v.requested ≡ true))
            ⊎ (earlier t.deadline (after (pass w1).clock d) ≤ v.clock)
          → after w.clock d ≤ (reason t v).1.clock
      whole v q (inl (s, r)) = absurd (reason_none_requested v q s r)
      whole v q (inr l) = elim (Option-cases t.deadline) [
        | inl unset ↦
            let l' : after (pass w1).clock d ≤ v.clock =
              subst (λ o. earlier o (after (pass w1).clock d) ≤ v.clock) unset l in
            let f : v.clock ≤ (reason t v).1.clock = (reason-Later v).forward in
            omega (arith, begun)
        | inr (n, set) ↦
            let l' : min n (after (pass w1).clock d) ≤ v.clock =
              subst (λ o. earlier o (after (pass w1).clock d) ≤ v.clock) set l in
            let f : v.clock ≤ (reason t v).1.clock = (reason-Later v).forward in
            elim (dec_le n v.clock) [
              | yes late ↦ absurd (reason_none_deadline n v q set late)
              | no early ↦ omega (arith, begun)
            ]
      ]
