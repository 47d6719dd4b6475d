-- ===== src/Process/Deadline.antt =====
-- `Pump` of WorkerSupervisor.cpp in source/ARTestEngine.Process: its loop ends after the deadline, and
-- what it answers after an interruption.
use artest_cli.Base.{
  ℕ, ◌≡◌, refl, sym, subst, ap, ◌∙◌, ◌+◌, ◌≤◌, Bool, true, false, List, [], ◌∷◌, ◌++◌, All, All-map,
  if◌then◌else◌, arith, le→leb,
}
use mathlib.Core.Bool.{true≢false}
use artest_cli.Process.Cancelling.{IsInterruption}
use artest_cli.Process.Interruption.{
  IsCancelling, IsSettled, MayCancel, Continues, turn-IsSettled, pump-IsSettled, pump-Continues,
}
use artest_cli.Process.Wire.{Response, answered, thrown}
use artest_cli.Process.Supervisor.{
  Supervisor, Turn, Waiting, Progress, ended, going, is_up, interrupted, fresh, await, interrupt,
  turn, pump,
}

-- The call has ended.
abbrev pub IsEnded : Progress → Type 0
IsEnded (ended a s) = Unit
IsEnded (going l s) = ⊥

if-IsEnded : (x : Bool) (p q : Progress) → IsEnded p → IsEnded q → IsEnded (if x then p else q)
if-IsEnded true p q hp hq = hp
if-IsEnded false p q hp hq = hq

module _ (g c d : ℕ) where
  -- The loop after a stretch of turns.
  abbrev pump_on : List Turn → Progress → Progress
  pump_on ts (ended a s) = ended a s
  pump_on ts (going l s) = pump g c d ts l s

  abbrev Any : ℕ → Type 0
  Any n = Unit

  pump_on-append :
      (xs ys : List Turn) (p : Progress)
      → ((l : Waiting) (s : Supervisor)
          → pump g c d (xs ++ ys) l s ≡ pump_on ys (pump g c d xs l s))
      → pump_on (xs ++ ys) p ≡ pump_on ys (pump_on xs p)
  pump_on-append xs ys (ended a s) h = refl
  pump_on-append xs ys (going l s) h = h l s

  pump-append :
      (xs ys : List Turn) (l : Waiting) (s : Supervisor)
      → pump g c d (xs ++ ys) l s ≡ pump_on ys (pump g c d xs l s)
  unfolding pump
  pump-append [] ys l s = refl
  pump-append (t ∷ xs) ys l s = pump_on-append xs ys (turn g c d t l s) (pump-append xs ys)

  pump_on-IsSettled :
      (Grace : ℕ → Type 0) (ts : List Turn) (p : Progress)
      → IsSettled g c d Grace p
      → IsSettled g c d Grace (pump_on ts p)
  pump_on-IsSettled Grace ts (ended (answered r) s) h = h
  pump_on-IsSettled Grace ts (ended (thrown x) s) h = h
  pump_on-IsSettled Grace ts (going l s) h = pump-IsSettled g c d Grace ts l s h

  -- A turn after the grace.
  late-IsEnded :
      (b : ℕ) (t : Turn) (l : Waiting) (s : Supervisor)
      → IsCancelling g c d (λ n. n ≤ b) l
      → b ≤ t.now
      → IsEnded (turn g c d t l s)
  unfolding turn interrupt await
  late-IsEnded b t l s (e, i, k) h =
      rw (e, le→leb l.grace t.now (omega (arith, k, h))) (if-IsEnded (is_up s) _ _ tt tt)

  pump_on-IsEnded : (rest : List Turn) (p : Progress) → IsEnded p → IsEnded (pump_on rest p)
  pump_on-IsEnded rest (ended a s) h = tt
  pump_on-IsEnded rest (going l s) h = absurd h

  pump_late-IsEnded :
      (b : ℕ) (t : Turn) (rest : List Turn) (p : Progress)
      → IsSettled g c d (λ n. n ≤ b) p
      → b ≤ t.now
      → IsEnded (pump_on (t ∷ rest) p)
  unfolding pump
  pump_late-IsEnded b t rest (ended a s) h k = tt
  pump_late-IsEnded b t rest (going l s) h k =
      pump_on-IsEnded rest (turn g c d t l s) (late-IsEnded b t l s h k)

  interrupted_late : (t : Turn) → d ≤ t.now → interrupted d t ≡ true
  interrupted_late t h = ground arith

  MayCancel-fresh : (Grace : ℕ → Type 0) → MayCancel g c d Grace (fresh g c d)
  MayCancel-fresh Grace e = absurd (true≢false (sym e))

  rest-IsEnded :
      (mid rest : List Turn) (t u : Turn) (p : Progress)
      → Continues g c d (λ n. n ≤ t.now + g) p
      → d ≤ t.now
      → t.now + g ≤ u.now
      → IsEnded (pump_on (t ∷ (mid ++ (u ∷ rest))) p)
  unfolding pump
  rest-IsEnded mid rest t u (ended a s) h e k = tt
  rest-IsEnded mid rest t u (going l s) h e k =
      let b = t.now + g in
      let settled =
        turn-IsSettled g c d (λ n. n ≤ b) t l s h (omega arith) (interrupted_late t e) in
      let on = pump_on mid (turn g c d t l s) in
      rw (pump_on-append mid (u ∷ rest) (turn g c d t l s) (pump-append mid (u ∷ rest))) (
        pump_late-IsEnded b u rest on
          (pump_on-IsSettled (λ n. n ≤ b) mid (turn g c d t l s) settled) k)

  -- The loop of a call ends, whatever the worker and the handlers do: if a turn comes at the deadline
  -- or later, no turn before it is later, and another comes when the grace after it has passed, the
  -- call has ended with an answer or a throw.
  pub pump-IsEnded :
      (before mid rest : List Turn) (t u : Turn) (s : Supervisor)
      → All (λ v. v.now ≤ t.now) before
      → d ≤ t.now
      → t.now + g ≤ u.now
      → IsEnded (pump g c d (before ++ (t ∷ (mid ++ (u ∷ rest)))) (fresh g c d) s)
  pump-IsEnded before mid rest t u s h e k =
      let b = t.now + g in
      let sooner =
        All-map (λ v. v.now ≤ t.now) (λ v. v.now + g ≤ b) (λ v q. omega (arith, q)) before h in
      rw (pump-append before (t ∷ (mid ++ (u ∷ rest))) (fresh g c d) s) (
        rest-IsEnded mid rest t u (pump g c d before (fresh g c d) s)
          (pump-Continues g c d (λ n. n ≤ b) before (fresh g c d) s (MayCancel-fresh (λ n. n ≤ b))
            sooner)
          e k)

  All-Any : (ts : List Turn) → All (λ t. Unit {0}) ts
  All-Any [] = tt
  All-Any (t ∷ ts) = (tt, All-Any ts)

  turn_on-IsSettled :
      (t : Turn) (rest : List Turn) (l : Waiting) (s : Supervisor)
      → MayCancel g c d Any l
      → interrupted d t ≡ true
      → IsSettled g c d Any (pump g c d (t ∷ rest) l s)
  unfolding pump
  turn_on-IsSettled t rest l s h e =
      pump_on-IsSettled Any rest (turn g c d t l s) (turn-IsSettled g c d Any t l s h tt e)

  -- A call that a turn finds past its deadline or cancelled, before its result has come, answers that
  -- it timed out or was cancelled, whatever status the worker reports, if it answers at all.
  pub pump-IsInterruption :
      (before rest : List Turn) (t : Turn) (s after last : Supervisor) (l : Waiting) (r : Response)
      → pump g c d before (fresh g c d) s ≡ going l after
      → interrupted d t ≡ true
      → pump g c d (before ++ (t ∷ rest)) (fresh g c d) s ≡ ended (answered r) last
      → IsInterruption r.status
  pump-IsInterruption before rest t s after last l r e i q =
      let open_loop =
        subst (Continues g c d Any) e (
          pump-Continues g c d Any before (fresh g c d) s (MayCancel-fresh Any) (All-Any before)) in
      let goes_on = pump-append before (t ∷ rest) (fresh g c d) s ∙ ap (pump_on (t ∷ rest)) e in
      subst (IsSettled g c d Any) (sym goes_on ∙ q) (turn_on-IsSettled t rest l after open_loop i)
