-- ===== src/Session/Outcome.antt =====
-- What a session leaves behind: its state, its instruments and its verdict.
use artest_cli.Base.{ℕ, ◌≡◌, refl, ◌⊎◌, inl, inr, Option, List, String, Bool-cases, arith}
use artest_cli.Executor.Attempts.{RuntimeStep}
use artest_cli.Host.{Host}
use artest_cli.Results.{RunStatus}
use artest_cli.Session.Binding.{Setup, ready, refused, thrown}
use artest_cli.Session.Worker.{
  SessionSteps, Session, Hook, transition_to, terminal_state, body, run_steps, enter_cleanup,
  run_worker, before_cleanup, asked,
}
use artest_cli.StateMachine.{ExecutionState, initializing, running, cleaning_up, try_transition}

module _ (h : Host) (lookup : String → Option h.CommandCreator) (prepare finish : Hook h) where
  open h use {Json, Command, Bench}

  transition_to-state :
      (next : ExecutionState) (s : Session h lookup prepare finish)
      → (transition_to h lookup prepare finish next s).1.state ≡ (try_transition s.state next).1
  unfolding transition_to try_transition
  transition_to-state next s = ground arith

  run_steps-state :
      (n : ℕ) (steps : List (RuntimeStep Command)) (s : Session h lookup prepare finish)
      → s.state ≡ initializing
      → (run_steps h lookup prepare finish n steps s).1.state ≡ running
  unfolding run_steps transition_to try_transition
  run_steps-state n steps s e = rw e refl

  body-state :
      (n : ℕ) (x : Setup (List (RuntimeStep Command))) (s : Session h lookup prepare finish)
      → s.state ≡ initializing
      → let t = (body h lookup prepare finish n x s).1.state in (t ≡ initializing) ⊎ (t ≡ running)
  unfolding body
  body-state n (refused ds) s e = inl e
  body-state n (thrown what) s e = inl e
  body-state n (ready steps) s e =
      let (stop, m) = asked h lookup prepare finish s.manager in
      elim (Bool-cases stop) [
        | inl y ↦ rw y (inl e)
        | inr z ↦ rw z (inr (run_steps-state n steps (record s { manager = m }) e))
      ]

  enter_cleanup-state :
      (v : RunStatus) (s : Session h lookup prepare finish)
      → (s.state ≡ initializing) ⊎ (s.state ≡ running)
      → (enter_cleanup h lookup prepare finish v s).state ≡ cleaning_up
  unfolding enter_cleanup transition_to try_transition
  enter_cleanup-state v s e = ground arith

  finish-state :
      (v : RunStatus) (s : Session h lookup prepare finish)
      → s.state ≡ cleaning_up
      → (transition_to h lookup prepare finish (terminal_state v) s).1.state ≡ terminal_state v
  unfolding transition_to try_transition terminal_state
  finish-state v s e = ground arith

  -- A session that was started ends in the terminal state of its verdict, on every path: refusals,
  -- exceptions, cancellation and failing cleanup included.
  pub run_worker-state :
      (steps : SessionSteps Json Command) (s : Session h lookup prepare finish)
      → s.state ≡ initializing
      → let (run, t) = run_worker h lookup prepare finish steps s in
        t.state ≡ terminal_state run.status
  unfolding run_worker before_cleanup
  run_worker-state steps s e = finish-state _ _ (enter_cleanup-state _ _ (body-state _ _ _ e))
