-- ===== src/Session/Worker.antt =====
-- `RunWorker` of Execution/ExecutionSession.cpp in source/ARTestEngine.Core. The manager holds the
-- bench and the world; the session has one cancellation source, whose token is `source_token`.
use artest_cli.Base.{
  ℕ, ◌-◌, ◌&&◌, Bool, true, false, Option, none, some, List, [], ◌∷◌, ◌++◌, String, ◌⧺◌, is_empty,
  length, if◌then◌else◌,
}
use artest_cli.Cancellation.{source_token, is_cancellation_requested}
use artest_cli.Context.{new_context}
use artest_cli.Diagnostics.{
  Diagnostic, OperationResult, Outcome, returned, raised, error_at, is_error, succeeded, success,
  what_or,
}
use artest_cli.Executor.Attempts.{RuntimeStep}
use artest_cli.Executor.Accounts.{summary_text}
use artest_cli.Executor.Runs.{execute, run_completed_event}
use artest_cli.Host.{Host, Reply}
use artest_cli.Instruments.Manager.{initialize_all, shutdown_all}
use artest_cli.Results.{
  RunStatus, RunResult, RunFailureKind, initialization, execution, cleanup, internal, new_run,
}
use artest_cli.Session.Binding.{
  CompiledStep, Setup, ready, refused, thrown, Manager, after_call, bind_commands,
}
use artest_cli.StateMachine.{
  ExecutionState, initializing, running, cancelling, cleaning_up, to_string, try_transition,
}
use artest_cli.StateMachine
use artest_cli.World.{
  World, direct, session, EngineEvent, EngineEventSeverity, event, diagnostic, run_state_changed,
  publish, now,
}

-- The steps that the session was given: executable ones, or compiled ones that are bound when the
-- session runs.
pub data SessionSteps (J C : Type 0) : Type 0 where
  runtime : List (RuntimeStep C) → SessionSteps J C
  compiled : List (CompiledStep J) → SessionSteps J C

abbrev pub planned_steps : {J C : Type 0} → SessionSteps J C → ℕ
planned_steps (runtime s) = length s
planned_steps (compiled s) = length s

abbrev pub diagnostic_event : Diagnostic → EngineEvent
diagnostic_event d =
    event diagnostic (if is_error d then EngineEventSeverity.error else EngineEventSeverity.warning)
      d.code (if is_empty d.location then d.message else d.location ⧺ ": " ⧺ d.message)

unfoldable pub publish_diagnostics : List Diagnostic → World → World
publish_diagnostics [] w = w
publish_diagnostics (d ∷ ds) w = publish_diagnostics ds (publish direct (diagnostic_event d) w)

unfoldable pub terminal_state : RunStatus → ExecutionState
terminal_state RunStatus.passed = StateMachine.completed
terminal_state RunStatus.cancelled = StateMachine.cancelled
terminal_state RunStatus.timed_out = StateMachine.timed_out
terminal_state RunStatus.failed = StateMachine.failed
terminal_state RunStatus.error = StateMachine.failed

-- The states in which the worker has to enter CANCELLING, or CLEANING_UP.
abbrev pub is_active : ExecutionState → Bool
is_active initializing = true
is_active running = true
is_active _ = false

abbrev pub is_unclean : ExecutionState → Bool
is_unclean cancelling = true
is_unclean s = is_active s

abbrev is_cancelled : RunStatus → Bool
is_cancelled RunStatus.cancelled = true
is_cancelled _ = false

-- `std::function<OperationResult()>`, which may be empty.
abbrev pub Hook : Host → Type 0
Hook h = Option (h.Bench → World → Reply h.Bench OperationResult)

module _ (h : Host) (lookup : String → Option h.CommandCreator) (prepare finish : Hook h) where
  open h use {Json, Command, Bench}

  -- The session's state machine and its instruments.
  pub record Session : Type 0 where
    pub state : ExecutionState
    pub manager : Manager h lookup

  abbrev pub in_world : (World → World) → Session → Session
  in_world f s = record s { manager = record s.manager { world = f s.manager.world } }

  -- `TransitionTo`.
  unfoldable pub transition_to : ExecutionState → Session → Bool × Session
  transition_to next s =
      let (made, state) = try_transition s.state next in
      if made
      then (
        true,
        in_world
            (publish direct (
              event run_state_changed EngineEventSeverity.information "execution-session"
                (to_string next)))
            (record s { state = state }),
      )
      else (false, s)

  unfoldable pub asked : Manager h lookup → Bool × Manager h lookup
  asked m =
      let (b, w) = is_cancellation_requested source_token m.world in (b, record m { world = w })

  unfoldable pub run_hook : Hook h → Manager h lookup → Outcome OperationResult × Manager h lookup
  run_hook none m = (returned success, m)
  run_hook (some f) m =
      let reply = f m.bench m.world in (reply.outcome, after_call h lookup reply m)

  unfoldable pub bind_steps :
      SessionSteps Json Command
      → Manager h lookup
      → Setup (List (RuntimeStep Command)) × Manager h lookup
  bind_steps (runtime steps) m = (ready steps, m)
  bind_steps (compiled steps) m = bind_commands h lookup steps m

  -- The commands are bound only if no cancellation was requested.
  unfoldable pub initialize_and_bind :
      SessionSteps Json Command
      → Manager h lookup
      → Setup (List (RuntimeStep Command)) × Manager h lookup
  initialize_and_bind steps m =
      let (r, m1) = initialize_all h m in
      let (stop, m2) = asked m1 in
      if succeeded r
      then (if stop then (ready [], m2) else bind_steps steps m2)
      else (refused r.diagnostics, m1)

  abbrev pub after_prepare :
      SessionSteps Json Command
      → Outcome OperationResult × Manager h lookup
      → Setup (List (RuntimeStep Command)) × Manager h lookup
  after_prepare steps (raised what, m) = (thrown what, m)
  after_prepare steps (returned r, m) =
      if succeeded r then initialize_and_bind steps m else (refused r.diagnostics, m)

  -- The first statements of the `try` block, up to the tests of `initialization`.
  unfoldable pub set_up :
      SessionSteps Json Command
      → Manager h lookup
      → Setup (List (RuntimeStep Command)) × Manager h lookup
  set_up steps m = after_prepare steps (run_hook prepare m)

  abbrev unstarted : ℕ → RunResult Json
  unstarted planned = record new_run {
    summary = record {
      planned_steps = planned;
      skipped_steps = planned;
      executed_steps = 0;
      passed_steps = 0;
      failed_steps = 0;
      error_steps = 0;
      cancelled_steps = 0;
      timed_out_steps = 0;
      total_attempts = 0;
      duration = 0;
    };
  }

  abbrev pub cancelled_run : ℕ → RunResult Json
  cancelled_run planned = record (unstarted planned) {
    status = RunStatus.cancelled;
    failure_kind = execution;
  }

  abbrev pub error_run : ℕ → RunFailureKind → List Diagnostic → RunResult Json
  error_run planned kind ds = record (unstarted planned) {
    status = RunStatus.error;
    failure_kind = kind;
    diagnostics = ds;
  }

  abbrev exception_diagnostic : Option String → Diagnostic
  exception_diagnostic what =
      error_at "EXECUTION_SESSION_EXCEPTION"
        (what_or "Unknown exception escaped the execution session." what) ""

  abbrev transition_diagnostic : Diagnostic
  transition_diagnostic =
      error_at "EXECUTION_STATE_TRANSITION_INVALID" "The session could not transition to RUNNING."
        ""

  -- The steps are executed if the session could enter RUNNING.
  unfoldable pub run_steps : ℕ → List (RuntimeStep Command) → Session → RunResult Json × Session
  run_steps planned steps s =
      let (entered, s1) = transition_to running s in
      let p = execute h session source_token steps new_context s1.manager.bench s1.manager.world in
      let (stop, m) = asked s1.manager in
      if entered
      then (p.run, record s1 { manager = record s1.manager { bench = p.bench; world = p.world } })
      else (
        if stop
            then cancelled_run planned
            else error_run planned internal (transition_diagnostic ∷ []),
        record s1 { manager = m },
      )

  -- The rest of the `try` block and its handlers.
  unfoldable pub body : ℕ → Setup (List (RuntimeStep Command)) → Session → RunResult Json × Session
  body planned (refused ds) s =
      (error_run planned initialization ds, in_world (publish_diagnostics ds) s)
  body planned (thrown what) s =
      let ds = exception_diagnostic what ∷ [] in
      (error_run planned internal ds, in_world (publish_diagnostics ds) s)
  body planned (ready steps) s =
      let (stop, m) = asked s.manager in
      let s1 : Session = record s { manager = m } in
      if stop then (cancelled_run planned, s1) else run_steps planned steps s1

  -- CANCELLING for a cancelled run, then CLEANING_UP.
  unfoldable pub enter_cleanup : RunStatus → Session → Session
  enter_cleanup status s =
      let s1 =
        if is_cancelled status && is_active s.state then (transition_to cancelling s).1 else s in
      if is_unclean s1.state then (transition_to cleaning_up s1).1 else s1

  abbrev pub hook_diagnostics : Outcome OperationResult → List Diagnostic
  hook_diagnostics (returned r) = r.diagnostics
  hook_diagnostics (raised what) =
      error_at "RUNTIME_CLEANUP_EXCEPTION" (what_or "Unknown runtime cleanup failure." what) "" ∷ []

  -- `ShutdownAll` and then the runtime's own end, which is attempted in any case. The destruction of
  -- the commands before is left out.
  unfoldable pub clean_up : Manager h lookup → List Diagnostic × Manager h lookup
  clean_up m =
      let (down, m1) = shutdown_all h m in
      let (outcome, m2) = run_hook finish m1 in (down ++ hook_diagnostics outcome, m2)

  -- A cleanup that fails makes the run an error.
  unfoldable pub account_cleanup : List Diagnostic → RunResult Json → RunResult Json
  account_cleanup ds run = if succeeded (record { diagnostics = ds }) then run else record run {
    status = RunStatus.error;
    failure_kind = cleanup;
    diagnostics = run.diagnostics ++ ds;
  }

  -- `RunWorker` until `ShutdownAll`, after the start was read from the clock.
  unfoldable pub before_cleanup : SessionSteps Json Command → Session → RunResult Json × Session
  before_cleanup steps s =
      let (setup, m) = set_up steps s.manager in
      let (run, s1) = body (planned_steps steps) setup (record s { manager = m }) in
      (run, enter_cleanup run.status s1)

  -- `RunWorker`, from the state in which `Start` has left the session.
  unfoldable pub run_worker : SessionSteps Json Command → Session → RunResult Json × Session
  run_worker steps s =
      let (start, w) = now s.manager.world in
      let (run, s2) = before_cleanup steps (in_world (λ x. w) s) in
      let (ds, m3) = clean_up s2.manager in
      let run2 = account_cleanup ds run in
      let reported =
        if succeeded (record { diagnostics = ds })
        then m3.world
        else publish_diagnostics ds m3.world in
      let (end, w4) = now reported in
      let run3 = record run2 { summary = record run2.summary { duration = end - start } } in
      let s5 : Session = record s2 { manager = record m3 { world = w4 } } in
      let s6 = (transition_to (terminal_state run3.status) s5).1 in
      (
        run3,
        in_world (publish direct (run_completed_event "execution-session" (summary_text run3) run3))
            s6,
      )
