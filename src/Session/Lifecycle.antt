-- ===== src/Session/Lifecycle.antt =====
-- `Start`, `Cancel`, `WaitFor`, `Wait` and the destructor of Execution/ExecutionSession.cpp in
-- source/ARTestEngine.Core. The wait mutex makes each call one step; between the calls the worker
-- may end. What happens while the worker runs is in the world of `run_worker`.
use artest_cli.Base.{Bool, true, false, Option, none, some, List, [], ◌∷◌, String, if◌then◌else◌}
use artest_cli.Cancellation.{cancel}
use artest_cli.Diagnostics.{
  OperationResult, Outcome, returned, raised, success, failure, error_at, what_or,
}
use artest_cli.Host.{Host}
use artest_cli.Results.{RunResult, RunStatus, internal, new_run, empty_summary}
use artest_cli.Session.Worker.{
  SessionSteps, Session, Hook, planned_steps, transition_to, in_world, run_worker,
}
use artest_cli.StateMachine.{ExecutionState, initializing, failed, cleaning_up}

-- `std::future`: invalid, not ready, or ready with the worker's result.
pub data Future (R : Type 0) : Type 0 where
  invalid running : Future R
  ready : R → Future R

module _ (h : Host) (lookup : String → Option h.CommandCreator) (prepare finish : Hook h)
    (steps : SessionSteps h.Json h.Command) where
  open h use {Json}

  -- A session with its future and the result that `Wait` keeps.
  pub record Handle : Type 0 where
    pub inner : Session h lookup prepare finish
    pub future : Future (RunResult Json)
    pub result : Option (RunResult Json)

  abbrev pub to_state :
      ExecutionState → Session h lookup prepare finish → Session h lookup prepare finish
  to_state next s = (transition_to h lookup prepare finish next s).1

  -- The outcome of `std::async`.
  unfoldable pub launch : Outcome (Unit {0}) → Handle → OperationResult × Handle
  launch (returned u) c = (success, record c { future = running })
  launch (raised what) c = (
    failure "EXECUTION_ASYNC_START_FAILED"
        (what_or "Unknown failure while starting asynchronous execution." what) "",
    record c { inner = to_state failed (to_state cleaning_up c.inner) },
  )

  -- `Start`.
  unfoldable pub start : Outcome (Unit {0}) → Handle → OperationResult × Handle
  start async c =
      let (made, s) = transition_to h lookup prepare finish initializing c.inner in
      if made then launch async (record c { inner = s }) else (
        failure "EXECUTION_SESSION_ALREADY_STARTED"
            "The execution session can only be started once." "",
        c,
      )

  -- `Cancel`.
  unfoldable pub cancel_session : Handle → Handle
  cancel_session c = record c { inner = in_world h lookup prepare finish cancel c.inner }

  -- The worker thread ends.
  unfoldable pub worker_ends : Handle → Handle
  worker_ends c = elim c.future [
    | running ↦
        let (r, s) = run_worker h lookup prepare finish steps c.inner in
        record c { inner = s; future = ready r }
    | _ ↦ c
  ]

  abbrev pub is_ready : Future (RunResult Json) → Bool
  is_ready (ready r) = true
  is_ready _ = false

  -- `WaitFor`; `ends` says whether the worker ends before the timeout.
  unfoldable pub wait_for : Bool → Handle → Bool × Handle
  wait_for ends c =
      let after = if ends then worker_ends c else c in
      elim c.result [
        | some r ↦ (true, c)
        | none ↦ elim c.future [ invalid ↦ (false, c) | _ ↦ (is_ready after.future, after) ]
      ]

  abbrev pub not_started : RunResult Json
  not_started = record new_run {
    summary = record empty_summary {
      planned_steps = planned_steps steps;
      skipped_steps = planned_steps steps;
    };
    status = RunStatus.error;
    failure_kind = internal;
    diagnostics =
        error_at "EXECUTION_SESSION_NOT_STARTED" "The execution session was not started." "" ∷ [];
  }

  -- `m_future.get()`, which leaves the future invalid.
  unfoldable pub take : RunResult Json → Handle → RunResult Json × Handle
  take r c = (r, record c { future = invalid; result = some r })

  unfoldable pub get : Handle → RunResult Json × Handle
  get c = elim c.future [ ready r ↦ take r c | _ ↦ (not_started, c) ]

  -- `Wait`, which blocks until the worker has ended.
  unfoldable pub wait : Handle → RunResult Json × Handle
  wait c = elim c.result [ some r ↦ (r, c) | none ↦ get (worker_ends c) ]

  -- The destructor, up to the release of the members.
  unfoldable pub destroy : Handle → Handle
  destroy c = elim c.future [ invalid ↦ cancel_session c | _ ↦ (wait (cancel_session c)).1 ]

  -- A call of another thread, or the end of the worker.
  pub data Call : Type 0 where
    starts : Outcome (Unit {0}) → Call
    cancels ends waits : Call
    waits_for : Bool → Call

  unfoldable pub perform : Call → Handle → Handle
  perform (starts async) c = (start async c).1
  perform cancels c = cancel_session c
  perform ends c = worker_ends c
  perform (waits_for b) c = (wait_for b c).1
  perform waits c = (wait c).1

  unfoldable pub perform_all : List Call → Handle → Handle
  perform_all [] c = c
  perform_all (call ∷ calls) c = perform_all calls (perform call c)
