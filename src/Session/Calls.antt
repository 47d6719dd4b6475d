-- ===== src/Session/Calls.antt =====
-- What the calls of a session come to in any order, with the worker ending between any two of them.
use artest_cli.Base.{
  ◌≡◌, refl, sym, subst, ◌∙◌, ap, Bool, true, false, Option, none, some, List, [], ◌∷◌, String,
}
use artest_cli.Diagnostics.{OperationResult, Outcome, returned, raised, succeeded, failure}
use artest_cli.Host.{Host}
use artest_cli.Results.{RunResult, RunStatus}
use artest_cli.Session.Lifecycle.{
  Future, Handle, Call, invalid, running, ready, start, launch, cancel_session, worker_ends,
  wait_for, wait, get, take, perform, perform_all, starts, cancels, ends, waits, waits_for,
}
use artest_cli.Session.Outcome.{run_worker-state}
use artest_cli.Session.Worker.{SessionSteps, Session, Hook, transition_to, terminal_state}
use artest_cli.StateMachine.{
  ExecutionState, idle, initializing, cancelling, cleaning_up, completed, failed, cancelled,
  timed_out, is_allowed, try_transition,
}
use artest_cli.StateMachine

abbrev pub is_idle : ExecutionState → Bool
is_idle idle = true
is_idle _ = false

terminal_state_busy : (v : RunStatus) → is_idle (terminal_state v) ≡ false
unfolding terminal_state
terminal_state_busy RunStatus.passed = refl
terminal_state_busy RunStatus.failed = refl
terminal_state_busy RunStatus.error = refl
terminal_state_busy RunStatus.cancelled = refl
terminal_state_busy RunStatus.timed_out = refl

is_allowed-initializing : (s : ExecutionState) → is_allowed s initializing ≡ is_idle s
unfolding is_allowed
is_allowed-initializing idle = refl
is_allowed-initializing initializing = refl
is_allowed-initializing StateMachine.running = refl
is_allowed-initializing cancelling = refl
is_allowed-initializing cleaning_up = refl
is_allowed-initializing completed = refl
is_allowed-initializing failed = refl
is_allowed-initializing cancelled = refl
is_allowed-initializing timed_out = refl

module _ (h : Host) (lookup : String → Option h.CommandCreator) (prepare finish : Hook h)
    (steps : SessionSteps h.Json h.Command) where
  open h use {Json}

  abbrev pub Caller : Type 0
  Caller = Handle h lookup prepare finish steps

  abbrev refused : Caller → OperationResult × Caller
  refused c = (
    failure "EXECUTION_SESSION_ALREADY_STARTED" "The execution session can only be started once."
        "",
    c,
  )

  start_again :
      (async : Outcome (Unit {0})) (c : Caller)
      → is_idle c.inner.state ≡ false
      → start h lookup prepare finish steps async c ≡ refused c
  unfolding start transition_to try_transition
  start_again async c b = rw (is_allowed-initializing c.inner.state, b) refl

  make :
      Session h lookup prepare finish → Future (RunResult Json) → Option (RunResult Json) → Caller
  make s f r = record { inner = s; future = f; result = r }

  worker_ends-result :
      (s : Session h lookup prepare finish) (f : Future (RunResult Json))
      (o : Option (RunResult Json))
      → (worker_ends h lookup prepare finish steps (make s f o)).result ≡ o
  unfolding worker_ends make
  worker_ends-result s invalid o = refl
  worker_ends-result s running o = refl
  worker_ends-result s (ready q) o = refl

  wait_for-result :
      (b : Bool) (s : Session h lookup prepare finish) (f : Future (RunResult Json))
      (o : Option (RunResult Json)) (r : RunResult Json)
      → o ≡ some r
      → (wait_for h lookup prepare finish steps b (make s f o)).1.result ≡ some r
  unfolding wait_for make
  wait_for-result b s f none r e = cc
  wait_for-result b s f (some q) r e = e

  wait-result :
      (s : Session h lookup prepare finish) (f : Future (RunResult Json))
      (o : Option (RunResult Json)) (r : RunResult Json)
      → o ≡ some r
      → wait h lookup prepare finish steps (make s f o) ≡ (r, make s f o)
  unfolding wait make
  wait-result s f none r e = cc
  wait-result s f (some q) r e = cc (e)

  -- `Refused` says in which states a session can be that has no future and no result.
  module _ (Refused : ExecutionState → Type 0)
      (busy : (s : ExecutionState) → Refused s → is_idle s ≡ false) where
    -- The state of a session that was started, by its future and its kept result.
    abbrev pub Phase : ExecutionState → Future (RunResult Json) → Option (RunResult Json) → Type 0
    Phase s invalid none = Refused s
    Phase s running none = s ≡ initializing
    Phase s (ready r) none = s ≡ terminal_state r.status
    Phase s invalid (some r) = s ≡ terminal_state r.status
    Phase s _ (some r) = ⊥

    abbrev pub IsStarted : Caller → Type 0
    IsStarted c = Phase c.inner.state c.future c.result

    Phase-busy :
        (s : ExecutionState) (f : Future (RunResult Json)) (r : Option (RunResult Json))
        → Phase s f r
        → is_idle s ≡ false
    Phase-busy s invalid none p = busy s p
    Phase-busy s running none p = rw p refl
    Phase-busy s (ready r) none p = rw p (terminal_state_busy r.status)
    Phase-busy s invalid (some r) p = rw p (terminal_state_busy r.status)
    Phase-busy s running (some r) p = elim p [ ]
    Phase-busy s (ready q) (some r) p = elim p [ ]

    worker_ends-IsStarted :
        (s : Session h lookup prepare finish) (f : Future (RunResult Json))
        (r : Option (RunResult Json))
        → Phase s.state f r
        → IsStarted (worker_ends h lookup prepare finish steps (make s f r))
    unfolding worker_ends make
    worker_ends-IsStarted s invalid none p = p
    worker_ends-IsStarted s running none p = run_worker-state h lookup prepare finish steps s p
    worker_ends-IsStarted s (ready q) none p = p
    worker_ends-IsStarted s invalid (some r) p = p
    worker_ends-IsStarted s running (some r) p = elim p [ ]
    worker_ends-IsStarted s (ready q) (some r) p = elim p [ ]

    wait_for-IsStarted :
        (b : Bool) (s : Session h lookup prepare finish) (f : Future (RunResult Json))
        (r : Option (RunResult Json))
        → Phase s.state f r
        → IsStarted (wait_for h lookup prepare finish steps b (make s f r)).1
    unfolding wait_for make
    wait_for-IsStarted b s f (some r) p = p
    wait_for-IsStarted b s invalid none p = p
    wait_for-IsStarted true s running none p = worker_ends-IsStarted s running none p
    wait_for-IsStarted false s running none p = p
    wait_for-IsStarted true s (ready q) none p = worker_ends-IsStarted s (ready q) none p
    wait_for-IsStarted false s (ready q) none p = p

    wait-IsStarted :
        (s : Session h lookup prepare finish) (f : Future (RunResult Json))
        (r : Option (RunResult Json))
        → Phase s.state f r
        → IsStarted (wait h lookup prepare finish steps (make s f r)).1
    unfolding wait make get take worker_ends
    wait-IsStarted s f (some r) p = p
    wait-IsStarted s invalid none p = p
    wait-IsStarted s running none p = run_worker-state h lookup prepare finish steps s p
    wait-IsStarted s (ready q) none p = p

    perform-IsStarted :
        (call : Call h lookup prepare finish steps) (c : Caller)
        → IsStarted c
        → IsStarted (perform h lookup prepare finish steps call c)
    unfolding perform cancel_session make
    perform-IsStarted (starts async) c p =
        subst IsStarted
          (sym (ap (λ x. x.1) (start_again async c (Phase-busy c.inner.state c.future c.result p))))
          p
    perform-IsStarted cancels c p = p
    perform-IsStarted ends c p = worker_ends-IsStarted c.inner c.future c.result p
    perform-IsStarted (waits_for b) c p = wait_for-IsStarted b c.inner c.future c.result p
    perform-IsStarted waits c p = wait-IsStarted c.inner c.future c.result p

    perform_all-IsStarted :
        (calls : List (Call h lookup prepare finish steps)) (c : Caller)
        → IsStarted c
        → IsStarted (perform_all h lookup prepare finish steps calls c)
    unfolding perform_all
    perform_all-IsStarted [] c p = p
    perform_all-IsStarted (call ∷ calls) c p =
        perform_all-IsStarted calls _ (perform-IsStarted call c p)

    perform-result :
        (call : Call h lookup prepare finish steps) (c : Caller) (r : RunResult Json)
        → IsStarted c
        → c.result ≡ some r
        → (perform h lookup prepare finish steps call c).result ≡ some r
    unfolding perform cancel_session make
    perform-result (starts async) c r p e =
        ap (λ x. x.1.result) (start_again async c (Phase-busy c.inner.state c.future c.result p))
        ∙ e
    perform-result cancels c r p e = e
    perform-result ends c r p e = worker_ends-result c.inner c.future c.result ∙ e
    perform-result (waits_for b) c r p e = wait_for-result b c.inner c.future c.result r e
    perform-result waits c r p e =
        ap (λ x. x.1.result) (wait-result c.inner c.future c.result r e) ∙ e

    perform_all-result :
        (calls : List (Call h lookup prepare finish steps)) (c : Caller) (r : RunResult Json)
        → IsStarted c
        → c.result ≡ some r
        → (perform_all h lookup prepare finish steps calls c).result ≡ some r
    unfolding perform_all
    perform_all-result [] c r p e = e
    perform_all-result (call ∷ calls) c r p e =
        perform_all-result calls _ r (perform-IsStarted call c p) (perform-result call c r p e)

    wait_state :
        (c : Caller) (r : RunResult Json)
        → IsStarted c
        → c.result ≡ some r
        → c.inner.state ≡ terminal_state r.status
    wait_state c r p e = at c.future c.result p e
      where
        at :
            (f : Future (RunResult Json)) (o : Option (RunResult Json))
            → Phase c.inner.state f o
            → o ≡ some r
            → c.inner.state ≡ terminal_state r.status
        at f none p e = cc
        at invalid (some q) p e =
            let g : q ≡ r = cc in p ∙ ap (λ (x : RunResult Json). terminal_state x.status) g
        at running (some q) p e = elim p [ ]
        at (ready q) (some r') p e = elim p [ ]

  -- A session that nothing has been asked of.
  abbrev pub IsNew : Caller → Type 0
  IsNew c = (c.inner.state ≡ idle) × (c.future ≡ invalid) × (c.result ≡ none)

  abbrev HasFailed : ExecutionState → Type 0
  HasFailed s = s ≡ failed

  abbrev Never : ExecutionState → Type 0
  Never s = ⊥

  HasFailed_busy : (s : ExecutionState) → HasFailed s → is_idle s ≡ false
  HasFailed_busy s e = rw e refl

  Never_busy : (s : ExecutionState) → Never s → is_idle s ≡ false
  Never_busy s e = elim e [ ]

  start-IsStarted :
      (async : Outcome (Unit {0})) (c : Caller)
      → IsNew c
      → IsStarted HasFailed HasFailed_busy (start h lookup prepare finish steps async c).1
  unfolding start launch transition_to try_transition is_allowed
  start-IsStarted (returned u) c (i, f, r) = rw (i, r) refl
  start-IsStarted (raised what) c (i, f, r) = rw (i, f, r) refl

  launch-IsStarted :
      (c : Caller)
      → IsNew c
      → IsStarted Never Never_busy (start h lookup prepare finish steps (returned tt) c).1
  unfolding start launch transition_to try_transition is_allowed
  launch-IsStarted c (i, f, r) = rw (i, r) refl

  -- A session starts once: after `Start`, whether the thread could be created or not, and after any
  -- calls and ends of the worker, another `Start` fails and changes nothing.
  pub start-perform_all :
      (async again : Outcome (Unit {0})) (calls : List (Call h lookup prepare finish steps))
      (c : Caller)
      → IsNew c
      → let c1 =
          perform_all h lookup prepare finish steps calls
            (start h lookup prepare finish steps async c).1 in
        let (r, c2) = start h lookup prepare finish steps again c1 in
        (succeeded r ≡ false) × (c2 ≡ c1)
  start-perform_all async again calls c n =
      let c1 =
        perform_all h lookup prepare finish steps calls
          (start h lookup prepare finish steps async c).1 in
      let p = perform_all-IsStarted HasFailed HasFailed_busy calls _ (start-IsStarted async c n) in
      rw
        (start_again again c1
          (Phase-busy HasFailed HasFailed_busy c1.inner.state c1.future c1.result p))
        (refl, refl)

  -- `Wait` keeps its answer, if the thread was created.
  wait_keeps :
      (s : Session h lookup prepare finish) (f : Future (RunResult Json))
      (o : Option (RunResult Json))
      → Phase Never Never_busy s.state f o
      → let (r, c1) = wait h lookup prepare finish steps (make s f o) in c1.result ≡ some r
  unfolding wait get take worker_ends make
  wait_keeps s f (some r) p = refl
  wait_keeps s invalid none p = elim p [ ]
  wait_keeps s running none p = refl
  wait_keeps s (ready q) none p = refl

  -- Once the thread was created and a `Wait` has returned, the session is in the terminal state of
  -- the result, and after any calls every further `Wait` returns the same result at once.
  pub wait-perform_all :
      (before after : List (Call h lookup prepare finish steps)) (c : Caller)
      → IsNew c
      → let c1 =
          perform_all h lookup prepare finish steps before
            (start h lookup prepare finish steps (returned tt) c).1 in
        let (r, c2) = wait h lookup prepare finish steps c1 in
        let c3 = perform_all h lookup prepare finish steps after c2 in
        (c2.inner.state ≡ terminal_state r.status)
        × (wait h lookup prepare finish steps c3 ≡ (r, c3))
  unfolding make
  wait-perform_all before after c n =
      let c1 =
        perform_all h lookup prepare finish steps before
          (start h lookup prepare finish steps (returned tt) c).1 in
      let p = perform_all-IsStarted Never Never_busy before _ (launch-IsStarted c n) in
      let r = (wait h lookup prepare finish steps c1).0 in
      let c2 = (wait h lookup prepare finish steps c1).1 in
      let c3 = perform_all h lookup prepare finish steps after c2 in
      let q = wait-IsStarted Never Never_busy c1.inner c1.future c1.result p in
      let e = wait_keeps c1.inner c1.future c1.result p in
      (
        wait_state Never Never_busy c2 r q e,
        wait-result c3.inner c3.future c3.result r
            (perform_all-result Never Never_busy after c2 r q e),
      )
