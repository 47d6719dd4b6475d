-- ===== src/Process/Stopping.antt =====
-- `Stop` of WorkerSupervisor.cpp in source/ARTestEngine.Process, but for the handle of the job.
use artest_cli.Base.{
  ℕ, ◌≡◌, refl, ap, ◌+◌, ◌≤◌, ◌<◌, ◌⊎◌, inl, inr, Bool, true, false, ◌&&◌, Option, none, some, List,
  [], ◌∷◌, ◌==◌, leb, if◌then◌else◌, arith,
}
use artest_cli.Base.Int.{pos}
use artest_cli.Process.Wire.{
  Request, unspecified, Operation, Response, is_ok, answered, thrown, no_payload,
}
use artest_cli.Process.Wire
use artest_cli.Process.Supervisor.{
  Supervisor, WorkerState, created, starting, handshaking, ready, stopping, exited, faulted, Turn,
  Progress, ended, going, is_ready,
}
use artest_cli.Process.Deadline.{IsEnded}
use artest_cli.Process.Requests.{Dispatch, abort, call, IsGivenUp}

-- What the system answers while the worker stops: the call's turns, whether the process exits in
-- time, and for each query of the job the processes that are left, if it answers, and the time after.
pub record Ending : Type 0 where
  pub dispatch : Dispatch
  pub turns : List Turn
  pub process_exits : Bool
  pub drain_started : ℕ
  pub queries : List (Option ℕ × ℕ)

-- `Stop` has returned, or it waits for the call or for the job.
pub data Stopping : Type 0 where
  stopped waits : Supervisor → Stopping

abbrev pub stop_request : Request
stop_request = record {
  operation = Wire.stop;
  component = 0;
  type_id = "";
  operation_id = "";
  payload = no_payload;
  remaining_ms = 0;
  has_deadline = false;
}

-- The loop that waits until the job has no process.
unfoldable pub drain : ℕ → List (Option ℕ × ℕ) → Supervisor → Stopping
drain deadline [] s = waits s
drain deadline ((none, now) ∷ rest) s = stopped (abort s)
drain deadline ((some processes, now) ∷ rest) s =
    let later = drain deadline rest s in
    if processes == 0
    then stopped (record s { state = exited })
    else if leb deadline now
    then stopped (abort s)
    else later

abbrev pub closing : Ending → Response → Supervisor → Stopping
closing e r s =
    if is_ok r.status && e.process_exits
    then drain (e.drain_started + 250) e.queries (record s { state = stopping; connected = false })
    else stopped (abort (record s { state = stopping }))

abbrev pub concluding : Ending → Progress → Stopping
concluding e (ended (answered r) s) = closing e r s
concluding e (ended (thrown x) s) = stopped (abort s)
concluding e (going l s) = waits s

-- A live call is not dismantled through a nested one.
abbrev pub asks : List ℕ → ℕ → Ending → Supervisor → Stopping
asks [] g e s = concluding e (call g stop_request (pos 500) e.dispatch e.turns s)
asks (k ∷ ks) g e s = stopped (abort s)

abbrev pub stop_in : WorkerState → ℕ → Ending → Supervisor → Stopping
stop_in created g e s = stopped s
stop_in exited g e s = stopped s
stop_in faulted g e s = stopped (abort s)
stop_in _ g e s = asks s.active g e s

-- `Stop`.
unfoldable pub stop : ℕ → Ending → Supervisor → Stopping
stop g e s = stop_in s.state g e s

-- The worker was never started, or it exited and the pipe is closed, or it was given up.
abbrev pub IsDown : Supervisor → Supervisor → Type 0
IsDown before s =
    ((s ≡ before) × (is_ready s.state ≡ false))
    ⊎ (((s.state ≡ exited) × (s.connected ≡ false)) ⊎ IsGivenUp s)

abbrev pub IsDownAfter : Supervisor → Stopping → Type 0
IsDownAfter before (stopped s) = IsDown before s
IsDownAfter before (waits s) = ⊥

-- A query comes when the time to drain is over.
abbrev pub HasLate : ℕ → List (Option ℕ × ℕ) → Type 0
HasLate deadline [] = ⊥
HasLate deadline ((o, now) ∷ rest) = (deadline ≤ now) ⊎ HasLate deadline rest

abort-IsDown : (before s : Supervisor) → IsDown before (abort s)
unfolding abort
abort-IsDown before s = inr (inr (refl, refl, refl))

if-IsDownAfter :
    (b : Bool) (before : Supervisor) (x y : Stopping)
    → (b ≡ true → IsDownAfter before x)
    → (b ≡ false → IsDownAfter before y)
    → IsDownAfter before (if b then x else y)
if-IsDownAfter true before x y hx hy = hx refl
if-IsDownAfter false before x y hx hy = hy refl

leb_lem : (a b : ℕ) → leb a b ≡ false → b < a
leb_lem a b h = ground arith

late_or_next :
    (deadline now : ℕ) (rest : List (Option ℕ × ℕ))
    → (deadline ≤ now) ⊎ HasLate deadline rest
    → leb deadline now ≡ false
    → HasLate deadline rest
late_or_next deadline now rest (inl h) e = absurd (omega (arith, leb_lem deadline now e, h))
late_or_next deadline now rest (inr h) e = h

drain-IsDownAfter :
    (d : ℕ) (qs : List (Option ℕ × ℕ)) (before s : Supervisor)
    → s.connected ≡ false
    → HasLate d qs
    → IsDownAfter before (drain d qs s)
unfolding drain
drain-IsDownAfter d [] before s h k = absurd k
drain-IsDownAfter d ((none, now) ∷ rest) before s h k = abort-IsDown before s
drain-IsDownAfter d ((some processes, now) ∷ rest) before s h k =
    if-IsDownAfter (processes == 0) before _ _ (λ u. inr (inl (refl, h)))
      (λ u.
        if-IsDownAfter (leb d now) before _ _ (λ v. abort-IsDown before s)
          (λ v. drain-IsDownAfter d rest before s h (late_or_next d now rest k v)))

concluding-IsDownAfter :
    (e : Ending) (before : Supervisor) (p : Progress)
    → IsEnded p
    → HasLate (e.drain_started + 250) e.queries
    → IsDownAfter before (concluding e p)
concluding-IsDownAfter e before (ended (answered r) s) h k =
    if-IsDownAfter (is_ok r.status && e.process_exits) before _ _
      (λ u.
        drain-IsDownAfter (e.drain_started + 250) e.queries before
          (record s { state = stopping; connected = false }) refl k)
      (λ u. abort-IsDown before (record s { state = stopping }))
concluding-IsDownAfter e before (ended (thrown x) s) h k = abort-IsDown before s
concluding-IsDownAfter e before (going l s) h k = absurd h

module _ (g : ℕ) (e : Ending) (s : Supervisor)
    (ends : IsEnded (call g stop_request (pos 500) e.dispatch e.turns s))
    (late : HasLate (e.drain_started + 250) e.queries) where
  asks-IsDownAfter : (active : List ℕ) → IsDownAfter s (asks active g e s)
  asks-IsDownAfter [] =
      concluding-IsDownAfter e s (call g stop_request (pos 500) e.dispatch e.turns s) ends late
  asks-IsDownAfter (k ∷ ks) = abort-IsDown s s

  stop_in-IsDownAfter : (x : WorkerState) → s.state ≡ x → IsDownAfter s (stop_in x g e s)
  stop_in-IsDownAfter created h = inl (refl, ap is_ready h)
  stop_in-IsDownAfter exited h = inl (refl, ap is_ready h)
  stop_in-IsDownAfter faulted h = abort-IsDown s s
  stop_in-IsDownAfter starting h = asks-IsDownAfter s.active
  stop_in-IsDownAfter handshaking h = asks-IsDownAfter s.active
  stop_in-IsDownAfter ready h = asks-IsDownAfter s.active
  stop_in-IsDownAfter stopping h = asks-IsDownAfter s.active

  -- Stopping a worker returns, if the call that asks it to stop ends and the job is queried until the
  -- time to drain is over. Afterwards the worker had not been running, or it exited and the pipe is
  -- closed, or it was given up.
  pub stop-IsDownAfter : IsDownAfter s (stop g e s)
  unfolding stop
  stop-IsDownAfter = stop_in-IsDownAfter s.state refl
