-- ===== src/Process/Requests.antt =====
-- `Call` and `Abort` of WorkerSupervisor.cpp in source/ARTestEngine.Process.
use artest_cli.Base.{
  ℕ, ◌≡◌, refl, subst, ◌+◌, ◌-◌, ◌%◌, Bool, true, false, List, [], ◌∷◌, not, ◌||◌, ◌⊎◌, inl, inr,
  leb, length, min, ◌⧺◌, if◌then◌else◌,
}
use artest_cli.Base.Int.{ℤ, pos, leb_ℤ, pos_part}
use artest_cli.Process.Wire.{
  cancelled, timed_out, Request, Response, request_body, Envelope, Fault, process_error,
  other_error, Answer, answered, thrown, new_message, new_response,
}
use artest_cli.Process.Supervisor.{
  Supervisor, faulted, Turn, Progress, ended, going, is_ready, throws, sent, fresh, pump,
}

-- What the thread, the clock and the probes do before the first turn.
pub record Dispatch : Type 0 where
  pub is_owner : Bool
  pub probed : Bool
  pub now : ℕ
  pub measured_at : ℕ
  pub writes : Envelope → Answer (Unit {0})

-- `Abort`, up to the end of the process.
unfoldable pub abort : Supervisor → Supervisor
abort s = record s { state = faulted; connected = false; pending = [] }

abbrev pub answers : Response → Supervisor → Progress
answers r s = ended (answered r) s

abbrev pub earlier : ℕ → List ℕ → ℕ
earlier deadline [] = deadline
earlier deadline (d ∷ ds) = min deadline d

abbrev pub tail {ℓ} : {A : Type ℓ} → List A → List A
tail [] = []
tail (x ∷ xs) = xs

-- The scope of the call: its correlation and its deadline, pushed and popped.
abbrev pub entered : ℕ → Supervisor → Supervisor
entered deadline s = record s {
  next_correlation = (s.next_correlation + 2) % 18446744073709551616;
  active = s.next_correlation ∷ s.active;
  deadlines = deadline ∷ s.deadlines;
}

abbrev pub left_scope : Supervisor → Supervisor
left_scope s = record s { active = tail s.active; deadlines = tail s.deadlines }

-- The handlers of `Call`, which end the worker and give up the call.
abbrev pub unconfirmed : Fault → Fault
unconfirmed (process_error code text) = process_error code (
    text
    ⧺ " Cleanup is unconfirmed; the hardware outcome may be indeterminate. No call was replayed.")
unconfirmed other_error = other_error

abbrev pub concluded : Progress → Progress
concluded (ended (answered r) s) = ended (answered r) (left_scope s)
concluded (ended (thrown x) s) = ended (thrown (unconfirmed x)) (left_scope (abort s))
concluded (going l s) = going l s

abbrev pub request_message : Request → ℕ → ℕ → Supervisor → Envelope
request_message request correlation remaining s =
    record (new_message s.generation correlation
      (request_body (record request { has_deadline = true; remaining_ms = remaining }))) {
        parent = s.service_parent;
      }

-- `cancellation_grace` is an option of the supervisor.
module _ (cancellation_grace : ℕ) where
  abbrev pub request_written :
      Envelope → Answer (Unit {0}) → ℕ → ℕ → List Turn → Supervisor → Progress
  request_written m (thrown x) correlation deadline turns s = ended (thrown x) s
  request_written m (answered u) correlation deadline turns s =
      pump cancellation_grace correlation deadline turns
        (fresh cancellation_grace correlation deadline) (sent m s)

  abbrev pub send : Request → ℕ → ℕ → Dispatch → List Turn → Supervisor → Progress
  send request correlation deadline d turns s =
      let m = request_message request correlation (deadline - d.measured_at) s in
      if leb deadline d.measured_at
      then answers (new_response timed_out "Nested invocation budget expired.") s
      else request_written m (d.writes m) correlation deadline turns s

  abbrev pub dispatch : Request → ℕ → Dispatch → List Turn → Supervisor → Progress
  dispatch request deadline d turns s =
      concluded (send request s.next_correlation deadline d turns (entered deadline s))

  -- `Call`.
  unfoldable pub call : Request → ℤ → Dispatch → List Turn → Supervisor → Progress
  call request timeout d turns s =
      if not d.is_owner || not (is_ready s.state)
      then throws "PROCESS_STATE_INVALID" "Worker calls are owner-thread operations in Ready state."
          s
      else if leb_ℤ timeout (pos 0)
      then answers (new_response timed_out "Invocation budget expired before dispatch.") s
      else if d.probed
      then answers (new_response cancelled "Invocation cancelled before dispatch.") s
      else if leb 16 (length s.active)
      then throws "PROCESS_REENTRANCY_LIMIT" "Service call depth exceeded." s
      else dispatch request (earlier (d.now + pos_part timeout) s.deadlines) d turns s

-- The worker is given up: the state, the pipe and the results that were waiting.
abbrev pub IsGivenUp : Supervisor → Type 0
IsGivenUp s = (s.state ≡ faulted) × (s.connected ≡ false) × (s.pending ≡ [])

-- A throw leaves the supervisor as it was or gives the worker up.
abbrev pub BreaksOff : Supervisor → Progress → Type 0
BreaksOff s (ended (thrown x) after) = (after ≡ s) ⊎ IsGivenUp after
BreaksOff s _ = Unit

concluded-BreaksOff : (s : Supervisor) (p : Progress) → BreaksOff s (concluded p)
unfolding abort
concluded-BreaksOff s (ended (answered r) s1) = tt
concluded-BreaksOff s (ended (thrown x) s1) = inr (refl, refl, refl)
concluded-BreaksOff s (going l s1) = tt

if-BreaksOff :
    (b : Bool) (s : Supervisor) (p q : Progress)
    → BreaksOff s p
    → BreaksOff s q
    → BreaksOff s (if b then p else q)
if-BreaksOff true s p q hp hq = hp
if-BreaksOff false s p q hp hq = hq

or_true : (b : Bool) → (b || true) ≡ true
or_true true = refl
or_true false = refl

module _ (g : ℕ) where
  call-BreaksOff :
      (request : Request) (timeout : ℤ) (d : Dispatch) (turns : List Turn) (s : Supervisor)
      → BreaksOff s (call g request timeout d turns s)
  unfolding call
  call-BreaksOff request timeout d turns s =
      if-BreaksOff (not d.is_owner || not (is_ready s.state)) s _ _ (inl refl) (
        if-BreaksOff (leb_ℤ timeout (pos 0)) s _ _ tt (
          if-BreaksOff d.probed s _ _ tt (
            if-BreaksOff (leb 16 (length s.active)) s _ _ (inl refl) (
              concluded-BreaksOff s (
                send g request s.next_correlation (earlier (d.now + pos_part timeout) s.deadlines) d
                  turns (entered (earlier (d.now + pos_part timeout) s.deadlines) s))))))

  -- A worker that was given up gets no further request: every call throws and changes nothing.
  call-faulted :
      (request : Request) (timeout : ℤ) (d : Dispatch) (turns : List Turn) (s : Supervisor)
      → s.state ≡ faulted
      → call g request timeout d turns s
        ≡ throws "PROCESS_STATE_INVALID" "Worker calls are owner-thread operations in Ready state."
            s
  unfolding call
  call-faulted request timeout d turns s e = rw (e, or_true (not d.is_owner)) refl

  -- Every call throws and changes nothing.
  abbrev pub IsRefusing : Supervisor → Type 0
  IsRefusing s =
      (request : Request) (timeout : ℤ) (d : Dispatch) (turns : List Turn)
      → call g request timeout d turns s
        ≡ throws "PROCESS_STATE_INVALID" "Worker calls are owner-thread operations in Ready state."
            s

  BreaksOff-IsRefusing :
      (s after : Supervisor)
      → (after ≡ s) ⊎ IsGivenUp after
      → (after ≡ s) ⊎ (IsGivenUp after × IsRefusing after)
  BreaksOff-IsRefusing s after (inl e) = inl e
  BreaksOff-IsRefusing s after (inr h) =
      inr (h, λ request timeout d turns. call-faulted request timeout d turns after h.0)

  -- A call that throws leaves the supervisor as it was, or gives the worker up: its state is faulted,
  -- the pipe is closed, no result waits, and every later call throws and changes nothing.
  pub call-IsGivenUp :
      (request : Request) (timeout : ℤ) (d : Dispatch) (turns : List Turn) (s after : Supervisor)
      (x : Fault)
      → call g request timeout d turns s ≡ ended (thrown x) after
      → (after ≡ s) ⊎ (IsGivenUp after × IsRefusing after)
  call-IsGivenUp request timeout d turns s after x e =
      BreaksOff-IsRefusing s after
        (subst (BreaksOff s) e (call-BreaksOff request timeout d turns s))
