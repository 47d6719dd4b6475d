-- ===== src/Process/Supervisor.antt =====
-- `Call`, `Pump` and `Abort` of WorkerSupervisor.cpp in source/ARTestEngine.Process, on the thread
-- that owns the supervisor. The clock is in milliseconds. What the pipe, the clock, the probes and
-- the handlers do in one turn of the loop of `Pump` is a `Turn`.
use artest_cli.Base.{
  ℕ, ◌+◌, ◌%◌, Bool, true, false, Option, none, some, List, [], ◌∷◌, String, not, ◌&&◌, ◌||◌, ◌==◌,
  leb, any, str_eq, to_string, ◌⧺◌, if◌then◌else◌,
}
use artest_cli.Process.Wire.{
  Operation, resolve_service, invoke_service, release_service, Status, ok, cancelled, timed_out,
  not_found, Request, Response, Event, Body, request_body, response_body, cancel_body, event_body,
  Envelope, process_error, other_error, Answer, answered, thrown, new_message, new_response,
}

pub data WorkerState : Type 0 where
  created starting handshaking ready stopping exited faulted : WorkerState

-- The fields of the supervisor that a call reads or writes, what it has written to the pipe, and the
-- events that the handler received. The vectors are lists from the back.
pub record Supervisor : Type 0 where
  pub state : WorkerState
  pub connected : Bool
  pub generation : ℕ
  pub next_correlation : ℕ
  pub last_service : ℕ
  pub service_parent : ℕ
  pub active : List ℕ
  pub deadlines : List ℕ
  pub service_ancestry : List String
  pub pending : List (ℕ × Response)
  pub has_service_handler : Bool
  pub has_event_handler : Bool
  pub dropped_events : ℕ
  pub written : List Envelope
  pub delivered : List Event

-- One turn of the loop. `Read` answers a message or throws; `writes` says what `Write` does, and
-- `serve` what the service handler does, which may call the supervisor again.
pub record Turn : Type 0 where
  pub now : ℕ
  pub probed : Bool
  pub writes : Envelope → Answer (Unit {0})
  pub read : Answer Envelope
  pub handles_event : Answer (Unit {0})
  pub service_now : ℕ
  pub service_probed : Bool
  pub classified_at : ℕ
  pub serve : Request → Supervisor → Answer Response × Supervisor

-- The variables of `Pump`.
pub record Waiting : Type 0 where
  pub cancel_sent : Bool
  pub cancel_acknowledged : Bool
  pub interrupted_status : Status
  pub grace : ℕ
  pub events : ℕ

pub data Progress : Type 0 where
  ended : Answer Response → Supervisor → Progress
  going : Waiting → Supervisor → Progress

abbrev pub is_ready : WorkerState → Bool
is_ready ready = true
is_ready _ = false

abbrev pub is_up : Supervisor → Bool
is_up s = is_ready s.state && s.connected

abbrev pub throws : String → String → Supervisor → Progress
throws code text s = ended (thrown (process_error code text)) s

abbrev pub find_pending : ℕ → List (ℕ × Response) → Option Response
find_pending key [] = none
find_pending key ((k, r) ∷ rest) = if k == key then some r else find_pending key rest

abbrev pub erase_pending : ℕ → List (ℕ × Response) → List (ℕ × Response)
erase_pending key [] = []
erase_pending key ((k, r) ∷ rest) =
    let others = erase_pending key rest in if k == key then others else (k, r) ∷ others

abbrev pub is_pending : ℕ → List (ℕ × Response) → Bool
is_pending key pending = elim (find_pending key pending) [ some r ↦ true | none ↦ false ]

abbrev pub is_active : ℕ → Supervisor → Bool
is_active key s = any (λ k. k == key) s.active

-- What a successful write leaves in the pipe.
abbrev pub sent : Envelope → Supervisor → Supervisor
sent m s = record s { written = m ∷ s.written }

-- The status of an interruption, and the answer that it changes.
abbrev pub interruption : ℕ → ℕ → Status
interruption now deadline = if leb deadline now then timed_out else cancelled

abbrev pub classified : Waiting → Response → Response
classified l r =
    if l.cancel_sent
    then record r {
      status = l.interrupted_status;
      diagnostic = "Invocation interrupted. " ⧺ r.diagnostic;
    }
    else r

abbrev pub interrupted : ℕ → Turn → Bool
interrupted deadline t = leb deadline t.now || t.probed

abbrev pub is_service : Operation → Bool
is_service resolve_service = true
is_service invoke_service = true
is_service release_service = true
is_service _ = false

abbrev pub is_release : Operation → Bool
is_release release_service = true
is_release _ = false

module _ (cancellation_grace correlation deadline : ℕ) where
  abbrev pub fresh : Waiting
  fresh = record {
    cancel_sent = false;
    cancel_acknowledged = false;
    interrupted_status = ok;
    grace = deadline;
    events = 0;
  }

  -- A terminal result.
  abbrev pub receive_response : Envelope → Response → Waiting → Supervisor → Progress
  receive_response m r l s =
      if not (is_active m.correlation s) || is_pending m.correlation s.pending
      then throws "PROCESS_CORRELATION_INVALID" "Duplicate or unknown terminal result." s
      else going l (record s { pending = (m.correlation, r) ∷ s.pending })

  -- The acknowledgement of a cancellation.
  abbrev pub receive_cancel : Envelope → Bool → Waiting → Supervisor → Progress
  receive_cancel m acknowledged l s =
      if not (is_active m.correlation s)
        || not acknowledged
        || not l.cancel_sent
        || l.cancel_acknowledged
        || not (m.correlation == correlation)
      then throws "PROCESS_CANCEL_INVALID" "Unexpected cancellation acknowledgement." s
      else going (record l { cancel_acknowledged = true }) s

  abbrev pub deliver : Event → Answer (Unit {0}) → Waiting → Supervisor → Progress
  deliver e (thrown x) l s = ended (thrown x) s
  deliver e (answered u) l s = going l (record s { delivered = e ∷ s.delivered })

  abbrev pub counted : Event → Turn → Waiting → Supervisor → Progress
  counted e t l s =
      if leb l.events 128
      then (if s.has_event_handler then deliver e t.handles_event l s else going l s)
      else going l (record s { dropped_events = s.dropped_events + 1 })

  abbrev pub receive_event : Envelope → Event → Turn → Waiting → Supervisor → Progress
  receive_event m e t l s =
      if is_active m.correlation s
      then counted e t (record l { events = l.events + 1 }) s
      else throws "PROCESS_CORRELATION_INVALID" "Event outside an active invocation." s

  -- The end of the scope `Restore`.
  abbrev pub restored : ℕ → List String → Supervisor → Supervisor
  restored previous ancestry s = record s { service_parent = previous; service_ancestry = ancestry }

  abbrev pub popped : List String → List String
  popped [] = []
  popped (key ∷ keys) = keys

  abbrev pub leave : ℕ → Progress → Progress
  leave previous (ended a s) = ended a (restored previous (popped s.service_ancestry) s)
  leave previous (going l s) = going l (restored previous (popped s.service_ancestry) s)

  abbrev pub reply_written : Envelope → Answer (Unit {0}) → Waiting → Supervisor → Progress
  reply_written m (thrown x) l s = ended (thrown x) s
  reply_written m (answered u) l s = going l (sent m s)

  -- The handler's answer is written, if the worker still runs.
  abbrev pub reply : ℕ → Turn → Waiting → Answer Response → Supervisor → Progress
  reply key t l (thrown x) s = ended (thrown x) s
  reply key t l (answered r) s =
      let m = new_message s.generation key (response_body r) in
      if is_up s
      then reply_written m (t.writes m) l s
      else throws "PROCESS_STATE_INVALID" "Worker stopped during a service callback." s

  abbrev pub handled : Request → Turn → Supervisor → Answer Response × Supervisor
  handled request t s =
      if s.has_service_handler
      then t.serve request s
      else (answered (new_response not_found "Service broker not configured."), s)

  -- After an interruption only a release reaches the handler.
  abbrev pub dispatched : Request → Turn → Waiting → Supervisor → Answer Response × Supervisor
  dispatched request t l s =
      if not (is_release request.operation)
        && (l.cancel_sent || leb deadline t.service_now || t.service_probed)
      then (
        answered (
            new_response (interruption t.classified_at deadline)
              "Service invocation interrupted before dispatch."),
        s,
      )
      else handled request t s

  abbrev pub service_key : Request → String
  service_key request = to_string request.component ⧺ (":" ⧺ request.operation_id)

  abbrev pub serve_request : Envelope → Request → Turn → Waiting → Supervisor → Progress
  serve_request m request t l s =
      let inside = record s {
        service_parent = m.correlation;
        service_ancestry = service_key request ∷ s.service_ancestry;
      } in
      let (a, after) = dispatched request t l inside in
      leave s.service_parent (reply m.correlation t l a after)

  -- A service request of the worker.
  abbrev pub receive_request : Envelope → Request → Turn → Waiting → Supervisor → Progress
  receive_request m request t l s =
      let noted = record s { last_service = m.correlation } in
      if not (m.correlation % 2 == 1)
        || leb m.correlation s.last_service
        || not (is_active m.parent s)
        || not (is_service request.operation)
      then throws "PROCESS_SERVICE_INVALID" "Invalid scoped service request." s
      else if any (λ k. str_eq k (service_key request)) s.service_ancestry
      then throws "PROCESS_SERVICE_CYCLE" "Cyclic service call rejected." noted
      else serve_request m request t l noted

  abbrev pub receive_body : Body → Envelope → Turn → Waiting → Supervisor → Progress
  receive_body (response_body r) m t l s = receive_response m r l s
  receive_body (cancel_body acknowledged) m t l s = receive_cancel m acknowledged l s
  receive_body (event_body e) m t l s = receive_event m e t l s
  receive_body (request_body request) m t l s = receive_request m request t l s
  receive_body _ m t l s = throws "PROCESS_PROTOCOL_INVALID" "Unexpected message after handshake." s

  -- What `Read` answered; its timeout is no error.
  abbrev pub receive : Answer Envelope → Turn → Waiting → Supervisor → Progress
  receive (answered m) t l s =
      if m.generation == s.generation
      then receive_body m.body m t l s
      else throws "PROCESS_GENERATION_INVALID" "Stale worker generation." s
  receive (thrown other_error) t l s = ended (thrown other_error) s
  receive (thrown (process_error code text)) t l s =
      if str_eq code "PROCESS_IO_TIMEOUT" then going l s else throws code text s

  -- The pending result of the call, once a cancellation is acknowledged.
  abbrev pub settle : Option Response → Turn → Waiting → Supervisor → Progress
  settle none t l s = receive t.read t l s
  settle (some r) t l s =
      if not l.cancel_sent || l.cancel_acknowledged
      then ended (answered (classified l r))
          (record s { pending = erase_pending correlation s.pending })
      else receive t.read t l s

  unfoldable pub await : Turn → Waiting → Supervisor → Progress
  await t l s =
      if l.cancel_sent && leb l.grace t.now
      then throws "PROCESS_CANCEL_TIMEOUT" "Worker ignored cancellation/deadline." s
      else settle (find_pending correlation s.pending) t l s

  abbrev pub cancel_written : Envelope → Answer (Unit {0}) → Turn → Waiting → Supervisor → Progress
  cancel_written m (thrown x) t l s = ended (thrown x) s
  cancel_written m (answered u) t l s =
      await t
        (record l {
          cancel_sent = true;
          interrupted_status = interruption t.now deadline;
          grace = t.now + cancellation_grace;
        })
        (sent m s)

  unfoldable pub interrupt : Turn → Waiting → Supervisor → Progress
  interrupt t l s =
      let m = new_message s.generation correlation (cancel_body false) in
      if not l.cancel_sent && interrupted deadline t
      then cancel_written m (t.writes m) t l s
      else await t l s

  -- One turn of the loop of `Pump`.
  unfoldable pub turn : Turn → Waiting → Supervisor → Progress
  turn t l s =
      if is_up s
      then interrupt t l s
      else throws "PROCESS_STATE_INVALID" "Worker stopped during a callback." s

  -- `Pump`, as far as the turns go.
  unfoldable pub pump : List Turn → Waiting → Supervisor → Progress
  pump [] l s = going l s
  pump (t ∷ turns) l s = elim (turn t l s) [
    | ended a s1 ↦ ended a s1
    | going l1 s1 ↦ pump turns l1 s1
  ]
