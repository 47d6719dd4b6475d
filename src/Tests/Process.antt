-- ===== src/Tests/Process.antt =====
-- A worker process that is told to give up, one whose pipe breaks, and a message that is sent.
use artest_cli.Base.{
  ◌↔◌, ℕ, ◌≡◌, ◌⊎◌, ◌≤◌, inl, refl, Bool, true, false, some, [], ◌∷◌, is_empty, str_eq,
  if◌then◌else◌, arith,
}
use artest_cli.Base.Int.{pos}
use artest_cli.Process.Cancelling.{IsInterruption}
use artest_cli.Process.Deadline.{IsEnded, pump-IsEnded, pump-IsInterruption}
use artest_cli.Process.Frames.{HasHeader, HasBody, decode-encode, decode-Has}
use artest_cli.Process.Requests.{
  Dispatch, abort, entered, left_scope, call, IsGivenUp, IsRefusing, call-IsGivenUp,
}
use artest_cli.Process.Stopping.{Ending, stop, stop_request, IsDownAfter, stop-IsDownAfter}
use artest_cli.Process.Supervisor.{
  Supervisor, ready, Turn, ended, going, fresh, pump, turn, interrupt, await,
}
use artest_cli.Process.Wire.{
  Codec, Envelope, Request, Response, invoke, ok, cancelled, not_found, Answer, answered, thrown,
  process_error, request_body, cancel_body, response_body, encode, decode, validate_envelope,
  new_message, new_response,
}

-- Messages stand for their own frames, and every text that is not empty has 64 bytes.
abbrev plain : Codec
plain = record {
  Frame = Envelope;
  frame_size = λ m. 16;
  byte_size = λ m. 16;
  serialize = λ m. m;
  parse = λ m. some m;
  text_size = λ s. if is_empty s then 0 else 64;
  is_json = λ s. str_eq s "{}";
  is_utf8 = λ s. true;
  parse-serialize = λ m w. refl;
  frame_size-serialize = λ m w. refl;
  generation_written = λ m w h. omega arith;
}

abbrev set_voltage : Request
set_voltage = record {
  operation = invoke;
  component = 3;
  type_id = "";
  operation_id = "set_voltage";
  payload = record { schema_id = "power.v1"; json = "{}" };
  remaining_ms = 100;
  has_deadline = true;
}

abbrev sent_request : Envelope
sent_request = new_message 7 2 (request_body set_voltage)

encodes : encode plain sent_request ≡ answered sent_request
unfolding encode validate_envelope
encodes = refl

decodes : decode plain sent_request ≡ answered sent_request
unfolding decode validate_envelope
decodes = refl

decode-encode_example :
    (encode plain sent_request ≡ answered sent_request)
    ↔ (decode plain sent_request ≡ answered sent_request)
decode-encode_example = decode-encode plain sent_request (ground arith)

decode-Has_example :
    (16 ≤ 1048576)
    × (some sent_request ≡ some sent_request)
    × HasHeader plain sent_request
    × HasBody plain sent_request.body
decode-Has_example = decode-Has plain sent_request sent_request decodes

abbrev worker : Supervisor
worker = record {
  state = ready;
  connected = true;
  generation = 7;
  next_correlation = 4;
  last_service = 0;
  service_parent = 0;
  active = 2 ∷ [];
  deadlines = 100 ∷ [];
  service_ancestry = [];
  pending = [];
  has_service_handler = false;
  has_event_handler = false;
  dropped_events = 0;
  written = [];
  delivered = [];
}

-- A turn at a time, with what is read.
abbrev at : ℕ → Bool → Answer Envelope → Turn
at n probed answer = record {
  now = n;
  probed = probed;
  writes = λ m. answered tt;
  read = answer;
  handles_event = answered tt;
  service_now = n;
  service_probed = probed;
  classified_at = n;
  serve = λ r s. (answered (new_response not_found ""), s);
}

abbrev nothing_read : Answer Envelope
nothing_read = thrown (process_error "PROCESS_IO_TIMEOUT" "")

pump-IsEnded_example : IsEnded (
    pump 50 2 100
      (at 10 false nothing_read
        ∷ at 100 false nothing_read
        ∷ at 120 false nothing_read
        ∷ at 150 false nothing_read
        ∷ [])
      (fresh 50 2 100)
      worker)
pump-IsEnded_example =
    pump-IsEnded 50 2 100 (at 10 false nothing_read ∷ []) (at 120 false nothing_read ∷ []) []
      (at 100 false nothing_read) (at 150 false nothing_read) worker (omega arith, tt) (omega arith)
      (omega arith)

-- The worker acknowledges, and reports that it had done the work.
abbrev acknowledges : Turn
acknowledges = at 20 true (answered (new_message 7 2 (cancel_body true)))

abbrev reports : Turn
reports = at 30 true (answered (new_message 7 2 (response_body (new_response ok ""))))

abbrev given : Response
given = new_response cancelled "Invocation interrupted. "

abbrev told : Supervisor
told = record worker { written = new_message 7 2 (cancel_body false) ∷ [] }

gives_up :
    pump 50 2 100
      (at 10 false nothing_read ∷ acknowledges ∷ reports ∷ at 40 true nothing_read ∷ [])
      (fresh 50 2 100)
      worker
    ≡ ended (answered given) told
unfolding pump turn interrupt await
gives_up = refl

waits_first :
    pump 50 2 100 (at 10 false nothing_read ∷ []) (fresh 50 2 100) worker
    ≡ going (fresh 50 2 100) worker
unfolding pump turn interrupt await
waits_first = refl

pump-IsInterruption_example : IsInterruption given.status
pump-IsInterruption_example =
    pump-IsInterruption 50 2 100 (at 10 false nothing_read ∷ [])
      (reports ∷ at 40 true nothing_read ∷ []) acknowledges worker worker told (fresh 50 2 100)
      given waits_first refl gives_up

abbrev broken_pipe : Dispatch
broken_pipe = record {
  is_owner = true;
  probed = false;
  now = 10;
  measured_at = 11;
  writes = λ m. thrown (process_error "PROCESS_IO" "Broken pipe.");
}

abbrev lost : Supervisor
lost = left_scope (abort (entered 60 worker))

breaks :
    call 50 set_voltage (pos 50) broken_pipe [] worker
    ≡ ended
        (thrown (
          process_error "PROCESS_IO"
            "Broken pipe. Cleanup is unconfirmed; the hardware outcome may be indeterminate. No call was replayed."))
        lost
unfolding call abort
breaks = refl

call-IsGivenUp_example : (lost ≡ worker) ⊎ (IsGivenUp lost × IsRefusing 50 lost)
call-IsGivenUp_example =
    call-IsGivenUp 50 set_voltage (pos 50) broken_pipe [] worker lost
      (process_error "PROCESS_IO"
        "Broken pipe. Cleanup is unconfirmed; the hardware outcome may be indeterminate. No call was replayed.")
      breaks

-- A worker that does not answer is given up.
abbrev silent : Ending
silent = record {
  dispatch = broken_pipe;
  turns = [];
  process_exits = false;
  drain_started = 20;
  queries = (some 1, 300) ∷ [];
}

abbrev idle_worker : Supervisor
idle_worker = record worker { active = []; deadlines = [] }

call_ends : IsEnded (call 50 stop_request (pos 500) silent.dispatch silent.turns idle_worker)
unfolding call abort
call_ends = tt

stop-IsDownAfter_example : IsDownAfter idle_worker (stop 50 silent idle_worker)
stop-IsDownAfter_example = stop-IsDownAfter 50 silent idle_worker call_ends (inl (omega arith))
