-- ===== src/World/Defs.antt =====
-- Events, sinks and the world: Execution/IEventSink.h of source/ARTestEngine.Core, and the event
-- sink of Execution/ExecutionSession.cpp that keeps the executor's last event back.
use artest_cli.Base.{
  ℕ, ◌+◌, ◌||◌, Bool, true, false, Option, none, List, [], ◌∷◌, ◌++◌, String, reverse,
}
use artest_cli.Base.Int.{ℤ}
use artest_cli.Results.{StepStatus, RunStatus}

pub data EngineEventKind : Type 0 where
  diagnostic instrument_initializing instrument_initialized instrument_shutdown : EngineEventKind
  instrument_operation run_state_changed step_started step_attempt_started : EngineEventKind
  step_retry_scheduled step_completed run_completed : EngineEventKind

pub data EngineEventSeverity : Type 0 where
  trace information warning error : EngineEventSeverity

pub record EngineEvent : Type 0 where
  pub kind : EngineEventKind
  pub severity : EngineEventSeverity
  pub source : String
  pub message : String
  pub step_id : Option ℕ
  pub step_status : Option StepStatus
  pub run_status : Option RunStatus
  pub attempt : Option ℕ
  pub duration : Option ℤ

-- `{kind, severity, source, message}`, the optional fields empty.
abbrev pub event : EngineEventKind → EngineEventSeverity → String → String → EngineEvent
event kind severity source message = record {
  kind = kind;
  severity = severity;
  source = source;
  message = message;
  step_id = none;
  step_status = none;
  run_status = none;
  attempt = none;
  duration = none;
}

abbrev pub is_run_completed : EngineEvent → Bool
is_run_completed e = elim e.kind [ run_completed ↦ true | _ ↦ false ]

-- What other threads and the clock do between two operations of the worker.
pub record Interference : Type 0 where
  pub elapsed : ℕ
  pub cancels : Bool

pub record World : Type 0 where
  pub requested : Bool
  pub clock : ℕ
  pub pending : List Interference
  pub log : List EngineEvent

-- A sink given by the caller, or `SessionEventSink` in front of it.
pub data EventSink : Type 0 where
  direct session : EventSink

abbrev pub passes : EventSink → EngineEvent → Bool
passes direct e = true
passes session e = elim e.kind [ run_completed ↦ false | _ ↦ true ]

unfoldable pub publish : EventSink → EngineEvent → World → World
publish sink e w = elim (passes sink e) [ true ↦ record w { log = e ∷ w.log } | false ↦ w ]

abbrev pub interfere : Interference → World → World
interfere i w = record w { requested = w.requested || i.cancels; clock = w.clock + i.elapsed }

-- The world when the next operation of the worker takes effect.
unfoldable pub pass : World → World
pass w = elim w.pending [ [] ↦ w | i ∷ rest ↦ record (interfere i w) { pending = rest } ]

-- `steady_clock::now()`.
unfoldable pub now : World → ℕ × World
unfolding pass
now w = ((pass w).clock, pass w)

-- What a call into a command, an instrument or a control does besides its answer: the time it
-- takes, a cancellation requested meanwhile, and the events it publishes, oldest first.
pub record Effect : Type 0 where
  pub elapsed : ℕ
  pub cancels : Bool
  pub events : List EngineEvent

unfoldable pub apply_effect : Effect → World → World
apply_effect e w = record w {
  requested = w.requested || e.cancels;
  clock = w.clock + e.elapsed;
  log = reverse e.events ++ w.log;
}
