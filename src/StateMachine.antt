-- ===== src/StateMachine.antt =====
-- Execution/ExecutionStateMachine.h and ExecutionStateMachine.cpp of source/ARTestEngine.Core.
-- The mutex makes each call of `TryTransition` one step.
use artest_cli.Base.{Bool, true, false, String, if◌then◌else◌}

pub data ExecutionState : Type 0 where
  idle initializing running cancelling cleaning_up : ExecutionState
  completed failed cancelled timed_out : ExecutionState

abbrev pub to_string : ExecutionState → String
to_string idle = "IDLE"
to_string initializing = "INITIALIZING"
to_string running = "RUNNING"
to_string cancelling = "CANCELLING"
to_string cleaning_up = "CLEANING_UP"
to_string completed = "COMPLETED"
to_string failed = "FAILED"
to_string cancelled = "CANCELLED"
to_string timed_out = "TIMED_OUT"

unfoldable pub is_allowed : ExecutionState → ExecutionState → Bool
is_allowed idle initializing = true
is_allowed initializing running = true
is_allowed initializing cancelling = true
is_allowed initializing cleaning_up = true
is_allowed running cancelling = true
is_allowed running cleaning_up = true
is_allowed cancelling cleaning_up = true
is_allowed cleaning_up completed = true
is_allowed cleaning_up failed = true
is_allowed cleaning_up cancelled = true
is_allowed cleaning_up timed_out = true
is_allowed _ _ = false

-- Whether the transition was made, and the state after the call.
unfoldable pub try_transition : ExecutionState → ExecutionState → Bool × ExecutionState
unfolding is_allowed
try_transition current next = if is_allowed current next then (true, next) else (false, current)
