-- ===== src/Tests/Bench.antt =====
-- A simulated host: a command answers the results that it holds, one for each attempt, and passes
-- when none is left; the bench counts the calls; JSON values are numbers.
use artest_cli.Base.{ℕ, zero, suc, true, false, some, List, [], ◌∷◌}
use artest_cli.Base.Int.{pos}
use artest_cli.Diagnostics.{OperationResult, returned, success, failure}
use artest_cli.Executor.Attempts.{RuntimeStep}
use artest_cli.Host.{Host, Reply, proceed}
use artest_cli.Instruments.Manager.{Entries, InstrumentManager}
use artest_cli.Results.{StepStatus, StepResult, FailureAction, stop, continue, step_result}
use artest_cli.Session.Binding.{CompiledStep}
use artest_cli.World.{World, Effect}

abbrev pub quick : Effect
quick = record { elapsed = 5; cancels = false; events = [] }

abbrev pub reply : {A : Type 0} → ℕ → A → Reply ℕ A
reply b a = record { outcome = returned a; bench = suc b; effect = quick }

-- The first result held, and the others.
abbrev next_result : List (StepResult ℕ) → StepResult ℕ
next_result [] = step_result 0 StepStatus.passed ""
next_result (r ∷ rs) = r

abbrev other_results : List (StepResult ℕ) → List (StepResult ℕ)
other_results [] = []
other_results (r ∷ rs) = rs

-- Device 9 does not initialise.
abbrev initialize_device : ℕ → OperationResult
initialize_device (suc (suc (suc (suc (suc (suc (suc (suc (suc zero))))))))) =
    failure "POWER_OFFLINE" "The instrument does not answer." ""
initialize_device _ = success

abbrev pub demo : Host
demo = record {
  Json = ℕ;
  Command = List (StepResult ℕ);
  Device = ℕ;
  Bench = ℕ;
  CommandCreator = List (StepResult ℕ);
  InstrumentCreator = ℕ;
  null = 0;
  execute = λ c context token b w. record {
    outcome = returned (next_result c);
    command = other_results c;
    context = context;
    bench = suc b;
    effect = quick;
  };
  before_step = λ info b w. reply b proceed;
  create_command = λ creator b w. reply b (some creator);
  configure = λ c parameters device b w. reply b (success, c);
  validate = λ c b w. reply b success;
  create_instrument = λ creator b w. reply b (some creator);
  set_id = λ device id b w. reply b tt;
  initialize = λ device configuration b w. reply b (initialize_device device);
  shutdown = λ device b w. reply b success;
}

abbrev pub failed_once : StepResult ℕ
failed_once = step_result 0 StepStatus.failed "The voltage is low."

abbrev pub unknown_effect : StepResult ℕ
unknown_effect = record failed_once { status = StepStatus.error; indeterminate = true }

abbrev pub step_of : ℕ → List (StepResult ℕ) → FailureAction → RuntimeStep (List (StepResult ℕ))
step_of id results action = record {
  step_id = id;
  command_name = "measure";
  command = results;
  policy = record {
    max_attempts = pos 3;
    retry_delay = pos 10;
    timeout = pos 100;
    on_failure = action;
  };
}

-- A step that passes at its second attempt, one that leaves an unknown effect, and one that is
-- not reached.
abbrev pub plan : List (RuntimeStep (List (StepResult ℕ)))
plan =
    step_of 1 (failed_once ∷ []) stop
    ∷ step_of 2 (unknown_effect ∷ []) continue
    ∷ step_of 3 [] stop
    ∷ []

-- A plan whose steps all pass.
abbrev pub good_plan : List (RuntimeStep (List (StepResult ℕ)))
good_plan = step_of 1 (failed_once ∷ []) stop ∷ step_of 2 [] stop ∷ []

abbrev pub quiet : World
quiet = record { requested = false; clock = 1000; pending = []; log = [] }

-- Cancellation is requested before anything is read.
abbrev pub revoked : World
revoked = record quiet { requested = true }

-- Two instruments, in the order of their keys; the second one is broken in `faulty`.
abbrev pub instruments : ℕ → Entries ℕ ℕ
instruments device =
    ("PS1", record { device = 1; configuration = 0; initialized = false })
    ∷ ("PS2", record { device = device; configuration = 0; initialized = false })
    ∷ []

abbrev pub manager_of : ℕ → InstrumentManager demo
manager_of device = record {
  instruments = instruments device;
  initialization_order = [];
  bench = 0;
  world = quiet;
}

abbrev pub measure_step : CompiledStep ℕ
measure_step = record {
  step_id = 1;
  command_name = "measure";
  component_type = "measure";
  parameters = 0;
  instrument_id = some "PS1";
  policy = (step_of 1 [] stop).policy;
}
