-- ===== src/Tests/Cancellation.antt =====
-- Waits and variables at concrete values.
use artest_cli.Base.{◌≤◌, ◌≡◌, refl, true, none, some}
use artest_cli.Base.Int.{pos}
use artest_cli.Cancellation.{
  CancellationToken, is_cancellation_requested, is_timed_out, reason, wait_until_requested,
  sleep_until, block_until, wait_for, wait_for-lasts,
}
use artest_cli.Context.{
  ExecutionContext, IsIncremented, new_context, set_variable, increment_variable,
  get_variable-increment_variable,
}
use artest_cli.Tests.Bench.{quiet}
use artest_cli.World.{pass}

abbrev token : CancellationToken
token = record { shared = true; deadline = some 1500 }

wait_for-lasts_example : 1040 ≤ (wait_for token (pos 40) quiet).1.clock
unfolding wait_for reason block_until wait_until_requested sleep_until is_cancellation_requested
    is_timed_out pass
wait_for-lasts_example = wait_for-lasts token (pos 40) quiet refl

abbrev four : ExecutionContext
four = set_variable "n" (pos 4) new_context

get_variable-increment_variable_example : IsIncremented "n" four (increment_variable "n" four)
get_variable-increment_variable_example = get_variable-increment_variable "n" four

overflows : increment_variable "n" (set_variable "n" (pos 2147483647) new_context) ≡ none
unfolding increment_variable set_variable
overflows = refl
