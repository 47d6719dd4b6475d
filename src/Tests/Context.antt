-- ===== src/Tests/Context.antt =====
-- A condition on a variable.
use artest_cli.Base.{◌≡◌, refl, true, Option, none, some, String, str_eq, if◌then◌else◌}
use artest_cli.Base.Int.{ℤ, pos}
use artest_cli.Context.{set_variable, get_variable, new_context}
use artest_cli.Context.Condition.{
  AnswersTo, Relates, at_least, evaluate_condition, evaluate_condition-AnswersTo,
}
use artest_cli.Diagnostics.{Outcome, returned, raised}

-- `x >= 3` with a reader of this one expression.
abbrev reads_one : String → Option (String × String × String)
reads_one e = if str_eq e "x >= 3" then some ("x", ">=", "3") else none

abbrev reads_three : String → Outcome ℤ
reads_three s = if str_eq s "3" then returned (pos 3) else raised (some "stoi")

evaluate_condition-AnswersTo_example :
    AnswersTo
      (Relates at_least (pos 5) (pos 3))
      (evaluate_condition reads_one reads_three "x >= 3" (set_variable "x" (pos 5) new_context))
evaluate_condition-AnswersTo_example =
    evaluate_condition-AnswersTo reads_one reads_three at_least "x >= 3" "x" "3" (pos 5) (pos 3)
      new_context refl refl

answers_true :
    evaluate_condition reads_one reads_three "x >= 3" (set_variable "x" (pos 5) new_context)
    ≡ returned true
unfolding evaluate_condition set_variable get_variable
answers_true = refl
