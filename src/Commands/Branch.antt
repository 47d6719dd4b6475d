-- ===== src/Commands/Branch.antt =====
-- Commands/BuiltIn/IfCommand.cpp of source/ARTestEngine.Core, which is reserved.
use artest_cli.Base.{none, some, String}
use artest_cli.Diagnostics.{OperationResult, Outcome, returned, raised, success, failure}
use artest_cli.Results.{StepStatus, StepResult, step_result}

-- The member `m_condition`.
pub record IfCommand : Type 0 where
  pub condition : String

-- `Configure`.
unfoldable pub configure_if :
    {J : Type 0}
    → (J → String → String → Outcome String)
    → J
    → IfCommand
    → Outcome OperationResult × IfCommand
configure_if value parameters c = elim (value parameters "condition" "") [
  | returned text ↦ (returned success, record { condition = text })
  | raised none ↦ (raised none, c)
  | raised (some what) ↦ (returned (failure "IF_CONFIGURATION_INVALID" what ""), c)
]

-- `Validate`.
abbrev pub validate_if : IfCommand → OperationResult
validate_if c =
    failure "IF_NOT_IMPLEMENTED" "IF is reserved but is not implemented in script version 1." ""

-- `Execute`.
abbrev pub execute_if : {J : Type 0} → J → IfCommand → StepResult J
execute_if null c = step_result null StepStatus.error "IF execution is not implemented."
