-- ===== src/Executor.antt =====
-- Execution/TestExecutor.cpp of source/ARTestEngine.Core.
pub mod Attempts
pub mod Accounts
pub mod Runs
pub mod Retry
pub mod Loop
pub mod Plan
pub mod Summary
pub mod Verdict
pub mod Severity
pub mod Cancel
