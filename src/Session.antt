-- ===== src/Session.antt =====
-- Execution/ExecutionSession.h and ExecutionSession.cpp of source/ARTestEngine.Core.
pub mod Binding
pub mod Worker
pub mod Outcome
pub mod Verdict
pub mod Instruments
pub mod Lifecycle
pub mod Calls
