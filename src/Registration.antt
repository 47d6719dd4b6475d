-- ===== src/Registration.antt =====
-- RegistrationStore.cpp of source/ARTestDev: a package is registered by a transaction that is
-- recorded in a journal, so that it can be finished or undone after the process was stopped. A call
-- of the file system that fails and throws is outside the model.
pub mod Disk
pub mod Journal
pub mod Recovery
pub mod Runs
pub mod States
pub mod Checks
pub mod Restoring
pub mod Restarts
pub mod Atomic
pub mod Publishing
pub mod Outcome
