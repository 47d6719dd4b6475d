-- ===== src/Tests.antt =====
-- Runs of the model at concrete inputs, and the theorems applied to them.
mod Bench
mod Executor
mod Session
mod Instruments
mod Cancellation
mod Registry
mod Compiler
mod Parts
mod Documents
mod Process
mod Schema
mod Lifecycle
mod Context
mod Broker
mod Registration
mod Engine
