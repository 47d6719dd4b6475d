-- ===== src/Process.antt =====
-- source/ARTestEngine.Process: the messages between the engine and its worker processes, and the
-- engine's side of a call.
pub mod Wire
pub mod Frames
pub mod Supervisor
pub mod Requests
pub mod Stopping
pub mod Cancelling
pub mod Interruption
pub mod Deadline
