-- ===== src/World.antt =====
-- Execution/IEventSink.h of source/ARTestEngine.Core, and the world that an execution runs in.
-- Another thread may request cancellation, and time passes, between any two operations of the
-- worker. `pending` lists these interferences: each read of the flag or the clock takes one.
-- The clock counts milliseconds from its epoch. The log holds the newest event first.
mod Defs
mod Laws
unfoldable pub use Defs.*
pub use Laws.*
