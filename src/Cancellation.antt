-- ===== src/Cancellation.antt =====
-- Execution/Cancellation.h and Cancellation.cpp of source/ARTestEngine.Core. The shared state is
-- the flag of the world: the code that runs has one source, and every token is made from it.
mod Laws
pub use Laws.*
mod Defs
unfoldable pub use Defs.*
