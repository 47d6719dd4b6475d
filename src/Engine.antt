-- ===== src/Engine.antt =====
-- The engine behind the C interface: source/ARTestEngine/Api over the data of a catalog scan.
pub mod Scan
pub mod Context
pub mod Plans
pub mod Sessions
pub mod Calls
pub mod Resolving
pub mod Sound
pub mod Preparing
pub mod Activating
pub mod Leasing
pub mod Starting
pub mod Reached
