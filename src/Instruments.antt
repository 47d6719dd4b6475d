-- ===== src/Instruments.antt =====
-- Instruments/InstrumentManager.h and InstrumentManager.cpp of source/ARTestEngine.Core.
pub mod Manager
pub mod Entries
pub mod Lifecycle
pub mod Tracked
pub mod Loading
pub mod Loaded
pub mod Calls
