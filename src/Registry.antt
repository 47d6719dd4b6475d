-- ===== src/Registry.antt =====
-- Commands/CommandRegistry.cpp, Instruments/InstrumentRegistry.cpp and Catalog/RegistryTransaction.h
-- of source/ARTestEngine.Core. The mutexes make each call one step.
pub mod Creators
pub mod Tables
pub mod Registration
pub mod Transaction
pub mod Withdrawal
