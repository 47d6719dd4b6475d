-- ===== src/Parser.antt =====
-- Parsing/JsonTestPlanParser.cpp of source/ARTestEngine.Core, from a JSON text to Model/TestPlan.h.
pub mod Members
pub mod Parse
pub mod Reads
pub mod Denotes
pub mod Faithful
pub mod Loops
pub mod Plan
