-- ===== src/Compiler.antt =====
-- Compilation/TestPlanCompiler.cpp of source/ARTestEngine.Core, from Model/TestPlan.h to
-- Model/CompiledStep.h. `SchemaValidator::Validate` is the parameter `validate`.
pub mod Plan
pub mod Steps
pub mod Soundness
pub mod Outcome
pub mod Schemas
