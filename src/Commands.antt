-- ===== src/Commands.antt =====
-- The commands of Commands/BuiltIn in source/ARTestEngine.Core. `basic_json::value`, which they
-- read their parameters with, is a parameter: it answers the member, the default, or an exception.
pub mod Wait
pub mod Branch
