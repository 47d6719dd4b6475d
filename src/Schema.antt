-- ===== src/Schema.antt =====
-- Catalog/SchemaValidator.h of source/ARTestEngine.Core. A depth of d is a number of 33 - d levels
-- that are left, so the depth limit of the source bounds the recursion.
pub mod Check
pub mod Validate
pub mod Usable
pub mod Conforms
pub mod Decides
pub mod Exact
pub mod Depth
pub mod Descent
