-- ===== src/Catalog.antt =====
-- Catalog/ComponentCatalog.h and Catalog/ComponentDescriptor.h of source/ARTestEngine.Core.
pub mod Components
pub mod Resolution
