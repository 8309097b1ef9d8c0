-- ===== src/Maven.antt =====
-- internal/format/maven: the repository of Maven 2.
pub mod Path
pub mod Metadata
pub mod Handler
