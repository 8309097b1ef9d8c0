-- ===== src/Npm.antt =====
-- internal/format/npm: the npm registry.
pub mod Route
pub mod Packument
pub mod Handler
