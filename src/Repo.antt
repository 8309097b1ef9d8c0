-- ===== src/Repo.antt =====
-- internal/repo: repositories, the artifacts that they hold, and the lookups of group repositories.
pub mod Tables
pub mod Store
pub mod Rows
pub mod Resolve
pub mod Listing
