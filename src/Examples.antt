-- ===== src/Examples.antt =====
-- Tests: the theorems at concrete inputs.
pub mod Instances
pub mod Blobs
pub mod Rows
pub mod Registry
pub mod Sweeps
pub mod Modules
pub mod Webhooks
pub mod Accounts
pub mod Packages
pub mod Jars
pub mod Charts
pub mod Wheels
pub mod Startup
pub mod Management
