-- ===== src/Auth.antt =====
-- internal/auth: users, passwords and access tokens.
pub mod Tables
pub mod Secrets
pub mod Service
pub mod Rows
pub mod Sessions
pub mod Accounts
pub mod Passwords
