-- ===== src/Migration.antt =====
-- modules/user-login-migration: the migration of a school to another login system.
pub mod School
pub mod Rollback
pub mod Eligible
