-- ===== src/Authorization.antt =====
-- Who may do what: apps/server/src/shared/domain/rules and apps/server/src/modules/authorization.
pub mod Utils
pub mod Context
pub mod Rules
pub mod Guarantees
pub mod Manager
pub mod Service
