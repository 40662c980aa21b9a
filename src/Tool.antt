-- ===== src/Tool.antt =====
-- modules/tool/service: when a tool gets a new version, and which tools are accepted.
pub mod Parameters
pub mod Version
pub mod Validation
pub mod SchoolValidation
pub mod ExternalValidation
