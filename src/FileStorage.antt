-- ===== src/FileStorage.antt =====
-- modules/files-storage: the records of uploaded files and the service that changes them together
-- with the storage, the database and the virus scan.
pub mod Record
pub mod Names
pub mod Environment
pub mod ScanResult
pub mod Service
