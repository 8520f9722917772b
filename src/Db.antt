-- ===== src/Db.antt =====
-- db/models.rs: the tables of the database, a row of each as a record, and the statements on it.
-- Ids (UUIDs) and times (seconds) are numbers. A row's new id and the time of a statement
-- (`uuid_generate_v4()`, `NOW()`) are arguments. The `updated_at` triggers are written out.
pub mod SyncTask
pub mod Storage
pub mod UserStorage
pub mod Project
pub mod ProjectStorage
pub mod Location
pub mod File
pub mod SharedLink
pub mod UploadSession
pub mod BackupConfig
pub mod BackupRecord
pub mod User
