-- ===== src/Tests.antt =====
-- Concrete inputs for the theorems, and runs of the definitions.
mod Samples
mod Filter
mod Storage
mod SyncTask
mod Isolation
mod FileService
mod SyncWorker
mod SharedLink
mod Access
mod Upload
mod BulkDelete
mod Tier
mod Local
mod Backup
mod Auth
mod Bulk
mod Storages
mod Projects
mod FileRoutes
