-- ===== src/Lib.antt =====
-- Simply Storage: a distributed file store with deduplication, a queue of copies between storages,
-- hot and cold tiers, shared links and resumable uploads (the Rust server under src/).
--
-- Parts and files
--   Prelude      shared names, Boolean tests, lists, and a database table as the list of its rows
--   Error        src/error.rs: the error type; Error/Action: code that keeps its writes on an error
--   Json         serde_json values
--   Db           src/db/models.rs: rows and statements, one child for each table
--     SyncTask     the queue of copies; Claim and Race are about its claim by one and two workers,
--                  Attempts and its History about how often a task is tried
--     Storage      storages and their assignment to projects; Credentials is about their secrets
--     File         files by hash, and references of projects to them; Unique is about its constraint
--     Location     which storage has a copy of which file; Unique is about its unique constraint
--     SharedLink   links; Limit is about their limit of downloads under concurrent requests
--     UploadSession  resumable uploads
--     BackupConfig, BackupRecord  backups of the database: where and when, and the runs
--     User         accounts and refresh tokens
--     Project, ProjectStorage, UserStorage  projects, their storages, and the storages of users
--   Filter       src/db/models.rs: the metadata filter compiler (Expr, Compile, Meaning) and the
--                clause of a bulk delete (BulkDelete)
--   Backend      src/storage/registry.rs: the factory of backends; Registry: the registry of them
--                Local: src/storage/local.rs, files on a local disk; Confined is about the base
--                directory, Files about reading back, Shards about the folders of a hash
--   Resolver     src/services/backend_resolver.rs: the container of a project on a storage; Isolation
--                is about two projects on one storage
--   World        the state that the services share, and what lies outside the repository
--   FileService  src/services/file_service.rs: uploads; Download is downloads, BulkDelete
--                bulk deletion with Safety and Physical about it; Dedup is about known content,
--                Coverage about the copies that an upload schedules
--   SyncWorker   src/workers/sync_worker.rs: a round of a worker; Settled and Round are about the tasks
--                that it claims, Copy about a single copy
--   SharedLink   src/services/shared_link_service.rs: links for clients without an account; Token is
--                about the tokens of links with a password, Download about downloads
--   Access       src/api/auth.rs and the checks of src/api/files.rs and src/api/shared_links.rs: who may
--                read and write; Agreement is about checks on files and on projects
--   Upload       src/api/uploads.rs and src/workers/upload_cleanup_worker.rs: resumable uploads; TempFiles
--                is their directory, Sweep the cleanup; Resume is about chunks, Cleanup about
--                what the cleanup does to an upload that has begun
--   Tier         src/services/tier_service.rs and src/workers/tier_worker.rs: archiving; Recall is
--                restoring; Archive is about archiving, Restore about what follows a restoration
--   Backup       src/services/backup_service.rs: backups of the database; Removal is what it deletes,
--                Due src/workers/backup_worker.rs, Routes and Trigger src/api/backups.rs; Settled, Slots,
--                Retention, Bounded, Configs, Pages, Overlap and Paths are about them
--   Auth         src/services/auth_service.rs and src/api/auth_routes.rs: accounts, logins and refresh
--                tokens; Users is what an administrator changes; SingleUse is about refresh tokens,
--                Admins about accounts of administrators and refused deletions
--   Pagination   the pages of src/api/mod.rs; Cover is about going through them
--   Storages     src/api/storages.rs: the administration of storages; Members is their files, containers
--                and members; Fit and InStep are about the registry, Visible about who sees what
--   Projects     src/api/projects.rs: projects, their storages and members; Distinct, Members, Steps and
--                Histories are about the tables, Visible about who sees and changes what, Isolated
--                about the backends of two projects
--   FileRoutes   src/api/files.rs: requests on files; Enrich is the state of their copies, Links signed
--                links (also src/storage/local.rs), Requests about forced copies and names
--   Bulk         src/services/bulk_service.rs: copying all files to a storage; Again is about asking
--                twice; Export is the export of a storage, with Jobs about its course
--   Tests        concrete inputs for the theorems, and runs of the definitions
--
-- How the model reads the code
--   A statement is a function on the list of a table's rows; its time and its new ids are arguments.
--   Text columns that hold a state are data types of the values that the code writes. A message is
--   the literal of its format string. A statement that the database refuses for another reason than
--   a unique constraint, such as a lost connection, is not modelled unless a definition says so.
--   Rows that a statement refers to exist, except where a request names a project freely.
--   Numbers are unbounded: ids, sizes and times stay far below their machine widths.
--   Every loop runs over a list, by structural recursion; only the decimal text of a number takes
--   fuel, twenty digits, which are those of 64 bits. What other requests do between two statements of
--   one is an argument (`meanwhile`) or a history of statements.
--
-- What is not modelled
--   The clients of the storages are answers of the environment (`Env`), as are hashing, JWT and
--   password hashing; HMAC, URL encoding, the reading of queries, pg_dump, gzip, tar and cron
--   expressions are parameters where they are used. Of a local disk, making and removing folders and
--   listing are left out; of src/api/files.rs, the search. Start-up, configuration, logs, route
--   tables, statistics and the web client are left out.
pub mod Prelude
pub mod Error
pub mod Json
pub mod Db
pub mod Backend
pub mod Resolver
pub mod World
pub mod FileService
pub mod SyncWorker
pub mod SharedLink
pub mod Access
pub mod Upload
pub mod Tier
pub mod Filter
pub mod Tests
pub mod Backup
pub mod Auth
pub mod Bulk
pub mod Pagination
pub mod Storages
pub mod Projects
pub mod FileRoutes
