-- ===== src/Backup.antt =====
-- services/backup_service.rs: backups of the database. The text of the dump, compressed, and the
-- parts of a file's name come from outside, for each run.
pub mod Removal
pub mod Paths
pub mod Due
pub mod Routes
pub mod Trigger
pub mod Settled
pub mod Retention
pub mod Configs
pub mod Slots
pub mod Bounded
pub mod Pages
pub mod Overlap
use Prim.Native.String.{◌++◌ as str_append}
use simply_storage.Prelude.{
  ℕ, ◌+◌, String, Option, none, some, Bool, true, false, ◌&&◌, ◌||◌, not, List, [], ◌∷◌, ◌++◌,
  length, str_eq, ◌==◌, if◌then◌else◌, has_char, has_dots, starts_with,
}
use simply_storage.Error.{
  AppError, AppResult, ok, err, ensure, bad_request, not_found, to_string, ◌>>=◌, ◌>>◌,
}
use simply_storage.Error.Action.{Action}
use simply_storage.Db.Storage.{Storage, find_storage}
use simply_storage.Db.BackupConfig.{BackupConfig}
use simply_storage.Db.BackupRecord.{
  BackupRecord, CreateBackupRecord, create, mark_completed, mark_failed, find_by_id, delete,
  list_oldest_completed_by_config, list_all_by_config,
}
use simply_storage.Backend.{Backend}
use simply_storage.Backend.Registry.{get}
use simply_storage.Resolver.{trim_end_slashes}
use simply_storage.World.{World, Env, Bytes, stored, removed}

pub record Backups : Type 0 where
  pub configs : List BackupConfig
  pub history : List BackupRecord
  pub world : World

-- What a run of a backup meets: when it begins and ends, the compressed dump or why there is none,
-- the time and the random part of the file's name, and whether the database takes the statement that
-- marks the row at the end, or why it does not.
pub record Run : Type 0 where
  pub started_at : ℕ
  pub ended_at : ℕ
  pub dump : AppResult Bytes
  pub stamp : String
  pub short_id : String
  pub marking : AppResult (Unit {0})

unfoldable pub is_rooted : String → Bool
unfolding starts_with
is_rooted path = starts_with b'/' path || starts_with b'\\' path

unfoldable pub validate_storage_path : String → AppResult (Unit {0})
unfolding has_char has_dots is_rooted
validate_storage_path path = do
  ensure (not (has_char 0 path)) (bad_request "storage_path must not contain null bytes")
  ensure (not (has_dots path)) (bad_request "storage_path must not contain '..'")
  ensure (not (is_rooted path)) (bad_request "storage_path must be a relative path")
  ensure (not (has_char b':' path)) (bad_request "storage_path must not contain ':'")

unfoldable pub build_upload_path : String → String → String
unfolding trim_end_slashes
build_upload_path storage_path filename =
    if str_eq storage_path ""
    then filename
    else str_append (trim_end_slashes storage_path) (str_append "/" filename)

abbrev pub generate_backup_filename : Run → String
generate_backup_filename run =
    str_append "backup_" (str_append run.stamp (str_append "_" (str_append run.short_id ".sql.gz")))

unfoldable pub validate_storage_available : ℕ → Backups → AppResult (Unit {0})
unfolding get
validate_storage_available storage_id st = elim (get storage_id st.world.registry) [
  | ok _ ↦ ok tt
  | err _ ↦
      err (
        bad_request
          "Storage backend {} is not available. Ensure the storage exists and is enabled.")
]

-- `BackupRecord::create`
unfoldable pub begin : ℕ → CreateBackupRecord → Backups → BackupRecord × Backups
unfolding create
begin now input st =
    let (row, history) = create now st.world.next_id input st.history in
    (
      row,
      record st { history = history; world = record st.world { next_id = st.world.next_id + 1 } },
    )

-- `let _ = BackupRecord::mark_failed(…)`: a refusal is ignored, and the row stays as it is.
unfoldable pub fail : AppResult (Unit {0}) → ℕ → ℕ → String → Backups → Backups
unfolding mark_failed
fail (err e) now id message st = st
fail (ok _) now id message st = record st { history = (mark_failed now id message st.history).1 }

-- `BackupRecord::mark_completed(…).await?`
abbrev pub complete : AppResult (Unit {0}) → ℕ → ℕ → ℕ → String → Action Backups BackupRecord
complete (err e) now id file_size path st = (err e, st)
complete (ok _) now id file_size path st =
    let (r, history) = mark_completed now id file_size path st.history in
    (r, record st { history = history })

abbrev pub put_effects : World → Backups → Backups
put_effects w st = record st { world = w }

abbrev pub row_for : Option ℕ → Option String → ℕ → String → CreateBackupRecord
row_for config_id config_name storage_id path = record {
  config_id = config_id;
  config_name = config_name;
  storage_id = storage_id;
  file_path = path;
}

module _ (env : Env) where
  abbrev uploaded : Backend → String → Bytes → AppResult (Unit {0}) → Action Backups ℕ
  uploaded backend path content (err e) st = (err e, st)
  uploaded backend path content (ok _) st = (
    ok (length content),
    record st {
      world = record st.world { effects = stored backend path content ∷ st.world.effects };
    },
  )

  abbrev send_to : String → Bytes → AppResult Backend → Action Backups ℕ
  send_to path content (err e) st = (err e, st)
  send_to path content (ok backend) st =
      uploaded backend path content (env.upload backend path content) st

  abbrev dumped : String → ℕ → AppResult Bytes → Action Backups ℕ
  dumped path storage_id (err e) st = (err e, st)
  dumped path storage_id (ok content) st =
      send_to path content (get storage_id st.world.registry) st

  -- The size of the uploaded file.
  unfoldable pub execute_backup : Run → String → ℕ → Action Backups ℕ
  unfolding get
  execute_backup run path storage_id st = dumped path storage_id run.dump st

  abbrev pub concluded : Run → ℕ → String → AppResult ℕ → Action Backups BackupRecord
  concluded run record_id path (ok file_size) st =
      complete run.marking run.ended_at record_id file_size path st
  concluded run record_id path (err e) st =
      (err e, fail run.marking run.ended_at record_id (to_string e) st)

  unfoldable pub execute_backup_and_update : Run → ℕ → String → ℕ → Action Backups BackupRecord
  unfolding execute_backup fail mark_completed
  execute_backup_and_update run record_id path storage_id st =
      let (r, st') = execute_backup run path storage_id st in concluded run record_id path r st'

  -- A storage that is not there leaves a failed row at once.
  unfoldable pub create_backup :
      Run → Option ℕ → Option String → ℕ → String → Action Backups BackupRecord
  unfolding validate_storage_available begin fail execute_backup_and_update build_upload_path
  create_backup run config_id config_name storage_id storage_path st =
      elim (validate_storage_available storage_id st) [
        | err e ↦
            let (row, st') =
              begin run.started_at (row_for config_id config_name storage_id "") st in
            (
              err e,
              fail run.marking run.started_at row.id
                  (str_append "Pre-execution failure: " (to_string e)) st',
            )
        | ok _ ↦
            let path = build_upload_path storage_path (generate_backup_filename run) in
            let (row, st') =
              begin run.started_at (row_for config_id config_name storage_id path) st in
            execute_backup_and_update run row.id path storage_id st'
      ]

  abbrev pub deleted_from : Backend → String → AppResult (Unit {0}) → Action Backups (Unit {0})
  deleted_from backend path (err e) st = (err e, st)
  deleted_from backend path (ok _) st = (
    ok tt,
    record st { world = record st.world { effects = removed backend path ∷ st.world.effects } },
  )

  abbrev remove_at : String → AppResult Backend → Action Backups (Unit {0})
  remove_at path (err e) st = (err e, st)
  remove_at path (ok backend) st = deleted_from backend path (env.delete backend path) st

  unfoldable pub delete_from_storage : BackupRecord → Action Backups (Unit {0})
  unfolding get
  delete_from_storage row st = remove_at row.file_path (get row.storage_id st.world.registry) st

  -- `BackupRecord::delete`
  unfoldable pub delete_row : ℕ → Action Backups (Unit {0})
  unfolding delete
  delete_row id st = let (r, history) = delete id st.history in (r, record st { history = history })
